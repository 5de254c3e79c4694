-- ===== src/Evidence/Samples.antt =====
-- The evidence of one run, for the tests.
use web_app_qa_tests_main.Base.{String, none, some, List, [], ◌∷◌}
use web_app_qa_tests_main.Outbox.Payload.{no_field}
use web_app_qa_tests_main.Evidence.{date, uploaded, indexed, Bundle, Item}

abbrev pub sha : String
sha = "0123456789abcdef0123456789abcdef0123456789abcdef0123456789abcdef"

abbrev pub report : Item
report = record {
  artifact_id = "artifact";
  bundle_id = "bundle";
  campaign_key = "safe_regression";
  created_at = date 86400000;
  id = "item";
  metadata = no_field;
  relative_path = "report.json";
  retention_class = "default";
  run_id = "run";
  sha256 = sha;
  size_bytes = 12;
  storage_backend = "spaces";
  storage_bucket = some "evidence";
  storage_key = "inssa/run/report.json";
  upload_error = none;
  upload_status = uploaded;
  uploaded_at = date 86400000;
}

abbrev pub bundle : Bundle
bundle = record {
  bundle_type = "report";
  campaign_key = "safe_regression";
  checksum_manifest = ("report.json", sha) ∷ [];
  created_at = date 86400000;
  id = "bundle";
  indexed_at = date 86400000;
  item_count = 1;
  retention_class = "default";
  run_id = "run";
  status = indexed;
  storage_backend = "spaces";
  storage_bucket = some "evidence";
  storage_prefix = some "inssa/run";
  total_bytes = 12;
  upload_error = none;
  upload_status = uploaded;
  uploaded_at = date 86400000;
}

abbrev pub items : List Item
items = report ∷ []
