-- ===== src/Evidence/Tests.antt =====
-- The evidence of one run, published twice.
use web_app_qa_tests_main.Base.{
  String, Bool, false, none, some, [], ◌∷◌, ◌≡◌, refl, Answer, done, answered, split, chars, find,
}
use web_app_qa_tests_main.Evidence.Samples.{report, bundle, items}
use web_app_qa_tests_main.Evidence.Location.{
  safe_storage_key, is_bucket, resolve, below, safe_storage_key-Confines,
}
use web_app_qa_tests_main.Evidence.Integrity.{
  is_sha256, checksum_of, is_bad_path, check_items, validate_evidence_manifest, has_item_id,
}
use web_app_qa_tests_main.Evidence.Manifest.{IsManifest, validate-IsManifest}
use web_app_qa_tests_main.Evidence.Publish.{
  EvidenceStore, Publication, bundles_of, items_of, publish_all,
}
use web_app_qa_tests_main.Evidence.Replaced.{Holds}
use web_app_qa_tests_main.Evidence.Durable.{published_is_immutable}

-- Paths in the test are relative and normal.
abbrev same_path : String → String
same_path t = t

abbrev not_absolute : String → Bool
not_absolute t = false

manifest_accepted :
    validate_evidence_manifest same_path not_absolute "run" (some bundle) items ≡ answered done
unfolding validate_evidence_manifest check_items is_bad_path is_sha256 is_bucket chars checksum_of
manifest_accepted = refl

validate-IsManifest_example : IsManifest "run" bundle items
validate-IsManifest_example =
    validate-IsManifest same_path not_absolute "run" bundle items manifest_accepted

key_accepted : safe_storage_key "inssa/run/report.json" ≡ answered "inssa/run/report.json"
unfolding safe_storage_key chars
key_accepted = refl

abbrev report_key : String
report_key = "inssa/run/report.json"

abbrev climbing : String
climbing = "inssa/../secret"

climbing_refused : safe_storage_key climbing ≡ Answer.refused "Invalid evidence storage key."
unfolding safe_storage_key chars
climbing_refused = refl

safe_storage_key-Confines_example :
    (report_key ≡ report_key)
    × (resolve [] (split 47 (chars report_key)) ≡ below [] (split 47 (chars report_key)))
safe_storage_key-Confines_example = safe_storage_key-Confines report_key report_key [] key_accepted

abbrev store : EvidenceStore
store = record { bundles = bundle ∷ []; items = items }

abbrev again : Publication
again = record {
  run_id = "run";
  bundle = some bundle;
  items = items;
  owner = none;
  job = none;
  now = 0;
}

stored_bundle : bundles_of "run" store ≡ bundle ∷ []
unfolding bundles_of
stored_bundle = refl

stored_item : find (has_item_id "item") (items_of "run" store) ≡ some report
unfolding find items_of
stored_item = refl

-- The second publication asks for other bytes.
abbrev changed : Publication
changed = record again { items = record report { size_bytes = 13 } ∷ [] }

published_is_immutable_example :
    Holds "run" "item" report (publish_all same_path not_absolute (again ∷ changed ∷ []) store)
published_is_immutable_example =
    published_is_immutable same_path not_absolute (again ∷ changed ∷ []) store "run" "item" report
      bundle [] stored_bundle stored_item
