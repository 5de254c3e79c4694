-- ===== src/Retention/TokenTests.antt =====
-- A confirmation token, issued and confirmed.
use web_app_qa_tests_main.Base.{
  String, none, some, [], ◌∷◌, ◌≡◌, refl, arith, chars, includes, false, utf16_length, answered,
  text_of, texts_of,
}
use web_app_qa_tests_main.Evidence.Location.{is_bucket}
use web_app_qa_tests_main.Evidence.Integrity.{is_sha256, checksum_of}
use web_app_qa_tests_main.Retention.Protect.{names_security}
use web_app_qa_tests_main.Retention.Plan.{RetentionPlan, decide, decide_all, plan_at}
use web_app_qa_tests_main.Retention.Executor.{no_options}
use web_app_qa_tests_main.Retention.Confirmation.{
  retention_confirmation, Approval, RetentionPreview, Crypto, is_occurrence, sign,
  create_retention_preview, verify_retention_confirmation,
}
use web_app_qa_tests_main.Retention.Tokens.{
  IsAuthentic, approval_in, preview_is_confirmed, confirmed-IsAuthentic,
}
use web_app_qa_tests_main.Retention.Tests.{services, in_order, after_days, snapshot_of_reports}

abbrev uuid : String
uuid = "0123abcd-0123-4bcd-8123-0123456789ab"

abbrev approval : Approval
approval = record {
  user_id = "admin";
  revision = "r-1";
  policy = "evidence-retention-v3";
  bundle_ids = "bundle" ∷ [];
  expires_at = 301000;
  occurrence = "manual:0123abcd-0123-4bcd-8123-0123456789ab";
}

abbrev crypto : Crypto
crypto = record {
  hmac = λ key text. "digest";
  encode_bytes = λ bytes. bytes;
  decode_bytes = λ text. text;
  encode_approval = λ a. "payload";
  decode_approval = λ text. some approval;
}

abbrev secret : String
secret = "0123456789abcdef0123456789abcdef"

abbrev plan : RetentionPlan
plan = plan_at services in_order no_options (after_days 40) snapshot_of_reports

abbrev preview : RetentionPreview
preview = record {
  token = "payload.digest";
  bundles = 1;
  objects = 1;
  bytes = 12;
  expires_at = 301000;
}

previewed :
    create_retention_preview crypto (some secret) none plan "admin" 1000 uuid
    ≡ answered (some preview)
unfolding create_retention_preview plan_at decide_all decide is_bucket is_sha256 checksum_of
    names_security sign
previewed = refl

digest-plain :
    (mac : String)
    → sign crypto (some secret) none "payload" ≡ answered mac
    → (mac ≡ mac) × (includes 46 (chars mac) ≡ false)
unfolding sign chars utf16_length
digest-plain mac e = let is_digest : mac ≡ "digest" = cc in (refl, rw is_digest refl)

confirmed :
    verify_retention_confirmation crypto
      (some secret)
      none
      (some "payload.digest")
      (some retention_confirmation)
      "admin"
      2000
    ≡ answered approval
unfolding verify_retention_confirmation sign chars texts_of text_of utf16_length is_occurrence
confirmed = refl

confirmed-IsAuthentic_example :
    (retention_confirmation ≡ retention_confirmation)
    × IsAuthentic crypto (some secret) none "payload.digest" "admin" 2000 approval
confirmed-IsAuthentic_example =
    confirmed-IsAuthentic crypto (some secret) none "payload.digest" retention_confirmation "admin"
      2000 approval confirmed

preview_is_confirmed_example :
    verify_retention_confirmation crypto
      (some secret)
      none
      (some "payload.digest")
      (some retention_confirmation)
      "admin"
      2000
    ≡ answered (approval_in plan "admin" 1000 uuid)
unfolding plan_at decide_all decide is_bucket is_sha256 checksum_of names_security sign chars
    utf16_length is_occurrence
preview_is_confirmed_example =
    preview_is_confirmed crypto (some secret) none plan "admin" 1000 2000 uuid preview
      (refl, refl, digest-plain) previewed refl (omega arith) (omega arith) (omega arith)
