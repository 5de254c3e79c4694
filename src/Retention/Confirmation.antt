-- ===== src/Retention/Confirmation.antt =====
-- dashboard/lib/inssa-ops/retention-confirmation.ts: an administrator is shown the eligible batch
-- and confirms it with a signed token. The platform's functions are arguments: HMAC-SHA256,
-- base64url of bytes, and JSON in base64url. Numbers of milliseconds are finite.
use web_app_qa_tests_main.Base.{
  ℕ, ◌+◌, String, str_eq, ◌<>◌, Bool, true, false, ◌&&◌, ◌||◌, not, Option, none, some, or_else,
  List, [], ◌∷◌, ◌++◌, ltb, leb, ◌==◌, if◌then◌else◌, all, length, Char, chars, has_code, is_hex,
  split, texts_of, utf16_length, Answer, answered, refused, refuse_if, and_then,
}
use web_app_qa_tests_main.Retention.{RetentionDecision}
use web_app_qa_tests_main.Retention.Plan.{RetentionPlan, is_eligible, with_reason}
use web_app_qa_tests_main.Retention.Executor.{
  bundle_limit, object_limit, byte_limit, certify_execution_plan,
}

abbrev pub retention_confirmation : String
retention_confirmation = "DELETE ELIGIBLE EVIDENCE"

pub record Approval : Type 0 where
  pub user_id : String
  pub revision : String
  pub policy : String
  pub bundle_ids : List String
  pub expires_at : ℕ
  pub occurrence : String

pub record RetentionPreview : Type 0 where
  pub token : String
  pub bundles : ℕ
  pub objects : ℕ
  pub bytes : ℕ
  pub expires_at : ℕ

pub record Batch : Type 0 where
  pub bundle_ids : List String
  pub objects : ℕ
  pub bytes : ℕ

abbrev pub fits : RetentionDecision → Batch → Bool
fits row batch =
    (not (leb bundle_limit (length batch.bundle_ids))
      && leb (batch.objects + row.object_count) object_limit)
    && leb (batch.bytes + row.bytes) byte_limit

abbrev pub with_row : RetentionDecision → Batch → Batch
with_row row batch = record {
  bundle_ids = batch.bundle_ids ++ row.bundle_id ∷ [];
  objects = batch.objects + row.object_count;
  bytes = batch.bytes + row.bytes;
}

-- Eligible rows in their order, up to the first that does not fit.
abbrev pub batch_of : List RetentionDecision → Batch → Batch
batch_of [] batch = batch
batch_of (row ∷ rows) batch =
    let rest = batch_of rows (with_row row batch) in
    let skipped = batch_of rows batch in
    if with_reason is_eligible row then (if fits row batch then rest else batch) else skipped

abbrev pub empty_batch : Batch
empty_batch = record { bundle_ids = []; objects = 0; bytes = 0 }

abbrev pub is_empty_ids : List String → Bool
is_empty_ids [] = true
is_empty_ids (id ∷ ids) = false

-- `/^manual:[a-f0-9-]{36}$/`
abbrev is_occurrence_code : Char → Bool
is_occurrence_code c = is_hex c || has_code 45 c

abbrev after_manual : List Char → Option (List Char)
after_manual (m ∷ a ∷ n ∷ u ∷ a' ∷ l ∷ c ∷ rest) =
    if (has_code 109 m && (has_code 97 a && has_code 110 n))
      && ((has_code 117 u && has_code 97 a') && (has_code 108 l && has_code 58 c))
    then some rest
    else none
after_manual _ = none

abbrev is_uuid_like : Option (List Char) → Bool
is_uuid_like none = false
is_uuid_like (some cs) = length cs == 36 && all is_occurrence_code cs

unfoldable pub is_occurrence : String → Bool
unfolding chars
is_occurrence t = is_uuid_like (after_manual (chars t))

-- The platform's functions.
pub record Crypto : Type 0 where
  pub hmac : (key text : String) → String
  pub encode_bytes : String → String
  pub decode_bytes : String → String
  pub encode_approval : Approval → String
  pub decode_approval : String → Option Approval

-- `a || b`, for environment variables.
abbrev pub first_set : Option String → Option String → String
first_set none none = ""
first_set none (some b) = b
first_set (some a) b = if str_eq a "" then or_else b "" else a

abbrev pub approval_of :
    RetentionPlan → (user_id : String) → (now : ℕ) → (uuid : String) → List String → Approval
approval_of plan user_id now uuid ids = record {
  user_id = user_id;
  revision = plan.snapshot_revision;
  policy = plan.policy_version;
  bundle_ids = ids;
  expires_at = now + 300000;
  occurrence = "manual:" <> uuid;
}

abbrev pub invalid : String
invalid =
    "Retention confirmation is invalid or expired. Refresh and review the eligible batch again."

abbrev pub is_unacceptable : Approval → (user_id : String) → (now : ℕ) → Bool
is_unacceptable a user_id now =
    (not (str_eq a.user_id user_id) || not (str_eq a.policy "evidence-retention-v3"))
    || ((leb a.expires_at now || ltb (now + 300000) a.expires_at)
        || (not (is_occurrence a.occurrence)
            || (is_empty_ids a.bundle_ids || ltb bundle_limit (length a.bundle_ids))))

abbrev pub accepted_approval : Option Approval → (user_id : String) → (now : ℕ) → Answer Approval
accepted_approval none user_id now = refused invalid
accepted_approval (some a) user_id now =
    refuse_if (is_unacceptable a user_id now) invalid (answered a)

module _ (crypto : Crypto) (secret service_key : Option String) where
  unfoldable pub sign : String → Answer String
  unfolding utf16_length
  sign payload =
      let key = first_set secret service_key in
      refuse_if (str_eq key "" || ltb (utf16_length key) 32)
        "Retention confirmation signing is unavailable."
        (answered (crypto.hmac key ("retention-manual-v3:" <> payload)))

  abbrev pub preview_of : Approval → Batch → Answer RetentionPreview
  preview_of approval batch =
      let payload = crypto.encode_approval approval in
      and_then (sign payload) λ mac. answered (record {
        token = payload <> ("." <> crypto.encode_bytes mac);
        bundles = length batch.bundle_ids;
        objects = batch.objects;
        bytes = batch.bytes;
        expires_at = approval.expires_at;
      })

  abbrev pub previewed :
      RetentionPlan
      → (user_id : String) → (now : ℕ) → (uuid : String) → Batch
      → Answer (Option RetentionPreview)
  previewed plan user_id now uuid batch =
      if is_empty_ids batch.bundle_ids
      then answered none
      else and_then (preview_of (approval_of plan user_id now uuid batch.bundle_ids) batch)
          (λ p. answered (some p))

  unfoldable pub create_retention_preview :
      RetentionPlan
      → (user_id : String) → (now : ℕ) → (uuid : String) → Answer (Option RetentionPreview)
  unfolding sign
  create_retention_preview plan user_id now uuid =
      and_then (certify_execution_plan plan)
        λ d. previewed plan user_id now uuid (batch_of plan.bundles empty_batch)

  abbrev pub verify_parts : List String → (user_id : String) → (now : ℕ) → Answer Approval
  verify_parts (payload ∷ signature ∷ []) user_id now = and_then (sign payload) λ expected.
      refuse_if (not (str_eq (crypto.decode_bytes signature) expected)) invalid
        (accepted_approval (crypto.decode_approval payload) user_id now)
  verify_parts _ user_id now = refused invalid

  -- The token and the phrase are texts; anything else is refused alike.
  unfoldable pub verify_retention_confirmation :
      (token phrase : Option String) → (user_id : String) → (now : ℕ) → Answer Approval
  unfolding sign is_occurrence chars texts_of utf16_length
  verify_retention_confirmation none phrase user_id now = refused invalid
  verify_retention_confirmation (some token) none user_id now = refused invalid
  verify_retention_confirmation (some token) (some phrase) user_id now =
      refuse_if (not (str_eq phrase retention_confirmation) || ltb 20000 (utf16_length token))
        invalid (verify_parts (texts_of (split 46 (chars token))) user_id now)
