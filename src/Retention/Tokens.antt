-- ===== src/Retention/Tokens.antt =====
-- What the confirmation of dashboard/lib/inssa-ops/retention-confirmation.ts accepts.
use web_app_qa_tests_main.Base.{
  ℕ, ◌+◌, ◌≤◌, ◌<◌, String, str_eq, eq_iff, eq_refl, ◌<>◌, true, false, ◌||◌, not, Option, none,
  some, List, [], ◌∷◌, ◌≡◌, inl, inr, refl, sym, ap, ◌∙◌, subst, arith, ltb, length, length-append,
  chars, chars-append, includes, split, split_two, texts_of, text_of-chars, utf16_length,
  Bool-cases, Answer, done, answered, refused, refuse_if-passes, refused-answered, and_then-answers,
}
use web_app_qa_tests_main.Retention.{RetentionDecision}
use web_app_qa_tests_main.Retention.Policy.{policy_version}
use web_app_qa_tests_main.Retention.Plan.{RetentionPlan, is_eligible, with_reason}
use web_app_qa_tests_main.Retention.Executor.{
  bundle_limit, object_limit, byte_limit, is_uncertified, certify_execution_plan,
}
use web_app_qa_tests_main.Retention.Confirmation.{
  retention_confirmation, Approval, RetentionPreview, Batch, batch_of, empty_batch, fits, with_row,
  is_empty_ids, is_occurrence, Crypto, sign, approval_of, preview_of, previewed,
  create_retention_preview, invalid, is_unacceptable, accepted_approval, verify_parts,
  verify_retention_confirmation,
}

abbrev pub IsWithinLimits : Batch → Type 0
IsWithinLimits batch =
    (length batch.bundle_ids ≤ bundle_limit)
    × (batch.objects ≤ object_limit)
    × (batch.bytes ≤ byte_limit)

batch_of-IsWithinLimits :
    (rows : List RetentionDecision) (batch : Batch)
    → IsWithinLimits batch
    → IsWithinLimits (batch_of rows batch)
batch_of-IsWithinLimits [] batch h = h
batch_of-IsWithinLimits (row ∷ rows) batch h = elim (Bool-cases (with_reason is_eligible row)) [
  | inr n ↦ rw n (batch_of-IsWithinLimits rows batch h)
  | inl y ↦ rw y (elim (Bool-cases (fits row batch)) [
    | inr n ↦ rw n h
    | inl f ↦ rw f (
        let more = length-append batch.bundle_ids (row.bundle_id ∷ []) in
        batch_of-IsWithinLimits rows (with_row row batch)
          (omega (arith, more, ids_fit row batch f), ground arith, ground arith))
  ])
]
  where
    ids_fit :
        (row : RetentionDecision) (batch : Batch)
        → fits row batch ≡ true
        → length batch.bundle_ids < bundle_limit
    ids_fit row batch f = ground arith

abbrev shown_token : Answer RetentionPreview → String
shown_token (answered p) = p.token
shown_token (refused m) = ""

is_empty_ids-length : (ids : List String) → is_empty_ids ids ≡ false → 0 < length ids
is_empty_ids-length [] h = cc
is_empty_ids-length (id ∷ ids) h = omega arith

-- The two parts of a token.
token-parts :
    (payload signature : String)
    → includes 46 (chars payload) ≡ false
    → includes 46 (chars signature) ≡ false
    → texts_of (split 46 (chars (payload <> ("." <> signature)))) ≡ payload ∷ signature ∷ []
unfolding texts_of chars
token-parts payload signature hp hs =
    rw (chars-append payload ("." <> signature), chars-append "." signature)
      (rw (split_two 46 (chars payload) "." (chars signature) hp refl hs)
        (rw (text_of-chars payload, text_of-chars signature) refl))

abbrev pub approval_in : RetentionPlan → (user_id : String) → (now : ℕ) → (uuid : String) → Approval
approval_in plan user_id now uuid =
    approval_of plan user_id now uuid (batch_of plan.bundles empty_batch).bundle_ids

module _ (crypto : Crypto) (secret service_key : Option String) where
  created-parts :
      (plan : RetentionPlan) (user_id : String) (now : ℕ) (uuid : String) (p : RetentionPreview)
      → create_retention_preview crypto secret service_key plan user_id now uuid ≡ answered (some p)
      → let batch = batch_of plan.bundles empty_batch in
        let payload = crypto.encode_approval (approval_of plan user_id now uuid batch.bundle_ids) in
        (plan.policy_version ≡ policy_version)
        × (is_empty_ids batch.bundle_ids ≡ false)
        × ((mac : String) × (sign crypto secret service_key payload ≡ answered mac)
            × (p.token ≡ payload <> ("." <> crypto.encode_bytes mac)))
  unfolding create_retention_preview
  created-parts plan user_id now uuid p h =
      let batch = batch_of plan.bundles empty_batch in
      let approval = approval_of plan user_id now uuid batch.bundle_ids in
      let payload = crypto.encode_approval approval in
      let (d, certified, made) =
        and_then-answers (certify_execution_plan plan)
          (λ d. previewed crypto secret service_key plan user_id now uuid batch) (some p) h in
      let (checks, _) =
        refuse_if-passes (is_uncertified plan)
          "Retention v3 execution certification failed; no deletion authorized by this plan."
          (answered done) d certified in
      elim (Bool-cases (is_empty_ids batch.bundle_ids)) [
        | inl t ↦ let bad : answered none ≡ answered (some p) = rw t at made in cc
        | inr f ↦
            let (q, shown, same) =
              and_then-answers (preview_of crypto secret service_key approval batch)
                (λ p. answered (some p)) (some p) (rw f at made) in
            let (mac, signed, built) =
              and_then-answers (sign crypto secret service_key payload) _ q shown in
            let is_p : q ≡ p = cc in
            (
              (eq_iff plan.policy_version policy_version).0 (ground arith),
              f,
              (mac, signed, sym (ap shown_token built ∙ ap (λ r. r.token) is_p)),
            )
      ]

  -- JSON and base64url bring the approval and its digest back, and their texts have no dot.
  abbrev pub IsFaithful : Approval → Type 0
  IsFaithful a =
      (crypto.decode_approval (crypto.encode_approval a) ≡ some a)
      × (includes 46 (chars (crypto.encode_approval a)) ≡ false)
      × ((mac : String)
          → sign crypto secret service_key (crypto.encode_approval a) ≡ answered mac
          → (crypto.decode_bytes (crypto.encode_bytes mac) ≡ mac)
            × (includes 46 (chars (crypto.encode_bytes mac)) ≡ false))

  -- If JSON and base64url bring the approval and its digest back without a dot in their texts:
  -- the token of a preview that was shown, confirmed with the phrase by the same user within the
  -- five minutes that it is valid, is accepted as the approval of exactly the batch that was
  -- shown, provided that its identifier is a UUID and the token is at most 20,000 characters
  -- long.
  pub preview_is_confirmed :
      (plan : RetentionPlan) (user_id : String) (now later : ℕ) (uuid : String)
      (p : RetentionPreview)
      → IsFaithful (approval_in plan user_id now uuid)
      → create_retention_preview crypto secret service_key plan user_id now uuid ≡ answered (some p)
      → is_occurrence ("manual:" <> uuid) ≡ true
      → utf16_length p.token ≤ 20000
      → now ≤ later
      → later < now + 300000
      → verify_retention_confirmation crypto secret service_key
          (some p.token)
          (some retention_confirmation)
          user_id
          later
        ≡ answered (approval_in plan user_id now uuid)
  unfolding verify_retention_confirmation
  preview_is_confirmed plan user_id now later uuid p (decodes, plain, faithful) h valid short after
        before =
      let batch = batch_of plan.bundles empty_batch in
      let approval = approval_in plan user_id now uuid in
      let (policy, filled, (mac, signed, token)) = created-parts plan user_id now uuid p h in
      let (decodes_mac, plain_mac) = faithful mac signed in
      let limits =
        batch_of-IsWithinLimits plan.bundles empty_batch (omega arith, omega arith, omega arith) in
      let some_ids = is_empty_ids-length batch.bundle_ids filled in
      let parts =
        token-parts (crypto.encode_approval approval) (crypto.encode_bytes mac) plain plain_mac in
      let acceptable : is_unacceptable approval user_id later ≡ false =
        rw (eq_refl user_id, policy, valid, filled) (ground arith) in
      let accepted : verify_parts crypto secret service_key
            (crypto.encode_approval approval ∷ crypto.encode_bytes mac ∷ []) user_id later
          ≡ answered approval =
        rw (signed, decodes_mac, eq_refl mac, decodes, acceptable) refl in
      let fits_length : ltb 20000 (utf16_length p.token) ≡ false = ground arith in
      rw fits_length (rw (token, parts) accepted)

  -- What a confirmation proves.
  abbrev pub IsAuthentic : (token user_id : String) → (now : ℕ) → Approval → Type 0
  IsAuthentic token user_id now a =
      ((payload : String) × (signature : String) × (mac : String) × (texts_of
            (split 46 (chars token))
          ≡ payload ∷ signature ∷ [])
        × (sign crypto secret service_key payload ≡ answered mac)
        × (crypto.decode_bytes signature ≡ mac)
        × (crypto.decode_approval payload ≡ some a))
      × (a.user_id ≡ user_id)
      × (a.policy ≡ policy_version)
      × (now < a.expires_at)
      × (a.expires_at ≤ now + 300000)
      × (0 < length a.bundle_ids)
      × (length a.bundle_ids ≤ bundle_limit)

  is_acceptable :
      (o : Option Approval) (user_id : String) (now : ℕ) (a : Approval)
      → accepted_approval o user_id now ≡ answered a
      → (o ≡ some a) × (is_unacceptable a user_id now ≡ false)
  is_acceptable none user_id now a h = refused-answered invalid a h
  is_acceptable (some x) user_id now a h =
      let (passed, same) =
        refuse_if-passes (is_unacceptable x user_id now) invalid (answered x) a h in
      let is_a : x ≡ a = cc in
      (rw is_a refl, subst (λ y. is_unacceptable y user_id now ≡ false) is_a passed)

  parts-IsAuthentic :
      (token : String) (parts : List String) (user_id : String) (now : ℕ) (a : Approval)
      → texts_of (split 46 (chars token)) ≡ parts
      → verify_parts crypto secret service_key parts user_id now ≡ answered a
      → IsAuthentic token user_id now a
  parts-IsAuthentic token [] user_id now a e h = refused-answered invalid a h
  parts-IsAuthentic token (p ∷ []) user_id now a e h = refused-answered invalid a h
  parts-IsAuthentic token (p ∷ q ∷ r ∷ rest) user_id now a e h = refused-answered invalid a h
  parts-IsAuthentic token (payload ∷ signature ∷ []) user_id now a e h =
      let (mac, signed, checked) =
        and_then-answers (sign crypto secret service_key payload) _ a h in
      let (same, decoded) =
        refuse_if-passes (not (str_eq (crypto.decode_bytes signature) mac)) invalid
          (accepted_approval (crypto.decode_approval payload) user_id now) a checked in
      let (found, acceptable) =
        is_acceptable (crypto.decode_approval payload) user_id now a decoded in
      let some_ids = is_empty_ids-length a.bundle_ids (ground arith) in
      (
        (
          payload,
          signature,
          mac,
          e,
          signed,
          (eq_iff (crypto.decode_bytes signature) mac).0 (ground arith),
          found,
        ),
        (eq_iff a.user_id user_id).0 (ground arith),
        (eq_iff a.policy policy_version).0 (ground arith),
        ground arith,
        ground arith,
        some_ids,
        ground arith,
      )

  -- A confirmation is accepted only with the phrase and a token of two parts, of which the second
  -- decodes to the digest of the first under the key of the server and the first to the approval;
  -- and that approval is of the same user and the present policy, has not expired, expires within
  -- five minutes, and names between 1 and 100 bundles.
  pub confirmed-IsAuthentic :
      (token phrase user_id : String) (now : ℕ) (a : Approval)
      → verify_retention_confirmation crypto secret service_key
          (some token)
          (some phrase)
          user_id
          now
        ≡ answered a
      → (phrase ≡ retention_confirmation) × IsAuthentic token user_id now a
  unfolding verify_retention_confirmation
  confirmed-IsAuthentic token phrase user_id now a h =
      let (passed, checked) =
        refuse_if-passes
          (not (str_eq phrase retention_confirmation) || ltb 20000 (utf16_length token)) invalid
          (verify_parts crypto secret service_key (texts_of (split 46 (chars token))) user_id now) a
          h in
      (
        (eq_iff phrase retention_confirmation).0 (ground arith),
        parts-IsAuthentic token (texts_of (split 46 (chars token))) user_id now a refl checked,
      )
