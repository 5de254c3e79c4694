-- ===== src/Evidence/Integrity.antt =====
-- dashboard/lib/inssa-ops/evidence-integrity.ts: which manifest and which replacement of evidence is
-- accepted. `path.posix` and the texts of Object.hasOwn are the platform's: `normalize` and
-- `is_absolute` are arguments.
use web_app_qa_tests_main.Base.{
  ℕ, ◌+◌, String, str_eq, ◌<>◌, Bool, false, ◌&&◌, ◌||◌, not, Option, none, some, List, [], ◌∷◌,
  ltb, ◌==◌, if◌then◌else◌, or_else, length, any, all, find, chars, includes, is_hex, split, Answer,
  Done, done, answered, refused, refuse_if, and_then,
}
use web_app_qa_tests_main.Evidence.{
  Bundle, Item, is_blank, has_date, is_uploaded, same_text, same_upload,
}
use web_app_qa_tests_main.Evidence.Location.{
  provider_from_backend, is_durable_backend, is_dot_dot, evidence_location,
}

abbrev pub contains : List String → String → Bool
contains seen key = any (λ s. str_eq s key) seen

-- `/^[a-f0-9]{64}$/`
unfoldable pub is_sha256 : String → Bool
unfolding chars
is_sha256 t = let cs = chars t in length cs == 64 && all is_hex cs

-- Number.isSafeInteger, of a natural number.
abbrev pub is_safe_integer : ℕ → Bool
is_safe_integer n = ltb n 9007199254740992

unfoldable pub checksum_of : String → List (String × String) → Option String
checksum_of path [] = none
checksum_of path (e ∷ es) = if str_eq e.0 path then some e.1 else checksum_of path es

module _ (normalize : String → String) (is_absolute : String → Bool) where
  unfoldable pub is_bad_path : String → Bool
  unfolding chars
  is_bad_path relative =
      let cs = chars relative in
      str_eq relative ""
      || (includes 92 cs
          || (includes 0 cs
              || (any is_dot_dot (split 47 cs)
                  || (is_absolute relative
                      || (not (str_eq (normalize relative) relative) || str_eq relative ".")))))

  -- `manifest[relative] = …` on a plain object: a text assigned to `__proto__` is ignored.
  abbrev pub recorded : (path : String) → (paths : List String) → List String
  recorded path paths = if str_eq path "__proto__" then paths else path ∷ paths

  abbrev pub is_corrupt : (run_id : String) → Bundle → Item → (ids paths : List String) → Bool
  is_corrupt run_id b i ids paths =
      (contains ids i.id || contains paths i.relative_path)
      || (not (str_eq i.bundle_id b.id)
          || (not (str_eq i.run_id run_id)
              || (not (str_eq i.campaign_key b.campaign_key)
                  || (not (is_sha256 i.sha256) || not (is_safe_integer i.size_bytes)))))

  abbrev pub is_inconsistent : Bundle → Item → Bool
  is_inconsistent b i =
      not (same_upload i.upload_status b.upload_status)
      || (not (str_eq i.storage_backend b.storage_backend)
          || not (same_text i.storage_bucket b.storage_bucket))

  abbrev pub is_incomplete : Bundle → Item → Bool
  is_incomplete b i =
      is_uploaded b.upload_status
      && (not (is_durable_backend b.storage_backend)
          || (is_blank b.storage_prefix
              || (not (has_date b.uploaded_at)
                  || (not (has_date i.uploaded_at)
                      || not (
                          str_eq i.storage_key
                            (or_else b.storage_prefix "null" <> ("/" <> i.relative_path)))))))

  abbrev pub has_checksum : Bundle → Item → Bool
  has_checksum b i = same_text (checksum_of i.relative_path b.checksum_manifest) (some i.sha256)

  abbrev pub check_totals : Bundle → (items : List Item) → (total : ℕ) → Answer Done
  check_totals b items total =
      refuse_if
        (not (total == b.total_bytes)
          || (not (length b.checksum_manifest == length items)
              || any (λ i. not (has_checksum b i)) items))
        "Evidence checksum manifest or total bytes mismatch." (answered done)

  -- The loop over the items, with the ids and paths recorded and the bytes so far.
  unfoldable pub check_items :
      (run_id : String)
      → Bundle
      → (all_items items : List Item) → (ids paths : List String) → (total : ℕ) → Answer Done
  unfolding is_bad_path
  check_items run_id b all_items [] ids paths total = check_totals b all_items total
  check_items run_id b all_items (i ∷ is) ids paths total =
      let rest =
        check_items run_id b all_items is (i.id ∷ ids) (recorded i.relative_path paths)
          (total + i.size_bytes) in
      refuse_if (is_bad_path i.relative_path) "Invalid evidence item path." (
        refuse_if (is_corrupt run_id b i ids paths) "Corrupt evidence manifest." (
          refuse_if (is_inconsistent b i) "Inconsistent evidence upload state."
            (refuse_if (is_incomplete b i) "Incomplete durable evidence metadata." rest)))

  abbrev pub check_location : Bundle → Answer Done
  check_location b =
      if is_uploaded b.upload_status
      then and_then (evidence_location b.storage_backend b.storage_bucket) (λ l. answered done)
      else answered done

  unfoldable pub validate_evidence_manifest :
      (run_id : String) → Option Bundle → List Item → Answer Done
  unfolding check_items
  validate_evidence_manifest run_id none [] = answered done
  validate_evidence_manifest run_id none (i ∷ is) = refused "Evidence items require a bundle."
  validate_evidence_manifest run_id (some b) items =
      refuse_if (not (str_eq b.run_id run_id) || not (b.item_count == length items))
        "Evidence item count or run mismatch."
        (and_then (provider_from_backend b.storage_backend)
          λ p. and_then (check_location b) λ u. check_items run_id b items items [] [] 0)

abbrev pub has_item_id : String → Item → Bool
has_item_id id i = str_eq i.id id

abbrev pub is_same_place : (old new : Item) → Bool
is_same_place old new =
    is_uploaded new.upload_status
    && (str_eq old.storage_key new.storage_key
        && (str_eq old.storage_backend new.storage_backend
            && same_text old.storage_bucket new.storage_bucket))

abbrev pub is_kept_as : (old new : Item) → Bool
is_kept_as old new =
    str_eq new.artifact_id old.artifact_id
    && (str_eq new.relative_path old.relative_path
        && (str_eq new.sha256 old.sha256
            && (new.size_bytes == old.size_bytes
                && (not (is_uploaded old.upload_status) || is_same_place old new))))

abbrev pub kept_in : Option Item → (old : Item) → Bool
kept_in none old = false
kept_in (some new) old = is_kept_as old new

unfoldable pub is_kept : List Item → Item → Bool
unfolding find
is_kept items old = kept_in (find (has_item_id old.id) items) old

abbrev pub is_downgrade : (previous next : Bundle) → Bool
is_downgrade previous next =
    is_uploaded previous.upload_status
    && (not (is_uploaded next.upload_status)
        || (not (same_text previous.storage_prefix next.storage_prefix)
            || (not (str_eq previous.storage_backend next.storage_backend)
                || not (same_text previous.storage_bucket next.storage_bucket))))

abbrev pub replace_bundle :
    (previous : Bundle)
    → (others : List Bundle) → (old_items : List Item) → Option Bundle
    → List Item
    → Answer Done
replace_bundle previous others old_items none items =
    refused "Cannot replace existing evidence identities."
replace_bundle previous others old_items (some next) items =
    refuse_if
      (not (length (previous ∷ others) == 1)
        || (not (str_eq previous.id next.id) || not (length old_items == length items)))
      "Cannot replace existing evidence identities."
      (refuse_if (any (λ old. not (is_kept items old)) old_items)
        "Cannot change or downgrade immutable evidence."
        (refuse_if (is_downgrade previous next) "Cannot downgrade uploaded evidence."
          (answered done)))

unfoldable pub validate_evidence_replacement :
    (bundles : List Bundle) → (old_items : List Item) → Option Bundle → List Item → Answer Done
unfolding is_kept
validate_evidence_replacement [] old_items next items = answered done
validate_evidence_replacement (previous ∷ others) old_items next items =
    replace_bundle previous others old_items next items
