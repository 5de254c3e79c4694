-- ===== src/Evidence/Immutable.antt =====
-- What validateEvidenceReplacement of dashboard/lib/inssa-ops/evidence-integrity.ts keeps.
use web_app_qa_tests_main.Base.{
  String, str_eq, eq_iff, true, false, not, Option, none, some, List, ◌∷◌, ◌≡◌, inl, inr, refl,
  arith, any, any-false, find, find-All, Option-cases, answered, refuse_if-passes, length, ◌==◌,
  ◌||◌, done,
}
use web_app_qa_tests_main.Evidence.{Bundle, Item, is_uploaded, same_text}
use web_app_qa_tests_main.Evidence.Integrity.{
  has_item_id, is_kept_as, kept_in, is_kept, validate_evidence_replacement,
}

-- The bytes and the identity are the old ones, and a durable copy stays where it is.
abbrev pub IsSameEvidence : (old new : Item) → Type 0
IsSameEvidence old new =
    (new.artifact_id ≡ old.artifact_id)
    × (new.relative_path ≡ old.relative_path)
    × (new.sha256 ≡ old.sha256)
    × (new.size_bytes ≡ old.size_bytes)
    × (is_uploaded old.upload_status ≡ true
        → (is_uploaded new.upload_status ≡ true)
          × (new.storage_key ≡ old.storage_key)
          × (new.storage_backend ≡ old.storage_backend)
          × (new.storage_bucket ≡ old.storage_bucket))

pub IsSameEvidence-refl : (i : Item) → IsSameEvidence i i
IsSameEvidence-refl i = (refl, refl, refl, refl, λ u. (u, refl, refl, refl))

pub IsSameEvidence-trans :
    (a b c : Item) → IsSameEvidence a b → IsSameEvidence b c → IsSameEvidence a c
IsSameEvidence-trans a b c (h, k, l, m, up) (h', k', l', m', up') =
    (cc, cc, cc, cc, λ u. let (v, p, q, r) = up u in let (w, p', q', r') = up' v in (w, cc, cc, cc))

same_text-eq : (a b : Option String) → same_text a b ≡ true → a ≡ b
same_text-eq none none h = refl
same_text-eq none (some b) h = cc
same_text-eq (some a) none h = cc
same_text-eq (some a) (some b) h = rw ((eq_iff a b).0 h) refl

kept_as-IsSameEvidence : (old new : Item) → is_kept_as old new ≡ true → IsSameEvidence old new
kept_as-IsSameEvidence old new h = (
  (eq_iff new.artifact_id old.artifact_id).0 (ground arith),
  (eq_iff new.relative_path old.relative_path).0 (ground arith),
  (eq_iff new.sha256 old.sha256).0 (ground arith),
  ground arith,
  λ u. (
    ground arith,
    rw ((eq_iff old.storage_key new.storage_key).0 (ground arith)) refl,
    rw ((eq_iff old.storage_backend new.storage_backend).0 (ground arith)) refl,
    rw (same_text-eq old.storage_bucket new.storage_bucket (ground arith)) refl,
  ),
)

kept-found :
    (items : List Item) (old : Item)
    → not (is_kept items old) ≡ false
    → (new : Item) × (find (has_item_id old.id) items ≡ some new) × IsSameEvidence old new
unfolding is_kept
kept-found items old h = elim (Option-cases (find (has_item_id old.id) items)) [
  | inl e ↦ let bad : not (kept_in none old) ≡ false = rw e at h in cc
  | inr (new, e) ↦
      let good : not (is_kept_as old new) ≡ false = rw e at h in
      (new, e, kept_as-IsSameEvidence old new (ground arith))
]

-- An accepted replacement of a bundle has a bundle, and finds under the id of each old item the same
-- evidence.
pub replacement-Keeps :
    (previous : Bundle) (others : List Bundle) (old_items : List Item) (next : Option Bundle)
    (items : List Item) (id : String) (old : Item)
    → validate_evidence_replacement (previous ∷ others) old_items next items ≡ answered done
    → find (has_item_id id) old_items ≡ some old
    → ((b : Bundle) × (next ≡ some b))
      × ((new : Item) × (find (has_item_id old.id) items ≡ some new) × IsSameEvidence old new)
unfolding validate_evidence_replacement
replacement-Keeps previous others old_items none items id old h f = cc
replacement-Keeps previous others old_items (some next) items id old h f =
    let (_, step) =
      refuse_if-passes
        (not (length (previous ∷ others) == 1)
          || (not (str_eq previous.id next.id) || not (length old_items == length items)))
        _ _ done h in
    let (kept, _) =
      refuse_if-passes (any (λ old. not (is_kept items old)) old_items) _ _ done step in
    let here =
      find-All (λ x. not (is_kept items x) ≡ false) (has_item_id id) old_items old
        (any-false (λ x. not (is_kept items x)) old_items kept) f in
    ((next, refl), kept-found items old here)
