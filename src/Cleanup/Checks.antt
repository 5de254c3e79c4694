-- ===== src/Cleanup/Checks.antt =====
-- What each group of checks asks for in the gate of dashboard/lib/inssa-ops/cleanup-ledger.ts
use web_app_qa_tests_main.Base.{
  ℕ, String, Bool, true, false, ◌||◌, not, List, [], ◌∷◌, ◌++◌, map, head?, ◌≡◌, ◌↔◌, ◌⊎◌, inl, inr,
  refl, All, filter, Bool-cases, is_some,
}
use web_app_qa_tests_main.Cleanup.{PolicySnapshot, CleanupManifest, LedgerRecord}
use web_app_qa_tests_main.Cleanup.Ledger.{is_put_off}
use web_app_qa_tests_main.Cleanup.Gate.{
  Raised, raise_if, blocks, concat_map, is_resolved, is_empty, object_ids, in_ledger, is_deferred,
  object_check, manifest_checks, too_old, is_attributed, is_identified, record_checks,
  no_objects_text, run_state_text, unlisted_text, no_identity_text, object_state_text,
  unattributed_text, unsanitized_text, unaccounted_text, aged_text,
}

-- Required unless the mode is manual.
abbrev pub Unless : (manual : Bool) → Bool → Type 0
Unless manual b = (manual ≡ true) ⊎ (b ≡ true)

-- What the gate asks of an unresolved record.
abbrev pub IsSafeRecord : (manual : Bool) → PolicySnapshot → (now : ℕ) → LedgerRecord → Type 0
IsSafeRecord manual p now r =
    Unless manual (is_identified r)
    × Unless manual (is_put_off r.status)
    × (is_attributed r ≡ true)
    × (r.sensitive_values_excluded ≡ true)
    × (r.unexpected_data ≡ false)
    × Unless manual r.safely_accounted
    × Unless manual (not (too_old now p.max_unresolved_age_days r.created_at))

-- What the gate asks of a manifest: resolved, or deferred with every object in the ledger.
abbrev pub IsAccounted : (manual : Bool) → List LedgerRecord → CleanupManifest → Type 0
IsAccounted manual ledger m =
    (is_resolved ledger m ≡ true)
    ⊎ (Unless manual (not (is_empty (object_ids m)))
        × Unless manual (is_deferred m.status)
        × All (λ i. Unless manual (in_ledger ledger m i)) (object_ids m))

abbrev pub Clear : (manual : Bool) → List Raised → Type 0
Clear manual rs = All (λ r. blocks manual r ≡ false) rs

Clear-append :
    (manual : Bool) (rs ss : List Raised)
    → Clear manual (rs ++ ss) ↔ (Clear manual rs × Clear manual ss)
Clear-append manual [] ss = ((λ h. (tt, h)), (λ h. h.1))
Clear-append manual (r ∷ rs) ss =
    let (f, g) = Clear-append manual rs ss in
    ((λ h. let (a, b) = f h.1 in ((h.0, a), b)), (λ h. (h.0.0, g (h.0.1, h.1))))

Clear-concat_map {ℓ} :
    {A : Type ℓ} (manual : Bool) (f : A → List Raised) (xs : List A)
    → Clear manual (concat_map f xs) ↔ All (λ x. Clear manual (f x)) xs
Clear-concat_map manual f [] = ((λ h. tt), (λ h. tt))
Clear-concat_map manual f (x ∷ xs) =
    let (a, b) = Clear-append manual (f x) (concat_map f xs) in
    let (c, d) = Clear-concat_map manual f xs in
    ((λ h. let (k, l) = a h in (k, c l)), (λ h. b (h.0, d h.1)))

module _ (manual : Bool) where
  pub join_iff :
      {P Q : Type 0} (rs ss : List Raised)
      → Clear manual rs ↔ P
      → Clear manual ss ↔ Q
      → Clear manual (rs ++ ss) ↔ (P × Q)
  join_iff rs ss (f, f') (g, g') =
      let (a, b) = Clear-append manual rs ss in
      ((λ h. let (k, l) = a h in (f k, g l)), (λ h. b (f' h.0, g' h.1)))

  soft_iff :
      (b : Bool) (id detail : String)
      → Clear manual (raise_if (not b) true id detail) ↔ Unless manual b
  soft_iff b id detail = (forth manual b, back manual b)
    where
      forth : (m b : Bool) → Clear m (raise_if (not b) true id detail) → Unless m b
      forth m true h = inr refl
      forth true false h = inl refl
      forth false false h = cc

      back : (m b : Bool) → Unless m b → Clear m (raise_if (not b) true id detail)
      back m true h = tt
      back true false h = (refl, tt)
      back false false (inl e) = cc
      back false false (inr e) = cc

  pub hard_iff :
      (b : Bool) (id detail : String) → Clear manual (raise_if (not b) false id detail) ↔ (b ≡ true)
  hard_iff b id detail = (forth manual b, back manual b)
    where
      forth : (m b : Bool) → Clear m (raise_if (not b) false id detail) → b ≡ true
      forth m true h = refl
      forth true false h = cc
      forth false false h = cc

      back : (m b : Bool) → b ≡ true → Clear m (raise_if (not b) false id detail)
      back m true h = tt
      back m false h = cc

  accounting_iff :
      (s u : Bool) (id detail : String)
      → Clear manual (raise_if (not s || u) (not u) id detail) ↔ ((u ≡ false) × Unless manual s)
  accounting_iff s u id detail = (forth manual s u, back manual s u)
    where
      forth :
          (m s u : Bool)
          → Clear m (raise_if (not s || u) (not u) id detail)
          → (u ≡ false) × Unless m s
      forth m true false h = (refl, inr refl)
      forth true false false h = (refl, inl refl)
      forth false false false h = cc
      forth true true true h = cc
      forth false true true h = cc
      forth true false true h = cc
      forth false false true h = cc

      back :
          (m s u : Bool)
          → (u ≡ false) × Unless m s
          → Clear m (raise_if (not s || u) (not u) id detail)
      back m true false h = tt
      back true false false h = (refl, tt)
      back false false false (e, inl k) = cc
      back false false false (e, inr k) = cc
      back m s true h = cc

  pub soft_false_iff :
      (b : Bool) (id detail : String)
      → Clear manual (raise_if b true id detail) ↔ Unless manual (not b)
  soft_false_iff true id detail = soft_iff false id detail
  soft_false_iff false id detail = soft_iff true id detail

  pub record_checks_iff :
      (p : PolicySnapshot) (now : ℕ) (r : LedgerRecord)
      → Clear manual (record_checks p now r) ↔ IsSafeRecord manual p now r
  record_checks_iff p now r = ((λ h. regroup (chain.0 h)), (λ h. chain.1 (ungroup h)))
    where
      Grouped : Type 0
      Grouped =
          ((((Unless manual (is_identified r) × Unless manual (is_put_off r.status))
                × (is_attributed r ≡ true))
              × (r.sensitive_values_excluded ≡ true))
            × ((r.unexpected_data ≡ false) × Unless manual r.safely_accounted))
          × Unless manual (not (too_old now p.max_unresolved_age_days r.created_at))

      chain : Clear manual (record_checks p now r) ↔ Grouped
      chain =
          join_iff _ _
            (join_iff _ _
              (join_iff _ _
                (join_iff _ _
                  (join_iff _ _ (soft_iff (is_identified r) "cleanup-identity" no_identity_text)
                    (soft_iff (is_put_off r.status) "cleanup-state" (object_state_text r)))
                  (hard_iff (is_attributed r) "qa-account" (unattributed_text r)))
                (hard_iff r.sensitive_values_excluded "cleanup-sanitization" (unsanitized_text r)))
              (accounting_iff r.safely_accounted r.unexpected_data "cleanup-accounting"
                (unaccounted_text r)))
            (soft_false_iff (too_old now p.max_unresolved_age_days r.created_at) "cleanup-age"
              (aged_text p r))

      regroup : Grouped → IsSafeRecord manual p now r
      regroup (((((a, b), c), d), (u, s)), o) = (a, b, c, d, u, s, o)

      ungroup : IsSafeRecord manual p now r → Grouped
      ungroup (a, b, c, d, u, s, o) = (((((a, b), c), d), (u, s)), o)

  object_checks_iff :
      (ledger : List LedgerRecord) (m : CleanupManifest) (ids : List String)
      → Clear manual (concat_map (object_check ledger m) ids)
        ↔ All (λ i. Unless manual (in_ledger ledger m i)) ids
  object_checks_iff ledger m [] = ((λ h. tt), (λ h. tt))
  object_checks_iff ledger m (i ∷ ids) =
      join_iff _ _ (soft_iff (in_ledger ledger m i) "cleanup-ledger" (unlisted_text m i))
        (object_checks_iff ledger m ids)

  unresolved_iff :
      (ledger : List LedgerRecord) (m : CleanupManifest)
      → is_resolved ledger m ≡ false
      → Clear manual (manifest_checks ledger m)
        ↔ (Unless manual (not (is_empty (object_ids m))) × Unless manual (is_deferred m.status))
          × All (λ i. Unless manual (in_ledger ledger m i)) (object_ids m)
  unresolved_iff ledger m n = rw n (
      join_iff _ _
        (join_iff _ _
          (soft_false_iff (is_empty (object_ids m)) "cleanup-identity" (no_objects_text m))
          (soft_iff (is_deferred m.status) "cleanup-state" (run_state_text m)))
        (object_checks_iff ledger m (object_ids m)))

  pub manifest_checks_iff :
      (ledger : List LedgerRecord) (m : CleanupManifest)
      → Clear manual (manifest_checks ledger m) ↔ IsAccounted manual ledger m
  manifest_checks_iff ledger m = elim (Bool-cases (is_resolved ledger m)) [
    | inl y ↦ ((λ h. inl y), (λ h. rw y tt))
    | inr n ↦
        let (f, g) = unresolved_iff ledger m n in
        ((λ h. let ((a, b), c) = f h in inr (a, b, c)), back n g)
  ]
    where
      back :
          is_resolved ledger m ≡ false
          → ((Unless manual (not (is_empty (object_ids m))) × Unless manual (is_deferred m.status))
                × All (λ i. Unless manual (in_ledger ledger m i)) (object_ids m)
              → Clear manual (manifest_checks ledger m))
          → IsAccounted manual ledger m
          → Clear manual (manifest_checks ledger m)
      back n g (inl y) = cc
      back n g (inr (a, b, c)) = g ((a, b), c)

  pub open_iff :
      (rs : List Raised)
      → (not (is_some (head? (map (λ r. r.issue) (filter (blocks manual) rs)))) ≡ true)
        ↔ Clear manual rs
  unfolding filter
  open_iff [] = ((λ h. tt), (λ h. refl))
  open_iff (r ∷ rs) = elim (Bool-cases (blocks manual r)) [
    | inl y ↦ rw y ((λ h. cc), (λ h. cc))
    | inr n ↦ let (f, g) = open_iff rs in rw n ((λ h. (refl, f h)), (λ h. g h.1))
  ]

  All-iff :
      {A : Type 0} {P Q : A → Type 0} (xs : List A) → ((x : A) → P x ↔ Q x) → All P xs ↔ All Q xs
  All-iff [] k = ((λ h. tt), (λ h. tt))
  All-iff (x ∷ xs) k =
      let (f, g) = k x in
      let (fs, gs) = All-iff xs k in ((λ h. (f h.0, fs h.1)), (λ h. (g h.0, gs h.1)))

  pub concat_map_iff :
      {A : Type 0} {Q : A → Type 0} (f : A → List Raised) (xs : List A)
      → ((x : A) → Clear manual (f x) ↔ Q x)
      → Clear manual (concat_map f xs) ↔ All Q xs
  concat_map_iff f xs k =
      let (a, b) = Clear-concat_map manual f xs in
      let (c, d) = All-iff xs k in ((λ h. c (a h)), (λ h. b (d h)))
