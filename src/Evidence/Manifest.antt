-- ===== src/Evidence/Manifest.antt =====
-- What validateEvidenceManifest of dashboard/lib/inssa-ops/evidence-integrity.ts accepts.
use web_app_qa_tests_main.Base.{
  ℕ, ◌+◌, ◌≤◌, String, str_eq, eq_iff, eq_refl, Bool, true, false, not, ◌||◌, none, some, List, [],
  ◌∷◌, ◌≡◌, ◌⊎◌, inl, inr, refl, sym, ◌∙◌, arith, ◌==◌, any, any-false, All, All-map, All-zip,
  count, length, Bool-cases, Option-cases, done, answered, and_then, refuse_if-passes,
  and_then-answers,
}
use web_app_qa_tests_main.Evidence.{Bundle, Item, same_text}
use web_app_qa_tests_main.Evidence.Location.{provider_from_backend}
use web_app_qa_tests_main.Evidence.Integrity.{
  contains, checksum_of, is_bad_path, recorded, is_corrupt, is_inconsistent, is_incomplete,
  has_checksum, check_totals, check_location, check_items, validate_evidence_manifest, is_sha256,
}

abbrev pub sum_bytes : List Item → ℕ
sum_bytes [] = 0
sum_bytes (i ∷ is) = i.size_bytes + sum_bytes is

-- At most one item for a value of the field.
abbrev pub IsUnique : (Item → String) → List Item → Type 0
IsUnique f items = (key : String) → count (λ i. str_eq (f i) key) items ≤ 1

-- At most one item for a path, `__proto__` apart.
abbrev pub AreApart : List Item → Type 0
AreApart items =
    (key : String) → (key ≡ "__proto__") ⊎ (count (λ i. str_eq i.relative_path key) items ≤ 1)

abbrev pub IsListed : (run_id : String) → Bundle → Item → Type 0
IsListed run_id b i =
    (i.run_id ≡ run_id)
    × (i.bundle_id ≡ b.id)
    × (i.campaign_key ≡ b.campaign_key)
    × (is_sha256 i.sha256 ≡ true)
    × (checksum_of i.relative_path b.checksum_manifest ≡ some i.sha256)

-- A manifest lists the items of one run once each, with their checksums and their bytes.
abbrev pub IsManifest : (run_id : String) → Bundle → List Item → Type 0
IsManifest run_id b items =
    (b.run_id ≡ run_id)
    × (b.item_count ≡ length items)
    × (length b.checksum_manifest ≡ length items)
    × (b.total_bytes ≡ sum_bytes items)
    × IsUnique (λ i. i.id) items
    × AreApart items
    × All (IsListed run_id b) items

abbrev IsFresh : (Item → String) → (seen : List String) → List Item → Type 0
IsFresh f seen items = All (λ i. contains seen (f i) ≡ false) items

IsFresh-cons :
    (f : Item → String) (key : String) (seen : List String) (items : List Item)
    → IsFresh f (key ∷ seen) items
    → IsFresh f seen items × All (λ i. str_eq key (f i) ≡ false) items
IsFresh-cons f key seen [] h = (tt, tt)
IsFresh-cons f key seen (i ∷ is) h =
    let (p, q) = IsFresh-cons f key seen is h.1 in ((ground arith, p), (ground arith, q))

count-none :
    (f : Item → String) (key : String) (items : List Item)
    → All (λ i. str_eq key (f i) ≡ false) items
    → count (λ i. str_eq (f i) key) items ≡ 0
count-none f key [] h = refl
count-none f key (i ∷ is) h = elim (Bool-cases (str_eq (f i) key)) [
  | inl t ↦
      let same : f i ≡ key = (eq_iff (f i) key).0 t in
      let other : str_eq (f i) (f i) ≡ false = rw (← same) at h.0 in
      let self : str_eq (f i) (f i) ≡ true = eq_refl (f i) in cc
  | inr n ↦ rw (n, count) (count-none f key is h.1)
]

IsUnique-cons :
    (f : Item → String) (i : Item) (items : List Item)
    → All (λ j. str_eq (f i) (f j) ≡ false) items
    → IsUnique f items
    → IsUnique f (i ∷ items)
IsUnique-cons f i items h unique key = elim (Bool-cases (str_eq (f i) key)) [
  | inl t ↦
      let same : f i ≡ key = (eq_iff (f i) key).0 t in
      let absent : count (λ j. str_eq (f j) key) items ≡ 0 =
        count-none f key items (rw same at h) in
      ground (arith, absent)
  | inr n ↦ ground (arith, unique key)
]

-- An item whose path is not recorded, and one whose path is.
AreApart-proto :
    (i : Item) (items : List Item)
    → str_eq i.relative_path "__proto__" ≡ true
    → AreApart items
    → AreApart (i ∷ items)
AreApart-proto i items t apart key = elim (Bool-cases (str_eq i.relative_path key)) [
  | inl same ↦
      let own : i.relative_path ≡ "__proto__" = (eq_iff i.relative_path "__proto__").0 t in
      let named : i.relative_path ≡ key = (eq_iff i.relative_path key).0 same in
      inl (sym named ∙ own)
  | inr n ↦ rw (n, count) (apart key)
]

AreApart-cons :
    (i : Item) (items : List Item)
    → All (λ j. str_eq i.relative_path j.relative_path ≡ false) items
    → AreApart items
    → AreApart (i ∷ items)
AreApart-cons i items h apart key = elim (Bool-cases (str_eq i.relative_path key)) [
  | inl t ↦
      let same : i.relative_path ≡ key = (eq_iff i.relative_path key).0 t in
      let absent : count (λ j. str_eq j.relative_path key) items ≡ 0 =
        count-none (λ j. j.relative_path) key items (rw same at h) in
      inr (ground (arith, absent))
  | inr n ↦ rw (n, count) (apart key)
]

-- What the loop has checked of an item before the totals.
abbrev IsChecked : (run_id : String) → Bundle → Item → Type 0
IsChecked run_id b i =
    (i.run_id ≡ run_id)
    × (i.bundle_id ≡ b.id)
    × (i.campaign_key ≡ b.campaign_key)
    × (is_sha256 i.sha256 ≡ true)

module _ (normalize : String → String) (is_absolute : String → Bool) where
  not_corrupt :
      (run_id : String) (b : Bundle) (i : Item) (ids paths : List String)
      → is_corrupt normalize is_absolute run_id b i ids paths ≡ false
      → (contains ids i.id ≡ false)
        × (contains paths i.relative_path ≡ false)
        × IsChecked run_id b i
  not_corrupt run_id b i ids paths h = (
    ground arith,
    ground arith,
    (
      (eq_iff i.run_id run_id).0 (ground arith),
      (eq_iff i.bundle_id b.id).0 (ground arith),
      (eq_iff i.campaign_key b.campaign_key).0 (ground arith),
      ground arith,
    ),
  )

  abbrev Scanned :
      (run_id : String)
      → Bundle
      → (all_items items : List Item) → (ids paths : List String) → (total : ℕ) → Type 0
  Scanned run_id b all_items items ids paths total =
      IsFresh (λ i. i.id) ids items
      × IsFresh (λ i. i.relative_path) paths items
      × IsUnique (λ i. i.id) items
      × AreApart items
      × All (IsChecked run_id b) items
      × (check_totals normalize is_absolute b all_items (total + sum_bytes items) ≡ answered done)

  -- The paths after an item are apart from it if its path was recorded.
  recorded-AreApart :
      (i : Item) (items : List Item) (paths : List String)
      → IsFresh (λ j. j.relative_path) (recorded normalize is_absolute i.relative_path paths) items
      → AreApart items
      → IsFresh (λ j. j.relative_path) paths items × AreApart (i ∷ items)
  recorded-AreApart i items paths fresh apart =
      elim (Bool-cases (str_eq i.relative_path "__proto__")) [
        | inl t ↦ (rw t at fresh, AreApart-proto i items t apart)
        | inr n ↦
            let (older, others) =
              IsFresh-cons (λ j. j.relative_path) i.relative_path paths items (rw n at fresh) in
            (older, AreApart-cons i items others apart)
      ]

  check_items-Scanned :
      (run_id : String) (b : Bundle) (all_items items : List Item) (ids paths : List String)
      (total : ℕ)
      → check_items normalize is_absolute run_id b all_items items ids paths total ≡ answered done
      → Scanned run_id b all_items items ids paths total
  unfolding check_items
  check_items-Scanned run_id b all_items [] ids paths total h =
      let zero : total + 0 ≡ total = omega arith in
      (tt, tt, λ key. omega arith, λ key. inr (omega arith), tt, rw zero h)
  check_items-Scanned run_id b all_items (i ∷ is) ids paths total h =
      let (_, h1) =
        refuse_if-passes (is_bad_path normalize is_absolute i.relative_path) _ _ done h in
      let (sound, h2) =
        refuse_if-passes (is_corrupt normalize is_absolute run_id b i ids paths) _ _ done h1 in
      let (_, h3) = refuse_if-passes (is_inconsistent normalize is_absolute b i) _ _ done h2 in
      let (_, h4) = refuse_if-passes (is_incomplete normalize is_absolute b i) _ _ done h3 in
      let (fresh_id, fresh_path, checked) = not_corrupt run_id b i ids paths sound in
      let (ids', paths', unique_ids, unique_paths, checks, totals) =
        check_items-Scanned run_id b all_items is (i.id ∷ ids)
          (recorded normalize is_absolute i.relative_path paths) (total + i.size_bytes) h4 in
      let (older_ids, other_ids) = IsFresh-cons (λ i. i.id) i.id ids is ids' in
      let (older_paths, apart) = recorded-AreApart i is paths paths' unique_paths in
      let sum : total + (i.size_bytes + sum_bytes is) ≡ total + i.size_bytes + sum_bytes is =
        omega arith in
      (
        (fresh_id, older_ids),
        (fresh_path, older_paths),
        IsUnique-cons (λ i. i.id) i is other_ids unique_ids,
        apart,
        (checked, checks),
        rw sum totals,
      )

  has_checksum-some :
      (b : Bundle) (i : Item)
      → not (has_checksum normalize is_absolute b i) ≡ false
      → checksum_of i.relative_path b.checksum_manifest ≡ some i.sha256
  has_checksum-some b i h = elim (Option-cases (checksum_of i.relative_path b.checksum_manifest)) [
    | inl e ↦ let bad : not (same_text none (some i.sha256)) ≡ false = rw e at h in cc
    | inr (sum, e) ↦
        let good : not (same_text (some sum) (some i.sha256)) ≡ false = rw e at h in
        let same : sum ≡ i.sha256 = (eq_iff sum i.sha256).0 (ground arith) in rw (e, same) refl
  ]

  -- A manifest that is accepted with a bundle lists the items of one run: ids are unique, and so
  -- are paths, except for the path `__proto__`, which the code never records; every item names
  -- the run, the bundle and its campaign and has a well formed digest, which is the manifest's
  -- for its path, and the number of items and checksums and the bytes agree.
  pub validate-IsManifest :
      (run_id : String) (b : Bundle) (items : List Item)
      → validate_evidence_manifest normalize is_absolute run_id (some b) items ≡ answered done
      → IsManifest run_id b items
  unfolding validate_evidence_manifest
  validate-IsManifest run_id b items h =
      let (counts, h1) =
        refuse_if-passes (not (str_eq b.run_id run_id) || not (b.item_count == length items)) _ _
          done h in
      let scan = check_items normalize is_absolute run_id b items items [] [] 0 in
      let (_, _, h2) =
        and_then-answers (provider_from_backend b.storage_backend)
          (λ p. and_then (check_location normalize is_absolute b) (λ u. scan)) done h1 in
      let (_, _, h3) =
        and_then-answers (check_location normalize is_absolute b) (λ u. scan) done h2 in
      let (_, _, unique_ids, unique_paths, checks, totals) =
        check_items-Scanned run_id b items items [] [] 0 h3 in
      let (sums, _) =
        refuse_if-passes
          (not (0 + sum_bytes items == b.total_bytes)
            || (not (length b.checksum_manifest == length items)
                || any (λ i. not (has_checksum normalize is_absolute b i)) items))
          _ _ done totals in
      let found =
        any-false (λ i. not (has_checksum normalize is_absolute b i)) items (ground arith) in
      (
        (eq_iff b.run_id run_id).0 (ground arith),
        ground arith,
        ground arith,
        ground arith,
        unique_ids,
        unique_paths,
        All-map (λ i. IsChecked run_id b i × (not (has_checksum normalize is_absolute b i) ≡ false))
            (IsListed run_id b) items
            (λ i k. (k.0.0, k.0.1, k.0.2, k.0.3, has_checksum-some b i k.1))
            (All-zip (IsChecked run_id b)
              (λ i. not (has_checksum normalize is_absolute b i) ≡ false) items checks found),
      )
