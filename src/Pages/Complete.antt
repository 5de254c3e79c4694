-- ===== src/Pages/Complete.antt =====
-- Reading every page of a listing.
use web_app_qa_tests_main.Base.{
  ℕ, zero, suc, ◌+◌, ◌-◌, ◌≤◌, ◌<◌, min, true, false, List, [], ◌∷◌, ◌++◌, ◌≡◌, refl, ◌∙◌, ap,
  arith, inl, inr, length, take, drop, length-take, length-drop, ltb, leb, Bool-cases, ltb→lt,
}
use web_app_qa_tests_main.Pages.{page_records, read, read_pages}

module _ {ℓ} {A : Type ℓ} where
  take-append-take : (c n : ℕ) (xs : List A) → take c xs ++ take n (drop c xs) ≡ take (c + n) xs
  take-append-take zero n xs = let same : 0 + n ≡ n = omega arith in rw same refl
  take-append-take (suc c) zero [] = let same : suc c + 0 ≡ suc c = omega arith in rw same refl
  take-append-take (suc c) (suc n) [] =
      let same : suc c + suc n ≡ suc (c + suc n) = omega arith in rw same refl
  take-append-take (suc c) n (x ∷ xs) =
      let same : suc c + n ≡ suc (c + n) = omega arith in
      rw same (ap (λ l. x ∷ l) (take-append-take c n xs))

  take_all : (n : ℕ) (xs : List A) → length xs ≤ n → take n xs ≡ xs
  take_all zero [] h = refl
  take_all zero (x ∷ xs) h = absurd (omega arith)
  take_all (suc n) [] h = refl
  take_all (suc n) (x ∷ xs) h = ap (λ l. x ∷ l) (take_all n xs (omega arith))

  module _ (items : List A) (limit : ℕ) (positive : 0 < limit) where
    page_length : (c : ℕ) → length (take limit (drop c items)) ≡ min limit (length items - c)
    page_length c = length-take limit (drop c items) ∙ ap (min limit) (length-drop c items)

    read_from :
        (fuel c : ℕ)
        → c ≤ length items
        → length items < fuel + c
        → read_pages (λ cursor. page_records items cursor limit) fuel c (take c items) ≡ read items
    unfolding read_pages page_records
    read_from zero c le lt = absurd (omega arith)
    read_from (suc fuel) c le lt =
        elim (Bool-cases (ltb (c + length (take limit (drop c items))) (length items))) [
          | inl more ↦
              let size = page_length c in
              let within = ltb→lt _ _ more in
              let next_eq : c + length (take limit (drop c items)) ≡ c + limit = omega arith in
              let advances : leb (c + limit) c ≡ false = ground arith in
              let more' : ltb (c + limit) (length items) ≡ true = rw next_eq at more in
              rw (next_eq, more', advances, take-append-take c limit items)
                (read_from fuel (c + limit) (omega arith) (omega arith))
          | inr last ↦
              let size = page_length c in
              let rest : length items ≤ c + limit = ground arith in
              rw (last, take-append-take c limit items, take_all (c + limit) items rest) refl
        ]

    -- With a positive limit, reading page after page from the start, each at the cursor that the
    -- one before gives, ends within as many rounds as there are entries and one, and yields them
    -- all.
    pub read_pages_complete :
        (fuel : ℕ)
        → length items < fuel
        → read_pages (λ cursor. page_records items cursor limit) fuel 0 [] ≡ read items
    read_pages_complete fuel lt = read_from fuel 0 (omega arith) (omega arith)
