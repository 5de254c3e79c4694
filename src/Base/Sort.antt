-- ===== src/Base/Sort.antt =====
-- `Array.prototype.sort` by a number, which is stable: insertion before the first larger key.
use Prim.Native.Nat.{ℕ, ◌≤◌}
use mathlib.Core.Path.{◌≡◌, subst}
use mathlib.Core.Logic.{inl, inr}
use mathlib.Core.List.{List, [], ◌∷◌}
use mathlib.Core.Option.{none, some}
use native.Mathlib.Omega.{arith}
use web_app_qa_tests_main.Base.Tests.{leb, if◌then◌else◌, Bool-cases, leb→le}
use web_app_qa_tests_main.Base.Lists.{All, head?}

module _ {ℓ} {A : Type ℓ} (key : A → ℕ) where
  insert_by : A → List A → List A
  insert_by a [] = a ∷ []
  insert_by a (x ∷ xs) =
      let rest = insert_by a xs in if leb (key a) (key x) then a ∷ x ∷ xs else x ∷ rest

  unfoldable pub sort_by : List A → List A
  unfolding insert_by
  sort_by [] = []
  sort_by (x ∷ xs) = insert_by x (sort_by xs)

  abbrev IsSorted : List A → Type 0
  IsSorted [] = Unit
  IsSorted (x ∷ xs) = All (λ y. key x ≤ key y) xs × IsSorted xs

  insert_by-All {κ} :
      (P : A → Type κ) (a : A) (xs : List A) → P a → All P xs → All P (insert_by a xs)
  unfolding insert_by
  insert_by-All P a [] p h = (p, tt)
  insert_by-All P a (x ∷ xs) p h = elim (Bool-cases (leb (key a) (key x))) [
    | inl t ↦ rw t (p, h)
    | inr n ↦ rw n (h.0, insert_by-All P a xs p h.1)
  ]

  pub sort_by-All {κ} : (P : A → Type κ) (xs : List A) → All P xs → All P (sort_by xs)
  unfolding sort_by
  sort_by-All P [] h = tt
  sort_by-All P (x ∷ xs) h = insert_by-All P x (sort_by xs) h.0 (sort_by-All P xs h.1)

  All-weaken : (m n : ℕ) (xs : List A) → m ≤ n → All (λ y. n ≤ key y) xs → All (λ y. m ≤ key y) xs
  All-weaken m n [] h k = tt
  All-weaken m n (x ∷ xs) h k = (omega arith, All-weaken m n xs h k.1)

  insert_by-IsSorted : (a : A) (xs : List A) → IsSorted xs → IsSorted (insert_by a xs)
  unfolding insert_by
  insert_by-IsSorted a [] h = (tt, tt)
  insert_by-IsSorted a (x ∷ xs) h = elim (Bool-cases (leb (key a) (key x))) [
    | inl t ↦
        let le = leb→le (key a) (key x) t in rw t ((le, All-weaken (key a) (key x) xs le h.0), h)
    | inr n ↦
        rw n
          (insert_by-All (λ y. key x ≤ key y) a xs (ground arith) h.0, insert_by-IsSorted a xs h.1)
  ]

  pub sort_by-IsSorted : (xs : List A) → IsSorted (sort_by xs)
  unfolding sort_by
  sort_by-IsSorted [] = tt
  sort_by-IsSorted (x ∷ xs) = insert_by-IsSorted x (sort_by xs) (sort_by-IsSorted xs)

  -- The entries that a key bounds from below after sorting were bounded before.
  insert_by-All_back {κ} :
      (P : A → Type κ) (a : A) (xs : List A) → All P (insert_by a xs) → P a × All P xs
  unfolding insert_by
  insert_by-All_back P a [] h = (h.0, tt)
  insert_by-All_back P a (x ∷ xs) h = elim (Bool-cases (leb (key a) (key x))) [
    | inl t ↦ let (p, q) = rw (t, insert_by) at h in (p, q)
    | inr n ↦
        let (p, q) = rw (n, insert_by) at h in
        let (pa, pxs) = insert_by-All_back P a xs q in (pa, (p, pxs))
  ]

  pub sort_by-All_back {κ} : (P : A → Type κ) (xs : List A) → All P (sort_by xs) → All P xs
  unfolding sort_by
  sort_by-All_back P [] h = tt
  sort_by-All_back P (x ∷ xs) h =
      let (p, q) = insert_by-All_back P x (sort_by xs) h in (p, sort_by-All_back P xs q)

  -- The head of the sorted list has the least key.
  pub head?-sort_by :
      (xs : List A) (a : A) → head? (sort_by xs) ≡ some a → All (λ y. key a ≤ key y) xs
  head?-sort_by xs a e =
      sort_by-All_back (λ y. key a ≤ key y) xs (least (sort_by xs) (sort_by-IsSorted xs) e)
    where
      least : (l : List A) → IsSorted l → head? l ≡ some a → All (λ y. key a ≤ key y) l
      least [] s h = tt
      least (x ∷ l) s h =
          let same : x ≡ a = cc in
          subst (λ b. All (λ y. key b ≤ key y) (x ∷ l)) same (omega arith, s.0)

  -- Only the empty list has no head after sorting.
  pub head?-sort_by-none : (xs : List A) → head? (sort_by xs) ≡ none → All (λ y. ⊥) xs
  head?-sort_by-none xs e = sort_by-All_back (λ y. ⊥) xs (empty (sort_by xs) e)
    where
      empty : (l : List A) → head? l ≡ none → All (λ y. ⊥) l
      empty [] h = tt
      empty (x ∷ l) h = cc
