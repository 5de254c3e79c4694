-- ===== src/Base/Search.antt =====
-- `Array.prototype.find`, `filter`, and the change of an entry that `find` returned.
use Prim.Native.Nat.{◌≤◌}
use mathlib.Core.Path.{◌≡◌, refl}
use mathlib.Core.Logic.{inl, inr}
use mathlib.Core.Bool.{Bool, true, false}
use mathlib.Core.List.{List, [], ◌∷◌, ◌++◌}
use mathlib.Core.Option.{Option, none, some}
use native.Mathlib.Omega.{arith}
use web_app_qa_tests_main.Base.Tests.{if◌then◌else◌, Bool-cases}
use web_app_qa_tests_main.Base.Lists.{All, count}

module _ {ℓ} {A : Type ℓ} where
  -- The first entry that passes.
  unfoldable pub find : (A → Bool) → List A → Option A
  find p [] = none
  find p (x ∷ xs) = if p x then some x else find p xs

  -- What a Map made of the entries holds: the last entry for a key.
  unfoldable pub find_last : (A → Bool) → List A → Option A
  find_last p [] = none
  find_last p (x ∷ xs) = elim (find_last p xs) [
    | none ↦ if p x then some x else none
    | some y ↦ some y
  ]

  unfoldable pub filter : (A → Bool) → List A → List A
  filter p [] = []
  filter p (x ∷ xs) = let rest = filter p xs in if p x then x ∷ rest else rest

  -- The object that `find` returns is changed in place.
  unfoldable pub update_first : (A → Bool) → (A → A) → List A → List A
  update_first p f [] = []
  update_first p f (x ∷ xs) = let rest = update_first p f xs in if p x then f x ∷ xs else x ∷ rest

  pub find-eq-some : (p : A → Bool) (xs : List A) (x : A) → find p xs ≡ some x → p x ≡ true
  unfolding find
  find-eq-some p [] x e = cc
  find-eq-some p (y ∷ ys) x e = elim (Bool-cases (p y)) [
    | inl h ↦ ground arith
    | inr h ↦ find-eq-some p ys x (ground arith)
  ]

  pub find-eq-none : (p : A → Bool) (xs : List A) → find p xs ≡ none → All (λ x. p x ≡ false) xs
  unfolding find
  find-eq-none p [] e = tt
  find-eq-none p (y ∷ ys) e = elim (Bool-cases (p y)) [
    | inl h ↦ ground arith
    | inr h ↦ (h, find-eq-none p ys (ground arith))
  ]

  pub find-All {κ} :
      (P : A → Type κ) (p : A → Bool) (xs : List A) (x : A) → All P xs → find p xs ≡ some x → P x
  unfolding find
  find-All P p [] x h e = cc
  find-All P p (y ∷ ys) x h e = elim (Bool-cases (p y)) [
    | inl t ↦ let same : y ≡ x = ground arith in rw (← same) h.0
    | inr f ↦ find-All P p ys x h.1 (ground arith)
  ]

  -- A store is read back at its first fitting entry.
  pub find-update_first :
      (p : A → Bool) (f : A → A) (xs : List A) (x : A)
      → find p xs ≡ some x
      → p (f x) ≡ true
      → find p (update_first p f xs) ≡ some (f x)
  unfolding find update_first
  find-update_first p f [] x e h = cc
  find-update_first p f (y ∷ ys) x e h = elim (Bool-cases (p y)) [
    | inl t ↦ ground arith
    | inr n ↦ ground (arith, find-update_first p f ys x)
  ]

  pub find-append :
      (p : A → Bool) (xs ys : List A) → find p xs ≡ none → find p (xs ++ ys) ≡ find p ys
  unfolding find
  find-append p [] ys e = refl
  find-append p (x ∷ xs) ys e = ground (arith, find-append p xs ys)

  pub find-append_some :
      (p : A → Bool) (xs ys : List A) (x : A) → find p xs ≡ some x → find p (xs ++ ys) ≡ some x
  unfolding find
  find-append_some p [] ys x e = cc
  find-append_some p (y ∷ xs) ys x e = ground (arith, find-append_some p xs ys x)

  -- What a change keeps of the changed entry, it keeps of all.
  pub update_first-All {κ} :
      (P : A → Type κ) (p : A → Bool) (f : A → A) (xs : List A)
      → All P xs
      → ((x : A) → P x → p x ≡ true → P (f x))
      → All P (update_first p f xs)
  unfolding update_first
  update_first-All P p f [] h k = tt
  update_first-All P p f (x ∷ xs) h k = elim (Bool-cases (p x)) [
    | inl t ↦ rw t (k x h.0 t, h.1)
    | inr n ↦ rw n (h.0, update_first-All P p f xs h.1 k)
  ]

  -- A change that turns no failing entry into a passing one adds none.
  pub count-update_first_le :
      (q p : A → Bool) (f : A → A) (xs : List A)
      → ((x : A) → p x ≡ true → q (f x) ≡ true → q x ≡ true)
      → count q (update_first p f xs) ≤ count q xs
  unfolding update_first
  count-update_first_le q p f [] k = omega arith
  count-update_first_le q p f (x ∷ xs) k = ground (arith, k x, count-update_first_le q p f xs k)

  pub count-filter-le : (q p : A → Bool) (xs : List A) → count q (filter p xs) ≤ count q xs
  unfolding filter
  count-filter-le q p [] = omega arith
  count-filter-le q p (x ∷ xs) = ground (arith, count-filter-le q p xs)

  pub filter-All {κ} :
      (P : A → Type κ) (p : A → Bool) (xs : List A) → All P xs → All P (filter p xs)
  unfolding filter
  filter-All P p [] h = tt
  filter-All P p (x ∷ xs) h = elim (Bool-cases (p x)) [
    | inl t ↦ rw t (h.0, filter-All P p xs h.1)
    | inr n ↦ rw n (filter-All P p xs h.1)
  ]

  pub filter-passes : (p : A → Bool) (xs : List A) → All (λ x. p x ≡ true) (filter p xs)
  unfolding filter
  filter-passes p [] = tt
  filter-passes p (x ∷ xs) = elim (Bool-cases (p x)) [
    | inl t ↦ rw t (t, filter-passes p xs)
    | inr n ↦ rw n (filter-passes p xs)
  ]

  -- What holds of the entries that pass holds of every entry, if it passes.
  pub filter-All_back {κ} :
      (P : A → Type κ) (p : A → Bool) (xs : List A)
      → All P (filter p xs)
      → All (λ x. p x ≡ true → P x) xs
  unfolding filter
  filter-All_back P p [] h = tt
  filter-All_back P p (x ∷ xs) h = elim (Bool-cases (p x)) [
    | inl t ↦ let (here, later) = rw (t, filter) at h in (λ _. here, filter-All_back P p xs later)
    | inr n ↦ (λ t. cc, filter-All_back P p xs (rw (n, filter) at h))
  ]

  -- A change elsewhere leaves what a search finds.
  pub find-update_first_other :
      (q p : A → Bool) (f : A → A) (xs : List A)
      → ((y : A) → p y ≡ true → q y ≡ false)
      → ((y : A) → p y ≡ true → q (f y) ≡ false)
      → find q (update_first p f xs) ≡ find q xs
  unfolding find update_first
  find-update_first_other q p f [] h k = refl
  find-update_first_other q p f (x ∷ xs) h k =
      ground (arith, h x, k x, find-update_first_other q p f xs h k)
