-- ===== src/Base/Filter.antt =====
-- `filter` over appended lists, and one filter after another.
use mathlib.Core.Path.{◌≡◌, refl}
use mathlib.Core.Logic.{inl, inr}
use mathlib.Core.Bool.{Bool, true, false, not}
use mathlib.Core.List.{List, [], ◌∷◌, ◌++◌, map}
use mathlib.Core.Option.{some}
use native.Mathlib.Omega.{arith}
use web_app_qa_tests_main.Base.Tests.{Bool-cases}
use web_app_qa_tests_main.Base.Lists.{All}
use web_app_qa_tests_main.Base.Search.{filter, find}

module _ {ℓ} {A : Type ℓ} where
  pub filter-append :
      (p : A → Bool) (xs ys : List A) → filter p (xs ++ ys) ≡ filter p xs ++ filter p ys
  unfolding filter
  filter-append p [] ys = refl
  filter-append p (x ∷ xs) ys = elim (Bool-cases (p x)) [
    | inl t ↦ rw t (rw (filter-append p xs ys) refl)
    | inr n ↦ rw n (filter-append p xs ys)
  ]

  -- What one test removes and another asks for is gone.
  pub filter-removed :
      (p q : A → Bool) (xs : List A)
      → ((x : A) → p x ≡ true → q x ≡ true)
      → filter p (filter (λ x. not (q x)) xs) ≡ []
  unfolding filter
  filter-removed p q [] h = refl
  filter-removed p q (x ∷ xs) h = elim (Bool-cases (p x)) [
    | inl t ↦ rw (h x t) (filter-removed p q xs h)
    | inr n ↦ ground (arith, filter-removed p q xs h)
  ]

  -- What a removal by another test spares is all still there.
  pub filter-spared :
      (p q : A → Bool) (xs : List A)
      → ((x : A) → p x ≡ true → q x ≡ false)
      → filter p (filter (λ x. not (q x)) xs) ≡ filter p xs
  unfolding filter
  filter-spared p q [] h = refl
  filter-spared p q (x ∷ xs) h = elim (Bool-cases (p x)) [
    | inl t ↦ rw (t, h x t, t) (rw (filter-spared p q xs h) refl)
    | inr n ↦ ground (arith, filter-spared p q xs h)
  ]

  pub filter-passing : (p : A → Bool) (xs : List A) → All (λ x. p x ≡ true) xs → filter p xs ≡ xs
  unfolding filter
  filter-passing p [] h = refl
  filter-passing p (x ∷ xs) h = rw h.0 (rw (filter-passing p xs h.1) refl)

  pub filter-failing : (p : A → Bool) (xs : List A) → All (λ x. p x ≡ false) xs → filter p xs ≡ []
  unfolding filter
  filter-failing p [] h = refl
  filter-failing p (x ∷ xs) h = rw h.0 (filter-failing p xs h.1)

  -- A change that the test does not see is applied to what is found.
  pub find-map :
      (p : A → Bool) (f : A → A) (xs : List A) (x : A)
      → ((y : A) → p (f y) ≡ p y)
      → find p xs ≡ some x
      → find p (map f xs) ≡ some (f x)
  unfolding find
  find-map p f [] x k h = cc
  find-map p f (y ∷ ys) x k h = elim (Bool-cases (p y)) [
    | inl t ↦ let same : y ≡ x = ground arith in rw (k y, t, same) refl
    | inr n ↦ rw (k y, n) (find-map p f ys x k (rw n at h))
  ]

  pub All-map_list {κ μ} :
      {B : Type μ}
      → (P : A → Type κ) (Q : B → Type κ) (f : A → B) (xs : List A) → ((x : A) → P x → Q (f x))
      → All P xs
      → All Q (map f xs)
  All-map_list P Q f [] k h = tt
  All-map_list P Q f (x ∷ xs) k h = (k x h.0, All-map_list P Q f xs k h.1)
