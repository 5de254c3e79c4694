-- ===== src/Base/Pointwise.antt =====
-- Two lists of one length, entry by entry.
use Prim.Native.Nat.{◌≤◌}
use mathlib.Core.Path.{◌≡◌, sym, ◌∙◌, subst}
use mathlib.Core.Logic.{inl, inr}
use mathlib.Core.Bool.{Bool, true}
use mathlib.Core.List.{List, [], ◌∷◌}
use mathlib.Core.Option.{some}
use native.Mathlib.Omega.{arith}
use web_app_qa_tests_main.Base.Tests.{Bool-cases}
use web_app_qa_tests_main.Base.Lists.{All, count}
use web_app_qa_tests_main.Base.Search.{find}

module _ {ℓ} {A : Type ℓ} where
  abbrev pub All₂ : (A → A → Type ℓ) → List A → List A → Type ℓ
  All₂ R [] [] = Unit
  All₂ R (x ∷ xs) (y ∷ ys) = R x y × All₂ R xs ys
  All₂ R _ _ = Unit × ⊥

module _ {ℓ} {A : Type ℓ} (R : A → A → Type ℓ) where
  -- A test that related entries agree on finds related entries.
  pub find-All₂ :
      (p : A → Bool) (xs ys : List A) (x : A)
      → ((a b : A) → R a b → p a ≡ p b)
      → All₂ R xs ys
      → find p xs ≡ some x
      → (y : A) × (find p ys ≡ some y) × R x y
  unfolding find
  find-All₂ p [] ys x k h e = cc
  find-All₂ p (a ∷ xs) [] x k h e = absurd h.1
  find-All₂ p (a ∷ xs) (b ∷ ys) x k h e = elim (Bool-cases (p a)) [
    | inl t ↦
        let same : a ≡ x = ground arith in
        (b, rw (sym (k a b h.0) ∙ t), subst (λ x'. R x' b) same h.0)
    | inr n ↦ rw (sym (k a b h.0) ∙ n) (find-All₂ p xs ys x k h.1 (rw (n, find) at e))
  ]

  pub count-All₂ :
      (p : A → Bool) (xs ys : List A)
      → ((a b : A) → R a b → p b ≡ true → p a ≡ true)
      → All₂ R xs ys
      → count p ys ≤ count p xs
  count-All₂ p [] [] k h = omega arith
  count-All₂ p [] (b ∷ ys) k h = absurd h.1
  count-All₂ p (a ∷ xs) [] k h = omega arith
  count-All₂ p (a ∷ xs) (b ∷ ys) k h = ground (arith, k a b h.0, count-All₂ p xs ys k h.1)

  pub All-All₂ {κ} :
      (P Q : A → Type κ) (xs ys : List A)
      → ((a b : A) → R a b → P a → Q b)
      → All₂ R xs ys
      → All P xs
      → All Q ys
  All-All₂ P Q [] [] k h a = tt
  All-All₂ P Q [] (b ∷ ys) k h a = absurd h.1
  All-All₂ P Q (x ∷ xs) [] k h a = tt
  All-All₂ P Q (x ∷ xs) (b ∷ ys) k h a = (k x b h.0 a.0, All-All₂ P Q xs ys k h.1 a.1)
