-- ===== src/Base/Indexed.antt =====
-- An entry together with its position, by which an object in an array keeps its identity.
use Prim.Native.Nat.{ℕ, zero, suc}
use mathlib.Core.Path.{◌≡◌, refl}
use mathlib.Core.Bool.{Bool}
use mathlib.Core.List.{List, [], ◌∷◌, map}
use mathlib.Core.Option.{some}
use native.Mathlib.Omega.{arith}
use web_app_qa_tests_main.Base.Lists.{All, get_elem?, set, count}

abbrev shift {ℓ} : {A : Type ℓ} → ℕ × A → ℕ × A
shift (i, x) = (suc i, x)

module _ {ℓ} {A : Type ℓ} where
  unfoldable pub with_index : List A → List (ℕ × A)
  with_index [] = []
  with_index (x ∷ xs) = (0, x) ∷ map shift (with_index xs)

  map-shift-All {κ} :
      (P Q : ℕ × A → Type κ) (l : List (ℕ × A))
      → ((e : ℕ × A) → P e → Q (shift e))
      → All P l
      → All Q (map shift l)
  map-shift-All P Q [] k h = tt
  map-shift-All P Q (e ∷ l) k h = (k e h.0, map-shift-All P Q l k h.1)

  -- Each pair names an entry and where it stands.
  pub with_index-All :
      (xs : List A) → All (λ (e : ℕ × A). get_elem? xs e.0 ≡ some e.1) (with_index xs)
  unfolding with_index
  with_index-All [] = tt
  with_index-All (x ∷ xs) = (
    refl,
    map-shift-All (λ e. get_elem? xs e.0 ≡ some e.1) (λ e. get_elem? (x ∷ xs) e.0 ≡ some e.1)
        (with_index xs) (λ e h. h) (with_index-All xs),
  )

  map-shift-All_back {κ} :
      (P : A → Type κ) (l : List (ℕ × A)) → All (λ e. P e.1) (map shift l) → All (λ e. P e.1) l
  map-shift-All_back P [] h = tt
  map-shift-All_back P (e ∷ l) h = (h.0, map-shift-All_back P l h.1)

  -- What holds of all indexed entries holds of all entries.
  pub with_index-All_back {κ} :
      (P : A → Type κ) (xs : List A) → All (λ e. P e.1) (with_index xs) → All P xs
  unfolding with_index
  with_index-All_back P [] h = tt
  with_index-All_back P (x ∷ xs) h =
      (h.0, with_index-All_back P xs (map-shift-All_back P (with_index xs) h.1))

  -- Replacing an entry by one that the test treats alike keeps the count.
  pub count-set :
      (q : A → Bool) (xs : List A) (i : ℕ) (x v : A)
      → get_elem? xs i ≡ some x
      → q v ≡ q x
      → count q (set xs i v) ≡ count q xs
  count-set q [] i x v e h = cc
  count-set q (y ∷ ys) zero x v e h = ground arith
  count-set q (y ∷ ys) (suc i) x v e h = ground (arith, count-set q ys i x v)
