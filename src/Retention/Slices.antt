-- ===== src/Retention/Slices.antt =====
-- The slices in which dashboard/lib/inssa-ops/retention-executor.ts removes the keys of a bundle.
use mathlib.Core.List.{flatten}
use web_app_qa_tests_main.Base.{
  ℕ, ◌≤◌, suc, zero, String, List, [], ◌∷◌, ◌≡◌, refl, arith, length, drop, take-append-drop,
  length-drop, length-take, All,
}
use web_app_qa_tests_main.Retention.Executor.{slices_on, slices}

slices_on-flatten :
    (fuel : ℕ) (keys : List String) → length keys ≤ fuel → flatten (slices_on fuel keys) ≡ keys
unfolding flatten
slices_on-flatten zero [] h = refl
slices_on-flatten zero (k ∷ ks) h = ground (arith, h)
slices_on-flatten (suc fuel) [] h = refl
slices_on-flatten (suc fuel) (k ∷ ks) h =
    rw (slices_on-flatten fuel (drop 100 (k ∷ ks)) (omega (arith, h, length-drop 99 ks)))
      (take-append-drop 100 (k ∷ ks))

-- The slices together are the keys, in their order: the fuel loses none.
pub slices-flatten : (keys : List String) → flatten (slices keys) ≡ keys
slices-flatten keys = slices_on-flatten (length keys) keys (omega arith)

slices_on-All : (fuel : ℕ) (keys : List String) → All (λ s. length s ≤ 100) (slices_on fuel keys)
slices_on-All zero keys = tt
slices_on-All (suc fuel) [] = tt
slices_on-All (suc fuel) (k ∷ ks) =
    (omega (arith, length-take 100 (k ∷ ks)), slices_on-All fuel (drop 100 (k ∷ ks)))

-- No slice holds more than 100 keys.
pub slices-All : (keys : List String) → All (λ s. length s ≤ 100) (slices keys)
slices-All keys = slices_on-All (length keys) keys
