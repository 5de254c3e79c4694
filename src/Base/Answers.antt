-- ===== src/Base/Answers.antt =====
-- What a function gives that may throw: its value, or the message of the error.
use Prim.Native.String.{String}
use mathlib.Core.Path.{◌≡◌, refl}
use mathlib.Core.Logic.{◌⊎◌, inl, inr}
use mathlib.Core.Bool.{Bool, true, false}
use mathlib.Core.Option.{Option, none, some}

pub data Answer {ℓ} (A : Type ℓ) : Type ℓ where
  answered : A → Answer A
  refused : String → Answer A

-- The answer of a function that returns nothing.
pub data Done : Type 0 where
  done : Done

module _ {ℓ} {A : Type ℓ} where
  -- `if (test) throw new Error(message);` before the rest.
  abbrev pub refuse_if : Bool → String → Answer A → Answer A
  refuse_if true message rest = refused message
  refuse_if false message rest = rest

  abbrev pub or_refuse : Option A → String → Answer A
  or_refuse none message = refused message
  or_refuse (some a) message = answered a

  -- Throwing from the first call leaves the second undone.
  abbrev pub and_then {κ} : {B : Type κ} → Answer A → (A → Answer B) → Answer B
  and_then (answered a) next = next a
  and_then (refused message) next = refused message

  abbrev pub is_answered : Answer A → Bool
  is_answered (answered a) = true
  is_answered (refused message) = false

  pub Answer-cases :
      (x : Answer A) → ((a : A) × (x ≡ answered a)) ⊎ ((m : String) × (x ≡ refused m))
  Answer-cases (answered a) = inl (a, refl)
  Answer-cases (refused m) = inr (m, refl)

  pub refuse_if-passes :
      (b : Bool) (m : String) (rest : Answer A) (a : A)
      → refuse_if b m rest ≡ answered a
      → (b ≡ false) × (rest ≡ answered a)
  refuse_if-passes true m rest a h = cc
  refuse_if-passes false m rest a h = (refl, h)

  pub or_refuse-some : (o : Option A) (m : String) (a : A) → or_refuse o m ≡ answered a → o ≡ some a
  or_refuse-some none m a h = cc
  or_refuse-some (some x) m a h = let same : x ≡ a = cc in rw same refl

  pub and_then-answers {κ} :
      {B : Type κ} (x : Answer A) (next : A → Answer B) (b : B)
      → and_then x next ≡ answered b
      → (a : A) × (x ≡ answered a) × (next a ≡ answered b)
  and_then-answers (answered a) next b h = (a, refl, h)
  and_then-answers (refused m) next b h = cc

  pub refused-answered {κ} : {B : Type κ} (m : String) (a : A) → refused m ≡ answered a → B
  refused-answered m a h = cc
