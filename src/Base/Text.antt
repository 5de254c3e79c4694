-- ===== src/Base/Text.antt =====
-- Decimal numerals as texts, and the two-digit padding of `padStart(2, "0")`.
use Prim.Native.Nat.{ℕ, zero, suc, ◌/◌, ◌%◌}
use Prim.Native.String
use Prim.Native.String.{String}
use mathlib.Core.Path.{◌≡◌, refl}
use web_app_qa_tests_main.Base.Tests.{ltb, ◌==◌, if◌then◌else◌}

infixr 65 ◌<>◌
abbrev pub ◌<>◌ : String → String → String
a <> b = String.◌++◌ a b

digit : ℕ → String
digit n =
    if n == 0
    then "0"
    else if n == 1
    then "1"
    else if n == 2
    then "2"
    else if n == 3
    then "3"
    else if n == 4
    then "4"
    else if n == 5
    then "5"
    else if n == 6
    then "6"
    else if n == 7
    then "7"
    else if n == 8
    then "8"
    else "9"

-- On fuel above the number, which has no more digits than that.
show_digits : ℕ → ℕ → String
unfolding digit
show_digits zero n = ""
show_digits (suc fuel) n =
    let more = show_digits fuel (n / 10) <> digit (n % 10) in if ltb n 10 then digit n else more

unfoldable pub show : ℕ → String
unfolding show_digits
show n = show_digits (suc n) n

unfoldable pub pad : ℕ → String
unfolding show
pad n = if ltb n 10 then "0" <> show n else show n

show_year : show 2026 ≡ "2026"
unfolding show
show_year = refl
