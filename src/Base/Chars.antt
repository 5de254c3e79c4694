-- ===== src/Base/Chars.antt =====
-- Texts read character by character: what `includes`, `startsWith` and `split` say of a single
-- character, and character classes.
use Prim.Native.Nat.{ℕ, ◌+◌}
use Prim.Native.Char.{Char, code}
use Prim.Native.String.append
use Prim.Native.String.{String, [] as empty, ◌∷◌ as ◌∷ₛ◌, ◌++◌ as ◌++ₛ◌}
use mathlib.Core.Path.{◌≡◌, refl}
use mathlib.Core.Logic.{inl, inr}
use mathlib.Core.Bool.{Bool, true, false, not, ◌&&◌, ◌||◌}
use mathlib.Core.List.{List, [], ◌∷◌, ◌++◌}
use native.Mathlib.Omega.{arith}
use web_app_qa_tests_main.Base.Tests.{leb, ◌==◌, if◌then◌else◌, Bool-cases}
use web_app_qa_tests_main.Base.Lists.{any}

unfoldable pub chars : String → List Char
chars empty = []
chars (c ∷ₛ s) = c ∷ chars s

abbrev pub has_code : ℕ → Char → Bool
has_code n c = code c == n

abbrev pub includes : ℕ → List Char → Bool
includes n cs = any (has_code n) cs

abbrev pub starts_with_code : ℕ → List Char → Bool
starts_with_code n [] = false
starts_with_code n (c ∷ cs) = code c == n

-- `/[a-z0-9]/`
abbrev pub is_lower_or_digit : Char → Bool
is_lower_or_digit c = (leb 97 (code c) && leb (code c) 122) || (leb 48 (code c) && leb (code c) 57)

-- `/[a-f0-9]/`
abbrev pub is_hex : Char → Bool
is_hex c = (leb 97 (code c) && leb (code c) 102) || (leb 48 (code c) && leb (code c) 57)

abbrev add_to_first : Char → List (List Char) → List (List Char)
add_to_first c [] = (c ∷ []) ∷ []
add_to_first c (s ∷ ss) = (c ∷ s) ∷ ss

-- `split` at a character.
abbrev pub split : ℕ → List Char → List (List Char)
split n [] = [] ∷ []
split n (c ∷ cs) = let rest = split n cs in if code c == n then [] ∷ rest else add_to_first c rest

chars_abc : split 47 (chars "a/bc") ≡ ("a" ∷ []) ∷ ("b" ∷ "c" ∷ []) ∷ []
unfolding chars
chars_abc = refl

abbrev pub to_lower : ℕ → ℕ
to_lower n = if leb 65 n && leb n 90 then n + 32 else n

-- A piece of a pattern is a character or `.`, any character.
abbrev begins_with : List Char → List Char → Bool
begins_with [] cs = true
begins_with (p ∷ ps) [] = false
begins_with (p ∷ ps) (c ∷ cs) = (code p == 46 || to_lower (code c) == code p) && begins_with ps cs

-- `/pattern/i.test(text)`, for a pattern of lower-case characters and dots.
abbrev pub matches_anywhere : List Char → List Char → Bool
matches_anywhere ps [] = begins_with ps []
matches_anywhere ps (c ∷ cs) = begins_with ps (c ∷ cs) || matches_anywhere ps cs

abbrev same_chars : List Char → List Char → Bool
same_chars [] [] = true
same_chars (a ∷ xs) (b ∷ ys) = code a == code b && same_chars xs ys
same_chars _ _ = false

-- `endsWith`
abbrev pub ends_with : List Char → List Char → Bool
ends_with suffix [] = same_chars suffix []
ends_with suffix (c ∷ cs) = same_chars suffix (c ∷ cs) || ends_with suffix cs

-- The white space that `trim` removes.
abbrev pub is_space : Char → Bool
is_space c =
    let n = code c in
    (leb 9 n && leb n 13)
    || (n == 32
        || (n == 160
            || (n == 5760
                || ((leb 8192 n && leb n 8202)
                    || (n == 8232
                        || (n == 8233
                            || (n == 8239 || (n == 8287 || (n == 12288 || n == 65279)))))))))

-- `!!text.trim()`
unfoldable pub has_text : String → Bool
unfolding chars
has_text t = any (λ c. not (is_space c)) (chars t)

-- The length of a text in UTF-16 code units.
abbrev utf16_units : List Char → ℕ
utf16_units [] = 0
utf16_units (c ∷ cs) = (if leb 65536 (code c) then 2 else 1) + utf16_units cs

unfoldable pub utf16_length : String → ℕ
unfolding chars
utf16_length t = utf16_units (chars t)

unfoldable pub text_of : List Char → String
text_of [] = empty
text_of (c ∷ cs) = c ∷ₛ text_of cs

unfoldable pub texts_of : List (List Char) → List String
unfolding text_of
texts_of [] = []
texts_of (cs ∷ css) = text_of cs ∷ texts_of css

pub text_of-chars : (t : String) → text_of (chars t) ≡ t
unfolding text_of chars
text_of-chars empty = refl
text_of-chars (c ∷ₛ t) = rw (text_of-chars t) refl

pub chars-append : (a b : String) → chars (a ++ₛ b) ≡ chars a ++ chars b
unfolding chars
chars-append empty b = rw (append.nil b) refl
chars-append (c ∷ₛ a) b = rw (append.cons c a b) (rw (chars-append a b) refl)

pub split_none : (n : ℕ) (cs : List Char) → includes n cs ≡ false → split n cs ≡ cs ∷ []
split_none n [] h = refl
split_none n (c ∷ cs) h = elim (Bool-cases (code c == n)) [
  | inl t ↦ let bad : code c == n || includes n cs ≡ false = h in ground arith
  | inr f ↦ rw (f, split_none n cs (ground arith)) refl
]

-- A text with one separator has two parts.
pub split_two :
    (n : ℕ) (xs : List Char) (c : Char) (ys : List Char)
    → includes n xs ≡ false
    → code c == n ≡ true
    → includes n ys ≡ false
    → split n (xs ++ c ∷ ys) ≡ xs ∷ ys ∷ []
split_two n [] c ys hx hc hy = rw (hc, split_none n ys hy) refl
split_two n (x ∷ xs) c ys hx hc hy = elim (Bool-cases (code x == n)) [
  | inl t ↦ ground arith
  | inr f ↦ rw (f, split_two n xs c ys (ground arith) hc hy) refl
]
