-- ===== src/Evidence/Location.antt =====
-- dashboard/lib/inssa-ops/storage-provider-model.ts: where evidence is stored, and which keys and
-- buckets are accepted.
use web_app_qa_tests_main.Base.{
  String, str_eq, Bool, true, false, ◌&&◌, ◌||◌, not, Option, none, some, List, [], ◌∷◌, ◌≡◌, refl,
  arith, leb, if◌then◌else◌, or_else, length, any, all, drop, Char, chars, has_code, includes,
  starts_with_code, is_lower_or_digit, split, Answer, answered, refuse_if, or_refuse, and_then,
  refuse_if-passes,
}
use web_app_qa_tests_main.Evidence.{is_blank}

pub data Provider : Type 0 where
  local_provider supabase_provider spaces_provider : Provider

pub record EvidenceLocation : Type 0 where
  pub provider : Provider
  pub bucket : String

abbrev pub provider_of : String → Option Provider
provider_of backend =
    if str_eq backend "supabase-storage"
    then some supabase_provider
    else if str_eq backend "spaces"
    then some spaces_provider
    else if str_eq backend "local-filesystem"
    then some local_provider
    else none

abbrev pub provider_from_backend : String → Answer Provider
provider_from_backend backend = or_refuse (provider_of backend) "Unknown evidence storage backend."

abbrev pub is_durable_backend : String → Bool
is_durable_backend backend = str_eq backend "supabase-storage" || str_eq backend "spaces"

abbrev map_text : (String → String) → Option String → Option String
map_text f none = none
map_text f (some t) = some (f t)

abbrev named_provider : String → Option Provider
named_provider value =
    if str_eq value "local"
    then some local_provider
    else if str_eq value "supabase"
    then some supabase_provider
    else if str_eq value "spaces"
    then some spaces_provider
    else none

-- `trim().toLowerCase()` is an argument.
abbrev pub active_evidence_provider :
    (trim_lower : String → String) → (configured : Option String) → Answer Provider
active_evidence_provider trim_lower configured =
    or_refuse (named_provider (or_else (map_text trim_lower configured) "local"))
      "Unsupported evidence storage provider."

abbrev pub is_empty_segment : List Char → Bool
is_empty_segment [] = true
is_empty_segment (c ∷ cs) = false

-- The segments "." and "..".
abbrev pub is_dot : List Char → Bool
is_dot (c ∷ []) = has_code 46 c
is_dot _ = false

abbrev pub is_dot_dot : List Char → Bool
is_dot_dot (c ∷ d ∷ []) = has_code 46 c && has_code 46 d
is_dot_dot _ = false

abbrev pub is_bad_segment : List Char → Bool
is_bad_segment s = is_empty_segment s || (is_dot s || is_dot_dot s)

unfoldable pub safe_storage_key : String → Answer String
unfolding chars
safe_storage_key key =
    let cs = chars key in
    refuse_if
      (str_eq key ""
        || (includes 92 cs
            || (includes 0 cs || (starts_with_code 47 cs || any is_bad_segment (split 47 cs)))))
      "Invalid evidence storage key." (answered key)

-- `/[a-z0-9.-]/`
abbrev is_bucket_code : Char → Bool
is_bucket_code c = is_lower_or_digit c || (has_code 46 c || has_code 45 c)

abbrev first_passes : (Char → Bool) → List Char → Bool
first_passes p [] = false
first_passes p (c ∷ cs) = p c

abbrev last_passes : (Char → Bool) → List Char → Bool
last_passes p [] = false
last_passes p (c ∷ []) = p c
last_passes p (c ∷ d ∷ cs) = last_passes p (d ∷ cs)

-- `/^[a-z0-9][a-z0-9.-]{1,61}[a-z0-9]$/`
unfoldable pub is_bucket : String → Bool
unfolding chars
is_bucket bucket =
    let cs = chars bucket in
    (leb 3 (length cs) && leb (length cs) 63)
    && (first_passes is_lower_or_digit cs
        && (last_passes is_lower_or_digit cs && all is_bucket_code cs))

abbrev pub safe_bucket : String → Answer String
safe_bucket bucket = refuse_if (not (is_bucket bucket)) "Invalid evidence bucket." (answered bucket)

abbrev is_local : Provider → Bool
is_local local_provider = true
is_local _ = false

-- `storageBucket ?? (provider === "supabase" ? "inssa-evidence" : null)`
abbrev pub bucket_or_default : Provider → Option String → Option String
bucket_or_default p (some b) = some b
bucket_or_default supabase_provider none = some "inssa-evidence"
bucket_or_default _ none = none

abbrev pub evidence_location :
    (storage_backend : String) → (storage_bucket : Option String) → Answer EvidenceLocation
evidence_location storage_backend storage_bucket =
    and_then (provider_from_backend storage_backend) λ provider.
      refuse_if (is_local provider) "Local evidence has no durable location." (
        let bucket = bucket_or_default provider storage_bucket in
        refuse_if (is_blank bucket) "Durable evidence bucket missing." (
          and_then (safe_bucket (or_else bucket ""))
            λ safe. answered (record { provider = provider; bucket = safe })))

-- A key read as a path, from a directory given by its names, the innermost first.
abbrev pub resolve : List (List Char) → List (List Char) → List (List Char)
resolve directory [] = directory
resolve directory (s ∷ ss) =
    if is_empty_segment s || is_dot s
    then resolve directory ss
    else if is_dot_dot s
    then resolve (drop 1 directory) ss
    else resolve (s ∷ directory) ss

abbrev pub below : List (List Char) → List (List Char) → List (List Char)
below directory [] = directory
below directory (s ∷ ss) = below (s ∷ directory) ss

resolve-below :
    (directory ss : List (List Char))
    → any is_bad_segment ss ≡ false
    → resolve directory ss ≡ below directory ss
resolve-below directory [] h = refl
resolve-below directory (s ∷ ss) h = ground (arith, resolve-below (s ∷ directory) ss)

-- A storage key that is accepted comes back as it is and, read as a path from any directory,
-- names the path below that directory with exactly the segments of the key: none climbs, stays or
-- is empty.
pub safe_storage_key-Confines :
    (key safe : String) (directory : List (List Char))
    → safe_storage_key key ≡ answered safe
    → (safe ≡ key)
      × (resolve directory (split 47 (chars key)) ≡ below directory (split 47 (chars key)))
unfolding safe_storage_key
safe_storage_key-Confines key safe directory h =
    let cs = chars key in
    let passed =
      refuse_if-passes
        (str_eq key ""
          || (includes 92 cs
              || (includes 0 cs || (starts_with_code 47 cs || any is_bad_segment (split 47 cs)))))
        "Invalid evidence storage key." (answered key) safe h in
    (cc, resolve-below directory (split 47 cs) (ground arith))
