-- ===== src/Outbox/Payload.antt =====
-- `sanitizePayload` of dashboard/lib/inssa-ops/notification-outbox.ts, on JSON values. What else may
-- stand in an `unknown` value is a number, which is kept.
use web_app_qa_tests_main.Base.{
  ℕ, String, Bool, true, false, ◌≡◌, ◌⊎◌, inl, inr, refl, if◌then◌else◌, Bool-cases,
}

mutual
  pub data Value : Type 0 where
    absent : Value
    flag : Bool → Value
    number : ℕ → Value
    text : String → Value
    array : Values → Value
    object : Fields → Value

  pub data Values : Type 0 where
    no_value : Values
    value : Value → Values → Values

  pub data Fields : Type 0 where
    no_field : Fields
    field : (key : String) → Value → Fields → Fields

module _ (redact : String → String) (is_sensitive : String → Bool) where
  abbrev mutual
    pub sanitize_value : Value → Value
    sanitize_value absent = absent
    sanitize_value (flag b) = flag b
    sanitize_value (number n) = number n
    sanitize_value (text t) = text (redact t)
    sanitize_value (array vs) = array (sanitize_values vs)
    sanitize_value (object fs) = object (sanitize_payload fs)

    pub sanitize_values : Values → Values
    sanitize_values no_value = no_value
    sanitize_values (value v vs) = value (sanitize_value v) (sanitize_values vs)

    pub sanitize_payload : Fields → Fields
    sanitize_payload no_field = no_field
    sanitize_payload (field key v fs) =
        let kept = sanitize_value v in
        field key (if is_sensitive key then text "[redacted]" else kept) (sanitize_payload fs)

-- Every text is safe, and under a sensitive key stands nothing but the mark of redaction.
module _ (Safe : String → Type 0) (is_sensitive : String → Bool) where
  abbrev mutual
    pub IsSafeValue : Value → Type 0
    IsSafeValue absent = Unit
    IsSafeValue (flag b) = Unit
    IsSafeValue (number n) = Unit
    IsSafeValue (text t) = Safe t
    IsSafeValue (array vs) = AreSafeValues vs
    IsSafeValue (object fs) = IsSafePayload fs

    pub AreSafeValues : Values → Type 0
    AreSafeValues no_value = Unit
    AreSafeValues (value v vs) = IsSafeValue v × AreSafeValues vs

    pub IsSafePayload : Fields → Type 0
    IsSafePayload no_field = Unit
    IsSafePayload (field key v fs) =
        (((is_sensitive key ≡ true) × (v ≡ text "[redacted]"))
          ⊎ ((is_sensitive key ≡ false) × IsSafeValue v))
        × IsSafePayload fs

module _ (redact : String → String) (is_sensitive : String → Bool) (Safe : String → Type 0)
    (redacts : (t : String) → Safe (redact t)) where
  kept :
      (key : String) (v : Value)
      → IsSafeValue Safe is_sensitive (sanitize_value redact is_sensitive v)
      → ((is_sensitive key ≡ true)
          × ((if is_sensitive key then text "[redacted]" else sanitize_value redact is_sensitive v)
              ≡ text "[redacted]"))
        ⊎ ((is_sensitive key ≡ false)
            × IsSafeValue Safe is_sensitive (
                if is_sensitive key
                then text "[redacted]"
                else sanitize_value redact is_sensitive v))
  kept key v h = elim (Bool-cases (is_sensitive key)) [
    | inl t ↦ inl (t, rw t refl)
    | inr n ↦ inr (n, rw n h)
  ]

  mutual
    sanitize_value-IsSafeValue :
        (v : Value) → IsSafeValue Safe is_sensitive (sanitize_value redact is_sensitive v)
    sanitize_value-IsSafeValue absent = tt
    sanitize_value-IsSafeValue (flag b) = tt
    sanitize_value-IsSafeValue (number n) = tt
    sanitize_value-IsSafeValue (text t) = redacts t
    sanitize_value-IsSafeValue (array vs) = sanitize_values-AreSafeValues vs
    sanitize_value-IsSafeValue (object fs) = sanitize_payload-IsSafePayload fs

    sanitize_values-AreSafeValues :
        (vs : Values) → AreSafeValues Safe is_sensitive (sanitize_values redact is_sensitive vs)
    sanitize_values-AreSafeValues no_value = tt
    sanitize_values-AreSafeValues (value v vs) =
        (sanitize_value-IsSafeValue v, sanitize_values-AreSafeValues vs)

    pub sanitize_payload-IsSafePayload :
        (fs : Fields) → IsSafePayload Safe is_sensitive (sanitize_payload redact is_sensitive fs)
    sanitize_payload-IsSafePayload no_field = tt
    sanitize_payload-IsSafePayload (field key v fs) =
        (kept key v (sanitize_value-IsSafeValue v), sanitize_payload-IsSafePayload fs)
