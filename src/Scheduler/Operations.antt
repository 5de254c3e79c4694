-- ===== src/Scheduler/Operations.antt =====
-- Claims and marks of dashboard/lib/monitoring/scheduler-store.ts in any sequence.
use web_app_qa_tests_main.Base.{
  ℕ, ◌+◌, ◌≤◌, ◌<◌, String, str_eq, eq_iff, Bool, true, false, ◌&&◌, Option, none, some, List, [],
  ◌∷◌, ◌≡◌, ◌⊎◌, inl, inr, refl, sym, ◌∙◌, subst, arith, if◌then◌else◌, find, find-eq-some,
  find-update_first, find-update_first_other, find-append_some, update_first, All, Bool-cases,
  Option-cases, eq_of_some,
}
use web_app_qa_tests_main.Scheduler.{
  claimed, Occurrence, Snapshot, ClaimRequest, ClaimAnswer, occurrence_claim_lease_ms,
  has_occurrence_key, is_settled, is_taken, reclaimed, new_occurrence, claim_occurrences,
  claim_occurrence, get_occurrence, update_occurrence, queued_occurrence, failed_occurrence,
  skipped_occurrence, mark_queued, mark_failed, mark_skipped,
}
use web_app_qa_tests_main.Scheduler.Claims.{IsClaimed, Claims, claim_occurrence-Claims}

-- One operation on the store: a claim, or a mark on a claimed occurrence.
pub data Operation : Type 0 where
  claim : ClaimRequest → (now : ℕ) → (uuid : String) → Operation
  queue : (occurrence_key run_id : String) → (now : ℕ) → Operation
  fail : (occurrence_key error_message : String) → (now : ℕ) → Operation
  skip : (occurrence_key reason : String) → (now : ℕ) → Operation

abbrev pub kept : Option Snapshot → Snapshot → Snapshot
kept none snapshot = snapshot
kept (some after) snapshot = after

-- An operation that throws leaves the store.
abbrev pub apply : Operation → Snapshot → Snapshot
apply (claim input now uuid) s = (claim_occurrence input now uuid s).1
apply (queue key run_id now) s = kept (mark_queued key run_id now s) s
apply (fail key message now) s = kept (mark_failed key message now s) s
apply (skip key reason now) s = kept (mark_skipped key reason now s) s

-- How many claims of a key a sequence of operations grants.
abbrev granted : String → Operation → Snapshot → ℕ
granted key (claim input now uuid) s =
    if (claim_occurrence input now uuid s).0.created && str_eq input.occurrence_key key
    then 1
    else 0
granted key _ s = 0

abbrev pub grants : String → List Operation → Snapshot → ℕ
grants key [] s = 0
grants key (op ∷ ops) s = granted key op s + grants key ops (apply op s)

abbrev pub after_all : List Operation → Snapshot → Snapshot
after_all [] s = s
after_all (op ∷ ops) s = after_all ops (apply op s)

-- The operation is a claim before the limit, or marks another occurrence.
abbrev pub Respects : (key : String) → (limit : ℕ) → Operation → Type 0
Respects key limit (claim input now uuid) = Unit × (now < limit)
Respects key limit (queue key' run_id now) = Unit × (str_eq key' key ≡ false)
Respects key limit (fail key' message now) = Unit × (str_eq key' key ≡ false)
Respects key limit (skip key' reason now) = Unit × (str_eq key' key ≡ false)

-- No claim before the limit gets the occurrence.
abbrev pub Blocks : (limit : ℕ) → Occurrence → Type 0
Blocks limit o =
    (is_settled o.status ≡ true)
    ⊎ ((o.status ≡ claimed) × (limit ≤ o.updated_at + occurrence_claim_lease_ms))

Blocks-is_taken :
    (limit now : ℕ) (o : Occurrence) → Blocks limit o → now < limit → is_taken now o ≡ true
Blocks-is_taken limit now o (inl s) h = rw s refl
Blocks-is_taken limit now o (inr (c, k)) h = rw c (ground arith)

other_key : (a b key : String) → str_eq a key ≡ true → str_eq b key ≡ false → str_eq a b ≡ false
other_key a b key h n = elim (Bool-cases (str_eq a b)) [
  | inl t ↦ let same = (eq_iff a b).0 t in let h' = rw same at h in cc
  | inr f ↦ f
]

module _ (key : String) (limit : ℕ) (o : Occurrence) (blocked : Blocks limit o) where
  mark_other :
      (key' : String) (operation : Occurrence → Occurrence) (now : ℕ) (s : Snapshot)
      → ((x : Occurrence) → (operation x).occurrence_key ≡ x.occurrence_key)
      → str_eq key' key ≡ false
      → get_occurrence key s ≡ some o
      → get_occurrence key (kept (update_occurrence key' operation now s) s) ≡ some o
  unfolding update_occurrence get_occurrence
  mark_other key' operation now s keeps n e =
      elim (Option-cases (find (has_occurrence_key key') s.occurrences)) [
        | inl m ↦ rw m e
        | inr (x, m) ↦
            rw
              (
                m,
                find-update_first_other (has_occurrence_key key) (has_occurrence_key key')
                    (λ x. record (operation x) { updated_at = now }) s.occurrences
                    (λ y h. differs y.occurrence_key h)
                    (λ y h. rw (keeps y) (differs y.occurrence_key h)),
              )
              e
      ]
    where
      differs : (a : String) → str_eq a key' ≡ true → str_eq a key ≡ false
      differs a h = let same = (eq_iff a key').0 h in rw same n

  claim_other :
      (input : ClaimRequest) (now : ℕ) (uuid : String) (s : Snapshot)
      → str_eq input.occurrence_key key ≡ false
      → get_occurrence key s ≡ some o
      → get_occurrence key (claim_occurrence input now uuid s).1 ≡ some o
  unfolding claim_occurrence claim_occurrences get_occurrence
  claim_other input now uuid s n e =
      elim (Option-cases (find (has_occurrence_key input.occurrence_key) s.occurrences)) [
        | inl m ↦ rw (
          m,
          find-append_some (has_occurrence_key key) s.occurrences
              (new_occurrence input now uuid ∷ []) o e,
        )
        | inr (x, m) ↦ elim (Bool-cases (is_taken now x)) [
          | inl t ↦ rw (m, t) e
          | inr f ↦
              rw
                (
                  m,
                  f,
                  find-update_first_other (has_occurrence_key key)
                      (has_occurrence_key input.occurrence_key) (reclaimed input now) s.occurrences
                      (λ y h. differs y.occurrence_key h) (λ y h. differs y.occurrence_key h),
                )
                e
        ]
      ]
    where
      differs : (a : String) → str_eq a input.occurrence_key ≡ true → str_eq a key ≡ false
      differs a h = let same = (eq_iff a input.occurrence_key).0 h in rw same n

  no_grant : (b : Bool) → ◌≡◌ {A = ℕ} (if b && false then 1 else 0) 0
  no_grant true = refl
  no_grant false = refl

  step_keeps :
      (op : Operation) (s : Snapshot)
      → Respects key limit op
      → get_occurrence key s ≡ some o
      → (granted key op s ≡ 0) × (get_occurrence key (apply op s) ≡ some o)
  unfolding mark_queued mark_failed mark_skipped get_occurrence
  step_keeps (queue key' run_id now) s (_, n) e =
      (refl, mark_other key' (queued_occurrence run_id) now s (λ x. refl) n e)
  step_keeps (fail key' message now) s (_, n) e =
      (refl, mark_other key' (failed_occurrence message) now s (λ x. refl) n e)
  step_keeps (skip key' reason now) s (_, n) e =
      (refl, mark_other key' (skipped_occurrence reason) now s (λ x. refl) n e)
  step_keeps (claim input now uuid) s (_, h) e =
      elim (Bool-cases (str_eq input.occurrence_key key)) [
        | inl t ↦
            let same : input.occurrence_key ≡ key = (eq_iff input.occurrence_key key).0 t in
            elim (claim_occurrence-Claims input now uuid s) [
              | inl (refused, found, taken, still) ↦ (rw refused refl, rw still e)
              | inr (given, free, _, _) ↦
                  let open_again = free o (rw same e) in
                  let taken = Blocks-is_taken limit now o blocked h in cc
            ]
        | inr n ↦ (
          rw n (no_grant (claim_occurrence input now uuid s).0.created),
          claim_other input now uuid s n e,
        )
      ]

  pub blocked_stays :
      (ops : List Operation) (s : Snapshot)
      → All (Respects key limit) ops
      → get_occurrence key s ≡ some o
      → (grants key ops s ≡ 0) × (get_occurrence key (after_all ops s) ≡ some o)
  blocked_stays [] s r e = (refl, e)
  blocked_stays (op ∷ ops) s (r, rs) e =
      let (none_now, e') = step_keeps op s r e in
      let (none_later, e'') = blocked_stays ops (apply op s) rs e' in (omega arith, e'')

-- A granted claim is exclusive for the length of the lease: no sequence of claims before then,
-- and of marks on other occurrences, grants the occurrence again, and it stays with the claimant.
pub claim_excludes :
    (input : ClaimRequest) (now : ℕ) (uuid : String) (s after : Snapshot) (r : ClaimAnswer)
    (ops : List Operation)
    → claim_occurrence input now uuid s ≡ (r, after)
    → r.created ≡ true
    → All (Respects input.occurrence_key (now + occurrence_claim_lease_ms)) ops
    → (grants input.occurrence_key ops after ≡ 0)
      × (get_occurrence input.occurrence_key (after_all ops after) ≡ some r.occurrence)
      × IsClaimed input now r.occurrence
claim_excludes input now uuid s after r ops e created respects =
    elim (subst (Claims input now uuid s) e (claim_occurrence-Claims input now uuid s)) [
      | inl (refused, _, _, _) ↦ cc
      | inr (_, _, found, (st, by, at, k)) ↦
          let (nobody, still) =
            blocked_stays input.occurrence_key (now + occurrence_claim_lease_ms) r.occurrence
              (inr (st, omega arith)) ops after respects found in
          (nobody, still, (st, by, at, k))
    ]

marked :
    (key : String) (operation : Occurrence → Occurrence) (now : ℕ) (s after : Snapshot)
    → ((x : Occurrence) → (operation x).occurrence_key ≡ x.occurrence_key)
    → update_occurrence key operation now s ≡ some after
    → (o : Occurrence) × (get_occurrence key s ≡ some o)
      × (get_occurrence key after ≡ some (record (operation o) { updated_at = now }))
unfolding update_occurrence get_occurrence
marked key operation now s after keeps e =
    elim (Option-cases (find (has_occurrence_key key) s.occurrences)) [
      | inl m ↦ let missing = rw m at e in cc
      | inr (o, m) ↦
          let same = eq_of_some (rw m at e) in
          let has = find-eq-some (has_occurrence_key key) s.occurrences o m in
          (
            o,
            m,
            rw (← same) (
                find-update_first (has_occurrence_key key)
                  (λ x. record (operation x) { updated_at = now }) s.occurrences o m
                  (rw (keeps o) has)),
          )
    ]

-- A queued or skipped occurrence is never claimed again, at whatever time.
abbrev pub settle_mark :
    (skipped : Bool) → (key text : String) → (now : ℕ) → Snapshot → Option Snapshot
settle_mark true key reason now s = mark_skipped key reason now s
settle_mark false key run_id now s = mark_queued key run_id now s

-- After an occurrence is marked queued or skipped, no sequence of claims, at whatever times, and
-- of marks on other occurrences grants it again, and it stays settled.
pub settled_is_final :
    (skipped : Bool) (key text : String) (now limit : ℕ) (s after : Snapshot) (ops : List Operation)
    → settle_mark skipped key text now s ≡ some after
    → All (Respects key limit) ops
    → (o : Occurrence) × (get_occurrence key (after_all ops after) ≡ some o)
      × (is_settled o.status ≡ true)
      × (grants key ops after ≡ 0)
unfolding mark_queued mark_skipped
settled_is_final true key text now limit s after ops e respects =
    let (o, _, found) = marked key (skipped_occurrence text) now s after (λ x. refl) e in
    let (nobody, still) = blocked_stays key limit _ (inl refl) ops after respects found in
    (_, still, refl, nobody)
settled_is_final false key text now limit s after ops e respects =
    let (o, _, found) = marked key (queued_occurrence text) now s after (λ x. refl) e in
    let (nobody, still) = blocked_stays key limit _ (inl refl) ops after respects found in
    (_, still, refl, nobody)

-- A failure mark on a queued occurrence succeeds, whoever makes it, and the next claim is then
-- granted.
pub late_failure_reopens :
    (input : ClaimRequest) (run_id message uuid : String) (now late later : ℕ)
    (s queued_s : Snapshot)
    → mark_queued input.occurrence_key run_id now s ≡ some queued_s
    → (failed_s : Snapshot) × (mark_failed input.occurrence_key message late queued_s
        ≡ some failed_s)
      × ((claim_occurrence input later uuid failed_s).0.created ≡ true)
unfolding mark_queued mark_failed update_occurrence get_occurrence
late_failure_reopens input run_id message uuid now late later s queued_s e =
    let (o, _, found) =
      marked input.occurrence_key (queued_occurrence run_id) now s queued_s (λ x. refl) e in
    let key = find-eq-some (has_occurrence_key input.occurrence_key) queued_s.occurrences _ found in
    (
      failed_s,
      rw found refl,
      opened (record (queued_occurrence run_id o) { updated_at = now })
          (find-update_first (has_occurrence_key input.occurrence_key)
            (λ x. record (failed_occurrence message x) { updated_at = late }) queued_s.occurrences _
            found key),
    )
  where
    failed_s : Snapshot
    failed_s = record queued_s {
      occurrences =
          update_first (has_occurrence_key input.occurrence_key)
            (λ x. record (failed_occurrence message x) { updated_at = late }) queued_s.occurrences;
    }

    opened :
        (o : Occurrence)
        → get_occurrence input.occurrence_key failed_s
          ≡ some (record (failed_occurrence message o) { updated_at = late })
        → (claim_occurrence input later uuid failed_s).0.created ≡ true
    opened o f = elim (claim_occurrence-Claims input later uuid failed_s) [
      | inl (_, g, taken, _) ↦
          let same = eq_of_some (sym g ∙ f) in let free = rw same at taken in cc
      | inr (given, _, _, _) ↦ given
    ]
