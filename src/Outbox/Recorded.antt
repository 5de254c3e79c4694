-- ===== src/Outbox/Recorded.antt =====
-- What dashboard/lib/inssa-ops/notification-events.ts leaves in the outbox.
use web_app_qa_tests_main.Base.{
  ℕ, ◌≤◌, String, eq_refl, Bool, true, some, List, [], ◌∷◌, ◌≡◌, inl, inr, refl, arith, find, count,
  count-append, All, Bool-cases, Option-cases,
}
use web_app_qa_tests_main.Outbox.{OutboxRecord, CreateInput}
use web_app_qa_tests_main.Outbox.Store.{has_deduplication_key, create_record, create_notification}
use web_app_qa_tests_main.Outbox.Promises.{HasUniqueKeys, IsRedacted, create_notification_once}
use web_app_qa_tests_main.Outbox.Keys.{Announces, inputs_of-Announces}
use web_app_qa_tests_main.Outbox.Events.{Event, Attempt, inputs_of, emit, emit_all, record_events}

find-count :
    (key : String) (ns : List OutboxRecord) (n : OutboxRecord)
    → find (has_deduplication_key key) ns ≡ some n
    → 1 ≤ count (has_deduplication_key key) ns
unfolding find
find-count key [] n e = cc
find-count key (x ∷ ns) n e = ground (arith, find-count key ns n)

module _ (redact : String → String) (is_sensitive : String → Bool) (Safe : String → Type 0)
    (redacts : (t : String) → Safe (redact t)) where
  -- Creation removes nothing, and its key is there.
  create-count :
      (input : CreateInput) (now : ℕ) (uuid : String) (ns : List OutboxRecord) (key : String)
      → (count (has_deduplication_key key) ns
          ≤ count
              (has_deduplication_key key)
              (create_notification redact is_sensitive input now uuid ns).1)
        × (1
            ≤ count
                (has_deduplication_key input.deduplication_key)
                (create_notification redact is_sensitive input now uuid ns).1)
  unfolding create_notification
  create-count input now uuid ns key =
      elim (Option-cases (find (has_deduplication_key input.deduplication_key) ns)) [
        | inr (n, e) ↦ rw e (omega arith, find-count input.deduplication_key ns n e)
        | inl e ↦
            let made = create_record redact is_sensitive input now uuid in
            let sum = count-append (has_deduplication_key key) ns (made ∷ []) in
            let own = count-append (has_deduplication_key input.deduplication_key) ns (made ∷ []) in
            let self = eq_refl input.deduplication_key in
            rw e (omega (arith, sum), ground (arith, own, self))
      ]

  abbrev pub IsKept : List OutboxRecord → Type 0
  IsKept ns = HasUniqueKeys ns × All (IsRedacted Safe is_sensitive) ns

  -- Exactly one notification has the key.
  abbrev pub IsRecorded : List OutboxRecord → String → Type 0
  IsRecorded ns key = count (has_deduplication_key key) ns ≡ 1

  emit-IsKept :
      (input : CreateInput) (a : Attempt) (ns : List OutboxRecord)
      → IsKept ns
      → IsKept (emit redact is_sensitive input a ns).1
        × ((key : String)
            → IsRecorded ns key
            → IsRecorded (emit redact is_sensitive input a ns).1 key)
        × (a.is_writable ≡ true
            → IsRecorded (emit redact is_sensitive input a ns).1 input.deduplication_key)
  emit-IsKept input a ns (unique, redacted) = elim (Bool-cases a.is_writable) [
    | inr f ↦ rw f ((unique, redacted), λ key h. h, λ t. cc)
    | inl t ↦
        let after = (create_notification redact is_sensitive input a.now a.uuid ns).1 in
        let (unique', redacted', _) =
          create_notification_once redact is_sensitive Safe redacts input input a.now a.now a.uuid
            a.uuid ns refl unique redacted in
        rw t (
          (unique', redacted'),
          λ key h.
              let (more, _) = create-count input a.now a.uuid ns key in
              let most = unique' key in omega arith,
          λ w.
              let (_, there) = create-count input a.now a.uuid ns input.deduplication_key in
              let most = unique' input.deduplication_key in omega arith,
        )
  ]

  -- Each notification of an event whose attempt could be written.
  abbrev pub AreRecorded : List OutboxRecord → List CreateInput → (first second : Attempt) → Type 0
  AreRecorded ns [] a b = Unit
  AreRecorded ns (i ∷ is) a b =
      (a.is_writable ≡ true → IsRecorded ns i.deduplication_key) × AreRecorded ns is b b

  AreRecorded-step :
      (before after : List OutboxRecord) (is : List CreateInput) (a b : Attempt)
      → ((key : String) → IsRecorded before key → IsRecorded after key)
      → AreRecorded before is a b
      → AreRecorded after is a b
  AreRecorded-step before after [] a b k h = tt
  AreRecorded-step before after (i ∷ is) a b k h =
      (λ w. k i.deduplication_key (h.0 w), AreRecorded-step before after is b b k h.1)

  emit_all-IsKept :
      (is : List CreateInput) (a b : Attempt) (ns : List OutboxRecord)
      → IsKept ns
      → let after = emit_all redact is_sensitive is a b ns in
        IsKept after
        × ((key : String) → IsRecorded ns key → IsRecorded after key)
        × AreRecorded after is a b
  emit_all-IsKept [] a b ns kept = (kept, λ key h. h, tt)
  emit_all-IsKept (i ∷ is) a b ns kept =
      let (one, stays, written) = emit-IsKept i a ns kept in
      let (all_kept, all_stay, rest) =
        emit_all-IsKept is b b (emit redact is_sensitive i a ns).1 one in
      (
        all_kept,
        λ key h. all_stay key (stays key h),
        (λ w. all_stay i.deduplication_key (written w), rest),
      )

  -- Whatever events happen in whatever order, from an outbox with unique keys and redacted
  -- notifications, if the redaction makes every text safe: keys stay unique and notifications
  -- redacted, and no key that was recorded is lost; each event is told by notifications of its
  -- types (an expired lease and a recovery by two), about its run or worker, under keys that
  -- differ; and the key of each of them whose attempt could write the outbox is there exactly
  -- once, however often the event is repeated.
  pub record_events_once :
      (es : List (Event × Attempt × Attempt)) (ns : List OutboxRecord)
      → IsKept ns
      → let after = record_events redact is_sensitive es ns in
        IsKept after
        × ((key : String) → IsRecorded ns key → IsRecorded after key)
        × All (λ e. Announces e.0 × AreRecorded after (inputs_of e.0) e.1 e.2) es
  unfolding record_events
  record_events_once [] ns kept = (kept, λ key h. h, tt)
  record_events_once ((e, a, b) ∷ es) ns kept =
      let (one, stays, written) = emit_all-IsKept (inputs_of e) a b ns kept in
      let here = emit_all redact is_sensitive (inputs_of e) a b ns in
      let (all_kept, all_stay, rest) = record_events_once es here one in
      let after = record_events redact is_sensitive es here in
      (
        all_kept,
        λ key h. all_stay key (stays key h),
        (
          (inputs_of-Announces e, AreRecorded-step here after (inputs_of e) a b all_stay written),
          rest,
        ),
      )
