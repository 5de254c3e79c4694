-- ===== src/Outbox/Promises.antt =====
-- Deduplication, redaction and listings of the outbox of
-- dashboard/lib/inssa-ops/notification-outbox.ts.
use web_app_qa_tests_main.Base.{
  ℕ, ◌+◌, ◌≤◌, ◌<◌, String, str_eq, eq_iff, eq_refl, Bool, true, false, none, some, List, [], ◌∷◌,
  ◌++◌, ◌≡◌, inl, inr, refl, sym, ◌∙◌, subst, arith, leb, leb→le, ◌&&◌, find, find-append, filter,
  length, count, count-append, All, All-append, Bool-cases, Option-cases,
}
use web_app_qa_tests_main.Pages.{read, read_pages}
use web_app_qa_tests_main.Pages.Complete.{read_pages_complete}
use web_app_qa_tests_main.Outbox.{OutboxRecord, CreateInput, OutboxFilters}
use web_app_qa_tests_main.Outbox.Payload.{IsSafePayload, sanitize_payload-IsSafePayload}
use web_app_qa_tests_main.Outbox.Store.{
  Created, has_deduplication_key, matches_filters, insert_newest_first, newest_first, create_record,
  create_notification, list_notifications,
}

abbrev pub HasUniqueKeys : List OutboxRecord → Type 0
HasUniqueKeys ns = (key : String) → count (has_deduplication_key key) ns ≤ 1

-- No raw text in what is shown, and none under a sensitive key.
abbrev pub IsRedacted :
    (Safe : String → Type 0) → (is_sensitive : String → Bool) → OutboxRecord → Type 0
IsRedacted Safe is_sensitive n =
    Safe n.title × Safe n.message × IsSafePayload Safe is_sensitive n.payload

find-none-count :
    (key : String) (ns : List OutboxRecord)
    → find (has_deduplication_key key) ns ≡ none
    → count (has_deduplication_key key) ns ≡ 0
unfolding find
find-none-count key [] e = refl
find-none-count key (n ∷ ns) e = ground (arith, find-none-count key ns)

module _ (redact : String → String) (is_sensitive : String → Bool) (Safe : String → Type 0)
    (redacts : (t : String) → Safe (redact t)) where
  append-HasUniqueKeys :
      (n : OutboxRecord) (ns : List OutboxRecord)
      → find (has_deduplication_key n.deduplication_key) ns ≡ none
      → HasUniqueKeys ns
      → HasUniqueKeys (ns ++ n ∷ [])
  append-HasUniqueKeys n ns e unique key =
      let sum = count-append (has_deduplication_key key) ns (n ∷ []) in
      elim (Bool-cases (str_eq n.deduplication_key key)) [
        | inl t ↦
            let same : n.deduplication_key ≡ key = (eq_iff n.deduplication_key key).0 t in
            let absent = find-none-count key ns (rw same at e) in ground (arith, sum, absent)
        | inr f ↦ ground (arith, sum, unique key)
      ]

  -- Keys stay unique and notifications redacted, and creating again answers with the same one.
  abbrev pub CreatesOnce :
      (again : CreateInput) → (later : ℕ) → (fresh : String) → Created × List OutboxRecord → Type 0
  CreatesOnce again later fresh out =
      HasUniqueKeys out.1
      × All (IsRedacted Safe is_sensitive) out.1
      × (create_notification redact is_sensitive again later fresh out.1
          ≡ (record { created = false; notification = out.0.notification }, out.1))

  found_again :
      (again : CreateInput) (later : ℕ) (fresh : String) (ns : List OutboxRecord) (n : OutboxRecord)
      → find (has_deduplication_key again.deduplication_key) ns ≡ some n
      → create_notification redact is_sensitive again later fresh ns
        ≡ (record { created = false; notification = n }, ns)
  unfolding create_notification
  found_again again later fresh ns n e = rw e refl

  -- Creating a notification keeps at most one per deduplication key and, if the redaction makes
  -- every text safe, keeps every title, message and payload safe, with nothing but the mark of
  -- redaction under a sensitive key; and creating again with the same key changes nothing and
  -- answers with the same notification.
  pub create_notification_once :
      (input again : CreateInput) (now later : ℕ) (uuid fresh : String) (ns : List OutboxRecord)
      → again.deduplication_key ≡ input.deduplication_key
      → HasUniqueKeys ns
      → All (IsRedacted Safe is_sensitive) ns
      → CreatesOnce again later fresh (create_notification redact is_sensitive input now uuid ns)
  unfolding create_notification find
  create_notification_once input again now later uuid fresh ns same unique redacted =
      elim (Option-cases (find (has_deduplication_key input.deduplication_key) ns)) [
        | inr (n, e) ↦
            subst (CreatesOnce again later fresh) (sym (found_again input now uuid ns n e))
              (unique, redacted, found_again again later fresh ns n (rw same e))
        | inl e ↦
            let made = create_record redact is_sensitive input now uuid in
            let found =
              find-append (has_deduplication_key input.deduplication_key) ns (made ∷ []) e
              ∙ rw (eq_refl input.deduplication_key) refl in
            let step : create_notification redact is_sensitive input now uuid ns
                ≡ (record { created = true; notification = made }, ns ++ made ∷ []) =
              rw e refl in
            subst (CreatesOnce again later fresh) (sym step) (
              append-HasUniqueKeys made ns e unique,
              All-append (IsRedacted Safe is_sensitive) ns (made ∷ []) redacted (
                (
                  redacts input.title,
                  redacts input.message,
                  sanitize_payload-IsSafePayload redact is_sensitive Safe redacts input.payload,
                ),
                tt,
              ),
              found_again again later fresh (ns ++ made ∷ []) made (rw same found),
            )
      ]

insert_newest_first-All {κ} :
    (P : OutboxRecord → Type κ) (n : OutboxRecord) (ns : List OutboxRecord)
    → P n
    → All P ns
    → All P (insert_newest_first n ns)
insert_newest_first-All P n [] p h = (p, tt)
insert_newest_first-All P n (x ∷ xs) p h = elim (Bool-cases (leb x.created_at n.created_at)) [
  | inl t ↦ rw t (p, h)
  | inr f ↦ rw f (h.0, insert_newest_first-All P n xs p h.1)
]

count-insert_newest_first :
    (q : OutboxRecord → Bool) (n : OutboxRecord) (ns : List OutboxRecord)
    → count q (insert_newest_first n ns) ≡ count q (n ∷ ns)
count-insert_newest_first q n [] = refl
count-insert_newest_first q n (x ∷ xs) = elim (Bool-cases (leb x.created_at n.created_at)) [
  | inl t ↦ rw t refl
  | inr f ↦ rw f (ground (arith, count-insert_newest_first q n xs))
]

count-newest_first :
    (q : OutboxRecord → Bool) (ns : List OutboxRecord) → count q (newest_first ns) ≡ count q ns
count-newest_first q [] = refl
count-newest_first q (n ∷ ns) =
    count-insert_newest_first q n (newest_first ns) ∙ ground (arith, count-newest_first q ns)

abbrev pub IsNewestFirst : List OutboxRecord → Type 0
IsNewestFirst [] = Unit
IsNewestFirst (n ∷ ns) = All (λ m. m.created_at ≤ n.created_at) ns × IsNewestFirst ns

older-All :
    (a b : ℕ) (ns : List OutboxRecord)
    → a ≤ b
    → All (λ m. m.created_at ≤ a) ns
    → All (λ m. m.created_at ≤ b) ns
older-All a b [] h k = tt
older-All a b (n ∷ ns) h k = (omega arith, older-All a b ns h k.1)

insert-IsNewestFirst :
    (n : OutboxRecord) (ns : List OutboxRecord)
    → IsNewestFirst ns
    → IsNewestFirst (insert_newest_first n ns)
insert-IsNewestFirst n [] h = (tt, tt)
insert-IsNewestFirst n (x ∷ xs) h = elim (Bool-cases (leb x.created_at n.created_at)) [
  | inl t ↦
      let le = leb→le x.created_at n.created_at t in
      rw t ((le, older-All x.created_at n.created_at xs le h.0), h)
  | inr f ↦ rw f (
    insert_newest_first-All (λ m. m.created_at ≤ x.created_at) n xs (ground arith) h.0,
    insert-IsNewestFirst n xs h.1,
  )
]

newest_first-IsNewestFirst : (ns : List OutboxRecord) → IsNewestFirst (newest_first ns)
newest_first-IsNewestFirst [] = tt
newest_first-IsNewestFirst (n ∷ ns) =
    insert-IsNewestFirst n (newest_first ns) (newest_first-IsNewestFirst ns)

count-filter :
    (q p : OutboxRecord → Bool) (ns : List OutboxRecord)
    → count q (filter p ns) ≡ count (λ n. p n && q n) ns
unfolding filter
count-filter q p [] = refl
count-filter q p (n ∷ ns) = elim (Bool-cases (p n)) [
  | inl t ↦ rw (t, count) (ground (arith, count-filter q p ns))
  | inr f ↦ rw (f, count) (count-filter q p ns)
]

-- Reading a listing page by page ends and yields the notifications that pass the filters, the
-- newest first, each as often as the outbox has it, whatever the positive page size.
pub list_notifications_complete :
    (filters : OutboxFilters) (limit : ℕ) (ns : List OutboxRecord)
    → 0 < limit
    → (listed : List OutboxRecord) × (read_pages
          (λ cursor. list_notifications filters cursor limit ns)
          (length listed + 1)
          0
          []
        ≡ read listed)
      × IsNewestFirst listed
      × ((q : OutboxRecord → Bool)
          → count q listed ≡ count (λ n. matches_filters filters n && q n) ns)
unfolding list_notifications
list_notifications_complete filters limit ns positive =
    let passing = filter (matches_filters filters) ns in
    (
      newest_first passing,
      read_pages_complete (newest_first passing) limit positive (length (newest_first passing) + 1)
          (omega arith),
      newest_first-IsNewestFirst passing,
      λ q. count-newest_first q passing ∙ count-filter q (matches_filters filters) ns,
    )
