-- ===== src/Cleanup/Accounting.antt =====
-- `persistCleanupLedgerForRun` of dashboard/lib/inssa-ops/cleanup-ledger.ts and what the store held
-- before.
use web_app_qa_tests_main.Base.{
  ℕ, String, str_eq, eq_refl, Bool, true, false, ◌&&◌, ◌||◌, none, some, List, [], ◌∷◌, ◌++◌,
  append-nil, append_assoc, ◌≡◌, inl, inr, refl, sym, ◌∙◌, ap, subst, arith, or_else, leb, All,
  All-append, All-map, All-map_list, All-zip, Mem, All-Mem, ◌⊎◌, if◌then◌else◌, any, filter,
  Bool-cases, Option-cases,
}
use web_app_qa_tests_main.Cleanup.{
  ObjectType, media, time_capsule, CleanupManifest, LedgerRecord, LedgerStatus, unavailable, done,
  put_off, lost, waiting, RunRecord,
}
use web_app_qa_tests_main.Cleanup.Ledger.{
  same_type, same_object, known_object, object_record, to_ledger_status, is_done,
  build_cleanup_ledger_records, upsert_cleanup_ledger, persist_records, insert_newest,
  list_cleanup_ledger, persist_cleanup_ledger_for_run,
}

-- A search for a new object ends at the end of the list.
upsert-append :
    (r : LedgerRecord) (ledger : List LedgerRecord)
    → any (same_object r) ledger ≡ false
    → upsert_cleanup_ledger r ledger ≡ ledger ++ r ∷ []
unfolding upsert_cleanup_ledger
upsert-append r [] e = refl
upsert-append r (x ∷ xs) e = ground (arith, upsert-append r xs)

any-append {ℓ} :
    {A : Type ℓ} (p : A → Bool) (xs ys : List A) → any p (xs ++ ys) ≡ (any p xs || any p ys)
any-append p [] ys = refl
any-append p (x ∷ xs) ys = ground (arith, any-append p xs ys)

-- The records of the run that the loop knows of include all that the store has.
abbrev Covers : (run_id : String) → (existing ledger : List LedgerRecord) → Type 0
Covers run_id existing ledger =
    (r : LedgerRecord)
    → r.originating_run_id ≡ run_id
    → known_object r existing ≡ false
    → any (same_object r) ledger ≡ false

same_object-same :
    (r s : LedgerRecord)
    → same_object r s ≡ true
    → (str_eq s.object_id r.object_id && same_type s.object_type r.object_type) ≡ true
same_object-same r s h = ground arith

Covers-append :
    (run_id : String) (existing ledger : List LedgerRecord) (s : LedgerRecord)
    → Covers run_id existing ledger
    → Covers run_id (existing ++ s ∷ []) (ledger ++ s ∷ [])
Covers-append run_id existing ledger s c r e h =
    let split =
      any-append (λ p. str_eq p.object_id r.object_id && same_type p.object_type r.object_type)
        existing (s ∷ []) in
    let old = c r e in
    rw (any-append (same_object r) ledger (s ∷ []))
      (ground (arith, split, old, same_object-same r s))

any-insert_newest :
    (p : LedgerRecord → Bool) (r : LedgerRecord) (xs : List LedgerRecord)
    → any p (insert_newest r xs) ≡ (p r || any p xs)
any-insert_newest p r [] = refl
any-insert_newest p r (x ∷ xs) =
    elim (Bool-cases (leb (or_else x.created_at 0) (or_else r.created_at 0))) [
      | inl y ↦ rw y refl
      | inr n ↦ rw n (ground (arith, any-insert_newest p r xs))
    ]

any-list_cleanup_ledger :
    (p : LedgerRecord → Bool) (xs : List LedgerRecord) → any p (list_cleanup_ledger xs) ≡ any p xs
any-list_cleanup_ledger p [] = refl
any-list_cleanup_ledger p (x ∷ xs) =
    any-insert_newest p x (list_cleanup_ledger xs)
    ∙ ap (λ b. p x || b) (any-list_cleanup_ledger p xs)

filter-Covers :
    (run_id : String) (xs : List LedgerRecord)
    → Covers run_id (filter (λ r. str_eq r.originating_run_id run_id) xs) xs
unfolding filter
filter-Covers run_id [] r e h = refl
filter-Covers run_id (x ∷ xs) r e h = elim (Bool-cases (str_eq x.originating_run_id run_id)) [
  | inl t ↦ let known = rw (t, filter) at h in ground (arith, filter-Covers run_id xs r e, known)
  | inr n ↦
      let known = rw (n, filter) at h in
      let apart = rw (sym e) at n in ground (arith, filter-Covers run_id xs r e known, apart)
]

-- Records that satisfy `P` are appended, to the store and to the listing alike, of objects alone that
-- the store does not hold, and every record is then listed.
abbrev pub Appends :
    (P : LedgerRecord → Type 0)
    → (records existing ledger : List LedgerRecord) → List LedgerRecord × List LedgerRecord
    → Type 0
Appends P records existing ledger out =
    (added : List LedgerRecord) × (out.0 ≡ existing ++ added)
    × (out.1 ≡ ledger ++ added)
    × All P added
    × All (λ r. any (same_object r) ledger ≡ false) added
    × All (λ r. known_object r out.0 ≡ true) records

persist_known :
    (r : LedgerRecord) (rs existing ledger : List LedgerRecord)
    → known_object r existing ≡ true
    → persist_records (r ∷ rs) existing ledger ≡ persist_records rs existing ledger
unfolding persist_records
persist_known r rs existing ledger t = rw (t, persist_records) refl

persist_new :
    (r : LedgerRecord) (rs existing ledger : List LedgerRecord)
    → known_object r existing ≡ false
    → any (same_object r) ledger ≡ false
    → persist_records (r ∷ rs) existing ledger
      ≡ persist_records rs (existing ++ r ∷ []) (ledger ++ r ∷ [])
unfolding persist_records
persist_new r rs existing ledger n free =
    rw (n, persist_records)
      (ap (persist_records rs (existing ++ r ∷ [])) (upsert-append r ledger free))

known_here :
    (r : LedgerRecord) (existing added : List LedgerRecord)
    → known_object r existing ≡ true
    → known_object r (existing ++ added) ≡ true
known_here r existing added h =
    any-append (λ p. str_eq p.object_id r.object_id && same_type p.object_type r.object_type)
      existing added
    ∙ rw h refl

same_type_refl : (o : ObjectType) → same_type o o ≡ true
same_type_refl media = refl
same_type_refl time_capsule = refl

any-append-false {ℓ} :
    {A : Type ℓ} (p : A → Bool) (xs ys : List A) → any p (xs ++ ys) ≡ false → any p xs ≡ false
any-append-false p xs ys h = let split = any-append p xs ys in ground arith

persist_records-Appends :
    (P : LedgerRecord → Type 0) (run_id : String) (rs existing ledger : List LedgerRecord)
    → All (λ r. r.originating_run_id ≡ run_id) rs
    → All P rs
    → Covers run_id existing ledger
    → Appends P rs existing ledger (persist_records rs existing ledger)
unfolding persist_records
persist_records-Appends P run_id [] existing ledger h d c =
    ([], sym (append-nil existing), sym (append-nil ledger), tt, tt, tt)
persist_records-Appends P run_id (r ∷ rs) existing ledger h d c =
    elim (Bool-cases (known_object r existing)) [
      | inl t ↦
          let (added, a, b, p, f, k) =
            persist_records-Appends P run_id rs existing ledger h.1 d.1 c in
          subst (Appends P (r ∷ rs) existing ledger) (sym (persist_known r rs existing ledger t))
            (added, a, b, p, f, (rw a (known_here r existing added t), k))
      | inr n ↦
          let free = c r h.0 n in
          let (added, a, b, p, f, k) =
            persist_records-Appends P run_id rs (existing ++ r ∷ []) (ledger ++ r ∷ []) h.1 d.1
              (Covers-append run_id existing ledger r c) in
          subst (Appends P (r ∷ rs) existing ledger) (sym (persist_new r rs existing ledger n free))
            (
              r ∷ added,
              a ∙ append_assoc existing (r ∷ []) added,
              b ∙ append_assoc ledger (r ∷ []) added,
              (d.0, p),
              (
                free,
                All-map (λ s. any (same_object s) (ledger ++ r ∷ []) ≡ false)
                    (λ s. any (same_object s) ledger ≡ false) added
                    (λ s x. any-append-false (same_object s) ledger (r ∷ []) x) f,
              ),
              (rw a (known_here r (existing ++ r ∷ []) added (listed existing)), k),
            )
    ]
  where
    listed : (existing : List LedgerRecord) → known_object r (existing ++ r ∷ []) ≡ true
    listed [] = rw (eq_refl r.object_id, same_type_refl r.object_type) refl
    listed (x ∷ xs) = ground (arith, listed xs)

-- A record tells of an object of the manifest: which run made it, what the manifest says of its
-- cleanup, and a date of resolution only if the cleanup is done.
abbrev pub Describes : RunRecord → CleanupManifest → LedgerRecord → Type 0
Describes run m r =
    (r.originating_run_id ≡ run.id)
    × (to_ledger_status m.status ≡ some r.status)
    × (((r.object_type ≡ time_capsule) × Mem r.object_id m.created_capsule_ids)
        ⊎ ((r.object_type ≡ media) × Mem r.object_id m.created_media_ids))
    × ((r.status ≡ done) ⊎ (r.resolved_at ≡ none))
    × (r.safely_accounted ≡ m.safely_accounted)
    × (r.sensitive_values_excluded ≡ m.sensitive_values_excluded)
    × (r.unexpected_data ≡ m.unexpected_data)

resolved_if_done :
    (status : LedgerStatus) (now : ℕ)
    → (status ≡ done) ⊎ ((if is_done status then some now else none) ≡ none)
resolved_if_done done now = inl refl
resolved_if_done unavailable now = inr refl
resolved_if_done put_off now = inr refl
resolved_if_done lost now = inr refl
resolved_if_done waiting now = inr refl

records-Describe :
    (names_security : String → Bool) (clock : ℕ) (run : RunRecord) (m : CleanupManifest)
    → All (Describes run m) (build_cleanup_ledger_records names_security clock run m)
unfolding build_cleanup_ledger_records
records-Describe names_security clock run m = elim (Option-cases (to_ledger_status m.status)) [
  | inl e ↦ rw e tt
  | inr (status, e) ↦
      let now = or_else m.recorded_at clock in
      rw e (
        All-append (Describes run m) _ _
          (All-map_list (λ i. Mem i m.created_capsule_ids) (Describes run m)
            (object_record names_security run m status now time_capsule) m.created_capsule_ids
            (λ i h. (refl, e, inl (refl, h), resolved_if_done status now, refl, refl, refl))
            (All-Mem m.created_capsule_ids))
          (All-map_list (λ i. Mem i m.created_media_ids) (Describes run m)
            (object_record names_security run m status now media) m.created_media_ids
            (λ i h. (refl, e, inr (refl, h), resolved_if_done status now, refl, refl, refl))
            (All-Mem m.created_media_ids)))
]

-- Of the records of a manifest, those whose object the ledger does not hold yet are appended to
-- it unchanged: each names the run, an object of the manifest with its type, the manifest's
-- status and accounting, and a date of resolution only if the cleanup is done. No stored record
-- is changed or removed, and the listing that is returned has all of them.
pub persist_cleanup_ledger_for_run-Appends :
    (names_security : String → Bool) (clock : ℕ) (run : RunRecord) (m : CleanupManifest)
    (ledger : List LedgerRecord)
    → Appends
        (λ r. Mem r (build_cleanup_ledger_records names_security clock run m) × Describes run m r)
        (build_cleanup_ledger_records names_security clock run m)
        (filter (λ r. str_eq r.originating_run_id run.id) (list_cleanup_ledger ledger))
        ledger
        (persist_cleanup_ledger_for_run names_security clock run m ledger)
unfolding persist_cleanup_ledger_for_run
persist_cleanup_ledger_for_run-Appends names_security clock run m ledger =
    let records = build_cleanup_ledger_records names_security clock run m in
    let described = records-Describe names_security clock run m in
    persist_records-Appends (λ r. Mem r records × Describes run m r) run.id records
      (filter (λ r. str_eq r.originating_run_id run.id) (list_cleanup_ledger ledger)) ledger
      (All-map (Describes run m) (λ r. r.originating_run_id ≡ run.id) records (λ r h. h.0)
        described)
      (All-zip (λ r. Mem r records) (Describes run m) records (All-Mem records) described)
      (λ r e h.
        sym (any-list_cleanup_ledger (same_object r) ledger)
        ∙ filter-Covers run.id (list_cleanup_ledger ledger) r e h)
