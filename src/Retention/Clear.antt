-- ===== src/Retention/Clear.antt =====
-- Read backwards, the windows of dashboard/lib/inssa-ops/retention.ts: what they leave clear was
-- clear, and their own test had passed.
use web_app_qa_tests_main.Base.{
  ℕ, ◌+◌, ◌*◌, ◌≤◌, String, ◌<>◌, Bool, true, false, ◌||◌, Option, none, some, List, [], ◌∷◌, ◌++◌,
  ◌≡◌, inl, inr, refl, arith, ltb, All, Bool-cases,
}
use web_app_qa_tests_main.Evidence.{Item, Bundle, has_date}
use web_app_qa_tests_main.Retention.{RetentionHold, RunManifest, CleanupRow, eligible, timestamp}
use web_app_qa_tests_main.Retention.Policy.{reason_if, is_after}
use web_app_qa_tests_main.Retention.Protect.{day, Protection, later}
use web_app_qa_tests_main.Retention.Evaluate.{
  add_review, until, until_retention, manifest_deadline, resolution_of, hold_name, eligibility_from,
  after_resolution, security_window, is_done, is_resolved, association_ambiguous, is_unresolved,
  protect_indefinitely, row_window, row_windows, manifest_window, cleanup_window, covers, hold_all,
  eligibility_of,
}

-- Nothing protects.
abbrev pub IsClear : (now : ℕ) → Protection → Type 0
IsClear now p = (p.review ≡ []) × (p.indefinite ≡ false) × (is_after p.expiry now ≡ false)

-- The date is known and the time since then is over.
abbrev pub IsAged : (now : ℕ) → (time : ℕ) → Option ℕ → Type 0
IsAged now time stamp = (t : ℕ) × (stamp ≡ some t) × (t + time ≤ now)

eligibility_from-eligible :
    (rs : List String) (b : Bool) → eligibility_from rs b ≡ eligible → (rs ≡ []) × (b ≡ false)
eligibility_from-eligible (r ∷ rs) b h = cc
eligibility_from-eligible [] true h = cc
eligibility_from-eligible [] false h = (refl, refl)

pub eligible-IsClear : (now : ℕ) (p : Protection) → eligibility_of now p ≡ eligible → IsClear now p
eligible-IsClear now p h =
    let (none_left, over) =
      eligibility_from-eligible p.review (p.indefinite || is_after p.expiry now) h in
    (none_left, ground arith, ground arith)

pub append-empty {ℓ} : {A : Type ℓ} (xs ys : List A) → xs ++ ys ≡ [] → (xs ≡ []) × (ys ≡ [])
append-empty [] ys h = (refl, h)
append-empty (x ∷ xs) ys h = cc

pub reason_if-none : (b : Bool) (r : String) → reason_if b r ≡ [] → b ≡ false
reason_if-none true r h = cc
reason_if-none false r h = refl

pub add_review-IsClear :
    (now : ℕ) (rs : List String) (p : Protection)
    → IsClear now (add_review rs p)
    → IsClear now p × (rs ≡ [])
add_review-IsClear now rs p (h, i, e) =
    let (none_before, none_new) = append-empty p.review rs h in ((none_before, i, e), none_new)

later-not_after :
    (now t : ℕ) (e : Option ℕ)
    → is_after (later e t) now ≡ false
    → (is_after e now ≡ false) × (t ≤ now)
later-not_after now t none h = (refl, ground arith)
later-not_after now t (some e) h = (ground arith, ground arith)

pub until-IsClear :
    (now t : ℕ) (r : String) (p : Protection)
    → IsClear now (until now t r p)
    → IsClear now p × (t ≤ now)
until-IsClear now t r p (h, i, e) =
    let (before, over) = later-not_after now t p.expiry e in ((h, i, before), over)

pub protect_indefinitely-IsClear :
    (now : ℕ) (b : Bool) (r : String) (p : Protection)
    → IsClear now (protect_indefinitely b r p)
    → IsClear now p × (b ≡ false)
protect_indefinitely-IsClear now true r p (h, i, e) = cc
protect_indefinitely-IsClear now false r p h = (h, refl)

until_retention-IsClear :
    (now : ℕ) (o : Option ℕ) (p : Protection)
    → IsClear now (until_retention now o p)
    → IsClear now p × IsAged now 0 o
until_retention-IsClear now none p h =
    let (_, bad) = add_review-IsClear now ("CLEANUP_DATES_UNKNOWN" ∷ []) p h in cc
until_retention-IsClear now (some t) p h =
    let (before, over) = until-IsClear now t "CLEANUP_RETENTION_UNTIL" p h in
    (before, (t, refl, omega arith))

pub after_resolution-IsClear :
    (now : ℕ) (o : Option ℕ) (p : Protection)
    → IsClear now (after_resolution now o p)
    → IsClear now p × IsAged now (30 * day) o
after_resolution-IsClear now none p h =
    let (_, bad) = add_review-IsClear now ("CLEANUP_RESOLUTION_UNKNOWN" ∷ []) p h in cc
after_resolution-IsClear now (some t) p h = elim (Bool-cases (ltb now t)) [
  | inl y ↦
      let (_, bad) = add_review-IsClear now ("CLEANUP_RESOLUTION_UNKNOWN" ∷ []) p (rw y at h) in cc
  | inr n ↦
      let (before, over) = until-IsClear now (t + 30 * day) "POST_CLEANUP_WINDOW" p (rw n at h) in
      (before, (t, refl, over))
]

pub security_window-IsClear :
    (now : ℕ) (security : Bool) (anchor : Option ℕ) (p : Protection)
    → IsClear now (security_window now security anchor p)
    → IsClear now p × (security ≡ true → (a : ℕ) → anchor ≡ some a → a + 90 * day ≤ now)
security_window-IsClear now true (some a) p h =
    let (before, over) = until-IsClear now (a + 90 * day) "SECURITY_WINDOW" p h in
    (before, λ y x e. let same : a ≡ x = cc in rw (← same) over)
security_window-IsClear now true none p h = (h, λ y x e. cc)
security_window-IsClear now false anchor p h = (h, λ y x e. cc)

-- The retention of a row is over, and, if it is completed, 30 days since its resolution.
abbrev pub IsRowOver : (now : ℕ) → CleanupRow → Type 0
IsRowOver now row =
    IsAged now 0 (timestamp row.retention_until)
    × (is_done row.status ≡ true → IsAged now (30 * day) (timestamp row.resolved_at))

row_window-IsClear :
    (now : ℕ) (row : CleanupRow) (p : Protection)
    → IsClear now (row_window now row p)
    → IsClear now p × IsRowOver now row
row_window-IsClear now row p h =
    let until_then = timestamp row.retention_until in
    let kept = until_retention now until_then p in
    elim (Bool-cases (is_done row.status)) [
      | inl y ↦
          let (here, resolved) =
            after_resolution-IsClear now (timestamp row.resolved_at) kept (rw y at h) in
          let (before, over) = until_retention-IsClear now until_then p here in
          (before, (over, λ t. resolved))
      | inr n ↦
          let (before, over) = until_retention-IsClear now until_then p (rw n at h) in
          (before, (over, λ t. cc))
    ]

row_windows-IsClear :
    (now : ℕ) (rows : List CleanupRow) (p : Protection)
    → IsClear now (row_windows now rows p)
    → IsClear now p × All (IsRowOver now) rows
row_windows-IsClear now [] p h = (h, tt)
row_windows-IsClear now (row ∷ rows) p h =
    let (here, later_rows) = row_windows-IsClear now rows (row_window now row p) h in
    let (before, over) = row_window-IsClear now row p here in (before, (over, later_rows))

-- The retention that the manifest asks for is over, and, if it is resolved, 30 days since then.
abbrev pub IsManifestOver : (now : ℕ) → RunManifest → Type 0
IsManifestOver now m =
    (has_date m.retention_until ≡ true → IsAged now 0 (timestamp m.retention_until))
    × (is_resolved m.status ≡ true → IsAged now (30 * day) (resolution_of m))

manifest_deadline-IsClear :
    (now : ℕ) (m : RunManifest) (p : Protection)
    → IsClear now (manifest_deadline now m p)
    → IsClear now p
      × (has_date m.retention_until ≡ true → IsAged now 0 (timestamp m.retention_until))
manifest_deadline-IsClear now m p h = elim (Bool-cases (has_date m.retention_until)) [
  | inl y ↦
      let (before, over) =
        until_retention-IsClear now (timestamp m.retention_until) p (rw y at h) in
      (before, λ t. over)
  | inr n ↦ (rw n at h, λ t. cc)
]

manifest_window-IsClear :
    (now : ℕ) (m : RunManifest) (p : Protection)
    → IsClear now (manifest_window now (some m) p)
    → IsClear now p × IsManifestOver now m
manifest_window-IsClear now m p h =
    let kept = manifest_deadline now m p in
    elim (Bool-cases (is_resolved m.status)) [
      | inl y ↦
          let (here, resolved) = after_resolution-IsClear now (resolution_of m) kept (rw y at h) in
          let (before, over) = manifest_deadline-IsClear now m p here in
          (before, (over, λ t. resolved))
      | inr n ↦
          let (before, over) = manifest_deadline-IsClear now m p (rw n at h) in
          (before, (over, λ t. cc))
    ]

-- The cleanup of what the run created is known, resolved and long enough ago.
abbrev pub IsCleanupOver : (now : ℕ) → Bundle → Option RunManifest → List CleanupRow → Type 0
IsCleanupOver now b none rows = Unit × ⊥
IsCleanupOver now b (some m) rows =
    (association_ambiguous b (some m) rows ≡ false)
    × (is_unresolved (some m) rows ≡ false)
    × All (IsRowOver now) rows
    × IsManifestOver now m

pub cleanup_window-IsClear :
    (now : ℕ) (mutation : Bool) (b : Bundle) (m : Option RunManifest) (rows : List CleanupRow)
    (p : Protection)
    → IsClear now (cleanup_window now mutation b m rows p)
    → IsClear now p × (mutation ≡ true → IsCleanupOver now b m rows)
cleanup_window-IsClear now false b m rows p h = (h, λ t. cc)
cleanup_window-IsClear now true b none rows p h =
    let reasons = reason_if (association_ambiguous b none rows) "CLEANUP_ASSOCIATION_AMBIGUOUS" in
    let held =
      protect_indefinitely (is_unresolved none rows) "UNRESOLVED_CLEANUP" (add_review reasons p) in
    let (here, _) = row_windows-IsClear now rows held h in
    let (before, _) =
      protect_indefinitely-IsClear now (is_unresolved none rows) "UNRESOLVED_CLEANUP"
        (add_review reasons p) here in
    let (_, bad) = add_review-IsClear now reasons p before in absurd (cc)
cleanup_window-IsClear now true b (some m) rows p h =
    let reasons =
      reason_if (association_ambiguous b (some m) rows) "CLEANUP_ASSOCIATION_AMBIGUOUS" in
    let open_cleanup = is_unresolved (some m) rows in
    let held = protect_indefinitely open_cleanup "UNRESOLVED_CLEANUP" (add_review reasons p) in
    let (here, manifest_over) = manifest_window-IsClear now m (row_windows now rows held) h in
    let (rest, rows_over) = row_windows-IsClear now rows held here in
    let (before, resolved) =
      protect_indefinitely-IsClear now open_cleanup "UNRESOLVED_CLEANUP" (add_review reasons p)
        rest in
    let (clear, known) = add_review-IsClear now reasons p before in
    (
      clear,
      λ t. (
        reason_if-none (association_ambiguous b (some m) rows) "CLEANUP_ASSOCIATION_AMBIGUOUS"
            known,
        resolved,
        rows_over,
        manifest_over,
      ),
    )

pub hold_all-IsClear :
    (now : ℕ) (b : Bundle) (items : List Item) (rows : List CleanupRow) (hs : List RetentionHold)
    (p : Protection)
    → IsClear now (hold_all b items rows hs p)
    → IsClear now p × All (λ h. covers b items rows h ≡ false) hs
hold_all-IsClear now b items rows [] p h = (h, tt)
hold_all-IsClear now b items rows (x ∷ hs) p h =
    let (here, others) =
      hold_all-IsClear now b items rows hs
        (protect_indefinitely (covers b items rows x)
          ("HOLD_" <> (hold_name x.hold_type <> (":" <> x.id))) p)
        h in
    let (before, free) =
      protect_indefinitely-IsClear now (covers b items rows x)
        ("HOLD_" <> (hold_name x.hold_type <> (":" <> x.id))) p here in
    (before, (free, others))
