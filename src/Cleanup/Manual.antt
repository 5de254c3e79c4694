-- ===== src/Cleanup/Manual.antt =====
-- dashboard/lib/inssa-ops/manual-cleanup.ts: an administrator attests that an object was deleted.
-- Arguments are `trim`, the redaction of a text, the environment of a record, the status of the
-- record's run, whether the audit can be written, and the time with its ISO text.
use web_app_qa_tests_main.Base.{
  ℕ, String, str_eq, eq_iff, ◌<>◌, Bool, true, false, ◌&&◌, not, Option, none, some, or_else, List,
  [], ◌∷◌, ◌++◌, ◌≡◌, ◌⊎◌, inl, inr, refl, sym, subst, arith, ltb, if◌then◌else◌, find,
  utf16_length, Bool-cases, Option-cases,
}
use web_app_qa_tests_main.Reconcile.{RunStatus, is_terminal_status}
use web_app_qa_tests_main.Cleanup.{LedgerRecord, done}
use web_app_qa_tests_main.Cleanup.Ledger.{is_done, upsert_cleanup_ledger}

abbrev pub manual_cleanup_confirmation : String
manual_cleanup_confirmation = "DELETED FROM INSSA STAGING"

pub data Note : Type 0 where
  no_note other_note : Note
  text_note : String → Note

pub record ManualInput : Type 0 where
  pub record_id : String
  pub object_id : String
  pub run_id : String
  pub confirmation_phrase : Option String
  pub note : Note

pub record ManualUser : Type 0 where
  pub role : String
  pub id : String
  pub email : Option String

pub record CleanupAudit : Type 0 where
  pub actor_user_id : String
  pub object_id : String
  pub originating_run_id : String
  pub confirmed_by : String
  pub confirmed_at : ℕ
  pub note : String

pub record ManualStore : Type 0 where
  pub ledger : List LedgerRecord
  pub audits : List CleanupAudit

-- An error of a request has its status; an outage of the audit is thrown as it is.
pub data Confirmation : Type 0 where
  confirmed : LedgerRecord → Confirmation
  denied : (message : String) → (status : ℕ) → Confirmation
  outage : Confirmation

abbrev is_phrase : Option String → Bool
is_phrase none = false
is_phrase (some t) = str_eq t manual_cleanup_confirmation

abbrev is_bad_note : Note → Bool
is_bad_note no_note = false
is_bad_note other_note = true
is_bad_note (text_note t) = ltb 500 (utf16_length t)

abbrev pub is_active_run : Option RunStatus → Bool
is_active_run none = false
is_active_run (some s) = not (is_terminal_status s)

abbrev note_text : Note → String
note_text (text_note t) = t
note_text _ = ""

-- `[...].filter(Boolean).join("\n")`
abbrev join_lines : List String → String
join_lines [] = ""
join_lines (t ∷ ts) =
    let rest = join_lines ts in
    if str_eq t "" then rest else if str_eq rest "" then t else t <> ("\n" <> rest)

abbrev confirmed_by : ManualUser → String
confirmed_by user = if str_eq (or_else user.email "") "" then user.id else or_else user.email ""

module _ (trim redact : String → String) (environment_of : LedgerRecord → String)
    (run_status : String → Option RunStatus) (audit_fails ledger_fails : Bool) (now : ℕ)
    (now_text : String) where
  abbrev pub clean_note : Note → String
  clean_note note = redact (trim (note_text note))

  abbrev pub audit_of : ManualUser → Note → LedgerRecord → CleanupAudit
  audit_of user note r = record {
    actor_user_id = user.id;
    object_id = r.object_id;
    originating_run_id = r.originating_run_id;
    confirmed_by = confirmed_by user;
    confirmed_at = now;
    note = clean_note note;
  }

  abbrev pub completed_record : ManualUser → Note → LedgerRecord → LedgerRecord
  completed_record user note r = record r {
    status = done;
    resolved_at = some now;
    updated_at = now;
    notes = some (
        join_lines (
          or_else r.notes ""
          ∷ ("Manual deletion confirmed by "
              <> (confirmed_by user <> (" at " <> (now_text <> "."))))
          ∷ clean_note note
          ∷ []));
  }

  abbrev complete_record :
      ManualUser → Note → LedgerRecord → ManualStore → Confirmation × ManualStore
  complete_record user note r st =
      let after = completed_record user note r in
      let audited = record st { audits = st.audits ++ audit_of user note r ∷ [] } in
      if audit_fails
      then (outage, st)
      else if ledger_fails
      then (outage, audited)
      else (confirmed after, record audited { ledger = upsert_cleanup_ledger after st.ledger })

  abbrev pub is_same_staging_object : ManualInput → LedgerRecord → Bool
  is_same_staging_object input r =
      (str_eq r.object_id input.object_id && str_eq r.originating_run_id input.run_id)
      && str_eq (environment_of r) "staging"

  abbrev mismatch : String
  mismatch = "Staging object and originating run must match the ledger."

  abbrev confirm_found :
      ManualUser → ManualInput → Option LedgerRecord → ManualStore → Confirmation × ManualStore
  confirm_found user input none st = (denied mismatch 400, st)
  confirm_found user input (some r) st =
      if not (is_same_staging_object input r)
      then (denied mismatch 400, st)
      else if is_active_run (run_status r.originating_run_id)
      then (denied "Cleanup cannot be confirmed while the run is active." 409, st)
      else if is_done r.status
      then (confirmed r, st)
      else complete_record user input.note r st

  unfoldable pub confirm_manual_cleanup_record :
      ManualUser → ManualInput → ManualStore → Confirmation × ManualStore
  unfolding find upsert_cleanup_ledger utf16_length
  confirm_manual_cleanup_record user input st =
      if not (str_eq user.role "admin")
      then (denied "Admin role required." 403, st)
      else if not (is_phrase input.confirmation_phrase)
      then (denied "Explicit deletion confirmation required." 400, st)
      else if is_bad_note input.note
      then (denied "Note must be at most 500 characters." 400, st)
      else confirm_found user input (find (λ r. str_eq r.id input.record_id) st.ledger) st

  -- Nothing has changed, or an administrator has confirmed a record of the ledger.
  abbrev pub IsAttested : ManualUser → ManualInput → ManualStore → ManualStore → Type 0
  IsAttested user input st after =
      (after ≡ st)
      ⊎ ((user.role ≡ "admin")
          × (input.confirmation_phrase ≡ some manual_cleanup_confirmation)
          × ((r : LedgerRecord) × (find (λ x. str_eq x.id input.record_id) st.ledger ≡ some r)
              × (is_same_staging_object input r ≡ true)
              × (is_active_run (run_status r.originating_run_id) ≡ false)
              × (is_done r.status ≡ false)
              × (after.audits ≡ st.audits ++ audit_of user input.note r ∷ [])
              × (((ledger_fails ≡ true) × (after.ledger ≡ st.ledger))
                  ⊎ ((ledger_fails ≡ false)
                      × (after.ledger
                          ≡ upsert_cleanup_ledger (completed_record user input.note r)
                              st.ledger)))))

  phrase-is : (p : Option String) → not (is_phrase p) ≡ false → p ≡ some manual_cleanup_confirmation
  phrase-is none h = cc
  phrase-is (some t) h = rw ((eq_iff t manual_cleanup_confirmation).0 (ground arith)) refl

  found-IsAttested :
      (user : ManualUser) (input : ManualInput) (st : ManualStore)
      → user.role ≡ "admin"
      → input.confirmation_phrase ≡ some manual_cleanup_confirmation
      → IsAttested user input st
          (confirm_found user input (find (λ x. str_eq x.id input.record_id) st.ledger) st).1
  found-IsAttested user input st admin phrase =
      elim (Option-cases (find (λ x. str_eq x.id input.record_id) st.ledger)) [
        | inl e ↦ rw e (inl refl)
        | inr (r, e) ↦
            let found = confirm_found user input (some r) st in
            let attested : IsAttested user input st found.1 =
              elim (Bool-cases (not (is_same_staging_object input r))) [
                | inl t ↦ rw t (inl refl)
                | inr f ↦ elim (Bool-cases (is_active_run (run_status r.originating_run_id))) [
                  | inl t' ↦ rw (f, t') (inl refl)
                  | inr f' ↦ elim (Bool-cases (is_done r.status)) [
                    | inl t'' ↦ rw (f, f', t'') (inl refl)
                    | inr f'' ↦ elim (Bool-cases audit_fails) [
                      | inl t3 ↦ rw (f, f', f'', t3) (inl refl)
                      | inr f3 ↦ elim (Bool-cases ledger_fails) [
                        | inl t4 ↦
                            rw (f, f', f'', f3, t4)
                              (inr (
                                admin,
                                phrase,
                                (r, e, ground arith, f', f'', refl, inl (refl, refl)),
                              ))
                        | inr f4 ↦
                            rw (f, f', f'', f3, f4)
                              (inr (
                                admin,
                                phrase,
                                (r, e, ground arith, f', f'', refl, inr (refl, refl)),
                              ))
                      ]
                    ]
                  ]
                ]
              ] in
            subst (λ o. IsAttested user input st (confirm_found user input o st).1) (sym e) attested
      ]

  -- A confirmation changes nothing, neither ledger nor audit trail, unless an administrator gives
  -- the phrase for a record of the ledger whose object, run and environment match, which is not
  -- completed and whose run is not active; then the attestation is audited, and the record of
  -- that object is completed unless the ledger cannot be written.
  pub manual_cleanup-IsAttested :
      (user : ManualUser) (input : ManualInput) (st : ManualStore)
      → IsAttested user input st (confirm_manual_cleanup_record user input st).1
  unfolding confirm_manual_cleanup_record
  manual_cleanup-IsAttested user input st = elim (Bool-cases (not (str_eq user.role "admin"))) [
    | inl t ↦ rw t (inl refl)
    | inr f ↦ elim (Bool-cases (not (is_phrase input.confirmation_phrase))) [
      | inl t' ↦ rw (f, t') (inl refl)
      | inr f' ↦ elim (Bool-cases (is_bad_note input.note)) [
        | inl t'' ↦ rw (f, f', t'') (inl refl)
        | inr f'' ↦
            rw (f, f', f'')
              (found-IsAttested user input st ((eq_iff user.role "admin").0 (ground arith))
                (phrase-is input.confirmation_phrase f'))
      ]
    ]
  ]
