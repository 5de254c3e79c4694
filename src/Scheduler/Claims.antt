-- ===== src/Scheduler/Claims.antt =====
-- Who may claim an occurrence of dashboard/lib/monitoring/scheduler-store.ts, over any sequence of
-- store operations.
use web_app_qa_tests_main.Base.{
  ℕ, String, eq_iff, eq_refl, true, false, some, [], ◌∷◌, ◌≡◌, ◌⊎◌, inl, inr, refl, sym, ◌∙◌, find,
  find-eq-some, find-update_first, find-append, Bool-cases, Option-cases, eq_of_some,
}
use web_app_qa_tests_main.Scheduler.{
  claimed, Occurrence, Snapshot, ClaimRequest, ClaimAnswer, has_occurrence_key, is_taken, reclaimed,
  new_occurrence, claim_occurrences, claim_occurrence, get_occurrence,
}

-- The holder, the date and the key that a granted claim leaves.
abbrev pub IsClaimed : ClaimRequest → (now : ℕ) → Occurrence → Type 0
IsClaimed input now o =
    (o.status ≡ claimed)
    × (o.claimed_by ≡ input.claimed_by)
    × (o.updated_at ≡ now)
    × (o.occurrence_key ≡ input.occurrence_key)

module _ (input : ClaimRequest) (now : ℕ) (uuid : String) (snapshot : Snapshot) where
  -- A claim is refused with the occurrence that is taken, and then changes nothing; or it is
  -- granted, and the store then holds the claimed occurrence.
  abbrev pub Claims : ClaimAnswer × Snapshot → Type 0
  Claims out =
      ((out.0.created ≡ false)
        × (get_occurrence input.occurrence_key snapshot ≡ some out.0.occurrence)
        × (is_taken now out.0.occurrence ≡ true)
        × (out.1.occurrences ≡ snapshot.occurrences))
      ⊎ ((out.0.created ≡ true)
          × ((o : Occurrence)
              → get_occurrence input.occurrence_key snapshot ≡ some o
              → is_taken now o ≡ false)
          × (get_occurrence input.occurrence_key out.1 ≡ some out.0.occurrence)
          × IsClaimed input now out.0.occurrence)

  -- A claim is refused exactly if the occurrence is taken, and then changes no occurrence and
  -- answers with the stored one; otherwise it is granted, and the store then holds the occurrence
  -- under its key, claimed by the claimant at this time.
  pub claim_occurrence-Claims : Claims (claim_occurrence input now uuid snapshot)
  unfolding claim_occurrence claim_occurrences get_occurrence
  claim_occurrence-Claims =
      elim (Option-cases (find (has_occurrence_key input.occurrence_key) snapshot.occurrences)) [
        | inl e ↦ inr (
          rw e refl,
          λ o h. cc,
          rw (
            e,
            find-append (has_occurrence_key input.occurrence_key) snapshot.occurrences
                (new_occurrence input now uuid ∷ []) e,
            find,
            eq_refl input.occurrence_key,
          ),
          rw e (refl, refl, refl, refl),
        )
        | inr (o, e) ↦ elim (Bool-cases (is_taken now o)) [
          | inl t ↦ inl (rw (e, t) refl, rw (e, t) refl, rw (e, t) t, rw (e, t) refl)
          | inr f ↦
              let key =
                find-eq-some (has_occurrence_key input.occurrence_key) snapshot.occurrences o e in
              inr (
                rw (e, f) refl,
                λ o' h. let same : o ≡ o' = eq_of_some (sym e ∙ h) in rw (← same) f,
                rw (
                  e,
                  f,
                  find-update_first (has_occurrence_key input.occurrence_key) (reclaimed input now)
                      snapshot.occurrences o e key,
                ),
                rw (e, f) (refl, refl, refl, (eq_iff o.occurrence_key input.occurrence_key).0 key),
              )
        ]
      ]
