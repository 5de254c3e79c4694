-- ===== src/Cleanup/Safety.antt =====
-- When the gate of dashboard/lib/inssa-ops/cleanup-ledger.ts is open.
use web_app_qa_tests_main.Base.{
  ℕ, ◌<◌, String, Bool, true, false, ◌&&◌, not, Option, List, length, ◌≡◌, ◌↔◌, ◌⊎◌, inl, inr, refl,
  arith, ltb, leb, All, All-map,
}
use web_app_qa_tests_main.Cleanup.{
  PolicySnapshot, CleanupManifest, LedgerRecord, RunRecord, resolve_cleanup_policy,
}
use web_app_qa_tests_main.Cleanup.Ledger.{is_put_off}
use web_app_qa_tests_main.Cleanup.Gate.{
  Raised, manifest_checks, is_identified, record_checks, not_dedicated_text, deferred_off_text,
  threshold_text, rate_text, unresolved_of, mutation_runs_today, checks, manifests_of, gate_is_open,
  evaluate_cleanup_gate,
}
use web_app_qa_tests_main.Cleanup.Checks.{
  Unless, IsSafeRecord, IsAccounted, Clear, join_iff, hard_iff, soft_false_iff, concat_map_iff,
  manifest_checks_iff, record_checks_iff, open_iff,
}

-- What the gate asks, in the words of the policy: dedicated accounts, every manifest accounted for,
-- every unresolved record safe, and the limits kept. Manual mode waives what concerns cleanup alone.
abbrev pub IsOpen :
    PolicySnapshot
    → (now : ℕ) → (ledger : List LedgerRecord) → List RunRecord
    → List CleanupManifest
    → Type 0
IsOpen p now ledger runs manifests =
    (p.dedicated_qa_accounts_confirmed ≡ true)
    × All (IsAccounted p.manual_mode_enabled ledger) manifests
    × All (IsSafeRecord p.manual_mode_enabled p now) (unresolved_of ledger)
    × ((p.manual_mode_enabled ≡ true)
        ⊎ (((length (unresolved_of ledger) ≡ 0) ⊎ (p.deferred_mode_enabled ≡ true))
            × (length (unresolved_of ledger) < p.max_unresolved_objects)
            × (mutation_runs_today now runs < p.max_mutation_runs_per_day)))

limits_iff :
    (manual deferred_on : Bool) (count today most rate : ℕ)
    → ((Unless manual (not (ltb 0 count && not deferred_on)) × Unless manual (not (leb most count)))
        × Unless manual (not (leb rate today)))
      ↔ ((manual ≡ true) ⊎ (((count ≡ 0) ⊎ (deferred_on ≡ true)) × (count < most) × (today < rate)))
limits_iff true deferred_on count today most rate =
    ((λ h. inl refl), (λ h. ((inl refl, inl refl), inl refl)))
limits_iff false true count today most rate =
    ((λ h. inr (inr refl, ground arith, ground arith)), back)
  where
    back :
        (false ≡ true) ⊎ (((count ≡ 0) ⊎ (true ≡ true)) × (count < most) × (today < rate))
        → (Unless false (not (ltb 0 count && false)) × Unless false (not (leb most count)))
          × Unless false (not (leb rate today))
    back (inl e) = cc
    back (inr (a, b, c)) = ((inr (ground arith), inr (ground arith)), inr (ground arith))
limits_iff false false count today most rate = (forth, back)
  where
    forth :
        (Unless false (not (ltb 0 count && true)) × Unless false (not (leb most count)))
          × Unless false (not (leb rate today))
        → (false ≡ true) ⊎ (((count ≡ 0) ⊎ (false ≡ true)) × (count < most) × (today < rate))
    forth ((inr a, inr b), inr c) = inr (inl (ground arith), ground arith, ground arith)
    forth ((inl a, b), c) = cc
    forth ((inr a, inl b), c) = cc
    forth ((inr a, inr b), inl c) = cc

    back :
        (false ≡ true) ⊎ (((count ≡ 0) ⊎ (false ≡ true)) × (count < most) × (today < rate))
        → (Unless false (not (ltb 0 count && true)) × Unless false (not (leb most count)))
          × Unless false (not (leb rate today))
    back (inl e) = cc
    back (inr (inl a, b, c)) = ((inr (ground arith), inr (ground arith)), inr (ground arith))
    back (inr (inr a, b, c)) = cc

-- The gate is open exactly if the accounts are confirmed as dedicated, every manifest is resolved
-- or accounted for, every unresolved record is safe, and the limits on unresolved objects and on
-- runs of the day are kept; manual mode waives what concerns cleanup alone, never accounts,
-- sanitization or unexpected data.
pub evaluate_cleanup_gate_iff :
    (p : PolicySnapshot) (now : ℕ) (ledger : List LedgerRecord) (runs : List RunRecord)
    (local : List CleanupManifest)
    → (gate_is_open (evaluate_cleanup_gate p now ledger runs local) ≡ true)
      ↔ IsOpen p now ledger runs (manifests_of local runs)
unfolding evaluate_cleanup_gate checks
evaluate_cleanup_gate_iff p now ledger runs local = (
  (λ h. regroup (chain.0 ((open_iff m raised).0 h))),
  (λ h. (open_iff m raised).1 (chain.1 (ungroup h))),
)
  where
    m : Bool
    m = p.manual_mode_enabled

    raised : List Raised
    raised = checks p now ledger runs (manifests_of local runs)

    count : ℕ
    count = length (unresolved_of ledger)

    today : ℕ
    today = mutation_runs_today now runs

    Grouped : Type 0
    Grouped =
        (((((p.dedicated_qa_accounts_confirmed ≡ true)
                × All (IsAccounted m ledger) (manifests_of local runs))
              × All (IsSafeRecord m p now) (unresolved_of ledger))
            × Unless m (not (ltb 0 count && not p.deferred_mode_enabled)))
          × Unless m (not (leb p.max_unresolved_objects count)))
        × Unless m (not (leb p.max_mutation_runs_per_day today))

    chain : Clear m raised ↔ Grouped
    chain =
        join_iff m _ _
          (join_iff m _ _
            (join_iff m _ _
              (join_iff m _ _
                (join_iff m _ _
                  (hard_iff m p.dedicated_qa_accounts_confirmed "qa-account" not_dedicated_text)
                  (concat_map_iff m (manifest_checks ledger) (manifests_of local runs)
                    (manifest_checks_iff m ledger)))
                (concat_map_iff m (record_checks p now) (unresolved_of ledger)
                  (record_checks_iff m p now)))
              (soft_false_iff m (ltb 0 count && not p.deferred_mode_enabled) "deferred-mode"
                deferred_off_text))
            (soft_false_iff m (leb p.max_unresolved_objects count) "cleanup-threshold"
              (threshold_text p)))
          (soft_false_iff m (leb p.max_mutation_runs_per_day today) "mutation-rate" (rate_text p))

    regroup : Grouped → IsOpen p now ledger runs (manifests_of local runs)
    regroup (((((a, b), c), d), e), f) = (
      a,
      b,
      c,
      (limits_iff m p.deferred_mode_enabled count today p.max_unresolved_objects
            p.max_mutation_runs_per_day).0
          ((d, e), f),
    )

    ungroup : IsOpen p now ledger runs (manifests_of local runs) → Grouped
    ungroup (a, b, c, l) =
        let ((d, e), f) =
          (limits_iff m p.deferred_mode_enabled count today p.max_unresolved_objects
              p.max_mutation_runs_per_day).1
            l in
        (((((a, b), c), d), e), f)

-- Outside governed staging no environment turns manual mode on: if the gate is open, the
-- unresolved objects and the runs of the day are below the limits of the policy, and every
-- unresolved record is identified, put off and safely accounted for.
pub ungoverned_is_enforced :
    (number_of : Option String → Option ℕ) (environment : String → Option String) (secondary : Bool)
    (now : ℕ) (ledger : List LedgerRecord) (runs : List RunRecord) (local : List CleanupManifest)
    → gate_is_open (
        evaluate_cleanup_gate
          (resolve_cleanup_policy number_of environment secondary false)
          now
          ledger
          runs
          local)
      ≡ true
    → let p = resolve_cleanup_policy number_of environment secondary false in
      (length (unresolved_of ledger) < p.max_unresolved_objects)
      × (mutation_runs_today now runs < p.max_mutation_runs_per_day)
      × All
          (λ r.
            (is_put_off r.status ≡ true) × (is_identified r ≡ true) × (r.safely_accounted ≡ true))
          (unresolved_of ledger)
unfolding resolve_cleanup_policy
ungoverned_is_enforced number_of environment secondary now ledger runs local h =
    let p = resolve_cleanup_policy number_of environment secondary false in
    let (_, _, records, limits) = (evaluate_cleanup_gate_iff p now ledger runs local).0 h in
    let (count, today) = enforced limits in
    (
      count,
      today,
      All-map (IsSafeRecord p.manual_mode_enabled p now)
          (λ r.
            (is_put_off r.status ≡ true) × (is_identified r ≡ true) × (r.safely_accounted ≡ true))
          (unresolved_of ledger)
          (λ r s.
            let (a, b, _, _, _, e, _) = s in
            (
              required (is_put_off r.status) b,
              required (is_identified r) a,
              required r.safely_accounted e,
            ))
          records,
    )
  where
    required : (b : Bool) → Unless false b → b ≡ true
    required b (inl e) = cc
    required b (inr e) = e

    enforced : {P Q R : Type 0} → (false ≡ true) ⊎ (P × Q × R) → Q × R
    enforced (inl e) = cc
    enforced (inr (a, b, c)) = (b, c)
