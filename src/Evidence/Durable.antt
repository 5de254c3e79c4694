-- ===== src/Evidence/Durable.antt =====
-- What the publications of dashboard/lib/inssa-ops/run-store.ts keep of the evidence of a run.
use web_app_qa_tests_main.Base.{
  String, str_eq, eq_iff, Bool, true, some, List, [], ◌∷◌, ◌≡◌, inl, inr, sym, subst, find,
  find-eq-some, find-map, Bool-cases, Answer-cases, done, answered,
}
use web_app_qa_tests_main.Evidence.{Bundle, Item}
use web_app_qa_tests_main.Evidence.Integrity.{has_item_id, validate_evidence_replacement}
use web_app_qa_tests_main.Evidence.Immutable.{
  IsSameEvidence-refl, IsSameEvidence-trans, replacement-Keeps,
}
use web_app_qa_tests_main.Evidence.Publish.{
  Publication, EvidenceStore, of_run, with_old_metadata, bundles_of, items_of, replaced, accepts,
  replace_run_evidence, publish_all,
}
use web_app_qa_tests_main.Evidence.Replaced.{
  Holds, with_old_metadata-IsSameEvidence, with_old_metadata-id, IsOwn, accepts-passed,
  same_run-bundles, same_run-items, other_run-bundles, other_run-items,
}

module _ (normalize : String → String) (is_absolute : String → Bool) where
  same_run-Holds :
      (p : Publication) (st : EvidenceStore) (id : String) (old : Item)
      → IsOwn normalize is_absolute p
      → (validate_evidence_replacement
            (bundles_of p.run_id st)
            (items_of p.run_id st)
            p.bundle
            p.items
          ≡ answered done)
      → Holds p.run_id id old st
      → Holds p.run_id id old (replaced p st)
  same_run-Holds p st id old own accepted ((b, others, eb), (new, found, same)) =
      let ((next, en), (kept, found', same')) =
        replacement-Keeps b others (items_of p.run_id st) p.bundle p.items id new
          (rw eb at accepted) found in
      let is_id : new.id ≡ id =
        (eq_iff new.id id).0 (find-eq-some (has_item_id id) (items_of p.run_id st) new found) in
      let own_bundle : of_run p.run_id next ≡ true = (rw en at own.0).0 in
      let old_items = items_of p.run_id st in
      (
        (next, [], same_run-bundles normalize is_absolute p st next en own_bundle),
        (
          with_old_metadata old_items kept,
          rw (same_run-items normalize is_absolute p st own.1) (
              find-map (has_item_id id) (with_old_metadata old_items) p.items kept
                (with_old_metadata-id id old_items) (rw is_id at found')),
          IsSameEvidence-trans old new (with_old_metadata old_items kept) same
              (with_old_metadata-IsSameEvidence old_items new kept same'),
        ),
      )

  published-Holds :
      (p : Publication) (st : EvidenceStore) (run_id id : String) (old : Item)
      → Holds run_id id old st
      → Holds run_id id old (replace_run_evidence normalize is_absolute p st).1
  unfolding replace_run_evidence
  published-Holds p st run_id id old h = elim (Answer-cases (accepts normalize is_absolute p st)) [
    | inr (m, e) ↦ rw e h
    | inl (d, e) ↦ rw e (
        let (own, accepted) = accepts-passed normalize is_absolute p st d e in
        elim (Bool-cases (str_eq p.run_id run_id)) [
          | inl t ↦
              let same : p.run_id ≡ run_id = (eq_iff p.run_id run_id).0 t in
              subst (λ r. Holds r id old (replaced p st)) same
                (same_run-Holds p st id old own accepted
                  (subst (λ r. Holds r id old st) (sym same) h))
          | inr n ↦ (
            rw (other_run-bundles normalize is_absolute p st run_id n own) h.0,
            rw (other_run-items normalize is_absolute p st run_id n own) h.1,
          )
        ])
  ]

  publish_all-Holds :
      (ps : List Publication) (st : EvidenceStore) (run_id id : String) (old : Item)
      → Holds run_id id old st
      → Holds run_id id old (publish_all normalize is_absolute ps st)
  unfolding publish_all
  publish_all-Holds [] st run_id id old h = h
  publish_all-Holds (p ∷ ps) st run_id id old h =
      publish_all-Holds ps (replace_run_evidence normalize is_absolute p st).1 run_id id old
        (published-Holds p st run_id id old h)

  -- Whatever evidence is published for whatever runs, accepted or refused: an item of a run that
  -- has a bundle is found again under its id with the same artifact, path, digest and size, and,
  -- once it is uploaded, it stays uploaded under the same key, backend and bucket.
  pub published_is_immutable :
      (ps : List Publication) (st : EvidenceStore) (run_id id : String) (old : Item) (b : Bundle)
      (others : List Bundle)
      → bundles_of run_id st ≡ b ∷ others
      → find (has_item_id id) (items_of run_id st) ≡ some old
      → Holds run_id id old (publish_all normalize is_absolute ps st)
  published_is_immutable ps st run_id id old b others eb found =
      publish_all-Holds ps st run_id id old ((b, others, eb), (old, found, IsSameEvidence-refl old))
