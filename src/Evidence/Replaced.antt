-- ===== src/Evidence/Replaced.antt =====
-- What one publication of dashboard/lib/inssa-ops/run-store.ts does to the evidence of each run.
use web_app_qa_tests_main.Base.{
  String, str_eq, eq_iff, eq_refl, Bool, true, false, not, Option, none, some, List, [], ◌∷◌, ◌≡◌,
  inl, inr, refl, sym, ◌∙◌, subst, map, find, filter, filter-append, filter-removed, filter-spared,
  filter-passing, filter-failing, All, All-map, All-map_list, Bool-cases, Option-cases, Done, done,
  answered, and_then, and_then-answers, append-nil,
}
use web_app_qa_tests_main.Evidence.{Bundle, Item}
use web_app_qa_tests_main.Evidence.Integrity.{
  has_item_id, validate_evidence_manifest, validate_evidence_replacement,
}
use web_app_qa_tests_main.Evidence.Immutable.{IsSameEvidence}
use web_app_qa_tests_main.Evidence.Manifest.{IsListed, validate-IsManifest}
use web_app_qa_tests_main.Evidence.Publish.{
  Publication, EvidenceStore, as_list, owner_safe, of_run, item_of_run, with_old_metadata,
  bundles_of, items_of, replaced, accepts,
}

-- Under the id stands the same evidence as `old`, and its run has a bundle.
abbrev pub Holds : (run_id id : String) → (old : Item) → EvidenceStore → Type 0
Holds run_id id old st =
    ((b : Bundle) × (others : List Bundle) × (bundles_of run_id st ≡ b ∷ others))
    × ((new : Item) × (find (has_item_id id) (items_of run_id st) ≡ some new)
        × IsSameEvidence old new)

pub with_old_metadata-IsSameEvidence :
    (old_items : List Item) (old i : Item)
    → IsSameEvidence old i
    → IsSameEvidence old (with_old_metadata old_items i)
unfolding with_old_metadata
with_old_metadata-IsSameEvidence old_items old i h =
    elim (Option-cases (find (has_item_id i.id) old_items)) [ inl e ↦ rw e h | inr (x, e) ↦ rw e h ]

pub with_old_metadata-id :
    (id : String) (old_items : List Item) (i : Item)
    → has_item_id id (with_old_metadata old_items i) ≡ has_item_id id i
unfolding with_old_metadata
with_old_metadata-id id old_items i = elim (Option-cases (find (has_item_id i.id) old_items)) [
  | inl e ↦ rw e refl
  | inr (x, e) ↦ rw e refl
]

with_old_metadata-run :
    (run_id : String) (old_items : List Item) (i : Item)
    → item_of_run run_id (with_old_metadata old_items i) ≡ item_of_run run_id i
unfolding with_old_metadata
with_old_metadata-run run_id old_items i = elim (Option-cases (find (has_item_id i.id) old_items)) [
  | inl e ↦ rw e refl
  | inr (x, e) ↦ rw e refl
]

of_run-other :
    (run_id other : String) (t : String)
    → str_eq other run_id ≡ false
    → str_eq t run_id ≡ true
    → str_eq t other ≡ false
of_run-other run_id other t n h = elim (Bool-cases (str_eq t other)) [
  | inr f ↦ f
  | inl e ↦
      let same : t ≡ other = (eq_iff t other).0 e in
      let also : str_eq other run_id ≡ true = rw same at h in cc
]

not_of_other :
    (own other : String) (t : String)
    → str_eq own other ≡ false
    → str_eq t own ≡ true
    → str_eq t other ≡ false
not_of_other own other t n h =
    let same : t ≡ own = (eq_iff t own).0 h in subst (λ x. str_eq x other ≡ false) (sym same) n

module _ (normalize : String → String) (is_absolute : String → Bool) where
  -- What an accepted publication writes is of its run.
  abbrev pub IsOwn : Publication → Type 0
  IsOwn p =
      All (λ b. of_run p.run_id b ≡ true) (as_list p.bundle)
      × All (λ i. item_of_run p.run_id i ≡ true) p.items

  accepted-IsOwn :
      (run_id : String) (bundle : Option Bundle) (items : List Item)
      → validate_evidence_manifest normalize is_absolute run_id bundle items ≡ answered done
      → All (λ b. of_run run_id b ≡ true) (as_list bundle)
        × All (λ i. item_of_run run_id i ≡ true) items
  unfolding validate_evidence_manifest
  accepted-IsOwn run_id none [] h = (tt, tt)
  accepted-IsOwn run_id none (i ∷ is) h = cc
  accepted-IsOwn run_id (some b) items h =
      let (run, _, _, _, _, _, listed) =
        validate-IsManifest normalize is_absolute run_id b items h in
      (
        (rw run (eq_refl run_id), tt),
        All-map (IsListed run_id b) (λ i. item_of_run run_id i ≡ true) items
            (λ i k. rw (k.0) (eq_refl run_id)) listed,
      )

  done_only : (d : Done) → d ≡ done
  done_only done = refl

  -- What an accepted publication has passed.
  pub accepts-passed :
      (p : Publication) (st : EvidenceStore) (d : Done)
      → accepts normalize is_absolute p st ≡ answered d
      → IsOwn p
        × (validate_evidence_replacement
              (bundles_of p.run_id st)
              (items_of p.run_id st)
              p.bundle
              p.items
            ≡ answered done)
  unfolding accepts
  accepts-passed p st d h =
      let last =
        validate_evidence_replacement (bundles_of p.run_id st) (items_of p.run_id st) p.bundle
          p.items in
      let manifest = validate_evidence_manifest normalize is_absolute p.run_id p.bundle p.items in
      let (d1, e1, h1) =
        and_then-answers manifest (λ x. and_then (owner_safe p p.owner) (λ y. last)) d h in
      let (d2, e2, h2) = and_then-answers (owner_safe p p.owner) (λ y. last) d h1 in
      let manifest_done : manifest ≡ answered done = rw (sym (done_only d1)) e1 in
      let last_done : last ≡ answered done = rw (sym (done_only d)) h2 in
      (accepted-IsOwn p.run_id p.bundle p.items manifest_done, last_done)

  pub same_run-bundles :
      (p : Publication) (st : EvidenceStore) (b : Bundle)
      → p.bundle ≡ some b
      → of_run p.run_id b ≡ true
      → bundles_of p.run_id (replaced p st) ≡ b ∷ []
  unfolding bundles_of replaced filter
  same_run-bundles p st b e own =
      filter-append (of_run p.run_id) (filter (λ x. not (of_run p.run_id x)) st.bundles)
        (as_list p.bundle)
      ∙ rw (filter-removed (of_run p.run_id) (of_run p.run_id) st.bundles (λ x t. t), e, own) refl

  pub same_run-items :
      (p : Publication) (st : EvidenceStore)
      → All (λ i. item_of_run p.run_id i ≡ true) p.items
      → items_of p.run_id (replaced p st) ≡ map (with_old_metadata (items_of p.run_id st)) p.items
  unfolding items_of replaced
  same_run-items p st own =
      let old = items_of p.run_id st in
      filter-append (item_of_run p.run_id) (filter (λ x. not (item_of_run p.run_id x)) st.items)
        (map (with_old_metadata old) p.items)
      ∙ rw (filter-removed (item_of_run p.run_id) (item_of_run p.run_id) st.items (λ x t. t)) (
          filter-passing (item_of_run p.run_id) (map (with_old_metadata old) p.items) (
            All-map_list (λ i. item_of_run p.run_id i ≡ true) (λ i. item_of_run p.run_id i ≡ true)
              (with_old_metadata old) p.items (λ i t. with_old_metadata-run p.run_id old i ∙ t)
              own))

  pub other_run-bundles :
      (p : Publication) (st : EvidenceStore) (run_id : String)
      → str_eq p.run_id run_id ≡ false
      → IsOwn p
      → bundles_of run_id (replaced p st) ≡ bundles_of run_id st
  unfolding bundles_of replaced
  other_run-bundles p st run_id n own =
      filter-append (of_run run_id) (filter (λ x. not (of_run p.run_id x)) st.bundles)
        (as_list p.bundle)
      ∙ rw
          (
            filter-spared (of_run run_id) (of_run p.run_id) st.bundles
                (λ x t. of_run-other run_id p.run_id x.run_id n t),
            filter-failing (of_run run_id) (as_list p.bundle) (
                All-map (λ b. of_run p.run_id b ≡ true) (λ b. of_run run_id b ≡ false)
                  (as_list p.bundle) (λ b t. not_of_other p.run_id run_id b.run_id n t) own.0),
          )
          (append-nil (filter (of_run run_id) st.bundles))

  pub other_run-items :
      (p : Publication) (st : EvidenceStore) (run_id : String)
      → str_eq p.run_id run_id ≡ false
      → IsOwn p
      → items_of run_id (replaced p st) ≡ items_of run_id st
  unfolding items_of replaced
  other_run-items p st run_id n own =
      let old = items_of p.run_id st in
      filter-append (item_of_run run_id) (filter (λ x. not (item_of_run p.run_id x)) st.items)
        (map (with_old_metadata old) p.items)
      ∙ rw
          (
            filter-spared (item_of_run run_id) (item_of_run p.run_id) st.items
                (λ x t. of_run-other run_id p.run_id x.run_id n t),
            filter-failing (item_of_run run_id) (map (with_old_metadata old) p.items) (
                All-map_list (λ i. item_of_run p.run_id i ≡ true)
                  (λ i. item_of_run run_id i ≡ false) (with_old_metadata old) p.items
                  (λ i t.
                    with_old_metadata-run run_id old i ∙ not_of_other p.run_id run_id i.run_id n t)
                  own.1),
          )
          (append-nil (filter (item_of_run run_id) st.items))
