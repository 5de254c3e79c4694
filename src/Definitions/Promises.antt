-- ===== src/Definitions/Promises.antt =====
-- What the store of definitions (dashboard/lib/monitoring/store.ts) promises the scheduler.
use web_app_qa_tests_main.Base.{
  ℕ, ◌+◌, ◌<◌, String, str_eq, eq_iff, Bool, true, false, ◌&&◌, not, none, some, List, [], ◌∷◌,
  ◌++◌, ◌≡◌, inl, inr, refl, ◌∙◌, subst, arith, any, all, length, count, find, find-append,
  find-append_some, filter, Bool-cases, eq_of_some,
}
use web_app_qa_tests_main.Pages.{read, read_pages}
use web_app_qa_tests_main.Pages.Complete.{read_pages_complete}
use web_app_qa_tests_main.Schedule.{MonitoringDefinition}
use web_app_qa_tests_main.Definitions.Catalog.{default_monitoring_definitions}
use web_app_qa_tests_main.Definitions.{
  DefinitionFilters, has_definition_id, validate_definition, normalize_snapshot, get_definition,
  definition_matches, insert_by_name, sort_by_name, list_definitions,
}

find-filter :
    (id : String) (keep : MonitoringDefinition → Bool) (ds : List MonitoringDefinition)
    → ((d : MonitoringDefinition) → str_eq d.id id ≡ true → keep d ≡ true)
    → find (has_definition_id id) (filter keep ds) ≡ find (has_definition_id id) ds
unfolding find filter
find-filter id keep [] k = refl
find-filter id keep (d ∷ ds) k = ground (arith, k d, find-filter id keep ds k)

any-none :
    (id : String) (ds : List MonitoringDefinition)
    → find (has_definition_id id) ds ≡ none
    → any (has_definition_id id) ds ≡ false
unfolding find
any-none id [] e = refl
any-none id (d ∷ ds) e = ground (arith, any-none id ds)

stored_first :
    (stored ds : List MonitoringDefinition) (id : String)
    → let result = stored ++ filter (λ d. not (any (has_definition_id d.id) stored)) ds in
      ((d : MonitoringDefinition)
        → find (has_definition_id id) stored ≡ some d
        → find (has_definition_id id) result ≡ some d)
      × (find (has_definition_id id) stored ≡ none
          → find (has_definition_id id) result ≡ find (has_definition_id id) ds)
stored_first stored ds id = (
  (λ d e. find-append_some (has_definition_id id) stored _ d e),
  (λ e.
      find-append (has_definition_id id) stored _ e
      ∙ find-filter id (λ d. not (any (has_definition_id d.id) stored)) ds
          (λ d t.
            let same : d.id ≡ id = (eq_iff d.id id).0 t in rw (same, any-none id stored e) refl)),
)

-- After the defaults are added, an id that is stored reads its stored definition, and any other
-- reads what the catalogue has for it.
pub normalize_snapshot_stored_first :
    (stored definitions : List MonitoringDefinition) (id : String)
    → normalize_snapshot stored ≡ some definitions
    → ((d : MonitoringDefinition)
        → get_definition id stored ≡ some d
        → get_definition id definitions ≡ some d)
      × (get_definition id stored ≡ none
          → get_definition id definitions ≡ get_definition id default_monitoring_definitions)
unfolding normalize_snapshot get_definition
normalize_snapshot_stored_first stored definitions id e =
    elim (Bool-cases (all validate_definition stored)) [
      | inl t ↦
          let same = eq_of_some (rw t at e) in
          subst
            (λ ds.
              ((d : MonitoringDefinition)
                → find (has_definition_id id) stored ≡ some d
                → find (has_definition_id id) ds ≡ some d)
              × (find (has_definition_id id) stored ≡ none
                  → find (has_definition_id id) ds
                    ≡ find (has_definition_id id) default_monitoring_definitions))
            same (stored_first stored default_monitoring_definitions id)
      | inr f ↦ let failed = rw f at e in cc
    ]

module _ (in_order : String → String → Bool) where
  count-insert_by_name :
      (q : MonitoringDefinition → Bool) (d : MonitoringDefinition) (ds : List MonitoringDefinition)
      → count q (insert_by_name in_order d ds) ≡ count q (d ∷ ds)
  count-insert_by_name q d [] = refl
  count-insert_by_name q d (x ∷ xs) = elim (Bool-cases (in_order d.name x.name)) [
    | inl t ↦ rw t refl
    | inr f ↦ rw f (ground (arith, count-insert_by_name q d xs))
  ]

  count-sort_by_name :
      (q : MonitoringDefinition → Bool) (ds : List MonitoringDefinition)
      → count q (sort_by_name in_order ds) ≡ count q ds
  count-sort_by_name q [] = refl
  count-sort_by_name q (d ∷ ds) =
      count-insert_by_name q d (sort_by_name in_order ds) ∙ ground (arith, count-sort_by_name q ds)

  count-filter :
      (q p : MonitoringDefinition → Bool) (ds : List MonitoringDefinition)
      → count q (filter p ds) ≡ count (λ d. p d && q d) ds
  unfolding filter
  count-filter q p [] = refl
  count-filter q p (d ∷ ds) = elim (Bool-cases (p d)) [
    | inl t ↦ rw (t, count) (ground (arith, count-filter q p ds))
    | inr f ↦ rw (f, count) (count-filter q p ds)
  ]

  -- Reading the definitions page by page ends and yields all that pass the filters, each as often
  -- as it is stored, whatever the positive page size and the order of names.
  pub list_definitions_complete :
      (filters : DefinitionFilters) (limit : ℕ) (ds : List MonitoringDefinition)
      → 0 < limit
      → (listed : List MonitoringDefinition) × (read_pages
            (λ cursor. list_definitions in_order filters cursor limit ds)
            (length listed + 1)
            0
            []
          ≡ read listed)
        × ((q : MonitoringDefinition → Bool)
            → count q listed ≡ count (λ d. definition_matches filters d && q d) ds)
  unfolding list_definitions
  list_definitions_complete filters limit ds positive =
      let passing = sort_by_name in_order (filter (definition_matches filters) ds) in
      (
        passing,
        read_pages_complete passing limit positive (length passing + 1) (omega arith),
        λ q.
            count-sort_by_name q (filter (definition_matches filters) ds)
            ∙ count-filter q (definition_matches filters) ds,
      )
