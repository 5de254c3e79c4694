-- ===== src/Definitions.antt =====
-- The monitoring definitions: the catalogue of dashboard/lib/monitoring/catalog.ts and the local
-- store of dashboard/lib/monitoring/store.ts, which adds the missing defaults to what is stored.
pub mod Catalog
pub mod Promises
use web_app_qa_tests_main.Base.{
  ℕ, String, str_eq, Bool, true, false, ◌&&◌, not, Option, none, some, List, [], ◌∷◌, ◌++◌, any,
  all, if◌then◌else◌, find, filter, ◌==◌,
}
use web_app_qa_tests_main.Pages.{Page, page_records}
use web_app_qa_tests_main.Schedule.{
  TriggerType, manual, schedule, api, deployment, webhook, future, Severity, informational, low,
  medium, high, critical, MonitoringDefinition,
}
use web_app_qa_tests_main.Definitions.Catalog.{default_monitoring_definitions}

-- An absent filter lets every definition pass, as does an empty text.
pub record DefinitionFilters : Type 0 where
  pub campaign_id : Option String
  pub enabled : Option Bool
  pub environment : Option String
  pub product : Option String
  pub severity : Option Severity
  pub trigger_type : Option TriggerType

abbrev pub has_definition_id : String → MonitoringDefinition → Bool
has_definition_id id d = str_eq d.id id

abbrev has_text : String → Bool
has_text t = not (str_eq t "")

-- The identity fields that may not be missing.
abbrev pub validate_definition : MonitoringDefinition → Bool
validate_definition d =
    has_text d.id
    && has_text d.name
    && has_text d.product
    && has_text d.campaign_id
    && has_text d.environment

abbrev pub with_defaults : List MonitoringDefinition → List MonitoringDefinition
with_defaults definitions =
    definitions
    ++ filter (λ d. not (any (has_definition_id d.id) definitions)) default_monitoring_definitions

-- `none` is the error of a stored definition without identity.
unfoldable pub normalize_snapshot : List MonitoringDefinition → Option (List MonitoringDefinition)
unfolding filter
normalize_snapshot definitions =
    if all validate_definition definitions then some (with_defaults definitions) else none

unfoldable pub get_definition :
    (id : String) → List MonitoringDefinition → Option MonitoringDefinition
unfolding find
get_definition id definitions = find (has_definition_id id) definitions

abbrev passes : Option String → String → Bool
passes none v = true
passes (some f) v = if str_eq f "" then true else str_eq v f

abbrev same_bool : Bool → Bool → Bool
same_bool true b = b
same_bool false b = not b

abbrev passes_enabled : Option Bool → Bool → Bool
passes_enabled none b = true
passes_enabled (some f) b = same_bool f b

abbrev trigger_rank : TriggerType → ℕ
trigger_rank manual = 0
trigger_rank schedule = 1
trigger_rank api = 2
trigger_rank deployment = 3
trigger_rank webhook = 4
trigger_rank future = 5

abbrev severity_number : Severity → ℕ
severity_number informational = 0
severity_number low = 1
severity_number medium = 2
severity_number high = 3
severity_number critical = 4

abbrev passes_trigger : Option TriggerType → TriggerType → Bool
passes_trigger none t = true
passes_trigger (some f) t = trigger_rank t == trigger_rank f

abbrev passes_level : Option Severity → Severity → Bool
passes_level none s = true
passes_level (some f) s = severity_number s == severity_number f

abbrev pub definition_matches : DefinitionFilters → MonitoringDefinition → Bool
definition_matches f d =
    passes f.campaign_id d.campaign_id
    && passes_enabled f.enabled d.enabled
    && passes f.environment d.environment
    && passes f.product d.product
    && passes_level f.severity d.severity
    && passes_trigger f.trigger_type d.trigger_type

-- `in_order` is `localeCompare(left, right) <= 0`.
module _ (in_order : String → String → Bool) where
  abbrev pub insert_by_name :
      MonitoringDefinition → List MonitoringDefinition → List MonitoringDefinition
  insert_by_name d [] = d ∷ []
  insert_by_name d (x ∷ xs) =
      let rest = insert_by_name d xs in if in_order d.name x.name then d ∷ x ∷ xs else x ∷ rest

  abbrev pub sort_by_name : List MonitoringDefinition → List MonitoringDefinition
  sort_by_name [] = []
  sort_by_name (d ∷ ds) = insert_by_name d (sort_by_name ds)

  unfoldable pub list_definitions :
      DefinitionFilters → (cursor limit : ℕ) → List MonitoringDefinition → Page MonitoringDefinition
  unfolding page_records filter
  list_definitions filters cursor limit definitions =
      page_records (sort_by_name (filter (definition_matches filters) definitions)) cursor limit
