-- ===== src/Config/Scheduler.antt =====
-- The scheduler's configuration (internal/config/config_scheduler.go): defaults, validation and
-- completion. A map is a list of its entries; the code visits them in some order.
pub mod Purposes
use openmcp_operator.Prelude.{
  ℤ, is_negative, is_zero, String, Option, none, some, List, [], ◌∷◌, ◌++◌, Bool, true, false, not,
  ◌&&◌, ◌||◌, ◌==◌, contains, is_some, if◌then◌else◌,
}
use openmcp_operator.Flow.{Outcome, next, stop, panic}
use openmcp_operator.Api.Meta.{GoMap, ObjectMeta, tenancy_shared, tenancy_exclusive}
use openmcp_operator.Api.Cluster.{ClusterSpec}
use openmcp_operator.Config.Labels.{Labels, LabelSelector}
use openmcp_operator.Config.Selector.{
  Selector, validate as validate_selector, complete as complete_selector, combine, selector_of,
}

abbrev pub scope_cluster : String
scope_cluster = "Cluster"

abbrev pub scope_namespaced : String
scope_namespaced = "Namespaced"

abbrev pub strategy_balanced : String
strategy_balanced = "Balanced"

abbrev pub strategy_random : String
strategy_random = "Random"

abbrev pub strategy_simple : String
strategy_simple = "Simple"

pub record ClusterTemplate : Type 0 where
  pub metadata : ObjectMeta
  pub open metadata use *
  pub spec : ClusterSpec

pub record ClusterDefinition (labels : Labels) : Type 0 where
  pub tenancy_count : ℤ
  pub template : ClusterTemplate
  pub selector : Option (Selector labels)

-- The values of the purpose mappings are pointers, which may be nil.
pub record SchedulerConfig (labels : Labels) : Type 0 where
  pub scope : String
  pub strategy : String
  pub cluster_selector : Option (Selector labels)
  pub request_selector : Option (Selector labels)
  pub purpose_mappings : List (String × Option (ClusterDefinition labels))

-- The entries of the error list of `Validate`, with the purpose where it has one.
pub data ConfigError : Type 0 where
  unsupported_scope unsupported_strategy invalid_cluster_selector : ConfigError
  invalid_request_selector empty_purpose : ConfigError
  definition_required negative_tenancy_count profile_required tenancy_required :
      String → ConfigError
  unsupported_tenancy exclusive_tenancy_count global_selector_mismatch : String → ConfigError
  invalid_selector local_selector_mismatch : String → ConfigError

abbrev when : Bool → ConfigError → List ConfigError
when true e = e ∷ []
when false e = []

module _ (labels : Labels) where
  unfoldable pub default : SchedulerConfig labels → SchedulerConfig labels
  default c = record c {
    scope = if c.scope == "" then scope_cluster else c.scope;
    strategy = if c.strategy == "" then strategy_balanced else c.strategy;
  }

  -- The selector that a label selector compiles to; `none` without one, or if it is invalid.
  compiled : Option (Selector labels) → Option labels.Compiled
  compiled s = elim (selector_of labels s) [ none ↦ none | some ls ↦ labels.as_selector ls ]

  -- `cls != nil && !cls.Matches(...)`.
  mismatch : Option labels.Compiled → GoMap → Bool
  mismatch none m = false
  mismatch (some c) m = not (labels.matches c m)

  -- The body of the loop behind the tests that `continue`.
  validate_rest : Option labels.Compiled → String → ClusterDefinition labels → List ConfigError
  unfolding mismatch compiled validate_selector
  validate_rest cls p d =
      when (d.template.spec.tenancy == tenancy_exclusive && not (is_zero d.tenancy_count))
        (exclusive_tenancy_count p)
      ++ (when (mismatch cls d.template.labels) (global_selector_mismatch p)
          ++ (when (not (validate_selector labels d.selector)) (invalid_selector p)
              ++ when (mismatch (compiled d.selector) d.template.labels)
                  (local_selector_mismatch p)))

  -- One round of the loop over the purpose mappings.
  unfoldable pub validate_definition :
      Option labels.Compiled → String → Option (ClusterDefinition labels) → List ConfigError
  unfolding validate_rest
  validate_definition cls p none = when (p == "") empty_purpose ++ (definition_required p ∷ [])
  validate_definition cls p (some d) =
      when (p == "") empty_purpose
      ++ (when (is_negative d.tenancy_count) (negative_tenancy_count p)
          ++ (when (d.template.spec.profile == "") (profile_required p)
              ++ (if d.template.spec.tenancy == ""
                  then tenancy_required p ∷ []
                  else if not
                      (contains (tenancy_exclusive ∷ tenancy_shared ∷ []) d.template.spec.tenancy)
                  then unsupported_tenancy p ∷ []
                  else validate_rest cls p d)))

  unfoldable pub validate_mappings :
      Option labels.Compiled → List (String × Option (ClusterDefinition labels)) → List ConfigError
  unfolding validate_definition
  validate_mappings cls [] = []
  validate_mappings cls ((p, d) ∷ ms) = validate_definition cls p d ++ validate_mappings cls ms

  -- The empty list is a nil error.
  unfoldable pub validate : SchedulerConfig labels → List ConfigError
  unfolding validate_mappings compiled validate_selector
  validate c =
      when (not (contains (scope_cluster ∷ scope_namespaced ∷ []) c.scope)) unsupported_scope
      ++ (when
            (not (contains (strategy_balanced ∷ strategy_random ∷ strategy_simple ∷ []) c.strategy))
            unsupported_strategy
          ++ (when (not (validate_selector labels c.cluster_selector)) invalid_cluster_selector
              ++ (when (not (validate_selector labels c.request_selector)) invalid_request_selector
                  ++ validate_mappings (compiled c.cluster_selector) c.purpose_mappings)))

  -- The loop of `Complete`: `stop` is an error, and a nil definition panics.
  unfoldable pub complete_mappings :
      Option (Selector labels)
      → List (String × Option (ClusterDefinition labels))
      → Outcome Unit (List (String × Option (ClusterDefinition labels)))
  complete_mappings global [] = next []
  complete_mappings global ((p, none) ∷ ms) = panic
  complete_mappings global ((p, some d) ∷ ms) =
      let (sel, fine) = combine labels d.selector global in
      let rest = complete_mappings global ms in
      if fine
      then elim rest [
        | next ms' ↦ next ((p, some (record d { selector = sel })) ∷ ms')
        | stop e ↦ stop e
        | panic ↦ panic
      ]
      else stop tt

  unfoldable pub complete : SchedulerConfig labels → Outcome Unit (SchedulerConfig labels)
  unfolding complete_mappings
  complete c =
      let (cs, cs_fine) = complete_selector labels c.cluster_selector in
      let (rs, rs_fine) = complete_selector labels c.request_selector in
      if not cs_fine
      then stop tt
      else if not rs_fine
      then stop tt
      else elim (complete_mappings cs c.purpose_mappings) [
        | next ms ↦
            next (record c { cluster_selector = cs; request_selector = rs; purpose_mappings = ms })
        | stop e ↦ stop e
        | panic ↦ panic
      ]
