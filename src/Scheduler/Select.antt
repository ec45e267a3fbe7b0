-- ===== src/Scheduler/Select.antt =====
-- The middle of `handleCreateOrUpdate`: the definition of the purpose, `fetchRelevantClusters`, and
-- the choice of an existing cluster.
pub mod Limit
use openmcp_operator.Prelude.{
  String, Option, none, some, List, [], ◌∷◌, not, ◌||◌, ◌==◌, contains, select, length,
  if◌then◌else◌,
}
use openmcp_operator.Flow.{
  pure, finish, ask, ◌>>=◌, platform_cluster_interaction_problem, configuration_problem,
  with_reason,
}
use openmcp_operator.Api.Meta.{tenancy_shared}
use openmcp_operator.Api.Cluster.{Cluster, get_tenancy_count}
use openmcp_operator.Api.Requests.{ClusterRequest, finalizer_for_cluster}
use openmcp_operator.Config.Labels.{Labels}
use openmcp_operator.Config.Selector.{completed}
use openmcp_operator.Config.Scheduler.{
  ClusterDefinition, SchedulerConfig, scope_cluster, strategy_balanced, strategy_random,
  strategy_simple,
}
use openmcp_operator.Platform.{Library, Client}
use openmcp_operator.Scheduler.Choose.{find_assigned, candidates, least}
use openmcp_operator.Scheduler.State.{
  error_result, result, with_finalizers, with_cluster, Action, need, deref, config_or, at_index,
}

-- `cfg.PurposeMappings[purpose]`: the outer `none` is a missing key, the inner a nil pointer.
unfoldable pub lookup_purpose :
    {labels : Labels}
    → String
    → List (String × Option (ClusterDefinition labels))
    → Option (Option (ClusterDefinition labels))
lookup_purpose p [] = none
lookup_purpose p ((q, d) ∷ ms) = if q == p then some d else lookup_purpose p ms

module _ {labels : Labels} (lib : Library) (client : Client labels) (old : ClusterRequest) where
  unfoldable pub get_definition : ClusterRequest → Action client (Option (ClusterDefinition labels))
  unfolding lookup_purpose
  get_definition cr = do
    cfg ← config_or client (error_result "error fetching scheduler config" configuration_problem)
    elim (lookup_purpose cr.purpose cfg.purpose_mappings) [
      | none ↦ finish (
          result cr old
            (with_reason "no cluster definition found for purpose" configuration_problem))
      | some d ↦ pure d
    ]

  -- The namespace that is searched; the empty one is all of them.
  unfoldable pub search_namespace :
      SchedulerConfig labels → ClusterDefinition labels → ClusterRequest → String
  search_namespace cfg d cr =
      if cfg.scope == scope_cluster
      then ""
      else if not (d.template.namespace == "")
      then d.template.namespace
      else cr.namespace

  unfoldable pub fetch_relevant_clusters :
      ClusterRequest → Option (ClusterDefinition labels) → Action client (List Cluster)
  fetch_relevant_clusters cr c_def = do
    cfg ←
        config_or client
          (result cr old (with_reason "error fetching scheduler config" configuration_problem))
    d ← deref client c_def
    ans ← ask (client.list_clusters (search_namespace cfg d cr) (completed labels d.selector))
    clusters ←
        need client ans (
          result cr old (with_reason "error listing Clusters" platform_cluster_interaction_problem))
    pure (select (λ c. contains c.spec.purposes cr.purpose) clusters)

  -- The choice among several clusters by the configured strategy.
  unfoldable pub choose_by_strategy :
      ClusterRequest → Cluster → List Cluster → Action client Cluster
  choose_by_strategy cr c cs = do
    cfg ← config_or client (error_result "error fetching scheduler config" configuration_problem)
    if cfg.strategy == strategy_simple
        then pure c
        else if cfg.strategy == strategy_random
        then (do i ← ask (client.rand_int_n (length (c ∷ cs))); at_index client (c ∷ cs) i)
        else if cfg.strategy == "" || cfg.strategy == strategy_balanced
        then pure (least c (get_tenancy_count c) cs)
        else finish (result cr old (with_reason "unknown strategy" configuration_problem))

  unfoldable pub choose_among : ClusterRequest → List Cluster → Action client (Option Cluster)
  choose_among cr [] = pure none
  choose_among cr (c ∷ []) = pure (some c)
  choose_among cr (c ∷ c' ∷ cs) = do chosen ← choose_by_strategy cr c (c' ∷ cs); pure (some chosen)

  -- The existing cluster for a request without a reference: the one that already carries the
  -- finalizer returns early, else a candidate of a shared template.
  unfoldable pub choose_cluster :
      ClusterRequest → Option (ClusterDefinition labels) → Action client (Option Cluster)
  choose_cluster cr c_def = do
    clusters ← fetch_relevant_clusters cr c_def
    d ← deref client c_def
    elim (find_assigned (finalizer_for_cluster cr) clusters) [
      | some c ↦ finish (result (with_cluster cr c) old none)
      | none ↦
          if d.template.spec.tenancy == tenancy_shared
          then choose_among cr (candidates d clusters)
          else pure none
    ]

  unfoldable pub claim_cluster : ClusterRequest → Cluster → Action client Cluster
  claim_cluster cr c =
      let (fins, changed) = lib.add_finalizer c.finalizers (finalizer_for_cluster cr) in
      if changed
      then (do
        ans ← ask (client.patch_cluster c (with_finalizers c fins))
        need client ans (
            result cr old (
              with_reason "error patching finalizer on cluster"
                platform_cluster_interaction_problem)))
      else pure c
