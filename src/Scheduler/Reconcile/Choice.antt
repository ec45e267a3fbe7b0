-- ===== src/Scheduler/Reconcile/Choice.antt =====
-- The choice of an existing cluster by `handleCreateOrUpdate` writes nothing.
use openmcp_operator.Prelude.{
  Option-cases, length, Option, none, some, List, [], ◌∷◌, ◌==◌, inl, inr, arith, if◌then◌else◌,
}
use openmcp_operator.Flow.{pure, finish}
use openmcp_operator.Flow.Run.{Run, Run-pure, Run-bind}
use openmcp_operator.Api.Meta.{tenancy_shared}
use openmcp_operator.Api.Cluster.{Cluster}
use openmcp_operator.Api.Requests.{ClusterRequest, finalizer_for_cluster}
use openmcp_operator.Config.Selector.{completed}
use openmcp_operator.Scheduler.Choose.{candidates, find_assigned}
use openmcp_operator.Config.Labels.{Labels}
use openmcp_operator.Config.Scheduler.{ClusterDefinition}
use openmcp_operator.Platform.{Library, LibraryLaws, Client}
use openmcp_operator.Scheduler.State.{deref, Action, result, with_cluster}
use openmcp_operator.Scheduler.Select.{search_namespace}
use openmcp_operator.Scheduler.State.{at_index}
use openmcp_operator.Scheduler.Writes.{Keeps, Run-deref, Run-at_index}
use openmcp_operator.Scheduler.Select.{
  get_definition, fetch_relevant_clusters, choose_by_strategy, choose_among, choose_cluster,
}
use openmcp_operator.Scheduler.Reconcile.{phase_of}
use openmcp_operator.Scheduler.Reconcile.Granted.{Settled, may_create, Settles}

module _ {labels : Labels} (lib : Library) (laws : LibraryLaws lib) (client : Client labels)
    {P : client.World → Type 0} (keeps : Keeps client may_create P) where
  abbrev Goal : {A : Type 0} → Action client A → Type 0
  Goal = Settles lib laws client keeps

  module _ (old cr : ClusterRequest) where
    pub get_definition-Settles : Goal (get_definition lib client old cr)
    unfolding get_definition
    get_definition-Settles = record { at = λ w p. ground (arith, keeps.get_config w p) }

    pub fetch-Settles :
        (d : Option (ClusterDefinition labels)) → Goal (fetch_relevant_clusters lib client old cr d)
    unfolding fetch_relevant_clusters
    fetch-Settles d = record {
      at = λ w p.
          let w1 = (client.get_config w).1 in
          elim (Option-cases (client.get_config w).0) [
            | inl e ↦ ground (arith, keeps.get_config w p)
            | inr (none, e) ↦ ground (arith, keeps.get_config w p)
            | inr (some cfg, e) ↦ elim (Option-cases d) [
              | inl e' ↦ ground (arith, keeps.get_config w p)
              | inr (def, e') ↦ ground (
                arith,
                keeps.get_config w p,
                keeps.list_clusters (search_namespace lib client old cfg def cr)
                    (completed labels def.selector) w1 (keeps.get_config w p),
              )
            ]
          ];
    }

    pub strategy-Settles :
        (c : Cluster) (cs : List Cluster) → Goal (choose_by_strategy lib client old cr c cs)
    unfolding choose_by_strategy
    strategy-Settles c cs = record {
      at = λ w p.
          let w1 = (client.get_config w).1 in
          let r = client.rand_int_n (length (c ∷ cs)) w1 in
          let kept = keeps.rand_int_n (length (c ∷ cs)) w1 (keeps.get_config w p) in
          let index : Goal (at_index client (c ∷ cs) r.0) = Run-at_index client (c ∷ cs) r.0 in
          ground (arith, keeps.get_config w p, kept, index.at r.1 kept);
    }

    pub among-Settles : (cs : List Cluster) → Goal (choose_among lib client old cr cs)
    unfolding choose_among
    among-Settles [] = Run-pure none tt
    among-Settles (c ∷ []) = Run-pure (some c) tt
    among-Settles (c ∷ c' ∷ cs) =
        Run-bind (choose_by_strategy lib client old cr c (c' ∷ cs)) _ (strategy-Settles c (c' ∷ cs))
          λ chosen _. Run-pure (some chosen) tt

    choose_from :
        (d : ClusterDefinition labels) (cs : List Cluster)
        → Run {A = Option Cluster} P
            (elim (find_assigned (finalizer_for_cluster cr) cs) [
              | some c ↦ finish (result (with_cluster cr c) old none)
              | none ↦
                  if d.template.spec.tenancy == tenancy_shared
                  then choose_among lib client old cr (candidates d cs)
                  else pure none
            ])
            (λ _. Unit {0})
            Settled
    unfolding phase_of
    choose_from d cs = record {
      at = λ w p. ground (arith, (among-Settles (candidates d cs)).at w p);
    }

    pub choose_cluster-Settles :
        (d : Option (ClusterDefinition labels)) → Goal (choose_cluster lib client old cr d)
    unfolding choose_cluster
    choose_cluster-Settles d =
        Run-bind (fetch_relevant_clusters lib client old cr d) _ (fetch-Settles d)
          λ cs _. Run-bind (deref client d) _ (Run-deref client d) λ def _. choose_from def cs
