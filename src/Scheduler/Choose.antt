-- ===== src/Scheduler/Choose.antt =====
-- Which of the existing clusters a request gets: the candidates and the strategy `Balanced` in
-- `handleCreateOrUpdate`.
pub mod Fair
use openmcp_operator.Prelude.{
  ℕ, ltb, below, is_positive, String, Option, none, some, List, [], ◌∷◌, Bool, not, is_some,
  contains, select, if◌then◌else◌,
}
use openmcp_operator.Api.Cluster.{Cluster, get_tenancy_count}
use openmcp_operator.Config.Labels.{Labels}
use openmcp_operator.Config.Scheduler.{ClusterDefinition}

-- The first cluster with the finalizer.
unfoldable pub find_assigned : String → List Cluster → Option Cluster
find_assigned fin [] = none
find_assigned fin (c ∷ cs) = if contains c.finalizers fin then some c else find_assigned fin cs

abbrev pub is_alive : Cluster → Bool
is_alive c = not (is_some c.deletion_timestamp)

-- Clusters that are not being deleted and, with a tenancy limit, are below it.
unfoldable pub candidates :
    {labels : Labels} → ClusterDefinition labels → List Cluster → List Cluster
candidates d clusters =
    let alive = select is_alive clusters in
    if is_positive d.tenancy_count
    then select (λ c. below (get_tenancy_count c) d.tenancy_count) alive
    else alive

-- The loop for the least number of requests, with the best cluster so far and its count.
unfoldable pub least : Cluster → ℕ → List Cluster → Cluster
least best count [] = best
least best count (c ∷ cs) =
    let tmp = get_tenancy_count c in
    least (if ltb tmp count then c else best) (if ltb tmp count then tmp else count) cs
