-- ===== src/Examples/Scheduler.antt =====
-- The theorems on the scheduler at concrete inputs.
use openmcp_operator.Prelude.{
  String, none, some, List, [], ◌∷◌, true, false, not, ◌||◌, ◌==◌, ◌≡◌, ◌≤◌, refl, arith, contains,
  any_of, All, starts_with, pos, select, insert, cut_prefix,
}
use Prim.Native.String.{len}
use openmcp_operator.Flow.{next, stop}
use openmcp_operator.Flow.Run.{Run}
use openmcp_operator.Api.Meta.{
  ObjectReference, key_of, items, get, lookup, put, empty_meta, tenancy_exclusive,
  delete_without_requests_label,
}
use openmcp_operator.Api.Cluster.{
  Cluster, empty_cluster, get_tenancy_count, get_request_uids, collect_request_uids,
}
use openmcp_operator.Api.Requests.{ClusterRequest, finalizer_for_cluster}
use openmcp_operator.Config.Selector.{completed}
use openmcp_operator.Config.Scheduler.{ClusterDefinition}
use openmcp_operator.Scheduler.State.{result, with_finalizers}
use openmcp_operator.Scheduler.Writes.{Keeps}
use openmcp_operator.Scheduler.Choose.{candidates, is_alive, least, find_assigned}
use openmcp_operator.Scheduler.Choose.Fair.{IsFirstLeast, least-IsFirstLeast}
use openmcp_operator.Scheduler.Select.{
  choose_cluster, choose_among, fetch_relevant_clusters, lookup_purpose, search_namespace,
}
use openmcp_operator.Scheduler.Select.Limit.{choose_cluster_limit}
use openmcp_operator.Scheduler.Granted.{sync_metadata}
use openmcp_operator.Scheduler.Granted.Laws.{steady_state, sync_metadata_get, synced, differs}
use openmcp_operator.Scheduler.Make.{find_conflict, merge_cluster}
use openmcp_operator.Scheduler.Make.Conflicts.{find_conflict_first_only, contains-merge_cluster}
use openmcp_operator.Scheduler.Naming.{initialize_new_cluster, generate_cluster_name}
use openmcp_operator.Scheduler.Naming.Laws.{
  generate_cluster_name_bounds, initialize_new_cluster_claimed, initialize_new_cluster_propagates,
}
use openmcp_operator.Scheduler.Delete.{
  handle_delete, finish_delete, remove_request_finalizer, remove_from_all, remove_from,
  release_cluster, delete_if_unused,
}
use openmcp_operator.Scheduler.Delete.Releases.{may_delete, Ended, handle_delete_ends}
use openmcp_operator.Scheduler.Delete.Complete.{anything, handle_delete_releases}
use openmcp_operator.Scheduler.Reconcile.{handle_create_or_update}
use openmcp_operator.Scheduler.Reconcile.Granted.{may_create, Settled}
use openmcp_operator.Scheduler.Reconcile.Create.{handle_create_or_update_settles}
use openmcp_operator.Examples.Platform.{
  Memory, library_a, library_a_laws, client_a, labels_a, request_a, cluster_a, cluster_used,
  definition_a, config_a, memory_a, memory_used,
}

nothing_deleted : Keeps client_a may_create (λ w. w.deleted ≡ [])
nothing_deleted = record {
  get_request = λ r w p. p;
  list_requests = λ w p. p;
  patch_request = λ a b w p. p;
  remove_operation_annotation = λ a w p. p;
  get_cluster = λ r w p. p;
  list_clusters = λ n s w p. p;
  get_config = λ w p. p;
  rand_int_n = λ n w p. p;
  patch_cluster = λ c d w h p. p;
  create_cluster = λ c w h p. p;
  update_cluster = λ c w h p. p;
  delete_cluster = λ c w h p. absurd h;
}

handle_create_or_update_settles_example :
    Run (λ w. w.deleted ≡ []) (handle_create_or_update library_a client_a request_a) Settled Settled
handle_create_or_update_settles_example =
    handle_create_or_update_settles library_a library_a_laws client_a nothing_deleted request_a

deletes_unused :
    Keeps client_a
      (may_delete library_a (finalizer_for_cluster request_a))
      (λ w. All (λ c. get_tenancy_count c ≡ 0) w.deleted)
deletes_unused = record {
  get_request = λ r w p. p;
  list_requests = λ w p. p;
  patch_request = λ a b w p. p;
  remove_operation_annotation = λ a w p. p;
  get_cluster = λ r w p. p;
  list_clusters = λ n s w p. p;
  get_config = λ w p. p;
  rand_int_n = λ n w p. p;
  patch_cluster = λ c d w h p. p;
  create_cluster = λ c w h p. absurd h;
  update_cluster = λ c w h p. absurd h;
  delete_cluster = λ c w h p. (h.0, p);
}

handle_delete_ends_example :
    Run
      (λ w. All (λ c. get_tenancy_count c ≡ 0) w.deleted)
      (handle_delete library_a client_a request_a)
      Ended
      Ended
handle_delete_ends_example =
    handle_delete_ends library_a library_a_laws client_a request_a deletes_unused

abbrev request_b : ClusterRequest
request_b = record request_a { metadata = record request_a.metadata { uid = "b" } }

abbrev Released : Memory → Type 0
Released w =
    any_of (λ c. not (contains c.finalizers (finalizer_for_cluster request_a))) w.patched ≡ true

patches_stay : Keeps client_a anything Released
unfolding any_of
patches_stay = record {
  get_request = λ r w p. p;
  list_requests = λ w p. p;
  patch_request = λ a b w p. p;
  remove_operation_annotation = λ a w p. p;
  get_cluster = λ r w p. p;
  list_clusters = λ n s w p. p;
  get_config = λ w p. p;
  rand_int_n = λ n w p. p;
  patch_cluster = λ c d w h p. ground (arith, p);
  create_cluster = λ c w h p. p;
  update_cluster = λ c w h p. p;
  delete_cluster = λ c w h p. p;
}

handle_delete_releases_example : Released (handle_delete library_a client_a request_a memory_used).1
unfolding handle_delete finish_delete remove_request_finalizer remove_from_all remove_from
    release_cluster delete_if_unused completed select any_of contains finalizer_for_cluster
    get_tenancy_count get_request_uids lookup
handle_delete_releases_example =
    handle_delete_releases library_a library_a_laws client_a patches_stay request_a memory_used
      config_a (cluster_used ∷ []) [] [] cluster_used
      (record { object = none; old_object = some request_a; error = none }) refl refl refl refl
      (λ v d e. refl) refl refl

choose_cluster_limit_example :
    (is_alive cluster_a ≡ true)
    × (get_tenancy_count (
          with_finalizers cluster_a
            (library_a.add_finalizer cluster_a.finalizers (finalizer_for_cluster request_a)).0)
        ≤ 2)
unfolding choose_cluster choose_among fetch_relevant_clusters lookup_purpose candidates
    get_tenancy_count get_request_uids collect_request_uids search_namespace select contains insert
    completed find_assigned finalizer_for_cluster cut_prefix
choose_cluster_limit_example =
    choose_cluster_limit library_a client_a request_a library_a_laws request_a definition_a 2
      cluster_a memory_a refl (ground arith) refl

abbrev granted_request : ClusterRequest
granted_request = record request_a {
  status = record { phase = "Granted"; cluster = some (key_of cluster_used.metadata) };
}

steady_state_example :
    handle_create_or_update library_a client_a granted_request memory_used
    ≡ (stop (result granted_request granted_request none), memory_used)
unfolding contains finalizer_for_cluster
steady_state_example =
    steady_state library_a client_a library_a_laws granted_request (key_of cluster_used.metadata)
      cluster_used memory_used refl refl refl refl refl

sync_metadata_get_example :
    (m' : List (String × String)) × (sync_metadata
        (items request_a.labels)
        (some (("stage", "dev") ∷ []))
        false
      ≡ some (some m', false || differs (items request_a.labels) (some (("stage", "dev") ∷ []))))
    × (differs (items request_a.labels) (some (("stage", "dev") ∷ [])) ≡ false
        → m' ≡ ("stage", "dev") ∷ [])
    × (lookup "metadata.open-control-plane.io/owner" m'
        ≡ synced
            (items request_a.labels)
            (some (("stage", "dev") ∷ []))
            "metadata.open-control-plane.io/owner")
unfolding lookup
sync_metadata_get_example =
    sync_metadata_get (items request_a.labels) (("stage", "dev") ∷ []) false
      "metadata.open-control-plane.io/owner" (refl, tt)

least-IsFirstLeast_example :
    IsFirstLeast
      (least cluster_a (get_tenancy_count cluster_a) (cluster_used ∷ []))
      (cluster_a ∷ cluster_used ∷ [])
least-IsFirstLeast_example = least-IsFirstLeast cluster_a (cluster_used ∷ [])

-- The second finalizer is the one of a request that exists.
find_conflict_first_only_example :
    find_conflict library_a client_a request_a request_b
      ("request.clusters.openmcp.cloud/gone" ∷ "request.clusters.openmcp.cloud/a" ∷ [])
      false
      false
      []
      memory_a
    ≡ (next (false, "request.clusters.openmcp.cloud/gone" ∷ []), memory_a)
unfolding contains any_of finalizer_for_cluster
find_conflict_first_only_example =
    find_conflict_first_only library_a client_a request_a request_b
      "request.clusters.openmcp.cloud/gone" ("request.clusters.openmcp.cloud/a" ∷ [])
      (request_a ∷ []) memory_a refl refl refl

contains-merge_cluster_example :
    contains
      (merge_cluster library_a client_a request_a cluster_a cluster_used
        ("request.clusters.openmcp.cloud/b" ∷ [])).finalizers
      "request.clusters.openmcp.cloud/b"
    ≡ false
unfolding contains
contains-merge_cluster_example =
    contains-merge_cluster library_a library_a_laws client_a request_a cluster_a cluster_used
      ("request.clusters.openmcp.cloud/b" ∷ []) "request.clusters.openmcp.cloud/b"

generate_cluster_name_bounds_example :
    (starts_with "mcp-teamrequest" "mcp-" ≡ true) × (len "mcp-teamrequest" ≤ 63)
unfolding generate_cluster_name
generate_cluster_name_bounds_example =
    generate_cluster_name_bounds library_a library_a_laws "mcp-" "mcp-teamrequest" request_a refl

abbrev lost_ref : ObjectReference
lost_ref = record { name = "old"; namespace = "clusters" }

abbrev exclusive_definition : ClusterDefinition labels_a
exclusive_definition = record definition_a {
  tenancy_count = pos 0;
  template = record definition_a.template {
    spec = record definition_a.template.spec { tenancy = tenancy_exclusive };
  };
}

abbrev made_again : Cluster
made_again = record empty_cluster {
  metadata = record empty_meta {
    name = "old";
    namespace = "clusters";
    finalizers = "request.clusters.openmcp.cloud/a" ∷ [];
    labels = some (
        ("stage", "dev")
        ∷ (delete_without_requests_label, "true")
        ∷ ("metadata.open-control-plane.io/owner", "x")
        ∷ []);
  };
  spec = exclusive_definition.template.spec;
}

made :
    initialize_new_cluster library_a exclusive_definition request_a (some lost_ref)
    ≡ some made_again
unfolding initialize_new_cluster put contains lookup
made = refl

initialize_new_cluster_claimed_example :
    (made_again.finalizers ≡ finalizer_for_cluster request_a ∷ [])
    × (get_tenancy_count made_again ≡ 1)
    × (made_again.spec.tenancy ≡ tenancy_exclusive)
    × ((p : String) → contains made_again.spec.purposes p ≡ (contains ("mcp" ∷ []) p || p == "mcp"))
initialize_new_cluster_claimed_example =
    initialize_new_cluster_claimed library_a exclusive_definition request_a (some lost_ref)
      made_again made

initialize_new_cluster_propagates_example :
    get "metadata.open-control-plane.io/owner" made_again.labels ≡ some "x"
unfolding lookup
initialize_new_cluster_propagates_example =
    initialize_new_cluster_propagates library_a exclusive_definition request_a library_a_laws
      (some lost_ref) made_again "metadata.open-control-plane.io/owner" "x" made refl (refl, tt)
      refl refl
