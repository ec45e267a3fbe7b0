-- ===== src/AccessRequest/Reconcile.antt =====
-- `reconcile` of the controller of AccessRequests, part by part.
use openmcp_operator.Prelude.{
  ℤ, pos, String, Option, none, some, List, Bool, true, false, not, ◌&&◌, ◌==◌, is_some,
  if◌then◌else◌,
}
use openmcp_operator.Flow.{
  pure, finish, ask, ◌>>=◌, ◌>>◌, found, not_found, failed, with_reason, ReconcileError,
  platform_cluster_interaction_problem, invalid_reference, configuration_problem, internal_error,
}
use openmcp_operator.Api.Meta.{
  ObjectReference, get, key_of, provider_label, profile_label, operation_annotation,
  operation_ignore, operation_reconcile, request_granted,
}
use openmcp_operator.Api.Cluster.{Cluster}
use openmcp_operator.Api.Requests.{AccessRequest}
use openmcp_operator.Platform.{Library}
use openmcp_operator.AccessRequest.State.{
  ClusterProfile, AccessClient, AccessResult, no_result, access_result, AccessAction, fetched,
}
use openmcp_operator.AccessRequest.Responsible.{is_responsible}
use openmcp_operator.AccessRequest.Ttl.{has_expired_ttl, requeue_time}

abbrev pub problem : String → ReconcileError
problem m = with_reason m platform_cluster_interaction_problem

-- A result with an error and no object.
abbrev pub failure : String → AccessResult
failure m = record no_result { error = problem m }

abbrev pub with_labels : AccessRequest → Option (List (String × String)) → AccessRequest
with_labels ar m = record ar { metadata = record ar.metadata { labels = m } }

-- `ar.Spec.ClusterRef`, set from the cluster if it is nil.
abbrev pub with_cluster_ref : AccessRequest → Cluster → AccessRequest
with_cluster_ref ar c = record ar {
  cluster_ref = elim ar.cluster_ref [ none ↦ some (key_of c.metadata) | some r ↦ some r ];
}

module _ (lib : Library) (client : AccessClient) where
  -- Whether only the TTL is checked, because a provider is responsible.
  unfoldable pub check_responsible : AccessRequest → AccessAction client Bool
  check_responsible ar =
      if is_responsible (some ar) ""
      then if is_some ar.ttl then pure true else finish no_result
      else pure false

  unfoldable pub handle_access_annotation : Bool → AccessRequest → AccessAction client AccessRequest
  handle_access_annotation ttl_check_only ar = elim (get operation_annotation ar.annotations) [
    | none ↦ pure ar
    | some op ↦
        if op == operation_ignore
        then finish no_result
        else if op == operation_reconcile
        then if ttl_check_only then pure ar else (do
          ans ← ask (client.remove_operation_annotation ar)
          fetched client ans (failure "error removing operation annotation")
              (failure "error removing operation annotation"))
        else pure ar
  ]

  -- An expired request is deleted unless it is being deleted, which ends the reconciliation; for one
  -- that is not expired the time until the next check is returned.
  unfoldable pub check_ttl : Bool → AccessRequest → AccessAction client ℤ
  check_ttl ttl_check_only ar = if not (is_some ar.ttl) then pure (pos 0) else (do
    now ← ask client.now
    if (has_expired_ttl (some ar) now).0
        then if is_some ar.deletion_timestamp then pure (pos 0) else (do
          ans ← ask (client.delete_access_request ar)
          let failed_result =
              access_result ttl_check_only (pos 0) ar
                (problem "error deleting AccessRequest after TTL expiration")
          fetched client ans failed_result failed_result
          finish (access_result ttl_check_only (pos 0) ar none))
        else (do
          later ← ask client.now
          pure (requeue_time (has_expired_ttl (some ar) now).1 later)))

  module _ (requeue : ℤ) (ar : AccessRequest) where
    abbrev pub stopped : ReconcileError → AccessResult
    stopped e = access_result false requeue ar e

    abbrev pub invalid : String → AccessResult
    invalid m = stopped (with_reason m invalid_reference)

    -- The reference to the cluster, by the request if the AccessRequest does not name one.
    unfoldable pub find_cluster_ref : AccessAction client ObjectReference
    find_cluster_ref = elim ar.cluster_ref [
      | some ref ↦ pure ref
      | none ↦ elim ar.request_ref [
        | none ↦
            finish (stopped (with_reason "invalid AccessRequest resource" configuration_problem))
        | some request ↦ do
          ans ← ask (client.get_request request)
          cr ←
              fetched client ans (invalid "ClusterRequest not found")
                (stopped (problem "unable to get ClusterRequest"))
          if not (cr.status.phase == request_granted)
              then finish (invalid "ClusterRequest is not granted")
              else elim cr.status.cluster [
                | none ↦ finish (
                    stopped
                      (with_reason "ClusterRequest does not reference a cluster" internal_error))
                | some ref ↦ pure ref
              ]
      ]
    ]

    unfoldable pub fetch_cluster : ObjectReference → AccessAction client Cluster
    fetch_cluster ref = do
      ans ← ask (client.get_cluster ref)
      fetched client ans (invalid "referenced Cluster not found")
          (stopped (problem "unable to get Cluster"))

    unfoldable pub fetch_profile : Cluster → AccessAction client ClusterProfile
    fetch_profile c = do
      ans ← ask (client.get_profile c.spec.profile)
      fetched client ans (invalid "ClusterProfile not found")
          (stopped (problem "unable to get ClusterProfile"))

  -- The labels and the reference of the request; a label with another value ends without an error.
  unfoldable pub assign :
      ℤ → AccessRequest → Cluster → ClusterProfile → AccessAction client AccessResult
  assign requeue ar c cp =
      let (with_provider, provider_clash) =
        lib.ensure_label ar.labels provider_label cp.provider_ref in
      let (with_both, profile_clash) = lib.ensure_label with_provider profile_label cp.name in
      let assigned = with_cluster_ref (with_labels ar with_both) c in
      if provider_clash
      then finish (access_result false requeue (with_labels ar with_provider) none)
      else if profile_clash
      then finish (access_result false requeue (with_labels ar with_both) none)
      else (do
        ans ← ask (client.patch_access_request ar assigned)
        let failed_result = access_result false requeue assigned (problem "error patching resource")
        patched ← fetched client ans failed_result failed_result
        pure (access_result false requeue patched none))

  unfoldable pub complete_request : ℤ → AccessRequest → AccessAction client AccessResult
  complete_request requeue ar = do
    ref ← find_cluster_ref requeue ar
    c ← fetch_cluster requeue ar ref
    cp ← fetch_profile requeue ar c
    assign requeue ar c cp

  unfoldable pub reconcile_found : AccessRequest → AccessAction client AccessResult
  reconcile_found ar0 = do
    ttl_check_only ← check_responsible ar0
    ar ← handle_access_annotation ttl_check_only ar0
    requeue ← check_ttl ttl_check_only ar
    if ttl_check_only
        then pure (access_result true requeue ar none)
        else if lib.has_label ar.labels provider_label
            && lib.has_label ar.labels profile_label
            && is_some ar.cluster_ref
        then pure (access_result false requeue ar none)
        else complete_request requeue ar

  unfoldable pub reconcile : ObjectReference → AccessAction client AccessResult
  reconcile req = do
    ans ← ask (client.get_access_request req)
    elim ans [
      | found ar ↦ reconcile_found ar
      | not_found ↦ pure no_result
      | failed e ↦ pure (failure "unable to get resource")
    ]
