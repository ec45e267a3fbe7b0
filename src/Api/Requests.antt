-- ===== src/Api/Requests.antt =====
-- ClusterRequest and AccessRequest (api/clusters/v1alpha1/clusterrequest_types.go and
-- accessrequest_types.go, api/common).
use openmcp_operator.Prelude.{ℕ, ℤ, String, Option, Bool, ◌<>◌, ◌==◌, ◌||◌}
use openmcp_operator.Api.Meta.{
  ObjectMeta, ObjectReference, request_finalizer_on_cluster_prefix, request_granted,
  request_pending,
}
use openmcp_operator.Api.Iam.{TokenConfig, OidcConfig}

pub record ClusterRequestStatus : Type 0 where
  pub phase : String
  pub cluster : Option ObjectReference

pub record ClusterRequest : Type 0 where
  pub metadata : ObjectMeta
  pub open metadata use *
  pub purpose : String
  pub wait_for_cluster_deletion : Option Bool
  pub status : ClusterRequestStatus

unfoldable pub is_granted : ClusterRequestStatus → Bool
is_granted crs = crs.phase == request_granted

unfoldable pub is_denied : ClusterRequestStatus → Bool
is_denied crs = crs.phase == "Denied"

unfoldable pub is_pending : ClusterRequestStatus → Bool
is_pending crs = crs.phase == "" || crs.phase == request_pending

unfoldable pub finalizer_for_cluster : ClusterRequest → String
finalizer_for_cluster cr = request_finalizer_on_cluster_prefix <> cr.uid

pub record AccessRequest : Type 0 where
  pub metadata : ObjectMeta
  pub open metadata use *
  pub cluster_ref : Option ObjectReference
  pub request_ref : Option ObjectReference
  pub token : Option TokenConfig
  pub oidc : Option OidcConfig
  pub ttl : Option ℤ
  pub phase : String
  pub observed_generation : ℕ
  pub secret_ref : Option String

unfoldable pub is_access_granted : AccessRequest → Bool
is_access_granted ar = ar.phase == request_granted

unfoldable pub is_access_denied : AccessRequest → Bool
is_access_denied ar = ar.phase == "Denied"

unfoldable pub is_access_pending : AccessRequest → Bool
is_access_pending ar = ar.phase == "" || ar.phase == request_pending
