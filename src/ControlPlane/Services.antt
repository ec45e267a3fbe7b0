-- ===== src/ControlPlane/Services.antt =====
-- `deleteDependingServices` (internal/controllers/controlplane/services.go).
pub mod Kept
pub mod First
pub mod Remain
use openmcp_operator.Prelude.{
  String, Option, none, some, List, [], ◌∷◌, ◌++◌, Bool, true, false, ◌<>◌, is_nil, MapOf, set_at,
  is_some, if◌then◌else◌,
}
use openmcp_operator.Flow.{
  pure, finish, ◌>>=◌, ◌>>◌, Answer, found, not_found, failed, Failure,
  onboarding_cluster_interaction_problem, platform_cluster_interaction_problem,
}
use openmcp_operator.Api.Meta.{key_of}
use openmcp_operator.Api.ControlPlane.{ControlPlane, ResourceType, ServiceProvider, ServiceResource}
use openmcp_operator.ControlPlane.State.{
  ControlPlaneLibrary, ControlPlaneClient, Step, call, failure_of, no_errors,
}

abbrev pub Services : Type 0
Services = MapOf (List ServiceResource)

abbrev pub get_service_failure : List Failure
get_service_failure =
    failure_of "error getting service resource" onboarding_cluster_interaction_problem

abbrev pub delete_service_failure : List Failure
delete_service_failure =
    failure_of "error deleting service resource" onboarding_cluster_interaction_problem

module _ (client : ControlPlaneClient) where
  -- The providers, or the error that they could not be listed.
  unfoldable pub list_or_fail : Answer (List ServiceProvider) → Step client (List ServiceProvider)
  list_or_fail (found sps) = pure sps
  list_or_fail not_found =
      finish (failure_of "failed to list ServiceProviders" platform_cluster_interaction_problem)
  list_or_fail (failed e) =
      finish (failure_of "failed to list ServiceProviders" platform_cluster_interaction_problem)

module _ (cp : ControlPlaneLibrary) (client : ControlPlaneClient) where
  -- The registered resource types of one provider: the resources that exist for the ControlPlane. A
  -- missing object and an API that is not served are none.
  unfoldable pub get_services :
      ControlPlane
      → List ResourceType
      → client.World
      → (List ServiceResource × List Failure) × client.World
  get_services mcp [] w = (([], []), w)
  get_services mcp (t ∷ ts) w =
      let got = client.get_service (t.group <> "/" <> t.version) t.kind (key_of mcp.metadata) w in
      let rest = get_services mcp ts got.1 in
      elim got.0 [
        | found res ↦ ((res ∷ rest.0.0, rest.0.1), rest.1)
        | not_found ↦ rest
        | failed e ↦
            if cp.is_no_match_error e
            then rest
            else ((rest.0.0, get_service_failure ++ rest.0.1), rest.1)
      ]

  -- The loop over the providers, with the map of the resources so far.
  unfoldable pub collect_services :
      ControlPlane
      → Services
      → List ServiceProvider
      → client.World
      → (Services × List Failure) × client.World
  collect_services mcp resources [] w = ((resources, []), w)
  collect_services mcp resources (sp ∷ sps) w = elim (is_nil sp.resources) [
    | true ↦ collect_services mcp resources sps w
    | false ↦
        let got = get_services mcp sp.resources w in
        let rest = collect_services mcp (set_at sp.name got.0.0 resources) sps got.1 in
        ((rest.0.0, got.0.1 ++ rest.0.1), rest.1)
  ]

  -- The loop over the resources of one provider: what remains, and the errors.
  unfoldable pub delete_resources :
      List ServiceResource → client.World → (List ServiceResource × List Failure) × client.World
  delete_resources [] w = (([], []), w)
  delete_resources (res ∷ ress) w = elim (is_some res.deletion_timestamp) [
    | true ↦ let rest = delete_resources ress w in ((res ∷ rest.0.0, rest.0.1), rest.1)
    | false ↦
        let answer = client.delete_service res w in
        let rest = delete_resources ress answer.1 in
        elim answer.0 [
          | found _ ↦ ((res ∷ rest.0.0, rest.0.1), rest.1)
          | not_found ↦ rest
          | failed e ↦ ((rest.0.0, delete_service_failure ++ rest.0.1), rest.1)
        ]
  ]

  -- The loop over the providers with resources: what remains for each of them.
  unfoldable pub delete_services :
      Services → client.World → (Services × List Failure) × client.World
  delete_services [] w = (([], []), w)
  delete_services ((provider, ress) ∷ resources) w =
      let round = delete_resources ress w in
      let rest = delete_services resources round.1 in
      (
        (
          elim round.0.0 [ [] ↦ rest.0.0 | res ∷ more ↦ (provider, res ∷ more) ∷ rest.0.0 ],
          round.0.1 ++ rest.0.1,
        ),
        rest.1,
      )

  unfoldable pub delete_depending_services : ControlPlane → Step client Services
  delete_depending_services mcp = do
    listed ← call client client.list_service_providers
    sps ← list_or_fail client listed
    got ← call client (collect_services mcp [] sps)
    no_errors client got.1
    resources ← call client (client.range_order got.0)
    deleted ← call client (delete_services resources)
    no_errors client deleted.1
    pure deleted.0
