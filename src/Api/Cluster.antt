-- ===== src/Api/Cluster.antt =====
-- The Cluster resource, its endpoints and the count of the requests that use it
-- (api/clusters/v1alpha1/cluster_types.go).
use openmcp_operator.Prelude.{
  ℕ, String, Option, none, some, List, [], ◌∷◌, length, insert, cut_prefix, ◌==◌, if◌then◌else◌,
}
use openmcp_operator.Api.Meta.{ObjectMeta, empty_meta, request_finalizer_on_cluster_prefix}
use openmcp_operator.Api.Conditions.{Condition}

pub record ClusterSpec : Type 0 where
  pub profile : String
  pub cluster_configs : List String
  pub kubernetes_version : String
  pub purposes : List String
  pub tenancy : String

pub record Endpoint : Type 0 where
  pub name : String
  pub url : String

pub record ClusterStatus : Type 0 where
  pub phase : String
  pub observed_generation : ℕ
  pub api_server : String
  pub endpoints : List Endpoint
  pub conditions : List Condition

pub record Cluster : Type 0 where
  pub metadata : ObjectMeta
  pub open metadata use *
  pub spec : ClusterSpec
  pub status : ClusterStatus

-- `&Cluster{}`.
abbrev pub empty_cluster : Cluster
empty_cluster = record {
  metadata = empty_meta;
  spec = record {
    profile = "";
    cluster_configs = [];
    kubernetes_version = "";
    purposes = [];
    tenancy = "";
  };
  status = record {
    phase = "";
    observed_generation = 0;
    api_server = "";
    endpoints = [];
    conditions = [];
  };
}

-- The loop of `Endpoints.Get`: the first endpoint with the name.
unfoldable pub get_endpoint : String → List Endpoint → Option String
get_endpoint n [] = none
get_endpoint n (e ∷ es) = if e.name == n then some e.url else get_endpoint n es

-- `Endpoints.Set`: the first endpoint with the name is updated, else one is appended.
unfoldable pub set_endpoint : String → String → List Endpoint → List Endpoint
set_endpoint n u [] = record { name = n; url = u } ∷ []
set_endpoint n u (e ∷ es) =
    if e.name == n then record e { url = u } ∷ es else e ∷ set_endpoint n u es

-- The loop of `GetRequestUIDs` over the finalizers, with the set that it fills.
unfoldable pub collect_request_uids : List String → List String → List String
collect_request_uids res [] = res
collect_request_uids res (fin ∷ fins) =
    collect_request_uids
      (elim (cut_prefix fin request_finalizer_on_cluster_prefix) [
        | none ↦ res
        | some uid ↦ insert uid res
      ])
      fins

unfoldable pub get_request_uids : Cluster → List String
unfolding collect_request_uids
get_request_uids c = collect_request_uids [] c.finalizers

unfoldable pub get_tenancy_count : Cluster → ℕ
get_tenancy_count c = length (get_request_uids c)
