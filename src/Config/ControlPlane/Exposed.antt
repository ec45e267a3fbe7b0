-- ===== src/Config/ControlPlane/Exposed.antt =====
-- `ExposedEndpoints.Apply` against a description of it by single names.
use openmcp_operator.Prelude.{
  String, Option, none, some, List, [], ◌∷◌, ◌==◌, ◌≡◌, refl, inl, inr, arith, ◌∙◌, Option-cases,
  if◌then◌else◌,
}
use openmcp_operator.Api.Cluster.{Endpoint, get_endpoint, set_endpoint}
use openmcp_operator.Api.Endpoints.{get_endpoint-set_endpoint}
use openmcp_operator.Config.ControlPlane.{ExposedEndpoint, exposed_name, expose, apply}

-- The first of two that is there.
abbrev or_else : Option String → Option String → Option String
or_else none b = b
or_else (some a) b = some a

-- The URL that is shown under a name: the one of the last entry with this name whose endpoint exists.
unfoldable pub shown_url : String → List ExposedEndpoint → List Endpoint → Option String
shown_url name [] endpoints = none
shown_url name (ep ∷ e) endpoints =
    or_else (shown_url name e endpoints)
      (if exposed_name ep == name then get_endpoint ep.name endpoints else none)

expose_lem :
    (name : String) (result : List Endpoint) (e : List ExposedEndpoint) (endpoints : List Endpoint)
    → get_endpoint name (expose result e endpoints)
      ≡ or_else (shown_url name e endpoints) (get_endpoint name result)
unfolding expose shown_url
expose_lem name result [] endpoints = refl
expose_lem name result (ep ∷ e) endpoints = elim (Option-cases (get_endpoint ep.name endpoints)) [
  | inl q ↦
      rw (q, expose)
        (expose_lem name result e endpoints
          ∙ ground (arith, q, Option-cases (shown_url name e endpoints)))
  | inr (url, q) ↦
      rw (q, expose)
        (expose_lem name (set_endpoint (exposed_name ep) url result) e endpoints
          ∙ ground (
            arith,
            q,
            get_endpoint-set_endpoint (exposed_name ep) url name result,
            Option-cases (shown_url name e endpoints),
          ))
]

-- Under each name the exposed endpoints show the URL of the last entry of the configuration that is
-- exposed under this name and whose endpoint the cluster has, and nothing else.
pub apply_shows :
    (name : String) (e : List ExposedEndpoint) (endpoints : List Endpoint)
    → get_endpoint name (apply e endpoints) ≡ shown_url name e endpoints
unfolding apply get_endpoint
apply_shows name e endpoints =
    expose_lem name [] e endpoints ∙ ground (arith, Option-cases (shown_url name e endpoints))
