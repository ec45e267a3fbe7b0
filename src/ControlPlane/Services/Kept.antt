-- ===== src/ControlPlane/Services/Kept.antt =====
-- `deleteDependingServices` deletes service resources that are not in deletion, and writes nothing else.
use openmcp_operator.Prelude.{
  String, none, List, [], ◌∷◌, ◌<>◌, ◌≡◌, inl, inr, arith, set_at, is_nil, is_some, Bool-cases,
}
use openmcp_operator.Flow.{Answer, found, not_found, failed, Answer-cases}
use openmcp_operator.Flow.Run.{Run-pure, Run-finish, Run-bind}
use openmcp_operator.Api.Meta.{key_of}
use openmcp_operator.Api.ControlPlane.{ControlPlane, ResourceType, ServiceProvider, ServiceResource}
use openmcp_operator.ControlPlane.State.{ControlPlaneLibrary, ControlPlaneClient, call, no_errors}
use openmcp_operator.ControlPlane.Services.{
  Services, get_services, collect_services, delete_resources, delete_services, list_or_fail,
  delete_depending_services,
}
use openmcp_operator.ControlPlane.Keeps.{Allowed, Keeps}
use openmcp_operator.ControlPlane.Runs.{Kept, Any, Kept-read, Kept-no_errors}

module _ (cp : ControlPlaneLibrary) (client : ControlPlaneClient) {allowed : Allowed}
    {P : client.World → Type 0} (keeps : Keeps client allowed P) where
  pub get_services-keep :
      (mcp : ControlPlane) (ts : List ResourceType) (w : client.World)
      → P w
      → P (get_services cp client mcp ts w).1
  unfolding get_services
  get_services-keep mcp [] w p = p
  get_services-keep mcp (t ∷ ts) w p =
      let got = client.get_service (t.group <> "/" <> t.version) t.kind (key_of mcp.metadata) w in
      ground (
        arith,
        get_services-keep mcp ts got.1
            (keeps.get_service (t.group <> "/" <> t.version) t.kind (key_of mcp.metadata) w p),
      )

  pub collect-keep :
      (mcp : ControlPlane) (resources : Services) (sps : List ServiceProvider) (w : client.World)
      → P w
      → P (collect_services cp client mcp resources sps w).1
  unfolding collect_services
  collect-keep mcp resources [] w p = p
  collect-keep mcp resources (sp ∷ sps) w p =
      let got = get_services cp client mcp sp.resources w in
      elim (Bool-cases (is_nil sp.resources)) [
        | inl e ↦ rw (e, collect_services) (collect-keep mcp resources sps w p)
        | inr e ↦
            rw (e, collect_services)
              (collect-keep mcp (set_at sp.name got.0.0 resources) sps got.1
                (get_services-keep mcp sp.resources w p))
      ]

  module _
      (services : (s : ServiceResource)
        → s.deletion_timestamp ≡ none
        → allowed.deletes_service s) where
    pub resources-keep :
        (ress : List ServiceResource) (w : client.World)
        → P w
        → P (delete_resources cp client ress w).1
    unfolding delete_resources
    resources-keep [] w p = p
    resources-keep (res ∷ ress) w p =
        let answer = client.delete_service res w in
        elim (Bool-cases (is_some res.deletion_timestamp)) [
          | inl e ↦ rw (e, delete_resources) (resources-keep ress w p)
          | inr e ↦
              let ih =
                resources-keep ress answer.1
                  (keeps.delete_service res w (services res (ground (arith, e))) p) in
              elim (Answer-cases answer.0) [
                | inl (u, q) ↦ rw (e, q, delete_resources) ih
                | inr (inl q) ↦ rw (e, q, delete_resources) ih
                | inr (inr (m, q)) ↦ rw (e, q, delete_resources) ih
              ]
        ]

    pub services-keep :
        (resources : Services) (w : client.World)
        → P w
        → P (delete_services cp client resources w).1
    unfolding delete_services
    services-keep [] w p = p
    services-keep ((provider, ress) ∷ resources) w p =
        services-keep resources (delete_resources cp client ress w).1 (resources-keep ress w p)

    module _ (M : ControlPlane → Type 0) where
      list_or_fail-Kept :
          (listed : Answer (List ServiceProvider))
          → Kept client P M (list_or_fail client listed) (Any client P M) (Any client P M)
      unfolding list_or_fail
      list_or_fail-Kept (found sps) = Run-pure sps tt
      list_or_fail-Kept not_found = Run-finish _ tt
      list_or_fail-Kept (failed e) = Run-finish _ tt

      pub delete_depending_services-Kept :
          (mcp : ControlPlane)
          → Kept client P M
              (delete_depending_services cp client mcp)
              (Any client P M)
              (Any client P M)
      unfolding delete_depending_services
      delete_depending_services-Kept mcp =
          Run-bind (call client client.list_service_providers) _
            (Kept-read client P M client.list_service_providers keeps.list_service_providers)
            λ listed q. Run-bind (list_or_fail client listed) _ (list_or_fail-Kept listed) λ sps r.
              Run-bind (call client (collect_services cp client mcp [] sps)) _
                (Kept-read client P M (collect_services cp client mcp [] sps)
                  (collect-keep mcp [] sps))
                λ got h.
                  Run-bind (no_errors client got.1) _ (Kept-no_errors client P M got.1) λ u e.
                    Run-bind (call client (client.range_order got.0)) _
                      (Kept-read client P M (client.range_order got.0)
                        (keeps.range_order (String × List ServiceResource) got.0))
                      λ resources k.
                        Run-bind (call client (delete_services cp client resources)) _
                          (Kept-read client P M (delete_services cp client resources)
                            (services-keep resources))
                          λ deleted d.
                            Run-bind (no_errors client deleted.1) _
                              (Kept-no_errors client P M deleted.1) λ v f. Run-pure deleted.0 tt
