-- ===== src/ControlPlane/Services/Remain.antt =====
-- What `deleteDependingServices` reports as long as a registered service resource exists.
use openmcp_operator.Prelude.{
  String, some, List, [], ◌∷◌, ◌++◌, false, map, ◌==◌, ◌≡◌, refl, ◌⊎◌, inl, inr, arith, contains,
  value_at, Bool-cases, is_some, subst, sym,
}
use openmcp_operator.Flow.{Failure, Answer, found, not_found, failed, Answer-cases}
use openmcp_operator.Flow.Run.{Run-pure, Run-finish, Run-bind}
use openmcp_operator.ControlPlane.Runs.{Kept, Any, Kept-call, Kept-no_errors}
use openmcp_operator.Api.ControlPlane.{ControlPlane, ResourceType, ServiceProvider, ServiceResource}
use openmcp_operator.ControlPlane.State.{ControlPlaneLibrary, ControlPlaneClient, call, no_errors}
use openmcp_operator.ControlPlane.Services.{
  Services, collect_services, delete_resources, delete_services, list_or_fail,
  delete_depending_services,
}
use openmcp_operator.ControlPlane.Services.Kept.{collect-keep, resources-keep, services-keep}
use openmcp_operator.ControlPlane.Services.First.{only_services, Stays, Exists, collect_has}
use openmcp_operator.ControlPlane.Keeps.{
  Keeps, RangeLaw, Some, NonEmpty, NonEmpty-append_left, NonEmpty-append_right, Some-Perm,
}

module _ (cp : ControlPlaneLibrary) (client : ControlPlaneClient) {P : client.World → Type 0}
    (keeps : Keeps client only_services P) where
  abbrev Resists : ServiceResource → Type 0
  Resists = Stays cp client keeps

  -- An entry of the map with a resource that stays.
  abbrev Holds : String × List ServiceResource → Type 0
  Holds e = Some Resists e.1

  -- A resource that stays remains, or its deletion failed.
  resources_left :
      (ress : List ServiceResource) (w : client.World)
      → Some Resists ress
      → P w
      → NonEmpty (delete_resources cp client ress w).0.0
        ⊎ NonEmpty (delete_resources cp client ress w).0.1
  unfolding delete_resources
  resources_left [] w h p = absurd h
  resources_left (res ∷ ress) w h p =
      let answer = client.delete_service res w in
      elim (Bool-cases (is_some res.deletion_timestamp)) [
        | inl e ↦ rw (e, delete_resources) (inl tt)
        | inr e ↦
            let q = keeps.delete_service res w tt p in
            elim (Answer-cases answer.0) [
              | inl (u, a) ↦ rw (e, a, delete_resources) (inl tt)
              | inr (inl a) ↦
                  rw (e, a, delete_resources)
                    (elim h [ inl k ↦ absurd (k w p a) | inr k ↦ resources_left ress answer.1 k q ])
              | inr (inr (m, a)) ↦ rw (e, a, delete_resources) (inr tt)
            ]
      ]

  entry_left :
      (provider : String) (left : List ServiceResource) (rest : Services)
      → NonEmpty left ⊎ NonEmpty rest
      → NonEmpty {A = String × List ServiceResource}
          (elim left [ [] ↦ rest | res ∷ more ↦ (provider, res ∷ more) ∷ rest ])
  entry_left provider [] rest (inl h) = absurd h
  entry_left provider [] rest (inr h) = h
  entry_left provider (res ∷ more) rest h = tt

  services_left :
      (resources : Services) (w : client.World)
      → Some Holds resources
      → P w
      → NonEmpty (delete_services cp client resources w).0.0
        ⊎ NonEmpty (delete_services cp client resources w).0.1
  unfolding delete_services
  services_left [] w h p = absurd h
  services_left ((provider, ress) ∷ resources) w (inl h) p =
      let round = delete_resources cp client ress w in
      let rest = delete_services cp client resources round.1 in
      elim (resources_left ress w h p) [
        | inl k ↦ inl (entry_left provider round.0.0 rest.0.0 (inl k))
        | inr k ↦ inr (NonEmpty-append_left round.0.1 rest.0.1 k)
      ]
  services_left ((provider, ress) ∷ resources) w (inr h) p =
      let round = delete_resources cp client ress w in
      let rest = delete_services cp client resources round.1 in
      elim (services_left resources round.1 h
        (resources-keep cp client keeps (λ s e. tt) ress w p)) [
          | inl k ↦ inl (entry_left provider round.0.0 rest.0.0 (inr k))
          | inr k ↦ inr (NonEmpty-append_right round.0.1 rest.0.1 k)
        ]

  value_in :
      (name : String) (ress : List ServiceResource) (resources : Services)
      → value_at name resources ≡ some ress
      → Some Resists ress
      → Some Holds resources
  unfolding value_at
  value_in name ress [] h k = absurd (ground arith)
  value_in name ress ((j, us) ∷ resources) h k = elim (Bool-cases (j == name)) [
    | inl e ↦ let same : us ≡ ress = ground (arith, e, h) in inl (subst (Some Resists) (sym same) k)
    | inr e ↦ inr (value_in name ress resources (ground (arith, e, h)) k)
  ]

  -- What the list of providers says while `P` holds: some registered type has a resource, and no
  -- later provider has the name of its provider.
  pub record Registered (mcp : ControlPlane) (sps : List ServiceProvider) : Type 0 where
    pub before : List ServiceProvider
    pub provider : ServiceProvider
    pub after : List ServiceProvider
    pub first : List ResourceType
    pub type : ResourceType
    pub last : List ResourceType
    pub listed : sps ≡ before ++ provider ∷ after
    pub registered : provider.resources ≡ first ++ type ∷ last
    pub latest : contains (map (λ (sp : ServiceProvider). sp.name) after) provider.name ≡ false
    pub exists : Exists cp client keeps mcp type

  pick :
      (M : ControlPlane → Type 0) (mcp : ControlPlane) (listed : Answer (List ServiceProvider))
      → ((sps : List ServiceProvider) → listed ≡ found sps → Registered mcp sps)
      → Kept client P M (list_or_fail client listed) (Registered mcp) (Any client P M)
  unfolding list_or_fail
  pick M mcp (found sps) h = Run-pure sps (h sps refl)
  pick M mcp not_found h = Run-finish _ tt
  pick M mcp (failed e) h = Run-finish _ tt

  collected :
      (mcp : ControlPlane) (sps : List ServiceProvider) (w : client.World)
      → Registered mcp sps
      → P w
      → Some Holds (collect_services cp client mcp [] sps w).0.0
        ⊎ NonEmpty (collect_services cp client mcp [] sps w).0.1
  collected mcp sps w reg p =
      rw (reg.listed)
        (elim (collect_has cp client keeps mcp [] reg.before reg.after reg.provider reg.first
          reg.last reg.type w reg.registered reg.latest reg.exists p) [
            | inl (ress, e, h) ↦ inl (value_in reg.provider.name ress _ e h)
            | inr h ↦ inr h
          ])

  left_of : {B : Type 0} (es : List Failure) → B ⊎ NonEmpty es → es ≡ [] → B
  left_of es (inl b) e = b
  left_of es (inr h) e = absurd (subst NonEmpty (e) h)

  -- As long as a registered service resource exists, `deleteDependingServices` deletes at most
  -- service resources, and it returns an error or resources that remain.
  pub delete_depending_services_remain :
      RangeLaw client
      → (M : ControlPlane → Type 0) (mcp : ControlPlane)
      → ((v : client.World) (sps : List ServiceProvider)
          → P v
          → (client.list_service_providers v).0 ≡ found sps
          → Registered mcp sps)
      → Kept client P M (delete_depending_services cp client mcp) NonEmpty (Any client P M)
  unfolding delete_depending_services
  delete_depending_services_remain law M mcp reg =
      Run-bind (call client client.list_service_providers) _
        (Kept-call client P M client.list_service_providers keeps.list_service_providers
          λ w p sps e. reg w sps p e)
        λ listed q. Run-bind _ _ (pick M mcp listed q) λ sps r.
          Run-bind (call client (collect_services cp client mcp [] sps)) _
            (Kept-call client P M (collect_services cp client mcp [] sps)
              (collect-keep cp client keeps mcp [] sps) λ w p. collected mcp sps w r p)
            λ got h. Run-bind (no_errors client got.1) _ (Kept-no_errors client P M got.1) λ u e.
              Run-bind (call client (client.range_order got.0)) _
                (Kept-call client P M (client.range_order got.0)
                  (keeps.range_order (String × List ServiceResource) got.0)
                  λ w p.
                    Some-Perm Holds got.0 _ (law (String × List ServiceResource) got.0 w)
                      (left_of got.1 h e))
                λ resources k.
                  Run-bind (call client (delete_services cp client resources)) _
                    (Kept-call client P M (delete_services cp client resources)
                      (services-keep cp client keeps (λ s e. tt) resources)
                      λ w p. services_left resources w k p)
                    λ deleted d.
                      Run-bind (no_errors client deleted.1) _ (Kept-no_errors client P M deleted.1)
                        λ v f. Run-pure deleted.0 (left_of deleted.1 d f)
