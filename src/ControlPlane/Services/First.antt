-- ===== src/ControlPlane/Services/First.antt =====
-- As long as a registered service resource exists, `deleteDependingServices` does not report that
-- none remains.
use openmcp_operator.Prelude.{
  String, some, List, [], ◌∷◌, ◌++◌, false, map, ◌<>◌, ◌==◌, ◌≡◌, ◌≢◌, refl, ◌⊎◌, inl, inr, arith,
  contains, eq_refl, value_at, set_at, value_at-set_at, Bool-cases, is_nil, sym, subst, ◌∙◌,
}
use openmcp_operator.Flow.{found, not_found, failed, Answer-cases}
use openmcp_operator.Api.Meta.{key_of}
use openmcp_operator.Api.ControlPlane.{ControlPlane, ResourceType, ServiceProvider, ServiceResource}
use openmcp_operator.ControlPlane.State.{ControlPlaneLibrary, ControlPlaneClient}
use openmcp_operator.ControlPlane.Services.{Services, get_services, collect_services}
use openmcp_operator.ControlPlane.Services.Kept.{get_services-keep}
use openmcp_operator.ControlPlane.Keeps.{
  Allowed, nothing, Keeps, Some, NonEmpty, NonEmpty-append_left, NonEmpty-append_right,
}

is_nil-append : (ts us : List ResourceType) (t : ResourceType) → is_nil (ts ++ t ∷ us) ≡ false
unfolding is_nil
is_nil-append [] us t = refl
is_nil-append (x ∷ ts) us t = refl

-- Service resources are deleted, and nothing else is written.
abbrev pub only_services : Allowed
only_services = record nothing { deletes_service = λ s. Unit }

module _ (cp : ControlPlaneLibrary) (client : ControlPlaneClient) {P : client.World → Type 0}
    (keeps : Keeps client only_services P) where
  -- While `P` holds, the server does not say that the resource is gone.
  abbrev pub Stays : ServiceResource → Type 0
  Stays res = (v : client.World) → P v → (client.delete_service res v).0 ≢ not_found

  -- While `P` holds, the ControlPlane has a resource of the type, and it stays.
  pub record Exists (mcp : ControlPlane) (t : ResourceType) : Type 0 where
    pub there :
        (v : client.World)
        → P v
        → (client.get_service (t.group <> "/" <> t.version) t.kind (key_of mcp.metadata) v).0
          ≢ not_found
    pub served :
        (v : client.World) (e : String)
        → P v
        → (client.get_service (t.group <> "/" <> t.version) t.kind (key_of mcp.metadata) v).0
          ≡ failed e
        → cp.is_no_match_error e ≡ false
    pub stays :
        (v : client.World) (res : ServiceResource)
        → P v
        → (client.get_service (t.group <> "/" <> t.version) t.kind (key_of mcp.metadata) v).0
          ≡ found res
        → Stays res

  -- The resource is among those found, or there is an error.
  get_services_has :
      (mcp : ControlPlane) (before after : List ResourceType) (t : ResourceType) (w : client.World)
      → Exists mcp t
      → P w
      → Some Stays (get_services cp client mcp (before ++ t ∷ after) w).0.0
        ⊎ NonEmpty (get_services cp client mcp (before ++ t ∷ after) w).0.1
  unfolding get_services
  get_services_has mcp [] after t w ex p =
      let got = client.get_service (t.group <> "/" <> t.version) t.kind (key_of mcp.metadata) w in
      elim (Answer-cases got.0) [
        | inl (res, e) ↦ rw e (inl (inl (ex.stays w res p e)))
        | inr (inl e) ↦ absurd (ex.there w p e)
        | inr (inr (m, e)) ↦ rw (e, ex.served w m p e) (inr tt)
      ]
  get_services_has mcp (b ∷ before) after t w ex p =
      let got = client.get_service (b.group <> "/" <> b.version) b.kind (key_of mcp.metadata) w in
      let q = keeps.get_service (b.group <> "/" <> b.version) b.kind (key_of mcp.metadata) w p in
      let ih = get_services_has mcp before after t got.1 ex q in
      elim (Answer-cases got.0) [
        | inl (res, e) ↦ rw e (elim ih [ inl h ↦ inl (inr h) | inr h ↦ inr h ])
        | inr (inl e) ↦ rw e ih
        | inr (inr (m, e)) ↦ elim (Bool-cases (cp.is_no_match_error m)) [
          | inl h ↦ rw (e, h) ih
          | inr h ↦ rw (e, h) (elim ih [ inl k ↦ inl k | inr k ↦ inr tt ])
        ]
      ]

  -- What the map has for a name stays as long as no later provider has this name.
  collect_others :
      (mcp : ControlPlane) (resources : Services) (sps : List ServiceProvider) (w : client.World)
      → (name : String) → contains (map (λ (sp : ServiceProvider). sp.name) sps) name ≡ false
      → value_at name (collect_services cp client mcp resources sps w).0.0 ≡ value_at name resources
  unfolding collect_services contains
  collect_others mcp resources [] w name h = refl
  collect_others mcp resources (sp ∷ sps) w name h =
      let got = get_services cp client mcp sp.resources w in
      let apart : (sp.name == name) ≡ false = ground (arith, h) in
      let rest : contains (map (λ (sp : ServiceProvider). sp.name) sps) name ≡ false =
        ground (arith, h) in
      elim (Bool-cases (is_nil sp.resources)) [
        | inl e ↦ rw (e, collect_services) (collect_others mcp resources sps w name rest)
        | inr e ↦
            rw (e, collect_services)
              (collect_others mcp (set_at sp.name got.0.0 resources) sps got.1 name rest
                ∙ (value_at-set_at sp.name name got.0.0 resources ∙ ground (arith, apart)))
      ]

  -- The last provider of a name brings its resources into the map, or an error.
  pub collect_has :
      (mcp : ControlPlane) (resources : Services) (before after : List ServiceProvider)
      → (sp : ServiceProvider) (ts us : List ResourceType) (t : ResourceType) (w : client.World)
      → sp.resources ≡ ts ++ t ∷ us
      → contains (map (λ (sp : ServiceProvider). sp.name) after) sp.name ≡ false
      → Exists mcp t
      → P w
      → ((ress : List ServiceResource) × (value_at sp.name
              (collect_services cp client mcp resources (before ++ sp ∷ after) w).0.0
            ≡ some ress)
          × Some Stays ress)
        ⊎ NonEmpty (collect_services cp client mcp resources (before ++ sp ∷ after) w).0.1
  unfolding collect_services
  collect_has mcp resources [] after sp ts us t w e h ex p =
      let got = get_services cp client mcp sp.resources w in
      let has : Some Stays got.0.0 ⊎ NonEmpty got.0.1 =
        subst
          (λ rs.
            Some Stays (get_services cp client mcp rs w).0.0
            ⊎ NonEmpty (get_services cp client mcp rs w).0.1)
          (sym e) (get_services_has mcp ts us t w ex p) in
      let some_type : is_nil sp.resources ≡ false = rw e (is_nil-append ts us t) in
      let kept =
        collect_others mcp (set_at sp.name got.0.0 resources) after got.1 sp.name h
        ∙ value_at-set_at sp.name sp.name got.0.0 resources in
      rw (some_type, collect_services)
        (elim has [
          | inl k ↦ inl (got.0.0, kept ∙ ground (arith, eq_refl sp.name), k)
          | inr k ↦ inr (NonEmpty-append_left got.0.1 _ k)
        ])
  collect_has mcp resources (b ∷ before) after sp ts us t w e h ex p =
      let got = get_services cp client mcp b.resources w in
      elim (Bool-cases (is_nil b.resources)) [
        | inl q ↦
            rw (q, collect_services) (collect_has mcp resources before after sp ts us t w e h ex p)
        | inr q ↦
            rw (q, collect_services)
              (elim (collect_has mcp (set_at b.name got.0.0 resources) before after sp ts us t got.1
                e h ex (get_services-keep cp client keeps mcp b.resources w p)) [
                  | inl k ↦ inl k
                  | inr k ↦ inr (NonEmpty-append_right got.0.1 _ k)
                ])
      ]
