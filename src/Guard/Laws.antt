-- ===== src/Guard/Laws.antt =====
-- When the guard allows the deletion of an APIBinding.
use openmcp_operator.Prelude.{
  ◌<>◌, String, Option, none, some, List, [], ◌∷◌, Bool, true, false, ◌≡◌, ◌↔◌, ◌⊎◌, inl, inr, refl,
  arith, eq_iff, Option-cases,
}
use openmcp_operator.Api.Meta.{get, or_empty}
use openmcp_operator.Guard.{
  Binding, AdmissionRequest, GroupVersionKind, Workspaces, cluster_annotation, check_services,
  inspector_check, handler_check, review, serve,
}

module _ (ws : Workspaces) where
  -- No object of the services is left, each as it is listed in turn.
  abbrev pub IsClear : ws.Client → List GroupVersionKind → ws.World → Type 0
  IsClear client [] w = Unit
  IsClear client (s ∷ ss) w =
      ((ws.list_one client (record s { kind = s.kind <> "List" }) w).0 ≡ some [])
      × IsClear client ss (ws.list_one client (record s { kind = s.kind <> "List" }) w).1

  -- The workspace of the binding is being deleted, or has no object of the services.
  abbrev pub MayDisconnect : List GroupVersionKind → Binding → ws.World → Type 0
  MayDisconnect services b w =
      let resolved = ws.resolve (or_empty (get cluster_annotation b.annotations)) b.name b.uid w in
      ((c : Option ws.Client) × (resolved.0 ≡ some (c, true)))
      ⊎ ((c : ws.Client) × (resolved.0 ≡ some (some c, false)) × IsClear c services resolved.1)

  services-IsClear :
      (client : ws.Client) (ss : List GroupVersionKind) (w : ws.World)
      → (check_services ws client ss w).0 ≡ none
      → IsClear client ss w
  unfolding check_services
  services-IsClear client [] w h = tt
  services-IsClear client (s ∷ ss) w h =
      let listed = ws.list_one client (record s { kind = s.kind <> "List" }) w in
      elim (Option-cases listed.0) [
        | inl e ↦ absurd (ground (arith, e, h))
        | inr ([], e) ↦ (e, services-IsClear client ss listed.1 (ground (arith, e, h)))
        | inr (x ∷ xs, e) ↦ absurd (ground (arith, e, h))
      ]

  inspector-MayDisconnect :
      (has_resolve : Bool) (services : List GroupVersionKind) (b : Binding) (w : ws.World)
      → (inspector_check ws has_resolve services
          (or_empty (get cluster_annotation b.annotations))
          b.name
          b.uid
          w).0
        ≡ none
      → MayDisconnect services b w
  unfolding inspector_check
  inspector-MayDisconnect has_resolve services b w h =
      let resolved = ws.resolve (or_empty (get cluster_annotation b.annotations)) b.name b.uid w in
      elim (Option-cases resolved.0) [
        | inl e ↦ absurd (ground (arith, e, h))
        | inr ((c, true), e) ↦ inl (c, e)
        | inr ((none, false), e) ↦ absurd (ground (arith, e, h))
        | inr ((some c, false), e) ↦
            inr (c, e, services-IsClear c services resolved.1 (ground (arith, e, h)))
      ]

  -- Where the guard with an inspector allows what a review asks for, the request deletes an
  -- APIBinding, the review names the binding that it carries, and the workspace of the binding is
  -- being deleted or has no object of any of the services.
  pub serve_allows :
      (has_resolve : Bool) (services : List GroupVersionKind) (method : String)
      → (req : AdmissionRequest) (w : ws.World) (u : String) (m : Option String)
      → (serve ws (some (inspector_check ws has_resolve services)) method (some req) w).0
        ≡ review u true m
      → (req.operation ≡ "DELETE")
        × (req.resource ≡ "apibindings")
        × (b : Binding) × (req.old_object ≡ some b)
        × (b.name ≡ req.name)
        × MayDisconnect services b w
  unfolding serve handler_check
  serve_allows has_resolve services method req w u m h = elim (Option-cases req.old_object) [
    | inl e ↦ absurd (ground (arith, e, h))
    | inr (b, e) ↦ (
      ground (arith, h, e, eq_iff req.operation "DELETE"),
      ground (arith, h, e, eq_iff req.resource "apibindings"),
      b,
      e,
      ground (arith, h, e, eq_iff b.name req.name),
      inspector-MayDisconnect has_resolve services b w (ground (arith, h, e)),
    )
  ]

  clear_services :
      (client : ws.Client) (ss : List GroupVersionKind) (w : ws.World)
      → IsClear client ss w
      → (check_services ws client ss w).0 ≡ none
  unfolding check_services
  clear_services client [] w h = refl
  clear_services client (s ∷ ss) w (e, h) = ground (arith, e, clear_services client ss _ h)

  -- A configured inspector allows the deletion of a binding exactly if the workspace is being
  -- deleted or has no object of any of the services.
  pub inspector_check_iff :
      (s : GroupVersionKind) (ss : List GroupVersionKind) (b : Binding) (w : ws.World)
      → ((inspector_check ws true
            (s ∷ ss)
            (or_empty (get cluster_annotation b.annotations))
            b.name
            b.uid
            w).0
          ≡ none)
        ↔ MayDisconnect (s ∷ ss) b w
  unfolding inspector_check
  inspector_check_iff s ss b w = (
    inspector-MayDisconnect true (s ∷ ss) b w,
    λ m. elim m [
      | inl (c, e) ↦ ground (arith, e)
      | inr (c, e, h) ↦ ground (arith, e, clear_services c (s ∷ ss) _ h)
    ],
  )
