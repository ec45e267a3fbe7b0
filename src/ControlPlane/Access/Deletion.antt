-- ===== src/ControlPlane/Access/Deletion.antt =====
-- The access of a ControlPlane in deletion: AccessRequests and copied secrets are deleted, and none is
-- made.
use openmcp_operator.Prelude.{
  String, none, List, [], true, ◌≡◌, refl, inl, inr, arith, ap, ◌∙◌, is_some, Option-cases,
}
use openmcp_operator.Api.Meta.{ObjectMeta}
use openmcp_operator.Api.ControlPlane.{ControlPlane}
use openmcp_operator.Config.ControlPlane.{ControlPlaneConfig}
use openmcp_operator.Platform.{Library}
use openmcp_operator.ControlPlane.State.{ControlPlaneLibrary, ControlPlaneClient, Step}
use openmcp_operator.ControlPlane.Keeps.{Allowed, Keeps}
use openmcp_operator.ControlPlane.Runs.{Kept, Any}
use openmcp_operator.ControlPlane.Access.Desired.{
  desired_oidc, desired_tokens, apply_oidcs, apply_tokens, create_or_update_desired,
}
use openmcp_operator.ControlPlane.Access.Undesired.{drop_access}

-- The ControlPlane at hand has the metadata of one in deletion.
abbrev pub InDeletion : ObjectMeta → ControlPlane → Type 0
InDeletion m c = (c.metadata ≡ m) × (is_some m.deletion_timestamp ≡ true)

deleting :
    (m : ObjectMeta) (c : ControlPlane) → InDeletion m c → is_some c.deletion_timestamp ≡ true
deleting m c h = ap (λ n. is_some n.deletion_timestamp) h.0 ∙ h.1

module _ (lib : Library) (cp : ControlPlaneLibrary) (client : ControlPlaneClient)
    {allowed : Allowed} {P : client.World → Type 0} (keeps : Keeps client allowed P)
    (m : ObjectMeta) where
  abbrev pub Deleting : {A : Type 0} → Step client A → (A → Type 0) → Type 0
  Deleting step Q = Kept client P (InDeletion m) step Q (Any client P (InDeletion m))

  nothing_desired :
      (cfg : ControlPlaneConfig) (c : ControlPlane)
      → InDeletion m c
      → (desired_oidc cfg c ≡ []) × (desired_tokens c ≡ [])
  unfolding desired_oidc desired_tokens
  nothing_desired cfg c h = rw (deleting m c h) (refl, refl)

  -- No AccessRequest is applied.
  pub nothing_applied :
      (ns : String)
      → Deleting (create_or_update_desired lib cp client ns none) (λ updated. updated ≡ [])
  unfolding create_or_update_desired apply_oidcs apply_tokens
  nothing_applied ns = record {
    at = λ s p. elim (Option-cases (client.get_config s.0).0) [
      | inl e ↦ rw e ((keeps.get_config s.0 p.0, p.1), tt)
      | inr (cfg, e) ↦
          let h = nothing_desired cfg s.1.mcp p.1 in
          rw (e, h.0, h.1) ((keeps.get_config s.0 p.0, p.1), refl)
    ];
  }

pub drop_access-InDeletion :
    (m : ObjectMeta) (names : List String) (c : ControlPlane)
    → InDeletion m c
    → InDeletion m (drop_access names c)
unfolding drop_access
drop_access-InDeletion m names c h = ground (arith, h)
