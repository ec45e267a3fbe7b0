-- ===== src/ControlPlane/Create/Allowed.antt =====
-- What `handleCreateOrUpdate` may write.
use openmcp_operator.Prelude.{
  String, none, some, true, ◌<>◌, ◌≡◌, ◌≢◌, ◌⊎◌, refl, inl, inr, contains, Bool-cases, ◌==◌, eq_iff,
}
use openmcp_operator.Flow.{found}
use openmcp_operator.Api.Meta.{get}
use openmcp_operator.Api.ControlPlane.{
  ControlPlane, mcp_finalizer, cluster_request_finalizer_prefix, mcp_purpose_override_label,
}
use openmcp_operator.Config.ControlPlane.{ControlPlaneConfig}
use openmcp_operator.Platform.{Library}
use openmcp_operator.ControlPlane.State.{ControlPlaneLibrary, ControlPlaneClient, with_finalizers}
use openmcp_operator.ControlPlane.Keeps.{Allowed, nothing}
use openmcp_operator.ControlPlane.Shared.{stable_mcp_namespace}
use openmcp_operator.ControlPlane.Create.{cluster_purpose}

-- The patch of `handleCreateOrUpdate`: the ControlPlane with both finalizers.
abbrev pub finalized : Library → ControlPlane → ControlPlane
finalized lib mcp =
    let first = lib.add_finalizer mcp.finalizers mcp_finalizer in
    with_finalizers (lib.add_finalizer first.0 (cluster_request_finalizer_prefix <> mcp.name)).0 mcp

-- The ControlPlane that the handler goes on with, where it was called in a world: the one it was given,
-- but for its finalizers, or what the server answers to the patch that follows the configuration.
abbrev pub AtHand :
    Library → (client : ControlPlaneClient) → ControlPlane → client.World → ControlPlane → Type 0
AtHand lib client mcp w c =
    ((c.name ≡ mcp.name) × (c.namespace ≡ mcp.namespace) × (c.labels ≡ mcp.labels))
    ⊎ ((client.patch_control_plane mcp (finalized lib mcp) (client.get_config w).1).0 ≡ found c)

-- The namespace on the platform cluster of the ControlPlane at hand.
abbrev pub Owned :
    Library
    → ControlPlaneLibrary
    → (client : ControlPlaneClient) → ControlPlane
    → client.World
    → String
    → Type 0
Owned lib cp client mcp w ns =
    (c : ControlPlane) × AtHand lib client mcp w c
    × (stable_mcp_namespace lib cp client c.name c.namespace ≡ some ns)

-- The purpose that a label of the ControlPlane names, or the configured one.
abbrev pub Purposed : ControlPlaneConfig → ControlPlane → String → Type 0
Purposed cfg c purpose =
    ((v : String) → get mcp_purpose_override_label c.labels ≡ some v → v ≢ "" → purpose ≡ v)
    × (get mcp_purpose_override_label c.labels ≡ none → purpose ≡ cfg.mcp_cluster_purpose)
    × (get mcp_purpose_override_label c.labels ≡ some "" → purpose ≡ cfg.mcp_cluster_purpose)

pub cluster_purpose-Purposed :
    (cfg : ControlPlaneConfig) (c : ControlPlane) → Purposed cfg c (cluster_purpose cfg c)
unfolding cluster_purpose
cluster_purpose-Purposed cfg c = (
  λ v e ne. elim (Bool-cases (v == "")) [
    | inl q ↦ absurd (ne ((eq_iff v "").0 q))
    | inr q ↦ rw e (rw q refl)
  ],
  λ e. rw e refl,
  λ e. rw e refl,
)

-- For a call of the handler with a ControlPlane in a world: a patch is of that ControlPlane and adds
-- finalizers, with its own two. Namespaces are ensured and AccessRequests applied in the namespace of
-- the ControlPlane at hand. A ClusterRequest is created with its name, in its namespace, with the
-- purpose that its label names or else that of the configuration read at the start, and with the wait
-- for the deletion of its cluster. No ClusterRequest, namespace or service resource is deleted, and what
-- is deleted of the access is not in deletion already.
abbrev pub may_create :
    Library
    → ControlPlaneLibrary
    → (client : ControlPlaneClient) → ControlPlane
    → client.World
    → Allowed
may_create lib cp client mcp w = record nothing {
  patches = λ c d.
      (c ≡ mcp)
      × ((f : String) → contains c.finalizers f ≡ true → contains d.finalizers f ≡ true)
      × (contains d.finalizers mcp_finalizer ≡ true)
      × (contains d.finalizers (cluster_request_finalizer_prefix <> mcp.name) ≡ true);
  applies_secret = Unit;
  deletes_secret = λ s. s.deletion_timestamp ≡ none;
  ensures_namespace = λ n m. Owned lib cp client mcp w n;
  creates_request = λ r.
      (c : ControlPlane) × (cfg : ControlPlaneConfig) × AtHand lib client mcp w c
      × ((client.get_config w).0 ≡ some cfg)
      × (r.name ≡ c.name)
      × (stable_mcp_namespace lib cp client c.name c.namespace ≡ some r.namespace)
      × Purposed cfg c r.purpose
      × (r.wait_for_cluster_deletion ≡ some true);
  updates_request = λ r. Unit;
  applies_access = λ r. Owned lib cp client mcp w r.namespace;
  deletes_access = λ a. a.deletion_timestamp ≡ none;
}
