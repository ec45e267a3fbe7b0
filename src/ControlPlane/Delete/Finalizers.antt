-- ===== src/ControlPlane/Delete/Finalizers.antt =====
-- The third stage of `handleDelete` behind the ClusterRequests: what it shows and patches.
use openmcp_operator.Prelude.{
  String, Option, none, some, List, [], ◌∷◌, not, ◌&&◌, ◌≡◌, inl, inr, arith, eq_iff, Bool-cases,
  contains, cut_prefix, select, eqb, length,
}
use openmcp_operator.Flow.{Answer-cases}
use openmcp_operator.Flow.Run.{Run-bind, Run-pure}
use openmcp_operator.Api.Conditions.{Condition}
use openmcp_operator.Api.Cluster.{Cluster}
use openmcp_operator.Api.ControlPlane.{ControlPlane, cluster_request_finalizer_prefix}
use openmcp_operator.Config.ControlPlane.{ControlPlaneConfig}
use openmcp_operator.Platform.{Library}
use openmcp_operator.ControlPlane.State.{ControlPlaneLibrary, ControlPlaneClient, with_finalizers}
use openmcp_operator.ControlPlane.Keeps.{Allowed, Keeps}
use openmcp_operator.ControlPlane.Runs.{Kept, Any}
use openmcp_operator.ControlPlane.Shared.{sync_conditions}
use openmcp_operator.ControlPlane.Delete.{is_released, show_primary, remove_request_finalizers}

-- Nothing is said of the ControlPlane at hand.
abbrev pub Whatever : ControlPlane → Type 0
Whatever c = Unit

-- The finalizers that do not stand for ClusterRequests stay.
abbrev pub KeepsOthers : ControlPlane → ControlPlane → Type 0
KeepsOthers c d =
    (f : String)
    → cut_prefix f cluster_request_finalizer_prefix ≡ none
    → contains d.finalizers f ≡ contains c.finalizers f

-- Of the finalizers exactly those are left that are not released.
pub contains-released :
    (remaining fins : List String) (f : String)
    → contains (select (λ g. not (is_released remaining g)) fins) f
      ≡ (not (is_released remaining f) && contains fins f)
unfolding contains select
contains-released remaining [] f = ground arith
contains-released remaining (g ∷ fins) f =
    ground (arith, contains-released remaining fins f, eq_iff g f)

released-KeepsOthers :
    (remaining : List String) (c : ControlPlane)
    → KeepsOthers c (with_finalizers (select (λ f. not (is_released remaining f)) c.finalizers) c)
unfolding is_released
released-KeepsOthers remaining c f h = ground (arith, contains-released remaining c.finalizers f, h)

module _ (lib : Library) (cp : ControlPlaneLibrary) (client : ControlPlaneClient)
    {allowed : Allowed} {P : client.World → Type 0} (keeps : Keeps client allowed P)
    (patches : (c d : ControlPlane) → KeepsOthers c d → allowed.patches c d) where
  conditions-Kept :
      (cons : List Condition)
      → Kept client P Whatever
          (sync_conditions lib cp client cons)
          (Any client P Whatever)
          (Any client P Whatever)
  unfolding sync_conditions
  conditions-Kept [] = Run-pure tt tt
  conditions-Kept (con ∷ cons) = record { at = λ s p. (conditions-Kept cons).at _ p }

  pub show_primary-Kept :
      (cfg : ControlPlaneConfig) (c : Option Cluster)
      → Kept client P Whatever
          (show_primary lib cp client cfg c)
          (Any client P Whatever)
          (Any client P Whatever)
  unfolding show_primary
  show_primary-Kept cfg none = record { at = λ s p. (p, tt) }
  show_primary-Kept cfg (some c) =
      Run-bind (sync_conditions lib cp client c.status.conditions) _
        (conditions-Kept c.status.conditions) λ u v. record { at = λ s p. (p, tt) }

  pub remove_request_finalizers-Kept :
      (remaining : List String)
      → Kept client P Whatever
          (remove_request_finalizers lib cp client remaining)
          (Any client P Whatever)
          (Any client P Whatever)
  unfolding remove_request_finalizers
  remove_request_finalizers-Kept remaining = record {
    at = λ s p.
        let old = s.1.mcp in
        let new =
          with_finalizers (select (λ f. not (is_released remaining f)) old.finalizers) old in
        let q =
          keeps.patch_control_plane old new s.0
            (patches old new (released-KeepsOthers remaining old)) p.0 in
        elim (Bool-cases (eqb (length (select (is_released remaining) old.finalizers)) 0)) [
          | inl e ↦ ground (arith, e, p)
          | inr e ↦ elim (Answer-cases (client.patch_control_plane old new s.0).0) [
            | inl (d, a) ↦ ground (arith, e, a, q)
            | inr (inl a) ↦ ground (arith, e, a, q)
            | inr (inr (t, a)) ↦ ground (arith, e, a, q)
          ]
        ];
  }
