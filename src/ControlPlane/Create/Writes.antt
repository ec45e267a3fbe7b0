-- ===== src/ControlPlane/Create/Writes.antt =====
-- What `handleCreateOrUpdate` writes.
use openmcp_operator.Prelude.{
  String, none, some, List, Bool, ◌≡◌, refl, inl, inr, Option-cases, if◌then◌else◌,
}
use openmcp_operator.Flow.{Answer-cases, ◌>>=◌, ◌>>◌}
use openmcp_operator.Flow.Run.{After, After-into, into_bind, Run-option, Run-pure, Run-bind, Run-if}
use openmcp_operator.Api.Cluster.{Cluster}
use openmcp_operator.Api.Requests.{ClusterRequest, is_granted}
use openmcp_operator.Api.ControlPlane.{ControlPlane}
use openmcp_operator.Config.ControlPlane.{ControlPlaneConfig}
use openmcp_operator.Platform.{Library, LibraryLaws}
use openmcp_operator.ControlPlane.State.{
  ControlPlaneResult, ControlPlaneLibrary, ControlPlaneClient, Draft, Action, modify, draft,
  attempt, return_rr, Attempt, done, erred, sr_no_requeue, sr_backoff,
}
use openmcp_operator.ControlPlane.Keeps.{Keeps}
use openmcp_operator.ControlPlane.Runs.{
  Both, Kept, Any, Kept-fail_con, Kept-wait_con, Kept-attempt, Kept-return_rr,
}
use openmcp_operator.ControlPlane.Access.Manage.{manage_access_requests}
use openmcp_operator.ControlPlane.Shared.{
  initial_draft, stable_mcp_namespace, config_or_fail, namespace_or_fail, sync_conditions,
}
use openmcp_operator.ControlPlane.Delete.Stages.{sync_conditions-Kept}
use openmcp_operator.ControlPlane.Delete.Finalizers.{Whatever}
use openmcp_operator.ControlPlane.Create.{
  ensure_finalizers, ensure_platform_namespace, ensure_request, granted_cluster, show_cluster,
  manage_access, create_behind_request, create_behind_finalizers, create_with,
  handle_create_or_update,
}
use openmcp_operator.ControlPlane.Create.Access.{manage-Free}
use openmcp_operator.ControlPlane.Create.Allowed.{AtHand, Owned, may_create}
use openmcp_operator.ControlPlane.Create.Request.{
  finalizers-Hand, platform_namespace-Same, ensure_request-Same,
}

module _ (lib : Library) (laws : LibraryLaws lib) (cp : ControlPlaneLibrary)
    (client : ControlPlaneClient) (given : ControlPlane) (start : client.World)
    {P : client.World → Type 0}
    (keeps : Keeps client (may_create lib cp client given start) P) where
  -- What is known of the ControlPlane at hand.
  abbrev Hand : ControlPlane → Type 0
  Hand = AtHand lib client given start

  abbrev Free : {A : Type 0} → Action client A → Type 0
  Free m = Kept client P Whatever m (Any client P Whatever) (Any client P Whatever)

  -- The ControlPlane at hand is this one.
  abbrev Is : ControlPlane → ControlPlane → Type 0
  Is mcp c = c ≡ mcp

  abbrev Same : ControlPlane → {A : Type 0} → Action client A → Type 0
  Same mcp m = Kept client P (Is mcp) m (Any client P (Is mcp)) (Any client P (Is mcp))

  granted_cluster-Free : (cr : ClusterRequest) → Free (granted_cluster lib cp client cr)
  unfolding granted_cluster
  granted_cluster-Free cr =
      Run-if (is_granted cr.status) _ _
        (λ b. record {
          at = λ s p. elim (Option-cases cr.status.cluster) [
            | inl e ↦ rw e (p, tt)
            | inr (ref, e) ↦
                let q = keeps.get_cluster ref s.0 p.0 in
                rw e (elim (Answer-cases (client.get_cluster ref s.0).0) [
                  | inl (c, a) ↦ rw a ((q, tt), tt)
                  | inr (inl a) ↦ rw a ((q, tt), tt)
                  | inr (inr (t, a)) ↦ rw a ((q, tt), tt)
                ])
          ];
        })
        λ b. Kept-wait_con client P Whatever _ _ _

  show_cluster-Free :
      (cfg : ControlPlaneConfig) (c : Cluster) → Free (show_cluster lib cp client cfg c)
  unfolding show_cluster
  show_cluster-Free cfg c =
      Run-bind (sync_conditions lib cp client c.status.conditions) _
        (sync_conditions-Kept lib cp client keeps Whatever c.status.conditions)
        λ u v. record { at = λ s p. (p, tt) }

  manage_access-Free :
      (ns : String) (cr : ClusterRequest)
      → Owned lib cp client given start ns
      → Free (manage_access lib cp client ns cr)
  unfolding manage_access
  manage_access-Free ns cr owned =
      Run-bind (attempt client (manage_access_requests lib cp client ns (some cr))) _
        (Kept-attempt client P Whatever (manage_access_requests lib cp client ns (some cr)) (
          manage-Free lib cp client keeps ns (λ name. owned) tt
            (record { access = λ a h. h; secret = λ s h. h }) (some cr)))
        λ tried h. managed tried
    where
      managed :
          (tried : Attempt (Bool × List String))
          → Free (elim tried as (λ t. Action client ControlPlaneResult) [
            | erred e ↦ return_rr client (some e)
            | done result ↦ (do
              modify client (λ d. record d {
                conditions_to_remove = result.1;
                smart_requeue = if result.0 then sr_no_requeue else sr_backoff;
              })
              return_rr client none)
          ])
      managed (erred e) = Kept-return_rr client P Whatever (some e)
      managed (done result) = record { at = λ s p. (p, tt) }

  behind_request-Free :
      (cfg : ControlPlaneConfig) (ns : String) (cr : ClusterRequest)
      → Owned lib cp client given start ns
      → Free (create_behind_request lib cp client cfg ns cr)
  unfolding create_behind_request
  behind_request-Free cfg ns cr owned =
      Run-bind (granted_cluster lib cp client cr) _ (granted_cluster-Free cr) λ c u.
        Run-bind (show_cluster lib cp client cfg c) _ (show_cluster-Free cfg c)
          λ v x. manage_access-Free ns cr owned

  namespace-Same :
      (mcp c : ControlPlane)
      → Kept client P
          (Is mcp)
          (namespace_or_fail lib cp client c)
          (λ ns. stable_mcp_namespace lib cp client c.name c.namespace ≡ some ns)
          (Any client P (Is mcp))
  unfolding namespace_or_fail
  namespace-Same mcp c =
      Run-option (stable_mcp_namespace lib cp client c.name c.namespace) _ _
        (λ e. Kept-fail_con client P (Is mcp) cp _ _) λ ns e. Run-pure ns e

  -- An action that changes nothing of the ControlPlane at hand, and one that may.
  Same-then :
      (mcp : ControlPlane) {A B : Type 0} {Q : A → Type 0} (m : Action client A)
      (f : A → Action client B)
      → Kept client P (Is mcp) m Q (Any client P (Is mcp))
      → ((a : A)
          → Q a
          → (v : client.World × Draft) → Both client P (Is mcp) v
          → After
              (Both client P Whatever)
              (Any client P Whatever)
              (Any client P Whatever)
              (f a v).0
              (f a v).1)
      → (v : client.World × Draft) → Both client P (Is mcp) v
      → After
          (Both client P Whatever)
          (Any client P Whatever)
          (Any client P Whatever)
          ((m >>= f) v).0
          ((m >>= f) v).1
  Same-then mcp m f =
      into_bind (Both client P (Is mcp)) (Both client P Whatever) (λ t q. (q.0, tt))
        (Any client P Whatever) (Any client P Whatever) m f

  -- The actions behind the finalizers, for the ControlPlane at hand.
  behind_finalizers-Free :
      (cfg : ControlPlaneConfig) (mcp : ControlPlane) (v : client.World × Draft)
      → Hand mcp
      → (client.get_config start).0 ≡ some cfg
      → Both client P (Is mcp) v
      → After
          (Both client P Whatever)
          (Any client P Whatever)
          (Any client P Whatever)
          (create_behind_finalizers lib cp client cfg mcp v).0
          (create_behind_finalizers lib cp client cfg mcp v).1
  unfolding create_behind_finalizers
  behind_finalizers-Free cfg mcp v hand read p =
      Same-then mcp (namespace_or_fail lib cp client mcp) _ (namespace-Same mcp mcp)
        (λ ns e.
          Same-then mcp (ensure_platform_namespace lib cp client ns) _
            (platform_namespace-Same lib laws cp client given start keeps mcp ns (mcp, hand, e))
            λ u a.
              Same-then mcp (ensure_request lib cp client cfg ns)
                (create_behind_request lib cp client cfg ns)
                (ensure_request-Same lib laws cp client given start keeps mcp cfg ns hand read e)
                λ cr b t q. (behind_request-Free cfg ns cr (mcp, hand, e)).at t (q.0, tt))
        v p

  create_with-Free :
      (cfg : ControlPlaneConfig) (d : Draft)
      → (client.get_config start).0 ≡ some cfg
      → P (client.get_config start).1
      → After
          (Both client P Whatever)
          (Any client P Whatever)
          (Any client P Whatever)
          (create_with lib cp client cfg given ((client.get_config start).1, d)).0
          (create_with lib cp client cfg given ((client.get_config start).1, d)).1
  unfolding create_with
  create_with-Free cfg d read p =
      let first : client.World × Draft =
        ((client.get_config start).1, initial_draft cp cfg given) in
      After-into (Both client P Hand) (Both client P Whatever) (λ t q. (q.0, tt))
        (Any client P Whatever) (Any client P Whatever)
        (λ u. draft client >>= λ e. create_behind_finalizers lib cp client cfg e.mcp)
        (ensure_finalizers lib cp client first).0 (ensure_finalizers lib cp client first).1
        (finalizers-Hand lib laws cp client given start keeps cfg p)
        λ u h t q. behind_finalizers-Free cfg t.1.mcp t q.1 read (q.0, refl)

  -- Take a property of the world that reads keep and the writes that `may_create` allows for the
  -- ControlPlane and the world that `handleCreateOrUpdate` is called with. Then the handler keeps it on
  -- every path: its patch is of this ControlPlane and adds finalizers, it deletes no namespace,
  -- ClusterRequest or service resource, the namespaces it ensures and the AccessRequests it applies are
  -- those of the ControlPlane at hand, which is the given one or the server's answer to the patch, and
  -- a ClusterRequest that it creates has the name of the ControlPlane at hand, its namespace, the
  -- purpose that its label names or else that of the configuration read, and waits for the deletion of
  -- its cluster.
  pub handle_create_or_update_writes :
      (d : Draft)
      → P start
      → After
          (Both client P Whatever)
          (Any client P Whatever)
          (Any client P Whatever)
          (handle_create_or_update lib cp client given (start, d)).0
          (handle_create_or_update lib cp client given (start, d)).1
  unfolding handle_create_or_update config_or_fail
  handle_create_or_update_writes d p =
      let kept = keeps.get_config start p in
      elim (Option-cases (client.get_config start).0) [
        | inl e ↦ rw e ((kept, tt), tt)
        | inr (cfg, e) ↦ rw e (create_with-Free cfg d e kept)
      ]
