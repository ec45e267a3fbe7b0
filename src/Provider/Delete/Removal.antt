-- ===== src/Provider/Delete/Removal.antt =====
-- A provider is let go only behind its uninstallation.
use openmcp_operator.Prelude.{String, none, Bool, true, ◌≡◌, inl, inr, arith, Option-cases, subst}
use openmcp_operator.Flow.{Exec, Outcome, next, stop, panic, ◌>>◌, pure, Outcome-cases}
use openmcp_operator.Platform.{Library}
use openmcp_operator.Provider.Install.{
  Resource, deployment, provider_cluster_role_binding, provider_service_account, init_job,
  init_cluster_role_binding, init_service_account, Provider, ProviderClient, removed,
  uninstall_rest, uninstall_provider,
}
use openmcp_operator.Provider.Delete.{
  openmcp_finalizer, remove_finalizer, finish_deletion, handle_delete_operation,
}

module _ (lib : Library) (client : ProviderClient) where
  -- What holds once a resource was removed, for each resource that the installer removes.
  abbrev pub Uninstalled : (Resource → client.World → Type 0) → client.World → Type 0
  Uninstalled Gone w =
      Gone (deployment none) w
      × Gone provider_cluster_role_binding w
      × Gone provider_service_account w
      × Gone (init_job 0) w
      × Gone init_cluster_role_binding w
      × Gone init_service_account w

  -- A successful removal of a resource brings about that it is gone, which removals and updates of
  -- the provider keep. A property of the world that removals keep, and an update of the provider
  -- where everything is uninstalled.
  pub record KeepsUninstall (Gone : Resource → client.World → Type 0) (P : client.World → Type 0)
      : Type 0 where
    pub gone :
        (r : Resource) (w : client.World)
        → (client.remove r w).0 ≡ none
        → Gone r (client.remove r w).1
    pub gone_remove : (r s : Resource) (w : client.World) → Gone r w → Gone r (client.remove s w).1
    pub gone_update :
        (r : Resource) (p : Provider) (w : client.World)
        → Gone r w
        → Gone r (client.update_provider p w).1
    pub remove : (r : Resource) (w : client.World) → P w → P (client.remove r w).1
    pub update :
        (p : Provider) (w : client.World)
        → Uninstalled Gone w
        → P w
        → P (client.update_provider p w).1

  module _ {Gone : Resource → client.World → Type 0} {P : client.World → Type 0}
      (keeps : KeepsUninstall Gone P) where
    abbrev Kept : (client.World → Type 0) → Type 0
    Kept Q = (s : Resource) (w : client.World) → Q w → Q (client.remove s w).1

    abbrev WithGone : Resource → (client.World → Type 0) → client.World → Type 0
    WithGone r Q w = Gone r w × Q w

    with_gone : (r : Resource) (Q : client.World → Type 0) → Kept Q → Kept (WithGone r Q)
    with_gone r Q kept s w (g, q) = (keeps.gone_remove r s w g, kept s w q)

    -- Everything is gone at the end, and `P` holds there and at an error.
    abbrev End : Outcome String Bool → client.World → Type 0
    End (next b) w = Uninstalled Gone w × P w
    End (stop e) w = P w
    End panic w = P w

    -- One removal, behind which its resource is gone.
    removed_then :
        (Q : client.World → Type 0) (r : Resource) (m : Exec client.World String Bool)
        → Kept Q
        → ((w : client.World) → Q w → P w)
        → ((v : client.World) → WithGone r Q v → End (m v).0 (m v).1)
        → (w : client.World) → Q w
        → End ((removed lib client r >> m) w).0 ((removed lib client r >> m) w).1
    removed_then Q r m kept weaker k w q =
        let q' = kept r w q in
        let there = keeps.gone r w in
        elim (Option-cases (client.remove r w).0) [
          | inl e ↦ rw e (k (client.remove r w).1 (there e, q'))
          | inr (t, e) ↦ rw e (weaker (client.remove r w).1 q')
        ]

    uninstall_ends :
        (w : client.World)
        → P w
        → End (uninstall_provider lib client w).0 (uninstall_provider lib client w).1
    unfolding uninstall_provider uninstall_rest
    uninstall_ends =
        let k0 : Kept P = keeps.remove in
        let k1 = with_gone (deployment none) P k0 in
        let k2 = with_gone provider_cluster_role_binding _ k1 in
        let k3 = with_gone provider_service_account _ k2 in
        let k4 = with_gone (init_job 0) _ k3 in
        let k5 = with_gone init_cluster_role_binding _ k4 in
        removed_then P (deployment none) (uninstall_rest lib client) k0 (λ w q. q)
          (removed_then _ provider_cluster_role_binding _ k1 (λ w q. q.1)
            (removed_then _ provider_service_account _ k2 (λ w q. q.1.1)
              (removed_then _ (init_job 0) _ k3 (λ w q. q.1.1.1)
                (removed_then _ init_cluster_role_binding _ k4 (λ w q. q.1.1.1.1)
                  (removed_then _ init_service_account (pure true) k5 (λ w q. q.1.1.1.1.1)
                    λ v (i, (h, (g, (f, (e, (d, q)))))). ((d, e, f, g, h, i), q))))))

    update-Uninstalled :
        (p : Provider) (w : client.World)
        → Uninstalled Gone w
        → Uninstalled Gone (client.update_provider p w).1
    update-Uninstalled p w (a, b, c, d, e, f) = (
      keeps.gone_update (deployment none) p w a,
      keeps.gone_update provider_cluster_role_binding p w b,
      keeps.gone_update provider_service_account p w c,
      keeps.gone_update (init_job 0) p w d,
      keeps.gone_update init_cluster_role_binding p w e,
      keeps.gone_update init_service_account p w f,
    )

    -- Take for each resource that is removed what a successful removal of it brings about, kept by
    -- removals and updates, and a property of the world that removals keep, and an update of the
    -- provider where all of these hold. The deletion of a provider keeps the property whatever the
    -- server answers, so that it removes the finalizer only behind the uninstallation, and if it
    -- reports the provider as deleted, all of the resources are gone at its end.
    pub deleted_behind_removal :
        (provider : Provider) (w : client.World)
        → P w
        → P (handle_delete_operation lib client provider w).1
          × ((handle_delete_operation lib client provider w).0.deleted ≡ true
              → Uninstalled Gone (handle_delete_operation lib client provider w).1)
    unfolding handle_delete_operation finish_deletion remove_finalizer
    deleted_behind_removal provider w p =
        let ran = uninstall_provider lib client w in
        let fins = (lib.remove_finalizer provider.finalizers openmcp_finalizer).0 in
        let new : Provider = record provider { finalizers = fins } in
        let ends = uninstall_ends w p in
        elim (Outcome-cases ran.0) [
          | inl (b, e) ↦
              let (there, q) : Uninstalled Gone ran.1 × P ran.1 = subst (λ o. End o ran.1) e ends in
              let q' = keeps.update new ran.1 there q in
              let there' = update-Uninstalled new ran.1 there in
              (ground (arith, e, q, q'), λ h. ground (arith, e, h, there, there'))
          | inr (inl (m, e)) ↦
              let q : P ran.1 = subst (λ o. End o ran.1) e ends in
              (ground (arith, e, q), λ h. absurd (ground (arith, e, h)))
          | inr (inr e) ↦
              let q : P ran.1 = subst (λ o. End o ran.1) e ends in
              (ground (arith, e, q), λ h. absurd (ground (arith, e, h)))
        ]
