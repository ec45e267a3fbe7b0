-- ===== src/ControlPlane/Create/Access.antt =====
-- What the management of the access of a ControlPlane writes.
use openmcp_operator.Prelude.{
  String, Option, none, some, List, [], ◌∷◌, Bool, true, false, ◌<>◌, inl, inr, arith, set_at,
  if◌then◌else◌, Option-cases,
}
use openmcp_operator.Flow.{Failure, Answer, found, not_found, failed, crash}
use openmcp_operator.Flow.Run.{Run-pure, Run-bind, Run-option, Run-crash}
use openmcp_operator.Api.Iam.{OidcProviderConfig}
use openmcp_operator.Api.Requests.{ClusterRequest, AccessRequest}
use openmcp_operator.Api.ControlPlane.{
  ControlPlane, ControlPlaneToken, Secret, oidc_name_prefix, token_name_prefix,
}
use openmcp_operator.Platform.{Library}
use openmcp_operator.ControlPlane.State.{ControlPlaneLibrary, ControlPlaneClient, Step}
use openmcp_operator.ControlPlane.Keeps.{Allowed, Keeps}
use openmcp_operator.ControlPlane.Runs.{Kept, Any}
use openmcp_operator.ControlPlane.Access.Desired.{
  AccessRequests, fail_apply, applied, apply_oidc, apply_oidcs, apply_token, apply_tokens,
  desired_oidc, desired_tokens, create_or_update_desired,
}
use openmcp_operator.ControlPlane.Access.Undesired.{
  delete_undesired_requests, delete_undesired_secrets,
}
use openmcp_operator.ControlPlane.Access.Sync.{
  granted_secret, fail_sync, secret_or_fail, write_copy, copy_secret, sync_secret, sync_secrets,
  sync_access_secrets,
}
use openmcp_operator.ControlPlane.Access.Manage.{report_access, manage_access_requests}
use openmcp_operator.ControlPlane.Access.Unneeded.{
  Deletes, undesired_requests-Kept, undesired_secrets-Kept,
}
use openmcp_operator.ControlPlane.Delete.Finalizers.{Whatever}

module _ (lib : Library) (cp : ControlPlaneLibrary) (client : ControlPlaneClient)
    {allowed : Allowed} {P : client.World → Type 0} (keeps : Keeps client allowed P) (ns : String)
    (applies : (name : String) → allowed.applies_access (record { name = name; namespace = ns }))
    (copies : allowed.applies_secret) (deletes : Deletes allowed) where
  abbrev Free : {A : Type 0} → Step client A → Type 0
  Free step = Kept client P Whatever step (Any client P Whatever) (Any client P Whatever)

  fail_apply-Free :
      {A : Type 0} (provider message : String)
      → Free (fail_apply lib cp client {A = A} provider message)
  unfolding fail_apply
  fail_apply-Free provider message = record { at = λ s p. (p, tt) }

  applied-Free :
      (provider message : String) (ans : Answer AccessRequest)
      → Free (applied lib cp client provider message ans)
  unfolding applied
  applied-Free provider message (found ar) = Run-pure ar tt
  applied-Free provider message not_found = fail_apply-Free provider message
  applied-Free provider message (failed e) = fail_apply-Free provider message

  apply_oidc-Free :
      (mcp : ControlPlane) (cr : Option ClusterRequest) (oidc : OidcProviderConfig)
      → Free (apply_oidc lib cp client mcp ns cr oidc)
  unfolding apply_oidc
  apply_oidc-Free mcp none oidc = Run-crash
  apply_oidc-Free mcp (some cr) oidc = record {
    at = λ s p. (applied-Free _ _ _).at _ (keeps.apply_access_request _ _ s.0 (applies _) p.0, tt);
  }

  apply_token-Free :
      (mcp : ControlPlane) (cr : Option ClusterRequest) (token : ControlPlaneToken)
      → Free (apply_token lib cp client mcp ns cr token)
  unfolding apply_token
  apply_token-Free mcp none token = Run-crash
  apply_token-Free mcp (some cr) token = record {
    at = λ s p. (applied-Free _ _ _).at _ (keeps.apply_access_request _ _ s.0 (applies _) p.0, tt);
  }

  apply_oidcs-Free :
      (mcp : ControlPlane) (cr : Option ClusterRequest) (updated : AccessRequests)
      → (oidcs : List OidcProviderConfig) → Free (apply_oidcs lib cp client mcp ns cr updated oidcs)
  unfolding apply_oidcs
  apply_oidcs-Free mcp cr updated [] = Run-pure updated tt
  apply_oidcs-Free mcp cr updated (oidc ∷ oidcs) =
      Run-bind (apply_oidc lib cp client mcp ns cr oidc) _ (apply_oidc-Free mcp cr oidc)
        λ ar u. apply_oidcs-Free mcp cr (set_at (oidc_name_prefix <> oidc.name) ar updated) oidcs

  apply_tokens-Free :
      (mcp : ControlPlane) (cr : Option ClusterRequest) (updated : AccessRequests)
      → (tokens : List ControlPlaneToken)
      → Free (apply_tokens lib cp client mcp ns cr updated tokens)
  unfolding apply_tokens
  apply_tokens-Free mcp cr updated [] = Run-pure updated tt
  apply_tokens-Free mcp cr updated (token ∷ tokens) =
      Run-bind (apply_token lib cp client mcp ns cr token) _ (apply_token-Free mcp cr token) λ ar u.
        apply_tokens-Free mcp cr (set_at (token_name_prefix <> token.name) ar updated) tokens

  desired-Free : (cr : Option ClusterRequest) → Free (create_or_update_desired lib cp client ns cr)
  unfolding create_or_update_desired
  desired-Free cr = record {
    at = λ s p. elim (Option-cases (client.get_config s.0).0) [
      | inl e ↦ rw e ((keeps.get_config s.0 p.0, tt), tt)
      | inr (cfg, e) ↦ rw e (
          (Run-bind (apply_oidcs lib cp client s.1.mcp ns cr [] (desired_oidc cfg s.1.mcp))
              (λ updated. apply_tokens lib cp client s.1.mcp ns cr updated (desired_tokens s.1.mcp))
              (apply_oidcs-Free s.1.mcp cr [] (desired_oidc cfg s.1.mcp))
              λ updated u. apply_tokens-Free s.1.mcp cr updated (desired_tokens s.1.mcp)).at
            ((client.get_config s.0).1, s.1) (keeps.get_config s.0 p.0, tt))
    ];
  }

  secret_or_fail-Free :
      (provider message : String) (e : List Failure) (ans : Answer Secret)
      → Free (secret_or_fail lib cp client provider message e ans)
  unfolding secret_or_fail fail_sync
  secret_or_fail-Free provider message e (found s) = Run-pure s tt
  secret_or_fail-Free provider message e not_found = record { at = λ s p. (p, tt) }
  secret_or_fail-Free provider message e (failed m) = record { at = λ s p. (p, tt) }

  write_copy-Free :
      (provider : String) (ar : AccessRequest) (source : Secret) (name : String)
      → Free (write_copy lib cp client provider ar source name)
  unfolding write_copy
  write_copy-Free provider ar source name = record {
    at = λ s p.
        (Run-bind (secret_or_fail lib cp client provider _ _ _) _
            (secret_or_fail-Free provider _ _ _) λ copy u. record { at = λ t q. (q, tt) }).at
          _ (keeps.apply_secret _ _ s.0 copies p.0, tt);
  }

  named_copy-Free :
      (provider : String) (ar : AccessRequest) (source : Secret) (name : Option String)
      → Free (elim name as (λ n. Step client (Unit {0})) [
        | none ↦ crash
        | some n ↦ write_copy lib cp client provider ar source n
      ])
  named_copy-Free provider ar source none = Run-crash
  named_copy-Free provider ar source (some name) = write_copy-Free provider ar source name

  copy_secret-Free :
      (provider : String) (ar : AccessRequest) (secret : String)
      → Free (copy_secret lib cp client provider ar secret)
  unfolding copy_secret
  copy_secret-Free provider ar secret = record {
    at = λ s p.
        (Run-bind (secret_or_fail lib cp client provider _ _ _) _
            (secret_or_fail-Free provider _ _ _)
            λ source u. record { at = λ t q. (named_copy-Free provider ar source _).at t q }).at
          _ (keeps.get_secret _ s.0 p.0, tt);
  }

  sync_secret-Free :
      (provider : String) (ar : AccessRequest) → Free (sync_secret lib cp client provider ar)
  unfolding sync_secret
  sync_secret-Free provider ar =
      Run-option (granted_secret ar) _ _ (λ e. record { at = λ s p. (p, tt) })
        λ secret e.
          Run-bind (copy_secret lib cp client provider ar secret) _
            (copy_secret-Free provider ar secret) λ u v. Run-pure true tt

  sync_secrets-Free :
      (ready : Bool) (ars : AccessRequests) → Free (sync_secrets lib cp client ready ars)
  unfolding sync_secrets
  sync_secrets-Free ready [] = Run-pure ready tt
  sync_secrets-Free ready ((provider, ar) ∷ ars) =
      Run-bind (sync_secret lib cp client provider ar) _ (sync_secret-Free provider ar)
        λ one u. sync_secrets-Free (if one then ready else false) ars

  sync-Free : (updated : AccessRequests) → Free (sync_access_secrets lib cp client updated)
  unfolding sync_access_secrets
  sync-Free updated = record {
    at = λ s p.
        (sync_secrets-Free true _).at _
          (keeps.range_order (String × AccessRequest) updated s.0 p.0, tt);
  }

  report-Free :
      (updated : AccessRequests) (requests secrets : List String) (ready : Bool)
      → Free (report_access lib cp client updated requests secrets ready)
  unfolding report_access
  report-Free updated requests secrets ready = record { at = λ s p. ground (arith, p) }

  -- AccessRequests are applied in the namespace, secrets copied, and both deleted where they are not
  -- needed any more and not in deletion.
  pub manage-Free : (cr : Option ClusterRequest) → Free (manage_access_requests lib cp client ns cr)
  unfolding manage_access_requests
  manage-Free cr =
      Run-bind (create_or_update_desired lib cp client ns cr) _ (desired-Free cr) λ updated a.
        Run-bind (delete_undesired_requests cp client ns updated) _
          (undesired_requests-Kept cp client keeps Whatever (λ names c h. tt) deletes ns updated)
          λ requests b.
            Run-bind (sync_access_secrets lib cp client updated) _ (sync-Free updated) λ ready c.
              Run-bind (delete_undesired_secrets cp client updated) _
                (undesired_secrets-Kept cp client keeps Whatever (λ names c h. tt) deletes updated)
                λ secrets d. report-Free updated requests secrets ready
