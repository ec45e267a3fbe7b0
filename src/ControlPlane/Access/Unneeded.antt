-- ===== src/ControlPlane/Access/Unneeded.antt =====
-- AccessRequests and copied secrets that are not needed any more are deleted, where they are not in
-- deletion, and nothing else is written.
use openmcp_operator.Prelude.{
  String, none, List, [], ◌∷◌, ◌++◌, ◌≡◌, inl, inr, arith, is_some, insert, value_at,
}
use openmcp_operator.Flow.{Failure, Answer, found, not_found, failed, Answer-cases}
use openmcp_operator.Flow.Run.{Run-pure, Run-bind, Run-option, Run-if}
use openmcp_operator.Api.Requests.{AccessRequest}
use openmcp_operator.Api.ControlPlane.{
  ControlPlane, Secret, oidc_provider_label, token_provider_label,
}
use openmcp_operator.ControlPlane.State.{ControlPlaneLibrary, ControlPlaneClient, Step}
use openmcp_operator.ControlPlane.Keeps.{Allowed, Keeps}
use openmcp_operator.ControlPlane.Runs.{Kept, Any}
use openmcp_operator.ControlPlane.Access.Desired.{AccessRequests}
use openmcp_operator.ControlPlane.Access.Undesired.{
  matching_labels, request_provider, secret_provider, delete_access, delete_accesses, delete_secret,
  delete_secrets, need_list, settle, list_requests_failure, list_secrets_failure,
  list_owned_requests, list_owned_secrets, delete_undesired_requests, delete_undesired_secrets,
  drop_access,
}

-- What the deletion of the access may write.
pub record Deletes (allowed : Allowed) : Type 0 where
  pub access : (a : AccessRequest) → a.deletion_timestamp ≡ none → allowed.deletes_access a
  pub secret : (s : Secret) → s.deletion_timestamp ≡ none → allowed.deletes_secret s

module _ (cp : ControlPlaneLibrary) (client : ControlPlaneClient) {allowed : Allowed}
    {P : client.World → Type 0} (keeps : Keeps client allowed P) (M : ControlPlane → Type 0)
    (drop : (names : List String) (c : ControlPlane) → M c → M (drop_access names c))
    (deletes : Deletes allowed) where
  abbrev pub Keeping : {A : Type 0} → Step client A → (A → Type 0) → Type 0
  Keeping step Q = Kept client P M step Q (Any client P M)

  delete_access-Kept : (ar : AccessRequest) → Keeping (delete_access cp client ar) (λ e. Unit {0})
  unfolding delete_access
  delete_access-Kept ar =
      Run-if (is_some ar.deletion_timestamp) _ _ (λ e. record { at = λ s p. (p, tt) })
        λ e. record {
          at = λ s p.
              let q =
                keeps.delete_access_request ar s.0 (deletes.access ar (ground (arith, e))) p.0 in
              elim (Answer-cases (client.delete_access_request ar s.0).0) [
                | inl (u, a) ↦ rw a ((q, p.1), tt)
                | inr (inl a) ↦ rw a ((q, p.1), tt)
                | inr (inr (t, a)) ↦ rw a ((q, p.1), tt)
              ];
        }

  delete_accesses-Kept :
      (updated : AccessRequests) (ars : List AccessRequest) (names : List String)
      → (errs : List Failure)
      → Keeping (delete_accesses cp client updated ars names errs) (λ r. Unit {0})
  unfolding delete_accesses
  delete_accesses-Kept updated [] names errs = Run-pure (names, errs) tt
  delete_accesses-Kept updated (ar ∷ ars) names errs =
      Run-if (is_some (value_at (request_provider ar) updated)) _ _
        (λ e. delete_accesses-Kept updated ars names errs)
        λ e.
          Run-bind (delete_access cp client ar)
            (λ more.
              delete_accesses cp client updated ars (insert (request_provider ar) names)
                (errs ++ more))
            (delete_access-Kept ar)
            λ more u.
              delete_accesses-Kept updated ars (insert (request_provider ar) names) (errs ++ more)

  delete_secret-Kept :
      (provider : String) (s : Secret)
      → Keeping (delete_secret cp client provider s) (λ e. Unit {0})
  unfolding delete_secret
  delete_secret-Kept provider sec =
      Run-if (is_some sec.deletion_timestamp) _ _ (λ e. record { at = λ s p. (p, tt) })
        λ e. record {
          at = λ s p.
              let q = keeps.delete_secret sec s.0 (deletes.secret sec (ground (arith, e))) p.0 in
              elim (Answer-cases (client.delete_secret sec s.0).0) [
                | inl (u, a) ↦ rw a ((q, p.1), tt)
                | inr (inl a) ↦ rw a ((q, p.1), tt)
                | inr (inr (t, a)) ↦ rw a ((q, p.1), tt)
              ];
        }

  delete_secrets-Kept :
      (updated : AccessRequests) (ss : List Secret) (names : List String) (errs : List Failure)
      → Keeping (delete_secrets cp client updated ss names errs) (λ r. Unit {0})
  unfolding delete_secrets
  delete_secrets-Kept updated [] names errs = Run-pure (names, errs) tt
  delete_secrets-Kept updated (sec ∷ ss) names errs =
      Run-option (secret_provider sec) _ _ (λ e. delete_secrets-Kept updated ss names errs)
        λ provider e.
          Run-if (is_some (value_at provider updated)) _ _
            (λ g. delete_secrets-Kept updated ss names errs)
            λ g.
              Run-bind (delete_secret cp client provider sec)
                (λ more. delete_secrets cp client updated ss (insert provider names) (errs ++ more))
                (delete_secret-Kept provider sec)
                λ more u. delete_secrets-Kept updated ss (insert provider names) (errs ++ more)

  need_list-Kept :
      {A : Type 0} (ans : Answer (List A)) (e : List Failure)
      → Keeping (need_list cp client ans e) (λ xs. Unit {0})
  need_list-Kept (found xs) e = Run-pure xs tt
  need_list-Kept not_found e = record { at = λ s p. (p, tt) }
  need_list-Kept (failed t) e = record { at = λ s p. (p, tt) }

  settle-Kept :
      (names : List String) (errs : List Failure) (message : String)
      → Keeping (settle cp client names errs message) (λ ns. Unit {0})
  settle-Kept names [] message = Run-pure names tt
  settle-Kept names (e ∷ es) message = record { at = λ s p. (p, tt) }

  list_owned_requests-Kept :
      (ns label : String) → Keeping (list_owned_requests cp client ns label) (λ xs. Unit {0})
  unfolding list_owned_requests
  list_owned_requests-Kept ns label = record {
    at = λ s p.
        (need_list-Kept _ (list_requests_failure cp client)).at _
          (keeps.list_access_requests ns label (matching_labels s.1.mcp) s.0 p.0, p.1);
  }

  list_owned_secrets-Kept :
      (label : String) → Keeping (list_owned_secrets cp client label) (λ xs. Unit {0})
  unfolding list_owned_secrets
  list_owned_secrets-Kept label = record {
    at = λ s p.
        (need_list-Kept _ (list_secrets_failure cp client)).at _
          (keeps.list_secrets s.1.mcp.namespace label (matching_labels s.1.mcp) s.0 p.0, p.1);
  }

  pub undesired_requests-Kept :
      (ns : String) (updated : AccessRequests)
      → Keeping (delete_undesired_requests cp client ns updated) (λ names. Unit {0})
  unfolding delete_undesired_requests
  undesired_requests-Kept ns updated =
      Run-bind (list_owned_requests cp client ns oidc_provider_label) _
        (list_owned_requests-Kept ns oidc_provider_label)
        λ oidc_ars u.
          Run-bind (list_owned_requests cp client ns token_provider_label) _
            (list_owned_requests-Kept ns token_provider_label)
            λ token_ars v.
              Run-bind (delete_accesses cp client updated (oidc_ars ++ token_ars) [] []) _
                (delete_accesses-Kept updated (oidc_ars ++ token_ars) [] [])
                λ result z. settle-Kept result.0 result.1 _

  pub undesired_secrets-Kept :
      (updated : AccessRequests)
      → Keeping (delete_undesired_secrets cp client updated) (λ names. Unit {0})
  unfolding delete_undesired_secrets
  undesired_secrets-Kept updated =
      Run-bind (list_owned_secrets cp client oidc_provider_label) _
        (list_owned_secrets-Kept oidc_provider_label)
        λ oidc_secrets u.
          Run-bind (list_owned_secrets cp client token_provider_label) _
            (list_owned_secrets-Kept token_provider_label)
            λ token_secrets v.
              Run-bind (delete_secrets cp client updated (oidc_secrets ++ token_secrets) [] []) _
                (delete_secrets-Kept updated (oidc_secrets ++ token_secrets) [] [])
                λ result z.
                  Run-bind (settle cp client result.0 result.1 _) _
                    (settle-Kept result.0 result.1 _)
                    λ names x. record { at = λ s p. ((p.0, drop names s.1.mcp p.1), tt) }
