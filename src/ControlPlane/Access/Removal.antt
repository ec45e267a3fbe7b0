-- ===== src/ControlPlane/Access/Removal.antt =====
-- `manageAccessRequests` of a ControlPlane in deletion.
use openmcp_operator.Prelude.{String, none, List, [], Bool, ◌≡◌, refl, sym, subst, arith}
use mathlib.Core.List.{Permᴰ}
use openmcp_operator.Flow.Run.{Run-bind}
use openmcp_operator.Api.Meta.{ObjectMeta}
use openmcp_operator.Api.Requests.{AccessRequest}
use openmcp_operator.Platform.{Library}
use openmcp_operator.ControlPlane.State.{ControlPlaneLibrary, ControlPlaneClient}
use openmcp_operator.ControlPlane.Keeps.{Allowed, Keeps, RangeLaw}
use openmcp_operator.ControlPlane.Access.Desired.{AccessRequests, create_or_update_desired}
use openmcp_operator.ControlPlane.Access.Undesired.{
  delete_undesired_requests, delete_undesired_secrets,
}
use openmcp_operator.ControlPlane.Access.Sync.{sync_access_secrets, sync_secrets}
use openmcp_operator.ControlPlane.Access.Manage.{report_access, manage_access_requests}
use openmcp_operator.ControlPlane.Access.Deletion.{
  InDeletion, Deleting, nothing_applied, drop_access-InDeletion,
}
use openmcp_operator.ControlPlane.Access.Unneeded.{
  Deletes, undesired_requests-Kept, undesired_secrets-Kept,
}

-- Nothing is visited in a range over an empty map.
nil-Perm : {A : Type 0} (xs ys : List A) → Permᴰ xs ys → xs ≡ [] → ys ≡ []
nil-Perm _ _ Permᴰ.nil h = refl
nil-Perm _ _ (Permᴰ.cons e p) h = absurd (ground arith)
nil-Perm _ _ (Permᴰ.swap e f) h = absurd (ground arith)
nil-Perm _ _ (Permᴰ.trans p q) h = nil-Perm _ _ q (nil-Perm _ _ p h)

module _ (lib : Library) (cp : ControlPlaneLibrary) (client : ControlPlaneClient)
    {allowed : Allowed} {P : client.World → Type 0} (keeps : Keeps client allowed P)
    (m : ObjectMeta) (deletes : Deletes allowed) (law : RangeLaw client) where
  nothing_synced :
      Deleting lib cp client keeps m (sync_access_secrets lib cp client []) (λ ready. Unit {0})
  unfolding sync_access_secrets sync_secrets
  nothing_synced = record {
    at = λ s p.
        rw
          (nil-Perm [] (client.range_order {A = String × AccessRequest} [] s.0).0
            (law (String × AccessRequest) [] s.0) refl)
          ((keeps.range_order (String × AccessRequest) [] s.0 p.0, p.1), tt);
  }

  report_access-Kept :
      (updated : AccessRequests) (requests secrets : List String) (ready : Bool)
      → Deleting lib cp client keeps m
          (report_access lib cp client updated requests secrets ready)
          (λ r. Unit {0})
  unfolding report_access
  report_access-Kept updated requests secrets ready = record { at = λ s p. ground (arith, p) }

  -- The access of a ControlPlane in deletion keeps its metadata, and deletes at most AccessRequests and
  -- secrets that are not in deletion.
  pub manage-Kept :
      (ns : String)
      → Deleting lib cp client keeps m
          (manage_access_requests lib cp client ns none)
          (λ r. Unit {0})
  unfolding manage_access_requests
  manage-Kept ns =
      Run-bind (create_or_update_desired lib cp client ns none) _
        (nothing_applied lib cp client keeps m ns)
        λ updated none_updated.
          Run-bind (delete_undesired_requests cp client ns updated) _
            (undesired_requests-Kept cp client keeps (InDeletion m) (drop_access-InDeletion m)
              deletes ns updated)
            λ requests u.
              Run-bind (sync_access_secrets lib cp client updated) _
                (subst
                  (λ ars.
                    Deleting lib cp client keeps m (sync_access_secrets lib cp client ars)
                      (λ r. Unit {0}))
                  (sym none_updated) nothing_synced)
                λ ready v.
                  Run-bind (delete_undesired_secrets cp client updated) _
                    (undesired_secrets-Kept cp client keeps (InDeletion m)
                      (drop_access-InDeletion m) deletes updated)
                    λ secrets x. report_access-Kept updated requests secrets ready
