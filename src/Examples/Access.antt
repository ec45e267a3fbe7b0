-- ===== src/Examples/Access.antt =====
-- The theorems on AccessRequests at concrete inputs.
use openmcp_operator.Prelude.{
  ℕ, pos, ◌+◌, ◌≤◌, String, none, some, List, [], ◌∷◌, true, ◌≡◌, ◌≢◌, refl, arith, All, eq_iff,
}
use openmcp_operator.Flow.{found}
use openmcp_operator.Flow.Run.{Run, After}
use openmcp_operator.Api.Meta.{empty_meta, lookup, key_of}
use openmcp_operator.Api.Requests.{AccessRequest}
use openmcp_operator.AccessRequest.State.{AccessClient}
use openmcp_operator.AccessRequest.Responsible.{is_responsible, responsible_unique}
use openmcp_operator.AccessRequest.Ttl.{has_expired_ttl, requeue_time, requeue_expires}
use openmcp_operator.AccessRequest.Reconcile.{reconcile}
use openmcp_operator.AccessRequest.Allowed.{
  KeepsAccess, MayExpire, may_assign, only_expire, NoObject,
}
use openmcp_operator.AccessRequest.Writes.{reconcile_writes, provider_owned}
use openmcp_operator.Examples.Platform.{library_a, library_a_laws, request_a, cluster_a}

-- Created at 1000 with a time to live of 500.
abbrev pub access_a : AccessRequest
access_a = record {
  metadata = record empty_meta {
    name = "access";
    namespace = "team";
    creation_timestamp = 1000;
    labels = some (
        ("clusters.openmcp.cloud/provider", "kind")
        ∷ ("clusters.openmcp.cloud/profile", "small")
        ∷ []);
  };
  cluster_ref = none;
  request_ref = some (record { name = "request"; namespace = "team" });
  token = none;
  oidc = none;
  ttl = some (pos 500);
  phase = "Pending";
  observed_generation = 0;
  secret_ref = none;
}

-- The requests that were deleted, with the time of their deletion, and the time.
record Clock : Type 0 where
  expired : List (AccessRequest × ℕ)
  patched : List AccessRequest
  time : ℕ

abbrev access_client : AccessClient
access_client = record {
  World = Clock;
  get_access_request = λ r w. (found access_a, w);
  get_request = λ r w. (found request_a, w);
  get_cluster = λ r w. (found cluster_a, w);
  get_profile = λ n w. (found (record { name = "small"; provider_ref = "kind" }), w);
  patch_access_request = λ a b w. (found b, record w { patched = b ∷ w.patched });
  delete_access_request = λ a w. (found tt, record w { expired = (a, w.time) ∷ w.expired });
  remove_operation_annotation = λ a w. (found a, w);
  now = λ w. (w.time, w);
}

-- What was deleted was not in deletion already, and its TTL was over.
abbrev Expired : Clock → Type 0
Expired w = All (λ e. MayExpire access_client e.0 e.1) w.expired

only-Expired : KeepsAccess access_client (may_assign access_client) Expired
only-Expired = record {
  get_access_request = λ r w p. p;
  get_request = λ r w p. p;
  get_cluster = λ r w p. p;
  get_profile = λ n w p. p;
  now = λ w p. p;
  remove_operation_annotation = λ a w h p. p;
  patch_access_request = λ a b w h p. p;
  delete_access_request = λ a w h p. (h, p);
}

reconcile_writes_example :
    Run Expired
      (reconcile library_a access_client (key_of access_a.metadata))
      (λ _. Unit {0})
      (λ _. Unit {0})
reconcile_writes_example =
    reconcile_writes library_a library_a_laws access_client only-Expired (key_of access_a.metadata)

-- Besides, nothing was patched.
abbrev Unpatched : Clock → Type 0
Unpatched w = (w.patched ≡ []) × Expired w

none_patched : KeepsAccess access_client (only_expire access_client) Unpatched
none_patched = record {
  get_access_request = λ r w p. p;
  get_request = λ r w p. p;
  get_cluster = λ r w p. p;
  get_profile = λ n w p. p;
  now = λ w p. p;
  remove_operation_annotation = λ a w h p. p;
  patch_access_request = λ a b w h p. absurd h;
  delete_access_request = λ a w h p. (p.0, (h, p.1));
}

abbrev clock_a : Clock
clock_a = record { expired = []; patched = []; time = 1700 }

provider_owned_example :
    After Unpatched
      (NoObject access_client)
      (NoObject access_client)
      (reconcile library_a access_client (key_of access_a.metadata) clock_a).0
      (reconcile library_a access_client (key_of access_a.metadata) clock_a).1
unfolding is_responsible lookup
provider_owned_example =
    provider_owned library_a library_a_laws access_client none_patched (key_of access_a.metadata)
      access_a clock_a refl refl (refl, tt)

abbrev kind : String
kind = "kind"

named : kind ≢ ""
named e = absurd (ground (arith, eq_iff kind "", e))

responsible_unique_example : kind ≡ kind
unfolding is_responsible lookup
responsible_unique_example = responsible_unique access_a kind kind named named refl refl

requeue_expires_example :
    (d : ℕ) × (requeue_time (pos 1500) 1200 ≡ pos d)
    × ((n : ℕ) → 1200 + d ≤ n → (has_expired_ttl (some access_a) n).0 ≡ true)
requeue_expires_example =
    requeue_expires access_a (pos 500) 1500 1200 refl refl (ground arith) (ground arith)
