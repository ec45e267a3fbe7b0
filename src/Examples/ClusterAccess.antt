-- ===== src/Examples/ClusterAccess.antt =====
-- The theorems on the manager of cluster access at concrete inputs.
use openmcp_operator.Prelude.{
  String, none, some, List, [], ◌∷◌, Bool, true, false, ◌≡◌, refl, subst, arith,
}
use mathlib.Core.Option.{some-injective}
use openmcp_operator.Flow.{Answer, found, not_found, failed}
use openmcp_operator.Flow.Run.{Run}
use openmcp_operator.Api.Meta.{ObjectMeta, ObjectReference, empty_meta}
use openmcp_operator.Api.Requests.{AccessRequest}
use openmcp_operator.Api.ControlPlane.{Secret, managed_by_label}
use openmcp_operator.ClusterAccess.Names.{Texts, stable_request_name_from_local_name}
use openmcp_operator.ClusterAccess.Mutators.{
  AccessRequestMutator, mutate_access_request, mutate_metadata, mutate_spec, mutate_permissions,
  mutate_role_refs, mutate_provider, mutate_roles, mutate_ref,
}
use openmcp_operator.ClusterAccess.Mutators.Laws.{Mutated, mutate_access_request_sets}
use openmcp_operator.ClusterAccess.Manager.{
  ManagerClient, ManagerConfig, reference_to_cluster, request_key, wait_for_cluster_access,
  create_and_wait_for_cluster,
}
use openmcp_operator.ClusterAccess.Decided.{
  PollLaw, KeepsRequests, Decided, wait_for_cluster_access-Decided,
  create_and_wait_for_cluster_writes,
}
use openmcp_operator.Examples.Platform.{cluster_a, request_a}
use openmcp_operator.Examples.Access.{access_a}

abbrev texts_a : Texts
texts_a = record { to_lower = λ s. s; size = λ s. 0; shorten = λ s n. s; k8s_max_name_length = 63 }

abbrev kubeconfig_a : Secret
kubeconfig_a = record { metadata = empty_meta; contents = ("kubeconfig", "config") ∷ [] }

abbrev granted_a : AccessRequest
granted_a = record access_a { phase = "Granted"; secret_ref = some "access" }

-- The poll tests once, and fails if the test is not true; the world is the requests applied.
abbrev ended : Answer Bool → Answer (Unit {0})
ended (found true) = found tt
ended (found false) = failed "timeout"
ended not_found = not_found
ended (failed e) = failed e

abbrev manager_client : ManagerClient
manager_client = record {
  World = List ObjectReference;
  RestConfig = String;
  Access = String;
  apply_request = λ r f w. (found tt, r ∷ w);
  apply_access_request = λ r f w. (found tt, r ∷ w);
  get_request = λ r w. (found request_a, w);
  get_access_request = λ r w. (found granted_a, w);
  get_cluster = λ r w. (found cluster_a, w);
  get_secret = λ r w. (found kubeconfig_a, w);
  poll = λ test s w. ((ended (test s w).0.0, (test s w).0.1), (test s w).1);
  with_labels = λ m d. some (record d { labels = some m });
  rest_config = λ k. some k;
  initialize_client = λ n c w. (some n, w);
}

abbrev manager_a : ManagerConfig
manager_a = record { controller_name = "provider"; controller_namespace = "system" }

ended-true : (a : Answer Bool) → ended a ≡ found tt → a ≡ found true
ended-true (found true) h = refl
ended-true (found false) h = absurd (ground (arith, h))
ended-true not_found h = absurd (ground (arith, h))
ended-true (failed e) h = absurd (ground (arith, h))

poll_a : PollLaw manager_client
poll_a S test s w h = (s, w, ended-true (test s w).0.0 h, refl)

abbrev key_a : ObjectReference
key_a = record { name = "provider--onboarding"; namespace = "system" }

-- Every request applied has the key.
abbrev Keyed : List ObjectReference → Type 0
Keyed [] = Unit
Keyed (r ∷ w) = (r ≡ key_a) × Keyed w

keyed :
    KeepsRequests manager_client
      (request_key texts_a manager_client manager_a "onboarding")
      "onboarding"
      Keyed
unfolding request_key stable_request_name_from_local_name
keyed = record {
  get_request = λ r w p. p;
  get_access_request = λ r w p. p;
  get_secret = λ r w p. p;
  poll = λ S test k s w p. k s w p;
  initialize_client = λ n c w p. p;
  apply_request = λ f w h p. (refl, p);
  apply_access_request = λ f w p. (refl, p);
}

wait_for_cluster_access-Decided_example :
    Run Keyed
      (wait_for_cluster_access texts_a manager_client manager_a "onboarding" key_a
        reference_to_cluster none)
      (λ r. Decided r.1)
      (λ e. Unit)
wait_for_cluster_access-Decided_example =
    wait_for_cluster_access-Decided texts_a manager_client manager_a poll_a "onboarding"
      "onboarding" keyed key_a reference_to_cluster none

create_and_wait_for_cluster_writes_example :
    Run Keyed
      (create_and_wait_for_cluster texts_a manager_client manager_a "onboarding" "onboarding" none)
      (λ a. Unit)
      (λ e. Unit)
create_and_wait_for_cluster_writes_example =
    create_and_wait_for_cluster_writes texts_a manager_client manager_a poll_a "onboarding"
      "onboarding" keyed none

-- The metadata mutator of the manager, which sets the label.
abbrev managed_labels : List (String × String)
managed_labels = (managed_by_label, "provider") ∷ []

abbrev mutator_a : AccessRequestMutator
mutator_a = record {
  name = "provider--onboarding";
  namespace = "system";
  request_ref = none;
  cluster_ref = some key_a;
  token_permissions = some [];
  token_role_refs = none;
  oidc_provider = none;
  oidc_additional_roles = none;
  metadata = some (manager_client.with_labels managed_labels);
}

abbrev mutated_a : AccessRequest
mutated_a = record access_a {
  metadata = record access_a.metadata { labels = some managed_labels };
  cluster_ref = some key_a;
  token = some (record { permissions = []; role_refs = [] });
}

labelled :
    (m n : ObjectMeta)
    → mutate_metadata mutator_a.metadata m ≡ some n
    → mutate_metadata mutator_a.metadata n ≡ some n
unfolding mutate_metadata
labelled m n h =
    let once : ObjectMeta = record m { labels = some managed_labels } in
    let same : once ≡ n = some-injective once n h in
    subst (λ (x : ObjectMeta). some (record x { labels = some managed_labels }) ≡ some x) same refl

mutate_access_request_sets_example :
    Mutated mutator_a access_a mutated_a
    × (mutate_access_request mutator_a mutated_a ≡ some mutated_a)
unfolding mutate_access_request mutate_spec mutate_metadata mutate_permissions mutate_role_refs
    mutate_provider mutate_roles mutate_ref
mutate_access_request_sets_example =
    mutate_access_request_sets mutator_a access_a mutated_a labelled refl
