-- ===== src/Examples/Provider.antt =====
-- The theorems on the installation of providers at concrete inputs.
use openmcp_operator.Prelude.{
  pos, none, some, List, [], ◌∷◌, Bool, true, false, arith, ◌≡◌, refl, All, ◌⊎◌, inl, inr,
}
use openmcp_operator.Flow.{found}
use openmcp_operator.Provider.Install.{Resource, Provider, ProviderClient, Job}
use openmcp_operator.Provider.Reconcile.{install}
use openmcp_operator.Provider.Order.{KeepsInstall, is_of_provider, install_order}
use openmcp_operator.Provider.Truth.{IsTruthful, install-IsTruthful}
use openmcp_operator.Provider.Delete.{openmcp_finalizer, handle_delete_operation}
use openmcp_operator.Provider.Delete.Removal.{Uninstalled, KeepsUninstall, deleted_behind_removal}
use openmcp_operator.Examples.Platform.{library_a}

abbrev job_a : Job
job_a = record {
  annotations = some (("openmcp.cloud/provider-generation", "3") ∷ []);
  conditions = [];
  succeeded = pos 1;
}

-- The resources that were applied, each with whether the job had been seen by then, and whether it has.
record Applied : Type 0 where
  resources : List (Resource × Bool)
  seen : Bool

abbrev provider_client : ProviderClient
provider_client = record {
  World = Applied;
  Deployment = Unit;
  parse_int64 = λ s. some (pos 3);
  apply = λ r w. (none, record w { resources = (r, w.seen) ∷ w.resources });
  remove = λ r w. (none, w);
  get_job = λ w. (found job_a, record w { seen = true });
  get_secret = λ n w. (found tt, w);
  get_deployment = λ w. (found tt, w);
  check_deployment = λ d. none;
  update_provider = λ p w. (none, w);
}

abbrev provider_a : Provider
provider_a = record { name = "kind"; generation = 3; finalizers = []; metrics_enabled = true }

-- A resource of the provider was applied only behind the job.
abbrev Ordered : Applied → Type 0
Ordered w = All (λ e. is_of_provider e.0 ≡ true → e.1 ≡ true) w.resources

abbrev Seen : Applied → Type 0
Seen w = Ordered w × (w.seen ≡ true)

order_kept : KeepsInstall library_a provider_client provider_a Ordered Seen
order_kept = record {
  weaker = λ w s. s.0;
  completed = λ w p job e c. (p, refl);
  before = record {
    apply = λ r w h p. (λ q. absurd (ground (arith, h, q)), p);
    remove = λ r w p. p;
    get_job = λ w p. p;
    get_secret = λ n w p. p;
    get_deployment = λ w p. p;
  };
  behind = record {
    apply = λ r w h p. ((λ q. p.1, p.0), p.1);
    remove = λ r w p. p;
    get_job = λ w p. (p.0, refl);
    get_secret = λ n w p. p;
    get_deployment = λ w p. p;
  };
}

abbrev none_applied : Applied
none_applied = record { resources = []; seen = false }

install_order_example : Ordered (install library_a provider_client provider_a none_applied).1
install_order_example =
    install_order library_a provider_client provider_a order_kept none_applied tt

install-IsTruthful_example :
    IsTruthful provider_a (install library_a provider_client provider_a none_applied).0
install-IsTruthful_example = install-IsTruthful library_a provider_client provider_a none_applied

-- The resources that were removed, and for each update of the provider those that were then.
record Removals : Type 0 where
  gone : List Resource
  updates : List (List Resource)

abbrev removal_client : ProviderClient
removal_client = record {
  World = Removals;
  Deployment = Unit;
  parse_int64 = λ s. some (pos 3);
  apply = λ r w. (none, w);
  remove = λ r w. (none, record w { gone = r ∷ w.gone });
  get_job = λ w. (found job_a, w);
  get_secret = λ n w. (found tt, w);
  get_deployment = λ w. (found tt, w);
  check_deployment = λ d. none;
  update_provider = λ p w. (none, record w { updates = w.gone ∷ w.updates });
}

abbrev Listed : Resource → List Resource → Type 0
Listed r [] = ⊥
Listed r (x ∷ xs) = (r ≡ x) ⊎ Listed r xs

abbrev Gone : Resource → Removals → Type 0
Gone r w = Listed r w.gone

-- Everything was removed at each update.
abbrev LetGo : Removals → Type 0
LetGo w =
    All (λ g. Uninstalled library_a removal_client Gone (record { gone = g; updates = [] }))
      w.updates

removals_kept : KeepsUninstall library_a removal_client Gone LetGo
removals_kept = record {
  gone = λ r w e. inl refl;
  gone_remove = λ r s w h. inr h;
  gone_update = λ r p w h. h;
  remove = λ r w p. p;
  update = λ p w u q. (u, q);
}

abbrev held : Provider
held = record provider_a { finalizers = openmcp_finalizer ∷ [] }

abbrev no_removals : Removals
no_removals = record { gone = []; updates = [] }

deleted_behind_removal_example :
    LetGo (handle_delete_operation library_a removal_client held no_removals).1
    × ((handle_delete_operation library_a removal_client held no_removals).0.deleted ≡ true
        → Uninstalled library_a removal_client Gone
            (handle_delete_operation library_a removal_client held no_removals).1)
deleted_behind_removal_example =
    deleted_behind_removal library_a removal_client removals_kept held no_removals tt
