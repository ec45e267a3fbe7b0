-- ===== src/Provider/Order.antt =====
-- In which order a provider is installed, and what its status says.
use openmcp_operator.Prelude.{
  ℕ, ℤ, pos, negsuc, zero, suc, String, Option, none, some, List, ◌==◌, eqb, if◌then◌else◌, subst,
  [], ◌∷◌, All, eq_iff, ◌≢◌, Bool, true, false, not, ◌||◌, ◌≡◌, refl, inl, inr, arith, is_positive,
  Option-cases,
}
use openmcp_operator.Flow.{
  found, Answer-cases, Outcome-cases, Outcome, next, stop, panic, continue, pure, ◌>>◌,
}
use openmcp_operator.Api.Meta.{get, or_empty}
use openmcp_operator.Flow.Run.{Run, After, Run-pure, Run-bind, Run-if}
use openmcp_operator.Platform.{Library}
use openmcp_operator.Provider.Install.{
  Resource, provider_namespace, init_service_account, init_cluster_role_binding, init_role,
  init_role_binding, init_job, provider_service_account, provider_cluster_role_binding,
  metrics_service, deployment, generation_label, Job, JobCondition, Provider, ProviderClient,
  has_failed, InstallAction, applied, removed, is_generation_up_to_date, install_init_rights,
  check_job, install_init_job, find_webhook_secret, webhook_secret_name, install_provider,
  check_provider_readiness,
}
use openmcp_operator.Provider.Status.{
  ReconcileStatus, new_install_status, set_init_condition_job_completed,
}
use openmcp_operator.Provider.Reconcile.{finish_install, continue_install, install}

-- The resources of the provider itself.
abbrev pub is_of_provider : Resource → Bool
is_of_provider provider_namespace = false
is_of_provider init_service_account = false
is_of_provider init_cluster_role_binding = false
is_of_provider init_role = false
is_of_provider init_role_binding = false
is_of_provider (init_job g) = false
is_of_provider provider_service_account = true
is_of_provider provider_cluster_role_binding = true
is_of_provider metrics_service = true
is_of_provider (deployment s) = true

-- No condition says that the job failed.
failed_none :
    (cs : List JobCondition)
    → has_failed cs ≡ false
    → All (λ c. c.type ≡ "Failed" → c.status ≢ "True") cs
unfolding has_failed
failed_none [] h = tt
failed_none (c ∷ cs) h = (
  λ t s. absurd (ground (arith, h, (eq_iff c.type "Failed").1 t, (eq_iff c.status "True").1 s)),
  failed_none cs (ground (arith, h)),
)

positive_suc : (z : ℤ) → is_positive z ≡ true → (n : ℕ) × (z ≡ pos (suc n))
positive_suc (pos zero) h = absurd (ground (arith, h))
positive_suc (pos (suc n)) h = (n, refl)
positive_suc (negsuc n) h = absurd (ground (arith, h))

module _ (lib : Library) (client : ProviderClient) (provider : Provider) where
  -- The annotation of the job is the generation of the provider, a pod has succeeded, and no
  -- condition says that it failed.
  abbrev pub Completed : Job → Type 0
  Completed job =
      ((v : String) × (get generation_label job.annotations ≡ some v)
        × (client.parse_int64 v ≡ some (pos provider.generation)))
      × All (λ c. c.type ≡ "Failed" → c.status ≢ "True") job.conditions
      × (n : ℕ) × (job.succeeded ≡ pos (suc n))

  annotated :
      (o : Option String)
      → (if or_empty o == "" then false else elim (client.parse_int64 (or_empty o)) [
        | none ↦ false
        | some n ↦ elim n [ pos k ↦ eqb k provider.generation | negsuc k ↦ false ]
      ])
        ≡ true
      → (v : String) × (o ≡ some v) × (client.parse_int64 v ≡ some (pos provider.generation))
  annotated none h = absurd (ground (arith, h))
  annotated (some v) h = elim (Option-cases (client.parse_int64 v)) [
    | inl n ↦ absurd (ground (arith, n, h))
    | inr (pos k, n) ↦ (v, refl, ground (arith, n, h))
    | inr (negsuc k, n) ↦ absurd (ground (arith, n, h))
  ]

  up_to_date_generation :
      (job : Job)
      → is_generation_up_to_date lib client provider job ≡ true
      → (v : String) × (get generation_label job.annotations ≡ some v)
        × (client.parse_int64 v ≡ some (pos provider.generation))
  unfolding is_generation_up_to_date
  up_to_date_generation job h = annotated (get generation_label job.annotations) h

  -- A property of the world that reads and removals keep, and applying a resource that is allowed.
  pub record KeepsSteps (allowed : Resource → Type 0) (P : client.World → Type 0) : Type 0 where
    pub apply : (r : Resource) (w : client.World) → allowed r → P w → P (client.apply r w).1
    pub remove : (r : Resource) (w : client.World) → P w → P (client.remove r w).1
    pub get_job : (w : client.World) → P w → P (client.get_job w).1
    pub get_secret : (n : String) (w : client.World) → P w → P (client.get_secret n w).1
    pub get_deployment : (w : client.World) → P w → P (client.get_deployment w).1

  -- Before the completed job was read in this run, `P` is kept without applying resources of the
  -- provider; reading it leads to `S`, which is kept where these are applied.
  pub record KeepsInstall (P S : client.World → Type 0) : Type 0 where
    pub weaker : (w : client.World) → S w → P w
    pub completed :
        (w : client.World)
        → P w
        → (job : Job) → (client.get_job w).0 ≡ found job
        → Completed job
        → S (client.get_job w).1
    pub before : KeepsSteps (λ r. is_of_provider r ≡ false) P
    pub behind : KeepsSteps (λ r. is_of_provider r ≡ true) S

  module _ {allowed : Resource → Type 0} {P : client.World → Type 0}
      (keeps : KeepsSteps allowed P) where
    abbrev Steps : {A : Type 0} → InstallAction lib client A → Type 0
    Steps m = Run P m (λ a. Unit {0}) (λ e. Unit {0})

    applied-Steps : (r : Resource) → allowed r → Steps (applied lib client r)
    applied-Steps r h = record {
      at = λ w p. elim (Option-cases (client.apply r w).0) [
        | inl e ↦ rw e (keeps.apply r w h p, tt)
        | inr (m, e) ↦ rw e (keeps.apply r w h p, tt)
      ];
    }

    removed-Steps : (r : Resource) → Steps (removed lib client r)
    removed-Steps r = record {
      at = λ w p. elim (Option-cases (client.remove r w).0) [
        | inl e ↦ rw e (keeps.remove r w p, tt)
        | inr (m, e) ↦ rw e (keeps.remove r w p, tt)
      ];
    }

    secret-Steps : Steps (find_webhook_secret lib client provider)
    unfolding find_webhook_secret
    secret-Steps = record {
      at = λ w p. elim (Option-cases (webhook_secret_name lib provider.name)) [
        | inl e ↦ ground (arith, e, p)
        | inr (n, e) ↦ ground (arith, e, p, keeps.get_secret n w p)
      ];
    }

    readiness_keeps : (w : client.World) → P w → P (check_provider_readiness lib client w).1
    unfolding check_provider_readiness
    readiness_keeps w p = ground (arith, p, keeps.get_deployment w p)

  module _ {P S : client.World → Type 0} (keeps : KeepsInstall P S) where
    own :
        (r : Resource)
        → is_of_provider r ≡ false
        → Run P (applied lib client r) (λ u. Unit {0}) (λ e. Unit {0})
    own r e = applied-Steps keeps.before r e

    rights-Steps : Run P (install_init_rights lib client) (λ u. Unit {0}) (λ e. Unit {0})
    unfolding install_init_rights
    rights-Steps =
        Run-bind (applied lib client provider_namespace) _ (own provider_namespace refl) λ _ _.
          Run-bind (applied lib client init_service_account) _ (own init_service_account refl)
            λ _ _.
              Run-bind (applied lib client init_cluster_role_binding) _
                (own init_cluster_role_binding refl)
                λ _ _.
                  Run-bind (applied lib client init_role) _ (own init_role refl)
                    λ _ _. own init_role_binding refl

    -- Where the init job is reported as completed, `S` holds.
    abbrev InitEnd : Outcome String Bool → client.World → Type 0
    InitEnd (next true) w = S w
    InitEnd (next false) w = P w
    InitEnd (stop e) w = P w
    InitEnd panic w = P w

    then_ends :
        {A : Type 0} (f : A → InstallAction lib client Bool) (o : Outcome String A)
        → (w : client.World) → After P (λ a. Unit {0}) (λ e. Unit {0}) o w
        → ((a : A) (v : client.World) → P v → InitEnd (f a v).0 (f a v).1)
        → InitEnd (continue o f w).0 (continue o f w).1
    then_ends f (next a) w h k = k a w h.0
    then_ends f (stop e) w h k = h.0
    then_ends f panic w h k = h

    not_completed :
        (m : InstallAction lib client (Unit {0}))
        → Run P m (λ u. Unit {0}) (λ e. Unit {0})
        → (w : client.World) → P w
        → InitEnd ((m >> pure false) w).0 ((m >> pure false) w).1
    not_completed m h w p = then_ends (λ u. pure false) (m w).0 (m w).1 (h.at w p) λ a v q. q

    succeeded_ends : (b : Bool) (v : client.World) → P v → (b ≡ true → S v) → InitEnd (next b) v
    succeeded_ends true v p s = s refl
    succeeded_ends false v p s = p

    if_ends :
        (b : Bool) (m n : InstallAction lib client Bool) (v : client.World)
        → (b ≡ true → InitEnd (m v).0 (m v).1)
        → (b ≡ false → InitEnd (n v).0 (n v).1)
        → InitEnd ((if b then m else n) v).0 ((if b then m else n) v).1
    if_ends true m n v hm hn = hm refl
    if_ends false m n v hm hn = hn refl

    check_ends :
        (job : Job) (v : client.World)
        → P v
        → (Completed job → S v)
        → InitEnd (check_job lib client provider job v).0 (check_job lib client provider job v).1
    unfolding check_job
    check_ends job v p s =
        if_ends
          (not (is_generation_up_to_date lib client provider job) || has_failed job.conditions) _ _
          v
          (λ b.
            then_ends (λ u. applied lib client (init_job provider.generation) >> pure false)
              (removed lib client (init_job provider.generation) v).0
              (removed lib client (init_job provider.generation) v).1
              ((removed-Steps keeps.before (init_job provider.generation)).at v p)
              λ u.
                not_completed (applied lib client (init_job provider.generation))
                  (own (init_job provider.generation) refl))
          λ b. succeeded_ends (is_positive job.succeeded) v p λ t.
            let (n, e) = positive_suc job.succeeded t in
            s (
              up_to_date_generation job (ground (arith, b)),
              failed_none job.conditions (ground (arith, b)),
              n,
              e,
            )

    init_ends :
        (w : client.World)
        → P w
        → InitEnd
            (install_init_job lib client provider w).0
            (install_init_job lib client provider w).1
    unfolding install_init_job
    init_ends w p =
        then_ends _ (install_init_rights lib client w).0 (install_init_rights lib client w).1
          (rights-Steps.at w p)
          λ u v q.
            let q' = keeps.before.get_job v q in
            elim (Answer-cases (client.get_job v).0) [
              | inl (job, e) ↦
                  rw e (check_ends job (client.get_job v).1 q' (keeps.completed v q job e))
              | inr (inl e) ↦ rw e (
                  not_completed (applied lib client (init_job provider.generation))
                    (own (init_job provider.generation) refl) (client.get_job v).1 q')
              | inr (inr (m, e)) ↦ rw e q'
            ]

    provider-Steps : Run S (install_provider lib client provider) (λ b. Unit {0}) (λ e. Unit {0})
    unfolding install_provider
    provider-Steps =
        Run-bind (applied lib client provider_service_account) _
          (applied-Steps keeps.behind provider_service_account refl)
          λ _ _.
            Run-bind (applied lib client provider_cluster_role_binding) _
              (applied-Steps keeps.behind provider_cluster_role_binding refl)
              λ _ _.
                Run-bind (find_webhook_secret lib client provider) _ (secret-Steps keeps.behind)
                  λ s _.
                    Run-bind (applied lib client (deployment s)) _
                      (applied-Steps keeps.behind (deployment s) refl)
                      λ _ _.
                        Run-if provider.metrics_enabled _ _
                          (λ _.
                            Run-bind (applied lib client metrics_service) _
                              (applied-Steps keeps.behind metrics_service refl)
                              λ _ _. Run-pure true tt)
                          (λ _. Run-pure false tt)

    continue_keeps :
        (s : ReconcileStatus) (w : client.World)
        → S w
        → S (continue_install lib client provider s w).1
    unfolding continue_install finish_install
    continue_keeps s w p =
        let ran = install_provider lib client provider w in
        let kept = provider-Steps.at w p in
        elim (Outcome-cases ran.0) [
          | inl (b, e) ↦
              ground (arith, e, readiness_keeps keeps.behind ran.1 (ground (arith, e, kept)))
          | inr (inl (m, e)) ↦ ground (arith, e, kept)
          | inr (inr e) ↦ ground (arith, e, kept)
        ]

    -- Take a property of the world that reads, removals and the application of resources of the init
    -- job keep, and a second one that implies it, that reading a completed job of the provider's
    -- generation leads to, and that reads, removals and the application of resources of the provider
    -- itself keep. The installation of a provider keeps the first one whatever the server answers, so
    -- that it applies a resource of the provider itself only behind having read the completed job.
    pub install_order : (w : client.World) → P w → P (install lib client provider w).1
    unfolding install
    install_order w p =
        let job = install_init_job lib client provider w in
        let ends = init_ends w p in
        elim (Outcome-cases job.0) [
          | inl (true, e) ↦
              let started =
                set_init_condition_job_completed (new_install_status provider.generation) in
              ground (
                arith,
                e,
                keeps.weaker (continue_install lib client provider started job.1).1
                    (continue_keeps started job.1 (subst (λ o. InitEnd o job.1) e ends)),
              )
          | inl (false, e) ↦
              let q : P job.1 = subst (λ o. InitEnd o job.1) e ends in ground (arith, e, q)
          | inr (inl (m, e)) ↦
              let q : P job.1 = subst (λ o. InitEnd o job.1) e ends in ground (arith, e, q)
          | inr (inr e) ↦
              let q : P job.1 = subst (λ o. InitEnd o job.1) e ends in ground (arith, e, q)
        ]
