-- ===== src/Provider/Truth.antt =====
-- What the status of an installation says.
use openmcp_operator.Prelude.{
  String, Option, none, some, Bool, true, false, ◌==◌, ◌≡◌, inl, inr, refl, arith, Option-cases,
}
use openmcp_operator.Flow.{Outcome-cases}
use openmcp_operator.Platform.{Library}
use openmcp_operator.Provider.Install.{
  Provider, ProviderClient, install_init_job, install_provider, check_provider_readiness,
}
use openmcp_operator.Provider.Status.{
  Condition, ReconcileStatus, phase_ready, new_install_status,
  set_init_condition_job_creation_failed, set_init_condition_job_running,
  set_init_condition_job_completed, set_init_condition_job_creation_pending,
  set_ready_condition_provider_installation_failed, set_ready_condition_provider_not_ready,
  set_ready_condition_provider_installation_pending, set_ready_condition_provider_ready,
}
use openmcp_operator.Provider.Reconcile.{finish_install, continue_install, install}

abbrev pub status_of : Option Condition → String
status_of none = ""
status_of (some c) = c.status

-- The status is of the provider's generation. Its phase is Ready exactly if its condition of
-- readiness is true, and then the condition of initialization is true and there is no error.
abbrev pub IsTruthful : Provider → ReconcileStatus × Option String → Type 0
IsTruthful provider (s, err) =
    (s.observed_generation ≡ provider.generation)
    × ((s.phase == phase_ready) ≡ (status_of s.ready_condition == "True"))
    × ((s.phase == phase_ready) ≡ true → (status_of s.init_condition ≡ "True") × (err ≡ none))

module _ (lib : Library) (client : ProviderClient) (provider : Provider) where
  abbrev done : ReconcileStatus
  done = set_init_condition_job_completed (new_install_status provider.generation)

  finish_install-IsTruthful :
      (m : Bool) (w : client.World) → IsTruthful provider (finish_install lib client m done w).0
  unfolding finish_install new_install_status set_init_condition_job_completed
      set_init_condition_job_creation_pending set_ready_condition_provider_installation_pending
      set_ready_condition_provider_not_ready set_ready_condition_provider_ready
  finish_install-IsTruthful m w = elim (Option-cases (check_provider_readiness lib client w).0) [
    | inl e ↦ rw (e, finish_install) (refl, refl, λ h. (refl, refl))
    | inr (x, e) ↦ rw (e, finish_install) (refl, refl, λ h. absurd (ground (arith, h)))
  ]

  continue_install-IsTruthful :
      (w : client.World) → IsTruthful provider (continue_install lib client provider done w).0
  unfolding continue_install new_install_status set_init_condition_job_completed
      set_init_condition_job_creation_pending set_ready_condition_provider_installation_pending
      set_ready_condition_provider_installation_failed
  continue_install-IsTruthful w = elim (Outcome-cases (install_provider lib client provider w).0) [
    | inl (m, e) ↦
        rw (e, continue_install)
          (finish_install-IsTruthful m (install_provider lib client provider w).1)
    | inr (inl (x, e)) ↦ rw (e, continue_install) (refl, refl, λ h. absurd (ground (arith, h)))
    | inr (inr e) ↦ rw (e, continue_install) (refl, refl, λ h. absurd (ground (arith, h)))
  ]

  -- The status that an installation reports is of the provider's generation. Its phase is Ready
  -- exactly if its condition of readiness is true, and then the condition of initialization is true
  -- and there is no error.
  pub install-IsTruthful :
      (w : client.World) → IsTruthful provider (install lib client provider w).0
  unfolding install new_install_status set_init_condition_job_completed
      set_init_condition_job_creation_pending set_ready_condition_provider_installation_pending
      set_init_condition_job_running set_init_condition_job_creation_failed
  install-IsTruthful w =
      let job = install_init_job lib client provider w in
      elim (Outcome-cases job.0) [
        | inl (true, e) ↦ rw (e, install) (continue_install-IsTruthful job.1)
        | inl (false, e) ↦ rw (e, install) (refl, refl, λ h. absurd (ground (arith, h)))
        | inr (inl (x, e)) ↦ rw (e, install) (refl, refl, λ h. absurd (ground (arith, h)))
        | inr (inr e) ↦ rw (e, install) (refl, refl, λ h. absurd (ground (arith, h)))
      ]
