-- ===== src/Provider/Install.antt =====
-- `Installer` (internal/controllers/provider/install/installer.go): the init job, the deployment and
-- their removal.
use openmcp_operator.Prelude.{
  ℕ, ℤ, pos, negsuc, sub_ℕ, String, Option, none, some, List, [], ◌∷◌, Bool, true, false, not, ◌&&◌,
  ◌||◌, ◌==◌, ◌<>◌, eqb, is_positive, if◌then◌else◌,
}
use openmcp_operator.Flow.{Exec, pure, finish, ask, ◌>>=◌, ◌>>◌, Answer, found, not_found, failed}
use openmcp_operator.Api.Meta.{GoMap, get, or_empty}
use openmcp_operator.Platform.{Library}

-- The resources that the installer creates, by their mutators; a job carries the generation of the
-- provider, a deployment the name of the webhook secret.
pub data Resource : Type 0 where
  provider_namespace init_service_account init_cluster_role_binding init_role : Resource
  init_role_binding : Resource
  init_job : ℕ → Resource
  provider_service_account provider_cluster_role_binding metrics_service : Resource
  deployment : Option String → Resource

pub record JobCondition : Type 0 where
  pub type : String
  pub status : String

pub record Job : Type 0 where
  pub annotations : GoMap
  pub conditions : List JobCondition
  pub succeeded : ℤ

pub record Provider : Type 0 where
  pub name : String
  pub generation : ℕ
  pub finalizers : List String
  pub metrics_enabled : Bool

-- The client of the platform cluster as the helpers of controller-utils use it: `apply` is
-- `CreateOrUpdateResource`, `remove` is `DeleteResource`, with a text for an error. `check_deployment`
-- is `readiness.CheckDeployment`, `none` for ready. `update_provider` writes the provider.
pub record ProviderClient : Type 1 where
  pub World : Type 0
  pub Deployment : Type 0
  pub parse_int64 : String → Option ℤ
  pub apply : Resource → World → Option String × World
  pub remove : Resource → World → Option String × World
  pub get_job : World → Answer Job × World
  pub get_secret : String → World → Answer (Unit {0}) × World
  pub get_deployment : World → Answer Deployment × World
  pub check_deployment : Deployment → Option String
  pub update_provider : Provider → World → Option String × World

-- The loop over the conditions of the job.
unfoldable pub has_failed : List JobCondition → Bool
has_failed [] = false
has_failed (c ∷ cs) =
    let rest = has_failed cs in if c.type == "Failed" && c.status == "True" then true else rest

abbrev pub generation_label : String
generation_label = "openmcp.cloud/provider-generation"

-- `WebhookSecretName` (lib/utils/utils.go), `none` for its error; the suffix has twelve characters.
unfoldable pub webhook_secret_name : Library → String → Option String
webhook_secret_name lib provider_name =
    elim (lib.shorten provider_name (sub_ℕ lib.k8s_max_name_length 12)) [
      | none ↦ none
      | some base ↦ some (base <> "-webhook-tls")
    ]

module _ (lib : Library) (client : ProviderClient) where
  -- A step of the installer; an early return carries its error.
  abbrev pub InstallAction : Type 0 → Type 0
  InstallAction A = Exec client.World String A

  abbrev pub fail_on : Option String → InstallAction (Unit {0})
  fail_on none = pure tt
  fail_on (some e) = finish e

  abbrev pub applied : Resource → InstallAction (Unit {0})
  applied r = do err ← ask (client.apply r); fail_on err

  abbrev pub removed : Resource → InstallAction (Unit {0})
  removed r = do err ← ask (client.remove r); fail_on err

  unfoldable pub is_generation_up_to_date : Provider → Job → Bool
  is_generation_up_to_date provider job =
      let gen_job = or_empty (get generation_label job.annotations) in
      if gen_job == "" then false else elim (client.parse_int64 gen_job) [
        | none ↦ false
        | some n ↦ elim n [ pos k ↦ eqb k provider.generation | negsuc k ↦ false ]
      ]

  -- The rights of the init job.
  unfoldable pub install_init_rights : InstallAction (Unit {0})
  install_init_rights = do
    applied provider_namespace
    applied init_service_account
    applied init_cluster_role_binding
    applied init_role
    applied init_role_binding

  -- A job that exists: one of another generation, or a failed one, is made again.
  unfoldable pub check_job : Provider → Job → InstallAction Bool
  check_job provider job =
      if not (is_generation_up_to_date provider job) || has_failed job.conditions
      then (do
        removed (init_job provider.generation)
        applied (init_job provider.generation)
        pure false)
      else pure (is_positive job.succeeded)

  unfoldable pub install_init_job : Provider → InstallAction Bool
  install_init_job provider = do
    install_init_rights
    ans ← ask client.get_job
    elim ans [
      | found job ↦ check_job provider job
      | not_found ↦ (do applied (init_job provider.generation); pure false)
      | failed e ↦ finish e
    ]

  -- The webhook secret, if it is there.
  unfoldable pub find_webhook_secret : Provider → InstallAction (Option String)
  find_webhook_secret provider = elim (webhook_secret_name lib provider.name) [
    | none ↦ finish "error computing webhook secret name"
    | some name ↦ do
      ans ← ask (client.get_secret name)
      elim ans [
        | found _ ↦ pure (some name)
        | not_found ↦ pure none
        | failed e ↦ finish "unable to check for webhook TLS secret existence"
      ]
  ]

  -- The result says whether the metrics service is in the status.
  unfoldable pub install_provider : Provider → InstallAction Bool
  install_provider provider = do
    applied provider_service_account
    applied provider_cluster_role_binding
    secret ← find_webhook_secret provider
    applied (deployment secret)
    if provider.metrics_enabled then (do applied metrics_service; pure true) else pure false

  -- `none` is ready, else the message.
  unfoldable pub check_provider_readiness : client.World → Option String × client.World
  check_provider_readiness w = elim (client.get_deployment w).0 [
    | found d ↦ (client.check_deployment d, (client.get_deployment w).1)
    | not_found ↦ (some "deployment not found", (client.get_deployment w).1)
    | failed e ↦ (some e, (client.get_deployment w).1)
  ]

  -- What is removed behind the deployment; the job is found by its name, not its generation.
  unfoldable pub uninstall_rest : InstallAction Bool
  uninstall_rest = do
    removed provider_cluster_role_binding
    removed provider_service_account
    removed (init_job 0)
    removed init_cluster_role_binding
    removed init_service_account
    pure true

  unfoldable pub uninstall_provider : InstallAction Bool
  uninstall_provider = do removed (deployment none); uninstall_rest
