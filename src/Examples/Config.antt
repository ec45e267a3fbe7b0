-- ===== src/Examples/Config.antt =====
-- The theorems on the API types and the configuration at concrete inputs.
use openmcp_operator.Prelude.{
  List, String, none, some, [], ◌∷◌, true, ◌||◌, ◌==◌, ◌≡◌, ◌↔◌, refl, contains, All, ap, ◌≢◌, ◌<>◌,
  ◌+◌,
}
use openmcp_operator.Flow.{panic}
use openmcp_operator.Api.Meta.{get, put, lookup, request_finalizer_on_cluster_prefix}
use openmcp_operator.Api.Endpoints.{get_endpoint-set_endpoint}
use openmcp_operator.Api.Cluster.{Endpoint, get_endpoint, set_endpoint, Cluster, get_tenancy_count}
use openmcp_operator.Api.Tenancy.{prefix-eq, tenancy_count_claim}
use openmcp_operator.Config.Selector.{Selector, combine, completed, put_all, complete_selector}
use openmcp_operator.Config.Selector.Combine.{combine-matches, first_of_both}
use openmcp_operator.Config.Scheduler.{SchedulerConfig, validate, complete}
use openmcp_operator.Config.Scheduler.Purposes.{
  complete-SelectsTemplate, complete-ne-panic, SelectsTemplate,
}
use openmcp_operator.Examples.Platform.{
  labels_a, labels_a_laws, selector_a, definition_a, config_a, cluster_a,
}

abbrev cluster_both : Cluster
cluster_both = record cluster_a {
  metadata = record cluster_a.metadata {
    finalizers = "request.clusters.openmcp.cloud/a" ∷ "request.clusters.openmcp.cloud/b" ∷ [];
  };
}

gains_a :
    (v : String)
    → contains cluster_both.finalizers (request_finalizer_on_cluster_prefix <> v)
      ≡ ("a" == v || contains cluster_a.finalizers (request_finalizer_on_cluster_prefix <> v))
unfolding contains
gains_a v =
    ap (λ b. b || contains cluster_a.finalizers (request_finalizer_on_cluster_prefix <> v))
      (prefix-eq "a" v)

tenancy_count_claim_example : get_tenancy_count cluster_both ≡ get_tenancy_count cluster_a + 1
unfolding contains
tenancy_count_claim_example = tenancy_count_claim cluster_a cluster_both "a" gains_a refl

abbrev prod_selector : Selector labels_a
prod_selector = record {
  label_selector =
      some (record { match_labels = some (("stage", "prod") ∷ []); match_expressions = [] });
  completed = none;
}

abbrev prod_completed : Selector labels_a
prod_completed = record prod_selector { completed = some (some ("stage", "prod")) }

combined : combine labels_a (some selector_a) (some prod_selector) ≡ (some prod_completed, true)
unfolding combine put_all put
combined = refl

combine-matches_example :
    (labels_a.matches (completed labels_a (some prod_completed)) cluster_a.labels ≡ true) ↔ (
      ((k v : String)
        → first_of_both
            (get k (some (("stage", "prod") ∷ [])))
            (get k (some (("stage", "dev") ∷ [])))
          ≡ some v
        → get k cluster_a.labels ≡ some v)
      × All (λ q. labels_a.meets q cluster_a.labels ≡ true) []
      × All (λ q. labels_a.meets q cluster_a.labels ≡ true) [])
combine-matches_example =
    combine-matches labels_a labels_a_laws selector_a prod_selector prod_completed
      (record { match_labels = some (("stage", "dev") ∷ []); match_expressions = [] })
      (record { match_labels = some (("stage", "prod") ∷ []); match_expressions = [] })
      cluster_a.labels refl refl combined

abbrev config_completed : SchedulerConfig labels_a
config_completed = record config_a {
  purpose_mappings =
      (
        "mcp",
        some (record definition_a {
          selector = some (record selector_a { completed = some (some ("stage", "dev")) });
        }),
      )
      ∷ [];
}

valid : validate labels_a config_a ≡ []
unfolding validate contains lookup
valid = refl

complete-SelectsTemplate_example : All (SelectsTemplate labels_a) config_completed.purpose_mappings
unfolding complete combine openmcp_operator.Config.Selector.complete
complete-SelectsTemplate_example =
    complete-SelectsTemplate labels_a labels_a_laws config_a config_completed tt (refl, tt) valid
      refl

complete-ne-panic_example : complete labels_a config_a ≢ panic
complete-ne-panic_example = complete-ne-panic labels_a config_a valid

abbrev endpoints_a : List Endpoint
endpoints_a = record { name = "external"; url = "https://old" } ∷ []

get_endpoint-set_endpoint_example :
    get_endpoint "external" (set_endpoint "external" "https://new" endpoints_a) ≡ some "https://new"
get_endpoint-set_endpoint_example =
    get_endpoint-set_endpoint "external" "https://new" "external" endpoints_a
