-- ===== src/Examples/Guard.antt =====
-- The theorems on the guard and on the selectors of objects at concrete inputs.
use openmcp_operator.Prelude.{
  ℕ, suc, String, none, some, [], ◌∷◌, true, false, ◌≡◌, ◌↔◌, refl, arith, All, contains,
  insert_all,
}
use openmcp_operator.Api.Meta.{get, or_empty, lookup}
use openmcp_operator.Api.Selectors.{
  ObjectWithPurposes, PurposeSelectorRequirement, IdentityLabelPurposeSelector, matches_purpose,
  matches_identity_label_purpose, meets_requirement, validate_identity_label_purpose,
  validate_label, validate_purpose, valid_operators,
}
use openmcp_operator.Api.Selectors.Requirements.{Satisfies, DistinctEquals, equals_repeated}
use openmcp_operator.Api.Selectors.Meaning.{
  Means, matches_purpose_iff, matches_identity_label_purpose_iff,
}
use openmcp_operator.Api.Selectors.Empty.{without_values, matches_without_values}
use openmcp_operator.Guard.{
  Binding, AdmissionRequest, GroupVersionKind, Workspaces, serve, handler_check, inspector_check,
  check_services, cluster_annotation,
}
use openmcp_operator.Guard.Laws.{MayDisconnect, serve_allows, inspector_check_iff}
use openmcp_operator.Examples.Platform.{labels_a, labels_a_laws}

abbrev requirement : PurposeSelectorRequirement
requirement = record { operator = "Equals"; values = "mcp" ∷ "workload" ∷ [] }

abbrev selector : IdentityLabelPurposeSelector
selector = record {
  identity = record { match_identities = none };
  purpose = record { match_purposes = requirement ∷ [] };
  label = record { match_labels = some (("stage", "dev") ∷ []); match_expressions = [] };
}

abbrev object : ObjectWithPurposes
object = record {
  name = "shared";
  namespace = "clusters";
  labels = some (("stage", "dev") ∷ []);
  purposes = "workload" ∷ "mcp" ∷ [];
}

distinct_values : All DistinctEquals selector.purpose.match_purposes
unfolding contains
distinct_values = (λ e. (refl, (refl, tt)), tt)

matches_purpose_iff_example :
    (matches_purpose (some selector.purpose) (some object) ≡ true)
    ↔ All (Satisfies object.purposes) selector.purpose.match_purposes
matches_purpose_iff_example = matches_purpose_iff selector.purpose object distinct_values

matches_identity_label_purpose_iff_example :
    (matches_identity_label_purpose labels_a (some selector) (some object) ≡ true)
    ↔ Means labels_a labels_a_laws selector object
unfolding validate_identity_label_purpose validate_label validate_purpose valid_operators contains
matches_identity_label_purpose_iff_example =
    matches_identity_label_purpose_iff labels_a labels_a_laws selector object refl distinct_values

matches_without_values_example :
    (matches_purpose (some (without_values "ContainsAll")) (some object) ≡ true)
    × (matches_purpose (some (without_values "ContainsAny")) (some object) ≡ false)
    × (matches_purpose (some (without_values "ContainsNone")) (some object) ≡ true)
    × ((matches_purpose (some (without_values "Equals")) (some object) ≡ true)
        ↔ (object.purposes ≡ []))
matches_without_values_example = matches_without_values object

same_purposes : (u : String) → contains ("mcp" ∷ []) u ≡ contains ("mcp" ∷ "mcp" ∷ []) u
unfolding contains
same_purposes u = ground arith

-- The purposes are the values, one of which is repeated.
equals_repeated_example :
    meets_requirement
      (insert_all ("mcp" ∷ []) [])
      (record { operator = "Equals"; values = "mcp" ∷ "mcp" ∷ [] })
    ≡ false
unfolding contains
equals_repeated_example =
    equals_repeated ("mcp" ∷ []) (record { operator = "Equals"; values = "mcp" ∷ "mcp" ∷ [] }) "mcp"
      ("mcp" ∷ []) refl refl refl same_purposes

-- Workspaces without objects, whose world counts the calls.
abbrev workspaces : Workspaces
workspaces = record {
  World = ℕ;
  Client = String;
  is_dns_label = λ s. true;
  resolve = λ cluster name uid w. (some (some cluster, false), suc w);
  list_one = λ c k w. (some [], suc w);
}

abbrev binding : Binding
binding = record {
  name = "service";
  uid = "u1";
  annotations = some ((cluster_annotation, "ws") ∷ []);
}

abbrev service : GroupVersionKind
service = record { group = "services"; version = "v1"; kind = "Database" }

abbrev deletion : AdmissionRequest
deletion = record {
  uid = "r1";
  operation = "DELETE";
  group = "apis.kcp.io";
  resource = "apibindings";
  sub_resource = "";
  name = "service";
  old_object = some binding;
}

serve_allows_example :
    (deletion.operation ≡ "DELETE")
    × (deletion.resource ≡ "apibindings")
    × (b : Binding) × (deletion.old_object ≡ some b)
    × (b.name ≡ deletion.name)
    × MayDisconnect workspaces (service ∷ []) b 0
unfolding serve handler_check inspector_check check_services lookup
serve_allows_example = serve_allows workspaces true (service ∷ []) "POST" deletion 0 "r1" none refl

inspector_check_iff_example :
    ((inspector_check workspaces true
        (service ∷ [])
        (or_empty (get cluster_annotation binding.annotations))
        binding.name
        binding.uid
        0).0
      ≡ none)
    ↔ MayDisconnect workspaces (service ∷ []) binding 0
inspector_check_iff_example = inspector_check_iff workspaces service [] binding 0
