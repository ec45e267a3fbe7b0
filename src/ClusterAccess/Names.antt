-- ===== src/ClusterAccess/Names.antt =====
-- Names of requests (lib/clusteraccess/advanced/utils.go).
use openmcp_operator.Prelude.{ℕ, ℤ, pos, minus, String, ◌==◌, ◌+◌, ◌<>◌, if◌then◌else◌}

-- `strings.ToLower`, the length of a text in bytes, and `ShortenToXCharactersUnsafe` of
-- controller-utils with its `K8sMaxNameLength`.
pub record Texts : Type 0 where
  pub to_lower : String → String
  pub size : String → ℕ
  pub shorten : String → ℤ → String
  pub k8s_max_name_length : ℕ

-- `StableRequestNameFromLocalName`.
unfoldable pub stable_request_name_from_local_name : Texts → String → String → String → String
stable_request_name_from_local_name texts controller local suffix =
    let raw = texts.to_lower controller <> ("--" <> texts.to_lower local) in
    if suffix == ""
    then texts.shorten raw (pos texts.k8s_max_name_length)
    else texts.shorten raw
        (minus (pos texts.k8s_max_name_length) (texts.size (texts.to_lower suffix) + 2))
      <> ("--" <> texts.to_lower suffix)
