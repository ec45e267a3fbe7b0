-- ===== src/Api/Keys.antt =====
-- Maps with distinct keys, as every Go map is.
use openmcp_operator.Prelude.{none, [], ◌∷◌, ◌≡◌}
use openmcp_operator.Api.Meta.{Dict, lookup}

abbrev pub DistinctKeys : Dict → Type 0
DistinctKeys [] = Unit
DistinctKeys ((k, v) ∷ m) = (lookup k m ≡ none) × DistinctKeys m
