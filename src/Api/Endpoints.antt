-- ===== src/Api/Endpoints.antt =====
-- The endpoints of a cluster: what `Endpoints.Get` finds after `Endpoints.Set`.
use openmcp_operator.Prelude.{String, some, List, [], ◌∷◌, ◌==◌, ◌≡◌, arith, eq_iff, if◌then◌else◌}
use openmcp_operator.Api.Cluster.{Endpoint, get_endpoint, set_endpoint}

-- After a name is set to a URL, that name is found with the URL, and every other name as before.
pub get_endpoint-set_endpoint :
    (n u j : String) (es : List Endpoint)
    → get_endpoint j (set_endpoint n u es) ≡ (if n == j then some u else get_endpoint j es)
unfolding get_endpoint set_endpoint
get_endpoint-set_endpoint n u j [] = ground arith
get_endpoint-set_endpoint n u j (e ∷ es) =
    ground (arith, get_endpoint-set_endpoint n u j es, eq_iff e.name n, eq_iff e.name j, eq_iff n j)
