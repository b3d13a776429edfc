-- ===== src/Endpoint/Tests.antt =====
-- The round trip of endpoints at `host1:10003`.
use replicated_splinterdb.Base.{◌≡◌, [], ◌∷◌, pos, ok, arith}
use replicated_splinterdb.Endpoint.{parse_endpoint, endpoint}
use replicated_splinterdb.Endpoint.RoundTrip.{parse_endpoint-endpoint}

parse_endpoint-endpoint_example :
    parse_endpoint (endpoint (104 ∷ 49 ∷ []) 10003) ≡ ok (104 ∷ 49 ∷ [], pos 10003)
parse_endpoint-endpoint_example =
    parse_endpoint-endpoint (104 ∷ 49 ∷ []) 10003 (ground arith, (ground arith, tt)) (omega arith)
