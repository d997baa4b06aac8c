-- ===== src/HttpClient/Making.antt =====
-- `NewHTTPClient` of internal/core/endpoint/http_client.go: the request that all calls of a client clone.
-- net/http's NewRequest is a parameter; a header that is set replaces what it was.
use web3_rpc_proxy.Prelude.{
  String, ◌≡◌, refl, Bool, Option, none, some, List, [], ◌∷◌, ◌==◌, string_comparable, arith,
  if◌then◌else◌, Bool-cases, inl, inr,
}
use web3_rpc_proxy.Prelude.Dict.{Dict, lookup, insert, lookup-insert}

pub record HttpRequest : Type 0 where
  pub method : String
  pub address : String
  pub header : Dict String String

-- The headers of the endpoint, in the order in which Go visits them, over that of the content.
unfoldable pub set_headers : List (String × String) → Dict String String → Dict String String
unfolding insert
set_headers [] h = h
set_headers ((k, v) ∷ hs) h = set_headers hs (insert k v h)

-- `NewHTTPClient`: the client's request, or no client.
unfoldable pub new_http_client :
    (String → Bool) → String → List (String × String) → Option HttpRequest
unfolding set_headers
new_http_client parses url headers =
    if url == ""
    then none
    else if parses url
    then some (record {
      method = "POST";
      address = url;
      header = set_headers headers (("Content-Type", "application/json") ∷ []);
    })
    else none

lookup-set_headers :
    (k : String) (hs : List (String × String)) (h : Dict String String) (v : String)
    → lookup k h ≡ some v
    → (u : String) × (lookup k (set_headers hs h) ≡ some u)
unfolding set_headers
lookup-set_headers k [] h v e = (v, e)
lookup-set_headers k ((j, u) ∷ hs) h v e = elim (Bool-cases (j == k)) [
  | inl q ↦ lookup-set_headers k hs (insert j u h) u (ground (arith, lookup-insert k j u h, q))
  | inr q ↦ lookup-set_headers k hs (insert j u h) v (ground (arith, lookup-insert k j u h, q))
]

-- Every client has a type of content: its own, or that of the endpoint's headers.
pub content_type_set :
    (parses : String → Bool) (url : String) (headers : List (String × String)) (r : HttpRequest)
    → new_http_client parses url headers ≡ some r
    → (t : String) × (lookup "Content-Type" r.header ≡ some t)
unfolding new_http_client
content_type_set parses url headers r h =
    let start : Dict String String = ("Content-Type", "application/json") ∷ [] in
    let (t, e) =
      lookup-set_headers "Content-Type" headers start "application/json" (unfold lookup in refl) in
    (t, ground (arith, e, h))
