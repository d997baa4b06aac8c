-- ===== src/Endpoint/Creation.antt =====
-- `NewWithInfo` of internal/core/endpoint/endpoint.go and the configuration's types of
-- internal/common/config.go. url.Parse is the parameter `parse_url`.
use web3_rpc_proxy.Prelude.{String, Option, none, some, List, [], string_comparable}
use web3_rpc_proxy.Prelude.Dict.{insert}
use web3_rpc_proxy.Prelude.Int.{ℤ, pos}
use web3_rpc_proxy.Endpoint.{integer, int, headers, State, new}

pub record EndpointInfo : Type 0 where
  pub url : String
  pub headers : Option (List (String × String))
  pub weight : Option ℤ

abbrev pub headers_or : Option (List (String × String)) → List (String × String)
headers_or none = []
headers_or (some hs) = hs

abbrev pub weight_or : Option ℤ → ℤ
weight_or none = pos 0
weight_or (some w) = w

-- At the time `now`; an address that does not parse gives none.
unfoldable pub new_with_info :
    {F : Type 0} → (String → Option String) → ℤ → EndpointInfo → Option (State F)
unfolding insert new
new_with_info parse_url now info = elim (parse_url info.url) [
  | none ↦ none
  | some u ↦ some (
      insert "weight" (integer int (weight_or info.weight))
        (insert "headers" (headers (headers_or info.headers)) (new now u)))
]
