-- ===== src/Endpoint/Merging.antt =====
-- `Merge` of internal/core/endpoint/provider.go: which of two endpoints an attribute comes from.
use web3_rpc_proxy.Prelude.{String, ◌≡◌, refl, none, some, [], ◌∷◌, arith, string_comparable}
use web3_rpc_proxy.Prelude.Dict.{lookup}
use web3_rpc_proxy.Endpoint.{State, read}
use web3_rpc_proxy.Endpoint.Metrics.{merge_state}
use web3_rpc_proxy.Endpoint.Updates.{read-insert}

-- An attribute that the second endpoint has comes from it, and any other from the first.
pub read-merge_state :
    {F : Type 0} (k : String) (a b : State F)
    → read k (merge_state a b) ≡ elim (lookup k b) [ none ↦ read k a | some v ↦ v ]
unfolding merge_state lookup
read-merge_state k a [] = refl
read-merge_state k a ((j, v) ∷ b) =
    ground (arith, read-insert k j v (merge_state a b), read-merge_state k a b)
