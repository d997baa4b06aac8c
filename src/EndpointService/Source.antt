-- ===== src/EndpointService/Source.antt =====
-- Where endpoints come from: `loadEndpointFromConfig` and `load` of endpoint_service.go, `MergeSlicesBy` of
-- utils/helpers/slice.go, and `Provide` of providers/web3-rpc-provider/web3_rpc_provider.go. An endpoint
-- that is not shared yet is its map of attributes. `none` is a panic.
use Prim.Native.String.{◌++◌ as str_append}
use web3_rpc_proxy.Prelude.{
  ℕ, String, Bool, true, false, Option, none, some, List, [], ◌∷◌, map, string_comparable,
}
use web3_rpc_proxy.Prelude.Dict.{Dict, lookup, insert}
use web3_rpc_proxy.Prelude.Int.{ℤ, pos}
use web3_rpc_proxy.Endpoint.{
  integer, uint64, str, State, FloatOps, Attribute, with_attr, update, new, chain_id, endpoint_url,
}
use web3_rpc_proxy.Endpoint.Metrics.{merge_state}
use web3_rpc_proxy.Endpoint.Creation.{EndpointInfo, new_with_info}

-- `EndpointServices`: its two fields, in their order.
pub record EndpointServices : Type 0 where
  pub activenode : List EndpointInfo
  pub fullnode : List EndpointInfo

-- `EndpointChain`: a list of endpoints, or lists by service; either may be missing.
pub record EndpointChain : Type 0 where
  pub chain_id : ℕ
  pub chain_code : String
  pub endpoints : Option (List EndpointInfo)
  pub services : Option EndpointServices

-- The fields of a struct with their names, as reflection gives them.
abbrev pub fields : EndpointServices → List (String × List EndpointInfo)
fields s = ("Activenode", s.activenode) ∷ ("Fullnode", s.fullnode) ∷ []

-- One entry of the provider's answer.
pub record ProvidedRpc : Type 0 where
  pub chain_id : ℕ
  pub url : String

-- `MergeSlicesBy`: the map of what has been seen, by id. Go's order of the keys is arbitrary.
module _ {A : Type 0} (iteratee : A → A → A) (unique : A → String) where
  abbrev pub merged : A → Option A → A
  merged item none = item
  merged item (some existing) = iteratee existing item

  unfoldable pub merge_item : Dict String A → A → Dict String A
  unfolding insert
  merge_item exists item = insert (unique item) (merged item (lookup (unique item) exists)) exists

  unfoldable pub merge_items : Dict String A → List A → Dict String A
  merge_items exists [] = exists
  merge_items exists (item ∷ items) = merge_items (merge_item exists item) items

  unfoldable pub merge_arrays : Dict String A → List (List A) → Dict String A
  merge_arrays exists [] = exists
  merge_arrays exists (array ∷ arrays) = merge_arrays (merge_items exists array) arrays

  -- `visit` is the order in which Go visits the map.
  unfoldable pub merge_slices_by : (Dict String A → Dict String A) → List (List A) → List A
  merge_slices_by visit arrays = map (λ entry. entry.1) (visit (merge_arrays [] arrays))

abbrev pub service_attributes : {F : Type 0} → EndpointChain → String → List (Attribute F)
service_attributes chain name =
    with_attr "chain_id" (integer uint64 (pos chain.chain_id))
    ∷ with_attr "chain_code" (str chain.chain_code)
    ∷ with_attr "type" (str name)
    ∷ []

abbrev pub list_attributes : {F : Type 0} → EndpointChain → List (Attribute F)
list_attributes chain = with_attr "chain_id" (integer uint64 (pos chain.chain_id)) ∷ []

abbrev provided_attributes : {F : Type 0} → ProvidedRpc → List (Attribute F)
provided_attributes r = with_attr "chain_id" (integer uint64 (pos r.chain_id)) ∷ []

module _ {F : Type 0} (fl : FloatOps F) (parse_url : String → Option String) (now : ℤ) where
  -- `e.Update(…)` on a new endpoint.
  unfoldable pub labelled : List (Attribute F) → State F → Option (State F)
  labelled as' s = elim (update fl as' s) [ none ↦ none | some (t, obs) ↦ some t ]

  -- `mapToStates`: an address that does not parse is left out.
  unfoldable pub map_to_states : List (Attribute F) → List EndpointInfo → Option (List (State F))
  unfolding labelled
  map_to_states as' [] = some []
  map_to_states as' (info ∷ infos) =
      let rest = map_to_states as' infos in
      elim (new_with_info parse_url now info) [
        | none ↦ rest
        | some e ↦ elim (labelled as' e) [
          | none ↦ none
          | some t ↦ elim rest [ none ↦ none | some ts ↦ some (t ∷ ts) ]
        ]
      ]

  -- The loop over the fields returns in its first round.
  unfoldable pub load_services :
      EndpointChain → List (String × List EndpointInfo) → Option (List (State F))
  load_services chain [] = some []
  load_services chain ((name, infos) ∷ rest) = map_to_states (service_attributes chain name) infos

  -- `loadEndpointFromConfig`, with the configuration's entry for the chain.
  unfoldable pub load_from_config : Option EndpointChain → Option (List (State F))
  load_from_config none = some []
  load_from_config (some chain) = elim chain.services [
    | some s ↦ load_services chain (fields s)
    | none ↦ elim chain.endpoints [
      | none ↦ some []
      | some infos ↦ map_to_states (list_attributes chain) infos
    ]
  ]

  unfoldable pub provided : List ProvidedRpc → Option (List (State F))
  unfolding labelled
  provided [] = some []
  provided (r ∷ rs) =
      let rest = provided rs in
      elim (parse_url r.url) [
        | none ↦ rest
        | some u ↦ elim (labelled (provided_attributes r) (new now u)) [
          | none ↦ none
          | some t ↦ elim rest [ none ↦ none | some ts ↦ some (t ∷ ts) ]
        ]
      ]

  -- `Provide`, over what the request gives: an error, or the entries of the body. The flag says
  -- whether there are any entries.
  unfoldable pub provide :
      (Option String × List ProvidedRpc) → Option (Option String × List (State F) × Bool)
  provide (some e, rs) = some (some e, [], false)
  provide (none, []) = some (none, [], false)
  provide (none, r ∷ rs) = elim (provided (r ∷ rs)) [
    | none ↦ none
    | some es ↦ some (none, es, true)
  ]

  -- `makeUniqueId`
  unfoldable pub make_unique_id : (ℕ → String) → State F → String
  make_unique_id decimal s =
      str_append (decimal (chain_id s)) (elim (endpoint_url s) [ none ↦ "<nil>" | some u ↦ u ])

  -- `mergeEndpiont`
  unfoldable pub merge_endpoint : State F → State F → State F
  unfolding merge_state
  merge_endpoint a b = merge_state a b

  -- `load`, with the provider's answer if there is a provider; its failure leaves the configured ones.
  unfoldable pub load :
      (ℕ → String)
      → (Dict String (State F) → Dict String (State F))
      → Option EndpointChain
      → Option (Option String × List ProvidedRpc)
      → Option (List (State F))
  unfolding merge_endpoint make_unique_id
  load decimal visit config answer = elim (load_from_config config) [
    | none ↦ none
    | some configured ↦
        let merge = λ (list : List (List (State F))).
          merge_slices_by merge_endpoint (make_unique_id decimal) visit list in
        elim answer [
          | none ↦ some (merge (configured ∷ [] ∷ []))
          | some sent ↦ elim (provide sent) [
            | none ↦ none
            | some (some e, es, ok) ↦ some configured
            | some (none, es, false) ↦ some configured
            | some (none, es, true) ↦ some (merge (configured ∷ es ∷ []))
          ]
        ]
  ]
