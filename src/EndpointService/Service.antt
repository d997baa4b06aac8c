-- ===== src/EndpointService/Service.antt =====
-- The state of endpoint_service.go: the cache of shared endpoints, which are numbers of places in a heap
-- of attributes; `GetAll` and `Purge`.
use web3_rpc_proxy.Prelude.{
  ℕ, suc, String, Bool, true, false, Option, none, some, List, [], ◌∷◌, ◌++◌, map, length,
  get_elem?, leb, string_comparable, nat_comparable,
}
use web3_rpc_proxy.Cache.{Cache, new_cache, purge, chains}
use web3_rpc_proxy.Cache.Puts.{put_all}
use web3_rpc_proxy.Cache as Cached
use web3_rpc_proxy.Endpoint.{State}
use web3_rpc_proxy.Endpoint as Endpoints

pub record Service (F : Type 0) : Type 0 where
  pub cache : Cache ℕ
  pub heap : List (State F)

abbrev pub new_service : {F : Type 0} → Service F
new_service = record { cache = new_cache; heap = [] }

abbrev pub text_of : Option String → String
text_of none = ""
text_of (some u) = u

unfoldable pub purge_all : List ℕ → Cache ℕ → Cache ℕ
purge_all [] c = c
purge_all (id ∷ ids) c = purge_all ids (purge id c).0

module _ {F : Type 0} where
  -- The attributes of the endpoint at a place; a place that is none has no attributes.
  abbrev pub state_at : List (State F) → ℕ → State F
  state_at heap r = elim (get_elem? heap r) [ none ↦ [] | some s ↦ s ]

  abbrev pub url_at : List (State F) → ℕ → String
  url_at heap r = text_of (Endpoints.endpoint_url (state_at heap r))

  abbrev pub chain_at : List (State F) → ℕ → ℕ
  chain_at heap r = Endpoints.chain_id (state_at heap r)

  -- The places of `n` new endpoints from the place `i`.
  abbrev pub places : ℕ → List (State F) → List ℕ
  places i [] = []
  places i (s ∷ ss) = i ∷ places (suc i) ss

  -- `GetAll` of a chain, with what `load` gives if it is asked.
  unfoldable pub get_all :
      ℕ → Option (List (State F)) → Service F → Option ((List (Option ℕ) × Bool) × Service F)
  get_all chain loaded s =
      let (v, ok) = Cached.get_all chain s.cache in
      elim ok [
        | true ↦ some ((v, leb 1 (length v)), s)
        | false ↦ elim loaded [
          | none ↦ none
          | some states ↦
              let rs = places (length s.heap) states in
              let heap = s.heap ++ states in
              some (
                (map some rs, leb 1 (length rs)),
                record { cache = put_all (url_at heap) (chain_at heap) rs s.cache; heap = heap },
              )
        ]
      ]

  -- `Purge`
  unfoldable pub purge_service : Service F → Service F
  unfolding purge_all
  purge_service s = record s { cache = purge_all (chains s.cache) s.cache }
