-- ===== src/Cache.antt =====
-- internal/core/endpoint/cache.go: the endpoints by URL, and the URLs of each chain. An endpoint is
-- a handle of type `E`; the cache reads its URL and its chain. The locks order whole operations.
pub mod Consistency
pub mod Contents
pub mod Puts
use web3_rpc_proxy.Prelude.{
  ℕ, String, Bool, true, false, not, Option, none, some, List, [], ◌∷◌, ◌++◌, map, length, filter,
  ◌==◌, nat_comparable, string_comparable, if◌then◌else◌,
}
use web3_rpc_proxy.Prelude.Dict.{Dict, lookup, insert, remove}

pub record Cache (E : Type 0) : Type 0 where
  pub endpoints : Dict String E
  pub chains : Dict ℕ (List String)

-- `slices.DeleteFunc(urls, func(k) { return k == url })`
abbrev pub delete_url : String → List String → List String
delete_url url urls = filter (λ k. not (k == url)) urls

-- `c.chains[id]`: a missing chain reads as nil.
abbrev pub urls_or_nil : Option (List String) → List String
urls_or_nil none = []
urls_or_nil (some urls) = urls

module _ {E : Type 0} where
  abbrev pub new_cache : Cache E
  new_cache = record { endpoints = []; chains = [] }

  abbrev pub urls_of : ℕ → Cache E → List String
  urls_of id c = urls_or_nil (lookup id c.chains)

  -- The keys of `chains`; Go's order of them is arbitrary.
  unfoldable pub chains : Cache E → List ℕ
  chains c = map (λ entry. entry.0) c.chains

  -- A URL with no endpoint leaves its slot nil.
  unfoldable pub get_all : ℕ → Cache E → List (Option E) × Bool
  get_all id c = elim (lookup id c.chains) [
    | none ↦ ([], false)
    | some [] ↦ ([], false)
    | some (u ∷ urls) ↦ (map (λ k. lookup k c.endpoints) (u ∷ urls), true)
  ]

  unfoldable pub get : String → Cache E → Option E
  get url c = lookup url c.endpoints

  -- The loop of `Purge`.
  unfoldable pub delete_all : List String → Dict String E → Dict String E
  delete_all [] m = m
  delete_all (u ∷ urls) m = delete_all urls (remove u m)

  unfoldable pub purge : ℕ → Cache E → Cache E × ℕ
  unfolding delete_all
  purge id c = elim (lookup id c.chains) [
    | none ↦ (c, 0)
    | some urls ↦ (
      record { endpoints = delete_all urls c.endpoints; chains = remove id c.chains },
      length urls,
    )
  ]

module _ {E : Type 0} (url : E → String) (chain_id : E → ℕ) where
  -- The two assignments of a new URL give the same list: a nil list grows to the URL alone.
  unfoldable pub put : E → Cache E → Cache E
  put e c = elim (lookup (url e) c.endpoints) [
    | some v ↦ if chain_id v == chain_id e then c else record c {
      chains = insert (chain_id e) (delete_url (url e) (urls_of (chain_id e) c)) c.chains;
    }
    | none ↦ record {
      endpoints = insert (url e) e c.endpoints;
      chains = insert (chain_id e) (urls_of (chain_id e) c ++ url e ∷ []) c.chains;
    }
  ]

  unfoldable pub remove_url : String → Cache E → Cache E
  remove_url u c = elim (lookup u c.endpoints) [
    | none ↦ c
    | some v ↦ record {
      endpoints = remove u c.endpoints;
      chains = insert (chain_id v) (delete_url u (urls_of (chain_id v) c)) c.chains;
    }
  ]
