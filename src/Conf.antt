-- ===== src/Conf.antt =====
-- utils/config/conf.go: the configuration, its readers and the chains that are set from its list of
-- endpoints. koanf is the record `Koanf`: `S` is what it keeps, `V` a value and `L` a parsed document.
pub mod Chains
pub mod Loading
pub mod Reloading
pub mod Watching
pub mod Etcd
use Prim.Native.String.{◌++◌ as str_append}
use web3_rpc_proxy.Prelude.{
  ℕ, String, ◌≡◌, Bool, true, false, Option, none, some, List, [], ◌∷◌, if◌then◌else◌,
}
use web3_rpc_proxy.EndpointService.Source.{EndpointChain}

pub record Koanf (L V S : Type 0) : Type 0 where
  pub exists : String → S → Bool
  pub get : String → S → V
  pub string : String → S → String
  pub bool : String → S → Bool
  pub set : String → V → S → S
  -- `Load` of a document that was parsed.
  pub merge : L → S → S
  -- `Unmarshal` of a value into a list of chains, a chain as a value, and a value as a chain.
  pub list_of : V → Option (List EndpointChain)
  pub of_chain : EndpointChain → V
  pub chain_of : V → Option EndpointChain
  -- A value is nil, or a map, which koanf merges into the map that a path has.
  pub is_nil : V → Bool
  pub is_map : V → Bool
  -- Neither path is a prefix of the other, name by name.
  pub apart : String → String → Bool

-- What koanf's documentation promises of a path that is set: a value that is no map replaces what the path
-- had, and what is said of other paths stays. A chain is a struct, neither nil nor a map.
pub record IsLawful {L V S : Type 0} (k : Koanf L V S) : Type 0 where
  pub get-set : (p : String) (v : V) (s : S) → k.is_map v ≡ false → k.get p (k.set p v s) ≡ v
  pub get-set_apart :
      (p q : String) (v : V) (s : S) → k.apart p q ≡ true → k.get p (k.set q v s) ≡ k.get p s
  pub exists-set :
      (p : String) (v : V) (s : S) → k.is_map v ≡ false → k.exists p (k.set p v s) ≡ true
  pub exists-set_apart :
      (p q : String) (v : V) (s : S) → k.apart p q ≡ true → k.exists p (k.set q v s) ≡ k.exists p s
  pub chain_of-of_chain : (c : EndpointChain) → k.chain_of (k.of_chain c) ≡ some c
  pub of_chain-no_map : (c : EndpointChain) → k.is_map (k.of_chain c) ≡ false
  pub of_chain-no_nil : (c : EndpointChain) → k.is_nil (k.of_chain c) ≡ false

module _ {L V S : Type 0} (k : Koanf L V S) where
  -- `Get`, `Bool`, `String`, `Strings`, `Int`, `Int64`, `Duration` and `Time`, by koanf's reader of each.
  unfoldable pub read_or : {A : Type 0} → (String → S → A) → String → List A → S → A
  read_or reader path [] s = reader path s
  read_or reader path (default ∷ defaults) s = if k.exists path s then reader path s else default

  abbrev pub id_path : (ℕ → String) → EndpointChain → String
  id_path decimal c = str_append "chains." (decimal c.chain_id)

  abbrev pub code_path : EndpointChain → String
  code_path c = str_append "chains." c.chain_code

  -- The loop of `LoadEndpointChains`.
  unfoldable pub set_chains : (ℕ → String) → List EndpointChain → S → S
  set_chains decimal [] s = s
  set_chains decimal (c ∷ cs) s =
      set_chains decimal cs
        (k.set (code_path c) (k.of_chain c) (k.set (id_path decimal c) (k.of_chain c) s))

  -- `LoadEndpointChains`; `none` is its panic.
  unfoldable pub load_endpoint_chains : (ℕ → String) → String → S → Option S
  unfolding set_chains
  load_endpoint_chains decimal path s =
      if k.exists path s
      then elim (k.list_of (k.get path s)) [
        | none ↦ none
        | some cs ↦ some (set_chains decimal cs s)
      ]
      else some s
