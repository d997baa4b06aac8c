-- ===== src/Conf/Reloading.antt =====
-- The endpoints are configured anew while the proxy runs: the handler of internal/app/bootstrap.go that
-- WatcherClient (internal/app/shared/watcher.go) calls with the new list of endpoints.
use Prim.Native.String.{◌++◌ as str_append}
use web3_rpc_proxy.Prelude.{
  if◌then◌else◌, ℕ, String, Option, none, some, List, ◌++◌, string_comparable, nat_comparable,
}
use web3_rpc_proxy.Prelude.Dict.{Dict}
use web3_rpc_proxy.Endpoint.{State, FloatOps}
use web3_rpc_proxy.Prelude.Int.{ℤ}
use web3_rpc_proxy.EndpointService.Source.{EndpointChain, ProvidedRpc, load}
use web3_rpc_proxy.EndpointService.Service.{Service, purge_service}
use web3_rpc_proxy.Conf.{Koanf, load_endpoint_chains}
use web3_rpc_proxy.Conf.Loading.{endpoints_token}

-- What a handler leaves: the process has exited, a panic, or the new state.
pub data Handled {ℓ} (A : Type ℓ) : Type ℓ where
  exited : Handled A
  panicked : A → Handled A
  done : A → Handled A

-- The configuration and the endpoint service, which read it and are told of a change.
pub record Running (F S : Type 0) : Type 0 where
  pub conf : S
  pub service : Service F

module _ {L V S : Type 0} (k : Koanf L V S) (decimal : ℕ → String)
    (parse_list : String → Option V) where
  abbrev pub after_set : {F : Type 0} → Running F S → S → Handled (Running F S)
  after_set r s = elim (load_endpoint_chains k decimal endpoints_token s) [
    | none ↦ panicked (record r { conf = s })
    | some t ↦ done (record { conf = t; service = purge_service r.service })
  ]

  -- The handler of a new value; a value that does not parse is fatal.
  unfoldable pub reload : {F : Type 0} → String → Running F S → Handled (Running F S)
  reload value r = elim (parse_list value) [
    | none ↦ exited
    | some v ↦ after_set r (k.set endpoints_token v r.conf)
  ]

abbrev pub chain_path : (ℕ → String) → ℕ → String
chain_path decimal chain = str_append "chains." (decimal chain)

module _ {L V S : Type 0} (k : Koanf L V S) (decimal : ℕ → String) where
  -- The entry of the configuration from which the endpoint service loads a chain, if it has one; a value
  -- that is no chain is a panic.
  unfoldable pub entry : ℕ → S → Option (Option EndpointChain)
  entry chain s =
      let v = k.get (chain_path decimal chain) s in
      if k.is_nil v then some none else elim (k.chain_of v) [ none ↦ none | some c ↦ some (some c) ]

module _ {L V S F : Type 0} (k : Koanf L V S) (decimal : ℕ → String)
    (parse_list : String → Option V) (fl : FloatOps F) (parse_url : String → Option String)
    (now : ℤ) (visit : Dict String (State F) → Dict String (State F)) where
  abbrev pub load_described :
      Option (Option EndpointChain)
      → Option (Option String × List ProvidedRpc)
      → Option (List (State F))
  load_described none answer = none
  load_described (some o) answer = load fl parse_url now decimal visit o answer

  -- What `GetAll` loads of a chain by a configuration, with the provider's answer if there is a provider.
  abbrev pub load_by : S → ℕ → Option (Option String × List ProvidedRpc) → Option (List (State F))
  load_by conf chain answer = load_described (entry k decimal chain conf) answer

  -- The description of a chain after a reload: that of the new list, and the old one where it names none.
  abbrev pub newly_described :
      Option EndpointChain → Option (Option EndpointChain) → Option (Option EndpointChain)
  newly_described none old = old
  newly_described (some c) old = some (some c)
