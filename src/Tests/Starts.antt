-- ===== src/Tests/Starts.antt =====
-- Examples of the configuration: a store that is a function of paths, its documents likewise.
use web3_rpc_proxy.Prelude.{
  ℕ, Bool, String, ◌≡◌, refl, true, false, not, Option, none, some, List, [], ◌∷◌, ◌==◌, is_some,
  string_comparable, nat_comparable, beq_refl, arith, if◌then◌else◌,
}
use web3_rpc_proxy.Prelude.Int.{ℤ, pos}
use web3_rpc_proxy.Endpoint.{State}
use web3_rpc_proxy.Endpoint.Creation.{EndpointInfo}
use web3_rpc_proxy.EndpointService.Source.{EndpointChain, load}
use web3_rpc_proxy.EndpointService.Service.{Service, new_service}
use web3_rpc_proxy.Conf.{Koanf, IsLawful}
use web3_rpc_proxy.Conf.Reloading.{Running}
use web3_rpc_proxy.Conf.Watching.{
  put, Watcher, receive_all, receive_all-lost, watching_by, reloading,
}
use web3_rpc_proxy.Tests.{floats}

-- The values of the examples.
data Stored : Type 0 where
  nothing : Stored
  words : String → Stored
  chains : List EndpointChain → Stored
  chain : EndpointChain → Stored

abbrev Store : Type 0
Store = String → Option Stored

abbrev stored_or : Option Stored → Stored
stored_or none = nothing
stored_or (some v) = v

abbrev words_of : Stored → String
words_of (words s) = s
words_of _ = ""

abbrev chains_of : Stored → Option (List EndpointChain)
chains_of (chains cs) = some cs
chains_of _ = none

abbrev chain_of_stored : Stored → Option EndpointChain
chain_of_stored (chain c) = some c
chain_of_stored _ = none

abbrev no_value : Stored → Bool
no_value nothing = true
no_value _ = false

abbrev over : Option Stored → Option Stored → Option Stored
over none v = v
over (some u) v = some u

abbrev koanf : Koanf Store Stored Store
koanf = record {
  exists = λ p s. is_some (s p);
  get = λ p s. stored_or (s p);
  string = λ p s. words_of (stored_or (s p));
  bool = λ p s. false;
  set = λ q v s p. if p == q then some v else s p;
  merge = λ l s p. over (l p) (s p);
  list_of = chains_of;
  of_chain = chain;
  chain_of = chain_of_stored;
  is_nil = no_value;
  is_map = λ v. false;
  apart = λ p q. not (p == q);
}

koanf-IsLawful : IsLawful koanf
koanf-IsLawful = record {
  get-set = λ p v s m. rw (beq_refl p) refl;
  get-set_apart = λ p q v s h. ground arith;
  exists-set = λ p v s m. rw (beq_refl p) refl;
  exists-set_apart = λ p q v s h. ground arith;
  chain_of-of_chain = λ c. refl;
  of_chain-no_map = λ c. refl;
  of_chain-no_nil = λ c. refl;
}

abbrev says : String → Stored → Store
says q v p = if p == q then some v else none

abbrev empty : Store
empty p = none

abbrev info : EndpointInfo
info = record { url = "https://a"; headers = none; weight = none }

abbrev chain_of_number : ℕ → EndpointChain
chain_of_number n = record {
  chain_id = n;
  chain_code = "c";
  endpoints = some (info ∷ []);
  services = none;
}

abbrev first_chain : EndpointChain
first_chain = chain_of_number 1

abbrev decimal : ℕ → String
decimal n = if n == 1 then "1" else if n == 7 then "7" else "2"

-- The chain 7 was configured, and the new list names the chain 1 alone.
abbrev old_store : Store
old_store = says "chains.7" (chain (chain_of_number 7))

abbrev running : Running ℤ Store
running = record { conf = old_store; service = new_service }

abbrev parse_list : String → Option Stored
parse_list s = if s == "bad" then some (words "bad") else some (chains (first_chain ∷ []))

abbrev visit : {A : Type 0} → A → A
visit d = d

abbrev listed : Option (List (State ℤ)) → List (State ℤ)
listed none = []
listed (some ss) = ss

abbrev states : List (State ℤ)
states = listed (load floats (λ u. some u) (pos 1) decimal (λ d. d) (some (chain_of_number 7)) none)

receive_all-lost_example :
    (w : Watcher (Running ℤ Store)) × (receive_all "key"
        ((put (some "bad") ∷ []) ∷ (put (some "new") ∷ []) ∷ [])
        (watching_by "key" (reloading koanf decimal parse_list))
        running
      ≡ some (
        record running { conf = λ p. if p == "endpoints" then some (words "bad") else old_store p },
        w,
      ))
    × (w.watching ≡ [])
receive_all-lost_example =
    receive_all-lost koanf decimal parse_list "key" "bad" (words "bad")
      ((put (some "new") ∷ []) ∷ []) running koanf-IsLawful refl refl refl
