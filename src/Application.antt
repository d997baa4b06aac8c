-- ===== src/Application.antt =====
-- internal/app/application.go, with ParseAddress of utils/config/config.go: where the server listens and how
-- it is set up. fasthttp is not modelled.
use Prim.Native.Char.{code}
use Prim.Native.String.{◌++◌ as str_append}
use Prim.Native.String.append as Append
use web3_rpc_proxy.Prelude.{
  ℕ, ◌+◌, String, ◌≡◌, ◌∙◌, refl, ap, Bool, true, false, Option, none, some, List, [], ◌∷◌, length,
  ◌==◌, arith, string_comparable, nat_comparable, if◌then◌else◌,
}
use web3_rpc_proxy.Prelude.Int.{ℤ}
use web3_rpc_proxy.Conf.{Koanf, read_or}

-- The text before and after its last colon, if it has one.
unfoldable pub split_last : String → Option (String × String)
split_last String.[] = none
split_last (String.◌∷◌ c s) = elim (split_last s) [
  | some (before, after) ↦ some (String.◌∷◌ c before, after)
  | none ↦ if code c == b':' then some (String.[], s) else none
]

-- `ParseAddress`: the hostname and the port.
unfoldable pub parse_address : String → String × String
unfolding split_last
parse_address raw = elim (split_last raw) [ none ↦ (raw, "") | some parts ↦ parts ]

-- No character of the text is a colon.
abbrev pub NoColon : String → Type 0
NoColon String.[] = Unit
NoColon (String.◌∷◌ c s) = ((code c == b':') ≡ false) × NoColon s

split_last-NoColon : (s : String) → NoColon s → split_last s ≡ none
unfolding split_last
split_last-NoColon String.[] h = refl
split_last-NoColon (String.◌∷◌ c s) (n, h) = rw (split_last-NoColon s h) (rw n refl)

split_last-colon :
    (port : String) → NoColon port → split_last (String.◌∷◌ ":" port) ≡ some ("", port)
unfolding split_last
split_last-colon port h = rw (split_last-NoColon port h) refl

split_last-append :
    (host port : String)
    → NoColon port
    → split_last (str_append host (String.◌∷◌ ":" port)) ≡ some (host, port)
unfolding split_last
split_last-append String.[] port h =
    ap split_last (Append.nil (String.◌∷◌ ":" port)) ∙ split_last-colon port h
split_last-append (String.◌∷◌ c s) port h =
    ap split_last (Append.cons c s (String.◌∷◌ ":" port))
    ∙ ground (arith, split_last-append s port h)

-- The address that `Run` listens on.
abbrev pub address : String → String → String
address host port = str_append host (String.◌∷◌ ":" port)

-- An address that is made of a hostname and a port without a colon is parsed into them, whatever colons the
-- hostname has.
pub parse_address-address :
    (host port : String) → NoColon port → parse_address (address host port) ≡ (host, port)
unfolding parse_address
parse_address-address host port h = ground (arith, split_last-append host port h)

pub record Server (D : Type 0) : Type 0 where
  pub hostname : String
  pub port : String
  pub production : Bool
  pub print_routes : Bool
  pub app_name : String
  pub prefork : Bool
  pub concurrency : ℤ
  pub idle_timeout : D
  pub reduce_memory_usage : Bool
  pub tcp_keepalive : Bool
  pub max_conns_per_ip : ℤ

-- koanf's readers of numbers and durations, and the defaults of fasthttp and of the source.
pub record Readers (S D : Type 0) : Type 0 where
  pub int : String → S → ℤ
  pub duration : String → S → D
  pub default_concurrency : ℤ
  pub thirty_seconds : D

module _ {L V S D : Type 0} (k : Koanf L V S) (readers : Readers S D) (conf : S) where
  -- The hostname where none is given.
  abbrev pub any_host : String
  any_host =
      if read_or k k.string "app.network" ("tcp4" ∷ []) conf == "tcp6" then "[::1]" else "0.0.0.0"

  -- `NewApplication`
  unfoldable pub new_application : Server D
  new_application =
      let (host, port) = parse_address (read_or k k.string "app.host" ("0.0.0.0:8080" ∷ []) conf) in
      record {
        hostname = if host == "" then any_host else host;
        port = port;
        production = read_or k k.bool "app.production" (false ∷ []) conf;
        print_routes = read_or k k.bool "app.print-routes" (true ∷ []) conf;
        app_name = read_or k k.string "app.name" ("Web3 RPC Proxy" ∷ []) conf;
        prefork = read_or k k.bool "app.prefork" (false ∷ []) conf;
        concurrency =
            read_or k readers.int "app.concurrency" (readers.default_concurrency ∷ []) conf;
        idle_timeout =
            read_or k readers.duration "app.idle-timeout" (readers.thirty_seconds ∷ []) conf;
        reduce_memory_usage = read_or k k.bool "app.reduce-memory-usage" [] conf;
        tcp_keepalive = read_or k k.bool "app.tcp-keepalive" [] conf;
        max_conns_per_ip = read_or k readers.int "app.max-conns-per-ip" [] conf;
      }

  -- A configured address of a hostname and a port without a colon is the one that is listened on; an
  -- empty hostname stands for all addresses, or for the local one of IPv6 if the network is tcp6.
  pub new_application-address :
      (host port : String)
      → k.exists "app.host" conf ≡ true
      → k.string "app.host" conf ≡ address host port
      → NoColon port
      → (new_application.port ≡ port)
        × (new_application.hostname ≡ (if host == "" then any_host else host))
  unfolding new_application
  new_application-address host port e h n =
      let r : read_or k k.string "app.host" ("0.0.0.0:8080" ∷ []) conf ≡ address host port =
        unfold read_or in ground (arith, e, h) in
      let parsed = ap parse_address r ∙ parse_address-address host port n in
      (ap (λ x. x.1) parsed, ground (arith, parsed))

-- `HandlersCount`, over the routes by method.
unfoldable pub handlers_count : List (String × List String) → ℕ
handlers_count [] = 0
handlers_count ((m, paths) ∷ rest) = length paths + handlers_count rest

-- `Run`: whether the server that listens has child processes, and its address.
pub data Listening : Type 0 where
  listening : Bool → String → Listening

unfoldable pub listen_on : {D : Type 0} → Server D → Listening
listen_on a = listening a.prefork (address a.hostname a.port)
