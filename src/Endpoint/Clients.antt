-- ===== src/Endpoint/Clients.antt =====
-- internal/core/endpoint/client.go: the clients of endpoints, which are kept by URL. The cache of
-- golang-lru, the connecting of a WebSocket and what net/http makes of a request are the record `Makers`,
-- over a world `W`; connecting gives no client where no connection was made.
use web3_rpc_proxy.Prelude.{
  List, ℕ, suc, zero, String, ◌≡◌, ◌∙◌, Bool, ◌||◌, Option, none, some, arith, Option-cases, inl,
  inr, if◌then◌else◌,
}
use web3_rpc_proxy.HttpClient.Making.{HttpRequest, new_http_client}
use web3_rpc_proxy.WsClient.Making.{new_web_socket_client}

-- A client: of HTTP, which keeps its endpoint and the request that its calls clone, or of WebSockets.
pub data Client (C E : Type 0) : Type 0 where
  http_client : E → HttpRequest → Client C E
  web_socket_client : C → Client C E

pub record Makers (C E W : Type 0) : Type 0 where
  pub url : E → String
  pub has_prefix : String → String → Bool
  pub cached : String → W → Option (Client C E) × W
  pub add : String → Client C E → W → W
  pub connect : E → W → Option C × W
  pub headers : E → List (String × String)
  -- net/http's NewRequest takes the address.
  pub parses : String → Bool

module _ {C E W : Type 0} (m : Makers C E W) where
  abbrev on_web_socket : String → Bool
  on_web_socket u = m.has_prefix u "wss://" || m.has_prefix u "ws://"

  abbrev of_connection : Option C × W → Option (Client C E) × W
  of_connection (none, w) = (none, w)
  of_connection (some c, w) = (some (web_socket_client c), w)

  -- Dialling until it gives a client, so many times.
  unfoldable pub dial : ℕ → E → W → Option (Client C E) × W
  dial zero e w = (none, w)
  dial (suc n) e w =
      let (client, w') = of_connection (new_web_socket_client (m.url e) (m.connect e) w) in
      let rest = dial n e w' in elim client [ none ↦ rest | some c ↦ (some c, w') ]

  abbrev of_request : E → Option HttpRequest → Option (Client C E)
  of_request e none = none
  of_request e (some r) = some (http_client e r)

  abbrev pub new_client : E → W → Option (Client C E) × W
  new_client e w =
      if on_web_socket (m.url e)
      then dial 3 e w
      else (of_request e (new_http_client m.parses (m.url e) (m.headers e)), w)

  abbrev pub keep : E → Option (Client C E) × W → Option (Client C E) × W
  keep e (none, w) = (none, w)
  keep e (some c, w) = (some c, m.add (m.url e) c w)

  -- `GetClient`
  unfoldable pub get_client : E → W → Option (Client C E) × W
  unfolding dial
  get_client e w =
      let (client, w') = m.cached (m.url e) w in
      elim client [ some c ↦ (some c, w') | none ↦ keep e (new_client e w') ]

  -- What the cache promises: what was added is found, and what was found is found again.
  pub record Keeps : Type 0 where
    pub cached-add : (u : String) (c : Client C E) (w : W) → (m.cached u (m.add u c w)).0 ≡ some c
    pub cached_again :
        (u : String) (c : Client C E) (w : W)
        → (m.cached u w).0 ≡ some c
        → (m.cached u (m.cached u w).1).0 ≡ some c

  keep_cached :
      Keeps
      → (e : E) (out : Option (Client C E) × W) (c : Client C E) → (keep e out).0 ≡ some c
      → (m.cached (m.url e) (keep e out).1).0 ≡ some c
  keep_cached k e (none, w) c h = absurd (cc h)
  keep_cached k e (some d, w) c h = k.cached-add (m.url e) d w ∙ h

  get_client-cached :
      (e : E) (w : W) (c : Client C E)
      → (m.cached (m.url e) w).0 ≡ some c
      → get_client e w ≡ (some c, (m.cached (m.url e) w).1)
  unfolding get_client
  get_client-cached e w c h = ground (arith, h)

  found :
      Keeps
      → (e : E) (w : W) (c : Client C E) → (get_client e w).0 ≡ some c
      → (m.cached (m.url e) (get_client e w).1).0 ≡ some c
  unfolding get_client
  found k e w c h = elim (Option-cases (m.cached (m.url e) w).0) [
    | inl n ↦ ground (arith, n, h, keep_cached k e (new_client e (m.cached (m.url e) w).1) c)
    | inr (d, n) ↦ ground (arith, n, h, k.cached_again (m.url e) d w n)
  ]

  -- Where the cache keeps its promises, a client that an endpoint was given is given to it again, and no
  -- other is made: an HTTP client, or a WebSocket client, whichever of three dials it took.
  pub get_client_again :
      Keeps
      → (e : E) (w : W) (c : Client C E) → (get_client e w).0 ≡ some c
      → get_client e (get_client e w).1 ≡ (some c, (m.cached (m.url e) (get_client e w).1).1)
  get_client_again k e w c h = get_client-cached e (get_client e w).1 c (found k e w c h)
