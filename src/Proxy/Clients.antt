-- ===== src/Proxy/Clients.antt =====
-- The clients of endpoints over HTTP: the one that is kept for a URL was made for an endpoint, which is not
-- the one that asks for it where the endpoints were configured anew.
use mathlib.Core.Path.{subst}
use web3_rpc_proxy.Prelude.{
  [], ◌∷◌, ℕ, String, ◌≡◌, ◌∙◌, ◌⊎◌, sym, ap, true, false, ◌||◌, none, some, List, contains, arith,
  ◌==◌, nat_comparable, string_comparable, eq_iff, if◌then◌else◌, Option-cases, Bool-cases, inl,
  inr,
}
use web3_rpc_proxy.HttpClient.Making.{HttpRequest, new_http_client, set_headers}
use web3_rpc_proxy.Endpoint.Clients.{Client, http_client, get_client}
use web3_rpc_proxy.Proxy.{Wiring}

module _ {C F R : Type 0} (wiring : Wiring C F R) where
  -- An endpoint that is addressed over HTTP, by an address of which net/http makes a request.
  abbrev pub OverHttp : ℕ → Type 0
  OverHttp e =
      let u = wiring.makers.url e in
      ((wiring.makers.has_prefix u "wss://" || wiring.makers.has_prefix u "ws://") ≡ false)
      × ((u == "") ≡ false)
      × (wiring.makers.parses u ≡ true)

  -- What golang-lru documents: looking up changes no other entry, an added client is found unless it is
  -- evicted, and adding may evict others; and making an id touches none.
  pub record IsLru : Type 0 where
    pub cached-cached :
        (u v : String) (w : R)
        → (wiring.makers.cached u (wiring.makers.cached v w).1).0 ≡ (wiring.makers.cached u w).0
    pub cached-add :
        (u v : String) (c : Client C ℕ) (w : R)
        → ((wiring.makers.cached u (wiring.makers.add v c w)).0 ≡ none)
          ⊎ ((wiring.makers.cached u (wiring.makers.add v c w)).0
              ≡ (if v == u then some c else (wiring.makers.cached u w).0))
    pub cached-fresh_id :
        (u : String) (w : R)
        → (wiring.makers.cached u (wiring.fresh_id w).1).0 ≡ (wiring.makers.cached u w).0

  module _ (es : List ℕ) where
    -- The endpoints of the list have different URLs.
    abbrev pub Unlike : Type 0
    Unlike =
        (r e : ℕ)
        → contains es r ≡ true
        → contains es e ≡ true
        → wiring.makers.url r ≡ wiring.makers.url e
        → r ≡ e

    -- A client that is kept for the URL of an endpoint of the list was made for that endpoint.
    pub record Own (w : R) : Type 0 where
      pub mine :
          (r : ℕ) (c : Client C ℕ)
          → contains es r ≡ true
          → (wiring.makers.cached (wiring.makers.url r) w).0 ≡ some c
          → (q : HttpRequest) × (c ≡ http_client r q)

    pub Own-fresh_id : (w : R) → IsLru → Own w → Own (wiring.fresh_id w).1
    Own-fresh_id w l o = record {
      mine = λ r c i h. o.mine r c i (sym (l.cached-fresh_id (wiring.makers.url r) w) ∙ h);
    }

    Own-cached : (v : String) (w : R) → IsLru → Own w → Own (wiring.makers.cached v w).1
    Own-cached v w l o = record {
      mine = λ r c i h. o.mine r c i (sym (l.cached-cached (wiring.makers.url r) v w) ∙ h);
    }

    added_mine :
        (e r : ℕ) (q : HttpRequest) (c : Client C ℕ) (w : R)
        → Unlike
        → Own w
        → contains es e ≡ true
        → contains es r ≡ true
        → (if wiring.makers.url e == wiring.makers.url r
            then some (http_client e q)
            else (wiring.makers.cached (wiring.makers.url r) w).0)
          ≡ some c
        → (p : HttpRequest) × (c ≡ http_client r p)
    added_mine e r q c w n o i j h =
        elim (Bool-cases (wiring.makers.url e == wiring.makers.url r)) [
          | inl b ↦
              let same = n e r i j ((eq_iff (wiring.makers.url e) (wiring.makers.url r)).0 b) in
              let it : some (http_client e q) ≡ some c = ground (arith, b, h) in
              let made : http_client e q ≡ c = cc it in
              (q, sym made ∙ ap (λ x. http_client x q) same)
          | inr b ↦ o.mine r c j (ground (arith, b, h))
        ]

    Own-add :
        (e : ℕ) (q : HttpRequest) (w : R)
        → IsLru
        → Unlike
        → contains es e ≡ true
        → Own w
        → Own (wiring.makers.add (wiring.makers.url e) (http_client e q) w)
    Own-add e q w l n i o = record {
      mine = λ r c j h.
          elim (l.cached-add (wiring.makers.url r) (wiring.makers.url e) (http_client e q) w) [
            | inl z ↦ absurd (cc (z, h))
            | inr z ↦ added_mine e r q c w n o i j (sym z ∙ h)
          ];
    }

    -- An endpoint of the list is given a client of its own, and all clients that are kept stay so.
    pub get_client-Own :
        (e : ℕ) (w : R)
        → IsLru
        → Unlike
        → OverHttp e
        → contains es e ≡ true
        → Own w
        → (q : HttpRequest) × ((get_client wiring.makers e w).0 ≡ some (http_client e q))
          × Own (get_client wiring.makers e w).1
    unfolding get_client new_http_client
    get_client-Own e w l n (h, a, p) i o =
        let u = wiring.makers.url e in
        let v = (wiring.makers.cached u w).1 in
        let kept = Own-cached u w l o in
        elim (Option-cases (wiring.makers.cached u w).0) [
          | inr (c, g) ↦
              let (q, made) = o.mine e c i g in
              let given : get_client wiring.makers e w ≡ (some c, v) = ground (arith, g) in
              (q, ap (λ x. x.0) given ∙ ap some made, subst Own (sym (ap (λ x. x.1) given)) kept)
          | inl g ↦
              let q : HttpRequest = record {
                method = "POST";
                address = u;
                header =
                    set_headers (wiring.makers.headers e)
                      (("Content-Type", "application/json") ∷ []);
              } in
              let given : get_client wiring.makers e w
                  ≡ (some (http_client e q), wiring.makers.add u (http_client e q) v) =
                ground (arith, h, a, p, g) in
              (
                q,
                ap (λ x. x.0) given,
                subst Own (sym (ap (λ x. x.1) given)) (Own-add e q v l n i kept),
              )
        ]
