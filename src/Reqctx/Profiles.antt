-- ===== src/Reqctx/Profiles.antt =====
-- What the profile of a request says, whatever calls its context has had.
use mathlib.Core.Path.{subst}
use Prim.Native.String.{◌++◌ as str_append}
use web3_rpc_proxy.Prelude.{
  ℕ, String, ◌≡◌, refl, Option, none, some, List, [], ◌∷◌, arith, Option-cases, inl, inr,
  string_comparable,
}
use web3_rpc_proxy.Prelude.Int.{ℤ}
use web3_rpc_proxy.Prelude.Dict.{lookup}
use web3_rpc_proxy.Json.{Fields}
use web3_rpc_proxy.Reqctx.{Parsers, Chain, resolve_chain}
use web3_rpc_proxy.Reqctx.Context.{
  Incoming, query_args, to_profile, Conf, Tenant, Context, OptionsProfile, chain_id, set_chain,
  configured, set_app, options, blank, described, new_reqctx,
}

pub data ContextCall : Type 0 where
  asks_chain asks_options : ContextCall
  sets_chain : Chain → ContextCall
  sets_app : Tenant → ContextCall

module _ (p : Parsers) (decimal : ℕ → String) (chains_of : Fields → Option (List Chain)) where
  abbrev context_of {ℓ} : {A : Type ℓ} → Option (A × Context) → Option Context
  context_of none = none
  context_of (some (out, c)) = some c

  unfoldable pub context_step : Context → ContextCall → Option Context
  context_step c asks_chain = context_of (chain_id p decimal c)
  context_step c asks_options = some (options p decimal c)
  context_step c (sets_chain chain) = some (set_chain p decimal chain c)
  context_step c (sets_app tenant) = set_app p decimal chains_of tenant c

  unfoldable pub context_run : Context → List ContextCall → Option Context
  context_run c [] = some c
  context_run c (x ∷ xs) = elim (context_step c x) [ none ↦ none | some d ↦ context_run d xs ]

  abbrev pub number_of : Option Chain → ℕ
  number_of none = 0
  number_of (some chain) = chain.id

  abbrev pub tenant_number : Option Tenant → ℕ
  tenant_number none = 0
  tenant_number (some tenant) = tenant.id

  pub record Agrees (c : Context) : Type 0 where
    pub same_chain : c.profile.chain_id ≡ number_of c.chain
    pub same_app : c.profile.app_id ≡ tenant_number c.app
    pub unresolved : c.chain ≡ none → c.incoming ≡ none
    pub same_options :
        (o : OptionsProfile) → c.profile.options ≡ some o → o ≡ to_profile p (query_args c.incoming)

  chain_id-Agrees :
      (c t : Context) (n : ℕ) → chain_id p decimal c ≡ some (n, t) → Agrees c → Agrees t
  unfolding chain_id resolve_chain
  chain_id-Agrees c t n h v = elim (Option-cases c.chain) [
    | inr (chain, e) ↦ subst Agrees (ground (arith, e, h)) v
    | inl e ↦
        let i : c.incoming ≡ none = v.unresolved e in
        let same : record c { chain = some (record { id = 0; code = "" }) } ≡ t =
          ground (arith, e, i, h) in
        subst Agrees same (record {
          same_chain = ground (arith, e, v.same_chain);
          same_app = v.same_app;
          unresolved = λ q. absurd (cc q);
          same_options = v.same_options;
        })
  ]

  options-Agrees : (c : Context) → Agrees c → Agrees (options p decimal c)
  unfolding options
  options-Agrees c v = elim (Option-cases c.profile.options) [
    | inr (o, e) ↦ rw (e, options) v
    | inl e ↦
        rw (e, options)
          (record {
            same_chain = v.same_chain;
            same_app = v.same_app;
            unresolved = v.unresolved;
            same_options = λ o q. cc q;
          })
  ]

  with_app-Agrees :
      (c : Context) (tenant : Tenant) (conf : Conf)
      → Agrees c
      → Agrees (record c {
        app = some tenant;
        conf = conf;
        profile = record (c.profile) { app_id = tenant.id };
      })
  with_app-Agrees c tenant conf v = record {
    same_chain = v.same_chain;
    same_app = refl;
    unresolved = v.unresolved;
    same_options = v.same_options;
  }

  set_app-Agrees :
      (c t : Context) (tenant : Tenant)
      → set_app p decimal chains_of tenant c ≡ some t
      → Agrees c
      → Agrees t
  unfolding set_app
  set_app-Agrees c t tenant h v =
      elim (Option-cases (configured p decimal chains_of tenant.configuration c.conf)) [
        | inl e ↦ absurd (ground (arith, e, h))
        | inr (conf, e) ↦
            let same : record c {
              app = some tenant;
              conf = conf;
              profile = record (c.profile) { app_id = tenant.id };
            }
                ≡ t =
              ground (arith, e, h) in
            subst Agrees same (with_app-Agrees c tenant conf v)
      ]

  new_reqctx-Agrees :
      (uuid : String) (now : ℤ) (conf : Conf) (incoming : Option Incoming) (c : Context)
      → new_reqctx p decimal uuid now conf incoming ≡ some c
      → Agrees c
  unfolding new_reqctx chain_id
  new_reqctx-Agrees uuid now conf none c h =
      let c0 : Context = record {
        incoming = none;
        conf = conf;
        chain = none;
        app = none;
        profile = blank p decimal uuid now;
      } in
      let same : c0 ≡ c = ground (arith, h) in
      subst Agrees same (record {
        same_chain = refl;
        same_app = refl;
        unresolved = λ q. refl;
        same_options = λ o q. absurd (cc q);
      })
  new_reqctx-Agrees uuid now conf (some i) c h =
      elim (Option-cases
        (resolve_chain p (λ name. lookup (str_append "chains." name) conf) (some i.ctx))) [
          | inl e ↦ absurd (ground (arith, e, h))
          | inr (chain, e) ↦
              let c0 : Context = record {
                incoming = some i;
                conf = conf;
                chain = some chain;
                app = none;
                profile = described p decimal i chain.id (blank p decimal uuid now);
              } in
              let same : c0 ≡ c = ground (arith, e, h) in
              subst Agrees same (record {
                same_chain = refl;
                same_app = refl;
                unresolved = λ q. absurd (cc q);
                same_options = λ o q. absurd (cc q);
              })
        ]

  context_step-Agrees :
      (c t : Context) (x : ContextCall) → context_step c x ≡ some t → Agrees c → Agrees t
  unfolding context_step set_chain
  context_step-Agrees c t asks_chain h v = elim (Option-cases (chain_id p decimal c)) [
    | inl e ↦ absurd (ground (arith, e, h))
    | inr ((n, d), e) ↦ chain_id-Agrees c t n (ground (arith, e, h)) v
  ]
  context_step-Agrees c t asks_options h v =
      let same : options p decimal c ≡ t = ground (arith, h) in
      subst Agrees same (options-Agrees c v)
  context_step-Agrees c t (sets_chain chain) h v =
      let same : record c {
        chain = some chain;
        profile = record (c.profile) { chain_id = chain.id };
      }
          ≡ t =
        ground (arith, h) in
      subst Agrees same (record {
        same_chain = refl;
        same_app = v.same_app;
        unresolved = λ q. absurd (cc q);
        same_options = v.same_options;
      })
  context_step-Agrees c t (sets_app tenant) h v = set_app-Agrees c t tenant h v

  run-Agrees :
      (c t : Context) (xs : List ContextCall) → context_run c xs ≡ some t → Agrees c → Agrees t
  unfolding context_run
  run-Agrees c t [] h v = subst Agrees (ground (arith, h)) v
  run-Agrees c t (x ∷ xs) h v = elim (Option-cases (context_step c x)) [
    | inl e ↦ absurd (ground (arith, e, h))
    | inr (d, e) ↦ run-Agrees d t xs (ground (arith, e, h)) (context_step-Agrees c d x e v)
  ]

  -- After any calls of a new request context that do not panic, its profile has the number of the chain
  -- and of the tenant that the context has, and, once the options were asked for, those that the
  -- arguments of its request give; a chain that is not resolved is that of a context without a request.
  pub context_run-Agrees :
      (uuid : String) (now : ℤ) (conf : Conf) (incoming : Option Incoming) (c t : Context)
      (xs : List ContextCall)
      → new_reqctx p decimal uuid now conf incoming ≡ some c
      → context_run c xs ≡ some t
      → Agrees t
  context_run-Agrees uuid now conf incoming c t xs n h =
      run-Agrees c t xs h (new_reqctx-Agrees uuid now conf incoming c n)
