-- ===== src/Cache/Consistency.antt =====
-- The two maps of the cache agree: a chain lists exactly the URLs of its endpoints, each once.
use web3_rpc_proxy.Prelude.{
  ℕ, ◌+◌, String, ◌≡◌, refl, Option, none, some, List, [], ◌∷◌, ◌++◌, ◌==◌, nat_comparable,
  string_comparable, nat_beq_iff, eq_iff, arith, if◌then◌else◌, Option-cases, inl, inr,
}
use web3_rpc_proxy.Prelude.Dict.{Dict, lookup, insert, remove, lookup-insert, lookup-remove}
use web3_rpc_proxy.Cache.{
  Cache, new_cache, urls_of, urls_or_nil, delete_url, delete_all, put, remove_url, purge,
}

-- How often a URL stands in a list.
abbrev pub times : String → List String → ℕ
times k [] = 0
times k (u ∷ us) = let rest = times k us in if u == k then rest + 1 else rest

module _ {E : Type 0} (url : E → String) (chain_id : E → ℕ) where
  -- The chain of a URL's endpoint lists it once, and no other chain lists it.
  abbrev pub listed : Option E → ℕ → ℕ
  listed none id = 0
  listed (some e) id = if chain_id e == id then 1 else 0

  abbrev UrlIs : String → Option E → Type 0
  UrlIs k none = Unit
  UrlIs k (some e) = url e ≡ k

  pub record Consistent (c : Cache E) : Type 0 where
    pub at_url : (k : String) (id : ℕ) → times k (urls_of id c) ≡ listed (lookup k c.endpoints) id
    pub own_url : (k : String) → UrlIs k (lookup k c.endpoints)

times-append :
    (k u : String) (us : List String)
    → times k (us ++ u ∷ []) ≡ times k us + (if u == k then 1 else 0)
times-append k u [] = ground arith
times-append k u (v ∷ us) = ground (arith, times-append k u us)

times-delete_url :
    (k u : String) (us : List String)
    → times k (delete_url u us) ≡ (if u == k then 0 else times k us)
times-delete_url k u [] = ground arith
times-delete_url k u (v ∷ us) =
    ground (arith, times-delete_url k u us, eq_iff v u, eq_iff v k, eq_iff u k)

pub lookup-delete_all :
    {E : Type 0} (k : String) (us : List String) (m : Dict String E)
    → lookup k (delete_all us m) ≡ (if times k us == 0 then lookup k m else none)
unfolding delete_all
lookup-delete_all k [] m = refl
lookup-delete_all k (u ∷ us) m =
    ground (arith, lookup-delete_all k us (remove u m), lookup-remove k u m)

urls-insert :
    {E : Type 0} (id j : ℕ) (us : List String) (c : Cache E)
    → urls_or_nil (lookup id (insert j us c.chains)) ≡ (if j == id then us else urls_of id c)
urls-insert id j us c = ground (arith, lookup-insert id j us c.chains)

module _ {E : Type 0} (url : E → String) (chain_id : E → ℕ) (c : Cache E) where
  module _ (h : Consistent url chain_id c) (k : String) (id : ℕ) where
    put-times :
        (e : E)
        → times k (urls_of id (put url chain_id e c))
          ≡ listed url chain_id (lookup k (put url chain_id e c).endpoints) id
    unfolding put
    put-times e = ground (
      arith,
      h.at_url k id,
      h.at_url (url e) (chain_id e),
      h.at_url k (chain_id e),
      lookup-insert k (url e) e c.endpoints,
      urls-insert id (chain_id e) (urls_of (chain_id e) c ++ url e ∷ []) c,
      urls-insert id (chain_id e) (delete_url (url e) (urls_of (chain_id e) c)) c,
      times-append k (url e) (urls_of (chain_id e) c),
      times-delete_url k (url e) (urls_of (chain_id e) c),
      eq_iff (url e) k,
      nat_beq_iff (chain_id e) id,
    )

    remove-times :
        (u : String)
        → times k (urls_of id (remove_url url chain_id u c))
          ≡ listed url chain_id (lookup k (remove_url url chain_id u c).endpoints) id
    unfolding remove_url
    remove-times u = elim (Option-cases (lookup u c.endpoints)) [
      | inl e ↦ ground (arith, e, h.at_url k id)
      | inr (v, e) ↦ ground (
        arith,
        e,
        h.at_url k id,
        h.at_url u id,
        h.at_url k (chain_id v),
        lookup-remove k u c.endpoints,
        urls-insert id (chain_id v) (delete_url u (urls_of (chain_id v) c)) c,
        times-delete_url k u (urls_of (chain_id v) c),
        eq_iff u k,
        nat_beq_iff (chain_id v) id,
      )
    ]

    purge-times :
        (j : ℕ)
        → times k (urls_of id (purge j c).0)
          ≡ listed url chain_id (lookup k (purge j c).0.endpoints) id
    unfolding purge
    purge-times j = elim (Option-cases (lookup j c.chains)) [
      | inl e ↦ ground (arith, e, h.at_url k id)
      | inr (us, e) ↦ ground (
        arith,
        e,
        h.at_url k id,
        h.at_url k j,
        lookup-delete_all k us c.endpoints,
        lookup-remove id j c.chains,
        nat_beq_iff j id,
      )
    ]

  module _ (h : Consistent url chain_id c) (k : String) where
    put-own : (e : E) → UrlIs url chain_id k (lookup k (put url chain_id e c).endpoints)
    unfolding put
    put-own e = ground (arith, h.own_url k, lookup-insert k (url e) e c.endpoints, eq_iff (url e) k)

    remove-own :
        (u : String) → UrlIs url chain_id k (lookup k (remove_url url chain_id u c).endpoints)
    unfolding remove_url
    remove-own u = ground (arith, h.own_url k, lookup-remove k u c.endpoints)

    purge-own : (j : ℕ) → UrlIs url chain_id k (lookup k (purge j c).0.endpoints)
    unfolding purge
    purge-own j = elim (Option-cases (lookup j c.chains)) [
      | inl e ↦ ground (arith, e, h.own_url k)
      | inr (us, e) ↦ ground (arith, e, h.own_url k, lookup-delete_all k us c.endpoints)
    ]

-- One operation that changes the cache.
pub data Op (E : Type 0) : Type 0 where
  put_op : E → Op E
  remove_op : String → Op E
  purge_op : ℕ → Op E

module _ {E : Type 0} (url : E → String) (chain_id : E → ℕ) where
  unfoldable pub step : Cache E → Op E → Cache E
  step c (put_op e) = put url chain_id e c
  step c (remove_op u) = remove_url url chain_id u c
  step c (purge_op id) = (purge id c).0

  unfoldable pub run : Cache E → List (Op E) → Cache E
  run c [] = c
  run c (op ∷ ops) = run (step c op) ops

  -- Every operation keeps the two maps in agreement.
  pub step-Consistent :
      (c : Cache E) (op : Op E) → Consistent url chain_id c → Consistent url chain_id (step c op)
  unfolding step
  step-Consistent c (put_op e) h = record {
    at_url = λ k id. put-times url chain_id c h k id e;
    own_url = λ k. put-own url chain_id c h k e;
  }
  step-Consistent c (remove_op u) h = record {
    at_url = λ k id. remove-times url chain_id c h k id u;
    own_url = λ k. remove-own url chain_id c h k u;
  }
  step-Consistent c (purge_op j) h = record {
    at_url = λ k id. purge-times url chain_id c h k id j;
    own_url = λ k. purge-own url chain_id c h k j;
  }

  run-from :
      (c : Cache E) (ops : List (Op E))
      → Consistent url chain_id c
      → Consistent url chain_id (run c ops)
  unfolding run
  run-from c [] h = h
  run-from c (op ∷ ops) h = run-from (step c op) ops (step-Consistent c op h)

  -- After any operations on a new cache, every chain lists exactly the URLs of its endpoints, each
  -- once, and every endpoint is kept under its own URL.
  pub run-Consistent : (ops : List (Op E)) → Consistent url chain_id (run new_cache ops)
  run-Consistent ops =
      run-from new_cache ops (unfold lookup in record { at_url = λ k id. refl; own_url = λ k. tt })
