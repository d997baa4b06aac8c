-- ===== src/Cache/Puts.antt =====
-- Putting many new endpoints of one chain, and reading the chain afterwards.
use mathlib.Core.List.{append_assoc, append-nil}
use web3_rpc_proxy.Prelude.{
  ℕ, String, ◌≡◌, refl, sym, ap, ◌∙◌, false, none, some, List, [], ◌∷◌, ◌++◌, map, length, All,
  ◌==◌, string_comparable, nat_comparable, eq_iff, nat_beq_iff, arith, leb, if◌then◌else◌,
  Option-cases, inl, inr,
}
use web3_rpc_proxy.Prelude.Dict.{lookup, lookup-insert}
use web3_rpc_proxy.Cache.{Cache, urls_of, put, get_all}

-- No URL stands twice.
abbrev pub Distinct : List String → Type 0
Distinct [] = Unit
Distinct (u ∷ us) = All (λ v. (u == v) ≡ false) us × Distinct us

abbrev pub Unknown : {E : Type 0} → Cache E → List String → Type 0
Unknown c us = All (λ u. lookup u c.endpoints ≡ none) us

pub get_all-urls_of :
    {E : Type 0} (id : ℕ) (c : Cache E)
    → get_all id c ≡ (map (λ k. lookup k c.endpoints) (urls_of id c), leb 1 (length (urls_of id c)))
unfolding get_all
get_all-urls_of id c = elim (Option-cases (lookup id c.chains)) [
  | inl e ↦ ground (arith, e)
  | inr (us, e) ↦ ground (arith, e)
]

module _ {E : Type 0} (url : E → String) (chain_id : E → ℕ) where
  unfoldable pub put_all : List E → Cache E → Cache E
  put_all [] c = c
  put_all (e ∷ es) c = put_all es (put url chain_id e c)

  put_keeps :
      (e f : E) (k : String) (c : Cache E)
      → lookup k c.endpoints ≡ some f
      → lookup k (put url chain_id e c).endpoints ≡ some f
  unfolding put
  put_keeps e f k c h = ground (arith, h, lookup-insert k (url e) e c.endpoints, eq_iff (url e) k)

  put_all_keeps :
      (es : List E) (f : E) (k : String) (c : Cache E)
      → lookup k c.endpoints ≡ some f
      → lookup k (put_all es c).endpoints ≡ some f
  unfolding put_all
  put_all_keeps [] f k c h = h
  put_all_keeps (e ∷ es) f k c h = put_all_keeps es f k (put url chain_id e c) (put_keeps e f k c h)

  put_new :
      (e : E) (k : String) (c : Cache E)
      → lookup (url e) c.endpoints ≡ none
      → lookup k (put url chain_id e c).endpoints
        ≡ (if url e == k then some e else lookup k c.endpoints)
  unfolding put
  put_new e k c h = ground (arith, h, lookup-insert k (url e) e c.endpoints)

  put_urls :
      (e : E) (c : Cache E)
      → lookup (url e) c.endpoints ≡ none
      → urls_of (chain_id e) (put url chain_id e c) ≡ urls_of (chain_id e) c ++ url e ∷ []
  unfolding put
  put_urls e c h = ground (
    arith,
    h,
    lookup-insert (chain_id e) (chain_id e) (urls_of (chain_id e) c ++ url e ∷ []) c.chains,
    nat_beq_iff (chain_id e) (chain_id e),
  )

  put-Unknown :
      (e : E) (us : List String) (c : Cache E)
      → lookup (url e) c.endpoints ≡ none
      → All (λ v. (url e == v) ≡ false) us
      → Unknown c us
      → Unknown (put url chain_id e c) us
  put-Unknown e [] c h d k = tt
  put-Unknown e (u ∷ us) c h d k =
      (ground (arith, put_new e u c h, d.0, k.0), put-Unknown e us c h d.1 k.1)

  module _ (id : ℕ) where
    put_all_urls :
        (es : List E) (c : Cache E)
        → All (λ e. chain_id e ≡ id) es
        → Distinct (map url es)
        → Unknown c (map url es)
        → urls_of id (put_all es c) ≡ urls_of id c ++ map url es
    unfolding put_all
    put_all_urls [] c h d k = sym (append-nil (urls_of id c))
    put_all_urls (e ∷ es) c h d k =
        let one : urls_of id (put url chain_id e c) ≡ urls_of id c ++ url e ∷ [] =
          rw (← h.0) (put_urls e c k.0) in
        put_all_urls es (put url chain_id e c) h.1 d.1 (put-Unknown e (map url es) c k.0 d.0 k.1)
        ∙ ap (λ us. us ++ map url es) one
        ∙ append_assoc (urls_of id c) (url e ∷ []) (map url es)

    put_all_found :
        (es : List E) (c : Cache E)
        → Distinct (map url es)
        → Unknown c (map url es)
        → map (λ k. lookup k (put_all es c).endpoints) (map url es) ≡ map some es
    unfolding put_all
    put_all_found [] c d k = refl
    put_all_found (e ∷ es) c d k =
        let c' = put url chain_id e c in
        let here : lookup (url e) c'.endpoints ≡ some e =
          ground (arith, put_new e (url e) c k.0, eq_iff (url e) (url e)) in
        cc (
          put_all_keeps es e (url e) c' here,
          put_all_found es c' d.1 (put-Unknown e (map url es) c k.0 d.0 k.1),
        )

    -- Of a chain that lists no URL, after new endpoints of the chain have been put, `GetAll` gives them
    -- all, in the order in which they were put; where no URL stands twice, and none was known before.
    pub get_all-put_all :
        (es : List E) (c : Cache E)
        → urls_of id c ≡ []
        → All (λ e. chain_id e ≡ id) es
        → Distinct (map url es)
        → Unknown c (map url es)
        → get_all id (put_all es c) ≡ (map some es, leb 1 (length (map url es)))
    get_all-put_all es c n h d k =
        let us : urls_of id (put_all es c) ≡ map url es =
          put_all_urls es c h d k ∙ ap (λ us. us ++ map url es) n in
        get_all-urls_of id (put_all es c)
        ∙ ap (λ us. (map (λ k. lookup k (put_all es c).endpoints) us, leb 1 (length us))) us
        ∙ ap (λ slots. (slots, leb 1 (length (map url es)))) (put_all_found es c d k)
