-- ===== src/Conf/Chains.antt =====
-- Which chain a path of the configuration names, after the list of endpoints was gone through.
use web3_rpc_proxy.Prelude.{
  ℕ, String, ◌≡◌, ◌⊎◌, refl, Bool, true, false, ◌||◌, Option, none, some, List, [], ◌∷◌, All, arith,
  ◌==◌, string_comparable, if◌then◌else◌, Option-cases, inl, inr, eq_iff,
}
use web3_rpc_proxy.EndpointService.Source.{EndpointChain}
use web3_rpc_proxy.Conf.{Koanf, IsLawful, id_path, code_path, set_chains}

module _ {L V S : Type 0} (k : Koanf L V S) (decimal : ℕ → String) (p : String) where
  -- The chain is named by the path, by its number or by its code.
  abbrev pub named : EndpointChain → Bool
  named c = id_path k decimal c == p || code_path k c == p

  -- The last chain of the list that the path names.
  unfoldable pub last_named : List EndpointChain → Option EndpointChain
  last_named [] = none
  last_named (c ∷ cs) = elim (last_named cs) [
    | some d ↦ some d
    | none ↦ if named c then some c else none
  ]

  abbrev pub Clear : String → Type 0
  Clear q = ((q == p) ≡ true) ⊎ (((q == p) ≡ false) × (k.apart p q ≡ true))

  -- Each path of the chain is the path `p`, or neither is a part of the other.
  abbrev pub Separate : EndpointChain → Type 0
  Separate c = Clear (id_path k decimal c) × Clear (code_path k c)

  abbrev pub value_or : Option EndpointChain → V → V
  value_or none v = v
  value_or (some c) v = k.of_chain c

  get-set-Clear :
      IsLawful k
      → (q : String) (c : EndpointChain) (s : S) → Clear q
      → k.get p (k.set q (k.of_chain c) s) ≡ (if q == p then k.of_chain c else k.get p s)
  get-set-Clear h q c s (inl e) =
      rw e (rw ((eq_iff q p).0 e) (h.get-set p (k.of_chain c) s (h.of_chain-no_map c)))
  get-set-Clear h q c s (inr (n, e)) = rw n (h.get-set_apart p q (k.of_chain c) s e)

  get-set_chain :
      IsLawful k
      → (c : EndpointChain) (s : S) → Separate c
      → k.get p
          (k.set (code_path k c) (k.of_chain c) (k.set (id_path k decimal c) (k.of_chain c) s))
        ≡ (if named c then k.of_chain c else k.get p s)
  get-set_chain h c s (i, o) =
      let v = k.of_chain c in
      ground (
        arith,
        get-set-Clear h (code_path k c) c (k.set (id_path k decimal c) v s) o,
        get-set-Clear h (id_path k decimal c) c s i,
      )

  -- After the loop over a list of chains, a path has the last chain of the list that it names, by its number
  -- or by its code, and where it names none it has what it had before; where koanf keeps its promises, and
  -- no path that is set is a proper part of it, nor it of them.
  pub get-set_chains :
      IsLawful k
      → (cs : List EndpointChain) (s : S) → All Separate cs
      → k.get p (set_chains k decimal cs s) ≡ value_or (last_named cs) (k.get p s)
  unfolding set_chains last_named
  get-set_chains h [] s a = refl
  get-set_chains h (c ∷ cs) s (a, r) =
      let t = k.set (code_path k c) (k.of_chain c) (k.set (id_path k decimal c) (k.of_chain c) s) in
      let first = get-set_chain h c s a in
      elim (Option-cases (last_named cs)) [
        | inl n ↦ ground (arith, n, first, get-set_chains h cs t r)
        | inr (d, n) ↦ ground (arith, n, get-set_chains h cs t r)
      ]
