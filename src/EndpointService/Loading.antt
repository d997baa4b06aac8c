-- ===== src/EndpointService/Loading.antt =====
-- What the endpoints loaded from the configuration are, and what merging does.
use web3_rpc_proxy.Prelude.{
  filter, none, some, ◌≤◌, String, ◌≡◌, refl, sym, ap, ◌∙◌, Option, some, List, [], ◌∷◌, ◌++◌, map,
  All, arith, Option-cases, inl, inr, ◌==◌, string_comparable, eq_iff, length, if◌then◌else◌,
}
use mathlib.Core.Path.{subst}
use web3_rpc_proxy.Prelude.Dict.{Dict, lookup, insert, lookup-insert}
use web3_rpc_proxy.Prelude.Int.{ℤ, pos}
use web3_rpc_proxy.Endpoint.{
  integer, int, uint64, str, url, headers, State, FloatOps, update, apply_all, apply, new_value,
  new, chain_id, chain_code, type, endpoint_url, read, Endpoint,
}
use web3_rpc_proxy.Endpoint.Updates.{read-insert, observe-some}
use web3_rpc_proxy.Endpoint.Creation.{EndpointInfo, weight_or, headers_or, new_with_info}
use web3_rpc_proxy.EndpointService.Source.{
  EndpointChain, EndpointServices, load_from_config, load_services, map_to_states, labelled,
  service_attributes, merge_item, merge_items, merge_arrays, merged,
}
use web3_rpc_proxy.Selector.{full_nodes}

module _ {A : Type 0} (iteratee : A → A → A) (unique : A → String) where
  -- The items of a list, each merged into what was merged before it.
  abbrev pub merged_all : Option A → List A → Option A
  merged_all o [] = o
  merged_all none (x ∷ xs) = merged_all (some x) xs
  merged_all (some a) (x ∷ xs) = merged_all (some (iteratee a x)) xs

  -- The items of an id.
  abbrev pub of_id : String → List A → List A
  of_id k = filter (λ x. unique x == k)

  merged_all-next :
      (o : Option A) (x : A) (xs : List A)
      → merged_all o (x ∷ xs) ≡ merged_all (some (merged iteratee unique x o)) xs
  merged_all-next none x xs = refl
  merged_all-next (some a) x xs = refl

  lookup-merge_items :
      (k : String) (m : Dict String A) (xs : List A)
      → lookup k (merge_items iteratee unique m xs) ≡ merged_all (lookup k m) (of_id k xs)
  unfolding merge_items merge_item
  lookup-merge_items k m [] = refl
  lookup-merge_items k m (x ∷ xs) = ground (
    arith,
    lookup-merge_items k (merge_item iteratee unique m x) xs,
    lookup-insert k (unique x) (merged iteratee unique x (lookup (unique x) m)) m,
    merged_all-next (lookup k m) x (of_id k xs),
    eq_iff (unique x) k,
  )

  abbrev pub concat : List (List A) → List A
  concat [] = []
  concat (xs ∷ xss) = xs ++ concat xss

  merged_all-append :
      (o : Option A) (xs ys : List A) → merged_all o (xs ++ ys) ≡ merged_all (merged_all o xs) ys
  merged_all-append o [] ys = refl
  merged_all-append none (x ∷ xs) ys = merged_all-append (some x) xs ys
  merged_all-append (some a) (x ∷ xs) ys = merged_all-append (some (iteratee a x)) xs ys

  of_id-append : (k : String) (xs ys : List A) → of_id k (xs ++ ys) ≡ of_id k xs ++ of_id k ys
  of_id-append k [] ys = refl
  of_id-append k (x ∷ xs) ys = ground (arith, of_id-append k xs ys)

  -- The map of `MergeSlicesBy` gives for an id the items of that id, over all arrays and in their order: the
  -- first as it is, if the id was not there before, and each later one merged by the given function into
  -- what the earlier ones gave; and nothing for an id that no item has.
  pub lookup-merge_arrays :
      (k : String) (m : Dict String A) (arrays : List (List A))
      → lookup k (merge_arrays iteratee unique m arrays)
        ≡ merged_all (lookup k m) (of_id k (concat arrays))
  unfolding merge_arrays
  lookup-merge_arrays k m [] = refl
  lookup-merge_arrays k m (xs ∷ xss) =
      lookup-merge_arrays k (merge_items iteratee unique m xs) xss
      ∙ ap (λ o. merged_all o (of_id k (concat xss))) (lookup-merge_items k m xs)
      ∙ sym (
          ap (merged_all (lookup k m)) (of_id-append k xs (concat xss))
          ∙ merged_all-append (lookup k m) (of_id k xs) (of_id k (concat xss)))

module _ {F : Type 0} (fl : FloatOps F) (parse_url : String → Option String) (now : ℤ) where
  abbrev labelled_state : EndpointChain → String → State F → State F
  labelled_state chain name s = insert "type" (str name) (
      insert "chain_code" (str chain.chain_code)
        (insert "chain_id" (integer uint64 (pos chain.chain_id)) s))

  read-labelled_state :
      (chain : EndpointChain) (name k : String) (s : State F)
      → read k (labelled_state chain name s) ≡ (
          if "type" == k
          then str name
          else if "chain_code" == k
          then str chain.chain_code
          else if "chain_id" == k
          then integer uint64 (pos chain.chain_id)
          else read k s)
  read-labelled_state chain name k s =
      let s1 = insert "chain_id" (integer uint64 (pos chain.chain_id)) s in
      let s2 = insert "chain_code" (str chain.chain_code) s1 in
      ground (
        arith,
        read-insert k "type" (str name) s2,
        read-insert k "chain_code" (str chain.chain_code) s1,
        read-insert k "chain_id" (integer uint64 (pos chain.chain_id)) s,
      )

  labelled-labelled_state :
      (chain : EndpointChain) (name u : String) (s : State F)
      → read "url" s ≡ url u
      → labelled fl parse_url now (service_attributes chain name) s
        ≡ some (labelled_state chain name s)
  unfolding labelled update apply_all apply new_value endpoint_url
  labelled-labelled_state chain name u s h =
      let (obs, e) =
        observe-some fl s (labelled_state chain name s) u
          (ground (arith, read-labelled_state chain name "url" s, h)) in
      ground (arith, e)

  -- What is said of one endpoint that a service's list gives.
  abbrev pub IsLabelled : EndpointChain → String → State F → Type 0
  IsLabelled chain name s =
      (type s ≡ name) × (chain_id s ≡ chain.chain_id) × (chain_code s ≡ chain.chain_code)

  labelled_state-IsLabelled :
      (chain : EndpointChain) (name : String) (s : State F)
      → IsLabelled chain name (labelled_state chain name s)
  unfolding type chain_id chain_code
  labelled_state-IsLabelled chain name s = (
    ground (arith, read-labelled_state chain name "type" s),
    ground (arith, read-labelled_state chain name "chain_id" s),
    ground (arith, read-labelled_state chain name "chain_code" s),
  )

  abbrev created : EndpointInfo → String → State F
  created info u =
      insert "weight" (integer int (weight_or info.weight))
        (insert "headers" (headers (headers_or info.headers)) (new now u))

  url-created : (info : EndpointInfo) (u : String) → read "url" (created info u) ≡ url u
  unfolding new read lookup insert
  url-created info u = refl

  url-new_with_info :
      (info : EndpointInfo) (s : State F)
      → new_with_info parse_url now info ≡ some s
      → (u : String) × (read "url" s ≡ url u)
  unfolding new_with_info
  url-new_with_info info s h = elim (Option-cases (parse_url info.url)) [
    | inl e ↦ absurd (ground (arith, e, h))
    | inr (u, e) ↦ (u, ground (arith, e, h, url-created info u))
  ]

  map_to_states-IsLabelled :
      (chain : EndpointChain) (name : String) (infos : List EndpointInfo)
      → (out : List (State F)) × (map_to_states fl parse_url now
            (service_attributes chain name)
            infos
          ≡ some out)
        × All (IsLabelled chain name) out
        × (length out ≤ length infos)
  unfolding map_to_states
  map_to_states-IsLabelled chain name [] = ([], refl, tt, omega arith)
  map_to_states-IsLabelled chain name (info ∷ infos) =
      let (out, e, h, l) = map_to_states-IsLabelled chain name infos in
      elim (Option-cases (new_with_info {F = F} parse_url now info)) [
        | inl n ↦ (out, ground (arith, n, e), h, omega (arith, l))
        | inr (s, n) ↦
            let (u, at_u) = url-new_with_info info s n in
            (
              labelled_state chain name s ∷ out,
              ground (arith, n, e, labelled-labelled_state chain name u s at_u),
              (labelled_state-IsLabelled chain name s, h),
              omega (arith, l),
            )
      ]

  -- Where a chain is configured with services, loading does not panic, and gives only endpoints of the
  -- first list, at most one for each entry: each of the chain, its code, and the type "Activenode".
  pub load_from_config-IsLabelled :
      (chain : EndpointChain) (s : EndpointServices)
      → chain.services ≡ some s
      → (out : List (State F)) × (load_from_config fl parse_url now (some chain) ≡ some out)
        × All (IsLabelled chain "Activenode") out
        × (length out ≤ length s.activenode)
  unfolding load_from_config load_services
  load_from_config-IsLabelled chain s h =
      let (out, e, k, l) = map_to_states-IsLabelled chain "Activenode" s.activenode in
      (out, ground (arith, h, e), k, l)

  none_full :
      (chain : EndpointChain) (es : List (Endpoint F))
      → All (IsLabelled chain "Activenode") (map (λ e. e.state) es)
      → full_nodes es ≡ []
  unfolding full_nodes
  none_full chain [] h = refl
  none_full chain (e ∷ es) h = rw h.0.0 (none_full chain es h.1)

  -- Among the endpoints that are loaded from a configuration with services, the selector finds no full
  -- node, whatever the configuration lists as one.
  pub full_nodes-load_from_config :
      (chain : EndpointChain) (s : EndpointServices) (es : List (Endpoint F))
      → chain.services ≡ some s
      → load_from_config fl parse_url now (some chain) ≡ some (map (λ e. e.state) es)
      → full_nodes es ≡ []
  full_nodes-load_from_config chain s es h k =
      let (out, e, l, _) = load_from_config-IsLabelled chain s h in
      none_full chain es (subst (All (IsLabelled chain "Activenode")) (ground (arith, e, k)) l)
