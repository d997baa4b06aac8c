-- ===== src/Rpc/Schema/Loading.antt =====
-- What the schemas that are loaded have in common.
use mathlib.Core.Path.{subst}
use web3_rpc_proxy.Prelude.{
  String, ◌≡◌, ◌⊎◌, refl, Option, some, List, [], ◌∷◌, ◌==◌, string_comparable, arith, Option-cases,
  Bool-cases, inl, inr,
}
use web3_rpc_proxy.Prelude.Dict.{Dict, lookup, lookup-insert}
use web3_rpc_proxy.Json.{Value}
use web3_rpc_proxy.Rpc.Schema.{
  Method, Validator, Shape, JsonRpcSchema, response_properties, empty_schema, request_schema,
  add_method, add_methods, new_jsonrpc_schema, properties_of,
}

-- The properties of a method: none, or those of every response.
abbrev pub Usual : Dict String Shape → Type 0
Usual ps = (ps ≡ []) ⊎ (ps ≡ response_properties)

abbrev pub UsualSchema : JsonRpcSchema → Type 0
UsualSchema s = (m : String) → Usual (properties_of (lookup m s.properties))

module _ (compile : Value → Option Validator) where
  add_method-UsualSchema :
      (m : Method) (s : JsonRpcSchema) → UsualSchema s → UsualSchema (add_method compile m s)
  unfolding add_method
  add_method-UsualSchema m s h = λ k. elim (Bool-cases (m.name == k)) [
    | inl e ↦ rw (lookup-insert k m.name response_properties s.properties, e) (inr refl)
    | inr e ↦ rw (lookup-insert k m.name response_properties s.properties, e) (h k)
  ]

  add_methods-UsualSchema :
      (ms : List Method) (s : JsonRpcSchema)
      → UsualSchema s
      → UsualSchema (add_methods compile ms s)
  unfolding add_methods
  add_methods-UsualSchema [] s h = h
  add_methods-UsualSchema (m ∷ ms) s h =
      add_methods-UsualSchema ms (add_method compile m s) (add_method-UsualSchema m s h)

  pub new_jsonrpc_schema-UsualSchema :
      (read : String → Option (List Method)) (bytes : String) (s : JsonRpcSchema)
      → new_jsonrpc_schema compile read bytes ≡ some s
      → UsualSchema s
  unfolding new_jsonrpc_schema lookup
  new_jsonrpc_schema-UsualSchema read bytes s h = elim (Bool-cases (bytes == "")) [
    | inl e ↦
        let same : empty_schema ≡ s = ground (arith, e, h) in subst UsualSchema same (λ k. inl refl)
    | inr e ↦ elim (Option-cases (read bytes)) [
      | inl n ↦ absurd (ground (arith, e, n, h))
      | inr (ms, n) ↦
          let same : add_methods compile ms empty_schema ≡ s = ground (arith, e, n, h) in
          subst UsualSchema same (add_methods-UsualSchema ms empty_schema (λ k. inl refl))
    ]
  ]

-- A method with a schema of its requests has the usual properties.
abbrev pub Listed : JsonRpcSchema → Type 0
Listed s =
    (m : String) (v : Validator)
    → lookup m s.requests ≡ some v
    → lookup m s.properties ≡ some response_properties

module _ (compile : Value → Option Validator) where
  add_method-Listed : (m : Method) (s : JsonRpcSchema) → Listed s → Listed (add_method compile m s)
  unfolding add_method
  add_method-Listed m s h = λ k v. elim (Option-cases (compile (request_schema m))) [
    | inl e ↦
        λ g. ground (arith, e, g, h k v, lookup-insert k m.name response_properties s.properties)
    | inr (w, e) ↦ λ g. ground (
      arith,
      e,
      g,
      h k v,
      lookup-insert k m.name response_properties s.properties,
      lookup-insert k m.name w s.requests,
    )
  ]

  add_methods-Listed :
      (ms : List Method) (s : JsonRpcSchema) → Listed s → Listed (add_methods compile ms s)
  unfolding add_methods
  add_methods-Listed [] s h = h
  add_methods-Listed (m ∷ ms) s h =
      add_methods-Listed ms (add_method compile m s) (add_method-Listed m s h)

  empty_schema-Listed : Listed empty_schema
  unfolding lookup
  empty_schema-Listed = λ m v h. absurd (cc h)

  pub new_jsonrpc_schema-Listed :
      (read : String → Option (List Method)) (bytes : String) (s : JsonRpcSchema)
      → new_jsonrpc_schema compile read bytes ≡ some s
      → Listed s
  unfolding new_jsonrpc_schema
  new_jsonrpc_schema-Listed read bytes s h = elim (Bool-cases (bytes == "")) [
    | inl e ↦
        let same : empty_schema ≡ s = ground (arith, e, h) in subst Listed same empty_schema-Listed
    | inr e ↦ elim (Option-cases (read bytes)) [
      | inl n ↦ absurd (ground (arith, e, n, h))
      | inr (ms, n) ↦
          let same : add_methods compile ms empty_schema ≡ s = ground (arith, e, n, h) in
          subst Listed same (add_methods-Listed ms empty_schema empty_schema-Listed)
    ]
  ]
