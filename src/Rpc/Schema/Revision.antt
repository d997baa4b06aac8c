-- ===== src/Rpc/Schema/Revision.antt =====
-- What the revision of a response may change, and when it panics.
use web3_rpc_proxy.Prelude.{
  String, ◌≡◌, refl, ap, ◌∙◌, Bool, true, false, Option, none, some, List, [], ◌∷◌, ◌++◌, ◌==◌,
  string_comparable, eq_iff, arith, Option-cases, inl, inr,
}
use web3_rpc_proxy.Prelude.Dict.{Dict, lookup}
use web3_rpc_proxy.Json.{Value, str, Fields, field}
use web3_rpc_proxy.Json.Laws.{field-set_field}
use web3_rpc_proxy.Rpc.Schema.{
  Method, Flaw, Verdict, unreadable, judged, Validator, Shape, JsonRpcSchema, response_properties,
  new_jsonrpc_schema, properties_of,
}
use web3_rpc_proxy.Rpc.Schema.Validation.{
  Formats, as_text, Revised, mend, revise_one, revise, judge, validate_response,
}
use web3_rpc_proxy.Rpc.Schema.Loading.{
  Usual, new_jsonrpc_schema-UsualSchema, new_jsonrpc_schema-Listed,
}

module _ (f : Formats) where
  revise_one_keeps :
      (ps : Dict String Shape) (flaw : Flaw) (k : String) (fs gs : Fields) (es ds : List Flaw)
      → Usual ps
      → ("jsonrpc" == k) ≡ false
      → revise_one f ps flaw (fs, es) ≡ some (gs, ds)
      → field k gs ≡ field k fs
  unfolding revise_one mend lookup
  revise_one_keeps ps flaw k fs gs es ds (inl e) n h =
      ground (arith, h, ap (lookup flaw.field_name) e)
  revise_one_keeps ps flaw k fs gs es ds (inr e) n h =
      let v = str (as_text f (field flaw.field_name fs)) in
      ground (
        arith,
        h,
        n,
        ap (lookup flaw.field_name) e,
        field-set_field k flaw.field_name v fs,
        eq_iff "jsonrpc" flaw.field_name,
      )

  revise_keeps :
      (ps : Dict String Shape) (flaws : List Flaw) (k : String) (fs gs : Fields) (es ds : List Flaw)
      → Usual ps
      → ("jsonrpc" == k) ≡ false
      → revise f ps flaws (fs, es) ≡ some (gs, ds)
      → field k gs ≡ field k fs
  unfolding revise
  revise_keeps ps [] k fs gs es ds u n h = ground (arith, h)
  revise_keeps ps (flaw ∷ flaws) k fs gs es ds u n h =
      elim (Option-cases (revise_one f ps flaw (fs, es))) [
        | inl e ↦ absurd (ground (arith, e, h))
        | inr ((hs, cs), e) ↦
            revise_keeps ps flaws k hs gs cs ds u n (ground (arith, e, h))
            ∙ revise_one_keeps ps flaw k fs hs es cs u n e
      ]

  judge_keeps :
      (ps : Dict String Shape) (method k : String) (revised : Bool) (fs gs : Fields) (v : Verdict)
      (out : Option String)
      → Usual ps
      → ("jsonrpc" == k) ≡ false
      → judge f ps method revised fs v ≡ some (out, gs)
      → field k gs ≡ field k fs
  unfolding judge
  judge_keeps ps method k revised fs gs (unreadable e) out u n h = ground (arith, h)
  judge_keeps ps method k true fs gs (judged flaws) out u n h =
      elim (Option-cases (revise f ps flaws (fs, []))) [
        | inl e ↦ absurd (ground (arith, e, h))
        | inr ((hs, cs), e) ↦ revise_keeps ps flaws k fs gs [] cs u n (ground (arith, e, h))
      ]
  judge_keeps ps method k false fs gs (judged flaws) out u n h = ground (arith, h)

  -- A validation of a response that does not panic, by a schema that was loaded, changes the response at
  -- most at its version, whatever flaws are found.
  pub validate_response_kept :
      (compile : Value → Option Validator) (read : String → Option (List Method))
      (bytes method k : String) (s : JsonRpcSchema) (revised : Bool) (fs gs : Fields)
      (out : Option String)
      → new_jsonrpc_schema compile read bytes ≡ some s
      → ("jsonrpc" == k) ≡ false
      → validate_response f (some s) method revised fs ≡ some (out, gs)
      → field k gs ≡ field k fs
  unfolding validate_response
  validate_response_kept compile read bytes method k s revised fs gs out l n h =
      elim (Option-cases (lookup method s.requests)) [
        | inl e ↦ ground (arith, e, h)
        | inr (r, e) ↦ elim (Option-cases (lookup method s.responses)) [
          | inl m ↦ absurd (ground (arith, e, m, h))
          | inr (validator, m) ↦
              judge_keeps (properties_of (lookup method s.properties)) method k revised fs gs
                (validator fs) out (new_jsonrpc_schema-UsualSchema compile read bytes s l method) n
                (ground (arith, e, m, h))
        ]
      ]

  revise_one-result :
      (flaw : Flaw) (r : Revised f)
      → flaw.kind ≡ "invalid_type"
      → flaw.field_name ≡ "result"
      → revise_one f response_properties flaw r ≡ none
  unfolding revise_one mend lookup
  revise_one-result flaw r h g = rw (h, g) refl

  revise-result :
      (flaw : Flaw) (before rest : List Flaw) (r : Revised f)
      → flaw.kind ≡ "invalid_type"
      → flaw.field_name ≡ "result"
      → revise f response_properties (before ++ flaw ∷ rest) r ≡ none
  unfolding revise
  revise-result flaw [] rest r h g = ground (arith, h, revise_one-result flaw r h g)
  revise-result flaw (x ∷ xs) rest r h g =
      elim (Option-cases (revise_one f response_properties x r)) [
        | inl e ↦ ground (arith, e)
        | inr (r', e) ↦ ground (arith, e, revise-result flaw xs rest r' h g)
      ]

  -- A response with a flaw in the type of its result panics the validation with revision, by a schema
  -- that was loaded and has the method: the property of the result is not the map that it is taken for.
  pub validate_response-result :
      (compile : Value → Option Validator) (read : String → Option (List Method))
      (bytes method : String) (s : JsonRpcSchema) (fs : Fields) (r v : Validator) (flaw : Flaw)
      (before rest : List Flaw)
      → new_jsonrpc_schema compile read bytes ≡ some s
      → lookup method s.requests ≡ some r
      → lookup method s.responses ≡ some v
      → v fs ≡ judged (before ++ flaw ∷ rest)
      → flaw.kind ≡ "invalid_type"
      → flaw.field_name ≡ "result"
      → validate_response f (some s) method true fs ≡ none
  unfolding validate_response judge
  validate_response-result compile read bytes method s fs r v flaw before rest l a b c h g =
      let listed = new_jsonrpc_schema-Listed compile read bytes s l in
      ground (arith, a, b, listed method r a, c, revise-result flaw before rest (fs, []) h g)
