-- ===== src/Rpc/Schema/Results.antt =====
-- `validateResults` of internal/core/endpoint/client.go: results against the requests at their places.
use web3_rpc_proxy.Prelude.{
  String, ◌≡◌, refl, true, Option, none, some, List, [], ◌∷◌, arith, length, ◌≤◌,
}
use web3_rpc_proxy.Rpc.{Sealed, Reply}
use web3_rpc_proxy.Json.{Fields}
use web3_rpc_proxy.Rpc.Schema.{JsonRpcSchema}
use web3_rpc_proxy.Rpc.Schema.Validation.{Formats, validate_response}
use web3_rpc_proxy.Errors.{HttpError, upstream_server_error}
use web3_rpc_proxy.Endpoint.Metrics.{ResponseProfile}

-- The error, the profile, and no panic.
abbrev pub Checked : Type 0
Checked = Option (Option HttpError × ResponseProfile)

-- `write` is json.Marshal of the result, which the validation may have revised. More results than requests
-- are a panic.
module _ (formats : Formats) (schema : Option JsonRpcSchema) (write : Fields → String) where
  abbrev pub invalid_result : Fields → String → ResponseProfile → Checked
  invalid_result fs e p = some (
    some (upstream_server_error "Validating response failed" (some e ∷ [])),
    record p { code = "schema_validation_failed"; message = write fs; error = e },
  )

  unfoldable pub validate_results : List Sealed → List Reply → ResponseProfile → Checked
  validate_results qs [] p = some (none, p)
  validate_results [] (r ∷ rs) p = none
  validate_results (q ∷ qs) (r ∷ rs) p =
      let rest = validate_results qs rs p in
      elim (validate_response formats schema q.method true r.raw) [
        | none ↦ none
        | some (none, fs) ↦ rest
        | some (some e, fs) ↦ invalid_result fs e p
      ]

-- Without a schema, and with no more results than requests, no result is refused and the profile is kept.
pub validate_results-unchecked :
    (formats : Formats) (write : Fields → String) (qs : List Sealed) (rs : List Reply)
    (p : ResponseProfile)
    → length rs ≤ length qs
    → validate_results formats none write qs rs p ≡ some (none, p)
unfolding validate_results validate_response
validate_results-unchecked formats write qs [] p l = refl
validate_results-unchecked formats write [] (r ∷ rs) p l = absurd (omega arith)
validate_results-unchecked formats write (q ∷ qs) (r ∷ rs) p l =
    validate_results-unchecked formats write qs rs p (omega arith)
