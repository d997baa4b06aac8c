-- ===== src/Errors/Status.antt =====
-- The query status and the HTTP code of the errors that the constructors build.
use web3_rpc_proxy.Prelude.{String, ◌≡◌, refl, Bool, Option, none, some, List, if◌then◌else◌}
use web3_rpc_proxy.Errors.{
  fail, reject, timeout, error, query_status, first_error, upstream_server_error, bad_request_error,
  forbidden_error, not_found_error, timeout_error, too_many_requests_error, internal_server_error,
}

module _ (contains : String → String → Bool) (msg : String) (errs : List (Option String)) where
  -- Whatever their messages and causes, an upstream error is a failure, an error of the timeout
  -- constructor a timeout, and the four refusals are rejections; each with its HTTP code.
  pub constructor_status :
      let status = query_status contains in
      ((status (upstream_server_error msg errs) ≡ fail)
        × ((upstream_server_error msg errs).status ≡ 200))
      × ((status (timeout_error msg errs) ≡ timeout) × ((timeout_error msg errs).status ≡ 408))
      × ((status (bad_request_error msg errs) ≡ reject)
          × ((bad_request_error msg errs).status ≡ 400))
      × ((status (forbidden_error msg errs) ≡ reject) × ((forbidden_error msg errs).status ≡ 403))
      × ((status (not_found_error msg errs) ≡ reject) × ((not_found_error msg errs).status ≡ 404))
      × ((status (too_many_requests_error msg errs) ≡ reject)
          × ((too_many_requests_error msg errs).status ≡ 429))
  unfolding query_status upstream_server_error timeout_error bad_request_error forbidden_error
      not_found_error too_many_requests_error
  constructor_status =
      ((refl, refl), (refl, refl), (refl, refl), (refl, refl), (refl, refl), (refl, refl))

  -- An internal error is a timeout exactly if its first cause speaks of a deadline that was exceeded,
  -- and an error of the proxy otherwise.
  pub internal_error_status :
      query_status contains (internal_server_error msg errs) ≡ elim (first_error errs) [
        | none ↦ error
        | some text ↦ if contains text "deadline exceeded" then timeout else error
      ]
  unfolding query_status internal_server_error
  internal_error_status = refl
