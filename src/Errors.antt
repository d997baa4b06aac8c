-- ===== src/Errors.antt =====
-- internal/common/error.go: the errors that an HTTP client sees, and the status of a query
-- (internal/common/profile.go). `contains` is `strings.Contains`.
pub mod Status
use Prim.Native.String.{◌++◌ as str_append}
use web3_rpc_proxy.Prelude.{
  ℕ, String, Bool, true, false, Option, none, some, List, [], ◌∷◌, ◌==◌, string_comparable,
  if◌then◌else◌,
}

pub data QueryStatus : Type 0 where
  success fail timeout intercept reject error : QueryStatus

-- `details` is the text of the wrapped error.
pub record HttpError : Type 0 where
  pub status : ℕ
  pub name : String
  pub msg : String
  pub details : Option String

-- An `error`: one of this package, or any other with its text.
pub data GoError : Type 0 where
  http : HttpError → GoError
  plain : String → GoError

module _ (contains : String → String → Bool) where
  unfoldable pub query_status : HttpError → QueryStatus
  query_status e =
      if e.name == "Upstream Server Error"
      then fail
      else if e.name == "Bad Request"
      then reject
      else if e.name == "Too Many Requests"
      then reject
      else if e.name == "Not Found"
      then reject
      else if e.name == "Forbidden"
      then reject
      else if e.name == "Timeout"
      then timeout
      else if e.name == "Intercept"
      then intercept
      else elim e.details [
        | none ↦ error
        | some text ↦ if contains text "deadline exceeded" then timeout else error
      ]

unfoldable pub error_text : HttpError → String
error_text e = elim e.details [
  | none ↦ str_append e.name (str_append ": " e.msg)
  | some text ↦ text
]

-- `slice.Compact` drops the nil errors; the first that is left gives the message and the details.
unfoldable pub first_error : List (Option String) → Option String
first_error [] = none
first_error (none ∷ es) = first_error es
first_error (some e ∷ es) = some e

unfoldable pub new_http_error : ℕ → String → String → List (Option String) → HttpError
unfolding first_error
new_http_error status name msg errs = record {
  status = status;
  name = name;
  msg = elim (first_error errs) [ none ↦ msg | some text ↦ text ];
  details = first_error errs;
}

unfoldable pub upstream_server_error : String → List (Option String) → HttpError
unfolding new_http_error
upstream_server_error = new_http_error 200 "Upstream Server Error"

unfoldable pub bad_request_error : String → List (Option String) → HttpError
unfolding new_http_error
bad_request_error = new_http_error 400 "Bad Request"

unfoldable pub forbidden_error : String → List (Option String) → HttpError
unfolding new_http_error
forbidden_error = new_http_error 403 "Forbidden"

unfoldable pub not_found_error : String → List (Option String) → HttpError
unfolding new_http_error
not_found_error = new_http_error 404 "Not Found"

unfoldable pub timeout_error : String → List (Option String) → HttpError
unfolding new_http_error
timeout_error = new_http_error 408 "Timeout"

unfoldable pub too_many_requests_error : String → List (Option String) → HttpError
unfolding new_http_error
too_many_requests_error = new_http_error 429 "Too Many Requests"

unfoldable pub internal_server_error : String → List (Option String) → HttpError
unfolding new_http_error
internal_server_error = new_http_error 500 "Internal Server Error"
