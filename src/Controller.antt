-- ===== src/Controller.antt =====
-- internal/app/agent/controller/agent_controller.go: one HTTP call, from the lookup of the chain's
-- endpoints to the answer, with the tenant's access before it and the compensation after it. What the
-- other services do is the record `Services` over a world `W`; logs, metrics, headers and the
-- publication to the message queue are left out.
pub mod Charges
pub mod Publication
pub mod Health
use web3_rpc_proxy.Prelude.{
  ℕ, String, Bool, true, false, ◌&&◌, not, Option, none, some, List, [], ◌∷◌, ◌==◌,
  string_comparable, leb, length, is_some, if◌then◌else◌,
}
use web3_rpc_proxy.Prelude.Int.{ℤ, pos, negsuc, leb_ℤ}
use web3_rpc_proxy.Errors.{
  HttpError, GoError, http, plain, QueryStatus, success, fail, query_status, error_text,
  forbidden_error, too_many_requests_error, not_found_error, internal_server_error,
}
use web3_rpc_proxy.Tenant.{App, affected, unaffected}

-- What a request context keeps: the tenant that was set, its key and bucket.
pub record Context (F : Type 0) : Type 0 where
  pub chain_id : ℕ
  pub app : Option (App F)
  pub app_key : String
  pub app_bucket : String

pub record Services (E F W : Type 0) : Type 0 where
  pub enable_tenant : Bool
  -- EndpointService.GetAll, TenantService.Access, AgentService.Call and context.Cause.
  pub get_all : ℕ → W → Option (List E)
  pub access : String → String → W → (Option String × App F) × W
  pub agent_call : Context F → List E → W → (Option GoError × String) × W
  pub cause : W → Option GoError
  -- strings.Contains, the text of an error's JSON, and the clock.
  pub contains : String → String → Bool
  pub body_of : HttpError → String
  pub unix_milli : W → ℤ

pub data Tenancy (F : Type 0) : Type 0 where
  granted : App F → Tenancy F
  refused : HttpError → Tenancy F

pub record Response : Type 0 where
  pub status : QueryStatus
  pub status_code : ℕ
  pub body : String

module _ {E F W : Type 0} (s : Services E F W) where
  -- A deadline's cause, where it is an error of the proxy; any other cause leaves the next line.
  abbrev invalid_token : HttpError
  invalid_token = forbidden_error "Token is invalid" []

  abbrev cause_or_invalid : Option GoError → HttpError
  cause_or_invalid (some (http e)) = e
  cause_or_invalid _ = invalid_token

  abbrev pub of_access : (Option String × App F) × W → Tenancy F × W
  of_access ((some e, app), w) = (
    refused
        (if e == "context deadline exceeded" then cause_or_invalid (s.cause w) else invalid_token),
    w,
  )
  of_access ((none, app), w) = (
    if leb_ℤ app.balance (negsuc 0)
        then refused (too_many_requests_error "Token is overage" [])
        else granted app,
    w,
  )

  unfoldable pub get_tenant_app : Context F → W → Tenancy F × W
  get_tenant_app rc w =
      if rc.app_key == ""
      then (refused (forbidden_error "Token is empty" []), w)
      else of_access (s.access rc.app_key rc.app_bucket w)

  -- The end of `call`: an error that is none of the proxy's is an internal one.
  abbrev pub of_call :
      Context F → (Option GoError × String) × W → (Option HttpError × String × Context F) × W
  of_call rc ((none, bytes), w) = ((none, bytes, rc), w)
  of_call rc ((some (http e), bytes), w) = ((some e, "", rc), w)
  of_call rc ((some (plain text), bytes), w) =
      ((some (internal_server_error "" (some text ∷ [])), "", rc), w)

  abbrev pub call_with :
      Context F → List E → Tenancy F × W → (Option HttpError × String × Context F) × W
  call_with rc es (refused e, w) = ((some e, "", rc), w)
  call_with rc es (granted app, w) =
      let rc' = record rc { app = some app } in of_call rc' (s.agent_call rc' es w)

  unfoldable pub call : Context F → List E → W → (Option HttpError × String × Context F) × W
  call rc es w =
      if s.enable_tenant && not (is_some rc.app)
      then call_with rc es (get_tenant_app rc w)
      else of_call rc (s.agent_call rc es w)

  abbrev pub of_error : HttpError → Response
  of_error e = record {
    status = query_status s.contains e;
    status_code = e.status;
    body = s.body_of e;
  }

  abbrev pub respond : (Option HttpError × String × Context F) × W → (Response × Context F) × W
  respond ((some e, bytes, rc), w) = ((of_error e, rc), w)
  respond ((none, bytes, rc), w) =
      ((record { status = success; status_code = 200; body = bytes }, rc), w)

  abbrev unsupported : HttpError
  unsupported = not_found_error "Unsupported" []

  unfoldable pub answer_call : Context F → W → (Response × Context F) × W
  answer_call rc w = elim (s.get_all rc.chain_id w) [
    | none ↦ ((of_error unsupported, rc), w)
    | some es ↦
        if leb 1 (length es) then respond (call rc es w) else ((of_error unsupported, rc), w)
  ]

  -- The compensation: a success and an upstream's failure are paid for, all else is given back.
  abbrev paid : QueryStatus → Bool
  paid success = true
  paid fail = true
  paid _ = false

  unfoldable pub compensate : QueryStatus → App F → W → App F
  compensate status app w = if paid status then affected (s.unix_milli w) app else unaffected app

  abbrev compensated : QueryStatus → Option (App F) → W → Option (App F)
  compensated status none w = none
  compensated status (some app) w = some (compensate status app w)

  -- `HandleCall`: the response, and the app of the context after the compensation.
  unfoldable pub handle_call : Context F → W → (Response × Option (App F)) × W
  handle_call rc w =
      let ((r, rc'), w') = answer_call rc w in ((r, compensated r.status rc'.app w'), w')
