-- ===== src/Controller/Charges.antt =====
-- What a call costs its tenant, and what it is answered when it is refused.
use web3_rpc_proxy.Prelude.{
  ◌≡◌, ◌⊎◌, refl, true, false, none, some, List, [], ◌∷◌, string_comparable, ◌==◌, arith, inl, inr,
}
use web3_rpc_proxy.Prelude.Int.{pos, negsuc, ◌+ℤ◌, leb_ℤ}
use web3_rpc_proxy.Errors.{
  HttpError, QueryStatus, success, fail, reject, timeout, intercept, error, query_status,
  too_many_requests_error, not_found_error,
}
use web3_rpc_proxy.Tenant.{App, affected, unaffected}
use web3_rpc_proxy.Controller.{
  Context, Services, refused, get_tenant_app, call, answer_call, handle_call, compensate,
}

module _ {E F W : Type 0} (s : Services E F W) (rc : Context F) (w : W) where
  abbrev overage : HttpError
  overage = too_many_requests_error "Token is overage" []

  tenant_refused :
      (app : App F) (w' : W)
      → (rc.app_key == "") ≡ false
      → s.access rc.app_key rc.app_bucket w ≡ ((none, app), w')
      → leb_ℤ app.balance (negsuc 0) ≡ true
      → get_tenant_app s rc w ≡ (refused overage, w')
  unfolding get_tenant_app
  tenant_refused app w' k h l = ground (arith, k, h, l)

  call_refused :
      (es : List E) (e : HttpError) (w' : W)
      → s.enable_tenant ≡ true
      → rc.app ≡ none
      → get_tenant_app s rc w ≡ (refused e, w')
      → call s rc es w ≡ ((some e, "", rc), w')
  unfolding call
  call_refused es e w' a b h = ground (arith, a, b, h)

  answer_refused :
      (e : E) (es : List E) (w' : W)
      → s.get_all rc.chain_id w ≡ some (e ∷ es)
      → call s rc (e ∷ es) w ≡ ((some overage, "", rc), w')
      → answer_call s rc w
        ≡ ((record { status = reject; status_code = 429; body = s.body_of overage }, rc), w')
  unfolding answer_call query_status too_many_requests_error
  answer_refused e es w' c h = ground (arith, c, h)

  -- With the tenants' feature enabled, for a chain with endpoints and a request with a key and no
  -- app yet: a tenant whose balance is -1 or less is refused by a 429 of the status `reject`, no
  -- endpoint is called, and nothing is given back.
  pub overage_refused :
      (e : E) (es : List E) (app : App F) (w' : W)
      → s.enable_tenant ≡ true
      → rc.app ≡ none
      → s.get_all rc.chain_id w ≡ some (e ∷ es)
      → (rc.app_key == "") ≡ false
      → s.access rc.app_key rc.app_bucket w ≡ ((none, app), w')
      → leb_ℤ app.balance (negsuc 0) ≡ true
      → handle_call s rc w ≡ (
        (
          record {
            status = reject;
            status_code = 429;
            body = s.body_of (too_many_requests_error "Token is overage" []);
          },
          none,
        ),
        w',
      )
  unfolding handle_call
  overage_refused e es app w' a b c k h l =
      let refusal = call_refused (e ∷ es) overage w' a b (tenant_refused app w' k h l) in
      rw (answer_refused e es w' c refusal, handle_call) (rw b refl)

  -- A chain without endpoints is answered by a 404 of the status `reject`, for a request without an
  -- app, which has none to charge.
  pub unsupported_chain :
      (s.get_all rc.chain_id w ≡ none) ⊎ (s.get_all rc.chain_id w ≡ some [])
      → rc.app ≡ none
      → handle_call s rc w ≡ (
        (
          record {
            status = reject;
            status_code = 404;
            body = s.body_of (not_found_error "Unsupported" []);
          },
          none,
        ),
        w,
      )
  unfolding handle_call answer_call query_status not_found_error
  unsupported_chain (inl h) b = ground (arith, h, b)
  unsupported_chain (inr h) b = ground (arith, h, b)

  -- A status of success or of an upstream's failure leaves the offset and records the time; any other
  -- adds one to the offset and leaves the time.
  pub compensate_cases :
      (status : QueryStatus) (app : App F)
      → (((status ≡ success) ⊎ (status ≡ fail))
          × (compensate s status app w ≡ affected (s.unix_milli w) app))
        ⊎ (compensate s status app w ≡ record app { offset = app.offset +ℤ pos 1 })
  unfolding compensate unaffected
  compensate_cases success app = inl (inl refl, refl)
  compensate_cases fail app = inl (inr refl, refl)
  compensate_cases timeout app = inr refl
  compensate_cases intercept app = inr refl
  compensate_cases reject app = inr refl
  compensate_cases error app = inr refl
