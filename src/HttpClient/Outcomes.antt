-- ===== src/HttpClient/Outcomes.antt =====
-- What the outcome of a call says of the endpoint.
use web3_rpc_proxy.Prelude.{
  ℕ, String, ◌≡◌, ◌⊎◌, ◌∙◌, refl, ap, Bool, true, false, Option, none, some, List, arith,
  Option-cases, Bool-cases, inl, inr, string_comparable,
}
use mathlib.Core.Path.{subst}
use web3_rpc_proxy.Rpc.{Sealed}
use web3_rpc_proxy.Rpc.Decoding.{
  Malformed, unmarshal_requests-Malformed, unmarshal_requests_no_error,
}
use web3_rpc_proxy.Errors.{HttpError, GoError}
use web3_rpc_proxy.Endpoint.Metrics.{ResponseProfile, is_success, new_profile}
use web3_rpc_proxy.CoreClient.{Outcome}
use web3_rpc_proxy.HttpClient.{
  Transport, Bytes, whole, broken, Sent, response, url_failed, failed, request_error, decode_body,
  read_response, call_outcome, finish_request, accepted,
}

Bytes-cases : (b : Bytes) → ((s : String) × (b ≡ whole s)) ⊎ ((s : String) × (b ≡ broken s))
Bytes-cases (whole s) = inl (s, refl)
Bytes-cases (broken s) = inr (s, refl)

module _ (t : Transport) (size : String → ℕ) where
  decode_body_err : (body : String) (p : ResponseProfile) → (decode_body t body p).err ≡ none
  unfolding decode_body
  decode_body_err body p = ground (arith, (unmarshal_requests_no_error t.parse body).1)

  read_response_err :
      (status : ℕ) (b : Bytes) (p : ResponseProfile) (e : GoError)
      → (read_response t size status b p).err ≡ some e
      → is_success (read_response t size status b p).profile ≡ false
  unfolding read_response
  read_response_err status (broken text) p e h = refl
  read_response_err status (whole body) p e h = elim (Bool-cases (accepted t status)) [
    | inl q ↦ absurd (
        ground
          (arith, q, h, decode_body_err body (record p { traffic = size body; status = status })))
    | inr q ↦ ground (arith, q)
  ]

  finish_request_err :
      (sent : Sent) (o : Option HttpError) (p : ResponseProfile) (e : GoError)
      → p.status ≡ 0
      → (finish_request t size sent o p).err ≡ some e
      → is_success (finish_request t size sent o p).profile ≡ false
  finish_request_err sent (some f) p e z h = ground (arith, z)
  finish_request_err (response status b) none p e z h = read_response_err status b p e h
  finish_request_err (url_failed b text) none p e z h = absurd (ground (arith, h))
  finish_request_err (failed text) none p e z h = absurd (ground (arith, h))

  -- A call whose outcome is an error leaves a profile that counts as no success, so that its endpoint
  -- is marked unhealthy; on every branch, from a new profile.
  pub call_outcome_err :
      (sealed : List Sealed) (id : String) (out : Outcome) (told : Bool) (e : GoError)
      → call_outcome t size sealed (new_profile id) ≡ some (out, told)
      → out.err ≡ some e
      → is_success out.profile ≡ false
  unfolding call_outcome
  call_outcome_err sealed id out told e h k = elim (Bytes-cases (t.marshal sealed)) [
    | inl (b, q) ↦ elim (Option-cases (request_error t.cause (t.send b))) [
      | inl r ↦ absurd (ground (arith, q, r, h))
      | inr (o, r) ↦
          let same : finish_request t size (t.send b) o
                (record (new_profile id) { duration = t.elapsed })
              ≡ out =
            ground (arith, q, r, h) in
          subst (λ x. is_success x.profile ≡ false) same
            (finish_request_err (t.send b) o (record (new_profile id) { duration = t.elapsed }) e
              refl (ap (λ x. x.err) same ∙ k))
    ]
    | inr (text, q) ↦ ground (arith, q, h)
  ]

  abbrev nothing : ResponseProfile → Outcome
  nothing p = record { results = none; err = none; profile = p }

  decode_body-Malformed :
      (body : String) (p : ResponseProfile)
      → Malformed (t.parse body)
      → decode_body t body p ≡ nothing p
  unfolding decode_body
  decode_body-Malformed body p k = ground (arith, (unmarshal_requests-Malformed t.parse body k).1)

  -- A body with an accepted status that is no JSON, or neither an object nor an array of objects, gives
  -- neither results nor an error, and a new profile then counts as a success.
  pub read_response-Malformed :
      (status : ℕ) (body id : String)
      → accepted t status ≡ true
      → Malformed (t.parse body)
      → ((read_response t size status (whole body) (new_profile id)).err ≡ none)
        × ((read_response t size status (whole body) (new_profile id)).results ≡ none)
        × (is_success (read_response t size status (whole body) (new_profile id)).profile ≡ true)
  unfolding read_response
  read_response-Malformed status body id h k =
      let e =
        decode_body-Malformed body
          (record (new_profile id) { traffic = size body; status = status }) k in
      rw (h, read_response) (rw e (refl, refl, h))
