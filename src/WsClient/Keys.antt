-- ===== src/WsClient/Keys.antt =====
-- The keys of requests and of messages, and the code of a call that fails.
use web3_rpc_proxy.Prelude.{
  String, ◌≡◌, refl, ap, false, none, some, List, [], ◌∷◌, map, ◌==◌, string_comparable, arith,
}
use mathlib.Core.List.{Perm}
use mathlib.Core.Path.{subst}
use web3_rpc_proxy.Json.{Value, field}
use web3_rpc_proxy.Rpc.{Sealed, Reply}
use web3_rpc_proxy.Errors.{
  HttpError, error_text, upstream_server_error, timeout_error, first_error, new_http_error,
}
use web3_rpc_proxy.WsClient.{
  Ending, answered, closed, late, unsent, no_connection, ending_error, code_for, joined,
  get_jsonrpc_key, get_json_result_key,
}

module _ (sort : List String → List String) (short : String → String) where
  -- Where sorting forgets the order, results in any order whose printed ids are those of the requests have
  -- the key of the requests.
  pub get_json_result_key-Perm :
      (sprint : Value → String) (sealed : List Sealed) (rs : List Reply)
      → ((xs ys : List String) → Perm xs ys → sort xs ≡ sort ys)
      → Perm (map (λ r. sprint (field "id" r.raw)) rs) (map (λ r. r.id) sealed)
      → get_json_result_key sort short sprint rs ≡ get_jsonrpc_key sort short sealed
  unfolding get_json_result_key get_jsonrpc_key joined
  get_json_result_key-Perm sprint sealed rs f p =
      ap (λ xs. short (joined xs))
        (f (map (λ r. sprint (field "id" r.raw)) rs) (map (λ r. r.id) sealed) p)

abbrev Uncoded : String → String → Type 0
Uncoded text code = code_for text code ≡ code

-- The switch at the end of a call sees the printed error, which begins with the error's name, or is the
-- text of the cause: no ending gives a code, except one whose cause has the text of a case.
pub code_for-ending_error :
    (e : Ending) (error : HttpError) (code : String)
    → ending_error e ≡ some error
    → ((text : String)
        → e ≡ unsent text
        → ((text == "Error connection to endpoint") ≡ false)
          × ((text == "Error creating request") ≡ false))
    → code_for (error_text error) code ≡ code
unfolding ending_error error_text upstream_server_error timeout_error new_http_error first_error
code_for-ending_error (answered rs) error code h g = absurd (cc h)
code_for-ending_error closed error code h g =
    let u : Uncoded "Upstream Server Error: Error connection to endpoint" code = refl in
    let q : upstream_server_error "Error connection to endpoint" (none ∷ []) ≡ error = cc h in
    subst (λ x. Uncoded (error_text x) code) q u
code_for-ending_error late error code h g =
    let u : Uncoded "Timeout: context deadline exceeded" code = refl in
    let q : timeout_error "context deadline exceeded" [] ≡ error = cc h in
    subst (λ x. Uncoded (error_text x) code) q u
code_for-ending_error no_connection error code h g =
    let u : Uncoded "Upstream Server Error: WebSocket connection is nil" code = refl in
    let q : upstream_server_error "WebSocket connection is nil" (none ∷ []) ≡ error = cc h in
    subst (λ x. Uncoded (error_text x) code) q u
code_for-ending_error (unsent text) error code h g =
    let u : Uncoded text code = ground (arith, g text refl) in
    let q : upstream_server_error "Error creating request" (some text ∷ []) ≡ error = cc h in
    subst (λ x. Uncoded (error_text x) code) q u
