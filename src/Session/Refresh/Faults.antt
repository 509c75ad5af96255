-- ===== src/Session/Refresh/Faults.antt =====
-- What `refresh` makes of a server that is at fault and answers in JSON.
use workos_node.Prelude.{
  ℕ, String, ◌≡◌, refl, ap, ◌∙◌, ◌≤◌, true, false, Option, none, some, str_eq, arith, ok, err,
}
use workos_node.Js.{Value, undefined, truthy, nullish, prop}
use workos_node.Seal.{unseal_data}
use workos_node.Http.{
  Request, Response, Fetched, RequestError, HttpError, responded, fetched, body_text,
  http_client_error, is_ok, response_error,
}
use workos_node.Http.Verbs.{Platform}
use workos_node.Client.{is_given}
use workos_node.Client.Exceptions.{
  Seconds, GenericServer, generic_server, new_generic, get_authentication_error_code,
  parse_authentication_error_code,
}
use workos_node.Client.Errors.{
  HeadersProperty, request_id_of, handle_http_error, by_status as exception_by_status, other_status,
}
use workos_node.Session.{World, CookieSession, exception}
use workos_node.Session.Classify.{
  retryable, server_error, classify, classify_terminal, classify_retryable, by_status,
  get_error_status, is_network_error,
}
use workos_node.Session.Refresh.{RefreshOptions, failed, refresh, caught}
use workos_node.Session.Refresh.Failing.{AlwaysFails, fetch_request-IsRefused, refresh-fails}

-- An error response with a body that is JSON, and not null.
pub record IsError (parse_json : String → Option Value) (answered : Fetched) (res : Response)
    (payload : Value) : Type 0 where
  pub raw : String
  pub arrived : answered ≡ responded res
  pub not_ok : is_ok res.status ≡ false
  pub body : res.body ≡ body_text raw
  pub parsed : parse_json raw ≡ some payload
  pub not_null : nullish payload ≡ false

-- A status of 500 or more, with a body that names no code and no error.
pub record IsFault (parse_json : String → Option Value) (answered : Fetched) : Type 0 where
  pub response : Response
  pub payload : Value
  pub fault : 500 ≤ response.status
  pub json : IsError parse_json answered response payload
  pub no_code : prop payload "code" ≡ undefined
  pub no_error : prop payload "error" ≡ undefined
  pub no_description : prop payload "error_description" ≡ undefined

-- Such an answer to every call.
abbrev pub OnlyFaults : Platform → Type 0
OnlyFaults p = (calls : ℕ) (req : Request) → IsFault p.parse_json (p.fetch calls req)

-- The error of the client for such a response.
abbrev pub error_for : Response → Value → HttpError
error_for res payload = record {
  message = res.status_text;
  status = res.status;
  headers = fetched res.headers;
  payload = payload;
}

pub response_error-IsError :
    (parse_json : String → Option Value) (timeout : String) (answered : Fetched) (res : Response)
    (payload : Value)
    → IsError parse_json answered res payload
    → response_error parse_json timeout res ≡ http_client_error (error_for res payload)
unfolding response_error
response_error-IsError parse_json timeout answered res payload h =
    rw (response_error, h.body, h.parsed) refl

abbrev Fault : RequestError → Type 0
Fault e =
    (res : Response) × (payload : Value) × (e ≡ http_client_error (error_for res payload))
    × (500 ≤ res.status)
    × (nullish payload ≡ false)
    × (prop payload "code" ≡ undefined)
    × (prop payload "error" ≡ undefined)
    × (prop payload "error_description" ≡ undefined)

faults-AlwaysFails : (p : Platform) → OnlyFaults p → AlwaysFails p Fault
faults-AlwaysFails p faults http calls req =
    let (sent, came) =
      fetch_request-IsRefused p.parse_json http (p.fetch calls) req
        (λ sent. (faults calls sent).response)
        (λ sent. record {
          arrived = (faults calls sent).json.arrived;
          not_ok = (faults calls sent).json.not_ok;
        }) in
    let h = faults calls sent in
    (
      http_client_error (error_for h.response h.payload),
      (
        h.response, h.payload, refl, h.fault, h.json.not_null, h.no_code, h.no_error,
        h.no_description,
      ),
      came
          ∙ ap err (
              response_error-IsError p.parse_json http.timeout_message _ h.response h.payload
                h.json),
    )

module _ (show : Value → String) (to_number : String → Seconds) (property : HeadersProperty)
    (path : String) (res : Response) (payload : Value) where
  no_known_code :
      prop payload "code" ≡ undefined
      → prop payload "error" ≡ undefined
      → get_authentication_error_code payload ≡ none
  unfolding get_authentication_error_code parse_authentication_error_code
  no_known_code no_code no_error = rw (get_authentication_error_code, no_code, no_error) refl

  undefined_not_truthy : (v : Value) → v ≡ undefined → truthy v ≡ false
  undefined_not_truthy v e = rw e (unfold truthy in refl)

  other_status-fault :
      (id : String)
      → prop payload "code" ≡ undefined
      → prop payload "error" ≡ undefined
      → prop payload "error_description" ≡ undefined
      → other_status show to_number res.status payload id
        ≡ generic_server (new_generic res.status (prop payload "message") payload id)
  unfolding other_status
  other_status-fault id no_code no_error no_description =
      rw
        (
          other_status,
          no_known_code no_code no_error,
          undefined_not_truthy (prop payload "error") no_error,
          undefined_not_truthy (prop payload "error_description") no_description,
          undefined_not_truthy (prop payload "code") no_code,
        )
        refl

  exception_of_fault :
      500 ≤ res.status
      → nullish payload ≡ false
      → prop payload "code" ≡ undefined
      → prop payload "error" ≡ undefined
      → prop payload "error_description" ≡ undefined
      → handle_http_error show to_number property path (http_client_error (error_for res payload))
        ≡ generic_server (
            new_generic res.status
              (prop payload "message")
              payload
              (request_id_of property (fetched res.headers)))
  unfolding handle_http_error exception_by_status
  exception_of_fault fault not_null no_code no_error no_description = ground (
    arith,
    other_status-fault (request_id_of property (fetched res.headers)) no_code no_error
        no_description,
  )

classify-generic :
    (e : GenericServer)
    → 500 ≤ e.status
    → classify (exception (generic_server e)) ≡ some (retryable server_error none)
unfolding classify classify_terminal classify_retryable by_status get_error_status is_network_error
classify-generic e fault = ground arith

caught-generic :
    (world : World) (s : CookieSession) (e : GenericServer)
    → 500 ≤ e.status
    → caught world s (exception (generic_server e)) ≡ (s, failed (retryable server_error none))
unfolding caught
caught-generic world s e fault = rw (classify-generic e fault) refl

-- A refresh of a valid session, with a client id and a client whose `hasApiKey` is right, whose requests
-- are all answered by a status of 500 or more with a body of JSON that is not null and has no `code`, no
-- `error` and no `error_description`, fails as a server error that is to be retried, and leaves the
-- session as it was.
pub refresh_fault_retryable :
    (world : World) (s : CookieSession) (o : RefreshOptions) (cookie claims : Value)
    (client_id : String)
    → OnlyFaults world.platform
    → world.workos.has_api_key ≡ is_given world.workos.key
    → world.client_id ≡ some client_id
    → str_eq client_id "" ≡ false
    → unseal_data world.iron s.session_data s.cookie_password ≡ ok cookie
    → truthy (prop cookie "refreshToken") ≡ true
    → truthy (prop cookie "user") ≡ true
    → world.decode_jwt (prop cookie "accessToken") ≡ some claims
    → refresh world s o ≡ (s, failed (retryable server_error none))
refresh_fault_retryable world s o cookie claims client_id faults key id named unsealed token user
      decoded =
    let (e, (res, payload, same, fault, not_null, no_code, no_error, no_description), ends) =
      refresh-fails world Fault s o cookie claims client_id
        (faults-AlwaysFails world.platform faults) key id named unsealed token user decoded in
    let shown =
      exception_of_fault world.show world.to_number world.platform.headers_property
        "/user_management/authenticate" res payload fault not_null no_code no_error
        no_description in
    ends ∙ rw (same, shown) (caught-generic world s _ fault)
