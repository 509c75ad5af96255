-- ===== src/Session/Refresh/Limits.antt =====
-- What `refresh` makes of a server that limits the rate of the requests.
use workos_node.Prelude.{ℕ, String, ◌≡◌, refl, ap, ◌∙◌, true, false, Option, some, str_eq, ok, err}
use workos_node.Js.{Value, obj, end, truthy, nullish, prop}
use workos_node.Seal.{unseal_data}
use workos_node.Http.{
  Request, Response, Fetched, RequestError, fetched, http_client_error, get_header,
}
use workos_node.Http.Verbs.{Platform}
use workos_node.Client.{is_given}
use workos_node.Client.Exceptions.{
  Seconds, RateLimitExceeded, rate_limit_exceeded as exceeded, new_generic,
}
use workos_node.Client.Errors.{
  HeadersProperty, request_id_of, handle_http_error, by_status as exception_by_status, rate_limited,
}
use workos_node.Session.{World, CookieSession, exception}
use workos_node.Session.Classify.{
  retryable, rate_limit_exceeded, classify, classify_terminal, classify_retryable,
}
use workos_node.Session.Refresh.{RefreshOptions, failed, refresh, caught}
use workos_node.Session.Refresh.Failing.{AlwaysFails, fetch_request-IsRefused, refresh-fails}
use workos_node.Session.Refresh.Faults.{IsError, error_for, response_error-IsError}

-- A status of 429, with the header's word on when to come back.
pub record IsLimit (parse_json : String → Option Value) (header : String) (answered : Fetched)
    : Type 0 where
  pub response : Response
  pub payload : Value
  pub limited : response.status ≡ 429
  pub json : IsError parse_json answered response payload
  pub comes_back : get_header response.headers "Retry-After" ≡ some header

-- Such an answer to every call.
abbrev pub OnlyLimits : String → Platform → Type 0
OnlyLimits header p = (calls : ℕ) (req : Request) → IsLimit p.parse_json header (p.fetch calls req)

abbrev Limit : String → RequestError → Type 0
Limit header e =
    (res : Response) × (payload : Value) × (e ≡ http_client_error (error_for res payload))
    × (res.status ≡ 429)
    × (nullish payload ≡ false)
    × (get_header res.headers "Retry-After" ≡ some header)

limits-AlwaysFails :
    (header : String) (p : Platform) → OnlyLimits header p → AlwaysFails p (Limit header)
limits-AlwaysFails header p limits http calls req =
    let (sent, came) =
      fetch_request-IsRefused p.parse_json http (p.fetch calls) req
        (λ sent. (limits calls sent).response)
        (λ sent. record {
          arrived = (limits calls sent).json.arrived;
          not_ok = (limits calls sent).json.not_ok;
        }) in
    let h = limits calls sent in
    let shown =
      response_error-IsError p.parse_json http.timeout_message _ h.response h.payload h.json in
    (
      http_client_error (error_for h.response h.payload),
      (h.response, h.payload, refl, h.limited, h.json.not_null, h.comes_back),
      came ∙ ap err shown,
    )

exception_of_limit :
    (show : Value → String) (to_number : String → Seconds) (property : HeadersProperty)
    (path header : String) (res : Response) (payload : Value)
    → str_eq header "" ≡ false
    → res.status ≡ 429
    → nullish payload ≡ false
    → get_header res.headers "Retry-After" ≡ some header
    → (x : RateLimitExceeded) × (x.retry_after ≡ some (to_number header))
      × (handle_http_error show to_number property path (http_client_error (error_for res payload))
          ≡ exceeded x)
unfolding handle_http_error exception_by_status rate_limited
exception_of_limit show to_number property path header res payload given limited not_null
      comes_back =
    (
      record {
        server =
            new_generic 429 (prop payload "message") (obj end)
              (request_id_of property (fetched res.headers));
        retry_after = some (to_number header);
      },
      refl,
      rw (not_null, limited, comes_back, given) refl,
    )

caught-exceeded :
    (world : World) (s : CookieSession) (x : RateLimitExceeded)
    → caught world s (exception (exceeded x))
      ≡ (s, failed (retryable rate_limit_exceeded x.retry_after))
unfolding caught classify classify_terminal classify_retryable
caught-exceeded world s x = refl

-- A refresh of a valid session, with a client id and a client whose `hasApiKey` is right, whose requests
-- are all answered by a status of 429 with a body of JSON that is not null and one and the same
-- `Retry-After`, not empty, fails as one to be retried after what `Number` makes of that header, and
-- leaves the session as it was.
pub refresh_limit_retryable :
    (world : World) (s : CookieSession) (o : RefreshOptions) (cookie claims : Value)
    (client_id header : String)
    → OnlyLimits header world.platform
    → str_eq header "" ≡ false
    → world.workos.has_api_key ≡ is_given world.workos.key
    → world.client_id ≡ some client_id
    → str_eq client_id "" ≡ false
    → unseal_data world.iron s.session_data s.cookie_password ≡ ok cookie
    → truthy (prop cookie "refreshToken") ≡ true
    → truthy (prop cookie "user") ≡ true
    → world.decode_jwt (prop cookie "accessToken") ≡ some claims
    → refresh world s o
      ≡ (s, failed (retryable rate_limit_exceeded (some (world.to_number header))))
refresh_limit_retryable world s o cookie claims client_id header limits given key id named unsealed
      token user decoded =
    let (e, (res, payload, same, limited, not_null, comes_back), ends) =
      refresh-fails world (Limit header) s o cookie claims client_id
        (limits-AlwaysFails header world.platform limits) key id named unsealed token user
        decoded in
    let (x, seconds, shown) =
      exception_of_limit world.show world.to_number world.platform.headers_property
        "/user_management/authenticate" header res payload given limited not_null comes_back in
    ends ∙ rw (same, shown, caught-exceeded world s x, seconds) refl
