-- ===== src/Session/Refresh/Unparsed.antt =====
-- What `refresh` makes of a gateway's error page: a response of a server fault whose body is not JSON.
use workos_node.Prelude.{
  ℕ, String, ◌≡◌, refl, ◌≤◌, true, false, Option, none, some, str_eq, ◌∙◌, arith, ok,
}
use workos_node.Js.{Value, truthy, prop}
use workos_node.Seal.{unseal_data}
use workos_node.Http.{
  RequestError, Request, Response, Fetched, ParseError, responded, body_text, parse_error, is_ok,
  response_error, or_empty, get_header,
}
use workos_node.Http.Verbs.{Platform}
use workos_node.Client.{is_given}
use workos_node.Client.Exceptions.{unexpected}
use workos_node.Client.Errors.{handle_http_error}
use workos_node.Session.{World, CookieSession, exception}
use workos_node.Session.Classify.{
  classify, classify_terminal, classify_retryable, by_status, by_network, get_error_status,
  is_network_error,
}
use workos_node.Session.Refresh.Failing.{AlwaysFails, fetch_request-IsRefused, refresh-fails}
use workos_node.Session.Refresh.{RefreshOptions, throws, refresh, caught}

-- A response with a status of 500 or more and a body that is not JSON.
pub record IsPage (parse_json : String → Option Value) (answered : Fetched) : Type 0 where
  pub response : Response
  pub raw : String
  pub arrived : answered ≡ responded response
  pub fault : 500 ≤ response.status
  pub body : response.body ≡ body_text raw
  pub not_json : parse_json raw ≡ none

-- Such an answer to every call.
abbrev pub OnlyPages : Platform → Type 0
OnlyPages p = (calls : ℕ) (req : Request) → IsPage p.parse_json (p.fetch calls req)

pub fault-not_ok : (status : ℕ) → 500 ≤ status → is_ok status ≡ false
fault-not_ok status h = ground arith

-- A `ParseError` with such a status.
abbrev Unparsed : RequestError → Type 0
Unparsed e = (page : ParseError) × (500 ≤ page.raw_status) × (e ≡ parse_error page)

pages-AlwaysFails : (p : Platform) → OnlyPages p → AlwaysFails p Unparsed
unfolding response_error
pages-AlwaysFails p pages http calls req =
    let (sent, came) =
      fetch_request-IsRefused p.parse_json http (p.fetch calls) req
        (λ sent. (pages calls sent).response)
        (λ sent. record {
          arrived = (pages calls sent).arrived;
          not_ok = fault-not_ok _ (pages calls sent).fault;
        }) in
    let page = pages calls sent in
    let error : ParseError = record {
      raw_body = page.raw;
      raw_status = page.response.status;
      request_id = or_empty (get_header page.response.headers "X-Request-ID");
      raw_headers = some page.response.headers;
    } in
    (
      parse_error error,
      (error, page.fault, refl),
      came ∙ rw (response_error, page.body, page.not_json) refl,
    )

-- A refresh of a valid session, with a client id and a client whose `hasApiKey` is right, whose requests
-- are all answered by a status of 500 or more with a body that is not JSON (a gateway's error page)
-- throws, with the `ParseError` as its cause, and leaves the session as it was: it is not reported as a
-- server error to be retried.
pub refresh_page_throws :
    (world : World) (s : CookieSession) (o : RefreshOptions) (cookie claims : Value)
    (client_id : String)
    → OnlyPages world.platform
    → world.workos.has_api_key ≡ is_given world.workos.key
    → world.client_id ≡ some client_id
    → str_eq client_id "" ≡ false
    → unseal_data world.iron s.session_data s.cookie_password ≡ ok cookie
    → truthy (prop cookie "refreshToken") ≡ true
    → truthy (prop cookie "user") ≡ true
    → world.decode_jwt (prop cookie "accessToken") ≡ some claims
    → (page : ParseError) × (500 ≤ page.raw_status)
      × (refresh world s o ≡ (s, throws (exception (unexpected (parse_error page)))))
unfolding handle_http_error caught classify classify_terminal classify_retryable by_status
    get_error_status is_network_error by_network
refresh_page_throws world s o cookie claims client_id pages key id named unsealed token user
      decoded =
    let (e, (page, fault, same), ends) =
      refresh-fails world Unparsed s o cookie claims client_id
        (pages-AlwaysFails world.platform pages) key id named unsealed token user decoded in
    (page, fault, ends ∙ rw same refl)
