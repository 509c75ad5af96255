-- ===== src/Http.antt =====
-- src/common/net/http-client.ts and fetch-client.ts: requests, what a fetch can come to, the errors
-- that the client raises, one attempt (`fetchRequest`) and the retry loop (`fetchRequestWithRetry`).
-- `fetch` itself and `JSON.parse` are parameters.
pub mod Delay
pub mod Backoff
pub mod Retry
pub mod Verbs
mod Tests
use workos_node.Prelude.{
  ℕ, ◌+◌, String, Bool, true, false, not, ◌&&◌, ◌||◌, Option, none, some, List, [], ◌∷◌, ltb, leb,
  ◌==◌, str_eq, any, if◌then◌else◌, Result, ok, err,
}
use workos_node.Js.{Value, str, obj, field, end, Dict, lookup, assign, spread, same_ignoring_case}

-- The headers of an error: a `Headers` instance, read by `get`, or a plain object.
pub data Headers : Type 0 where
  fetched : Dict → Headers
  plain : Dict → Headers

-- `Headers.prototype.get` ignores case.
unfoldable pub get_header : Dict → String → Option String
unfolding same_ignoring_case
get_header [] name = none
get_header ((k, v) ∷ rest) name = if same_ignoring_case k name then some v else get_header rest name

-- What the promise of `fetch`, or of `text()`, is rejected with.
pub data Rejection : Type 0 where
  abort_error : Rejection
  network_error : Rejection
  other_error : String → Rejection

pub data BodyRead : Type 0 where
  body_text : String → BodyRead
  broken : Rejection → BodyRead

pub record Response : Type 0 where
  pub status : ℕ
  pub status_text : String
  pub headers : Dict
  pub body : BodyRead

pub data Fetched : Type 0 where
  responded : Response → Fetched
  rejected : Rejection → Fetched

pub record Request : Type 0 where
  pub url : String
  pub method : String
  pub headers : Dict
  pub body : Option String

pub record HttpError : Type 0 where
  pub message : String
  pub status : ℕ
  pub headers : Headers
  pub payload : Value

pub record ParseError : Type 0 where
  pub raw_body : String
  pub raw_status : ℕ
  pub request_id : String
  pub raw_headers : Option Dict

-- `TypeError`, `HttpClientError`, `ParseError`, and any other error.
pub data RequestError : Type 0 where
  type_error : RequestError
  http_client_error : HttpError → RequestError
  parse_error : ParseError → RequestError
  unknown_error : String → RequestError

-- `res.ok`
abbrev pub is_ok : ℕ → Bool
is_ok status = leb 200 status && ltb status 300

abbrev pub or_empty : Option String → String
or_empty none = ""
or_empty (some s) = s

unfoldable pub timeout_error : String → RequestError
timeout_error timeout = http_client_error (record {
  message = timeout;
  status = 408;
  headers = plain [];
  payload = obj (field "error" (str "Request timeout") end);
})

-- The `catch` of `fetchRequest` on what it did not throw itself.
unfoldable pub caught : String → Rejection → RequestError
unfolding timeout_error
caught timeout abort_error = timeout_error timeout
caught timeout network_error = type_error
caught timeout (other_error name) = unknown_error name

-- The client's own options, which every attempt reads. `timeout_message` is the text of the timeout
-- error, which names the configured milliseconds.
pub record Options : Type 0 where
  pub headers : Dict
  pub timeout_message : String

abbrev pub method_has_payload : String → Bool
method_has_payload method = str_eq method "POST" || str_eq method "PUT" || str_eq method "PATCH"

-- `body || (methodHasPayload ? '' : undefined)`
unfoldable pub request_body : String → Option String → Option String
request_body method none = if method_has_payload method then some "" else none
request_body method (some s) =
    if str_eq s "" then (if method_has_payload method then some "" else none) else some s

-- `(userAgent || 'workos-node').toString()`
unfoldable pub user_agent : Option String → String
user_agent none = "workos-node"
user_agent (some s) = if str_eq s "" then "workos-node" else s

abbrev pub base_headers : Dict
base_headers =
    ("Accept", "application/json, text/plain, */*") ∷ ("Content-Type", "application/json") ∷ []

-- The headers object that is handed to `fetch`.
unfoldable pub sent_headers : Dict → Dict → Dict
unfolding spread assign user_agent lookup
sent_headers own headers =
    assign (spread (spread base_headers own) headers) "User-Agent"
      (user_agent (lookup own "User-Agent"))

module _ (parse_json : String → Option Value) where
  -- A response that is not ok becomes an error, by way of its body.
  unfoldable pub response_error : String → Response → RequestError
  unfolding caught get_header
  response_error timeout res = elim res.body [
    | broken r ↦ caught timeout r
    | body_text raw ↦ elim (parse_json raw) [
      | none ↦ parse_error (record {
        raw_body = raw;
        raw_status = res.status;
        request_id = or_empty (get_header res.headers "X-Request-ID");
        raw_headers = some res.headers;
      })
      | some v ↦ http_client_error (record {
        message = res.status_text;
        status = res.status;
        headers = fetched res.headers;
        payload = v;
      })
    ]
  ]

  -- `fetchRequest`: one attempt.
  unfoldable pub fetch_request :
      Options → (Request → Fetched) → Request → Result RequestError Response
  unfolding caught response_error sent_headers request_body
  fetch_request options fetch req =
      let sent : Request = record {
        url = req.url;
        method = req.method;
        headers = sent_headers options.headers req.headers;
        body = request_body req.method req.body;
      } in
      elim (fetch sent) [
        | rejected r ↦ err (caught options.timeout_message r)
        | responded res ↦
            if is_ok res.status then ok res else err (response_error options.timeout_message res)
      ]
