-- ===== src/Http/Verbs.antt =====
-- The verbs of `FetchHttpClient`, over the retry loop, and `toJSON` of a response. `URL`,
-- `URLSearchParams` and `JSON.stringify` are parameters.
use text.Mathlib.Text.{find?}
use workos_node.Prelude.{
  ℕ, String, Bool, true, false, not, Option, none, some, List, [], ◌∷◌, str_eq, if◌then◌else◌,
  Result, ok, err,
}
use workos_node.Js.{Value, undefined, null, str, Dict, spread}
use workos_node.Http.{
  Options, Request, Response, Fetched, RequestError, parse_error, body_text, broken, fetch_request,
  get_header, or_empty, caught,
}
use workos_node.Http.Retry.{Outcome, fetch_request_with_retry}

-- A request entity: `null`, a `URLSearchParams`, or a value that is turned to JSON.
pub data Entity : Type 0 where
  no_entity : Entity
  form : String → Entity
  json : Value → Entity

pub record RequestOptions : Type 0 where
  pub params : Option (List (String × Value))
  pub headers : Dict
  pub max_retries : Option ℕ

-- `getContentTypeHeader`
unfoldable pub content_type_header : Entity → Dict
content_type_header (form s) =
    ("Content-Type", "application/x-www-form-urlencoded;charset=utf-8") ∷ []
content_type_header no_entity = []
content_type_header (json v) = []

-- The parameters that `getQueryString` keeps.
unfoldable pub keeps_param : Value → Bool
keeps_param undefined = false
keeps_param null = false
keeps_param (str s) = not (str_eq s "")
keeps_param v = true

unfoldable pub sanitize : List (String × Value) → List (String × Value)
sanitize [] = []
sanitize ((name, v) ∷ rest) = if keeps_param v then (name, v) ∷ sanitize rest else sanitize rest

-- What the platform does for the client.
pub record Platform : Type 0 where
  -- `new URLSearchParams(…).toString()`
  pub search_params : List (String × Value) → String
  -- `new URL(…, baseURL).toString()`
  pub resolve : String → String → String
  -- `a + '?' + b`
  pub with_query : String → String → String
  -- a property of the `Headers` object of a response
  pub headers_property : Dict → String → Option String
  pub stringify : Value → Option String
  pub parse_json : String → Option Value
  -- the retry's idempotency key, and `getRetryAfterMs` at the time of the call
  pub fresh_key : String
  pub error_delay : RequestError → Option ℕ
  -- the outcome of each `fetch`, by the number of calls before it
  pub fetch : ℕ → Request → Fetched

module _ (p : Platform) (base_url : String) (options : Options) (limit : ℕ) where
  unfoldable pub get_query_string : Option (List (String × Value)) → Option String
  get_query_string none = none
  get_query_string (some params) = some (p.search_params (sanitize params))

  -- An empty query string is dropped by `filter(Boolean)`.
  unfoldable pub get_resource_url : String → Option (List (String × Value)) → String
  get_resource_url path params = elim (get_query_string params) [
    | none ↦ p.resolve path base_url
    | some q ↦ p.resolve (if str_eq q "" then path else p.with_query path q) base_url
  ]

  unfoldable pub get_body : Entity → Option String
  get_body no_entity = none
  get_body (form s) = some s
  get_body (json v) = p.stringify v

  unfoldable pub run_request : String → String → Option String → Dict → Option ℕ → Outcome
  run_request url method body headers max_retries =
      fetch_request_with_retry (λ calls. fetch_request p.parse_json options (p.fetch calls))
        p.error_delay (record { url = url; method = method; headers = headers; body = body })
        max_retries limit p.fresh_key

  -- `get` and `delete`
  unfoldable pub without_entity : String → String → RequestOptions → Outcome
  without_entity method path o =
      run_request (get_resource_url path o.params) method none o.headers o.max_retries

  -- `post`, `put`, `patch` and `deleteWithBody`
  unfoldable pub with_entity : String → String → Entity → RequestOptions → Outcome
  with_entity method path entity o =
      run_request (get_resource_url path o.params) method (get_body entity)
        (spread (content_type_header entity) o.headers) o.max_retries

  unfoldable pub get : String → RequestOptions → Outcome
  get = without_entity "GET"

  unfoldable pub delete : String → RequestOptions → Outcome
  delete = without_entity "DELETE"

  unfoldable pub post : String → Entity → RequestOptions → Outcome
  post = with_entity "POST"

  unfoldable pub put : String → Entity → RequestOptions → Outcome
  put = with_entity "PUT"

  unfoldable pub patch : String → Entity → RequestOptions → Outcome
  patch = with_entity "PATCH"

  unfoldable pub delete_with_body : String → Entity → RequestOptions → Outcome
  delete_with_body = with_entity "DELETE"

-- `FetchHttpClientResponse.toJSON`: null unless the content type says JSON. It is called outside the
-- `try` of the client's verbs, so its errors are not turned to SDK exceptions.
unfoldable pub is_json : Option String → Bool
is_json none = false
is_json (some content_type) = elim (find? content_type "application/json") [
  | none ↦ false
  | some i ↦ true
]

unfoldable pub to_json : (String → Option Value) → Response → Result RequestError Value
to_json parse_json res =
    if is_json (get_header res.headers "content-type")
    then elim res.body [
      | broken r ↦ err (caught "" r)
      | body_text raw ↦ elim (parse_json raw) [
        | none ↦ err (
            parse_error (record {
              raw_body = raw;
              raw_status = res.status;
              request_id = or_empty (get_header res.headers "X-Request-ID");
              raw_headers = none;
            }))
        | some v ↦ ok v
      ]
    ]
    else ok null
