-- ===== src/Client.antt =====
-- src/workos.ts: the client's configuration, its verbs, and how a failed request becomes an
-- exception of the SDK.
pub mod Exceptions
pub mod Errors
pub mod Laws
mod Tests
use Prim.Native.String
use workos_node.Prelude.{
  ℕ, zero, suc, String, Bool, true, false, not, ◌&&◌, ◌||◌, Option, none, some, List, [], ◌∷◌, ◌==◌,
  str_eq, if◌then◌else◌, ok, err,
}
use workos_node.Js.{Value, Dict, assign, spread}
use workos_node.Http.{Options, Response, RequestError}
use workos_node.Http.Retry.{Event, Run, Outcome, finished, stuck}
use workos_node.Http.Verbs
use workos_node.Http.Verbs.{Platform, Entity, RequestOptions, to_json}
use Exceptions.{Exception, Seconds, api_key_required}
use Errors.{handle_http_error}

-- `config.headers`: a plain object, or a `Headers` instance or an array, which are not read.
pub data ConfigHeaders : Type 0 where
  record_headers : Dict → ConfigHeaders
  other_headers : ConfigHeaders

pub record WorkosOptions : Type 0 where
  pub api_key : Option String
  pub client_id : Option String
  pub https : Option Bool
  pub api_hostname : Option String
  pub port : Option ℕ
  pub config_headers : Option ConfigHeaders
  pub max_retries : Option ℕ
  pub timeout_message : String

-- The constructor's first argument: a key or the options.
pub data KeyOrOptions : Type 0 where
  key : Option String → Option WorkosOptions → KeyOrOptions
  options : WorkosOptions → KeyOrOptions

pub record Workos : Type 0 where
  pub base_url : String
  pub key : Option String
  pub client_id : Option String
  pub has_api_key : Bool
  pub http : Options
  pub max_retries : Option ℕ

pub data Constructed : Type 0 where
  client : Workos → Constructed
  missing_credentials : Constructed

abbrev pub no_options : WorkosOptions
no_options = record {
  api_key = none;
  client_id = none;
  https = none;
  api_hostname = none;
  port = none;
  config_headers = none;
  max_retries = none;
  timeout_message = "Request timeout after 60000ms";
}

-- `!!text`
abbrev pub is_given : Option String → Bool
is_given none = false
is_given (some s) = not (str_eq s "")

-- The value, or else the environment's.
abbrev pub or_env : Option String → Option String → Option String
or_env o env = if is_given o then o else env

abbrev pub bearer : String → String
bearer token = String.◌++◌ "Bearer " token

-- Of a key that is the empty text no header is made.
abbrev pub with_key : Option String → Dict → Dict
with_key none headers = headers
with_key (some k) headers =
    if str_eq k "" then headers else assign headers "Authorization" (bearer k)

abbrev pub with_config : Option ConfigHeaders → Dict → Dict
with_config (some (record_headers d)) headers = spread headers d
with_config (some other_headers) headers = headers
with_config none headers = headers

-- `createHttpClient`
unfoldable pub create_http_client : WorkosOptions → Option String → String → Options
create_http_client o k agent = record {
  headers = with_key k (with_config o.config_headers (("User-Agent", agent) ∷ []));
  timeout_message = o.timeout_message;
}

module _ (env : String → Option String) (show_port : ℕ → String) (version : String) where
  unfoldable pub base_url_of : WorkosOptions → String
  base_url_of o =
      let protocol : String = elim o.https [
        | none ↦ "https"
        | some b ↦ if b then "https" else "http"
      ] in
      let host : String = elim o.api_hostname [
        | none ↦ "api.workos.com"
        | some h ↦ if str_eq h "" then "api.workos.com" else h
      ] in
      let base = String.◌++◌ protocol (String.◌++◌ "://" host) in
      elim o.port [
        | none ↦ base
        | some n ↦ if n == 0 then base else String.◌++◌ base (String.◌++◌ ":" (show_port n))
      ]

  unfoldable pub configure : Option String → WorkosOptions → Constructed
  configure given o =
      let k = or_env given (env "WORKOS_API_KEY") in
      let id = or_env o.client_id (env "WORKOS_CLIENT_ID") in
      if not (is_given k) && not (is_given id)
      then missing_credentials
      else client (record {
        base_url = base_url_of o;
        key = k;
        client_id = id;
        has_api_key = is_given k;
        http = create_http_client o k (String.◌++◌ "workos-node/" version);
        max_retries = o.max_retries;
      })

  unfoldable pub construct : KeyOrOptions → Constructed
  construct (options o) = configure o.api_key o
  construct (key k none) = configure k no_options
  construct (key k (some o)) = configure k o

-- What a verb comes to, with the events of its calls. `unparsed` is an error of `toJSON`;
-- `out_of_fuel` is no value of the source.
pub data Reply : Type 0 where
  returned : Value → Reply
  thrown : Exception → Reply
  unparsed : RequestError → Reply
  out_of_fuel : Reply

pub record Traced : Type 0 where
  pub reply : Reply
  pub log : List Event

-- The options of `post`, `get`, `put` and `patch`; a verb reads the fields that it knows.
pub record VerbOptions : Type 0 where
  pub query : Option (List (String × Value))
  pub idempotency_key : Option String
  pub warrant_token : Option String
  pub access_token : Option String
  pub skip_api_key_check : Bool
  pub max_retries : Option ℕ

-- `if (value) headers[name] = value`
abbrev pub with_header : String → Option String → Dict → Dict
with_header name none headers = headers
with_header name (some v) headers = if str_eq v "" then headers else assign headers name v

abbrev pub default_max_retry_attempts : ℕ
default_max_retry_attempts = 3

abbrev pub retry_limit : Workos → ℕ
retry_limit w = elim w.max_retries [ none ↦ default_max_retry_attempts | some n ↦ n ]

module _ (p : Platform) (show : Value → String) (to_number : String → Seconds) where
  -- The `try` of each verb, and `res.toJSON()` behind it; `delete` reads no body.
  unfoldable pub settle : String → Bool → Outcome → Traced
  settle path reads_body stuck = record { reply = out_of_fuel; log = [] }
  settle path reads_body (finished r) = elim r.result [
    | err e ↦ record {
      reply = thrown (handle_http_error show to_number p.headers_property path e);
      log = r.log;
    }
    | ok res ↦
        if reads_body
        then elim (to_json p.parse_json res) [
          | ok v ↦ record { reply = returned v; log = r.log }
          | err e ↦ record { reply = unparsed e; log = r.log }
        ]
        else record { reply = returned Value.undefined; log = r.log }
  ]

  -- `requireApiKey`, unless the call may do without one.
  unfoldable pub guarded : Workos → String → Bool → Traced → Traced
  guarded w path skip rest =
      if skip || w.has_api_key
      then rest
      else record { reply = thrown (api_key_required path); log = [] }

  unfoldable pub post : Workos → String → Entity → VerbOptions → Traced
  post w path entity o =
      let headers =
        with_header "Warrant-Token" o.warrant_token
          (with_header "Idempotency-Key" o.idempotency_key []) in
      guarded w path o.skip_api_key_check (
        settle path true (
          Verbs.post p w.base_url w.http (retry_limit w) path entity
            (record { params = o.query; headers = headers; max_retries = o.max_retries })))

  unfoldable pub get : Workos → String → VerbOptions → Traced
  get w path o =
      let token : Option String = elim o.access_token [
        | none ↦ none
        | some t ↦ if str_eq t "" then none else some (bearer t)
      ] in
      let headers =
        with_header "Warrant-Token" o.warrant_token (with_header "Authorization" token []) in
      guarded w path o.skip_api_key_check (
        settle path true (
          Verbs.get p w.base_url w.http (retry_limit w) path
            (record { params = o.query; headers = headers; max_retries = o.max_retries })))

  unfoldable pub put : Workos → String → Entity → VerbOptions → Traced
  put w path entity o = guarded w path o.skip_api_key_check (
      settle path true (
        Verbs.put p w.base_url w.http (retry_limit w) path entity (record {
          params = o.query;
          headers = with_header "Idempotency-Key" o.idempotency_key [];
          max_retries = o.max_retries;
        })))

  unfoldable pub patch : Workos → String → Entity → VerbOptions → Traced
  patch w path entity o = guarded w path o.skip_api_key_check (
      settle path true (
        Verbs.patch p w.base_url w.http (retry_limit w) path entity (record {
          params = o.query;
          headers = with_header "Idempotency-Key" o.idempotency_key [];
          max_retries = o.max_retries;
        })))

  unfoldable pub delete : Workos → String → Option (List (String × Value)) → Traced
  delete w path query = guarded w path false (
      settle path false (
        Verbs.delete p w.base_url w.http (retry_limit w) path
          (record { params = query; headers = []; max_retries = none })))

  unfoldable pub delete_with_body : Workos → String → Entity → Traced
  delete_with_body w path entity = guarded w path false (
      settle path false (
        Verbs.delete_with_body p w.base_url w.http (retry_limit w) path entity
          (record { params = none; headers = []; max_retries = none })))
