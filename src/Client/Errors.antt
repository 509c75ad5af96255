-- ===== src/Client/Errors.antt =====
-- `handleHttpError` of src/workos.ts.
pub mod Laws
use Prim.Native.String
use workos_node.Prelude.{ℕ, String, ◌&&◌, ◌||◌, Option, none, some, ◌==◌, str_eq, if◌then◌else◌}
use workos_node.Js.{Dict, Value, obj, end, undefined, str, truthy, nullish, coalesce, prop, lookup}
use workos_node.Http.{
  Headers, fetched, plain, get_header, or_empty, HttpError, RequestError, http_client_error,
}
use workos_node.Client.Exceptions.{
  Exception, Seconds, unauthorized, conflict, unprocessable_entity, not_found, bad_request,
  generic_server, authentication, rate_limit_exceeded, oauth, unexpected, type_error,
  get_authentication_error_code, new_generic, if_truthy, conflict_message, oauth_message,
  unprocessable_message,
}

-- The value, if any, of a property of the `Headers` object of a response, by its name: the platform's.
abbrev pub HeadersProperty : Type 0
HeadersProperty = Dict → String → Option String

-- `headers['X-Request-ID'] ?? ''`
unfoldable pub request_id_of : HeadersProperty → Headers → String
request_id_of property (fetched d) = or_empty (property d "X-Request-ID")
request_id_of property (plain d) = or_empty (lookup d "X-Request-ID")

module _ (show : Value → String) (to_number : String → Seconds) where
  -- `retryAfter ? Number(retryAfter) : null`
  abbrev pub retry_after_of : Option String → Option Seconds
  retry_after_of none = none
  retry_after_of (some s) = if str_eq s "" then none else some (to_number s)

  unfoldable pub rate_limited : Headers → Value → String → Exception
  rate_limited (plain d) payload request_id = type_error
  rate_limited (fetched d) payload request_id = rate_limit_exceeded (record {
    server = new_generic 429 (prop payload "message") (obj end) request_id;
    retry_after = retry_after_of (get_header d "Retry-After");
  })

  unfoldable pub unprocessable : Value → String → Exception
  unprocessable payload request_id =
      elim (unprocessable_message show (prop payload "errors") (prop payload "message")) [
        | none ↦ type_error
        | some message ↦ unprocessable_entity (record {
          message = message;
          request_id = request_id;
          code = if_truthy (prop payload "code") undefined;
        })
      ]

  unfoldable pub authenticated_error : ℕ → Value → String → String → Exception
  authenticated_error status payload request_id code = authentication (record {
    server =
        new_generic status (coalesce (prop payload "message") (prop payload "error_description"))
          payload request_id;
    code = code;
    pending_authentication_token = prop payload "pending_authentication_token";
    radar_challenge_id = prop payload "radar_challenge_id";
  })

  -- The `default` case of the `switch`.
  unfoldable pub other_status : ℕ → Value → String → Exception
  other_status status payload request_id = elim (get_authentication_error_code payload) [
    | some code ↦ authenticated_error status payload request_id code
    | none ↦
        if truthy (prop payload "error") || truthy (prop payload "error_description")
        then oauth (record {
          status = status;
          request_id = request_id;
          error = prop payload "error";
          error_description = prop payload "error_description";
          raw_data = payload;
          message = oauth_message show (prop payload "error") (prop payload "error_description");
        })
        else if truthy (prop payload "code") && truthy (prop payload "errors")
        then bad_request (record {
          message = if_truthy (prop payload "message") (str "Bad request");
          request_id = request_id;
          code = prop payload "code";
          errors = prop payload "errors";
        })
        else generic_server (new_generic status (prop payload "message") payload request_id)
  ]

  unfoldable pub by_status : HeadersProperty → String → HttpError → Exception
  by_status property path e =
      let payload = e.payload in
      let request_id = request_id_of property e.headers in
      if e.status == 401
      then unauthorized request_id
      else if e.status == 409
      then conflict (record {
        message = conflict_message show (prop payload "message") (prop payload "error");
        request_id = request_id;
        code = prop payload "code";
      })
      else if e.status == 422
      then unprocessable payload request_id
      else if e.status == 404
      then not_found (record {
        message =
            coalesce (prop payload "message")
              (str (String.◌++◌ "The requested path '" (String.◌++◌ path "' could not be found.")));
        request_id = request_id;
        code = prop payload "code";
      })
      else if e.status == 429
      then rate_limited e.headers payload request_id
      else other_status e.status payload request_id

  -- The exception that a failed request of the client ends in. Reading the properties of a payload
  -- that is null throws.
  unfoldable pub handle_http_error : HeadersProperty → String → RequestError → Exception
  handle_http_error property path (http_client_error e) =
      if nullish e.payload then type_error else by_status property path e
  handle_http_error property path e = unexpected e
