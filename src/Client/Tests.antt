-- ===== src/Client/Tests.antt =====
-- The client at concrete inputs.
use workos_node.Prelude.{◌≡◌, refl, ◌⊎◌, String, true, false, none, some, [], ◌∷◌}
use workos_node.Js.{Value, undefined, num, arr, cons, nil, obj, end, str, field, nullish, truthy}
use workos_node.Http.{HttpError, fetched, http_client_error, rejected, network_error}
use workos_node.Http.Verbs.{Platform, json}
use workos_node.Client.{Workos, VerbOptions}
use workos_node.Client.Exceptions.{
  Seconds, not_a_number, type_error, unprocessable_message, requirement_lines, character_lines,
  utf16_length,
}
use workos_node.Client.Errors.{HeadersProperty, request_id_of, handle_http_error}
use workos_node.Client.Errors.Laws.{
  status_of, request_id_in, shown_status, handle_http_error_status,
}
use workos_node.Client.Laws.{posting, perform, EndsWithin, perform_ends}

abbrev show : Value → String
show v = ""

abbrev to_number : String → Seconds
to_number s = not_a_number

-- A server that is out of reach.
abbrev offline : Platform
offline = record {
  search_params = λ params. "";
  resolve = λ path base. path;
  with_query = λ path query. path;
  headers_property = λ headers name. none;
  stringify = λ v. some "{}";
  parse_json = λ s. none;
  fresh_key = "key";
  error_delay = λ e. none;
  fetch = λ n req. rejected network_error;
}

-- A public client, which has a client id only.
abbrev public_client : Workos
public_client = record {
  base_url = "https://api.workos.com";
  key = none;
  client_id = some "client_1";
  has_api_key = false;
  http = record { headers = []; timeout_message = "Request timeout after 60000ms" };
  max_retries = none;
}

abbrev plain_options : VerbOptions
plain_options = record {
  query = none;
  idempotency_key = none;
  warrant_token = none;
  access_token = none;
  skip_api_key_check = true;
  max_retries = some 2;
}

perform_ends_example : EndsWithin offline show to_number public_client 2 (
    perform offline show to_number public_client
      (posting "/sso/token" (json (obj end)) plain_options))
perform_ends_example =
    perform_ends offline show to_number public_client
      (posting "/sso/token" (json (obj end)) plain_options)

abbrev server_fault : HttpError
server_fault = record {
  message = "Internal Server Error";
  status = 500;
  headers = fetched (("X-Request-ID", "req_1") ∷ []);
  payload = obj (field "message" (str "fault") end);
}

has_body : nullish server_fault.payload ≡ false
unfolding nullish
has_body = refl

-- A `Headers` object has no property by the name of a header.
abbrev no_property : HeadersProperty
no_property headers name = none

handle_http_error_status_example :
    let x =
      handle_http_error show to_number no_property "/events" (http_client_error server_fault) in
    ((x ≡ type_error) × ((server_fault.status ≡ 422) ⊎ (server_fault.status ≡ 429)))
    ⊎ ((status_of x ≡ some (shown_status server_fault))
        × (request_id_in x ≡ some (request_id_of no_property server_fault.headers)))
handle_http_error_status_example =
    handle_http_error_status show to_number no_property "/events" server_fault has_body

-- An array of errors, and a text, which is iterated by its characters.
unprocessable_messages :
    (unprocessable_message show (arr (cons (obj end) nil)) undefined
      ≡ some (str "The following requirement must be met:\n\t\n"))
    × (unprocessable_message show (str "ab") undefined
        ≡ some (str "The following requirements must be met:\n\t\n\t\n"))
    × (unprocessable_message show (num 3) undefined ≡ none)
unfolding unprocessable_message requirement_lines character_lines utf16_length truthy nullish
unprocessable_messages = (refl, refl, refl)
