-- ===== src/Session/Toy.antt =====
-- A server that grants new tokens, the world around it, and what the tests run.
use workos_node.Prelude.{true, none, some, [], ◌∷◌, ok, err}
use Prim.Native.String
use workos_node.Js.{
  Value, undefined, null, str, obj, end, field, truthy, nullish, is_undefined, prop, read, coalesce,
  assign, spread, lookup, same_ignoring_case, same_codes, codes, lower,
}
use workos_node.Seal.{seal_data, unseal_data, by_version, is_current, parse_seal}
use workos_node.Seal.Toy.{toy_iron}
use workos_node.Http.{
  Response, responded, body_text, fetch_request, sent_headers, request_body, user_agent, get_header,
}
use workos_node.Http.Verbs.{
  Platform, with_entity, run_request, get_body, get_resource_url, get_query_string,
  content_type_header, to_json, is_json,
}
use workos_node.Http.Verbs
use workos_node.Http.Retry.{
  fetch_request_with_retry, make_request, should_retry_request, with_idempotency_key, has_header,
}
use workos_node.Js.Text.{
  split, split_from, parse_int, parse_signed, parse_digits, trim_start, is_space, leading_digits,
  decimal,
}
use workos_node.Client.{Workos, post, guarded, settle}
use workos_node.Client.Exceptions.{not_a_number}
use workos_node.Session.{World, valid}
use workos_node.Session.Refresh.{
  AuthenticationResponse, session_cookie, refresh, authenticate_with_refresh_token, request_tokens,
  resolve_client_id, prepare_sealed, seal_session, answer, deserialize_authentication_response,
  deserialize_user, refresh_body,
}

abbrev pub claims : Value
claims = obj (field "sid" (str "session_1") (field "org_id" (str "org_1") end))

abbrev pub granted : Value
granted = obj (
    field "user" (obj (field "id" (str "user_1") end))
      (field "access_token" (str "at_2") (field "refresh_token" (str "rt_2") end)))

abbrev pub response_of_server : Response
response_of_server = record {
  status = 200;
  status_text = "OK";
  headers = ("Content-Type", "application/json") ∷ [];
  body = body_text "{}";
}

abbrev pub platform : Platform
platform = record {
  search_params = λ params. "";
  resolve = λ path base. String.◌++◌ base path;
  with_query = λ path query. path;
  headers_property = λ headers name. none;
  stringify = λ v. some "{}";
  parse_json = λ s. some granted;
  fresh_key = "key";
  error_delay = λ e. none;
  fetch = λ n req. responded response_of_server;
}

abbrev pub workos : Workos
workos = record {
  base_url = "https://api.workos.com";
  key = some "sk_1";
  client_id = some "client_1";
  has_api_key = true;
  http = record { headers = []; timeout_message = "Request timeout after 60000ms" };
  max_retries = none;
}

abbrev pub world : World
world = record {
  iron = toy_iron;
  jwt_verify = λ token. valid;
  decode_jwt = λ token. some claims;
  platform = platform;
  show = λ v. "";
  to_number = λ s. not_a_number;
  workos = workos;
  client_id = some "client_1";
}

unfoldable pub running : Unit {0}
unfolding refresh authenticate_with_refresh_token request_tokens resolve_client_id prepare_sealed
    seal_session answer deserialize_authentication_response deserialize_user session_cookie
    refresh_body post guarded settle Verbs.post with_entity run_request get_body get_resource_url
    get_query_string content_type_header fetch_request_with_retry make_request should_retry_request
    with_idempotency_key has_header assign spread fetch_request sent_headers request_body user_agent
    lookup to_json is_json get_header same_ignoring_case same_codes codes lower unseal_data
    seal_data by_version is_current parse_seal split split_from parse_int parse_signed parse_digits
    trim_start is_space leading_digits decimal truthy nullish is_undefined coalesce prop read
running = tt

unfoldable pub user_of_server : Value
unfolding running
user_of_server = elim (deserialize_user (prop granted "user")) [ ok v ↦ v | err e ↦ null ]

abbrev pub new_response : AuthenticationResponse
unfolding running user_of_server
new_response = record {
  user = user_of_server;
  organization_id = undefined;
  access_token = str "at_2";
  refresh_token = str "rt_2";
  authentication_method = undefined;
  impersonator = undefined;
}
