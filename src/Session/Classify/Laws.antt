-- ===== src/Session/Classify/Laws.antt =====
-- How the failures of the transport reach the caller of `refresh`, by way of `handleHttpError`.
use workos_node.Prelude.{
  String, false, not, ◌&&◌, Option, none, some, ◌≡◌, ◌≤◌, refl, if◌then◌else◌, arith,
}
use workos_node.Js.{Value, nullish, truthy, prop, is_text, read}
use workos_node.Http.{HttpError, RequestError, http_client_error, timeout_error, type_error}
use workos_node.Client.Exceptions.{
  Seconds, get_authentication_error_code, parse_authentication_error_code,
}
use workos_node.Client.Errors.{
  HeadersProperty, request_id_of, handle_http_error, by_status as exception_by_status, other_status,
  authenticated_error,
}
use workos_node.Client.Errors.Laws.{known_code, reads_as_bad_request}
use workos_node.Session.{exception}
use workos_node.Session.Classify.{
  Failed, terminal, retryable, timeout, network_error, server_error, classify, classify_terminal,
  classify_retryable, by_status, by_network, get_error_status, is_network_error,
}

module _ (show : Value → String) (to_number : String → Seconds) (property : HeadersProperty) where
  -- What `refresh` makes of an error of the transport.
  abbrev pub reported : String → RequestError → Option Failed
  reported path e = classify (exception (handle_http_error show to_number property path e))

  -- A timeout of the client is reported as one, to be retried.
  timeout_reported :
      (path message : String)
      → reported path (timeout_error message) ≡ some (retryable timeout none)
  unfolding classify classify_terminal classify_retryable by_status get_error_status
      handle_http_error exception_by_status other_status timeout_error nullish prop truthy
      get_authentication_error_code parse_authentication_error_code is_text read
  timeout_reported path message = refl

  -- A lost connection is reported as a network error, to be retried.
  network_reported :
      (path : String) → reported path type_error ≡ some (retryable network_error none)
  unfolding classify classify_terminal classify_retryable by_status by_network get_error_status
      is_network_error handle_http_error
  network_reported path = refl

  other_reported :
      (e : HttpError) (id : String)
      → 500 ≤ e.status
      → let t = exception (other_status show to_number e.status e.payload id) in
        classify t ≡ (elim (classify_terminal t) [
          | some reason ↦ some (terminal reason)
          | none ↦
              if not (known_code e.payload) && reads_as_bad_request e.payload
              then none
              else some (retryable server_error none)
        ])
  unfolding other_status authenticated_error classify classify_retryable by_status get_error_status
      is_network_error by_network
  other_reported e id h = ground arith

-- A timeout of the client and a lost connection reach the caller of `refresh` as failures to be
-- retried, under reasons of their own.
pub transport_reported :
    (show : Value → String) (to_number : String → Seconds) (property : HeadersProperty)
    (path message : String)
    → (reported show to_number property path (timeout_error message)
        ≡ some (retryable timeout none))
      × (reported show to_number property path type_error ≡ some (retryable network_error none))
transport_reported show to_number property path message = (
  timeout_reported show to_number property path message,
  network_reported show to_number property path,
)

-- An error response with a status of 500 or more and a body that is not null is reported as a
-- server error to be retried, unless its body names a terminal failure, or reads as that of a bad
-- request: then the exception has lost the status, and is thrown again.
pub server_error_reported :
    (show : Value → String) (to_number : String → Seconds) (property : HeadersProperty)
    (path : String) (e : HttpError)
    → nullish e.payload ≡ false
    → 500 ≤ e.status
    → reported show to_number property path (http_client_error e)
      ≡ (elim (classify_terminal
          (exception (handle_http_error show to_number property path (http_client_error e)))) [
            | some reason ↦ some (terminal reason)
            | none ↦
                if not (known_code e.payload) && reads_as_bad_request e.payload
                then none
                else some (retryable server_error none)
          ])
unfolding handle_http_error exception_by_status
server_error_reported show to_number property path e h big =
    ground (arith, other_reported show to_number property e (request_id_of property e.headers))
