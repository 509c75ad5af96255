-- ===== src/Session/Classify.antt =====
-- How `refresh` reads an error: `classifyTerminalRefreshError`, `classifyRetryableRefreshError`,
-- `getErrorStatus` and `isNetworkError`.
pub mod Laws
use workos_node.Prelude.{ℕ, Bool, true, false, Option, none, some, leb, ◌==◌, str_eq, if◌then◌else◌}
use workos_node.Js.{is_text}
use workos_node.Http.{type_error as network}
use workos_node.Client.Exceptions.{
  Seconds, generic_server, authentication, rate_limit_exceeded as limited, oauth, unexpected,
  type_error,
}
use workos_node.Session.{Thrown, exception, transport, wrong_type}

-- `RefreshSessionFailureReason`
pub data Reason : Type 0 where
  invalid_session_cookie no_session_cookie_provided : Reason
  invalid_grant mfa_enrollment sso_required : Reason
  rate_limit_exceeded timeout server_error network_error : Reason

-- A failed refresh: terminal, or to be retried after a number of seconds if the server named one.
pub data Failed : Type 0 where
  terminal : Reason → Failed
  retryable : Reason → Option Seconds → Failed

unfoldable pub classify_terminal : Thrown → Option Reason
classify_terminal (exception (oauth e)) =
    if is_text e.error "invalid_grant" then some invalid_grant else none
classify_terminal (exception (authentication e)) =
    if str_eq e.code "mfa_enrollment"
    then some mfa_enrollment
    else if str_eq e.code "sso_required"
    then some sso_required
    else none
classify_terminal _ = none

-- The status of an `OauthException` or a `GenericServerException`, whose subclasses are
-- `AuthenticationException` and `RateLimitExceededException`.
unfoldable pub get_error_status : Thrown → Option ℕ
get_error_status (exception (oauth e)) = some e.status
get_error_status (exception (generic_server e)) = some e.status
get_error_status (exception (authentication e)) = some e.server.status
get_error_status (exception (limited e)) = some e.server.status
get_error_status _ = none

-- A `TypeError`, or an error that has one as its cause.
unfoldable pub is_network_error : Thrown → Bool
is_network_error wrong_type = true
is_network_error (exception type_error) = true
is_network_error (exception (unexpected network)) = true
is_network_error (transport network) = true
is_network_error _ = false

unfoldable pub by_network : Bool → Option Failed
by_network true = some (retryable network_error none)
by_network false = none

unfoldable pub by_status : Option ℕ → Bool → Option Failed
by_status none net = by_network net
by_status (some status) net =
    if status == 429
    then some (retryable rate_limit_exceeded none)
    else if status == 408
    then some (retryable timeout none)
    else if leb 500 status
    then some (retryable server_error none)
    else by_network net

unfoldable pub classify_retryable : Thrown → Option Failed
classify_retryable (exception (limited e)) = some (retryable rate_limit_exceeded e.retry_after)
classify_retryable e = by_status (get_error_status e) (is_network_error e)

-- The `catch` of `refresh`; `none` rethrows.
unfoldable pub classify : Thrown → Option Failed
classify e = elim (classify_terminal e) [
  | some reason ↦ some (terminal reason)
  | none ↦ classify_retryable e
]
