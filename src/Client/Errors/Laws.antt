-- ===== src/Client/Errors/Laws.antt =====
-- What the exceptions of a failed request tell of it.
use workos_node.Prelude.{
  ℕ, String, Bool, true, false, not, ◌&&◌, ◌||◌, Option, none, some, ◌≡◌, refl, ◌⊎◌, inl, inr, ◌==◌,
  if◌then◌else◌, arith,
}
use workos_node.Js.{Value, truthy, nullish, prop}
use workos_node.Http.{Headers, fetched, plain, HttpError, http_client_error}
use workos_node.Client.Exceptions.{
  Exception, Seconds, api_key_required, unauthorized, conflict, unprocessable_entity, not_found,
  bad_request, generic_server, authentication, rate_limit_exceeded, oauth, unexpected, type_error,
  get_authentication_error_code,
}
use workos_node.Client.Errors.{
  HeadersProperty, request_id_of, rate_limited, unprocessable, authenticated_error, other_status,
  by_status, handle_http_error,
}

-- The `status` of an exception; the two that are no exceptions of a request have none.
abbrev pub status_of : Exception → Option ℕ
status_of (api_key_required path) = some 403
status_of (unauthorized id) = some 401
status_of (conflict e) = some 409
status_of (unprocessable_entity e) = some 422
status_of (not_found e) = some 404
status_of (bad_request e) = some 400
status_of (generic_server e) = some e.status
status_of (authentication e) = some e.server.status
status_of (rate_limit_exceeded e) = some e.server.status
status_of (oauth e) = some e.status
status_of (unexpected e) = none
status_of type_error = none

abbrev pub request_id_in : Exception → Option String
request_id_in (api_key_required path) = none
request_id_in (unauthorized id) = some id
request_id_in (conflict e) = some e.request_id
request_id_in (unprocessable_entity e) = some e.request_id
request_id_in (not_found e) = some e.request_id
request_id_in (bad_request e) = some e.request_id
request_id_in (generic_server e) = some e.request_id
request_id_in (authentication e) = some e.server.request_id
request_id_in (rate_limit_exceeded e) = some e.server.request_id
request_id_in (oauth e) = some e.request_id
request_id_in (unexpected e) = none
request_id_in type_error = none

-- A body that makes the default case a `BadRequestException`: a code and errors, and nothing that
-- the cases before it read.
abbrev pub reads_as_bad_request : Value → Bool
reads_as_bad_request payload =
    not (truthy (prop payload "error") || truthy (prop payload "error_description"))
    && truthy (prop payload "code")
    && truthy (prop payload "errors")

abbrev pub known_code : Value → Bool
known_code payload = elim (get_authentication_error_code payload) [ none ↦ false | some c ↦ true ]

module _ (show : Value → String) (to_number : String → Seconds) where
  other_status-facts :
      (status : ℕ) (payload : Value) (id : String)
      → (status_of (other_status show to_number status payload id) ≡ (
          if not (known_code payload) && reads_as_bad_request payload
          then some 400
          else some status))
        × (request_id_in (other_status show to_number status payload id) ≡ some id)
  unfolding other_status authenticated_error
  other_status-facts status payload id = (ground arith, ground arith)

  unprocessable-facts :
      (payload : Value) (id : String)
      → (unprocessable show to_number payload id ≡ type_error)
        ⊎ ((status_of (unprocessable show to_number payload id) ≡ some 422)
            × (request_id_in (unprocessable show to_number payload id) ≡ some id))
  unfolding unprocessable
  unprocessable-facts payload id = ground arith

  rate_limited-facts :
      (headers : Headers) (payload : Value) (id : String)
      → (rate_limited show to_number headers payload id ≡ type_error)
        ⊎ ((status_of (rate_limited show to_number headers payload id) ≡ some 429)
            × (request_id_in (rate_limited show to_number headers payload id) ≡ some id))
  unfolding rate_limited
  rate_limited-facts (plain d) payload id = inl refl
  rate_limited-facts (fetched d) payload id = inr (refl, refl)

  by_status-facts :
      (property : HeadersProperty) (path : String) (e : HttpError)
      → ((by_status show to_number property path e ≡ type_error)
          × ((e.status ≡ 422) ⊎ (e.status ≡ 429)))
        ⊎ ((status_of (by_status show to_number property path e) ≡ some e.status)
            × (request_id_in (by_status show to_number property path e)
                ≡ some (request_id_of property e.headers)))
        ⊎ ((by_status show to_number property path e
            ≡ other_status show to_number e.status e.payload (request_id_of property e.headers)))
  unfolding by_status
  by_status-facts property path e = ground (
    arith,
    unprocessable-facts e.payload (request_id_of property e.headers),
    rate_limited-facts e.headers e.payload (request_id_of property e.headers),
  )

-- The statuses that have an exception class of their own.
abbrev pub has_own_class : ℕ → Bool
has_own_class status =
    status == 401 || status == 409 || status == 422 || status == 404 || status == 429

-- The status that the exception of a failed request shows: the response's, but 400 where the body
-- has a code and errors and the response's status has no class of its own.
abbrev pub shown_status : HttpError → ℕ
shown_status e =
    if not (has_own_class e.status) && not (known_code e.payload) && reads_as_bad_request e.payload
    then 400
    else e.status

-- An error response with a body that is not null becomes, for statuses 422 and 429 alone, a `TypeError`;
-- or else an exception that shows the request id read from the headers, and a status: the response's, or
-- 400 where the response's status has no exception class of its own and the body has a `code` and
-- `errors`, no `error` and no `error_description`, and no code of an authentication error.
pub handle_http_error_status :
    (show : Value → String) (to_number : String → Seconds) (property : HeadersProperty)
    (path : String) (e : HttpError)
    → nullish e.payload ≡ false
    → let x = handle_http_error show to_number property path (http_client_error e) in
      ((x ≡ type_error) × ((e.status ≡ 422) ⊎ (e.status ≡ 429)))
      ⊎ ((status_of x ≡ some (shown_status e))
          × (request_id_in x ≡ some (request_id_of property e.headers)))
unfolding handle_http_error by_status
handle_http_error_status show to_number property path e h = ground (
  arith,
  unprocessable-facts show to_number e.payload (request_id_of property e.headers),
  rate_limited-facts show to_number e.headers e.payload (request_id_of property e.headers),
  other_status-facts show to_number e.status e.payload (request_id_of property e.headers),
)
