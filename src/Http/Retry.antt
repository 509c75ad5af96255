-- ===== src/Http/Retry.antt =====
-- `fetchRequestWithRetry`: the idempotency key, the decision to retry, and the loop. One call of
-- `send` is one `fetchRequest`; its index is the number of calls before it.
pub mod Loop
pub mod Idempotency
use workos_node.Prelude.{
  ℕ, zero, suc, ◌+◌, String, Bool, true, false, not, ◌||◌, Option, none, some, List, [], ◌∷◌, ◌++◌,
  ltb, ◌==◌, str_eq, any, if◌then◌else◌, Result, ok, err,
}
use workos_node.Js.{Dict, assign, same_ignoring_case}
use workos_node.Http.{
  Request, Response, RequestError, type_error, http_client_error, parse_error, unknown_error,
}

abbrev pub retry_status_codes : List ℕ
retry_status_codes = 408 ∷ 429 ∷ 500 ∷ 502 ∷ 503 ∷ 504 ∷ []

abbrev pub is_retry_status : ℕ → Bool
is_retry_status status = any (λ code. code == status) retry_status_codes

-- The part of `shouldRetryRequest` that looks at the error.
unfoldable pub is_transient : RequestError → Bool
is_transient type_error = true
is_transient (http_client_error e) = is_retry_status e.status
is_transient (parse_error e) = is_retry_status e.raw_status
is_transient (unknown_error name) = false

unfoldable pub should_retry_request : Option RequestError → ℕ → ℕ → Bool
unfolding is_transient
should_retry_request none retry_attempt max = false
should_retry_request (some e) retry_attempt max =
    if ltb max retry_attempt then false else is_transient e

abbrev pub error_of {ℓ} : {A : Type ℓ} → Result RequestError A → Option RequestError
error_of (ok a) = none
error_of (err e) = some e

-- `hasHeader`: the comparison ignores case.
unfoldable pub has_header : Dict → String → Bool
unfolding same_ignoring_case
has_header [] name = false
has_header ((k, v) ∷ rest) name = same_ignoring_case k name || has_header rest name

-- `withIdempotencyKey`; `key` is the key that is generated if one is needed.
unfoldable pub with_idempotency_key : String → Dict → ℕ → String → Dict
unfolding assign has_header
with_idempotency_key method headers max key =
    if not (str_eq method "POST") || max == 0 || has_header headers "Idempotency-Key"
    then headers
    else assign headers "Idempotency-Key" key

-- The request that every attempt sends.
abbrev pub keyed : Request → ℕ → String → Request
keyed req max key = record req { headers = with_idempotency_key req.method req.headers max key }

-- `maxRetries ?? this.MAX_RETRY_ATTEMPTS`
abbrev pub get_or : Option ℕ → ℕ → ℕ
get_or none limit = limit
get_or (some n) limit = n

-- One turn of the loop: the request that was sent, and after it the wait, by its retry number and
-- the delay that the server asked for.
pub data Event : Type 0 where
  sent : Request → Event
  slept : ℕ → Option ℕ → Event

pub record Run : Type 0 where
  pub result : Result RequestError Response
  pub log : List Event

-- `stuck` is no value of the source: the loop ran out of fuel.
pub data Outcome : Type 0 where
  finished : Run → Outcome
  stuck : Outcome

abbrev pub after : List Event → Outcome → Outcome
after events (finished r) = finished (record r { log = events ++ r.log })
after events stuck = stuck

-- `error_delay` is `getRetryAfterMs`.
module _ (send : ℕ → Request → Result RequestError Response)
    (error_delay : RequestError → Option ℕ) where
  abbrev pub delay_of : Option RequestError → Option ℕ
  delay_of none = none
  delay_of (some e) = error_delay e

  -- `makeRequest`, with `retryAttempts` as an argument; the calls before this one are
  -- `retryAttempts` - 1.
  unfoldable pub make_request : ℕ → Request → ℕ → ℕ → Outcome
  unfolding should_retry_request
  make_request zero req calls max = stuck
  make_request (suc fuel) req calls max =
      let result = send calls req in
      let wait = slept (calls + 2) (delay_of (error_of result)) in
      let again = after (sent req ∷ wait ∷ []) (make_request fuel req (calls + 1) max) in
      if should_retry_request (error_of result) (calls + 1) max
      then again
      else finished (record { result = result; log = sent req ∷ [] })

  -- The retries are bounded by `max`, so `max` + 1 rounds are enough.
  unfoldable pub fetch_request_with_retry : Request → Option ℕ → ℕ → String → Outcome
  unfolding make_request with_idempotency_key
  fetch_request_with_retry req max_retries max_retry_attempts key =
      let max = get_or max_retries max_retry_attempts in
      make_request (suc max) (keyed req max key) 0 max
