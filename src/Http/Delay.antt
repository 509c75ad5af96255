-- ===== src/Http/Delay.antt =====
-- How long the client waits before a retry: `parseRetryAfter`, `getRetryAfterMs` and
-- `getSleepTimeInMilliseconds`. `Date.parse`, the clock and `Math.random` are parameters.
use workos_node.Prelude.{
  ℕ, ◌-◌, ◌*◌, ◌≤◌, min, ◌≡◌, String, Option, none, some, List, [], ◌∷◌, ltb, if◌then◌else◌, arith,
}
use workos_node.Js.{Dict, lookup, codes}
use workos_node.Js.Text.{trim, all_digits, decimal}
use workos_node.Http.{
  fetched, plain, get_header, RequestError, type_error, http_client_error, parse_error,
  unknown_error,
}

abbrev pub maximum_retry_after : ℕ
maximum_retry_after = 60000

-- What `Date.parse` answers, in milliseconds since 1970.
pub data Parsed : Type 0 where
  not_a_date : Parsed
  before_epoch : Parsed
  at : ℕ → Parsed

module _ (date_parse : List ℕ → Parsed) (now : ℕ) where
  unfoldable pub until_date : Parsed → Option ℕ
  until_date not_a_date = none
  until_date before_epoch = some 0
  until_date (at t) = if ltb t now then some 0 else some (min (t - now) maximum_retry_after)

  unfoldable pub parse_trimmed : List ℕ → Option ℕ
  unfolding until_date decimal
  parse_trimmed [] = none
  parse_trimmed (c ∷ s) =
      if all_digits (c ∷ s)
      then some (min (decimal 0 (c ∷ s) * 1000) maximum_retry_after)
      else until_date (date_parse (c ∷ s))

  unfoldable pub parse_retry_after : Option String → Option ℕ
  unfolding parse_trimmed trim codes
  parse_retry_after none = none
  parse_retry_after (some header) = parse_trimmed (trim (codes header))

  -- `headers['Retry-After'] ?? headers['retry-after']` on a plain object.
  abbrev pub plain_retry_after : Dict → Option String
  unfolding lookup
  plain_retry_after d = elim (lookup d "Retry-After") [
    | none ↦ lookup d "retry-after"
    | some v ↦ some v
  ]

  -- The header's value that the error carries; of an error without headers there is none.
  unfoldable pub retry_after_value : RequestError → Option String
  unfolding get_header lookup
  retry_after_value (http_client_error e) = elim e.headers [
    | fetched d ↦ get_header d "Retry-After"
    | plain d ↦ plain_retry_after d
  ]
  retry_after_value (parse_error e) = elim e.raw_headers [
    | none ↦ none
    | some d ↦ get_header d "Retry-After"
  ]
  retry_after_value type_error = none
  retry_after_value (unknown_error name) = none

  unfoldable pub get_retry_after_ms : RequestError → Option ℕ
  unfolding parse_retry_after retry_after_value
  get_retry_after_ms e = parse_retry_after (retry_after_value e)

  until_date-le : (p : Parsed) (ms : ℕ) → until_date p ≡ some ms → ms ≤ maximum_retry_after
  unfolding until_date
  until_date-le not_a_date ms e = cc
  until_date-le before_epoch ms e = ground arith
  until_date-le (at t) ms e = ground arith

  parse_trimmed-le : (s : List ℕ) (ms : ℕ) → parse_trimmed s ≡ some ms → ms ≤ maximum_retry_after
  unfolding parse_trimmed
  parse_trimmed-le [] ms e = cc
  parse_trimmed-le (c ∷ s) ms e = ground (arith, until_date-le (date_parse (c ∷ s)) ms)

  parse_retry_after-le :
      (h : Option String) (ms : ℕ) → parse_retry_after h ≡ some ms → ms ≤ maximum_retry_after
  unfolding parse_retry_after
  parse_retry_after-le none ms e = cc
  parse_retry_after-le (some h) ms e = parse_trimmed-le (trim (codes h)) ms e

  -- A delay that the server asks for is at most a minute, in whatever form it comes.
  pub get_retry_after_ms-le :
      (e : RequestError) (ms : ℕ) → get_retry_after_ms e ≡ some ms → ms ≤ maximum_retry_after
  unfolding get_retry_after_ms
  get_retry_after_ms-le e ms h = parse_retry_after-le (retry_after_value e) ms h
