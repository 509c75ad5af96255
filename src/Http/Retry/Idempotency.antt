-- ===== src/Http/Retry/Idempotency.antt =====
-- A retried write carries one idempotency key.
use workos_node.Prelude.{
  ◌⊎◌, inl, inr, Bool-cases, false, ℕ, zero, suc, ◌+◌, ◌<◌, ◌≡◌, refl, String, true, Option, List,
  [], ◌∷◌, map, All, arith, Result,
}
use workos_node.Js.{Dict, assign, same_ignoring_case, same_codes, codes, lower}
use workos_node.Http.{Request, Response, RequestError}
use workos_node.Http.Retry.{
  has_header, with_idempotency_key, Event, sent, slept, keyed, get_or, Run, finished,
  fetch_request_with_retry,
}
use workos_node.Http.Retry.Loop.{history, fetch_request_with_retry_runs}

same_codes_refl : (s : List ℕ) → same_codes s s ≡ true
unfolding same_codes
same_codes_refl [] = refl
same_codes_refl (c ∷ s) = ground (arith, same_codes_refl s)

same_ignoring_case_refl : (s : String) → same_ignoring_case s s ≡ true
unfolding same_ignoring_case
same_ignoring_case_refl s = same_codes_refl (map lower (codes s))

has_header-assign : (d : Dict) (k v : String) → has_header (assign d k v) k ≡ true
unfolding has_header assign
has_header-assign [] k v = ground (arith, same_ignoring_case_refl k)
has_header-assign ((j, w) ∷ d) k v =
    ground (arith, same_ignoring_case_refl k, has_header-assign d k v)

-- Every request of the log has the headers `headers`.
abbrev pub SentWith : Dict → Event → Type 0
SentWith headers (sent r) = r.headers ≡ headers
SentWith headers (slept n ms) = Unit

module _ (send : ℕ → Request → Result RequestError Response)
    (error_delay : RequestError → Option ℕ) where
  history-SentWith :
      (req : Request) (calls n : ℕ)
      → All (SentWith req.headers) (history send error_delay req calls n)
  unfolding history
  history-SentWith req calls zero = (refl, tt)
  history-SentWith req calls (suc n) = (refl, (tt, history-SentWith req (calls + 1) n))

-- A POST that may be retried carries an `Idempotency-Key`, in whatever case it is spelled.
with_idempotency_key-has :
    (headers : Dict) (max : ℕ) (key : String)
    → 0 < max
    → has_header (with_idempotency_key "POST" headers max key) "Idempotency-Key" ≡ true
unfolding with_idempotency_key
with_idempotency_key-has headers max key h =
    ground (arith, has_header-assign headers "Idempotency-Key" key)

with_idempotency_key-kept :
    (method : String) (headers : Dict) (max : ℕ) (key : String)
    → has_header headers "Idempotency-Key" ≡ true
    → with_idempotency_key method headers max key ≡ headers
unfolding with_idempotency_key
with_idempotency_key-kept method headers max key given = ground arith

-- All calls that a POST comes to, over any server, are made with the same headers, which hold an
-- idempotency key if retries are allowed at all; a key that the caller gave is kept as it is.
pub fetch_request_with_retry_key :
    (send : ℕ → Request → Result RequestError Response) (error_delay : RequestError → Option ℕ)
    (req : Request) (max_retries : Option ℕ) (limit : ℕ) (key : String) (r : Run)
    → req.method ≡ "POST"
    → 0 < get_or max_retries limit
    → fetch_request_with_retry send error_delay req max_retries limit key ≡ finished r
    → (headers : Dict) × All (SentWith headers) r.log
      × (has_header headers "Idempotency-Key" ≡ true)
      × ((headers ≡ req.headers) ⊎ (has_header req.headers "Idempotency-Key" ≡ false))
fetch_request_with_retry_key send error_delay req max_retries limit key r post pos e =
    let (n, le, run, failed, last) =
      fetch_request_with_retry_runs send error_delay req max_retries limit key in
    let final = keyed req (get_or max_retries limit) key in
    let logged : r.log ≡ history send error_delay final 0 n = ground (arith, e, run) in
    (
      final.headers,
      rw logged (history-SentWith send error_delay final 0 n),
      rw post (with_idempotency_key-has req.headers _ key pos),
      elim (Bool-cases (has_header req.headers "Idempotency-Key")) [
        | inl given ↦
            inl (
              with_idempotency_key-kept req.method req.headers (get_or max_retries limit) key given)
        | inr e ↦ inr e
      ],
    )
