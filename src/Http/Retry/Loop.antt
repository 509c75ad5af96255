-- ===== src/Http/Retry/Loop.antt =====
-- The retry loop ends, and what it has done by then.
use workos_node.Prelude.{
  ℕ, zero, suc, ◌+◌, ◌≤◌, ◌<◌, ◌≡◌, refl, ◌⊎◌, inl, inr, String, Bool, true, false, Option, List,
  [], ◌∷◌, Bool-cases, arith, ltb, ◌&&◌, Below, Below-of_all, Result, ok, err,
}
use native.Mathlib.Decide.{ℕ_discrete, dec_lt}
use workos_node.Http.{Request, Response, RequestError}
use workos_node.Http.Retry.{
  is_transient, should_retry_request, error_of, Event, sent, slept, finished, delay_of,
  make_request, fetch_request_with_retry, get_or, keyed,
}

-- A call that came to an error of the kind that is retried.
abbrev pub is_retryable {ℓ} : {A : Type ℓ} → Result RequestError A → Bool
is_retryable (ok a) = false
is_retryable (err e) = is_transient e

-- The decision is the error's kind, while retries are left.
should_retry_request_lem :
    (r : Result RequestError Response) (calls max : ℕ)
    → should_retry_request (error_of r) (calls + 1) max ≡ (is_retryable r && ltb calls max)
unfolding should_retry_request
should_retry_request_lem (ok a) calls max = refl
should_retry_request_lem (err e) calls max = ground arith

module _ (send : ℕ → Request → Result RequestError Response)
    (error_delay : RequestError → Option ℕ) where
  -- `n` retries from call `calls` on: each is a request, a wait, and so on to the last request.
  unfoldable pub history : Request → ℕ → ℕ → List Event
  history req calls zero = sent req ∷ []
  history req calls (suc n) =
      sent req
      ∷ slept (calls + 2) (delay_of send error_delay (error_of (send calls req)))
      ∷ history req (calls + 1) n

  -- After `calls` calls the loop makes `n` more retries. All calls but the last failed in a way
  -- that is retried; the last did not, or used the last retry.
  pub record Retries (req : Request) (calls max fuel : ℕ) : Type 0 where
    pub n : ℕ
    pub bounded : calls + n ≤ max
    pub run :
        make_request send error_delay fuel req calls max
        ≡ finished (record { result = send (calls + n) req; log = history req calls n })
    pub failed : (j : ℕ) → calls ≤ j → j < calls + n → is_retryable (send j req) ≡ true
    pub last : (is_retryable (send (calls + n) req) ≡ false) ⊎ (calls + n ≡ max)

  make_request_stops :
      (fuel : ℕ) (req : Request) (calls max : ℕ)
      → calls ≤ max
      → (is_retryable (send calls req) ≡ false) ⊎ (calls ≡ max)
      → Retries req calls max (suc fuel)
  unfolding make_request history
  make_request_stops fuel req calls max h done =
      let z : calls + 0 ≡ calls = omega arith in
      record {
        n = 0;
        bounded = omega arith;
        run = rw z (ground (arith, should_retry_request_lem (send calls req) calls max));
        failed = λ j lo hi. absurd (omega arith);
        last = rw z done;
      }

  make_request_again :
      (fuel : ℕ) (req : Request) (calls max : ℕ)
      → calls < max
      → is_retryable (send calls req) ≡ true
      → Retries req (calls + 1) max fuel
      → Retries req calls max (suc fuel)
  unfolding make_request history
  make_request_again fuel req calls max h t r =
      let step : calls + suc r.n ≡ calls + 1 + r.n = omega arith in
      record {
        n = suc r.n;
        bounded = omega (arith, r.bounded);
        run = rw step (ground (arith, should_retry_request_lem (send calls req) calls max, r.run));
        failed = λ j lo hi. elim (ℕ_discrete calls j) [
          | yes e ↦ rw (← e) t
          | no ne ↦ r.failed j (omega arith) (omega arith)
        ];
        last = rw step r.last;
      }

  pub make_request-Retries :
      (fuel : ℕ) (req : Request) (calls max : ℕ)
      → calls ≤ max
      → max < calls + fuel
      → Retries req calls max fuel
  make_request-Retries zero req calls max h hf = absurd (omega arith)
  make_request-Retries (suc fuel) req calls max h hf =
      elim (Bool-cases (is_retryable (send calls req))) [
        | inl t ↦ elim (dec_lt calls max) [
          | yes more ↦
              make_request_again fuel req calls max more t
                (make_request-Retries fuel req (calls + 1) max (omega arith) (omega arith))
          | no none_left ↦ make_request_stops fuel req calls max h (inr (omega arith))
        ]
        | inr f ↦ make_request_stops fuel req calls max h (inl f)
      ]

-- Over any server, the loop ends within `max` + 1 calls, `max` being the request's own limit or else
-- the client's. It makes `n` + 1 calls of one and the same request, waits between them, and returns
-- what the last call came to. Each earlier call failed in a way that is retried, and the last did
-- not, or was the last one allowed.
pub fetch_request_with_retry_runs :
    (send : ℕ → Request → Result RequestError Response) (error_delay : RequestError → Option ℕ)
    (req : Request) (max_retries : Option ℕ) (limit : ℕ) (key : String)
    → let max = get_or max_retries limit in
      let final = keyed req max key in
      (n : ℕ) × (n ≤ max)
      × (fetch_request_with_retry send error_delay req max_retries limit key
          ≡ finished (record { result = send n final; log = history send error_delay final 0 n }))
      × Below (λ j. is_retryable (send j final) ≡ true) n
      × ((is_retryable (send n final) ≡ false) ⊎ (n ≡ max))
unfolding fetch_request_with_retry
fetch_request_with_retry_runs send error_delay req max_retries limit key =
    let max = get_or max_retries limit in
    let final = keyed req max key in
    let r =
      make_request-Retries send error_delay (suc max) final 0 max (omega arith) (omega arith) in
    let z : 0 + r.n ≡ r.n = omega arith in
    (
      r.n,
      omega (arith, r.bounded),
      rw z at r.run,
      Below-of_all (λ j. is_retryable (send j final) ≡ true) r.n
          (λ j h. r.failed j (omega arith) (omega arith)),
      rw z at r.last,
    )
