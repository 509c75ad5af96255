-- ===== src/Http/Tests.antt =====
-- The retry loop against a server that is unavailable once, and the delays at concrete inputs.
use workos_node.Prelude.{
  ℕ, zero, suc, ◌≤◌, ◌≡◌, refl, ◌⊎◌, true, false, Option, none, some, List, [], ◌∷◌, All, Below,
  arith, Result, ok, err,
}
use workos_node.Js.{Dict, obj, end, same_ignoring_case, same_codes, codes, lower, assign}
use workos_node.Js.Text.{trim, trim_start, trim_end, is_space, decimal}
use workos_node.Http.{
  Request, Response, RequestError, HttpError, http_client_error, fetched, body_text, get_header,
}
use workos_node.Http.Delay.{
  Parsed, not_a_date, get_retry_after_ms, get_retry_after_ms-le, retry_after_value,
  parse_retry_after, parse_trimmed, maximum_retry_after,
}
use workos_node.Http.Retry.{
  is_transient, should_retry_request, has_header, with_idempotency_key, keyed, sent, slept, Run,
  finished, make_request, fetch_request_with_retry,
}
use workos_node.Http.Retry.Loop.{is_retryable, history, fetch_request_with_retry_runs}
use workos_node.Http.Retry.Idempotency.{SentWith, fetch_request_with_retry_key}

abbrev unavailable : HttpError
unavailable = record {
  message = "Service Unavailable";
  status = 503;
  headers = fetched (("Retry-After", "90") ∷ []);
  payload = obj end;
}

abbrev created : Response
created = record { status = 201; status_text = "Created"; headers = []; body = body_text "{}" }

-- The first call fails.
abbrev flaky : ℕ → Request → Result RequestError Response
flaky zero req = err (http_client_error unavailable)
flaky (suc n) req = ok created

abbrev order : Request
order = record {
  url = "https://api.workos.com/organizations";
  method = "POST";
  headers = [];
  body = some "{}";
}

abbrev no_date : List ℕ → Parsed
no_date s = not_a_date

abbrev asked : RequestError → Option ℕ
asked = get_retry_after_ms no_date 0

abbrev order_with_key : Request
order_with_key = record order { headers = ("Idempotency-Key", "k-1") ∷ [] }

abbrev finished_run : Run
finished_run = record {
  result = ok created;
  log = sent order_with_key ∷ slept 2 (some 60000) ∷ sent order_with_key ∷ [];
}

reading : Unit {0}
unfolding get_retry_after_ms retry_after_value parse_retry_after parse_trimmed get_header
    same_ignoring_case same_codes codes lower trim trim_start is_space trim_end decimal
reading = tt

one_retry : fetch_request_with_retry flaky asked order none 3 "k-1" ≡ finished finished_run
unfolding reading fetch_request_with_retry make_request should_retry_request is_transient
    with_idempotency_key has_header assign
one_retry = refl

fetch_request_with_retry_runs_example :
    (n : ℕ) × (n ≤ 3)
    × (fetch_request_with_retry flaky asked order none 3 "k-1"
        ≡ finished (record {
          result = flaky n (keyed order 3 "k-1");
          log = history flaky asked (keyed order 3 "k-1") 0 n;
        }))
    × Below (λ j. is_retryable (flaky j (keyed order 3 "k-1")) ≡ true) n
    × ((is_retryable (flaky n (keyed order 3 "k-1")) ≡ false) ⊎ (n ≡ 3))
fetch_request_with_retry_runs_example = fetch_request_with_retry_runs flaky asked order none 3 "k-1"

fetch_request_with_retry_key_example :
    (headers : Dict) × All (SentWith headers) finished_run.log
    × (has_header headers "Idempotency-Key" ≡ true)
    × ((headers ≡ []) ⊎ (has_header [] "Idempotency-Key" ≡ false))
fetch_request_with_retry_key_example =
    fetch_request_with_retry_key flaky asked order none 3 "k-1" finished_run refl (omega arith)
      one_retry

asked_minute : get_retry_after_ms no_date 0 (http_client_error unavailable) ≡ some 60000
unfolding reading
asked_minute = refl

get_retry_after_ms-le_example : 60000 ≤ maximum_retry_after
get_retry_after_ms-le_example =
    get_retry_after_ms-le no_date 0 (http_client_error unavailable) 60000 asked_minute
