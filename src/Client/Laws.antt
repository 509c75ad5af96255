-- ===== src/Client/Laws.antt =====
-- The six verbs of the client: what each comes to over any server, and without an API key.
use workos_node.Prelude.{
  ℕ, zero, suc, ◌+◌, ◌≤◌, ◌≡◌, ◌≢◌, refl, String, Bool, false, ◌||◌, Option, none, List, [], ◌∷◌,
  arith, Bool-cases, inl, inr, Result, ok, err,
}
use workos_node.Js.{Value, Dict}
use workos_node.Http.{Request, Response, RequestError, fetch_request}
use workos_node.Http.Retry.{Event, sent, slept, Run, finished, get_or}
use workos_node.Http.Retry.Loop.{history, fetch_request_with_retry_runs}
use workos_node.Http.Verbs.{Entity, Platform, with_entity, without_entity, run_request}
use workos_node.Http.Verbs
use workos_node.Client.Exceptions.{Seconds, api_key_required}
use workos_node.Client.{
  Workos, VerbOptions, Traced, thrown, out_of_fuel, retry_limit, settle, guarded, post, get, put,
  patch, delete, delete_with_body,
}

-- A call of one of the verbs.
pub data Call : Type 0 where
  posting : String → Entity → VerbOptions → Call
  getting : String → VerbOptions → Call
  putting : String → Entity → VerbOptions → Call
  patching : String → Entity → VerbOptions → Call
  deleting : String → Option (List (String × Value)) → Call
  deleting_with_body : String → Entity → Call

abbrev pub path_of : Call → String
path_of (posting path body o) = path
path_of (getting path o) = path
path_of (putting path body o) = path
path_of (patching path body o) = path
path_of (deleting path query) = path
path_of (deleting_with_body path body) = path

-- The caller's own limit of retries, and whether the call may do without an API key.
abbrev pub own_limit : Call → Option ℕ
own_limit (posting path body o) = o.max_retries
own_limit (getting path o) = o.max_retries
own_limit (putting path body o) = o.max_retries
own_limit (patching path body o) = o.max_retries
own_limit (deleting path query) = none
own_limit (deleting_with_body path body) = none

abbrev pub skips_check : Call → Bool
skips_check (posting path body o) = o.skip_api_key_check
skips_check (getting path o) = o.skip_api_key_check
skips_check (putting path body o) = o.skip_api_key_check
skips_check (patching path body o) = o.skip_api_key_check
skips_check (deleting path query) = false
skips_check (deleting_with_body path body) = false

-- The requests of a log.
abbrev pub count_sent : List Event → ℕ
count_sent [] = 0
count_sent (sent r ∷ log) = suc (count_sent log)
count_sent (slept n ms ∷ log) = count_sent log

count_sent-history :
    (send : ℕ → Request → Result RequestError Response) (error_delay : RequestError → Option ℕ)
    (req : Request) (calls n : ℕ)
    → count_sent (history send error_delay req calls n) ≡ suc n
unfolding history
count_sent-history send error_delay req calls zero = refl
count_sent-history send error_delay req calls (suc n) =
    omega (arith, count_sent-history send error_delay req (calls + 1) n)

module _ (p : Platform) (show : Value → String) (to_number : String → Seconds) (w : Workos) where
  abbrev pub perform : Call → Traced
  perform (posting path body o) = post p show to_number w path body o
  perform (getting path o) = get p show to_number w path o
  perform (putting path body o) = put p show to_number w path body o
  perform (patching path body o) = patch p show to_number w path body o
  perform (deleting path query) = delete p show to_number w path query
  perform (deleting_with_body path body) = delete_with_body p show to_number w path body

  -- It has an answer, after at most `limit` + 1 requests.
  abbrev pub EndsWithin : ℕ → Traced → Type 0
  EndsWithin limit t = (t.reply ≢ out_of_fuel) × (count_sent t.log ≤ suc limit)

  settle_ends :
      (path : String) (reads_body : Bool) (limit : ℕ) (r : Run)
      → count_sent r.log ≤ suc limit
      → EndsWithin limit (settle p show to_number path reads_body (finished r))
  unfolding settle
  settle_ends path reads_body limit r h = by_result r.result
    where
      by_result :
          (x : Result RequestError Response)
          → EndsWithin limit
              (settle p show to_number path reads_body (finished (record r { result = x })))
      by_result (err e) = ground arith
      by_result (ok res) = ground arith

  -- The run of any request by the client's retry loop, and what a verb makes of it.
  run_ends :
      (path url method : String) (reads_body : Bool) (body : Option String) (headers : Dict)
      (max_retries : Option ℕ)
      → EndsWithin (get_or max_retries (retry_limit w)) (
          settle p show to_number path reads_body
            (run_request p w.base_url w.http (retry_limit w) url method body headers max_retries))
  unfolding run_request
  run_ends path url method reads_body body headers max_retries =
      let (n, le, run, failed, last) =
        fetch_request_with_retry_runs (λ calls. fetch_request p.parse_json w.http (p.fetch calls))
          p.error_delay (record { url = url; method = method; headers = headers; body = body })
          max_retries (retry_limit w) p.fresh_key in
      rw run (settle_ends path reads_body _ _ (omega (arith, le, count_sent-history _ _ _ 0 n)))

  guarded_ends :
      (path : String) (skip : Bool) (limit : ℕ) (t : Traced)
      → EndsWithin limit t
      → EndsWithin limit (guarded p show to_number w path skip t)
  unfolding guarded
  guarded_ends path skip limit t h = elim (Bool-cases (skip || w.has_api_key)) [
    | inl e ↦ rw e h
    | inr e ↦ rw e (λ f. ground arith, omega arith)
  ]

  -- Over any server, every verb of the client comes to an answer or an exception, and has then made
  -- at most one request more than its limit of retries: the caller's, or the client's without one.
  pub perform_ends : (c : Call) → EndsWithin (get_or (own_limit c) (retry_limit w)) (perform c)
  unfolding post get put patch delete delete_with_body with_entity without_entity Verbs.post
      Verbs.get Verbs.put Verbs.patch Verbs.delete Verbs.delete_with_body
  perform_ends (posting path body o) = guarded_ends path _ _ _ (run_ends path _ _ _ _ _ _)
  perform_ends (getting path o) = guarded_ends path _ _ _ (run_ends path _ _ _ _ _ _)
  perform_ends (putting path body o) = guarded_ends path _ _ _ (run_ends path _ _ _ _ _ _)
  perform_ends (patching path body o) = guarded_ends path _ _ _ (run_ends path _ _ _ _ _ _)
  perform_ends (deleting path query) = guarded_ends path _ _ _ (run_ends path _ _ _ _ _ _)
  perform_ends (deleting_with_body path body) = guarded_ends path _ _ _ (run_ends path _ _ _ _ _ _)

  -- Without an API key no verb that needs one sends anything: it throws `ApiKeyRequiredException`
  -- for its path.
  pub perform_without_key :
      (c : Call)
      → w.has_api_key ≡ false
      → skips_check c ≡ false
      → perform c ≡ record { reply = thrown (api_key_required (path_of c)); log = [] }
  unfolding post get put patch delete delete_with_body guarded
  perform_without_key (posting path body o) h k = ground arith
  perform_without_key (getting path o) h k = ground arith
  perform_without_key (putting path body o) h k = ground arith
  perform_without_key (patching path body o) h k = ground arith
  perform_without_key (deleting path query) h k = ground arith
  perform_without_key (deleting_with_body path body) h k = ground arith
