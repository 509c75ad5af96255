-- ===== src/Session/Refresh/Failing.antt =====
-- What `refresh` makes of a server whose every answer is an error response.
use workos_node.Prelude.{
  ℕ, String, ◌≡◌, refl, true, false, not, ◌||◌, Option, none, some, List, [], str_eq, if◌then◌else◌,
  arith, ok, err,
}
use workos_node.Js.{Value, Dict, spread, truthy, prop}
use workos_node.Seal.{unseal_data}
use workos_node.Http.{
  Options, Request, Response, Fetched, RequestError, rejected, responded, caught as fetch_caught,
  is_ok, fetch_request, response_error,
}
use workos_node.Http.Retry.{Event, finished, keyed, get_or}
use workos_node.Http.Retry.Loop.{history, fetch_request_with_retry_runs}
use workos_node.Http.Verbs
use workos_node.Http.Verbs.{
  Platform, Entity, RequestOptions, with_entity, run_request, get_body, get_resource_url,
  content_type_header, json,
}
use workos_node.Client.{
  Workos, VerbOptions, thrown, post, guarded, settle, is_given, with_header, retry_limit,
}
use workos_node.Client.Exceptions.{Seconds}
use workos_node.Client.Errors.{handle_http_error}
use workos_node.Session.{World, CookieSession, exception}
use workos_node.Session.Refresh.{
  RefreshOptions, refresh, authenticate_with_refresh_token, request_tokens, resolve_client_id,
  answer, caught, refresh_body, chosen_organization,
}

-- A response that is not ok.
pub record IsRefused (answered : Fetched) (res : Response) : Type 0 where
  pub arrived : answered ≡ responded res
  pub not_ok : is_ok res.status ≡ false

pub fetch_request-IsRefused :
    (parse_json : String → Option Value) (http : Options) (fetch : Request → Fetched)
    (req : Request) (answer_to : Request → Response)
    → ((sent : Request) → IsRefused (fetch sent) (answer_to sent))
    → (sent : Request) × (fetch_request parse_json http fetch req
        ≡ err (response_error parse_json http.timeout_message (answer_to sent)))
unfolding fetch_request
fetch_request-IsRefused parse_json http fetch req answer_to refuses = (_, by_answer _ _ (refuses _))
  where
    by_answer :
        (answered : Fetched) (res : Response)
        → IsRefused answered res
        → elim answered [
          | rejected r ↦ err (fetch_caught http.timeout_message r)
          | responded found ↦
              if is_ok found.status
              then ok found
              else err (response_error parse_json http.timeout_message found)
        ]
          ≡ err (response_error parse_json http.timeout_message res)
    by_answer answered res h = rw (h.arrived, h.not_ok) refl

module _ (p : Platform) (Q : RequestError → Type 0) where
  -- Every attempt comes to an error of the kind.
  abbrev pub AlwaysFails : Type 0
  AlwaysFails =
      (http : Options) (calls : ℕ) (req : Request)
      → (e : RequestError) × Q e × (fetch_request p.parse_json http (p.fetch calls) req ≡ err e)

  run_request-fails :
      (base url method : String) (http : Options) (limit : ℕ) (body : Option String)
      (headers : Dict) (max_retries : Option ℕ)
      → AlwaysFails
      → (e : RequestError) × Q e
        × (log : List Event) × (run_request p base http limit url method body headers max_retries
            ≡ finished (record { result = err e; log = log }))
  unfolding run_request
  run_request-fails base url method http limit body headers max_retries fails =
      let send = λ (calls : ℕ). fetch_request p.parse_json http (p.fetch calls) in
      let req : Request = record { url = url; method = method; headers = headers; body = body } in
      let (n, _, run, _, _) =
        fetch_request_with_retry_runs send p.error_delay req max_retries limit p.fresh_key in
      let final = keyed req (get_or max_retries limit) p.fresh_key in
      let (e, kind, came) = fails http n final in
      (e, kind, history send p.error_delay final 0 n, rw came at run)

  module _ (show : Value → String) (to_number : String → Seconds) where
    post-fails :
        (w : Workos) (path : String) (body : Entity) (o : VerbOptions)
        → AlwaysFails
        → (o.skip_api_key_check || w.has_api_key) ≡ true
        → (e : RequestError) × Q e
          × ((post p show to_number w path body o).reply
              ≡ thrown (handle_http_error show to_number p.headers_property path e))
    unfolding post guarded settle Verbs.post with_entity
    post-fails w path body o fails may =
        let headers =
          with_header "Warrant-Token" o.warrant_token
            (with_header "Idempotency-Key" o.idempotency_key []) in
        let (e, kind, log, run) =
          run_request-fails w.base_url
            (get_resource_url p w.base_url w.http (retry_limit w) path o.query) "POST" w.http
            (retry_limit w) (get_body p w.base_url w.http (retry_limit w) body)
            (spread (content_type_header body) headers) o.max_retries fails in
        (e, kind, rw (may, run) refl)

-- A refresh that gets as far as its request ends in the `catch`, with what `handleHttpError` makes of
-- such an error.
pub refresh-fails :
    (world : World) (Q : RequestError → Type 0) (s : CookieSession) (o : RefreshOptions)
    (cookie claims : Value) (client_id : String)
    → AlwaysFails world.platform Q
    → world.workos.has_api_key ≡ is_given world.workos.key
    → world.client_id ≡ some client_id
    → str_eq client_id "" ≡ false
    → unseal_data world.iron s.session_data s.cookie_password ≡ ok cookie
    → truthy (prop cookie "refreshToken") ≡ true
    → truthy (prop cookie "user") ≡ true
    → world.decode_jwt (prop cookie "accessToken") ≡ some claims
    → (e : RequestError) × Q e
      × (refresh world s o
          ≡ caught world s (
              exception (
                handle_http_error world.show world.to_number world.platform.headers_property
                  "/user_management/authenticate" e)))
unfolding refresh authenticate_with_refresh_token request_tokens resolve_client_id answer
refresh-fails world Q s o cookie claims client_id fails key id named unsealed token user decoded =
    let body =
      refresh_body world.workos.key client_id (prop cookie "refreshToken")
        (chosen_organization world o claims) in
    let (e, kind, came) =
      post-fails world.platform Q world.show world.to_number world.workos
        "/user_management/authenticate" (json body)
        (record {
          query = none;
          idempotency_key = none;
          warrant_token = none;
          access_token = none;
          skip_api_key_check = not (is_given world.workos.key);
          max_retries = none;
        })
        fails may in
    (e, kind, rw (unsealed, token, user, decoded, id, named, came) refl)
  where
    may : (not (is_given world.workos.key) || world.workos.has_api_key) ≡ true
    may = ground (arith, key)
