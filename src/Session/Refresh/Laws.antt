-- ===== src/Session/Refresh/Laws.antt =====
-- What `refresh` leaves behind.
use workos_node.Prelude.{
  ℕ, true, not, ◌||◌, Option, none, some, List, [], ◌∷◌, ◌≡◌, refl, sym, ◌≢◌, inl, inr, arith,
  Bool-cases, Result, ok, err, bind-eq-ok,
}
use mathlib.Core.Path.{subst₃}
use workos_node.Js.{Value, truthy, prop, coalesce}
use workos_node.Seal.{SealError, seal_data, unseal_data, empty_object}
use workos_node.Seal.Laws.{IsIron, unseal_data-seal_data}
use workos_node.Session.{World, CookieSession, Thrown, plain_error, or_throw}
use workos_node.Session.Classify.{
  Failed, retryable, terminal, network_error, invalid_session_cookie, classify, classify_terminal,
  classify_retryable, by_status, get_error_status, is_network_error, by_network,
}
use workos_node.Session.Refresh.{
  AuthenticationResponse, session_cookie, resolve_client_id, seal_session, request_tokens,
  prepare_sealed, authenticate_with_refresh_token, Refreshed, Outcome, refreshed, failed, throws,
  RefreshOptions, new_password, kept_password, by_classified, caught, exchanged, exchange, opened,
  refresh,
}

module _ (world : World) where
  -- What was sealed: the cookie of the response, under a password that is not empty, and the token
  -- of the response can be decoded.
  pub record Sealed (r : AuthenticationResponse) (password sealed : List ℕ) : Type 0 where
    pub claims : Value
    pub decoded : world.decode_jwt r.access_token ≡ some claims
    pub not_empty : password ≢ []
    pub made : sealed ≡ seal_data world.iron (session_cookie (prop claims "org_id") r) password

  seal_session_sound :
      (r : AuthenticationResponse) (password sealed : List ℕ)
      → seal_session world r password ≡ ok sealed
      → Sealed r password sealed
  unfolding seal_session
  seal_session_sound r [] sealed e = absurd (ground arith)
  seal_session_sound r (c ∷ s) sealed e =
      let (claims, got, made) =
        bind-eq-ok (or_throw (world.decode_jwt r.access_token) (plain_error "Invalid JWT")) _ e in
      record {
        claims = claims;
        decoded = or_throw-ok (world.decode_jwt r.access_token) got;
        not_empty = λ h. ground arith;
        made = ground arith;
      }
    where
      or_throw-ok :
          (o : Option Value) {v : Value}
          → or_throw o (plain_error "Invalid JWT") ≡ ok v
          → o ≡ some v
      or_throw-ok none h = absurd (ground arith)
      or_throw-ok (some v) h = ground arith

  pub prepare_sealed_sound :
      (r : AuthenticationResponse) (password sealed : List ℕ)
      → prepare_sealed world r password ≡ ok sealed
      → Sealed r password sealed
  unfolding prepare_sealed
  prepare_sealed_sound r password sealed e = seal_session_sound r password sealed (ground arith)

  authenticate_with_refresh_token_sound :
      (token organization : Value) (password sealed : List ℕ) (r : AuthenticationResponse)
      → authenticate_with_refresh_token world token organization password ≡ ok (r, sealed)
      → Sealed r password sealed
  unfolding authenticate_with_refresh_token
  authenticate_with_refresh_token_sound token organization password sealed r e =
      let (response, _, k) = bind-eq-ok (request_tokens world token organization) _ e in
      let (cookie, made, pair) = bind-eq-ok (prepare_sealed world response password) _ k in
      let both : (response ≡ r) × (cookie ≡ sealed) = ground arith in
      prepare_sealed_sound r password sealed (rw both.1 at (rw both.0 at made))

  -- What a step of `refresh` from the session `s` may come to.
  pub record Settled (s : CookieSession) (end : CookieSession × Outcome) : Type 0 where
    pub unchanged : ((r : Refreshed) → end.1 ≢ refreshed r) → end.0 ≡ s
    pub renewed :
        (r : Refreshed)
        → end.1 ≡ refreshed r
        → (end.0.session_data ≡ r.sealed_session)
          × Sealed r.response end.0.cookie_password r.sealed_session

  failure-Settled : (s : CookieSession) (f : Failed) → Settled s (s, failed f)
  failure-Settled s f = record { unchanged = λ h. refl; renewed = λ r e. absurd (ground arith) }

  throws-Settled : (s : CookieSession) (t : Thrown) → Settled s (s, throws t)
  throws-Settled s t = record { unchanged = λ h. refl; renewed = λ r e. absurd (ground arith) }

  caught-Settled : (s : CookieSession) (t : Thrown) → Settled s (caught world s t)
  unfolding caught
  caught-Settled s t = by_reason (classify t)
    where
      by_reason : (c : Option Failed) → Settled s (by_classified world s t c)
      by_reason none = throws-Settled s t
      by_reason (some f) = failure-Settled s f

  kept-eq-new :
      (s : CookieSession) (o : RefreshOptions)
      → new_password s o ≢ []
      → kept_password s o ≡ new_password s o
  kept-eq-new s o h = by_option o.cookie_password h
    where
      by_option :
          (p : Option (List ℕ))
          → (elim p [ none ↦ s.cookie_password | some q ↦ q ]) ≢ []
          → (elim p [
            | none ↦ s.cookie_password
            | some q ↦ elim q [ [] ↦ s.cookie_password | c ∷ r ↦ c ∷ r ]
          ])
            ≡ (elim p [ none ↦ s.cookie_password | some q ↦ q ])
      by_option none k = refl
      by_option (some []) k = absurd (k refl)
      by_option (some (c ∷ q)) k = refl

  exchanged-Settled :
      (s : CookieSession) (o : RefreshOptions) (cookie : Value)
      (r : Result Thrown (AuthenticationResponse × List ℕ))
      → ((response : AuthenticationResponse) (sealed : List ℕ)
          → r ≡ ok (response, sealed)
          → Sealed response (new_password s o) sealed)
      → Settled s (exchanged world s o cookie r)
  exchanged-Settled s o cookie (err e) h = caught-Settled s e
  exchanged-Settled s o cookie (ok (response, sealed)) h =
      let made = h response sealed refl in
      let kept = kept-eq-new s o made.not_empty in
      rw made.decoded (record {
        unchanged = λ none_such. absurd (none_such _ refl);
        renewed = λ r e.
            let same : (sealed ≡ r.sealed_session) × (response ≡ r.response) = ground arith in
            (same.0, subst₃ Sealed same.1 (sym kept) same.0 made);
      })

  refresh-Settled : (s : CookieSession) (o : RefreshOptions) → Settled s (refresh world s o)
  unfolding refresh
  refresh-Settled s o = by_opened (unseal_data world.iron s.session_data s.cookie_password)
    where
      by_token : (cookie : Value) (c : Option Value) → Settled s (exchange world s o cookie c)
      by_token cookie none = throws-Settled s (plain_error "Invalid JWT")
      by_token cookie (some claims) =
          exchanged-Settled s o cookie _
            λ response sealed e. authenticate_with_refresh_token_sound _ _ _ sealed response e

      by_opened : (r : Result SealError Value) → Settled s (opened world s o r)
      by_opened (err e) = throws-Settled s (plain_error "unseal")
      by_opened (ok cookie) =
          elim (Bool-cases
            (not (truthy (prop cookie "refreshToken")) || not (truthy (prop cookie "user")))) [
              | inl e ↦ rw e (failure-Settled s (terminal invalid_session_cookie))
              | inr e ↦ rw e (by_token cookie (world.decode_jwt (prop cookie "accessToken")))
            ]

-- A refresh that does not succeed leaves the session object as it was.
pub refresh_unchanged :
    (world : World) (s : CookieSession) (o : RefreshOptions)
    → ((r : Refreshed) → (refresh world s o).1 ≢ refreshed r)
    → (refresh world s o).0 ≡ s
refresh_unchanged world s o = (refresh-Settled world s o).unchanged

-- A refresh that succeeds leaves a session object whose data is the seal that it returns, and that
-- opens under the object's own password to the cookie of the new tokens.
pub refresh_opens :
    (world : World) (through_json : Value → Value) (s : CookieSession) (o : RefreshOptions)
    (r : Refreshed)
    → IsIron world.iron through_json
    → (refresh world s o).1 ≡ refreshed r
    → let s' = (refresh world s o).0 in
      (s'.session_data ≡ r.sealed_session)
      × ((claims : Value) × (world.decode_jwt r.response.access_token ≡ some claims)
          × (unseal_data world.iron s'.session_data s'.cookie_password
              ≡ ok (
                  coalesce
                    (through_json (session_cookie (prop claims "org_id") r.response))
                    empty_object)))
refresh_opens world through_json s o r law e =
    let (same, made) = (refresh-Settled world s o).renewed r e in
    let password = (refresh world s o).0.cookie_password in
    (
      same,
      (
        made.claims,
        made.decoded,
        rw (same, made.made) (unseal_data-seal_data world.iron through_json law _ password),
      ),
    )

-- Without a client id a refresh of a valid session is reported as a network error to be retried:
-- the `TypeError` that asks for the client id is taken for one of the transport.
pub refresh_without_client_id :
    (world : World) (s : CookieSession) (o : RefreshOptions) (cookie claims : Value)
    → world.client_id ≡ none
    → unseal_data world.iron s.session_data s.cookie_password ≡ ok cookie
    → truthy (prop cookie "refreshToken") ≡ true
    → truthy (prop cookie "user") ≡ true
    → world.decode_jwt (prop cookie "accessToken") ≡ some claims
    → refresh world s o ≡ (s, failed (retryable network_error none))
unfolding refresh authenticate_with_refresh_token request_tokens resolve_client_id caught classify
    classify_terminal classify_retryable by_status get_error_status is_network_error by_network
refresh_without_client_id world s o cookie claims id unsealed token user decoded = ground arith
