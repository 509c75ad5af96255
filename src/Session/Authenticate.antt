-- ===== src/Session/Authenticate.antt =====
-- `CookieSession.authenticate`, `isValidJwt` and `getLogoutUrl`.
use text.Mathlib.Text.{starts_with}
use workos_node.Prelude.{
  ℕ, String, Bool, true, false, not, ◌||◌, some, List, [], ◌∷◌, ◌≡◌, refl, if◌then◌else◌, arith,
  Result, ok, err, ◌>>=◌,
}
use workos_node.Js.{Value, truthy, prop}
use workos_node.Seal.{unseal_data}
use workos_node.Client.{is_given}
use workos_node.Session.{
  Thrown, World, CookieSession, Verified, valid, failed_with, failed, plain_error, wrong_type,
  or_throw,
}

-- `AuthenticateWithSessionCookieFailureReason`
pub data Reason : Type 0 where
  invalid_jwt invalid_session_cookie no_session_cookie_provided : Reason

-- The claims and the parts of the cookie that the answer is made of.
pub record Success : Type 0 where
  pub claims : Value
  pub cookie : Value

pub data Answer : Type 0 where
  authenticated : Success → Answer
  refused : Reason → Answer

-- The answer of a session that is authenticated, as the caller gets it.
pub record SuccessAnswer : Type 0 where
  pub session_id : Value
  pub organization_id : Value
  pub role : Value
  pub roles : Value
  pub permissions : Value
  pub entitlements : Value
  pub feature_flags : Value
  pub user : Value
  pub authentication_method : Value
  pub impersonator : Value
  pub access_token : Value

-- The claims that are taken apart, and the returned object.
unfoldable pub success_answer : Success → SuccessAnswer
success_answer a = record {
  session_id = prop a.claims "sid";
  organization_id = prop a.claims "org_id";
  role = prop a.claims "role";
  roles = prop a.claims "roles";
  permissions = prop a.claims "permissions";
  entitlements = prop a.claims "entitlements";
  feature_flags = prop a.claims "feature_flags";
  user = prop a.cookie "user";
  authentication_method = prop a.cookie "authenticationMethod";
  impersonator = prop a.cookie "impersonator";
  access_token = prop a.cookie "accessToken";
}

-- The codes of an error of `jose` that means that the token is not valid.
unfoldable pub is_jwt_code : String → Bool
is_jwt_code code = starts_with code "ERR_JWT_" || starts_with code "ERR_JWS_"

unfoldable pub judge : Verified → Result Thrown Bool
judge valid = ok true
judge (failed_with code) = if is_jwt_code code then ok false else err (plain_error code)
judge failed = err (plain_error "")

module _ (world : World) where
  -- Without a client id there is no key set to verify against.
  unfoldable pub is_valid_jwt : Value → Result Thrown Bool
  is_valid_jwt token =
      if is_given world.client_id
      then judge (world.jwt_verify token)
      else err (plain_error "Missing client ID. Did you provide it when initializing WorkOS?")

  unfoldable pub open_cookie : List ℕ → List ℕ → Result Thrown Value
  open_cookie session_data password = elim (unseal_data world.iron session_data password) [
    | ok v ↦ ok v
    | err e ↦ err (plain_error "unseal")
  ]

  unfoldable pub read_claims : Value → Result Thrown Answer
  read_claims cookie = do
    claims ← or_throw (world.decode_jwt (prop cookie "accessToken")) (plain_error "Invalid JWT")
    ok (authenticated (record { claims = claims; cookie = cookie }))

  unfoldable pub check_cookie : Value → Result Thrown Answer
  check_cookie cookie =
      if not (truthy (prop cookie "accessToken")) then ok (refused invalid_session_cookie) else do
        verified ← is_valid_jwt (prop cookie "accessToken")
        elim verified [ true ↦ read_claims cookie | false ↦ ok (refused invalid_jwt) ]

  unfoldable pub authenticate : CookieSession → Result Thrown Answer
  authenticate s = elim s.session_data [
    | [] ↦ ok (refused no_session_cookie_provided)
    | c ∷ rest ↦ open_cookie s.session_data s.cookie_password >>= check_cookie
  ]

  -- `getLogoutUrl`: `logout_url` is that of `UserManagement`, given the session id.
  unfoldable pub get_logout_url : (Value → String) → CookieSession → Result Thrown String
  get_logout_url logout_url s = do
    answer ← authenticate s
    elim answer [
      | refused reason ↦ err (plain_error "Failed to extract session ID for logout URL")
      | authenticated a ↦
          if truthy (prop a.claims "sid")
          then ok (logout_url (prop a.claims "sid"))
          else err wrong_type
    ]

  -- What an authenticated answer rests on.
  pub record Trusted (s : CookieSession) (a : Success) : Type 0 where
    pub opened : unseal_data world.iron s.session_data s.cookie_password ≡ ok a.cookie
    pub has_token : truthy (prop a.cookie "accessToken") ≡ true
    pub verified : world.jwt_verify (prop a.cookie "accessToken") ≡ valid
    pub decoded : world.decode_jwt (prop a.cookie "accessToken") ≡ some a.claims

  judge-true : (v : Verified) → judge v ≡ ok true → v ≡ valid
  unfolding judge
  judge-true valid e = refl
  judge-true (failed_with code) e = absurd (ground arith)
  judge-true failed e = absurd (ground arith)

  check_cookie_sound :
      (cookie : Value) (a : Success)
      → check_cookie cookie ≡ ok (authenticated a)
      → (cookie ≡ a.cookie)
        × (truthy (prop cookie "accessToken") ≡ true)
        × (world.jwt_verify (prop cookie "accessToken") ≡ valid)
        × (world.decode_jwt (prop cookie "accessToken") ≡ some a.claims)
  unfolding check_cookie is_valid_jwt read_claims
  check_cookie_sound cookie a e =
      ground (arith, judge-true (world.jwt_verify (prop cookie "accessToken")))

  open_cookie-ok :
      (data_text password : List ℕ) (v : Value)
      → open_cookie data_text password ≡ ok v
      → unseal_data world.iron data_text password ≡ ok v
  unfolding open_cookie
  open_cookie-ok data_text password v e = ground arith

  -- A session counts as authenticated only if its data opened under its password, to a cookie with an
  -- access token that `jose` verified; the claims are those of that very token.
  pub authenticate-Trusted :
      (s : CookieSession) (a : Success) → authenticate s ≡ ok (authenticated a) → Trusted s a
  unfolding authenticate
  authenticate-Trusted s a e =
      trusted (open_cookie s.session_data s.cookie_password) refl s.session_data e
    where
      trusted :
          (r : Result Thrown Value)
          → open_cookie s.session_data s.cookie_password ≡ r
          → (l : List ℕ)
          → (elim l [
            | [] ↦ ok (refused no_session_cookie_provided)
            | c ∷ rest ↦ r >>= check_cookie
          ])
            ≡ ok (authenticated a)
          → Trusted s a
      trusted (err t) same [] h = absurd (ground arith)
      trusted (err t) same (c ∷ l) h = absurd (ground arith)
      trusted (ok v) same [] h = absurd (ground arith)
      trusted (ok v) same (c ∷ l) h =
          let (here, token, verified, decoded) = check_cookie_sound v a h in
          record {
            opened = rw (← here) (open_cookie-ok s.session_data s.cookie_password v same);
            has_token = rw (← here) token;
            verified = rw (← here) verified;
            decoded = rw (← here) decoded;
          }
