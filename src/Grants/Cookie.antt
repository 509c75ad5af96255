-- ===== src/Grants/Cookie.antt =====
-- authenticateWithSessionCookie and getSessionFromCookie of src/user-management/user-management.ts, and
-- how they stand to the session object of session.ts.
use workos_node.Prelude.{
  ℕ, ◌≡◌, refl, ◌≢◌, Bool, true, false, not, Option, none, some, List, [], ◌∷◌, if◌then◌else◌,
  Result, ok, err, ◌>>=◌, arith,
}
use workos_node.Js.{Value, truthy, prop}
use workos_node.Seal.{SealError, unseal_data}
use workos_node.Client.{is_given}
use workos_node.Session.{World, Thrown, plain_error}
use workos_node.Session.Authenticate.{
  Reason, invalid_jwt, invalid_session_cookie, no_session_cookie_provided, Answer, authenticated,
  refused, judge, is_valid_jwt, open_cookie, read_claims, SuccessAnswer, success_answer,
  check_cookie, authenticate,
}

-- The fields of an authenticated answer.
pub record SessionAnswer : Type 0 where
  pub session_id : Value
  pub organization_id : Value
  pub role : Value
  pub roles : Value
  pub user : Value
  pub permissions : Value
  pub entitlements : Value
  pub feature_flags : Value
  pub access_token : Value
  pub authentication_method : Value

pub data CookieAnswer : Type 0 where
  accepted : SessionAnswer → CookieAnswer
  rejected : Reason → CookieAnswer

-- The answer, from the claims of the token and from the cookie.
abbrev pub session_answer : Value → Value → SessionAnswer
session_answer claims cookie = record {
  session_id = prop claims "sid";
  organization_id = prop claims "org_id";
  role = prop claims "role";
  roles = prop claims "roles";
  user = prop cookie "user";
  permissions = prop claims "permissions";
  entitlements = prop claims "entitlements";
  feature_flags = prop claims "feature_flags";
  access_token = prop cookie "accessToken";
  authentication_method = prop cookie "authenticationMethod";
}

module _ (world : World) where
  -- `isValidJwt` of user management.
  unfoldable pub is_valid_token : Value → Result Thrown Bool
  is_valid_token token =
      if is_given world.client_id
      then judge (world.jwt_verify token)
      else err (plain_error "Must provide clientId to initialize JWKS")

  -- Behind `unsealData`.
  unfoldable pub check_session : Value → Result Thrown CookieAnswer
  unfolding is_valid_token
  check_session session =
      if not (truthy (prop session "accessToken")) then ok (rejected invalid_session_cookie) else do
        valid_token ← is_valid_token (prop session "accessToken")
        elim valid_token [
          | false ↦ ok (rejected invalid_jwt)
          | true ↦ elim (world.decode_jwt (prop session "accessToken")) [
            | none ↦ err (plain_error "Invalid JWT")
            | some claims ↦ ok (accepted (session_answer claims session))
          ]
        ]

  unfoldable pub unsealed : List ℕ → List ℕ → Result Thrown Value
  unsealed session_data password = elim (unseal_data world.iron session_data password) [
    | ok v ↦ ok v
    | err e ↦ err (plain_error "unseal")
  ]

  -- The empty text stands for session data that is not given, and for such a password.
  unfoldable pub authenticate_with_session_cookie : List ℕ → List ℕ → Result Thrown CookieAnswer
  unfolding unsealed check_session
  authenticate_with_session_cookie session_data [] = err (plain_error "Cookie password is required")
  authenticate_with_session_cookie session_data (c ∷ s) =
      if not (is_given world.client_id)
      then err (plain_error "Must provide clientId to initialize JWKS")
      else elim session_data [
        | [] ↦ ok (rejected no_session_cookie_provided)
        | d ∷ rest ↦ unsealed (d ∷ rest) (c ∷ s) >>= check_session
      ]

  -- `none`: undefined.
  unfoldable pub get_session_from_cookie : List ℕ → List ℕ → Result Thrown (Option Value)
  unfolding unsealed
  get_session_from_cookie session_data [] = err (plain_error "Cookie password is required")
  get_session_from_cookie [] (c ∷ s) = ok none
  get_session_from_cookie (d ∷ rest) (c ∷ s) = do
    cookie ← unsealed (d ∷ rest) (c ∷ s)
    ok (some cookie)

  -- The fields of the session object's answer but its impersonator, which the endpoint's has not.
  abbrev pub without_impersonator : SuccessAnswer → SessionAnswer
  without_impersonator a = record {
    session_id = a.session_id;
    organization_id = a.organization_id;
    role = a.role;
    roles = a.roles;
    user = a.user;
    permissions = a.permissions;
    entitlements = a.entitlements;
    feature_flags = a.feature_flags;
    access_token = a.access_token;
    authentication_method = a.authentication_method;
  }

  -- What the session object answers, its impersonator left out.
  abbrev pub in_common : Result Thrown Answer → Result Thrown CookieAnswer
  in_common (err e) = err e
  in_common (ok (authenticated a)) = ok (accepted (without_impersonator (success_answer a)))
  in_common (ok (refused reason)) = ok (rejected reason)

  check_session-check_cookie :
      (cookie : Value)
      → is_given world.client_id ≡ true
      → check_session cookie ≡ in_common (check_cookie world cookie)
  unfolding check_session check_cookie is_valid_token is_valid_jwt read_claims success_answer
  check_session-check_cookie cookie h = ground arith

  -- With a client id, the endpoint answers for a sealed cookie, under a password that is not empty, as
  -- the session object made of the two does: with the same refusal, the same error, or an answer whose
  -- fields are the same but for the impersonator, which the endpoint leaves out.
  pub authenticate_with_session_cookie-authenticate :
      (session_data password : List ℕ)
      → is_given world.client_id ≡ true
      → password ≢ []
      → authenticate_with_session_cookie session_data password
        ≡ in_common (
            authenticate world (record { session_data = session_data; cookie_password = password }))
  unfolding authenticate_with_session_cookie authenticate unsealed open_cookie
  authenticate_with_session_cookie-authenticate session_data [] h k = absurd (k refl)
  authenticate_with_session_cookie-authenticate [] (c ∷ s) h k = rw h refl
  authenticate_with_session_cookie-authenticate (d ∷ rest) (c ∷ s) h k =
      rw h (by_unsealed (unseal_data world.iron (d ∷ rest) (c ∷ s)))
    where
      by_unsealed :
          (r : Result SealError Value)
          → (elim r [ ok v ↦ ok v | err e ↦ err (plain_error "unseal") ] >>= check_session)
            ≡ in_common
                (elim r [ ok v ↦ ok v | err e ↦ err (plain_error "unseal") ] >>= check_cookie world)
      by_unsealed (ok v) = check_session-check_cookie v h
      by_unsealed (err e) = refl
