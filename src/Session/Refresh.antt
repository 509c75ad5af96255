-- ===== src/Session/Refresh.antt =====
-- `CookieSession.refresh`, `UserManagement.authenticateWithRefreshToken` and the sealing of the new
-- session (`prepareAuthenticationResponse`, `sealSessionDataFromAuthenticationResponse`).
pub mod Laws
pub mod Failing
pub mod Unparsed
pub mod Faults
pub mod Limits
use workos_node.Prelude.{
  ℕ, String, not, ◌||◌, Option, none, some, List, [], ◌∷◌, str_eq, if◌then◌else◌, Result, ok, err,
  ◌>>=◌,
}
use workos_node.Js.{
  Value, undefined, null, str, obj, end, field, truthy, nullish, is_undefined, coalesce, prop,
}
use workos_node.Seal.{SealError, seal_data, unseal_data}
use workos_node.Http.Verbs.{json}
use workos_node.Client.{Reply, returned, thrown, unparsed, out_of_fuel, post, is_given}
use workos_node.Session.{
  World, CookieSession, Thrown, exception, transport, wrong_type, plain_error, or_throw,
}
use workos_node.Session.Classify.{Failed, terminal, invalid_session_cookie, classify}

abbrev pub text_or_undefined : Option String → Value
text_or_undefined none = undefined
text_or_undefined (some s) = str s

-- `deserializeUser`: reading a field of undefined or null throws.
unfoldable pub deserialize_user : Value → Result Thrown Value
deserialize_user user =
    if nullish user
    then err wrong_type
    else ok (
        obj (
          field "object" (prop user "object") (
            field "id" (prop user "id") (
              field "email" (prop user "email") (
                field "emailVerified" (prop user "email_verified") (
                  field "name" (coalesce (prop user "name") null) (
                    field "firstName" (prop user "first_name") (
                      field "profilePictureUrl" (prop user "profile_picture_url") (
                        field "lastName" (prop user "last_name") (
                          field "lastSignInAt" (prop user "last_sign_in_at") (
                            field "locale" (prop user "locale") (
                              field "createdAt" (prop user "created_at") (
                                field "updatedAt" (prop user "updated_at") (
                                  field "externalId" (coalesce (prop user "external_id") null) (
                                    field "metadata" (coalesce (prop user "metadata") (obj end))
                                      end)))))))))))))))

-- The fields of `AuthenticationResponse` that the session uses.
pub record AuthenticationResponse : Type 0 where
  pub user : Value
  pub organization_id : Value
  pub access_token : Value
  pub refresh_token : Value
  pub authentication_method : Value
  pub impersonator : Value

-- The wire's name of a field, but `...rest` comes last: a field of the payload that is already
-- spelled as in the result wins.
abbrev pub renamed : Value → String → String → Value
renamed payload wire name =
    if is_undefined (prop payload name) then prop payload wire else prop payload name

unfoldable pub deserialize_authentication_response : Value → Result Thrown AuthenticationResponse
deserialize_authentication_response payload = if nullish payload then err wrong_type else do
  user ← deserialize_user (prop payload "user")
  ok (record {
    user = user;
    organization_id = renamed payload "organization_id" "organizationId";
    access_token = renamed payload "access_token" "accessToken";
    refresh_token = renamed payload "refresh_token" "refreshToken";
    authentication_method = renamed payload "authentication_method" "authenticationMethod";
    impersonator = prop payload "impersonator";
  })

-- The cookie that is sealed.
unfoldable pub session_cookie : Value → AuthenticationResponse → Value
session_cookie organization r = obj (
    field "organizationId" organization (
      field "user" r.user (
        field "accessToken" r.access_token (
          field "refreshToken" r.refresh_token (
            field "authenticationMethod" r.authentication_method
              (field "impersonator" r.impersonator end))))))

-- The serialized request: a public client sends no secret.
unfoldable pub refresh_body : Option String → String → Value → Value → Value
refresh_body key client_id refresh_token organization =
    let tail = field "refresh_token" refresh_token (
      field "organization_id" organization
        (field "ip_address" undefined (field "user_agent" undefined end))) in
    let rest = if is_given key then field "client_secret" (text_or_undefined key) tail else tail in
    obj (field "grant_type" (str "refresh_token") (field "client_id" (str client_id) rest))

-- The answer of a verb, with what it throws.
unfoldable pub answer : Reply → Result Thrown Value
answer (returned v) = ok v
answer (thrown e) = err (exception e)
answer (unparsed e) = err (transport e)
answer out_of_fuel = err (plain_error "")

pub record Refreshed : Type 0 where
  pub sealed_session : List ℕ
  pub response : AuthenticationResponse
  pub claims : Value
  -- These two are those of the session before.
  pub user : Value
  pub impersonator : Value

pub data Outcome : Type 0 where
  refreshed : Refreshed → Outcome
  failed : Failed → Outcome
  throws : Thrown → Outcome

pub record RefreshOptions : Type 0 where
  pub cookie_password : Option (List ℕ)
  pub organization_id : Option Value

abbrev pub new_password : CookieSession → RefreshOptions → List ℕ
new_password s o = elim o.cookie_password [ none ↦ s.cookie_password | some p ↦ p ]

-- The password is kept if the new one is empty.
abbrev pub kept_password : CookieSession → RefreshOptions → List ℕ
kept_password s o = elim o.cookie_password [
  | none ↦ s.cookie_password
  | some p ↦ elim p [ [] ↦ s.cookie_password | c ∷ q ↦ c ∷ q ]
]

module _ (world : World) where
  unfoldable pub resolve_client_id : Option String → Result Thrown String
  resolve_client_id none = elim world.client_id [
    | none ↦ err wrong_type
    | some c ↦ if str_eq c "" then err wrong_type else ok c
  ]
  resolve_client_id (some c) = if str_eq c "" then err wrong_type else ok c

  unfoldable pub seal_session : AuthenticationResponse → List ℕ → Result Thrown (List ℕ)
  seal_session r [] = err (plain_error "Cookie password is required")
  seal_session r (c ∷ s) = do
    claims ← or_throw (world.decode_jwt r.access_token) (plain_error "Invalid JWT")
    ok (seal_data world.iron (session_cookie (prop claims "org_id") r) (c ∷ s))

  -- Sealing needs an API key; `refresh` always asks for it.
  unfoldable pub prepare_sealed : AuthenticationResponse → List ℕ → Result Thrown (List ℕ)
  prepare_sealed r password =
      if is_given world.workos.key
      then seal_session r password
      else err (plain_error "Session sealing requires server-side usage with an API key.")

  -- The request of `authenticateWithRefreshToken`, to the deserialized response.
  unfoldable pub request_tokens : Value → Value → Result Thrown AuthenticationResponse
  request_tokens refresh_token organization = do
    client_id ← resolve_client_id world.client_id
    payload ←
        answer
          (post world.platform world.show world.to_number world.workos
            "/user_management/authenticate"
            (json (refresh_body world.workos.key client_id refresh_token organization))
            (record {
              query = none;
              idempotency_key = none;
              warrant_token = none;
              access_token = none;
              skip_api_key_check = not (is_given world.workos.key);
              max_retries = none;
            })).reply
    deserialize_authentication_response payload

  -- `authenticateWithRefreshToken` with `sealSession`: the response and the sealed session.
  unfoldable pub authenticate_with_refresh_token :
      Value → Value → List ℕ → Result Thrown (AuthenticationResponse × List ℕ)
  authenticate_with_refresh_token refresh_token organization password = do
    response ← request_tokens refresh_token organization
    sealed ← prepare_sealed response password
    ok (response, sealed)

  abbrev pub by_classified : CookieSession → Thrown → Option Failed → CookieSession × Outcome
  by_classified s e none = (s, throws e)
  by_classified s e (some f) = (s, failed f)

  -- The `catch`.
  unfoldable pub caught : CookieSession → Thrown → CookieSession × Outcome
  caught s e = by_classified s e (classify e)

  abbrev pub renew : CookieSession → RefreshOptions → List ℕ → CookieSession
  renew s o sealed = record { session_data = sealed; cookie_password = kept_password s o }

  -- Behind the change of the session object: the new token is decoded for the answer.
  abbrev pub answered :
      CookieSession
      → Value
      → AuthenticationResponse
      → List ℕ
      → Option Value
      → CookieSession × Outcome
  answered s cookie response sealed none = caught s (plain_error "Invalid JWT")
  answered s cookie response sealed (some claims) = (
    s,
    refreshed (record {
      sealed_session = sealed;
      response = response;
      claims = claims;
      user = prop cookie "user";
      impersonator = prop cookie "impersonator";
    }),
  )

  abbrev pub exchanged :
      CookieSession
      → RefreshOptions
      → Value
      → Result Thrown (AuthenticationResponse × List ℕ)
      → CookieSession × Outcome
  exchanged s o cookie (err e) = caught s e
  exchanged s o cookie (ok (response, sealed)) =
      answered (renew s o sealed) cookie response sealed (world.decode_jwt response.access_token)

  abbrev pub chosen_organization : RefreshOptions → Value → Value
  chosen_organization o claims = elim o.organization_id [ none ↦ prop claims "org_id" | some v ↦ v ]

  -- The `try`, once the old token is decoded.
  abbrev pub exchange :
      CookieSession → RefreshOptions → Value → Option Value → CookieSession × Outcome
  exchange s o cookie none = (s, throws (plain_error "Invalid JWT"))
  exchange s o cookie (some claims) = exchanged s o cookie (
      authenticate_with_refresh_token (prop cookie "refreshToken") (chosen_organization o claims)
        (new_password s o))

  abbrev pub opened :
      CookieSession → RefreshOptions → Result SealError Value → CookieSession × Outcome
  opened s o (err e) = (s, throws (plain_error "unseal"))
  opened s o (ok cookie) =
      if not (truthy (prop cookie "refreshToken")) || not (truthy (prop cookie "user"))
      then (s, failed (terminal invalid_session_cookie))
      else exchange s o cookie (world.decode_jwt (prop cookie "accessToken"))

  unfoldable pub refresh : CookieSession → RefreshOptions → CookieSession × Outcome
  refresh s o = opened s o (unseal_data world.iron s.session_data s.cookie_password)
