-- ===== src/Grants.antt =====
-- The grants of src/user-management/user-management.ts: every authenticateWith… method with the
-- serializer of its request, prepareAuthenticationResponse, authenticateWithSessionCookie and
-- getSessionFromCookie; and the exchange of src/sso/sso.ts. A payload is the object that the caller
-- gives, less the client id and the session options, which stand apart.
pub mod Laws
pub mod Sealing
pub mod Cookie
mod Tests
use Prim.Native.String
use workos_node.Prelude.{
  ℕ, String, Bool, true, false, not, ◌&&◌, ◌||◌, Option, none, some, List, [], ◌∷◌, ◌++◌,
  if◌then◌else◌, Result, ok, err, ◌>>=◌,
}
use workos_node.Js.{Value, undefined, str, obj, Fields, field, end, prop, codes}
use workos_node.Js.Text.{trim}
use workos_node.Http.Verbs.{Platform, Entity, json, form}
use workos_node.Client.{post, is_given}
use workos_node.Session.{World, Thrown, wrong_type}
use workos_node.Session.Refresh.{
  AuthenticationResponse, text_or_undefined, answer, deserialize_authentication_response,
  resolve_client_id, prepare_sealed,
}

-- A field of the request: its name on the wire, and its name in the payload.
abbrev pub Names : Type 0
Names = List (String × String)

-- The fields that most of the grants end with.
abbrev agent : Names
agent = ("ip_address", "ipAddress") ∷ ("user_agent", "userAgent") ∷ []

abbrev pub magic_auth_names : Names
magic_auth_names =
    ("code", "code")
    ∷ ("email", "email")
    ∷ ("invitation_token", "invitationToken")
    ∷ ("link_authorization_code", "linkAuthorizationCode")
    ∷ (agent
        ++ (("radar_auth_attempt_id", "radarAuthAttemptId") ∷ ("signals_id", "signalsId") ∷ []))

abbrev pub password_names : Names
password_names =
    ("email", "email")
    ∷ ("password", "password")
    ∷ ("invitation_token", "invitationToken")
    ∷ (agent
        ++ (("radar_auth_attempt_id", "radarAuthAttemptId") ∷ ("signals_id", "signalsId") ∷ []))

-- Of a grant by code; the verifier is one of the fields.
abbrev pub code_names : Names
code_names =
    ("code", "code")
    ∷ ("code_verifier", "codeVerifier")
    ∷ ("invitation_token", "invitationToken")
    ∷ (agent ++ (("signals_id", "signalsId") ∷ []))

abbrev pub refresh_names : Names
refresh_names = ("refresh_token", "refreshToken") ∷ ("organization_id", "organizationId") ∷ agent

abbrev pub totp_names : Names
totp_names =
    ("code", "code")
    ∷ ("authentication_challenge_id", "authenticationChallengeId")
    ∷ ("pending_authentication_token", "pendingAuthenticationToken")
    ∷ agent

abbrev pub email_verification_names : Names
email_verification_names =
    ("pending_authentication_token", "pendingAuthenticationToken") ∷ ("code", "code") ∷ agent

abbrev pub organization_selection_names : Names
organization_selection_names =
    ("pending_authentication_token", "pendingAuthenticationToken")
    ∷ ("organization_id", "organizationId")
    ∷ agent

abbrev pub radar_sms_challenge_names : Names
radar_sms_challenge_names =
    ("code", "code")
    ∷ ("verification_id", "verificationId")
    ∷ ("phone_number", "phoneNumber")
    ∷ ("pending_authentication_token", "pendingAuthenticationToken")
    ∷ agent

abbrev pub radar_email_challenge_names : Names
radar_email_challenge_names =
    ("code", "code")
    ∷ ("radar_challenge_id", "radarChallengeId")
    ∷ ("pending_authentication_token", "pendingAuthenticationToken")
    ∷ agent

-- A serializer: each field of the wire from its field of the payload.
unfoldable pub serialize : Names → Value → Fields
serialize [] payload = end
serialize ((wire, name) ∷ names) payload = field wire (prop payload name) (serialize names payload)

-- `client_secret: options.clientSecret`, or a serializer without it.
abbrev pub with_secret : Option (Option String) → Fields → Fields
with_secret none fields = fields
with_secret (some key) fields = field "client_secret" (text_or_undefined key) fields

unfoldable pub grant_body : String → Option (Option String) → String → Names → Value → Value
unfolding serialize
grant_body grant_type secret client_id names payload = obj (
    field "grant_type" (str grant_type)
      (field "client_id" (str client_id) (with_secret secret (serialize names payload))))

-- `AuthenticateWithSessionOptions`
pub record SessionOptions : Type 0 where
  pub seal_session : Bool
  pub cookie_password : List ℕ

pub record Request : Type 0 where
  pub client_id : Option String
  pub session : Option SessionOptions
  pub payload : Value

-- The response, with `sealedSession` if it was asked for.
pub record Authenticated : Type 0 where
  pub response : AuthenticationResponse
  pub sealed_session : Option (List ℕ)

-- `codeVerifier !== undefined && codeVerifier.trim() === ''`
unfoldable pub is_blank : Option String → Bool
is_blank none = false
is_blank (some v) = elim (trim (codes v)) [ [] ↦ true | c ∷ s ↦ false ]

-- `{ ...remainingPayload, codeVerifier }`: what stands first is read.
abbrev pub with_verifier : Option String → Value → Value
with_verifier verifier (obj fields) = obj (field "codeVerifier" (text_or_undefined verifier) fields)
with_verifier verifier v = obj (field "codeVerifier" (text_or_undefined verifier) end)

module _ (world : World) where
  unfoldable pub prepare_authentication_response :
      AuthenticationResponse → Option SessionOptions → Result Thrown Authenticated
  prepare_authentication_response r none = ok (record { response = r; sealed_session = none })
  prepare_authentication_response r (some session) =
      if session.seal_session
      then prepare_sealed world r session.cookie_password
        >>= (λ sealed. ok (record { response = r; sealed_session = some sealed }))
      else ok (record { response = r; sealed_session = none })

  -- The POST that all grants make.
  unfoldable pub send_grant : Value → Bool → Result Thrown Value
  send_grant body skip =
      answer
        (post world.platform world.show world.to_number world.workos "/user_management/authenticate"
          (json body)
          (record {
            query = none;
            idempotency_key = none;
            warrant_token = none;
            access_token = none;
            skip_api_key_check = skip;
            max_retries = none;
          })).reply

  -- From the body to the result.
  unfoldable pub exchange_grant : Value → Bool → Option SessionOptions → Result Thrown Authenticated
  unfolding send_grant prepare_authentication_response
  exchange_grant body skip session = do
    granted ← send_grant body skip
    response ← deserialize_authentication_response granted
    prepare_authentication_response response session

  -- A grant that sends the secret.
  unfoldable pub confidential : String → Names → Request → Result Thrown Authenticated
  unfolding exchange_grant grant_body
  confidential grant_type names r = do
    client_id ← resolve_client_id world r.client_id
    exchange_grant (grant_body grant_type (some world.workos.key) client_id names r.payload) false
        r.session

  unfoldable pub authenticate_with_magic_auth : Request → Result Thrown Authenticated
  unfolding confidential
  authenticate_with_magic_auth =
      confidential "urn:workos:oauth:grant-type:magic-auth:code" magic_auth_names

  unfoldable pub authenticate_with_password : Request → Result Thrown Authenticated
  unfolding confidential
  authenticate_with_password = confidential "password" password_names

  unfoldable pub authenticate_with_totp : Request → Result Thrown Authenticated
  unfolding confidential
  authenticate_with_totp = confidential "urn:workos:oauth:grant-type:mfa-totp" totp_names

  unfoldable pub authenticate_with_email_verification : Request → Result Thrown Authenticated
  unfolding confidential
  authenticate_with_email_verification =
      confidential "urn:workos:oauth:grant-type:email-verification:code" email_verification_names

  unfoldable pub authenticate_with_organization_selection : Request → Result Thrown Authenticated
  unfolding confidential
  authenticate_with_organization_selection =
      confidential "urn:workos:oauth:grant-type:organization-selection" organization_selection_names

  unfoldable pub authenticate_with_radar_sms_challenge : Request → Result Thrown Authenticated
  unfolding confidential
  authenticate_with_radar_sms_challenge =
      confidential "urn:workos:oauth:grant-type:radar-sms-challenge:code" radar_sms_challenge_names

  unfoldable pub authenticate_with_radar_email_challenge : Request → Result Thrown Authenticated
  unfolding confidential
  authenticate_with_radar_email_challenge =
      confidential "urn:workos:oauth:grant-type:radar-email-challenge:code"
        radar_email_challenge_names

  -- The guards of the exchange of a code.
  unfoldable pub check_verifier : Option String → Result Thrown (Unit {0})
  unfolding is_blank
  check_verifier verifier =
      if is_blank verifier
      then err wrong_type
      else if not (is_given verifier) && not (is_given world.workos.key)
      then err wrong_type
      else ok tt

  -- The key, unless it is empty.
  abbrev pub given_key : Option String
  given_key = if is_given world.workos.key then world.workos.key else none

  unfoldable pub authenticate_with_code : Option String → Request → Result Thrown Authenticated
  unfolding check_verifier exchange_grant grant_body
  authenticate_with_code verifier r = do
    client_id ← resolve_client_id world r.client_id
    checked ← check_verifier verifier
    exchange_grant
        (grant_body "authorization_code" (some given_key) client_id code_names
          (with_verifier verifier r.payload))
        (not (is_given world.workos.key)) r.session

  unfoldable pub authenticate_with_code_and_verifier : Request → Result Thrown Authenticated
  unfolding exchange_grant grant_body
  authenticate_with_code_and_verifier r = do
    client_id ← resolve_client_id world r.client_id
    exchange_grant (grant_body "authorization_code" none client_id code_names r.payload) true
        r.session

  -- With any payload; `Session.Refresh.request_tokens` is its case of a cookie session.
  unfoldable pub refresh_grant : Request → Result Thrown Authenticated
  unfolding exchange_grant grant_body
  refresh_grant r = do
    client_id ← resolve_client_id world r.client_id
    exchange_grant
        (grant_body "refresh_token"
          (if is_given world.workos.key then some world.workos.key else none) client_id
          refresh_names r.payload)
        (not (is_given world.workos.key)) r.session

  -- The parameters of the form; `set` of a name that is not there puts it last.
  unfoldable pub token_form : String → String → Option String → List (String × Value)
  token_form client_id code verifier =
      let secret : List (String × Value) =
        if is_given world.workos.key
        then ("client_secret", text_or_undefined world.workos.key) ∷ []
        else [] in
      let rest : List (String × Value) =
        if is_given verifier
        then ("code_verifier", text_or_undefined verifier) ∷ secret
        else secret in
      ("client_id", str client_id)
      ∷ ("grant_type", str "authorization_code")
      ∷ ("code", str code)
      ∷ rest

  -- `getProfileAndToken` of `SSO`, to the data that it deserializes.
  unfoldable pub get_profile_and_token : String → String → Option String → Result Thrown Value
  unfolding check_verifier token_form
  get_profile_and_token code client_id verifier = do
    checked ← check_verifier verifier
    answer
        (post world.platform world.show world.to_number world.workos "/sso/token"
          (form (world.platform.search_params (token_form client_id code verifier)))
          (record {
            query = none;
            idempotency_key = none;
            warrant_token = none;
            access_token = none;
            skip_api_key_check = not (is_given world.workos.key);
            max_retries = none;
          })).reply
