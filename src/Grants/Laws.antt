-- ===== src/Grants/Laws.antt =====
-- Which secret a grant sends, what it refuses without a request, and what it seals.
use workos_node.Prelude.{
  String, ◌≡◌, refl, ◌⊎◌, inl, inr, Bool, true, false, not, Option, none, some, if◌then◌else◌,
  if_elim, bind-eq-ok, Result, ok, err, All,
}
use workos_node.Js.{Value, undefined, str, prop, read, codes}
use workos_node.Js.Text.{is_space, trim-spaces}
use workos_node.Client.{is_given}
use workos_node.Session.{World, Thrown, wrong_type}
use workos_node.Session.Refresh.{text_or_undefined, resolve_client_id}
use workos_node.Grants.{
  Names, given_key, magic_auth_names, password_names, totp_names, email_verification_names,
  organization_selection_names, radar_sms_challenge_names, radar_email_challenge_names, serialize,
  grant_body, Request, Authenticated, is_blank, with_verifier, exchange_grant, confidential,
  check_verifier, authenticate_with_code, authenticate_with_magic_auth, authenticate_with_password,
  authenticate_with_totp, authenticate_with_email_verification,
  authenticate_with_organization_selection, authenticate_with_radar_sms_challenge,
  authenticate_with_radar_email_challenge, authenticate_with_code_and_verifier, refresh_grant,
  code_names, refresh_names, get_profile_and_token,
}

-- A verifier of white space alone, the empty one among them.
abbrev pub IsSpaces : Option String → Type 0
IsSpaces none = ⊥
IsSpaces (some v) = All (λ c. is_space c ≡ true) (codes v)

-- No key, or the empty one.
abbrev pub IsKeyless : World → Type 0
IsKeyless world = (world.workos.key ≡ none) ⊎ (world.workos.key ≡ some "")

spaces-blank : (verifier : Option String) → IsSpaces verifier → is_blank verifier ≡ true
unfolding is_blank
spaces-blank none h = absurd h
spaces-blank (some v) h = rw (is_blank, trim-spaces (codes v) h) refl

keyless-given : (key : Option String) → (key ≡ none) ⊎ (key ≡ some "") → is_given key ≡ false
keyless-given key (inl e) = rw e refl
keyless-given key (inr e) = rw e refl

check_verifier-refuses :
    (world : World) (verifier : Option String)
    → IsSpaces verifier ⊎ ((verifier ≡ none) × IsKeyless world)
    → check_verifier world verifier ≡ err wrong_type
unfolding check_verifier
check_verifier-refuses world verifier (inl spaces) = rw (spaces-blank verifier spaces) refl
check_verifier-refuses world verifier (inr (missing, keyless)) =
    rw (missing, keyless-given world.workos.key keyless) (unfold is_blank in refl)

-- With a verifier of nothing but white space, and with no verifier where the client has no API key or
-- an empty one, the exchange of a code for a session, its client id resolved, and that of a code for a
-- profile end in a `TypeError`, whatever the server would answer.
pub authenticate_with_code_refuses :
    (world : World) (verifier : Option String) (r : Request) (client_id code : String)
    → resolve_client_id world r.client_id ≡ ok client_id
    → IsSpaces verifier ⊎ ((verifier ≡ none) × IsKeyless world)
    → (authenticate_with_code world verifier r ≡ err wrong_type)
      × (get_profile_and_token world code client_id verifier ≡ err wrong_type)
unfolding authenticate_with_code get_profile_and_token
authenticate_with_code_refuses world verifier r client_id code resolved unusable =
    let refused = check_verifier-refuses world verifier unusable in
    (rw (resolved, refused) refl, rw refused refl)

-- The methods that exchange a grant.
pub data Method : Type 0 where
  magic_auth password totp email_verification organization_selection : Method
  radar_sms_challenge radar_email_challenge : Method
  code code_and_verifier refresh_token : Method

-- The call of a method, with the verifier where it takes one.
unfoldable pub call : World → Option String → Method → Request → Result Thrown Authenticated
call world verifier magic_auth = authenticate_with_magic_auth world
call world verifier password = authenticate_with_password world
call world verifier totp = authenticate_with_totp world
call world verifier email_verification = authenticate_with_email_verification world
call world verifier organization_selection = authenticate_with_organization_selection world
call world verifier radar_sms_challenge = authenticate_with_radar_sms_challenge world
call world verifier radar_email_challenge = authenticate_with_radar_email_challenge world
call world verifier code = authenticate_with_code world verifier
call world verifier code_and_verifier = authenticate_with_code_and_verifier world
call world verifier refresh_token = refresh_grant world

-- The grant type that the API documents for a method.
unfoldable pub grant_type_of : Method → String
grant_type_of magic_auth = "urn:workos:oauth:grant-type:magic-auth:code"
grant_type_of password = "password"
grant_type_of totp = "urn:workos:oauth:grant-type:mfa-totp"
grant_type_of email_verification = "urn:workos:oauth:grant-type:email-verification:code"
grant_type_of organization_selection = "urn:workos:oauth:grant-type:organization-selection"
grant_type_of radar_sms_challenge = "urn:workos:oauth:grant-type:radar-sms-challenge:code"
grant_type_of radar_email_challenge = "urn:workos:oauth:grant-type:radar-email-challenge:code"
grant_type_of code = "authorization_code"
grant_type_of code_and_verifier = "authorization_code"
grant_type_of refresh_token = "refresh_token"

-- The key as text, or undefined: what a body may show as its secret.
abbrev IsOwnSecret : World → Method → Value → Type 0
IsOwnSecret world code_and_verifier v = v ≡ undefined
IsOwnSecret world method v = (v ≡ undefined) ⊎ (v ≡ text_or_undefined world.workos.key)

-- What a body that is sent shows of the client.
pub record Identified (world : World) (method : Method) (client_id : String) (body : Value)
    : Type 0 where
  pub grant : prop body "grant_type" ≡ str (grant_type_of method)
  pub client : prop body "client_id" ≡ str client_id
  pub secret : IsOwnSecret world method (prop body "client_secret")

module _ (world : World) (verifier : Option String) (r : Request) where
  -- A body that identifies the client, and the exchange of it that gave the result.
  abbrev pub IsExchange : Method → Authenticated → Type 0
  IsExchange method a =
      (client_id : String) × (body : Value) × (skip : Bool) × (resolve_client_id world r.client_id
        ≡ ok client_id)
      × Identified world method client_id body
      × (exchange_grant world body skip r.session ≡ ok a)

  confidential_sound :
      (method : Method) (names : Names) (a : Authenticated)
      → ((client_id : String)
          → Identified world method client_id
              (grant_body (grant_type_of method) (some world.workos.key) client_id names r.payload))
      → confidential world (grant_type_of method) names r ≡ ok a
      → IsExchange method a
  unfolding confidential
  confidential_sound method names a identified e =
      let (client_id, resolved, rest) = bind-eq-ok (resolve_client_id world r.client_id) _ e in
      (
        client_id,
        grant_body (grant_type_of method) (some world.workos.key) client_id names r.payload,
        false,
        resolved,
        identified client_id,
        rest,
      )

  code_secret :
      (payload : Value) (client_id : String)
      → Identified world code client_id
          (grant_body "authorization_code" (some (given_key world)) client_id code_names payload)
  unfolding grant_type_of grant_body serialize prop read
  code_secret payload client_id = record {
    grant = refl;
    client = refl;
    secret =
        if_elim
          (λ (k : Option String).
            (text_or_undefined k ≡ undefined)
            ⊎ (text_or_undefined k ≡ text_or_undefined world.workos.key))
          (is_given world.workos.key) world.workos.key none (λ e. inr refl) (λ e. inl refl);
  }

  refresh_secret :
      (payload : Value) (client_id : String)
      → Identified world refresh_token client_id (
          grant_body "refresh_token"
            (if is_given world.workos.key then some world.workos.key else none)
            client_id
            refresh_names
            payload)
  unfolding grant_type_of grant_body serialize prop read
  refresh_secret payload client_id = record {
    grant = refl;
    client = refl;
    secret =
        if_elim
          (λ (k : Option (Option String)).
            IsOwnSecret world refresh_token
              (prop (grant_body "refresh_token" k client_id refresh_names payload) "client_secret"))
          (is_given world.workos.key) (some world.workos.key) none (λ e. inr refl) (λ e. inl refl);
  }

  -- Every grant that succeeds has made the POST of a body that names its grant type and the resolved
  -- client id, and shows as a secret the client's own API key or nothing; nothing, where a code is
  -- exchanged with its verifier by a public client.
  pub call_identified :
      (method : Method) (a : Authenticated)
      → call world verifier method r ≡ ok a
      → IsExchange method a
  unfolding call authenticate_with_magic_auth authenticate_with_password authenticate_with_totp
      authenticate_with_email_verification authenticate_with_organization_selection
      authenticate_with_radar_sms_challenge authenticate_with_radar_email_challenge
      authenticate_with_code authenticate_with_code_and_verifier refresh_grant grant_type_of
      grant_body serialize prop read
  call_identified magic_auth a e =
      confidential_sound magic_auth magic_auth_names a
        (λ client_id. record { grant = refl; client = refl; secret = inr refl }) e
  call_identified password a e =
      confidential_sound password password_names a
        (λ client_id. record { grant = refl; client = refl; secret = inr refl }) e
  call_identified totp a e =
      confidential_sound totp totp_names a
        (λ client_id. record { grant = refl; client = refl; secret = inr refl }) e
  call_identified email_verification a e =
      confidential_sound email_verification email_verification_names a
        (λ client_id. record { grant = refl; client = refl; secret = inr refl }) e
  call_identified organization_selection a e =
      confidential_sound organization_selection organization_selection_names a
        (λ client_id. record { grant = refl; client = refl; secret = inr refl }) e
  call_identified radar_sms_challenge a e =
      confidential_sound radar_sms_challenge radar_sms_challenge_names a
        (λ client_id. record { grant = refl; client = refl; secret = inr refl }) e
  call_identified radar_email_challenge a e =
      confidential_sound radar_email_challenge radar_email_challenge_names a
        (λ client_id. record { grant = refl; client = refl; secret = inr refl }) e
  call_identified code a e =
      let (client_id, resolved, rest) = bind-eq-ok (resolve_client_id world r.client_id) _ e in
      let (_, checked, sent) = bind-eq-ok (check_verifier world verifier) _ rest in
      (
        client_id,
        grant_body "authorization_code" (some (given_key world)) client_id code_names
            (with_verifier verifier r.payload),
        not (is_given world.workos.key),
        resolved,
        code_secret (with_verifier verifier r.payload) client_id,
        sent,
      )
  call_identified code_and_verifier a e =
      let (client_id, resolved, rest) = bind-eq-ok (resolve_client_id world r.client_id) _ e in
      (
        client_id,
        grant_body "authorization_code" none client_id code_names r.payload,
        true,
        resolved,
        record { grant = refl; client = refl; secret = refl },
        rest,
      )
  call_identified refresh_token a e =
      let (client_id, resolved, rest) = bind-eq-ok (resolve_client_id world r.client_id) _ e in
      (
        client_id,
        grant_body "refresh_token"
            (if is_given world.workos.key then some world.workos.key else none) client_id
            refresh_names r.payload,
        not (is_given world.workos.key),
        resolved,
        refresh_secret r.payload client_id,
        rest,
      )
