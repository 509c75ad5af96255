-- ===== src/AuthorizationUrl.antt =====
-- The authorization URLs: getAuthorizationUrl, getAuthorizationUrlWithPKCE and getJwksUrl of
-- src/user-management/user-management.ts; those of src/sso/sso.ts are in the child Sso. Texts are lists
-- of code points, and `max_age` is the text of the number.
pub mod Sso
pub mod Reads
pub mod Guards
pub mod Shown
pub mod Laws
mod Tests
use workos_node.Prelude.{
  ℕ, Bool, true, false, not, ◌&&◌, Option, none, some, List, [], ◌∷◌, ◌++◌, if◌then◌else◌, Result,
  ok, err, ◌>>=◌,
}
use workos_node.Js.{codes, same_codes}
use workos_node.Query.{QueryValue, undefined, text, texts, object, to_query_string}
use workos_node.Query as Query
use workos_node.Pkce.{PkceError, Source, generate, generate_code_verifier, default_length}

-- What is thrown: three times a `TypeError`, the `URIError` of a text that cannot be encoded, and the
-- error of the generator.
pub data UrlError : Type 0 where
  client_id_required : UrlError
  incomplete_arguments : UrlError
  screen_hint_unsupported : UrlError
  malformed : UrlError
  not_generated : PkceError → UrlError

abbrev pub Text : Type 0
Text = List ℕ

pub record Options : Type 0 where
  pub claim_nonce : Option Text
  pub client_id : Option Text
  pub code_challenge : Option Text
  pub code_challenge_method : Option Text
  pub connection_id : Option Text
  pub organization_id : Option Text
  pub domain_hint : Option Text
  pub invitation_token : Option Text
  pub login_hint : Option Text
  pub max_age : Option Text
  pub provider : Option Text
  pub provider_query_params : Option (List (Text × Option Text))
  pub provider_scopes : Option (List Text)
  pub prompt : Option Text
  pub redirect_uri : Text
  pub state : Option Text
  pub screen_hint : Option Text

-- What `getAuthorizationUrlWithPKCE` returns.
pub record Authorization : Type 0 where
  pub url : Text
  pub state : Text
  pub code_verifier : Text

abbrev pub of_text : Option Text → QueryValue
of_text none = undefined
of_text (some t) = text t

abbrev pub of_list : Option (List Text) → QueryValue
of_list none = undefined
of_list (some items) = texts items

abbrev pub of_object : Option (List (Text × Option Text)) → QueryValue
of_object none = undefined
of_object (some fields) = object fields

-- `!!text`
abbrev pub has : Option Text → Bool
has none = false
has (some []) = false
has (some (c ∷ s)) = true

unfoldable pub is_authkit : Option Text → Bool
unfolding codes same_codes
is_authkit none = false
is_authkit (some p) = same_codes p (codes "authkit")

-- `clientId ?? this.clientId`
unfoldable pub chosen_client_id : Option Text → Option Text → Option Text
chosen_client_id none configured = configured
chosen_client_id (some c) configured = some c

unfoldable pub resolve_client_id : Option Text → Option Text → Result UrlError Text
unfolding chosen_client_id
resolve_client_id given configured = elim (chosen_client_id given configured) [
  | none ↦ err client_id_required
  | some c ↦ if has (some c) then ok c else err client_id_required
]

-- The two guards.
unfoldable pub check_options : Options → Result UrlError (Unit {0})
unfolding is_authkit
check_options o =
    if not (has o.provider) && not (has o.connection_id) && not (has o.organization_id)
    then err incomplete_arguments
    else if not (is_authkit o.provider) && has o.screen_hint
    then err screen_hint_unsupported
    else ok tt

-- The object that `toQueryString` is given, in getAuthorizationUrl.
unfoldable pub url_parameters : Text → Options → Query.Options
unfolding codes
url_parameters client o =
    (codes "claim_nonce", of_text o.claim_nonce)
    ∷ (codes "connection_id", of_text o.connection_id)
    ∷ (codes "code_challenge", of_text o.code_challenge)
    ∷ (codes "code_challenge_method", of_text o.code_challenge_method)
    ∷ (codes "organization_id", of_text o.organization_id)
    ∷ (codes "domain_hint", of_text o.domain_hint)
    ∷ (codes "invitation_token", of_text o.invitation_token)
    ∷ (codes "login_hint", of_text o.login_hint)
    ∷ (codes "max_age", of_text o.max_age)
    ∷ (codes "provider", of_text o.provider)
    ∷ (codes "provider_query_params", of_object o.provider_query_params)
    ∷ (codes "provider_scopes", of_list o.provider_scopes)
    ∷ (codes "prompt", of_text o.prompt)
    ∷ (codes "client_id", text client)
    ∷ (codes "redirect_uri", text o.redirect_uri)
    ∷ (codes "response_type", text (codes "code"))
    ∷ (codes "state", of_text o.state)
    ∷ (codes "screen_hint", of_text o.screen_hint)
    ∷ []

-- The object of getAuthorizationUrlWithPKCE.
unfoldable pub pkce_parameters : Text → Text → Text → Options → Query.Options
unfolding codes
pkce_parameters client challenge state o =
    (codes "connection_id", of_text o.connection_id)
    ∷ (codes "code_challenge", text challenge)
    ∷ (codes "code_challenge_method", text (codes "S256"))
    ∷ (codes "organization_id", of_text o.organization_id)
    ∷ (codes "domain_hint", of_text o.domain_hint)
    ∷ (codes "login_hint", of_text o.login_hint)
    ∷ (codes "max_age", of_text o.max_age)
    ∷ (codes "provider", of_text o.provider)
    ∷ (codes "provider_query_params", of_object o.provider_query_params)
    ∷ (codes "provider_scopes", of_list o.provider_scopes)
    ∷ (codes "prompt", of_text o.prompt)
    ∷ (codes "client_id", text client)
    ∷ (codes "redirect_uri", text o.redirect_uri)
    ∷ (codes "response_type", text (codes "code"))
    ∷ (codes "state", text state)
    ∷ (codes "screen_hint", of_text o.screen_hint)
    ∷ []

-- `${this.workos.baseURL}${path}?${query}`
abbrev pub with_query : Text → Text → Option Text → Result UrlError Text
with_query base path none = err malformed
with_query base path (some q) = ok (base ++ (path ++ (b'?' ∷ q)))

-- What was generated, or its error.
abbrev pub generated {ℓ} : {A : Type ℓ} → Result PkceError A → Result UrlError A
generated (err e) = err (not_generated e)
generated (ok a) = ok a

-- `configured` is the client id of the `WorkOS` object.
module _ (sort : List Text → List Text) (base : Text) (configured : Option Text) where
  unfoldable pub get_authorization_url : Options → Result UrlError Text
  unfolding resolve_client_id check_options url_parameters codes
  get_authorization_url o = do
    client ← resolve_client_id o.client_id configured
    checked ← check_options o
    with_query base (codes "/user_management/authorize")
        (to_query_string sort (url_parameters client o))

  -- `source` gives the bytes of the verifier, `second` those of the state.
  unfoldable pub get_authorization_url_with_pkce :
      Source → Source → Options → Result UrlError Authorization
  unfolding resolve_client_id check_options pkce_parameters codes
  get_authorization_url_with_pkce source second o = do
    client ← resolve_client_id o.client_id configured
    checked ← check_options o
    pkce ← generated (generate source)
    state ← generated (generate_code_verifier second default_length)
    url ←
        with_query base (codes "/user_management/authorize")
          (to_query_string sort (pkce_parameters client pkce.code_challenge state o))
    ok (record { url = url; state = state; code_verifier = pkce.code_verifier })

unfoldable pub get_jwks_url : Text → Text → Result UrlError Text
unfolding codes
get_jwks_url base [] = err client_id_required
get_jwks_url base (c ∷ s) = ok (base ++ (codes "/sso/jwks/" ++ (c ∷ s)))
