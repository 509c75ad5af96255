-- ===== src/AuthorizationUrl/Sso.antt =====
-- getAuthorizationUrl and getAuthorizationUrlWithPKCE of src/sso/sso.ts.
use workos_node.Prelude.{
  ◌≡◌, refl, ◌⊎◌, true, not, ◌&&◌, Option, some, List, [], ◌∷◌, ◌++◌, if◌then◌else◌, All, ◌⨾◌,
  Result, ok, err, ◌>>=◌, arith,
}
use workos_node.Js.{codes, same_codes}
use workos_node.Query.{text, to_query_string, value_of}
use workos_node.Query as Query
use workos_node.Query.RoundTrip.{IsScalarText}
use workos_node.Query.Lookup.{IsValue, IsEntry, Keeps}
use workos_node.Pkce.{Source, generate, generate_code_verifier, default_length}
use workos_node.AuthorizationUrl.{
  UrlError, incomplete_arguments, Text, Authorization, of_text, of_list, of_object, has, with_query,
  generated,
}
use workos_node.AuthorizationUrl.Reads.{
  Shows, Carries, with_query_reads, IsSource, challenge_of, drawn_pair, drawn_state,
}

pub record Options : Type 0 where
  pub code_challenge : Option Text
  pub code_challenge_method : Option Text
  pub connection : Option Text
  pub client_id : Text
  pub domain_hint : Option Text
  pub login_hint : Option Text
  pub organization : Option Text
  pub provider : Option Text
  pub provider_query_params : Option (List (Text × Option Text))
  pub provider_scopes : Option (List Text)
  pub redirect_uri : Text
  pub state : Option Text

unfoldable pub check_sso : Options → Result UrlError (Unit {0})
check_sso o =
    if not (has o.provider) && not (has o.connection) && not (has o.organization)
    then err incomplete_arguments
    else ok tt

-- The object that `toQueryString` is given. The PKCE variant gives the same object, with the challenge,
-- the method and the state that it has made.
unfoldable pub sso_parameters : Options → Query.Options
unfolding codes
sso_parameters o =
    (codes "code_challenge", of_text o.code_challenge)
    ∷ (codes "code_challenge_method", of_text o.code_challenge_method)
    ∷ (codes "connection", of_text o.connection)
    ∷ (codes "organization", of_text o.organization)
    ∷ (codes "domain_hint", of_text o.domain_hint)
    ∷ (codes "login_hint", of_text o.login_hint)
    ∷ (codes "provider", of_text o.provider)
    ∷ (codes "provider_query_params", of_object o.provider_query_params)
    ∷ (codes "provider_scopes", of_list o.provider_scopes)
    ∷ (codes "client_id", text o.client_id)
    ∷ (codes "redirect_uri", text o.redirect_uri)
    ∷ (codes "response_type", text (codes "code"))
    ∷ (codes "state", of_text o.state)
    ∷ []

abbrev pub with_challenge : Text → Text → Options → Options
with_challenge challenge state o = record o {
  code_challenge = some challenge;
  code_challenge_method = some (codes "S256");
  state = some state;
}

module _ (sort : List Text → List Text) (base : Text) where
  unfoldable pub get_sso_url : Options → Result UrlError Text
  unfolding check_sso sso_parameters codes
  get_sso_url o = do
    checked ← check_sso o
    with_query base (codes "/sso/authorize") (to_query_string sort (sso_parameters o))

  unfoldable pub get_sso_url_with_pkce : Source → Source → Options → Result UrlError Authorization
  unfolding check_sso sso_parameters codes
  get_sso_url_with_pkce source second o = do
    checked ← check_sso o
    pkce ← generated (generate source)
    state ← generated (generate_code_verifier second default_length)
    url ←
        with_query base (codes "/sso/authorize")
          (to_query_string sort (sso_parameters (with_challenge pkce.code_challenge state o)))
    ok (record { url = url; state = state; code_verifier = pkce.code_verifier })

-- The texts of the options can be encoded.
pub record IsEncodable (o : Options) : Type 0 where
  pub code_challenge : IsValue (of_text o.code_challenge)
  pub code_challenge_method : IsValue (of_text o.code_challenge_method)
  pub connection : IsValue (of_text o.connection)
  pub client_id : IsScalarText o.client_id
  pub domain_hint : IsValue (of_text o.domain_hint)
  pub login_hint : IsValue (of_text o.login_hint)
  pub organization : IsValue (of_text o.organization)
  pub provider : IsValue (of_text o.provider)
  pub provider_query_params : IsValue (of_object o.provider_query_params)
  pub provider_scopes : IsValue (of_list o.provider_scopes)
  pub redirect_uri : IsScalarText o.redirect_uri
  pub state : IsValue (of_text o.state)

sso_parameters-All : (o : Options) → IsEncodable o → All IsEntry (sso_parameters o)
unfolding sso_parameters codes
sso_parameters-All o h =
    (omega arith, h.code_challenge)
    ⨾ (omega arith, h.code_challenge_method)
    ⨾ (omega arith, h.connection)
    ⨾ (omega arith, h.organization)
    ⨾ (omega arith, h.domain_hint)
    ⨾ (omega arith, h.login_hint)
    ⨾ (omega arith, h.provider)
    ⨾ (omega arith, h.provider_query_params)
    ⨾ (omega arith, h.provider_scopes)
    ⨾ (omega arith, h.client_id)
    ⨾ (omega arith, h.redirect_uri)
    ⨾ (omega arith, omega arith)
    ⨾ (omega arith, h.state)
    ⨾ tt

with_challenge-IsEncodable :
    (challenge state : Text) (o : Options)
    → IsScalarText challenge
    → IsScalarText state
    → IsEncodable o
    → IsEncodable (with_challenge challenge state o)
unfolding codes
with_challenge-IsEncodable challenge state o hc hs h = record {
  code_challenge = hc;
  code_challenge_method = omega arith;
  connection = h.connection;
  client_id = h.client_id;
  domain_hint = h.domain_hint;
  login_hint = h.login_hint;
  organization = h.organization;
  provider = h.provider;
  provider_query_params = h.provider_query_params;
  provider_scopes = h.provider_scopes;
  redirect_uri = h.redirect_uri;
  state = hs;
}

-- The options say with whom to sign in.
abbrev pub IsSelected : Options → Type 0
IsSelected o = (has o.provider ≡ true) ⊎ ((has o.connection ≡ true) ⊎ (has o.organization ≡ true))

check_sso-IsSelected : (o : Options) → IsSelected o → check_sso o ≡ ok tt
unfolding check_sso
check_sso-IsSelected o h = ground arith

sso_values :
    (challenge state : Text) (o : Options)
    → (value_of (sso_parameters (with_challenge challenge state o)) (codes "code_challenge")
        ≡ text challenge)
      × (value_of (sso_parameters (with_challenge challenge state o)) (codes "client_id")
          ≡ text (o.client_id))
      × (value_of (sso_parameters (with_challenge challenge state o)) (codes "redirect_uri")
          ≡ text (o.redirect_uri))
      × (value_of (sso_parameters (with_challenge challenge state o)) (codes "state") ≡ text state)
unfolding sso_parameters codes value_of same_codes
sso_values challenge state o = (refl, refl, refl, refl)

module _ (sort : List Text → List Text) (base : Text) (keeps : Keeps sort) where
  -- With options that name a provider, a connection or an organization, and no text that cannot be
  -- encoded, the URL is the base, the path and a query, and every text option is read back from the
  -- query under its name.
  pub get_sso_url_reads :
      (o : Options)
      → IsSelected o
      → IsEncodable o
      → (q : Text) × (get_sso_url sort base o ≡ ok (base ++ (codes "/sso/authorize" ++ (b'?' ∷ q))))
        × Shows (sso_parameters o) q
  unfolding get_sso_url
  get_sso_url_reads o selected h =
      let (q, printed, shows) =
        with_query_reads sort keeps base (codes "/sso/authorize") (sso_parameters o)
          (sso_parameters-All o h) in
      (q, rw (check_sso-IsSelected o selected) printed, shows)

  -- If the options name a provider, a connection or an organization, no text among them is one that cannot
  -- be encoded, the sort of the keys keeps them all, and the runtime is as documented, then the PKCE
  -- variant of SSO succeeds, and its URL carries the challenge that belongs to the verifier handed back,
  -- the client id, the redirect URI and the state handed back.
  pub get_sso_url_with_pkce_reads :
      (source second : Source)
      → IsSource source
      → IsSource second
      → (o : Options) → IsSelected o
      → IsEncodable o
      → (a : Authorization) × (q : Text) × (get_sso_url_with_pkce sort base source second o ≡ ok a)
        × (a.url ≡ base ++ (codes "/sso/authorize" ++ (b'?' ∷ q)))
        × Carries q (codes "code_challenge") (challenge_of source (a.code_verifier))
        × Carries q (codes "client_id") (o.client_id)
        × Carries q (codes "redirect_uri") (o.redirect_uri)
        × Carries q (codes "state") (a.state)
  unfolding get_sso_url_with_pkce
  get_sso_url_with_pkce_reads source second hs hz o selected h =
      let (p, drawn, challenge, size, chars) = drawn_pair source hs in
      let (state, kept, state_size, state_chars) = drawn_state second hz in
      let full = with_challenge (p.code_challenge) state o in
      let (q, printed, shows) =
        with_query_reads sort keeps base (codes "/sso/authorize") (sso_parameters full) (
          sso_parameters-All full
            (with_challenge-IsEncodable (p.code_challenge) state o chars state_chars h)) in
      let values = sso_values (p.code_challenge) state o in
      (
        record {
          url = base ++ (codes "/sso/authorize" ++ (b'?' ∷ q));
          state = state;
          code_verifier = p.code_verifier;
        },
        q,
        rw (check_sso-IsSelected o selected, drawn, kept, printed) refl,
        refl,
        rw (← challenge) (shows (codes "code_challenge") (p.code_challenge) (values.0)),
        shows (codes "client_id") (o.client_id) (values.1),
        shows (codes "redirect_uri") (o.redirect_uri) (values.2),
        shows (codes "state") state (values.3),
      )
