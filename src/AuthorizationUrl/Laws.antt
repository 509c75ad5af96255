-- ===== src/AuthorizationUrl/Laws.antt =====
-- What the URLs of user management carry.
use workos_node.Prelude.{◌≡◌, refl, Option, List, ◌∷◌, ◌++◌, All, ◌⨾◌, ok, arith, length}
use workos_node.Js.{codes, same_codes}
use workos_node.Query.{text, value_of}
use workos_node.Query.RoundTrip.{IsScalarText}
use workos_node.Query.Lookup.{IsValue, IsEntry, Keeps}
use workos_node.AuthorizationUrl.Reads.{
  Carries, with_query_reads, IsSource, challenge_of, drawn_pair, drawn_state,
}
use workos_node.AuthorizationUrl.Shown.{Displays, shown-Displays}
use workos_node.AuthorizationUrl.Guards.{
  IsComplete, IsClientId, resolve_client_id-IsClientId, check_options-IsComplete,
}
use workos_node.Pkce.{Source}
use workos_node.AuthorizationUrl.{
  Text, Options, Authorization, of_text, of_list, of_object, url_parameters, pkce_parameters,
  get_authorization_url, get_authorization_url_with_pkce,
}

-- The texts of the options can be encoded.
pub record IsEncodable (o : Options) : Type 0 where
  pub claim_nonce : IsValue (of_text o.claim_nonce)
  pub connection_id : IsValue (of_text o.connection_id)
  pub code_challenge : IsValue (of_text o.code_challenge)
  pub code_challenge_method : IsValue (of_text o.code_challenge_method)
  pub organization_id : IsValue (of_text o.organization_id)
  pub domain_hint : IsValue (of_text o.domain_hint)
  pub invitation_token : IsValue (of_text o.invitation_token)
  pub login_hint : IsValue (of_text o.login_hint)
  pub max_age : IsValue (of_text o.max_age)
  pub provider : IsValue (of_text o.provider)
  pub provider_query_params : IsValue (of_object o.provider_query_params)
  pub provider_scopes : IsValue (of_list o.provider_scopes)
  pub prompt : IsValue (of_text o.prompt)
  pub redirect_uri : IsScalarText o.redirect_uri
  pub state : IsValue (of_text o.state)
  pub screen_hint : IsValue (of_text o.screen_hint)

url_parameters-All :
    (client : Text) (o : Options)
    → IsScalarText client
    → IsEncodable o
    → All IsEntry (url_parameters client o)
unfolding url_parameters codes
url_parameters-All client o hc h =
    (omega arith, h.claim_nonce)
    ⨾ (omega arith, h.connection_id)
    ⨾ (omega arith, h.code_challenge)
    ⨾ (omega arith, h.code_challenge_method)
    ⨾ (omega arith, h.organization_id)
    ⨾ (omega arith, h.domain_hint)
    ⨾ (omega arith, h.invitation_token)
    ⨾ (omega arith, h.login_hint)
    ⨾ (omega arith, h.max_age)
    ⨾ (omega arith, h.provider)
    ⨾ (omega arith, h.provider_query_params)
    ⨾ (omega arith, h.provider_scopes)
    ⨾ (omega arith, h.prompt)
    ⨾ (omega arith, hc)
    ⨾ (omega arith, h.redirect_uri)
    ⨾ (omega arith, omega arith)
    ⨾ (omega arith, h.state)
    ⨾ (omega arith, h.screen_hint)
    ⨾ tt

pkce_parameters-All :
    (client challenge state : Text) (o : Options)
    → IsScalarText client
    → IsScalarText challenge
    → IsScalarText state
    → IsEncodable o
    → All IsEntry (pkce_parameters client challenge state o)
unfolding pkce_parameters codes
pkce_parameters-All client challenge state o hc hp hs h =
    (omega arith, h.connection_id)
    ⨾ (omega arith, hp)
    ⨾ (omega arith, omega arith)
    ⨾ (omega arith, h.organization_id)
    ⨾ (omega arith, h.domain_hint)
    ⨾ (omega arith, h.login_hint)
    ⨾ (omega arith, h.max_age)
    ⨾ (omega arith, h.provider)
    ⨾ (omega arith, h.provider_query_params)
    ⨾ (omega arith, h.provider_scopes)
    ⨾ (omega arith, h.prompt)
    ⨾ (omega arith, hc)
    ⨾ (omega arith, h.redirect_uri)
    ⨾ (omega arith, omega arith)
    ⨾ (omega arith, hs)
    ⨾ (omega arith, h.screen_hint)
    ⨾ tt

pkce_values :
    (client challenge state : Text) (o : Options)
    → (value_of (pkce_parameters client challenge state o) (codes "code_challenge")
        ≡ text challenge)
      × (value_of (pkce_parameters client challenge state o) (codes "code_challenge_method")
          ≡ text (codes "S256"))
      × (value_of (pkce_parameters client challenge state o) (codes "client_id") ≡ text client)
      × (value_of (pkce_parameters client challenge state o) (codes "redirect_uri")
          ≡ text (o.redirect_uri))
      × (value_of (pkce_parameters client challenge state o) (codes "state") ≡ text state)
unfolding pkce_parameters codes value_of same_codes
pkce_values client challenge state o = (refl, refl, refl, refl, refl)

module _ (sort : List Text → List Text) (base : Text) (configured : Option Text) where
  module _ (keeps : Keeps sort) (client : Text) (scalar : IsScalarText client) where
    -- If a client id, not empty, is given by the options or else by the client object, the options name a
    -- provider, a connection or an organization and hint at a screen for AuthKit alone, no text among
    -- them is one that cannot be encoded, and the sort of the keys keeps them all, then
    -- `getAuthorizationUrl` returns the base, the path and a query, from which the client id, the redirect
    -- URI and the response type `code` are read back, and each text option that is given under the name
    -- that the API has for it.
    pub get_authorization_url_reads :
        (o : Options)
        → IsClientId o.client_id configured client
        → IsComplete o
        → IsEncodable o
        → (q : Text) × (get_authorization_url sort base configured o
            ≡ ok (base ++ (codes "/user_management/authorize" ++ (b'?' ∷ q))))
          × Displays client o q
    unfolding get_authorization_url
    get_authorization_url_reads o id complete h =
        let (q, printed, shows) =
          with_query_reads sort keeps base (codes "/user_management/authorize")
            (url_parameters client o) (url_parameters-All client o scalar h) in
        (
          q,
          rw
              (
                resolve_client_id-IsClientId o.client_id configured client id,
                (check_options-IsComplete o).1 complete,
              )
              printed,
          shown-Displays client o q shows,
        )

    -- If a client id, not empty, is given by the options or else by the client object, the options name a
    -- provider, a connection or an organization and hint at a screen for AuthKit alone, no text among
    -- them is one that cannot be encoded, the sort of the keys keeps them all, and the runtime is as
    -- documented, then `getAuthorizationUrlWithPKCE` succeeds: the URL's query carries the challenge that
    -- belongs to the verifier handed back, the method S256, the client id, the redirect URI and the state
    -- handed back; verifier and state have 43 characters.
    pub get_authorization_url_with_pkce_reads :
        (source second : Source)
        → IsSource source
        → IsSource second
        → (o : Options) → IsClientId o.client_id configured client
        → IsComplete o
        → IsEncodable o
        → (a : Authorization) × (q : Text) × (get_authorization_url_with_pkce sort base configured
              source second o
            ≡ ok a)
          × (a.url ≡ base ++ (codes "/user_management/authorize" ++ (b'?' ∷ q)))
          × Carries q (codes "code_challenge") (challenge_of source (a.code_verifier))
          × Carries q (codes "code_challenge_method") (codes "S256")
          × Carries q (codes "client_id") client
          × Carries q (codes "redirect_uri") (o.redirect_uri)
          × Carries q (codes "state") (a.state)
          × (length (a.code_verifier) ≡ 43)
          × (length (a.state) ≡ 43)
    unfolding get_authorization_url_with_pkce
    get_authorization_url_with_pkce_reads source second hs hz o id complete h =
        let (p, drawn, challenge, size, chars) = drawn_pair source hs in
        let (state, kept, state_size, state_chars) = drawn_state second hz in
        let (q, printed, shows) =
          with_query_reads sort keeps base (codes "/user_management/authorize")
            (pkce_parameters client (p.code_challenge) state o)
            (pkce_parameters-All client (p.code_challenge) state o scalar chars state_chars h) in
        let values = pkce_values client (p.code_challenge) state o in
        (
          record {
            url = base ++ (codes "/user_management/authorize" ++ (b'?' ∷ q));
            state = state;
            code_verifier = p.code_verifier;
          },
          q,
          rw
              (
                resolve_client_id-IsClientId o.client_id configured client id,
                (check_options-IsComplete o).1 complete,
                drawn,
                kept,
                printed,
              )
              refl,
          refl,
          rw (← challenge) (shows (codes "code_challenge") (p.code_challenge) (values.0)),
          shows (codes "code_challenge_method") (codes "S256") (values.1),
          shows (codes "client_id") client (values.2),
          shows (codes "redirect_uri") (o.redirect_uri) (values.3),
          shows (codes "state") state (values.4),
          size,
          state_size,
        )
