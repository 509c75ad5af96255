-- ===== src/AuthorizationUrl/Shown.antt =====
-- The query parameters of getAuthorizationUrl, as the API documents them: each text option under its own
-- name.
use workos_node.Prelude.{◌≡◌, refl, Option, none, some}
use workos_node.Js.{codes, same_codes}
use workos_node.Query.{value_of}
use workos_node.AuthorizationUrl.{Text, Options, of_text, url_parameters}
use workos_node.AuthorizationUrl.Reads.{Shows, Carries}

-- A text that is given is carried under the name.
abbrev pub CarriesGiven : Text → Text → Option Text → Type 0
CarriesGiven q key none = Unit
CarriesGiven q key (some v) = Carries q key v

pub record Displays (client : Text) (o : Options) (q : Text) : Type 0 where
  pub client_id : Carries q (codes "client_id") client
  pub redirect_uri : Carries q (codes "redirect_uri") o.redirect_uri
  pub response_type : Carries q (codes "response_type") (codes "code")
  pub state : CarriesGiven q (codes "state") o.state
  pub provider : CarriesGiven q (codes "provider") o.provider
  pub connection_id : CarriesGiven q (codes "connection_id") o.connection_id
  pub organization_id : CarriesGiven q (codes "organization_id") o.organization_id
  pub login_hint : CarriesGiven q (codes "login_hint") o.login_hint
  pub domain_hint : CarriesGiven q (codes "domain_hint") o.domain_hint
  pub screen_hint : CarriesGiven q (codes "screen_hint") o.screen_hint
  pub invitation_token : CarriesGiven q (codes "invitation_token") o.invitation_token
  pub code_challenge : CarriesGiven q (codes "code_challenge") o.code_challenge
  pub code_challenge_method : CarriesGiven q (codes "code_challenge_method") o.code_challenge_method
  pub claim_nonce : CarriesGiven q (codes "claim_nonce") o.claim_nonce
  pub max_age : CarriesGiven q (codes "max_age") o.max_age
  pub prompt : CarriesGiven q (codes "prompt") o.prompt

module _ (client : Text) (o : Options) (q : Text) (shows : Shows (url_parameters client o) q) where
  given :
      (key : Text) (value : Option Text)
      → value_of (url_parameters client o) key ≡ of_text value
      → CarriesGiven q key value
  given key none e = tt
  given key (some v) e = shows key v e

  pub shown-Displays : Displays client o q
  unfolding url_parameters codes value_of same_codes
  shown-Displays = record {
    client_id = shows (codes "client_id") client refl;
    redirect_uri = shows (codes "redirect_uri") o.redirect_uri refl;
    response_type = shows (codes "response_type") (codes "code") refl;
    state = given (codes "state") o.state refl;
    provider = given (codes "provider") o.provider refl;
    connection_id = given (codes "connection_id") o.connection_id refl;
    organization_id = given (codes "organization_id") o.organization_id refl;
    login_hint = given (codes "login_hint") o.login_hint refl;
    domain_hint = given (codes "domain_hint") o.domain_hint refl;
    screen_hint = given (codes "screen_hint") o.screen_hint refl;
    invitation_token = given (codes "invitation_token") o.invitation_token refl;
    code_challenge = given (codes "code_challenge") o.code_challenge refl;
    code_challenge_method = given (codes "code_challenge_method") o.code_challenge_method refl;
    claim_nonce = given (codes "claim_nonce") o.claim_nonce refl;
    max_age = given (codes "max_age") o.max_age refl;
    prompt = given (codes "prompt") o.prompt refl;
  }
