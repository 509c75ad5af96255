-- ===== src/AuthorizationUrl/Tests.antt =====
-- A sign-in through AuthKit and one through a connection, with a sort that leaves the order.
use workos_node.Prelude.{◌≡◌, refl, inl, inr, none, some, List, [], ◌∷◌, ◌++◌, ok, arith, length}
use workos_node.Js.{codes}
use workos_node.Query.Lookup.{Keeps}
use workos_node.Query.RoundTrip.{IsScalarText}
use workos_node.Pkce.Encoder.{btoa-IsBtoa}
use workos_node.Pkce.Toy.{source, drawn-IsRandom, hash_bytes}
use workos_node.AuthorizationUrl.{
  Text, Options, Authorization, get_authorization_url, get_authorization_url_with_pkce,
}
use workos_node.AuthorizationUrl.Reads.{Carries, IsSource, challenge_of}
use workos_node.AuthorizationUrl.Shown.{Displays}
use workos_node.AuthorizationUrl.Guards.{IsComplete, IsClientId, get_authorization_url_guarded}
use workos_node.AuthorizationUrl.Laws.{
  IsEncodable, get_authorization_url_reads, get_authorization_url_with_pkce_reads,
}
use workos_node.AuthorizationUrl.Sso
use workos_node.AuthorizationUrl.Sso.{get_sso_url_with_pkce, get_sso_url_with_pkce_reads}

abbrev keep : List Text → List Text
keep keys = keys

keep-Keeps : Keeps keep
keep-Keeps key keys m = m

abbrev base : Text
base = codes "https://api.workos.com"

abbrev options : Options
options = record {
  claim_nonce = none;
  client_id = some (codes "client_1");
  code_challenge = none;
  code_challenge_method = none;
  connection_id = none;
  organization_id = none;
  domain_hint = none;
  invitation_token = some (codes "token");
  login_hint = none;
  max_age = none;
  provider = some (codes "authkit");
  provider_query_params = none;
  provider_scopes = some (codes "a b" ∷ []);
  prompt = none;
  redirect_uri = codes "https://a.test/?x=1&y=2";
  state = some (codes "s&t");
  screen_hint = some (codes "sign-up");
}

encodable : IsEncodable options
unfolding codes
encodable = record {
  claim_nonce = tt;
  connection_id = tt;
  code_challenge = tt;
  code_challenge_method = tt;
  organization_id = tt;
  domain_hint = tt;
  invitation_token = omega arith;
  login_hint = tt;
  max_age = tt;
  provider = omega arith;
  provider_query_params = tt;
  provider_scopes = (omega arith, tt);
  prompt = tt;
  redirect_uri = omega arith;
  state = omega arith;
  screen_hint = omega arith;
}

client_text : IsScalarText (codes "client_1")
unfolding codes
client_text = omega arith

complete : IsComplete options
unfolding codes
complete = (inl refl, inl refl)

chosen : IsClientId (some (codes "client_1")) none (codes "client_1")
unfolding codes
chosen = (refl, inl refl)

get_authorization_url_reads_example :
    (q : Text) × (get_authorization_url keep base none options
      ≡ ok (base ++ (codes "/user_management/authorize" ++ (b'?' ∷ q))))
    × Displays (codes "client_1") options q
get_authorization_url_reads_example =
    get_authorization_url_reads keep base none keep-Keeps (codes "client_1") client_text options
      chosen complete encodable

-- The URL of the same options.
printed :
    (q : Text) × (get_authorization_url keep base none options
      ≡ ok (base ++ (codes "/user_management/authorize" ++ (b'?' ∷ q))))
    × Displays (codes "client_1") options q
printed =
    get_authorization_url_reads keep base none keep-Keeps (codes "client_1") client_text options
      chosen complete encodable

get_authorization_url_guarded_example :
    IsComplete options × ((client : Text) × IsClientId (some (codes "client_1")) none client)
get_authorization_url_guarded_example =
    get_authorization_url_guarded keep base none options
      (base ++ (codes "/user_management/authorize" ++ (b'?' ∷ printed.0))) (printed.1)

runtime : IsSource source
runtime = record { encoder = btoa-IsBtoa; draws = drawn-IsRandom; hashes = hash_bytes }

get_authorization_url_with_pkce_reads_example :
    (a : Authorization) × (q : Text) × (get_authorization_url_with_pkce keep base none source source
        options
      ≡ ok a)
    × (a.url ≡ base ++ (codes "/user_management/authorize" ++ (b'?' ∷ q)))
    × Carries q (codes "code_challenge") (challenge_of source (a.code_verifier))
    × Carries q (codes "code_challenge_method") (codes "S256")
    × Carries q (codes "client_id") (codes "client_1")
    × Carries q (codes "redirect_uri") (codes "https://a.test/?x=1&y=2")
    × Carries q (codes "state") (a.state)
    × (length (a.code_verifier) ≡ 43)
    × (length (a.state) ≡ 43)
get_authorization_url_with_pkce_reads_example =
    get_authorization_url_with_pkce_reads keep base none keep-Keeps (codes "client_1") client_text
      source source runtime runtime options chosen complete encodable

abbrev sso_options : Sso.Options
sso_options = record {
  code_challenge = none;
  code_challenge_method = none;
  connection = some (codes "conn_1");
  client_id = codes "client_1";
  domain_hint = none;
  login_hint = none;
  organization = none;
  provider = none;
  provider_query_params = none;
  provider_scopes = none;
  redirect_uri = codes "https://a.test/";
  state = none;
}

sso_options-IsEncodable : Sso.IsEncodable sso_options
unfolding codes
sso_options-IsEncodable = record {
  code_challenge = tt;
  code_challenge_method = tt;
  connection = omega arith;
  client_id = omega arith;
  domain_hint = tt;
  login_hint = tt;
  organization = tt;
  provider = tt;
  provider_query_params = tt;
  provider_scopes = tt;
  redirect_uri = omega arith;
  state = tt;
}

sso_options-IsSelected : Sso.IsSelected sso_options
unfolding codes
sso_options-IsSelected = inr (inl refl)

get_sso_url_with_pkce_reads_example :
    (a : Authorization) × (q : Text) × (get_sso_url_with_pkce keep base source source sso_options
      ≡ ok a)
    × (a.url ≡ base ++ (codes "/sso/authorize" ++ (b'?' ∷ q)))
    × Carries q (codes "code_challenge") (challenge_of source (a.code_verifier))
    × Carries q (codes "client_id") (codes "client_1")
    × Carries q (codes "redirect_uri") (codes "https://a.test/")
    × Carries q (codes "state") (a.state)
get_sso_url_with_pkce_reads_example =
    get_sso_url_with_pkce_reads keep base keep-Keeps source source runtime runtime sso_options
      sso_options-IsSelected sso_options-IsEncodable
