-- ===== src/Grants/Tests.antt =====
-- A sign-in by password against a server that grants, a code that nobody may exchange, and a sealed
-- cookie.
use workos_node.Prelude.{◌≡◌, refl, inl, inr, true, false, none, some, [], ◌∷◌, ok, err, arith}
use workos_node.Js.Text.{is_space}
use workos_node.Js.{codes, str, obj, field, end}
use workos_node.Seal.Toy.{toy_iron-IsIron, through_toy}
use workos_node.Session.{World, wrong_type}
use workos_node.Session.Refresh.{resolve_client_id}
use workos_node.Session.Authenticate.{authenticate}
use workos_node.Session.Toy.{world, workos, running, user_of_server, new_response}
use workos_node.Grants.{
  Request, Authenticated, authenticate_with_code, get_profile_and_token, authenticate_with_password,
  confidential, exchange_grant, grant_body, send_grant, serialize, prepare_authentication_response,
}
use workos_node.Grants.Laws.{
  password, call, IsExchange, authenticate_with_code_refuses, call_identified,
}
use workos_node.Grants.Sealing.{IsPrepared, call-IsPrepared}
use workos_node.Grants.Cookie.{
  authenticate_with_session_cookie, in_common, authenticate_with_session_cookie-authenticate,
}

abbrev request : Request
request = record {
  client_id = none;
  session = some (record { seal_session = true; cookie_password = b'p' ∷ [] });
  payload = obj (field "email" (str "a@b.test") (field "password" (str "secret") end));
}

abbrev signed_in : Authenticated
signed_in = record { response = new_response; sealed_session = some (1 ∷ b'~' ∷ b'2' ∷ []) }

signs_in : call world none password request ≡ ok signed_in
unfolding running call authenticate_with_password confidential exchange_grant grant_body send_grant
    serialize prepare_authentication_response user_of_server
signs_in = refl

call_identified_example : IsExchange world none request password signed_in
call_identified_example = call_identified world none request password signed_in signs_in

call-IsPrepared_example :
    IsPrepared world
      (some (record { seal_session = true; cookie_password = b'p' ∷ [] }))
      through_toy
      signed_in
call-IsPrepared_example =
    call-IsPrepared world through_toy none password request signed_in toy_iron-IsIron signs_in

-- A public client, which has no key.
abbrev public : World
public = record world { workos = record workos { key = none; has_api_key = false } }

private_client : resolve_client_id world none ≡ ok "client_1"
unfolding running
private_client = refl

public_client : resolve_client_id public none ≡ ok "client_1"
unfolding running
public_client = refl

-- The client of the tests has a key, but the verifier is a space and a tab.
authenticate_with_code_refuses_example :
    (authenticate_with_code world (some " \t") request ≡ err wrong_type)
    × (get_profile_and_token world "code" "client_1" (some " \t") ≡ err wrong_type)
unfolding codes is_space
authenticate_with_code_refuses_example =
    authenticate_with_code_refuses world (some " \t") request "client_1" "code" private_client
      (inl (refl, (refl, tt)))

refuses_without_key :
    (authenticate_with_code public none request ≡ err wrong_type)
    × (get_profile_and_token public "code" "client_1" none ≡ err wrong_type)
refuses_without_key =
    authenticate_with_code_refuses public none request "client_1" "code" public_client
      (inr (refl, inl refl))

authenticate_with_session_cookie-authenticate_example :
    authenticate_with_session_cookie world (1 ∷ b'~' ∷ b'2' ∷ []) (b'p' ∷ [])
    ≡ in_common world (
        authenticate world
          (record { session_data = 1 ∷ b'~' ∷ b'2' ∷ []; cookie_password = b'p' ∷ [] }))
authenticate_with_session_cookie-authenticate_example =
    authenticate_with_session_cookie-authenticate world (1 ∷ b'~' ∷ b'2' ∷ []) (b'p' ∷ []) refl
      (λ e. ground arith)
