-- ===== src/Session/Tests.antt =====
-- A session that is refreshed against a server that grants new tokens, and failures of the transport.
use workos_node.Prelude.{◌≤◌, ◌≡◌, refl, true, none, some, [], ◌∷◌, arith, ok}
use workos_node.Js.{Value, undefined, str, obj, end, field, truthy, prop, coalesce}
use workos_node.Seal.{unseal_data, empty_object}
use workos_node.Seal.Toy.{toy_iron, toy_iron-IsIron, through_toy, kept_cookie}
use workos_node.Http.{Response, ParseError, responded, body_text, parse_error}
use workos_node.Client.Exceptions.{seconds, unexpected}
use workos_node.Session.{World, CookieSession, exception}
use workos_node.Session.Classify.{
  rate_limit_exceeded, server_error, terminal, retryable, network_error, invalid_session_cookie,
}
use workos_node.Session.Refresh.{
  session_cookie, Refreshed, refreshed, failed, throws, RefreshOptions, refresh,
}
use workos_node.Session.Refresh.Laws.{refresh_opens, refresh_unchanged, refresh_without_client_id}
use workos_node.Session.Refresh.Unparsed.{OnlyPages, refresh_page_throws}
use workos_node.Session.Refresh.Faults.{OnlyFaults, refresh_fault_retryable}
use workos_node.Session.Refresh.Limits.{OnlyLimits, refresh_limit_retryable}
use workos_node.Session.Authenticate.{
  Success, authenticated, authenticate, open_cookie, check_cookie, is_valid_jwt, judge, read_claims,
  Trusted, authenticate-Trusted,
}
use workos_node.Session.Toy.{claims, world, running, user_of_server, new_response}

abbrev session : CookieSession
session = record { session_data = 1 ∷ b'~' ∷ b'2' ∷ []; cookie_password = b'p' ∷ [] }

abbrev no_options : RefreshOptions
no_options = record { cookie_password = none; organization_id = none }

abbrev new_tokens : Refreshed
new_tokens = record {
  sealed_session = 1 ∷ b'~' ∷ b'2' ∷ [];
  response = new_response;
  claims = claims;
  user = obj (field "id" (str "user_1") end);
  impersonator = undefined;
}

refreshes : (refresh world session no_options).1 ≡ refreshed new_tokens
unfolding running user_of_server
refreshes = refl

refresh_opens_example :
    ((refresh world session no_options).0.session_data ≡ new_tokens.sealed_session)
    × ((c : Value) × (some claims ≡ some c)
        × (unseal_data toy_iron
              (refresh world session no_options).0.session_data
              (refresh world session no_options).0.cookie_password
            ≡ ok (
                coalesce
                  (through_toy (session_cookie (prop c "org_id") new_response))
                  empty_object)))
refresh_opens_example =
    refresh_opens world through_toy session no_options new_tokens toy_iron-IsIron refreshes

-- A session whose cookie is gone.
abbrev emptied : CookieSession
emptied = record { session_data = 0 ∷ []; cookie_password = b'p' ∷ [] }

emptied_fails : (refresh world emptied no_options).1 ≡ failed (terminal invalid_session_cookie)
unfolding running
emptied_fails = refl

refresh_unchanged_example : (refresh world emptied no_options).0 ≡ emptied
refresh_unchanged_example =
    refresh_unchanged world emptied no_options λ r e. ground (arith, emptied_fails)

abbrev anonymous : World
anonymous = record world { client_id = none }

session_opens : unseal_data toy_iron session.session_data session.cookie_password ≡ ok kept_cookie
unfolding running
session_opens = refl

has_token : truthy (prop kept_cookie "refreshToken") ≡ true
unfolding running
has_token = refl

has_user : truthy (prop kept_cookie "user") ≡ true
unfolding running
has_user = refl

refresh_without_client_id_example :
    refresh anonymous session no_options ≡ (session, failed (retryable network_error none))
refresh_without_client_id_example =
    refresh_without_client_id anonymous session no_options kept_cookie claims refl session_opens
      has_token has_user refl

abbrev signed_in : Success
signed_in = record { claims = claims; cookie = kept_cookie }

is_authenticated : authenticate world session ≡ ok (authenticated signed_in)
unfolding running authenticate open_cookie check_cookie is_valid_jwt judge read_claims
is_authenticated = refl

authenticate-Trusted_example : Trusted world session signed_in
authenticate-Trusted_example = authenticate-Trusted world session signed_in is_authenticated

-- A gateway answers for the server, with a page and a status of 502.
abbrev gateway_page : Response
gateway_page = record {
  status = 502;
  status_text = "Bad Gateway";
  headers = [];
  body = body_text "<html>";
}

abbrev behind_gateway : World
behind_gateway = record world {
  platform = record world.platform {
    parse_json = λ s. none;
    fetch = λ calls req. responded gateway_page;
  };
}

gateway-OnlyPages : OnlyPages behind_gateway.platform
gateway-OnlyPages calls req = record {
  response = gateway_page;
  raw = "<html>";
  arrived = refl;
  fault = omega arith;
  body = refl;
  not_json = refl;
}

refresh_page_throws_example :
    (page : ParseError) × (500 ≤ page.raw_status)
    × (refresh behind_gateway session no_options
        ≡ (session, throws (exception (unexpected (parse_error page)))))
unfolding running
refresh_page_throws_example =
    refresh_page_throws behind_gateway session no_options kept_cookie claims "client_1"
      gateway-OnlyPages refl refl refl refl refl refl refl

-- An overloaded server, which answers in JSON.
abbrev server_message : Value
server_message = obj (field "message" (str "try later") end)

abbrev overloaded : Response
overloaded = record {
  status = 503;
  status_text = "Service Unavailable";
  headers = [];
  body = body_text "{}";
}

abbrev overloaded_world : World
overloaded_world = record world {
  platform = record world.platform {
    parse_json = λ s. some server_message;
    fetch = λ calls req. responded overloaded;
  };
}

overloaded-OnlyFaults : OnlyFaults overloaded_world.platform
unfolding running
overloaded-OnlyFaults calls req = record {
  response = overloaded;
  payload = server_message;
  fault = omega arith;
  json = record {
    raw = "{}";
    arrived = refl;
    not_ok = refl;
    body = refl;
    parsed = refl;
    not_null = refl;
  };
  no_code = refl;
  no_error = refl;
  no_description = refl;
}

refresh_fault_retryable_example :
    refresh overloaded_world session no_options ≡ (session, failed (retryable server_error none))
unfolding running
refresh_fault_retryable_example =
    refresh_fault_retryable overloaded_world session no_options kept_cookie claims "client_1"
      overloaded-OnlyFaults refl refl refl refl refl refl refl

-- A server that asks for half a minute.
abbrev too_many : Response
too_many = record {
  status = 429;
  status_text = "Too Many Requests";
  headers = ("Retry-After", "30") ∷ [];
  body = body_text "{}";
}

abbrev limited_world : World
limited_world = record world {
  to_number = λ s. seconds 30;
  platform = record world.platform {
    parse_json = λ s. some server_message;
    fetch = λ calls req. responded too_many;
  };
}

too_many-OnlyLimits : OnlyLimits "30" limited_world.platform
unfolding running
too_many-OnlyLimits calls req = record {
  response = too_many;
  payload = server_message;
  limited = refl;
  json = record {
    raw = "{}";
    arrived = refl;
    not_ok = refl;
    body = refl;
    parsed = refl;
    not_null = refl;
  };
  comes_back = refl;
}

refresh_limit_retryable_example :
    refresh limited_world session no_options
    ≡ (session, failed (retryable rate_limit_exceeded (some (seconds 30))))
unfolding running
refresh_limit_retryable_example =
    refresh_limit_retryable limited_world session no_options kept_cookie claims "client_1" "30"
      too_many-OnlyLimits refl refl refl refl refl refl refl refl
