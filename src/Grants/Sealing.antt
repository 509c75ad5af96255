-- ===== src/Grants/Sealing.antt =====
-- When a grant's result is sealed, and what the seal opens to.
use workos_node.Prelude.{
  ℕ, String, ◌≡◌, refl, ◌⊎◌, inl, inr, true, false, Option, none, some, List, if_cases, bind-eq-ok,
  ok, arith,
}
use workos_node.Js.{Value, prop, coalesce}
use workos_node.Seal.{unseal_data, empty_object}
use workos_node.Seal.Laws.{IsIron, unseal_data-seal_data}
use workos_node.Client.{is_given}
use workos_node.Session.{World}
use workos_node.Session.Refresh.{
  AuthenticationResponse, session_cookie, prepare_sealed, deserialize_authentication_response,
}
use workos_node.Session.Refresh.Laws.{prepare_sealed_sound}
use workos_node.Grants.{
  SessionOptions, Request, Authenticated, prepare_authentication_response, send_grant,
  exchange_grant,
}
use workos_node.Grants.Laws.{Method, call, call_identified}

module _ (world : World) where
  -- A seal that opens, under the password, to the cookie of the response.
  abbrev pub IsSealedUnder : (Value → Value) → AuthenticationResponse → List ℕ → List ℕ → Type 0
  IsSealedUnder through_json response password sealed =
      (claims : Value) × (world.decode_jwt response.access_token ≡ some claims)
      × (unseal_data world.iron sealed password
          ≡ ok (
              coalesce (through_json (session_cookie (prop claims "org_id") response))
                empty_object))

  -- What the options of the session ask for.
  abbrev pub IsPrepared : Option SessionOptions → (Value → Value) → Authenticated → Type 0
  IsPrepared none through_json a = a.sealed_session ≡ none
  IsPrepared (some o) through_json a =
      ((o.seal_session ≡ false) × (a.sealed_session ≡ none))
      ⊎ ((o.seal_session ≡ true)
          × (is_given world.workos.key ≡ true)
          × (sealed : List ℕ) × (a.sealed_session ≡ some sealed)
          × IsSealedUnder through_json a.response o.cookie_password sealed)

  prepare_sealed_key :
      (response : AuthenticationResponse) (password sealed : List ℕ)
      → prepare_sealed world response password ≡ ok sealed
      → is_given world.workos.key ≡ true
  unfolding prepare_sealed
  prepare_sealed_key response password sealed e = ground arith

  prepare_sealed_opens :
      (through_json : Value → Value) (response : AuthenticationResponse) (password sealed : List ℕ)
      → IsIron world.iron through_json
      → prepare_sealed world response password ≡ ok sealed
      → IsSealedUnder through_json response password sealed
  prepare_sealed_opens through_json response password sealed law e =
      let made = prepare_sealed_sound world response password sealed e in
      (
        made.claims,
        made.decoded,
        rw (made.made) (unseal_data-seal_data world.iron through_json law _ password),
      )

  prepared :
      (through_json : Value → Value) (response : AuthenticationResponse)
      (session : Option SessionOptions) (a : Authenticated)
      → IsIron world.iron through_json
      → prepare_authentication_response world response session ≡ ok a
      → IsPrepared session through_json a
  unfolding prepare_authentication_response
  prepared through_json response none a law e = ground arith
  prepared through_json response (some o) a law e = elim (if_cases o.seal_session _ _ e) [
    | inl (asked, sealing) ↦
        let (sealed, made, same) =
          bind-eq-ok (prepare_sealed world response o.cookie_password) _ sealing in
        let result : record { response = response; sealed_session = some sealed } ≡ a =
          ground arith in
        rw (← result) (
          inr (
            asked,
            prepare_sealed_key response o.cookie_password sealed made,
            sealed,
            refl,
            prepare_sealed_opens through_json response o.cookie_password sealed law made,
          ))
    | inr (unasked, plain) ↦ inl (unasked, ground arith)
  ]

  -- A grant that succeeds has a sealed session if and only if the options ask for one; then there is
  -- an API key, and the seal opens under the password of the options to the cookie of the response.
  pub call-IsPrepared :
      (through_json : Value → Value) (verifier : Option String) (method : Method) (r : Request)
      (a : Authenticated)
      → IsIron world.iron through_json
      → call world verifier method r ≡ ok a
      → IsPrepared r.session through_json a
  unfolding exchange_grant
  call-IsPrepared through_json verifier method r a law e =
      let (_, body, skip, _, _, sent) = call_identified world verifier r method a e in
      let (granted, _, rest) = bind-eq-ok (send_grant world body skip) _ sent in
      let (response, _, done) = bind-eq-ok (deserialize_authentication_response granted) _ rest in
      prepared through_json response r.session a law done
