-- ===== src/AuthorizationUrl/Guards.antt =====
-- When a URL of user management is given out: the client id and the two guards.
use workos_node.Prelude.{
  ◌≡◌, refl, ap, ◌⊎◌, inl, inr, ◌↔◌, Bool, true, false, not, ◌&&◌, Option, none, some, List,
  if◌then◌else◌, bind-eq-ok, Result, ok, err, arith,
}
use workos_node.Js.{codes}
use workos_node.Js.Text.{same_codes_iff}
use workos_node.AuthorizationUrl.{
  UrlError, client_id_required, incomplete_arguments, screen_hint_unsupported, Text, Options, has,
  is_authkit, chosen_client_id, resolve_client_id, check_options, get_authorization_url,
}

-- The options that pass both guards: something says whom to sign in with, and a screen is hinted at
-- only for AuthKit.
abbrev pub IsComplete : Options → Type 0
IsComplete o =
    ((has o.provider ≡ true) ⊎ ((has o.connection_id ≡ true) ⊎ (has o.organization_id ≡ true)))
    × ((o.provider ≡ some (codes "authkit")) ⊎ (has o.screen_hint ≡ false))

abbrev pub IsClientId : Option Text → Option Text → Text → Type 0
IsClientId given configured client =
    (has (some client) ≡ true)
    × ((given ≡ some client) ⊎ ((given ≡ none) × (configured ≡ some client)))

pub resolve_client_id-IsClientId :
    (given configured : Option Text) (client : Text)
    → IsClientId given configured client
    → resolve_client_id given configured ≡ ok client
unfolding resolve_client_id chosen_client_id
resolve_client_id-IsClientId given configured client (h, inl e) = rw (e, h) refl
resolve_client_id-IsClientId given configured client (h, inr (e, f)) = rw (e, f, h) refl

is_authkit_iff : (p : Option Text) → (is_authkit p ≡ true) ↔ (p ≡ some (codes "authkit"))
unfolding is_authkit
is_authkit_iff none = (λ e. absurd (ground arith), λ e. absurd (ground arith))
is_authkit_iff (some p) = (
  λ e. ap some ((same_codes_iff p (codes "authkit")).0 e),
  λ e. (same_codes_iff p (codes "authkit")).1 (ground arith),
)

abbrev guards : Bool → Bool → Bool → Bool → Bool → Result UrlError (Unit {0})
guards p c g a s =
    if not p && not c && not g
    then err incomplete_arguments
    else if not a && s
    then err screen_hint_unsupported
    else ok tt

guards_pass :
    (p c g a s : Bool)
    → (guards p c g a s ≡ ok tt)
      ↔ (((p ≡ true) ⊎ ((c ≡ true) ⊎ (g ≡ true))) × ((a ≡ true) ⊎ (s ≡ false)))
guards_pass p c g a s = ground arith

pub check_options-IsComplete : (o : Options) → (check_options o ≡ ok tt) ↔ IsComplete o
unfolding check_options
check_options-IsComplete o =
    let guards =
      guards_pass (has o.provider) (has o.connection_id) (has o.organization_id)
        (is_authkit o.provider) (has o.screen_hint) in
    let authkit = is_authkit_iff o.provider in
    (
      λ e. ((guards.0 e).0, elim (guards.0 e).1 [ inl a ↦ inl (authkit.0 a) | inr n ↦ inr n ]),
      λ h. guards.1 (h.0, elim h.1 [ inl a ↦ inl (authkit.1 a) | inr n ↦ inr n ]),
    )

if_ok :
    (b : Bool) (c client : Text)
    → (if b then ok c else err client_id_required) ≡ ok client
    → (b ≡ true) × (c ≡ client)
if_ok true c client e = (refl, ground arith)
if_ok false c client e = absurd (ground arith)

resolve_client_id_sound :
    (given configured : Option Text) (client : Text)
    → resolve_client_id given configured ≡ ok client
    → IsClientId given configured client
unfolding resolve_client_id chosen_client_id
resolve_client_id_sound none none client e = absurd (ground arith)
resolve_client_id_sound none (some c) client e =
    let same : (if has (some c) then ok c else err client_id_required) ≡ ok client = e in
    let (given, eq) = if_ok (has (some c)) c client same in
    (rw (← eq) given, inr (refl, ap some eq))
resolve_client_id_sound (some c) configured client e =
    let same : (if has (some c) then ok c else err client_id_required) ≡ ok client = e in
    let (given, eq) = if_ok (has (some c)) c client same in (rw (← eq) given, inl (ap some eq))

module _ (sort : List Text → List Text) (base : Text) (configured : Option Text) where
  -- A URL is given out only with a client id, that of the options or else that of the client object,
  -- and not empty; and only if the options name a provider, a connection or an organization, and
  -- hint at a screen for AuthKit alone.
  pub get_authorization_url_guarded :
      (o : Options) (url : Text)
      → get_authorization_url sort base configured o ≡ ok url
      → IsComplete o × ((client : Text) × IsClientId o.client_id configured client)
  unfolding get_authorization_url
  get_authorization_url_guarded o url e =
      let (client, resolved, rest) = bind-eq-ok (resolve_client_id o.client_id configured) _ e in
      let (_, checked, _) = bind-eq-ok (check_options o) _ rest in
      (
        (check_options-IsComplete o).0 checked,
        (client, resolve_client_id_sound o.client_id configured client resolved),
      )
