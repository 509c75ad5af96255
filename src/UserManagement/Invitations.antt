-- ===== src/UserManagement/Invitations.antt =====
-- The invitations of src/user-management/user-management.ts, and ids that reach beyond their segment.
use Prim.Native.String
use text.Mathlib.TextLemmas.{append_assoc}
use workos_node.Prelude.{String, ◌≡◌, refl, List, [], ◌∷◌, Result}
use workos_node.Js.{Value, undefined, obj, end}
use workos_node.Session.{Thrown}
use workos_node.Grants.{Names}
use workos_node.Authorization.{Endpoint, Listing, post, getting, sending, listing, joined_path}
use workos_node.Authorization.Serializers.{fields_of}
use workos_node.Authorization.Answers.{read_table}
use workos_node.UserManagement.{if_options}
use workos_node.UserManagement.Users.{list_names, get_user, get_user_by_external_id}

unfoldable pub deserialize_invitation : Value → Result Thrown Value
unfolding read_table
deserialize_invitation = read_table (
    ("object", "object")
    ∷ ("id", "id")
    ∷ ("email", "email")
    ∷ ("state", "state")
    ∷ ("acceptedAt", "accepted_at")
    ∷ ("revokedAt", "revoked_at")
    ∷ ("expiresAt", "expires_at")
    ∷ ("organizationId", "organization_id")
    ∷ ("inviterUserId", "inviter_user_id")
    ∷ ("acceptedUserId", "accepted_user_id")
    ∷ ("roleSlug", "role_slug")
    ∷ ("token", "token")
    ∷ ("acceptInvitationUrl", "accept_invitation_url")
    ∷ ("createdAt", "created_at")
    ∷ ("updatedAt", "updated_at")
    ∷ [])

abbrev pub send_invitation_names : Names
send_invitation_names =
    ("email", "email")
    ∷ ("organization_id", "organizationId")
    ∷ ("expires_in_days", "expiresInDays")
    ∷ ("inviter_user_id", "inviterUserId")
    ∷ ("role_slug", "roleSlug")
    ∷ ("locale", "locale")
    ∷ []

abbrev of_invitation : String → List String → List String
of_invitation invitation_id rest = "user_management" ∷ "invitations" ∷ invitation_id ∷ rest

unfoldable pub get_invitation : String → Endpoint
get_invitation invitation_id = getting (of_invitation invitation_id []) deserialize_invitation

unfoldable pub find_invitation_by_token : String → Endpoint
find_invitation_by_token invitation_token =
    getting ("user_management" ∷ "invitations" ∷ "by_token" ∷ invitation_token ∷ [])
      deserialize_invitation

unfoldable pub list_invitations : Value → Listing
unfolding listing
list_invitations options =
    listing ("user_management" ∷ "invitations" ∷ []) deserialize_invitation
      (if_options options (fields_of list_names) undefined)

unfoldable pub send_invitation : Value → Endpoint
send_invitation payload =
    sending post ("user_management" ∷ "invitations" ∷ []) (fields_of send_invitation_names payload)
      deserialize_invitation

unfoldable pub accept_invitation : String → Endpoint
accept_invitation invitation_id =
    sending post (of_invitation invitation_id ("accept" ∷ [])) (obj end) deserialize_invitation

unfoldable pub revoke_invitation : String → Endpoint
revoke_invitation invitation_id =
    sending post (of_invitation invitation_id ("revoke" ∷ [])) (obj end) deserialize_invitation

unfoldable pub resend_invitation : String → Value → Endpoint
resend_invitation invitation_id options =
    sending post (of_invitation invitation_id ("resend" ∷ []))
      (if_options options (fields_of (("locale", "locale") ∷ [])) (obj end)) deserialize_invitation

-- An id is not escaped: for the user id that is `external_id/` and a text, `getUser` is
-- `getUserByExternalId` of that text, and for the invitation id that is `by_token/` and a text,
-- `getInvitation` is `findInvitationByToken`: the same request, with the same reading of the answer.
pub get_user_confused :
    (id : String)
    → (get_user (String.◌++◌ "external_id/" id) ≡ get_user_by_external_id id)
      × (get_invitation (String.◌++◌ "by_token/" id) ≡ find_invitation_by_token id)
unfolding get_user get_user_by_external_id get_invitation find_invitation_by_token joined_path
get_user_confused id = (
  rw (append_assoc "external_id/" id "", append_assoc "external_id" "/" (String.◌++◌ id "")) refl,
  rw (append_assoc "by_token/" id "", append_assoc "by_token" "/" (String.◌++◌ id "")) refl,
)
