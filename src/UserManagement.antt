-- ===== src/UserManagement.antt =====
-- The endpoints of src/user-management/user-management.ts for users, sessions, memberships and invitations,
-- and the reading of magic-auth codes, email verifications and password resets.
pub mod Users
pub mod Invitations
pub mod Codes
mod Tests
use workos_node.Prelude.{String, false, none, List, [], ◌∷◌, if◌then◌else◌, Result, ok, err, ◌>>=◌}
use workos_node.Js.{
  Value, undefined, bool, obj, Fields, field, end, prop, truthy, nullish, coalesce,
}
use workos_node.Session.{Thrown}
use workos_node.Grants.{Names}
use workos_node.Authorization.{
  Endpoint, post, put, getting, sending, deleting, of_present, no_result,
}
use workos_node.Authorization.Serializers.{from_field, fields_of}
use workos_node.Authorization.Answers.{read_table}

-- `options ? f(options) : otherwise`
abbrev pub if_options : Value → (Value → Value) → Value → Value
if_options options f otherwise = if truthy options then f options else otherwise

abbrev code_names : String → Names
code_names secret =
    ("object", "object")
    ∷ ("id", "id")
    ∷ ("userId", "user_id")
    ∷ ("email", "email")
    ∷ ("expiresAt", "expires_at")
    ∷ (secret, secret)
    ∷ ("createdAt", "created_at")
    ∷ ("updatedAt", "updated_at")
    ∷ []

-- deserializeMagicAuth and deserializeEmailVerification
unfoldable pub deserialize_magic_auth : Value → Result Thrown Value
unfolding read_table
deserialize_magic_auth = read_table (code_names "code")

unfoldable pub deserialize_password_reset : Value → Result Thrown Value
unfolding read_table
deserialize_password_reset = read_table (
    ("object", "object")
    ∷ ("id", "id")
    ∷ ("userId", "user_id")
    ∷ ("email", "email")
    ∷ ("passwordResetToken", "password_reset_token")
    ∷ ("passwordResetUrl", "password_reset_url")
    ∷ ("expiresAt", "expires_at")
    ∷ ("createdAt", "created_at")
    ∷ [])

-- A membership of an organization.
unfoldable pub deserialize_organization_membership : Value → Result Thrown Value
deserialize_organization_membership m =
    let tail = field "customAttributes" (coalesce (prop m "custom_attributes") (obj end)) end in
    of_present m (
      obj (
        from_field "object" "object" m (
          from_field "id" "id" m (
            from_field "userId" "user_id" m (
              from_field "organizationId" "organization_id" m (
                from_field "organizationName" "organization_name" m (
                  from_field "status" "status" m (
                    field "directoryManaged" (coalesce (prop m "directory_managed") (bool false)) (
                      from_field "createdAt" "created_at" m (
                        from_field "updatedAt" "updated_at" m (
                          from_field "role" "role" m (
                            if truthy (prop m "roles")
                            then field "roles" (prop m "roles") tail
                            else tail))))))))))))

unfoldable pub get_email_verification : String → Endpoint
get_email_verification email_verification_id =
    getting ("user_management" ∷ "email_verification" ∷ email_verification_id ∷ [])
      deserialize_magic_auth

unfoldable pub get_magic_auth : String → Endpoint
get_magic_auth magic_auth_id =
    getting ("user_management" ∷ "magic_auth" ∷ magic_auth_id ∷ []) deserialize_magic_auth

unfoldable pub get_password_reset : String → Endpoint
get_password_reset password_reset_id =
    getting ("user_management" ∷ "password_reset" ∷ password_reset_id ∷ [])
      deserialize_password_reset

abbrev roles_names : Names
roles_names = ("role_slug", "roleSlug") ∷ ("role_slugs", "roleSlugs") ∷ []

abbrev of_membership : String → List String → List String
of_membership organization_membership_id rest =
    "user_management" ∷ "organization_memberships" ∷ organization_membership_id ∷ rest

unfoldable pub get_organization_membership : String → Endpoint
get_organization_membership organization_membership_id =
    getting (of_membership organization_membership_id []) deserialize_organization_membership

unfoldable pub create_organization_membership : Value → Endpoint
create_organization_membership options =
    sending post ("user_management" ∷ "organization_memberships" ∷ [])
      (fields_of (("organization_id", "organizationId") ∷ ("user_id", "userId") ∷ roles_names)
        options)
      deserialize_organization_membership

unfoldable pub update_organization_membership : String → Value → Endpoint
update_organization_membership organization_membership_id options =
    sending put (of_membership organization_membership_id []) (fields_of roles_names options)
      deserialize_organization_membership

unfoldable pub delete_organization_membership : String → Endpoint
delete_organization_membership organization_membership_id =
    deleting (of_membership organization_membership_id []) none

unfoldable pub deactivate_organization_membership : String → Endpoint
deactivate_organization_membership organization_membership_id =
    sending put (of_membership organization_membership_id ("deactivate" ∷ [])) (obj end)
      deserialize_organization_membership

unfoldable pub reactivate_organization_membership : String → Endpoint
reactivate_organization_membership organization_membership_id =
    sending put (of_membership organization_membership_id ("reactivate" ∷ [])) (obj end)
      deserialize_organization_membership

unfoldable pub revoke_session : Value → Endpoint
revoke_session payload =
    sending post ("user_management" ∷ "sessions" ∷ "revoke" ∷ [])
      (fields_of (("session_id", "sessionId") ∷ []) payload) no_result
