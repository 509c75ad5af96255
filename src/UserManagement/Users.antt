-- ===== src/UserManagement/Users.antt =====
-- The users of src/user-management/user-management.ts, with their serializers and their sessions.
use workos_node.Prelude.{String, none, [], ◌∷◌, if◌then◌else◌, Result, ok, ◌>>=◌}
use workos_node.Js.{Value, undefined, str, obj, Fields, field, end, prop, truthy, is_undefined}
use workos_node.Session.{Thrown}
use workos_node.Session.Refresh.{deserialize_user}
use workos_node.Grants.{Names}
use workos_node.Authorization.{
  Endpoint, Listing, post, put, getting, sending, deleting, of_present, listing,
}
use workos_node.Authorization.Serializers.{from_field, fields_of}
use workos_node.UserManagement.{if_options}

abbrev pub create_user_names : Names
create_user_names =
    ("email", "email")
    ∷ ("password", "password")
    ∷ ("password_hash", "passwordHash")
    ∷ ("password_hash_type", "passwordHashType")
    ∷ ("name", "name")
    ∷ ("first_name", "firstName")
    ∷ ("last_name", "lastName")
    ∷ ("email_verified", "emailVerified")
    ∷ ("external_id", "externalId")
    ∷ ("metadata", "metadata")
    ∷ ("ip_address", "ipAddress")
    ∷ ("user_agent", "userAgent")
    ∷ ("signals_id", "signalsId")
    ∷ []

abbrev pub update_user_names : Names
update_user_names =
    ("email", "email")
    ∷ ("email_verified", "emailVerified")
    ∷ ("name", "name")
    ∷ ("first_name", "firstName")
    ∷ ("last_name", "lastName")
    ∷ ("password", "password")
    ∷ ("password_hash", "passwordHash")
    ∷ ("password_hash_type", "passwordHashType")
    ∷ ("external_id", "externalId")
    ∷ ("locale", "locale")
    ∷ ("metadata", "metadata")
    ∷ []

-- The users and the invitations of a list are chosen by the same options.
abbrev pub list_names : Names
list_names =
    ("email", "email")
    ∷ ("organization_id", "organizationId")
    ∷ ("limit", "limit")
    ∷ ("before", "before")
    ∷ ("after", "after")
    ∷ ("order", "order")
    ∷ []

unfoldable pub deserialize_session : Value → Result Thrown Value
deserialize_session s =
    let tail = from_field "authMethod" "auth_method" s (
      from_field "status" "status" s (
        from_field "expiresAt" "expires_at" s (
          from_field "endedAt" "ended_at" s (
            from_field "createdAt" "created_at" s (from_field "updatedAt" "updated_at" s end))))) in
    let impersonated =
      if is_undefined (prop s "impersonator")
      then tail
      else field "impersonator" (prop s "impersonator") tail in
    let organized =
      if is_undefined (prop s "organization_id")
      then impersonated
      else field "organizationId" (prop s "organization_id") impersonated in
    of_present s (
      obj (
        field "object" (str "session") (
          from_field "id" "id" s (
            from_field "userId" "user_id" s (
              from_field "ipAddress" "ip_address" s
                (from_field "userAgent" "user_agent" s organized))))))

abbrev at_end : String → Value → Fields → Fields
at_end name v end = field name v end
at_end name v (field key w rest) = field key w (at_end name v rest)

abbrev pub add_last : String → Value → Value → Value
add_last name v (obj fields) = obj (at_end name v fields)
add_last name v w = w

-- The user, and the id of the Radar attempt if there is one.
unfoldable pub created_user : Value → Result Thrown Value
created_user answer = do
  user ← deserialize_user answer
  ok (
      if truthy (prop answer "radar_auth_attempt_id")
      then add_last "radarAuthAttemptId" (prop answer "radar_auth_attempt_id") user
      else user)

unfoldable pub get_user : String → Endpoint
get_user user_id = getting ("user_management" ∷ "users" ∷ user_id ∷ []) deserialize_user

unfoldable pub get_user_by_external_id : String → Endpoint
get_user_by_external_id external_id =
    getting ("user_management" ∷ "users" ∷ "external_id" ∷ external_id ∷ []) deserialize_user

unfoldable pub list_users : Value → Listing
unfolding listing
list_users options =
    listing ("user_management" ∷ "users" ∷ []) deserialize_user
      (if_options options (fields_of list_names) undefined)

unfoldable pub create_user : Value → Endpoint
unfolding created_user
create_user payload =
    sending post ("user_management" ∷ "users" ∷ []) (fields_of create_user_names payload)
      created_user

unfoldable pub update_user : String → Value → Endpoint
update_user user_id payload =
    sending put ("user_management" ∷ "users" ∷ user_id ∷ []) (fields_of update_user_names payload)
      deserialize_user

unfoldable pub delete_user : String → Endpoint
delete_user user_id = deleting ("user_management" ∷ "users" ∷ user_id ∷ []) none

-- The options are given on as they are.
unfoldable pub list_sessions : String → Value → Listing
unfolding listing
list_sessions user_id options =
    listing ("user_management" ∷ "users" ∷ user_id ∷ "sessions" ∷ []) deserialize_session options
