-- ===== src/UserManagement/Codes.antt =====
-- The codes that src/user-management/user-management.ts sends and confirms: email verification, magic
-- auth, password resets and the Radar challenge.
use workos_node.Prelude.{String, List, [], ◌∷◌, if◌then◌else◌, Result, ok, ◌>>=◌}
use workos_node.Js.{Value, obj, field, end, prop, truthy}
use workos_node.Session.{Thrown}
use workos_node.Session.Refresh.{deserialize_user}
use workos_node.Authorization.{Endpoint, post, sending, of_present}
use workos_node.Authorization.Serializers.{fields_of}
use workos_node.Authorization.Answers.{read_table}
use workos_node.UserManagement.{deserialize_magic_auth, deserialize_password_reset}
use workos_node.UserManagement.Users.{add_last}

-- `{ user: deserializeUser(data.user) }`
unfoldable pub the_user : Value → Result Thrown Value
the_user answer = do
  checked ← of_present answer answer
  user ← deserialize_user (prop answer "user")
  ok (obj (field "user" user end))

-- The magic auth, and the id of the Radar attempt if there is one.
unfoldable pub created_magic_auth : Value → Result Thrown Value
created_magic_auth answer = do
  magic_auth ← deserialize_magic_auth answer
  ok (
      if truthy (prop answer "radar_auth_attempt_id")
      then add_last "radarAuthAttemptId" (prop answer "radar_auth_attempt_id") magic_auth
      else magic_auth)

abbrev email_verification : String → String → List String
email_verification user_id step =
    "user_management" ∷ "users" ∷ user_id ∷ "email_verification" ∷ step ∷ []

unfoldable pub send_verification_email : String → Endpoint
unfolding the_user
send_verification_email user_id =
    sending post (email_verification user_id "send") (obj end) the_user

unfoldable pub verify_email : String → Value → Endpoint
unfolding the_user
verify_email user_id code =
    sending post (email_verification user_id "confirm") (obj (field "code" code end)) the_user

unfoldable pub create_magic_auth : Value → Endpoint
unfolding created_magic_auth
create_magic_auth options =
    sending post ("user_management" ∷ "magic_auth" ∷ [])
      (fields_of
        (("email", "email")
          ∷ ("invitation_token", "invitationToken")
          ∷ ("ip_address", "ipAddress")
          ∷ ("user_agent", "userAgent")
          ∷ ("radar_auth_attempt_id", "radarAuthAttemptId")
          ∷ ("signals_id", "signalsId")
          ∷ [])
        options)
      created_magic_auth

unfoldable pub create_password_reset : Value → Endpoint
create_password_reset options =
    sending post ("user_management" ∷ "password_reset" ∷ [])
      (fields_of (("email", "email") ∷ []) options) deserialize_password_reset

unfoldable pub reset_password : Value → Endpoint
unfolding the_user
reset_password payload =
    sending post ("user_management" ∷ "password_reset" ∷ "confirm" ∷ [])
      (fields_of (("token", "token") ∷ ("new_password", "newPassword") ∷ []) payload) the_user

unfoldable pub send_radar_sms_challenge : Value → Endpoint
send_radar_sms_challenge payload =
    sending post ("user_management" ∷ "radar_challenges" ∷ [])
      (fields_of
        (("user_id", "userId")
          ∷ ("pending_authentication_token", "pendingAuthenticationToken")
          ∷ ("phone_number", "phoneNumber")
          ∷ ("ip_address", "ipAddress")
          ∷ ("user_agent", "userAgent")
          ∷ [])
        payload)
      (read_table (("verificationId", "verification_id") ∷ ("phoneNumber", "phone_number") ∷ []))
