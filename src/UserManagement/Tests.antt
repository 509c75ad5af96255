-- ===== src/UserManagement/Tests.antt =====
-- A user id with a slash.
use workos_node.Prelude.{◌≡◌, refl}
use workos_node.Authorization.{joined_path}
use workos_node.UserManagement.Users.{get_user, get_user_by_external_id}
use workos_node.UserManagement.Invitations.{
  get_invitation, find_invitation_by_token, get_user_confused,
}

user_path : (get_user "user_1").path ≡ "/user_management/users/user_1"
unfolding get_user joined_path
user_path = refl

get_user_confused_example :
    (get_user "external_id/7" ≡ get_user_by_external_id "7")
    × (get_invitation "by_token/7" ≡ find_invitation_by_token "7")
get_user_confused_example = get_user_confused "7"
