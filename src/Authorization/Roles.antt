-- ===== src/Authorization/Roles.antt =====
-- The roles and the permissions of src/authorization/authorization.ts.
use workos_node.Prelude.{String, none, [], ◌∷◌}
use workos_node.Js.{Value, obj, field, end, prop}
use workos_node.Authorization.{
  Endpoint, Listing, post, put, patch, getting, sending, deleting, listed, listing,
}
use workos_node.Authorization.Serializers.{created_names, updated_names, fields_of}
use workos_node.Authorization.Answers.{
  deserialize_role, deserialize_organization_role, deserialize_permission,
}

-- `{ permissions: options.permissions }`
abbrev permissions_body : Value → Value
permissions_body options = obj (field "permissions" (prop options "permissions") end)

-- `{ slug: options.permissionSlug }`
abbrev permission_body : Value → Value
permission_body options = obj (field "slug" (prop options "permissionSlug") end)

unfoldable pub create_environment_role : Value → Endpoint
create_environment_role options =
    sending post ("authorization" ∷ "roles" ∷ []) (fields_of created_names options) deserialize_role

unfoldable pub list_environment_roles : Endpoint
unfolding listed
list_environment_roles = getting ("authorization" ∷ "roles" ∷ []) (listed deserialize_role)

unfoldable pub get_environment_role : String → Endpoint
get_environment_role slug = getting ("authorization" ∷ "roles" ∷ slug ∷ []) deserialize_role

unfoldable pub update_environment_role : String → Value → Endpoint
update_environment_role slug options =
    sending patch ("authorization" ∷ "roles" ∷ slug ∷ []) (fields_of updated_names options)
      deserialize_role

unfoldable pub set_environment_role_permissions : String → Value → Endpoint
set_environment_role_permissions slug options =
    sending put ("authorization" ∷ "roles" ∷ slug ∷ "permissions" ∷ []) (permissions_body options)
      deserialize_role

unfoldable pub add_environment_role_permission : String → Value → Endpoint
add_environment_role_permission slug options =
    sending post ("authorization" ∷ "roles" ∷ slug ∷ "permissions" ∷ []) (permission_body options)
      deserialize_role

unfoldable pub create_organization_role : String → Value → Endpoint
create_organization_role organization_id options =
    sending post ("authorization" ∷ "organizations" ∷ organization_id ∷ "roles" ∷ [])
      (fields_of created_names options) deserialize_organization_role

unfoldable pub list_organization_roles : String → Endpoint
unfolding listed
list_organization_roles organization_id =
    getting ("authorization" ∷ "organizations" ∷ organization_id ∷ "roles" ∷ [])
      (listed deserialize_role)

unfoldable pub get_organization_role : String → String → Endpoint
get_organization_role organization_id slug =
    getting ("authorization" ∷ "organizations" ∷ organization_id ∷ "roles" ∷ slug ∷ [])
      deserialize_role

unfoldable pub update_organization_role : String → String → Value → Endpoint
update_organization_role organization_id slug options =
    sending patch ("authorization" ∷ "organizations" ∷ organization_id ∷ "roles" ∷ slug ∷ [])
      (fields_of updated_names options) deserialize_organization_role

unfoldable pub delete_organization_role : String → String → Endpoint
delete_organization_role organization_id slug =
    deleting ("authorization" ∷ "organizations" ∷ organization_id ∷ "roles" ∷ slug ∷ []) none

unfoldable pub set_organization_role_permissions : String → String → Value → Endpoint
set_organization_role_permissions organization_id slug options =
    sending put
      ("authorization" ∷ "organizations" ∷ organization_id ∷ "roles" ∷ slug ∷ "permissions" ∷ [])
      (permissions_body options) deserialize_organization_role

unfoldable pub add_organization_role_permission : String → String → Value → Endpoint
add_organization_role_permission organization_id slug options =
    sending post
      ("authorization" ∷ "organizations" ∷ organization_id ∷ "roles" ∷ slug ∷ "permissions" ∷ [])
      (permission_body options) deserialize_organization_role

unfoldable pub remove_organization_role_permission : String → String → String → Endpoint
remove_organization_role_permission organization_id slug permission_slug =
    deleting
      ("authorization" ∷ "organizations" ∷ organization_id ∷ "roles" ∷ slug ∷ "permissions"
        ∷ permission_slug ∷ [])
      none

unfoldable pub create_permission : Value → Endpoint
create_permission options =
    sending post ("authorization" ∷ "permissions" ∷ []) (fields_of created_names options)
      deserialize_permission

-- The options are given on as they are.
unfoldable pub list_permissions : Value → Listing
unfolding listing
list_permissions = listing ("authorization" ∷ "permissions" ∷ []) deserialize_permission

unfoldable pub get_permission : String → Endpoint
get_permission slug = getting ("authorization" ∷ "permissions" ∷ slug ∷ []) deserialize_permission

unfoldable pub update_permission : String → Value → Endpoint
update_permission slug options =
    sending patch ("authorization" ∷ "permissions" ∷ slug ∷ []) (fields_of updated_names options)
      deserialize_permission

unfoldable pub delete_permission : String → Endpoint
delete_permission slug = deleting ("authorization" ∷ "permissions" ∷ slug ∷ []) none
