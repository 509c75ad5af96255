-- ===== src/Authorization/Resources.antt =====
-- The resources of src/authorization/authorization.ts, and the check of a permission.
use workos_node.Prelude.{String, Bool, true, false, Option, none, some, List, [], ◌∷◌, ok}
use workos_node.Js.{Value, str}
use workos_node.Authorization.{Endpoint, Listing, post, patch, getting, sending, deleting, listing}
use workos_node.Authorization.Serializers.{
  serialize_create_resource, serialize_update_resource, serialize_list_resources,
  serialize_authorization_check,
}
use workos_node.Authorization.Answers.{deserialize_authorization_resource}

unfoldable pub get_resource : String → Endpoint
get_resource resource_id =
    getting ("authorization" ∷ "resources" ∷ resource_id ∷ []) deserialize_authorization_resource

unfoldable pub create_resource : Value → Endpoint
create_resource options =
    sending post ("authorization" ∷ "resources" ∷ []) (serialize_create_resource options)
      deserialize_authorization_resource

unfoldable pub update_resource : String → Value → Endpoint
update_resource resource_id options =
    sending patch ("authorization" ∷ "resources" ∷ resource_id ∷ [])
      (serialize_update_resource options) deserialize_authorization_resource

-- `cascadeDelete !== undefined ? { cascade_delete: cascadeDelete.toString() } : undefined`
abbrev pub cascade_query : Option Bool → Option (List (String × Value))
cascade_query none = none
cascade_query (some true) = some (("cascade_delete", str "true") ∷ [])
cascade_query (some false) = some (("cascade_delete", str "false") ∷ [])

unfoldable pub delete_resource : String → Option Bool → Endpoint
delete_resource resource_id cascade_delete =
    deleting ("authorization" ∷ "resources" ∷ resource_id ∷ []) (cascade_query cascade_delete)

unfoldable pub list_resources : Value → Listing
unfolding listing
list_resources options =
    listing ("authorization" ∷ "resources" ∷ []) deserialize_authorization_resource
      (serialize_list_resources options)

unfoldable pub get_resource_by_external_id : String → String → String → Endpoint
get_resource_by_external_id organization_id resource_type_slug external_id =
    getting
      ("authorization" ∷ "organizations" ∷ organization_id ∷ "resources" ∷ resource_type_slug
        ∷ external_id ∷ [])
      deserialize_authorization_resource

unfoldable pub update_resource_by_external_id : String → String → String → Value → Endpoint
update_resource_by_external_id organization_id resource_type_slug external_id options =
    sending patch
      ("authorization" ∷ "organizations" ∷ organization_id ∷ "resources" ∷ resource_type_slug
        ∷ external_id ∷ [])
      (serialize_update_resource options) deserialize_authorization_resource

unfoldable pub delete_resource_by_external_id : String → String → String → Option Bool → Endpoint
delete_resource_by_external_id organization_id resource_type_slug external_id cascade_delete =
    deleting
      ("authorization" ∷ "organizations" ∷ organization_id ∷ "resources" ∷ resource_type_slug
        ∷ external_id ∷ [])
      (cascade_query cascade_delete)

-- The answer is returned as it is.
unfoldable pub check : String → Value → Endpoint
check organization_membership_id options =
    sending post
      ("authorization" ∷ "organization_memberships" ∷ organization_membership_id ∷ "check" ∷ [])
      (serialize_authorization_check options) ok
