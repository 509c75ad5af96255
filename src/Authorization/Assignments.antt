-- ===== src/Authorization/Assignments.antt =====
-- The assignments of roles, to memberships and to groups, and the lists of who may do what, of
-- src/authorization/authorization.ts.
use workos_node.Prelude.{String, false, none, List, [], ◌∷◌, Result}
use workos_node.Js.{Value, bool, obj, field, end, prop, coalesce}
use workos_node.Session.{Thrown}
use workos_node.Authorization.{
  Endpoint, Listing, post, put, delete_with_body, of_present, no_result, getting, sending, deleting,
  deserialize_list, listing,
}
use workos_node.Authorization.Serializers.{
  from_field, serialize_role_assignment, serialize_list_memberships,
  serialize_list_membership_resources, serialize_list_resource_assignments,
  serialize_list_assignments, serialize_pagination,
}
use workos_node.Authorization.Answers.{
  deserialize_permission, deserialize_authorization_resource, deserialize_group_role_assignment,
  deserialize_role_assignment,
}

-- `deserializeAuthorizationOrganizationMembership`
unfoldable pub deserialize_membership : Value → Result Thrown Value
deserialize_membership m = of_present m (
    obj (
      from_field "object" "object" m (
        from_field "id" "id" m (
          from_field "userId" "user_id" m (
            from_field "organizationId" "organization_id" m (
              from_field "status" "status" m (
                field "directoryManaged" (coalesce (prop m "directory_managed") (bool false)) (
                  from_field "createdAt" "created_at" m (
                    from_field "updatedAt" "updated_at" m (
                      field "customAttributes" (coalesce (prop m "custom_attributes") (obj end))
                        end))))))))))

abbrev membership : String → List String → List String
membership organization_membership_id rest =
    "authorization" ∷ "organization_memberships" ∷ organization_membership_id ∷ rest

abbrev external : String → String → String → List String → List String
external organization_id resource_type_slug external_id rest =
    "authorization" ∷ "organizations" ∷ organization_id ∷ "resources" ∷ resource_type_slug
    ∷ external_id ∷ rest

unfoldable pub list_role_assignments : String → Value → Listing
unfolding listing
list_role_assignments organization_membership_id options =
    listing (membership organization_membership_id ("role_assignments" ∷ []))
      deserialize_role_assignment (serialize_list_assignments options)

unfoldable pub list_role_assignments_for_resource : String → Value → Listing
unfolding listing
list_role_assignments_for_resource resource_id options =
    listing ("authorization" ∷ "resources" ∷ resource_id ∷ "role_assignments" ∷ [])
      deserialize_role_assignment (serialize_list_resource_assignments options)

unfoldable pub list_resource_role_assignments : String → String → String → Value → Listing
unfolding listing
list_resource_role_assignments organization_id resource_type_slug external_id options =
    listing (external organization_id resource_type_slug external_id ("role_assignments" ∷ []))
      deserialize_role_assignment (serialize_list_resource_assignments options)

unfoldable pub assign_role : String → Value → Endpoint
assign_role organization_membership_id options =
    sending post (membership organization_membership_id ("role_assignments" ∷ []))
      (serialize_role_assignment options) deserialize_role_assignment

unfoldable pub remove_role : String → Value → Endpoint
remove_role organization_membership_id options =
    sending delete_with_body (membership organization_membership_id ("role_assignments" ∷ []))
      (serialize_role_assignment options) no_result

unfoldable pub remove_role_assignment : String → String → Endpoint
remove_role_assignment organization_membership_id role_assignment_id =
    deleting (membership organization_membership_id ("role_assignments" ∷ role_assignment_id ∷ []))
      none

abbrev group : String → List String → List String
group group_id rest = "authorization" ∷ "groups" ∷ group_id ∷ "role_assignments" ∷ rest

-- The pagination options are given on as they are.
unfoldable pub list_group_role_assignments : String → Value → Listing
unfolding listing
list_group_role_assignments group_id = listing (group group_id []) deserialize_group_role_assignment

unfoldable pub get_group_role_assignment : String → String → Endpoint
get_group_role_assignment group_id role_assignment_id =
    getting (group group_id (role_assignment_id ∷ [])) deserialize_group_role_assignment

unfoldable pub create_group_role_assignment : String → Value → Endpoint
create_group_role_assignment group_id options =
    sending post (group group_id []) (serialize_role_assignment options)
      deserialize_group_role_assignment

unfoldable pub remove_group_role_assignment : String → String → Endpoint
remove_group_role_assignment group_id role_assignment_id =
    deleting (group group_id (role_assignment_id ∷ [])) none

unfoldable pub remove_group_role_assignments : String → Value → Endpoint
remove_group_role_assignments group_id options =
    sending delete_with_body (group group_id []) (serialize_role_assignment options) no_result

-- `body` is what `serialize_replace_group_role_assignments` makes of the options.
unfoldable pub replace_group_role_assignments : String → Value → Endpoint
unfolding deserialize_list
replace_group_role_assignments group_id body =
    sending put (group group_id []) body (deserialize_list deserialize_group_role_assignment)

unfoldable pub list_resources_for_membership : String → Value → Listing
unfolding listing
list_resources_for_membership organization_membership_id options =
    listing (membership organization_membership_id ("resources" ∷ []))
      deserialize_authorization_resource (serialize_list_membership_resources options)

unfoldable pub list_memberships_for_resource : String → Value → Listing
unfolding listing
list_memberships_for_resource resource_id options =
    listing ("authorization" ∷ "resources" ∷ resource_id ∷ "organization_memberships" ∷ [])
      deserialize_membership (serialize_list_memberships options)

unfoldable pub list_memberships_for_resource_by_external_id :
    String → String → String → Value → Listing
unfolding listing
list_memberships_for_resource_by_external_id organization_id resource_type_slug external_id
      options =
    listing
      (external organization_id resource_type_slug external_id ("organization_memberships" ∷ []))
      deserialize_membership (serialize_list_memberships options)

unfoldable pub list_effective_permissions : String → String → Value → Listing
unfolding listing
list_effective_permissions organization_membership_id resource_id options =
    listing
      ("authorization" ∷ "resources" ∷ resource_id ∷ "organization_memberships"
        ∷ organization_membership_id ∷ "permissions" ∷ [])
      deserialize_permission (obj (serialize_pagination options))

unfoldable pub list_effective_permissions_by_external_id :
    String → String → String → Value → Listing
unfolding listing
list_effective_permissions_by_external_id organization_membership_id resource_type_slug external_id
      options =
    listing
      (membership organization_membership_id
        ("resources" ∷ resource_type_slug ∷ external_id ∷ "permissions" ∷ []))
      deserialize_permission (obj (serialize_pagination options))
