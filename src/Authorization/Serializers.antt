-- ===== src/Authorization/Serializers.antt =====
-- src/authorization/serializers: the bodies and the queries.
use workos_node.Prelude.{
  String, Bool, false, ◌||◌, [], ◌∷◌, if◌then◌else◌, str_eq, Result, ok, ◌>>=◌,
}
use workos_node.Js.{Value, obj, Fields, field, end, prop, truthy, is_undefined}
use workos_node.Session.{Thrown}
use workos_node.Grants.{Names, serialize}
use workos_node.Authorization.{map_array}

unfoldable pub is_own : Fields → String → Bool
is_own end name = false
is_own (field key v rest) name = str_eq key name || is_own rest name

-- `name in options`
unfoldable pub is_in : String → Value → Bool
unfolding is_own
is_in name (obj fields) = is_own fields name
is_in name v = false

-- `...(test && { … })`, where the fields stand before those that follow.
abbrev pub when : Bool → (Fields → Fields) → Fields → Fields
when test fields rest = if test then fields rest else rest

abbrev pub from_field : String → String → Value → Fields → Fields
from_field wire name options rest = field wire (prop options name) rest

abbrev pub if_given : String → String → Value → Fields → Fields
if_given wire name options rest =
    if truthy (prop options name) then field wire (prop options name) rest else rest

abbrev pub if_defined : String → Value → Fields → Fields
if_defined name options rest =
    if is_undefined (prop options name) then rest else field name (prop options name) rest

-- The resource of an assignment or of a check: by its id, or by its external id and type.
unfoldable pub with_resource : Value → Fields → Fields
unfolding is_in
with_resource options rest =
    when (is_in "resourceId" options) (from_field "resource_id" "resourceId" options) (
      when (is_in "resourceExternalId" options)
        (λ fields.
          from_field "resource_external_id" "resourceExternalId" options
            (from_field "resource_type_slug" "resourceTypeSlug" options fields))
        rest)

-- serializeAssignRoleOptions, serializeRemoveRoleOptions, and those of the groups' assignments.
unfoldable pub serialize_role_assignment : Value → Value
unfolding with_resource
serialize_role_assignment options =
    obj (from_field "role_slug" "roleSlug" options (with_resource options end))

unfoldable pub serialize_authorization_check : Value → Value
unfolding with_resource
serialize_authorization_check options =
    obj (from_field "permission_slug" "permissionSlug" options (with_resource options end))

unfoldable pub serialize_replace_group_role_assignments : Value → Result Thrown Value
unfolding serialize_role_assignment
serialize_replace_group_role_assignments options = do
  items ← map_array (λ entry. ok (serialize_role_assignment entry)) (prop options "roleAssignments")
  ok (obj (field "role_assignments" items end))

unfoldable pub serialize_create_resource : Value → Value
unfolding is_in
serialize_create_resource options = obj (
    from_field "organization_id" "organizationId" options (
      from_field "resource_type_slug" "resourceTypeSlug" options (
        from_field "external_id" "externalId" options (
          from_field "name" "name" options (
            if_defined "description" options (
              when (is_in "parentResourceId" options)
                (from_field "parent_resource_id" "parentResourceId" options)
                (when (is_in "parentResourceExternalId" options)
                  (λ fields.
                    from_field "parent_resource_external_id" "parentResourceExternalId" options (
                      from_field "parent_resource_type_slug" "parentResourceTypeSlug" options
                        fields))
                  end)))))))

-- serializeUpdateResourceOptions, by either id.
abbrev pub serialize_update_resource : Value → Value
serialize_update_resource options =
    obj (if_defined "name" options (if_defined "description" options end))

-- A new role or permission.
abbrev pub created_names : Names
created_names =
    ("slug", "slug")
    ∷ ("name", "name")
    ∷ ("description", "description")
    ∷ ("resource_type_slug", "resourceTypeSlug")
    ∷ []

abbrev pub updated_names : Names
updated_names = ("name", "name") ∷ ("description", "description") ∷ []

abbrev pub fields_of : Names → Value → Value
fields_of names options = obj (serialize names options)

-- `serializePaginationOptions`
unfoldable pub serialize_pagination : Value → Fields
serialize_pagination options = if_defined "limit" options (
    if_given "after" "after" options
      (if_given "before" "before" options (if_given "order" "order" options end)))

unfoldable pub serialize_list_resources : Value → Value
unfolding serialize_pagination
serialize_list_resources options = obj (
    if_given "organization_id" "organizationId" options (
      if_given "resource_type_slug" "resourceTypeSlug" options (
        if_given "parent_resource_id" "parentResourceId" options (
          if_given "parent_resource_type_slug" "parentResourceTypeSlug" options (
            if_given "parent_external_id" "parentExternalId" options
              (serialize_pagination options))))))

unfoldable pub serialize_list_memberships : Value → Value
unfolding serialize_pagination
serialize_list_memberships options = obj (
    from_field "permission_slug" "permissionSlug" options
      (if_given "assignment" "assignment" options (serialize_pagination options)))

unfoldable pub parent_fields : Value → Fields
unfolding is_in
parent_fields options =
    when (is_in "parentResourceId" options)
      (from_field "parent_resource_id" "parentResourceId" options)
      (when (is_in "parentResourceExternalId" options)
        (λ fields.
          from_field "parent_resource_type_slug" "parentResourceTypeSlug" options
            (from_field "parent_resource_external_id" "parentResourceExternalId" options fields))
        end)

-- The pagination stands before the parent.
unfoldable pub serialize_list_membership_resources : Value → Value
unfolding parent_fields
serialize_list_membership_resources options = obj (
    from_field "permission_slug" "permissionSlug" options (
      if_defined "limit" options (
        if_given "after" "after" options (
          if_given "before" "before" options
            (if_given "order" "order" options (parent_fields options))))))

unfoldable pub serialize_list_resource_assignments : Value → Value
unfolding serialize_pagination
serialize_list_resource_assignments options =
    obj (if_given "role_slug" "roleSlug" options (serialize_pagination options))

unfoldable pub serialize_list_assignments : Value → Value
unfolding serialize_pagination
serialize_list_assignments options = obj (
    if_given "resource_id" "resourceId" options (
      if_given "resource_external_id" "resourceExternalId" options
        (if_given "resource_type_slug" "resourceTypeSlug" options (serialize_pagination options))))
