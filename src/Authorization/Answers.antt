-- ===== src/Authorization/Answers.antt =====
-- src/authorization/serializers: what is made of the answers.
use workos_node.Prelude.{[], ◌∷◌, Result, ok, ◌>>=◌}
use workos_node.Js.{Value, str, obj, field, end, prop}
use workos_node.Session.{Thrown}
use workos_node.Grants.{Names, serialize}
use workos_node.Authorization.{of_present}
use workos_node.Authorization.Serializers.{from_field}

-- The fields of a table, read from an object.
unfoldable pub read_table : Names → Value → Result Thrown Value
read_table names v = of_present v (obj (serialize names v))

abbrev role_names : Names
role_names =
    ("object", "object")
    ∷ ("id", "id")
    ∷ ("name", "name")
    ∷ ("slug", "slug")
    ∷ ("description", "description")
    ∷ ("permissions", "permissions")
    ∷ ("resourceTypeSlug", "resource_type_slug")
    ∷ ("type", "type")
    ∷ ("createdAt", "created_at")
    ∷ ("updatedAt", "updated_at")
    ∷ []

-- deserializeRole and deserializeEnvironmentRole
unfoldable pub deserialize_role : Value → Result Thrown Value
unfolding read_table
deserialize_role = read_table role_names

-- The type is a constant.
unfoldable pub deserialize_organization_role : Value → Result Thrown Value
deserialize_organization_role role = of_present role (
    obj (
      from_field "object" "object" role (
        from_field "id" "id" role (
          from_field "name" "name" role (
            from_field "slug" "slug" role (
              from_field "description" "description" role (
                from_field "permissions" "permissions" role (
                  from_field "resourceTypeSlug" "resource_type_slug" role (
                    field "type" (str "OrganizationRole") (
                      from_field "createdAt" "created_at" role
                        (from_field "updatedAt" "updated_at" role end)))))))))))

unfoldable pub deserialize_permission : Value → Result Thrown Value
unfolding read_table
deserialize_permission = read_table (
    ("object", "object")
    ∷ ("id", "id")
    ∷ ("slug", "slug")
    ∷ ("name", "name")
    ∷ ("description", "description")
    ∷ ("resourceTypeSlug", "resource_type_slug")
    ∷ ("system", "system")
    ∷ ("createdAt", "created_at")
    ∷ ("updatedAt", "updated_at")
    ∷ [])

unfoldable pub deserialize_authorization_resource : Value → Result Thrown Value
unfolding read_table
deserialize_authorization_resource = read_table (
    ("object", "object")
    ∷ ("id", "id")
    ∷ ("externalId", "external_id")
    ∷ ("name", "name")
    ∷ ("description", "description")
    ∷ ("resourceTypeSlug", "resource_type_slug")
    ∷ ("organizationId", "organization_id")
    ∷ ("parentResourceId", "parent_resource_id")
    ∷ ("createdAt", "created_at")
    ∷ ("updatedAt", "updated_at")
    ∷ [])

abbrev resource_names : Names
resource_names =
    ("id", "id") ∷ ("externalId", "external_id") ∷ ("resourceTypeSlug", "resource_type_slug") ∷ []

unfoldable pub deserialize_group_role_assignment : Value → Result Thrown Value
unfolding read_table
deserialize_group_role_assignment response = do
  checked ← of_present response response
  resource ← read_table resource_names (prop response "resource")
  ok (
      obj (
        from_field "object" "object" response (
          from_field "id" "id" response (
            from_field "groupId" "group_id" response (
              from_field "role" "role" response (
                field "resource" resource (
                  from_field "createdAt" "created_at" response
                    (from_field "updatedAt" "updated_at" response end))))))))

unfoldable pub deserialize_role_assignment : Value → Result Thrown Value
unfolding read_table
deserialize_role_assignment response = do
  checked ← of_present response response
  resource ← read_table resource_names (prop response "resource")
  source ←
      read_table (("type", "type") ∷ ("groupRoleAssignmentId", "group_role_assignment_id") ∷ [])
        (prop response "source")
  ok (
      obj (
        from_field "object" "object" response (
          from_field "id" "id" response (
            from_field "organizationMembershipId" "organization_membership_id" response (
              from_field "role" "role" response (
                field "resource" resource (
                  field "source" source (
                    from_field "createdAt" "created_at" response
                      (from_field "updatedAt" "updated_at" response end)))))))))
