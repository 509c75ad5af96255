-- ===== src/Authorization/Methods.antt =====
-- The methods of src/authorization/authorization.ts as requests, and what each one asks for.
use workos_node.Prelude.{String, Bool, Option, List, [], ◌∷◌}
use workos_node.Js.{Value}
use workos_node.Authorization.{Verb, delete, delete_with_body, Endpoint}
use workos_node.Authorization.Roles
use workos_node.Authorization.Resources
use workos_node.Authorization.Assignments

-- A method, with the ids that stand in its path.
pub data Method : Type 0 where
  environment_role_create : Method
  environment_roles_list : Method
  environment_role_get : String → Method
  environment_role_update : String → Method
  environment_role_permissions_set : String → Method
  environment_role_permission_add : String → Method
  organization_role_create : String → Method
  organization_roles_list : String → Method
  organization_role_get : String → String → Method
  organization_role_update : String → String → Method
  organization_role_delete : String → String → Method
  organization_role_permissions_set : String → String → Method
  organization_role_permission_add : String → String → Method
  organization_role_permission_remove : String → String → String → Method
  permission_create : Method
  permissions_list : Method
  permission_get : String → Method
  permission_update : String → Method
  permission_delete : String → Method
  resource_get : String → Method
  resource_create : Method
  resource_update : String → Method
  resource_delete : String → Method
  resources_list : Method
  external_resource_get : String → String → String → Method
  external_resource_update : String → String → String → Method
  external_resource_delete : String → String → String → Method
  membership_check : String → Method
  role_assignments_list : String → Method
  role_assign : String → Method
  role_remove : String → Method
  role_assignment_remove : String → String → Method
  resource_role_assignments_list : String → Method
  external_role_assignments_list : String → String → String → Method
  group_role_assignments_list : String → Method
  group_role_assignment_get : String → String → Method
  group_role_assignment_create : String → Method
  group_role_assignment_remove : String → String → Method
  group_role_assignments_remove : String → Method
  group_role_assignments_replace : String → Method
  membership_resources_list : String → Method
  resource_memberships_list : String → Method
  external_memberships_list : String → String → String → Method
  effective_permissions_list : String → String → Method
  external_effective_permissions_list : String → String → String → Method

-- The request of a method with its options; of a list, that of the first page.
unfoldable pub endpoint_of : Value → Option Bool → Method → Endpoint
endpoint_of options cascade environment_role_create = Roles.create_environment_role options
endpoint_of options cascade environment_roles_list = Roles.list_environment_roles
endpoint_of options cascade (environment_role_get s) = Roles.get_environment_role s
endpoint_of options cascade (environment_role_update s) = Roles.update_environment_role s options
endpoint_of options cascade (environment_role_permissions_set s) =
    Roles.set_environment_role_permissions s options
endpoint_of options cascade (environment_role_permission_add s) =
    Roles.add_environment_role_permission s options
endpoint_of options cascade (organization_role_create o) = Roles.create_organization_role o options
endpoint_of options cascade (organization_roles_list o) = Roles.list_organization_roles o
endpoint_of options cascade (organization_role_get o s) = Roles.get_organization_role o s
endpoint_of options cascade (organization_role_update o s) =
    Roles.update_organization_role o s options
endpoint_of options cascade (organization_role_delete o s) = Roles.delete_organization_role o s
endpoint_of options cascade (organization_role_permissions_set o s) =
    Roles.set_organization_role_permissions o s options
endpoint_of options cascade (organization_role_permission_add o s) =
    Roles.add_organization_role_permission o s options
endpoint_of options cascade (organization_role_permission_remove o s p) =
    Roles.remove_organization_role_permission o s p
endpoint_of options cascade permission_create = Roles.create_permission options
endpoint_of options cascade permissions_list = (Roles.list_permissions options).first
endpoint_of options cascade (permission_get s) = Roles.get_permission s
endpoint_of options cascade (permission_update s) = Roles.update_permission s options
endpoint_of options cascade (permission_delete s) = Roles.delete_permission s
endpoint_of options cascade (resource_get r) = Resources.get_resource r
endpoint_of options cascade resource_create = Resources.create_resource options
endpoint_of options cascade (resource_update r) = Resources.update_resource r options
endpoint_of options cascade (resource_delete r) = Resources.delete_resource r cascade
endpoint_of options cascade resources_list = (Resources.list_resources options).first
endpoint_of options cascade (external_resource_get o t x) =
    Resources.get_resource_by_external_id o t x
endpoint_of options cascade (external_resource_update o t x) =
    Resources.update_resource_by_external_id o t x options
endpoint_of options cascade (external_resource_delete o t x) =
    Resources.delete_resource_by_external_id o t x cascade
endpoint_of options cascade (membership_check m) = Resources.check m options
endpoint_of options cascade (role_assignments_list m) =
    (Assignments.list_role_assignments m options).first
endpoint_of options cascade (role_assign m) = Assignments.assign_role m options
endpoint_of options cascade (role_remove m) = Assignments.remove_role m options
endpoint_of options cascade (role_assignment_remove m a) = Assignments.remove_role_assignment m a
endpoint_of options cascade (resource_role_assignments_list r) =
    (Assignments.list_role_assignments_for_resource r options).first
endpoint_of options cascade (external_role_assignments_list o t x) =
    (Assignments.list_resource_role_assignments o t x options).first
endpoint_of options cascade (group_role_assignments_list g) =
    (Assignments.list_group_role_assignments g options).first
endpoint_of options cascade (group_role_assignment_get g a) =
    Assignments.get_group_role_assignment g a
endpoint_of options cascade (group_role_assignment_create g) =
    Assignments.create_group_role_assignment g options
endpoint_of options cascade (group_role_assignment_remove g a) =
    Assignments.remove_group_role_assignment g a
endpoint_of options cascade (group_role_assignments_remove g) =
    Assignments.remove_group_role_assignments g options
endpoint_of options cascade (group_role_assignments_replace g) =
    Assignments.replace_group_role_assignments g options
endpoint_of options cascade (membership_resources_list m) =
    (Assignments.list_resources_for_membership m options).first
endpoint_of options cascade (resource_memberships_list r) =
    (Assignments.list_memberships_for_resource r options).first
endpoint_of options cascade (external_memberships_list o t x) =
    (Assignments.list_memberships_for_resource_by_external_id o t x options).first
endpoint_of options cascade (effective_permissions_list m r) =
    (Assignments.list_effective_permissions m r options).first
endpoint_of options cascade (external_effective_permissions_list m t x) =
    (Assignments.list_effective_permissions_by_external_id m t x options).first

-- The method of HTTP.
unfoldable pub http_verb : Verb → Verb
http_verb delete_with_body = delete
http_verb verb = verb

-- The path of a method in the API, segment by segment.
unfoldable pub segments_of : Method → List String
segments_of environment_role_create = "authorization" ∷ "roles" ∷ []
segments_of environment_roles_list = "authorization" ∷ "roles" ∷ []
segments_of (environment_role_get s) = "authorization" ∷ "roles" ∷ s ∷ []
segments_of (environment_role_update s) = "authorization" ∷ "roles" ∷ s ∷ []
segments_of (environment_role_permissions_set s) =
    "authorization" ∷ "roles" ∷ s ∷ "permissions" ∷ []
segments_of (environment_role_permission_add s) = "authorization" ∷ "roles" ∷ s ∷ "permissions" ∷ []
segments_of (organization_role_create o) = "authorization" ∷ "organizations" ∷ o ∷ "roles" ∷ []
segments_of (organization_roles_list o) = "authorization" ∷ "organizations" ∷ o ∷ "roles" ∷ []
segments_of (organization_role_get o s) = "authorization" ∷ "organizations" ∷ o ∷ "roles" ∷ s ∷ []
segments_of (organization_role_update o s) =
    "authorization" ∷ "organizations" ∷ o ∷ "roles" ∷ s ∷ []
segments_of (organization_role_delete o s) =
    "authorization" ∷ "organizations" ∷ o ∷ "roles" ∷ s ∷ []
segments_of (organization_role_permissions_set o s) =
    "authorization" ∷ "organizations" ∷ o ∷ "roles" ∷ s ∷ "permissions" ∷ []
segments_of (organization_role_permission_add o s) =
    "authorization" ∷ "organizations" ∷ o ∷ "roles" ∷ s ∷ "permissions" ∷ []
segments_of (organization_role_permission_remove o s p) =
    "authorization" ∷ "organizations" ∷ o ∷ "roles" ∷ s ∷ "permissions" ∷ p ∷ []
segments_of permission_create = "authorization" ∷ "permissions" ∷ []
segments_of permissions_list = "authorization" ∷ "permissions" ∷ []
segments_of (permission_get s) = "authorization" ∷ "permissions" ∷ s ∷ []
segments_of (permission_update s) = "authorization" ∷ "permissions" ∷ s ∷ []
segments_of (permission_delete s) = "authorization" ∷ "permissions" ∷ s ∷ []
segments_of (resource_get r) = "authorization" ∷ "resources" ∷ r ∷ []
segments_of resource_create = "authorization" ∷ "resources" ∷ []
segments_of (resource_update r) = "authorization" ∷ "resources" ∷ r ∷ []
segments_of (resource_delete r) = "authorization" ∷ "resources" ∷ r ∷ []
segments_of resources_list = "authorization" ∷ "resources" ∷ []
segments_of (external_resource_get o t x) =
    "authorization" ∷ "organizations" ∷ o ∷ "resources" ∷ t ∷ x ∷ []
segments_of (external_resource_update o t x) =
    "authorization" ∷ "organizations" ∷ o ∷ "resources" ∷ t ∷ x ∷ []
segments_of (external_resource_delete o t x) =
    "authorization" ∷ "organizations" ∷ o ∷ "resources" ∷ t ∷ x ∷ []
segments_of (membership_check m) = "authorization" ∷ "organization_memberships" ∷ m ∷ "check" ∷ []
segments_of (role_assignments_list m) =
    "authorization" ∷ "organization_memberships" ∷ m ∷ "role_assignments" ∷ []
segments_of (role_assign m) =
    "authorization" ∷ "organization_memberships" ∷ m ∷ "role_assignments" ∷ []
segments_of (role_remove m) =
    "authorization" ∷ "organization_memberships" ∷ m ∷ "role_assignments" ∷ []
segments_of (role_assignment_remove m a) =
    "authorization" ∷ "organization_memberships" ∷ m ∷ "role_assignments" ∷ a ∷ []
segments_of (resource_role_assignments_list r) =
    "authorization" ∷ "resources" ∷ r ∷ "role_assignments" ∷ []
segments_of (external_role_assignments_list o t x) =
    "authorization" ∷ "organizations" ∷ o ∷ "resources" ∷ t ∷ x ∷ "role_assignments" ∷ []
segments_of (group_role_assignments_list g) =
    "authorization" ∷ "groups" ∷ g ∷ "role_assignments" ∷ []
segments_of (group_role_assignment_get g a) =
    "authorization" ∷ "groups" ∷ g ∷ "role_assignments" ∷ a ∷ []
segments_of (group_role_assignment_create g) =
    "authorization" ∷ "groups" ∷ g ∷ "role_assignments" ∷ []
segments_of (group_role_assignment_remove g a) =
    "authorization" ∷ "groups" ∷ g ∷ "role_assignments" ∷ a ∷ []
segments_of (group_role_assignments_remove g) =
    "authorization" ∷ "groups" ∷ g ∷ "role_assignments" ∷ []
segments_of (group_role_assignments_replace g) =
    "authorization" ∷ "groups" ∷ g ∷ "role_assignments" ∷ []
segments_of (membership_resources_list m) =
    "authorization" ∷ "organization_memberships" ∷ m ∷ "resources" ∷ []
segments_of (resource_memberships_list r) =
    "authorization" ∷ "resources" ∷ r ∷ "organization_memberships" ∷ []
segments_of (external_memberships_list o t x) =
    "authorization" ∷ "organizations" ∷ o ∷ "resources" ∷ t ∷ x ∷ "organization_memberships" ∷ []
segments_of (effective_permissions_list m r) =
    "authorization" ∷ "resources" ∷ r ∷ "organization_memberships" ∷ m ∷ "permissions" ∷ []
segments_of (external_effective_permissions_list m t x) =
    "authorization" ∷ "organization_memberships" ∷ m ∷ "resources" ∷ t ∷ x ∷ "permissions" ∷ []
