-- ===== src/Authorization/Laws.antt =====
-- What the requests of the methods ask for, by their verbs and the paths of their URLs.
use Prim.Native.String
use text.Mathlib.TextLemmas.{append_assoc}
use workos_node.Prelude.{ℕ, String, ◌≡◌, refl, Bool, Option, some, ◌∷◌, All}
use workos_node.Js.{Value}
use workos_node.Authorization.{joined_path, fetch_and_deserialize, listing}
use workos_node.Authorization.Roles.{
  create_environment_role, list_environment_roles, get_environment_role, update_environment_role,
  set_environment_role_permissions, add_environment_role_permission, create_organization_role,
  list_organization_roles, get_organization_role, update_organization_role,
  delete_organization_role, set_organization_role_permissions, add_organization_role_permission,
  remove_organization_role_permission, create_permission, list_permissions, get_permission,
  update_permission, delete_permission,
}
use workos_node.Authorization.Resources.{
  get_resource, create_resource, update_resource, delete_resource, list_resources,
  get_resource_by_external_id, update_resource_by_external_id, delete_resource_by_external_id,
  check,
}
use workos_node.Authorization.Assignments.{
  list_role_assignments, assign_role, remove_role, remove_role_assignment,
  list_role_assignments_for_resource, list_resource_role_assignments, list_group_role_assignments,
  get_group_role_assignment, create_group_role_assignment, remove_group_role_assignment,
  remove_group_role_assignments, replace_group_role_assignments, list_resources_for_membership,
  list_memberships_for_resource, list_memberships_for_resource_by_external_id,
  list_effective_permissions, list_effective_permissions_by_external_id,
}
use workos_node.Authorization.Methods.{
  Method, environment_role_create, environment_roles_list, environment_role_get,
  environment_role_update, environment_role_permissions_set, environment_role_permission_add,
  organization_role_create, organization_roles_list, organization_role_get,
  organization_role_update, organization_role_delete, organization_role_permissions_set,
  organization_role_permission_add, organization_role_permission_remove, permission_create,
  permissions_list, permission_get, permission_update, permission_delete, resource_get,
  resource_create, resource_update, resource_delete, resources_list, external_resource_get,
  external_resource_update, external_resource_delete, membership_check, role_assignments_list,
  role_assign, role_remove, role_assignment_remove, resource_role_assignments_list,
  external_role_assignments_list, group_role_assignments_list, group_role_assignment_get,
  group_role_assignment_create, group_role_assignment_remove, group_role_assignments_remove,
  group_role_assignments_replace, membership_resources_list, resource_memberships_list,
  external_memberships_list, effective_permissions_list, external_effective_permissions_list,
  endpoint_of, http_verb, segments_of,
}
use workos_node.Authorization.Routes.{recognise, route, search_table, same_verb, pieces}
use workos_node.Authorization.Urls.{
  IsSegment, IsUrlStandard, pieces-joined_path, path_of-get_resource_url,
}
use workos_node.Http.{Options}
use workos_node.Http.Verbs.{Platform, get_resource_url}

-- The methods, as they run.
called : Unit {0}
unfolding endpoint_of segments_of joined_path recognise route search_table same_verb http_verb
    add_environment_role_permission add_organization_role_permission assign_role check
    create_environment_role create_group_role_assignment create_organization_role create_permission
    create_resource delete_organization_role delete_permission delete_resource
    delete_resource_by_external_id get_environment_role get_group_role_assignment
    get_organization_role get_permission get_resource get_resource_by_external_id
    list_effective_permissions list_effective_permissions_by_external_id list_environment_roles
    list_group_role_assignments list_memberships_for_resource
    list_memberships_for_resource_by_external_id list_organization_roles list_permissions
    list_resource_role_assignments list_resources list_resources_for_membership
    list_role_assignments list_role_assignments_for_resource remove_group_role_assignment
    remove_group_role_assignments remove_organization_role_permission remove_role
    remove_role_assignment replace_group_role_assignments set_environment_role_permissions
    set_organization_role_permissions update_environment_role update_organization_role
    update_permission update_resource update_resource_by_external_id fetch_and_deserialize listing
called = tt

joined_path-segments_of :
    (options : Value) (cascade : Option Bool) (m : Method)
    → (endpoint_of options cascade m).path ≡ joined_path (segments_of m)
unfolding called
joined_path-segments_of options cascade environment_role_create = refl
joined_path-segments_of options cascade environment_roles_list = refl
joined_path-segments_of options cascade (environment_role_get s) = refl
joined_path-segments_of options cascade (environment_role_update s) = refl
joined_path-segments_of options cascade (environment_role_permissions_set s) = refl
joined_path-segments_of options cascade (environment_role_permission_add s) = refl
joined_path-segments_of options cascade (organization_role_create o) = refl
joined_path-segments_of options cascade (organization_roles_list o) = refl
joined_path-segments_of options cascade (organization_role_get o s) = refl
joined_path-segments_of options cascade (organization_role_update o s) = refl
joined_path-segments_of options cascade (organization_role_delete o s) = refl
joined_path-segments_of options cascade (organization_role_permissions_set o s) = refl
joined_path-segments_of options cascade (organization_role_permission_add o s) = refl
joined_path-segments_of options cascade (organization_role_permission_remove o s p) = refl
joined_path-segments_of options cascade permission_create = refl
joined_path-segments_of options cascade permissions_list = refl
joined_path-segments_of options cascade (permission_get s) = refl
joined_path-segments_of options cascade (permission_update s) = refl
joined_path-segments_of options cascade (permission_delete s) = refl
joined_path-segments_of options cascade (resource_get r) = refl
joined_path-segments_of options cascade resource_create = refl
joined_path-segments_of options cascade (resource_update r) = refl
joined_path-segments_of options cascade (resource_delete r) = refl
joined_path-segments_of options cascade resources_list = refl
joined_path-segments_of options cascade (external_resource_get o t x) = refl
joined_path-segments_of options cascade (external_resource_update o t x) = refl
joined_path-segments_of options cascade (external_resource_delete o t x) = refl
joined_path-segments_of options cascade (membership_check m) = refl
joined_path-segments_of options cascade (role_assignments_list m) = refl
joined_path-segments_of options cascade (role_assign m) = refl
joined_path-segments_of options cascade (role_remove m) = refl
joined_path-segments_of options cascade (role_assignment_remove m a) = refl
joined_path-segments_of options cascade (resource_role_assignments_list r) = refl
joined_path-segments_of options cascade (external_role_assignments_list o t x) = refl
joined_path-segments_of options cascade (group_role_assignments_list g) = refl
joined_path-segments_of options cascade (group_role_assignment_get g a) = refl
joined_path-segments_of options cascade (group_role_assignment_create g) = refl
joined_path-segments_of options cascade (group_role_assignment_remove g a) = refl
joined_path-segments_of options cascade (group_role_assignments_remove g) = refl
joined_path-segments_of options cascade (group_role_assignments_replace g) = refl
joined_path-segments_of options cascade (membership_resources_list m) = refl
joined_path-segments_of options cascade (resource_memberships_list r) = refl
joined_path-segments_of options cascade (external_memberships_list o t x) = refl
joined_path-segments_of options cascade (effective_permissions_list m r) = refl
joined_path-segments_of options cascade (external_effective_permissions_list m t x) = refl

recognise-segments_of :
    (options : Value) (cascade : Option Bool) (m : Method)
    → recognise (http_verb (endpoint_of options cascade m).verb) ("" ∷ segments_of m) ≡ some m
unfolding called
recognise-segments_of options cascade environment_role_create = refl
recognise-segments_of options cascade environment_roles_list = refl
recognise-segments_of options cascade (environment_role_get s) = refl
recognise-segments_of options cascade (environment_role_update s) = refl
recognise-segments_of options cascade (environment_role_permissions_set s) = refl
recognise-segments_of options cascade (environment_role_permission_add s) = refl
recognise-segments_of options cascade (organization_role_create o) = refl
recognise-segments_of options cascade (organization_roles_list o) = refl
recognise-segments_of options cascade (organization_role_get o s) = refl
recognise-segments_of options cascade (organization_role_update o s) = refl
recognise-segments_of options cascade (organization_role_delete o s) = refl
recognise-segments_of options cascade (organization_role_permissions_set o s) = refl
recognise-segments_of options cascade (organization_role_permission_add o s) = refl
recognise-segments_of options cascade (organization_role_permission_remove o s p) = refl
recognise-segments_of options cascade permission_create = refl
recognise-segments_of options cascade permissions_list = refl
recognise-segments_of options cascade (permission_get s) = refl
recognise-segments_of options cascade (permission_update s) = refl
recognise-segments_of options cascade (permission_delete s) = refl
recognise-segments_of options cascade (resource_get r) = refl
recognise-segments_of options cascade resource_create = refl
recognise-segments_of options cascade (resource_update r) = refl
recognise-segments_of options cascade (resource_delete r) = refl
recognise-segments_of options cascade resources_list = refl
recognise-segments_of options cascade (external_resource_get o t x) = refl
recognise-segments_of options cascade (external_resource_update o t x) = refl
recognise-segments_of options cascade (external_resource_delete o t x) = refl
recognise-segments_of options cascade (membership_check m) = refl
recognise-segments_of options cascade (role_assignments_list m) = refl
recognise-segments_of options cascade (role_assign m) = refl
recognise-segments_of options cascade (role_remove m) = refl
recognise-segments_of options cascade (role_assignment_remove m a) = refl
recognise-segments_of options cascade (resource_role_assignments_list r) = refl
recognise-segments_of options cascade (external_role_assignments_list o t x) = refl
recognise-segments_of options cascade (group_role_assignments_list g) = refl
recognise-segments_of options cascade (group_role_assignment_get g a) = refl
recognise-segments_of options cascade (group_role_assignment_create g) = refl
recognise-segments_of options cascade (group_role_assignment_remove g a) = refl
recognise-segments_of options cascade (group_role_assignments_remove g) = refl
recognise-segments_of options cascade (group_role_assignments_replace g) = refl
recognise-segments_of options cascade (membership_resources_list m) = refl
recognise-segments_of options cascade (resource_memberships_list r) = refl
recognise-segments_of options cascade (external_memberships_list o t x) = refl
recognise-segments_of options cascade (effective_permissions_list m r) = refl
recognise-segments_of options cascade (external_effective_permissions_list m t x) = refl

pub recognise-endpoint_of :
    (p : Platform) (base : String) (http : Options) (limit : ℕ) (path_of : String → String)
    (options : Value) (cascade : Option Bool) (m : Method)
    → IsUrlStandard p base path_of
    → All IsSegment (segments_of m)
    → let made = endpoint_of options cascade m in
      recognise
        (http_verb made.verb)
        (pieces (path_of (get_resource_url p base http limit made.path made.query)))
      ≡ some m
recognise-endpoint_of p base http limit path_of options cascade m law h =
    let query = (endpoint_of options cascade m).query in
    rw
      (
        joined_path-segments_of options cascade m,
        path_of-get_resource_url p base http limit path_of query (segments_of m) law h,
        pieces-joined_path (segments_of m) h,
      )
      (recognise-segments_of options cascade m)

-- An id is not escaped: to delete the role whose slug is that of a role, `/permissions/`, and that of
-- a permission makes, in verb, path and query, the request that removes the permission from the role.
pub delete_organization_role_confused :
    (organization_id slug permission_slug : String)
    → let slashed = String.◌++◌ slug (String.◌++◌ "/permissions/" permission_slug) in
      let asked = delete_organization_role organization_id slashed in
      let made = remove_organization_role_permission organization_id slug permission_slug in
      (asked.verb ≡ made.verb) × (asked.path ≡ made.path) × (asked.query ≡ made.query)
unfolding delete_organization_role remove_organization_role_permission joined_path
delete_organization_role_confused organization_id slug permission_slug = (
  refl,
  rw
      (
        append_assoc slug (String.◌++◌ "/permissions/" permission_slug) "",
        append_assoc "/permissions/" permission_slug "",
        append_assoc "/" "permissions/" (String.◌++◌ permission_slug ""),
        append_assoc "permissions" "/" (String.◌++◌ permission_slug ""),
      )
      refl,
  refl,
)
