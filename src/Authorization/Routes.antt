-- ===== src/Authorization/Routes.antt =====
-- A reader of the paths by the API's table of routes, which is written apart from the methods.
use Prim.Native.Char.{Char, code}
use workos_node.Prelude.{
  String, Bool, true, false, Option, none, some, List, [], ◌∷◌, ◌==◌, str_eq, if◌then◌else◌,
}
use workos_node.Authorization.{Verb, get, post, put, patch, delete}
use workos_node.Authorization.Methods.{
  Method, environment_role_create, environment_roles_list, environment_role_get,
  environment_role_update, environment_role_permissions_set, environment_role_permission_add,
  organization_role_create, organization_roles_list, organization_role_get,
  organization_role_update, organization_role_delete, organization_role_permissions_set,
  organization_role_permission_add, organization_role_permission_remove, permission_create,
  permissions_list, permission_get, permission_update, permission_delete, resource_get,
  resource_create, resource_update, resource_delete, resources_list, external_resource_get,
  external_resource_update, external_resource_delete, membership_check, role_assignments_list,
  role_assign, role_remove, role_assignment_remove, resource_role_assignments_list,
  external_role_assignments_list, group_role_assignments_list, group_role_assignment_get,
  group_role_assignment_create, group_role_assignment_remove, group_role_assignments_remove,
  group_role_assignments_replace, membership_resources_list, resource_memberships_list,
  external_memberships_list, effective_permissions_list, external_effective_permissions_list,
}

-- A table of routes of one shape: for the verb, the words that stand between the ids, and the method.
abbrev Table : Type 0
Table = List (Verb × List String × Method)

unfoldable pub same_verb : Verb → Verb → Bool
same_verb get get = true
same_verb post post = true
same_verb put put = true
same_verb patch patch = true
same_verb delete delete = true
same_verb a b = false

abbrev same_words : List String → List String → Bool
same_words [] [] = true
same_words (a ∷ s) (b ∷ t) = if str_eq a b then same_words s t else false
same_words _ _ = false

unfoldable pub search_table : Verb → List String → Table → Option Method
unfolding same_verb
search_table verb words [] = none
search_table verb words ((v, w, m) ∷ table) =
    if same_verb v verb
    then (if same_words w words then some m else search_table verb words table)
    else search_table verb words table

-- The method that a verb and the segments behind the root ask for.
unfoldable pub route : Verb → List String → Option Method
unfolding search_table
route verb (a ∷ []) = search_table verb (a ∷ []) (
    (post, "roles" ∷ [], environment_role_create)
    ∷ (get, "roles" ∷ [], environment_roles_list)
    ∷ (post, "permissions" ∷ [], permission_create)
    ∷ (get, "permissions" ∷ [], permissions_list)
    ∷ (post, "resources" ∷ [], resource_create)
    ∷ (get, "resources" ∷ [], resources_list)
    ∷ [])
route verb (a ∷ b ∷ []) = search_table verb (a ∷ []) (
    (get, "roles" ∷ [], environment_role_get b)
    ∷ (patch, "roles" ∷ [], environment_role_update b)
    ∷ (get, "permissions" ∷ [], permission_get b)
    ∷ (patch, "permissions" ∷ [], permission_update b)
    ∷ (delete, "permissions" ∷ [], permission_delete b)
    ∷ (get, "resources" ∷ [], resource_get b)
    ∷ (patch, "resources" ∷ [], resource_update b)
    ∷ (delete, "resources" ∷ [], resource_delete b)
    ∷ [])
route verb (a ∷ b ∷ c ∷ []) = search_table verb (a ∷ c ∷ []) (
    (put, "roles" ∷ "permissions" ∷ [], environment_role_permissions_set b)
    ∷ (post, "roles" ∷ "permissions" ∷ [], environment_role_permission_add b)
    ∷ (post, "organizations" ∷ "roles" ∷ [], organization_role_create b)
    ∷ (get, "organizations" ∷ "roles" ∷ [], organization_roles_list b)
    ∷ (post, "organization_memberships" ∷ "check" ∷ [], membership_check b)
    ∷ (get, "organization_memberships" ∷ "role_assignments" ∷ [], role_assignments_list b)
    ∷ (post, "organization_memberships" ∷ "role_assignments" ∷ [], role_assign b)
    ∷ (delete, "organization_memberships" ∷ "role_assignments" ∷ [], role_remove b)
    ∷ (get, "resources" ∷ "role_assignments" ∷ [], resource_role_assignments_list b)
    ∷ (get, "groups" ∷ "role_assignments" ∷ [], group_role_assignments_list b)
    ∷ (post, "groups" ∷ "role_assignments" ∷ [], group_role_assignment_create b)
    ∷ (delete, "groups" ∷ "role_assignments" ∷ [], group_role_assignments_remove b)
    ∷ (put, "groups" ∷ "role_assignments" ∷ [], group_role_assignments_replace b)
    ∷ (get, "organization_memberships" ∷ "resources" ∷ [], membership_resources_list b)
    ∷ (get, "resources" ∷ "organization_memberships" ∷ [], resource_memberships_list b)
    ∷ [])
route verb (a ∷ b ∷ c ∷ d ∷ []) = search_table verb (a ∷ c ∷ []) (
    (get, "organizations" ∷ "roles" ∷ [], organization_role_get b d)
    ∷ (patch, "organizations" ∷ "roles" ∷ [], organization_role_update b d)
    ∷ (delete, "organizations" ∷ "roles" ∷ [], organization_role_delete b d)
    ∷ (delete, "organization_memberships" ∷ "role_assignments" ∷ [], role_assignment_remove b d)
    ∷ (get, "groups" ∷ "role_assignments" ∷ [], group_role_assignment_get b d)
    ∷ (delete, "groups" ∷ "role_assignments" ∷ [], group_role_assignment_remove b d)
    ∷ [])
route verb (a ∷ b ∷ c ∷ d ∷ e ∷ []) =
    elim (search_table verb (a ∷ c ∷ e ∷ []) (
      (put, "organizations" ∷ "roles" ∷ "permissions" ∷ [], organization_role_permissions_set b d)
      ∷ (post, "organizations" ∷ "roles" ∷ "permissions" ∷ [], organization_role_permission_add b d)
      ∷ (
        get,
        "resources" ∷ "organization_memberships" ∷ "permissions" ∷ [],
        effective_permissions_list d b,
      )
      ∷ [])) [
        | some m ↦ some m
        | none ↦ search_table verb (a ∷ c ∷ []) (
            (get, "organizations" ∷ "resources" ∷ [], external_resource_get b d e)
            ∷ (patch, "organizations" ∷ "resources" ∷ [], external_resource_update b d e)
            ∷ (delete, "organizations" ∷ "resources" ∷ [], external_resource_delete b d e)
            ∷ [])
      ]
route verb (a ∷ b ∷ c ∷ d ∷ e ∷ f ∷ []) =
    elim (search_table verb (a ∷ c ∷ e ∷ []) (
      (
        delete,
        "organizations" ∷ "roles" ∷ "permissions" ∷ [],
        organization_role_permission_remove b d f,
      )
      ∷ [])) [
        | some m ↦ some m
        | none ↦ search_table verb (a ∷ c ∷ f ∷ []) (
            (
              get,
              "organizations" ∷ "resources" ∷ "role_assignments" ∷ [],
              external_role_assignments_list b d e,
            )
            ∷ (
              get,
              "organizations" ∷ "resources" ∷ "organization_memberships" ∷ [],
              external_memberships_list b d e,
            )
            ∷ (
              get,
              "organization_memberships" ∷ "resources" ∷ "permissions" ∷ [],
              external_effective_permissions_list b d e,
            )
            ∷ [])
      ]
route verb segments = none

-- The root of the paths.
unfoldable pub recognise : Verb → List String → Option Method
unfolding route
recognise verb (blank ∷ root ∷ segments) =
    if str_eq root "authorization" then route verb segments else none
recognise verb segments = none

abbrev push : Char → List String → List String
push c [] = (String.◌∷◌ c "") ∷ []
push c (piece ∷ pieces) = (String.◌∷◌ c piece) ∷ pieces

-- The pieces of a text between slashes.
unfoldable pub pieces : String → List String
pieces String.[] = "" ∷ []
pieces (String.◌∷◌ c s) = let rest = pieces s in if code c == b'/' then "" ∷ rest else push c rest
