-- ===== src/Authorization/Tests.antt =====
-- A role that is deleting, a list of resources, and a slug with a slash.
use Prim.Native.Char.{code}
use Prim.Native.String
use text.Mathlib.TextLemmas.{nil-append, cons-append}
use workos_node.Prelude.{
  ℕ, String, Bool, true, not, ◌&&◌, str_eq, List, [], ◌∷◌, All, ◌≢◌, ◌≡◌, refl, none, some,
  if◌then◌else◌, ◌==◌, arith,
}
use workos_node.Http.Verbs.{Platform, get_resource_url}
use workos_node.Session.Toy.{platform, workos}
use workos_node.Authorization.Urls.{HasOnly, is_plain, is_path, IsSegment, IsUrlStandard}
use workos_node.Js.{undefined}
use workos_node.Authorization.{joined_path}
use workos_node.Authorization.Roles.{delete_organization_role, remove_organization_role_permission}
use workos_node.Authorization.Methods.{resources_list, endpoint_of, http_verb, segments_of}
use workos_node.Authorization.Routes.{recognise, pieces}
use workos_node.Authorization.Laws.{recognise-endpoint_of, delete_organization_role_confused}

deleted_path :
    (delete_organization_role "org_1" "admin").path
    ≡ "/authorization/organizations/org_1/roles/admin"
unfolding delete_organization_role joined_path
deleted_path = refl

abbrev origin : String
origin = "https://api.workos.com"

-- What stands behind a prefix.
abbrev behind_prefix : String → String → String
behind_prefix String.[] s = s
behind_prefix (String.◌∷◌ c prefix) String.[] = ""
behind_prefix (String.◌∷◌ c prefix) (String.◌∷◌ d s) = behind_prefix prefix s

abbrev until_query : String → String
until_query String.[] = ""
until_query (String.◌∷◌ c s) =
    let rest = until_query s in if code c == b'?' then "" else String.◌∷◌ c rest

abbrev path_of : String → String
path_of url = until_query (behind_prefix origin url)

-- A client whose URLs are the origin, the path and the query, one behind the other.
abbrev client : Platform
client = record platform {
  search_params = λ params. "limit=10";
  resolve = λ path base. String.◌++◌ base path;
  with_query = λ path query. String.◌++◌ path (String.◌++◌ "?" query);
}

behind_prefix-append : (u s : String) → behind_prefix u (String.◌++◌ u s) ≡ s
behind_prefix-append String.[] s = rw (nil-append s) refl
behind_prefix-append (String.◌∷◌ c u) s = rw (cons-append c u s) (behind_prefix-append u s)

path-not_query : (c : ℕ) → is_path c ≡ true → c ≢ b'?'
unfolding is_path is_plain
path-not_query c h e = absurd (ground (arith, rw e at h))

until_query-append :
    (s q : String)
    → HasOnly is_path s
    → (until_query s ≡ s) × (until_query (String.◌++◌ s (String.◌++◌ "?" q)) ≡ s)
until_query-append String.[] q h =
    (refl, rw (nil-append (String.◌++◌ "?" q), cons-append "?" "" q) refl)
until_query-append (String.◌∷◌ c s) q (hc, h) =
    let (alone, behind) = until_query-append s q h in
    let other = path-not_query (code c) hc in
    (
      ground (arith, alone, other),
      rw (cons-append c s (String.◌++◌ "?" q)) (ground (arith, behind, other)),
    )

client-IsUrlStandard : IsUrlStandard client origin path_of
client-IsUrlStandard = record {
  alone = λ s segments h e k. rw (behind_prefix-append origin s) ((until_query-append s "" h).0);
  before_query = λ s q segments h e k.
      rw (behind_prefix-append origin (String.◌++◌ s (String.◌++◌ "?" q)))
        ((until_query-append s q h).1);
}

abbrev only_plain : String → Bool
only_plain String.[] = true
only_plain (String.◌∷◌ c s) = is_plain (code c) && only_plain s

abbrev is_segment : String → Bool
is_segment s = only_plain s && not (str_eq s "") && not (str_eq s ".") && not (str_eq s "..")

abbrev all_segments : List String → Bool
all_segments [] = true
all_segments (s ∷ l) = is_segment s && all_segments l

only_plain-HasOnly : (s : String) → only_plain s ≡ true → HasOnly is_plain s
only_plain-HasOnly String.[] h = tt
only_plain-HasOnly (String.◌∷◌ c s) h = (ground arith, only_plain-HasOnly s (ground arith))

are_segments : (l : List String) → all_segments l ≡ true → All IsSegment l
are_segments [] h = tt
are_segments (s ∷ l) h = (
  (only_plain-HasOnly s (ground arith), ground arith, ground arith, ground arith),
  are_segments l (ground arith),
)

-- A list, with a query.
lists_resources :
    let made = endpoint_of undefined none resources_list in
    recognise
      (http_verb made.verb)
      (pieces (path_of (get_resource_url client origin workos.http 3 made.path made.query)))
    ≡ some resources_list
unfolding segments_of is_plain
lists_resources =
    recognise-endpoint_of client origin workos.http 3 path_of undefined none resources_list
      client-IsUrlStandard (are_segments (segments_of resources_list) refl)

delete_organization_role_confused_example :
    let asked = delete_organization_role "org_1" "admin/permissions/read" in
    let made = remove_organization_role_permission "org_1" "admin" "read" in
    (asked.verb ≡ made.verb) × (asked.path ≡ made.path) × (asked.query ≡ made.query)
delete_organization_role_confused_example = delete_organization_role_confused "org_1" "admin" "read"
