-- ===== src/Authorization/Urls.antt =====
-- The path of the URL that `getResourceURL` of src/common/net/http-client.ts makes of a path, for ids
-- that the URL's parser leaves as they are.
use Prim.Native.Char.{code}
use Prim.Native.String
use text.Mathlib.TextLemmas.{nil-append, cons-append}
use workos_node.Prelude.{
  ℕ, String, ◌≡◌, refl, ap, ◌≢◌, Bool, true, false, ◌&&◌, ◌||◌, Option, none, some, List, [], ◌∷◌,
  leb, ◌==◌, str_eq, if◌then◌else◌, inl, inr, Bool-cases, All, arith,
}
use workos_node.Js.{Value}
use workos_node.Http.{Options}
use workos_node.Http.Verbs.{Platform, get_query_string, get_resource_url}
use workos_node.Authorization.{joined_path}
use workos_node.Authorization.Routes.{pieces}

-- Letters, digits, and the marks `-`, `_`, `.`, `~` and `:`.
unfoldable pub is_plain : ℕ → Bool
is_plain c =
    (leb b'a' c && leb c b'z')
    || (leb b'A' c && leb c b'Z')
    || (leb b'0' c && leb c b'9')
    || c == b'-'
    || c == b'_'
    || c == b'.'
    || c == b'~'
    || c == b':'

unfoldable pub is_path : ℕ → Bool
unfolding is_plain
is_path c = is_plain c || c == b'/'

abbrev pub HasOnly : (ℕ → Bool) → String → Type 0
HasOnly test String.[] = Unit
HasOnly test (String.◌∷◌ c s) = (test (code c) ≡ true) × HasOnly test s

-- A segment of plain characters that is not empty and no dot segment.
abbrev pub IsSegment : String → Type 0
IsSegment s =
    HasOnly is_plain s × (str_eq s "" ≡ false) × (str_eq s "." ≡ false) × (str_eq s ".." ≡ false)

-- What the URL standard says of such paths: the URL made of a path, or of a path, `?` and a query, with
-- the base has that very path. `path_of` reads the path of a URL.
pub record IsUrlStandard (p : Platform) (base : String) (path_of : String → String) : Type 0 where
  pub alone :
      (s : String) (segments : List String)
      → HasOnly is_path s
      → pieces s ≡ "" ∷ segments
      → All IsSegment segments
      → path_of (p.resolve s base) ≡ s
  pub before_query :
      (s q : String) (segments : List String)
      → HasOnly is_path s
      → pieces s ≡ "" ∷ segments
      → All IsSegment segments
      → path_of (p.resolve (p.with_query s q) base) ≡ s

plain-not_slash : (c : ℕ) → is_plain c ≡ true → c ≢ b'/'
unfolding is_plain
plain-not_slash c h e = absurd (ground (arith, rw e at h))

pieces-append :
    (s t : String) (rest : List String)
    → HasOnly is_plain s
    → pieces t ≡ "" ∷ rest
    → pieces (String.◌++◌ s t) ≡ s ∷ rest
unfolding pieces
pieces-append String.[] t rest h e = rw (nil-append t) e
pieces-append (String.◌∷◌ c s) t rest (hc, h) e =
    let tail = pieces-append s t rest h e in
    let other = plain-not_slash (code c) hc in rw (cons-append c s t) (ground (arith, tail, other))

pub pieces-joined_path :
    (segments : List String)
    → All IsSegment segments
    → pieces (joined_path segments) ≡ "" ∷ segments
unfolding pieces joined_path
pieces-joined_path [] h = refl
pieces-joined_path (s ∷ segments) ((plain, _, _, _), h) =
    rw
      (
        cons-append "/" "" (String.◌++◌ s (joined_path segments)),
        nil-append (String.◌++◌ s (joined_path segments)),
      )
      (ap (◌∷◌ "")
        (pieces-append s (joined_path segments) segments plain (pieces-joined_path segments h)))

HasOnly-append :
    (s t : String) → HasOnly is_plain s → HasOnly is_path t → HasOnly is_path (String.◌++◌ s t)
unfolding is_path
HasOnly-append String.[] t h k = rw (nil-append t) k
HasOnly-append (String.◌∷◌ c s) t (hc, h) k =
    rw (cons-append c s t) (rw hc refl, HasOnly-append s t h k)

joined_path-HasOnly :
    (segments : List String) → All IsSegment segments → HasOnly is_path (joined_path segments)
unfolding joined_path is_path is_plain
joined_path-HasOnly [] h = tt
joined_path-HasOnly (s ∷ segments) ((plain, _, _, _), h) =
    rw
      (
        cons-append "/" "" (String.◌++◌ s (joined_path segments)),
        nil-append (String.◌++◌ s (joined_path segments)),
      )
      (refl, HasOnly-append s (joined_path segments) plain (joined_path-HasOnly segments h))

module _ (p : Platform) (base : String) (options : Options) (limit : ℕ) where
  -- Whatever the query, the URL of a path of plain segments has that path.
  pub path_of-get_resource_url :
      (path_of : String → String) (query : Option (List (String × Value))) (segments : List String)
      → IsUrlStandard p base path_of
      → All IsSegment segments
      → path_of (get_resource_url p base options limit (joined_path segments) query)
        ≡ joined_path segments
  unfolding get_resource_url
  path_of-get_resource_url path_of query segments law h =
      by_query (get_query_string p base options limit query)
    where
      path : String
      path = joined_path segments

      chars : HasOnly is_path path
      chars = joined_path-HasOnly segments h

      split : pieces path ≡ "" ∷ segments
      split = pieces-joined_path segments h

      by_query :
          (o : Option String)
          → path_of (elim o [
            | none ↦ p.resolve path base
            | some q ↦ p.resolve (if str_eq q "" then path else p.with_query path q) base
          ])
            ≡ path
      by_query none = law.alone path segments chars split h
      by_query (some q) = elim (Bool-cases (str_eq q "")) [
        | inl e ↦ rw e (law.alone path segments chars split h)
        | inr e ↦ rw e (law.before_query path q segments chars split h)
      ]
