-- ===== src/Flags/Changes.antt =====
-- `emitChanges` and `hasEntryChanged` of runtime-client.ts: which flags differ between two polls.
pub mod Targets
use workos_node.Prelude.{
  ℕ, String, Bool, true, false, not, ◌&&◌, ◌||◌, Option, none, some, List, [], ◌∷◌, ◌++◌, ◌==◌, any,
  length, str_eq, if◌then◌else◌,
}
use mathlib.Core.Bool.{xor}
use workos_node.Flags.{Target, Entry, Flags, Slot, missing, inherited, own, get, keys}

-- `ys.map((t) => [t.id, t.enabled])`
unfoldable pub pairs : List Target → List (String × Bool)
pairs [] = []
pairs (t ∷ rest) = (t.id, t.enabled) ∷ pairs rest

-- `new Map(…).get(id)`: the last pair of a key counts.
unfoldable pub map_get : List (String × Bool) → String → Option Bool
map_get [] id = none
map_get ((k, b) ∷ rest) id = elim (map_get rest id) [
  | some c ↦ some c
  | none ↦ if str_eq k id then some b else none
]

-- `map.get(id) !== enabled`
abbrev pub differs : Option Bool → Bool → Bool
differs none b = true
differs (some c) b = xor c b

unfoldable pub some_differs : List (String × Bool) → List (String × Bool) → Bool
some_differs [] ys = false
some_differs ((k, b) ∷ xs) ys = differs (map_get ys k) b || some_differs xs ys

unfoldable pub targets_changed : List Target → List Target → Bool
targets_changed xs ys = if length xs == length ys then some_differs (pairs xs) (pairs ys) else true

unfoldable pub entry_changed : Entry → Entry → Bool
entry_changed a b =
    if xor a.enabled b.enabled || xor a.default_value b.default_value
    then true
    else targets_changed a.users b.users || targets_changed a.organizations b.organizations

-- A missing entry differs from any other value, and the fields of an inherited property are
-- undefined. No key is inherited by both sides, since it is a key of one.
unfoldable pub has_entry_changed : Slot → Slot → Bool
has_entry_changed (own a) (own b) = entry_changed a b
has_entry_changed missing missing = false
has_entry_changed inherited inherited = false
has_entry_changed a b = true

-- The keys of both, each once, in the order of their first occurrence: a `Set`.
unfoldable pub add_key : List String → String → List String
add_key seen k = if any (λ (s : String). str_eq s k) seen then seen else seen ++ (k ∷ [])

unfoldable pub add_keys : List String → List String → List String
add_keys seen [] = seen
add_keys seen (k ∷ ks) = add_keys (add_key seen k) ks

pub record Change : Type 0 where
  pub key : String
  pub previous : Slot
  pub current : Slot

unfoldable pub changes_of : Flags → Flags → List String → List Change
changes_of previous current [] = []
changes_of previous current (k ∷ ks) =
    let rest = changes_of previous current ks in
    if has_entry_changed (get previous k) (get current k)
    then record { key = k; previous = get previous k; current = get current k } ∷ rest
    else rest

unfoldable pub emit_changes : Flags → Flags → List Change
emit_changes previous current =
    changes_of previous current (add_keys [] (keys previous ++ keys current))
