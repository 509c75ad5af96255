-- ===== src/Flags.antt =====
-- src/feature-flags: the flag store (in-memory-store.ts), the evaluator (evaluator.ts), the event
-- emitter (event-emitter.ts) and the polling client (runtime-client.ts).
pub mod Laws
pub mod Changes
pub mod Emitter
pub mod Runtime
mod Tests
use workos_node.Prelude.{
  ℕ, suc, String, Bool, true, false, not, Option, none, some, List, [], ◌∷◌, any, find, length,
  str_eq, if◌then◌else◌,
}
use workos_node.Js.{lookup}

pub record Target : Type 0 where
  pub id : String
  pub enabled : Bool

-- `FlagPollEntry`, with its targets flattened.
pub record Entry : Type 0 where
  pub slug : String
  pub enabled : Bool
  pub default_value : Bool
  pub users : List Target
  pub organizations : List Target

-- `FlagPollResponse`: an object from slugs to entries, its own properties in order.
abbrev pub Flags : Type 0
Flags = List (String × Entry)

pub record Context : Type 0 where
  pub user_id : Option String
  pub organization_id : Option String

-- The names that every plain object inherits from `Object.prototype`.
abbrev pub prototype_names : List String
prototype_names =
    "constructor" ∷ "toString" ∷ "toLocaleString" ∷ "valueOf" ∷ "hasOwnProperty" ∷ "isPrototypeOf"
    ∷ "propertyIsEnumerable" ∷ "__proto__" ∷ "__defineGetter__" ∷ "__defineSetter__"
    ∷ "__lookupGetter__" ∷ "__lookupSetter__" ∷ []

-- What `flags[slug]` reads: nothing, an inherited property, or an entry.
pub data Slot : Type 0 where
  missing : Slot
  inherited : Slot
  own : Entry → Slot

unfoldable pub get : Flags → String → Slot
get flags slug = elim (lookup flags slug) [
  | some e ↦ own e
  | none ↦ if any (λ name. str_eq name slug) prototype_names then inherited else missing
]

-- `swap` and `getAll` copy the object.
abbrev pub swap : Flags → Flags → Flags
swap old new = new

abbrev pub size : Flags → ℕ
size flags = length flags

-- `if (context.userId)`, then the first target of that id.
unfoldable pub target_for : Option String → List Target → Option Bool
target_for none targets = none
target_for (some id) targets =
    if str_eq id "" then none else elim (find (λ (t : Target). str_eq t.id id) targets) [
      | none ↦ none
      | some t ↦ some t.enabled
    ]

-- The evaluation of an entry: the switch, the user's target, the organization's, the default.
unfoldable pub evaluate : Entry → Context → Bool
evaluate e context = if not e.enabled then false else elim (target_for context.user_id e.users) [
  | some b ↦ b
  | none ↦ elim (target_for context.organization_id e.organizations) [
    | some b ↦ b
    | none ↦ e.default_value
  ]
]

-- An inherited property is truthy and its `enabled` is undefined.
unfoldable pub is_enabled : Flags → String → Context → Bool → Bool
is_enabled flags slug context default = elim (get flags slug) [
  | missing ↦ default
  | inherited ↦ false
  | own e ↦ evaluate e context
]

abbrev pub keys : {V : Type 0} → List (String × V) → List String
keys [] = []
keys ((k, v) ∷ rest) = k ∷ keys rest

unfoldable pub all_flags_of : Flags → Context → List String → List (String × Bool)
all_flags_of flags context [] = []
all_flags_of flags context (slug ∷ rest) =
    (slug, is_enabled flags slug context false) ∷ all_flags_of flags context rest

unfoldable pub get_all_flags : Flags → Context → List (String × Bool)
get_all_flags flags context = all_flags_of flags context (keys flags)
