-- ===== src/Flags/Laws.antt =====
-- The evaluator against the flags as a finite map.
use workos_node.Prelude.{
  String, Bool, true, false, ◌≡◌, ◌≢◌, none, List, [], ◌∷◌, any, str_eq, All, arith,
}
use workos_node.Js.{lookup}
use workos_node.Flags.{Flags, Context, get, is_enabled, keys, prototype_names}

-- The keys are distinct, as those of an object are.
abbrev pub HasDistinctKeys : {V : Type 0} → List (String × V) → Type 0
HasDistinctKeys [] = Unit
HasDistinctKeys ((k, v) ∷ rest) = All (λ (j : String). j ≢ k) (keys rest) × HasDistinctKeys rest

-- A slug that is a property name of every object is never given the caller's default: without an
-- entry for it the flag reads as off.
pub is_enabled_inherited :
    (flags : Flags) (slug : String) (context : Context) (default : Bool)
    → lookup flags slug ≡ none
    → any (λ (name : String). str_eq name slug) prototype_names ≡ true
    → is_enabled flags slug context default ≡ false
unfolding is_enabled get
is_enabled_inherited flags slug context default absent known = ground arith

-- Any other slug without an entry is given the default.
pub is_enabled_absent :
    (flags : Flags) (slug : String) (context : Context) (default : Bool)
    → lookup flags slug ≡ none
    → any (λ (name : String). str_eq name slug) prototype_names ≡ false
    → is_enabled flags slug context default ≡ default
unfolding is_enabled get
is_enabled_absent flags slug context default absent unknown = ground arith
