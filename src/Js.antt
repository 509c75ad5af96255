-- ===== src/Js.antt =====
-- The JavaScript values and text operations that the modelled files use: truthiness, property
-- reads, object spread, letter case. Numbers are natural numbers, the only ones these files read
-- from a value of unknown type.
pub mod Text
use Prim.Native.Char.{code}
use workos_node.Prelude.{
  ℕ, ◌+◌, String, Bool, true, false, not, ◌&&◌, Option, none, some, List, [], ◌∷◌, map, leb, ◌==◌,
  str_eq, if◌then◌else◌,
}

-- `Items` and `Fields` are the elements of an array and the own properties of an object.
mutual
  pub data Value : Type 0 where
    undefined : Value
    null : Value
    str : String → Value
    num : ℕ → Value
    bool : Bool → Value
    obj : Fields → Value
    arr : Items → Value

  pub data Fields : Type 0 where
    field : String → Value → Fields → Fields
    end : Fields

  pub data Items : Type 0 where
    cons : Value → Items → Items
    nil : Items

-- What `if (v)` tests.
unfoldable pub truthy : Value → Bool
truthy undefined = false
truthy null = false
truthy (bool b) = b
truthy (num n) = not (n == 0)
truthy (str s) = not (str_eq s "")
truthy (arr items) = true
truthy (obj fields) = true

-- A `== null` test.
unfoldable pub nullish : Value → Bool
nullish undefined = true
nullish null = true
nullish v = false

unfoldable pub is_undefined : Value → Bool
is_undefined undefined = true
is_undefined v = false

-- `a ?? b`.
unfoldable pub coalesce : Value → Value → Value
unfolding nullish
coalesce a b = if nullish a then b else a

unfoldable pub read : Fields → String → Value
read end name = undefined
read (field key v rest) name = if str_eq key name then v else read rest name

-- `v.name`, for a value that is not null or undefined and a name that no built-in prototype has.
unfoldable pub prop : Value → String → Value
unfolding read
prop (obj fields) name = read fields name
prop v name = undefined

-- `===` between a value and a text.
unfoldable pub is_text : Value → String → Bool
is_text (str s) t = str_eq s t
is_text v t = false

-- The code points of a text.
unfoldable pub codes : String → List ℕ
codes String.[] = []
codes (String.◌∷◌ c s) = code c ∷ codes s

-- `toLowerCase` on ASCII; other letters do not occur in header names.
unfoldable pub lower : ℕ → ℕ
lower c = if leb b'A' c && leb c b'Z' then c + 32 else c

unfoldable pub same_codes : List ℕ → List ℕ → Bool
same_codes [] [] = true
same_codes (a ∷ s) (b ∷ t) = (a == b) && same_codes s t
same_codes _ _ = false

unfoldable pub same_ignoring_case : String → String → Bool
unfolding codes lower same_codes
same_ignoring_case s t = same_codes (map lower (codes s)) (map lower (codes t))

-- An object that maps names to texts, in insertion order; `Record<string, string>`.
abbrev pub Dict : Type 0
Dict = List (String × String)

unfoldable pub lookup {ℓ} : {V : Type ℓ} → List (String × V) → String → Option V
lookup [] key = none
lookup ((k, v) ∷ rest) key = if str_eq k key then some v else lookup rest key

-- An assignment keeps the place of a key that is there.
unfoldable pub assign {ℓ} : {V : Type ℓ} → List (String × V) → String → V → List (String × V)
assign [] key v = (key, v) ∷ []
assign ((k, w) ∷ rest) key v = if str_eq k key then (key, v) ∷ rest else (k, w) ∷ assign rest key v

-- `{ ...base, ...over }`.
unfoldable pub spread {ℓ} : {V : Type ℓ} → List (String × V) → List (String × V) → List (String × V)
unfolding assign
spread base [] = base
spread base ((k, v) ∷ over) = spread (assign base k v) over
