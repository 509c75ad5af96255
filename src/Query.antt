-- ===== src/Query.antt =====
-- src/common/utils/query-string.ts. Texts are lists of code points; an option's value is a text, a
-- list of texts, an object, or undefined, and a boolean or a number stands as its text. The order of
-- `localeCompare` is a parameter: what `sort` makes of the keys.
pub mod Encoding
pub mod Lookup
pub mod RoundTrip
mod Tests
use workos_node.Prelude.{
  ℕ, ◌+◌, ◌-◌, ◌/◌, ◌%◌, Bool, ◌&&◌, ◌||◌, Option, none, some, List, [], ◌∷◌, ◌++◌, ltb, leb, ◌==◌,
  any, if◌then◌else◌,
}
use workos_node.Js.{same_codes}
use workos_node.Crypto.{encode}

abbrev within : ℕ → ℕ → ℕ → Bool
within lo hi c = leb lo c && leb c hi

-- The characters that `encodeURIComponent` leaves: letters, digits and - _ . ! ~ * ' ( )
unfoldable pub is_unreserved : ℕ → Bool
is_unreserved c =
    within b'a' b'z' c
    || within b'A' b'Z' c
    || within b'0' b'9' c
    || c == b'-'
    || c == b'_'
    || c == b'.'
    || c == b'!'
    || c == b'~'
    || c == b'*'
    || c == 39
    || c == b'('
    || c == b')'

-- An upper-case digit.
unfoldable pub upper_digit : ℕ → ℕ
upper_digit n = if ltb n 10 then b'0' + n else b'A' + (n - 10)

unfoldable pub escaped : ℕ → List ℕ
unfolding upper_digit
escaped b = b'%' ∷ upper_digit (b / 16) ∷ upper_digit (b % 16) ∷ []

unfoldable pub escape_byte : ℕ → List ℕ
unfolding is_unreserved escaped
escape_byte b = if is_unreserved b then b ∷ [] else escaped b

unfoldable pub escape_bytes : List ℕ → List ℕ
unfolding escape_byte
escape_bytes [] = []
escape_bytes (b ∷ bytes) = escape_byte b ++ escape_bytes bytes

-- A code point that is one half of a pair.
abbrev pub is_surrogate : ℕ → Bool
is_surrogate c = within 0xd800 0xdfff c

-- A lone surrogate makes `encodeURIComponent` throw.
unfoldable pub encode_uri_component : List ℕ → Option (List ℕ)
unfolding escape_bytes
encode_uri_component s = if any is_surrogate s then none else some (escape_bytes (encode s))

-- `.replace(/%20/g, '+')`
unfoldable pub replace_spaces : List ℕ → List ℕ
replace_spaces [] = []
replace_spaces (a ∷ []) = a ∷ []
replace_spaces (a ∷ b ∷ []) = a ∷ b ∷ []
replace_spaces (a ∷ b ∷ c ∷ s) =
    let behind = replace_spaces s in
    let next = replace_spaces (b ∷ c ∷ s) in
    if a == b'%' && b == b'2' && c == b'0' then b'+' ∷ behind else a ∷ next

-- `.replace(/[!'*]/g, …)`
unfoldable pub escape_marks : List ℕ → List ℕ
unfolding escaped
escape_marks [] = []
escape_marks (c ∷ s) =
    let rest = escape_marks s in
    (if c == b'!' || c == 39 || c == b'*' then escaped c else c ∷ []) ++ rest

unfoldable pub encode_rfc1738 : List ℕ → Option (List ℕ)
unfolding encode_uri_component replace_spaces escape_marks
encode_rfc1738 s = elim (encode_uri_component s) [
  | none ↦ none
  | some t ↦ some (escape_marks (replace_spaces t))
]

pub data QueryValue : Type 0 where
  undefined : QueryValue
  text : List ℕ → QueryValue
  texts : List (List ℕ) → QueryValue
  object : List (List ℕ × Option (List ℕ)) → QueryValue

abbrev pub Options : Type 0
Options = List (List ℕ × QueryValue)

abbrev pub Params : Type 0
Params = List (List ℕ × List ℕ)

abbrev pub names {ℓ} : {V : Type ℓ} → List (List ℕ × V) → List (List ℕ)
names [] = []
names ((k, v) ∷ rest) = k ∷ names rest

-- `options[key]`
unfoldable pub value_of : Options → List ℕ → QueryValue
value_of [] key = undefined
value_of ((k, v) ∷ rest) key = if same_codes k key then v else value_of rest key

unfoldable pub field_of : List (List ℕ × Option (List ℕ)) → List ℕ → Option (List ℕ)
field_of [] key = none
field_of ((k, v) ∷ rest) key = if same_codes k key then v else field_of rest key

-- `${key}[${subKey}]`
abbrev pub sub_name : List ℕ → List ℕ → List ℕ
sub_name key sub = key ++ (b'[' ∷ (sub ++ (b']' ∷ [])))

unfoldable pub of_texts : List ℕ → List (List ℕ) → Params
of_texts key [] = []
of_texts key (item ∷ rest) = (key, item) ∷ of_texts key rest

unfoldable pub of_fields : List ℕ → List (List ℕ × Option (List ℕ)) → List (List ℕ) → Params
unfolding field_of
of_fields key fields [] = []
of_fields key fields (sub ∷ subs) =
    let rest = of_fields key fields subs in
    elim (field_of fields sub) [ none ↦ rest | some v ↦ (sub_name key sub, v) ∷ rest ]

-- One parameter: `key=value`.
abbrev pub pair : Option (List ℕ) → Option (List ℕ) → Option (List ℕ)
pair (some k) (some v) = some (k ++ (b'=' ∷ v))
pair none v = none
pair (some k) none = none

-- `.map(…)`, where one throw is the whole's.
unfoldable pub encode_params : Params → Option (List (List ℕ))
unfolding encode_rfc1738
encode_params [] = some []
encode_params ((k, v) ∷ rest) = elim (pair (encode_rfc1738 k) (encode_rfc1738 v)) [
  | none ↦ none
  | some p ↦ elim (encode_params rest) [ none ↦ none | some ps ↦ some (p ∷ ps) ]
]

-- `.join('&')`
unfoldable pub join : List (List ℕ) → List ℕ
join [] = []
join (p ∷ []) = p
join (p ∷ q ∷ ps) = p ++ (b'&' ∷ join (q ∷ ps))

module _ (sort : List (List ℕ) → List (List ℕ)) where
  unfoldable pub params_of_value : List ℕ → QueryValue → Params
  unfolding of_texts of_fields
  params_of_value key undefined = []
  params_of_value key (text v) = (key, v) ∷ []
  params_of_value key (texts items) = of_texts key items
  params_of_value key (object fields) = of_fields key fields (sort (names fields))

  unfoldable pub params_of_keys : Options → List (List ℕ) → Params
  unfolding params_of_value value_of
  params_of_keys options [] = []
  params_of_keys options (key ∷ keys) =
      params_of_value key (value_of options key) ++ params_of_keys options keys

  unfoldable pub params_of : Options → Params
  unfolding params_of_keys
  params_of options = params_of_keys options (sort (names options))

  unfoldable pub to_query_string : Options → Option (List ℕ)
  unfolding params_of encode_params join
  to_query_string options = elim (encode_params (params_of options)) [
    | none ↦ none
    | some ps ↦ some (join ps)
  ]
