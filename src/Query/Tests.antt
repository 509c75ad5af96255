-- ===== src/Query/Tests.antt =====
-- A query string with marks, a space and a text outside ASCII.
use workos_node.Prelude.{ℕ, ◌≡◌, refl, none, some, List, [], ◌∷◌, All, map, arith}
use workos_node.Js.{codes, same_codes}
use workos_node.Crypto.{encode, encode_point}
use workos_node.Query.{
  Options, text, texts, object, undefined, params_of, params_of_keys, params_of_value, value_of,
  of_texts, of_fields, field_of, to_query_string, encode_params, encode_rfc1738,
  encode_uri_component, escape_bytes, escape_byte, is_unreserved, escaped, upper_digit,
  replace_spaces, escape_marks, join,
}
use workos_node.Query.RoundTrip.{parse_query, IsParam, in_utf8, parse_query-to_query_string}

abbrev keep : List (List ℕ) → List (List ℕ)
keep keys = keys

abbrev options : Options
options =
    (b'a' ∷ [], text (b'x' ∷ 32 ∷ b'&' ∷ b'!' ∷ 0xe9 ∷ []))
    ∷ (b'b' ∷ [], undefined)
    ∷ (b'c' ∷ [], texts ((b'1' ∷ []) ∷ (b'=' ∷ []) ∷ []))
    ∷ (b'd' ∷ [], object ((b'k' ∷ [], some (b'v' ∷ [])) ∷ (b'n' ∷ [], none) ∷ []))
    ∷ []

running : Unit {0}
unfolding codes same_codes encode encode_point params_of params_of_keys params_of_value value_of
    of_texts of_fields field_of to_query_string encode_params encode_rfc1738 encode_uri_component
    escape_bytes escape_byte is_unreserved escaped upper_digit replace_spaces escape_marks join
running = tt

printed : to_query_string keep options ≡ some (codes "a=x+%26%21%C3%A9&c=1&c=%3D&d%5Bk%5D=v")
unfolding running
printed = refl

params_of-All : All IsParam (params_of keep options)
unfolding running
params_of-All = omega arith

parse_query-to_query_string_example :
    (q : List ℕ) × (to_query_string keep options ≡ some q)
    × (parse_query q ≡ map in_utf8 (params_of keep options))
parse_query-to_query_string_example = parse_query-to_query_string keep options params_of-All
