-- ===== src/Seal/Laws.antt =====
-- Sealing and unsealing.
use workos_node.Prelude.{ℕ, ◌≡◌, refl, some, List, ◌∷◌, ◌++◌, arith, ok}
use workos_node.Js.{Value, coalesce}
use workos_node.Js.Text.{
  split-append, split_whole, Avoids, plus, parse_int, parse_signed, leading_digits, decimal,
  trim_start, is_space,
}
use workos_node.Seal.{
  Iron, parse_seal, is_current, empty_object, seal_data, by_version, unseal_data, version_delimiter,
  current_major_version,
}

-- What `iron-webcrypto` documents: a seal is text without a tilde (a prefix, and fields of
-- base64url and digits joined by asterisks), and opens under its own password to what the encoder
-- and decoder of JSON make of the value.
pub record IsIron (iron : Iron) (through_json : Value → Value) : Type 0 where
  pub no_tilde : (v : Value) (password : List ℕ) → Avoids version_delimiter (iron.seal v password)
  pub opens :
      (v : Value) (password : List ℕ)
      → iron.unseal (iron.seal v password) password ≡ ok (through_json v)

parse_int_current : parse_int current_major_version ≡ plus 2
unfolding parse_int parse_signed trim_start is_space leading_digits decimal
parse_int_current = refl

parse_seal-append :
    (s : List ℕ)
    → Avoids version_delimiter s
    → parse_seal (s ++ (version_delimiter ∷ current_major_version))
      ≡ record { seal_without_version = s; token_version = some (plus 2) }
unfolding parse_seal
parse_seal-append s h = ground (
  arith,
  split-append version_delimiter s current_major_version h,
  split_whole version_delimiter current_major_version (omega arith),
  parse_int_current,
)

module _ (iron : Iron) (through_json : Value → Value) (law : IsIron iron through_json) where
  -- Unsealing what was sealed under the same password gives the value, as JSON carries it, and the
  -- empty object for a value that JSON carries as null.
  pub unseal_data-seal_data :
      (v : Value) (password : List ℕ)
      → unseal_data iron (seal_data iron v password) password
        ≡ ok (coalesce (through_json v) empty_object)
  unfolding unseal_data seal_data by_version is_current
  unseal_data-seal_data v password = ground (
    arith,
    parse_seal-append (iron.seal v password) (law.no_tilde v password),
    law.opens v password,
  )
