-- ===== src/Seal.antt =====
-- src/common/crypto/seal.ts: sealed data with a version behind a `~`. `iron-webcrypto` is a
-- parameter: `seal` and `unseal` of a value under one password.
pub mod Laws
pub mod Toy
mod Tests
use workos_node.Prelude.{
  ℕ, Bool, true, false, ◌||◌, Option, none, some, List, [], ◌∷◌, ◌++◌, ◌==◌, if◌then◌else◌, Result,
  ok, err,
}
use workos_node.Js.{Value, undefined, obj, end, prop, coalesce, nullish}
use workos_node.Js.Text.{split, Integer, nan, plus, minus, parse_int}

-- The messages at the front of which `unsealData` recognises a seal that does not open, and any
-- other error.
pub data SealError : Type 0 where
  expired_seal bad_hmac_value cannot_find_password : SealError
  incorrect_number_of_components wrong_mac_prefix : SealError
  other : List ℕ → SealError

pub record Iron : Type 0 where
  pub seal : Value → List ℕ → List ℕ
  pub unseal : List ℕ → List ℕ → Result SealError Value

abbrev pub version_delimiter : ℕ
version_delimiter = b'~'

abbrev pub current_major_version : List ℕ
current_major_version = b'2' ∷ []

pub record Parsed : Type 0 where
  pub seal_without_version : List ℕ
  pub token_version : Option Integer

unfoldable pub parse_seal : List ℕ → Parsed
parse_seal seal = elim (split version_delimiter seal) [
  | [] ↦ record { seal_without_version = []; token_version = none }
  | first ∷ rest ↦ elim rest [
    | [] ↦ record { seal_without_version = first; token_version = none }
    | version ∷ more ↦ record {
      seal_without_version = first;
      token_version = some (parse_int version);
    }
  ]
]

-- The errors that stand for an unusable seal, which reads as an object without fields.
unfoldable pub is_known : SealError → Bool
is_known (other message) = false
is_known e = true

abbrev pub empty_object : Value
empty_object = obj end

-- `=== 2`
unfoldable pub is_current : Integer → Bool
is_current (plus n) = n == 2
is_current _ = false

module _ (iron : Iron) where
  unfoldable pub seal_data : Value → List ℕ → List ℕ
  seal_data v password = iron.seal v password ++ (version_delimiter ∷ current_major_version)

  -- An earlier version keeps the data under `persistent`; reading that of null throws, which a
  -- sealed `null` cannot come to, since it was replaced by the empty object.
  unfoldable pub by_version : Option Integer → Value → Value
  by_version none v = v
  by_version (some version) v = if is_current version then v else coalesce (prop v "persistent") v

  unfoldable pub unseal_data : List ℕ → List ℕ → Result SealError Value
  unseal_data encrypted password =
      let parsed = parse_seal encrypted in
      elim (iron.unseal parsed.seal_without_version password) [
        | ok v ↦ ok (by_version parsed.token_version (coalesce v empty_object))
        | err e ↦ if is_known e then ok empty_object else err e
      ]
