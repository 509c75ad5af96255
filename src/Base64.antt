-- ===== src/Base64.antt =====
-- src/common/utils/base64.ts. `atob`, `btoa` and `Buffer` are parameters; which of them is there
-- decides the branch. A binary string is the list of its character codes.
pub mod Toy
use workos_node.Prelude.{
  ℕ, String, ◌%◌, ◌≡◌, List, [], ◌∷◌, Option, none, some, All, Result, ok, err,
}
use workos_node.Js.{Value, str}
use workos_node.Crypto.Hex.{IsByte}

-- What the runtime has: `atob` and `btoa`, or `Buffer`, or neither. The decoders get whatever value
-- the caller has and may throw.
pub data Base64 : Type 0 where
  browser : (Value → Option (List ℕ)) → (List ℕ → String) → Base64
  buffer : (Value → Option (List ℕ)) → (List ℕ → String) → Base64
  unavailable : Base64

pub data Base64Error : Type 0 where
  refused no_decoding no_encoding : Base64Error

-- A `Uint8Array` keeps the low eight bits of what is stored.
unfoldable pub stored : List ℕ → List ℕ
stored [] = []
stored (c ∷ codes) = c % 256 ∷ stored codes

unfoldable pub base64_to_uint8_array : Base64 → Value → Result Base64Error (List ℕ)
base64_to_uint8_array (browser atob btoa) base64 = elim (atob base64) [
  | none ↦ err refused
  | some binary ↦ ok (stored binary)
]
base64_to_uint8_array (buffer from to) base64 = elim (from base64) [
  | none ↦ err refused
  | some bytes ↦ ok bytes
]
base64_to_uint8_array unavailable base64 = err no_decoding

unfoldable pub uint8_array_to_base64 : Base64 → List ℕ → Result Base64Error String
uint8_array_to_base64 (browser atob btoa) bytes = ok (btoa bytes)
uint8_array_to_base64 (buffer from to) bytes = ok (to bytes)
uint8_array_to_base64 unavailable bytes = err no_encoding

-- The platform's base64: what it decodes are bytes, and it decodes what it encoded.
pub record IsBase64 (base64 : Base64) : Type 0 where
  pub decodes :
      (text : Value) (bytes : List ℕ)
      → base64_to_uint8_array base64 text ≡ ok bytes
      → All IsByte bytes
  pub inverts :
      (bytes : List ℕ) (text : String)
      → All IsByte bytes
      → uint8_array_to_base64 base64 bytes ≡ ok text
      → base64_to_uint8_array base64 (str text) ≡ ok bytes
