-- ===== src/Crypto.antt =====
-- src/common/crypto/subtle-crypto-provider.ts. The Web Crypto operations are parameters; texts are
-- lists of code points and buffers are lists of bytes.
pub mod Hex
pub mod Aes
mod Tests
pub mod Toy
use workos_node.Prelude.{
  ℕ, zero, suc, ◌+◌, ◌-◌, ◌*◌, ◌/◌, ◌%◌, ◌<◌, ◌≤◌, ◌≡◌, Bool, true, false, Option, none, some, List,
  [], ◌∷◌, ◌++◌, map, ltb, leb, ◌==◌, if◌then◌else◌, length, take, drop,
}

-- `TextEncoder.encode`: one code point in UTF-8.
unfoldable pub encode_point : ℕ → List ℕ
encode_point c =
    if ltb c 0x80
    then c ∷ []
    else if ltb c 0x800
    then (0xc0 + c / 64) ∷ (0x80 + c % 64) ∷ []
    else if ltb c 0x10000
    then (0xe0 + c / 4096) ∷ (0x80 + c / 64 % 64) ∷ (0x80 + c % 64) ∷ []
    else (0xf0 + c / 262144) ∷ (0x80 + c / 4096 % 64) ∷ (0x80 + c / 64 % 64) ∷ (0x80 + c % 64) ∷ []

unfoldable pub encode : List ℕ → List ℕ
unfolding encode_point
encode [] = []
encode (c ∷ s) = encode_point c ++ encode s

-- `crypto.subtle`: keys are given by their raw bytes, and a generated key by `fresh`.
pub record Subtle : Type 0 where
  pub sign : List ℕ → List ℕ → List ℕ
  pub verify : List ℕ → List ℕ → List ℕ → Bool
  pub fresh : List ℕ
  -- AES-GCM: key, initialization vector, additional data, input; a key may be refused
  pub seal : List ℕ → List ℕ → Option (List ℕ) → List ℕ → Option (List ℕ)
  pub open_sealed : List ℕ → List ℕ → Option (List ℕ) → List ℕ → Option (List ℕ)

-- An entry of `byteHexMapping`: two lower-case digits.
unfoldable pub hex_digit : ℕ → ℕ
hex_digit n = if ltb n 10 then b'0' + n else b'a' + (n - 10)

unfoldable pub byte_hex : ℕ → List ℕ
unfolding hex_digit
byte_hex b = hex_digit (b / 16) ∷ hex_digit (b % 16) ∷ []

unfoldable pub hex : List ℕ → List ℕ
unfolding byte_hex
hex [] = []
hex (b ∷ bytes) = byte_hex b ++ hex bytes

module _ (subtle : Subtle) where
  unfoldable pub compute_hmac_signature : List ℕ → List ℕ → List ℕ
  compute_hmac_signature payload secret = hex (subtle.sign (encode secret) (encode payload))

  unfoldable pub secure_compare : List ℕ → List ℕ → Bool
  secure_compare a b =
      if length (encode a) == length (encode b)
      then subtle.verify subtle.fresh (subtle.sign subtle.fresh (encode a)) (encode b)
      else false
