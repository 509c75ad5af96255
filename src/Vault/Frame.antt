-- ===== src/Vault/Frame.antt =====
-- The layout of a payload of the vault: what `encrypt` writes and `decode` reads.
use workos_node.Prelude.{
  ℕ, ◌+◌, ◌<◌, ◌≡◌, refl, String, List, [], ◌∷◌, ◌++◌, append_assoc, length, take, drop,
  take-append, drop-append, length-append, All, All-append, ok, arith,
}
use workos_node.Base64.{Base64, uint8_array_to_base64, browser, buffer, unavailable}
use workos_node.Leb128
use workos_node.Leb128.{encode_uint32, decode_uint32}
use workos_node.Leb128.RoundTrip.{decode_uint32-encode_uint32}
use workos_node.Crypto.{encode, encode_point}
use workos_node.Crypto.Hex.{IsByte}
use workos_node.Crypto.Aes
use workos_node.Crypto.Aes.{IsAead, Sealed, encrypt-Sealed}
use workos_node.Vault.{Tools, decode_payload, frame}

-- A list of code points.
abbrev pub IsText : List ℕ → Type 0
IsText = All (λ c. c < 0x110000)

encode_point-All : (c : ℕ) → c < 0x110000 → All IsByte (encode_point c)
unfolding encode_point
encode_point-All c h = ground arith

pub encode-All : (s : List ℕ) → IsText s → All IsByte (encode s)
unfolding encode
encode-All [] h = tt
encode-All (c ∷ s) h =
    All-append IsByte (encode_point c) (encode s) (encode_point-All c h.0) (encode-All s h.1)

-- Whether base64 can be written does not depend on the bytes.
pub encodes :
    (base64 : Base64) (bytes more : List ℕ) (text : String)
    → uint8_array_to_base64 base64 bytes ≡ ok text
    → (other : String) × (uint8_array_to_base64 base64 more ≡ ok other)
unfolding uint8_array_to_base64
encodes (browser atob btoa) bytes more text e = (btoa more, refl)
encodes (buffer from to) bytes more text e = (to more, refl)
encodes unavailable bytes more text e = absurd (ground arith)

take_first : (n : ℕ) (xs ys : List ℕ) → length xs ≡ n → take n (xs ++ ys) ≡ xs
take_first n xs ys h = rw (← h) (take-append xs ys)

drop_first : (n : ℕ) (xs ys : List ℕ) → length xs ≡ n → drop n (xs ++ ys) ≡ ys
drop_first n xs ys h = rw (← h) (drop-append xs ys)

-- Behind the first two parts of a frame, and behind the first three.
drop_two : (a b rest : List ℕ) (n : ℕ) → length a + length b ≡ n → drop n (a ++ (b ++ rest)) ≡ rest
drop_two a b rest n h =
    rw (← append_assoc a b rest) (drop_first n (a ++ b) rest (omega (arith, length-append a b)))

drop_three :
    (a b c rest : List ℕ) (n : ℕ)
    → length a + length b + length c ≡ n
    → drop n (a ++ (b ++ (c ++ rest))) ≡ rest
drop_three a b c rest n h =
    rw (← append_assoc a b (c ++ rest))
      (drop_two (a ++ b) c rest n (omega (arith, length-append a b)))

module _ (tools : Tools) where
  -- The parts of a frame are read back.
  pub decode_payload-frame :
      (prefix blob : List ℕ) (sealed : Aes.Encrypted) (keys : String)
      → length sealed.iv ≡ 12
      → length sealed.tag ≡ 16
      → encode_uint32 (Leb128.natural (length blob)) ≡ ok prefix
      → uint8_array_to_base64 tools.base64 blob ≡ ok keys
      → decode_payload tools (frame tools prefix blob sealed)
        ≡ ok (record {
          iv = sealed.iv;
          tag = sealed.tag;
          keys = keys;
          ciphertext = sealed.ciphertext;
        })
  unfolding decode_payload frame
  decode_payload-frame prefix blob sealed keys hi ht he hk =
      let rest = blob ++ sealed.ciphertext in
      let size : length (sealed.iv ++ sealed.tag) ≡ 28 =
        omega (arith, length-append sealed.iv sealed.tag) in
      let read : decode_uint32 (sealed.iv ++ (sealed.tag ++ (prefix ++ rest))) 28
          ≡ ok (record { value = length blob; next_index = 28 + length prefix }) =
        rw (← append_assoc sealed.iv sealed.tag (prefix ++ rest), ← size)
          (decode_uint32-encode_uint32 (length blob) prefix (sealed.iv ++ sealed.tag) rest he) in
      let behind : drop (28 + length prefix) (sealed.iv ++ (sealed.tag ++ (prefix ++ rest)))
          ≡ rest =
        drop_three sealed.iv sealed.tag prefix rest (28 + length prefix) (omega arith) in
      let last : drop (28 + length prefix + length blob)
            (sealed.iv ++ (sealed.tag ++ (prefix ++ rest)))
          ≡ sealed.ciphertext =
        rw (← append_assoc sealed.iv sealed.tag (prefix ++ rest)) (
          drop_three (sealed.iv ++ sealed.tag) prefix blob sealed.ciphertext
            (28 + length prefix + length blob) (omega (arith, size))) in
      let no_iv : drop 12 (sealed.iv ++ (sealed.tag ++ (prefix ++ rest)))
          ≡ sealed.tag ++ (prefix ++ rest) =
        drop_first 12 sealed.iv (sealed.tag ++ (prefix ++ rest)) hi in
      rw
        (
          read,
          last,
          behind,
          take_first (length blob) blob sealed.ciphertext refl,
          hk,
          no_iv,
          take_first 12 sealed.iv (sealed.tag ++ (prefix ++ rest)) hi,
          take_first 16 sealed.tag (prefix ++ rest) ht,
        )
        refl

  -- The bytes of a frame are bytes if those of its parts are.
  pub frame-All :
      (prefix blob : List ℕ) (sealed : Aes.Encrypted)
      → All IsByte prefix
      → All IsByte blob
      → All IsByte sealed.iv
      → All IsByte sealed.tag
      → All IsByte sealed.ciphertext
      → All IsByte (frame tools prefix blob sealed)
  unfolding frame
  frame-All prefix blob sealed hp hb hi ht hc = All-append IsByte sealed.iv _ hi (
      All-append IsByte sealed.tag _ ht
        (All-append IsByte prefix _ hp (All-append IsByte blob _ hb hc)))
