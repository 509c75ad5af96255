-- ===== src/Crypto/Hex.antt =====
-- The hexadecimal form of a signature, and the comparison of two texts.
use workos_node.Prelude.{
  ℕ, ◌+◌, ◌-◌, ◌*◌, ◌/◌, ◌%◌, ◌<◌, ◌≤◌, ◌≡◌, refl, ◌↔◌, ◌⊎◌, true, false, List, [], ◌∷◌, ltb,
  length, All, arith,
}
use workos_node.Crypto.{Subtle, hex_digit, hex, encode, compute_hmac_signature, secure_compare}

abbrev pub IsByte : ℕ → Type 0
IsByte b = b < 256

-- One of 0-9 and a-f.
abbrev pub IsHexDigit : ℕ → Type 0
IsHexDigit c = ((b'0' ≤ c) × (c ≤ b'9')) ⊎ ((b'a' ≤ c) × (c ≤ b'f'))

hex_digit-IsHexDigit : (n : ℕ) → n < 16 → IsHexDigit (hex_digit n)
unfolding hex_digit
hex_digit-IsHexDigit n h = ground arith

-- The value of a digit.
digit_value : ℕ → ℕ
digit_value c = elim (ltb c b'a') [ true ↦ c - b'0' | false ↦ c - b'a' + 10 ]

digit_value-hex_digit : (n : ℕ) → n < 16 → digit_value (hex_digit n) ≡ n
unfolding digit_value hex_digit
digit_value-hex_digit n h = ground arith

-- The hexadecimal form has two digits for each byte, from 0-9 and a-f.
pub hex_shape :
    (bytes : List ℕ)
    → All IsByte bytes
    → All IsHexDigit (hex bytes) × (length (hex bytes) ≡ 2 * length bytes)
unfolding hex
hex_shape [] h = (tt, omega arith)
hex_shape (b ∷ bytes) (hb, h) =
    let (digits, len) = hex_shape bytes h in
    (
      (
        hex_digit-IsHexDigit (b / 16) (omega arith),
        (hex_digit-IsHexDigit (b % 16) (omega arith), digits),
      ),
      omega (arith, len),
    )

-- Buffers with the same hexadecimal form are the same.
pub hex_inj : (xs ys : List ℕ) → All IsByte xs → All IsByte ys → hex xs ≡ hex ys → xs ≡ ys
unfolding hex
hex_inj [] [] hx hy e = refl
hex_inj [] (y ∷ ys) hx hy e = cc
hex_inj (x ∷ xs) [] hx hy e = cc
hex_inj (x ∷ xs) (y ∷ ys) (bx, hx) (by, hy) e = ground (
  arith,
  digit_value-hex_digit (x / 16),
  digit_value-hex_digit (x % 16),
  digit_value-hex_digit (y / 16),
  digit_value-hex_digit (y % 16),
  hex_inj xs ys hx hy,
)

-- What the Web Crypto API documents of HMAC with SHA-256: a signature is 32 bytes, and `verify`
-- accepts exactly the signature that `sign` makes.
pub record IsHmac (subtle : Subtle) : Type 0 where
  pub size : (key message : List ℕ) → length (subtle.sign key message) ≡ 32
  pub bytes : (key message : List ℕ) → All IsByte (subtle.sign key message)
  pub checks :
      (key sig message : List ℕ)
      → (subtle.verify key sig message ≡ true) ↔ (sig ≡ subtle.sign key message)

module _ (subtle : Subtle) (hmac : IsHmac subtle) where
  -- A text compares equal to itself; texts that compare equal have, as bytes, one length and one
  -- signature under the key that was generated for the comparison.
  pub secure_compare_iff :
      (a b : List ℕ)
      → (secure_compare subtle a b ≡ true) ↔ (
          (length (encode a) ≡ length (encode b))
          × (subtle.sign subtle.fresh (encode a) ≡ subtle.sign subtle.fresh (encode b)))
  unfolding secure_compare
  secure_compare_iff a b =
      ground (arith, hmac.checks subtle.fresh (subtle.sign subtle.fresh (encode a)) (encode b))

  pub secure_compare_refl : (a : List ℕ) → secure_compare subtle a a ≡ true
  secure_compare_refl a = (secure_compare_iff a a).1 (refl, refl)

  -- A signature is 64 hexadecimal digits.
  pub compute_hmac_signature_shape :
      (payload secret : List ℕ)
      → All IsHexDigit (compute_hmac_signature subtle payload secret)
        × (length (compute_hmac_signature subtle payload secret) ≡ 64)
  unfolding compute_hmac_signature
  compute_hmac_signature_shape payload secret =
      let mac = subtle.sign (encode secret) (encode payload) in
      let (digits, len) = hex_shape mac (hmac.bytes (encode secret) (encode payload)) in
      (digits, omega (arith, len, hmac.size (encode secret) (encode payload)))
