-- ===== src/Pkce/Encoder.antt =====
-- The base64 of RFC 4648, in the place of `btoa`.
use workos_node.Prelude.{
  ℕ, ◌+◌, ◌-◌, ◌*◌, ◌/◌, ◌%◌, ◌<◌, ◌≡◌, refl, List, [], ◌∷◌, ◌++◌, ltb, ◌==◌, if_elim,
  if◌then◌else◌, length, All, arith,
}
use workos_node.Crypto.Hex.{IsByte}
use workos_node.Pkce.Laws.{IsBase64Char, IsBtoa}

abbrev digit : ℕ → ℕ
digit n =
    if ltb n 26
    then b'A' + n
    else if ltb n 52
    then b'a' + (n - 26)
    else if ltb n 62
    then b'0' + (n - 52)
    else if n == 62
    then b'+'
    else b'/'

abbrev body : List ℕ → List ℕ
body [] = []
body (a ∷ []) = digit (a / 4) ∷ digit (a % 4 * 16) ∷ []
body (a ∷ b ∷ []) = digit (a / 4) ∷ digit (a % 4 * 16 + b / 16) ∷ digit (b % 16 * 4) ∷ []
body (a ∷ b ∷ c ∷ s) =
    digit (a / 4)
    ∷ digit (a % 4 * 16 + b / 16)
    ∷ digit (b % 16 * 4 + c / 64)
    ∷ digit (c % 64)
    ∷ body s

abbrev padding : List ℕ → List ℕ
padding [] = []
padding (a ∷ []) = b'=' ∷ b'=' ∷ []
padding (a ∷ b ∷ []) = b'=' ∷ []
padding (a ∷ b ∷ c ∷ s) = padding s

abbrev pub btoa : List ℕ → List ℕ
btoa bytes = body bytes ++ padding bytes

digit-IsBase64Char : (n : ℕ) → n < 64 → IsBase64Char (digit n)
digit-IsBase64Char n h =
    if_elim IsBase64Char (ltb n 26) _ _ (λ e. ground arith)
      (λ e.
        if_elim IsBase64Char (ltb n 52) _ _ (λ f. ground arith)
          (λ f.
            if_elim IsBase64Char (ltb n 62) _ _ (λ g. ground arith)
              (λ g. if_elim IsBase64Char (n == 62) _ _ (λ k. ground arith) (λ k. ground arith))))

body_chars : (s : List ℕ) → All IsByte s → All IsBase64Char (body s)
body_chars [] h = tt
body_chars (a ∷ []) h =
    (digit-IsBase64Char (a / 4) (omega arith), (digit-IsBase64Char (a % 4 * 16) (omega arith), tt))
body_chars (a ∷ b ∷ []) h = (
  digit-IsBase64Char (a / 4) (omega arith),
  (
    digit-IsBase64Char (a % 4 * 16 + b / 16) (omega arith),
    (digit-IsBase64Char (b % 16 * 4) (omega arith), tt),
  ),
)
body_chars (a ∷ b ∷ c ∷ s) (ha, (hb, (hc, h))) = (
  digit-IsBase64Char (a / 4) (omega arith),
  (
    digit-IsBase64Char (a % 4 * 16 + b / 16) (omega arith),
    (
      digit-IsBase64Char (b % 16 * 4 + c / 64) (omega arith),
      (digit-IsBase64Char (c % 64) (omega arith), body_chars s h),
    ),
  ),
)

body_size : (s : List ℕ) → length (body s) ≡ (4 * length s + 2) / 3
body_size [] = omega arith
body_size (a ∷ []) = omega arith
body_size (a ∷ b ∷ []) = omega arith
body_size (a ∷ b ∷ c ∷ s) = omega (arith, body_size s)

padding_padded : (s : List ℕ) → All (λ c. c ≡ b'=') (padding s)
padding_padded [] = tt
padding_padded (a ∷ []) = (refl, (refl, tt))
padding_padded (a ∷ b ∷ []) = (refl, tt)
padding_padded (a ∷ b ∷ c ∷ s) = padding_padded s

pub btoa-IsBtoa : IsBtoa btoa
btoa-IsBtoa = record {
  body = body;
  padding = padding;
  whole = (λ bytes. refl);
  chars = body_chars;
  padded = padding_padded;
  size = body_size;
}
