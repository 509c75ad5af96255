-- ===== src/Query/Encoding.antt =====
-- What the encoding of a text leaves, and how it is read back.
use workos_node.Prelude.{
  ℕ, ◌/◌, ◌%◌, ◌<◌, ◌≡◌, refl, ◌≢◌, ap, Bool, true, false, ◌||◌, some, List, [], ◌∷◌, ◌++◌,
  append_assoc, append-nil, ◌==◌, any, if◌then◌else◌, All, arith,
}
use workos_node.Crypto.{encode}
use workos_node.Crypto.Hex.{IsByte}
use workos_node.Query.{
  is_unreserved, upper_digit, escaped, escape_byte, escape_bytes, is_surrogate,
  encode_uri_component, replace_spaces, escape_marks, encode_rfc1738,
}

-- The whole encoding of one byte: a space is a plus, and the three marks are escaped.
unfoldable pub form_byte : ℕ → List ℕ
form_byte b =
    if b == 32
    then b'+' ∷ []
    else if b == b'!' || b == 39 || b == b'*'
    then escaped b
    else escape_byte b

unfoldable pub form_bytes : List ℕ → List ℕ
unfolding form_byte
form_bytes [] = []
form_bytes (b ∷ bytes) = form_byte b ++ form_bytes bytes

-- An escape, or one character that is no percent sign.
replace_spaces-plain :
    (c : ℕ) (s : List ℕ) → c ≢ b'%' → replace_spaces (c ∷ s) ≡ c ∷ replace_spaces s
unfolding replace_spaces
replace_spaces-plain c [] h = refl
replace_spaces-plain c (d ∷ []) h = refl
replace_spaces-plain c (d ∷ e ∷ s) h = ground arith

pub reserved : (b d : ℕ) → is_unreserved b ≡ true → is_unreserved d ≡ false → b ≢ d
reserved b d h k e = cc

pub reserved_marks :
    (is_unreserved b'%' ≡ false)
    × (is_unreserved 32 ≡ false)
    × (is_unreserved b'+' ≡ false)
    × (is_unreserved b'&' ≡ false)
    × (is_unreserved b'=' ≡ false)
unfolding is_unreserved
reserved_marks = (refl, refl, refl, refl, refl)

abbrev is_mark : ℕ → Bool
is_mark b = b == b'!' || b == 39 || b == b'*'

mark_unreserved : (b : ℕ) → is_mark b ≡ true → is_unreserved b ≡ true
unfolding is_unreserved
mark_unreserved b h = ground arith

-- What is used of the digits of an escape.
upper_digit_facts :
    (n : ℕ)
    → n < 16
    → (upper_digit n ≢ b'%')
      × ((upper_digit n == b'2') ≡ (n == 2))
      × ((upper_digit n == b'0') ≡ (n == 0))
unfolding upper_digit
upper_digit_facts n h = ((λ e. ground arith), ground arith, ground arith)

spaced : ℕ → List ℕ
spaced b = if b == 32 then b'+' ∷ [] else escape_byte b

replace_spaces-escaped :
    (b : ℕ) (s : List ℕ)
    → b < 256
    → replace_spaces (escaped b ++ s)
      ≡ (if b == 32 then b'+' ∷ replace_spaces s else escaped b ++ replace_spaces s)
unfolding replace_spaces escaped
replace_spaces-escaped b s h =
    let (high, high_two, high_zero) = upper_digit_facts (b / 16) (omega arith) in
    let (low, low_two, low_zero) = upper_digit_facts (b % 16) (omega arith) in
    ground (
      arith,
      replace_spaces-plain (upper_digit (b / 16)) (upper_digit (b % 16) ∷ s) high,
      replace_spaces-plain (upper_digit (b % 16)) s low,
    )

replace_spaces-escape_byte :
    (b : ℕ) (s : List ℕ)
    → b < 256
    → replace_spaces (escape_byte b ++ s) ≡ spaced b ++ replace_spaces s
unfolding escape_byte spaced
replace_spaces-escape_byte b s h =
    let (percent, space, _, _, _) = reserved_marks in
    ground
      (arith, reserved b b'%', reserved b 32, replace_spaces-plain b s, replace_spaces-escaped b s)

escape_marks-append : (s t : List ℕ) → escape_marks (s ++ t) ≡ escape_marks s ++ escape_marks t
unfolding escape_marks
escape_marks-append [] t = refl
escape_marks-append (c ∷ s) t =
    ground
      (arith, escape_marks-append s t, append_assoc (escaped c) (escape_marks s) (escape_marks t))

digit_unmarked : (n : ℕ) → n < 16 → is_mark (upper_digit n) ≡ false
unfolding upper_digit
digit_unmarked n h = ground arith

escape_marks-escaped : (b : ℕ) → b < 256 → escape_marks (escaped b) ≡ escaped b
unfolding escape_marks escaped
escape_marks-escaped b h =
    let high = digit_unmarked (b / 16) (omega arith) in
    let low = digit_unmarked (b % 16) (omega arith) in ground arith

escape_marks-spaced : (b : ℕ) → b < 256 → escape_marks (spaced b) ≡ form_byte b
unfolding escape_marks spaced escape_byte form_byte
escape_marks-spaced b h =
    let (percent, space, _, _, _) = reserved_marks in
    ground (arith, reserved b 32, mark_unreserved b, append-nil (escaped b), escape_marks-escaped b)

escape_marks-form_bytes :
    (bytes : List ℕ)
    → All IsByte bytes
    → escape_marks (replace_spaces (escape_bytes bytes)) ≡ form_bytes bytes
unfolding escape_bytes form_bytes replace_spaces escape_marks
escape_marks-form_bytes [] h = refl
escape_marks-form_bytes (b ∷ bytes) (hb, h) =
    rw
      (
        replace_spaces-escape_byte b (escape_bytes bytes) hb,
        escape_marks-append (spaced b) (replace_spaces (escape_bytes bytes)),
        escape_marks-spaced b hb,
        escape_marks-form_bytes bytes h,
      )
      refl

-- Unless there is half a pair of surrogates, a text is encoded, byte by byte of its UTF-8.
pub encode_rfc1738-form_bytes :
    (s : List ℕ)
    → any is_surrogate s ≡ false
    → All IsByte (encode s)
    → encode_rfc1738 s ≡ some (form_bytes (encode s))
unfolding encode_rfc1738 encode_uri_component
encode_rfc1738-form_bytes s whole small =
    rw (encode_rfc1738, encode_uri_component, whole)
      (ap some (escape_marks-form_bytes (encode s) small))
