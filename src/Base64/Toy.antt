-- ===== src/Base64/Toy.antt =====
-- A small text form of bytes, in the place of base64: each byte in unary.
use Prim.Native.Char.{code}
use workos_node.Prelude.{
  ℕ, zero, suc, ◌+◌, ◌≡◌, refl, ap, String, List, [], ◌∷◌, Option, none, some, All, ◌==◌,
  if◌then◌else◌, ok, arith,
}
use workos_node.Js.{Value, str}
use workos_node.Crypto.Hex.{IsByte}
use workos_node.Base64.{
  Base64, browser, stored, IsBase64, base64_to_uint8_array, uint8_array_to_base64,
}

abbrev strokes : ℕ → String → String
strokes zero s = s
strokes (suc n) s = String.◌∷◌ "a" (strokes n s)

abbrev pub to_text : List ℕ → String
to_text [] = String.[]
to_text (b ∷ bytes) = strokes b (String.◌∷◌ "." (to_text bytes))

abbrev counted : ℕ → String → List ℕ
counted n String.[] = []
counted n (String.◌∷◌ c s) =
    let more = counted (suc n) s in
    let next = counted 0 s in if code c == b'a' then more else n ∷ next

abbrev of_text : Value → Option (List ℕ)
of_text (str s) = some (counted 0 s)
of_text v = none

abbrev pub toy_base64 : Base64
toy_base64 = browser of_text to_text

counted-strokes :
    (b n : ℕ) (s : String) → counted n (strokes b (String.◌∷◌ "." s)) ≡ (n + b) ∷ counted 0 s
counted-strokes zero n s = ground arith
counted-strokes (suc b) n s = ground (arith, counted-strokes b (suc n) s)

stored-counted : (bytes : List ℕ) → All IsByte bytes → stored (counted 0 (to_text bytes)) ≡ bytes
unfolding stored
stored-counted [] h = refl
stored-counted (b ∷ bytes) h =
    rw (counted-strokes b 0 (to_text bytes)) (ground (arith, stored-counted bytes))

stored-All : (codes : List ℕ) → All IsByte (stored codes)
unfolding stored
stored-All [] = tt
stored-All (c ∷ codes) = (omega arith, stored-All codes)

decodes :
    (text : Value) (bytes : List ℕ)
    → base64_to_uint8_array toy_base64 text ≡ ok bytes
    → All IsByte bytes
unfolding base64_to_uint8_array
decodes (str s) bytes e =
    let same : stored (counted 0 s) ≡ bytes = ground arith in rw (← same) (stored-All (counted 0 s))
decodes v bytes e = absurd (ground arith)

inverts :
    (bytes : List ℕ) (text : String)
    → All IsByte bytes
    → uint8_array_to_base64 toy_base64 bytes ≡ ok text
    → base64_to_uint8_array toy_base64 (str text) ≡ ok bytes
unfolding base64_to_uint8_array uint8_array_to_base64
inverts bytes text h e =
    let same : to_text bytes ≡ text = ground arith in rw (← same) (ap ok (stored-counted bytes h))

pub toy_base64-IsBase64 : IsBase64 toy_base64
toy_base64-IsBase64 = record { decodes = decodes; inverts = inverts }
