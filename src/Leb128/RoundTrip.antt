-- ===== src/Leb128/RoundTrip.antt =====
-- `decodeUInt32` reads back what `encodeUInt32` wrote.
use workos_node.Prelude.{
  ℕ, zero, suc, ◌+◌, ◌*◌, ◌/◌, ◌%◌, ◌^◌, ◌<◌, ◌≡◌, ap, List, ◌∷◌, ◌++◌, length, length-append,
  drop-append, arith, ok,
}
use workos_node.Prelude.Bits.{bit_and_top, bit_and_low7, bit_or_disjoint}
use workos_node.Leb128.{
  Number, add_group, decode_loop, validate_offset, decode_uint32, encode_uint32,
}
use workos_node.Leb128.Encode.{groups, length-groups, encode_uint32_shape}
use native.Mathlib.Nat.{div-add-mod}
use native.Mathlib.Numerals.{towards_suc}

-- A group is added above the digits that were read.
add_group_lem :
    (result byte shift : ℕ)
    → result < 2 ^ shift
    → shift < 32
    → byte % 128 * 2 ^ shift < 2 ^ 32
    → add_group result byte shift ≡ result + byte % 128 * 2 ^ shift
unfolding add_group
add_group_lem result byte shift fits small below =
    let s : shift % 32 ≡ shift = omega arith in
    rw (s, bit_and_low7 byte) (ground (arith, bit_or_disjoint shift result (byte % 128)))

last_byte :
    (w index bytes_read shift result : ℕ) (rest : List ℕ)
    → w < 128
    → bytes_read < 5
    → result < 2 ^ shift
    → shift < 32
    → result + w * 2 ^ shift < 2 ^ 32
    → decode_loop (w ∷ rest) index bytes_read shift result
      ≡ ok (record { value = result + w * 2 ^ shift; next_index = index + 1 })
unfolding decode_loop
last_byte w index bytes_read shift result rest hw hb hr hs fits =
    ground (arith, bit_and_top w, add_group_lem result w shift)

inner_byte :
    (g index bytes_read shift result : ℕ) (rest : List ℕ)
    → g < 128
    → bytes_read < 5
    → result < 2 ^ shift
    → shift < 32
    → result + g * 2 ^ shift < 2 ^ 32
    → decode_loop ((g + 128) ∷ rest) index bytes_read shift result
      ≡ decode_loop rest (index + 1) (bytes_read + 1) (shift + 7) (result + g * 2 ^ shift)
unfolding decode_loop
inner_byte g index bytes_read shift result rest hg hb hr hs fits =
    ground (arith, bit_and_top (g + 128), add_group_lem result (g + 128) shift)

pow_seven : (s : ℕ) → 2 ^ (s + 7) ≡ 128 * 2 ^ s
pow_seven s = simp towards_suc (omega arith)

-- The lowest group of `w` and the rest of it, both shifted.
lowest_group : (w s : ℕ) → w * 2 ^ s ≡ w % 128 * 2 ^ s + w / 128 * 2 ^ (s + 7)
lowest_group w s =
    let whole = ap (λ (t : ℕ). t * 2 ^ s) (div-add-mod w 128) in
    let shifted = ap (λ (t : ℕ). w / 128 * t) (pow_seven s) in omega (arith, whole, shifted)

group_fits : (result g s : ℕ) → result < 2 ^ s → g < 128 → result + g * 2 ^ s < 2 ^ (s + 7)
group_fits result g s h hg = grind (arith, pow_seven s)

decode_loop-groups :
    (k w index bytes_read shift result : ℕ) (rest : List ℕ)
    → w < 128 ^ suc k
    → bytes_read + k < 5
    → shift ≡ 7 * bytes_read
    → result < 2 ^ shift
    → result + w * 2 ^ shift < 2 ^ 32
    → decode_loop (groups k w ++ rest) index bytes_read shift result
      ≡ ok (record { value = result + w * 2 ^ shift; next_index = index + length (groups k w) })
unfolding groups
decode_loop-groups zero w index bytes_read shift result rest hw hb hs hr fits =
    last_byte w index bytes_read shift result rest hw (omega arith) hr (omega arith) fits
decode_loop-groups (suc k) w index bytes_read shift result rest hw hb hs hr fits = ground (
  arith,
  last_byte w index bytes_read shift result rest,
  inner_byte (w % 128) index bytes_read shift result (groups k (w / 128) ++ rest),
  lowest_group w shift,
  group_fits result (w % 128) shift,
  decode_loop-groups k (w / 128) (index + 1) (bytes_read + 1) (shift + 7)
      (result + w % 128 * 2 ^ shift) rest (omega arith),
)

-- Decoding at the offset where an encoding stands gives the number back with the index behind the
-- encoding, whatever stands before and after it.
pub decode_uint32-encode_uint32 :
    (v : ℕ) (bytes before after : List ℕ)
    → encode_uint32 (Number.natural v) ≡ ok bytes
    → decode_uint32 (before ++ (bytes ++ after)) (length before)
      ≡ ok (record { value = v; next_index = length before + length bytes })
unfolding decode_uint32 validate_offset
decode_uint32-encode_uint32 v bytes before after e =
    let (u, eu, hu, same, lo, hi, all) = encode_uint32_shape (Number.natural v) bytes e in
    let vu : v ≡ u = cc in
    rw (same, vu)
      (ground (
        arith,
        drop-append before (groups 4 u ++ after),
        length-append before (groups 4 u ++ after),
        length-append (groups 4 u) after,
        length-groups 4 u,
        decode_loop-groups 4 u (length before) 0 0 0 after (omega arith),
      ))
