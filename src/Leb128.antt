-- ===== src/Leb128.antt =====
-- src/common/utils/leb128.ts: unsigned 32-bit integers in 1 to 5 bytes, seven bits a byte. A
-- Uint8Array is a list of numbers. A JavaScript number is a `Number`, so that the checks of
-- `validateUInt32` have something to refuse; inside the loops the value is a natural number, and
-- the 32-bit operators are written out on the unsigned bit pattern.
pub mod Encode
pub mod Decode
pub mod RoundTrip
mod Tests
use workos_node.Prelude.{
  ℕ, zero, suc, ◌+◌, ◌*◌, ◌/◌, ◌%◌, ◌^◌, ◌<◌, bit_and, bit_or, Bool, true, false, List, [], ◌∷◌,
  ◌++◌, ltb, leb, ◌==◌, if◌then◌else◌, length, drop, Result, ok, err, ◌>>=◌,
}

-- What `Number.isFinite`, `Number.isInteger` and `< 0` tell apart.
pub data Number : Type 0 where
  not_finite : Number
  fraction : Number
  negative : ℕ → Number
  natural : ℕ → Number

pub data Error : Type 0 where
  must_be_finite must_be_integer must_be_non_negative must_not_exceed_max : Error
  offset_out_of_bounds exceeds_maximum_length truncated : Error
  stuck : Error

abbrev pub max_uint32 : ℕ
max_uint32 = 0xffffffff

abbrev pub max_bytes_for_uint32 : ℕ
max_bytes_for_uint32 = 5

abbrev pub data_bits_per_byte : ℕ
data_bits_per_byte = 7

-- `negative n` stands for -(n + 1).
unfoldable pub validate_uint32 : Number → Result Error ℕ
validate_uint32 not_finite = err must_be_finite
validate_uint32 fraction = err must_be_integer
validate_uint32 (negative n) = err must_be_non_negative
validate_uint32 (natural v) = if ltb max_uint32 v then err must_not_exceed_max else ok v

-- The `do … while (value !== 0)` loop, on fuel; `>>>=` acts on the unsigned 32-bit value.
unfoldable pub encode_loop : ℕ → ℕ → List ℕ → Result Error (List ℕ)
encode_loop zero value bytes = err stuck
encode_loop (suc fuel) value bytes =
    let byte = bit_and value 0x7f in
    let value' = value % 2 ^ 32 / 2 ^ data_bits_per_byte in
    let more = encode_loop fuel value' (bytes ++ (bit_or byte 0x80 ∷ [])) in
    if value' == 0 then ok (bytes ++ (byte ∷ [])) else more

-- Five rounds are enough for a value that passed the check.
unfoldable pub encode_uint32 : Number → Result Error (List ℕ)
encode_uint32 number = do
  value ← validate_uint32 number
  if value == 0 then ok (0 ∷ []) else encode_loop max_bytes_for_uint32 value []

pub has_continuation_bit : ℕ → Bool
has_continuation_bit byte = if bit_and byte 0x80 == 0 then false else true

-- `result |= (byte & 0x7f) << shift`: a 32-bit shift by `shift & 31`.
pub add_group : ℕ → ℕ → ℕ → ℕ
add_group result byte shift = bit_or result (bit_and byte 0x7f * 2 ^ (shift % 32) % 2 ^ 32)

pub record Decoded : Type 0 where
  pub value : ℕ
  pub next_index : ℕ

-- The `while (index < data.length)` loop over the bytes from `index` on.
pub decode_loop : List ℕ → ℕ → ℕ → ℕ → ℕ → Result Error Decoded
unfolding has_continuation_bit add_group
decode_loop [] index bytes_read shift result = err truncated
decode_loop (byte ∷ rest) index bytes_read shift result =
    let result' = add_group result byte shift in
    let more = decode_loop rest (index + 1) (bytes_read + 1) (shift + data_bits_per_byte) result' in
    if ltb max_bytes_for_uint32 (bytes_read + 1)
    then err exceeds_maximum_length
    else if has_continuation_bit byte
    then more
    else ok (record { value = result' % 2 ^ 32; next_index = index + 1 })

pub validate_offset : List ℕ → ℕ → Result Error ℕ
validate_offset bytes offset =
    if leb (length bytes) offset then err offset_out_of_bounds else ok offset

pub decode_uint32 : List ℕ → ℕ → Result Error Decoded
decode_uint32 bytes offset = do
  start ← validate_offset bytes offset
  decode_loop (drop start bytes) start 0 0 0
