-- ===== src/Leb128/Decode.antt =====
-- `decodeUInt32` on any input, well formed or not.
use workos_node.Prelude.{
  ℕ, zero, suc, ◌+◌, ◌^◌, ◌≤◌, ◌<◌, ◌≡◌, List, [], ◌∷◌, ◌&&◌, length, drop, All, arith, ltb, leb,
  if◌then◌else◌, Result, ok, err,
}
use workos_node.Prelude.Bits.{bit_and_top}
use workos_node.Leb128.{
  Error, truncated, exceeds_maximum_length, offset_out_of_bounds, Decoded, add_group, decode_loop,
  validate_offset, decode_uint32,
}

decode_loop_takes :
    (bytes : List ℕ) (index bytes_read shift result : ℕ) (d : Decoded)
    → bytes_read ≤ 5
    → decode_loop bytes index bytes_read shift result ≡ ok d
    → (d.value < 2 ^ 32)
      × (index < d.next_index)
      × (d.next_index ≤ index + length bytes)
      × (d.next_index + bytes_read ≤ index + 5)
unfolding decode_loop
decode_loop_takes [] index bytes_read shift result d h e = cc
decode_loop_takes (byte ∷ rest) index bytes_read shift result d h e = ground (
  arith,
  decode_loop_takes rest (index + 1) (bytes_read + 1) (shift + 7) (add_group result byte shift) d,
)

length-drop :
    {A : Type 0} (n : ℕ) (xs : List A) → n ≤ length xs → length (drop n xs) + n ≡ length xs
length-drop zero xs h = omega arith
length-drop (suc n) [] h = absurd (omega arith)
length-drop (suc n) (x ∷ xs) h = omega (arith, length-drop n xs (omega arith))

-- A decode that returns gives a number below 2^32 after 1 to 5 bytes, and the index behind them
-- lies in the buffer.
pub decode_uint32_takes :
    (bytes : List ℕ) (offset : ℕ) (d : Decoded)
    → decode_uint32 bytes offset ≡ ok d
    → (d.value < 2 ^ 32)
      × (offset < d.next_index)
      × (d.next_index ≤ offset + 5)
      × (d.next_index ≤ length bytes)
unfolding decode_uint32 validate_offset
decode_uint32_takes bytes offset d e =
    ground (arith, decode_loop_takes (drop offset bytes) offset 0 0 0 d, length-drop offset bytes)

-- How many bytes at the front carry the continuation bit.
unfoldable pub run_length : List ℕ → ℕ
run_length [] = 0
run_length (byte ∷ rest) = if ltb byte 128 then 0 else suc (run_length rest)

pub data Outcome : Type 0 where
  returns : ℕ → Outcome
  throws : Error → Outcome

abbrev pub outcome : Result Error Decoded → Outcome
outcome (ok d) = returns d.next_index
outcome (err e) = throws e

-- What the decoder owes, read off the run of continuation bytes and what is left of the buffer.
abbrev pub verdict : ℕ → ℕ → ℕ → ℕ → Outcome
verdict index bytes_read run left =
    if ltb (bytes_read + run) 5 && ltb run left
    then returns (index + run + 1)
    else if ltb 5 (bytes_read + left)
    then throws exceeds_maximum_length
    else throws truncated

outcome-decode_loop :
    (bytes : List ℕ) (index bytes_read shift result : ℕ)
    → All (λ b. b < 256) bytes
    → bytes_read ≤ 5
    → outcome (decode_loop bytes index bytes_read shift result)
      ≡ verdict index bytes_read (run_length bytes) (length bytes)
unfolding decode_loop run_length
outcome-decode_loop [] index bytes_read shift result h hb = ground arith
outcome-decode_loop (byte ∷ rest) index bytes_read shift result (hb, h) hr = ground (
  arith,
  bit_and_top byte,
  outcome-decode_loop rest (index + 1) (bytes_read + 1) (shift + 7) (add_group result byte shift) h,
)

All-drop : (P : ℕ → Type 0) (n : ℕ) (xs : List ℕ) → All P xs → All P (drop n xs)
All-drop P zero xs h = h
All-drop P (suc n) [] h = h
All-drop P (suc n) (x ∷ xs) h = All-drop P n xs h.1

-- On any bytes, which of its three errors the decoder throws, and where it stops if it returns: an
-- offset outside the buffer; more than five bytes with no end among the first five; a buffer that
-- ends first; otherwise the index behind the first byte with no continuation bit.
pub outcome-decode_uint32 :
    (bytes : List ℕ) (offset : ℕ)
    → All (λ b. b < 256) bytes
    → outcome (decode_uint32 bytes offset) ≡ (
        if leb (length bytes) offset
        then throws offset_out_of_bounds
        else verdict offset 0 (run_length (drop offset bytes)) (length (drop offset bytes)))
unfolding decode_uint32 validate_offset
outcome-decode_uint32 bytes offset h = ground (
  arith,
  outcome-decode_loop (drop offset bytes) offset 0 0 0 (All-drop (λ b. b < 256) offset bytes h),
)
