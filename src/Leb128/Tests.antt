-- ===== src/Leb128/Tests.antt =====
-- The 32-bit codec at concrete inputs.
use workos_node.Prelude.{◌+◌, ◌≡◌, refl, [], ◌∷◌, ◌++◌, arith, ok, err}
use workos_node.Leb128.{
  natural, must_not_exceed_max, truncated, validate_uint32, encode_loop, encode_uint32,
  validate_offset, decode_loop, decode_uint32,
}
use workos_node.Leb128.Decode.{outcome-decode_uint32, outcome, throws, run_length}
use workos_node.Leb128.RoundTrip.{decode_uint32-encode_uint32}

codec : Unit {0}
unfolding encode_uint32 validate_uint32 encode_loop decode_uint32 validate_offset decode_loop
codec = tt

encode_300 : encode_uint32 (natural 300) ≡ ok (0xac ∷ 0x02 ∷ [])
unfolding codec
encode_300 = refl

encode_max : encode_uint32 (natural 0xffffffff) ≡ ok (0xff ∷ 0xff ∷ 0xff ∷ 0xff ∷ 0x0f ∷ [])
unfolding codec
encode_max = refl

encode_too_large : encode_uint32 (natural 0x100000000) ≡ err must_not_exceed_max
unfolding codec
encode_too_large = refl

decode_300 : decode_uint32 (9 ∷ 0xac ∷ 0x02 ∷ []) 1 ≡ ok (record { value = 300; next_index = 3 })
unfolding codec
decode_300 = refl

-- The top three bits of a fifth byte are dropped without an error.
decode_wide :
    decode_uint32 (0xff ∷ 0xff ∷ 0xff ∷ 0xff ∷ 0x7f ∷ []) 0
    ≡ ok (record { value = 0xffffffff; next_index = 5 })
unfolding codec
decode_wide = refl

decode_uint32-encode_uint32_example :
    decode_uint32 ((9 ∷ []) ++ ((0xac ∷ 0x02 ∷ []) ++ (7 ∷ []))) 1
    ≡ ok (record { value = 300; next_index = 1 + 2 })
decode_uint32-encode_uint32_example =
    decode_uint32-encode_uint32 300 (0xac ∷ 0x02 ∷ []) (9 ∷ []) (7 ∷ []) encode_300

outcome-decode_uint32_example : outcome (decode_uint32 (0x80 ∷ 0x80 ∷ []) 0) ≡ throws truncated
unfolding run_length
outcome-decode_uint32_example = outcome-decode_uint32 (0x80 ∷ 0x80 ∷ []) 0 (omega arith)
