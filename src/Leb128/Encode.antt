-- ===== src/Leb128/Encode.antt =====
-- What `encodeUInt32` writes.
use workos_node.Prelude.{
  ℕ, zero, suc, ◌+◌, ◌/◌, ◌%◌, ◌^◌, ◌≤◌, ◌<◌, ◌≡◌, refl, ap, ◌↔◌, List, [], ◌∷◌, ◌++◌, append_assoc,
  ltb, if◌then◌else◌, length, All, arith, ok,
}
use workos_node.Prelude.Bits.{bit_and_low7, bit_or_top}
use workos_node.Leb128.{
  Number, natural, not_finite, fraction, negative, validate_uint32, encode_loop, encode_uint32,
  max_uint32,
}

-- The format in plain arithmetic: the groups of seven bits of `v`, lowest first, each but the last
-- with the top bit set; for `v` below 128 ^ (k + 1).
unfoldable pub groups : ℕ → ℕ → List ℕ
groups zero v = v ∷ []
groups (suc k) v =
    let rest = groups k (v / 128) in if ltb v 128 then v ∷ [] else (v % 128 + 128) ∷ rest

encode_loop-groups :
    (k v : ℕ) (bytes : List ℕ)
    → v < 128 ^ suc k
    → v ≤ max_uint32
    → encode_loop (suc k) v bytes ≡ ok (bytes ++ groups k v)
unfolding encode_loop groups
encode_loop-groups zero v bytes h hm = ground (arith, bit_and_low7 v)
encode_loop-groups (suc k) v bytes h hm =
    let byte : List ℕ = (v % 128 + 128) ∷ [] in
    ground (
      arith,
      bit_and_low7 v,
      bit_or_top (v % 128),
      encode_loop-groups k (v / 128) (bytes ++ byte) (omega arith) (omega arith),
      append_assoc bytes byte (groups k (v / 128)),
    )

groups_zero : (v : ℕ) → v ≡ 0 → groups 4 v ≡ 0 ∷ []
unfolding groups
groups_zero v e = ground arith

-- Every number that passes the check is encoded, by its groups of seven bits.
pub encode_uint32-groups : (v : ℕ) → v ≤ max_uint32 → encode_uint32 (natural v) ≡ ok (groups 4 v)
unfolding encode_uint32 validate_uint32
encode_uint32-groups v h = ground (arith, encode_loop-groups 4 v [] (omega arith) h, groups_zero v)

pub length-groups : (k v : ℕ) → (1 ≤ length (groups k v)) × (length (groups k v) ≤ k + 1)
unfolding groups
length-groups zero v = omega arith
length-groups (suc k) v = ground (arith, length-groups k (v / 128))

groups-All : (k v : ℕ) → v < 128 ^ suc k → All (λ b. b < 256) (groups k v)
unfolding groups
groups-All zero v h = omega arith
groups-All (suc k) v h = ground (arith, groups-All k (v / 128) (omega arith))

encode_uint32_accepts :
    (n : Number) (bytes : List ℕ)
    → encode_uint32 n ≡ ok bytes
    → (v : ℕ) × (n ≡ natural v) × (v ≤ max_uint32)
unfolding encode_uint32 validate_uint32
encode_uint32_accepts not_finite bytes e = cc
encode_uint32_accepts fraction bytes e = cc
encode_uint32_accepts (negative k) bytes e = cc
encode_uint32_accepts (natural v) bytes e = (v, refl, ground arith)

-- A call that returns bytes was given a natural number that fits 32 bits; the bytes are its groups
-- of seven bits, 1 to 5 of them, each below 256.
pub encode_uint32_shape :
    (n : Number) (bytes : List ℕ)
    → encode_uint32 n ≡ ok bytes
    → (v : ℕ) × (n ≡ natural v)
      × (v ≤ max_uint32)
      × (bytes ≡ groups 4 v)
      × (1 ≤ length bytes)
      × (length bytes ≤ 5)
      × All (λ b. b < 256) bytes
encode_uint32_shape n bytes e =
    let (v, en, hv) = encode_uint32_accepts n bytes e in
    let written : encode_uint32 (natural v) ≡ ok (groups 4 v) = encode_uint32-groups v hv in
    let same : bytes ≡ groups 4 v = ground (arith, ap encode_uint32 en) in
    rw same
      (v, en, hv, refl, (length-groups 4 v).0, (length-groups 4 v).1, groups-All 4 v (omega arith))

-- `encodeUInt32` returns exactly for the natural numbers up to 2^32 - 1.
pub encode_uint32_total :
    (n : Number)
    → ((bytes : List ℕ) × (encode_uint32 n ≡ ok bytes))
      ↔ ((v : ℕ) × (n ≡ natural v) × (v ≤ max_uint32))
encode_uint32_total n = (
  λ r. let s = encode_uint32_shape n r.0 r.1 in (s.0, s.1, s.2),
  λ s. (groups 4 s.0, rw s.1 (encode_uint32-groups s.0 s.2)),
)
