-- ===== src/Pkce/Toy.antt =====
-- A runtime whose random bytes are all equal and whose hash is constant, with the base64 of RFC 4648.
use workos_node.Prelude.{ℕ, zero, suc, ◌≡◌, refl, List, [], ◌∷◌, length, All, arith}
use workos_node.Crypto.Hex.{IsByte}
use workos_node.Crypto.Aes.{IsRandom}
use workos_node.Pkce.{Source}
use workos_node.Pkce.Encoder.{btoa}

abbrev drawn : ℕ → List ℕ
drawn zero = []
drawn (suc n) = 251 ∷ drawn n

abbrev pub hash : List ℕ → List ℕ
hash bytes = drawn 32

abbrev pub source : Source
source = record { random = drawn; btoa = btoa; sha256 = hash }

drawn_size : (n : ℕ) → length (drawn n) ≡ n
drawn_size zero = refl
drawn_size (suc n) = omega (arith, drawn_size n)

drawn_bytes : (n : ℕ) → All IsByte (drawn n)
drawn_bytes zero = tt
drawn_bytes (suc n) = (omega arith, drawn_bytes n)

pub drawn-IsRandom : IsRandom drawn
drawn-IsRandom = record { size = drawn_size; bytes = drawn_bytes }

pub hash_bytes : (bytes : List ℕ) → All IsByte (hash bytes) × (length (hash bytes) ≡ 32)
hash_bytes bytes = (drawn_bytes 32, refl)
