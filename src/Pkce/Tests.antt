-- ===== src/Pkce/Tests.antt =====
-- A run with a random source of equal bytes and a constant hash.
use workos_node.Prelude.{ℕ, ◌<◌, ◌≤◌, ◌≡◌, ◌⊎◌, refl, List, [], ◌∷◌, length, All, ok, err}
use workos_node.Crypto.{encode}
use workos_node.Pkce.{
  PkcePair, out_of_range, without_padding, base64_url_encode, generate_code_verifier, generate,
}
use workos_node.Pkce.Encoder.{btoa-IsBtoa}
use workos_node.Pkce.Toy.{source, drawn-IsRandom, hash_bytes}
use workos_node.Pkce.Laws.{IsUrlSafe, generate_code_verifier_shape, generate_pair}

encoded :
    base64_url_encode source (251 ∷ 255 ∷ 191 ∷ 0 ∷ [])
    ≡ b'-' ∷ b'_' ∷ b'-' ∷ b'_' ∷ b'A' ∷ b'A' ∷ []
unfolding base64_url_encode without_padding
encoded = refl

generate_code_verifier_shape_example :
    ((43 ≤ 44)
      × (44 ≤ 128)
      × (v : List ℕ) × (generate_code_verifier source 44 ≡ ok v)
      × (length v ≡ 44)
      × All IsUrlSafe v)
    ⊎ (((44 < 43) ⊎ (128 < 44)) × (generate_code_verifier source 44 ≡ err (out_of_range 44)))
generate_code_verifier_shape_example =
    generate_code_verifier_shape source btoa-IsBtoa drawn-IsRandom 44

generate_pair_example :
    (p : PkcePair) × (generate source ≡ ok p)
    × (length (p.code_verifier) ≡ 43)
    × All IsUrlSafe (p.code_verifier)
    × (p.code_challenge ≡ base64_url_encode source (source.sha256 (encode (p.code_verifier))))
    × (length (p.code_challenge) ≡ 43)
    × All IsUrlSafe (p.code_challenge)
generate_pair_example = generate_pair source btoa-IsBtoa drawn-IsRandom hash_bytes
