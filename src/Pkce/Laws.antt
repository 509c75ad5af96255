-- ===== src/Pkce/Laws.antt =====
-- The length and the characters of what is generated.
use workos_node.Prelude.{
  ℕ, ◌+◌, ◌*◌, ◌/◌, ◌<◌, ◌≤◌, ◌≡◌, refl, ◌⊎◌, ap, ◌∙◌, min, false, ◌||◌, List, [], ◌∷◌, ◌++◌, ltb,
  ◌>>=◌, ◌==◌, if_elim, Bool-cases, inl, inr, map, take, length, length-take, All, All-take, Result,
  ok, err, arith,
}
use workos_node.Crypto.{encode}
use workos_node.Crypto.Hex.{IsByte}
use workos_node.Crypto.Aes.{IsRandom}
use workos_node.Pkce.{
  PkceError, out_of_range, Source, PkcePair, url_safe, without_padding, base64_url_encode,
  generate_code_verifier, generate_code_challenge, generate, s256,
}

-- Letters and digits.
abbrev IsAlphanumeric : ℕ → Type 0
IsAlphanumeric c =
    ((b'a' ≤ c) × (c ≤ b'z')) ⊎ (((b'A' ≤ c) × (c ≤ b'Z')) ⊎ ((b'0' ≤ c) × (c ≤ b'9')))

abbrev pub IsBase64Char : ℕ → Type 0
IsBase64Char c = IsAlphanumeric c ⊎ ((c ≡ b'+') ⊎ (c ≡ b'/'))

-- What RFC 7636 allows in a verifier, less the dot and the tilde.
abbrev pub IsUrlSafe : ℕ → Type 0
IsUrlSafe c = IsAlphanumeric c ⊎ ((c ≡ b'-') ⊎ (c ≡ b'_'))

-- `btoa` as documented: six bits a character, then padding.
pub record IsBtoa (btoa : List ℕ → List ℕ) : Type 0 where
  pub body : List ℕ → List ℕ
  pub padding : List ℕ → List ℕ
  pub whole : (bytes : List ℕ) → btoa bytes ≡ body bytes ++ padding bytes
  pub chars : (bytes : List ℕ) → All IsByte bytes → All IsBase64Char (body bytes)
  pub padded : (bytes : List ℕ) → All (λ c. c ≡ b'=') (padding bytes)
  pub size : (bytes : List ℕ) → length (body bytes) ≡ (4 * length bytes + 2) / 3

url_safe-IsUrlSafe : (c : ℕ) → IsBase64Char c → IsUrlSafe (url_safe c)
url_safe-IsUrlSafe c h =
    if_elim IsUrlSafe (c == b'+') _ _ (λ e. omega arith)
      (λ e. if_elim IsUrlSafe (c == b'/') _ _ (λ f. omega arith) (λ f. ground arith))

map-IsUrlSafe : (s : List ℕ) → All IsBase64Char s → All IsUrlSafe (map url_safe s)
map-IsUrlSafe [] h = tt
map-IsUrlSafe (c ∷ s) (hc, h) = (url_safe-IsUrlSafe c hc, map-IsUrlSafe s h)

without_padding-none : (s : List ℕ) → All (λ c. c ≡ b'=') s → without_padding (map url_safe s) ≡ []
unfolding without_padding
without_padding-none [] h = refl
without_padding-none (c ∷ s) (hc, h) = rw (without_padding-none s h, hc) refl

no_padding : (c : ℕ) → IsUrlSafe c → (c == b'=') ≡ false
no_padding c h = ground arith

without_padding-body :
    (s t : List ℕ) → All IsUrlSafe s → without_padding t ≡ [] → without_padding (s ++ t) ≡ s
unfolding without_padding
without_padding-body [] t h e = e
without_padding-body (c ∷ []) t (hc, _) e = ground (arith, no_padding c hc)
without_padding-body (c ∷ d ∷ s) t (hc, h) e = rw (without_padding-body (d ∷ s) t h e) refl

map-append : (s t : List ℕ) → map url_safe (s ++ t) ≡ map url_safe s ++ map url_safe t
map-append [] t = refl
map-append (c ∷ s) t = ap (◌∷◌ (url_safe c)) (map-append s t)

length-map : (s : List ℕ) → length (map url_safe s) ≡ length s
length-map [] = refl
length-map (c ∷ s) = omega (arith, length-map s)

module _ (source : Source) (encoder : IsBtoa (source.btoa)) where
  base64_url_encode-body :
      (bytes : List ℕ)
      → All IsByte bytes
      → base64_url_encode source bytes ≡ map url_safe (encoder.body bytes)
  unfolding base64_url_encode
  base64_url_encode-body bytes h =
      rw
        (
          base64_url_encode,
          encoder.whole bytes,
          map-append (encoder.body bytes) (encoder.padding bytes),
        )
        (without_padding-body (map url_safe (encoder.body bytes)) _
          (map-IsUrlSafe (encoder.body bytes) (encoder.chars bytes h))
          (without_padding-none (encoder.padding bytes) (encoder.padded bytes)))

  base64_url_encode-IsUrlSafe :
      (bytes : List ℕ)
      → All IsByte bytes
      → All IsUrlSafe (base64_url_encode source bytes)
        × (length (base64_url_encode source bytes) ≡ (4 * length bytes + 2) / 3)
  base64_url_encode-IsUrlSafe bytes h = rw (base64_url_encode-body bytes h) (
    map-IsUrlSafe (encoder.body bytes) (encoder.chars bytes h),
    length-map (encoder.body bytes) ∙ encoder.size bytes,
  )

  module _ (draws : IsRandom (source.random)) where
    drawn_length : (n : ℕ) → length (base64_url_encode source (source.random n)) ≡ (4 * n + 2) / 3
    drawn_length n =
        let size = draws.size n in
        let same = (base64_url_encode-IsUrlSafe (source.random n) (draws.bytes n)).1 in
        rw (same, size) refl

    verifier_length :
        (n : ℕ) → length (take n (base64_url_encode source (source.random ((n * 3 + 3) / 4)))) ≡ n
    verifier_length n =
        length-take n (base64_url_encode source (source.random ((n * 3 + 3) / 4)))
        ∙ (ap (min n) (drawn_length ((n * 3 + 3) / 4)) ∙ omega arith)

    -- With a random source and an encoder as documented, a verifier of the wanted length is
    -- generated, all of characters that need no escape in a URL, if that length is from 43 to 128;
    -- for every other length an error names it.
    pub generate_code_verifier_shape :
        (n : ℕ)
        → ((43 ≤ n)
            × (n ≤ 128)
            × (v : List ℕ) × (generate_code_verifier source n ≡ ok v)
            × (length v ≡ n)
            × All IsUrlSafe v)
          ⊎ (((n < 43) ⊎ (128 < n)) × (generate_code_verifier source n ≡ err (out_of_range n)))
    unfolding generate_code_verifier
    generate_code_verifier_shape n =
        let bytes = source.random ((n * 3 + 3) / 4) in
        let shape = (base64_url_encode-IsUrlSafe bytes (draws.bytes ((n * 3 + 3) / 4))).0 in
        elim (Bool-cases (ltb n 43 || ltb 128 n)) [
          | inl e ↦ inr (ground arith, ground arith)
          | inr e ↦ inl (
            ground arith,
            ground arith,
            take n (base64_url_encode source bytes),
            ground arith,
            verifier_length n,
            All-take IsUrlSafe n _ shape,
          )
        ]

    pair_of : List ℕ → PkcePair
    pair_of v = record {
      code_verifier = v;
      code_challenge = generate_code_challenge source v;
      code_challenge_method = s256;
    }

    -- If besides SHA-256 gives 32 bytes, `generate` succeeds: the verifier has 43 characters, and the
    -- challenge is the URL-safe encoding, of 43 characters too, of the hash of that same verifier.
    pub generate_pair :
        ((bytes : List ℕ) → All IsByte (source.sha256 bytes) × (length (source.sha256 bytes) ≡ 32))
        → (p : PkcePair) × (generate source ≡ ok p)
          × (length (p.code_verifier) ≡ 43)
          × All IsUrlSafe (p.code_verifier)
          × (p.code_challenge ≡ base64_url_encode source (source.sha256 (encode (p.code_verifier))))
          × (length (p.code_challenge) ≡ 43)
          × All IsUrlSafe (p.code_challenge)
    unfolding generate generate_code_challenge pair_of
    generate_pair hashes = elim (generate_code_verifier_shape 43) [
      | inr (h, e) ↦ absurd (omega arith)
      | inl (_, _, v, e, size, safe) ↦
          let hash = hashes (encode v) in
          let challenge = base64_url_encode-IsUrlSafe (source.sha256 (encode v)) (hash.0) in
          (
            pair_of v,
            ap (λ (r : Result PkceError (List ℕ)). do w ← r; ok (pair_of w)) e,
            size,
            safe,
            refl,
            challenge.1 ∙ rw (hash.1) refl,
            challenge.0,
          )
    ]
