-- ===== src/AuthorizationUrl/Reads.antt =====
-- What a URL with a query carries, for the URLs of both classes.
use workos_node.Prelude.{
  ℕ, ◌≡◌, refl, inl, inr, List, ◌∷◌, ◌++◌, All, All-map, IsIn, ok, arith, length,
}
use workos_node.Crypto.{encode}
use workos_node.Crypto.Hex.{IsByte}
use workos_node.Crypto.Aes.{IsRandom}
use workos_node.Query.{text, to_query_string, value_of}
use workos_node.Query as Query
use workos_node.Query.RoundTrip.{IsScalar, IsScalarText, parse_query, in_utf8}
use workos_node.Query.Lookup.{IsEntry, Keeps, to_query_string_reads}
use workos_node.Pkce.{
  Source, PkcePair, base64_url_encode, generate, generate_code_verifier, default_length,
}
use workos_node.Pkce.Laws.{IsBtoa, IsUrlSafe, generate_pair, generate_code_verifier_shape}
use workos_node.AuthorizationUrl.{Text, with_query}

-- A query that shows each text among the options under its name.
abbrev pub Shows : Query.Options → Text → Type 0
Shows options q =
    (key v : Text) → value_of options key ≡ text v → IsIn (in_utf8 (key, v)) (parse_query q)

-- A parameter, by its name and its text, as the query shows it.
abbrev pub Carries : Text → Text → Text → Type 0
Carries q key v = IsIn (in_utf8 (key, v)) (parse_query q)

module _ (sort : List Text → List Text) (keeps : Keeps sort) where
  pub with_query_reads :
      (base path : Text) (options : Query.Options)
      → All IsEntry options
      → (q : Text) × (with_query base path (to_query_string sort options)
          ≡ ok (base ++ (path ++ (b'?' ∷ q))))
        × Shows options q
  with_query_reads base path options h =
      let (q, printed, shows) = to_query_string_reads sort options keeps h in
      (q, rw printed refl, shows)

pub IsUrlSafe-IsScalarText : (s : Text) → All IsUrlSafe s → IsScalarText s
IsUrlSafe-IsScalarText s h = All-map below s h
  where
    below : (c : ℕ) → IsUrlSafe c → IsScalar c
    below c k = omega arith

-- A runtime as documented: an encoder, a random source, and a hash of 32 bytes.
pub record IsSource (source : Source) : Type 0 where
  pub encoder : IsBtoa (source.btoa)
  pub draws : IsRandom (source.random)
  pub hashes :
      (bytes : List ℕ) → All IsByte (source.sha256 bytes) × (length (source.sha256 bytes) ≡ 32)

-- The challenge that belongs to a verifier: the URL-safe encoding of its hash.
abbrev pub challenge_of : Source → Text → Text
challenge_of source verifier = base64_url_encode source (source.sha256 (encode verifier))

-- What the generator gives: a pair of texts that need no escape.
pub drawn_pair :
    (source : Source)
    → IsSource source
    → (p : PkcePair) × (generate source ≡ ok p)
      × (p.code_challenge ≡ challenge_of source (p.code_verifier))
      × (length (p.code_verifier) ≡ 43)
      × IsScalarText (p.code_challenge)
drawn_pair source h =
    let (p, e, size, safe, challenge, _, url_safe) =
      generate_pair source (h.encoder) (h.draws) (h.hashes) in
    (p, e, challenge, size, IsUrlSafe-IsScalarText (p.code_challenge) url_safe)

pub drawn_state :
    (source : Source)
    → IsSource source
    → (s : Text) × (generate_code_verifier source default_length ≡ ok s)
      × (length s ≡ 43)
      × IsScalarText s
drawn_state source h = elim (generate_code_verifier_shape source (h.encoder) (h.draws) 43) [
  | inl (_, _, s, e, size, safe) ↦ (s, e, size, IsUrlSafe-IsScalarText s safe)
  | inr (out, _) ↦ absurd (omega arith)
]
