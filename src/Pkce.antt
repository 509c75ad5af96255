-- ===== src/Pkce.antt =====
-- src/pkce/pkce.ts. `btoa` on the codes of a binary string, the random source and SHA-256 are
-- parameters.
pub mod Encoder
pub mod Toy
pub mod Laws
mod Tests
use workos_node.Prelude.{
  ℕ, ◌+◌, ◌*◌, ◌/◌, Bool, ◌||◌, List, [], ◌∷◌, ltb, ◌==◌, if◌then◌else◌, map, take, Result, ok, err,
  ◌>>=◌,
}
use workos_node.Crypto.{encode}

pub data PkceError : Type 0 where
  out_of_range : ℕ → PkceError

-- What the runtime offers. `random n` is a vector of n bytes that is drawn.
pub record Source : Type 0 where
  pub random : ℕ → List ℕ
  pub btoa : List ℕ → List ℕ
  pub sha256 : List ℕ → List ℕ

pub record PkcePair : Type 0 where
  pub code_verifier : List ℕ
  pub code_challenge : List ℕ
  pub code_challenge_method : List ℕ

abbrev pub s256 : List ℕ
s256 = b'S' ∷ b'2' ∷ b'5' ∷ b'6' ∷ []

abbrev pub default_length : ℕ
default_length = 43

-- `.replace(/\+/g, '-').replace(/\//g, '_')`, at one character.
abbrev pub url_safe : ℕ → ℕ
url_safe c = if c == b'+' then b'-' else if c == b'/' then b'_' else c

-- `.replace(/=+$/, '')`
unfoldable pub without_padding : List ℕ → List ℕ
without_padding [] = []
without_padding (c ∷ s) = elim (without_padding s) [
  | [] ↦ if c == b'=' then [] else c ∷ []
  | d ∷ rest ↦ c ∷ d ∷ rest
]

module _ (source : Source) where
  unfoldable pub base64_url_encode : List ℕ → List ℕ
  unfolding without_padding
  base64_url_encode buffer = without_padding (map url_safe (source.btoa buffer))

  -- `Math.ceil((length * 3) / 4)` bytes are drawn.
  unfoldable pub generate_code_verifier : ℕ → Result PkceError (List ℕ)
  unfolding base64_url_encode
  generate_code_verifier length =
      if ltb length 43 || ltb 128 length
      then err (out_of_range length)
      else ok (take length (base64_url_encode (source.random ((length * 3 + 3) / 4))))

  unfoldable pub generate_code_challenge : List ℕ → List ℕ
  unfolding base64_url_encode
  generate_code_challenge verifier = base64_url_encode (source.sha256 (encode verifier))

  unfoldable pub generate : Result PkceError PkcePair
  unfolding generate_code_verifier generate_code_challenge
  generate = do
    verifier ← generate_code_verifier default_length
    ok (record {
      code_verifier = verifier;
      code_challenge = generate_code_challenge verifier;
      code_challenge_method = s256;
    })
