-- ===== src/Crypto/Aes.antt =====
-- `encrypt` and `decrypt` of src/common/crypto/subtle-crypto-provider.ts: AES-GCM with the tag apart
-- from the ciphertext.
use workos_node.Prelude.{
  ℕ, ◌+◌, ◌-◌, ◌≡◌, refl, Option, none, some, List, ◌++◌, leb, if◌then◌else◌, length, take, drop,
  length-drop, All, All-take, All-drop, append-take-drop, arith,
}
use workos_node.Crypto.{Subtle}
use workos_node.Crypto.Hex.{IsByte}

abbrev pub tag_size : ℕ
tag_size = 16

pub record Encrypted : Type 0 where
  pub ciphertext : List ℕ
  pub iv : List ℕ
  pub tag : List ℕ

-- `length - 16` as an index of `slice`: a negative one counts from the end.
unfoldable pub tag_start : ℕ → ℕ
tag_start n = if leb tag_size n then n - tag_size else n + n - tag_size

-- The last 16 bytes are the tag.
unfoldable pub split_tag : List ℕ → List ℕ → Encrypted
unfolding tag_start
split_tag iv bytes = record {
  ciphertext = take (tag_start (length bytes)) bytes;
  iv = iv;
  tag = drop (tag_start (length bytes)) bytes;
}

-- A random source gives as many bytes as it is asked for.
pub record IsRandom (random : ℕ → List ℕ) : Type 0 where
  pub size : (n : ℕ) → length (random n) ≡ n
  pub bytes : (n : ℕ) → All IsByte (random n)

-- `none`: the promise is rejected.
module _ (subtle : Subtle) where
  -- `random` is the vector of 32 bytes that is drawn if none is given.
  unfoldable pub encrypt :
      List ℕ → List ℕ → List ℕ → Option (List ℕ) → Option (List ℕ) → Option Encrypted
  encrypt random plaintext key iv aad =
      let actual_iv : List ℕ = elim iv [ none ↦ random | some given ↦ given ] in
      elim (subtle.seal key actual_iv aad plaintext) [
        | none ↦ none
        | some bytes ↦ some (split_tag actual_iv bytes)
      ]

  unfoldable pub decrypt : List ℕ → List ℕ → List ℕ → List ℕ → Option (List ℕ) → Option (List ℕ)
  decrypt ciphertext key iv tag aad = subtle.open_sealed key iv aad (ciphertext ++ tag)

  -- AES-GCM as Web Crypto documents it: the output is 16 bytes longer than the input, and is opened
  -- by the same key, vector and additional data.
  pub record IsAead : Type 0 where
    pub size :
        (key iv plaintext bytes : List ℕ) (aad : Option (List ℕ))
        → subtle.seal key iv aad plaintext ≡ some bytes
        → length bytes ≡ length plaintext + tag_size
    pub bytes :
        (key iv plaintext bytes : List ℕ) (aad : Option (List ℕ))
        → All IsByte plaintext
        → subtle.seal key iv aad plaintext ≡ some bytes
        → All IsByte bytes
    pub opens :
        (key iv plaintext bytes : List ℕ) (aad : Option (List ℕ))
        → subtle.seal key iv aad plaintext ≡ some bytes
        → subtle.open_sealed key iv aad bytes ≡ some plaintext

  -- What a successful encryption is made of.
  encrypt-seal :
      (random plaintext key iv : List ℕ) (aad : Option (List ℕ)) (e : Encrypted)
      → encrypt random plaintext key (some iv) aad ≡ some e
      → (bytes : List ℕ) × (subtle.seal key iv aad plaintext ≡ some bytes)
        × (split_tag iv bytes ≡ e)
  unfolding encrypt
  encrypt-seal random plaintext key iv aad e h = made (subtle.seal key iv aad plaintext) h
    where
      made :
          (o : Option (List ℕ))
          → (elim o [ none ↦ none | some bytes ↦ some (split_tag iv bytes) ]) ≡ some e
          → (bytes : List ℕ) × (o ≡ some bytes) × (split_tag iv bytes ≡ e)
      made none g = absurd (ground arith)
      made (some bytes) g = (bytes, refl, ground arith)

  -- The parts of an encryption with a given vector: that vector, a tag of 16 bytes, and what opens
  -- together with them to the plaintext.
  pub record Sealed (plaintext key iv : List ℕ) (aad : Option (List ℕ)) (e : Encrypted)
      : Type 0 where
    pub same_iv : e.iv ≡ iv
    pub tag_length : length e.tag ≡ tag_size
    pub ciphertext_bytes : All IsByte e.ciphertext
    pub tag_bytes : All IsByte e.tag
    pub reopens : decrypt e.ciphertext key e.iv e.tag aad ≡ some plaintext

  pub encrypt-Sealed :
      IsAead
      → (random plaintext key iv : List ℕ) (aad : Option (List ℕ)) (e : Encrypted)
      → All IsByte plaintext
      → encrypt random plaintext key (some iv) aad ≡ some e
      → Sealed plaintext key iv aad e
  unfolding decrypt split_tag tag_start
  encrypt-Sealed law random plaintext key iv aad e small h =
      let (bytes, sealed, same) = encrypt-seal random plaintext key iv aad e h in
      let size = law.size key iv plaintext bytes aad sealed in
      let all = law.bytes key iv plaintext bytes aad small sealed in
      let parts = split_tag iv bytes in
      let back : parts.ciphertext ++ parts.tag ≡ bytes =
        append-take-drop (tag_start (length bytes)) bytes in
      rw (← same) (record {
        same_iv = refl;
        tag_length = ground (arith, length-drop (tag_start (length bytes)) bytes);
        ciphertext_bytes = All-take IsByte (tag_start (length bytes)) bytes all;
        tag_bytes = All-drop IsByte (tag_start (length bytes)) bytes all;
        reopens = rw (decrypt, back) (law.opens key iv plaintext bytes aad sealed);
      })
