-- ===== src/Vault/RoundTrip.antt =====
-- What `decrypt` reads back of what `encrypt` wrote.
use workos_node.Prelude.{
  ℕ, ◌≡◌, refl, String, Option, none, some, List, length, Result, ok, err, bind-eq-ok, arith,
}
use workos_node.Js.{Value, str}
use workos_node.Base64.{Base64, Base64Error, base64_to_uint8_array, uint8_array_to_base64, IsBase64}
use workos_node.Leb128
use workos_node.Leb128.{encode_uint32}
use workos_node.Leb128.Encode.{encode_uint32_shape}
use workos_node.Crypto.{encode}
use workos_node.Crypto.Aes
use workos_node.Crypto.Aes.{IsAead, IsRandom, Sealed, encrypt-Sealed}
use workos_node.Vault.{
  Site, Tools, DataKeyPair, DataKey, create_data_key, decrypt_data_key, decode_payload, decode,
  decrypt, frame, encrypt, associated_bytes, in_base64, in_length, or_reject, iv_size,
}
use workos_node.Vault.Frame.{IsText, encode-All, encodes, decode_payload-frame, frame-All}

-- The server behind `later` gives the key of every key pair that the server behind `site` made, when
-- it is asked with the encrypted key.
pub record Unwraps (base64 : Base64) (site later : Site) (context : Value) : Type 0 where
  pub opens :
      (pair : DataKeyPair) (blob : List ℕ) (keys : String)
      → create_data_key site context ≡ ok pair
      → base64_to_uint8_array base64 pair.encrypted_keys ≡ ok blob
      → uint8_array_to_base64 base64 blob ≡ ok keys
      → (d : DataKey) × (decrypt_data_key later (str keys) ≡ ok d) × (d.key ≡ pair.key)

in_base64-ok {ℓ} : {A : Type ℓ} (r : Result Base64Error A) {a : A} → in_base64 r ≡ ok a → r ≡ ok a
in_base64-ok (ok b) h = ground arith
in_base64-ok (err e) h = absurd (ground arith)

in_length-ok {ℓ} : {A : Type ℓ} (r : Result Leb128.Error A) {a : A} → in_length r ≡ ok a → r ≡ ok a
in_length-ok (ok b) h = ground arith
in_length-ok (err e) h = absurd (ground arith)

or_reject-ok {ℓ} : {A : Type ℓ} (o : Option A) {a : A} → or_reject o ≡ ok a → o ≡ some a
or_reject-ok (some b) h = ground arith
or_reject-ok none h = absurd (ground arith)

module _ (tools : Tools) where
  -- The steps of an encryption that returned.
  pub record Encryption (site : Site) (text : List ℕ) (context : Value) (extra : Option (List ℕ))
      (payload : String) : Type 0 where
    pub pair : DataKeyPair
    pub created : create_data_key site context ≡ ok pair
    pub key : List ℕ
    pub key_read : base64_to_uint8_array tools.base64 pair.key ≡ ok key
    pub blob : List ℕ
    pub blob_read : base64_to_uint8_array tools.base64 pair.encrypted_keys ≡ ok blob
    pub prefix : List ℕ
    pub prefix_made : encode_uint32 (Leb128.natural (length blob)) ≡ ok prefix
    pub sealed : Aes.Encrypted
    pub sealed_made :
        Aes.encrypt tools.subtle
          (tools.random 32)
          (encode text)
          key
          (some (tools.random iv_size))
          (associated_bytes extra)
        ≡ some sealed
    pub written : uint8_array_to_base64 tools.base64 (frame tools prefix blob sealed) ≡ ok payload

  encrypt-Encryption :
      (site : Site) (text : List ℕ) (context : Value) (extra : Option (List ℕ)) (payload : String)
      → encrypt tools site text context extra ≡ ok payload
      → Encryption site text context extra payload
  unfolding encrypt
  encrypt-Encryption site text context extra payload e =
      let (pair, created, e1) = bind-eq-ok (create_data_key site context) _ e in
      let (key, key_read, e2) =
        bind-eq-ok (in_base64 (base64_to_uint8_array tools.base64 pair.key)) _ e1 in
      let (blob, blob_read, e3) =
        bind-eq-ok (in_base64 (base64_to_uint8_array tools.base64 pair.encrypted_keys)) _ e2 in
      let (prefix, prefix_made, e4) =
        bind-eq-ok (in_length (encode_uint32 (Leb128.natural (length blob)))) _ e3 in
      let (sealed, sealed_made, e5) = bind-eq-ok (or_reject _) _ e4 in
      record {
        pair = pair;
        created = created;
        key = key;
        key_read = in_base64-ok _ key_read;
        blob = blob;
        blob_read = in_base64-ok _ blob_read;
        prefix = prefix;
        prefix_made = in_length-ok _ prefix_made;
        sealed = sealed;
        sealed_made = or_reject-ok _ sealed_made;
        written = in_base64-ok _ e5;
      }

  -- Behind a decoded payload, `decrypt` is the server's answer and the opening.
  decrypt-steps :
      (later : Site) (payload : Value) (extra : Option (List ℕ)) (plaintext key input : List ℕ)
      (sealed : Aes.Encrypted) (keys : String) (d : DataKey)
      → base64_to_uint8_array tools.base64 payload ≡ ok input
      → decode_payload tools input
        ≡ ok (record {
          iv = sealed.iv;
          tag = sealed.tag;
          keys = keys;
          ciphertext = sealed.ciphertext;
        })
      → decrypt_data_key later (str keys) ≡ ok d
      → base64_to_uint8_array tools.base64 d.key ≡ ok key
      → Aes.decrypt tools.subtle sealed.ciphertext key sealed.iv sealed.tag (associated_bytes extra)
        ≡ some plaintext
      → decrypt tools later payload extra ≡ ok (tools.decode_utf8 plaintext)
  unfolding decrypt decode
  decrypt-steps later payload extra plaintext key input sealed keys d hin hdec hd hk ho =
      rw (hin, hdec, hd, hk, ho) refl

  -- What was encrypted is decrypted: if base64, AES-GCM and the random source are as documented, the
  -- text is one of code points, `encrypt` returns a payload for it, and the server still opens the key
  -- pair that it made, then `decrypt` of that payload with the same associated data returns what the
  -- UTF-8 decoder reads of the text's encoding.
  pub decrypt-encrypt :
      IsBase64 tools.base64
      → IsAead tools.subtle
      → IsRandom tools.random
      → (site later : Site) (text : List ℕ) (context : Value) (extra : Option (List ℕ))
        (payload : String)
      → Unwraps tools.base64 site later context
      → IsText text
      → encrypt tools site text context extra ≡ ok payload
      → decrypt tools later (str payload) extra ≡ ok (tools.decode_utf8 (encode text))
  decrypt-encrypt base64 aead random site later text context extra payload server points e =
      let made = encrypt-Encryption site text context extra payload e in
      let closed =
        encrypt-Sealed tools.subtle aead (tools.random 32) (encode text) made.key
          (tools.random iv_size) (associated_bytes extra) made.sealed (encode-All text points)
          made.sealed_made in
      let (_, _, _, _, _, _, prefix_bytes) =
        encode_uint32_shape (Leb128.natural (length made.blob)) made.prefix made.prefix_made in
      let bytes =
        frame-All tools made.prefix made.blob made.sealed prefix_bytes
          (base64.decodes made.pair.encrypted_keys made.blob made.blob_read)
          (rw closed.same_iv (random.bytes iv_size)) closed.tag_bytes closed.ciphertext_bytes in
      let (keys, keys_written) =
        encodes tools.base64 (frame tools made.prefix made.blob made.sealed) made.blob payload
          made.written in
      let (d, answered, same_key) =
        server.opens made.pair made.blob keys made.created made.blob_read keys_written in
      decrypt-steps later (str payload) extra (encode text) made.key
        (frame tools made.prefix made.blob made.sealed) made.sealed keys d
        (base64.inverts (frame tools made.prefix made.blob made.sealed) payload bytes made.written)
        (decode_payload-frame tools made.prefix made.blob made.sealed keys
          (rw closed.same_iv (random.size iv_size)) closed.tag_length made.prefix_made keys_written)
        answered (rw same_key made.key_read) closed.reopens
