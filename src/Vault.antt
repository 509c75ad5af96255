-- ===== src/Vault.antt =====
-- Local encryption of src/vault/vault.ts: `createDataKey`, `decryptDataKey`, `encrypt`, `decrypt` and
-- `decode`. Texts to encrypt are lists of code points. The random source and the UTF-8 decoder are
-- parameters, as are those of the client.
pub mod Frame
pub mod RoundTrip
mod Tests
use workos_node.Prelude.{
  ℕ, ◌+◌, String, false, Option, none, some, List, [], ◌∷◌, ◌++◌, length, take, drop, if◌then◌else◌,
  Result, ok, err, ◌>>=◌,
}
use workos_node.Js.{Value, str, obj, end, field, nullish, prop}
use workos_node.Base64.{Base64, Base64Error, base64_to_uint8_array, uint8_array_to_base64}
use workos_node.Leb128
use workos_node.Leb128.{encode_uint32, decode_uint32}
use workos_node.Crypto.{Subtle, encode}
use workos_node.Crypto.Aes
use workos_node.Http.{RequestError}
use workos_node.Http.Verbs.{Platform, json}
use workos_node.Client.{Workos, Reply, returned, thrown, unparsed, out_of_fuel, VerbOptions, post}
use workos_node.Client.Exceptions.{Exception, Seconds}

-- What is thrown, by its origin. `stuck` is no value of the source.
pub data VaultError : Type 0 where
  exception : Exception → VaultError
  transport : RequestError → VaultError
  wrong_type : VaultError
  not_base64 : Base64Error → VaultError
  bad_length : Leb128.Error → VaultError
  rejected : VaultError
  stuck : VaultError

-- The client with its server.
pub record Site : Type 0 where
  pub platform : Platform
  pub show : Value → String
  pub to_number : String → Seconds
  pub workos : Workos

-- What the runtime offers. `random n` is a vector of n bytes that is drawn.
pub record Tools : Type 0 where
  pub base64 : Base64
  pub subtle : Subtle
  pub random : ℕ → List ℕ
  pub decode_utf8 : List ℕ → List ℕ

pub record DataKeyPair : Type 0 where
  pub context : Value
  pub key : Value
  pub id : Value
  pub encrypted_keys : Value

pub record DataKey : Type 0 where
  pub key : Value
  pub id : Value

abbrev pub no_verb_options : VerbOptions
no_verb_options = record {
  query = none;
  idempotency_key = none;
  warrant_token = none;
  access_token = none;
  skip_api_key_check = false;
  max_retries = none;
}

unfoldable pub answer : Reply → Result VaultError Value
answer (returned v) = ok v
answer (thrown e) = err (exception e)
answer (unparsed e) = err (transport e)
answer out_of_fuel = err stuck

-- `createDataKey` behind its answer: reading a field of null throws.
unfoldable pub deserialize_create_data_key : Value → Result VaultError DataKeyPair
deserialize_create_data_key payload =
    if nullish payload
    then err wrong_type
    else ok (record {
      context = prop payload "context";
      key = prop payload "data_key";
      id = prop payload "id";
      encrypted_keys = prop payload "encrypted_keys";
    })

unfoldable pub deserialize_decrypt : Value → Result VaultError DataKey
deserialize_decrypt payload =
    if nullish payload
    then err wrong_type
    else ok (record { key = prop payload "data_key"; id = prop payload "id" })

unfoldable pub post_to : Site → String → Value → Result VaultError Value
post_to site path body =
    answer
      (post site.platform site.show site.to_number site.workos path (json body)
        no_verb_options).reply

unfoldable pub create_data_key : Site → Value → Result VaultError DataKeyPair
create_data_key site context = do
  payload ← post_to site "/vault/v1/keys/data-key" (obj (field "context" context end))
  deserialize_create_data_key payload

unfoldable pub decrypt_data_key : Site → Value → Result VaultError DataKey
decrypt_data_key site keys = do
  payload ← post_to site "/vault/v1/keys/decrypt" (obj (field "keys" keys end))
  deserialize_decrypt payload

abbrev pub in_base64 {ℓ} : {A : Type ℓ} → Result Base64Error A → Result VaultError A
in_base64 (ok a) = ok a
in_base64 (err e) = err (not_base64 e)

abbrev pub in_length {ℓ} : {A : Type ℓ} → Result Leb128.Error A → Result VaultError A
in_length (ok a) = ok a
in_length (err e) = err (bad_length e)

abbrev pub or_reject {ℓ} : {A : Type ℓ} → Option A → Result VaultError A
or_reject none = err rejected
or_reject (some a) = ok a

-- `associatedData ? new TextEncoder().encode(associatedData) : undefined`
unfoldable pub associated_bytes : Option (List ℕ) → Option (List ℕ)
associated_bytes none = none
associated_bytes (some []) = none
associated_bytes (some (c ∷ s)) = some (encode (c ∷ s))

pub record Decoded : Type 0 where
  pub iv : List ℕ
  pub tag : List ℕ
  pub keys : String
  pub ciphertext : List ℕ

abbrev pub iv_size : ℕ
iv_size = 12

module _ (tools : Tools) where
  -- The parts of a payload: 12 bytes of vector, 16 of tag, the length of the key blob in LEB128, the
  -- key blob, the ciphertext.
  unfoldable pub decode_payload : List ℕ → Result VaultError Decoded
  decode_payload input = do
    len ← in_length (decode_uint32 input 28)
    keys ←
        in_base64 (uint8_array_to_base64 tools.base64 (take len.value (drop len.next_index input)))
    ok (record {
      iv = take iv_size input;
      tag = take 16 (drop iv_size input);
      keys = keys;
      ciphertext = drop (len.next_index + len.value) input;
    })

  unfoldable pub decode : Value → Result VaultError Decoded
  decode payload = do
    input ← in_base64 (base64_to_uint8_array tools.base64 payload)
    decode_payload input

  unfoldable pub decrypt : Site → Value → Option (List ℕ) → Result VaultError (List ℕ)
  decrypt site encrypted_data associated_data = do
    decoded ← decode encrypted_data
    data_key ← decrypt_data_key site (str decoded.keys)
    key ← in_base64 (base64_to_uint8_array tools.base64 data_key.key)
    decrypted ← or_reject (
        Aes.decrypt tools.subtle decoded.ciphertext key decoded.iv decoded.tag
          (associated_bytes associated_data))
    ok (tools.decode_utf8 decrypted)

  -- The result array, filled part by part.
  unfoldable pub frame : List ℕ → List ℕ → Aes.Encrypted → List ℕ
  frame prefix key_blob sealed =
      sealed.iv ++ (sealed.tag ++ (prefix ++ (key_blob ++ sealed.ciphertext)))

  unfoldable pub encrypt : Site → List ℕ → Value → Option (List ℕ) → Result VaultError String
  encrypt site text context associated_data = do
    pair ← create_data_key site context
    key ← in_base64 (base64_to_uint8_array tools.base64 pair.key)
    key_blob ← in_base64 (base64_to_uint8_array tools.base64 pair.encrypted_keys)
    prefix ← in_length (encode_uint32 (Leb128.natural (length key_blob)))
    sealed ← or_reject (
        Aes.encrypt tools.subtle (tools.random 32) (encode text) key (some (tools.random iv_size))
          (associated_bytes associated_data))
    in_base64 (uint8_array_to_base64 tools.base64 (frame prefix key_blob sealed))
