-- ===== src/Signature.antt =====
-- src/common/crypto/signature-provider.ts and decode-payload.ts, src/webhooks/webhooks.ts
-- (`constructEvent`) and src/actions/actions.ts. Texts are lists of code points; the clock,
-- `JSON.parse`, `JSON.stringify` and the UTF-8 decoder are parameters.
pub mod Laws
mod Tests
use workos_node.Prelude.{
  ℕ, ◌+◌, Bool, true, false, not, Option, none, some, List, [], ◌∷◌, ◌++◌, ltb, if◌then◌else◌,
  Result, ok, err, ◌>>=◌,
}
use workos_node.Js.{Value, codes}
use workos_node.Js.Text.{split, Integer, nan, plus, minus, parse_int}
use workos_node.Crypto.{Subtle, compute_hmac_signature, secure_compare}

-- What is thrown: `SignatureVerificationException` with one of its messages, or the `SyntaxError`
-- of a body that is not JSON.
pub data Failure : Type 0 where
  parts_missing : Failure
  no_signature_hash : Failure
  outside_tolerance : Failure
  hash_mismatch : Failure
  malformed_body : Failure

-- `WebhookPayload`: a text, bytes, or an object that was parsed before.
pub data Payload : Type 0 where
  text : List ℕ → Payload
  binary : List ℕ → Payload
  parsed : Value → Payload

pub record Platform : Type 0 where
  pub subtle : Subtle
  pub now : ℕ
  pub decode_utf8 : List ℕ → List ℕ
  pub stringify : Value → List ℕ
  pub parse_json : List ℕ → Option Value

-- The second piece of `x.split('=')`, which may be undefined.
unfoldable pub after_equals : List ℕ → Option (List ℕ)
after_equals s = elim (split b'=' s) [
  | [] ↦ none
  | first ∷ rest ↦ elim rest [ [] ↦ none | second ∷ more ↦ some second ]
]

unfoldable pub get_timestamp_and_signature_hash :
    List ℕ → Result Failure (Option (List ℕ) × Option (List ℕ))
get_timestamp_and_signature_hash header = elim (split b',' header) [
  | [] ↦ err parts_missing
  | t ∷ rest ↦ elim rest [
    | [] ↦ err parts_missing
    | v1 ∷ more ↦ ok (after_equals t, after_equals v1)
  ]
]

-- A text in a template, or as the argument of `parseInt`: undefined reads "undefined".
abbrev pub interpolated : Option (List ℕ) → List ℕ
interpolated none = codes "undefined"
interpolated (some s) = s

-- `parsed < now - tolerance`, where `NaN < x` is false.
unfoldable pub is_older : Integer → ℕ → ℕ → Bool
is_older nan now tolerance = false
is_older (plus t) now tolerance = ltb (t + tolerance) now
is_older (minus t) now tolerance = ltb tolerance (now + t)

module _ (p : Platform) where
  unfoldable pub decode_payload_to_string : Payload → List ℕ
  decode_payload_to_string (text s) = s
  decode_payload_to_string (binary bytes) = p.decode_utf8 bytes
  decode_payload_to_string (parsed v) = p.stringify v

  unfoldable pub compute_signature : Option (List ℕ) → Payload → List ℕ → List ℕ
  compute_signature timestamp payload secret =
      compute_hmac_signature p.subtle
        (interpolated timestamp ++ (b'.' ∷ decode_payload_to_string payload)) secret

  unfoldable pub check_tolerance : Option (List ℕ) → ℕ → Result Failure (Unit {0})
  check_tolerance timestamp tolerance =
      if is_older (parse_int (interpolated timestamp)) p.now tolerance
      then err outside_tolerance
      else ok tt

  unfoldable pub check_hash : Option (List ℕ) → Payload → List ℕ → List ℕ → Result Failure Bool
  check_hash timestamp payload secret hash =
      if secure_compare p.subtle (compute_signature timestamp payload secret) hash
      then ok true
      else err hash_mismatch

  -- `!signatureHash`
  unfoldable pub present : Option (List ℕ) → Result Failure (List ℕ)
  present none = err no_signature_hash
  present (some []) = err no_signature_hash
  present (some (c ∷ s)) = ok (c ∷ s)

  unfoldable pub verify_header : Payload → List ℕ → List ℕ → ℕ → Result Failure Bool
  verify_header payload header secret tolerance = do
    (timestamp, signature_hash) ← get_timestamp_and_signature_hash header
    hash ← present signature_hash
    _ ← check_tolerance timestamp tolerance
    check_hash timestamp payload secret hash

  -- `parseVerifiedPayload`, and the same test in `constructAction`.
  unfoldable pub parse_verified_payload : Payload → Result Failure Value
  parse_verified_payload (parsed v) = ok v
  parse_verified_payload payload = elim (p.parse_json (decode_payload_to_string payload)) [
    | none ↦ err malformed_body
    | some v ↦ ok v
  ]

  -- `constructEvent` and `constructAction`, with their deserializers.
  unfoldable pub construct_verified {ℓ} :
      {E : Type ℓ} → (Value → E) → Payload → List ℕ → List ℕ → ℕ → Result Failure E
  construct_verified deserialize payload header secret tolerance = do
    _ ← verify_header payload header secret tolerance
    v ← parse_verified_payload payload
    ok (deserialize v)

abbrev pub webhook_tolerance : ℕ
webhook_tolerance = 180000

abbrev pub action_tolerance : ℕ
action_tolerance = 30000
