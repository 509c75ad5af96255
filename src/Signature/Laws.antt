-- ===== src/Signature/Laws.antt =====
-- What a signature header has to hold for a payload to be accepted.
use workos_node.Prelude.{
  ℕ, ◌≡◌, refl, ◌∙◌, ◌≢◌, Bool, true, false, Option, none, some, List, [], ◌∷◌, ◌++◌, if◌then◌else◌,
  length, All, arith, Result, ok, err, bind-eq-ok, ◌>>=◌,
}
use workos_node.Js.{Value}
use workos_node.Js.Text.{split, split-append, split_whole, Avoids, nan, parse_int}
use workos_node.Crypto.{secure_compare}
use workos_node.Crypto.Hex.{IsHmac, IsHexDigit, secure_compare_refl, compute_hmac_signature_shape}
use workos_node.Signature.{
  Platform, Payload, Failure, outside_tolerance, after_equals, get_timestamp_and_signature_hash,
  interpolated, is_older, compute_signature, decode_payload_to_string, check_tolerance, check_hash,
  present, verify_header, parse_verified_payload, construct_verified,
}

-- The header "t=<timestamp>,v1=<hash>".
unfoldable pub signed_header : List ℕ → List ℕ → List ℕ
signed_header timestamp hash = (b't' ∷ b'=' ∷ timestamp) ++ (b',' ∷ b'v' ∷ b'1' ∷ b'=' ∷ hash)

Avoids-of_hex : (c : ℕ) → ¬ IsHexDigit c → (s : List ℕ) → All IsHexDigit s → Avoids c s
Avoids-of_hex c no_digit [] h = tt
Avoids-of_hex c no_digit (d ∷ s) (hd, h) =
    ((λ e. no_digit (rw (← e) hd)), Avoids-of_hex c no_digit s h)

after_equals-append :
    (name s : List ℕ)
    → Avoids b'=' name
    → Avoids b'=' s
    → after_equals (name ++ (b'=' ∷ s)) ≡ some s
unfolding after_equals
after_equals-append name s hn hs =
    ground (arith, split-append b'=' name s hn, split_whole b'=' s hs)

-- The parts of such a header are read back.
get_timestamp_and_signature_hash_signed :
    (timestamp hash : List ℕ)
    → Avoids b',' timestamp
    → Avoids b'=' timestamp
    → Avoids b',' hash
    → Avoids b'=' hash
    → get_timestamp_and_signature_hash (signed_header timestamp hash)
      ≡ ok (some timestamp, some hash)
unfolding get_timestamp_and_signature_hash signed_header split
get_timestamp_and_signature_hash_signed timestamp hash tc te hc he = rw (
  split-append b',' (b't' ∷ b'=' ∷ timestamp) (b'v' ∷ b'1' ∷ b'=' ∷ hash)
      (omega arith, (omega arith, tc)),
  split_whole b',' (b'v' ∷ b'1' ∷ b'=' ∷ hash) (omega arith, (omega arith, (omega arith, hc))),
  after_equals-append (b't' ∷ []) timestamp (omega arith) te,
  after_equals-append (b'v' ∷ b'1' ∷ []) hash (omega arith) he,
)

present_of_length :
    (p : Platform) (hash : List ℕ) → length hash ≡ 64 → present p (some hash) ≡ ok hash
unfolding present
present_of_length p [] h = absurd (omega arith)
present_of_length p (c ∷ s) h = refl

module _ (p : Platform) (payload : Payload) (secret : List ℕ) (tolerance : ℕ) where
  -- The steps of `verify_header` behind the reading of the header.
  abbrev pub verify_parts : Option (List ℕ) × Option (List ℕ) → Result Failure Bool
  verify_parts (timestamp, signature_hash) = do
    hash ← present p signature_hash
    _ ← check_tolerance p timestamp tolerance
    check_hash p timestamp payload secret hash

  abbrev pub Accepted : Option (List ℕ) → List ℕ → Type 0
  Accepted timestamp hash =
      (hash ≢ [])
      × (is_older (parse_int (interpolated timestamp)) p.now tolerance ≡ false)
      × (secure_compare p.subtle (compute_signature p timestamp payload secret) hash ≡ true)

  verify_parts_sound :
      (timestamp signature_hash : Option (List ℕ)) {b : Bool}
      → verify_parts (timestamp, signature_hash) ≡ ok b
      → (hash : List ℕ) × (signature_hash ≡ some hash) × Accepted timestamp hash
  unfolding present check_tolerance check_hash
  verify_parts_sound timestamp none e = cc
  verify_parts_sound timestamp (some []) e = cc
  verify_parts_sound timestamp (some (c ∷ s)) e = (c ∷ s, refl, ground arith)

module _ (p : Platform) (hmac : IsHmac p.subtle) where
  signature_shape :
      (payload : Payload) (timestamp secret : List ℕ)
      → All IsHexDigit (compute_signature p (some timestamp) payload secret)
        × (length (compute_signature p (some timestamp) payload secret) ≡ 64)
  unfolding compute_signature
  signature_shape payload timestamp secret = compute_hmac_signature_shape p.subtle hmac _ secret

  check_hash_genuine :
      (payload : Payload) (timestamp secret : List ℕ)
      → check_hash p
          (some timestamp)
          payload
          secret
          (compute_signature p (some timestamp) payload secret)
        ≡ ok true
  unfolding check_hash
  check_hash_genuine payload timestamp secret =
      rw (secure_compare_refl p.subtle hmac (compute_signature p (some timestamp) payload secret))

  -- A header that carries a timestamp with neither a comma nor an equals sign and the true signature
  -- of timestamp and payload is refused only for its age: it verifies unless the timestamp, read as
  -- an integer, is older than the tolerance allows.
  pub verify_header_signed :
      (payload : Payload) (timestamp secret : List ℕ) (tolerance : ℕ)
      → Avoids b',' timestamp
      → Avoids b'=' timestamp
      → verify_header p payload
          (signed_header timestamp (compute_signature p (some timestamp) payload secret))
          secret
          tolerance
        ≡ (if is_older (parse_int timestamp) p.now tolerance
            then err outside_tolerance
            else ok true)
  unfolding verify_header check_tolerance
  verify_header_signed payload timestamp secret tolerance tc te =
      let hash = compute_signature p (some timestamp) payload secret in
      let (digits, len) = signature_shape payload timestamp secret in
      rw
        (
          get_timestamp_and_signature_hash_signed timestamp hash tc te
              (Avoids-of_hex b',' (λ h. ground arith) hash digits)
              (Avoids-of_hex b'=' (λ h. ground arith) hash digits),
          present_of_length p hash len,
          check_hash_genuine payload timestamp secret,
        )
        (ground arith)

-- Nothing but a bearer of the signature is accepted: if a header verifies, it has two parts at
-- least; the second holds a hash, not empty, that compares equal to the signature of the first
-- part's timestamp and the payload; and that timestamp is not too old.
pub verify_header_sound :
    (p : Platform) (payload : Payload) (header secret : List ℕ) (tolerance : ℕ) (b : Bool)
    → verify_header p payload header secret tolerance ≡ ok b
    → (timestamp : Option (List ℕ)) × (hash : List ℕ) × (get_timestamp_and_signature_hash header
        ≡ ok (timestamp, some hash))
      × Accepted p payload secret tolerance timestamp hash
unfolding verify_header
verify_header_sound p payload header secret tolerance b e =
    parts (get_timestamp_and_signature_hash header) refl e
  where
    parts :
        (r : Result Failure (Option (List ℕ) × Option (List ℕ)))
        → get_timestamp_and_signature_hash header ≡ r
        → (r >>= verify_parts p payload secret tolerance) ≡ ok b
        → (timestamp : Option (List ℕ)) × (hash : List ℕ) × (get_timestamp_and_signature_hash header
            ≡ ok (timestamp, some hash))
          × Accepted p payload secret tolerance timestamp hash
    parts (err f) same h = absurd (ground arith)
    parts (ok (timestamp, signature_hash)) same h =
        let (hash, given, accepted) =
          verify_parts_sound p payload secret tolerance timestamp signature_hash h in
        (timestamp, hash, rw (← given) same, accepted)

-- A timestamp that is no number is never outside the tolerance.
pub verify_header_nan :
    (p : Platform) (payload : Payload) (header secret : List ℕ) (tolerance : ℕ)
    (timestamp signature_hash : Option (List ℕ))
    → get_timestamp_and_signature_hash header ≡ ok (timestamp, signature_hash)
    → parse_int (interpolated timestamp) ≡ nan
    → verify_header p payload header secret tolerance ≢ err outside_tolerance
unfolding verify_header check_tolerance present check_hash is_older
verify_header_nan p payload header secret tolerance timestamp none e number = ground arith
verify_header_nan p payload header secret tolerance timestamp (some []) e number = ground arith
verify_header_nan p payload header secret tolerance timestamp (some (c ∷ s)) e number = ground arith

-- The parser of bodies has no part in the check of a header.
verify_header_parser :
    (p : Platform) (parser : List ℕ → Option Value) (payload : Payload) (header secret : List ℕ)
    (tolerance : ℕ)
    → verify_header (record p { parse_json = parser }) payload header secret tolerance
      ≡ verify_header p payload header secret tolerance
unfolding verify_header present check_tolerance check_hash compute_signature
    decode_payload_to_string
verify_header_parser p parser (Payload.text s) header secret tolerance = refl
verify_header_parser p parser (Payload.binary bytes) header secret tolerance = refl
verify_header_parser p parser (Payload.parsed v) header secret tolerance = refl

-- Events and actions are built behind the check only: if `constructEvent` or `constructAction`
-- returns, the header verified, and what is returned was parsed from the same payload.
pub construct_verified_sound {ℓ} :
    {E : Type ℓ} (p : Platform) (deserialize : Value → E) (payload : Payload)
    (header secret : List ℕ) (tolerance : ℕ) (event : E)
    → construct_verified p deserialize payload header secret tolerance ≡ ok event
    → (b : Bool) × (verify_header p payload header secret tolerance ≡ ok b)
      × ((v : Value) × (parse_verified_payload p payload ≡ ok v) × (event ≡ deserialize v))
unfolding construct_verified
construct_verified_sound p deserialize payload header secret tolerance event e =
    let (b, verified, rest) = bind-eq-ok (verify_header p payload header secret tolerance) _ e in
    let (v, parsed, built) = bind-eq-ok (parse_verified_payload p payload) _ rest in
    (b, verified, (v, parsed, ground arith))

-- A header that does not verify is refused before the body is parsed: the failure is that of the
-- check, whatever the parser of JSON does.
pub construct_verified_refuses {ℓ} :
    {E : Type ℓ} (p : Platform) (parser : List ℕ → Option Value) (deserialize : Value → E)
    (payload : Payload) (header secret : List ℕ) (tolerance : ℕ) (f : Failure)
    → verify_header p payload header secret tolerance ≡ err f
    → construct_verified
        (record p { parse_json = parser })
        deserialize
        payload
        header
        secret
        tolerance
      ≡ err f
unfolding construct_verified
construct_verified_refuses p parser deserialize payload header secret tolerance f e =
    rw (verify_header_parser p parser payload header secret tolerance ∙ e) refl
