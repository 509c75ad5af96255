-- ===== src/Signature/Tests.antt =====
-- A header that verifies, and one whose timestamp is no number.
use workos_node.Prelude.{ℕ, ◌≡◌, refl, true, Option, some, List, [], if◌then◌else◌, arith, ok, err}
use workos_node.Js.{Value, null, codes, same_codes}
use workos_node.Js.Text.{
  split, split_from, nan, parse_int, parse_signed, trim_start, is_space, leading_digits, decimal,
}
use workos_node.Crypto.{
  hex, hex_digit, byte_hex, encode, encode_point, compute_hmac_signature, secure_compare,
}
use workos_node.Crypto.Toy.{toy_subtle, toy_subtle-IsHmac}
use workos_node.Signature.{
  Platform, Payload, outside_tolerance, parts_missing, after_equals,
  get_timestamp_and_signature_hash, interpolated, is_older, decode_payload_to_string,
  compute_signature, check_tolerance, check_hash, present, verify_header, parse_verified_payload,
  construct_verified, webhook_tolerance,
}
use workos_node.Signature.Laws.{signed_header, Accepted, verify_header_signed, verify_header_sound}

abbrev p : Platform
p = record {
  subtle = toy_subtle;
  now = 1700000100000;
  decode_utf8 = λ s. s;
  stringify = λ v. [];
  parse_json = λ s. some null;
}

abbrev body : Payload
body = Payload.text (codes "{}")

abbrev secret : List ℕ
secret = codes "whsec"

abbrev timestamp : List ℕ
timestamp = codes "1700000000000"

abbrev signature : List ℕ
signature = compute_signature p (some timestamp) body secret

reading : Unit {0}
unfolding verify_header construct_verified parse_verified_payload get_timestamp_and_signature_hash
    after_equals present check_tolerance check_hash is_older parse_int parse_signed trim_start
    is_space leading_digits decimal compute_signature compute_hmac_signature secure_compare
    decode_payload_to_string hex byte_hex hex_digit encode encode_point codes same_codes split
    split_from signed_header
reading = tt

verifies :
    verify_header p body (signed_header timestamp signature) secret webhook_tolerance ≡ ok true
unfolding reading
verifies = refl

verify_header_signed_example :
    verify_header p body (signed_header timestamp signature) secret webhook_tolerance ≡ (
      if is_older (parse_int timestamp) p.now webhook_tolerance
      then err outside_tolerance
      else ok true)
unfolding codes
verify_header_signed_example =
    verify_header_signed p toy_subtle-IsHmac body timestamp secret webhook_tolerance (omega arith)
      (omega arith)

verify_header_sound_example :
    (t : Option (List ℕ)) × (hash : List ℕ) × (get_timestamp_and_signature_hash
        (signed_header timestamp signature)
      ≡ ok (t, some hash))
    × Accepted p body secret webhook_tolerance t hash
verify_header_sound_example =
    verify_header_sound p body (signed_header timestamp signature) secret webhook_tolerance true
      verifies

constructs :
    construct_verified p
      (λ (v : Value). v)
      body
      (signed_header timestamp signature)
      secret
      webhook_tolerance
    ≡ ok null
unfolding reading
constructs = refl

no_parts : verify_header p body (codes "t=5") secret webhook_tolerance ≡ err parts_missing
unfolding reading
no_parts = refl

-- "t=soon,v1=00"
abbrev undated : List ℕ
undated = codes "t=soon,v1=00"

undated_parts :
    get_timestamp_and_signature_hash undated ≡ ok (some (codes "soon"), some (codes "00"))
unfolding reading
undated_parts = refl

not_a_number : parse_int (interpolated (some (codes "soon"))) ≡ nan
unfolding reading
not_a_number = refl
