-- ===== src/Vault/Tests.antt =====
-- A text that is encrypted and decrypted against a server that knows one data key.
use Prim.Native.String
use workos_node.Prelude.{◌≡◌, refl, true, none, some, String, List, ℕ, [], ◌∷◌, ◌++◌, ok, arith}
use workos_node.Js.{
  Value, str, obj, end, field, nullish, prop, read, assign, spread, lookup, same_ignoring_case,
  same_codes, codes, lower,
}
use workos_node.Base64.{stored, base64_to_uint8_array, uint8_array_to_base64}
use workos_node.Base64.Toy.{toy_base64, toy_base64-IsBase64, to_text}
use workos_node.Crypto.{encode, encode_point}
use workos_node.Crypto.Aes
use workos_node.Crypto.Aes.{split_tag, tag_start}
use workos_node.Crypto.Toy.{toy_subtle, zeros, zeros-IsRandom, toy_subtle-IsAead}
use workos_node.Leb128.{encode_uint32, validate_uint32, encode_loop}
use workos_node.Http.{
  Response, responded, body_text, fetch_request, sent_headers, request_body, user_agent, get_header,
}
use workos_node.Http.Verbs.{
  Platform, with_entity, run_request, get_body, get_resource_url, get_query_string,
  content_type_header, to_json, is_json,
}
use workos_node.Http.Verbs
use workos_node.Http.Retry.{
  fetch_request_with_retry, make_request, should_retry_request, with_idempotency_key, has_header,
}
use workos_node.Client.{Workos, post, guarded, settle}
use workos_node.Client.Exceptions.{not_a_number}
use workos_node.Vault.{
  Site, Tools, DataKeyPair, create_data_key, decrypt_data_key, deserialize_create_data_key,
  deserialize_decrypt, post_to, answer, encrypt, decrypt, frame, associated_bytes,
}
use workos_node.Vault.RoundTrip.{Unwraps, decrypt-encrypt}

abbrev granted : Value
granted = obj (
    field "context" (obj end) (
      field "data_key" (str "a.")
        (field "encrypted_keys" (str "aa..") (field "id" (str "key_1") end))))

abbrev response_of_server : Response
response_of_server = record {
  status = 200;
  status_text = "OK";
  headers = ("Content-Type", "application/json") ∷ [];
  body = body_text "{}";
}

abbrev platform : Platform
platform = record {
  search_params = λ params. "";
  resolve = λ path base. String.◌++◌ base path;
  with_query = λ path query. path;
  headers_property = λ headers name. none;
  stringify = λ v. some "{}";
  parse_json = λ s. some granted;
  fresh_key = "key";
  error_delay = λ e. none;
  fetch = λ n req. responded response_of_server;
}

abbrev workos : Workos
workos = record {
  base_url = "https://api.workos.com";
  key = some "sk_1";
  client_id = some "client_1";
  has_api_key = true;
  http = record { headers = []; timeout_message = "Request timeout after 60000ms" };
  max_retries = none;
}

abbrev site : Site
site = record {
  platform = platform;
  show = λ v. "";
  to_number = λ s. not_a_number;
  workos = workos;
}

-- The decoder of a text of one-byte characters.
abbrev tools : Tools
tools = record {
  base64 = toy_base64;
  subtle = toy_subtle;
  random = zeros;
  decode_utf8 = λ bytes. bytes;
}

abbrev context : Value
context = obj (field "organization_id" (str "org_1") end)

running : Unit {0}
unfolding create_data_key decrypt_data_key deserialize_create_data_key deserialize_decrypt post_to
    answer encrypt frame associated_bytes post guarded settle Verbs.post with_entity run_request
    get_body get_resource_url get_query_string content_type_header fetch_request_with_retry
    make_request should_retry_request with_idempotency_key has_header assign spread fetch_request
    sent_headers request_body user_agent lookup to_json is_json get_header same_ignoring_case
    same_codes codes lower nullish prop read base64_to_uint8_array uint8_array_to_base64 stored
    encode encode_point Aes.encrypt split_tag tag_start encode_uint32 validate_uint32 encode_loop
running = tt

abbrev pair : DataKeyPair
pair = record { context = obj end; key = str "a."; id = str "key_1"; encrypted_keys = str "aa.." }

creates : create_data_key site context ≡ ok pair
unfolding running
creates = refl

opens_any :
    (keys : String)
    → decrypt_data_key site (str keys) ≡ ok (record { key = str "a."; id = str "key_1" })
unfolding running
opens_any keys = refl

site-Unwraps : Unwraps toy_base64 site site context
site-Unwraps = record {
  opens = λ found blob keys e h k.
      let same : pair ≡ found = ground (arith, creates) in
      (record { key = str "a."; id = str "key_1" }, opens_any keys, ground arith);
}

abbrev text : List ℕ
text = 2 ∷ 3 ∷ []

-- Vector, tag, the length of the key blob, the key blob, the text.
abbrev payload : String
payload = to_text (zeros 12 ++ (zeros 16 ++ (2 ∷ 2 ∷ 0 ∷ 2 ∷ 3 ∷ [])))

encrypts : encrypt tools site text context none ≡ ok payload
unfolding running
encrypts = refl

decrypt-encrypt_example : decrypt tools site (str payload) none ≡ ok (encode text)
decrypt-encrypt_example =
    decrypt-encrypt tools toy_base64-IsBase64 toy_subtle-IsAead zeros-IsRandom site site text
      context none payload site-Unwraps (omega arith) encrypts
