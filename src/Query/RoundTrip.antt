-- ===== src/Query/RoundTrip.antt =====
-- A reader of query strings, written apart from the printer, and what it reads of what is printed.
use workos_node.Prelude.{
  ℕ, ◌+◌, ◌-◌, ◌*◌, ◌/◌, ◌%◌, ◌<◌, ◌≡◌, ◌⊎◌, refl, sym, ◌∙◌, ◌≢◌, ap, if_elim, false, ◌||◌, some,
  List, [], ◌∷◌, ◌++◌, leb, ◌==◌, any, if◌then◌else◌, All, All-append, All-map, arith, map,
}
use workos_node.Js.Text.{split, split-append, split_whole, Avoids}
use workos_node.Crypto.{encode}
use workos_node.Crypto.Hex.{IsByte}
use workos_node.Query.{
  is_unreserved, upper_digit, escaped, escape_byte, is_surrogate, Options, Params, encode_params,
  join, params_of, to_query_string,
}
use workos_node.Query.Encoding.{
  form_byte, form_bytes, reserved, reserved_marks, encode_rfc1738-form_bytes,
}
use workos_node.Vault.Frame.{encode-All}

-- What the reader has read of an escape.
pub data Scan : Type 0 where
  outside percent : Scan
  digit : ℕ → Scan

abbrev hex_value : ℕ → ℕ
hex_value c = if leb c b'9' then c - b'0' else c - b'A' + 10

-- The bytes that a form-encoded text stands for.
unfoldable pub unescape : Scan → List ℕ → List ℕ
unescape scan [] = []
unescape outside (c ∷ s) =
    let escape = unescape percent s in
    let rest = unescape outside s in
    if c == b'%' then escape else (if c == b'+' then 32 else c) ∷ rest
unescape percent (c ∷ s) = unescape (digit (hex_value c)) s
unescape (digit h) (c ∷ s) = (16 * h + hex_value c) ∷ unescape outside s

-- A parameter: what stands before the first equals sign, and what stands behind it.
unfoldable pub break_at : ℕ → List ℕ → List ℕ × List ℕ
break_at c [] = ([], [])
break_at c (d ∷ s) = let rest = break_at c s in if d == c then ([], s) else (d ∷ rest.0, rest.1)

unfoldable pub parse_param : List ℕ → List ℕ × List ℕ
unfolding break_at unescape
parse_param s = let parts = break_at b'=' s in (unescape outside parts.0, unescape outside parts.1)

unfoldable pub parse_query : List ℕ → List (List ℕ × List ℕ)
unfolding parse_param
parse_query [] = []
parse_query (c ∷ s) = map parse_param (split b'&' (c ∷ s))

upper_digit_value : (n : ℕ) → n < 16 → hex_value (upper_digit n) ≡ n
unfolding upper_digit
upper_digit_value n h = ground arith

unescape-escaped :
    (b : ℕ) (s : List ℕ) → b < 256 → unescape outside (escaped b ++ s) ≡ b ∷ unescape outside s
unfolding unescape escaped
unescape-escaped b s h =
    let high = upper_digit_value (b / 16) (omega arith) in
    let low = upper_digit_value (b % 16) (omega arith) in ground arith

unescape-form_byte :
    (b : ℕ) (s : List ℕ) → b < 256 → unescape outside (form_byte b ++ s) ≡ b ∷ unescape outside s
unfolding unescape form_byte escape_byte
unescape-form_byte b s h =
    let (no_percent, no_space, no_plus, _, _) = reserved_marks in
    ground (arith, reserved b b'%', reserved b b'+', unescape-escaped b s)

unescape-form_bytes :
    (bytes : List ℕ) → All IsByte bytes → unescape outside (form_bytes bytes) ≡ bytes
unfolding form_bytes unescape
unescape-form_bytes [] h = refl
unescape-form_bytes (b ∷ bytes) (hb, h) =
    rw (unescape-form_byte b (form_bytes bytes) hb) (ap (◌∷◌ b) (unescape-form_bytes bytes h))

digit_avoids : (n d : ℕ) → n < 16 → is_unreserved d ≡ false → d ≢ b'%' → upper_digit n ≢ d
unfolding upper_digit is_unreserved
digit_avoids n d h r p = λ e. ground arith

escaped-Avoids : (d b : ℕ) → b < 256 → is_unreserved d ≡ false → d ≢ b'%' → Avoids d (escaped b)
unfolding escaped
escaped-Avoids d b h r p = (
  (λ e. p (sym e)),
  (digit_avoids (b / 16) d (omega arith) r p, (digit_avoids (b % 16) d (omega arith) r p, tt)),
)

form_byte-Avoids :
    (d b : ℕ) → b < 256 → is_unreserved d ≡ false → d ≢ b'%' → d ≢ b'+' → Avoids d (form_byte b)
unfolding form_byte escape_byte
form_byte-Avoids d b h r p q =
    let code = escaped-Avoids d b h r p in
    if_elim (Avoids d) (b == 32) _ _ (λ e. ((λ f. q (sym f)), tt))
      (λ e.
        if_elim (Avoids d) (b == b'!' || b == 39 || b == b'*') _ _ (λ f. code)
          (λ f. if_elim (Avoids d) (is_unreserved b) _ _ (λ u. (reserved b d u r, tt)) (λ u. code)))

form_bytes-Avoids :
    (d : ℕ) (bytes : List ℕ)
    → All IsByte bytes
    → is_unreserved d ≡ false
    → d ≢ b'%'
    → d ≢ b'+'
    → Avoids d (form_bytes bytes)
unfolding form_bytes
form_bytes-Avoids d [] h r p q = tt
form_bytes-Avoids d (b ∷ bytes) (hb, h) r p q =
    All-append _ (form_byte b) (form_bytes bytes) (form_byte-Avoids d b hb r p q)
      (form_bytes-Avoids d bytes h r p q)

-- A text that can be encoded: code points, with no half of a pair of surrogates.
abbrev pub IsScalar : ℕ → Type 0
IsScalar c = (c < 0xd800) ⊎ ((0xdfff < c) × (c < 0x110000))

abbrev pub IsScalarText : List ℕ → Type 0
IsScalarText = All IsScalar

abbrev pub IsParam : List ℕ × List ℕ → Type 0
IsParam p = IsScalarText p.0 × IsScalarText p.1

abbrev wire : List ℕ × List ℕ → List ℕ
wire p = form_bytes (encode p.0) ++ (b'=' ∷ form_bytes (encode p.1))

-- The names and values in UTF-8.
abbrev pub in_utf8 : List ℕ × List ℕ → List ℕ × List ℕ
in_utf8 p = (encode p.0, encode p.1)

IsScalarText-IsByte : (s : List ℕ) → IsScalarText s → All IsByte (encode s)
IsScalarText-IsByte s h = encode-All s (All-map below s h)
  where
    below : (c : ℕ) → IsScalar c → c < 0x110000
    below c k = omega arith

no_surrogate : (s : List ℕ) → IsScalarText s → any is_surrogate s ≡ false
no_surrogate [] h = refl
no_surrogate (c ∷ s) h = ground (arith, h.0, no_surrogate s)

encode_params-wire : (ps : Params) → All IsParam ps → encode_params ps ≡ some (map wire ps)
unfolding encode_params
encode_params-wire [] h = refl
encode_params-wire ((k, v) ∷ ps) ((hk, hv), h) =
    rw
      (
        encode_params,
        encode_rfc1738-form_bytes k (no_surrogate k hk) (IsScalarText-IsByte k hk),
        encode_rfc1738-form_bytes v (no_surrogate v hv) (IsScalarText-IsByte v hv),
        encode_params-wire ps h,
      )
      refl

break_at-append : (c : ℕ) (s t : List ℕ) → Avoids c s → break_at c (s ++ (c ∷ t)) ≡ (s, t)
unfolding break_at
break_at-append c [] t h = ground arith
break_at-append c (d ∷ s) t (hd, h) = ground (arith, break_at-append c s t h)

parse_param-wire : (p : List ℕ × List ℕ) → IsParam p → parse_param (wire p) ≡ in_utf8 p
unfolding parse_param
parse_param-wire p h =
    let bytes = IsScalarText-IsByte p.0 h.0 in
    let (_, _, _, _, equals) = reserved_marks in
    rw
      (
        break_at-append b'=' (form_bytes (encode p.0)) (form_bytes (encode p.1)) (
            form_bytes-Avoids b'=' (encode p.0) bytes equals (λ e. ground arith)
              (λ e. ground arith)),
        unescape-form_bytes (encode p.0) bytes,
        unescape-form_bytes (encode p.1) (IsScalarText-IsByte p.1 h.1),
      )
      refl

wire-Avoids : (p : List ℕ × List ℕ) → IsParam p → Avoids b'&' (wire p)
wire-Avoids p h =
    let (_, _, _, mark, _) = reserved_marks in
    All-append _ (form_bytes (encode p.0)) _
      (form_bytes-Avoids b'&' _ (IsScalarText-IsByte p.0 h.0) mark (λ e. ground arith)
        (λ e. ground arith))
      (
        (λ e. ground arith),
        form_bytes-Avoids b'&' _ (IsScalarText-IsByte p.1 h.1) mark (λ e. ground arith)
            (λ e. ground arith),
      )

split-join :
    (p : List ℕ × List ℕ) (ps : Params)
    → All IsParam (p ∷ ps)
    → map parse_param (split b'&' (join (map wire (p ∷ ps)))) ≡ map in_utf8 (p ∷ ps)
unfolding join
split-join p [] (h, _) = rw (split_whole b'&' (wire p) (wire-Avoids p h), parse_param-wire p h) refl
split-join p (q ∷ ps) (h, k) =
    rw
      (
        split-append b'&' (wire p) (join (map wire (q ∷ ps))) (wire-Avoids p h),
        parse_param-wire p h,
      )
      (ap (◌∷◌ (in_utf8 p)) (split-join q ps k))

parse_query-split : (s : List ℕ) → s ≢ [] → parse_query s ≡ map parse_param (split b'&' s)
unfolding parse_query
parse_query-split [] h = absurd (h refl)
parse_query-split (d ∷ s) h = refl

not_empty : (s t : List ℕ) (c : ℕ) → s ++ (c ∷ t) ≢ []
not_empty [] t c = λ e. ground arith
not_empty (d ∷ s) t c = λ e. ground arith

joined_not_empty : (p : List ℕ × List ℕ) (ps : Params) → join (map wire (p ∷ ps)) ≢ []
unfolding join
joined_not_empty p [] = not_empty (form_bytes (encode p.0)) (form_bytes (encode p.1)) b'='
joined_not_empty p (q ∷ ps) = not_empty (wire p) (join (map wire (q ∷ ps))) b'&'

parse_query-join :
    (ps : Params) → All IsParam ps → parse_query (join (map wire ps)) ≡ map in_utf8 ps
unfolding parse_query join
parse_query-join [] h = refl
parse_query-join (p ∷ ps) h =
    parse_query-split (join (map wire (p ∷ ps))) (joined_not_empty p ps) ∙ split-join p ps h

-- Whatever the order of the keys, if no text among the parameters of the options holds half a pair of
-- surrogates, `toQueryString` returns a query string, and a reader of such strings finds in it
-- exactly those parameters, in order, with names and values in UTF-8: no text reaches beyond its
-- own value.
pub parse_query-to_query_string :
    (sort : List (List ℕ) → List (List ℕ)) (options : Options)
    → All IsParam (params_of sort options)
    → (q : List ℕ) × (to_query_string sort options ≡ some q)
      × (parse_query q ≡ map in_utf8 (params_of sort options))
unfolding to_query_string
parse_query-to_query_string sort options h = (
  join (map wire (params_of sort options)),
  rw (to_query_string, encode_params-wire (params_of sort options) h) refl,
  parse_query-join (params_of sort options) h,
)
