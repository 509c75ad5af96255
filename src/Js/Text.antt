-- ===== src/Js/Text.antt =====
-- Text operations of the language on lists of code points: `trim`, `split`, `Number` of a text of
-- digits, and `parseInt` with radix 10.
use workos_node.Js.{same_codes}
use workos_node.Prelude.{
  ℕ, ◌+◌, ◌-◌, ◌*◌, ◌≡◌, refl, ◌↔◌, ◌≢◌, ==_iff, Bool, true, ◌&&◌, ◌||◌, List, [], ◌∷◌, ◌++◌,
  append-nil, append_assoc, leb, ◌==◌, if◌then◌else◌, All, arith,
}

-- The white space that `trim` removes.
unfoldable pub is_space : ℕ → Bool
is_space c =
    (leb 9 c && leb c 13)
    || c == 32
    || c == 0xa0
    || c == 0x1680
    || (leb 0x2000 c && leb c 0x200a)
    || c == 0x2028
    || c == 0x2029
    || c == 0x202f
    || c == 0x205f
    || c == 0x3000
    || c == 0xfeff

unfoldable pub trim_start : List ℕ → List ℕ
trim_start [] = []
trim_start (c ∷ s) = if is_space c then trim_start s else c ∷ s

unfoldable pub trim_end : List ℕ → List ℕ
trim_end [] = []
trim_end (c ∷ s) = elim (trim_end s) [
  | [] ↦ if is_space c then [] else c ∷ []
  | d ∷ rest ↦ c ∷ d ∷ rest
]

unfoldable pub trim : List ℕ → List ℕ
trim s = trim_end (trim_start s)

trim_start-spaces : (s : List ℕ) → All (λ c. is_space c ≡ true) s → trim_start s ≡ []
unfolding trim_start
trim_start-spaces [] h = refl
trim_start-spaces (c ∷ s) (hc, h) = rw hc (trim_start-spaces s h)

-- Of white space nothing is left.
pub trim-spaces : (s : List ℕ) → All (λ c. is_space c ≡ true) s → trim s ≡ []
unfolding trim trim_end
trim-spaces s h = rw (trim_start-spaces s h) refl

abbrev pub is_digit : ℕ → Bool
is_digit c = leb b'0' c && leb c b'9'

abbrev pub all_digits : List ℕ → Bool
all_digits [] = true
all_digits (c ∷ s) = is_digit c && all_digits s

-- `Number(…)` of a text of decimal digits.
unfoldable pub decimal : ℕ → List ℕ → ℕ
decimal acc [] = acc
decimal acc (c ∷ s) = decimal (acc * 10 + (c - b'0')) s

-- `s.split(separator)` at a single character; the last piece is what follows the last separator.
unfoldable pub split_from : ℕ → List ℕ → List ℕ → List (List ℕ)
split_from separator piece [] = piece ∷ []
split_from separator piece (c ∷ s) =
    if c == separator
    then piece ∷ split_from separator [] s
    else split_from separator (piece ++ (c ∷ [])) s

unfoldable pub split : ℕ → List ℕ → List (List ℕ)
unfolding split_from
split separator s = split_from separator [] s

-- The digits at the front of a text.
unfoldable pub leading_digits : List ℕ → List ℕ
leading_digits [] = []
leading_digits (c ∷ s) = if is_digit c then c ∷ leading_digits s else []

-- What `parseInt` answers; `minus n` is -n.
pub data Integer : Type 0 where
  nan : Integer
  plus : ℕ → Integer
  minus : ℕ → Integer

unfoldable pub parse_digits : (ℕ → Integer) → List ℕ → Integer
unfolding decimal
parse_digits sign [] = nan
parse_digits sign (c ∷ s) = sign (decimal 0 (c ∷ s))

unfoldable pub parse_signed : List ℕ → Integer
unfolding parse_digits leading_digits
parse_signed [] = nan
parse_signed (c ∷ s) =
    if c == b'-'
    then parse_digits minus (leading_digits s)
    else if c == b'+'
    then parse_digits plus (leading_digits s)
    else parse_digits plus (leading_digits (c ∷ s))

-- `parseInt(s, 10)`
unfoldable pub parse_int : List ℕ → Integer
unfolding parse_signed trim_start
parse_int s = parse_signed (trim_start s)

abbrev pub Avoids : ℕ → List ℕ → Type 0
Avoids c s = All (λ (d : ℕ). d ≢ c) s

split_from-append :
    (c : ℕ) (piece s t : List ℕ)
    → Avoids c s
    → split_from c piece (s ++ (c ∷ t)) ≡ (piece ++ s) ∷ split_from c [] t
unfolding split_from
split_from-append c piece [] t h = ground (arith, append-nil piece)
split_from-append c piece (d ∷ s) t (hd, h) =
    ground (arith, split_from-append c (piece ++ (d ∷ [])) s t h, append_assoc piece (d ∷ []) s)

split_from_whole :
    (c : ℕ) (piece s : List ℕ) → Avoids c s → split_from c piece s ≡ (piece ++ s) ∷ []
unfolding split_from
split_from_whole c piece [] h = ground (arith, append-nil piece)
split_from_whole c piece (d ∷ s) (hd, h) =
    ground (arith, split_from_whole c (piece ++ (d ∷ [])) s h, append_assoc piece (d ∷ []) s)

-- Of a piece, the separator and a rest, the pieces are the piece and those of the rest.
pub split-append : (c : ℕ) (s t : List ℕ) → Avoids c s → split c (s ++ (c ∷ t)) ≡ s ∷ split c t
unfolding split
split-append c s t h = split_from-append c [] s t h

-- A text without the separator is one piece.
pub split_whole : (c : ℕ) (s : List ℕ) → Avoids c s → split c s ≡ s ∷ []
unfolding split
split_whole c s h = split_from_whole c [] s h

pub same_codes_iff : (s t : List ℕ) → (same_codes s t ≡ true) ↔ (s ≡ t)
unfolding same_codes
same_codes_iff [] [] = (λ h. refl, λ h. refl)
same_codes_iff [] (d ∷ t) = (λ h. absurd (ground arith), λ h. absurd (ground arith))
same_codes_iff (c ∷ s) [] = (λ h. absurd (ground arith), λ h. absurd (ground arith))
same_codes_iff (c ∷ s) (d ∷ t) = ground (arith, ==_iff c d, same_codes_iff s t)
