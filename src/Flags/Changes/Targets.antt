-- ===== src/Flags/Changes/Targets.antt =====
-- `targetsChanged` compares targets as finite maps, though it looks one way only: with distinct ids
-- on both sides and equal lengths, a map that contains the other is the other.
use workos_node.Prelude.{
  suc, String, Bool, true, false, ◌≡◌, refl, sym, ◌≢◌, ◌↔◌, Option, none, some, List, [], ◌∷◌, ◌==◌,
  str_eq, if◌then◌else◌, length, All, arith, eq_iff, eq_refl, Bool-cases, inl, inr, ◌∙◌, ◌⊎◌,
  ==_iff,
}
use mathlib.Core.Bool.{xor}
use workos_node.Flags.{Target, keys}
use workos_node.Flags.Laws.{HasDistinctKeys}
use workos_node.Flags.Changes.{pairs, map_get, differs, some_differs, targets_changed}

abbrev Pairs : Type 0
Pairs = List (String × Bool)

-- A key that is not there is not found.
map_get_absent :
    (l : Pairs) (k : String) → All (λ (j : String). j ≢ k) (keys l) → map_get l k ≡ none
unfolding map_get
map_get_absent [] k h = refl
map_get_absent ((j, b) ∷ l) k (hj, h) = ground (arith, eq_iff j k, map_get_absent l k h)

-- With distinct keys the head's pair is its own.
map_get_head :
    (k : String) (b : Bool) (l : Pairs)
    → All (λ (j : String). j ≢ k) (keys l)
    → map_get ((k, b) ∷ l) k ≡ some b
unfolding map_get
map_get_head k b l h = ground (arith, eq_refl k, map_get_absent l k h)

map_get_tail :
    (k id : String) (b : Bool) (l : Pairs) → k ≢ id → map_get ((k, b) ∷ l) id ≡ map_get l id
unfolding map_get
map_get_tail k id b l h = ground (arith, eq_iff k id)

remove : String → Pairs → Pairs
remove k [] = []
remove k ((j, b) ∷ l) = if str_eq j k then l else (j, b) ∷ remove k l

keys-remove-All :
    (P : String → Type 0) (k : String) (l : Pairs) → All P (keys l) → All P (keys (remove k l))
unfolding remove
keys-remove-All P k [] h = tt
keys-remove-All P k ((j, b) ∷ l) (hj, h) = elim (Bool-cases (str_eq j k)) [
  | inl e ↦ rw (e, remove) h
  | inr e ↦ rw (e, remove) (hj, keys-remove-All P k l h)
]

remove-HasDistinctKeys : (k : String) (l : Pairs) → HasDistinctKeys l → HasDistinctKeys (remove k l)
unfolding remove
remove-HasDistinctKeys k [] h = tt
remove-HasDistinctKeys k ((j, b) ∷ l) (hj, h) = elim (Bool-cases (str_eq j k)) [
  | inl e ↦ rw (e, remove) h
  | inr e ↦ rw (e, remove) (keys-remove-All (λ i. i ≢ j) k l hj, remove-HasDistinctKeys k l h)
]

map_get-past :
    (j k : String) (c : Bool) (l : Pairs) (b : Bool)
    → str_eq j k ≡ false
    → map_get ((j, c) ∷ l) k ≡ some b
    → map_get l k ≡ some b
unfolding map_get
map_get-past j k c l b e h = ground arith

length-remove :
    (k : String) (l : Pairs) (b : Bool)
    → map_get l k ≡ some b
    → suc (length (remove k l)) ≡ length l
unfolding remove map_get
length-remove k [] b h = absurd (ground arith)
length-remove k ((j, c) ∷ l) b h = elim (Bool-cases (str_eq j k)) [
  | inl e ↦ rw (e, remove) refl
  | inr e ↦ rw (e, remove) omega (arith, length-remove k l b (map_get-past j k c l b e h))
]

map_get-remove_ne : (k id : String) (l : Pairs) → k ≢ id → map_get (remove k l) id ≡ map_get l id
unfolding remove map_get
map_get-remove_ne k id [] h = refl
map_get-remove_ne k id ((j, b) ∷ l) h = elim (Bool-cases (str_eq j k)) [
  | inl e ↦ ground (arith, eq_iff j k, eq_iff j id)
  | inr e ↦ ground (arith, map_get-remove_ne k id l h)
]

empty_of_length : (l : Pairs) → length l ≡ 0 → l ≡ []
empty_of_length [] h = refl
empty_of_length (x ∷ l) h = absurd (omega arith)

map_get-remove : (k : String) (l : Pairs) → HasDistinctKeys l → map_get (remove k l) k ≡ none
unfolding remove map_get
map_get-remove k [] h = refl
map_get-remove k ((j, b) ∷ l) (hj, h) = elim (Bool-cases (str_eq j k)) [
  | inl e ↦ ground (arith, eq_iff j k, map_get_absent l j hj)
  | inr e ↦ ground (arith, map_get-remove k l h)
]

-- Lookups among other keys do not see a removal.
some_differs-remove :
    (k : String) (xs ys : Pairs)
    → All (λ (j : String). j ≢ k) (keys xs)
    → some_differs xs (remove k ys) ≡ some_differs xs ys
unfolding some_differs
some_differs-remove k [] ys h = refl
some_differs-remove k ((j, b) ∷ xs) ys (hj, h) =
    rw (map_get-remove_ne k j ys (λ e. hj (sym e)), some_differs-remove k xs ys h) refl

differs_iff : (o : Option Bool) (b : Bool) → differs o b ≡ false → o ≡ some b
unfolding xor
differs_iff none b h = absurd (ground arith)
differs_iff (some true) true h = refl
differs_iff (some true) false h = absurd (ground arith)
differs_iff (some false) true h = absurd (ground arith)
differs_iff (some false) false h = refl

differs_same : (b : Bool) → differs (some b) b ≡ false
unfolding xor
differs_same true = refl
differs_same false = refl

some_differs_head :
    (k : String) (b : Bool) (xs ys : Pairs)
    → some_differs ((k, b) ∷ xs) ys ≡ false
    → (map_get ys k ≡ some b) × (some_differs xs ys ≡ false)
unfolding some_differs
some_differs_head k b xs ys h = elim (Bool-cases (differs (map_get ys k) b)) [
  | inl e ↦ absurd (ground arith)
  | inr e ↦ (differs_iff (map_get ys k) b e, ground (arith, h, e))
]

some_differs_cons :
    (k : String) (b : Bool) (xs ys : Pairs)
    → map_get ys k ≡ some b
    → some_differs xs ys ≡ false
    → some_differs ((k, b) ∷ xs) ys ≡ false
unfolding some_differs
some_differs_cons k b xs ys h e = rw (h, differs_same b, e) refl

str-cases : (j k : String) → (j ≡ k) ⊎ (j ≢ k)
str-cases j k = elim (Bool-cases (str_eq j k)) [
  | inl e ↦ inl ((eq_iff j k).0 e)
  | inr e ↦ inr (λ p. ground (arith, eq_iff j k))
]

agrees_of_some_differs :
    (xs ys : Pairs)
    → HasDistinctKeys xs
    → HasDistinctKeys ys
    → length xs ≡ length ys
    → some_differs xs ys ≡ false
    → (id : String) → map_get xs id ≡ map_get ys id
agrees_of_some_differs [] ys hx hy hl h id = rw (empty_of_length ys (sym hl)) refl
agrees_of_some_differs ((k, b) ∷ xs) ys (hk, hx) hy hl h id =
    let (found, rest) = some_differs_head k b xs ys h in
    let shorter : length xs ≡ length (remove k ys) = omega (arith, length-remove k ys b found) in
    let below =
      agrees_of_some_differs xs (remove k ys) hx (remove-HasDistinctKeys k ys hy) shorter
        (some_differs-remove k xs ys hk ∙ rest) id in
    elim (str-cases k id) [
      | inl e ↦ rw (sym e) (map_get_head k b xs hk ∙ sym found)
      | inr e ↦ map_get_tail k id b xs e ∙ below ∙ map_get-remove_ne k id ys e
    ]

agrees_below :
    (k : String) (b : Bool) (xs ys : Pairs)
    → All (λ (j : String). j ≢ k) (keys xs)
    → HasDistinctKeys ys
    → ((id : String) → map_get ((k, b) ∷ xs) id ≡ map_get ys id)
    → (id : String) → map_get xs id ≡ map_get (remove k ys) id
agrees_below k b xs ys hk hy h id = elim (str-cases k id) [
  | inl e ↦ rw (sym e) (map_get_absent xs k hk ∙ sym (map_get-remove k ys hy))
  | inr e ↦ sym (map_get_tail k id b xs e) ∙ h id ∙ sym (map_get-remove_ne k id ys e)
]

some_differs_of_agrees :
    (xs ys : Pairs)
    → HasDistinctKeys xs
    → HasDistinctKeys ys
    → ((id : String) → map_get xs id ≡ map_get ys id)
    → (length xs ≡ length ys) × (some_differs xs ys ≡ false)
unfolding some_differs
some_differs_of_agrees [] [] hx hy h = (refl, refl)
some_differs_of_agrees [] ((k, b) ∷ ys) hx (hk, hy) h =
    absurd (ground (arith, h k, map_get_head k b ys hk, map_get_absent [] k tt))
some_differs_of_agrees ((k, b) ∷ xs) ys (hk, hx) hy h =
    let found = sym (h k) ∙ map_get_head k b xs hk in
    let (short, same) =
      some_differs_of_agrees xs (remove k ys) hx (remove-HasDistinctKeys k ys hy)
        (agrees_below k b xs ys hk hy h) in
    (
      omega (arith, length-remove k ys b found),
      some_differs_cons k b xs ys found (sym (some_differs-remove k xs ys hk) ∙ same),
    )

length-pairs : (ts : List Target) → length (pairs ts) ≡ length ts
unfolding pairs
length-pairs [] = refl
length-pairs (t ∷ ts) = omega (arith, length-pairs ts)

-- When the ids of each list are distinct, `targetsChanged` finds no change exactly when the two
-- lists give every id the same target state, or neither names it.
pub targets_changed_iff :
    (xs ys : List Target)
    → HasDistinctKeys (pairs xs)
    → HasDistinctKeys (pairs ys)
    → (targets_changed xs ys ≡ false)
      ↔ ((id : String) → map_get (pairs xs) id ≡ map_get (pairs ys) id)
unfolding targets_changed
targets_changed_iff xs ys hx hy = (
  λ h. elim (Bool-cases (length xs == length ys)) [
    | inl e ↦
        agrees_of_some_differs (pairs xs) (pairs ys) hx hy
          (length-pairs xs ∙ (==_iff (length xs) (length ys)).0 e ∙ sym (length-pairs ys))
          (ground (arith, h, e))
    | inr e ↦ absurd (ground arith)
  ],
  λ agree.
      let (same, e) = some_differs_of_agrees (pairs xs) (pairs ys) hx hy agree in
      rw ((==_iff (length xs) (length ys)).1 (sym (length-pairs xs) ∙ same ∙ length-pairs ys)) e,
)
