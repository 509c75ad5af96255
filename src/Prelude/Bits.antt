-- ===== src/Prelude/Bits.antt =====
-- `&` with a low mask and `|` of disjoint fields as arithmetic, at variables.
use Prim.Native.Nat.{ℕ, zero, suc, ◌+◌, ◌*◌, ◌/◌, ◌%◌, ◌^◌, ◌≤◌, ◌<◌, min, max, bit_and, bit_or}
use Prim.Native.Nat.{digits, bit_and-bitwise, bit_or-bitwise}
use mathlib.Core.Path.{◌≡◌, refl, ap}
use mathlib.Core.Bool.{Bool, true, false, ◌&&◌}
use native.Mathlib.Omega.{arith}
use native.Mathlib.Nat.{pow-suc}
use Prim.Native.Nat.{compare, Ordering}

module _ (z : ℕ → ℕ) (f : ℕ → ℕ → ℕ) where
  -- Two fuels that both reach `a` give one answer.
  digits_enough : (k a b : ℕ) (j : ℕ) → a ≤ j → a ≤ k → digits z f j a b ≡ digits z f k a b
  digits_enough zero zero b zero hj hk = refl
  digits_enough (suc k) zero b zero hj hk = refl
  digits_enough zero zero b (suc j) hj hk = refl
  digits_enough (suc k) zero b (suc j) hj hk = refl
  digits_enough zero (suc a) b j hj hk = absurd (omega arith)
  digits_enough (suc k) (suc a) b zero hj hk = absurd (omega arith)
  digits_enough (suc k) (suc a) b (suc j) hj hk =
      let ih = digits_enough k (suc a / 2) (b / 2) j (omega arith) (omega arith) in
      ap (λ (t : ℕ). t * 2 + f (suc a % 2) (b % 2)) ih

  lowest_digit :
      (a b : ℕ)
      → digits z f (suc a) (suc a) b
        ≡ digits z f (suc a / 2) (suc a / 2) (b / 2) * 2 + f (suc a % 2) (b % 2)
  lowest_digit a b =
      let same = digits_enough a (suc a / 2) (b / 2) (suc a / 2) (omega arith) (omega arith) in
      omega (arith, same)

bit_and_split : (a b : ℕ) → bit_and a b ≡ bit_and (a / 2) (b / 2) * 2 + min (a % 2) (b % 2)
bit_and_split zero b = omega (arith, bit_and-bitwise 0 b, bit_and-bitwise 0 (b / 2))
bit_and_split (suc a) b = omega (
  arith,
  bit_and-bitwise (suc a) b,
  bit_and-bitwise (suc a / 2) (b / 2),
  lowest_digit (λ b. 0) min a b,
)

bit_or_split : (a b : ℕ) → bit_or a b ≡ bit_or (a / 2) (b / 2) * 2 + max (a % 2) (b % 2)
bit_or_split zero b = omega (arith, bit_or-bitwise 0 b, bit_or-bitwise 0 (b / 2))
bit_or_split (suc a) b = omega (
  arith,
  bit_or-bitwise (suc a) b,
  bit_or-bitwise (suc a / 2) (b / 2),
  lowest_digit (λ b. b) max a b,
)

zero-bit_or : (b : ℕ) → bit_or 0 b ≡ b
zero-bit_or b = bit_or-bitwise 0 b

double_pow : (q k : ℕ) → q * 2 ^ suc k ≡ 2 * (q * 2 ^ k)
double_pow q k = omega (arith, ap (λ (t : ℕ). q * t) (pow-suc 2 k))

-- `r | (q << k)` is a sum when `r` has at most `k` digits.
pub bit_or_disjoint : (k r q : ℕ) → r < 2 ^ k → bit_or r (q * 2 ^ k) ≡ r + q * 2 ^ k
bit_or_disjoint zero r q h =
    let e : r ≡ 0 = omega arith in rw e (omega (arith, zero-bit_or (q * 2 ^ 0)))
bit_or_disjoint (suc k) r q h = ground (
  arith,
  bit_or_split r (q * 2 ^ suc k),
  double_pow q k,
  pow-suc 2 k,
  bit_or_disjoint k (r / 2) q (omega (arith, pow-suc 2 k)),
)

halves_zero : (n a : ℕ) → a ≤ n → bit_and a 0 ≡ 0
halves_zero n zero h = omega (arith, bit_and-bitwise 0 0)
halves_zero zero (suc a) h = absurd (omega arith)
halves_zero (suc n) (suc a) h =
    omega (arith, bit_and_split (suc a) 0, halves_zero n (suc a / 2) (omega arith))

bit_and_mask1 : (a : ℕ) → bit_and a 0x1 ≡ a % 2
bit_and_mask1 a = omega (arith, bit_and_split a 1, halves_zero a (a / 2) (omega arith))

bit_and_mask3 : (a : ℕ) → bit_and a 0x3 ≡ a % 4
bit_and_mask3 a = omega (arith, bit_and_split a 3, bit_and_mask1 (a / 2))

bit_and_mask7 : (a : ℕ) → bit_and a 0x7 ≡ a % 8
bit_and_mask7 a = omega (arith, bit_and_split a 7, bit_and_mask3 (a / 2))

bit_and_mask15 : (a : ℕ) → bit_and a 0xf ≡ a % 16
bit_and_mask15 a = omega (arith, bit_and_split a 15, bit_and_mask7 (a / 2))

bit_and_mask31 : (a : ℕ) → bit_and a 0x1f ≡ a % 32
bit_and_mask31 a = omega (arith, bit_and_split a 31, bit_and_mask15 (a / 2))

bit_and_mask63 : (a : ℕ) → bit_and a 0x3f ≡ a % 64
bit_and_mask63 a = omega (arith, bit_and_split a 63, bit_and_mask31 (a / 2))

-- The mask 0x7f keeps the remainder by 128.
pub bit_and_low7 : (a : ℕ) → bit_and a 0x7f ≡ a % 128
bit_and_low7 a = omega (arith, bit_and_split a 127, bit_and_mask63 (a / 2))

module _ (f g : ℕ → ℕ) where
  abbrev agree : ℕ → Bool
  agree zero = true
  agree (suc n) = elim (compare (f n) (g n)) [ Ordering.eq ↦ true | _ ↦ false ] && agree n

  agree_sound : (n : ℕ) → agree n ≡ true → (x : ℕ) → x < n → f x ≡ g x
  agree_sound zero e x h = absurd (omega arith)
  agree_sound (suc n) e x h = ground (arith, agree_sound n (ground arith) x)

-- On a byte, the mask 0x80 reads the top bit, and `| 0x80` sets it.
pub bit_and_top : (b : ℕ) → b < 256 → bit_and b 0x80 ≡ b / 128 * 128
bit_and_top = agree_sound _ _ 256 refl

pub bit_or_top : (b : ℕ) → b < 128 → bit_or b 0x80 ≡ b + 128
bit_or_top = agree_sound _ _ 128 refl
