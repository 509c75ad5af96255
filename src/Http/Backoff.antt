-- ===== src/Http/Backoff.antt =====
-- `getSleepTimeInMilliseconds`: min(500 * 1.5^n, 8000) * (Math.random() + 0.5), as a fraction of
-- milliseconds. `Math.random()` is `draw` / 2^53 with `draw` below 2^53. The source computes in
-- floating point, which rounds the product.
use native.Mathlib.Nat.{pow-suc}
use workos_node.Prelude.{ℕ, zero, suc, ◌+◌, ◌*◌, ◌^◌, ◌≤◌, ◌<◌, min, arith}

abbrev pub minimum_sleep : ℕ
minimum_sleep = 500

abbrev pub maximum_sleep : ℕ
maximum_sleep = 8000

-- `num` / `den` milliseconds.
pub record Millis : Type 0 where
  pub num : ℕ
  pub den : ℕ

-- 1.5^n is 3^n / 2^n; both sides of the minimum stand over 2^n.
unfoldable pub base_sleep : ℕ → Millis
base_sleep n = record { num = min (minimum_sleep * 3 ^ n) (maximum_sleep * 2 ^ n); den = 2 ^ n }

unfoldable pub sleep_time : ℕ → ℕ → Millis
unfolding base_sleep
sleep_time n draw =
    let base = base_sleep n in record { num = base.num * (draw + 2 ^ 52); den = base.den * 2 ^ 53 }

pow_le : (n : ℕ) → 2 ^ n ≤ 3 ^ n
pow_le zero = omega arith
pow_le (suc n) = omega (arith, pow_le n, pow-suc 2 n, pow-suc 3 n)

pow_pos : (n : ℕ) → 1 ≤ 2 ^ n
pow_pos zero = omega arith
pow_pos (suc n) = omega (arith, pow_pos n, pow-suc 2 n)

scaled :
    (b d x : ℕ)
    → 500 * d ≤ b
    → b ≤ 8000 * d
    → 1 ≤ d
    → x < 2 ^ 53
    → (250 * (d * 2 ^ 53) ≤ b * (x + 2 ^ 52)) × (b * (x + 2 ^ 52) < 12000 * (d * 2 ^ 53))
scaled b d x lo hi pos hx = (omega arith, upper)
  where
    below : b * suc x ≤ b * 2 ^ 53
    below = grind arith

    upper : b * (x + 2 ^ 52) < 12000 * (d * 2 ^ 53)
    upper = omega (arith, below)

-- A computed delay is at least 250 ms and below 12 s, whatever the attempt and the random draw.
pub sleep_time_bounds :
    (n draw : ℕ)
    → draw < 2 ^ 53
    → (250 * (sleep_time n draw).den ≤ (sleep_time n draw).num)
      × ((sleep_time n draw).num < 12000 * (sleep_time n draw).den)
unfolding sleep_time
sleep_time_bounds n draw h =
    scaled (base_sleep n).num (2 ^ n) draw (omega (arith, pow_le n)) (omega arith) (pow_pos n) h
