-- ===== src/Flags/Runtime/Delays.antt =====
-- How long the client waits for its next poll.
use native.Mathlib.Nat.{mul-le-mul_left, mul-le-mul_right}
use workos_node.Prelude.{ℕ, ◌+◌, ◌*◌, ◌^◌, ◌≤◌, ◌<◌, max, arith}
use workos_node.Flags.Runtime.{base_delay, next_delay}

base_delay_le : (interval errors : ℕ) → base_delay interval errors ≤ max interval 60000
unfolding base_delay
base_delay_le interval errors = ground arith

jittered_le :
    (base most draw : ℕ)
    → base ≤ most
    → draw < 2 ^ 53
    → base * (9 * 2 ^ 53 + 2 * draw) ≤ most * (11 * 2 ^ 53)
jittered_le base most draw hb hd =
    let wide = mul-le-mul_right (9 * 2 ^ 53 + 2 * draw) hb in
    let high : 9 * 2 ^ 53 + 2 * draw ≤ 11 * 2 ^ 53 = omega arith in
    omega (arith, wide, mul-le-mul_left most high)

-- A delay is at least a second, and at most a tenth above the longer of the polling interval and a
-- minute.
pub next_delay_bounds :
    (interval errors draw : ℕ)
    → draw < 2 ^ 53
    → (1000 * (next_delay interval errors draw).den ≤ (next_delay interval errors draw).num)
      × (10 * (next_delay interval errors draw).num
          ≤ 11 * (max interval 60000 * (next_delay interval errors draw).den))
unfolding next_delay base_delay
next_delay_bounds interval errors draw h =
    let upper =
      jittered_le (base_delay interval errors) (max interval 60000) draw
        (base_delay_le interval errors) h in
    (omega arith, omega (arith, upper))
