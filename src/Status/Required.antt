-- ===== src/Status/Required.antt =====
-- How many readings in range a sensor with a fixed update rate needs: what the rounding to `float`
-- does to the quotient of the hysteresis period and the rate.
use openpressod.Prelude.{
  ℕ, zero, suc, ◌+◌, ◌-◌, ◌*◌, ◌^◌, ◌≤◌, ◌<◌, ◌≡◌, arith, refl, ltb, Bool-cases, inl, inr,
}
use openpressod.Prelude.Floats.{nearest, round, one, to_float, divide, times, ceil}
use openpressod.Status.{required_invocations}

-- N is a / b up to a part in 2^24.
abbrev Near : ℕ → ℕ → ℕ → Type 0
Near n a b = (2 ^ 24 * (n * b) ≤ (2 ^ 24 + 1) * a) × ((2 ^ 24 - 1) * a ≤ 2 ^ 24 * (n * b))

nearest_error :
    (a b : ℕ) → 0 < b → (2 * (nearest a b * b) ≤ 2 * a + b) × (2 * a ≤ 2 * (nearest a b * b) + b)
unfolding nearest
nearest_error a b h = (grind arith, grind arith)

nearest-Near : (a b : ℕ) → 0 < b → b * 2 ^ 23 ≤ a → Near (nearest a b) a b
nearest-Near a b h k = let e = nearest_error a b h in (omega (arith, e.0), omega (arith, e.1))

round-Near : (fuel a b : ℕ) → 0 < b → b * 2 ^ 23 ≤ a → Near (round fuel a b) a b
unfolding round
round-Near zero a b h k = nearest-Near a b h k
round-Near (suc fuel) a b h k = elim (Bool-cases (ltb a (b * 2 ^ 24))) [
  | inl e ↦ rw (e, round) (nearest-Near a b h k)
  | inr e ↦
      let less : (2 * b) * 2 ^ 23 ≤ a = grind arith in
      let n = round-Near fuel a (2 * b) (omega arith) less in
      rw (e, round) (omega (arith, n.0), omega (arith, n.1))
]

ceil_bounds : (x : ℕ) → (x ≤ ceil x * one) × ((ceil x - 1) * one ≤ x)
unfolding ceil
ceil_bounds x = (omega arith, omega arith)

to_float-Near : (n : ℕ) → 0 < n → Near (to_float n) (n * one) 1
unfolding to_float
to_float-Near n h = round-Near 200 (n * one) 1 (omega arith) (omega arith)

divide-Near : (x y : ℕ) → 0 < y → y * 2 ^ 23 ≤ x * one → Near (divide x y) (x * one) y
unfolding divide
divide-Near x y h k = round-Near 200 (x * one) y h k

thousand : to_float 1000 ≡ 1000 * one
unfolding to_float round nearest
thousand = refl

-- The period in milliseconds again, after the division by 1000 and the multiplication.
abbrev milliseconds : ℕ → ℕ
milliseconds period = times (divide (to_float period) (to_float 1000)) (to_float 1000)

milliseconds_bounds :
    (period : ℕ)
    → 0 < period
    → let m = milliseconds period in
      (2 ^ 22 * m ≤ (2 ^ 22 + 1) * (period * one)) × ((2 ^ 22 - 1) * (period * one) ≤ 2 ^ 22 * m)
unfolding times
milliseconds_bounds period h =
    let a = to_float period in
    let b = divide a (1000 * one) in
    let ea = to_float-Near period h in
    let eb = divide-Near a (1000 * one) (omega arith) (omega (arith, ea.1)) in
    let ec = round-Near 200 (b * (1000 * one)) one (omega arith) (omega (arith, ea.1, eb.1)) in
    rw thousand (omega (arith, ea.0, eb.0, ec.0), omega (arith, ea.1, eb.1, ec.1))

scale_le : (k l q x y : ℕ) → k * x ≤ l * y → k * (q * x) ≤ l * (q * y)
scale_le k l zero x y h = omega arith
scale_le k l (suc q) x y h = let rest = scale_le k l q x y h in grind arith

-- The quotient spans the period, times the rate, up to less than one millisecond.
quotient_bounds :
    (period rate : ℕ)
    → 0 < period
    → period < 2 ^ 21
    → 0 < rate
    → rate < 2 ^ 63
    → let q = divide (milliseconds period) (to_float rate) in
      (q * rate < (period + 1) * one) × (period * one < q * rate + one)
quotient_bounds period rate h small hr bound =
    let m = milliseconds period in
    let y = to_float rate in
    let q = divide m y in
    let em = milliseconds_bounds period h in
    let ey = to_float-Near rate hr in
    let eq = divide-Near m y (omega (arith, ey.1)) (omega (arith, ey.0, em.1)) in
    let above = scale_le (2 ^ 24) ((2 ^ 24 + 1) * one) q y rate (omega (arith, ey.0)) in
    let below = scale_le ((2 ^ 24 - 1) * one) (2 ^ 24) q rate y (omega (arith, ey.1)) in
    (omega (arith, eq.0, em.0, below), omega (arith, eq.1, em.1, above))

round_zero : (fuel b : ℕ) → 0 < b → round fuel 0 b ≡ 0
unfolding round nearest
round_zero zero b h = grind arith
round_zero (suc fuel) b h = grind arith

milliseconds_zero : milliseconds 0 ≡ 0
unfolding to_float divide times round nearest
milliseconds_zero = refl

no_period : (rate : ℕ) → 0 < rate → rate < 2 ^ 63 → required_invocations 0 rate ≡ 1
unfolding required_invocations to_float divide ceil
no_period rate h bound =
    let y = to_float rate in
    let zero_time : milliseconds 0 ≡ 0 = milliseconds_zero in
    let ey = to_float-Near rate h in
    ground (arith, zero_time, round_zero 200 y (omega (arith, ey.1)))

pub required_invocations_pos : (period rate : ℕ) → 1 ≤ required_invocations period rate
unfolding required_invocations
required_invocations_pos period rate = omega arith

-- For a period under 2^21 milliseconds the readings span the period at the rate, and without the
-- last they do not exceed it.
pub required_invocations_lem :
    (period rate : ℕ)
    → period < 2 ^ 21
    → 0 < rate
    → rate < 2 ^ 63
    → let n = required_invocations period rate in
      (1 ≤ n) × (period ≤ n * rate) × ((n - 1) * rate ≤ period)
unfolding required_invocations
required_invocations_lem zero rate small h bound =
    let e = no_period rate h bound in
    (required_invocations_pos 0 rate, omega arith, rw e (omega arith))
required_invocations_lem (suc k) rate small h bound =
    let period = suc k in
    let q = divide (milliseconds period) (to_float rate) in
    let c = ceil q in
    let eq = quotient_bounds period rate (omega arith) small h bound in
    let ec = ceil_bounds q in
    let above = scale_le 1 one rate q c (omega (arith, ec.0)) in
    let below = scale_le one 1 rate (c - 1) q (omega (arith, ec.1)) in
    (required_invocations_pos period rate, grind (arith, eq.1), grind (arith, eq.0))
