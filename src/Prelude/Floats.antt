-- ===== src/Prelude/Floats.antt =====
-- Non-negative binary32 numbers: the natural number `N` stands for N * 2^-149, so every finite one is
-- exact, the subnormal ones too. Results are rounded to the nearest, with ties to even. There is no
-- infinity: nothing here comes near the largest binary32 number.
use Prim.Native.Nat.{ℕ, zero, suc, ◌+◌, ◌-◌, ◌*◌, ◌/◌, ◌%◌, ◌^◌}
use mathlib.Core.Bool.{true, false}
use openpressod.Prelude.Tests.{ltb, if◌then◌else◌}

-- The whole number nearest to a / b.
unfoldable pub nearest : ℕ → ℕ → ℕ
nearest a b =
    let q = a / b in
    let twice = 2 * (a % b) in if ltb twice b then q else if ltb b twice then q + 1 else q + q % 2

-- a / b to 24 significant bits: halved until it is below 2^24. The fuel bounds the halvings.
unfoldable pub round : ℕ → ℕ → ℕ → ℕ
round zero a b = nearest a b
round (suc fuel) a b = elim (ltb a (b * 2 ^ 24)) [
  | true ↦ nearest a b
  | false ↦ 2 * round fuel a (2 * b)
]

-- The float 1.
abbrev pub one : ℕ
one = 2 ^ 149

unfoldable pub to_float : ℕ → ℕ
to_float n = round 200 (n * one) 1

unfoldable pub divide : ℕ → ℕ → ℕ
divide x y = round 200 (x * one) y

unfoldable pub times : ℕ → ℕ → ℕ
times x y = round 200 (x * y) one

-- The least whole number that is not below the float.
unfoldable pub ceil : ℕ → ℕ
ceil x = (x + (one - 1)) / one
