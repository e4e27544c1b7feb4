-- ===== src/Prelude/Round.antt =====
-- A quotient, rounded to a whole number.
use native.Mathlib.Nat.{lt-mul-div-succ, mul-div-le, mul-add, mul_assoc, mul-le-mul_left}
use tru_dev_tasks.Prelude.{ℕ, ◌+◌, ◌*◌, ◌/◌, ◌%◌, ◌≤◌, ◌<◌, ◌≡◌, ltb, if◌then◌else◌, arith}

-- To the nearest, a half to the even number: what Python does.
unfoldable pub half_even : ℕ → ℕ → ℕ
half_even n d =
    let q = n / d in
    let r = n % d in if ltb (2 * r) d then q else if ltb d (2 * r) then q + 1 else q + q % 2

-- To the nearest, a half up: what PostgreSQL does with a positive `numeric`.
unfoldable pub half_up : ℕ → ℕ → ℕ
half_up n d = (2 * n + d) / (2 * d)

-- `q` is at most a half away from `n / d`.
abbrev pub IsNearest : ℕ → ℕ → ℕ → Type 0
IsNearest n d q = (2 * n ≤ 2 * (d * q) + d) × (2 * (d * q) ≤ 2 * n + d)

half_even-floor : (n d : ℕ) → n / d ≤ half_even n d
unfolding half_even
half_even-floor n d = ground arith

pub half_even-le : (n d : ℕ) → 0 < d → n ≤ d * (half_even n d + 1)
half_even-le n d pos =
    let up : n < d * (n / d + 1) = lt-mul-div-succ n pos in
    let floor : d * (n / d + 1) ≤ d * (half_even n d + 1) =
      mul-le-mul_left d (omega (arith, half_even-floor n d)) in
    omega (arith, up, floor)

pub half_up-IsNearest : (n d : ℕ) → 0 < d → IsNearest n d (half_up n d)
unfolding half_up
half_up-IsNearest n d pos =
    let q = (2 * n + d) / (2 * d) in
    let up : 2 * n + d < 2 * d * (q + 1) = lt-mul-div-succ (2 * n + d) (omega (arith, pos)) in
    let down : 2 * d * q ≤ 2 * n + d = mul-div-le (2 * n + d) (2 * d) in
    let split : 2 * d * (q + 1) ≡ 2 * d * q + 2 * d * 1 = mul-add (2 * d) q 1 in
    let assoc : 2 * d * q ≡ 2 * (d * q) = mul_assoc 2 d q in
    (omega (arith, up, split, assoc), omega (arith, down, assoc))
