-- ===== src/Measurement/Float.antt =====
-- The arithmetic of `float` and `double` that src/measurement.c uses: IEEE 754 binary32 and
-- binary64 numbers that are not negative, rounded to the nearest and to even.
use step.Common.{ℕ, zero, suc, ◌+◌, ◌-◌, ◌*◌, ◌/◌, ◌%◌, ◌^◌, ltb, leb, if◌then◌else◌, true, false}

-- The number `man` / 2 ^ `exp`.
pub record Float : Type 0 where
  pub man : ℕ
  pub exp : ℕ

-- The integer nearest to a / d, the even one of two.
unfoldable pub nearest : ℕ → ℕ → ℕ
nearest a d =
    let q = a / d in
    let r = a % d in if ltb (2 * r) d then q else if ltb d (2 * r) then q + 1 else q + q % 2

-- The first exponent from `e` on at which a / d has `p` digits before the point, within `fuel`
-- steps.
unfoldable pub scale : ℕ → ℕ → ℕ → ℕ → ℕ → ℕ
scale zero p a d e = e
scale (suc fuel) p a d e = elim (leb (2 ^ (p - 1)) (a * 2 ^ e / d)) [
  | true ↦ e
  | false ↦ scale fuel p a d (e + 1)
]

-- a / d rounded to `p` significant digits. A number below 2 ^ p and not below 1 needs at most `p`
-- steps to be scaled.
unfoldable pub round : ℕ → ℕ → ℕ → Float
unfolding nearest scale
round p a d = let e = scale p p a d 0 in record { man = nearest (a * 2 ^ e) d; exp = e }

-- `(float)i` and `(double)i`
unfoldable pub of_int : ℕ → ℕ → Float
unfolding round
of_int p i = round p i 1

-- The quotient and the product of two numbers, rounded to `p` digits.
unfoldable pub div : ℕ → Float → Float → Float
unfolding round
div p x y = round p (x.man * 2 ^ y.exp) (y.man * 2 ^ x.exp)

unfoldable pub mul : ℕ → Float → Float → Float
unfolding round
mul p x y = round p (x.man * y.man) (2 ^ (x.exp + y.exp))

-- Conversion of a `double` to a `float`.
unfoldable pub to_single : Float → Float
unfolding round
to_single x = round 24 x.man (2 ^ x.exp)

-- `(int32_t)x`
unfoldable pub truncate : Float → ℕ
truncate x = x.man / 2 ^ x.exp
