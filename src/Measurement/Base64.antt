-- ===== src/Measurement/Base64.antt =====
-- The BASE64 branch of `step_mes_sz_payload` of src/measurement.c in exact arithmetic.
use native.Mathlib.Nat.{
  pow-suc, div-add-mod, div-add-mod', mod-lt, eq_of_mul-eq-mul_left, lt_of_mul-lt-mul_left,
  le_of_mul-le-mul_left, mul-div-mul_right,
}
use step.Common.{
  ℕ, zero, suc, ◌+◌, ◌-◌, ◌*◌, ◌/◌, ◌^◌, ◌<◌, ◌≤◌, ◌≡◌, ◌≢◌, refl, ap, inl, inr, leb, ◌==◌, Bool,
  true, false, Bool-cases, ==_iff, arith,
}
use step.Measurement.Float.{Float, nearest, scale, round, of_int, div, truncate}
use step.Measurement.Size.{sz_ceil, sz_base64}

pub pow-pos : (n : ℕ) → 0 < 2 ^ n
pow-pos zero = omega arith
pow-pos (suc n) = omega (arith, pow-suc 2 n, pow-pos n)

two-le-pow : (n : ℕ) → 0 < n → 2 ≤ 2 ^ n
two-le-pow zero h = absurd (omega arith)
two-le-pow (suc n) h = omega (arith, pow-suc 2 n, pow-pos n)

-- The nearest integer differs by a half at most.
nearest_bounds :
    (a d : ℕ) → 0 < d → (2 * (d * nearest a d) ≤ 2 * a + d) × (2 * a ≤ 2 * (d * nearest a d) + d)
unfolding nearest
nearest_bounds a d h = grind (arith, div-add-mod a d, mod-lt a h)

nearest-one : (a : ℕ) → nearest a 1 ≡ a
nearest-one a = omega (arith, nearest_bounds a 1 (omega arith))

scale-ge : (fuel p a d e : ℕ) → e ≤ scale fuel p a d e
unfolding scale
scale-ge zero p a d e = omega arith
scale-ge (suc fuel) p a d e = ground (arith, scale-ge fuel p a d (e + 1))

-- A quotient with fewer than `p` digits is scaled.
scale_pos : (fuel p a d : ℕ) → a / d < 2 ^ (p - 1) → 0 < scale (suc fuel) p a d 0
unfolding scale
scale_pos fuel p a d h =
    let e : a * 2 ^ 0 / d ≡ a / d = ap (λ x. x / d) (omega arith) in
    elim (Bool-cases (leb (2 ^ (p - 1)) (a * 2 ^ 0 / d))) [
      | inl y ↦ absurd (ground (arith, e))
      | inr n ↦ rw (n, scale) (scale-ge fuel p a d 1)
    ]

-- The float of a number is that number.
of_int_lem : (i : ℕ) → (of_int 24 i).man ≡ i * 2 ^ (of_int 24 i).exp
unfolding of_int round
of_int_lem i = nearest-one _

false-ne-true : {b : Bool} → b ≡ false → b ≡ true → ⊥
false-ne-true p q = cc

-- The ceiling of a float: no less than it, and less than one more.
sz_ceil_bounds :
    (x : Float) → (x.man ≤ sz_ceil x * 2 ^ x.exp) × (sz_ceil x * 2 ^ x.exp < x.man + 2 ^ x.exp)
unfolding sz_ceil truncate
sz_ceil_bounds x =
    let p = 2 ^ x.exp in
    let i = x.man / p in
    let q = 2 ^ (of_int 24 i).exp in
    let parts = div-add-mod' x.man p in
    let rest = mod-lt x.man (pow-pos x.exp) in
    elim (Bool-cases (x.man * q == (of_int 24 i).man * p)) [
      | inl y ↦
          let same : q * x.man ≡ q * (i * p) = grind (arith, (==_iff _ _).0 y, of_int_lem i) in
          let whole : x.man ≡ i * p =
            eq_of_mul-eq-mul_left q (pow-pos (of_int 24 i).exp) x.man (i * p) same in
          rw (y, sz_ceil) (omega (arith, whole), omega (arith, whole, pow-pos x.exp))
      | inr n ↦
          let partial : x.man ≢ i * p = λ e.
            let same : x.man * q ≡ (of_int 24 i).man * p =
              omega (arith, ap (λ t. t * q) e, ap (λ t. t * p) (of_int_lem i)) in
            false-ne-true n ((==_iff _ _).1 same) in
          rw (n, sz_ceil) (omega (arith, parts, rest), omega (arith, parts, rest, partial))
    ]

-- A number n / 3 that is rounded at one digit or more behind the point.
third_bounds :
    (n p man c : ℕ)
    → 2 ≤ p
    → 2 * (3 * man) ≤ 2 * (n * p) + 3
    → 2 * (n * p) ≤ 2 * (3 * man) + 3
    → man ≤ c * p
    → c * p < man + p
    → c ≡ (n + 2) / 3
third_bounds n p man c even l u lo hi =
    -- n p ≤ 3 man + 1 ≤ 3 c p + 1 and 3 c p ≤ 3 man + 3 (p - 1) ≤ n p + 1 + 3 (p - 1)
    let below : p * n < p * (3 * c + 1) = omega (arith, even) in
    let above : p * (3 * c) < p * (n + 3) = omega (arith, even) in
    let below' : n < 3 * c + 1 = lt_of_mul-lt-mul_left p below in
    let above' : 3 * c < n + 3 = lt_of_mul-lt-mul_left p above in omega (arith, below', above')

-- A third of a number, both with a factor `c`, as the division rounds it.
abbrev Third : ℕ → Float → Type 0
Third len x =
    (2 ≤ 2 ^ x.exp)
    × (2 * (3 * x.man) ≤ 2 * (len * 2 ^ x.exp) + 3)
    × (2 * (len * 2 ^ x.exp) ≤ 2 * (3 * x.man) + 3)

round-Third : (len c : ℕ) → 0 < c → len < 2 ^ 23 → Third len (round 24 (len * c) (3 * c))
unfolding round
round-Third len c h l =
    let e = scale 24 24 (len * c) (3 * c) 0 in
    let m = nearest (len * c * 2 ^ e) (3 * c) in
    let quotient : len * c / (3 * c) ≡ len / 3 = mul-div-mul_right len 3 h in
    let scaled : 0 < e = scale_pos 23 24 (len * c) (3 * c) (omega (arith, quotient)) in
    let (lo, hi) = nearest_bounds (len * c * 2 ^ e) (3 * c) (omega (arith, h)) in
    let lo' : c * (2 * (3 * m)) ≤ c * (2 * (len * 2 ^ e) + 3) = omega (arith, lo) in
    let hi' : c * (2 * (len * 2 ^ e)) ≤ c * (2 * (3 * m) + 3) = omega (arith, hi) in
    (two-le-pow e scaled, le_of_mul-le-mul_left lo' h, le_of_mul-le-mul_left hi' h)

three : of_int 24 3 ≡ record { man = 3 * 2 ^ 22; exp = 22 }
unfolding of_int
three = refl

div-Third : (len : ℕ) → len < 2 ^ 23 → Third len (div 24 (of_int 24 len) (of_int 24 3))
unfolding div
div-Third len h =
    let e = (of_int 24 len).exp in
    let a : (of_int 24 len).man * 2 ^ 22 ≡ len * (2 ^ e * 2 ^ 22) = omega (arith, of_int_lem len) in
    let d : 3 * 2 ^ 22 * 2 ^ e ≡ 3 * (2 ^ e * 2 ^ 22) = omega arith in
    rw (three, a, d) (round-Third len (2 ^ e * 2 ^ 22) (omega (arith, pow-pos e)) h)

-- The size of a payload in BASE64 is the length, rounded up to whole groups of 3 bytes, at 4
-- characters for each group: the float arithmetic loses nothing on payloads below 2 ^ 23 bytes.
pub sz_base64_lem : (len : ℕ) → len < 2 ^ 23 → sz_base64 len ≡ (len + 2) / 3 * 4
unfolding sz_base64
sz_base64_lem len h =
    let x = div 24 (of_int 24 len) (of_int 24 3) in
    let (even, lo, hi) = div-Third len h in
    let (l, u) = sz_ceil_bounds x in
    ap (λ t. t * 4) (third_bounds len (2 ^ x.exp) x.man (sz_ceil x) even lo hi l u)
