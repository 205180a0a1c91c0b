-- ===== src/Common/Bits.antt =====
-- Bits of a word, and what comparing two masked words says of them.
use Prim.Native.Nat.{
  ℕ, zero, suc, ◌+◌, ◌-◌, ◌*◌, ◌/◌, ◌%◌, ◌^◌, ◌≤◌, ◌<◌, min, bit_and, digits, bit_and-bitwise,
}
use mathlib.Core.Path.{◌≡◌, refl, sym, ◌∙◌}
use mathlib.Core.Logic.{◌↔◌}
use native.Mathlib.Nat.{pow-suc}
use native.Mathlib.Omega.{arith}

-- Bit `i` of `x`.
abbrev pub bit : ℕ → ℕ → ℕ
bit x zero = x % 2
bit x (suc i) = bit (x / 2) i

-- `bit_and` is defined with its first operand as fuel; every bound of that operand will do.
min-digits_fuel :
    (n m a b : ℕ) → a ≤ n → a ≤ m → digits (λ _. zero) min n a b ≡ digits (λ _. zero) min m a b
min-digits_fuel zero zero a b p q = refl
min-digits_fuel (suc n) (suc m) zero b p q = refl
min-digits_fuel (suc n) (suc m) (suc a) b p q =
    omega (arith, min-digits_fuel n m (suc a / 2) (b / 2) (omega arith) (omega arith))
min-digits_fuel n m zero b p q = elim n [
  | zero ↦ elim m [ zero ↦ refl | suc _ ↦ refl ]
  | suc _ ↦ elim m [ zero ↦ refl | suc _ ↦ refl ]
]
min-digits_fuel n m (suc a) b p q = absurd (omega arith)

-- The lowest bit of the conjunction, and the others.
pub bit_and-halves :
    (x y : ℕ)
    → (bit_and x y % 2 ≡ min (x % 2) (y % 2)) × (bit_and x y / 2 ≡ bit_and (x / 2) (y / 2))
bit_and-halves x y = let whole = digit x in (omega (arith, whole), omega (arith, whole))
  where
    digit : (z : ℕ) → bit_and z y ≡ min (z % 2) (y % 2) + 2 * bit_and (z / 2) (y / 2)
    digit zero = omega (arith, bit_and-bitwise 0 (y / 2), bit_and-bitwise 0 y)
    digit (suc z) =
        let half = suc z / 2 in
        let enough = min-digits_fuel z half half (y / 2) (omega arith) (omega arith) in
        omega (arith, enough, bit_and-bitwise half (y / 2), bit_and-bitwise (suc z) y)

pub pow-pos : (n : ℕ) → 0 < 2 ^ n
pow-pos zero = omega arith
pow-pos (suc n) = omega (arith, pow-suc 2 n, pow-pos n)

-- Nothing is left under an empty mask.
pub zero_mask : (bound x : ℕ) → x < suc bound → bit_and x 0 ≡ 0
zero_mask bound zero l = bit_and-bitwise 0 0
zero_mask zero (suc x) l = absurd (omega arith)
zero_mask (suc bound) (suc x) l =
    let (low, high) = bit_and-halves (suc x) 0 in
    let rest = zero_mask bound (suc x / 2) (omega arith) in omega (arith, low, high, rest)

-- Two words agree under a mask of `n` bits exactly when they agree at each bit that it sets.
masked-eq_of_bits :
    (n a b k : ℕ)
    → k < 2 ^ n
    → ((i : ℕ) → i < n → bit k i ≡ 1 → bit a i ≡ bit b i)
    → bit_and a k ≡ bit_and b k
masked-eq_of_bits zero a b zero h f =
    zero_mask a a (omega arith) ∙ sym (zero_mask b b (omega arith))
masked-eq_of_bits zero a b (suc k) h f = absurd (omega arith)
masked-eq_of_bits (suc n) a b k h f =
    let low : k % 2 ≡ 1 → a % 2 ≡ b % 2 = λ e. f 0 (omega arith) e in
    let rest : bit_and (a / 2) (k / 2) ≡ bit_and (b / 2) (k / 2) =
      masked-eq_of_bits n (a / 2) (b / 2) (k / 2) (omega (arith, pow-suc 2 n))
        (λ i l e. f (suc i) (omega arith) e) in
    grind (arith, bit_and-halves a k, bit_and-halves b k)

bits-eq_of_masked :
    (n a b k : ℕ) → bit_and a k ≡ bit_and b k → (i : ℕ) → i < n → bit k i ≡ 1 → bit a i ≡ bit b i
bits-eq_of_masked zero a b k h i l e = absurd (omega arith)
bits-eq_of_masked (suc n) a b k h zero l e = omega (arith, bit_and-halves a k, bit_and-halves b k)
bits-eq_of_masked (suc n) a b k h (suc i) l e =
    bits-eq_of_masked n (a / 2) (b / 2) (k / 2)
      (omega (arith, bit_and-halves a k, bit_and-halves b k)) i (omega arith) e

-- The complement of a word of `n` bits has the other bits.
pub bit-complement : (n m i : ℕ) → m < 2 ^ n → i < n → bit (2 ^ n - 1 - m) i ≡ 1 - bit m i
bit-complement zero m i h l = absurd (omega arith)
bit-complement (suc n) m zero h l = omega (arith, pow-suc 2 n)
bit-complement (suc n) m (suc i) h l =
    let half : (2 ^ suc n - 1 - m) / 2 ≡ 2 ^ n - 1 - m / 2 = omega (arith, pow-suc 2 n) in
    rw half (bit-complement n (m / 2) i (omega (arith, pow-suc 2 n)) (omega arith))

-- Two words of which the bits under `m` are cleared are equal exactly when the words agree at
-- each bit that `m` leaves.
pub cleared-eq_iff :
    (n a b m : ℕ)
    → m < 2 ^ n
    → (bit_and a (2 ^ n - 1 - m) ≡ bit_and b (2 ^ n - 1 - m))
      ↔ ((i : ℕ) → i < n → bit m i ≡ 0 → bit a i ≡ bit b i)
cleared-eq_iff n a b m h = (
  λ e i l z.
      bits-eq_of_masked n a b (2 ^ n - 1 - m) e i l (omega (arith, bit-complement n m i h l)),
  λ f.
      masked-eq_of_bits n a b (2 ^ n - 1 - m) (omega (arith, pow-pos n))
        (λ i l e. f i l (omega (arith, bit-complement n m i h l))),
)

-- Words of `n` bits with the same bits are equal.
pub eq_of_bits : (n a b : ℕ) → a < 2 ^ n → b < 2 ^ n → ((i : ℕ) → i < n → bit a i ≡ bit b i) → a ≡ b
eq_of_bits zero a b p q f = omega arith
eq_of_bits (suc n) a b p q f =
    let low : a % 2 ≡ b % 2 = f 0 (omega arith) in
    let high : a / 2 ≡ b / 2 =
      eq_of_bits n (a / 2) (b / 2) (omega (arith, pow-suc 2 n)) (omega (arith, pow-suc 2 n))
        (λ i l. f (suc i) (omega arith)) in
    omega arith
