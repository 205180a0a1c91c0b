-- ===== src/Common/Fields.antt =====
-- Words under the mask of one field: `k` bits from the bit `s` up.
use Prim.Native.Nat.{ℕ, zero, suc, ◌+◌, ◌-◌, ◌*◌, ◌/◌, ◌%◌, ◌^◌, ◌<◌, bit_and}
use mathlib.Core.Path.{◌≡◌, refl, sym, ap, ◌∙◌}
use mathlib.Core.Logic.{◌↔◌}
use native.Mathlib.Nat.{pow-suc, mod-add-div, mod-lt, add-mul-mod_self_left, mod-eq_of_lt}
use native.Mathlib.Omega.{arith}
use step.Common.Bits.{bit_and-halves, zero_mask, pow-pos}

-- `x << s` and `x >> s`
abbrev pub shl : ℕ → ℕ → ℕ
shl x zero = x
shl x (suc s) = 2 * shl x s

abbrev pub shr : ℕ → ℕ → ℕ
shr x zero = x
shr x (suc s) = shr (x / 2) s

-- The last bit of a mask.
bit_and-even : (x y : ℕ) → bit_and x (2 * y) ≡ 2 * bit_and (x / 2) y
bit_and-even x y =
    let (low, high) = bit_and-halves x (2 * y) in
    let half : 2 * y / 2 ≡ y = omega arith in omega (arith, low, rw half at high)

bit_and-odd : (x y : ℕ) → bit_and x (2 * y + 1) ≡ 2 * bit_and (x / 2) y + x % 2
bit_and-odd x y =
    let (low, high) = bit_and-halves x (2 * y + 1) in
    let half : (2 * y + 1) / 2 ≡ y = omega arith in omega (arith, low, rw half at high)

mod-double : (x p : ℕ) → 0 < p → x % (2 * p) ≡ 2 * (x / 2 % p) + x % 2
mod-double x p h =
    let r = x / 2 % p in
    let q = x / 2 / p in
    let whole : x ≡ (2 * r + x % 2) + (2 * p) * q = grind (arith, mod-add-div (x / 2) p) in
    let small : 2 * r + x % 2 < 2 * p = omega (arith, mod-lt (x / 2) h) in
    ap (λ y. y % (2 * p)) whole
    ∙ add-mul-mod_self_left (2 * r + x % 2) (2 * p) q
    ∙ mod-eq_of_lt small

-- The mask of the lowest bits.
pub low_mask : (k x : ℕ) → bit_and x (2 ^ k - 1) ≡ x % 2 ^ k
low_mask zero x = omega (arith, zero_mask x x (omega arith))
low_mask (suc k) x =
    let odd : 2 ^ suc k - 1 ≡ 2 * (2 ^ k - 1) + 1 = omega (arith, pow-suc 2 k, pow-pos k) in
    rw odd (
      bit_and-odd x (2 ^ k - 1)
      ∙ ap (λ y. 2 * y + x % 2) (low_mask k (x / 2))
      ∙ sym (mod-double x (2 ^ k) (pow-pos k))
      ∙ ap (λ y. x % y) (omega (arith, pow-suc 2 k)))

shl_mask : (s x m : ℕ) → bit_and x (shl m s) ≡ shl (bit_and (shr x s) m) s
shl_mask zero x m = refl
shl_mask (suc s) x m = omega (arith, bit_and-even x (shl m s), shl_mask s (x / 2) m)

shl-injective : (s a b : ℕ) → shl a s ≡ shl b s → a ≡ b
shl-injective zero a b e = e
shl-injective (suc s) a b e = shl-injective s a b (omega (arith, e))

-- Words that are equal when all bits but those of the field are cleared are those with the same
-- value of the field.
pub field-eq_iff :
    (s k a b : ℕ)
    → (bit_and a (shl (2 ^ k - 1) s) ≡ bit_and b (shl (2 ^ k - 1) s))
      ↔ (shr a s % 2 ^ k ≡ shr b s % 2 ^ k)
field-eq_iff s k a b = (
  λ e.
      sym (low_mask k (shr a s))
      ∙ shl-injective s _ _ (sym (shl_mask s a (2 ^ k - 1)) ∙ e ∙ shl_mask s b (2 ^ k - 1))
      ∙ low_mask k (shr b s),
  λ e.
      shl_mask s a (2 ^ k - 1)
      ∙ ap (λ x. shl x s) (low_mask k (shr a s) ∙ e ∙ sym (low_mask k (shr b s)))
      ∙ sym (shl_mask s b (2 ^ k - 1)),
)
