-- ===== src/Tests/Trits.antt =====
-- Exact arithmetic for the tests of the samples that compute with float.
use step.Common.{◌≡◌, refl, ◌==◌, if◌then◌else◌, Bool, true, false}
use step.Samples.Float.{Float}
use step.Samples.Foc.Svm.{Exact}
use step.Samples.Robot.{iterate}

-- The numbers modulo 3: arithmetic without rounding, in which 0.5 is 2.
pub data Trit : Type 0 where
  naught plus minus : Trit

unfoldable pub up : Trit → Trit
up naught = plus
up plus = minus
up minus = naught

unfoldable pub down : Trit → Trit
down naught = minus
down plus = naught
down minus = plus

unfoldable pub sum : Trit → Trit → Trit
sum naught y = y
sum plus y = up y
sum minus y = down y

unfoldable pub opposite : Trit → Trit
opposite naught = naught
opposite plus = minus
opposite minus = plus

unfoldable pub product : Trit → Trit → Trit
product naught y = naught
product plus y = y
product minus y = opposite y

pub is_minus : Trit → Bool
is_minus minus = true
is_minus x = false

pub is_at_most_0 : Trit → Bool
is_at_most_0 plus = false
is_at_most_0 x = true

abbrev pub float : Float Trit
float = record {
  literal =
      λ n k. if n == 0 then naught else if n == 5 then minus else if n == 2000 then minus else plus;
  add = sum;
  sub = λ x y. sum x (opposite y);
  mul = product;
  div = product;
  neg = opposite;
  lt = λ x y. is_minus (sum x (opposite y));
  le = λ x y. is_at_most_0 (sum x (opposite y));
}

sum_assoc : (x y z : Trit) → sum (sum x y) z ≡ sum x (sum y z)
unfolding sum up down
sum_assoc naught naught naught = refl
sum_assoc naught naught plus = refl
sum_assoc naught naught minus = refl
sum_assoc naught plus naught = refl
sum_assoc naught plus plus = refl
sum_assoc naught plus minus = refl
sum_assoc naught minus naught = refl
sum_assoc naught minus plus = refl
sum_assoc naught minus minus = refl
sum_assoc plus naught naught = refl
sum_assoc plus naught plus = refl
sum_assoc plus naught minus = refl
sum_assoc plus plus naught = refl
sum_assoc plus plus plus = refl
sum_assoc plus plus minus = refl
sum_assoc plus minus naught = refl
sum_assoc plus minus plus = refl
sum_assoc plus minus minus = refl
sum_assoc minus naught naught = refl
sum_assoc minus naught plus = refl
sum_assoc minus naught minus = refl
sum_assoc minus plus naught = refl
sum_assoc minus plus plus = refl
sum_assoc minus plus minus = refl
sum_assoc minus minus naught = refl
sum_assoc minus minus plus = refl
sum_assoc minus minus minus = refl

sum_comm : (x y : Trit) → sum x y ≡ sum y x
unfolding sum up down
sum_comm naught naught = refl
sum_comm naught plus = refl
sum_comm naught minus = refl
sum_comm plus naught = refl
sum_comm plus plus = refl
sum_comm plus minus = refl
sum_comm minus naught = refl
sum_comm minus plus = refl
sum_comm minus minus = refl

sum_naught : (x : Trit) → sum x naught ≡ x
unfolding sum up down
sum_naught naught = refl
sum_naught plus = refl
sum_naught minus = refl

sum-opposite : (x : Trit) → sum x (opposite x) ≡ naught
unfolding sum up down opposite
sum-opposite naught = refl
sum-opposite plus = refl
sum-opposite minus = refl

half_sum : (x y : Trit) → product minus (sum x y) ≡ sum (product minus x) (product minus y)
unfolding sum up down opposite product
half_sum naught naught = refl
half_sum naught plus = refl
half_sum naught minus = refl
half_sum plus naught = refl
half_sum plus plus = refl
half_sum plus minus = refl
half_sum minus naught = refl
half_sum minus plus = refl
half_sum minus minus = refl

half_twice : (x : Trit) → sum (product minus x) (product minus x) ≡ x
unfolding sum up down opposite product
half_twice naught = refl
half_twice plus = refl
half_twice minus = refl

product_comm : (x y : Trit) → product x y ≡ product y x
unfolding opposite product
product_comm naught naught = refl
product_comm naught plus = refl
product_comm naught minus = refl
product_comm plus naught = refl
product_comm plus plus = refl
product_comm plus minus = refl
product_comm minus naught = refl
product_comm minus plus = refl
product_comm minus minus = refl

opposite_of_lt : (x : Trit) → float.lt x naught ≡ true → float.lt (opposite x) naught ≡ false
unfolding sum up down opposite is_minus
opposite_of_lt naught e = refl
opposite_of_lt plus e = absurd cc
opposite_of_lt minus e = refl

opposite_of_le : (x : Trit) → float.le x naught ≡ true → float.lt (opposite x) naught ≡ false
unfolding sum up down opposite is_minus is_at_most_0
opposite_of_le naught e = refl
opposite_of_le plus e = absurd cc
opposite_of_le minus e = refl

not_less : (x : Trit) → float.le x naught ≡ false → float.lt x naught ≡ false
unfolding sum up down opposite is_minus is_at_most_0
not_less naught e = refl
not_less plus e = refl
not_less minus e = absurd cc

pub exact : Exact Trit float
exact = record {
  add_assoc = sum_assoc;
  add_comm = sum_comm;
  add_zero = sum_naught;
  add_neg = sum-opposite;
  sub_neg = λ x y. refl;
  half_add = half_sum;
  half_twice = half_twice;
  mul_comm = product_comm;
  neg_of_lt = opposite_of_lt;
  neg_of_le = opposite_of_le;
  not_lt = not_less;
}

-- A quarter of four times a number.
pub quarter :
    (x : Trit) → float.div (float.add (float.add x x) (float.add x x)) (float.literal 4 0) ≡ x
unfolding sum up down product opposite
quarter naught = refl
quarter plus = refl
quarter minus = refl

-- The mean of 200 equal numbers.
pub mean :
    (x : Trit)
    → float.div (iterate 200 (λ t. float.add t x) (float.literal 0 1)) (float.literal 2000 1) ≡ x
unfolding iterate sum up down product opposite
mean naught = refl
mean plus = refl
mean minus = refl
