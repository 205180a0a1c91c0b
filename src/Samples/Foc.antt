-- ===== src/Samples/Foc.antt =====
-- The space vector modulation of samples/foc_controller/src/foc_svm.c.
pub mod Svm
pub mod Sectors
pub mod Driver
pub mod Nodes
pub mod Thread
pub mod Encoder
use step.Common.{ℕ, ◌==◌, if◌then◌else◌, List, [], ◌∷◌, Bool}
use step.Samples.Float.{Float}

module _ {F : Type 0} (float : Float F) where
  abbrev pub zero_f : F
  zero_f = float.literal 0 1

  abbrev pub half : F
  half = float.literal 5 1

  -- SQRT_3
  abbrev pub sqrt_3 : F
  sqrt_3 = float.literal 17320508075688773 16

  abbrev pub sqrt3_by_two : F
  sqrt3_by_two = float.div sqrt_3 (float.literal 20 1)

  unfoldable pub get_sector : F → F → F → ℕ
  get_sector a b c =
      if float.lt c zero_f
      then (if float.lt a zero_f then 2 else if float.lt b zero_f then 6 else 1)
      else (if float.lt a zero_f then (if float.le b zero_f then 4 else 3) else 5)

  -- The vector, limited to the length sqrt3_by_two. `sqrt` is what `arm_sqrt_f32` stores.
  unfoldable pub limit_vector : (F → F) → F → F → F × F
  limit_vector sqrt v_alpha v_beta =
      let length = sqrt (float.add (float.mul v_alpha v_alpha) (float.mul v_beta v_beta)) in
      if float.lt sqrt3_by_two length
      then (
        float.mul (float.div v_alpha length) sqrt3_by_two,
        float.mul (float.div v_beta length) sqrt3_by_two,
      )
      else (v_alpha, v_beta)

  -- The auxiliary frame `a`, `b`, `c` of a vector.
  unfoldable pub frame : F → F → F × F × F
  frame v_alpha v_beta = (
    v_alpha,
    float.mul half (float.sub (float.neg v_alpha) (float.mul sqrt_3 v_beta)),
    float.mul half (float.add (float.neg v_alpha) (float.mul sqrt_3 v_beta)),
  )

  -- `z * 0.5f`, and with it the four duties that the cases of the `switch` give the phases.
  abbrev pub low : F → F → F
  low x y = float.mul (float.sub (float.literal 10 1) (float.add x y)) half

  abbrev pub high : F → F → F
  high x y = float.add (float.add x y) (low x y)

  abbrev pub low_x : F → F → F
  low_x x y = float.add x (low x y)

  abbrev pub low_y : F → F → F
  low_y x y = float.add y (low x y)

  -- The cases of the `switch` over the sector: `*dca`, `*dcb` and `*dcc` from `x` and `y`.
  abbrev pub duties_1 : F → F → F × F × F
  duties_1 x y = (high x y, low_y x y, low x y)

  abbrev pub duties_2 : F → F → F × F × F
  duties_2 x y = (low_x x y, high x y, low x y)

  abbrev pub duties_3 : F → F → F × F × F
  duties_3 x y = (low x y, high x y, low_y x y)

  abbrev pub duties_4 : F → F → F × F × F
  duties_4 x y = (low x y, low_x x y, high x y)

  abbrev pub duties_5 : F → F → F × F × F
  duties_5 x y = (low_y x y, low x y, high x y)

  abbrev pub duties_6 : F → F → F × F × F
  duties_6 x y = (high x y, low x y, low_x x y)

  -- The `switch`. In the default case the results stay `old`.
  unfoldable pub modulate : ℕ → F → F → F → F × F × F → F × F × F
  modulate sector a b c old =
      if sector == 1
      then duties_1 a b
      else if sector == 2
      then duties_2 (float.neg c) (float.neg a)
      else if sector == 3
      then duties_3 b c
      else if sector == 4
      then duties_4 (float.neg a) (float.neg b)
      else if sector == 5
      then duties_5 c a
      else if sector == 6
      then duties_6 (float.neg b) (float.neg c)
      else old

  -- `foc_svm_set`, from the contents `old` of the results.
  unfoldable pub svm_set : (F → F) → F → F → F × F × F → F × F × F
  svm_set sqrt v_alpha v_beta old =
      let (alpha, beta) = limit_vector sqrt v_alpha v_beta in
      let (a, b, c) = frame alpha beta in modulate (get_sector a b c) a b c old
