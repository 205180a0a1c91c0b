-- ===== src/Samples/Foc/Svm.antt =====
-- What the space vector modulation of samples/foc_controller/src/foc_svm.c computes, in exact
-- arithmetic.
use step.Common.{◌≡◌, sym, ap, ◌∙◌, true, false, inl, inr, ◌⊎◌}
use step.Samples.Float.{Float}
use step.Samples.Foc.{half, low, high, duties_1, duties_2, duties_3, duties_4, duties_5, duties_6}

-- Arithmetic without rounding, and the signs of its numbers.
pub record Exact (F : Type 0) (float : Float F) : Type 0 where
  pub add_assoc : (x y z : F) → float.add (float.add x y) z ≡ float.add x (float.add y z)
  pub add_comm : (x y : F) → float.add x y ≡ float.add y x
  pub add_zero : (x : F) → float.add x (float.literal 0 1) ≡ x
  pub add_neg : (x : F) → float.add x (float.neg x) ≡ float.literal 0 1
  pub sub_neg : (x y : F) → float.sub x y ≡ float.add x (float.neg y)
  pub half_add :
      (x y : F)
      → float.mul (float.literal 5 1) (float.add x y)
        ≡ float.add (float.mul (float.literal 5 1) x) (float.mul (float.literal 5 1) y)
  pub half_twice :
      (x : F) → float.add (float.mul (float.literal 5 1) x) (float.mul (float.literal 5 1) x) ≡ x
  pub mul_comm : (x y : F) → float.mul x y ≡ float.mul y x
  pub neg_of_lt :
      (x : F)
      → float.lt x (float.literal 0 1) ≡ true
      → float.lt (float.neg x) (float.literal 0 1) ≡ false
  pub neg_of_le :
      (x : F)
      → float.le x (float.literal 0 1) ≡ true
      → float.lt (float.neg x) (float.literal 0 1) ≡ false
  pub not_lt :
      (x : F) → float.le x (float.literal 0 1) ≡ false → float.lt x (float.literal 0 1) ≡ false

module _ {F : Type 0} (float : Float F) (exact : Exact F float) where
  abbrev add : F → F → F
  add = float.add

  -- Sums in another order.
  swap_last : (x y h : F) → add (add y h) x ≡ add (add x y) h
  swap_last x y h = exact.add_comm (add y h) x ∙ sym (exact.add_assoc x y h)

  pub cancel : (x y : F) → add (add x (float.neg y)) y ≡ x
  cancel x y =
      exact.add_assoc x (float.neg y) y
      ∙ ap (add x) (exact.add_comm (float.neg y) y ∙ exact.add_neg y)
      ∙ exact.add_zero x

  cancel_mid : (x y h : F) → add (add (add x (float.neg y)) h) y ≡ add x h
  cancel_mid x y h =
      swap_last y (add x (float.neg y)) h
      ∙ ap (λ t. add t h) (exact.add_comm y (add x (float.neg y)) ∙ cancel x y)

  pub zero_add : (x : F) → add (float.literal 0 1) x ≡ x
  zero_add x = exact.add_comm (float.literal 0 1) x ∙ exact.add_zero x

  -- Of three numbers that sum to 0, one is the sum of the others' negations.
  pub rest_of :
      (p q r : F) → add p (add q r) ≡ float.literal 0 1 → add (float.neg q) (float.neg r) ≡ p
  rest_of p q r z =
      let nq = float.neg q in
      let nr = float.neg r in
      let inner : add r (add nq nr) ≡ nq =
        ap (add r) (exact.add_comm nq nr)
        ∙ sym (exact.add_assoc r nr nq)
        ∙ ap (λ t. add t nq) (exact.add_neg r)
        ∙ zero_add nq in
      let whole : add (add q r) (add nq nr) ≡ float.literal 0 1 =
        exact.add_assoc q r (add nq nr) ∙ ap (add q) inner ∙ exact.add_neg q in
      sym (zero_add (add nq nr))
      ∙ ap (λ t. add t (add nq nr)) (sym z)
      ∙ exact.add_assoc p (add q r) (add nq nr)
      ∙ ap (add p) whole
      ∙ exact.add_zero p

  -- The highest and the lowest duty.
  high-low : (x y : F) → add (high float x y) (low float x y) ≡ float.literal 10 1
  high-low x y =
      let s = add x y in
      let z = float.sub (float.literal 10 1) s in
      let half_z = exact.mul_comm z (half float) in
      let twice : add (low float x y) (low float x y) ≡ z =
        ap (λ t. add t (low float x y)) half_z
        ∙ ap (add (float.mul (half float) z)) half_z
        ∙ exact.half_twice z in
      exact.add_assoc s (low float x y) (low float x y)
      ∙ ap (add s) (twice ∙ exact.sub_neg (float.literal 10 1) s)
      ∙ exact.add_comm s (add (float.literal 10 1) (float.neg s))
      ∙ cancel (float.literal 10 1) s

  -- The duties differ between the phases as the frame does, and the highest and the lowest sum to 1.
  abbrev pub Modulates : F → F → F × F × F → Type 0
  Modulates a b (da, db, dc) =
      (add db a ≡ da)
      × (add dc b ≡ db)
      × ((add da dc ≡ float.literal 10 1)
          ⊎ (add da db ≡ float.literal 10 1)
          ⊎ (add db dc ≡ float.literal 10 1))

  module _ (a b c : F) (balanced : add a (add b c) ≡ float.literal 0 1) where
    turned : add b (add c a) ≡ float.literal 0 1
    turned = sym (exact.add_assoc b c a) ∙ exact.add_comm (add b c) a ∙ balanced

    turned_twice : add c (add a b) ≡ float.literal 0 1
    turned_twice = exact.add_comm c (add a b) ∙ exact.add_assoc a b c ∙ balanced

    -- What a sum that vanishes leaves.
    vanish : (s h : F) → s ≡ float.literal 0 1 → add s h ≡ h
    vanish s h e = ap (λ t. add t h) e ∙ zero_add h

    pub duties_1-Modulates : Modulates a b (duties_1 float a b)
    duties_1-Modulates = (swap_last a b _, exact.add_comm _ b, inl (high-low a b))

    pub duties_2-Modulates : Modulates a b (duties_2 float (float.neg c) (float.neg a))
    duties_2-Modulates =
        let h = low float (float.neg c) (float.neg a) in
        (
          cancel_mid (float.neg c) a h,
          exact.add_comm h b ∙ ap (λ t. add t h) (sym (rest_of b c a turned)),
          inr (inr (high-low _ _)),
        )

    pub duties_3-Modulates : Modulates a b (duties_3 float b c)
    duties_3-Modulates = (
      swap_last a (add b c) _ ∙ vanish _ _ balanced,
      swap_last b c _,
      inr (inl (exact.add_comm _ _ ∙ high-low b c)),
    )

    pub duties_4-Modulates : Modulates a b (duties_4 float (float.neg a) (float.neg b))
    duties_4-Modulates = (
      swap_last a (float.neg a) _ ∙ vanish _ _ (exact.add_neg a),
      cancel_mid (float.neg a) b _,
      inl (exact.add_comm _ _ ∙ high-low _ _),
    )

    pub duties_5-Modulates : Modulates a b (duties_5 float c a)
    duties_5-Modulates = (
      exact.add_comm _ a,
      swap_last b (add c a) _ ∙ vanish _ _ turned,
      inr (inr (exact.add_comm _ _ ∙ high-low c a)),
    )

    pub duties_6-Modulates : Modulates a b (duties_6 float (float.neg b) (float.neg c))
    duties_6-Modulates =
        let h = low float (float.neg b) (float.neg c) in
        (
          exact.add_comm h a ∙ ap (λ t. add t h) (sym (rest_of a b c balanced)),
          swap_last b (float.neg b) h ∙ vanish _ _ (exact.add_neg b),
          inr (inl (high-low _ _)),
        )
