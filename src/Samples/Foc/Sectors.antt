-- ===== src/Samples/Foc/Sectors.antt =====
-- The sectors of the space vector modulation of samples/foc_controller/src/foc_svm.c.
use step.Common.{◌≡◌, refl, sym, ap, ◌∙◌, false, Bool-cases, inl, inr, ◌⊎◌}
use step.Samples.Float.{Float}
use step.Samples.Foc.{
  zero_f, half, sqrt_3, duties_1, duties_2, duties_3, duties_4, duties_5, duties_6, get_sector,
  limit_vector, frame, modulate, svm_set,
}
use step.Samples.Foc.Svm.{
  Exact, Modulates, cancel, duties_1-Modulates, duties_2-Modulates, duties_3-Modulates,
  duties_4-Modulates, duties_5-Modulates, duties_6-Modulates,
}

module _ {F : Type 0} (float : Float F) (exact : Exact F float) where
  -- The auxiliary frame sums to 0.
  frame-balanced :
      (v w : F)
      → (let (a, b, c) = frame float v w in float.add a (float.add b c) ≡ float.literal 0 1)
  unfolding frame
  frame-balanced v w =
      let n = float.neg v in
      let s = float.mul (sqrt_3 float) w in
      let twice : float.add (float.sub n s) (float.add n s) ≡ float.add n n =
        ap (λ t. float.add t (float.add n s)) (exact.sub_neg n s)
        ∙ ap (float.add (float.add n (float.neg s))) (exact.add_comm n s)
        ∙ sym (exact.add_assoc (float.add n (float.neg s)) s n)
        ∙ ap (λ t. float.add t n) (cancel float exact n s) in
      let halves : float.add (float.mul (half float) (float.sub n s))
            (float.mul (half float) (float.add n s))
          ≡ n =
        sym (exact.half_add (float.sub n s) (float.add n s))
        ∙ ap (float.mul (half float)) twice
        ∙ exact.half_add n n
        ∙ exact.half_twice n in
      ap (float.add v) halves ∙ exact.add_neg v

  -- The duties are those of one of the cases.
  abbrev pub Arranged : F → F → F × F × F → Type 0
  Arranged x y d =
      (d ≡ duties_1 float x y)
      ⊎ (d ≡ duties_2 float x y)
      ⊎ (d ≡ duties_3 float x y)
      ⊎ (d ≡ duties_4 float x y)
      ⊎ (d ≡ duties_5 float x y)
      ⊎ (d ≡ duties_6 float x y)

  -- The duties are those of two active vectors, neither for a negative time, and they modulate the
  -- vector with the frame `a`, `b`, `c`.
  abbrev pub Switched : F → F → F × F × F → Type 0
  Switched a b d =
      (x : F) × (y : F) × (float.lt x (zero_f float) ≡ false)
      × (float.lt y (zero_f float) ≡ false)
      × Arranged x y d
      × Modulates float exact a b d

  modulate-Switched :
      (a b c : F) (old : F × F × F)
      → float.add a (float.add b c) ≡ float.literal 0 1
      → Switched a b (modulate float (get_sector float a b c) a b c old)
  unfolding get_sector modulate
  modulate-Switched a b c old z = elim (Bool-cases (float.lt c (zero_f float))) [
    | inl c_neg ↦ elim (Bool-cases (float.lt a (zero_f float))) [
      | inl a_neg ↦
          rw (c_neg, a_neg, get_sector, modulate)
            (
              float.neg c,
              float.neg a,
              exact.neg_of_lt c c_neg,
              exact.neg_of_lt a a_neg,
              inr (inl refl),
              duties_2-Modulates float exact a b c z,
            )
      | inr a_pos ↦ elim (Bool-cases (float.lt b (zero_f float))) [
        | inl b_neg ↦
            rw (c_neg, a_pos, b_neg, get_sector, modulate)
              (
                float.neg b,
                float.neg c,
                exact.neg_of_lt b b_neg,
                exact.neg_of_lt c c_neg,
                inr (inr (inr (inr (inr refl)))),
                duties_6-Modulates float exact a b c z,
              )
        | inr b_pos ↦
            rw (c_neg, a_pos, b_pos, get_sector, modulate)
              (a, b, a_pos, b_pos, inl refl, duties_1-Modulates float exact a b c z)
      ]
    ]
    | inr c_pos ↦ elim (Bool-cases (float.lt a (zero_f float))) [
      | inl a_neg ↦ elim (Bool-cases (float.le b (zero_f float))) [
        | inl b_neg ↦
            rw (c_pos, a_neg, b_neg, get_sector, modulate)
              (
                float.neg a,
                float.neg b,
                exact.neg_of_lt a a_neg,
                exact.neg_of_le b b_neg,
                inr (inr (inr (inl refl))),
                duties_4-Modulates float exact a b c z,
              )
        | inr b_pos ↦
            rw (c_pos, a_neg, b_pos, get_sector, modulate)
              (
                b,
                c,
                exact.not_lt b b_pos,
                c_pos,
                inr (inr (inl refl)),
                duties_3-Modulates float exact a b c z,
              )
      ]
      | inr a_pos ↦
          rw (c_pos, a_pos, get_sector, modulate)
            (
              c,
              a,
              c_pos,
              a_pos,
              inr (inr (inr (inr (inl refl)))),
              duties_5-Modulates float exact a b c z,
            )
    ]
  ]

  -- In arithmetic without rounding, for every vector `foc_svm_set` writes the three duties, whatever
  -- stood there. They are those of two active vectors, neither for a negative time, and between the
  -- phases they differ exactly as the components of the limited vector in the auxiliary frame do:
  -- the first less the second duty is `a`, the second less the third is `b`. The zero vectors share
  -- the rest of the period evenly: the highest and the lowest duty sum to 1.
  pub svm_set-Switched :
      (sqrt : F → F) (v_alpha v_beta : F) (old : F × F × F)
      → (let (alpha, beta) = limit_vector float sqrt v_alpha v_beta in
          let (a, b, c) = frame float alpha beta in
          Switched a b (svm_set float sqrt v_alpha v_beta old))
  unfolding svm_set
  svm_set-Switched sqrt v_alpha v_beta old =
      let (alpha, beta) = limit_vector float sqrt v_alpha v_beta in
      let (a, b, c) = frame float alpha beta in
      modulate-Switched a b c old (frame-balanced alpha beta)
