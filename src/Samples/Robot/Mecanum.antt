-- ===== src/Samples/Robot/Mecanum.antt =====
-- What the node of samples/mobile_robot_kinematic_server/src/kinematic_node.c computes for a base
-- with mecanum wheels, in exact arithmetic.
use step.Common.{ℕ, ◌≡◌, sym, ap, ◌∙◌, Option, some}
use step.Node.{nodes_of}
use step.Platform.{Platform}
use step.ProcMgr.Process.{run_nodes, run_node, fire}
use step.Samples.Float.{Float}
use step.Samples.Foc.Svm.{Exact, rest_of, zero_add}
use step.Samples.Robot.{
  Speeds, BodyVelocity, Remote, per_second, average_rps_x, average_rps_y, average_rps_a,
  body_velocity, do_process, node_chain,
}

module _ {F : Type 0} (float : Float F) (exact : Exact F float) where
  abbrev add : F → F → F
  add = float.add

  abbrev neg : F → F
  neg = float.neg

  interchange : (p q r s : F) → add (add p q) (add r s) ≡ add (add p r) (add q s)
  interchange p q r s =
      exact.add_assoc p q (add r s)
      ∙ ap (add p) (
          sym (exact.add_assoc q r s)
          ∙ ap (λ t. add t s) (exact.add_comm q r)
          ∙ exact.add_assoc r q s)
      ∙ sym (exact.add_assoc p r (add q s))

  -- Two numbers, one with `t` more and one with `t` less.
  add-opposite : (a b t : F) → add (add a t) (add b (neg t)) ≡ add a b
  add-opposite a b t =
      interchange a t b (neg t) ∙ ap (add (add a b)) (exact.add_neg t) ∙ exact.add_zero (add a b)

  opposite-add : (a b t : F) → add (add a (neg t)) (add b t) ≡ add a b
  opposite-add a b t =
      exact.add_comm (add a (neg t)) (add b t) ∙ add-opposite b a t ∙ exact.add_comm b a

  neg-neg : (t : F) → neg (neg t) ≡ t
  neg-neg t =
      sym (zero_add float exact (neg (neg t)))
      ∙ ap (λ z. add z (neg (neg t))) (sym (exact.add_neg t))
      ∙ exact.add_assoc t (neg t) (neg (neg t))
      ∙ ap (add t) (exact.add_neg (neg t))
      ∙ exact.add_zero t

  neg-add : (a b : F) → neg (add a b) ≡ add (neg a) (neg b)
  neg-add a b = sym (
      rest_of float exact (neg (add a b)) a b
        (exact.add_comm (neg (add a b)) (add a b) ∙ exact.add_neg (add a b)))

  -- The speeds of the wheels of a base that is to go ahead with `x`, to the side with `y` and to turn
  -- with `t`: the inverse kinematics.
  abbrev pub wheels : F → F → F → Speeds F
  wheels x y t =
      (add (add x (neg y)) (neg t), add (add x y) t, add (add x y) (neg t), add (add x (neg y)) t)

  module _ (x y t : F) where
    sum_x :
        (let (j0, j1, j2, j3) = wheels x y t in
          add (add (add j0 j1) j2) j3 ≡ add (add x x) (add x x))
    sum_x =
        let (j0, j1, j2, j3) = wheels x y t in
        exact.add_assoc (add j0 j1) j2 j3
        ∙ ap (λ z. add z (add j2 j3))
            (opposite-add (add x (neg y)) (add x y) t ∙ opposite-add x x y)
        ∙ ap (add (add x x)) (opposite-add (add x y) (add x (neg y)) t ∙ add-opposite x x y)

    -- The first two wheels.
    left : (let (j0, j1, j2, j3) = wheels x y t in add (neg j0) j1 ≡ add (add y y) (add t t))
    left =
        let (j0, j1, j2, j3) = wheels x y t in
        let turned : neg j0 ≡ add (add (neg x) y) t =
          neg-add (add x (neg y)) (neg t)
          ∙ ap (add (neg (add x (neg y)))) (neg-neg t)
          ∙ ap (λ z. add z t) (neg-add x (neg y) ∙ ap (add (neg x)) (neg-neg y)) in
        ap (λ z. add z j1) turned
        ∙ interchange (add (neg x) y) t (add x y) t
        ∙ ap (λ z. add z (add t t))
            (ap (λ z. add z (add x y)) (exact.add_comm (neg x) y)
              ∙ ap (add (add y (neg x))) (exact.add_comm x y)
              ∙ opposite-add y y x)

    sum_y :
        (let (j0, j1, j2, j3) = wheels x y t in
          float.sub (add (add (neg j0) j1) j2) j3 ≡ add (add y y) (add y y))
    sum_y =
        let (j0, j1, j2, j3) = wheels x y t in
        let turned : neg j3 ≡ add (add y (neg x)) (neg t) =
          neg-add (add x (neg y)) t
          ∙ ap (λ z. add z (neg t))
              (neg-add x (neg y) ∙ ap (add (neg x)) (neg-neg y) ∙ exact.add_comm (neg x) y) in
        let right : add j2 (neg j3) ≡ add (add y y) (neg (add t t)) =
          ap (add j2) turned
          ∙ interchange (add x y) (neg t) (add y (neg x)) (neg t)
          ∙ ap (add (add (add x y) (add y (neg x)))) (sym (neg-add t t))
          ∙ ap (λ z. add z (neg (add t t)))
              (ap (λ z. add z (add y (neg x))) (exact.add_comm x y) ∙ add-opposite y y x) in
        exact.sub_neg (add (add (neg j0) j1) j2) j3
        ∙ exact.add_assoc (add (neg j0) j1) j2 (neg j3)
        ∙ ap (λ z. add z (add j2 (neg j3))) left
        ∙ ap (add (add (add y y) (add t t))) right
        ∙ add-opposite (add y y) (add y y) (add t t)

    sum_a :
        (let (j0, j1, j2, j3) = wheels x y t in
          add (float.sub (add (neg j0) j1) j2) j3 ≡ add (add t t) (add t t))
    sum_a =
        let (j0, j1, j2, j3) = wheels x y t in
        let turned : neg j2 ≡ add (add (neg y) (neg x)) t =
          neg-add (add x y) (neg t)
          ∙ ap (add (neg (add x y))) (neg-neg t)
          ∙ ap (λ z. add z t) (neg-add x y ∙ exact.add_comm (neg x) (neg y)) in
        let right : add (neg j2) j3 ≡ add (add t t) (neg (add y y)) =
          ap (λ z. add z j3) turned
          ∙ interchange (add (neg y) (neg x)) t (add x (neg y)) t
          ∙ ap (λ z. add z (add t t))
              (ap (add (add (neg y) (neg x))) (exact.add_comm x (neg y))
                ∙ opposite-add (neg y) (neg y) x
                ∙ sym (neg-add y y))
          ∙ exact.add_comm (neg (add y y)) (add t t) in
        ap (λ z. add z j3) (exact.sub_neg (add (neg j0) j1) j2)
        ∙ exact.add_assoc (add (neg j0) j1) (neg j2) j3
        ∙ ap (λ z. add z (add (neg j2) j3)) (left ∙ exact.add_comm (add y y) (add t t))
        ∙ ap (add (add (add t t) (add y y))) right
        ∙ add-opposite (add t t) (add t t) (add y y)

module _ {F W : Type 0} (float : Float F) (remote : Remote F W) where
  -- In arithmetic without rounding, let the desired speeds be those of the wheels of a mecanum base
  -- that goes ahead with `x`, to the side with `y` and turns with `t` revolutions per minute. Then a
  -- run of the chain stores and sends the payload with the velocities of `x` and `y`, and `t` is what
  -- `average_rps_a` recovers; but the heading is computed from `y`, and is the same for every `t`.
  pub run-robot :
      (plat : Platform W) (exact : Exact F float)
      → ((z : F) → float.div (float.add (float.add z z) (float.add z z)) (float.literal 4 0) ≡ z)
      → (mes handle : ℕ) (w : W) (x y t : F)
      → (remote.payload mes w).command.joint_desired_speed_rpm ≡ wheels float exact x y t
      → (let p = remote.payload mes w in
          let k = p.kinematics in
          let velocity : F → F = λ z. float.mul (float.div z (float.literal 60 0)) k.wheel_radius in
          let base =
            float.add
              (float.div k.length_x (float.literal 2 0))
              (float.div k.length_y (float.literal 2 0)) in
          let p' = record p {
            body = record {
              linear_velocity_x = velocity x;
              linear_velocity_y = velocity y;
              heading = float.div (velocity y) base;
            };
          } in
          (run_nodes plat (nodes_of (node_chain float remote)) mes handle 0 w
            ≡ some (remote.send (remote.ep_id w) p' (remote.set_payload mes p' w)))
          × (average_rps_a float p.command.joint_desired_speed_rpm
              ≡ float.div t (float.literal 60 0)))
  unfolding run_nodes run_node fire do_process body_velocity average_rps_x average_rps_y
      average_rps_a
  run-robot plat exact quarter mes handle w x y t e =
      let p = remote.payload mes w in
      let k = p.kinematics in
      let mean : (s z : F)
          → s ≡ float.add (float.add z z) (float.add z z)
          → per_second float s ≡ float.div z (float.literal 60 0) =
        λ s z h.
          ap (λ u. float.div u (float.literal 60 0))
            (ap (λ u. float.div u (float.literal 4 0)) h ∙ quarter z) in
      let at_x : average_rps_x float (wheels float exact x y t) ≡ float.div x (float.literal 60 0) =
        mean _ x (sum_x float exact x y t) in
      let at_y : average_rps_y float (wheels float exact x y t) ≡ float.div y (float.literal 60 0) =
        mean _ y (sum_y float exact x y t) in
      let at_a : average_rps_a float (wheels float exact x y t) ≡ float.div t (float.literal 60 0) =
        mean _ t (sum_a float exact x y t) in
      let sent : BodyVelocity F → Option W = λ b. some (
        remote.send (remote.ep_id w) (record p { body = b })
          (remote.set_payload mes (record p { body = b }) w)) in
      let body_of : F → F → BodyVelocity F = λ rx ry.
        let vy = float.mul ry k.wheel_radius in
        record {
          linear_velocity_x = float.mul rx k.wheel_radius;
          linear_velocity_y = vy;
          heading = float.div vy (
              float.add (float.div k.length_x (float.literal 2 0))
                (float.div k.length_y (float.literal 2 0)));
        } in
      (
        ap (λ j. sent (body_velocity float k j)) e
            ∙ ap (λ r. sent (body_of r (average_rps_y float (wheels float exact x y t)))) at_x
            ∙ ap (λ r. sent (body_of (float.div x (float.literal 60 0)) r)) at_y,
        ap (average_rps_a float) e ∙ at_a,
      )
