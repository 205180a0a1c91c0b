-- ===== src/Samples/Robot/RemoteCore/Returned.antt =====
-- What the two cores of the mobile robot sample make of the speeds of the wheels, in exact
-- arithmetic.
use step.Common.{ℕ, ◌≡◌, refl, ap, ◌∙◌, none, some, inl, inr, ◌⊎◌, Option-cases, ok}
use step.Measurement.{filter_bits, flags_bits}
use step.Measurement.Types.{type_code}
use step.Measurement.FieldValues.{format_code, encoding_code, compression_code, timestamp_code}
use step.Filter.{evaluate, evaluate_from, apply_op, evaluate_filter, curr_eval}
use step.Node.{nodes_of}
use step.Platform.{Platform, SlistTail}
use step.SamplePool
use step.ProcMgr.{NodeSub, System, initialize_workqueue}
use step.ProcMgr.Process.{word_of, run_nodes, run_node, fire}
use step.ProcMgr.Submit.{put-submit}
use step.Samples.Float.{Float}
use step.Samples.Foc.Svm.{Exact}
use step.Samples.Robot
use step.Samples.Robot.{Kinematics, BodyVelocity, Speeds, Payload, Remote}
use step.Samples.Robot.Commands.{payload_sz}
use step.Samples.Robot.Commands.Outcome.{Separate}
use step.Samples.Robot.Mecanum.{wheels, run-robot}
use step.Samples.Robot.RemoteCore.{
  joints_rpm_header, velocity_filters, joint_speeds, computed, do_process, node_chain, fill_mes,
  endpoint_cb,
}

header-selected :
    evaluate (some velocity_filters) (some (filter_bits joints_rpm_header.filter)) ≡ some (ok, 1)
unfolding joints_rpm_header type_code format_code encoding_code compression_code timestamp_code
    filter_bits flags_bits evaluate evaluate_from apply_op evaluate_filter curr_eval
header-selected = refl

-- Division undoes multiplication, for the circumference and the dimensions of a base.
pub record Divides (F : Type 0) (float : Float F) (k : Kinematics F) : Type 0 where
  pub quarter :
      (z : F) → float.div (float.add (float.add z z) (float.add z z)) (float.literal 4 0) ≡ z
  pub radius :
      (z : F)
      → float.div
          (float.mul
            (float.mul (float.div z (float.literal 60 0)) k.wheel_radius)
            (float.literal 60 0))
          k.wheel_radius
        ≡ z
  pub base :
      (v : F)
      → (let b =
            float.add
              (float.div k.length_x (float.literal 2 0))
              (float.div k.length_y (float.literal 2 0)) in
          float.mul (float.mul (float.div v b) (float.literal 60 0)) b
          ≡ float.mul v (float.literal 60 0))
  pub zero :
      float.div (float.mul (float.literal 0 0) (float.literal 60 0)) k.wheel_radius
      ≡ float.literal 0 1

module _ {F : Type 0} (float : Float F) (exact : Exact F float) where
  -- The velocities that the first core sends for the speeds of a base that goes ahead with `x` and to
  -- the side with `y`.
  abbrev sent_velocity : Kinematics F → F → F → BodyVelocity F
  sent_velocity k x y =
      let velocity : F → F = λ z. float.mul (float.div z (float.literal 60 0)) k.wheel_radius in
      record {
        linear_velocity_x = velocity x;
        linear_velocity_y = velocity y;
        heading = float.div (velocity y) (
            float.add (float.div k.length_x (float.literal 2 0))
              (float.div k.length_y (float.literal 2 0)));
      }

  -- The sums of `joint_speeds` are the inverse kinematics.
  abbrev combined : F → F → F → Speeds F
  combined x y t = (
    float.sub (float.sub x y) t,
    float.add (float.add x y) t,
    float.sub (float.add x y) t,
    float.add (float.sub x y) t,
  )

  combined-wheels : (x y t : F) → combined x y t ≡ wheels float exact x y t
  combined-wheels x y t =
      ap
        (λ d.
          (float.sub d t, float.add (float.add x y) t, float.sub (float.add x y) t, float.add d t))
        (exact.sub_neg x y)
      ∙ ap
          (λ j. (
            j,
            float.add (float.add x y) t,
            float.sub (float.add x y) t,
            float.add (float.add x (float.neg y)) t,
          ))
          (exact.sub_neg (float.add x (float.neg y)) t)
      ∙ ap
          (λ j. (
            float.add (float.add x (float.neg y)) (float.neg t),
            float.add (float.add x y) t,
            j,
            float.add (float.add x (float.neg y)) t,
          ))
          (exact.sub_neg (float.add x y) t)

  computed-speeds :
      (p : Payload F) (x y : F)
      → Divides F float p.kinematics
      → (computed float (record p { body = sent_velocity p.kinematics x y })).joints.joint_speed_rpm
        ≡ wheels float exact x (float.literal 0 1) y
  unfolding computed joint_speeds
  computed-speeds p x y d =
      let r = p.kinematics.wheel_radius in
      let vy = float.mul (float.div y (float.literal 60 0)) r in
      let zero = float.literal 0 1 in
      let at_x = d.radius x in
      let at_t = ap (λ u. float.div u r) (d.base vy) ∙ d.radius y in
      (λ i. combined (at_x i) (d.zero i) (at_t i)) ∙ combined-wheels x zero y

module _ {F W V : Type 0} (float : Float F) (exact : Exact F float) (plat : Platform W)
    (remote : Remote F W) (plat' : Platform V) (remote' : Remote F V)
    (sep' : Separate F V plat' remote') (sizeof_mes : ℕ) (subs' : SlistTail (NodeSub V)) where
  abbrev filled : ℕ → Payload F → V → V
  filled = fill_mes plat' remote' sizeof_mes subs'

  -- The state after `endpoint_cb` has submitted the measurement `mes` in the memory `w`.
  abbrev submitted : ℕ → V → System V → System V
  submitted mes w s = record {
    pm = initialize_workqueue s.pm;
    pool = (SamplePool.alloc plat' sizeof_mes payload_sz (s.pool, s.world)).1;
    world = (plat'.submit mes w).1;
  }

  run-filled :
      (mes handle : ℕ) (p : Payload F) (w : V)
      → (let w' = filled mes p w in
          run_nodes plat' (nodes_of (node_chain float remote')) mes handle 0 w'
          ≡ some (
              remote'.send
                (remote'.ep_id w')
                (computed float p)
                (remote'.set_payload mes (computed float p) w')))
  unfolding fill_mes run_nodes run_node fire do_process
  run-filled mes handle p w =
      let w' = filled mes p w in
      ap
        (λ q. some (
          remote'.send (remote'.ep_id w') (computed float q)
            (remote'.set_payload mes (computed float q) w')))
        (sep'.payload-set_payload mes p _)

  -- What `endpoint_cb` makes of a payload.
  received :
      (p : Payload F) (s : System V)
      → (let (r, pool, w₁) = SamplePool.alloc plat' sizeof_mes payload_sz (s.pool, s.world) in
          let s' = endpoint_cb plat' remote' sizeof_mes subs' p s in
          ((r ≡ none) × (s' ≡ record s { pool = pool; world = w₁ }))
          ⊎ ((mes : ℕ) × (w : V) × (r ≡ some mes)
              × (s' ≡ submitted mes w s)
              × (evaluate (some velocity_filters) (some (word_of plat' mes w)) ≡ some (ok, 1))
              × ((handle : ℕ)
                  → run_nodes plat' (nodes_of (node_chain float remote')) mes handle 0 w
                    ≡ some (
                        remote'.send
                          (remote'.ep_id w)
                          (computed float p)
                          (remote'.set_payload mes (computed float p) w)))))
  unfolding endpoint_cb fill_mes
  received p s =
      let (r, pool, w₁) = SamplePool.alloc plat' sizeof_mes payload_sz (s.pool, s.world) in
      elim (Option-cases (SamplePool.alloc plat' sizeof_mes payload_sz (s.pool, s.world)).0) [
        | inl e ↦ inl (e, rw (e, endpoint_cb))
        | inr (mes, e) ↦
            let w = filled mes p w₁ in
            let header =
              sep'.header-set_payload mes p (plat'.set_header mes joints_rpm_header w₁)
              ∙ sep'.header-set_header mes joints_rpm_header w₁ in
            inr (
              mes,
              w,
              e,
              rw (e, endpoint_cb)
                  (put-submit plat' subs' mes (record s { pool = pool; world = w })),
              ap (λ h. evaluate (some velocity_filters) (some (filter_bits h.filter))) header
                  ∙ header-selected,
              λ handle. run-filled mes handle p w₁,
            )
      ]

  -- In arithmetic without rounding, with a wheel radius and lengths by which a product can be
  -- divided again, let the desired speeds on the first core be those of the wheels of a mecanum
  -- base that goes ahead with `x`, to the side with `y` and turns with `t` revolutions per minute.
  -- Then the chain of the first core sends a payload, and `endpoint_cb` of the second core leaves
  -- its pool and its memory as the failed allocation does, or submits a measurement that the node
  -- of the second core selects. A run of that node on it sends a payload back, whose speeds of the
  -- joints are those of a base that goes ahead with `x`, never to the side, and turns with `y`:
  -- whatever `t` was.
  pub joints-returned :
      (mes handle : ℕ) (w : W) (x y t : F) (s : System V)
      → (remote.payload mes w).command.joint_desired_speed_rpm ≡ wheels float exact x y t
      → Divides F float (remote.payload mes w).kinematics
      → (let (r, pool, w₁) = SamplePool.alloc plat' sizeof_mes payload_sz (s.pool, s.world) in
          (p : Payload F) × (run_nodes plat
              (nodes_of (Robot.node_chain float remote))
              mes
              handle
              0
              w
            ≡ some (remote.send (remote.ep_id w) p (remote.set_payload mes p w)))
          × (let s' = endpoint_cb plat' remote' sizeof_mes subs' p s in
              ((r ≡ none) × (s' ≡ record s { pool = pool; world = w₁ }))
              ⊎ ((mes' : ℕ) × (w' : V) × (q : Payload F) × (r ≡ some mes')
                  × (s' ≡ submitted mes' w' s)
                  × (evaluate (some velocity_filters) (some (word_of plat' mes' w')) ≡ some (ok, 1))
                  × ((handle' : ℕ)
                      → run_nodes plat' (nodes_of (node_chain float remote')) mes' handle' 0 w'
                        ≡ some (remote'.send (remote'.ep_id w') q (remote'.set_payload mes' q w')))
                  × (q.joints.joint_speed_rpm ≡ wheels float exact x (float.literal 0 1) y))))
  joints-returned mes handle w x y t s speeds d =
      let p = remote.payload mes w in
      let p' : Payload F = record p { body = sent_velocity float exact p.kinematics x y } in
      let (sent, _) = run-robot float remote plat exact d.quarter mes handle w x y t speeds in
      (
        p',
        sent,
        elim (received p' s) [
          | inl e ↦ inl e
          | inr (mes', w', r, at, selected, runs) ↦ inr (
            mes',
            w',
            computed float p',
            r,
            at,
            selected,
            runs,
            computed-speeds float exact p x y d,
          )
        ],
      )
