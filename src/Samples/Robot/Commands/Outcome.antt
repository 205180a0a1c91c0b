-- ===== src/Samples/Robot/Commands/Outcome.antt =====
-- What the commands of samples/mobile_robot_kinematic_server/src/main.c lead to.
use step.Common.{
  ℕ, ◌≡◌, refl, ap, ◌∙◌, none, some, [], ◌∷◌, ok, enomem, inl, inr, ◌⊎◌, Option-cases,
}
use step.Measurement.{Header, filter_bits, flags_bits}
use step.Measurement.Types.{type_code}
use step.Measurement.FieldValues.{format_code, encoding_code, compression_code, timestamp_code}
use step.Filter.{evaluate, evaluate_from, apply_op, evaluate_filter, curr_eval}
use step.Node.{nodes_of}
use step.Platform.{Platform, SlistTail}
use step.SamplePool
use step.ProcMgr.{NodeSub, System, initialize_workqueue}
use step.ProcMgr.Process.{word_of, run_nodes, run_node, fire}
use step.Samples.Float.{Float}
use step.ProcMgr.Submit.{put-submit}
use step.Samples.Robot.{Payload, Remote, velocity_filters, body_velocity, do_process, node_chain}
use step.Samples.Robot.Commands.{
  payload_sz, joints_rpm_header, cmd_kinematics, cmd_set_speeds, fill_mes, cmd_calculate,
}

-- The payload and the header of a measurement are read as they were written, and do not overlap.
pub record Separate (F W : Type 0) (plat : Platform W) (remote : Remote F W) : Type 0 where
  pub header-set_header :
      (mes : ℕ) (h : Header) (w : W) → plat.header mes (plat.set_header mes h w) ≡ h
  pub header-set_payload :
      (mes : ℕ) (p : Payload F) (w : W)
      → plat.header mes (remote.set_payload mes p w) ≡ plat.header mes w
  pub payload-set_payload :
      (mes : ℕ) (p : Payload F) (w : W) → remote.payload mes (remote.set_payload mes p w) ≡ p

header-selected :
    evaluate (some velocity_filters) (some (filter_bits joints_rpm_header.filter)) ≡ some (ok, 1)
unfolding joints_rpm_header type_code format_code encoding_code compression_code timestamp_code
    filter_bits flags_bits evaluate evaluate_from apply_op evaluate_filter curr_eval
header-selected = refl

module _ {F W S : Type 0} (float : Float F) (strtof : S → F) (plat : Platform W)
    (remote : Remote F W) (sep : Separate F W plat remote) (sizeof_mes : ℕ)
    (subs : SlistTail (NodeSub W)) where
  abbrev filled : ℕ → Payload F → W → W
  filled = fill_mes plat remote sizeof_mes subs

  fill_mes-header :
      (mes : ℕ) (p : Payload F) (w : W) → plat.header mes (filled mes p w) ≡ joints_rpm_header
  unfolding fill_mes
  fill_mes-header mes p w =
      sep.header-set_payload mes p _ ∙ sep.header-set_header mes joints_rpm_header w

  -- What the node makes of a measurement with the payload `p`.
  abbrev pub calculated : Payload F → Payload F
  calculated p = record p {
    body = body_velocity float p.kinematics p.command.joint_desired_speed_rpm;
  }

  run-filled :
      (mes handle : ℕ) (p : Payload F) (w : W)
      → (let w' = filled mes p w in
          run_nodes plat (nodes_of (node_chain float remote)) mes handle 0 w'
          ≡ some (
              remote.send
                (remote.ep_id w')
                (calculated p)
                (remote.set_payload mes (calculated p) w')))
  unfolding fill_mes run_nodes run_node fire do_process
  run-filled mes handle p w =
      let w' = filled mes p w in
      ap
        (λ q.
          some (
            remote.send (remote.ep_id w') (calculated q)
              (remote.set_payload mes (calculated q) w')))
        (sep.payload-set_payload mes p _)

  -- Let `payload` be what the commands `kinematics` and `set_speeds`, with all their arguments, make
  -- of `p`. Then `calculate` returns -ENOMEM, with the pool and the memory as the failed allocation
  -- leaves them; or it returns 0, and the measurement submitted has a header that the node selects, and
  -- a run of the node on it stores and sends the payload with the body velocity for the lengths, the
  -- circumference and the speeds that were given.
  pub commands-outcome :
      (kinematics set_speeds x y radius a b c d : S) (p : Payload F) (s : System W)
      → (let (rc₁, p₁) = cmd_kinematics float strtof (kinematics ∷ x ∷ y ∷ radius ∷ []) p in
          let (rc₂, payload) = cmd_set_speeds float strtof (set_speeds ∷ a ∷ b ∷ c ∷ d ∷ []) p₁ in
          let calculate = cmd_calculate plat remote sizeof_mes subs payload s in
          let (r, pool, w₁) = SamplePool.alloc plat sizeof_mes payload_sz (s.pool, s.world) in
          let circumference =
            float.mul (float.mul (strtof radius) (float.literal 20 1)) (float.literal 31416 4) in
          let k = record (p.kinematics) {
            length_x = strtof x;
            length_y = strtof y;
            wheel_radius = circumference;
          } in
          let sent = record payload {
            body = body_velocity float k (strtof a, strtof b, strtof c, strtof d);
          } in
          (rc₁ ≡ ok)
          × (rc₂ ≡ ok)
          × (((r ≡ none) × (calculate ≡ (enomem, record s { pool = pool; world = w₁ })))
              ⊎ ((mes : ℕ) × (w : W) × (r ≡ some mes)
                  × (calculate ≡ (
                    ok,
                    record {
                      pm = initialize_workqueue s.pm;
                      pool = pool;
                      world = (plat.submit mes w).1;
                    },
                  ))
                  × (plat.header mes w ≡ joints_rpm_header)
                  × (evaluate (some velocity_filters) (some (word_of plat mes w)) ≡ some (ok, 1))
                  × ((handle : ℕ)
                      → run_nodes plat (nodes_of (node_chain float remote)) mes handle 0 w
                        ≡ some
                            (remote.send (remote.ep_id w) sent (remote.set_payload mes sent w))))))
  unfolding cmd_kinematics cmd_set_speeds cmd_calculate
  commands-outcome kinematics set_speeds x y radius a b c d p s =
      let payload =
        (cmd_set_speeds float strtof (set_speeds ∷ a ∷ b ∷ c ∷ d ∷ [])
          (cmd_kinematics float strtof (kinematics ∷ x ∷ y ∷ radius ∷ []) p).1).1 in
      let (r, pool, w₁) = SamplePool.alloc plat sizeof_mes payload_sz (s.pool, s.world) in
      (
        refl,
        refl,
        elim (Option-cases (SamplePool.alloc plat sizeof_mes payload_sz (s.pool, s.world)).0) [
          | inl e ↦ inl (e, rw (e, cmd_calculate))
          | inr (mes, e) ↦
              let header = fill_mes-header mes payload w₁ in
              inr (
                mes,
                filled mes payload w₁,
                e,
                rw (e, cmd_calculate)
                    (ap (λ s'. (ok, s'))
                      (put-submit plat subs mes
                        (record s { pool = pool; world = filled mes payload w₁ }))),
                header,
                ap (λ h. evaluate (some velocity_filters) (some (filter_bits h.filter))) header
                    ∙ header-selected,
                λ handle. run-filled mes handle payload w₁,
              )
        ],
      )
