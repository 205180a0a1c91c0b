-- ===== src/Samples/Foc/Thread/Outcome.antt =====
-- What the measurement thread of samples/foc_controller/src/foc_driver.c publishes.
use step.Common.{ℕ, ◌≡◌, refl, ap, ◌∙◌, none, some, [], ◌∷◌, ok, inl, inr, ◌⊎◌, Option-cases}
use step.Measurement.{Header, filter_bits, flags_bits}
use step.Measurement.Types.{type_code}
use step.Measurement.FieldValues.{format_code, encoding_code, compression_code, timestamp_code}
use step.Filter.{evaluate, evaluate_from, apply_op, evaluate_filter, curr_eval}
use step.Platform.{Platform, SlistTail}
use step.SamplePool
use step.ProcMgr.{NodeSub, System, initialize_workqueue, put}
use step.ProcMgr.Process.{word_of}
use step.ProcMgr.Submit.{put-submit}
use step.Samples.Float.{Float}
use step.Samples.Foc.Driver.{rotor_sensor_header}
use step.Samples.Foc.Nodes.{Motor, phase_filters}
use step.Samples.Foc.Thread.{
  Voltages, Rotor, measured, call_user, sample_turn, on_foc_measurement, cmd_set,
}

-- The voltages and the header of a measurement are read as they were written, and do not overlap.
pub record Separate (F W : Type 0) (plat : Platform W) (motor : Motor F W) (rotor : Rotor F W)
    : Type 0 where
  pub header-set_header :
      (mes : ℕ) (h : Header) (w : W) → plat.header mes (plat.set_header mes h w) ≡ h
  pub header-set_voltage_q :
      (mes : ℕ) (v : F) (w : W) → plat.header mes (rotor.set_voltage_q mes v w) ≡ plat.header mes w
  pub header-set_voltage_d :
      (mes : ℕ) (v : F) (w : W) → plat.header mes (rotor.set_voltage_d mes v w) ≡ plat.header mes w
  pub voltage_q-set_voltage_q :
      (mes : ℕ) (v : F) (w : W) → motor.voltage_q mes (rotor.set_voltage_q mes v w) ≡ v
  pub voltage_q-set_voltage_d :
      (mes : ℕ) (v : F) (w : W)
      → motor.voltage_q mes (rotor.set_voltage_d mes v w) ≡ motor.voltage_q mes w
  pub voltage_d-set_voltage_d :
      (mes : ℕ) (v : F) (w : W) → motor.voltage_d mes (rotor.set_voltage_d mes v w) ≡ v

header-selected :
    (payload_sz : ℕ)
    → evaluate (some phase_filters) (some (filter_bits (rotor_sensor_header payload_sz).filter))
      ≡ some (ok, 1)
unfolding rotor_sensor_header type_code format_code encoding_code compression_code timestamp_code
    filter_bits flags_bits evaluate evaluate_from apply_op evaluate_filter curr_eval
header-selected payload_sz = refl

module _ {F W S : Type 0} (float : Float F) (strtof : S → F) (plat : Platform W) (motor : Motor F W)
    (rotor : Rotor F W) (sep : Separate F W plat motor rotor) (sizeof_mes payload_sz : ℕ)
    (subs : SlistTail (NodeSub W)) where
  -- After the command `set` with both voltages, and with `on_foc_measurement` as the callback, a turn
  -- of the measurement thread is a fault if no measurement can be allocated. Otherwise it submits one
  -- with the header of the driver, which the root node of the chain selects, and with the voltages
  -- that were set.
  pub sample_turn-outcome :
      (set q d : S) (old : Voltages F) (s : System W)
      → ((mes : ℕ)
          → rotor.user_callback (
              measured float plat motor rotor sizeof_mes payload_sz subs mes
                (SamplePool.alloc plat sizeof_mes payload_sz (s.pool, s.world)).2)
            ≡ some (
                on_foc_measurement float plat motor rotor
                  (cmd_set strtof (set ∷ q ∷ d ∷ []) old).1))
      → (let (rc, v) = cmd_set strtof (set ∷ q ∷ d ∷ []) old in
          let (r, pool, w₁) = SamplePool.alloc plat sizeof_mes payload_sz (s.pool, s.world) in
          (rc ≡ ok)
          × (((r ≡ none) × (sample_turn float plat motor rotor sizeof_mes payload_sz subs s ≡ none))
              ⊎ ((mes : ℕ) × (w : W) × (r ≡ some mes)
                  × (sample_turn float plat motor rotor sizeof_mes payload_sz subs s
                      ≡ some (record {
                        pm = initialize_workqueue s.pm;
                        pool = pool;
                        world = (plat.submit mes w).1;
                      }))
                  × (plat.header mes w ≡ rotor_sensor_header payload_sz)
                  × (evaluate (some phase_filters) (some (word_of plat mes w)) ≡ some (ok, 1))
                  × (motor.voltage_q mes w ≡ strtof q)
                  × (motor.voltage_d mes w ≡ strtof d))))
  unfolding cmd_set sample_turn call_user on_foc_measurement
  sample_turn-outcome set q d old s callback =
      let (r, pool, w₁) = SamplePool.alloc plat sizeof_mes payload_sz (s.pool, s.world) in
      let v : Voltages F = record { motor_vq = strtof q; motor_vd = strtof d } in
      (
        refl,
        elim (Option-cases (SamplePool.alloc plat sizeof_mes payload_sz (s.pool, s.world)).0) [
          | inl e ↦ inl (e, rw (e, sample_turn) refl)
          | inr (mes, e) ↦
              let m = measured float plat motor rotor sizeof_mes payload_sz subs mes w₁ in
              let wq = rotor.set_voltage_q mes (strtof q) m in
              let w = rotor.set_voltage_d mes (strtof d) wq in
              let called : call_user float plat motor rotor sizeof_mes payload_sz subs mes m ≡ w =
                ap (λ o. elim o [ none ↦ m | some cb ↦ cb mes m ]) (callback mes) in
              let header : plat.header mes w ≡ rotor_sensor_header payload_sz =
                sep.header-set_voltage_d mes (strtof d) wq
                ∙ sep.header-set_voltage_q mes (strtof q) m
                ∙ sep.header-set_header mes (rotor_sensor_header payload_sz) _ in
              inr (
                mes,
                w,
                e,
                rw (e, sample_turn)
                    (ap
                        (λ u.
                          some (put plat subs (some mes) (record s { pool = pool; world = u })).1)
                        called
                      ∙ ap some (put-submit plat subs mes (record s { pool = pool; world = w }))),
                header,
                ap (λ h. evaluate (some phase_filters) (some (filter_bits h.filter))) header
                    ∙ header-selected payload_sz,
                sep.voltage_q-set_voltage_d mes (strtof d) wq
                    ∙ sep.voltage_q-set_voltage_q mes (strtof q) m,
                sep.voltage_d-set_voltage_d mes (strtof d) wq,
              )
        ],
      )
