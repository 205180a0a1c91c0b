-- ===== src/Samples/Foc/Nodes.antt =====
-- The nodes of samples/foc_controller/src/foc_nodes.c.
use step.Common.{ℕ, ◌≡◌, ap, Option, none, some, [], ◌∷◌, ok}
use step.Measurement.{mask}
use step.Measurement.Types.{type_code, phase}
use step.Filter.{FilterChain, op_is, not32}
use step.Node.{Chain, Callbacks, InitHandler, NodeHandler, nodes_of}
use step.Platform.{Platform}
use step.ProcMgr.Process.{run_nodes, run_node, fire}
use step.Samples.Float.{Float}
use step.Samples.Foc.{limit_vector, frame, svm_set}
use step.Samples.Foc.Driver.{EncoderReading, set_encoder_offset, set_duty_cycle}
use step.Samples.Foc.Svm.{Exact}
use step.Samples.Foc.Sectors.{Switched, svm_set-Switched}

-- The functions of arm_math.h and of the kernel that the nodes call, and the part of the memory that
-- they reach: the payload of a measurement, by the measurement's address, and `encoder_reading`.
pub record Motor (F W : Type 0) : Type 0 where
  -- `arm_sqrt_f32`, `arm_sin_cos_f32` (the sine and the cosine) and `arm_inv_park_f32` (alpha and
  -- beta, from d, q, the sine and the cosine)
  pub sqrt : F → F
  pub sin_cos : F → F × F
  pub inv_park : F → F → F → F → F × F
  -- `pwm_set` of the inverter, from the channel on, `k_sleep` in milliseconds, and the two bytes that
  -- `i2c_write_read` reads
  pub pwm_set : ℕ → ℕ → F → W → W
  pub sleep : ℕ → W → W
  pub i2c_read : W → Option (ℕ × ℕ) × W
  pub encoder : W → EncoderReading
  pub set_encoder : EncoderReading → W → W
  pub e_rotor_position : ℕ → W → F
  pub voltage_d : ℕ → W → F
  pub voltage_q : ℕ → W → F
  pub voltage_alpha_beta : ℕ → W → F × F
  pub set_voltage_alpha_beta : ℕ → F × F → W → W
  pub alpha_beta-set :
      (mes : ℕ) (v : F × F) (w : W) → voltage_alpha_beta mes (set_voltage_alpha_beta mes v w) ≡ v

-- The filter of the root node.
abbrev pub phase_filters : FilterChain
phase_filters = record {
  count = 1;
  chain =
      some
        (record { op = op_is; match = type_code phase; ignore_mask = not32 mask.full_type } ∷ []);
}

abbrev pub no_filters : FilterChain
no_filters = record { count = 0; chain = none }

-- `junk` is what stands on the stack in the arrays `inverter_duties`.
module _ {F W : Type 0} (float : Float F) (motor : Motor F W) (junk : F × F × F) where
  -- `foc_align_rotor`
  unfoldable pub align_rotor : InitHandler W
  align_rotor cfg handle inst w =
      let (sine, cosine) = motor.sin_cos (float.literal 90 0) in
      let (alpha, beta) = motor.inv_park (float.literal 0 1) (float.literal 1 1) sine cosine in
      let duties = svm_set float motor.sqrt alpha beta junk in
      let w₁ = motor.sleep 500 (set_duty_cycle float motor.pwm_set duties w) in
      let (bytes, w₂) = motor.i2c_read w₁ in
      let (rc, e) = set_encoder_offset bytes (motor.encoder w₂) in (rc, motor.set_encoder e w₂)

  -- `foc_do_process`
  unfoldable pub do_process : NodeHandler W
  do_process mes handle inst w =
      let (sine, cosine) = motor.sin_cos (motor.e_rotor_position mes w) in
      let v = motor.inv_park (motor.voltage_d mes w) (motor.voltage_q mes w) sine cosine in
      (ok, motor.set_voltage_alpha_beta mes v w)

  -- `foc_do_space_vector_modulation`
  unfoldable pub do_space_vector_modulation : NodeHandler W
  do_space_vector_modulation mes handle inst w =
      let (alpha, beta) = motor.voltage_alpha_beta mes w in
      let duties = svm_set float motor.sqrt alpha beta junk in
      (ok, set_duty_cycle float motor.pwm_set duties w)

  -- The callbacks of a node that has at most these two.
  abbrev callbacks : Option (InitHandler W) → Option (NodeHandler W) → Callbacks W
  callbacks init exec = record {
    init_handler = init;
    evaluate_handler = none;
    matched_handler = none;
    start_handler = none;
    exec_handler = exec;
    stop_handler = none;
    error_handler = none;
  }

  abbrev pub foc_node_chain : Chain W
  foc_node_chain = record {
    first = record {
      name = some "Root sensor sample processor node";
      filters = phase_filters;
      callbacks = callbacks (some align_rotor) none;
      config = 0;
    };
    next =
        record {
          name = some "foc processing node";
          filters = no_filters;
          callbacks = callbacks none (some do_process);
          config = 0;
        }
        ∷ record {
          name = some "inverter update";
          filters = no_filters;
          callbacks = callbacks none (some do_space_vector_modulation);
          config = 0;
        }
        ∷ [];
  }

  -- In arithmetic without rounding, a run of the chain ends without a fault, although no node has an
  -- error handler: the voltage of the measurement, turned by the position of the rotor, is stored in
  -- the measurement, and the inverter is set to duties that modulate it as limited, whatever stood on the stack.
  run-foc :
      (plat : Platform W) (exact : Exact F float) (mes handle : ℕ) (w : W)
      → (let (sine, cosine) = motor.sin_cos (motor.e_rotor_position mes w) in
          let (alpha, beta) =
            motor.inv_park (motor.voltage_d mes w) (motor.voltage_q mes w) sine cosine in
          let (limited_alpha, limited_beta) = limit_vector float motor.sqrt alpha beta in
          let (a, b, c) = frame float limited_alpha limited_beta in
          (duties : F × F × F) × Switched float exact a b duties
          × (run_nodes plat (nodes_of foc_node_chain) mes handle 0 w
              ≡ some (
                  set_duty_cycle float motor.pwm_set duties
                    (motor.set_voltage_alpha_beta mes (alpha, beta) w))))
  unfolding run_nodes run_node fire do_process do_space_vector_modulation
  run-foc plat exact mes handle w =
      let (sine, cosine) = motor.sin_cos (motor.e_rotor_position mes w) in
      let v = motor.inv_park (motor.voltage_d mes w) (motor.voltage_q mes w) sine cosine in
      let w₁ = motor.set_voltage_alpha_beta mes v w in
      (
        svm_set float motor.sqrt v.0 v.1 junk,
        svm_set-Switched float exact motor.sqrt v.0 v.1 junk,
        ap
            (λ (u : F × F).
              some (set_duty_cycle float motor.pwm_set (svm_set float motor.sqrt u.0 u.1 junk) w₁))
            (motor.alpha_beta-set mes v w),
      )
