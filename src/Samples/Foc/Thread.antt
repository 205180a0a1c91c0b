-- ===== src/Samples/Foc/Thread.antt =====
-- The measurement thread and the initialisation of samples/foc_controller/src/foc_driver.c, and
-- `main` and the command `set` of samples/foc_controller/src/main.c.
pub mod Outcome
use step.Common.{
  ℕ, ◌%◌, ◌^◌, Option, none, some, ◌>>=◌, List, [], ◌∷◌, ℤ, is_zero, true, false, ok, einval,
}
use step.Platform.{Platform, Slist, SlistTail}
use step.Node.{Chain}
use step.SamplePool
use step.ProcMgr.{NodeSub, Config, System, put}
use step.ProcMgr.Register.{register}
use step.Samples.Float.{Float}
use step.Samples.Foc.Driver.{rotor_sensor_header, rotor_counts, set_duty_cycle}
use step.Samples.Foc.Nodes.{Motor}

-- `struct foc_feeback_sensor_data`
pub record FeedbackSensorData (F : Type 0) : Type 0 where
  pub motor_pole_pairs : F
  pub e_rotor_position : F
  pub rotor_position : F

-- `motor_vq` and `motor_vd`
pub record Voltages (F : Type 0) : Type 0 where
  pub motor_vq : F
  pub motor_vd : F

-- The memory that the thread reaches beyond that of the nodes: `user_callback`, `pole_pairs` and the
-- payload of a measurement, by the measurement's address; and the configuration of the bus and of the
-- three pins that enable the inverter.
pub record Rotor (F W : Type 0) : Type 0 where
  pub user_callback : W → Option (ℕ → W → W)
  pub set_user_callback : Option (ℕ → W → W) → W → W
  pub pole_pairs : W → F
  pub set_pole_pairs : F → W → W
  pub set_state : ℕ → FeedbackSensorData F → W → W
  pub set_timestamp : ℕ → ℕ → W → W
  pub set_voltage_q : ℕ → F → W → W
  pub set_voltage_d : ℕ → F → W → W
  pub configure_bus : W → W
  pub configure_enable : ℕ → W → W
  pub set_enable : ℕ → W → W

module _ {F W : Type 0} (float : Float F) (plat : Platform W) (motor : Motor F W)
    (rotor : Rotor F W) where
  -- `encoder_to_degrees_ratio`
  abbrev pub encoder_to_degrees_ratio : F
  encoder_to_degrees_ratio = float.div (float.literal 3600 1) (float.literal 40960 1)

  -- `foc_driver_get_rotor_position`; the fields of the state are written at once. The count, of 12
  -- bits, is a `float` without rounding.
  unfoldable pub get_rotor_position : ℕ → W → W
  get_rotor_position mes w =
      let pairs = rotor.pole_pairs w in
      let (bytes, w₁) = motor.i2c_read w in
      let (counts, e) = rotor_counts bytes (motor.encoder w₁) in
      let position = float.mul (float.literal counts 0) encoder_to_degrees_ratio in
      let state : FeedbackSensorData F = record {
        motor_pole_pairs = pairs;
        e_rotor_position = float.mul pairs position;
        rotor_position = position;
      } in
      let (now, w₂) = plat.uptime (rotor.set_state mes state (motor.set_encoder e w₁)) in
      rotor.set_timestamp mes (now % 2 ^ 32) w₂

  module _ (sizeof_mes payload_sz : ℕ) (subs : SlistTail (NodeSub W)) where
    -- The measurement before the callback: the position is read before the header is written.
    abbrev pub measured : ℕ → W → W
    measured mes w = plat.set_header mes (rotor_sensor_header payload_sz) (get_rotor_position mes w)

    unfoldable pub call_user : ℕ → W → W
    call_user mes w = elim (rotor.user_callback w) [ none ↦ w | some cb ↦ cb mes w ]

    -- One turn of the loop of `foc_driver_rotor_position_sample_thread`. The result of step_sp_alloc
    -- is written through without a test: a NULL is a fault.
    unfoldable pub sample_turn : System W → Option (System W)
    sample_turn s =
        let (r, pool, w) = SamplePool.alloc plat sizeof_mes payload_sz (s.pool, s.world) in
        elim r [
          | none ↦ none
          | some mes ↦
              let s₁ = record s { pool = pool; world = call_user mes (measured mes w) } in
              some (put plat subs (some mes) s₁).1
        ]

  -- `foc_driver_initialize`
  unfoldable pub initialize : F → Option (ℕ → W → W) → W → ℤ × W
  initialize motor_pole_pairs cb w =
      let zero_f = float.literal 0 1 in
      let w₁ = rotor.set_pole_pairs motor_pole_pairs (rotor.set_user_callback cb w) in
      let w₂ = rotor.configure_bus (motor.set_encoder (record { raw = 0; zero_offset = 0 }) w₁) in
      let w₃ = set_duty_cycle float motor.pwm_set (zero_f, zero_f, zero_f) w₂ in
      let w₄ = rotor.configure_enable 2 (rotor.configure_enable 1 (rotor.configure_enable 0 w₃)) in
      (ok, rotor.set_enable 2 (rotor.set_enable 1 (rotor.set_enable 0 w₄)))

  -- `on_foc_measurement`
  unfoldable pub on_foc_measurement : Voltages F → ℕ → W → W
  on_foc_measurement v mes w =
      rotor.set_voltage_d mes v.motor_vd (rotor.set_voltage_q mes v.motor_vq w)

-- `step_foc_cmd_set`, over the arguments with the name of the command first; `strtof` reads a number.
unfoldable pub cmd_set : {F S : Type 0} → (S → F) → List S → Voltages F → ℤ × Voltages F
cmd_set strtof (name ∷ q ∷ d ∷ []) v = (ok, record { motor_vq = strtof q; motor_vd = strtof d })
cmd_set strtof argv v = (einval, v)

-- `main`: the voltages, and the state after the registration; `cb` is `on_foc_measurement`, which
-- reads the voltages at the time of its call.
unfoldable pub foc_main :
    {F W : Type 0}
    → Float F
    → Platform W
    → Motor F W
    → Rotor F W
    → Slist ℕ
    → Config
    → Chain W
    → (ℕ → W → W)
    → System W
    → Option (Voltages F × System W)
foc_main {F} float plat motor rotor sl cfg foc_node_chain cb s =
    let v : Voltages F = record { motor_vq = float.literal 0 1; motor_vd = float.literal 0 1 } in
    let (rc, w) = initialize float plat motor rotor (float.literal 7 0) (some cb) s.world in
    let s₁ = record s { world = w } in
    elim (is_zero rc) [
      | false ↦ some (v, s₁)
      | true ↦ do (rc', handle, s₂) ← register sl cfg (some foc_node_chain) 0 s₁; some (v, s₂)
    ]
