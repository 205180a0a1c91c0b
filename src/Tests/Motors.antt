-- ===== src/Tests/Motors.antt =====
-- Tests of the motor control sample.
use step.Common.{ℕ, ◌+◌, ◌≡◌, refl, true, none, some, ok, ◌%◌, ◌<◌, [], ◌∷◌, ◌++◌, ◌⊎◌}
use step.Tests.Trits.{Trit, naught, plus, minus, product, float, exact}
use step.Samples.Foc.{limit_vector, frame, svm_set}
use step.Samples.Foc.Sectors.{Switched, svm_set-Switched}
use step.Samples.Foc.Driver.{EncoderReading, read_encoder, rotor_counts, set_encoder_offset}
use step.Samples.Foc.Encoder.{turned, rotor_counts-turned}
use step.Samples.Foc.Nodes.{Motor}
use step.Platform.{Platform}
use step.Platform.{SlistTail}
use step.Measurement.{Header}
use step.Filter.{evaluate}
use step.SamplePool
use step.SamplePool.{zero_header}
use step.ProcMgr.{NodeSub, System, initialize_workqueue}
use step.ProcMgr.Process.{word_of}
use step.Samples.Foc.Nodes.{phase_filters}
use step.Samples.Foc.Driver.{rotor_sensor_header}
use step.Samples.Foc.Thread.{measured, Rotor, Voltages, cmd_set, on_foc_measurement, sample_turn}
use step.Samples.Foc.Thread.Outcome.{Separate, sample_turn-outcome}
use step.Tests.Samples.{no_cache, pool}

svm_set-Switched_example :
    (let (alpha, beta) = limit_vector float (λ x. x) plus minus in
      let (a, b, c) = frame float alpha beta in
      Switched float exact a b (svm_set float (λ x. x) plus minus (naught, naught, naught)))
svm_set-Switched_example = svm_set-Switched float exact (λ x. x) plus minus (naught, naught, naught)

-- The header and the voltages in the measurement, and a count of the pulses set.
record MotorWorld : Type 0 where
  header : Header
  voltage_d : Trit
  voltage_q : Trit
  voltage : Trit × Trit
  pulses : ℕ

abbrev platform : Platform MotorWorld
platform = record {
  header = λ mes w. w.header;
  set_header = λ mes h w. record w { header = h };
  set_payload = λ mes p w. w;
  free_after_use = λ mes w. true;
  set_free_after_use = λ mes w. w;
  zero_bytes = λ p n w. w;
  uptime = λ w. (5, w);
  heap_alloc = λ n w. (some 64, w);
  heap_free = λ mes w. w;
  callback_alloc = λ w. some w;
  submit = λ mes w. (ok, w);
}

abbrev motor : Motor Trit MotorWorld
motor = record {
  sqrt = λ x. x;
  sin_cos = λ x. (plus, minus);
  inv_park = λ d q s c. (product d s, product q c);
  pwm_set = λ channel period pulse w. record w { pulses = w.pulses + 1 };
  sleep = λ ms w. w;
  i2c_read = λ w. (some (1, 2), w);
  encoder = λ w. record { raw = 0; zero_offset = 0 };
  set_encoder = λ e w. w;
  e_rotor_position = λ mes w. plus;
  voltage_d = λ mes w. w.voltage_d;
  voltage_q = λ mes w. w.voltage_q;
  voltage_alpha_beta = λ mes w. w.voltage;
  set_voltage_alpha_beta = λ mes v w. record w { voltage = v };
  alpha_beta-set = λ mes v w. refl;
}

abbrev motor_world : MotorWorld
motor_world = record {
  header = zero_header;
  voltage_d = plus;
  voltage_q = minus;
  voltage = (naught, naught);
  pulses = 0;
}

abbrev junk : Trit × Trit × Trit
junk = (naught, plus, minus)

-- An alignment at the count 4090, and a reading of the count 5.
abbrev reading : EncoderReading
reading = record { raw = 0; zero_offset = 0 }

rotor_counts-turned_example :
    (let (rc, e₁) = set_encoder_offset (some (15, 250)) reading in
      let (n, e₂) = rotor_counts (some (0, 5)) e₁ in
      let (lost, e₃) = rotor_counts none e₁ in
      (n ≡ turned (read_encoder (some (15, 250))) (read_encoder (some (0, 5))))
      × (n < 4096)
      × ((read_encoder (some (15, 250)) + n) % 4096 ≡ read_encoder (some (0, 5)))
      × (lost ≡ turned (read_encoder (some (15, 250))) 4095)
      × (set_encoder_offset none reading ≡ (ok, record reading { zero_offset = 4095 })))
rotor_counts-turned_example = rotor_counts-turned (15, 250) (0, 5) reading

-- The command `set` gave the voltages 1 and 2.
abbrev rotor : Rotor Trit MotorWorld
rotor = record {
  user_callback = λ w. some (λ mes v. record v { voltage_q = plus; voltage_d = minus });
  set_user_callback = λ cb w. w;
  pole_pairs = λ w. plus;
  set_pole_pairs = λ p w. w;
  set_state = λ mes state w. w;
  set_timestamp = λ mes t w. w;
  set_voltage_q = λ mes v w. record w { voltage_q = v };
  set_voltage_d = λ mes v w. record w { voltage_d = v };
  configure_bus = λ w. w;
  configure_enable = λ pin w. w;
  set_enable = λ pin w. w;
}

separate : Separate Trit MotorWorld platform motor rotor
separate = record {
  header-set_header = λ mes h w. refl;
  header-set_voltage_q = λ mes v w. refl;
  header-set_voltage_d = λ mes v w. refl;
  voltage_q-set_voltage_q = λ mes v w. refl;
  voltage_q-set_voltage_d = λ mes v w. refl;
  voltage_d-set_voltage_d = λ mes v w. refl;
}

abbrev subscribers : SlistTail (NodeSub MotorWorld)
subscribers = record { append = λ l x. l ++ x ∷ []; append_lem = λ l x. refl }

abbrev system : System MotorWorld
system = record {
  pm = record {
    wqueue_started = true;
    wqueue_starts = 1;
    nodes = [];
    handle_counter = 0;
    slist = [];
    cache = no_cache;
    reg_access = 0;
  };
  pool = pool;
  world = motor_world;
}

abbrev no_voltages : Voltages Trit
no_voltages = record { motor_vq = naught; motor_vd = naught }

rotor-on_foc_measurement :
    (w : MotorWorld)
    → rotor.user_callback w
      ≡ some (
          on_foc_measurement float platform motor rotor
            (cmd_set (λ (x : Trit). x) (naught ∷ plus ∷ minus ∷ []) no_voltages).1)
unfolding on_foc_measurement cmd_set
rotor-on_foc_measurement w = refl

sample_turn-outcome_example :
    (let (rc, v) = cmd_set (λ (x : Trit). x) (naught ∷ plus ∷ minus ∷ []) no_voltages in
      let (r, pool, w₁) = SamplePool.alloc platform 24 40 (pool, motor_world) in
      (rc ≡ ok)
      × (((r ≡ none) × (sample_turn float platform motor rotor 24 40 subscribers system ≡ none))
          ⊎ ((mes : ℕ) × (w : MotorWorld) × (r ≡ some mes)
              × (sample_turn float platform motor rotor 24 40 subscribers system
                  ≡ some (record { pm = initialize_workqueue system.pm; pool = pool; world = w }))
              × (w.header ≡ rotor_sensor_header 40)
              × (evaluate (some phase_filters) (some (word_of platform mes w)) ≡ some (ok, 1))
              × (w.voltage_q ≡ plus)
              × (w.voltage_d ≡ minus))))
sample_turn-outcome_example =
    sample_turn-outcome float (λ x. x) platform motor rotor separate 24 40 subscribers naught plus
      minus no_voltages system
      (λ mes. rotor-on_foc_measurement (
        measured float platform motor rotor 24 40 subscribers mes
          (SamplePool.alloc platform 24 40 (pool, motor_world)).2))
