-- ===== src/Tests/Imus.antt =====
-- Tests of the samples with an inertial sensor.
use step.Common.{
  ℕ, ◌≡◌, ◌≢◌, refl, true, false, none, some, Option, [], ◌∷◌, ◌++◌, pos, negsuc, ◌==◌, ==_iff,
  if◌then◌else◌, Bool-cases, inl, inr, ◌⊎◌, ok, arith,
}
use step.Measurement.{Header}
use step.Platform.{Platform, SlistTail}
use step.SamplePool
use step.SamplePool.{zero_header}
use step.Cache
use step.Filter.{evaluate}
use step.Node.{nodes_of}
use step.ProcMgr.{NodeSub, System, initialize_workqueue}
use step.ProcMgr.Process.{word_of, run_nodes}
use step.Samples.Imu.{
  imu_measurement_header, Vector, ImuDataPayload, SensorValue, Axis, axis_x, axis_y, Channel, gyro,
  Sensors, Zsl, Producer, read_axes, sensor_to_float, imu_fetch_data, imu_producer_calibrate,
  imu_producer_start, payload_sz,
}
use step.Samples.Imu.Calibrated.{Means, calibrate-corrects}
use step.Samples.Imu.Fusion
use step.Samples.Imu.Fusion.{Euler, Memory, Stream, orientation_filters, fusion_node_chain}
use step.Samples.Imu.Fusion.Shared.{Separate, processed, production-shared}
use step.Samples.Imu.Bridge
use step.Samples.Imu.Bridge.{MicroRos, sensor_node_chain, publish_sample}
use step.Samples.Imu.Bridge.Copied.{production-copied}
use step.Tests.Samples.{pool, no_cache}
use step.Tests.Trits.{Trit, naught, plus, minus, sum, up, down, product, opposite, float, mean}
use step.Tests.Pipelines.{found}

-- A memory with samples, pointers and headers anywhere.
record ImuWorld : Type 0 where
  pub imus : ℕ → ImuDataPayload Trit
  pub pointers : ℕ → Option ℕ
  pub headers : ℕ → Header
  pub result : Euler Trit

abbrev write : {A : Type 0} → (ℕ → A) → ℕ → A → ℕ → A
write f m a x = if x == m then a else f x

written : {A : Type 0} (f : ℕ → A) (m x : ℕ) (a : A) → x ≢ m → write f m a x ≡ f x
written f m x a d = elim (Bool-cases (x == m)) [
  | inl e ↦ absurd (d ((==_iff x m).0 e))
  | inr e ↦ rw e refl
]

written_at : {A : Type 0} (f : ℕ → A) (m : ℕ) (a : A) → write f m a m ≡ a
written_at f m a = rw ((==_iff m m).1 refl) refl

-- A measurement is allocated at 64.
abbrev platform : Platform ImuWorld
platform = record {
  header = λ mes w. w.headers mes;
  set_header = λ mes h w. record w { headers = write w.headers mes h };
  set_payload = λ mes p w. record w { pointers = write w.pointers mes p };
  free_after_use = λ mes w. false;
  set_free_after_use = λ mes w. w;
  zero_bytes = λ p n w. w;
  uptime = λ w. (5, w);
  heap_alloc = λ n w. (some 64, w);
  heap_free = λ mes w. w;
  callback_alloc = λ w. some w;
  submit = λ mes w. (pos 1, w);
}

-- At rest, the gyroscope reads 1 along the first axis and -1 along the second.
abbrev turning : Axis → SensorValue
turning axis_x = record { val1 = pos 1; val2 = pos 0 }
turning axis_y = record { val1 = negsuc 0; val2 = pos 0 }
turning x = record { val1 = pos 0; val2 = pos 0 }

abbrev value : Channel → SensorValue
value (gyro x) = turning x
value c = record { val1 = pos 0; val2 = pos 0 }

abbrev sensors : Sensors ImuWorld
sensors = record {
  sample_fetch = λ d c w. w;
  channel_get = λ d c v w. (value c, w);
  set_frequency = λ d c v w. (pos 0, w);
  sleep = λ n w. w;
}

abbrev zsl : Zsl Trit Trit ImuWorld
zsl = record {
  float = float;
  real = float;
  of_int = λ x. elim x [ pos n ↦ if n == 0 then naught else plus | negsuc n ↦ minus ];
  hundredth = λ x. x;
  widen = λ x. x;
  narrow = λ x. x;
  vec_init = λ v. (naught, naught, naught);
  vec_scalar_div = λ (x, y, z) d. (float.div x d, float.div y d, float.div z d);
  vec_copy = λ d s. s;
  fusion_init = λ n w. (pos 0, w);
}

means : Means Trit Trit ImuWorld zsl
means = record { init = λ v. refl; scalar_div = λ x y z d. refl; copy = λ d s. refl; mean = mean }

abbrev sample : ImuDataPayload Trit
sample = record {
  timestamp = 20;
  streamable = false;
  imu_accel = (naught, naught, plus);
  imu_gyro = (plus, naught, naught);
  imu_mag = (naught, plus, naught);
}

abbrev memory : Memory Trit Trit ImuWorld
memory = record {
  imu = λ a w. w.imus a;
  set_imu = λ a p w. record w { imus = write w.imus a p };
  payload = λ mes w. w.pointers mes;
  fusion_node_result = λ w. w.result;
  set_fusion_node_result = λ e w. record w { result = e };
  feed_handler = λ a g q w. (q, w);
  quat_to_euler = λ q e. record { x = q.r; y = q.i; z = q.j };
  zsl_pi = plus;
  print = λ n x y w. w;
}

separate : Separate Trit Trit ImuWorld platform memory
separate = record {
  imu-set_imu = λ a p w. written_at w.imus a p;
  imu-set_imu_ne = λ a b p w d. written w.imus b a p d;
  imu-set_header = λ a mes h w. refl;
  imu-set_payload = λ a mes p w. refl;
  imu-feed = λ a x y q w. refl;
  imu-set_result = λ a e w. refl;
  payload-set_payload = λ mes p w. written_at w.pointers mes p;
  payload-set_imu = λ mes a p w. refl;
  payload-set_header = λ mes h w. refl;
  payload-feed = λ mes x y q w. refl;
  payload-set_result = λ mes e w. refl;
  result-set_result = λ e w. refl;
  header-set_header = λ mes h w. written_at w.headers mes h;
  header-set_imu = λ mes a p w. refl;
}

abbrev initial : System ImuWorld
initial = record {
  pm = record {
    wqueue_started = true;
    wqueue_starts = 1;
    nodes = [];
    handle_counter = 0;
    slist = [];
    cache = Cache.clear 2 no_cache;
    reg_access = 0;
  };
  pool = pool;
  world = record {
    imus = λ a. sample;
    pointers = λ mes. none;
    headers = λ mes. zero_header;
    result = record { x = naught; y = naught; z = naught };
  };
}

abbrev stream : Stream Trit
stream = record { raw = sample; enable_stream = true }

abbrev ros : MicroRos Trit ImuWorld
ros = record {
  set_up_client = λ w. w;
  publisher_init = λ w. (pos 0, w);
  executor_init = λ w. (pos 0, w);
  publish = λ q w. (pos 0, w);
  set_ros_quaternion = λ q w. w;
  set_micro_ros_result = λ n w. w;
}

abbrev subs : SlistTail (NodeSub ImuWorld)
subs = record { append = λ l x. l ++ x ∷ []; append_lem = λ l x. refl }

abbrev producer : Producer Trit Trit ImuWorld
producer = record {
  imu_calibrated = false;
  imu_user_callback = none;
  gyro_offset_correcton = (plus, plus, plus);
}

abbrev garbage : Vector SensorValue
garbage = let v : SensorValue = record { val1 = pos 7; val2 = pos 7 } in (v, v, v)

-- Both axes that turn at rest are read as 0 after the calibration.
calibrate-corrects_example :
    (let world = initial.world in
      let (p, w) =
        imu_producer_calibrate platform sensors zsl garbage
          (minus, minus, minus)
          sample
          (producer, world) in
      let (later, v) = imu_fetch_data platform sensors zsl garbage p sample world in
      (p ≡ record producer { imu_calibrated = true; gyro_offset_correcton = (plus, minus, naught) })
      × (imu_producer_start (λ a w. w) p ≡ some (record p { imu_user_callback = some (λ a w. w) }))
      × (later.imu_gyro ≡ (naught, naught, naught))
      × (later.imu_accel ≡ (naught, naught, naught)))
unfolding read_axes sensor_to_float sum up down product opposite
calibrate-corrects_example =
    calibrate-corrects platform sensors zsl garbage (λ w. Unit) (plus, minus, naught) (λ w r. refl)
      (λ w r. tt) means producer (minus, minus, minus) sample sample initial.world initial.world
      (λ a w. w) tt

-- The measurement of the sample at 8, which has moved on to `later` when it is processed.
abbrev later : ImuDataPayload Trit
later = record sample { timestamp = 30; imu_gyro = (minus, naught, naught) }

abbrev allocated : Option ℕ × SamplePool.Pool × ImuWorld
allocated = SamplePool.alloc platform 24 payload_sz (initial.pool, initial.world)

production-shared_example :
    (let (r, pool, w₁) = allocated in
      let (st', s') =
        Fusion.on_imu_data_production platform zsl memory 24 subs 8 (stream, initial) in
      ((r ≡ none) × (st' ≡ stream) × (s' ≡ record initial { pool = pool; world = w₁ }))
      ⊎ ((mes : ℕ) × (w : ImuWorld) × (r ≡ some mes)
          × (s' ≡ record {
            pm = initialize_workqueue initial.pm;
            pool = pool;
            world = (platform.submit mes w).1;
          })
          × (let old = memory.imu 8 w₁ in st'.raw ≡ record old { streamable = true })
          × (evaluate (some orientation_filters) (some (word_of platform mes w)) ≡ some (ok, 1))
          × (platform.header mes w ≡ imu_measurement_header)
          × (memory.payload mes w ≡ some 8)
          × (let w' = memory.set_imu 8 later w in
              run_nodes platform (nodes_of (fusion_node_chain zsl memory)) mes 3 0 w'
              ≡ some (processed platform zsl memory separate 24 subs later w'))))
production-shared_example =
    production-shared platform zsl memory separate 24 subs 8 3 later stream initial

-- The payload is not at 8.
apart :
    (let (r, pool, w₁) = allocated in
      (mes : ℕ) → r ≡ some mes → (a : ℕ) × (memory.payload mes w₁ ≡ some a) × (a ≢ 8))
unfolding SamplePool.alloc SamplePool.set_up SamplePool.payload_of
apart mes e =
    let (r, pool, w₁) = allocated in
    found (λ m. (a : ℕ) × (memory.payload m w₁ ≡ some a) × (a ≢ 8)) 64 mes e
      (640, refl, λ e. omega (arith, e))

production-copied_example :
    (let (r, pool, w₁) = allocated in
      let s' = Bridge.on_imu_data_production platform memory 24 subs 8 initial in
      let old = memory.imu 8 w₁ in
      let new = record old { streamable = true } in
      ((r ≡ none) × (s' ≡ record initial { pool = pool; world = w₁ }))
      ⊎ ((mes : ℕ) × (w : ImuWorld) × (r ≡ some mes)
          × (s' ≡ record {
            pm = initialize_workqueue initial.pm;
            pool = pool;
            world = (platform.submit mes w).1;
          })
          × (evaluate (some orientation_filters) (some (word_of platform mes w)) ≡ some (ok, 1))
          × (platform.header mes w ≡ imu_measurement_header)
          × ((a : ℕ) × (memory.payload mes w ≡ some a) × (a ≢ 8) × (memory.imu a w ≡ new))
          × (let w' = memory.set_imu 8 later w in
              run_nodes platform (nodes_of (sensor_node_chain zsl memory ros)) mes 3 0 w'
              ≡ some (publish_sample zsl memory ros new w'))))
production-copied_example =
    production-copied platform zsl memory ros separate 24 subs 8 3 later initial apart
