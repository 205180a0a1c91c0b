-- ===== src/Samples/Throughput.antt =====
-- The application of samples/throughput/src/main.c, which submits a number of measurements and
-- reports how long this took. `instrumented` is CONFIG_STEP_INSTRUMENTATION.
pub mod Rounds
pub mod Report
use step.Common.{
  ℕ, zero, suc, ◌/◌, ◌%◌, ◌^◌, Bool, true, false, if◌then◌else◌, Option, none, some, ◌>>=◌, [], ◌∷◌,
  is_zero, ok, einval,
}
use step.Instrumentation.{elapsed}
use step.Measurement.{Header, mask}
use step.Measurement.Types.{type_code, acceleration}
use step.Measurement.FieldValues.{
  format_code, format_none, encoding_code, encoding_none, compression_code, compression_none,
  timestamp_code, timestamp_uptime_ms_32, vector_sz_code, vector_sz_3,
}
use step.Measurement.Si
use step.Measurement.Ctype
use step.Filter.{FilterChain, op_is, not32}
use step.Node.{Chain, InitHandler, NodeHandler}
use step.Platform.{Platform, Slist, SlistTail}
use step.SamplePool
use step.SamplePool.{add32}
use step.ProcMgr.{NodeSub, Config, System, put}
use step.ProcMgr.Register.{register}
use step.ProcMgr.Timed.{Clock, divide}
use step.Samples.Float.{Float}

-- STEP_THROUGHPUT_MSGS
abbrev pub throughput_msgs : ℕ
throughput_msgs = 1000

-- `struct accel_payload`
pub record AccelPayload (F : Type 0) : Type 0 where
  pub timestamp : ℕ
  pub accel_x : F
  pub accel_y : F
  pub accel_z : F

-- Its size.
abbrev pub payload_sz : ℕ
payload_sz = 16

-- The filter of the node: any accelerometer.
abbrev pub accel_filters : FilterChain
accel_filters = record {
  count = 1;
  chain = some (
      record { op = op_is; match = type_code acceleration; ignore_mask = not32 mask.base_type }
      ∷ []);
}

-- `accel_header`
unfoldable pub accel_header : Header
accel_header = record {
  filter = record {
    base_type = type_code acceleration;
    ext_type = 0;
    flags = record {
      data_format = format_code format_none;
      encoding = encoding_code encoding_none;
      compression = compression_code compression_none;
      timestamp = timestamp_code timestamp_uptime_ms_32;
      rsvd = 0;
    };
  };
  unit = record {
    si_unit = Si.si_code Si.meter_per_second_2;
    scale_factor = 0;
    ctype = Ctype.code Ctype.ieee754_float32;
  };
  srclen = record {
    len = payload_sz;
    fragment = 0;
    vec_sz = vector_sz_code vector_sz_3;
    samples = 0;
    sourceid = 0;
  };
}

-- `registered handle inst` says whether `step_pm_node_get` finds a node.
module _ {W : Type 0} (registered : ℕ → ℕ → W → Bool) where
  unfoldable pub node_init : InitHandler W
  node_init cfg handle inst w = (ok, w)

  unfoldable pub node_exec : NodeHandler W
  node_exec mes handle inst w = ((if registered handle inst w then ok else einval), w)

  -- `test_node`
  abbrev pub test_node : Chain W
  test_node = record {
    first = record {
      name = some "Accelerometer node";
      filters = accel_filters;
      callbacks = record {
        init_handler = some node_init;
        evaluate_handler = none;
        matched_handler = none;
        start_handler = none;
        exec_handler = some node_exec;
        stop_handler = none;
        error_handler = none;
      };
      config = 0;
    };
    next = [];
  }

-- STEP_INSTR_START and STEP_INSTR_STOP on a variable `t`, which they leave alone if the
-- instrumentation is not built in.
module _ {W : Type 0} (clock : Clock W) (instrumented : Bool) where
  unfoldable pub instr_start : ℕ → W → ℕ × W
  instr_start t w = if instrumented then clock.cycle_get w else (t, w)

  unfoldable pub instr_stop : ℕ → W → ℕ × W
  instr_stop t w =
      if instrumented
      then (let (end, w') = clock.cycle_get w in (clock.cyc_to_ns (elapsed t end), w'))
      else (t, w)

-- The three lines of the report: the total time, the time of a sample, both in microseconds, and the
-- samples of a second, where a division by 0 is a fault.
unfoldable pub report : ℕ → Option (ℕ × ℕ × ℕ)
report instr_total =
    let per_sample = instr_total / throughput_msgs / 1000 in
    do mes_s ← divide 1000000 per_sample; some (instr_total / 1000, per_sample, mes_s)

-- `set_accel` writes to the payload of a measurement.
module _ {F W : Type 0} (float : Float F) (plat : Platform W) (clock : Clock W)
    (instrumented : Bool) (set_accel : ℕ → AccelPayload F → W → W) (sizeof_mes : ℕ)
    (subs : SlistTail (NodeSub W)) where
  -- The writes to a new measurement. `k_uptime_get_32` is the low word of `k_uptime_get`.
  unfoldable pub fill_mes : ℕ → W → W
  fill_mes mes w =
      let (now, w₁) = plat.uptime (plat.set_header mes accel_header w) in
      let zero_f = float.literal 0 1 in
      set_accel mes
        (record { timestamp = now % 2 ^ 32; accel_x = zero_f; accel_y = zero_f; accel_z = zero_f })
        w₁

  -- One round of the loop: whether a measurement was found, `instr` and the new state. The result of
  -- step_pm_put is not looked at.
  unfoldable pub publish : ℕ → System W → Bool × ℕ × System W
  publish instr s =
      let (instr₁, w) = instr_start clock instrumented instr s.world in
      let (r, pool, w₁) = SamplePool.alloc plat sizeof_mes payload_sz (s.pool, w) in
      let s₁ = record s { pool = pool; world = w₁ } in
      elim r [
        | none ↦ (false, instr₁, s₁)
        | some mes ↦
            let s₂ = (put plat subs (some mes) (record s₁ { world = fill_mes mes w₁ })).1 in
            let (instr₂, w₂) = instr_stop clock instrumented instr₁ s₂.world in
            (true, instr₂, record s₂ { world = w₂ })
      ]

  -- The loop with `n` rounds left: whether it ended, `instr_total` and the new state.
  unfoldable pub rounds : ℕ → ℕ → ℕ → System W → Bool × ℕ × System W
  rounds zero instr instr_total s = (true, instr_total, s)
  rounds (suc n) instr instr_total s =
      let (found, instr', s') = publish instr s in
      elim found [
        | false ↦ (false, instr_total, s')
        | true ↦ rounds n instr' (add32 instr_total instr') s'
      ]

  -- `main`: the report, `none` without one, and the state in which it goes to sleep for good.
  unfoldable pub throughput_main :
      Slist ℕ → Config → Chain W → System W → Option (Option (ℕ × ℕ × ℕ) × System W)
  throughput_main sl cfg chain s = do
    (rc, handle, s₁) ← register sl cfg (some chain) 0 s
    elim (is_zero rc) [
      | false ↦ some (none, s₁)
      | true ↦
          let (ended, instr_total, s₂) = rounds throughput_msgs 0 0 s₁ in
          elim ended [
            | false ↦ some (none, s₂)
            | true ↦ do lines ← report instr_total; some (some lines, s₂)
          ]
    ]
