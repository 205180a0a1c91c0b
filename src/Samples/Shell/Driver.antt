-- ===== src/Samples/Shell/Driver.antt =====
-- The driver of samples/shell/src/driver.c and driver.h, and the commands of samples/shell/src/main.c.
use step.Common.{ℕ, ◌%◌, ◌^◌, Option, none, some, ◌>>=◌, ℤ, ok, enomem}
use step.Measurement.{Header}
use step.Measurement.Types.{type_code, temperature, temperature_code, temp_die}
use step.Measurement.FieldValues.{
  format_code, format_none, encoding_code, encoding_none, compression_code, compression_none,
  timestamp_code, timestamp_uptime_ms_32,
}
use step.Measurement.Si
use step.Measurement.Ctype
use step.Platform.{Platform, Slist, SlistTail}
use step.Node.{Chain}
use step.SamplePool
use step.SamplePool.{Pool}
use step.ProcMgr.{NodeSub, Config, System, clear, put}
use step.ProcMgr.Register.{register}
use step.Samples.Float.{Float}
use step.Samples.Shell.{Memory}

-- DRV_PAYLOAD_SZ: a `uint32_t` and a `float`.
abbrev pub payload_sz : ℕ
payload_sz = 8

-- `drv_header`
unfoldable pub drv_header : Header
drv_header = record {
  filter = record {
    base_type = type_code temperature;
    ext_type = temperature_code temp_die;
    flags = record {
      data_format = format_code format_none;
      encoding = encoding_code encoding_none;
      compression = compression_code compression_none;
      timestamp = timestamp_code timestamp_uptime_ms_32;
      rsvd = 0;
    };
  };
  unit = record {
    si_unit = Si.si_code Si.degree_celsius;
    scale_factor = 0;
    ctype = Ctype.code Ctype.ieee754_float32;
  };
  srclen = record { len = payload_sz; fragment = 0; vec_sz = 0; samples = 0; sourceid = 2 };
}

module _ {F W : Type 0} (float : Float F) (plat : Platform W) (mem : Memory F W plat)
    (sizeof_mes : ℕ) where
  -- The writes to a new measurement. `k_uptime_get_32` is the low word of `k_uptime_get`.
  unfoldable pub fill_mes : ℕ → W → W
  fill_mes mes w =
      let w₁ = plat.set_header mes drv_header w in
      let (now, w₂) = plat.uptime w₁ in
      mem.set_temp_c mes (float.literal 320 1) (mem.set_timestamp mes (now % 2 ^ 32) w₂)

  -- `step_shell_drv_get_mes`: the return code, `*mes` and the new state.
  unfoldable pub get_mes : Pool × W → ℤ × Option ℕ × Pool × W
  get_mes (p, w) =
      let (r, p₁, w₁) = SamplePool.alloc plat sizeof_mes payload_sz (p, w) in
      elim r [ none ↦ (enomem, none, p₁, w₁) | some mes ↦ (ok, some mes, p₁, fill_mes mes w₁) ]

  -- `step_shell_cmd_pub`: the result of the driver is only logged.
  unfoldable pub cmd_pub : SlistTail (NodeSub W) → System W → ℤ × System W
  cmd_pub subs s =
      let (rc, mes, p, w) = get_mes (s.pool, s.world) in
      let (rc', s') = put plat subs mes (record s { pool = p; world = w }) in (ok, s')

  -- `step_shell_cmd_clr`
  unfoldable pub cmd_clr : Config → System W → ℤ × System W
  cmd_clr cfg s = (ok, record s { pm = clear cfg s.pm })

  -- `step_shell_cmd_add`: the result of the registration is not looked at.
  unfoldable pub cmd_add : Slist ℕ → Config → Chain W → System W → Option (ℤ × System W)
  cmd_add sl cfg test_node_chain s = do
    (rc, handle, s') ← register sl cfg (some test_node_chain) 4 s
    some (ok, s')
