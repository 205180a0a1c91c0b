-- ===== src/Samples/Shell.antt =====
-- The nodes of samples/shell/src/nodes.c and nodes.h.
pub mod Select
pub mod Run
pub mod Driver
pub mod Publish
use step.Common.{
  ℕ, ◌+◌, ◌*◌, ◌%◌, ◌^◌, ◌≡◌, ◌==◌, if◌then◌else◌, Bool, true, Option, none, some, List, [], ◌∷◌, ℤ,
  ok, einval,
}
use step.Measurement.{Header, mask}
use step.Measurement.Types.{type_code, temperature, temperature_code, temp_die}
use step.Measurement.FieldValues.{timestamp_code, timestamp_uptime_ms_32}
use step.Filter.{Filter, FilterChain, op_is, op_or, op_and, not32}
use step.Node.{Node, Chain, Callbacks, InitHandler, NodeHandler, EvaluateHandler, ErrorHandler}
use step.Platform.{Platform}
use step.Samples.Float.{Float}

-- `x++` of a `uint32_t`
abbrev pub inc32 : ℕ → ℕ
inc32 x = (x + 1) % 2 ^ 32

-- `struct step_node_cb_stats`
pub record CbStats : Type 0 where
  pub init : ℕ
  pub evaluate : ℕ
  pub matched : ℕ
  pub start : ℕ
  pub run : ℕ
  pub stop : ℕ
  pub error : ℕ

-- What the nodes and the driver reach of the memory: the counters `cb_stats`, the payload `struct
-- drv_payload` of a measurement by the measurement's address, and a `struct node_cfg` by its own.
-- None of them overlaps another or the header of a measurement, a header is read as it was written,
-- and the clock writes none.
pub record Memory (F W : Type 0) (plat : Platform W) : Type 0 where
  pub cb_stats : W → CbStats
  pub set_cb_stats : CbStats → W → W
  pub temp_c : ℕ → W → F
  pub set_temp_c : ℕ → F → W → W
  pub set_timestamp : ℕ → ℕ → W → W
  pub mult : ℕ → W → F
  pub cb_stats-set_cb_stats : (s : CbStats) (w : W) → cb_stats (set_cb_stats s w) ≡ s
  pub cb_stats-set_temp_c : (a : ℕ) (t : F) (w : W) → cb_stats (set_temp_c a t w) ≡ cb_stats w
  pub temp_c-set_temp_c : (a : ℕ) (t : F) (w : W) → temp_c a (set_temp_c a t w) ≡ t
  pub temp_c-set_cb_stats : (a : ℕ) (s : CbStats) (w : W) → temp_c a (set_cb_stats s w) ≡ temp_c a w
  pub mult-set_cb_stats : (a : ℕ) (s : CbStats) (w : W) → mult a (set_cb_stats s w) ≡ mult a w
  pub mult-set_temp_c : (a b : ℕ) (t : F) (w : W) → mult a (set_temp_c b t w) ≡ mult a w
  pub header-set_cb_stats :
      (a : ℕ) (s : CbStats) (w : W) → plat.header a (set_cb_stats s w) ≡ plat.header a w
  pub header-set_temp_c :
      (a b : ℕ) (t : F) (w : W) → plat.header a (set_temp_c b t w) ≡ plat.header a w
  pub header-set_timestamp :
      (a b t : ℕ) (w : W) → plat.header a (set_timestamp b t w) ≡ plat.header a w
  pub header-set_header : (a : ℕ) (h : Header) (w : W) → plat.header a (plat.set_header a h w) ≡ h
  pub header-uptime : (a : ℕ) (w : W) → plat.header a (plat.uptime w).1 ≡ plat.header a w

-- The filters of the root node: a temperature of the extended type 0 or of a die, and a timestamp
-- in milliseconds of uptime.
abbrev pub base_filter : Filter
base_filter = record {
  op = op_is;
  match = type_code temperature;
  ignore_mask = not32 mask.full_type;
}

abbrev pub die_filter : Filter
die_filter = record {
  op = op_or;
  match = type_code temperature + temperature_code temp_die * 2 ^ 8;
  ignore_mask = not32 mask.full_type;
}

abbrev pub timestamp_filter : Filter
timestamp_filter = record {
  op = op_and;
  match = timestamp_code timestamp_uptime_ms_32 * 2 ^ 26;
  ignore_mask = not32 mask.timestamp;
}

abbrev pub root_filters : FilterChain
root_filters = record { count = 3; chain = some (base_filter ∷ die_filter ∷ timestamp_filter ∷ []) }

-- The filters of a node that has none.
abbrev pub no_filters : FilterChain
no_filters = record { count = 0; chain = none }

-- `config_of handle inst` is the `config` of the node that `step_pm_node_get` returns, `none` if it
-- returns NULL; a NULL `config` is 0.
module _ {F W : Type 0} (float : Float F) (plat : Platform W) (mem : Memory F W plat)
    (config_of : ℕ → ℕ → Option ℕ) where
  -- The count of a call.
  abbrev pub count : (CbStats → CbStats) → W → W
  count f w = mem.set_cb_stats (f (mem.cb_stats w)) w

  unfoldable pub node_init : InitHandler W
  node_init cfg handle inst w = (ok, count (λ s. record s { init = inc32 s.init }) w)

  unfoldable pub node_evaluate : EvaluateHandler W
  node_evaluate mes handle inst w = (true, count (λ s. record s { evaluate = inc32 s.evaluate }) w)

  unfoldable pub node_matched : EvaluateHandler W
  node_matched mes handle inst w = (true, count (λ s. record s { matched = inc32 s.matched }) w)

  unfoldable pub node_start : NodeHandler W
  node_start mes handle inst w = (ok, count (λ s. record s { start = inc32 s.start }) w)

  -- The temperature times the factor of the configuration, 1 if there is none.
  unfoldable pub node_exec : NodeHandler W
  node_exec mes handle inst w =
      if (plat.header mes w).filter.ext_type == temperature_code temp_die
      then elim (config_of handle inst) [
        | none ↦ (einval, w)
        | some config ↦
            let mult = if config == 0 then float.literal 10 1 else mem.mult config w in
            let w₁ = mem.set_temp_c mes (float.mul (mem.temp_c mes w) mult) w in
            (ok, count (λ s. record s { run = inc32 s.run }) w₁)
      ]
      else (einval, w)

  unfoldable pub node_stop : NodeHandler W
  node_stop mes handle inst w = (ok, count (λ s. record s { stop = inc32 s.stop }) w)

  unfoldable pub node_error : ErrorHandler W
  node_error mes handle inst error w = count (λ s. record s { error = inc32 s.error }) w

  -- The nodes of the chain; `cfg` is the address of `node_cfg_inst`.
  abbrev pub root_callbacks : Callbacks W
  root_callbacks = record {
    init_handler = some node_init;
    evaluate_handler = none;
    matched_handler = some node_matched;
    start_handler = some node_start;
    exec_handler = some node_exec;
    stop_handler = some node_stop;
    error_handler = some node_error;
  }

  abbrev pub next_callbacks : Callbacks W
  next_callbacks = record {
    init_handler = some node_init;
    evaluate_handler = none;
    matched_handler = none;
    start_handler = none;
    exec_handler = some node_exec;
    stop_handler = none;
    error_handler = some node_error;
  }

  abbrev pub root_node : Node W
  root_node = record {
    name = some "Root processor node";
    filters = root_filters;
    callbacks = root_callbacks;
    config = 0;
  }

  abbrev pub second_node : ℕ → Node W
  second_node cfg = record {
    name = some "2nd processor node";
    filters = no_filters;
    callbacks = next_callbacks;
    config = cfg;
  }

  abbrev pub third_node : Node W
  third_node = record {
    name = some "3rd processor node";
    filters = no_filters;
    callbacks = next_callbacks;
    config = 0;
  }

  abbrev pub test_node_chain : ℕ → Chain W
  test_node_chain cfg = record { first = root_node; next = second_node cfg ∷ third_node ∷ [] }
