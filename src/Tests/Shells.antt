-- ===== src/Tests/Shells.antt =====
-- Tests of the shell sample.
use mathlib.Core.Option
use step.Common.{
  ℕ, zero, suc, ◌+◌, ◌-◌, ◌*◌, ◌/◌, ◌^◌, ◌<◌, ◌≡◌, ◌≢◌, refl, ap, ◌⊎◌, inl, ltb, leb, Option, none,
  some, [], ◌∷◌, get_elem?, ok, true, ◌++◌, arith,
}
use step.Measurement.{Header}
use step.Measurement.Types.{temperature_code, temp_die}
use step.Filter.{evaluate}
use step.Filter.Meaning.{Says}
use step.Measurement.{filter_bits}
use step.Platform.{Platform, SlistTail}
use step.Node.{Node, Chain, nodes_of}
use step.SamplePool
use step.SamplePool.{Pool, zero_header}
use step.ProcMgr.{NodeSub, Manager, System, node_get, walk, initialize_workqueue}
use step.ProcMgr.Register.{new_record, init_nodes}
use step.ProcMgr.Process.{run_nodes, word_of}
use step.ProcMgr.Order.{In}
use step.ProcMgr.Registry.{IsRegistry, IsFilled}
use step.Samples.Float.{Float}
use step.Samples.Shell.{node_init, CbStats, Memory, root_filters, test_node_chain}
use step.Samples.Shell.Select.{IsSelected, root_filters-select}
use step.Samples.Shell.Run.{Holds, ran, failed, run-chain}
use step.Samples.Shell.Driver.{drv_header, payload_sz, cmd_pub}
use step.Samples.Shell.Publish.{drv_header-IsFilterFields, cmd_pub-outcome}
use step.Samples.Subscription.{sample_main}
use step.Samples.Subscription.Outcome.{Sampled, sample_main-outcome}
use step.Tests.Samples.{slist, config, no_cache, pool}

-- Memory for one measurement and one configuration, of the factor 10.
record ShellWorld : Type 0 where
  header : Header
  stats : CbStats
  temp : ℕ

-- Whole numbers for the floating point numbers.
abbrev float : Float ℕ
float = record {
  literal = λ n k. n / 10 ^ k;
  add = λ x y. x + y;
  sub = λ x y. x - y;
  mul = λ x y. x * y;
  div = λ x y. x / y;
  neg = λ x. x;
  lt = ltb;
  le = leb;
}

abbrev platform : Platform ShellWorld
platform = record {
  header = λ mes w. w.header;
  set_header = λ mes h w. record w { header = h };
  set_payload = λ mes p w. w;
  free_after_use = λ mes w. true;
  set_free_after_use = λ mes w. w;
  zero_bytes = λ p n w. w;
  uptime = λ w. (5, w);
  heap_alloc = λ n w. (some 64, w);
  heap_free = λ mes w. w;
  callback_alloc = λ w. some w;
  submit = λ mes w. (ok, w);
}

abbrev memory : Memory ℕ ShellWorld platform
memory = record {
  cb_stats = λ w. w.stats;
  set_cb_stats = λ s w. record w { stats = s };
  temp_c = λ mes w. w.temp;
  set_temp_c = λ mes t w. record w { temp = t };
  set_timestamp = λ mes t w. w;
  mult = λ a w. 10;
  cb_stats-set_cb_stats = λ s w. refl;
  cb_stats-set_temp_c = λ a t w. refl;
  temp_c-set_temp_c = λ a t w. refl;
  temp_c-set_cb_stats = λ a s w. refl;
  mult-set_cb_stats = λ a s w. refl;
  mult-set_temp_c = λ a b t w. refl;
  header-set_cb_stats = λ a s w. refl;
  header-set_temp_c = λ a b t w. refl;
  header-set_timestamp = λ a b t w. refl;
  header-set_header = λ a h w. refl;
  header-uptime = λ a w. refl;
}

abbrev world : ShellWorld
world = record {
  header = drv_header;
  stats = record { init = 0; evaluate = 0; matched = 0; start = 0; run = 0; stop = 0; error = 0 };
  temp = 32;
}

-- The configurations of the three nodes, and the chain with them.
abbrev config_of : ℕ → ℕ → Option ℕ
config_of handle inst = get_elem? (0 ∷ 100 ∷ 0 ∷ []) inst

abbrev chain : Chain ShellWorld
chain = test_node_chain float platform memory config_of 100

abbrev registered : Manager ShellWorld
registered = record {
  wqueue_started = true;
  wqueue_starts = 1;
  nodes = new_record (some chain) 4 0 ∷ new_record none 0 0 ∷ [];
  handle_counter = 1;
  slist = 0 ∷ [];
  cache = no_cache;
  reg_access = 0;
}

registered-IsRegistry : IsRegistry config registered
registered-IsRegistry = record {
  sized = refl;
  counted = omega arith;
  filled = filled;
  sorted = (tt, tt);
  known = (omega arith, tt);
  complete = complete;
}
  where
    filled : (h : ℕ) → h < 1 → IsFilled registered.nodes h
    filled zero l = (new_record (some chain) 4 0, chain, refl, refl, refl)
    filled (suc h) l = absurd (omega arith)

    complete : (h : ℕ) → h < 1 → In h (0 ∷ [])
    complete zero l = inl refl
    complete (suc h) l = absurd (omega arith)

-- The configuration found by a lookup.
found : Option (Option (Node ShellWorld) × Manager ShellWorld) → Option ℕ
found none = none
found (some (n, m)) = Option.map (λ (n' : Node ShellWorld). n'.config) n

registered-lookup :
    (i : ℕ) (n : Option (Node ShellWorld)) (m' : Manager ShellWorld)
    → node_get 0 i registered ≡ some (n, m')
    → config_of 0 i ≡ Option.map (λ (n' : Node ShellWorld). n'.config) n
unfolding node_get walk initialize_workqueue found
registered-lookup zero n m' e = ap found e
registered-lookup (suc zero) n m' e = ap found e
registered-lookup (suc (suc zero)) n m' e = ap found e
registered-lookup (suc (suc (suc i))) n m' e = ap found e

registered-Holds : Holds float platform memory config_of 100 64 0 config registered
registered-Holds = record {
  registry = registered-IsRegistry;
  below = omega arith;
  entry = new_record (some chain) 4 0;
  at = refl;
  node = refl;
  lookup = registered-lookup;
}

root_filters-select_example :
    (m : ℕ) × (evaluate (some root_filters) (some (filter_bits drv_header.filter)) ≡ some (ok, m))
    × Says m (IsSelected drv_header.filter drv_header-IsFilterFields)
root_filters-select_example = root_filters-select drv_header.filter drv_header-IsFilterFields

run-chain_example :
    (w' : ShellWorld) × (run_nodes platform (nodes_of chain) 64 0 0 world ≡ some w')
    × (((world.header.filter.ext_type ≡ temperature_code temp_die)
          × (w'.stats ≡ ran float platform memory config_of 100 64 0 world.stats)
          × (w'.temp ≡ 320))
        ⊎ ((world.header.filter.ext_type ≢ temperature_code temp_die)
            × (w'.stats ≡ failed float platform memory config_of 100 64 0 world.stats)
            × (w'.temp ≡ 32)))
run-chain_example =
    run-chain float platform memory config_of 100 64 0 config registered world registered-Holds
      (omega arith) refl

abbrev subscribers : SlistTail (NodeSub ShellWorld)
subscribers = record { append = λ l x. l ++ x ∷ []; append_lem = λ l x. refl }

abbrev system : System ShellWorld
system = record { pm = registered; pool = pool; world = world }

cmd_pub-outcome_example :
    (let (r, p, w₁) = SamplePool.alloc platform 24 payload_sz (pool, world) in
      ((r ≡ none)
        × (cmd_pub float platform memory 24 subscribers system
            ≡ (ok, record system { pool = p; world = w₁ })))
      ⊎ ((mes : ℕ) × (w : ShellWorld) × (r ≡ some mes)
          × (cmd_pub float platform memory 24 subscribers system
              ≡ (ok, record { pm = initialize_workqueue registered; pool = p; world = w }))
          × (w.header ≡ drv_header)
          × (w.temp ≡ 32)
          × (evaluate (some root_filters) (some (word_of platform mes w)) ≡ some (ok, 1))))
cmd_pub-outcome_example = cmd_pub-outcome float platform memory 24 subscribers system

-- The second chain gets the handle 1; its three nodes count their initialisation.
abbrev initialised : ShellWorld
initialised = record world {
  stats = record { init = 3; evaluate = 0; matched = 0; start = 0; run = 0; stop = 0; error = 0 };
}

abbrev on_completed : NodeSub ShellWorld
on_completed = record { cb = none; user_data = 0 }

initialised-init_nodes : init_nodes (nodes_of chain) 1 0 ok world ≡ some (ok, initialised)
unfolding init_nodes node_init
initialised-init_nodes = refl

sample_main-outcome_example :
    (s' : System ShellWorld) × (sample_main float platform memory 24 subscribers slist config chain
        on_completed system
      ≡ some s')
    × IsRegistry config s'.pm
    × (s'.pm.reg_access ≡ 0)
    × (((some initialised ≡ none) × (s'.world ≡ initialised))
        ⊎ ((p : Pool) × (w₁ : ShellWorld) × (some initialised ≡ some w₁)
            × (get_elem? s'.pm.nodes 1
                ≡ some (record (new_record (some chain) 0 1) { sub_callbacks = on_completed ∷ [] }))
            × Sampled float platform memory 24 subscribers p w₁ s'.world))
sample_main-outcome_example =
    sample_main-outcome float platform memory 24 subscribers slist config chain on_completed system
      initialised registered-IsRegistry (omega arith) initialised-init_nodes
