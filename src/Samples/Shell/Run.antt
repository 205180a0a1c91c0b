-- ===== src/Samples/Shell/Run.antt =====
-- What a run of the chain of samples/shell/src/nodes.c does.
use mathlib.Core.Option
use step.Common.{
  ℕ, ◌<◌, suc, sym, ◌≡◌, ◌≢◌, refl, ap, ◌∙◌, ◌==◌, ◌>>=◌, ==_iff, Bool-cases, Option, none, some,
  List, [], ◌∷◌, get_elem?, ok, einval, true, false, inl, inr, ◌⊎◌, arith,
}
use step.Measurement.Types.{temperature_code, temp_die}
use step.Node.{Node, NodeHandler, ErrorHandler, nodes_of}
use step.Platform.{Platform}
use step.ProcMgr.Process.{fire, run_node, run_nodes}
use step.ProcMgr.{NodeRecord, Config, Manager, node_get}
use step.ProcMgr.Registry.{IsRegistry}
use step.ProcMgr.Access.{node_get-chain}
use step.Samples.Float.{Float}
use step.Samples.Shell.{
  CbStats, inc32, Memory, node_start, node_stop, node_exec, node_error, root_node, second_node,
  third_node, test_node_chain,
}

-- A handler that succeeds, and one that fails.
module _ {W : Type 0} (plat : Platform W) (f : NodeHandler W) (mes handle i : ℕ) (w w' : W) where
  fire-ok :
      (err : Option (ErrorHandler W))
      → f mes handle i w ≡ (ok, w')
      → fire plat (some f) err mes handle i w ≡ some w'
  unfolding fire
  fire-ok err e = rw (ap (λ p. p.0) e, fire) (ap (λ p. some p.1) e)

  fire-einval :
      (err : ErrorHandler W)
      → f mes handle i w ≡ (einval, w')
      → fire plat (some f) (some err) mes handle i w ≡ some (err (some mes) handle i einval w')
  unfolding fire
  fire-einval err e =
      rw (ap (λ p. p.0) e, fire) (ap (λ p. some (err (some mes) handle i p.0 p.1)) e)

module _ {F W : Type 0} (float : Float F) (plat : Platform W) (mem : Memory F W plat)
    (config_of : ℕ → ℕ → Option ℕ) (cfg mes handle : ℕ) where
  -- From `w` to `w'` the counters change by `g` and the temperature by `k`, the header and the
  -- configuration do not.
  record Did (w w' : W) (g : CbStats → CbStats) (k : F → F) : Type 0 where
    stats : mem.cb_stats w' ≡ g (mem.cb_stats w)
    temp : mem.temp_c mes w' ≡ k (mem.temp_c mes w)
    header : plat.header mes w' ≡ plat.header mes w
    mult : mem.mult cfg w' ≡ mem.mult cfg w

  abbrev Does : Option W → W → (CbStats → CbStats) → (F → F) → Type 0
  Does m w g k = (w' : W) × (m ≡ some w') × Did w w' g k

  Did-trans :
      {w₁ w₂ w₃ : W} {g g' : CbStats → CbStats} {k k' : F → F}
      → Did w₁ w₂ g k
      → Did w₂ w₃ g' k'
      → Did w₁ w₃ (λ s. g' (g s)) (λ t. k' (k t))
  Did-trans {g' = g'} {k' = k'} a b = record {
    stats = b.stats ∙ ap g' a.stats;
    temp = b.temp ∙ ap k' a.temp;
    header = b.header ∙ a.header;
    mult = b.mult ∙ a.mult;
  }

  Does->>= :
      {m : Option W} {f : W → Option W} {w : W} {g g' : CbStats → CbStats} {k k' : F → F}
      → Does m w g k
      → ((w' : W) → Did w w' g k → Does (f w') w' g' k')
      → Does (m >>= f) w (λ s. g' (g s)) (λ t. k' (k t))
  Does->>= (w₁, e, a) next = let (w₂, e₂, b) = next w₁ a in (w₂, rw e e₂, Did-trans a b)

  run_nodes-Does :
      (n : Node W) (ns : List (Node W)) (i : ℕ) {w : W} {g g' : CbStats → CbStats} {k k' : F → F}
      → Does (run_node plat n mes handle i w) w g k
      → ((w' : W) → Did w w' g k → Does (run_nodes plat ns mes handle (suc i) w') w' g' k')
      → Does (run_nodes plat (n ∷ ns) mes handle i w) w (λ s. g' (g s)) (λ t. k' (k t))
  unfolding run_nodes
  run_nodes-Does n ns i (w₁, e, a) next =
      let (w₂, e₂, b) = next w₁ a in (w₂, rw (e, run_nodes) e₂, Did-trans a b)

  counted :
      (f : CbStats → CbStats) (w : W) → Did w (mem.set_cb_stats (f (mem.cb_stats w)) w) f (λ t. t)
  counted f w = record {
    stats = mem.cb_stats-set_cb_stats _ w;
    temp = mem.temp_c-set_cb_stats mes _ w;
    header = mem.header-set_cb_stats mes _ w;
    mult = mem.mult-set_cb_stats cfg _ w;
  }

  multiplied : (k : F → F) (w : W) → Did w (mem.set_temp_c mes (k (mem.temp_c mes w)) w) (λ s. s) k
  multiplied k w = record {
    stats = mem.cb_stats-set_temp_c mes _ w;
    temp = mem.temp_c-set_temp_c mes _ w;
    header = mem.header-set_temp_c mes mes _ w;
    mult = mem.mult-set_temp_c cfg mes _ w;
  }

  abbrev started : CbStats → CbStats
  started s = record s { start = inc32 s.start }

  abbrev run : CbStats → CbStats
  run s = record s { run = inc32 s.run }

  abbrev stopped : CbStats → CbStats
  stopped s = record s { stop = inc32 s.stop }

  abbrev erred : CbStats → CbStats
  erred s = record s { error = inc32 s.error }

  start-Does :
      (i : ℕ) (w : W)
      → Does
          (fire plat
            (some (node_start float plat mem config_of))
            (some (node_error float plat mem config_of))
            mes
            handle
            i
            w)
          w
          started
          (λ t. t)
  unfolding fire node_start
  start-Does i w = (_, refl, counted started w)

  stop-Does :
      (i : ℕ) (w : W)
      → Does
          (fire plat
            (some (node_stop float plat mem config_of))
            (some (node_error float plat mem config_of))
            mes
            handle
            i
            w)
          w
          stopped
          (λ t. t)
  unfolding fire node_stop
  stop-Does i w = (_, refl, counted stopped w)

  abbrev exec_at : ℕ → W → Option W
  exec_at i =
      fire plat (some (node_exec float plat mem config_of))
        (some (node_error float plat mem config_of)) mes handle i

  -- The factor of a node: that of its configuration.
  abbrev Factor : ℕ → ℕ → F → W → Type 0
  Factor i config k w =
      (config_of handle i ≡ some config)
      × (((config ≡ 0) × (k ≡ float.literal 10 1)) ⊎ ((config ≢ 0) × (mem.mult config w ≡ k)))

  -- The memory after a product.
  abbrev multiply : F → W → W
  multiply k w =
      let w₁ = mem.set_temp_c mes (float.mul (mem.temp_c mes w) k) w in
      mem.set_cb_stats (run (mem.cb_stats w₁)) w₁

  node_exec-die :
      (i config : ℕ) (k : F) (w : W)
      → (plat.header mes w).filter.ext_type ≡ temperature_code temp_die
      → Factor i config k w
      → node_exec float plat mem config_of mes handle i w ≡ (ok, multiply k w)
  unfolding node_exec
  node_exec-die i config k w die (at, inl (z, e)) =
      let null : (config == 0) ≡ true = ground (arith, z) in
      rw ((==_iff _ _).1 die, at, null, e, node_exec)
  node_exec-die i config k w die (at, inr (nz, e)) =
      let there : (config == 0) ≡ false = ground (arith, nz) in
      rw ((==_iff _ _).1 die, at, there, e, node_exec)

  node_exec-other :
      (i : ℕ) (w : W)
      → (plat.header mes w).filter.ext_type ≢ temperature_code temp_die
      → node_exec float plat mem config_of mes handle i w ≡ (einval, w)
  unfolding node_exec
  node_exec-other i w other =
      let no : ((plat.header mes w).filter.ext_type == temperature_code temp_die) ≡ false =
        ground (arith, other) in
      rw (no, node_exec)

  exec-Does :
      (i config : ℕ) (k : F) (w : W)
      → (plat.header mes w).filter.ext_type ≡ temperature_code temp_die
      → Factor i config k w
      → Does (exec_at i w) w run (λ t. float.mul t k)
  exec-Does i config k w die at = (
    multiply k w,
    fire-ok plat _ mes handle i w _ _ (node_exec-die i config k w die at),
    Did-trans (multiplied (λ t. float.mul t k) w) (counted run _),
  )

  exec-Does_other :
      (i : ℕ) (w : W)
      → (plat.header mes w).filter.ext_type ≢ temperature_code temp_die
      → Does (exec_at i w) w erred (λ t. t)
  unfolding node_error
  exec-Does_other i w other = (
    mem.set_cb_stats (erred (mem.cb_stats w)) w,
    fire-einval plat _ mes handle i w w _ (node_exec-other i w other),
    counted erred w,
  )

  still :
      {w w' : W}
      → plat.header mes w' ≡ plat.header mes w
      → (plat.header mes w).filter.ext_type ≡ temperature_code temp_die
      → (plat.header mes w').filter.ext_type ≡ temperature_code temp_die
  still e die = ap (λ h. h.filter.ext_type) e ∙ die

  still_other :
      {w w' : W}
      → plat.header mes w' ≡ plat.header mes w
      → (plat.header mes w).filter.ext_type ≢ temperature_code temp_die
      → (plat.header mes w').filter.ext_type ≢ temperature_code temp_die
  still_other e other q = other (sym (ap (λ h. h.filter.ext_type) e) ∙ q)

  same : (w : W) → Did w w (λ s. s) (λ t. t)
  same w = record { stats = refl; temp = refl; header = refl; mult = refl }

  -- A node with no other handler.
  alone :
      {m : Option W} {w : W} {g : CbStats → CbStats} {k : F → F}
      → Does m w g k
      → Does (m >>= λ w'. some w') w g k
  alone d = Does->>= d λ w' a. (w', refl, same w')

  abbrev root : Node W
  root = root_node float plat mem config_of

  abbrev second : Node W
  second = second_node float plat mem config_of cfg

  abbrev third : Node W
  third = third_node float plat mem config_of

  abbrev chain : List (Node W)
  chain = nodes_of (test_node_chain float plat mem config_of cfg)

  abbrev ten : F
  ten = float.literal 100 1

  abbrev one : F
  one = float.literal 10 1

  -- The lookup finds the nodes of the chain.
  abbrev IsRegistered : Type 0
  IsRegistered =
      (i : ℕ) → config_of handle i ≡ Option.map (λ (n : Node W). n.config) (get_elem? chain i)

  module _ (w : W) (there : cfg ≢ 0) (registered : IsRegistered) where
    run-die :
        mem.mult cfg w ≡ ten
        → (plat.header mes w).filter.ext_type ≡ temperature_code temp_die
        → Does
            (run_nodes plat chain mes handle 0 w)
            w
            (λ s. run (run (stopped (run (started s)))))
            (λ t. float.mul (float.mul (float.mul t one) ten) one)
    unfolding run_nodes run_node fire
    run-die factor die =
        run_nodes-Does root (second ∷ third ∷ []) 0
          (Does->>= (start-Does 0 w) λ w₁ a.
            Does->>= (exec-Does 0 0 one w₁ (still a.header die) (registered 0, inl (refl, refl)))
              λ w₂ b. stop-Does 0 w₂)
          λ w₃ c.
            run_nodes-Does second (third ∷ []) 1
              (alone (
                exec-Does 1 cfg ten w₃ (still c.header die)
                  (registered 1, inr (there, c.mult ∙ factor))))
              λ w₄ d.
                run_nodes-Does third [] 2
                  (alone (
                    exec-Does 2 0 one w₄ (still (d.header ∙ c.header) die)
                      (registered 2, inl (refl, refl))))
                  λ w₅ e. (w₅, refl, same w₅)

    run-other :
        (plat.header mes w).filter.ext_type ≢ temperature_code temp_die
        → Does
            (run_nodes plat chain mes handle 0 w)
            w
            (λ s. erred (erred (stopped (erred (started s)))))
            (λ t. t)
    unfolding run_nodes run_node fire
    run-other other =
        run_nodes-Does root (second ∷ third ∷ []) 0
          (Does->>= (start-Does 0 w) λ w₁ a.
            Does->>= (exec-Does_other 0 w₁ (still_other a.header other)) λ w₂ b. stop-Does 0 w₂)
          λ w₃ c.
            run_nodes-Does second (third ∷ []) 1
              (alone (exec-Does_other 1 w₃ (still_other c.header other)))
              λ w₄ d.
                run_nodes-Does third [] 2
                  (alone (exec-Does_other 2 w₄ (still_other (d.header ∙ c.header) other)))
                  λ w₅ e. (w₅, refl, same w₅)

  -- The chain is registered under the handle, and `config_of` is what `step_pm_node_get` finds in
  -- that registry.
  pub record Holds (limits : Config) (m : Manager W) : Type 0 where
    pub registry : IsRegistry limits m
    pub below : handle < m.handle_counter
    pub entry : NodeRecord W
    pub at : get_elem? m.nodes handle ≡ some entry
    pub node : entry.node ≡ some (test_node_chain float plat mem config_of cfg)
    pub lookup :
        (i : ℕ) (n : Option (Node W)) (m' : Manager W)
        → node_get handle i m ≡ some (n, m')
        → config_of handle i ≡ Option.map (λ (n' : Node W). n'.config) n

  Holds-IsRegistered : (limits : Config) (m : Manager W) → Holds limits m → IsRegistered
  Holds-IsRegistered limits m h i =
      let (r, c, at, there, found) = node_get-chain limits m handle i h.registry h.below in
      let same_record : some r ≡ some h.entry = sym at ∙ h.at in
      let same_node : some c ≡ some (test_node_chain float plat mem config_of cfg) =
        sym there ∙ ap (λ o. elim o [ none ↦ none | some r' ↦ r'.node ]) same_record ∙ h.node in
      let same_chain : c ≡ test_node_chain float plat mem config_of cfg =
        ap (λ o. elim o [ none ↦ c | some c' ↦ c' ]) same_node in
      h.lookup i _ _ found
      ∙ ap (λ c'. Option.map (λ (n : Node W). n.config) (get_elem? (nodes_of c') i)) same_chain

  -- The counters after a run of the chain, without and with errors.
  abbrev pub ran : CbStats → CbStats
  ran s = record s { start = inc32 s.start; run = inc32 (inc32 (inc32 s.run)); stop = inc32 s.stop }

  abbrev pub failed : CbStats → CbStats
  failed s = record s {
    start = inc32 s.start;
    stop = inc32 s.stop;
    error = inc32 (inc32 (inc32 s.error));
  }

  -- A run of the chain of the shell sample, registered in a valid registry, on a measurement ends
  -- without a fault. If the measurement is a die temperature, each of the three nodes counts a run,
  -- and the temperature is multiplied by 1, by the factor 10 of the configuration of the second node
  -- and by 1; if it is not, each of the three nodes fails and counts an error, and the temperature
  -- is left. The start and the stop handler of the root node count a call in both cases.
  pub run-chain :
      (limits : Config) (m : Manager W) (w : W)
      → Holds limits m
      → cfg ≢ 0
      → mem.mult cfg w ≡ float.literal 100 1
      → (w' : W) × (run_nodes plat
            (nodes_of (test_node_chain float plat mem config_of cfg))
            mes
            handle
            0
            w
          ≡ some w')
        × ((((plat.header mes w).filter.ext_type ≡ temperature_code temp_die)
              × (mem.cb_stats w' ≡ ran (mem.cb_stats w))
              × (mem.temp_c mes w'
                  ≡ float.mul
                      (float.mul
                        (float.mul (mem.temp_c mes w) (float.literal 10 1))
                        (float.literal 100 1))
                      (float.literal 10 1)))
            ⊎ (((plat.header mes w).filter.ext_type ≢ temperature_code temp_die)
                × (mem.cb_stats w' ≡ failed (mem.cb_stats w))
                × (mem.temp_c mes w' ≡ mem.temp_c mes w)))
  run-chain limits m w h there factor =
      let registered = Holds-IsRegistered limits m h in
      elim (Bool-cases ((plat.header mes w).filter.ext_type == temperature_code temp_die)) [
        | inl y ↦
            let die = (==_iff _ _).0 y in
            let (w', e, d) = run-die w there registered factor die in
            (w', e, inl (die, d.stats, d.temp))
        | inr n ↦
            let other : (plat.header mes w).filter.ext_type ≢ temperature_code temp_die =
              λ q. ground (arith, n, q) in
            let (w', e, d) = run-other w there registered other in
            (w', e, inr (other, d.stats, d.temp))
      ]
