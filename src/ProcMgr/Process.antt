-- ===== src/ProcMgr/Process.antt =====
-- `step_pm_process` and `step_pm_poll_handler` of src/proc_mgr.c.
use step.Common.{
  ℕ, suc, ◌+◌, ◌==◌, if◌then◌else◌, Bool, true, false, Option, none, some, ◌>>=◌, List, [], ◌∷◌,
  get_elem?, truth, ℤ, is_zero, ok,
}
use step.Measurement.{filter_bits}
use step.Filter
use step.Platform.{Platform}
use step.Node.{Node, Chain, NodeHandler, ErrorHandler, nodes_of}
use step.Cache
use step.Cache.{Cache}
use step.SamplePool
use step.SamplePool.{Pool}
use step.ProcMgr.{NodeSub, NodeRecord, Config, Manager, System, lock, unlock, initialize_workqueue}

-- The subscribers in turn.
unfoldable pub notify : {W : Type 0} → List (NodeSub W) → ℕ → ℕ → W → W
notify [] mes handle w = w
notify (s ∷ ss) mes handle w = elim s.cb [
  | none ↦ notify ss mes handle w
  | some cb ↦ notify ss mes handle (cb mes handle s.user_data w)
]

module _ {W : Type 0} (plat : Platform W) where
  -- The call of a start, exec or stop handler, and of the error handler if it fails.
  unfoldable pub fire : Option (NodeHandler W) → Option (ErrorHandler W) → ℕ → ℕ → ℕ → W → Option W
  fire none err mes handle idx w = some w
  fire (some f) err mes handle idx w =
      let (rc, w₁) = f mes handle idx w in
      elim (is_zero rc) [
        | true ↦ some w₁
        | false ↦ elim err [ none ↦ none | some e ↦ some (e (some mes) handle idx rc w₁) ]
      ]

  -- The three handlers of a node.
  unfoldable pub run_node : Node W → ℕ → ℕ → ℕ → W → Option W
  run_node n mes handle idx w =
      let c = n.callbacks in
      do
        w₁ ← fire c.start_handler c.error_handler mes handle idx w
        w₂ ← fire c.exec_handler c.error_handler mes handle idx w₁
        fire c.stop_handler c.error_handler mes handle idx w₂

  -- The nodes of a chain in turn.
  unfoldable pub run_nodes : List (Node W) → ℕ → ℕ → ℕ → W → Option W
  run_nodes [] mes handle idx w = some w
  run_nodes (n ∷ ns) mes handle idx w = elim (run_node n mes handle idx w) [
    | none ↦ none
    | some w₁ ↦ run_nodes ns mes handle (suc idx) w₁
  ]

  -- The filter word of the measurement.
  abbrev pub word_of : ℕ → W → ℕ
  word_of mes w = filter_bits (plat.header mes w).filter

  -- The evaluation of a match by the node: `match`, `rc` and the memory.
  unfoldable pub evaluate_node : Node W → ℕ → ℕ → ℤ → W → Option (ℕ × ℤ × W)
  evaluate_node n mes handle rc w = elim n.callbacks.evaluate_handler [
    | some f ↦ let (b, w₁) = f mes handle 0 w in some (truth b, rc, w₁)
    | none ↦ do
      (rc', match) ← Filter.evaluate (some n.filters) (some (word_of mes w))
      some (match, rc', w)
  ]

  -- The matched handler, which can replace the match.
  unfoldable pub confirm : Node W → ℕ → ℕ → ℕ → W → ℕ × W
  confirm n mes handle match w =
      if match == 0 then (match, w) else elim n.callbacks.matched_handler [
        | none ↦ (match, w)
        | some f ↦ let (b, w₁) = f mes handle 0 w in (truth b, w₁)
      ]

  -- The decision whether a record matches: from the cache, or by the node and then cached.
  unfoldable pub decide : Config → Cache → Node W → ℕ → ℕ → ℤ → W → Option (ℕ × ℤ × Cache × W)
  decide cfg cache n mes handle rc w =
      if cfg.filter_cache
      then (let (now, w₀) = plat.uptime w in
          let (hit, result, cache₁) = Cache.check cache (word_of mes w) handle now in
          if hit == 0
          then (do
            (match, rc', w₁) ← evaluate_node n mes handle rc w
            let (match', w₂) = confirm n mes handle match w₁
            let (now', w₃) = plat.uptime w₂
            cache₂ ← Cache.add cache₁ (word_of mes w₂) handle match' now'
            some (match', rc', cache₂, w₃))
          else some (result, rc, cache₁, w₀))
      else (do
        (match, rc', w₁) ← evaluate_node n mes handle rc w
        let (match', w₂) = confirm n mes handle match w₁
        some (match', rc', cache, w₂))

  -- What happens on a match: the chain is run, and its subscribers are called.
  unfoldable pub run_record : NodeRecord W → Chain W → ℕ → W → Option W
  run_record r chain mes w = do
    w₁ ← run_nodes (nodes_of chain) mes r.handle 0 w
    some (notify r.sub_callbacks mes r.handle w₁)

  -- One round of the loop over the registered nodes, on `match_count`, `rc` and the state. The mutex
  -- is given back while a chain is run.
  unfoldable pub process_record :
      Config → ℕ → ℕ → ℕ × ℤ × Manager W × W → Option (ℕ × ℤ × Manager W × W)
  process_record cfg h mes (match_count, rc, m, w) = do
    r ← get_elem? m.nodes h
    if r.enabled
        then (do
          chain ← r.node
          (match, rc', cache, w₁) ← decide cfg m.cache chain.first mes r.handle rc w
          let m₁ = unlock (record m { cache = cache })
          if match == 0
              then some (match_count, rc', lock m₁, w₁)
              else (do w₂ ← run_record r chain mes w₁; some (match_count + 1, rc', lock m₁, w₂)))
        else some (match_count, rc, m, w)

  -- The loop.
  unfoldable pub process_nodes :
      Config → List ℕ → ℕ → ℕ × ℤ × Manager W × W → Option (ℕ × ℤ × Manager W × W)
  process_nodes cfg [] mes st = some st
  process_nodes cfg (h ∷ hs) mes st = elim (process_record cfg h mes st) [
    | none ↦ none
    | some st' ↦ process_nodes cfg hs mes st'
  ]

  -- The release of the measurement if `free` says so, which can wait for good.
  unfoldable pub give_back : ℕ → ℕ → Bool → Pool × W → Option (Pool × W)
  give_back sizeof_mes mes free st =
      if free then SamplePool.free plat sizeof_mes mes st else some st

  -- `step_pm_process`: the return code, the number of matches (0 is logged as a lost measurement)
  -- and the new state; none for a fault, and where it waits for good.
  unfoldable pub process : ℕ → Config → ℕ → Bool → System W → Option (ℤ × ℕ × System W)
  process sizeof_mes cfg mes free s =
      let m = lock (initialize_workqueue s.pm) in
      do
        (match_count, rc, m₁, w) ← process_nodes cfg m.slist mes (0, ok, m, s.world)
        (pool, w₁) ← give_back sizeof_mes mes free (s.pool, w)
        some (rc, match_count, record { pm = unlock m₁; pool = pool; world = w₁ })

  -- `step_pm_poll_handler`
  unfoldable pub poll_handler : ℕ → Config → ℕ → System W → Option (System W)
  poll_handler sizeof_mes cfg mes s = do
    (rc, match_count, s') ← process sizeof_mes cfg mes (plat.free_after_use mes s.world) s
    some s'
