-- ===== src/ProcMgr/Total.antt =====
-- When `step_pm_process` of src/proc_mgr.c can run into a fault.
use step.Common.{
  ℕ, suc, ◌+◌, ◌<◌, ◌≡◌, refl, inl, inr, ◌==◌, Bool, Option, none, some, List, [], ◌∷◌, get_elem?,
  truth, ℤ, is_zero, ok, ◌⊎◌, false, All, Bool-cases, Option-cases, arith,
}
use step.Filter.Chain.{IsReadable, evaluate_total}
use step.Platform.{Platform}
use step.Node.{Node, Chain, NodeHandler, ErrorHandler, nodes_of}
use step.Cache
use step.Cache.{Cache, int64_max}
use step.Cache.Valid.{IsTimed, check-IsTimed, add-IsTimed}
use step.ProcMgr.{NodeRecord, Config, Manager, System, lock, unlock, initialize_workqueue}
use step.ProcMgr.Process.{
  fire, run_node, run_nodes, notify, evaluate_node, confirm, decide, run_record, process_record,
  process_nodes, process, poll_handler, word_of,
}
use step.ProcMgr.Release.{give_back-total, process-ends}
use step.ProcMgr.Visit.{process_record-Kept}

-- Each node of the chain has an error handler, and the filters of the first can be read.
pub record IsSafe {W : Type 0} (c : Chain W) : Type 0 where
  pub errors :
      All (λ (n : Node W). (e : ErrorHandler W) × (n.callbacks.error_handler ≡ some e)) (nodes_of c)
  pub filters : IsReadable (some c.first.filters)

module _ {W : Type 0} (plat : Platform W) (mes : ℕ) where
  fire-total :
      (f : Option (NodeHandler W)) (err : Option (ErrorHandler W)) (e : ErrorHandler W)
      (handle idx : ℕ) (w : W)
      → err ≡ some e
      → (w' : W) × (fire plat f err mes handle idx w ≡ some w')
  unfolding fire
  fire-total none err e handle idx w q = (w, refl)
  fire-total (some f) err e handle idx w q = elim (Bool-cases (is_zero (f mes handle idx w).0)) [
    | inl z ↦ ((f mes handle idx w).1, rw (z, fire))
    | inr n ↦ (
      e (some mes) handle idx (f mes handle idx w).0 (f mes handle idx w).1,
      ground (arith, n, q),
    )
  ]

  run_nodes-total :
      (ns : List (Node W)) (handle idx : ℕ) (w : W)
      → All (λ (n : Node W). (e : ErrorHandler W) × (n.callbacks.error_handler ≡ some e)) ns
      → (w' : W) × (run_nodes plat ns mes handle idx w ≡ some w')
  unfolding run_nodes run_node
  run_nodes-total [] handle idx w a = (w, refl)
  run_nodes-total (n ∷ ns) handle idx w ((e, q), a) =
      let err = n.callbacks.error_handler in
      let (w₁, p₁) = fire-total n.callbacks.start_handler err e handle idx w q in
      let (w₂, p₂) = fire-total n.callbacks.exec_handler err e handle idx w₁ q in
      let (w₃, p₃) = fire-total n.callbacks.stop_handler err e handle idx w₂ q in
      let (w', p) = run_nodes-total ns handle (suc idx) w₃ a in (w', ground (arith, p₁, p₂, p₃, p))

  evaluate_node-total :
      (n : Node W) (handle : ℕ) (rc : ℤ) (w : W)
      → IsReadable (some n.filters)
      → (r : ℕ × ℤ × W) × (evaluate_node plat n mes handle rc w ≡ some r)
  unfolding evaluate_node
  evaluate_node-total n handle rc w h = elim (Option-cases n.callbacks.evaluate_handler) [
    | inl e ↦
        let ((rc', m), run, _) = evaluate_total (some n.filters) (some (word_of plat mes w)) h in
        ((m, rc', w), rw (e, run, evaluate_node))
    | inr (f, e) ↦ let (b, w₁) = f mes handle 0 w in ((truth b, rc, w₁), rw (e, evaluate_node))
  ]

  -- The clock shows a time that an `int64_t` holds.
  abbrev pub IsBounded : Type 0
  IsBounded = (w : W) → (plat.uptime w).0 < int64_max

  decide-total :
      (cfg : Config) (c : Cache) (n : Node W) (handle : ℕ) (rc : ℤ) (w : W)
      → IsBounded
      → 0 < cfg.cache_depth
      → IsTimed cfg.cache_depth c
      → IsReadable (some n.filters)
      → (m : ℕ) × (rc' : ℤ) × (c' : Cache) × (w' : W) × (decide plat cfg c n mes handle rc w
          ≡ some (m, rc', c', w'))
        × IsTimed cfg.cache_depth c'
  unfolding decide
  decide-total cfg c n handle rc w clock deep t h =
      let ((m, rc', w₁), run) = evaluate_node-total n handle rc w h in
      let m' = (confirm plat n mes handle m w₁).0 in
      let w₂ = (confirm plat n mes handle m w₁).1 in
      let check = Cache.check c (word_of plat mes w) handle (plat.uptime w).0 in
      let t' =
        check-IsTimed cfg.cache_depth c (word_of plat mes w) handle (plat.uptime w).0 (clock w) t in
      let (c₂, stored, t₂) =
        add-IsTimed cfg.cache_depth check.2 (word_of plat mes w₂) handle m' (plat.uptime w₂).0
          (clock w₂) deep t' in
      elim (Bool-cases cfg.filter_cache) [
        | inl on ↦ elim (Bool-cases (check.0 == 0)) [
          | inl miss ↦ (m', rc', c₂, (plat.uptime w₂).1, ground (arith, on, miss, run, stored), t₂)
          | inr hit ↦ (check.1, rc, check.2, (plat.uptime w).1, ground (arith, on, hit), t')
        ]
        | inr off ↦ (m', rc', c, w₂, ground (arith, off, run), t)
      ]

  -- The records of the handles hold chains that are safe.
  abbrev pub AllSafe : List (NodeRecord W) → List ℕ → Type 0
  AllSafe nodes = All (λ h.
      (r : NodeRecord W) × (c : Chain W) × (get_elem? nodes h ≡ some r)
      × (r.node ≡ some c)
      × IsSafe c)

  process_record-total :
      (cfg : Config) (h n : ℕ) (rc : ℤ) (m : Manager W) (w : W)
      → IsBounded
      → 0 < cfg.cache_depth
      → IsTimed cfg.cache_depth m.cache
      → (r : NodeRecord W) (c : Chain W) → get_elem? m.nodes h ≡ some r
      → r.node ≡ some c
      → IsSafe c
      → (n' : ℕ) × (rc' : ℤ) × (m' : Manager W) × (w' : W) × (process_record plat cfg h mes
            (n, rc, m, w)
          ≡ some (n', rc', m', w'))
        × IsTimed cfg.cache_depth m'.cache
  unfolding process_record run_record
  process_record-total cfg h n rc m w clock deep t r c at node safe =
      let (match, rc', cache, w₁, run, t') =
        decide-total cfg m.cache c.first r.handle rc w clock deep t safe.filters in
      let (w₂, ran) = run_nodes-total (nodes_of c) r.handle 0 w₁ safe.errors in
      let m' = lock (unlock (record m { cache = cache })) in
      elim (Bool-cases r.enabled) [
        | inl on ↦ elim (Bool-cases (match == 0)) [
          | inl none_matched ↦ (n, rc', m', w₁, ground (arith, at, on, node, run, none_matched), t')
          | inr matched ↦ (
            n + 1,
            rc',
            m',
            notify r.sub_callbacks mes r.handle w₂,
            ground (arith, at, on, node, run, matched, ran),
            t',
          )
        ]
        | inr off ↦ (n, rc, m, w, ground (arith, at, off), t)
      ]

  process_nodes-total :
      (cfg : Config) (l : List ℕ) (n : ℕ) (rc : ℤ) (m : Manager W) (w : W)
      → IsBounded
      → 0 < cfg.cache_depth
      → IsTimed cfg.cache_depth m.cache
      → 0 < m.reg_access
      → AllSafe m.nodes l
      → (st : ℕ × ℤ × Manager W × W) × (process_nodes plat cfg l mes (n, rc, m, w) ≡ some st)
        × IsTimed cfg.cache_depth st.2.cache
  unfolding process_nodes
  process_nodes-total cfg [] n rc m w clock deep t held a = ((n, rc, m, w), refl, t)
  process_nodes-total cfg (h ∷ hs) n rc m w clock deep t held ((r, c, at, node, safe), a) =
      let (n₁, rc₁, m₁, w₁, run, t₁) =
        process_record-total cfg h n rc m w clock deep t r c at node safe in
      let k = process_record-Kept plat cfg mes h n n₁ rc rc₁ m m₁ w w₁ held run in
      let (st, rest, t') =
        process_nodes-total cfg hs n₁ rc₁ m₁ w₁ clock deep t₁ (omega (arith, k.reg_access))
          (rw k.nodes a) in
      (st, rw (run, process_nodes) rest, t')

  -- The call ends, and the times of the cache stay below the largest `int64_t`.
  process-IsTimed :
      (sizeof_mes : ℕ) (cfg : Config) (free : Bool) (s : System W)
      → IsBounded
      → 0 < cfg.cache_depth
      → IsTimed cfg.cache_depth s.pm.cache
      → AllSafe s.pm.nodes s.pm.slist
      → (free ≡ false) ⊎ (s.pool.alloc_mtx ≡ 0)
      → (r : ℤ × ℕ × System W) × (process plat sizeof_mes cfg mes free s ≡ some r)
        × IsTimed cfg.cache_depth r.2.pm.cache
  unfolding process initialize_workqueue
  process-IsTimed sizeof_mes cfg free s clock deep t a unlocked =
      let m : Manager W = lock (initialize_workqueue s.pm) in
      let ((n, rc, m₁, w), run, t') =
        process_nodes-total cfg m.slist 0 ok m s.world clock deep t (omega arith) a in
      let ((p, w'), back) = give_back-total plat cfg mes sizeof_mes free s.pool w unlocked in
      (
        (rc, n, record { pm = unlock m₁; pool = p; world = w' }),
        process-ends plat cfg mes sizeof_mes free s n rc m₁ w w' p run back,
        t',
      )

  -- So does the handler of the work queue.
  pub poll_handler-IsTimed :
      (sizeof_mes : ℕ) (cfg : Config) (s : System W)
      → IsBounded
      → 0 < cfg.cache_depth
      → IsTimed cfg.cache_depth s.pm.cache
      → AllSafe s.pm.nodes s.pm.slist
      → (plat.free_after_use mes s.world ≡ false) ⊎ (s.pool.alloc_mtx ≡ 0)
      → (s' : System W) × (poll_handler plat sizeof_mes cfg mes s ≡ some s')
        × IsTimed cfg.cache_depth s'.pm.cache
  unfolding poll_handler
  poll_handler-IsTimed sizeof_mes cfg s clock deep t a unlocked =
      let (r, run, t') =
        process-IsTimed sizeof_mes cfg (plat.free_after_use mes s.world) s clock deep t a
          unlocked in
      (r.2, rw run refl, t')

  -- If the handles in the list have chains with error handlers and readable filters, with a cache of
  -- at least one record, its times and the clock below the largest `int64_t`, `step_pm_process` ends
  -- without a fault, whatever the handlers do to the memory and whichever of them fail, unless it is
  -- asked to free the measurement while the mutex of the sample pool is held.
  pub process-total :
      (sizeof_mes : ℕ) (cfg : Config) (free : Bool) (s : System W)
      → IsBounded
      → 0 < cfg.cache_depth
      → IsTimed cfg.cache_depth s.pm.cache
      → AllSafe s.pm.nodes s.pm.slist
      → (free ≡ false) ⊎ (s.pool.alloc_mtx ≡ 0)
      → (r : ℤ × ℕ × System W) × (process plat sizeof_mes cfg mes free s ≡ some r)
  process-total sizeof_mes cfg free s clock deep t a unlocked =
      let (r, run, _) = process-IsTimed sizeof_mes cfg free s clock deep t a unlocked in (r, run)
