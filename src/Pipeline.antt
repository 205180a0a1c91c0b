-- ===== src/Pipeline.antt =====
-- The way of a measurement through the pipeline: step_sp_alloc of src/sample_pool.c, step_pm_put and
-- step_pm_poll_handler of src/proc_mgr.c, with the work queue of the kernel between them, as steps in
-- any order.
pub mod Infos
pub mod Balance
pub mod Mutex
use step.Common.{
  ℕ, ◌+◌, ◌≤◌, ◌⊎◌, ◌≡◌, ◌≢◌, Bool, true, Option, none, some, List, [], ◌∷◌, ◌++◌, All, ℤ, pos,
  negsuc, ok,
}
use step.Measurement.{Header}
use step.Platform.{Platform, SlistTail}
use step.SamplePool
use step.SamplePool.{Pool, payload_of}
use step.ProcMgr.{NodeSub, Config, System, put}
use step.ProcMgr.Process.{poll_handler}

-- An address that is none of the list.
abbrev pub Apart : ℕ → List ℕ → Type 0
Apart m = All (λ x. x ≢ m)

-- The addresses of measurements that are given with their lengths.
abbrev pub addresses : List (ℕ × ℕ) → List ℕ
addresses [] = []
addresses ((mes, sz) ∷ l) = mes ∷ addresses l

module _ {W : Type 0} (plat : Platform W) where
  -- What the pipeline relies on in a measurement that is in the queue: its length and its flag.
  abbrev pub info : ℕ → W → ℕ × Bool
  info mes w = ((plat.header mes w).srclen.len, plat.free_after_use mes w)

  abbrev pub InfosSame : List ℕ → W → W → Type 0
  InfosSame l w w' = All (λ m. info m w' ≡ info m w) l

-- The work queue: the measurements whose work items are pending, the first of which is to be
-- processed next, and the removal of the first before its handler is called. An item that is not
-- pending is appended by `k_work_submit_to_queue` unless this fails. The memory of the sample pool is
-- from `pool_start` to `pool_end`, and a measurement takes `mes_sz` bytes of it.
pub record WorkQueue (W : Type 0) (plat : Platform W) : Type 0 where
  pub pool_start : ℕ
  pub pool_end : ℕ
  pub mes_sz : ℕ
  pub pending : W → List ℕ
  pub take : W → W
  pub pending-take : (m : ℕ) (l : List ℕ) (w : W) → pending w ≡ m ∷ l → pending (take w) ≡ l
  pub pending-submit :
      (m n : ℕ) (w : W)
      → Apart m (pending w)
      → (plat.submit m w).0 ≡ pos n
      → pending (plat.submit m w).1 ≡ pending w ++ m ∷ []
  pub pending-refused :
      (m n : ℕ) (w : W) → (plat.submit m w).0 ≡ negsuc n → pending (plat.submit m w).1 ≡ pending w
  pub take-InfosSame : (l : List ℕ) (w : W) → InfosSame plat l w (take w)
  pub submit-InfosSame : (m : ℕ) (l : List ℕ) (w : W) → InfosSame plat l w (plat.submit m w).1

module _ {W : Type 0} (plat : Platform W) (queue : WorkQueue W plat) where
  -- The queue is the same, and so are the lengths and the flags of the measurements `l`.
  pub record Same (l : List ℕ) (w w' : W) : Type 0 where
    pub infos : InfosSame plat l w w'
    pub pending : queue.pending w' ≡ queue.pending w

  -- The `n` bytes at `p` lie in the memory of the pool and in none of the measurements `l`.
  abbrev pub Outside : ℕ → ℕ → List ℕ → Type 0
  Outside p n l =
      (queue.pool_start ≤ p)
      × (p + n ≤ queue.pool_end)
      × All (λ m. (p + n ≤ m) ⊎ (m + queue.mes_sz ≤ p)) l

  -- Writes to a measurement and to bytes outside of the measurements leave the other measurements and the queue alone, and
  -- so do the heap and the clock. A header is read as it was written.
  pub record Separate : Type 0 where
    pub set_header-Same :
        (m : ℕ) (h : Header) (l : List ℕ) (w : W) → Apart m l → Same l w (plat.set_header m h w)
    pub set_payload-Same :
        (m : ℕ) (p : Option ℕ) (l : List ℕ) (w : W) → Same l w (plat.set_payload m p w)
    pub zero_bytes-Same :
        (p n : ℕ) (l : List ℕ) (w : W) → Outside p n l → Same l w (plat.zero_bytes p n w)
    pub set_free_after_use-Same :
        (m : ℕ) (l : List ℕ) (w : W) → Apart m l → Same l w (plat.set_free_after_use m w)
    pub heap_alloc-Same : (n : ℕ) (l : List ℕ) (w : W) → Same l w (plat.heap_alloc n w).1
    pub heap_free-Same : (m : ℕ) (l : List ℕ) (w : W) → Apart m l → Same l w (plat.heap_free m w)
    pub uptime-Same : (l : List ℕ) (w : W) → Same l w (plat.uptime w).1
    pub header-set_header : (m : ℕ) (h : Header) (w : W) → plat.header m (plat.set_header m h w) ≡ h
    pub header-set_free_after_use :
        (m : ℕ) (w : W) → plat.header m (plat.set_free_after_use m w) ≡ plat.header m w
    pub free_after_use-set :
        (m : ℕ) (w : W) → plat.free_after_use m (plat.set_free_after_use m w) ≡ true

-- The system, with the measurements in the queue and those that step_pm_put refused, each with its
-- length, and what was submitted and what was processed, the oldest first.
pub record Progress (W : Type 0) : Type 0 where
  pub sys : System W
  pub queued : List (ℕ × ℕ)
  pub refused : List (ℕ × ℕ)
  pub submitted : List ℕ
  pub processed : List ℕ

module _ {W : Type 0} (plat : Platform W) (queue : WorkQueue W plat) (sizeof_mes : ℕ)
    (subs : SlistTail (NodeSub W)) (cfg : Config) where
  abbrev allocated : ℕ → Progress W → Option ℕ × Pool × W
  allocated sz a = SamplePool.alloc plat sizeof_mes sz (a.sys.pool, a.sys.world)

  abbrev pub Spared : ℕ → ℕ → Progress W → Type 0
  Spared sz mes a = Outside plat queue (payload_of sizeof_mes mes) sz (mes ∷ addresses a.queued)

  -- step_pm_put on a measurement that was allocated and filled.
  abbrev given : ℕ → Pool → W → Progress W → ℤ × System W
  given mes p w a = let s = a.sys in put plat subs (some mes) (record s { pool = p; world = w })

  -- The application allocates a measurement, fills it and submits it, or finds no memory. It may
  -- write to the measurement as long as this keeps its length and its flag. The work queue calls
  -- the handler of the first measurement, a step only if this ends. Anything else that keeps the queue
  -- may happen between. The zeroing of the payload, which is not in the block that was allocated, has
  -- to spare the measurements of the queue, the new one and what is not in the memory of the pool.
  pub data Step : Progress W → Progress W → Type 0 where
    publishes :
        (a : Progress W) (sz mes : ℕ) (p : Pool) (w₁ w₂ : W) (s' : System W)
        → allocated sz a ≡ (some mes, p, w₁)
        → Apart mes (addresses a.queued)
        → Spared sz mes a
        → Same plat queue (mes ∷ addresses a.queued) w₁ w₂
        → given mes p w₂ a ≡ (ok, s')
        → Step a (record a {
          sys = s';
          queued = a.queued ++ (mes, sz) ∷ [];
          submitted = a.submitted ++ mes ∷ [];
        })
    refuses :
        (a : Progress W) (sz mes n : ℕ) (p : Pool) (w₁ w₂ : W) (s' : System W)
        → allocated sz a ≡ (some mes, p, w₁)
        → Apart mes (addresses a.queued)
        → Spared sz mes a
        → Same plat queue (mes ∷ addresses a.queued) w₁ w₂
        → given mes p w₂ a ≡ (negsuc n, s')
        → Step a (record a { sys = s'; refused = (mes, sz) ∷ a.refused })
    fails :
        (a : Progress W) (sz : ℕ) (p : Pool) (w : W)
        → allocated sz a ≡ (none, p, w)
        → Step a (let s = a.sys in record a { sys = record s { pool = p; world = w } })
    processes :
        (a : Progress W) (mes sz : ℕ) (rest : List (ℕ × ℕ)) (s' : System W)
        → a.queued ≡ (mes, sz) ∷ rest
        → (let s = a.sys in
            poll_handler plat sizeof_mes cfg mes (record s { world = queue.take s.world }))
          ≡ some s'
        → Step a (record a { sys = s'; queued = rest; processed = a.processed ++ mes ∷ [] })
    works :
        (a : Progress W) (w : W)
        → Same plat queue (addresses a.queued) a.sys.world w
        → Step a (let s = a.sys in record a { sys = record s { world = w } })

  pub data Run (a : Progress W) : Progress W → Type 0 where
    start : Run a a
    then_step : {b c : Progress W} → Run a b → Step b c → Run a c

  -- Steps behind others.
  pub Run-trans : {a b c : Progress W} → Run a b → Run b c → Run a c
  Run-trans r start = r
  Run-trans r (then_step t st) = then_step (Run-trans r t) st
