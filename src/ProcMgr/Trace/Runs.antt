-- ===== src/ProcMgr/Trace/Runs.antt =====
-- The handler calls of a whole call of `step_pm_process` of src/proc_mgr.c.
use mathlib.Core.Option
use mathlib.Core.List.{append_assoc, append-nil}
use step.Common.{
  ℕ, ◌+◌, get_elem?, ◌<◌, ◌≡◌, refl, sym, ap, ◌∙◌, ◌∷◌, [], ◌++◌, List, Option, none, some, ℤ, ok,
  Bool, true, false, Option-cases, Bool-cases, ◌==◌, subst, inl, inr, length, All, arith,
}
use step.Platform.{Platform}
use step.SamplePool
use step.SamplePool.{Pool, wait_lock}
use step.ProcMgr.{NodeRecord, Config, Manager, System, lock, initialize_workqueue}
use step.ProcMgr.Process.{process_record, process_nodes, give_back, process}
use step.ProcMgr.Release.{process-free, process-ends}
use step.ProcMgr.Order.{Before, Sorted}
use step.ProcMgr.Registry.{IsRegistry, pri_at}
use step.ProcMgr.Visit.{process_record-Kept, process_nodes-skip}
use step.ProcMgr.Trace.{Event, Traced, traced_manager, traced_platform, record_calls}
use step.ProcMgr.Trace.Visits.{
  View, Picks, done, skips, passes, runs, calls_of, traced_state, process_record-traced,
}

module _ {W : Type 0} (plat : Platform W) (cfg : Config) (mes : ℕ) where
  -- What the decisions depend on and change: the return code, the cache and the memory.
  abbrev view : ℕ × ℤ × Manager W × W → View plat cfg mes
  view (n, rc, m, w) = (rc, m.cache, w)

  -- What the loop over a list of handles does.
  abbrev Loop :
      List (NodeRecord W)
      → List ℕ
      → ℕ × ℤ × Manager W × W
      → ℕ × ℤ × Manager W × W
      → List Event
      → Type 0
  Loop nodes hs st st' l =
      (sel : List ℕ) × Picks plat cfg mes nodes hs (view st) sel (view st')
      × (st'.0 ≡ st.0 + length sel)
      × (process_nodes (traced_platform plat) cfg hs mes (traced_state plat cfg mes l st)
          ≡ some (traced_state plat cfg mes (l ++ calls_of nodes sel) st'))

  process_nodes-traced :
      (nodes : List (NodeRecord W)) (hs : List ℕ) (n n' : ℕ) (rc rc' : ℤ) (m m' : Manager W)
      (w w' : W) (l : List Event)
      → m.nodes ≡ nodes
      → 0 < m.reg_access
      → process_nodes plat cfg hs mes (n, rc, m, w) ≡ some (n', rc', m', w')
      → Loop nodes hs (n, rc, m, w) (n', rc', m', w') l
  unfolding process_nodes calls_of
  process_nodes-traced nodes [] n n' rc rc' m m' w w' l same held e = (
    [],
    subst
        (λ (o : Option (ℕ × ℤ × Manager W × W)). elim o [
          | none ↦ Unit
          | some st ↦ Picks plat cfg mes nodes [] (rc, m.cache, w) [] (view st)
        ])
        e done,
    ground (arith, e),
    rw append-nil (ap (Option.map (traced_state plat cfg mes l)) e),
  )
  process_nodes-traced nodes (h ∷ hs) n n' rc rc' m m' w w' l same held e =
      elim (Option-cases (process_record plat cfg h mes (n, rc, m, w))) [
        | inl f ↦ absurd (ground (arith, f))
        | inr ((n₁, rc₁, m₁, w₁), q) ↦
            let k = process_record-Kept plat cfg mes h n n₁ rc rc₁ m m₁ w w₁ held q in
            let e' =
              sym (process_nodes-skip plat cfg mes h hs (n, rc, m, w) (n₁, rc₁, m₁, w₁) q) ∙ e in
            let skip =
              process_nodes-skip (traced_platform plat) cfg mes h hs
                (n, rc, traced_manager m, (w, l)) in
            let rest = λ (l' : List Event).
              process_nodes-traced nodes hs n₁ n' rc₁ rc' m₁ m' w₁ w' l' (k.nodes ∙ same)
                (omega (arith, k.reg_access)) e' in
            let (r, at, round) = process_record-traced plat cfg mes h n n₁ rc rc₁ m m₁ w w₁ l q in
            elim round [
              | inl (step, count, why) ↦
                  let (sel, picks, total, after) = rest l in
                  let at' : get_elem? nodes h ≡ some r = rw (← same) at in
                  (
                    sel,
                    elim why [
                      | inl (off, still) ↦ skips h r at' off (rw still picks)
                      | inr (on, why') ↦ passes h r at' on why' picks
                    ],
                    omega arith,
                    skip _ step ∙ after,
                  )
              | inr (step, count, on, (v, w₂, nz, why, ran)) ↦
                  let (sel, picks, total, after) = rest (l ++ record_calls nodes h) in
                  (
                    h ∷ sel,
                    runs h v r (rw (← same) at) on nz why ran picks,
                    omega arith,
                    skip (traced_state plat cfg mes (l ++ record_calls nodes h) (n₁, rc₁, m₁, w₁))
                          (rw (← same) step)
                        ∙ rw (← append_assoc) after,
                  )
            ]
      ]

  -- What is picked from a list in order is in order.
  Picks-All {κ} :
      (P : ℕ → Type κ) {nodes : List (NodeRecord W)} {hs sel : List ℕ} {x y : View plat cfg mes}
      → Picks plat cfg mes nodes hs x sel y
      → All P hs
      → All P sel
  Picks-All P done a = tt
  Picks-All P (skips h r at off p) a = Picks-All P p a.1
  Picks-All P (passes h r at on why p) a = Picks-All P p a.1
  Picks-All P (runs h v r at on nz why ran p) a = (a.0, Picks-All P p a.1)

  Picks-Sorted :
      (pri : ℕ → ℕ) {nodes : List (NodeRecord W)} {hs sel : List ℕ} {x y : View plat cfg mes}
      → Picks plat cfg mes nodes hs x sel y
      → Sorted pri hs
      → Sorted pri sel
  Picks-Sorted pri done s = tt
  Picks-Sorted pri (skips h r at off p) s = Picks-Sorted pri p s.1
  Picks-Sorted pri (passes h r at on why p) s = Picks-Sorted pri p s.1
  Picks-Sorted pri (runs h v r at on nz why ran p) s =
      (Picks-All (Before pri h) p s.0, Picks-Sorted pri p s.1)

  abbrev pub traced_system : List Event → System W → System (Traced W)
  traced_system l s = record { pm = traced_manager s.pm; pool = s.pool; world = (s.world, l) }

  give_back-traced :
      (sizeof_mes : ℕ) (free : Bool) (p p' : Pool) (w w' : W) (l : List Event)
      → give_back plat sizeof_mes mes free (p, w) ≡ some (p', w')
      → give_back (traced_platform plat) sizeof_mes mes free (p, (w, l)) ≡ some (p', (w', l))
  unfolding give_back SamplePool.free wait_lock
  give_back-traced sizeof_mes false p p' w w' l e =
      ap (Option.map (λ ((p₁, w₁) : Pool × W). (p₁, (w₁, l)))) e
  give_back-traced sizeof_mes true p p' w w' l e = elim (Bool-cases (p.alloc_mtx == 0)) [
    | inl z ↦ ground (arith, e, z)
    | inr nz ↦ absurd (ground (arith, e, nz))
  ]

  -- If a call of `step_pm_process` on a valid registry ends, then there is a selection of the list of
  -- the registry, highest priority first and in the order of registration within a priority. Along
  -- the list, each step starts with the return code, the cache and the memory that the one before
  -- has left: a disabled node is left out and changes nothing, an enabled one is left out if it is
  -- decided 0 in this state, and taken and run in it if it is decided otherwise. Without the cache the
  -- node decides, by its evaluation and its matched handler; with it a hit decides as it is stored,
  -- and after a miss the node decides and its decision is added. What the last step leaves is what the
  -- call returns and leaves, but for the release of the measurement. The number of matches is the
  -- number of handles taken, and with every handler wrapped to record its calls the run ends in the
  -- same state and records, for the handles taken and no other, one record after the other: for each
  -- node of the chain in turn its start, exec and stop handlers, and then the subscribers of the
  -- record in turn.
  pub process-calls :
      (sizeof_mes : ℕ) (free : Bool) (s s' : System W) (rc : ℤ) (n : ℕ) (l : List Event)
      → IsRegistry cfg s.pm
      → process plat sizeof_mes cfg mes free s ≡ some (rc, n, s')
      → (sel : List ℕ) × (w : W) × Picks plat cfg mes s.pm.nodes s.pm.slist
          (ok, s.pm.cache, s.world)
          sel
          (rc, s'.pm.cache, w)
        × (give_back plat sizeof_mes mes free (s.pool, w) ≡ some (s'.pool, s'.world))
        × Sorted (pri_at s.pm.nodes) sel
        × (n ≡ length sel)
        × (process (traced_platform plat) sizeof_mes cfg mes free (traced_system l s)
            ≡ some (rc, n, traced_system (l ++ calls_of s.pm.nodes sel) s'))
  unfolding initialize_workqueue
  process-calls sizeof_mes free s s' rc n l reg e =
      let m : Manager W = lock (initialize_workqueue s.pm) in
      let (m₁, w₁, q, at, back) = process-free plat cfg mes sizeof_mes free s s' rc n e in
      let (sel, picks, total, same) =
        process_nodes-traced s.pm.nodes m.slist 0 n ok rc m m₁ s.world w₁ l refl (omega arith) q in
      let l' = l ++ calls_of s.pm.nodes sel in
      (
        sel,
        w₁,
        subst
            (λ (pm : Manager W).
              Picks plat cfg mes s.pm.nodes s.pm.slist (ok, s.pm.cache, s.world) sel
                (rc, pm.cache, w₁))
            (sym at) picks,
        back,
        Picks-Sorted (pri_at s.pm.nodes) picks reg.sorted,
        omega (arith, total),
        process-ends (traced_platform plat) cfg mes sizeof_mes free (traced_system l s) n rc
              (traced_manager m₁) (w₁, l') (s'.world, l') s'.pool same
              (give_back-traced sizeof_mes free s.pool s'.pool w₁ s'.world l' back)
            ∙ ap (λ (pm : Manager W). some (rc, n, traced_system l' (record s' { pm = pm })))
                (sym at),
      )
