-- ===== src/ProcMgr/Timed/Counting.antt =====
-- What CONFIG_STEP_INSTRUMENTATION adds to `step_pm_process` of src/proc_mgr.c.
use step.Common.{
  ℕ, ◌<◌, ◌≡◌, ◌≢◌, refl, sym, ap, ◌∙◌, ◌==◌, ==_iff, if◌then◌else◌, true, false, none, some, List,
  [], ◌∷◌, length, get_elem?, get_elem?-below, below-get_elem?, get_elem?-set_self,
  get_elem?-set_ne, length-set, set, ℤ, Bool-cases, Option-cases, inl, inr, arith,
}
use step.Platform.{Platform}
use step.SamplePool.{add32}
use step.Instrumentation.{elapsed}
use step.ProcMgr.{NodeRecord, Config, Manager}
use step.ProcMgr.Process.{process_record, process_nodes}
use step.ProcMgr.Visit.{
  process_record-Kept, process_record-disabled, process_nodes-skip, enabled_of,
}
use step.ProcMgr.Timed.{Timing, Clock, timed_record, timed_nodes}

-- The runs counted for a handle.
unfoldable pub runs_at : List Timing → ℕ → ℕ
runs_at ts h = elim (get_elem? ts h) [ none ↦ 0 | some x ↦ x.runs ]

-- A count after one more run for each time that the handle is in the list.
abbrev pub counted : ℕ → List ℕ → ℕ → ℕ
counted k [] x = x
counted k (h ∷ hs) x = counted k hs (if h == k then add32 x 1 else x)

runs_at-set :
    (ts : List Timing) (h k : ℕ) (x y : Timing)
    → get_elem? ts h ≡ some x
    → y.runs ≡ add32 x.runs 1
    → runs_at (set ts h y) k ≡ (if h == k then add32 (runs_at ts k) 1 else runs_at ts k)
unfolding runs_at
runs_at-set ts h k x y at e = elim (Bool-cases (h == k)) [
  | inl same ↦
      let q = (==_iff h k).0 same in
      rw (same, ← q, at, get_elem?-set_self ts h y (below-get_elem? ts h x at), runs_at) e
  | inr differs ↦ rw (differs, get_elem?-set_ne ts h k y (λ q. ground (arith, differs, q)), runs_at)
]

module _ {W : Type 0} (plat : Platform W) (clock : Clock W) (cfg : Config) (mes : ℕ)
    (still : (w : W) → (clock.cycle_get w).1 ≡ w) where
  -- The array counts one more run of each handle of `ran`.
  abbrev pub Counts : List Timing → List ℕ → List Timing → Type 0
  Counts ts ran ts' =
      (length ts' ≡ length ts) × ((k : ℕ) → runs_at ts' k ≡ counted k ran (runs_at ts k))

  timed_record-runs :
      (h : ℕ) (st st' : ℕ × ℤ × Manager W × W) (ts : List Timing) (r : NodeRecord W)
      → length st.2.nodes ≡ length ts
      → get_elem? st.2.nodes h ≡ some r
      → r.enabled ≡ true
      → process_record plat cfg h mes st ≡ some st'
      → (ts' : List Timing) × (timed_record plat clock cfg h mes (st, ts) ≡ some (st', ts'))
        × Counts ts (h ∷ []) ts'
  unfolding timed_record
  timed_record-runs h (n, rc, m, w) (n', rc', m', w') ts r sized at on e =
      let (x, there) =
        get_elem?-below ts h (omega (arith, below-get_elem? m.nodes h r at, sized)) in
      let instr = clock.cyc_to_ns (elapsed (clock.cycle_get w).0 (clock.cycle_get w').0) in
      let y : Timing = record { runtime_ns = add32 x.runtime_ns instr; runs = add32 x.runs 1 } in
      (
        set ts h y,
        rw (at, on, still w, e, there, still w', timed_record),
        (length-set ts h y, λ k. runs_at-set ts h k x y there refl),
      )

  timed_record-disabled :
      (h : ℕ) (st : ℕ × ℤ × Manager W × W) (ts : List Timing) (r : NodeRecord W)
      → get_elem? st.2.nodes h ≡ some r
      → r.enabled ≡ false
      → timed_record plat clock cfg h mes (st, ts) ≡ some (st, ts)
  unfolding timed_record
  timed_record-disabled h st ts r at off = rw (at, off, timed_record)

  -- A handle outside the array is a fault.
  missing :
      (h : ℕ) (st st' : ℕ × ℤ × Manager W × W)
      → get_elem? st.2.nodes h ≡ none
      → process_record plat cfg h mes st ≢ some st'
  unfolding process_record
  missing h (n, rc, m, w) st' out e = ground (arith, out, e)

  -- The instrumented loop ends as the loop does, and counts a run of each enabled record.
  pub timed_nodes-runs :
      (nodes : List (NodeRecord W)) (hs : List ℕ) (n n' : ℕ) (rc rc' : ℤ) (m m' : Manager W)
      (w w' : W) (ts : List Timing)
      → m.nodes ≡ nodes
      → length nodes ≡ length ts
      → 0 < m.reg_access
      → process_nodes plat cfg hs mes (n, rc, m, w) ≡ some (n', rc', m', w')
      → (ts' : List Timing) × (timed_nodes plat clock cfg hs mes ((n, rc, m, w), ts)
          ≡ some ((n', rc', m', w'), ts'))
        × Counts ts (enabled_of plat cfg mes nodes hs) ts'
  unfolding process_nodes timed_nodes enabled_of
  timed_nodes-runs nodes [] n n' rc rc' m m' w w' ts same sized held e =
      (ts, ap (λ o. elim o [ none ↦ none | some st ↦ some (st, ts) ]) e, (refl, λ k. refl))
  timed_nodes-runs nodes (h ∷ hs) n n' rc rc' m m' w w' ts same sized held e =
      elim (Option-cases (process_record plat cfg h mes (n, rc, m, w))) [
        | inl f ↦ absurd (ground (arith, f))
        | inr ((n₁, rc₁, m₁, w₁), q) ↦
            let k = process_record-Kept plat cfg mes h n n₁ rc rc₁ m m₁ w w₁ held q in
            let e' =
              sym (process_nodes-skip plat cfg mes h hs (n, rc, m, w) (n₁, rc₁, m₁, w₁) q) ∙ e in
            let rest = λ (ts₁ : List Timing) (sized₁ : length nodes ≡ length ts₁).
              timed_nodes-runs nodes hs n₁ n' rc₁ rc' m₁ m' w₁ w' ts₁ (k.nodes ∙ same) sized₁
                (omega (arith, k.reg_access)) e' in
            elim (Option-cases (get_elem? nodes h)) [
              | inl out ↦ absurd (missing h (n, rc, m, w) (n₁, rc₁, m₁, w₁) (rw same out) q)
              | inr (r, at) ↦
                  let here : get_elem? m.nodes h ≡ some r = rw same at in
                  elim (Bool-cases r.enabled) [
                    | inl on ↦
                        let (ts₁, step, (len, runs)) =
                          timed_record-runs h (n, rc, m, w) (n₁, rc₁, m₁, w₁) ts r
                            (ap length same ∙ sized) here on q in
                        let (ts', loop, (len', runs')) = rest ts₁ (sized ∙ sym len) in
                        (
                          ts',
                          rw (step, timed_nodes) loop,
                          (len' ∙ len, λ j. rw (at, on, enabled_of, ← runs j) (runs' j)),
                        )
                    | inr off ↦
                        let idle =
                          process_record-disabled plat cfg mes h r (n, rc, m, w) here off in
                        let e₀ =
                          sym
                            (process_nodes-skip plat cfg mes h hs (n, rc, m, w) (n, rc, m, w) idle)
                          ∙ e in
                        let (ts', loop, counts) =
                          timed_nodes-runs nodes hs n n' rc rc' m m' w w' ts same sized held e₀ in
                        (
                          ts',
                          rw (timed_record-disabled h (n, rc, m, w) ts r here off, timed_nodes)
                              loop,
                          rw (at, off, enabled_of) counts,
                        )
                  ]
            ]
      ]
