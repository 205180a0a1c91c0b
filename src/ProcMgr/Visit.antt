-- ===== src/ProcMgr/Visit.antt =====
-- What `step_pm_process` of src/proc_mgr.c leaves alone, and what it skips.
use step.Common.{
  ℕ, ◌<◌, ◌≡◌, refl, ◌∙◌, inl, inr, Bool, true, false, none, some, List, [], ◌∷◌, get_elem?, ℤ, ok,
  Bool-cases, Option-cases, arith,
}
use step.Platform.{Platform}
use step.ProcMgr.{NodeRecord, Config, Manager, System, lock, initialize_workqueue}
use step.ProcMgr.Process.{process_record, process_nodes, process}

module _ {W : Type 0} (plat : Platform W) (cfg : Config) (mes : ℕ) where
  -- The part of the manager that processing does not write.
  pub record Kept (m m' : Manager W) : Type 0 where
    pub nodes : m'.nodes ≡ m.nodes
    pub handle_counter : m'.handle_counter ≡ m.handle_counter
    pub slist : m'.slist ≡ m.slist
    pub reg_access : m'.reg_access ≡ m.reg_access

  pub process_record-Kept :
      (h n n' : ℕ) (rc rc' : ℤ) (m m' : Manager W) (w w' : W)
      → 0 < m.reg_access
      → process_record plat cfg h mes (n, rc, m, w) ≡ some (n', rc', m', w')
      → Kept m m'
  unfolding process_record
  process_record-Kept h n n' rc rc' m m' w w' held e = ground arith

  Kept-trans : {a b c : Manager W} → Kept a b → Kept b c → Kept a c
  Kept-trans p q = ground arith

  process_nodes-Kept :
      (l : List ℕ) (n n' : ℕ) (rc rc' : ℤ) (m m' : Manager W) (w w' : W)
      → 0 < m.reg_access
      → process_nodes plat cfg l mes (n, rc, m, w) ≡ some (n', rc', m', w')
      → Kept m m'
  unfolding process_nodes
  process_nodes-Kept [] n n' rc rc' m m' w w' held e = ground arith
  process_nodes-Kept (h ∷ hs) n n' rc rc' m m' w w' held e =
      elim (Option-cases (process_record plat cfg h mes (n, rc, m, w))) [
        | inl f ↦ absurd (ground (arith, f))
        | inr ((n₁, rc₁, m₁, w₁), q) ↦
            let k = process_record-Kept h n n₁ rc rc₁ m m₁ w w₁ held q in
            let e' : process_nodes plat cfg hs mes (n₁, rc₁, m₁, w₁) ≡ some (n', rc', m', w') =
              ground (arith, q) in
            Kept-trans k
              (process_nodes-Kept hs n₁ n' rc₁ rc' m₁ m' w₁ w' (omega (arith, k.reg_access)) e')
      ]

  -- A call of `step_pm_process` that ends leaves every record, the counter and the order of the
  -- registry as they were, and gives back the mutex each time that it takes it.
  pub process-Kept :
      (sizeof_mes : ℕ) (free : Bool) (s s' : System W) (rc : ℤ) (n : ℕ)
      → process plat sizeof_mes cfg mes free s ≡ some (rc, n, s')
      → Kept s.pm s'.pm
  unfolding process initialize_workqueue
  process-Kept sizeof_mes free s s' rc n e =
      let m : Manager W = lock (initialize_workqueue s.pm) in
      elim (Option-cases (process_nodes plat cfg m.slist mes (0, ok, m, s.world))) [
        | inl f ↦ absurd (ground (arith, f))
        | inr ((n₁, rc₁, m₁, w₁), q) ↦
            ground
              (arith, q, process_nodes-Kept m.slist 0 n₁ ok rc₁ m m₁ s.world w₁ (omega arith) q)
      ]

  -- The enabled records of a list of handles. A handle outside the array stays, to fault.
  unfoldable pub enabled_of : List (NodeRecord W) → List ℕ → List ℕ
  enabled_of nodes [] = []
  enabled_of nodes (h ∷ hs) = elim (get_elem? nodes h) [
    | none ↦ h ∷ enabled_of nodes hs
    | some r ↦ elim r.enabled [ true ↦ h ∷ enabled_of nodes hs | false ↦ enabled_of nodes hs ]
  ]

  -- A disabled record changes nothing.
  pub process_record-disabled :
      (h : ℕ) (r : NodeRecord W) (st : ℕ × ℤ × Manager W × W)
      → get_elem? st.2.nodes h ≡ some r
      → r.enabled ≡ false
      → process_record plat cfg h mes st ≡ some st
  unfolding process_record
  process_record-disabled h r (n, rc, m, w) at off = ground (arith, at, off)

  process_nodes-cons :
      (h : ℕ) (hs ks : List ℕ) (st : ℕ × ℤ × Manager W × W)
      → ((st' : ℕ × ℤ × Manager W × W)
          → process_record plat cfg h mes st ≡ some st'
          → process_nodes plat cfg hs mes st' ≡ process_nodes plat cfg ks mes st')
      → process_nodes plat cfg (h ∷ hs) mes st ≡ process_nodes plat cfg (h ∷ ks) mes st
  unfolding process_nodes
  process_nodes-cons h hs ks st f = elim (Option-cases (process_record plat cfg h mes st)) [
    | inl e ↦ rw (e, process_nodes)
    | inr (st', e) ↦ rw (e, process_nodes) (f st' e)
  ]

  -- A round that ends in a state leaves the rest of the loop to be run from it.
  pub process_nodes-skip :
      (h : ℕ) (hs : List ℕ) (st st' : ℕ × ℤ × Manager W × W)
      → process_record plat cfg h mes st ≡ some st'
      → process_nodes plat cfg (h ∷ hs) mes st ≡ process_nodes plat cfg hs mes st'
  unfolding process_nodes
  process_nodes-skip h hs st st' e = rw (e, process_nodes)

  -- With the mutex held, disabled nodes are skipped: the loop gives what it gives on the enabled
  -- records alone.
  pub process_nodes-enabled_of :
      (l : List ℕ) (n : ℕ) (rc : ℤ) (m : Manager W) (w : W)
      → 0 < m.reg_access
      → process_nodes plat cfg l mes (n, rc, m, w)
        ≡ process_nodes plat cfg (enabled_of m.nodes l) mes (n, rc, m, w)
  unfolding enabled_of
  process_nodes-enabled_of [] n rc m w held = refl
  process_nodes-enabled_of (h ∷ hs) n rc m w held =
      let later =
        process_nodes-cons h hs (enabled_of m.nodes hs) (n, rc, m, w)
          λ (n₁, rc₁, m₁, w₁) e.
            let k = process_record-Kept h n n₁ rc rc₁ m m₁ w w₁ held e in
            rw (← k.nodes)
              (process_nodes-enabled_of hs n₁ rc₁ m₁ w₁ (omega (arith, k.reg_access))) in
      elim (Option-cases (get_elem? m.nodes h)) [
        | inl at ↦ rw (at, enabled_of) later
        | inr (r, at) ↦ elim (Bool-cases r.enabled) [
          | inl y ↦ rw (at, y, enabled_of) later
          | inr off ↦
              rw (at, off, enabled_of)
                (process_nodes-skip h hs (n, rc, m, w) (n, rc, m, w)
                    (process_record-disabled h r (n, rc, m, w) at off)
                  ∙ process_nodes-enabled_of hs n rc m w held)
        ]
      ]
