-- ===== src/ProcMgr/Registry.antt =====
-- The invariant of the node registry of src/proc_mgr.c, and what `step_pm_register` does.
use step.Common.{
  ℕ, ◌+◌, ◌<◌, ◌≤◌, ◌≡◌, refl, sym, ◌∙◌, Bool, none, some, List, [], length, length-set,
  length-replicate, get_elem?, get_elem?-below, get_elem?-set_self, get_elem?-set_ne, set, ℤ, ok,
  All, arith,
}
use native.Mathlib.Decide.{ℕ_discrete}
use step.Cache.{Cache}
use step.Platform.{Slist}
use step.Node.{Chain, nodes_of}
use step.ProcMgr.{
  NodeRecord, Config, Manager, System, zero_record, lock, unlock, initialize_workqueue, clear,
}
use step.ProcMgr.Register.{priority_of, find_slot, insert_node, init_nodes, new_record, register}
use step.ProcMgr.Order.{
  Sorted, insert_by, Sorted-Apart, insert_by-Sorted, All-insert_by, All-map, find_slot-insert_by,
  In, In-insert_by_self, In-insert_by, Sorted-cong,
}

module _ {W : Type 0} where
  -- The priority of a record, 0 outside the array.
  unfoldable pub pri_at : List (NodeRecord W) → ℕ → ℕ
  pri_at nodes h = elim (get_elem? nodes h) [ none ↦ 0 | some r ↦ r.priority ]

  -- A registered record: it holds its handle and a node.
  abbrev pub IsFilled : List (NodeRecord W) → ℕ → Type 0
  IsFilled nodes h =
      (r : NodeRecord W) × (c : Chain W) × (get_elem? nodes h ≡ some r)
      × (r.handle ≡ h)
      × (r.node ≡ some c)

  -- The handles below the counter are those in use: each has its record, and the list holds them
  -- and no other, highest priority first and in the order of registration within a priority.
  pub record IsRegistry (cfg : Config) (m : Manager W) : Type 0 where
    pub sized : length m.nodes ≡ cfg.node_limit
    pub counted : m.handle_counter ≤ cfg.node_limit
    pub filled : (h : ℕ) → h < m.handle_counter → IsFilled m.nodes h
    pub sorted : Sorted (pri_at m.nodes) m.slist
    pub known : All (λ h. h < m.handle_counter) m.slist
    pub complete : (h : ℕ) → h < m.handle_counter → In h m.slist

  -- `step_pm_clear` leaves a valid registry with an empty list, and gives the mutex back.
  clear-IsRegistry :
      (cfg : Config) (m : Manager W)
      → IsRegistry cfg (clear cfg m)
        × ((clear cfg m).slist ≡ [])
        × ((clear cfg m).reg_access ≡ m.reg_access)
  unfolding clear initialize_workqueue
  clear-IsRegistry cfg m = (
    record {
      sized = length-replicate cfg.node_limit zero_record;
      counted = omega arith;
      filled = λ h l. absurd (omega arith);
      sorted = tt;
      known = tt;
      complete = λ h l. absurd (omega arith);
    },
    refl,
    omega arith,
  )

  module _ (nodes : List (NodeRecord W)) (h : ℕ) (r : NodeRecord W) where
    pri_at-set_self : h < length nodes → pri_at (set nodes h r) h ≡ r.priority
    unfolding pri_at
    pri_at-set_self l = rw (get_elem?-set_self nodes h r l, pri_at)

    pri_at-set_ne : (x : ℕ) → x < h → pri_at nodes x ≡ pri_at (set nodes h r) x
    unfolding pri_at
    pri_at-set_ne x l = rw (get_elem?-set_ne nodes h x r (omega arith), pri_at)

    priority_of-set :
        (x : ℕ)
        → x < h
        → IsFilled nodes x
        → priority_of (set nodes h r) x ≡ some (pri_at (set nodes h r) x)
    unfolding pri_at priority_of
    priority_of-set x l (r', c, at, _, _) =
        rw (get_elem?-set_ne nodes h x r (omega arith), at, pri_at, priority_of)

    IsFilled-set : (x : ℕ) → x < h → IsFilled nodes x → IsFilled (set nodes h r) x
    IsFilled-set x l (r', c, at, e, n) =
        (r', c, get_elem?-set_ne nodes h x r (omega arith) ∙ at, e, n)

  -- A valid registry with one record more in the array, inserted in the list: the list so far is
  -- sorted by the priorities of the new array, which are those of the records.
  grown-Sorted :
      {cfg : Config} {m : Manager W} (chain : Chain W) (pri : ℕ)
      → IsRegistry cfg m
      → m.handle_counter < cfg.node_limit
      → let nodes = set m.nodes m.handle_counter (new_record (some chain) pri m.handle_counter) in
        Sorted (pri_at nodes) m.slist
        × All (λ x. priority_of nodes x ≡ some (pri_at nodes x)) m.slist
        × (pri_at nodes m.handle_counter ≡ pri)
  grown-Sorted {cfg} {m} chain pri v room =
      let r = new_record (some chain) pri m.handle_counter in
      (
        Sorted-cong _ _ m.slist
            (All-map _ _ m.slist (pri_at-set_ne m.nodes m.handle_counter r) v.known) v.sorted,
        All-map _ _ m.slist (λ x l. priority_of-set m.nodes m.handle_counter r x l (v.filled x l))
            v.known,
        pri_at-set_self m.nodes m.handle_counter r (omega (arith, v.sized)),
      )

  grown-IsRegistry :
      {cfg : Config} {m : Manager W} (chain : Chain W) (pri : ℕ)
      → IsRegistry cfg m
      → m.handle_counter < cfg.node_limit
      → let nodes = set m.nodes m.handle_counter (new_record (some chain) pri m.handle_counter) in
        IsRegistry cfg (record m {
          nodes = nodes;
          handle_counter = m.handle_counter + 1;
          slist = insert_by (pri_at nodes) m.handle_counter m.slist;
        })
  grown-IsRegistry {cfg} {m} chain pri v room =
      let r = new_record (some chain) pri m.handle_counter in
      let (sorted', _, _) = grown-Sorted chain pri v room in
      record {
        sized = length-set m.nodes m.handle_counter r ∙ v.sized;
        counted = omega arith;
        filled = λ x l. elim (ℕ_discrete x m.handle_counter) [
          | yes e ↦ (
            r,
            chain,
            rw e (get_elem?-set_self m.nodes m.handle_counter r (omega (arith, v.sized))),
            sym e,
            refl,
          )
          | no n ↦
              let l' : x < m.handle_counter = omega arith in
              IsFilled-set m.nodes m.handle_counter r x l' (v.filled x l')
        ];
        sorted = insert_by-Sorted (pri_at _) m.handle_counter m.slist sorted' v.known;
        known =
            All-insert_by (λ x. x < m.handle_counter + 1) (pri_at _) m.handle_counter m.slist
              (omega arith)
              (All-map (λ x. x < m.handle_counter) (λ x. x < m.handle_counter + 1) m.slist
                (λ x l. omega arith) v.known);
        complete = λ x l. elim (ℕ_discrete x m.handle_counter) [
          | yes e ↦ rw e (In-insert_by_self (pri_at _) m.handle_counter m.slist)
          | no n ↦ In-insert_by (pri_at _) m.handle_counter x m.slist (v.complete x (omega arith))
        ];
      }

  -- The invariant reads three fields.
  pub relabel :
      {cfg : Config} {m : Manager W}
      → IsRegistry cfg m
      → (b : Bool) (n : ℕ) (c : Cache) (k : ℕ)
      → IsRegistry cfg
          (record m { wqueue_started = b; wqueue_starts = n; cache = c; reg_access = k })
  relabel v b n c k = record {
    sized = v.sized;
    counted = v.counted;
    filled = v.filled;
    sorted = v.sorted;
    known = v.known;
    complete = v.complete;
  }

  -- While there is room, a chain that is registered on a valid registry gets the next handle, whatever
  -- its init handlers return, as long as they do not run into a fault. The registry stays
  -- valid, so the list is again sorted by priority and by age within a priority; the new handle
  -- stands in it before the first record of a lower priority. The other records keep their place
  -- in the array, the mutex is given back, and the return code is that of the init handlers.
  pub register-IsRegistry :
      (sl : Slist ℕ) (cfg : Config) (chain : Chain W) (pri : ℕ) (s : System W) (rc : ℤ) (w : W)
      → IsRegistry cfg s.pm
      → s.pm.handle_counter < cfg.node_limit
      → init_nodes (nodes_of chain) s.pm.handle_counter 0 ok s.world ≡ some (rc, w)
      → (s' : System W) × (register sl cfg (some chain) pri s ≡ some (rc, s.pm.handle_counter, s'))
        × IsRegistry cfg s'.pm
        × (s'.pm.nodes
            ≡ set s.pm.nodes s.pm.handle_counter (new_record (some chain) pri s.pm.handle_counter))
        × (s'.pm.slist ≡ insert_by (pri_at s'.pm.nodes) s.pm.handle_counter s.pm.slist)
        × (s'.pm.reg_access ≡ s.pm.reg_access)
        × (s'.world ≡ w)
  unfolding register initialize_workqueue
  register-IsRegistry sl cfg chain pri s rc w v room inits =
      let (sorted', priorities, new) = grown-Sorted chain pri v room in
      let (slot, found, made) =
        find_slot-insert_by sl nodes' (pri_at nodes') h m.slist
          (Sorted-Apart (pri_at nodes') m.slist sorted') priorities in
      let found' : find_slot nodes' pri none m.slist ≡ some slot = rw new at found in
      (
        record s { pm = pm' (insert_node sl h slot m.slist); world = w },
        ground (arith, get_elem?-below m.nodes h (omega (arith, v.sized)), found', inits),
        rw made (relabel (grown-IsRegistry chain pri v room) _ _ _ _),
        refl,
        made,
        omega arith,
        refl,
      )
    where
      m : Manager W
      m = s.pm

      h : ℕ
      h = m.handle_counter

      nodes' : List (NodeRecord W)
      nodes' = set m.nodes h (new_record (some chain) pri h)

      pm' : List ℕ → Manager W
      pm' l =
          let m₁ = lock (initialize_workqueue m) in
          unlock (record m₁ { handle_counter = h + 1; nodes = nodes'; slist = l })
