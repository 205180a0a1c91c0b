-- ===== src/ProcMgr/Access.antt =====
-- The operations of src/proc_mgr.c on one handle: `step_pm_node_get`, `step_pm_disable_node`
-- and `step_pm_enable_node`.
use step.Common.{
  ℕ, zero, suc, ◌<◌, ◌≡◌, refl, Bool, none, some, ◌⊎◌, inl, inr, Option-cases, Bool-cases, ltb,
  ltb→lt, get_elem?-below, List, [], ◌∷◌, get_elem?, below-get_elem?, set, ok, arith,
}
use step.Node.{Node, Chain, nodes_of}
use step.ProcMgr.{NodeRecord, Config, Manager, initialize_workqueue, set_enabled, walk, node_get}
use step.ProcMgr.Registry.{IsRegistry}
use step.ProcMgr.Update.{Alike, IsRegistry-set, IsRegistry-cong}

module _ {W : Type 0} where
  walk-get_elem? :
      (k : ℕ) (n : Node W) (next : List (Node W)) → walk k n next ≡ get_elem? (n ∷ next) k
  unfolding walk
  walk-get_elem? zero n next = refl
  walk-get_elem? (suc k) n [] = refl
  walk-get_elem? (suc k) n (n' ∷ next) = walk-get_elem? k n' next

  -- On a valid registry the lookup of a registered handle ends without a fault, and returns the node
  -- of its chain at the index, and NULL if the chain is shorter.
  pub node_get-chain :
      (cfg : Config) (m : Manager W) (h inst : ℕ)
      → IsRegistry cfg m
      → h < m.handle_counter
      → (r : NodeRecord W) × (c : Chain W) × (get_elem? m.nodes h ≡ some r)
        × (r.node ≡ some c)
        × (node_get h inst m ≡ some (get_elem? (nodes_of c) inst, initialize_workqueue m))
  unfolding node_get initialize_workqueue
  node_get-chain cfg m h inst v l =
      let (r, c, at, _, n) = v.filled h l in
      (r, c, at, n, ground (arith, at, n, walk-get_elem? inst c.first c.next))

  -- Enabling or disabling a registered node returns 0, keeps the registry valid and its list as it
  -- is, and changes the flag of that record and nothing else of the array.
  set_enabled-IsRegistry :
      (cfg : Config) (m : Manager W) (h : ℕ) (b : Bool)
      → IsRegistry cfg m
      → h < m.handle_counter
      → (r : NodeRecord W) × (m' : Manager W) × (set_enabled h b m ≡ some (ok, m'))
        × IsRegistry cfg m'
        × (m'.slist ≡ m.slist)
        × (get_elem? m.nodes h ≡ some r)
        × (m'.nodes ≡ set m.nodes h (record r { enabled = b }))
  unfolding set_enabled initialize_workqueue
  set_enabled-IsRegistry cfg m h b v l =
      let (r, c, at, _, n) = v.filled h l in
      let r' = record r { enabled = b } in
      let m' = record (initialize_workqueue m) { nodes = set m.nodes h r' } in
      let alike : Alike r r' = record { handle = refl; node = refl; priority = refl } in
      (
        r,
        m',
        ground (arith, at),
        IsRegistry-cong cfg (record m { nodes = set m.nodes h r' }) m' refl refl refl
            (IsRegistry-set cfg m h r r' v at alike),
        refl,
        at,
        refl,
      )

  -- On a valid registry the handle that the next node will get, which no node has, is not refused:
  -- enabling or disabling it writes outside the array if there is no room left, and returns 0 if
  -- there is.
  pub set_enabled-unregistered :
      (cfg : Config) (m : Manager W) (b : Bool)
      → IsRegistry cfg m
      → ((m.handle_counter ≡ cfg.node_limit) × (set_enabled m.handle_counter b m ≡ none))
        ⊎ ((m.handle_counter < cfg.node_limit)
            × ((m' : Manager W) × (set_enabled m.handle_counter b m ≡ some (ok, m'))))
  unfolding set_enabled initialize_workqueue
  set_enabled-unregistered cfg m b v = elim (Option-cases (get_elem? m.nodes m.handle_counter)) [
    | inl out ↦ elim (Bool-cases (ltb m.handle_counter cfg.node_limit)) [
      | inl y ↦
          let (r, at) =
            get_elem?-below m.nodes m.handle_counter (omega (arith, v.sized, ltb→lt _ _ y)) in
          absurd (ground (arith, out, at))
      | inr n ↦ inl (ground (arith, v.counted), ground (arith, out))
    ]
    | inr (r, at) ↦
        let m' = record (initialize_workqueue m) {
          nodes = set m.nodes m.handle_counter (record r { enabled = b });
        } in
        inr (
          omega (arith, v.sized, below-get_elem? m.nodes m.handle_counter r at),
          (m', ground (arith, at)),
        )
  ]
