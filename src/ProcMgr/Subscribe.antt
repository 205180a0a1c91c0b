-- ===== src/ProcMgr/Subscribe.antt =====
-- `step_pm_subscribe_to_node` of src/proc_mgr.c.
use step.Common.{
  ℕ, ◌<◌, ◌≡◌, refl, ◌⊎◌, inl, inr, none, some, [], ◌∷◌, ◌++◌, get_elem?, set, ok, enomem,
  Option-cases, ℤ, arith,
}
use step.Platform.{Platform, SlistTail}
use step.ProcMgr.{
  NodeSub, NodeRecord, Config, System, lock, unlock, initialize_workqueue, subscribe_to_node,
}
use step.ProcMgr.Registry.{IsRegistry}
use step.ProcMgr.Update.{Alike, IsRegistry-set, IsRegistry-cong}

module _ {W : Type 0} (plat : Platform W) (subs : SlistTail (NodeSub W)) where
  -- A subscription to a registered node of a valid registry gives the mutex back. If a callback
  -- record is allocated, it returns 0, puts the callback behind those of the node, changes no other
  -- field of the array and keeps the registry valid; if none is left, it returns -ENOMEM and leaves
  -- the array as it is.
  pub subscribe_to_node-IsRegistry :
      (cfg : Config) (h : ℕ) (nc : NodeSub W) (s : System W)
      → IsRegistry cfg s.pm
      → h < s.pm.handle_counter
      → (r : NodeRecord W) × (rc : ℤ) × (s' : System W) × (get_elem? s.pm.nodes h ≡ some r)
        × (subscribe_to_node plat subs h nc s ≡ some (rc, s'))
        × IsRegistry cfg s'.pm
        × (s'.pm.reg_access ≡ s.pm.reg_access)
        × (((plat.callback_alloc s.world ≡ some s'.world)
              × (rc ≡ ok)
              × (s'.pm.nodes
                  ≡ set s.pm.nodes h (record r { sub_callbacks = r.sub_callbacks ++ nc ∷ [] })))
            ⊎ ((plat.callback_alloc s.world ≡ none) × (rc ≡ enomem) × (s'.pm.nodes ≡ s.pm.nodes)))
  unfolding subscribe_to_node initialize_workqueue
  subscribe_to_node-IsRegistry cfg h nc s v l =
      let (r, c, at, _, n) = v.filled h l in
      let m = lock (initialize_workqueue s.pm) in
      let r' = record r { sub_callbacks = subs.append r.sub_callbacks nc } in
      let alike : Alike r r' = record { handle = refl; node = refl; priority = refl } in
      elim (Option-cases (plat.callback_alloc s.world)) [
        | inl full ↦ (
          r,
          enomem,
          record s { pm = unlock m },
          at,
          ground (arith, full),
          IsRegistry-cong cfg s.pm (unlock m) refl refl refl v,
          omega arith,
          inr (full, refl, refl),
        )
        | inr (w, room) ↦
            let m' = unlock (record m { nodes = set m.nodes h r' }) in
            (
              r,
              ok,
              record s { pm = m'; world = w },
              at,
              ground (arith, room, at),
              IsRegistry-cong cfg (record s.pm { nodes = set s.pm.nodes h r' }) m' refl refl refl
                  (IsRegistry-set cfg s.pm h r r' v at alike),
              omega arith,
              inl (room, refl, rw (subs.append_lem r.sub_callbacks nc) refl),
            )
      ]
