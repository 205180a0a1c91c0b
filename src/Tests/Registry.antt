-- ===== src/Tests/Registry.antt =====
-- Tests of the registration of nodes.
use step.Common.{
  enomem, true, ◌+◌, ℤ, ◌⊎◌, ◌++◌, ℕ, ◌<◌, ◌≡◌, refl, none, some, [], ◌∷◌, get_elem?, set,
  replicate, ok, zero, suc, inl, arith,
}
use step.Cache
use step.ProcMgr.{NodeRecord, Manager, System, clear, set_enabled, initialize_workqueue}
use step.ProcMgr.Register.{find_slot, priority_of, insert_node, init_nodes, new_record, register}
use step.ProcMgr.Order.{In, insert_by}
use step.ProcMgr.Registry.{IsRegistry, IsFilled, pri_at, register-IsRegistry}
use step.ProcMgr.Access.{set_enabled-unregistered}
use step.ProcMgr.Subscribe.{subscribe_to_node-IsRegistry}
use step.ProcMgr.{NodeSub, subscribe_to_node}
use step.Platform.{SlistTail}
use step.Tests.Samples.{platform, World, world, slist, chain, config, manager, pool, no_cache}

-- One node, with the priority 3.
abbrev pub registered : Manager World
registered = record manager {
  cache = Cache.clear 2 no_cache;
  handle_counter = 1;
  nodes = new_record (some chain) 3 0 ∷ replicate 1 (new_record none 0 0);
  slist = 0 ∷ [];
}

abbrev pub system : System World
system = record { pm = registered; pool = pool; world = world }

pub registered-IsRegistry : IsRegistry config registered
registered-IsRegistry = record {
  sized = refl;
  counted = omega arith;
  filled = filled;
  sorted = (tt, tt);
  known = (omega arith, tt);
  complete = complete;
}
  where
    filled : (h : ℕ) → h < 1 → IsFilled registered.nodes h
    filled zero l = (new_record (some chain) 3 0, chain, refl, refl, refl)
    filled (suc h) l = absurd (omega arith)

    complete : (h : ℕ) → h < 1 → In h (0 ∷ [])
    complete zero l = inl refl
    complete (suc h) l = absurd (omega arith)

-- A second node, with a higher priority: it stands before the first.
register-IsRegistry_example :
    (s' : System World) × (register slist config (some chain) 5 system ≡ some (ok, 1, s'))
    × IsRegistry config s'.pm
    × (s'.pm.nodes ≡ set registered.nodes 1 (new_record (some chain) 5 1))
    × (s'.pm.slist ≡ insert_by (pri_at s'.pm.nodes) 1 (0 ∷ []))
    × (s'.pm.reg_access ≡ registered.reg_access)
    × (s'.world ≡ world)
unfolding init_nodes
register-IsRegistry_example =
    register-IsRegistry slist config chain 5 system ok world registered-IsRegistry (omega arith)
      refl

register_order :
    (s' : System World) × (register slist config (some chain) 5 system ≡ some (ok, 1, s'))
    × (s'.pm.slist ≡ 1 ∷ 0 ∷ [])
unfolding register find_slot priority_of insert_node init_nodes clear initialize_workqueue
register_order = (_, refl, refl)

set_enabled-unregistered_example :
    ((registered.handle_counter ≡ config.node_limit) × (set_enabled 1 true registered ≡ none))
    ⊎ ((1 < 2) × ((m' : Manager World) × (set_enabled 1 true registered ≡ some (ok, m'))))
set_enabled-unregistered_example =
    set_enabled-unregistered config registered true registered-IsRegistry

-- A subscriber that counts.
abbrev subscriber : NodeSub World
subscriber = record {
  cb = some (λ mes handle user w. record w { calls = w.calls + 1 });
  user_data = 0;
}

abbrev subscribers : SlistTail (NodeSub World)
subscribers = record { append = λ l x. l ++ x ∷ []; append_lem = λ l x. refl }

subscribe_to_node-IsRegistry_example :
    (r : NodeRecord World) × (rc : ℤ) × (s' : System World) × (get_elem? registered.nodes 0
      ≡ some r)
    × (subscribe_to_node platform subscribers 0 subscriber system ≡ some (rc, s'))
    × IsRegistry config s'.pm
    × (s'.pm.reg_access ≡ 0)
    × (((platform.callback_alloc world ≡ some s'.world)
          × (rc ≡ ok)
          × (s'.pm.nodes
              ≡ set registered.nodes 0
                  (record r { sub_callbacks = r.sub_callbacks ++ subscriber ∷ [] })))
        ⊎ ((platform.callback_alloc world ≡ none)
            × (rc ≡ enomem)
            × (s'.pm.nodes ≡ registered.nodes)))
subscribe_to_node-IsRegistry_example =
    subscribe_to_node-IsRegistry platform subscribers config 0 subscriber system
      registered-IsRegistry (omega arith)
