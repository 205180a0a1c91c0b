-- ===== src/ProcMgr/Register.antt =====
-- `step_pm_register` of src/proc_mgr.c.
use step.Common.{
  ℕ, suc, ◌+◌, ◌-◌, ◌^◌, ltb, ◌==◌, if◌then◌else◌, true, false, Option, none, some, ◌>>=◌, List, [],
  ◌∷◌, get_elem?, set, ℤ, is_zero, ok, enomem,
}
use step.Platform.{Slist}
use step.Node.{Node, Chain, nodes_of}
use step.ProcMgr.{NodeRecord, Config, System, lock, unlock, initialize_workqueue}

-- The insertion of the new record.
unfoldable pub insert_node : Slist ℕ → ℕ → Option ℕ × Option ℕ → List ℕ → List ℕ
insert_node sl handle (none, some match) l = sl.prepend l handle
insert_node sl handle (some prev, some match) l = sl.insert l prev handle
insert_node sl handle (prev, none) l = sl.append l handle

module _ {W : Type 0} where
  -- The priority of a record in the list. A record outside `step_pm_nodes` is a fault.
  unfoldable pub priority_of : List (NodeRecord W) → ℕ → Option ℕ
  priority_of nodes h = elim (get_elem? nodes h) [ none ↦ none | some r ↦ some r.priority ]

  -- The search for the insertion point: `prev`, and the record `match` with a lower priority.
  unfoldable pub find_slot :
      List (NodeRecord W) → ℕ → Option ℕ → List ℕ → Option (Option ℕ × Option ℕ)
  find_slot nodes pri prev [] = some (prev, none)
  find_slot nodes pri prev (h ∷ hs) = elim (priority_of nodes h) [
    | none ↦ none
    | some p ↦ elim (ltb p pri) [
      | true ↦ some (prev, some h)
      | false ↦ find_slot nodes pri (some h) hs
    ]
  ]

  -- The node initialisation callbacks, from the node at index `idx`; `rc` is that of the last.
  unfoldable pub init_nodes : List (Node W) → ℕ → ℕ → ℤ → W → Option (ℤ × W)
  init_nodes [] handle idx rc w = some (rc, w)
  init_nodes (n ∷ ns) handle idx rc w = elim n.callbacks.init_handler [
    | none ↦ init_nodes ns handle (suc idx) rc w
    | some init ↦
        let (rc', w₁) = init n.config handle idx w in
        elim (is_zero rc') [
          | true ↦ init_nodes ns handle (suc idx) rc' w₁
          | false ↦ elim n.callbacks.error_handler [
            | none ↦ none
            | some err ↦ init_nodes ns handle (suc idx) rc' (err none handle idx rc' w₁)
          ]
        ]
  ]

  -- The record that a node is registered with.
  abbrev pub new_record : Option (Chain W) → ℕ → ℕ → NodeRecord W
  new_record node pri handle = record {
    sub_callbacks = [];
    node = node;
    handle = handle;
    priority = pri;
    enabled = true;
  }

  -- `step_pm_register`: the return code, `*handle` and the new state.
  unfoldable pub register :
      Slist ℕ → Config → Option (Chain W) → ℕ → System W → Option (ℤ × ℕ × System W)
  register sl cfg node pri s =
      let m = lock (initialize_workqueue s.pm) in
      if m.handle_counter == cfg.node_limit
      then some (enomem, 2 ^ 32 - 1, record s { pm = unlock m })
      else (do
        let handle = m.handle_counter
        _ ← get_elem? m.nodes handle
        let nodes = set m.nodes handle (new_record node pri handle)
        slot ← find_slot nodes pri none m.slist
        chain ← node
        (rc, w) ← init_nodes (nodes_of chain) handle 0 ok s.world
        let m' = record m {
          handle_counter = m.handle_counter + 1;
          nodes = nodes;
          slist = insert_node sl handle slot m.slist;
        }
        some (rc, handle, record s { pm = unlock m'; world = w }))
