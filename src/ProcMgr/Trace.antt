-- ===== src/ProcMgr/Trace.antt =====
-- The calls that src/proc_mgr.c makes of the handlers of the nodes and of the subscribers, recorded:
-- every handler is wrapped in one that does the same and writes down that it was called.
pub mod Calls
pub mod Cases
pub mod Decisions
pub mod Loop
pub mod Runs
pub mod Visits
use mathlib.Core.Option
use step.Common.{ℕ, suc, ◌∷◌, [], ◌++◌, List, map, Option, none, some, ℤ, Bool, get_elem?}
use step.Platform.{Platform}
use step.Node.{
  Node, Chain, Callbacks, InitHandler, NodeHandler, EvaluateHandler, ErrorHandler, nodes_of,
}
use step.ProcMgr.{NodeSub, NodeRecord, Manager}

-- A call: of a handler of the node at an index of the chain of a handle, or of a subscriber.
pub data Event : Type 0 where
  started executed stopped : ℕ → ℕ → Event
  notified : ℕ → Event

-- The memory with the calls so far.
abbrev pub Traced : Type 0 → Type 0
Traced W = W × List Event

-- The one call of a handler that is there.
abbrev pub call : {A : Type 0} → Option A → Event → List Event
call none e = []
call (some f) e = e ∷ []

module _ {W : Type 0} where
  abbrev pub traced_init : InitHandler W → InitHandler (Traced W)
  traced_init f cfg h i (w, l) = let (rc, w') = f cfg h i w in (rc, (w', l))

  abbrev pub traced_evaluate : EvaluateHandler W → EvaluateHandler (Traced W)
  traced_evaluate f mes h i (w, l) = let (b, w') = f mes h i w in (b, (w', l))

  abbrev pub traced_handler : (ℕ → ℕ → Event) → NodeHandler W → NodeHandler (Traced W)
  traced_handler ev f mes h i (w, l) = let (rc, w') = f mes h i w in (rc, (w', l ++ ev h i ∷ []))

  abbrev pub traced_error : ErrorHandler W → ErrorHandler (Traced W)
  traced_error f mes h i rc (w, l) = (f mes h i rc w, l)

  abbrev pub traced_cb : (ℕ → ℕ → ℕ → W → W) → ℕ → ℕ → ℕ → Traced W → Traced W
  traced_cb f mes h u (w, l) = (f mes h u w, l ++ notified h ∷ [])

  abbrev pub traced_callbacks : Callbacks W → Callbacks (Traced W)
  traced_callbacks c = record {
    init_handler = Option.map traced_init c.init_handler;
    evaluate_handler = Option.map traced_evaluate c.evaluate_handler;
    matched_handler = Option.map traced_evaluate c.matched_handler;
    start_handler = Option.map (traced_handler started) c.start_handler;
    exec_handler = Option.map (traced_handler executed) c.exec_handler;
    stop_handler = Option.map (traced_handler stopped) c.stop_handler;
    error_handler = Option.map traced_error c.error_handler;
  }

  abbrev pub traced_node : Node W → Node (Traced W)
  traced_node n = record {
    name = n.name;
    filters = n.filters;
    callbacks = traced_callbacks n.callbacks;
    config = n.config;
  }

  abbrev pub traced_chain : Chain W → Chain (Traced W)
  traced_chain c = record { first = traced_node c.first; next = map traced_node c.next }

  abbrev pub traced_sub : NodeSub W → NodeSub (Traced W)
  traced_sub s = record { cb = Option.map traced_cb s.cb; user_data = s.user_data }

  abbrev pub traced_record : NodeRecord W → NodeRecord (Traced W)
  traced_record r = record {
    sub_callbacks = map traced_sub r.sub_callbacks;
    node = Option.map traced_chain r.node;
    handle = r.handle;
    priority = r.priority;
    enabled = r.enabled;
  }

  abbrev pub traced_manager : Manager W → Manager (Traced W)
  traced_manager m = record {
    wqueue_started = m.wqueue_started;
    wqueue_starts = m.wqueue_starts;
    nodes = map traced_record m.nodes;
    handle_counter = m.handle_counter;
    slist = m.slist;
    cache = m.cache;
    reg_access = m.reg_access;
  }

  abbrev pub traced_platform : Platform W → Platform (Traced W)
  traced_platform p = record {
    header = λ mes t. p.header mes t.0;
    set_header = λ mes hdr t. (p.set_header mes hdr t.0, t.1);
    set_payload = λ mes a t. (p.set_payload mes a t.0, t.1);
    free_after_use = λ mes t. p.free_after_use mes t.0;
    set_free_after_use = λ mes t. (p.set_free_after_use mes t.0, t.1);
    zero_bytes = λ a n t. (p.zero_bytes a n t.0, t.1);
    uptime = λ t. let (now, w) = p.uptime t.0 in (now, (w, t.1));
    heap_alloc = λ n t. let (a, w) = p.heap_alloc n t.0 in (a, (w, t.1));
    heap_free = λ mes t. (p.heap_free mes t.0, t.1);
    callback_alloc = λ t. Option.map (λ w. (w, t.1)) (p.callback_alloc t.0);
    submit = λ mes t. let (rc, w) = p.submit mes t.0 in (rc, (w, t.1));
  }

  -- The calls of one node, and of a chain from the node at an index.
  unfoldable pub node_calls : Node W → ℕ → ℕ → List Event
  node_calls n h i =
      let c = n.callbacks in
      call c.start_handler (started h i)
      ++ (call c.exec_handler (executed h i) ++ call c.stop_handler (stopped h i))

  unfoldable pub chain_calls : List (Node W) → ℕ → ℕ → List Event
  chain_calls [] h i = []
  chain_calls (n ∷ ns) h i = node_calls n h i ++ chain_calls ns h (suc i)

  unfoldable pub sub_calls : List (NodeSub W) → ℕ → List Event
  sub_calls [] h = []
  sub_calls (s ∷ ss) h = call s.cb (notified h) ++ sub_calls ss h

  -- The calls that a match of the record of a handle brings about: of each node of the chain in
  -- turn, then of each subscriber.
  unfoldable pub record_calls : List (NodeRecord W) → ℕ → List Event
  record_calls nodes h = elim (get_elem? nodes h) [
    | none ↦ []
    | some r ↦ elim r.node [
      | none ↦ []
      | some c ↦ chain_calls (nodes_of c) r.handle 0 ++ sub_calls r.sub_callbacks r.handle
    ]
  ]
