-- ===== src/Node.antt =====
-- Processor nodes: include/step/node.h. A handler takes and returns the state `W` of the memory
-- that it can reach; a NULL handler is `none`. Node chains end in NULL, so a chain is a first node
-- and the list of those behind it.
use Prim.Native.String.{String}
use step.Common.{ℕ, ℤ, Bool, Option, List, ◌∷◌}
use step.Filter.{FilterChain}

-- `step_node_init_t`: config, handle, inst
abbrev pub InitHandler : Type 0 → Type 0
InitHandler W = ℕ → ℕ → ℕ → W → ℤ × W

-- `step_node_callback_t`: mes, handle, inst
abbrev pub NodeHandler : Type 0 → Type 0
NodeHandler W = ℕ → ℕ → ℕ → W → ℤ × W

-- `step_node_evaluate_t`: mes, handle, inst
abbrev pub EvaluateHandler : Type 0 → Type 0
EvaluateHandler W = ℕ → ℕ → ℕ → W → Bool × W

-- `step_node_error_t`: mes (NULL while a node is registered), handle, inst, error
abbrev pub ErrorHandler : Type 0 → Type 0
ErrorHandler W = Option ℕ → ℕ → ℕ → ℤ → W → W

-- `struct step_node_callbacks`
pub record Callbacks (W : Type 0) : Type 0 where
  pub init_handler : Option (InitHandler W)
  pub evaluate_handler : Option (EvaluateHandler W)
  pub matched_handler : Option (EvaluateHandler W)
  pub start_handler : Option (NodeHandler W)
  pub exec_handler : Option (NodeHandler W)
  pub stop_handler : Option (NodeHandler W)
  pub error_handler : Option (ErrorHandler W)

-- `struct step_node`; the field `next` is the order of the chain.
pub record Node (W : Type 0) : Type 0 where
  pub name : Option String
  pub filters : FilterChain
  pub callbacks : Callbacks W
  pub config : ℕ

-- A node and the nodes that its `next` leads to.
pub record Chain (W : Type 0) : Type 0 where
  pub first : Node W
  pub next : List (Node W)

abbrev pub nodes_of : {W : Type 0} → Chain W → List (Node W)
nodes_of c = c.first ∷ c.next
