-- ===== src/ProcMgr/Update.antt =====
-- Records of the registry of src/proc_mgr.c written anew, with the handle, the node and the priority
-- that they had.
use step.Common.{
  ℕ, ◌<◌, ◌≡◌, ap, ◌∙◌, some, List, length-set, get_elem?, get_elem?-set_self, get_elem?-set_ne,
  below-get_elem?, set, arith,
}
use native.Mathlib.Decide.{ℕ_discrete}
use step.ProcMgr.{NodeRecord, Config, Manager}
use step.ProcMgr.Order.{Sorted-cong, All-map}
use step.ProcMgr.Registry.{IsRegistry, IsFilled, pri_at}

-- The fields that place a record in the registry.
pub record Alike {W : Type 0} (r r' : NodeRecord W) : Type 0 where
  pub handle : r'.handle ≡ r.handle
  pub node : r'.node ≡ r.node
  pub priority : r'.priority ≡ r.priority

module _ {W : Type 0} (nodes : List (NodeRecord W)) (h : ℕ) (r r' : NodeRecord W) where
  pri_at-written :
      Alike r r' → get_elem? nodes h ≡ some r → (x : ℕ) → pri_at nodes x ≡ pri_at (set nodes h r') x
  unfolding pri_at
  pri_at-written k at x = elim (ℕ_discrete h x) [
    | yes e ↦
        ground (arith, k.priority, get_elem?-set_self nodes h r' (below-get_elem? nodes h r at))
    | no n ↦ ground (arith, get_elem?-set_ne nodes h x r' n)
  ]

  IsFilled-written :
      Alike r r'
      → get_elem? nodes h ≡ some r
      → (x : ℕ) → IsFilled nodes x
      → IsFilled (set nodes h r') x
  IsFilled-written k at x (r₀, c, at₀, e, n) = elim (ℕ_discrete h x) [
    | yes q ↦
        let same : r ≡ r₀ = ground arith in
        (
          r',
          c,
          rw (← q) (get_elem?-set_self nodes h r' (below-get_elem? nodes h r at)),
          k.handle ∙ ap (λ (y : NodeRecord W). y.handle) same ∙ e,
          k.node ∙ ap (λ (y : NodeRecord W). y.node) same ∙ n,
        )
    | no q ↦ (r₀, c, get_elem?-set_ne nodes h x r' q ∙ at₀, e, n)
  ]

pub IsRegistry-set :
    {W : Type 0} (cfg : Config) (m : Manager W) (h : ℕ) (r r' : NodeRecord W)
    → IsRegistry cfg m
    → get_elem? m.nodes h ≡ some r
    → Alike r r'
    → IsRegistry cfg (record m { nodes = set m.nodes h r' })
IsRegistry-set {W} cfg m h r r' v at k = record {
  sized = length-set m.nodes h _ ∙ v.sized;
  counted = v.counted;
  filled = λ x l. IsFilled-written m.nodes h r r' k at x (v.filled x l);
  sorted =
      Sorted-cong (pri_at m.nodes) (pri_at (set m.nodes h r')) m.slist
        (All-map (λ x. x < m.handle_counter) _ m.slist (λ x _. pri_at-written m.nodes h r r' k at x)
          v.known)
        v.sorted;
  known = v.known;
  complete = v.complete;
}

-- The other fields of the manager do not matter.
pub IsRegistry-cong :
    {W : Type 0} (cfg : Config) (m m' : Manager W)
    → m.nodes ≡ m'.nodes
    → m.handle_counter ≡ m'.handle_counter
    → m.slist ≡ m'.slist
    → IsRegistry cfg m
    → IsRegistry cfg m'
IsRegistry-cong cfg m m' p q s v = record {
  sized = rw (← p) v.sized;
  counted = rw (← q) v.counted;
  filled = rw (← p, ← q) v.filled;
  sorted = rw (← p, ← s) v.sorted;
  known = rw (← q, ← s) v.known;
  complete = rw (← q, ← s) v.complete;
}
