-- ===== src/ProcMgr/Trace/Loop.antt =====
-- The calls that `step_pm_process` of src/proc_mgr.c makes while it visits the registry.
use mathlib.Core.Option
use step.Common.{
  ℕ, zero, suc, ◌≡◌, refl, ◌∷◌, [], List, map, some, ℤ, ◌==◌, Bool-cases, Option-cases, inl, inr,
  get_elem?,
}
use step.Platform.{Platform}
use step.Node.{Node}
use step.Filter
use step.Cache
use step.Cache.{Cache}
use step.ProcMgr.{NodeRecord, Config}
use step.ProcMgr.Process.{evaluate_node, confirm, decide, word_of}
use step.ProcMgr.Trace.{Event, traced_node, traced_record, traced_platform}

-- The lookup of a record.
pub get_elem?-traced :
    {W : Type 0} (nodes : List (NodeRecord W)) (h : ℕ)
    → get_elem? (map traced_record nodes) h ≡ Option.map traced_record (get_elem? nodes h)
get_elem?-traced [] h = refl
get_elem?-traced (r ∷ nodes) zero = refl
get_elem?-traced (r ∷ nodes) (suc h) = get_elem?-traced nodes h

module _ {W : Type 0} (plat : Platform W) (mes : ℕ) where
  evaluate_node-traced :
      (n : Node W) (h : ℕ) (rc : ℤ) (w : W) (l : List Event)
      → evaluate_node (traced_platform plat) (traced_node n) mes h rc (w, l)
        ≡ Option.map (λ (v, rc', w'). (v, rc', (w', l))) (evaluate_node plat n mes h rc w)
  unfolding evaluate_node
  evaluate_node-traced n h rc w l = elim (Option-cases n.callbacks.evaluate_handler) [
    | inl e ↦ elim (Option-cases (Filter.evaluate (some n.filters) (some (word_of plat mes w)))) [
      | inl f ↦ rw (e, f, evaluate_node)
      | inr (r, f) ↦ rw (e, f, evaluate_node)
    ]
    | inr (f, e) ↦ rw (e, evaluate_node)
  ]

  confirm-traced :
      (n : Node W) (h v : ℕ) (w : W) (l : List Event)
      → confirm (traced_platform plat) (traced_node n) mes h v (w, l)
        ≡ (let (v', w') = confirm plat n mes h v w in (v', (w', l)))
  unfolding confirm
  confirm-traced n h v w l = elim (Bool-cases (v == 0)) [
    | inl z ↦ rw (z, confirm)
    | inr nz ↦ elim (Option-cases n.callbacks.matched_handler) [
      | inl e ↦ rw (nz, e, confirm)
      | inr (f, e) ↦ rw (nz, e, confirm)
    ]
  ]

  pub decide-traced :
      (cfg : Config) (c : Cache) (n : Node W) (h : ℕ) (rc : ℤ) (w : W) (l : List Event)
      → decide (traced_platform plat) cfg c (traced_node n) mes h rc (w, l)
        ≡ Option.map (λ (v, rc', c', w'). (v, rc', c', (w', l))) (decide plat cfg c n mes h rc w)
  unfolding decide
  decide-traced cfg c n h rc w l =
      let found = Cache.check c (word_of plat mes w) h (plat.uptime w).0 in
      let both = λ (v : ℕ) (w₁ : W). confirm-traced n h v w₁ l in
      elim (Bool-cases cfg.filter_cache) [
        | inl on ↦ elim (Bool-cases (found.0 == 0)) [
          | inl miss ↦ elim (Option-cases (evaluate_node plat n mes h rc w)) [
            | inl e ↦ rw (on, miss, evaluate_node-traced n h rc w l, e, decide)
            | inr ((v, rc', w₁), e) ↦
                let (v', w₂) = confirm plat n mes h v w₁ in
                elim (Option-cases
                  (Cache.add found.2 (word_of plat mes w₂) h v' (plat.uptime w₂).0)) [
                    | inl f ↦
                        rw (on, miss, evaluate_node-traced n h rc w l, e, both v w₁, f, decide)
                    | inr (c₂, f) ↦
                        rw (on, miss, evaluate_node-traced n h rc w l, e, both v w₁, f, decide)
                  ]
          ]
          | inr hit ↦ rw (on, hit, decide)
        ]
        | inr off ↦ elim (Option-cases (evaluate_node plat n mes h rc w)) [
          | inl e ↦ rw (off, evaluate_node-traced n h rc w l, e, decide)
          | inr ((v, rc', w₁), e) ↦ rw (off, evaluate_node-traced n h rc w l, e, both v w₁, decide)
        ]
      ]
