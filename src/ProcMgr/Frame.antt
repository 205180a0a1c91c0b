-- ===== src/ProcMgr/Frame.antt =====
-- What the handlers, the subscribers and the clock do to the memory in step_pm_process of
-- src/proc_mgr.c: the parts of one round. Frame/Loop has the loop.
pub mod Loop
use step.Common.{
  ℕ, suc, ◌≡◌, refl, inl, inr, ◌==◌, Option, none, some, List, [], ◌∷◌, get_elem?, ℤ, is_zero, All,
  Bool-cases, Option-cases, subst, >>=-eq-some, arith,
}
use step.Filter
use step.Platform.{Platform}
use step.Node.{Node, Chain, NodeHandler, EvaluateHandler, ErrorHandler, nodes_of}
use step.ProcMgr.{NodeSub, NodeRecord}
use step.ProcMgr.Process.{fire, run_node, run_nodes, notify, evaluate_node, confirm, word_of}

-- A relation between the memory before and after, such as that some part of it is the same.
pub record IsFrame {W : Type 0} (plat : Platform W) (R : W → W → Type 0) : Type 0 where
  pub same : (w : W) → R w w
  pub trans : (a b c : W) → R a b → R b c → R a c
  pub uptime : (w : W) → R w (plat.uptime w).1

module _ {W : Type 0} (R : W → W → Type 0) where
  -- The handlers that a node has, and a subscriber, keep the relation.
  pub record NodeKeeps (n : Node W) : Type 0 where
    pub evaluate :
        (f : EvaluateHandler W)
        → n.callbacks.evaluate_handler ≡ some f
        → (mes handle idx : ℕ) (w : W) → R w (f mes handle idx w).1
    pub matched :
        (f : EvaluateHandler W)
        → n.callbacks.matched_handler ≡ some f
        → (mes handle idx : ℕ) (w : W) → R w (f mes handle idx w).1
    pub start :
        (f : NodeHandler W)
        → n.callbacks.start_handler ≡ some f
        → (mes handle idx : ℕ) (w : W) → R w (f mes handle idx w).1
    pub exec :
        (f : NodeHandler W)
        → n.callbacks.exec_handler ≡ some f
        → (mes handle idx : ℕ) (w : W) → R w (f mes handle idx w).1
    pub stop :
        (f : NodeHandler W)
        → n.callbacks.stop_handler ≡ some f
        → (mes handle idx : ℕ) (w : W) → R w (f mes handle idx w).1
    pub error :
        (f : ErrorHandler W)
        → n.callbacks.error_handler ≡ some f
        → (mes : Option ℕ) (handle idx : ℕ) (rc : ℤ) (w : W) → R w (f mes handle idx rc w)

  abbrev pub SubKeeps : NodeSub W → Type 0
  SubKeeps s =
      (cb : ℕ → ℕ → ℕ → W → W)
      → s.cb ≡ some cb
      → (mes handle user_data : ℕ) (w : W) → R w (cb mes handle user_data w)

  -- So do those of each record of the handles.
  abbrev pub RecordKeeps : NodeRecord W → Type 0
  RecordKeeps r =
      ((c : Chain W) → r.node ≡ some c → All NodeKeeps (nodes_of c)) × All SubKeeps r.sub_callbacks

  abbrev pub AllKeep : List (NodeRecord W) → List ℕ → Type 0
  AllKeep nodes = All (λ h. (r : NodeRecord W) → get_elem? nodes h ≡ some r → RecordKeeps r)

module _ {W : Type 0} (plat : Platform W) (R : W → W → Type 0) (frame : IsFrame plat R)
    (mes : ℕ) where
  notify-keeps :
      (l : List (NodeSub W)) (handle : ℕ) (w : W) → All (SubKeeps R) l → R w (notify l mes handle w)
  unfolding notify
  notify-keeps [] handle w k = frame.same w
  notify-keeps (s ∷ ss) handle w (k, ks) = elim (Option-cases s.cb) [
    | inl e ↦ rw (e, notify) (notify-keeps ss handle w ks)
    | inr (cb, e) ↦
        rw (e, notify)
          (frame.trans w (cb mes handle s.user_data w) _ (k cb e mes handle s.user_data w)
            (notify-keeps ss handle (cb mes handle s.user_data w) ks))
  ]

  fire-keeps :
      (f : Option (NodeHandler W)) (err : Option (ErrorHandler W)) (handle idx : ℕ) (w w' : W)
      → ((g : NodeHandler W)
          → f ≡ some g
          → (mes handle idx : ℕ) (w : W) → R w (g mes handle idx w).1)
      → ((g : ErrorHandler W)
          → err ≡ some g
          → (mes : Option ℕ) (handle idx : ℕ) (rc : ℤ) (w : W) → R w (g mes handle idx rc w))
      → fire plat f err mes handle idx w ≡ some w'
      → R w w'
  unfolding fire
  fire-keeps none err handle idx w w' kf ke e = subst (R w) (ground (arith, e)) (frame.same w)
  fire-keeps (some f) err handle idx w w' kf ke e =
      let w₁ = (f mes handle idx w).1 in
      let at = kf f refl mes handle idx w in
      elim (Bool-cases (is_zero (f mes handle idx w).0)) [
        | inl z ↦ subst (R w) (ground (arith, z, e)) at
        | inr n ↦ elim (Option-cases err) [
          | inl q ↦ absurd (ground (arith, n, q, e))
          | inr (g, q) ↦ frame.trans w w₁ w' at (
              subst (R w₁) (ground (arith, n, q, e))
                (ke g q (some mes) handle idx (f mes handle idx w).0 w₁))
        ]
      ]

  run_node-keeps :
      (n : Node W) (handle idx : ℕ) (w w' : W)
      → NodeKeeps R n
      → run_node plat n mes handle idx w ≡ some w'
      → R w w'
  unfolding run_node
  run_node-keeps n handle idx w w' k e =
      let c = n.callbacks in
      let (w₁, e₁, f) =
        >>=-eq-some (fire plat c.start_handler c.error_handler mes handle idx w) _ e in
      let (w₂, e₂, e₃) =
        >>=-eq-some (fire plat c.exec_handler c.error_handler mes handle idx w₁) _ f in
      let r₁ = fire-keeps c.start_handler c.error_handler handle idx w w₁ k.start k.error e₁ in
      let r₂ = fire-keeps c.exec_handler c.error_handler handle idx w₁ w₂ k.exec k.error e₂ in
      let r₃ = fire-keeps c.stop_handler c.error_handler handle idx w₂ w' k.stop k.error e₃ in
      frame.trans w w₁ w' r₁ (frame.trans w₁ w₂ w' r₂ r₃)

  run_nodes-keeps :
      (ns : List (Node W)) (handle idx : ℕ) (w w' : W)
      → All (NodeKeeps R) ns
      → run_nodes plat ns mes handle idx w ≡ some w'
      → R w w'
  unfolding run_nodes
  run_nodes-keeps [] handle idx w w' k e = subst (R w) (ground (arith, e)) (frame.same w)
  run_nodes-keeps (n ∷ ns) handle idx w w' (k, ks) e =
      elim (Option-cases (run_node plat n mes handle idx w)) [
        | inl f ↦ absurd (ground (arith, f, e))
        | inr (w₁, f) ↦
            frame.trans w w₁ w' (run_node-keeps n handle idx w w₁ k f)
              (run_nodes-keeps ns handle (suc idx) w₁ w' ks (ground (arith, f, e)))
      ]

  evaluate_node-keeps :
      (n : Node W) (handle : ℕ) (rc rc' : ℤ) (match : ℕ) (w w' : W)
      → NodeKeeps R n
      → evaluate_node plat n mes handle rc w ≡ some (match, rc', w')
      → R w w'
  unfolding evaluate_node
  evaluate_node-keeps n handle rc rc' match w w' k e =
      elim (Option-cases n.callbacks.evaluate_handler) [
        | inr (f, q) ↦ subst (R w) (ground (arith, q, e)) (k.evaluate f q mes handle 0 w)
        | inl q ↦
            elim (Option-cases (Filter.evaluate (some n.filters) (some (word_of plat mes w)))) [
              | inl none_read ↦ absurd (ground (arith, q, none_read, e))
              | inr (r, read) ↦ subst (R w) (ground (arith, q, read, e)) (frame.same w)
            ]
      ]

  confirm-keeps :
      (n : Node W) (handle match : ℕ) (w : W)
      → NodeKeeps R n
      → R w (confirm plat n mes handle match w).1
  unfolding confirm
  confirm-keeps n handle match w k = elim (Bool-cases (match == 0)) [
    | inl z ↦ rw (z, confirm) (frame.same w)
    | inr y ↦ elim (Option-cases n.callbacks.matched_handler) [
      | inl q ↦ rw (y, q, confirm) (frame.same w)
      | inr (f, q) ↦ rw (y, q, confirm) (k.matched f q mes handle 0 w)
    ]
  ]
