-- ===== src/ProcMgr/Trace/Calls.antt =====
-- The calls that one chain makes: src/proc_mgr.c on a match.
use mathlib.Core.Option
use mathlib.Core.List.{append_assoc, append-nil}
use step.Common.{
  ℕ, suc, ◌≡◌, ◌∷◌, [], ◌++◌, List, map, Option, none, some, ◌>>=◌, is_zero, Bool-cases,
  Option-cases, inl, inr,
}
use step.Platform.{Platform}
use step.Node.{Node, NodeHandler, ErrorHandler}
use step.ProcMgr.{NodeSub}
use step.ProcMgr.Process.{notify, fire, run_node, run_nodes}
use step.ProcMgr.Trace.{
  Event, started, executed, stopped, notified, Traced, traced_handler, traced_error, traced_node,
  traced_sub, traced_platform, call, node_calls, chain_calls, sub_calls,
}

module _ {W : Type 0} (plat : Platform W) (mes h : ℕ) where
  -- A result in the memory, with the calls recorded.
  abbrev pub with_calls : List Event → Option W → Option (Traced W)
  with_calls l = Option.map (λ w. (w, l))

  fire-traced :
      (ev : ℕ → ℕ → Event) (f : Option (NodeHandler W)) (err : Option (ErrorHandler W)) (i : ℕ)
      (w : W) (l : List Event)
      → fire
          (traced_platform plat)
          (Option.map (traced_handler ev) f)
          (Option.map traced_error err)
          mes
          h
          i
          (w, l)
        ≡ with_calls (l ++ call f (ev h i)) (fire plat f err mes h i w)
  unfolding fire
  fire-traced ev none err i w l = rw append-nil
  fire-traced ev (some f) none i w l = elim (Bool-cases (is_zero (f mes h i w).0)) [
    | inl z ↦ rw (z, fire)
    | inr nz ↦ rw (nz, fire)
  ]
  fire-traced ev (some f) (some e) i w l = elim (Bool-cases (is_zero (f mes h i w).0)) [
    | inl z ↦ rw (z, fire)
    | inr nz ↦ rw (nz, fire)
  ]

  -- Steps that record their calls, one after the other.
  >>=-with_calls :
      {l : List Event} (l' : List Event) (m : Option W) (k : W → Option W) {m' : Option (Traced W)}
      (k' : Traced W → Option (Traced W))
      → m' ≡ with_calls l m
      → ((w : W) → k' (w, l) ≡ with_calls l' (k w))
      → (m' >>= k') ≡ with_calls l' (m >>= k)
  >>=-with_calls l' none k k' e f = rw e
  >>=-with_calls l' (some w) k k' e f = rw e (f w)

  run_node-traced :
      (n : Node W) (i : ℕ) (w : W) (l : List Event)
      → run_node (traced_platform plat) (traced_node n) mes h i (w, l)
        ≡ with_calls (l ++ node_calls n h i) (run_node plat n mes h i w)
  unfolding run_node node_calls
  run_node-traced n i w l =
      let c = n.callbacks in
      let err = c.error_handler in
      let s = call c.start_handler (started h i) in
      let x = call c.exec_handler (executed h i) in
      rw (← append_assoc, ← append_assoc)
        (>>=-with_calls _ (fire plat c.start_handler err mes h i w) _ _
          (fire-traced started c.start_handler err i w l)
          λ w₁.
            >>=-with_calls _ (fire plat c.exec_handler err mes h i w₁) _ _
              (fire-traced executed c.exec_handler err i w₁ (l ++ s))
              λ w₂. fire-traced stopped c.stop_handler err i w₂ ((l ++ s) ++ x))

  pub run_nodes-traced :
      (ns : List (Node W)) (i : ℕ) (w : W) (l : List Event)
      → run_nodes (traced_platform plat) (map traced_node ns) mes h i (w, l)
        ≡ with_calls (l ++ chain_calls ns h i) (run_nodes plat ns mes h i w)
  unfolding run_nodes chain_calls
  run_nodes-traced [] i w l = rw append-nil
  run_nodes-traced (n ∷ ns) i w l = elim (Option-cases (run_node plat n mes h i w)) [
    | inl e ↦ rw (run_node-traced n i w l, e, run_nodes)
    | inr (w₁, e) ↦
        rw (run_node-traced n i w l, e, run_nodes, ← append_assoc)
          (run_nodes-traced ns (suc i) w₁ (l ++ node_calls n h i))
  ]

  pub notify-traced :
      (ss : List (NodeSub W)) (w : W) (l : List Event)
      → notify (map traced_sub ss) mes h (w, l) ≡ (notify ss mes h w, l ++ sub_calls ss h)
  unfolding notify sub_calls
  notify-traced [] w l = rw append-nil
  notify-traced (s ∷ ss) w l = elim (Option-cases s.cb) [
    | inl e ↦ rw (e, notify, sub_calls) (notify-traced ss w l)
    | inr (f, e) ↦
        rw (e, notify, sub_calls, ← append_assoc)
          (notify-traced ss (f mes h s.user_data w) (l ++ notified h ∷ []))
  ]
