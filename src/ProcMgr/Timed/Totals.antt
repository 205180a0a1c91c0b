-- ===== src/ProcMgr/Timed/Totals.antt =====
-- The runs that the instrumented `step_pm_process` of src/proc_mgr.c counts.
use step.Common.{
  ℕ, ◌<◌, ◌≡◌, ◌≢◌, refl, sym, ap, subst, ◌∙◌, ◌==◌, ==_iff, if◌then◌else◌, Bool, false, some, List,
  [], ◌∷◌, length, get_elem?, ℤ, ok, Bool-cases, Option-cases, inl, inr, All, arith,
}
use step.Platform.{Platform}
use step.SamplePool.{add32}
use step.ProcMgr.{NodeRecord, Config, Manager, System, lock, initialize_workqueue}
use step.ProcMgr.Process.{process}
use step.ProcMgr.Order.{Apart, In, Sorted-Apart, All-map}
use step.ProcMgr.Registry.{IsRegistry, pri_at}
use step.ProcMgr.Visit.{enabled_of}
use step.ProcMgr.Release.{process-free}
use step.ProcMgr.Timed.{Timing, Clock, timed_process}
use step.ProcMgr.Timed.Counting.{runs_at, counted, timed_nodes-runs}

counted-none : (k : ℕ) (l : List ℕ) (x : ℕ) → All (λ h. h ≢ k) l → counted k l x ≡ x
counted-none k [] x a = refl
counted-none k (h ∷ hs) x a =
    let other : (h == k) ≡ false = ground (arith, a.0) in rw other (counted-none k hs x a.1)

-- A member of a list has what all have.
pub All-In : (P : ℕ → Type 0) (k : ℕ) (l : List ℕ) → All P l → In k l → P k
All-In P k [] a i = elim i [ ]
All-In P k (x ∷ xs) a (inl e) = subst P e a.0
All-In P k (x ∷ xs) a (inr i) = All-In P k xs a.1 i

module _ {W : Type 0} (plat : Platform W) (cfg : Config) (mes : ℕ)
    (nodes : List (NodeRecord W)) where
  abbrev enabled : List ℕ → List ℕ
  enabled = enabled_of plat cfg mes nodes

  All-enabled_of : (P : ℕ → Type 0) (l : List ℕ) → All P l → All P (enabled l)
  unfolding enabled_of
  All-enabled_of P [] a = tt
  All-enabled_of P (h ∷ hs) a = elim (Option-cases (get_elem? nodes h)) [
    | inl out ↦ rw (out, enabled_of) (a.0, All-enabled_of P hs a.1)
    | inr (r, at) ↦ elim (Bool-cases r.enabled) [
      | inl on ↦ rw (at, on, enabled_of) (a.0, All-enabled_of P hs a.1)
      | inr off ↦ rw (at, off, enabled_of) (All-enabled_of P hs a.1)
    ]
  ]

  -- A handle that is in the list once is counted once if its record is enabled.
  counted-enabled_of :
      (k : ℕ) (r : NodeRecord W) (l : List ℕ) (x : ℕ)
      → get_elem? nodes k ≡ some r
      → Apart l
      → In k l
      → counted k (enabled l) x ≡ (if r.enabled then add32 x 1 else x)
  unfolding enabled_of
  counted-enabled_of k r [] x at a i = elim i [ ]
  counted-enabled_of k r (h ∷ hs) x at a (inl e) =
      let here : get_elem? nodes h ≡ some r = rw e at in
      let rest : All (λ y. y ≢ k) (enabled hs) =
        All-enabled_of (λ y. y ≢ k) hs
          (rw (← e) (All-map (λ y. h ≢ y) (λ y. y ≢ h) hs (λ y d q. d (sym q)) a.0)) in
      elim (Bool-cases r.enabled) [
        | inl on ↦
            rw (here, on, (==_iff h k).1 e, enabled_of)
              (counted-none k (enabled hs) (add32 x 1) rest)
        | inr off ↦ rw (here, off, enabled_of) (counted-none k (enabled hs) x rest)
      ]
  counted-enabled_of k r (h ∷ hs) x at a (inr i) =
      let differs : h ≢ k = All-In (λ y. h ≢ y) k hs a.0 i in
      let other : (h == k) ≡ false = ground (arith, differs) in
      let later = counted-enabled_of k r hs x at a.1 i in
      elim (Option-cases (get_elem? nodes h)) [
        | inl out ↦ rw (out, enabled_of, other) later
        | inr (r', there) ↦ elim (Bool-cases r'.enabled) [
          | inl on ↦ rw (there, on, enabled_of, other) later
          | inr off ↦ rw (there, off, enabled_of) later
        ]
      ]

-- Where reading the cycle counter changes nothing else: a call of `step_pm_process` on a valid
-- registry that ends without the instrumentation ends with it, with the same return code, number of
-- matches and state. For each registered record that is enabled it counts one run, modulo 2 ^ 32,
-- whether or not the record matched, and for a disabled one none.
pub timed_process-runs :
    {W : Type 0} (plat : Platform W) (clock : Clock W) (sizeof_mes : ℕ) (cfg : Config) (mes : ℕ)
    (free : Bool) (s s' : System W) (rc : ℤ) (n : ℕ) (ts : List Timing)
    → ((w : W) → (clock.cycle_get w).1 ≡ w)
    → IsRegistry cfg s.pm
    → length s.pm.nodes ≡ length ts
    → process plat sizeof_mes cfg mes free s ≡ some (rc, n, s')
    → (ts' : List Timing) × (timed_process plat clock sizeof_mes cfg mes free (s, ts)
        ≡ some (rc, n, s', ts'))
      × (length ts' ≡ length ts)
      × ((k : ℕ) (r : NodeRecord W)
          → k < s.pm.handle_counter
          → get_elem? s.pm.nodes k ≡ some r
          → runs_at ts' k ≡ (if r.enabled then add32 (runs_at ts k) 1 else runs_at ts k))
unfolding timed_process initialize_workqueue
timed_process-runs {W = W} plat clock sizeof_mes cfg mes free s s' rc n ts still reg sized e =
    let m = lock (initialize_workqueue s.pm) in
    let (m₁, w₁, q, left, back) = process-free plat cfg mes sizeof_mes free s s' rc n e in
    let (ts', loop, (len, runs)) =
      timed_nodes-runs plat clock cfg mes still s.pm.nodes m.slist 0 n ok rc m m₁ s.world w₁ ts refl
        sized (omega arith) q in
    (
      ts',
      rw (loop, back, timed_process)
          (ap (λ (pm : Manager W). some (rc, n, record s' { pm = pm }, ts')) (sym left)),
      len,
      λ k r below at.
          runs k
          ∙ counted-enabled_of plat cfg mes s.pm.nodes k r s.pm.slist (runs_at ts k) at
              (Sorted-Apart (pri_at s.pm.nodes) s.pm.slist reg.sorted) (reg.complete k below),
    )
