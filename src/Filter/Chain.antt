-- ===== src/Filter/Chain.antt =====
-- The loop of `step_filt_evaluate` in src/filter.c on chains that can be read, and on
-- chains with an IS or NOT behind the first filter.
use mathlib.Core.List.{foldl}
use native.Mathlib.Nat.{add-zero, add-suc, suc-add, zero-add}
use step.Common.{
  ℕ, zero, suc, ◌+◌, ◌≤◌, ◌≡◌, ◌≢◌, refl, sym, ap, ◌∙◌, ◌⊎◌, inl, inr, ◌==◌, Bool, true, false,
  Option, none, some, List, [], ◌∷◌, ◌++◌, length, get_elem?, get_elem?-below, truth, ℤ, ok, einval,
  Bool-cases, arith,
}
use step.Filter.{
  FilterOp, op_is, op_not, Filter, FilterChain, apply_op, evaluate_filter, evaluate_from,
  is_initial, evaluate,
}

truth-le : (b : Bool) → truth b ≤ 1
truth-le true = omega arith
truth-le false = omega arith

apply_op-le : (op : FilterOp) (c p : ℕ) → apply_op op c p ≤ 1
unfolding apply_op
apply_op-le op_is c p = truth-le _
apply_op-le op_not c p = truth-le _
apply_op-le _ c p = truth-le _

-- With `n` filters left to read the loop yields 0 or 1.
evaluate_from_total :
    (w i n : ℕ) (chain : List Filter) (prev : ℕ)
    → i + n ≤ length chain
    → prev ≤ 1
    → (m : ℕ) × (evaluate_from chain w i n prev ≡ some m) × (m ≤ 1)
unfolding evaluate_from evaluate_filter
evaluate_from_total w i zero chain prev h p = (prev, refl, p)
evaluate_from_total w i (suc n) chain prev h p =
    let (f, e) = get_elem?-below chain i (omega arith) in
    rw (e, evaluate_from)
      (evaluate_from_total w (suc i) n chain (evaluate_filter f w prev) (omega arith)
        (apply_op-le f.op _ prev))

-- A chain that is absent or empty, or whose `count` filters are in memory.
abbrev pub IsReadable : Option FilterChain → Type 0
IsReadable none = Unit
IsReadable (some fc) =
    (fc.count ≡ 0) ⊎ ((fs : List Filter) × (fc.chain ≡ some fs) × (fc.count ≤ length fs))

-- The outcomes: success with a match of 0 or 1, or -EINVAL with a match of 0.
abbrev pub IsOutcome : ℤ × ℕ → Type 0
IsOutcome r = ((r.0 ≡ ok) × (r.1 ≤ 1)) ⊎ ((r.0 ≡ einval) × (r.1 ≡ 0))

evaluate-Outcome_chain :
    (fc : FilterChain) (fs : List Filter) (w : ℕ)
    → fc.count ≢ 0
    → fc.chain ≡ some fs
    → fc.count ≤ length fs
    → (r : ℤ × ℕ) × (evaluate (some fc) (some w) ≡ some r) × IsOutcome r
unfolding evaluate
evaluate-Outcome_chain fc fs w z e h =
    let (f, at) = get_elem?-below fs 0 (omega arith) in
    let (m, run, l) = evaluate_from_total w 0 fc.count fs 0 (omega arith) (omega arith) in
    elim (Bool-cases (is_initial f.op)) [
      | inl good ↦ ((ok, m), ground (arith, e, at, good, run), inl (refl, l))
      | inr bad ↦ ((einval, 0), ground (arith, e, at, bad), inr (refl, refl))
    ]

-- Whatever the measurement, evaluation of a readable chain ends without a fault, with one of the
-- documented outcomes.
pub evaluate_total :
    (fc : Option FilterChain) (mes : Option ℕ)
    → IsReadable fc
    → (r : ℤ × ℕ) × (evaluate fc mes ≡ some r) × IsOutcome r
unfolding evaluate
evaluate_total fc none h = ((einval, 0), refl, inr (refl, refl))
evaluate_total none (some w) h = ((ok, 1), refl, inl (refl, omega arith))
evaluate_total (some fc) (some w) (inl z) = ((ok, 1), rw z, inl (refl, omega arith))
evaluate_total (some fc) (some w) (inr (fs, e, l)) = elim (Bool-cases (fc.count == 0)) [
  | inl z ↦ ((ok, 1), rw z, inl (refl, omega arith))
  | inr nz ↦ evaluate-Outcome_chain fc fs w (ground arith) e l
]

evaluate_from-foldl :
    (w i : ℕ) (chain fs : List Filter) (prev : ℕ)
    → ((j : ℕ) → get_elem? chain (i + j) ≡ get_elem? fs j)
    → evaluate_from chain w i (length fs) prev ≡ some (foldl (λ p f. evaluate_filter f w p) prev fs)
unfolding evaluate_from
evaluate_from-foldl w i chain [] prev at = refl
evaluate_from-foldl w i chain (f ∷ fs) prev at =
    let here : get_elem? chain i ≡ some f = rw (← add-zero i) (at 0) in
    rw (here, evaluate_from)
      (evaluate_from-foldl w (suc i) chain fs (evaluate_filter f w prev)
        (λ j. rw (suc-add i j, ← add-suc i j) (at (suc j))))

-- The chain of the filters of a list.
abbrev pub chain_of : List Filter → FilterChain
chain_of fs = record { count = length fs; chain = some fs }

evaluate-foldl :
    (f : Filter) (fs : List Filter) (w : ℕ)
    → is_initial f.op ≡ true
    → evaluate (some (chain_of (f ∷ fs))) (some w)
      ≡ some (ok, foldl (λ p g. evaluate_filter g w p) 0 (f ∷ fs))
unfolding evaluate
evaluate-foldl f fs w h =
    let run = evaluate_from-foldl w 0 (f ∷ fs) (f ∷ fs) 0 (λ j. rw (zero-add j)) in
    ground (arith, h, run)

initial_forgets :
    (f : Filter) (w p q : ℕ)
    → is_initial f.op ≡ true
    → evaluate_filter f w p ≡ evaluate_filter f w q
unfolding evaluate_filter apply_op
initial_forgets f w p q h = ground arith

foldl_restart :
    (g : Filter) (pre fs : List Filter) (w p q : ℕ)
    → is_initial g.op ≡ true
    → foldl (λ p f. evaluate_filter f w p) p (pre ++ g ∷ fs)
      ≡ foldl (λ p f. evaluate_filter f w p) q (g ∷ fs)
foldl_restart g [] fs w p q h =
    ap (λ r. foldl (λ p f. evaluate_filter f w p) r fs) (initial_forgets g w p q h)
foldl_restart g (f ∷ pre) fs w p q h = foldl_restart g pre fs w (evaluate_filter f w p) q h

-- An IS or NOT within a chain starts it over: the filters before it have no effect on the result.
evaluate_restart :
    (f g : Filter) (pre fs : List Filter) (w : ℕ)
    → is_initial f.op ≡ true
    → is_initial g.op ≡ true
    → evaluate (some (chain_of (f ∷ (pre ++ g ∷ fs)))) (some w)
      ≡ evaluate (some (chain_of (g ∷ fs))) (some w)
evaluate_restart f g pre fs w hf hg =
    evaluate-foldl f (pre ++ g ∷ fs) w hf
    ∙ ap (λ m. some (ok, m)) (foldl_restart g (f ∷ pre) fs w 0 0 hg)
    ∙ sym (evaluate-foldl g fs w hg)
