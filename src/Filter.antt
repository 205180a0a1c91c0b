-- ===== src/Filter.antt =====
-- The filter engine: include/step/filter.h and src/filter.c.
pub mod Meaning
pub mod Chain
pub mod Fields
use step.Common.{
  ℕ, zero, suc, ◌-◌, ◌^◌, bit_and, ◌==◌, if◌then◌else◌, Bool, true, false, not, ◌&&◌, ◌||◌, Option,
  none, some, ◌>>=◌, List, get_elem?, truth, ℤ, ok, einval,
}

-- `enum step_filter_op`
pub data FilterOp : Type 0 where
  op_is op_not op_and op_and_not op_or op_or_not op_xor : FilterOp

-- `struct step_filter`
pub record Filter : Type 0 where
  pub op : FilterOp
  pub match : ℕ
  pub ignore_mask : ℕ

-- `struct step_filter_chain`; `chain` is a pointer to an array, `none` for NULL.
pub record FilterChain : Type 0 where
  pub count : ℕ
  pub chain : Option (List Filter)

-- `~w` of a `uint32_t`
abbrev pub not32 : ℕ → ℕ
not32 w = 2 ^ 32 - 1 - w

-- The equality check of `step_filt_evaluate_filter`, ignored bits masked out.
unfoldable pub curr_eval : Filter → ℕ → ℕ
curr_eval f filter_bits =
    if f.ignore_mask == 0
    then truth (filter_bits == f.match)
    else truth (bit_and filter_bits (not32 f.ignore_mask) == bit_and f.match (not32 f.ignore_mask))

-- The `switch` on the operand: `curr` is the current comparison, `prev` the previous result.
unfoldable pub apply_op : FilterOp → ℕ → ℕ → ℕ
apply_op op_is curr prev = truth (not (curr == 0))
apply_op op_not curr prev = truth (curr == 0)
apply_op op_and curr prev = truth (not (bit_and curr prev == 0))
apply_op op_and_not curr prev = truth (not (prev == 0) && (curr == 0))
apply_op op_or curr prev = truth (not (prev == 0) || not (curr == 0))
apply_op op_or_not curr prev = truth (not (prev == 0) || (curr == 0))
apply_op op_xor curr prev = truth (not (prev == curr))

-- `step_filt_evaluate_filter`: the value stored in `*match`.
unfoldable pub evaluate_filter : Filter → ℕ → ℕ → ℕ
evaluate_filter f filter_bits prev = apply_op f.op (curr_eval f filter_bits) prev

-- The loop of `step_filt_evaluate`, from index `i` with `n` rounds left. A read outside the array
-- is a fault.
unfoldable pub evaluate_from : List Filter → ℕ → ℕ → ℕ → ℕ → Option ℕ
evaluate_from chain filter_bits i zero prev = some prev
evaluate_from chain filter_bits i (suc n) prev = elim (get_elem? chain i) [
  | none ↦ none
  | some f ↦ evaluate_from chain filter_bits (suc i) n (evaluate_filter f filter_bits prev)
]

-- The test that the chain starts with IS or NOT.
abbrev pub is_initial : FilterOp → Bool
is_initial op_is = true
is_initial op_not = true
is_initial _ = false

-- `step_filt_evaluate`: the return code and `*match`. `mes` is the measurement's filter word, `none`
-- for a NULL measurement, and `fc` is `none` for a NULL chain. The result `none` is a fault: a
-- read through the NULL `chain` or outside the array.
unfoldable pub evaluate : Option FilterChain → Option ℕ → Option (ℤ × ℕ)
evaluate fc none = some (einval, 0)
evaluate none (some filter_bits) = some (ok, 1)
evaluate (some fc) (some filter_bits) = if fc.count == 0 then some (ok, 1) else do
  chain ← fc.chain
  first ← get_elem? chain 0
  if is_initial first.op
      then (do m ← evaluate_from chain filter_bits 0 fc.count 0; some (ok, m))
      else some (einval, 0)
