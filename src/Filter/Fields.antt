-- ===== src/Filter/Fields.antt =====
-- Filters of src/filter.c that compare one field of the filter word: those whose `ignore_mask` is
-- the complement of a mask STEP_MES_MASK_… of include/step/measurement/measurement.h.
use mathlib.Core.Logic.{◌↔◌}
use step.Common.{ℕ, ◌-◌, ◌%◌, ◌^◌, ◌<◌, ◌≡◌, arith}
use step.Common.Bits.{cleared-eq_iff}
use step.Common.Fields.{shl, shr, field-eq_iff}
use step.Filter.{Filter, not32}
use step.Filter.Meaning.{Agrees}

-- A word agrees with a filter for the field of `k` bits from the bit `s` up if the field has the
-- same value in both.
pub Agrees-field :
    (s k : ℕ) (f : Filter) (w : ℕ)
    → f.ignore_mask ≡ not32 (shl (2 ^ k - 1) s)
    → shl (2 ^ k - 1) s < 2 ^ 32
    → Agrees f w ↔ (shr w s % 2 ^ k ≡ shr f.match s % 2 ^ k)
Agrees-field s k f w e l =
    let kept : 2 ^ 32 - 1 - f.ignore_mask ≡ shl (2 ^ k - 1) s = omega (arith, e) in
    let (cleared, agree) = cleared-eq_iff 32 w f.match f.ignore_mask (omega (arith, e)) in
    let (equal, masked) = field-eq_iff s k w f.match in
    (λ a. equal (rw (kept) at (agree a)), λ q. cleared (rw (kept) (masked q)))
