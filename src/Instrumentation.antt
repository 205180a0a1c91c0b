-- ===== src/Instrumentation.antt =====
-- The run time measurement of include/step/instrumentation.h, on the 32-bit cycle counter. The
-- conversion of cycles to nanoseconds is the kernel's.
use step.Common.{ℕ, ◌+◌, ◌-◌, ◌^◌, ◌%◌, ◌<◌, ◌≡◌, ltb, if◌then◌else◌, arith}

-- `STEP_INSTR_STOP` before the conversion: the cycles from the count `t` to the count `end`.
unfoldable pub elapsed : ℕ → ℕ → ℕ
elapsed t end = if ltb end t then 2 ^ 32 - 1 - t + end else end - t

-- Between two readings of the counter that are less than 2 ^ 32 cycles apart, the result is the
-- number of cycles if the counter has not wrapped around, and one less if it has.
pub elapsed_lem :
    (t n : ℕ)
    → t < 2 ^ 32
    → n < 2 ^ 32
    → elapsed t ((t + n) % 2 ^ 32) ≡ (if ltb (t + n) (2 ^ 32) then n else n - 1)
unfolding elapsed
elapsed_lem t n h k = ground arith
