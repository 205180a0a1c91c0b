-- ===== src/Measurement/Ctype.antt =====
-- The C types of measurements: `enum step_mes_unit_ctype` of include/step/measurement/unit.h.
use step.Common.{ℕ, ◌==◌, Bool, false, ◌||◌, List, [], ◌∷◌}

-- `enum step_mes_unit_ctype`
pub data Ctype : Type 0 where
  undefined ieee754_float32 ieee754_float64 ieee754_float128 s8 s16 : Ctype
  s32 s64 s128 u8 u16 u32 : Ctype
  u64 u128 bool complex_32 complex_64 rang_unit_interval_32 : Ctype
  rang_unit_interval_64 rang_percent_32 rang_percent_64 user_1 user_2 user_3 : Ctype
  user_4 user_5 user_6 user_7 user_8 user_9 : Ctype
  user_10 user_11 user_12 user_13 user_14 user_15 : Ctype
  max : Ctype

-- The values of the enumerators.
unfoldable pub code : Ctype → ℕ
code undefined = 0x00
code ieee754_float32 = 0x10
code ieee754_float64 = 0x11
code ieee754_float128 = 0x12
code s8 = 0x13
code s16 = 0x14
code s32 = 0x15
code s64 = 0x16
code s128 = 0x17
code u8 = 0x18
code u16 = 0x19
code u32 = 0x1A
code u64 = 0x1B
code u128 = 0x1C
code bool = 0x1D
code complex_32 = 0x30
code complex_64 = 0x31
code rang_unit_interval_32 = 0x80
code rang_unit_interval_64 = 0x81
code rang_percent_32 = 0x82
code rang_percent_64 = 0x83
code user_1 = 0xF0
code user_2 = 0xF1
code user_3 = 0xF2
code user_4 = 0xF3
code user_5 = 0xF4
code user_6 = 0xF5
code user_7 = 0xF6
code user_8 = 0xF7
code user_9 = 0xF8
code user_10 = 0xF9
code user_11 = 0xFA
code user_12 = 0xFB
code user_13 = 0xFC
code user_14 = 0xFD
code user_15 = 0xFE
code max = 0xFF

-- The code is that of one of the types: the labels of a `case`.
unfoldable pub one_of : List Ctype → ℕ → Bool
unfolding code
one_of [] c = false
one_of (t ∷ ts) c = c == code t || one_of ts c
