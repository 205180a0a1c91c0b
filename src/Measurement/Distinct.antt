-- ===== src/Measurement/Distinct.antt =====
-- The values of the SI units of include/step/measurement/unit.h, and those of the combined groups
-- against the base types.
use step.Common.{
  ℕ, ◌≡◌, ◌∙◌, sym, ap, refl, ◌≤◌, ◌<◌, ◌/◌, ◌^◌, ◌==◌, if◌then◌else◌, Option, none, some, List, [],
  ◌∷◌, arith,
}
use step.Measurement.Si.{
  SiUnit, si_code, undefined, ampere, candela, kelvin, kilogram, meter, mole, second, becquerel,
  coulomb, degree_celsius, farad, gray, henry, hertz, joule, katal, lumen, lux, newton, ohm, pascal,
  radian, siemens, sievert, steradian, tesla, volt, watt, weber, percent, interval, degree,
  meters_2, meter_per_second_2, relative_humidity, candela_per_meter_2, joule_per_meter_2,
  joule_per_meter_2_per_hz, joule_per_meter_2_per_nm, joule_per_meter_3, lumen_per_meter_2,
  lumen_per_watt, lumen_second, lumen_second_per_meter_3, lux_second, watts_per_hertz,
  watts_per_meter_2, watts_per_meter_2_per_hz, watts_per_meter_2_per_nm, watts_per_nm,
  watts_per_steradian, watts_per_steradian_per_hertz, watts_per_steradian_per_meter_2,
  watts_per_steradian_per_meter_2_per_hz, watts_per_steradian_per_meter_2_per_nm,
  watts_per_steradian_per_nm, microtesla, grams, hectopascal, meters_3_second, millivolts, meters_3,
  ph, siemens_per_meter, user_defined_1, user_defined_255, max,
}
use step.Measurement.Types.{MesType, type_code}

-- The first of the values with a code.
unfoldable pub find : {A : Type 0} → (A → ℕ) → ℕ → List A → Option A
find f n [] = none
find f n (x ∷ xs) = if f x == n then some x else find f n xs

pub find-injective :
    {A : Type 0} (f : A → ℕ) (xs : List A) {c d : A}
    → find f (f c) xs ≡ some c
    → find f (f d) xs ≡ some d
    → f c ≡ f d
    → c ≡ d
find-injective f xs {c} {d} hc hd h =
    let same : some c ≡ some d = sym hc ∙ ap (λ n. find f n xs) h ∙ hd in cc

unfoldable all_si_code : List SiUnit
all_si_code =
    undefined ∷ ampere ∷ candela ∷ kelvin ∷ kilogram ∷ meter ∷ mole ∷ second ∷ becquerel ∷ coulomb
    ∷ degree_celsius ∷ farad ∷ gray ∷ henry ∷ hertz ∷ joule ∷ katal ∷ lumen ∷ lux ∷ newton ∷ ohm
    ∷ pascal ∷ radian ∷ siemens ∷ sievert ∷ steradian ∷ tesla ∷ volt ∷ watt ∷ weber ∷ percent
    ∷ interval ∷ degree ∷ meters_2 ∷ meter_per_second_2 ∷ relative_humidity ∷ candela_per_meter_2
    ∷ joule_per_meter_2 ∷ joule_per_meter_2_per_hz ∷ joule_per_meter_2_per_nm ∷ joule_per_meter_3
    ∷ lumen_per_meter_2 ∷ lumen_per_watt ∷ lumen_second ∷ lumen_second_per_meter_3 ∷ lux_second
    ∷ watts_per_hertz ∷ watts_per_meter_2 ∷ watts_per_meter_2_per_hz ∷ watts_per_meter_2_per_nm
    ∷ watts_per_nm ∷ watts_per_steradian ∷ watts_per_steradian_per_hertz
    ∷ watts_per_steradian_per_meter_2 ∷ watts_per_steradian_per_meter_2_per_hz
    ∷ watts_per_steradian_per_meter_2_per_nm ∷ watts_per_steradian_per_nm ∷ microtesla ∷ grams
    ∷ hectopascal ∷ meters_3_second ∷ millivolts ∷ meters_3 ∷ ph ∷ siemens_per_meter
    ∷ user_defined_1 ∷ user_defined_255 ∷ max ∷ []

find-si_code : (c : SiUnit) → find si_code (si_code c) all_si_code ≡ some c
unfolding find si_code all_si_code
find-si_code undefined = refl
find-si_code ampere = refl
find-si_code candela = refl
find-si_code kelvin = refl
find-si_code kilogram = refl
find-si_code meter = refl
find-si_code mole = refl
find-si_code second = refl
find-si_code becquerel = refl
find-si_code coulomb = refl
find-si_code degree_celsius = refl
find-si_code farad = refl
find-si_code gray = refl
find-si_code henry = refl
find-si_code hertz = refl
find-si_code joule = refl
find-si_code katal = refl
find-si_code lumen = refl
find-si_code lux = refl
find-si_code newton = refl
find-si_code ohm = refl
find-si_code pascal = refl
find-si_code radian = refl
find-si_code siemens = refl
find-si_code sievert = refl
find-si_code steradian = refl
find-si_code tesla = refl
find-si_code volt = refl
find-si_code watt = refl
find-si_code weber = refl
find-si_code percent = refl
find-si_code interval = refl
find-si_code degree = refl
find-si_code meters_2 = refl
find-si_code meter_per_second_2 = refl
find-si_code relative_humidity = refl
find-si_code candela_per_meter_2 = refl
find-si_code joule_per_meter_2 = refl
find-si_code joule_per_meter_2_per_hz = refl
find-si_code joule_per_meter_2_per_nm = refl
find-si_code joule_per_meter_3 = refl
find-si_code lumen_per_meter_2 = refl
find-si_code lumen_per_watt = refl
find-si_code lumen_second = refl
find-si_code lumen_second_per_meter_3 = refl
find-si_code lux_second = refl
find-si_code watts_per_hertz = refl
find-si_code watts_per_meter_2 = refl
find-si_code watts_per_meter_2_per_hz = refl
find-si_code watts_per_meter_2_per_nm = refl
find-si_code watts_per_nm = refl
find-si_code watts_per_steradian = refl
find-si_code watts_per_steradian_per_hertz = refl
find-si_code watts_per_steradian_per_meter_2 = refl
find-si_code watts_per_steradian_per_meter_2_per_hz = refl
find-si_code watts_per_steradian_per_meter_2_per_nm = refl
find-si_code watts_per_steradian_per_nm = refl
find-si_code microtesla = refl
find-si_code grams = refl
find-si_code hectopascal = refl
find-si_code meters_3_second = refl
find-si_code millivolts = refl
find-si_code meters_3 = refl
find-si_code ph = refl
find-si_code siemens_per_meter = refl
find-si_code user_defined_1 = refl
find-si_code user_defined_255 = refl
find-si_code max = refl

-- Two SI units with the same value are the same.
pub si_code-injective : (c d : SiUnit) → si_code c ≡ si_code d → c ≡ d
si_code-injective c d h = find-injective si_code all_si_code (find-si_code c) (find-si_code d) h

-- A unit of the combined groups, with a value from 0x1000 to 0x7FFF, has as its high byte the base
-- type that it belongs to.
si_code-group :
    (u : SiUnit)
    → 0x1000 ≤ si_code u
    → si_code u < 0x8000
    → (t : MesType) × (type_code t ≡ si_code u / 2 ^ 8)
unfolding si_code type_code
si_code-group undefined h k = absurd (omega arith)
si_code-group ampere h k = absurd (omega arith)
si_code-group candela h k = absurd (omega arith)
si_code-group kelvin h k = absurd (omega arith)
si_code-group kilogram h k = absurd (omega arith)
si_code-group meter h k = absurd (omega arith)
si_code-group mole h k = absurd (omega arith)
si_code-group second h k = absurd (omega arith)
si_code-group becquerel h k = absurd (omega arith)
si_code-group coulomb h k = absurd (omega arith)
si_code-group degree_celsius h k = absurd (omega arith)
si_code-group farad h k = absurd (omega arith)
si_code-group gray h k = absurd (omega arith)
si_code-group henry h k = absurd (omega arith)
si_code-group hertz h k = absurd (omega arith)
si_code-group joule h k = absurd (omega arith)
si_code-group katal h k = absurd (omega arith)
si_code-group lumen h k = absurd (omega arith)
si_code-group lux h k = absurd (omega arith)
si_code-group newton h k = absurd (omega arith)
si_code-group ohm h k = absurd (omega arith)
si_code-group pascal h k = absurd (omega arith)
si_code-group radian h k = absurd (omega arith)
si_code-group siemens h k = absurd (omega arith)
si_code-group sievert h k = absurd (omega arith)
si_code-group steradian h k = absurd (omega arith)
si_code-group tesla h k = absurd (omega arith)
si_code-group volt h k = absurd (omega arith)
si_code-group watt h k = absurd (omega arith)
si_code-group weber h k = absurd (omega arith)
si_code-group percent h k = absurd (omega arith)
si_code-group interval h k = absurd (omega arith)
si_code-group degree h k = absurd (omega arith)
si_code-group meters_2 h k = (MesType.area, refl)
si_code-group meter_per_second_2 h k = (MesType.acceleration, refl)
si_code-group relative_humidity h k = (MesType.humidity, refl)
si_code-group candela_per_meter_2 h k = (MesType.light, refl)
si_code-group joule_per_meter_2 h k = (MesType.light, refl)
si_code-group joule_per_meter_2_per_hz h k = (MesType.light, refl)
si_code-group joule_per_meter_2_per_nm h k = (MesType.light, refl)
si_code-group joule_per_meter_3 h k = (MesType.light, refl)
si_code-group lumen_per_meter_2 h k = (MesType.light, refl)
si_code-group lumen_per_watt h k = (MesType.light, refl)
si_code-group lumen_second h k = (MesType.light, refl)
si_code-group lumen_second_per_meter_3 h k = (MesType.light, refl)
si_code-group lux_second h k = (MesType.light, refl)
si_code-group watts_per_hertz h k = (MesType.light, refl)
si_code-group watts_per_meter_2 h k = (MesType.light, refl)
si_code-group watts_per_meter_2_per_hz h k = (MesType.light, refl)
si_code-group watts_per_meter_2_per_nm h k = (MesType.light, refl)
si_code-group watts_per_nm h k = (MesType.light, refl)
si_code-group watts_per_steradian h k = (MesType.light, refl)
si_code-group watts_per_steradian_per_hertz h k = (MesType.light, refl)
si_code-group watts_per_steradian_per_meter_2 h k = (MesType.light, refl)
si_code-group watts_per_steradian_per_meter_2_per_hz h k = (MesType.light, refl)
si_code-group watts_per_steradian_per_meter_2_per_nm h k = (MesType.light, refl)
si_code-group watts_per_steradian_per_nm h k = (MesType.light, refl)
si_code-group microtesla h k = (MesType.magnetic_field, refl)
si_code-group grams h k = (MesType.mass, refl)
si_code-group hectopascal h k = (MesType.pressure, refl)
si_code-group meters_3_second h k = (MesType.velocity, refl)
si_code-group millivolts h k = (MesType.voltage, refl)
si_code-group meters_3 h k = (MesType.volume, refl)
si_code-group ph h k = (MesType.acidity, refl)
si_code-group siemens_per_meter h k = (MesType.conductivity, refl)
si_code-group user_defined_1 h k = absurd (omega arith)
si_code-group user_defined_255 h k = absurd (omega arith)
si_code-group max h k = absurd (omega arith)
