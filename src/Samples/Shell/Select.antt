-- ===== src/Samples/Shell/Select.antt =====
-- Which measurements the filters of samples/shell/src/nodes.c select.
use mathlib.Core.Logic.{◌↔◌}
use step.Common.{ℕ, ◌^◌, ◌<◌, ◌≡◌, ◌⊎◌, inl, inr, refl, some, [], ◌∷◌, ok, arith}
use step.Measurement.{FilterFields, filter_bits, flags_bits}
use step.Measurement.Words.{IsFilterFields}
use step.Measurement.Types.{type_code, temperature, temperature_code, temp_die}
use step.Measurement.FieldValues.{timestamp_code, timestamp_uptime_ms_32}
use step.Filter.{evaluate}
use step.Filter.Meaning.{Agrees, Says, Means, IsChain, evaluate-Means}
use step.Filter.Fields.{Agrees-field}
use step.Samples.Shell.{base_filter, die_filter, timestamp_filter, root_filters}

root_filters-IsChain : IsChain root_filters (base_filter ∷ die_filter ∷ timestamp_filter ∷ [])
unfolding type_code temperature_code timestamp_code
root_filters-IsChain = record {
  present = refl;
  counted = refl;
  words =
      ((omega arith, omega arith), ((omega arith, omega arith), ((omega arith, omega arith), tt)));
  initial = λ f e. ground arith;
}

Says-iff : (m : ℕ) {P Q : Type 0} → Says m P → P ↔ Q → Says m Q
Says-iff m (inl (e, p)) h = inl (e, h.0 p)
Says-iff m (inr (e, n)) h = inr (e, λ q. n (h.1 q))

module _ (f : FilterFields) (h : IsFilterFields f) where
  base_filter-Agrees :
      Agrees base_filter (filter_bits f)
      ↔ ((f.base_type ≡ type_code temperature) × (f.ext_type ≡ 0))
  unfolding type_code temperature_code timestamp_code filter_bits
  base_filter-Agrees =
      let (to, of) = Agrees-field 0 16 base_filter (filter_bits f) refl (omega arith) in
      (λ a. (omega (arith, to a), omega (arith, to a)), λ (b, e). of (omega arith))

  die_filter-Agrees :
      Agrees die_filter (filter_bits f)
      ↔ ((f.base_type ≡ type_code temperature) × (f.ext_type ≡ temperature_code temp_die))
  unfolding type_code temperature_code timestamp_code filter_bits
  die_filter-Agrees =
      let (to, of) = Agrees-field 0 16 die_filter (filter_bits f) refl (omega arith) in
      (λ a. (omega (arith, to a), omega (arith, to a)), λ (b, e). of (omega arith))

  timestamp_filter-Agrees :
      Agrees timestamp_filter (filter_bits f)
      ↔ (f.flags.timestamp ≡ timestamp_code timestamp_uptime_ms_32)
  unfolding type_code temperature_code timestamp_code filter_bits flags_bits
  timestamp_filter-Agrees =
      let (to, of) = Agrees-field 26 3 timestamp_filter (filter_bits f) refl (omega arith) in
      (λ a. omega (arith, to a), λ t. of (omega arith))

  filter_bits-lt : filter_bits f < 2 ^ 32
  unfolding filter_bits flags_bits
  filter_bits-lt = omega arith

  -- The measurements that the root node is for.
  abbrev pub IsSelected : Type 0
  IsSelected =
      (f.base_type ≡ type_code temperature)
      × ((f.ext_type ≡ 0) ⊎ (f.ext_type ≡ temperature_code temp_die))
      × (f.flags.timestamp ≡ timestamp_code timestamp_uptime_ms_32)

  -- The filters of the root node of the shell sample return 0 for every filter word of fields that
  -- fit their widths, and match exactly the temperatures of the extended type 0 or of a die that
  -- carry a timestamp in milliseconds of uptime.
  pub root_filters-select :
      (m : ℕ) × (evaluate (some root_filters) (some (filter_bits f)) ≡ some (ok, m))
      × Says m IsSelected
  root_filters-select =
      let (m, e, s) =
        evaluate-Means root_filters base_filter (die_filter ∷ timestamp_filter ∷ []) (filter_bits f)
          root_filters-IsChain filter_bits-lt in
      (m, e, Says-iff m s (fields, filters))
    where
      fields :
          Means (filter_bits f) ⊥ (base_filter ∷ die_filter ∷ timestamp_filter ∷ []) → IsSelected
      fields (inl a, t) =
          ((base_filter-Agrees.0 a).0, inl (base_filter-Agrees.0 a).1, timestamp_filter-Agrees.0 t)
      fields (inr a, t) =
          ((die_filter-Agrees.0 a).0, inr (die_filter-Agrees.0 a).1, timestamp_filter-Agrees.0 t)

      filters :
          IsSelected → Means (filter_bits f) ⊥ (base_filter ∷ die_filter ∷ timestamp_filter ∷ [])
      filters (b, inl e, t) = (inl (base_filter-Agrees.1 (b, e)), timestamp_filter-Agrees.1 t)
      filters (b, inr e, t) = (inr (die_filter-Agrees.1 (b, e)), timestamp_filter-Agrees.1 t)
