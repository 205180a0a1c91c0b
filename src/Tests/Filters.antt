-- ===== src/Tests/Filters.antt =====
-- Tests of the filter engine.
use step.Common.{ℕ, ◌≡◌, refl, [], ◌∷◌, some, ok, arith}
use step.Filter.{curr_eval, evaluate, evaluate_from, evaluate_filter, apply_op}
use step.Filter.Meaning.{Says, Means, IsChain, evaluate-Means}
use step.Tests.Samples.{type_filter, word_filter, filters}

filters-IsChain : IsChain filters (type_filter ∷ word_filter ∷ [])
filters-IsChain = record {
  present = refl;
  counted = refl;
  words = ((omega arith, omega arith), ((omega arith, omega arith), tt));
  initial = λ f e. ground arith;
}

evaluate-Means_example :
    (m : ℕ) × (evaluate (some filters) (some 0x24) ≡ some (ok, m))
    × Says m (Means 0x24 ⊥ (type_filter ∷ word_filter ∷ []))
evaluate-Means_example =
    evaluate-Means filters type_filter (word_filter ∷ []) 0x24 filters-IsChain (omega arith)

-- The measurement matches, and that with the filter word 0x124 does not.
evaluate_match : evaluate (some filters) (some 0x24) ≡ some (ok, 1)
unfolding evaluate evaluate_from evaluate_filter apply_op curr_eval
evaluate_match = refl

evaluate_no_match : evaluate (some filters) (some 0x124) ≡ some (ok, 0)
unfolding evaluate evaluate_from evaluate_filter apply_op curr_eval
evaluate_no_match = refl
