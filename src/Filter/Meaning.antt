-- ===== src/Filter/Meaning.antt =====
-- What a filter and a filter chain of src/filter.c mean, stated without masks, C truth values
-- and loops.
use step.Common.{
  ℕ, zero, suc, ◌+◌, ◌^◌, ◌<◌, ◌≡◌, refl, ap, ◌↔◌, ◌⊎◌, inl, inr, ◌==◌, Bool, true, false, some,
  List, [], ◌∷◌, length, get_elem?, truth, ok, ==_iff, Bool-cases, All, iff_trans, arith,
}
use native.Mathlib.Nat.{add-zero, add-suc, suc-add, zero-add}
use step.Common.Bits.{bit, cleared-eq_iff, eq_of_bits}
use step.Filter.{
  FilterOp, op_is, op_not, op_and, op_and_not, op_or, op_or_not, op_xor, Filter, FilterChain,
  curr_eval, apply_op, evaluate_filter, evaluate_from, is_initial, evaluate,
}

-- The word agrees with the filter at each bit that the filter does not ignore.
abbrev pub Agrees : Filter → ℕ → Type 0
Agrees f w = (i : ℕ) → i < 32 → bit f.ignore_mask i ≡ 0 → bit w i ≡ bit f.match i

-- The fields of a filter are words of 32 bits.
abbrev pub IsWord : Filter → Type 0
IsWord f = (f.match < 2 ^ 32) × (f.ignore_mask < 2 ^ 32)

-- A C truth value says whether a statement holds.
abbrev pub Says : ℕ → Type 0 → Type 0
Says m P = ((m ≡ 1) × P) ⊎ ((m ≡ 0) × (¬ P))

-- The connective of each operand, between the current comparison `C` and the result `P` so far.
abbrev pub Combine : FilterOp → Type 0 → Type 0 → Type 0
Combine op_is C P = C
Combine op_not C P = ¬ C
Combine op_and C P = P × C
Combine op_and_not C P = P × (¬ C)
Combine op_or C P = P ⊎ C
Combine op_or_not C P = P ⊎ (¬ C)
Combine op_xor C P = (P × (¬ C)) ⊎ ((¬ P) × C)

-- The formula of a chain, read from the left.
abbrev pub Means : ℕ → Type 0 → List Filter → Type 0
Means w P [] = P
Means w P (f ∷ fs) = Means w (Combine f.op (Agrees f w) P) fs

bit-zero : (i : ℕ) → bit 0 i ≡ 0
bit-zero zero = refl
bit-zero (suc i) = bit-zero i

truth-Says : (b : Bool) {P : Type 0} → (b ≡ true) ↔ P → Says (truth b) P
truth-Says true h = inl (refl, h.0 refl)
truth-Says false h = inr (refl, λ p. false≢true' (h.1 p))
  where
    false≢true' : ¬ (false ≡ true)
    false≢true' e = cc

Agrees-no_mask :
    (f : Filter) (w : ℕ) → IsWord f → w < 2 ^ 32 → f.ignore_mask ≡ 0 → (w ≡ f.match) ↔ Agrees f w
Agrees-no_mask f w h l z = (
  λ e i _ _. ap (λ x. bit x i) e,
  λ a. eq_of_bits 32 w f.match l h.0 (λ i k. a i k (rw z (bit-zero i))),
)

-- For a filter and a word of 32 bits, the comparison is 1 if the word agrees with the filter at every bit that is not ignored, and 0 if
-- it does not.
pub curr_eval-Says :
    (f : Filter) (w : ℕ) → IsWord f → w < 2 ^ 32 → Says (curr_eval f w) (Agrees f w)
unfolding curr_eval
curr_eval-Says f w h l = elim (Bool-cases (f.ignore_mask == 0)) [
  | inl z ↦
      rw (z, curr_eval)
        (truth-Says (w == f.match)
          (iff_trans (==_iff w f.match) (Agrees-no_mask f w h l ((==_iff _ _).0 z))))
  | inr nz ↦
      rw (nz, curr_eval)
        (truth-Says _ (iff_trans (==_iff _ _) (cleared-eq_iff 32 w f.match f.ignore_mask h.1)))
]

apply_op-Says :
    (op : FilterOp) (c p : ℕ) {C P : Type 0}
    → Says c C
    → Says p P
    → Says (apply_op op c p) (Combine op C P)
unfolding apply_op
apply_op-Says op_is c p (inl (e, x)) q = inl (rw e, x)
apply_op-Says op_is c p (inr (e, x)) q = inr (rw e, x)
apply_op-Says op_not c p (inl (e, x)) q = inr (rw e, λ n. n x)
apply_op-Says op_not c p (inr (e, x)) q = inl (rw e, x)
apply_op-Says op_and c p (inl (e, x)) (inl (d, y)) = inl (rw (e, d), (y, x))
apply_op-Says op_and c p (inl (e, x)) (inr (d, y)) = inr (rw (e, d), λ t. y t.0)
apply_op-Says op_and c p (inr (e, x)) (inl (d, y)) = inr (rw (e, d), λ t. x t.1)
apply_op-Says op_and c p (inr (e, x)) (inr (d, y)) = inr (rw (e, d), λ t. x t.1)
apply_op-Says op_and_not c p (inl (e, x)) (inl (d, y)) = inr (rw (e, d), λ t. t.1 x)
apply_op-Says op_and_not c p (inl (e, x)) (inr (d, y)) = inr (rw (e, d), λ t. y t.0)
apply_op-Says op_and_not c p (inr (e, x)) (inl (d, y)) = inl (rw (e, d), (y, x))
apply_op-Says op_and_not c p (inr (e, x)) (inr (d, y)) = inr (rw (e, d), λ t. y t.0)
apply_op-Says op_or c p (inl (e, x)) (inl (d, y)) = inl (rw (e, d), inl y)
apply_op-Says op_or c p (inl (e, x)) (inr (d, y)) = inl (rw (e, d), inr x)
apply_op-Says op_or c p (inr (e, x)) (inl (d, y)) = inl (rw (e, d), inl y)
apply_op-Says op_or c p (inr (e, x)) (inr (d, y)) =
    inr (rw (e, d), elim [ inl u ↦ y u | inr u ↦ x u ])
apply_op-Says op_or_not c p (inl (e, x)) (inl (d, y)) = inl (rw (e, d), inl y)
apply_op-Says op_or_not c p (inl (e, x)) (inr (d, y)) =
    inr (rw (e, d), elim [ inl u ↦ y u | inr u ↦ u x ])
apply_op-Says op_or_not c p (inr (e, x)) (inl (d, y)) = inl (rw (e, d), inl y)
apply_op-Says op_or_not c p (inr (e, x)) (inr (d, y)) = inl (rw (e, d), inr x)
apply_op-Says op_xor c p (inl (e, x)) (inl (d, y)) =
    inr (rw (e, d), elim [ inl u ↦ u.1 x | inr u ↦ u.0 y ])
apply_op-Says op_xor c p (inl (e, x)) (inr (d, y)) = inl (rw (e, d), inr (y, x))
apply_op-Says op_xor c p (inr (e, x)) (inl (d, y)) = inl (rw (e, d), inl (y, x))
apply_op-Says op_xor c p (inr (e, x)) (inr (d, y)) =
    inr (rw (e, d), elim [ inl u ↦ y u.0 | inr u ↦ x u.1 ])

-- The loop over the rest `fs` of the array, from index `i`, decides the formula of `fs`.
evaluate_from-Says :
    (w i : ℕ) (chain fs : List Filter) (prev : ℕ) {P : Type 0}
    → w < 2 ^ 32
    → ((j : ℕ) → get_elem? chain (i + j) ≡ get_elem? fs j)
    → All IsWord fs
    → Says prev P
    → (m : ℕ) × (evaluate_from chain w i (length fs) prev ≡ some m) × Says m (Means w P fs)
unfolding evaluate_from evaluate_filter
evaluate_from-Says w i chain [] prev l at a s = (prev, refl, s)
evaluate_from-Says w i chain (f ∷ fs) prev l at a s =
    let here : get_elem? chain i ≡ some f = rw (← add-zero i) (at 0) in
    let next : Says (evaluate_filter f w prev) _ =
      apply_op-Says f.op _ prev (curr_eval-Says f w a.0 l) s in
    rw (here, evaluate_from)
      (evaluate_from-Says w (suc i) chain fs (evaluate_filter f w prev) l
        (λ j. rw (suc-add i j, ← add-suc i j) (at (suc j))) a.1 next)

-- A chain of `count` filters in memory that starts with IS or NOT.
pub record IsChain (fc : FilterChain) (fs : List Filter) : Type 0 where
  pub present : fc.chain ≡ some fs
  pub counted : fc.count ≡ length fs
  pub words : All IsWord fs
  pub initial : (f : Filter) → get_elem? fs 0 ≡ some f → is_initial f.op ≡ true

-- On a chain in memory of filters of 32 bits that starts with IS or NOT, the engine returns 0 for
-- every filter word of 32 bits, and `*match` is 1 if the formula of the chain holds of the word and
-- 0 if it does not.
pub evaluate-Means :
    (fc : FilterChain) (f : Filter) (fs : List Filter) (w : ℕ)
    → IsChain fc (f ∷ fs)
    → w < 2 ^ 32
    → (m : ℕ) × (evaluate (some fc) (some w) ≡ some (ok, m)) × Says m (Means w ⊥ (f ∷ fs))
unfolding evaluate
evaluate-Means fc f fs w c l =
    let (m, e, s) =
      evaluate_from-Says w 0 (f ∷ fs) (f ∷ fs) 0 {P = ⊥} l (λ j. rw (zero-add j)) c.words
        (inr (refl, λ x. x)) in
    let start : is_initial f.op ≡ true = c.initial f refl in
    (m, ground (arith, c.present, c.counted, e, start), s)
