-- ===== src/ProcMgr/Order.antt =====
-- The order of the registry list of src/proc_mgr.c: highest priority first, and records of one
-- priority in the order of registration.
use mathlib.Core.List.{append_assoc}
use step.Common.{
  ℕ, ◌<◌, ◌≤◌, ◌≡◌, ◌≢◌, refl, ap, ◌∙◌, ◌⊎◌, inl, inr, ltb, true, false, Option, none, some, List,
  [], ◌∷◌, ◌++◌, All, Bool-cases, arith,
}
use step.Platform.{Slist}
use step.ProcMgr.{NodeRecord}
use step.ProcMgr.Register.{priority_of, find_slot, insert_node}

-- `x` stands before `y`.
abbrev pub Before : (ℕ → ℕ) → ℕ → ℕ → Type 0
Before pri x y = (pri y < pri x) ⊎ ((pri x ≡ pri y) × (x < y))

abbrev pub Sorted : (ℕ → ℕ) → List ℕ → Type 0
Sorted pri [] = Unit
Sorted pri (x ∷ xs) = All (Before pri x) xs × Sorted pri xs

-- Insertion of a new handle before the first record of a lower priority.
unfoldable pub insert_by : (ℕ → ℕ) → ℕ → List ℕ → List ℕ
insert_by pri h [] = h ∷ []
insert_by pri h (x ∷ xs) = elim (ltb (pri x) (pri h)) [
  | true ↦ h ∷ x ∷ xs
  | false ↦ x ∷ insert_by pri h xs
]

-- Each handle differs from those behind it.
abbrev pub Apart : List ℕ → Type 0
Apart [] = Unit
Apart (x ∷ xs) = All (λ y. x ≢ y) xs × Apart xs

pub All-map {ℓ κ μ} :
    {A : Type ℓ} (P : A → Type κ) (Q : A → Type μ) (xs : List A)
    → ((x : A) → P x → Q x)
    → All P xs
    → All Q xs
All-map P Q [] f a = tt
All-map P Q (x ∷ xs) f a = (f x a.0, All-map P Q xs f a.1)

pub Sorted-Apart : (pri : ℕ → ℕ) (l : List ℕ) → Sorted pri l → Apart l
Sorted-Apart pri [] s = tt
Sorted-Apart pri (x ∷ xs) s =
    (All-map (Before pri x) (λ y. x ≢ y) xs differs s.0, Sorted-Apart pri xs s.1)
  where
    differs : (y : ℕ) → Before pri x y → x ≢ y
    differs y (inl l) e = absurd (omega (arith, ap pri e))
    differs y (inr (_, l)) e = absurd (omega arith)

pub All-insert_by {κ} :
    (P : ℕ → Type κ) (pri : ℕ → ℕ) (h : ℕ) (l : List ℕ) → P h → All P l → All P (insert_by pri h l)
unfolding insert_by
All-insert_by P pri h [] p a = (p, tt)
All-insert_by P pri h (x ∷ xs) p a = elim (Bool-cases (ltb (pri x) (pri h))) [
  | inl y ↦ rw (y, insert_by) (p, a)
  | inr n ↦ rw (n, insert_by) (a.0, All-insert_by P pri h xs p a.1)
]

-- Inserting the latest handle keeps the list sorted.
pub insert_by-Sorted :
    (pri : ℕ → ℕ) (h : ℕ) (l : List ℕ)
    → Sorted pri l
    → All (λ x. x < h) l
    → Sorted pri (insert_by pri h l)
unfolding insert_by
insert_by-Sorted pri h [] s b = (tt, tt)
insert_by-Sorted pri h (x ∷ xs) s b = elim (Bool-cases (ltb (pri x) (pri h))) [
  | inl y ↦
      rw (y, insert_by)
        (
          (
            inl (ground arith),
            All-map (Before pri x) (Before pri h) xs (λ z q. inl (lower z q (ground arith))) s.0,
          ),
          s,
        )
  | inr n ↦
      rw (n, insert_by)
        (
          All-insert_by (Before pri x) pri h xs (higher (ground arith)) s.0,
          insert_by-Sorted pri h xs s.1 b.1,
        )
]
  where
    lower : (z : ℕ) → Before pri x z → pri x < pri h → pri z < pri h
    lower z (inl l) k = omega arith
    lower z (inr (e, _)) k = omega arith

    higher : pri h ≤ pri x → Before pri x h
    higher k = ground (arith, b.0)

Apart-before : (xs : List ℕ) (p : ℕ) (l : List ℕ) → Apart (xs ++ p ∷ l) → All (λ y. y ≢ p) xs
Apart-before [] p l a = tt
Apart-before (x ∷ xs) p l a = (at xs a.0, Apart-before xs p l a.1)
  where
    at : (ys : List ℕ) → All (λ y. x ≢ y) (ys ++ p ∷ l) → x ≢ p
    at [] b = b.0
    at (y ∷ ys) b = at ys b.1

-- The handle is in the list.
abbrev pub In : ℕ → List ℕ → Type 0
In h [] = ⊥
In h (x ∷ xs) = (x ≡ h) ⊎ In h xs

pub In-insert_by_self : (pri : ℕ → ℕ) (h : ℕ) (l : List ℕ) → In h (insert_by pri h l)
unfolding insert_by
In-insert_by_self pri h [] = inl refl
In-insert_by_self pri h (x ∷ xs) = elim (Bool-cases (ltb (pri x) (pri h))) [
  | inl y ↦ rw (y, insert_by) (inl refl)
  | inr n ↦ rw (n, insert_by) (inr (In-insert_by_self pri h xs))
]

pub In-insert_by : (pri : ℕ → ℕ) (h k : ℕ) (l : List ℕ) → In k l → In k (insert_by pri h l)
unfolding insert_by
In-insert_by pri h k [] i = elim i [ ]
In-insert_by pri h k (x ∷ xs) (inl e) = elim (Bool-cases (ltb (pri x) (pri h))) [
  | inl y ↦ rw (y, insert_by) (inr (inl e))
  | inr n ↦ rw (n, insert_by) (inl e)
]
In-insert_by pri h k (x ∷ xs) (inr i) = elim (Bool-cases (ltb (pri x) (pri h))) [
  | inl y ↦ rw (y, insert_by) (inr (inr i))
  | inr n ↦ rw (n, insert_by) (inr (In-insert_by pri h k xs i))
]

pub Sorted-cong : (p q : ℕ → ℕ) (l : List ℕ) → All (λ x. p x ≡ q x) l → Sorted p l → Sorted q l
Sorted-cong p q [] e s = tt
Sorted-cong p q (x ∷ xs) e s = (go xs e.1 s.0, Sorted-cong p q xs e.1 s.1)
  where
    go : (ys : List ℕ) → All (λ x. p x ≡ q x) ys → All (Before p x) ys → All (Before q x) ys
    go [] f b = tt
    go (y ∷ ys) f b = (ground (arith, e.0, f.0, b.0), go ys f.1 b.1)

module _ {W : Type 0} (sl : Slist ℕ) (nodes : List (NodeRecord W)) (pri : ℕ → ℕ) (h : ℕ) where
  -- The records of the list exist, and have the priorities `pri`.
  abbrev pub Priorities : List ℕ → Type 0
  Priorities = All (λ x. priority_of nodes x ≡ some (pri x))

  -- Past the record `p` the search and the insertion make the list that has `h` inserted.
  find_slot-behind :
      (xs : List ℕ) (p : ℕ) (l : List ℕ)
      → Apart (xs ++ p ∷ l)
      → Priorities l
      → (slot : Option ℕ × Option ℕ) × (find_slot nodes (pri h) (some p) l ≡ some slot)
        × (insert_node sl h slot (xs ++ p ∷ l) ≡ xs ++ p ∷ insert_by pri h l)
  unfolding find_slot insert_node insert_by
  find_slot-behind xs p [] a q =
      ((some p, none), refl, sl.append_lem _ h ∙ append_assoc xs (p ∷ []) (h ∷ []))
  find_slot-behind xs p (x ∷ l) a q = elim (Bool-cases (ltb (pri x) (pri h))) [
    | inl y ↦ (
      (some p, some x),
      rw (q.0, y, find_slot),
      rw (y, insert_by) (sl.insert_lem xs (x ∷ l) p h (Apart-before xs p (x ∷ l) a)),
    )
    | inr n ↦
        let assoc : (xs ++ p ∷ []) ++ x ∷ l ≡ xs ++ p ∷ x ∷ l = append_assoc xs (p ∷ []) (x ∷ l) in
        let (slot, found, made) = find_slot-behind (xs ++ p ∷ []) x l (rw assoc a) q.1 in
        (
          slot,
          rw (q.0, n, find_slot) found,
          rw (n, insert_by) ((rw assoc at made) ∙ append_assoc xs (p ∷ []) (x ∷ insert_by pri h l)),
        )
  ]

  -- The search from the head of the list, and the insertion at the slot found.
  pub find_slot-insert_by :
      (l : List ℕ)
      → Apart l
      → Priorities l
      → (slot : Option ℕ × Option ℕ) × (find_slot nodes (pri h) none l ≡ some slot)
        × (insert_node sl h slot l ≡ insert_by pri h l)
  unfolding find_slot insert_node insert_by
  find_slot-insert_by [] a q = ((none, none), refl, sl.append_lem [] h)
  find_slot-insert_by (x ∷ l) a q = elim (Bool-cases (ltb (pri x) (pri h))) [
    | inl y ↦ ((none, some x), rw (q.0, y, find_slot), rw (y, insert_by) (sl.prepend_lem (x ∷ l) h))
    | inr n ↦
        let (slot, found, made) = find_slot-behind [] x l a q.1 in
        (slot, rw (q.0, n, find_slot) found, rw (n, insert_by) made)
  ]
