-- ===== src/Pipeline/Infos.antt =====
-- What step_sp_alloc of src/sample_pool.c and the work queue leave of the measurements in the queue.
use step.Common.{
  ℕ, ◌≡◌, ◌≢◌, refl, sym, ap, ◌∙◌, true, none, some, List, [], ◌∷◌, ◌++◌, ◌==◌, inl, inr,
  Bool-cases, Option-cases, if◌then◌else◌, subst, pos, ◌+◌, ◌+ℤ◌, arith,
}
use step.Measurement.{Header, SrcLen}
use step.Platform.{Platform}
use step.SamplePool
use step.SamplePool.{Pool, charge, zero_header, payload_of, set_up, bytes_alloc}
use step.SamplePool.Account.{alloc_outcome}
use step.ProcMgr.Frame.{IsFrame}
use step.Pipeline.{Apart, addresses, info, InfosSame, WorkQueue, Same, Outside, Separate}

module _ {W : Type 0} (plat : Platform W) where
  InfosSame-refl : (l : List ℕ) (w : W) → InfosSame plat l w w
  InfosSame-refl [] w = tt
  InfosSame-refl (m ∷ l) w = (refl, InfosSame-refl l w)

  pub InfosSame-trans :
      (l : List ℕ) (a b c : W) → InfosSame plat l a b → InfosSame plat l b c → InfosSame plat l a c
  InfosSame-trans [] a b c p q = tt
  InfosSame-trans (m ∷ l) a b c (p, ps) (q, qs) = (q ∙ p, InfosSame-trans l a b c ps qs)

  -- The measurements of the queue have their lengths and are to be freed after use.
  abbrev pub Holds : List (ℕ × ℕ) → W → Type 0
  Holds [] w = Unit
  Holds ((mes, sz) ∷ l) w = (info plat mes w ≡ (sz, true)) × Holds l w

  pub Holds-same :
      (l : List (ℕ × ℕ)) (w w' : W) → InfosSame plat (addresses l) w w' → Holds l w → Holds l w'
  Holds-same [] w w' s h = tt
  Holds-same ((mes, sz) ∷ l) w w' (s, ss) (h, hs) = (s ∙ h, Holds-same l w w' ss hs)

  pub Holds-append :
      (l : List (ℕ × ℕ)) (mes sz : ℕ) (w : W)
      → Holds l w
      → info plat mes w ≡ (sz, true)
      → Holds (l ++ (mes, sz) ∷ []) w
  Holds-append [] mes sz w h e = (e, tt)
  Holds-append ((m, n) ∷ l) mes sz w (h, hs) e = (h, Holds-append l mes sz w hs e)

pub addresses-append :
    (l : List (ℕ × ℕ)) (mes sz : ℕ) → addresses (l ++ (mes, sz) ∷ []) ≡ addresses l ++ mes ∷ []
addresses-append [] mes sz = refl
addresses-append ((m, n) ∷ l) mes sz = ap (λ r. m ∷ r) (addresses-append l mes sz)

-- No address stands twice.
abbrev pub Distinct : List ℕ → Type 0
Distinct [] = Unit
Distinct (m ∷ l) = Apart m l × Distinct l

Apart-append : (l : List ℕ) (m n : ℕ) → Apart m l → n ≢ m → Apart m (l ++ n ∷ [])
Apart-append [] m n a d = (d, tt)
Apart-append (x ∷ l) m n (a, rest) d = (a, Apart-append l m n rest d)

pub Distinct-append : (l : List ℕ) (m : ℕ) → Distinct l → Apart m l → Distinct (l ++ m ∷ [])
Distinct-append [] m d a = (tt, tt)
Distinct-append (x ∷ l) m (d, ds) (a, rest) =
    (Apart-append l x m d (λ e. a (sym e)), Distinct-append l m ds rest)

module _ {W : Type 0} (plat : Platform W) (queue : WorkQueue W plat) where
  pub Same-refl : (l : List ℕ) (w : W) → Same plat queue l w w
  Same-refl l w = record { infos = InfosSame-refl plat l w; pending = refl }

  pub Same-trans :
      (l : List ℕ) (a b c : W)
      → Same plat queue l a b
      → Same plat queue l b c
      → Same plat queue l a c
  Same-trans l a b c p q = record {
    infos = InfosSame-trans plat l a b c p.infos q.infos;
    pending = q.pending ∙ p.pending;
  }

  module _ (sep : Separate plat queue) where
    -- That the measurements `l` and the queue are the same is kept by step_pm_process if its handlers
    -- keep it.
    pub Same-IsFrame : (l : List ℕ) → IsFrame plat (Same plat queue l)
    Same-IsFrame l = record { same = Same-refl l; trans = Same-trans l; uptime = sep.uptime-Same l }

    module _ (sizeof_mes : ℕ) where
      -- The memory after the payload pointer of a new measurement is set.
      abbrev with_payload : ℕ → ℕ → W → W
      with_payload mes sz w =
          let payload = payload_of sizeof_mes mes in
          if sz == 0
          then plat.set_payload mes none w
          else plat.zero_bytes payload sz (plat.set_payload mes (some payload) w)

      with_payload-Same :
          (mes sz : ℕ) (l : List ℕ) (w : W)
          → Outside plat queue (payload_of sizeof_mes mes) sz l
          → Same plat queue l w (with_payload mes sz w)
      with_payload-Same mes sz l w out = elim (Bool-cases (sz == 0)) [
        | inl z ↦ rw z (sep.set_payload-Same mes none l w)
        | inr y ↦ rw y (
            Same-trans l w _ _ (sep.set_payload-Same mes (some (payload_of sizeof_mes mes)) l w)
              (sep.zero_bytes-Same (payload_of sizeof_mes mes) sz l _ out))
      ]

      abbrev new_header : ℕ → Header
      new_header sz =
          let s : SrcLen = zero_header.srclen in
          record zero_header { srclen = record s { len = sz } }

      set_up-Same :
          (mes sz : ℕ) (l : List ℕ) (w : W)
          → Apart mes l
          → Outside plat queue (payload_of sizeof_mes mes) sz l
          → Same plat queue l w (set_up plat sizeof_mes mes sz w)
      unfolding set_up
      set_up-Same mes sz l w a out =
          let w₁ = plat.set_header mes (new_header sz) w in
          let w₂ = with_payload mes sz w₁ in
          Same-trans l w w₁ _ (sep.set_header-Same mes (new_header sz) l w a) (
            Same-trans l w₁ w₂ _ (with_payload-Same mes sz l w₁ out)
              (sep.set_free_after_use-Same mes l w₂ a))

      set_up-info :
          (mes sz : ℕ) (w : W)
          → Outside plat queue (payload_of sizeof_mes mes) sz (mes ∷ [])
          → info plat mes (set_up plat sizeof_mes mes sz w) ≡ (sz, true)
      unfolding set_up
      set_up-info mes sz w out =
          let w₁ = plat.set_header mes (new_header sz) w in
          let w₂ = with_payload mes sz w₁ in
          let len : (plat.header mes (plat.set_free_after_use mes w₂)).srclen.len ≡ sz =
            ap (λ h. h.srclen.len) (sep.header-set_free_after_use mes w₂)
            ∙ ap (λ x. x.0) (with_payload-Same mes sz (mes ∷ []) w₁ out).infos.0
            ∙ ap (λ h. h.srclen.len) (sep.header-set_header mes (new_header sz) w) in
          λ i. (len i, sep.free_after_use-set mes w₂ i)

      -- A successful allocation: the new measurement has its length and its flag, the others and the
      -- queue are as they were, and the pool is charged.
      pub alloc-some :
          (sz mes : ℕ) (p p' : Pool) (w w' : W) (l : List ℕ)
          → SamplePool.alloc plat sizeof_mes sz (p, w) ≡ (some mes, p', w')
          → Apart mes l
          → Outside plat queue (payload_of sizeof_mes mes) sz (mes ∷ l)
          → (info plat mes w' ≡ (sz, true))
            × Same plat queue l w w'
            × (bytes_alloc p' ≡ bytes_alloc p +ℤ pos (charge sizeof_mes sz))
      unfolding SamplePool.alloc
      alloc-some sz mes p p' w w' l e a (low, high, (own, others)) =
          let w₁ = (plat.heap_alloc (sizeof_mes + sz) w).1 in
          let at : set_up plat sizeof_mes mes sz w₁ ≡ w' =
            elim (Option-cases (plat.heap_alloc (sizeof_mes + sz) w).0) [
              | inl f ↦ absurd (ground (arith, f, e))
              | inr (m, q) ↦ ground (arith, q, e)
            ] in
          let same : Same plat queue l w (set_up plat sizeof_mes mes sz w₁) =
            Same-trans l w w₁ _ (sep.heap_alloc-Same (sizeof_mes + sz) l w)
              (set_up-Same mes sz l w₁ a (low, high, others)) in
          (
            ap (info plat mes) (sym at) ∙ set_up-info mes sz w₁ (low, high, (own, tt)),
            subst (Same plat queue l w) at same,
            elim (alloc_outcome plat sizeof_mes sz p w) [
              | inl (f, _, _) ↦ absurd (ground (arith, e, f))
              | inr (m, _, _, b) ↦ rw e at b
            ],
          )

      -- One that finds no memory.
      pub alloc-none :
          (sz : ℕ) (p p' : Pool) (w w' : W) (l : List ℕ)
          → SamplePool.alloc plat sizeof_mes sz (p, w) ≡ (none, p', w')
          → Same plat queue l w w' × (bytes_alloc p' ≡ bytes_alloc p)
      unfolding SamplePool.alloc
      alloc-none sz p p' w w' l e =
          let at : (plat.heap_alloc (sizeof_mes + sz) w).1 ≡ w' =
            elim (Option-cases (plat.heap_alloc (sizeof_mes + sz) w).0) [
              | inl f ↦ ground (arith, f, e)
              | inr (m, q) ↦ absurd (ground (arith, q, e))
            ] in
          (
            subst (Same plat queue l w) at (sep.heap_alloc-Same (sizeof_mes + sz) l w),
            elim (alloc_outcome plat sizeof_mes sz p w) [
              | inl (_, _, b) ↦ rw e at b
              | inr (m, q, _, _) ↦ absurd (ground (arith, e, q))
            ],
          )
