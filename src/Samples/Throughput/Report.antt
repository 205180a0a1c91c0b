-- ===== src/Samples/Throughput/Report.antt =====
-- What `main` of samples/throughput/src/main.c reports.
use step.Common.{
  ℕ, zero, suc, ◌/◌, ◌<◌, ◌≤◌, ◌≡◌, refl, ap, ◌∙◌, Bool, true, false, Option, none, some, ◌>>=◌,
  inl, inr, ◌⊎◌, ok, Bool-cases, Option-cases, ltb, ltb→lt, arith,
}
use step.Node.{Chain}
use step.Platform.{Platform, Slist, SlistTail}
use step.SamplePool
use step.SamplePool.{add32}
use step.ProcMgr.{NodeSub, Config, System}
use step.ProcMgr.Register.{register}
use step.ProcMgr.Timed.{Clock, divide}
use step.Samples.Float.{Float}
use step.Samples.Throughput.{
  AccelPayload, throughput_msgs, payload_sz, instr_start, instr_stop, report, publish, rounds,
  throughput_main,
}

report-short : (t : ℕ) → t < 1000000 → report t ≡ none
unfolding report divide
report-short t h = ground arith

report-long :
    (t : ℕ) → 1000000 ≤ t → report t ≡ some (t / 1000, t / 1000 / 1000, 1000000 / (t / 1000 / 1000))
unfolding report divide
report-long t h = ground arith

module _ {F W : Type 0} (float : Float F) (plat : Platform W) (clock : Clock W)
    (set_accel : ℕ → AccelPayload F → W → W) (sizeof_mes : ℕ) (subs : SlistTail (NodeSub W)) where
  -- Without the instrumentation no time is counted.
  publish-untimed :
      (s : System W) → (publish float plat clock false set_accel sizeof_mes subs 0 s).1 ≡ 0
  unfolding publish instr_start instr_stop
  publish-untimed s =
      elim (Option-cases (SamplePool.alloc plat sizeof_mes payload_sz (s.pool, s.world)).0) [
        | inl e ↦ rw (e, publish)
        | inr (mes, e) ↦ rw (e, publish)
      ]

  rounds-untimed :
      (n : ℕ) (s : System W)
      → (rounds float plat clock false set_accel sizeof_mes subs n 0 0 s).1 ≡ 0
  unfolding rounds
  rounds-untimed zero s = refl
  rounds-untimed (suc n) s =
      let (found, instr', s') = publish float plat clock false set_accel sizeof_mes subs 0 s in
      elim (Bool-cases (publish float plat clock false set_accel sizeof_mes subs 0 s).0) [
        | inr e ↦ rw (e, rounds)
        | inl e ↦
            rw (e, rounds)
              (ap
                  (λ i.
                    (rounds float plat clock false set_accel sizeof_mes subs n i (add32 0 i) s').1)
                  (publish-untimed s)
                ∙ rounds-untimed n s')
      ]

  -- The end of `main` in the three cases.
  abbrev pub Reported : Bool × ℕ × System W → Option (Option (ℕ × ℕ × ℕ) × System W) → Type 0
  Reported (ended, t, s') result =
      ((ended ≡ false) × (result ≡ some (none, s')))
      ⊎ ((ended ≡ true)
          × (((t < 1000000) × (result ≡ none))
              ⊎ ((1000000 ≤ t)
                  × (result
                      ≡ some (some (t / 1000, t / 1000 / 1000, 1000000 / (t / 1000 / 1000)), s')))))

  reported :
      (r : Bool × ℕ × System W)
      → Reported r (
          let (ended, t, s') = r in
          elim ended [
            | false ↦ some (none, s')
            | true ↦ (do lines ← report t; some (some lines, s'))
          ])
  reported (false, t, s') = inl (refl, refl)
  reported (true, t, s') = elim (Bool-cases (ltb t 1000000)) [
    | inl l ↦
        let short = ltb→lt t 1000000 l in inr (refl, inl (short, rw (report-short t short) refl))
    | inr g ↦
        let long : 1000000 ≤ t = ground (arith, g) in
        inr (refl, inr (long, rw (report-long t long) refl))
  ]

  -- If its node is registered, `main` ends without a report when the loop stops because the sample
  -- pool is exhausted. When the loop ends, the report has the microseconds in total and for a sample,
  -- and the samples of a second; but it is a division by 0 if the measured total is less than a
  -- millisecond, and so always if CONFIG_STEP_INSTRUMENTATION is not set, when the total is 0.
  pub main-report :
      (instrumented : Bool) (sl : Slist ℕ) (cfg : Config) (chain : Chain W) (handle : ℕ)
      (s s₁ : System W)
      → register sl cfg (some chain) 0 s ≡ some (ok, handle, s₁)
      → (let r =
            rounds float plat clock instrumented set_accel sizeof_mes subs throughput_msgs 0 0 s₁ in
          Reported r
            (throughput_main float plat clock instrumented set_accel sizeof_mes subs sl cfg chain s)
          × ((instrumented ≡ true) ⊎ (r.1 ≡ 0)))
  unfolding throughput_main
  main-report instrumented sl cfg chain handle s s₁ e =
      let r =
        rounds float plat clock instrumented set_accel sizeof_mes subs throughput_msgs 0 0 s₁ in
      (rw (e, throughput_main) (reported r), untimed instrumented)
    where
      untimed :
          (b : Bool)
          → (b ≡ true)
            ⊎ ((rounds float plat clock b set_accel sizeof_mes subs throughput_msgs 0 0 s₁).1 ≡ 0)
      untimed true = inl refl
      untimed false = inr (rounds-untimed throughput_msgs s₁)
