-- ===== src/Samples/Throughput/Rounds.antt =====
-- The loop of `main` of samples/throughput/src/main.c: what it allocates, and where it stops.
use step.Common.{ℕ, Bool}
use step.Platform.{Platform, SlistTail}
use step.SamplePool
use step.SamplePool.{charge}
use step.ProcMgr.{NodeSub, System}
use step.ProcMgr.Timed.{Clock}
use step.Samples.Float.{Float}
use step.Samples.Throughput.{AccelPayload, payload_sz, publish}

module _ {F W : Type 0} (float : Float F) (plat : Platform W) (clock : Clock W)
    (instrumented : Bool) (set_accel : ℕ → AccelPayload F → W → W) (sizeof_mes : ℕ)
    (subs : SlistTail (NodeSub W)) where
  abbrev published : ℕ → System W → Bool × ℕ × System W
  published = publish float plat clock instrumented set_accel sizeof_mes subs

  abbrev cost : ℕ
  cost = charge sizeof_mes payload_sz
