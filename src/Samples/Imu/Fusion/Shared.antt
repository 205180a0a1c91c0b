-- ===== src/Samples/Imu/Fusion/Shared.antt =====
-- What the measurements of samples/fusion_imu/src/main.c hold when they are processed.
use step.Common.{
  ℕ, ◌%◌, ◌≡◌, ◌≢◌, refl, ap, ◌∙◌, Option, none, some, inl, inr, ◌⊎◌, Option-cases, if◌then◌else◌,
  ◌==◌, ◌&&◌, ok,
}
use step.Measurement.{Header, filter_bits, flags_bits}
use step.Measurement.Types.{type_code}
use step.Measurement.FieldValues.{timestamp_code}
use step.Filter.{evaluate, evaluate_from, apply_op, evaluate_filter, curr_eval}
use step.Node.{nodes_of}
use step.Platform.{Platform, SlistTail}
use step.SamplePool
use step.ProcMgr.{NodeSub, System, initialize_workqueue}
use step.ProcMgr.Process.{word_of, run_nodes, run_node, fire}
use step.ProcMgr.Submit.{put-submit}
use step.Samples.Imu.{ImuDataPayload, payload_sz, imu_measurement_header, Zsl}
use step.Samples.Imu.Fusion.{
  Quat, Euler, Memory, sample_of, orientation_filters, feed, fusion_do_process, to_degrees,
  fusion_do_streaming, fusion_node_chain, Stream, fill_mes, on_imu_data_production,
}

-- Samples, payload pointers, headers and the result of the fusion are read as they were written, and
-- do not overlap; the fusion writes none of them.
pub record Separate (F R W : Type 0) (plat : Platform W) (mem : Memory F R W) : Type 0 where
  pub imu-set_imu : (a : ℕ) (p : ImuDataPayload F) (w : W) → mem.imu a (mem.set_imu a p w) ≡ p
  pub imu-set_imu_ne :
      (a b : ℕ) (p : ImuDataPayload F) (w : W) → a ≢ b → mem.imu a (mem.set_imu b p w) ≡ mem.imu a w
  pub imu-set_header :
      (a mes : ℕ) (h : Header) (w : W) → mem.imu a (plat.set_header mes h w) ≡ mem.imu a w
  pub imu-set_payload :
      (a mes : ℕ) (p : Option ℕ) (w : W) → mem.imu a (plat.set_payload mes p w) ≡ mem.imu a w
  pub imu-feed :
      (a : ℕ) (x y : R × R × R) (q : Quat R) (w : W)
      → mem.imu a (mem.feed_handler x y q w).1 ≡ mem.imu a w
  pub imu-set_result :
      (a : ℕ) (e : Euler R) (w : W) → mem.imu a (mem.set_fusion_node_result e w) ≡ mem.imu a w
  pub payload-set_payload :
      (mes : ℕ) (p : Option ℕ) (w : W) → mem.payload mes (plat.set_payload mes p w) ≡ p
  pub payload-set_imu :
      (mes a : ℕ) (p : ImuDataPayload F) (w : W)
      → mem.payload mes (mem.set_imu a p w) ≡ mem.payload mes w
  pub payload-set_header :
      (mes : ℕ) (h : Header) (w : W) → mem.payload mes (plat.set_header mes h w) ≡ mem.payload mes w
  pub payload-feed :
      (mes : ℕ) (x y : R × R × R) (q : Quat R) (w : W)
      → mem.payload mes (mem.feed_handler x y q w).1 ≡ mem.payload mes w
  pub payload-set_result :
      (mes : ℕ) (e : Euler R) (w : W)
      → mem.payload mes (mem.set_fusion_node_result e w) ≡ mem.payload mes w
  pub result-set_result :
      (e : Euler R) (w : W) → mem.fusion_node_result (mem.set_fusion_node_result e w) ≡ e
  pub header-set_header :
      (mes : ℕ) (h : Header) (w : W) → plat.header mes (plat.set_header mes h w) ≡ h
  pub header-set_imu :
      (mes a : ℕ) (p : ImuDataPayload F) (w : W)
      → plat.header mes (mem.set_imu a p w) ≡ plat.header mes w

pub header-selected :
    evaluate (some orientation_filters) (some (filter_bits imu_measurement_header.filter))
    ≡ some (ok, 1)
unfolding imu_measurement_header type_code timestamp_code filter_bits flags_bits evaluate
    evaluate_from apply_op evaluate_filter curr_eval
header-selected = refl

module _ {F R W : Type 0} (plat : Platform W) (zsl : Zsl F R W) (mem : Memory F R W)
    (sep : Separate F R W plat mem) (sizeof_mes : ℕ) (subs : SlistTail (NodeSub W)) where
  abbrev streamed : ImuDataPayload F → Euler R → W → W
  streamed p e w =
      if p.streamable && (p.timestamp % 10 == 0)
      then mem.print p.timestamp (to_degrees zsl mem e.x) (to_degrees zsl mem e.y) w
      else w

  -- The angles that the fusion makes of a sample, and the memory in which they are stored.
  abbrev angles : ImuDataPayload F → W → Euler R
  angles p w = let (q, w₁) = feed zsl mem p w in mem.quat_to_euler q (mem.fusion_node_result w₁)

  abbrev solved : ImuDataPayload F → W → W
  solved p w = let (q, w₁) = feed zsl mem p w in mem.set_fusion_node_result (angles p w) w₁

  -- The memory after both nodes ran on the sample `p`: the angles are those of the fusion, and a line
  -- is printed for every tenth millisecond of a sample that is streamable.
  abbrev pub processed : ImuDataPayload F → W → W
  processed p w = streamed p (angles p w) (solved p w)

  -- The sample of a measurement by its pointer.
  pub sample_at :
      (mes a : ℕ) (p : ImuDataPayload F) (w : W)
      → mem.payload mes w ≡ some a
      → mem.imu a w ≡ p
      → sample_of zsl mem mes w ≡ p
  sample_at mes a p w at holds = ap (λ o. mem.imu (elim o [ none ↦ 0 | some b ↦ b ]) w) at ∙ holds

  run-chain :
      (mes handle a : ℕ) (p : ImuDataPayload F) (w : W)
      → mem.payload mes w ≡ some a
      → mem.imu a w ≡ p
      → run_nodes plat (nodes_of (fusion_node_chain zsl mem)) mes handle 0 w ≡ some (processed p w)
  unfolding run_nodes run_node fire fusion_do_process fusion_do_streaming feed
  run-chain mes handle a p w at holds =
      let w₁ = (feed zsl mem p w).1 in
      let w₂ = solved p w in
      let again : sample_of zsl mem mes w₂ ≡ p =
        sample_at mes a p w₂
          (sep.payload-set_result mes (angles p w) w₁ ∙ sep.payload-feed mes _ _ _ w ∙ at)
          (sep.imu-set_result a (angles p w) w₁ ∙ sep.imu-feed a _ _ _ w ∙ holds) in
      ap (λ x. some (fusion_do_streaming zsl mem mes handle 1 (solved x w)).1)
        (sample_at mes a p w at holds)
      ∙ (λ i. some (streamed (again i) (sep.result-set_result (angles p w) w₁ i) w₂))

  -- Let the samples, the pointers to payloads, the headers and the result of the fusion be stored
  -- apart. Then `on_imu_data_production` on the sample at `imu` does no more than step_sp_alloc if
  -- no measurement can be allocated. Otherwise it submits one with the header of the producer,
  -- which the root node selects, and whose payload is the address `imu` itself, not the memory that
  -- was allocated for it. So once the next sample `p` stands there, a run of the chain on the
  -- measurement processes `p`, whatever the sample was that was submitted.
  pub production-shared :
      (imu handle : ℕ) (p : ImuDataPayload F) (st : Stream F) (s : System W)
      → (let (r, pool, w₁) = SamplePool.alloc plat sizeof_mes payload_sz (s.pool, s.world) in
          let (st', s') = on_imu_data_production plat zsl mem sizeof_mes subs imu (st, s) in
          ((r ≡ none) × (st' ≡ st) × (s' ≡ record s { pool = pool; world = w₁ }))
          ⊎ ((mes : ℕ) × (w : W) × (r ≡ some mes)
              × (s' ≡ record {
                pm = initialize_workqueue s.pm;
                pool = pool;
                world = (plat.submit mes w).1;
              })
              × (let old = mem.imu imu w₁ in st'.raw ≡ record old { streamable = st.enable_stream })
              × (evaluate (some orientation_filters) (some (word_of plat mes w)) ≡ some (ok, 1))
              × (plat.header mes w ≡ imu_measurement_header)
              × (mem.payload mes w ≡ some imu)
              × (let w' = mem.set_imu imu p w in
                  run_nodes plat (nodes_of (fusion_node_chain zsl mem)) mes handle 0 w'
                  ≡ some (processed p w'))))
  unfolding on_imu_data_production fill_mes
  production-shared imu handle p st s =
      let (r, pool, w₁) = SamplePool.alloc plat sizeof_mes payload_sz (s.pool, s.world) in
      elim (Option-cases (SamplePool.alloc plat sizeof_mes payload_sz (s.pool, s.world)).0) [
        | inl e ↦ inl (e, rw (e, on_imu_data_production) refl, rw (e, on_imu_data_production) refl)
        | inr (mes, e) ↦
            let old = mem.imu imu w₁ in
            let sample : ImuDataPayload F = record old { streamable = st.enable_stream } in
            let w₂ = mem.set_imu imu sample w₁ in
            let w₃ = plat.set_payload mes (some imu) w₂ in
            let w = plat.set_header mes imu_measurement_header w₃ in
            let at : mem.payload mes w ≡ some imu =
              sep.payload-set_header mes imu_measurement_header w₃
              ∙ sep.payload-set_payload mes (some imu) w₂ in
            inr (
              mes,
              w,
              e,
              rw (e, on_imu_data_production)
                  (put-submit plat subs mes (record s { pool = pool; world = w })),
              rw (e, on_imu_data_production)
                  (sep.imu-set_header imu mes imu_measurement_header w₃
                    ∙ sep.imu-set_payload imu mes (some imu) w₂
                    ∙ sep.imu-set_imu imu sample w₁),
              ap (λ h. evaluate (some orientation_filters) (some (filter_bits h.filter)))
                    (sep.header-set_header mes imu_measurement_header w₃)
                  ∙ header-selected,
              sep.header-set_header mes imu_measurement_header w₃,
              at,
              run-chain mes handle imu p (mem.set_imu imu p w)
                  (sep.payload-set_imu mes imu p w ∙ at) (sep.imu-set_imu imu p w),
            )
      ]
