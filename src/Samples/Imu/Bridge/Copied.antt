-- ===== src/Samples/Imu/Bridge/Copied.antt =====
-- What the measurements of samples/ros2_to_step_bridge/src/main.c hold when they are processed.
use step.Common.{ℕ, ◌≡◌, ◌≢◌, refl, ap, ◌∙◌, true, none, some, inl, inr, ◌⊎◌, Option-cases, ok}
use step.Measurement.{filter_bits}
use step.Filter.{evaluate}
use step.Node.{nodes_of}
use step.Platform.{Platform, SlistTail}
use step.SamplePool
use step.ProcMgr.{NodeSub, System, initialize_workqueue, put}
use step.ProcMgr.Process.{word_of, run_nodes, run_node, fire}
use step.ProcMgr.Submit.{put-submit}
use step.Samples.Imu.{ImuDataPayload, payload_sz, imu_measurement_header, Zsl}
use step.Samples.Imu.Fusion.{Memory, orientation_filters}
use step.Samples.Imu.Fusion.Shared.{Separate, header-selected, sample_at}
use step.Samples.Imu.Bridge.{
  MicroRos, publish_sample, sensor_do_process, sensor_node_chain, fill_mes, on_imu_data_production,
}

module _ {F R W : Type 0} (plat : Platform W) (zsl : Zsl F R W) (mem : Memory F R W)
    (ros : MicroRos R W) (sep : Separate F R W plat mem) (sizeof_mes : ℕ)
    (subs : SlistTail (NodeSub W)) where
  run-chain :
      (mes handle a : ℕ) (p : ImuDataPayload F) (w : W)
      → mem.payload mes w ≡ some a
      → mem.imu a w ≡ p
      → run_nodes plat (nodes_of (sensor_node_chain zsl mem ros)) mes handle 0 w
        ≡ some (publish_sample zsl mem ros p w)
  unfolding run_nodes run_node fire sensor_do_process
  run-chain mes handle a p w at holds =
      ap (λ x. some (publish_sample zsl mem ros x w))
        (sample_at plat zsl mem sep sizeof_mes subs mes a p w at holds)

  -- Let the samples, the pointers to payloads, the headers and the result of the fusion be stored
  -- apart. Then `on_imu_data_production` on the sample at `imu` does no more than step_sp_alloc if
  -- no measurement can be allocated. Otherwise, if the payload that was allocated is not at `imu`,
  -- it submits a measurement with the header of the producer, which the node selects, and with a
  -- copy of the sample for its payload. A run of the chain on the measurement publishes this
  -- sample, whatever the sample `p` is that has been stored at `imu` since.
  pub production-copied :
      (imu handle : ℕ) (p : ImuDataPayload F) (s : System W)
      → (let (r, pool, w₁) = SamplePool.alloc plat sizeof_mes payload_sz (s.pool, s.world) in
          (mes : ℕ) → r ≡ some mes → (a : ℕ) × (mem.payload mes w₁ ≡ some a) × (a ≢ imu))
      → (let (r, pool, w₁) = SamplePool.alloc plat sizeof_mes payload_sz (s.pool, s.world) in
          let s' = on_imu_data_production plat mem sizeof_mes subs imu s in
          let old = mem.imu imu w₁ in
          let sample = record old { streamable = true } in
          ((r ≡ none) × (s' ≡ record s { pool = pool; world = w₁ }))
          ⊎ ((mes : ℕ) × (w : W) × (r ≡ some mes)
              × (s' ≡ record {
                pm = initialize_workqueue s.pm;
                pool = pool;
                world = (plat.submit mes w).1;
              })
              × (evaluate (some orientation_filters) (some (word_of plat mes w)) ≡ some (ok, 1))
              × (plat.header mes w ≡ imu_measurement_header)
              × ((a : ℕ) × (mem.payload mes w ≡ some a) × (a ≢ imu) × (mem.imu a w ≡ sample))
              × (let w' = mem.set_imu imu p w in
                  run_nodes plat (nodes_of (sensor_node_chain zsl mem ros)) mes handle 0 w'
                  ≡ some (publish_sample zsl mem ros sample w'))))
  unfolding on_imu_data_production fill_mes
  production-copied imu handle p s away =
      let (r, pool, w₁) = SamplePool.alloc plat sizeof_mes payload_sz (s.pool, s.world) in
      elim (Option-cases (SamplePool.alloc plat sizeof_mes payload_sz (s.pool, s.world)).0) [
        | inl e ↦ inl (e, rw (e, on_imu_data_production) refl)
        | inr (mes, e) ↦
            let (a, at, apart) = away mes e in
            let old = mem.imu imu w₁ in
            let sample : ImuDataPayload F = record old { streamable = true } in
            let w₂ = mem.set_imu imu sample w₁ in
            let w₃ = plat.set_header mes imu_measurement_header w₂ in
            let w = mem.set_imu a sample w₃ in
            let at₃ : mem.payload mes w₃ ≡ some a =
              sep.payload-set_header mes imu_measurement_header w₂
              ∙ sep.payload-set_imu mes imu sample w₁
              ∙ at in
            let read : mem.imu imu w₃ ≡ sample =
              sep.imu-set_header imu mes imu_measurement_header w₂
              ∙ sep.imu-set_imu imu sample w₁ in
            let filled : fill_mes plat mem sizeof_mes subs imu mes w₁ ≡ w =
              ap (λ o. mem.set_imu (elim o [ none ↦ 0 | some b ↦ b ]) (mem.imu imu w₃) w₃) at₃
              ∙ ap (λ x. mem.set_imu a x w₃) read in
            inr (
              mes,
              w,
              e,
              rw (e, on_imu_data_production)
                  (ap (λ x. (put plat subs (some mes) (record s { pool = pool; world = x })).1)
                      filled
                    ∙ put-submit plat subs mes (record s { pool = pool; world = w })),
              ap (λ h. evaluate (some orientation_filters) (some (filter_bits h.filter)))
                    (sep.header-set_imu mes a sample w₃
                      ∙ sep.header-set_header mes imu_measurement_header w₂)
                  ∙ header-selected,
              sep.header-set_imu mes a sample w₃
                  ∙ sep.header-set_header mes imu_measurement_header w₂,
              (a, sep.payload-set_imu mes a sample w₃ ∙ at₃, apart, sep.imu-set_imu a sample w₃),
              run-chain mes handle a sample (mem.set_imu imu p w)
                  (sep.payload-set_imu mes imu p w ∙ sep.payload-set_imu mes a sample w₃ ∙ at₃)
                  (sep.imu-set_imu_ne a imu p w apart ∙ sep.imu-set_imu a sample w₃),
            )
      ]
