-- ===== src/Samples/Shell/Publish.antt =====
-- What the command `pub` of samples/shell/src/main.c publishes.
use step.Common.{ℕ, ◌≡◌, refl, ap, ◌∙◌, none, some, ok, inl, inr, ◌⊎◌, Option-cases, arith}
use step.Measurement.{filter_bits}
use step.Measurement.Words.{IsFilterFields}
use step.Measurement.Types.{type_code, temperature_code}
use step.Measurement.FieldValues.{format_code, encoding_code, compression_code, timestamp_code}
use step.Filter.{evaluate}
use step.Platform.{Platform, SlistTail}
use step.SamplePool
use step.ProcMgr.{NodeSub, System, initialize_workqueue, put}
use step.ProcMgr.Process.{word_of}
use step.ProcMgr.Submit.{put-submit}
use step.Samples.Float.{Float}
use step.Samples.Shell.{Memory, root_filters}
use step.Samples.Shell.Select.{root_filters-select}
use step.Samples.Shell.Driver.{payload_sz, drv_header, fill_mes, get_mes, cmd_pub}

-- Its fields fit their widths.
pub drv_header-IsFilterFields : IsFilterFields drv_header.filter
unfolding drv_header type_code temperature_code format_code encoding_code compression_code
    timestamp_code
drv_header-IsFilterFields = record {
  base_type = omega arith;
  ext_type = omega arith;
  flags = record {
    data_format = omega arith;
    encoding = omega arith;
    compression = omega arith;
    timestamp = omega arith;
    rsvd = omega arith;
  };
}

-- What the driver publishes is what the root node selects.
drv_header-selected :
    evaluate (some root_filters) (some (filter_bits drv_header.filter)) ≡ some (ok, 1)
unfolding drv_header
drv_header-selected =
    let (m, e, s) = root_filters-select drv_header.filter drv_header-IsFilterFields in
    elim s [ inl (one, _) ↦ rw (e, one) refl | inr (_, n) ↦ absurd (n (refl, inr refl, refl)) ]

module _ {F W : Type 0} (float : Float F) (plat : Platform W) (mem : Memory F W plat)
    (sizeof_mes : ℕ) (subs : SlistTail (NodeSub W)) where
  -- The driver fills in its header.
  pub fill_mes-header :
      (mes : ℕ) (w : W) → plat.header mes (fill_mes float plat mem sizeof_mes mes w) ≡ drv_header
  unfolding fill_mes
  fill_mes-header mes w =
      mem.header-set_temp_c mes mes _ _
      ∙ mem.header-set_timestamp mes mes _ _
      ∙ mem.header-uptime mes _
      ∙ mem.header-set_header mes _ w

  fill_mes-temp_c :
      (mes : ℕ) (w : W)
      → mem.temp_c mes (fill_mes float plat mem sizeof_mes mes w) ≡ float.literal 320 1
  unfolding fill_mes
  fill_mes-temp_c mes w = mem.temp_c-set_temp_c mes _ _

  -- The command `pub` of the shell sample returns 0. If no measurement can be allocated, then nothing
  -- is submitted: the pool and the memory are left as the failed allocation leaves them, and the
  -- registry as it was. Otherwise the measurement allocated is submitted, with the header of the
  -- driver and the temperature 32.0, and the filters of the root node of the sample select it.
  pub cmd_pub-outcome :
      (s : System W)
      → (let (r, p, w₁) = SamplePool.alloc plat sizeof_mes payload_sz (s.pool, s.world) in
          ((r ≡ none)
            × (cmd_pub float plat mem sizeof_mes subs s ≡ (ok, record s { pool = p; world = w₁ })))
          ⊎ ((mes : ℕ) × (w : W) × (r ≡ some mes)
              × (cmd_pub float plat mem sizeof_mes subs s ≡ (
                ok,
                record { pm = initialize_workqueue s.pm; pool = p; world = (plat.submit mes w).1 },
              ))
              × (plat.header mes w ≡ drv_header)
              × (mem.temp_c mes w ≡ float.literal 320 1)
              × (evaluate (some root_filters) (some (word_of plat mes w)) ≡ some (ok, 1))))
  unfolding cmd_pub get_mes put
  cmd_pub-outcome s =
      let (r, p, w₁) = SamplePool.alloc plat sizeof_mes payload_sz (s.pool, s.world) in
      elim (Option-cases (SamplePool.alloc plat sizeof_mes payload_sz (s.pool, s.world)).0) [
        | inl e ↦ inl (e, rw (e, cmd_pub, get_mes))
        | inr (mes, e) ↦
            let w = fill_mes float plat mem sizeof_mes mes w₁ in
            let header = fill_mes-header mes w₁ in
            inr (
              mes,
              w,
              e,
              rw (e, cmd_pub, get_mes)
                  (ap (λ s'. (ok, s'))
                    (put-submit plat subs mes (record s { pool = p; world = w }))),
              header,
              fill_mes-temp_c mes w₁,
              ap (λ h. evaluate (some root_filters) (some (filter_bits h.filter))) header
                  ∙ drv_header-selected,
            )
      ]
