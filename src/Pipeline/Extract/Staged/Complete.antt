-- ===== src/Pipeline/Extract/Staged/Complete.antt =====
-- No row is skipped: what a scheduled extract and a backfill of
-- airflow/dags/ecommerce_pipeline.py guarantee of staging and of the cursors.
use local_data_platform.Prelude.{
  ℕ, max, ◌≤◌, ◌<◌, ◌≡◌, refl, Bool, false, Option, none, some, List, [], ◌∷◌, map, arith, ok,
  eq_iff, nat_eq, string_eq, select, inl, inr, Bool-cases, Option-cases, ap, ◌∙◌, In, here, there,
  In-select, nat_beq_iff,
}
use local_data_platform.Sql.{find, Unique}
use local_data_platform.Sql.Upsert.{key_of_find}
use local_data_platform.Sql.Selection.{
  select-Unique, find-select_absent, find-map, find-In, apply_to,
}
use local_data_platform.Pipeline.Watermark.{WatermarkRow, name_of, incremental, backfill}
use local_data_platform.Pipeline.Extract.{
  SourceRow, staged_id, TableSpec, pipeline_name, Tables, at_least, before, after, up_to, in_window,
  coalesce, max_updated_at, upper_bound, raise_candidate, upsert_all, load_window,
  extract_incremental,
}
use local_data_platform.Pipeline.Extract.Staged.{
  source_id, HasSchema, IsStaged, upsert_all_keeps, IsStaged-upsert_all, upsert_all-IsStaged,
}

max_updated_at_bounds :
    (source : List SourceRow) (r : SourceRow)
    → In r source
    → (t : ℕ) × (max_updated_at source ≡ some t) × (r.updated_at ≤ t)
unfolding max_updated_at
max_updated_at_bounds [] r i = elim i [ ]
max_updated_at_bounds (_ ∷ rs) r here = elim (Option-cases (max_updated_at rs)) [
  | inl p ↦ (r.updated_at, rw p, omega arith)
  | inr (t, p) ↦ (max r.updated_at t, rw p, omega arith)
]
max_updated_at_bounds (q ∷ rs) r (there i) =
    let (t, p, le) = max_updated_at_bounds rs r i in (max q.updated_at t, rw p, omega arith)

pub upper_bound_bounds :
    (lower : ℕ) (source : List SourceRow) (r : SourceRow)
    → In r source
    → r.updated_at ≤ upper_bound lower source
upper_bound_bounds lower source r i = let (t, p, le) = max_updated_at_bounds source r i in rw p le

-- A key that is not found is no row's.
absent_of_Unique :
    (rs : List SourceRow) (p : SourceRow → Bool) (r : SourceRow)
    → Unique source_id rs
    → In r rs
    → p r ≡ false
    → find source_id r.id (select p rs) ≡ none
unfolding find
absent_of_Unique [] p r u i h = elim i [ ]
absent_of_Unique (_ ∷ rs) p r u here h = rw h (find-select_absent source_id p r.id rs u.0)
absent_of_Unique (q ∷ rs) p r u (there i) h =
    ground (arith, absent_of_Unique rs p r u.1 i h, find-In source_id rs r i, nat_beq_iff q.id r.id)

none_selected :
    (p : SourceRow → Bool) (id : ℕ) (rs : List SourceRow)
    → ((r : SourceRow) → In r rs → r.id ≡ id → p r ≡ false)
    → find source_id id (select p rs) ≡ none
unfolding find
none_selected p id [] h = refl
none_selected p id (r ∷ rs) h =
    ground (arith, h r here, nat_beq_iff r.id id, none_selected p id rs (λ q i. h q (there i)))

module _ (spec : TableSpec) (now : ℕ) (source : List SourceRow) (t : Tables) where
  -- What a load does to a row of the source, in the window or out of it.
  pub load_window-IsStaged :
      (p : SourceRow → Bool) (r : SourceRow)
      → Unique source_id source
      → HasSchema spec t.staging
      → (p r ≡ false → IsStaged spec t.staging r)
      → In r source
      → IsStaged spec (upsert_all spec now (select p source) t.staging) r
  load_window-IsStaged p r u schema before_it i = elim (Bool-cases (p r)) [
    | inl selected ↦
        upsert_all-IsStaged spec now (select p source) r t.staging
          (select-Unique source_id p source u) schema (In-select p source r i selected)
    | inr left_out ↦
        IsStaged-upsert_all spec now (select p source) r t.staging
          (absent_of_Unique source p r u i left_out) (before_it left_out)
  ]

  pub raised :
      (w : WatermarkRow) (upper : ℕ)
      → find name_of (pipeline_name spec) t.watermarks ≡ some w
      → find name_of
          (pipeline_name spec)
          (map (raise_candidate (pipeline_name spec) upper) t.watermarks)
        ≡ some (raise_candidate (pipeline_name spec) upper w)
  raised w upper h =
      find-map name_of (raise_candidate (pipeline_name spec) upper) (λ v. ground arith)
        (pipeline_name spec) t.watermarks
      ∙ ap (apply_to name_of (raise_candidate (pipeline_name spec) upper)) h

  -- If the cursor of the table exists, the source's keys are unique, every staged row has the columns
  -- that a load sets, and staging shows every source row up to the committed watermark, then a
  -- scheduled extract goes through, and staging shows every source row after it. The committed
  -- watermark stays, and the candidate lies at or above the update time of every source row.
  pub extract_incremental_complete :
      (start end : Option ℕ) (w : WatermarkRow)
      → find name_of (pipeline_name spec) t.watermarks ≡ some w
      → Unique source_id source
      → HasSchema spec t.staging
      → ((r : SourceRow)
          → In r source
          → r.updated_at ≤ w.watermark_value
          → IsStaged spec t.staging r)
      → (t' : Tables) × (w' : WatermarkRow) × (c : ℕ) × (extract_incremental spec incremental start
            end now source t
          ≡ ok t')
        × ((r : SourceRow) → In r source → IsStaged spec t'.staging r)
        × (find name_of (pipeline_name spec) t'.watermarks ≡ some w')
        × (w'.watermark_value ≡ w.watermark_value)
        × (w'.candidate_value ≡ some c)
        × ((r : SourceRow) → In r source → r.updated_at ≤ c)
  unfolding extract_incremental
  extract_incremental_complete start end w h u schema staged =
      let upper = upper_bound w.watermark_value source in
      let name = pipeline_name spec in
      let p = in_window (after w.watermark_value) (up_to upper) in
      (
        load_window spec incremental now (after w.watermark_value) (up_to upper) upper source t,
        raise_candidate name upper w,
        max (coalesce w.candidate_value upper) upper,
        rw (h, extract_incremental),
        λ r i.
            load_window-IsStaged p r u schema
              (λ out. staged r i (ground (arith, upper_bound_bounds w.watermark_value source r i)))
              i,
        raised w upper h,
        ground arith,
        ground (arith, key_of_find name_of name t.watermarks h, eq_iff w.pipeline_name name),
        λ r i. omega (arith, upper_bound_bounds w.watermark_value source r i),
      )

  -- If the cursor of the table exists, the source's keys are unique and every staged row has the
  -- columns that a load sets, then a backfill with both bounds goes through and leaves every cursor
  -- alone. Every source row of [start, end) is staged, and the staged row of a key that has no source
  -- row in [start, end) stays as it was.
  pub extract_backfill_exact :
      (start end : ℕ) (w : WatermarkRow)
      → find name_of (pipeline_name spec) t.watermarks ≡ some w
      → Unique source_id source
      → HasSchema spec t.staging
      → (t' : Tables) × (extract_incremental spec backfill (some start) (some end) now source t
          ≡ ok t')
        × (t'.watermarks ≡ t.watermarks)
        × ((r : SourceRow)
            → In r source
            → start ≤ r.updated_at
            → r.updated_at < end
            → IsStaged spec t'.staging r)
        × ((id : ℕ)
            → ((r : SourceRow)
                → In r source
                → r.id ≡ id
                → start ≤ r.updated_at
                → end ≤ r.updated_at)
            → find staged_id id t'.staging ≡ find staged_id id t.staging)
  unfolding extract_incremental
  extract_backfill_exact start end w h u schema =
      let p = in_window (at_least (some start)) (before (some end)) in
      (
        load_window spec backfill now (at_least (some start)) (before (some end)) 0 source t,
        rw (h, extract_incremental),
        refl,
        λ r i from to. load_window-IsStaged p r u schema (λ out. absurd (ground arith)) i,
        λ id outside.
            upsert_all_keeps spec now (select p source) id t.staging
              (none_selected p id source (λ r i e. ground (arith, outside r i e))),
      )
