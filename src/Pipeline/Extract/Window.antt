-- ===== src/Pipeline/Extract/Window.antt =====
-- What an extract of airflow/dags/ecommerce_pipeline.py that went through has loaded.
use local_data_platform.Prelude.{
  ℕ, ◌≡◌, Option, some, List, arith, ok, ok_inj, inl, inr, Option-cases, string_eq,
}
use local_data_platform.Sql.{find}
use local_data_platform.Pipeline.Watermark.{WatermarkRow, RunMode, incremental, backfill, name_of}
use local_data_platform.Pipeline.Extract.{
  SourceRow, TableSpec, pipeline_name, Tables, at_least, before, after, up_to, upper_bound,
  load_window, extract_incremental,
}

module _ (spec : TableSpec) (start end : Option ℕ) (now : ℕ) (source : List SourceRow)
    (t : Tables) where
  -- The window of a mode, by the cursor of the table.
  abbrev pub window_loaded : RunMode → WatermarkRow → Tables
  window_loaded incremental w =
      let upper = upper_bound w.watermark_value source in
      load_window spec incremental now (after w.watermark_value) (up_to upper) upper source t
  window_loaded backfill w = load_window spec backfill now (at_least start) (before end) 0 source t

  pub extract_incremental_loads :
      (mode : RunMode) (t' : Tables)
      → extract_incremental spec mode start end now source t ≡ ok t'
      → (w : WatermarkRow) × (find name_of (pipeline_name spec) t.watermarks ≡ some w)
        × (window_loaded mode w ≡ t')
  unfolding extract_incremental
  extract_incremental_loads incremental t' h =
      elim (Option-cases (find name_of (pipeline_name spec) t.watermarks)) [
        | inl absent ↦ absurd (ground arith)
        | inr (w, found) ↦ (w, found, ok_inj (rw (found, extract_incremental) at h))
      ]
  extract_incremental_loads backfill t' h =
      elim (Option-cases (find name_of (pipeline_name spec) t.watermarks)) [
        | inl absent ↦ absurd (ground arith)
        | inr (w, found) ↦ (w, found, ok_inj (rw (found, extract_incremental) at h))
      ]
