-- ===== src/Pipeline/Extract/Staged/Typed.antt =====
-- The rows of staging keep the columns that a load sets (airflow/dags/ecommerce_pipeline.py).
use local_data_platform.Prelude.{
  ℕ, ◌≡◌, subst, Option, List, [], ◌∷◌, select, nat_eq, string_eq, ok,
}
use local_data_platform.Pipeline.Watermark.{RunMode, incremental, backfill, WatermarkRow}
use local_data_platform.Pipeline.Extract.{
  SourceRow, StagedRow, TableSpec, Tables, at_least, before, after, up_to, in_window, upper_bound,
  upsert_all, load_window, extract_incremental,
}
use local_data_platform.Pipeline.Extract.Window.{window_loaded, extract_incremental_loads}
use local_data_platform.Pipeline.Extract.Staged.{HasSchema, put_row-HasSchema}

module _ (spec : TableSpec) (now : ℕ) where
  upsert_all-HasSchema :
      (rs : List SourceRow) (staging : List StagedRow)
      → HasSchema spec staging
      → HasSchema spec (upsert_all spec now rs staging)
  unfolding upsert_all
  upsert_all-HasSchema [] staging schema = schema
  upsert_all-HasSchema (r ∷ rs) staging schema =
      upsert_all-HasSchema rs _ (put_row-HasSchema spec now r staging schema)

  loaded-HasSchema :
      (mode : RunMode) (start end : Option ℕ) (source : List SourceRow) (t : Tables)
      (w : WatermarkRow)
      → HasSchema spec t.staging
      → HasSchema spec (window_loaded spec start end now source t mode w).staging
  unfolding load_window
  loaded-HasSchema incremental start end source t w schema =
      upsert_all-HasSchema
        (select (in_window (after w.watermark_value) (up_to (upper_bound w.watermark_value source)))
          source)
        t.staging schema
  loaded-HasSchema backfill start end source t w schema =
      upsert_all-HasSchema (select (in_window (at_least start) (before end)) source) t.staging
        schema

  -- In either mode, a run that goes through leaves every row of staging with every column that a load
  -- of the table sets, if every row had them before.
  pub extract_incremental-HasSchema :
      (mode : RunMode) (start end : Option ℕ) (source : List SourceRow) (t t' : Tables)
      → HasSchema spec t.staging
      → extract_incremental spec mode start end now source t ≡ ok t'
      → HasSchema spec t'.staging
  extract_incremental-HasSchema mode start end source t t' schema h =
      let (w, found, is) = extract_incremental_loads spec start end now source t mode t' h in
      subst (λ u. HasSchema spec u.staging) is (loaded-HasSchema mode start end source t w schema)
