-- ===== src/Pipeline/Runs/Tasks.antt =====
-- What a task of airflow/dags/ecommerce_pipeline.py that goes through does to the tables.
use local_data_platform.Prelude.{
  ℕ, String, ◌≡◌, Option, List, Result, ok, ◌>>=◌, bind-eq-ok, ok_inj, nat_eq, string_eq,
}
use local_data_platform.Pipeline.Watermark.{
  WatermarkRow, name_of, RunMode, incremental, backfill, TaskError, is_ready, is_member,
  pipeline_names,
}
use local_data_platform.Pipeline.Watermark
use local_data_platform.Pipeline.Extract.{Tables, extract_incremental}
use local_data_platform.Pipeline.Config.{Params}
use local_data_platform.Pipeline.Graph
use local_data_platform.Pipeline.Graph.{Task, upstream, DagRun, started, succeed}
use local_data_platform.Pipeline.Runs.{
  Entity, products, orders, order_items, payments, spec_of, World, tables_of, put_tables, window_of,
  watermark_of, extract, promoted, run_task,
}

-- An extract that went through.
pub record Extracted (d : Entity) (mode : RunMode) (w w' : World) : Type 0 where
  pub start : Option ℕ
  pub end : Option ℕ
  pub now : ℕ
  pub tables : Tables
  pub went :
      extract_incremental (spec_of d) mode start end now (w.source d) (tables_of d w) ≡ ok tables
  pub world : put_tables d w tables ≡ w'

-- It leaves the tables, or loads one of them, or commits the cursors.
pub data Effect (mode : RunMode) (w w' : World) : Type 0 where
  unchanged : w ≡ w' → Effect mode w w'
  extracted : (d : Entity) → Extracted d mode w w' → Effect mode w w'
  advanced :
      (now : ℕ) (rows : List WatermarkRow)
      → Watermark.advance_watermarks mode now w.watermarks ≡ ok rows
      → promoted w rows ≡ w'
      → Effect mode w w'

checked-Effect :
    (mode : RunMode) (check : Result TaskError (Unit {0})) (w w' : World)
    → (check >>= λ checked. ok w) ≡ ok w'
    → Effect mode w w'
checked-Effect mode check w w' h =
    let (checked, passed, done) = bind-eq-ok check _ h in unchanged (ok_inj done)

advance-Effect :
    (mode : RunMode) (now : ℕ) (w w' : World)
    → (Watermark.advance_watermarks mode now w.watermarks >>= λ rows. ok (promoted w rows)) ≡ ok w'
    → Effect mode w w'
advance-Effect mode now w w' h =
    let (rows, went, done) = bind-eq-ok (Watermark.advance_watermarks mode now w.watermarks) _ h in
    advanced now rows went (ok_inj done)

module _ (fromisoformat : String → Option ℕ) (timestamptz : String → Option ℕ)
    (uuid : String → ℕ) where
  pub extract-Extracted :
      (d : Entity) (params : Params) (now : ℕ) (w w' : World)
      → extract fromisoformat timestamptz uuid d params now w ≡ ok w'
      → Extracted d params.run_mode w w'
  unfolding extract
  extract-Extracted d params now w w' h =
      let (row, found, read) = bind-eq-ok (watermark_of d w) _ h in
      let ((start, end), window, rest) =
        bind-eq-ok (window_of fromisoformat timestamptz uuid params.run_mode params) _ read in
      let (t, loads, done) =
        bind-eq-ok
          (extract_incremental (spec_of d) params.run_mode start end now (w.source d)
            (tables_of d w))
          _ rest in
      record { start = start; end = end; now = now; tables = t; went = loads; world = ok_inj done }

  extract-Effect :
      (d : Entity) (params : Params) (now : ℕ) (w w' : World)
      → extract fromisoformat timestamptz uuid d params now w ≡ ok w'
      → Effect params.run_mode w w'
  extract-Effect d params now w w' h = extracted d (extract-Extracted d params now w w' h)

  pub run_task-Effect :
      (t : Task) (params : Params) (now : ℕ) (w w' : World)
      → run_task fromisoformat timestamptz uuid t params now w ≡ ok w'
      → Effect params.run_mode w w'
  unfolding run_task
  run_task-Effect Graph.validate_run_config params now w w' h =
      checked-Effect params.run_mode _ w w' h
  run_task-Effect Graph.extract_products params now w w' h =
      extract-Effect products params now w w' h
  run_task-Effect Graph.extract_orders params now w w' h = extract-Effect orders params now w w' h
  run_task-Effect Graph.extract_order_items params now w w' h =
      extract-Effect order_items params now w w' h
  run_task-Effect Graph.extract_payments params now w w' h =
      extract-Effect payments params now w w' h
  run_task-Effect Graph.validate_record_count params now w w' h =
      checked-Effect params.run_mode _ w w' h
  run_task-Effect Graph.validate_relationships params now w w' h =
      checked-Effect params.run_mode _ w w' h
  run_task-Effect Graph.run_dbt_transform params now w w' h = unchanged (ok_inj h)
  run_task-Effect Graph.run_iceberg_batch params now w w' h = unchanged (ok_inj h)
  run_task-Effect Graph.publish_order_events params now w w' h = unchanged (ok_inj h)
  run_task-Effect Graph.advance_watermarks params now w w' h =
      advance-Effect params.run_mode now w w' h
