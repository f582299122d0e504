-- ===== src/Pipeline/Graph.antt =====
-- The task graph of airflow/dags/ecommerce_pipeline.py: a task starts once every task upstream
-- of it has succeeded (the trigger rule `all_success`, which the DAG does not override).
pub mod Barrier
use local_data_platform.Prelude.{List, [], ◌∷◌, All, In}

pub data Task : Type 0 where
  validate_run_config : Task
  extract_products : Task
  extract_orders : Task
  extract_order_items : Task
  extract_payments : Task
  validate_record_count : Task
  validate_relationships : Task
  run_dbt_transform : Task
  run_iceberg_batch : Task
  publish_order_events : Task
  advance_watermarks : Task

-- The edges that `>>` draws: `a >> [b, c]` puts `a` upstream of `b` and `c`, and
-- `[b, c] >> d` puts both upstream of `d`.
abbrev pub upstream : Task → List Task
upstream validate_run_config = []
upstream extract_products = validate_run_config ∷ []
upstream extract_orders = validate_run_config ∷ []
upstream extract_order_items = validate_run_config ∷ []
upstream extract_payments = validate_run_config ∷ []
upstream validate_record_count =
    extract_products ∷ extract_orders ∷ extract_order_items ∷ extract_payments ∷ []
upstream validate_relationships = validate_record_count ∷ []
upstream run_dbt_transform = validate_relationships ∷ []
upstream run_iceberg_batch = validate_relationships ∷ []
upstream publish_order_events = validate_relationships ∷ []
upstream advance_watermarks = run_dbt_transform ∷ run_iceberg_batch ∷ publish_order_events ∷ []

-- The tasks that have succeeded, latest first, in any order that the graph allows. A task that
-- fails never enters the list, so nothing downstream of it does.
pub data DagRun : List Task → Type 0 where
  started : DagRun []
  succeed :
      (t : Task) {done : List Task}
      → DagRun done
      → All (λ u. In u done) (upstream t)
      → DagRun (t ∷ done)
