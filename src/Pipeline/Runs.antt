-- ===== src/Pipeline/Runs.antt =====
-- The DAG of airflow/dags/ecommerce_pipeline.py at work: its tasks on the tables that they read and
-- write, run after run, while the source goes on changing. A task is one step, so that the source does
-- not change between the statements of one extract; the transaction of a task that fails is rolled
-- back. What dbt, the gateway and the producer write is outside of these tables. How Postgres reads a
-- timestamp and a UUID, and `datetime.fromisoformat`, are parameters.
pub mod Cursors
mod Tasks
pub mod Kept
mod Marks
mod Reached
pub mod CaughtUp
mod Tests
use local_data_platform.Prelude.{
  ℕ, ◌≤◌, ◌<◌, String, ◌≡◌, Bool, true, false, Option, none, some, List, [], ◌∷◌, map, Result, ok,
  err, ◌>>=◌, ◌⊎◌, nat_eq, string_eq, All, In, if◌then◌else◌,
}
use local_data_platform.Sql.{find, Unique}
use local_data_platform.Pipeline.Extract
use local_data_platform.Pipeline.Config
use local_data_platform.Pipeline.Checks
use local_data_platform.Pipeline.Graph
use local_data_platform.Pipeline.Watermark
use local_data_platform.Pipeline.Watermark.{
  WatermarkRow, name_of, RunMode, incremental, backfill, TaskError, bad_timestamp,
  missing_watermark,
}
use local_data_platform.Pipeline.Extract.{
  SourceRow, StagedRow, staged_id, TableSpec, pipeline_name, value_of_column, Tables,
  extract_incremental,
}
use local_data_platform.Pipeline.Extract.Staged.{source_id}
use local_data_platform.Pipeline.Config.{Params}
use local_data_platform.Pipeline.Checks.{Warehouse, OrderKeys, ItemKeys}
use local_data_platform.Pipeline.Graph.{Task, upstream}

pub data Entity : Type 0 where
  products orders order_items payments : Entity

abbrev pub spec_of : Entity → TableSpec
spec_of products = Extract.extract_products
spec_of orders = Extract.extract_orders
spec_of order_items = Extract.extract_order_items
spec_of payments = Extract.extract_payments

abbrev pub same_entity : Entity → Entity → Bool
same_entity products products = true
same_entity orders orders = true
same_entity order_items order_items = true
same_entity payments payments = true
same_entity _ _ = false

pub record World : Type 0 where
  pub source : Entity → List SourceRow
  -- No row of the source was updated later.
  pub clock : ℕ
  pub customers : List ℕ
  pub staging : Entity → List StagedRow
  pub watermarks : List WatermarkRow

abbrev pub tables_of : Entity → World → Tables
tables_of e w = record { watermarks = w.watermarks; staging = w.staging e }

abbrev pub put_tables : Entity → World → Tables → World
put_tables e w t = record w {
  watermarks = t.watermarks;
  staging = λ d. if same_entity e d then t.staging else w.staging d;
}

-- The row that `extract_incremental` reads first.
abbrev pub watermark_of : Entity → World → Result TaskError WatermarkRow
watermark_of e w = elim (find name_of (pipeline_name (spec_of e)) w.watermarks) [
  | none ↦ err (missing_watermark (pipeline_name (spec_of e)))
  | some row ↦ ok row
]

abbrev pub promoted : World → List WatermarkRow → World
promoted w rows = record w { watermarks = rows }

module _ (fromisoformat : String → Option ℕ) (timestamptz : String → Option ℕ)
    (uuid : String → ℕ) where
  abbrev pub read_time : Option ℕ → Result TaskError (Option ℕ)
  read_time none = err bad_timestamp
  read_time (some time) = ok (some time)

  -- A bound as Postgres reads it; None is NULL.
  abbrev pub read_bound : Option String → Result TaskError (Option ℕ)
  read_bound none = ok none
  read_bound (some text) = read_time (timestamptz text)

  -- A scheduled run has no bounds.
  abbrev pub window_of : RunMode → Params → Result TaskError (Option ℕ × Option ℕ)
  window_of incremental params = ok (none, none)
  window_of backfill params = do
    start ← read_bound params.backfill_start
    end ← read_bound params.backfill_end
    ok (start, end)

  unfoldable pub extract : Entity → Params → ℕ → World → Result TaskError World
  extract e params now w = do
    row ← watermark_of e w
    (start, end) ← window_of params.run_mode params
    t ← extract_incremental (spec_of e) params.run_mode start end now (w.source e) (tables_of e w)
    ok (put_tables e w t)

  abbrev pub key_of : String → StagedRow → ℕ
  key_of name r = uuid (value_of_column name r.columns "")

  -- What the validations join.
  abbrev pub warehouse : World → Warehouse
  warehouse w = record {
    customers = w.customers;
    products = map staged_id (w.staging products);
    orders =
        map (λ r. record { order_id = r.id; customer_id = key_of "customer_id" r })
          (w.staging orders);
    order_items =
        map (λ r. record { order_id = key_of "order_id" r; product_id = key_of "product_id" r })
          (w.staging order_items);
    payment_orders = map (key_of "order_id") (w.staging payments);
  }

  -- The body of a task that does not raise; of the three sinks, which write elsewhere, nothing.
  unfoldable pub run_task : Task → Params → ℕ → World → Result TaskError World
  unfolding extract
  run_task Graph.validate_run_config params now w = do
    checked ← Config.validate_run_config fromisoformat params
    ok w
  run_task Graph.extract_products params now w = extract products params now w
  run_task Graph.extract_orders params now w = extract orders params now w
  run_task Graph.extract_order_items params now w = extract order_items params now w
  run_task Graph.extract_payments params now w = extract payments params now w
  run_task Graph.validate_record_count params now w = do
    checked ← Checks.validate_record_count (warehouse w)
    ok w
  run_task Graph.validate_relationships params now w = do
    checked ← Checks.validate_relationships (warehouse w)
    ok w
  run_task Graph.run_dbt_transform params now w = ok w
  run_task Graph.run_iceberg_batch params now w = ok w
  run_task Graph.publish_order_events params now w = ok w
  run_task Graph.advance_watermarks params now w = do
    rows ← Watermark.advance_watermarks params.run_mode now w.watermarks
    ok (promoted w rows)

  -- The DAG's run: what it was triggered with, when, and the tasks that have succeeded.
  pub record Pipeline : Type 0 where
    pub world : World
    pub params : Params
    pub began : ℕ
    pub done : List Task

  -- What the applications and the CDC service do meanwhile: a row that appears or changes gets a time
  -- of update after every one before.
  pub record Changes (w : World) (source : Entity → List SourceRow) (clock : ℕ) : Type 0 where
    pub later : w.clock ≤ clock
    pub keyed : (e : Entity) → Unique source_id (source e)
    pub dated : (e : Entity) (r : SourceRow) → In r (source e) → r.updated_at ≤ clock
    pub fresh :
        (e : Entity) (r : SourceRow)
        → In r (source e)
        → In r (w.source e) ⊎ (w.clock < r.updated_at)

  -- max_active_runs=1: a run starts when the one before has ended, whether it went through or not.
  pub data Step (p : Pipeline) : Pipeline → Type 0 where
    changed :
        (source : Entity → List SourceRow) (clock : ℕ) (customers : List ℕ)
        → Changes p.world source clock
        → Step p (record p {
          world = record p.world { source = source; clock = clock; customers = customers };
        })
    triggered :
        (params : Params) → Step p (record p { params = params; began = p.world.clock; done = [] })
    succeeded :
        (t : Task) (now : ℕ) (w : World)
        → All (λ u. In u p.done) (upstream t)
        → run_task t p.params now p.world ≡ ok w
        → Step p (record p { world = w; done = t ∷ p.done })
    -- the transaction commits, and the worker is lost before it reports
    lost :
        (t : Task) (now : ℕ) (w : World)
        → All (λ u. In u p.done) (upstream t)
        → run_task t p.params now p.world ≡ ok w
        → Step p (record p { world = w })

  pub data Steps (p : Pipeline) : Pipeline → Type 0 where
    begin : Steps p p
    next : {q r : Pipeline} → Steps p q → Step q r → Steps p r
