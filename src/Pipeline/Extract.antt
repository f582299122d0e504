-- ===== src/Pipeline/Extract.antt =====
-- `extract_incremental` of airflow/dags/ecommerce_pipeline.py and the four tasks that call it: one
-- closed window of a source table is upserted into staging, with the candidate watermark.
pub mod Staged
pub mod Windows
pub mod Window
use Prim.Native.String.{◌++◌ as ◌<>◌}
use local_data_platform.Prelude.{
  ℕ, max, String, Bool, true, false, not, ◌&&◌, Option, none, some, List, [], ◌∷◌, map, Result, ok,
  err, ◌>>=◌, ◌==◌, nat_eq, string_eq, ltb, leb, select, if◌then◌else◌,
}
use local_data_platform.Sql.{find, upsert}
use local_data_platform.Pipeline.Watermark.{
  WatermarkRow, name_of, RunMode, incremental, backfill, TaskError, missing_watermark,
}

-- A row of public.<table>. Its key is a UUID, a 128-bit number; the other columns are read by name.
pub record SourceRow : Type 0 where
  pub id : ℕ
  pub updated_at : ℕ
  pub column : String → String

-- A row of staging.<table>: its columns in the order of `target_columns`.
pub record StagedRow : Type 0 where
  pub id : ℕ
  pub columns : List (String × String)
  pub loaded_at : ℕ

abbrev pub staged_id : StagedRow → ℕ
staged_id r = r.id

-- The arguments of a call that name the table and its columns.
pub record TableSpec : Type 0 where
  pub table_name : String
  pub primary_key : String
  pub target_columns : List String
  pub source_columns : List String

-- f"staging_{table_name}"
abbrev pub pipeline_name : TableSpec → String
pipeline_name spec = "staging_" <> spec.table_name

pub data Bound : Type 0 where
  -- `>=` and `<` of a backfill
  at_least before : Option ℕ → Bound
  -- `>` and `<=` of a scheduled run
  after up_to : ℕ → Bound

-- A comparison with NULL is not true.
abbrev pub passes : Bound → ℕ → Bool
passes (at_least none) t = false
passes (at_least (some b)) t = leb b t
passes (before none) t = false
passes (before (some b)) t = ltb t b
passes (after b) t = ltb b t
passes (up_to b) t = leb t b

-- COALESCE(MAX(updated_at), bound)
unfoldable pub max_updated_at : List SourceRow → Option ℕ
max_updated_at [] = none
max_updated_at (r ∷ rs) = elim (max_updated_at rs) [
  | none ↦ some r.updated_at
  | some t ↦ some (max r.updated_at t)
]

abbrev pub coalesce : Option ℕ → ℕ → ℕ
coalesce none b = b
coalesce (some t) b = t

abbrev pub upper_bound : ℕ → List SourceRow → ℕ
upper_bound lower source = coalesce (max_updated_at source) lower

-- INSERT INTO staging (target_columns) SELECT source_columns
abbrev pub project : List String → List String → SourceRow → List (String × String)
project [] sources r = []
project (t ∷ ts) [] r = []
project (t ∷ ts) (s ∷ ss) r = (t, r.column s) ∷ project ts ss r

abbrev pub staged_row : TableSpec → ℕ → SourceRow → StagedRow
staged_row spec now r = record {
  id = r.id;
  columns = project spec.target_columns spec.source_columns r;
  loaded_at = now;
}

-- `column = EXCLUDED.column` for every column but the key's.
abbrev pub value_of_column : String → List (String × String) → String → String
value_of_column name [] stored = stored
value_of_column name ((c, v) ∷ cs) stored = if c == name then v else value_of_column name cs stored

abbrev pub set_columns :
    String → List (String × String) → List (String × String) → List (String × String)
set_columns key excluded [] = []
set_columns key excluded ((c, v) ∷ stored) =
    (c, (if c == key then v else value_of_column c excluded v)) ∷ set_columns key excluded stored

abbrev pub refresh : TableSpec → StagedRow → StagedRow → StagedRow
refresh spec excluded stored = record stored {
  columns = set_columns spec.primary_key excluded.columns stored.columns;
  loaded_at = excluded.loaded_at;
}

abbrev pub always : StagedRow → StagedRow → Bool
always excluded stored = true

unfoldable pub upsert_all : TableSpec → ℕ → List SourceRow → List StagedRow → List StagedRow
upsert_all spec now [] staging = staging
upsert_all spec now (r ∷ rs) staging =
    upsert_all spec now rs (upsert staged_id always (refresh spec) (staged_row spec now r) staging)

-- SET candidate_value = GREATEST(COALESCE(candidate_value, upper), upper)
abbrev pub raise_candidate : String → ℕ → WatermarkRow → WatermarkRow
raise_candidate pipeline upper w =
    if w.pipeline_name == pipeline
    then record w { candidate_value = some (max (coalesce w.candidate_value upper) upper) }
    else w

pub record Tables : Type 0 where
  pub watermarks : List WatermarkRow
  pub staging : List StagedRow

abbrev pub in_window : Bound → Bound → SourceRow → Bool
in_window lower upper r = passes lower r.updated_at && passes upper r.updated_at

-- The statement of `hook.run`, which is one transaction.
unfoldable pub load_window :
    TableSpec → RunMode → ℕ → Bound → Bound → ℕ → List SourceRow → Tables → Tables
unfolding upsert_all
load_window spec mode now lower upper candidate source t = record {
  staging = upsert_all spec now (select (in_window lower upper) source) t.staging;
  watermarks = elim mode [
    | incremental ↦ map (raise_candidate (pipeline_name spec) candidate) t.watermarks
    | backfill ↦ t.watermarks
  ];
}

unfoldable pub extract_incremental :
    TableSpec
    → RunMode
    → Option ℕ
    → Option ℕ
    → ℕ
    → List SourceRow
    → Tables
    → Result TaskError Tables
unfolding load_window max_updated_at
extract_incremental spec mode backfill_start backfill_end now source t =
    elim (find name_of (pipeline_name spec) t.watermarks) [
      | none ↦ err (missing_watermark (pipeline_name spec))
      | some w ↦ elim mode [
        | backfill ↦ ok (
            load_window spec backfill now (at_least backfill_start) (before backfill_end) 0 source
              t)
        | incremental ↦
            let upper = upper_bound w.watermark_value source in
            ok (
              load_window spec incremental now (after w.watermark_value) (up_to upper) upper source
                t)
      ]
    ]

-- The calls of the four tasks.
abbrev pub same_columns : String → String → List String → TableSpec
same_columns table key columns = record {
  table_name = table;
  primary_key = key;
  target_columns = columns;
  source_columns = columns;
}

abbrev pub extract_products : TableSpec
extract_products =
    same_columns "products" "product_id"
      ("product_id" ∷ "name" ∷ "category" ∷ "price" ∷ "created_at" ∷ "updated_at" ∷ [])

abbrev pub extract_orders : TableSpec
extract_orders = same_columns "orders" "order_id" (
    "order_id" ∷ "customer_id" ∷ "order_date" ∷ "status" ∷ "total_amount" ∷ "created_at"
    ∷ "updated_at" ∷ [])

abbrev pub extract_order_items : TableSpec
extract_order_items = same_columns "order_items" "order_item_id" (
    "order_item_id" ∷ "order_id" ∷ "product_id" ∷ "quantity" ∷ "unit_price" ∷ "created_at"
    ∷ "updated_at" ∷ [])

abbrev pub extract_payments : TableSpec
extract_payments = record {
  table_name = "payments";
  primary_key = "payment_id";
  target_columns =
      "payment_id" ∷ "order_id" ∷ "amount" ∷ "payment_method" ∷ "payment_status" ∷ "paid_at"
      ∷ "created_at" ∷ "updated_at" ∷ [];
  source_columns =
      "payment_id" ∷ "order_id" ∷ "amount" ∷ "payment_method" ∷ "status" ∷ "paid_at" ∷ "created_at"
      ∷ "updated_at" ∷ [];
}
