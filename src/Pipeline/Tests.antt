-- ===== src/Pipeline/Tests.antt =====
-- Runs of the tasks of airflow/dags/ecommerce_pipeline.py on small tables.
use local_data_platform.Prelude.{
  ℕ, ◌≤◌, ◌<◌, max, String, ◌≡◌, refl, true, Option, none, some, List, [], ◌∷◌, arith, ok, In, here,
  there, string_eq, nat_eq, All-In, if◌then◌else◌, ◌==◌,
}
use local_data_platform.Sql.{find, Unique}
use local_data_platform.Pipeline.Watermark.{
  WatermarkRow, name_of, incremental, backfill, missing_candidates, promote_all, advance_watermarks,
}
use local_data_platform.Pipeline.Watermark.Advance.{advance_watermarks_commits}
use local_data_platform.Pipeline.Extract.{
  SourceRow, staged_id, pipeline_name, Tables, after, up_to, load_window, max_updated_at,
  extract_incremental, extract_payments,
}
use local_data_platform.Pipeline.Extract.Staged.Typed.{extract_incremental-HasSchema}
use local_data_platform.Pipeline.Extract.Staged.{source_id, HasSchema, IsStaged}
use local_data_platform.Pipeline.Extract.Staged.Complete.{
  extract_incremental_complete, extract_backfill_exact,
}
use local_data_platform.Pipeline.Config.{Params, replace_z, validate_run_config}
use local_data_platform.Pipeline.Checks.{Warehouse}
use local_data_platform.Pipeline.Graph.{
  Task, DagRun, started, succeed, advance_watermarks as commit, validate_run_config as config,
  extract_products as products, extract_orders as orders, extract_order_items as items,
  extract_payments as payments, validate_record_count as counts,
  validate_relationships as relations, run_dbt_transform as dbt, run_iceberg_batch as iceberg,
  publish_order_events as events,
}
use local_data_platform.Pipeline.Graph.Barrier.{advance_watermarks_last}

abbrev watermark : String → Option ℕ → WatermarkRow
watermark name candidate = record {
  pipeline_name = name;
  watermark_value = 10;
  candidate_value = candidate;
  active = true;
  updated_at = 0;
}

abbrev watermarks : List WatermarkRow
watermarks =
    watermark "staging_products" (some 12)
    ∷ watermark "staging_orders" (some 9)
    ∷ watermark "staging_order_items" (some 10)
    ∷ watermark "staging_payments" (some 30)
    ∷ watermark "other" none
    ∷ []

watermarks-Unique : Unique name_of watermarks
unfolding find
watermarks-Unique = (refl, (refl, (refl, (refl, (refl, tt)))))

promoted : advance_watermarks incremental 50 watermarks ≡ ok (promote_all 50 watermarks)
unfolding advance_watermarks missing_candidates
promoted = refl

advance_watermarks_commits_example :
    (w : WatermarkRow) × (c : ℕ) × (find name_of "staging_orders" watermarks ≡ some w)
    × (w.candidate_value ≡ some c)
    × (find name_of "staging_orders" (promote_all 50 watermarks)
        ≡ some (record w {
          watermark_value = max w.watermark_value c;
          candidate_value = none;
          updated_at = 50;
        }))
advance_watermarks_commits_example =
    advance_watermarks_commits 50 watermarks (promote_all 50 watermarks) watermarks-Unique promoted
      "staging_orders" (there here)

abbrev lacking : List WatermarkRow
lacking = watermark "staging_products" (some 12) ∷ watermark "staging_orders" none ∷ []

lacking-Unique : Unique name_of lacking
unfolding find
lacking-Unique = (refl, (refl, tt))

lacks_orders : find name_of "staging_orders" lacking ≡ some (watermark "staging_orders" none)
unfolding find
lacks_orders = refl

other_found : find name_of "other" watermarks ≡ some (watermark "other" none)
unfolding find
other_found = refl

abbrev text_of : String → String
text_of column = if column == "status" then "paid" else "x"

abbrev source : List SourceRow
source =
    record { id = 1; updated_at = 8; column = text_of }
    ∷ record { id = 2; updated_at = 15; column = text_of }
    ∷ []

source-Unique : Unique source_id source
unfolding find
source-Unique = (refl, (refl, tt))

abbrev tables : ℕ → Tables
tables mark = record {
  watermarks = record (watermark "staging_payments" none) { watermark_value = mark } ∷ [];
  staging = [];
}

payments_cursor :
    (mark : ℕ)
    → find name_of (pipeline_name extract_payments) (tables mark).watermarks
      ≡ some (record (watermark "staging_payments" none) { watermark_value = mark })
unfolding find
payments_cursor mark = refl

empty-HasSchema : HasSchema extract_payments []
unfolding find
empty-HasSchema id s h = cc

none-IsStaged : (r : SourceRow) → In r source → r.updated_at ≤ 5 → IsStaged extract_payments [] r
none-IsStaged =
    All-In (λ r. r.updated_at ≤ 5 → IsStaged extract_payments [] r) source
      (λ early. absurd (omega arith), (λ early. absurd (omega arith), tt))

extract_incremental_complete_example :
    (t' : Tables) × (w' : WatermarkRow) × (c : ℕ) × (extract_incremental extract_payments
        incremental none none 99 source
        (tables 5)
      ≡ ok t')
    × ((r : SourceRow) → In r source → IsStaged extract_payments t'.staging r)
    × (find name_of (pipeline_name extract_payments) t'.watermarks ≡ some w')
    × (w'.watermark_value ≡ 5)
    × (w'.candidate_value ≡ some c)
    × ((r : SourceRow) → In r source → r.updated_at ≤ c)
extract_incremental_complete_example =
    extract_incremental_complete extract_payments 99 source (tables 5) none none
      (record (watermark "staging_payments" none) { watermark_value = 5 }) (payments_cursor 5)
      source-Unique empty-HasSchema none-IsStaged

extract_backfill_exact_example :
    (t' : Tables) × (extract_incremental extract_payments backfill
        (some 6)
        (some 15)
        99
        source
        (tables 5)
      ≡ ok t')
    × (t'.watermarks ≡ (tables 5).watermarks)
    × ((r : SourceRow)
        → In r source
        → 6 ≤ r.updated_at
        → r.updated_at < 15
        → IsStaged extract_payments t'.staging r)
    × ((id : ℕ)
        → ((r : SourceRow) → In r source → r.id ≡ id → 6 ≤ r.updated_at → 15 ≤ r.updated_at)
        → find staged_id id t'.staging ≡ find staged_id id [])
extract_backfill_exact_example =
    extract_backfill_exact extract_payments 99 source (tables 5) 6 15
      (record (watermark "staging_payments" none) { watermark_value = 5 }) (payments_cursor 5)
      source-Unique empty-HasSchema

abbrev tables_after : Tables
tables_after = load_window extract_payments incremental 99 (after 5) (up_to 15) 15 source (tables 5)

incremental_extracted :
    extract_incremental extract_payments incremental none none 99 source (tables 5)
    ≡ ok tables_after
unfolding extract_incremental find max_updated_at
incremental_extracted = refl

extract_incremental-HasSchema_example : HasSchema extract_payments tables_after.staging
extract_incremental-HasSchema_example =
    extract_incremental-HasSchema extract_payments 99 incremental none none source (tables 5)
      tables_after empty-HasSchema incremental_extracted

abbrev at_twelve : SourceRow
at_twelve = record { id = 1; updated_at = 12; column = text_of }

-- A parser of the one text that the run gives.
abbrev parse : String → Option ℕ
parse text = if text == "2026-01-01T00:00:00+00:00" then some 100 else some 200

abbrev bounds : Params
bounds = record {
  run_mode = backfill;
  backfill_start = some "2026-01-01T00:00:00Z";
  backfill_end = some "2026-02-01T00:00:00Z";
}

accepted : validate_run_config parse bounds ≡ ok tt
unfolding validate_run_config replace_z
accepted = refl

abbrev warehouse : Warehouse
warehouse = record {
  customers = 1 ∷ [];
  products = 4 ∷ [];
  orders = record { order_id = 2; customer_id = 1 } ∷ [];
  order_items = record { order_id = 2; product_id = 4 } ∷ [];
  payment_orders = 2 ∷ [];
}

abbrev finished : List Task
finished =
    commit ∷ events ∷ iceberg ∷ dbt ∷ relations ∷ counts ∷ orders ∷ payments ∷ items ∷ products
    ∷ config ∷ []

extracted : DagRun (orders ∷ payments ∷ items ∷ products ∷ config ∷ [])
extracted =
    succeed orders
      (succeed payments
        (succeed items (succeed products (succeed config started tt) (here, tt)) (there here, tt))
        (there (there here), tt))
      (there (there (there here)), tt)

validated : DagRun (relations ∷ counts ∷ orders ∷ payments ∷ items ∷ products ∷ config ∷ [])
validated =
    succeed relations
      (succeed counts extracted
        (there (there (there here)), (here, (there (there here), (there here, tt)))))
      (here, tt)

finished-DagRun : DagRun finished
finished-DagRun =
    succeed commit
      (succeed events (succeed iceberg (succeed dbt validated (here, tt)) (there here, tt))
        (there (there here), tt))
      (there (there here), (there here, (here, tt)))

advance_watermarks_last_example : In payments finished
advance_watermarks_last_example = advance_watermarks_last finished finished-DagRun here payments
