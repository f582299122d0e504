-- ===== src/Pipeline/Runs/Tests.antt =====
-- A scheduled run of airflow/dags/ecommerce_pipeline.py on small tables, with an order placed in the
-- middle of it.
use local_data_platform.Prelude.{
  ℕ, ◌≤◌, String, ◌≡◌, refl, sym, subst, ◌∙◌, some_inj, true, string_eq, nat_eq, Option, none, some,
  List, [], ◌∷◌, arith, ok, In, here, All-In, ◌⊎◌, ◌<◌, there, inl, inr,
}
use local_data_platform.Sql.{find, upsert, Unique}
use local_data_platform.Pipeline.Watermark
use local_data_platform.Pipeline.Watermark.{
  WatermarkRow, name_of, incremental, missing_candidates, promote_all,
}
use local_data_platform.Pipeline.Extract.{
  SourceRow, StagedRow, staged_row, extract_incremental, load_window, max_updated_at, upsert_all,
}
use local_data_platform.Pipeline.Extract.Staged.{source_id, IsStaged, HasSchema}
use local_data_platform.Pipeline.Config.{Params}
use local_data_platform.Pipeline.Config
use local_data_platform.Pipeline.Checks
use local_data_platform.Pipeline.Graph
use local_data_platform.Pipeline.Graph.{Task}
use local_data_platform.Pipeline.Runs.{
  Entity, products, orders, order_items, payments, spec_of, World, put_tables, extract, run_task,
  Pipeline, Changes, changed, triggered, succeeded, Steps, begin, next,
}
use local_data_platform.Pipeline.Runs.Cursors.{IsCursor}
use local_data_platform.Pipeline.Runs.Kept.{cursor_name, IsKept, Steps-IsStaged}
use local_data_platform.Pipeline.Runs.CaughtUp.{Steps_catch_up}

abbrev no_time : String → Option ℕ
no_time text = none

abbrev one : String → ℕ
one text = 1

abbrev row : ℕ → ℕ → SourceRow
row id time = record { id = id; updated_at = time; column = λ name. "1" }

abbrev source : Entity → List SourceRow
source e = row 1 15 ∷ []

-- Order 2 is new.
abbrev source_later : Entity → List SourceRow
source_later orders = row 1 15 ∷ row 2 25 ∷ []
source_later _ = row 1 15 ∷ []

abbrev cursor : Entity → Option ℕ → WatermarkRow
cursor e candidate = record {
  pipeline_name = cursor_name e;
  watermark_value = 5;
  candidate_value = candidate;
  active = true;
  updated_at = 0;
}

abbrev cursors : Option ℕ → Option ℕ → Option ℕ → Option ℕ → List WatermarkRow
cursors a b c d =
    cursor products a ∷ cursor orders b ∷ cursor order_items c ∷ cursor payments d ∷ []

abbrev world : World
world = record {
  source = source;
  clock = 20;
  customers = 1 ∷ [];
  staging = λ e. [];
  watermarks = cursors none none none none;
}

abbrev staged : Entity → List StagedRow
staged e = staged_row (spec_of e) 99 (row 1 15) ∷ []

abbrev put : Entity → World → List WatermarkRow → World
put e w rows = put_tables e w (record { watermarks = rows; staging = staged e })

abbrev with_products : World
with_products = put products world (cursors (some 15) none none none)

abbrev with_orders : World
with_orders = put orders with_products (cursors (some 15) (some 15) none none)

abbrev with_items : World
with_items = put order_items with_orders (cursors (some 15) (some 15) (some 15) none)

abbrev with_payments : World
with_payments = put payments with_items (cursors (some 15) (some 15) (some 15) (some 15))

abbrev ordered : World
ordered = record with_payments { source = source_later; clock = 30 }

abbrev committed : World
committed = record ordered { watermarks = promote_all 99 ordered.watermarks }

abbrev scheduled : Params
scheduled = record { run_mode = incremental; backfill_start = none; backfill_end = none }

abbrev at : World → List Task → Pipeline no_time no_time one
at w done = record { world = w; params = scheduled; began = 20; done = done }

products_went :
    run_task no_time no_time one Graph.extract_products scheduled 99 world ≡ ok with_products
unfolding run_task extract extract_incremental load_window max_updated_at upsert_all upsert find
products_went = refl

orders_went :
    run_task no_time no_time one Graph.extract_orders scheduled 99 with_products ≡ ok with_orders
unfolding run_task extract extract_incremental load_window max_updated_at upsert_all upsert find
orders_went = refl

items_went :
    run_task no_time no_time one Graph.extract_order_items scheduled 99 with_orders ≡ ok with_items
unfolding run_task extract extract_incremental load_window max_updated_at upsert_all upsert find
items_went = refl

payments_went :
    run_task no_time no_time one Graph.extract_payments scheduled 99 with_items ≡ ok with_payments
unfolding run_task extract extract_incremental load_window max_updated_at upsert_all upsert find
payments_went = refl

source_later-Unique : (e : Entity) → Unique source_id (source_later e)
unfolding find
source_later-Unique products = (refl, tt)
source_later-Unique orders = (refl, (refl, tt))
source_later-Unique order_items = (refl, tt)
source_later-Unique payments = (refl, tt)

dated_later : (e : Entity) (r : SourceRow) → In r (source_later e) → r.updated_at ≤ 30
dated_later products = All-In (λ r. r.updated_at ≤ 30) (source_later products) (omega arith, tt)
dated_later orders =
    All-In (λ r. r.updated_at ≤ 30) (source_later orders) (omega arith, (omega arith, tt))
dated_later order_items =
    All-In (λ r. r.updated_at ≤ 30) (source_later order_items) (omega arith, tt)
dated_later payments = All-In (λ r. r.updated_at ≤ 30) (source_later payments) (omega arith, tt)

fresh_later :
    (e : Entity) (r : SourceRow) → In r (source_later e) → In r (source e) ⊎ (20 < r.updated_at)
fresh_later products r i = inl i
fresh_later orders r i =
    All-In (λ r. In r (source orders) ⊎ (20 < r.updated_at)) (source_later orders)
      (inl here, (inr (omega arith), tt)) r i
fresh_later order_items r i = inl i
fresh_later payments r i = inl i

ordered-Changes : Changes no_time no_time one with_payments source_later 30
ordered-Changes = record {
  later = omega arith;
  keyed = source_later-Unique;
  dated = dated_later;
  fresh = fresh_later;
}

counted : run_task no_time no_time one Graph.validate_record_count scheduled 99 ordered ≡ ok ordered
unfolding run_task Checks.validate_record_count
counted = refl

related :
    run_task no_time no_time one Graph.validate_relationships scheduled 99 ordered ≡ ok ordered
unfolding run_task Checks.validate_relationships
related = refl

went : run_task no_time no_time one Graph.advance_watermarks scheduled 99 ordered ≡ ok committed
unfolding run_task Watermark.advance_watermarks missing_candidates
went = refl

configured : run_task no_time no_time one Graph.validate_run_config scheduled 99 world ≡ ok world
unfolding run_task Config.validate_run_config
configured = refl

abbrev run : List Task
run =
    Graph.advance_watermarks ∷ Graph.publish_order_events ∷ Graph.run_iceberg_batch
    ∷ Graph.run_dbt_transform ∷ Graph.validate_relationships ∷ Graph.validate_record_count
    ∷ Graph.extract_payments ∷ Graph.extract_order_items ∷ Graph.extract_orders
    ∷ Graph.extract_products ∷ Graph.validate_run_config ∷ []

-- Every sink leaves the tables.
sunk :
    (run_task no_time no_time one Graph.run_dbt_transform scheduled 99 ordered ≡ ok ordered)
    × (run_task no_time no_time one Graph.run_iceberg_batch scheduled 99 ordered ≡ ok ordered)
    × (run_task no_time no_time one Graph.publish_order_events scheduled 99 ordered ≡ ok ordered)
unfolding run_task
sunk = (refl, refl, refl)

extracts : Steps no_time no_time one (at world []) (
    at with_payments (
      Graph.extract_payments ∷ Graph.extract_order_items ∷ Graph.extract_orders
      ∷ Graph.extract_products ∷ Graph.validate_run_config ∷ []))
extracts =
    next
      (next
        (next
          (next
            (next (next begin (triggered scheduled))
              (succeeded Graph.validate_run_config 99 world tt configured))
            (succeeded Graph.extract_products 99 with_products (here, tt) products_went))
          (succeeded Graph.extract_orders 99 with_orders (there here, tt) orders_went))
        (succeeded Graph.extract_order_items 99 with_items (there (there here), tt) items_went))
      (succeeded Graph.extract_payments 99 with_payments (there (there (there here)), tt)
        payments_went)

steps : Steps no_time no_time one (at world []) (at committed run)
steps =
    next
      (next
        (next
          (next
            (next
              (next (next extracts (changed source_later 30 (1 ∷ []) ordered-Changes)) (
                succeeded Graph.validate_record_count 99 ordered
                  (there (there (there here)), (there (there here), (there here, (here, tt))))
                  counted))
              (succeeded Graph.validate_relationships 99 ordered (here, tt) related))
            (succeeded Graph.run_dbt_transform 99 ordered (here, tt) sunk.0))
          (succeeded Graph.run_iceberg_batch 99 ordered (there here, tt) sunk.1))
        (succeeded Graph.publish_order_events 99 ordered (there (there here), tt) sunk.2))
      (succeeded Graph.advance_watermarks 99 committed
        (there (there here), (there here, (here, tt))) went)

source-Unique : (e : Entity) → Unique source_id (source e)
unfolding find
source-Unique e = (refl, tt)

empty-HasSchema : (e : Entity) → HasSchema (spec_of e) []
unfolding find
empty-HasSchema e id s h = cc

cursor_found :
    (e : Entity) → find name_of (cursor_name e) (cursors none none none none) ≡ some (cursor e none)
unfolding find
cursor_found products = refl
cursor_found orders = refl
cursor_found order_items = refl
cursor_found payments = refl

world-IsKept : IsKept world
world-IsKept = record {
  keyed = source-Unique;
  dated = λ e. All-In (λ r. r.updated_at ≤ 20) (source e) (omega arith, tt);
  typed = empty-HasSchema;
  cursors = λ e m found.
      subst (IsCursor (spec_of e) 20 (source e) []) (some_inj (sym (cursor_found e) ∙ found))
        (record {
          committed_past = omega arith;
          candidate_past = λ c h. cc;
          committed_covered =
              All-In (λ r. r.updated_at ≤ 5 → IsStaged (spec_of e) [] r) (source e)
                (λ early. absurd (omega arith), tt);
          candidate_covered = λ c h. cc;
        });
}

moved :
    find name_of (cursor_name orders) committed.watermarks
    ≡ some (record (cursor orders none) { watermark_value = 15; updated_at = 99 })
unfolding find promote_all
moved = refl

Steps-IsStaged_example : IsStaged (spec_of orders) (committed.staging orders) (row 1 15)
Steps-IsStaged_example =
    Steps-IsStaged no_time no_time one (at world []) (at committed run) orders
      (record (cursor orders none) { watermark_value = 15; updated_at = 99 }) (row 1 15) steps
      world-IsKept moved here (omega arith)

Steps_catch_up_example :
    IsStaged (spec_of orders) (committed.staging orders) (row 1 15)
    × (m : WatermarkRow) × (find name_of (cursor_name orders) committed.watermarks ≡ some m)
    × (15 ≤ m.watermark_value)
Steps_catch_up_example =
    Steps_catch_up no_time no_time one (at world []) (at committed run) orders (row 1 15) steps
      world-IsKept refl (omega arith) refl here here (omega arith)
