-- ===== src/Iceberg.antt =====
-- The job spark/jobs/iceberg_sales.py: the staged sales that are newer than the table's high watermark
-- are validated and merged into fact_sales, and the table is checked after the write. A commit of
-- Iceberg records a snapshot, whose id, time and operation it chooses. A write that has committed
-- stays when the check after it raises, so a run gives a table on every path.
pub mod Current
mod Tests
use local_data_platform.Prelude.{
  ℕ, zero, suc, ◌+◌, max, String, Bool, true, false, Option, none, some, List, [], ◌∷◌, ◌++◌,
  Result, ok, err, ◌==◌, nat_eq, ltb, leb, length, select, if◌then◌else◌,
}
use local_data_platform.Sql.Merge.{merge_update}
use local_data_platform.Sales.{
  Order, OrderItem, Payment, Sale, start_of_1900, transform_sales, sale_key, count_distinct,
  SalesError, SalesMetrics, validate_sales,
}

pub record Snapshot : Type 0 where
  pub snapshot_id : ℕ
  pub committed_at : ℕ
  pub operation : String

-- local.ecommerce.fact_sales, with its metadata table of snapshots.
pub record FactSales : Type 0 where
  pub rows : List Sale
  pub snapshots : List Snapshot

-- The `operation` that the job reports.
pub data Write : Type 0 where
  append merge no_op : Write

-- F.max("source_loaded_at")
unfoldable pub max_loaded_at : List Sale → ℕ → ℕ
max_loaded_at [] least = least
max_loaded_at (s ∷ ss) least = max s.source_loaded_at (max_loaded_at ss least)

-- The aggregate of an empty table is NULL, and 1900-01-01 stands in for it.
abbrev pub high_watermark : List Sale → ℕ
high_watermark [] = start_of_1900
high_watermark (s ∷ ss) = max_loaded_at (s ∷ ss) 0

abbrev pub not_older : Sale → Sale → Bool
not_older source target = leb target.source_loaded_at source.source_loaded_at

unfoldable pub write_rows : List Sale → List Sale → List Sale
write_rows updates [] = [] ++ updates
write_rows updates (t ∷ ts) = merge_update sale_key not_older updates (t ∷ ts)

abbrev pub write_of : List Sale → Write
write_of [] = append
write_of (t ∷ ts) = merge

unfoldable pub write_sales : List Sale → Snapshot → FactSales → FactSales × Write
write_sales updates commit t =
    (record { rows = write_rows updates t.rows; snapshots = commit ∷ t.snapshots }, write_of t.rows)

-- ORDER BY committed_at DESC LIMIT 1
abbrev pub latest_of : Snapshot → Option Snapshot → Snapshot
latest_of s none = s
latest_of s (some l) = if ltb l.committed_at s.committed_at then s else l

unfoldable pub latest_snapshot : List Snapshot → Option Snapshot
latest_snapshot [] = none
latest_snapshot (s ∷ ss) = some (latest_of s (latest_snapshot ss))

pub record TableMetrics : Type 0 where
  pub row_count : ℕ
  pub distinct_order_item_count : ℕ
  pub snapshot : Option Snapshot

pub data JobError : Type 0 where
  grain_violated : JobError
  invalid_sales : List SalesError → JobError

abbrev pub table_metrics : FactSales → TableMetrics
table_metrics t = record {
  row_count = length t.rows;
  distinct_order_item_count = count_distinct t.rows;
  snapshot = latest_snapshot t.snapshots;
}

unfoldable pub validate_table : FactSales → Result JobError TableMetrics
validate_table t =
    if length t.rows == count_distinct t.rows then ok (table_metrics t) else err grain_violated

pub record Report : Type 0 where
  pub operation : Write
  pub source : SalesMetrics
  pub table : TableMetrics

-- `if source_metrics["row_count"]`
abbrev pub write_if : ℕ → List Sale → Snapshot → FactSales → FactSales × Write
write_if zero updates commit t = (t, no_op)
write_if (suc n) updates commit t = write_sales updates commit t

abbrev pub report :
    Write
    → SalesMetrics
    → FactSales
    → Result JobError TableMetrics
    → FactSales × Result JobError Report
report w m t (err e) = (t, err e)
report w m t (ok table) = (t, ok (record { operation = w; source = m; table = table }))

abbrev pub check_and_report : SalesMetrics → FactSales × Write → FactSales × Result JobError Report
check_and_report m (t, w) = report w m t (validate_table t)

-- The sales that are newer than the table.
unfoldable pub sales_updates : List Sale → FactSales → List Sale
sales_updates sales t = select (λ s. ltb (high_watermark t.rows) s.source_loaded_at) sales

abbrev pub load_valid :
    List Sale
    → Snapshot
    → FactSales
    → Result (List SalesError) SalesMetrics
    → FactSales × Result JobError Report
load_valid updates commit t (err errors) = (t, err (invalid_sales errors))
load_valid updates commit t (ok m) = check_and_report m (write_if m.row_count updates commit t)

-- `main`, from the staged sales on.
unfoldable pub load_sales : List Sale → Snapshot → FactSales → FactSales × Result JobError Report
load_sales sales commit t =
    load_valid (sales_updates sales t) commit t (validate_sales (sales_updates sales t))

unfoldable pub run_iceberg_sales :
    List Order
    → List OrderItem
    → List Payment
    → Snapshot
    → FactSales
    → FactSales × Result JobError Report
unfolding load_sales
run_iceberg_sales orders items payments commit t =
    load_sales (transform_sales orders items payments) commit t
