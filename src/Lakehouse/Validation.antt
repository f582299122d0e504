-- ===== src/Lakehouse/Validation.antt =====
-- The job spark/jobs/validate_platform.py: every table has one row for each of its business keys.
use local_data_platform.Prelude.{
  ℕ, String, ◌≡◌, ◌↔◌, List, [], ◌∷◌, arith, Result, ok, err, ◌>>=◌, ◌==◌, nat_eq, string_eq,
  nat_beq_iff, length, if◌then◌else◌,
}
use local_data_platform.Sql.{Unique}
use local_data_platform.Sql.Distinct.{count_distinct, count_distinct_iff}
use local_data_platform.Sales.{sale_key}
use local_data_platform.Iceberg.{FactSales}
use local_data_platform.Stream.Batch.{Lake, event_key, order_key}

pub record TableMetrics : Type 0 where
  pub row_count : ℕ
  pub distinct_key_count : ℕ

pub data GrainError : Type 0 where
  grain_violated : String → String → TableMetrics → GrainError

abbrev pub check_grain : String → String → TableMetrics → Result GrainError (String × TableMetrics)
check_grain table key m =
    if m.row_count == m.distinct_key_count then ok (table, m) else err (grain_violated table key m)

abbrev pub sales_metrics : FactSales → TableMetrics
sales_metrics t = record {
  row_count = length t.rows;
  distinct_key_count = count_distinct sale_key t.rows;
}

abbrev pub event_metrics : Lake → TableMetrics
event_metrics l = record {
  row_count = length l.events;
  distinct_key_count = count_distinct event_key l.events;
}

abbrev pub order_metrics : Lake → TableMetrics
order_metrics l = record {
  row_count = length l.current;
  distinct_key_count = count_distinct order_key l.current;
}

pub record PlatformMetrics : Type 0 where
  pub tables : List (String × TableMetrics)
  pub dead_letter_events : ℕ

unfoldable pub validate_platform : FactSales → Lake → Result GrainError PlatformMetrics
validate_platform t l = do
  sales ← check_grain "fact_sales" "order_item_id" (sales_metrics t)
  events ← check_grain "order_events" "event_id" (event_metrics l)
  orders ← check_grain "current_orders" "order_id" (order_metrics l)
  ok (record { tables = sales ∷ events ∷ orders ∷ []; dead_letter_events = length l.dead_letters })

-- What a validation that passes reports.
abbrev pub platform_metrics : FactSales → Lake → PlatformMetrics
platform_metrics t l = record {
  tables =
      ("fact_sales", sales_metrics t)
      ∷ ("order_events", event_metrics l)
      ∷ ("current_orders", order_metrics l)
      ∷ [];
  dead_letter_events = length l.dead_letters;
}

-- The validation passes exactly if no order item, no event and no order stands in two rows of its table,
-- and then it reports the rows and the keys of the three tables and the number of dead letters.
pub validate_platform_iff :
    (t : FactSales) (l : Lake)
    → (validate_platform t l ≡ ok (platform_metrics t l))
      ↔ (Unique sale_key t.rows × Unique event_key l.events × Unique order_key l.current)
unfolding validate_platform
validate_platform_iff t l = ground (
  arith,
  count_distinct_iff sale_key t.rows,
  count_distinct_iff event_key l.events,
  count_distinct_iff order_key l.current,
  nat_beq_iff (length t.rows) (count_distinct sale_key t.rows),
  nat_beq_iff (length l.events) (count_distinct event_key l.events),
  nat_beq_iff (length l.current) (count_distinct order_key l.current),
)
