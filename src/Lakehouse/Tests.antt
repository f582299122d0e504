-- ===== src/Lakehouse/Tests.antt =====
-- Runs of spark/jobs/maintain_iceberg.py, in which the expiry of one table raises, and of
-- spark/jobs/validate_platform.py.
use local_data_platform.Prelude.{
  ℕ, Bool, ◌≡◌, ◌↔◌, refl, true, false, Option, none, some, List, [], ◌∷◌, ok, err, ◌==◌, nat_eq,
  string_eq, if◌then◌else◌,
}
use local_data_platform.Sql.{find, Unique}
use local_data_platform.Sales.{sale_key}
use local_data_platform.Iceberg.{FactSales}
use local_data_platform.Stream.Batch.{Lake, event_key, order_key}
use local_data_platform.Bootstrap.Catalog.{Environment}
use local_data_platform.Lakehouse.{iceberg_spark}
use local_data_platform.Lakehouse.Validation.{
  validate_platform, platform_metrics, validate_platform_iff,
}
use local_data_platform.Lakehouse.Maintenance.{
  Counters, Procedures, Entry, maintain_table, maintain, maintain_iceberg,
}

-- Rows and snapshots.
abbrev Table : Type 0
Table = List ℕ × ℕ

abbrev expire_if : Bool → ℕ → List ℕ → Option (Table × Counters)
expire_if true retain rows = none
expire_if false retain rows = some ((rows, retain), none)

abbrev expire : ℕ → Table → Option (Table × Counters)
expire retain (rows, snapshots) = expire_if (snapshots == 3) retain rows

abbrev procedures : Procedures Table
procedures = record {
  rewrite_data_files = λ size files t. some (t, none);
  rewrite_position_delete_files = λ t. some (t, none);
  expire_snapshots = λ older_than retain t. expire retain t;
}

abbrev tables : List (Entry Table)
tables =
    record { name = "ecommerce.current_orders"; table = (4 ∷ [], 3) }
    ∷ record { name = "ecommerce.fact_sales"; table = (1 ∷ 2 ∷ [], 40) }
    ∷ []

-- The expiry of current_orders raises, and fact_sales keeps its 10 snapshots.
maintained_tables : maintain_iceberg procedures 1700000000000000 tables ≡ (
  record { name = "ecommerce.current_orders"; table = (4 ∷ [], 3) }
      ∷ record { name = "ecommerce.fact_sales"; table = (1 ∷ 2 ∷ [], 10) }
      ∷ [],
  none,
)
unfolding maintain_iceberg maintain maintain_table find
maintained_tables = refl

abbrev no_sales : FactSales
no_sales = record { rows = []; snapshots = [] }

abbrev empty_lake : Lake
empty_lake = record { events = []; current = []; dead_letters = [] }

validate_platform_iff_example :
    (validate_platform no_sales empty_lake ≡ ok (platform_metrics no_sales empty_lake))
    ↔ (Unique sale_key [] × Unique event_key [] × Unique order_key [])
validate_platform_iff_example = validate_platform_iff no_sales empty_lake

abbrev no_endpoint : Environment
no_endpoint name = if name == "S3_ENDPOINT" then none else some "x"

missing_endpoint : iceberg_spark no_endpoint ≡ err ("S3_ENDPOINT" ∷ [])
unfolding iceberg_spark
missing_endpoint = refl
