-- ===== src/Iceberg/Tests.antt =====
-- A run of spark/jobs/iceberg_sales.py over two staged sales, of which the table has one.
use local_data_platform.Prelude.{
  ℕ, ◌≤◌, ◌≡◌, refl, none, some, List, [], ◌∷◌, arith, ok, In, All-In, nat_eq,
}
use local_data_platform.Prelude.Int.{pos, ◌*ℤ◌}
use local_data_platform.Sql.{find, Unique}
use local_data_platform.Sales.{
  Order, OrderItem, Sale, payment_metrics, sales_of_item, transform_sales, sale_of, sale_key,
}
use local_data_platform.Sales.Grain.{order_key, item_key}
use local_data_platform.Iceberg.{
  Snapshot, FactSales, max_loaded_at, high_watermark, Report, run_iceberg_sales,
}
use local_data_platform.Iceberg.Current.{IsLoadable, run_iceberg_sales_refreshes}

abbrev order : Order
order = record {
  order_id = 1;
  customer_id = 9;
  order_date = some 90000000000;
  status = "new";
  loaded_at = 60000000000000000;
}

abbrev item : ℕ → ℕ → OrderItem
item id loaded_at = record {
  order_item_id = id;
  order_id = 1;
  product_id = 4;
  quantity = pos 2;
  unit_price = pos 500;
  loaded_at = loaded_at;
}

abbrev items : List OrderItem
items = item 11 60000000000000001 ∷ item 12 60000000000000005 ∷ []

abbrev commit : Snapshot
commit = record { snapshot_id = 8; committed_at = 60000000000000009; operation = "overwrite" }

abbrev table : List Sale → FactSales
table rows = record { rows = rows; snapshots = [] }

abbrev loaded : Sale
loaded = sale_of order (item 11 60000000000000001) none

abbrev fresh : Sale
fresh = sale_of order (item 12 60000000000000005) none

staged : transform_sales (order ∷ []) items [] ≡ loaded ∷ fresh ∷ []
unfolding transform_sales sales_of_item payment_metrics
staged = refl

orders-Unique : Unique order_key (order ∷ [])
unfolding find
orders-Unique = (refl, tt)

items-Unique : Unique item_key items
unfolding find
items-Unique = (refl, (refl, tt))

rows-Unique : Unique sale_key (loaded ∷ [])
unfolding find
rows-Unique = (refl, tt)

all_rows-Unique : Unique sale_key (loaded ∷ fresh ∷ [])
unfolding find
all_rows-Unique = (refl, (refl, tt))

staged-IsLoadable : IsLoadable (transform_sales (order ∷ []) items []) (table (loaded ∷ []))
unfolding ◌*ℤ◌ find max_loaded_at
staged-IsLoadable = rw staged (record {
  dated = refl;
  measured = refl;
  loaded =
      All-In
        (λ s.
          s.source_loaded_at ≤ high_watermark (loaded ∷ [])
          → find sale_key s.order_item_id (loaded ∷ []) ≡ some s)
        (loaded ∷ fresh ∷ []) (λ h. refl, (λ h. absurd (omega arith), tt));
})

run_iceberg_sales_refreshes_example :
    (t' : FactSales) × (r : Report) × (run_iceberg_sales
        (order ∷ [])
        items
        []
        commit
        (table (loaded ∷ []))
      ≡ (t', ok r))
    × Unique sale_key t'.rows
    × ((s : Sale)
        → In s (transform_sales (order ∷ []) items [])
        → find sale_key s.order_item_id t'.rows ≡ some s)
run_iceberg_sales_refreshes_example =
    run_iceberg_sales_refreshes (order ∷ []) items [] commit (table (loaded ∷ [])) orders-Unique
      items-Unique staged-IsLoadable rows-Unique

staged_shown :
    (s : Sale)
    → In s (transform_sales (order ∷ []) items [])
    → find sale_key s.order_item_id (loaded ∷ fresh ∷ []) ≡ some s
unfolding find
staged_shown = rw staged (
    All-In (λ s. find sale_key s.order_item_id (loaded ∷ fresh ∷ []) ≡ some s) (loaded ∷ fresh ∷ [])
      (refl, (refl, tt)))
