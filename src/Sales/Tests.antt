-- ===== src/Sales/Tests.antt =====
-- A run of spark/jobs/sales_batch.py: an order with two items and two payments, and an item without
-- an order.
use local_data_platform.Prelude.{ℕ, String, refl, some, List, [], ◌∷◌, nat_eq}
use local_data_platform.Prelude.Int.{pos}
use local_data_platform.Sql.{find, Unique}
use local_data_platform.Sales.{Order, OrderItem, Payment}
use local_data_platform.Sales.Grain.{order_key, item_key}

abbrev orders : List Order
orders =
    record {
      order_id = 1;
      customer_id = 9;
      order_date = some 90000000000;
      status = "new";
      loaded_at = 5;
    }
    ∷ []

abbrev item : ℕ → ℕ → OrderItem
item id order = record {
  order_item_id = id;
  order_id = order;
  product_id = 4;
  quantity = pos 2;
  unit_price = pos 500;
  loaded_at = 6;
}

abbrev items : List OrderItem
items = item 11 1 ∷ item 12 1 ∷ item 13 2 ∷ []

abbrev payment : ℕ → String → Payment
payment id status = record { payment_id = id; order_id = 1; payment_status = status; loaded_at = 7 }

abbrev payments : List Payment
payments = payment 21 "completed" ∷ payment 22 "failed" ∷ []

orders-Unique : Unique order_key orders
unfolding find
orders-Unique = (refl, tt)

items-Unique : Unique item_key items
unfolding find
items-Unique = (refl, (refl, (refl, tt)))
