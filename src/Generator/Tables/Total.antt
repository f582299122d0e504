-- ===== src/Generator/Tables/Total.antt =====
-- data-generator/main.py goes through.
use local_data_platform.Prelude.{true, ℕ, ◌≤◌, ◌≡◌, some, List, map, ok, length, nat_eq}
use local_data_platform.Generator.{Order, Payment, generate_payments}
use local_data_platform.Generator.Batches.{all_payments}
use local_data_platform.Generator.Tables.{
  Customer, Product, OrderItem, OrderRow, Draws, Uuids, Sizes, customer_key, product_key, order_key,
  loaded, Source, correction, generate_products, generate_customers, generate_orders,
  generate_order_items, Constraints,
}

-- random.choice raises only on an empty list, random.sample only on a list that is too short, and
-- there are as many products as an order may ask for.
pub record IsEnough (d : Draws) (sizes : Sizes) : Type 0 where
  pub choice_gives : (i : ℕ) (ids : List ℕ) → 1 ≤ length ids → (x : ℕ) × (d.choice i ids ≡ some x)
  pub sample_gives :
      (i n : ℕ) (ids : List ℕ) → n ≤ length ids → (xs : List ℕ) × (d.sample i ids n ≡ some xs)
  pub enough_products : (i : ℕ) → d.item_count i ≤ sizes.total_products
  pub some_customer : 1 ≤ sizes.total_customers

-- The constraints of the tables accept what the generators write, and the corrections of it.
pub record IsAccepted (k : Constraints) (d : Draws) (uuids : Uuids) (sizes : Sizes) : Type 0 where
  pub products :
      (rows : List Product) → generate_products d uuids sizes ≡ ok rows → k.products rows ≡ true
  pub customers :
      (rows : List Customer) → generate_customers d uuids sizes ≡ ok rows → k.customers rows ≡ true
  pub orders :
      (ids : List ℕ) (rows : List OrderRow)
      → generate_orders d uuids sizes ids ≡ ok rows
      → k.orders rows ≡ true
  pub order_items :
      (order_ids product_ids : List ℕ) (rows : List OrderItem)
      → generate_order_items d uuids sizes order_ids product_ids ≡ ok rows
      → k.order_items rows ≡ true
  pub payments :
      (orders : List Order) (rows : List Payment)
      → generate_payments sizes.payment_batch d.payments orders ≡ ok rows
      → k.payments rows ≡ true
  pub corrected :
      (s : Source)
      → generate_products d uuids sizes ≡ ok s.products
      → generate_customers d uuids sizes ≡ ok s.customers
      → generate_orders d uuids sizes (map customer_key s.customers) ≡ ok s.orders
      → generate_order_items d uuids sizes (map order_key s.orders) (map product_key s.products)
        ≡ ok s.order_items
      → generate_payments sizes.payment_batch d.payments (map loaded s.orders) ≡ ok s.payments
      → k.corrected (correction s) ≡ true

module _ (k : Constraints) (d : Draws) (uuids : Uuids) (sizes : Sizes)
    (accepts : IsAccepted k d uuids sizes) (enough : IsEnough d sizes) where
  abbrev seeded : List Product → List Customer → List OrderRow → List OrderItem → Source
  seeded products customers orders items = correction (record {
    products = products;
    customers = customers;
    orders = orders;
    order_items = items;
    payments = all_payments d.payments 0 (map loaded orders);
  })
