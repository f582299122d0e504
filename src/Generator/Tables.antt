-- ===== src/Generator/Tables.antt =====
-- The rows that data-generator/main.py seeds: generate_customers.py, generate_products.py,
-- generate_orders.py and generate_order_items.py on one COPY loop each, the payments, and the
-- corrections of postgres/sql/001_correction.sql. What `random` and Faker draw for a row, and the UUIDs
-- of the database, are functions of the row's index; the sizes of tables and batches are parameters.
mod Numbered
mod Indexed
mod Corrected
pub mod Orders
pub mod Items
pub mod Seeded
pub mod Total
mod Tests
use local_data_platform.Prelude.{
  ℕ, ◌≡◌, ap, ok_inj, zero, suc, ◌+◌, ◌*◌, String, Bool, true, false, Option, none, some, List, [],
  ◌∷◌, ◌++◌, map, Result, ok, err, ◌>>=◌, ◌==◌, nat_eq, if◌then◌else◌, is_some, length, any,
}
use local_data_platform.Sql.{find, has}
use local_data_platform.Generator.{Order, Payment, PaymentDraw, generate_payments}
use local_data_platform.Generator.Copy.{
  DrawError, index_error, value_error, constraint_violation, write_from, copy_all,
}

pub record Customer : Type 0 where
  pub customer_id : ℕ
  pub first_name : String
  pub last_name : String
  pub email : String

pub record Product : Type 0 where
  pub product_id : ℕ
  pub name : String
  pub category : String
  pub price : ℕ
  pub stock_quantity : ℕ
  pub is_active : Bool

pub record OrderItem : Type 0 where
  pub order_id : ℕ
  pub product_id : ℕ
  pub quantity : ℕ
  pub unit_price : ℕ

pub record OrderRow : Type 0 where
  pub order_id : ℕ
  pub customer_id : ℕ
  pub order_date : ℕ
  pub status : String
  pub total_amount : ℕ

pub record Draws : Type 0 where
  pub customer : ℕ → String × String × String
  pub product : ℕ → String × String × ℕ × ℕ × Bool
  -- random.choice(customer_ids), which raises on an empty list
  pub choice : ℕ → List ℕ → Option ℕ
  -- order_date, status and order_amount
  pub order : ℕ → ℕ × String × ℕ
  pub item_count : ℕ → ℕ
  -- random.sample(product_ids, item_count), which raises on a list that is too short
  pub sample : ℕ → List ℕ → ℕ → Option (List ℕ)
  -- quantity and unit_price, by the index of the order and the product
  pub item : ℕ → ℕ → ℕ × ℕ
  pub payments : ℕ → PaymentDraw

-- gen_random_uuid() for the rows of each table
pub record Uuids : Type 0 where
  pub customer : ℕ → ℕ
  pub product : ℕ → ℕ
  pub order : ℕ → ℕ

-- TOTAL_PRODUCTS, TOTAL_CUSTOMERS and TOTAL_ORDERS, and the sizes of the batches
pub record Sizes : Type 0 where
  pub total_products : ℕ
  pub total_customers : ℕ
  pub total_orders : ℕ
  pub customer_batch : ℕ
  pub order_batch : ℕ
  pub item_batch : ℕ
  pub payment_batch : ℕ

abbrev pub default_sizes : Sizes
default_sizes = record {
  total_products = 10000;
  total_customers = 100000;
  total_orders = 500000;
  customer_batch = 10000;
  order_batch = 20000;
  item_batch = 10000;
  payment_batch = 10000;
}

abbrev pub get_elem? : List ℕ → ℕ → Option ℕ
get_elem? [] i = none
get_elem? (x ∷ xs) zero = some x
get_elem? (x ∷ xs) (suc i) = get_elem? xs i

abbrev pub raise_unless : {A : Type 0} → DrawError → Option A → Result DrawError A
raise_unless e none = err e
raise_unless e (some a) = ok a

pub raise_unless_ok :
    {A : Type 0} (e : DrawError) (o : Option A) (a : A) → raise_unless e o ≡ ok a → o ≡ some a
raise_unless_ok e none a h = cc
raise_unless_ok e (some b) a h = ap some (ok_inj h)

module _ (d : Draws) (uuids : Uuids) (sizes : Sizes) where
  abbrev pub customer_row : ℕ → Result DrawError (List Customer)
  customer_row i =
      let (first_name, last_name, email) = d.customer i in
      ok (
        record {
          customer_id = uuids.customer i;
          first_name = first_name;
          last_name = last_name;
          email = email;
        }
        ∷ [])

  unfoldable pub generate_customers : Result DrawError (List Customer)
  generate_customers = copy_all customer_row sizes.customer_batch sizes.total_customers

  abbrev pub product_row : ℕ → Result DrawError (List Product)
  product_row i =
      let (name, category, price, stock_quantity, is_active) = d.product i in
      ok (
        record {
          product_id = uuids.product i;
          name = name;
          category = category;
          price = price;
          stock_quantity = stock_quantity;
          is_active = is_active;
        }
        ∷ [])

  unfoldable pub generate_products : Result DrawError (List Product)
  generate_products = write_from product_row 0 sizes.total_products []

  abbrev pub order_row : List ℕ → ℕ → Result DrawError (List OrderRow)
  order_row customer_ids i = do
    customer_id ← raise_unless index_error (d.choice i customer_ids)
    let (order_date, status, order_amount) = d.order i
    ok (
        record {
          order_id = uuids.order i;
          customer_id = customer_id;
          order_date = order_date;
          status = status;
          total_amount = order_amount;
        }
        ∷ [])

  unfoldable pub generate_orders : List ℕ → Result DrawError (List OrderRow)
  generate_orders customer_ids =
      copy_all (order_row customer_ids) sizes.order_batch sizes.total_orders

  abbrev pub item_row : ℕ → ℕ → ℕ → OrderItem
  item_row i order_id product_id =
      let (quantity, unit_price) = d.item i product_id in
      record {
        order_id = order_id;
        product_id = product_id;
        quantity = quantity;
        unit_price = unit_price;
      }

  abbrev pub item_rows : List ℕ → List ℕ → ℕ → Result DrawError (List OrderItem)
  item_rows order_ids product_ids i = do
    order_id ← raise_unless index_error (get_elem? order_ids i)
    selected ← raise_unless value_error (d.sample i product_ids (d.item_count i))
    ok (map (item_row i order_id) selected)

  unfoldable pub generate_order_items : List ℕ → List ℕ → Result DrawError (List OrderItem)
  generate_order_items order_ids product_ids =
      copy_all (item_rows order_ids product_ids) sizes.item_batch (length order_ids)

abbrev pub amount_of : ℕ → List OrderItem → ℕ
amount_of order_id [] = 0
amount_of order_id (i ∷ items) =
    let rest = amount_of order_id items in
    if i.order_id == order_id then i.quantity * i.unit_price + rest else rest

-- UPDATE orders .. FROM (SELECT order_id, SUM(..) .. GROUP BY order_id)
abbrev pub correct_order : List OrderItem → OrderRow → OrderRow
correct_order items o =
    if any (λ i. i.order_id == o.order_id) items
    then record o { total_amount = amount_of o.order_id items }
    else o

abbrev pub order_key : OrderRow → ℕ
order_key o = o.order_id

abbrev pub pay : Option OrderRow → Payment → Payment
pay none p = p
pay (some o) p = record p { amount = o.total_amount }

-- UPDATE payments .. FROM orders WHERE payments.order_id = orders.order_id
abbrev pub correct_payment : List OrderRow → Payment → Payment
correct_payment orders p = pay (find order_key p.order_id orders) p

abbrev pub customer_key : Customer → ℕ
customer_key c = c.customer_id

abbrev pub product_key : Product → ℕ
product_key p = p.product_id

-- A row that `load_orders` returns.
abbrev pub loaded : OrderRow → Order
loaded o = record {
  order_id = o.order_id;
  total_amount = o.total_amount;
  order_date = o.order_date;
}

pub record Source : Type 0 where
  pub products : List Product
  pub customers : List Customer
  pub orders : List OrderRow
  pub order_items : List OrderItem
  pub payments : List Payment

abbrev pub correction : Source → Source
correction s =
    let orders = map (correct_order s.order_items) s.orders in
    record s { orders = orders; payments = map (correct_payment orders) s.payments }

-- Whether the constraints of a table (postgres/init/001_schema.sql) accept the rows that are written
-- to it, and those of orders and payments what the corrections make of them.
pub record Constraints : Type 0 where
  pub products : List Product → Bool
  pub customers : List Customer → Bool
  pub orders : List OrderRow → Bool
  pub order_items : List OrderItem → Bool
  pub payments : List Payment → Bool
  pub corrected : Source → Bool

abbrev pub accepted : {A : Type 0} → (A → Bool) → A → Result DrawError A
accepted test rows = if test rows then ok rows else err constraint_violation

-- `main`, on tables that are empty
unfoldable pub seed : Constraints → Draws → Uuids → Sizes → Result DrawError Source
unfolding generate_products generate_customers generate_orders generate_order_items
seed constraints d uuids sizes = do
  products ← generate_products d uuids sizes >>= accepted constraints.products
  customers ← generate_customers d uuids sizes >>= accepted constraints.customers
  orders ←
      generate_orders d uuids sizes (map customer_key customers) >>= accepted constraints.orders
  order_items ←
      generate_order_items d uuids sizes (map order_key orders) (map product_key products)
      >>= accepted constraints.order_items
  payments ←
      generate_payments sizes.payment_batch d.payments (map loaded orders)
      >>= accepted constraints.payments
  accepted constraints.corrected (
      correction (record {
        products = products;
        customers = customers;
        orders = orders;
        order_items = order_items;
        payments = payments;
      }))
