-- ===== src/Sales.antt =====
-- `transform_sales` and `validate_sales` of spark/jobs/sales_batch.py. The keys of the staging tables
-- are never NULL, a UUID is a number, an amount is a number of cents, and a time is a number of
-- microseconds. Which order the rows of a DataFrame have is left open by Spark; here the sales come in
-- the order of the items.
pub mod Grain
mod Tests
use local_data_platform.Prelude.{
  ℕ, zero, suc, ◌+◌, ◌/◌, ◌^◌, max, String, Bool, true, false, ◌&&◌, ◌||◌, Option, none, some, List,
  [], ◌∷◌, ◌++◌, map, Result, ok, err, ◌==◌, nat_eq, string_eq, ltb, length, count_if, select,
  if◌then◌else◌,
}
use local_data_platform.Prelude.Int.{ℤ, pos, negsuc, ◌*ℤ◌, is_negative}
use local_data_platform.Sql.{has}

pub record Order : Type 0 where
  pub order_id : ℕ
  pub customer_id : ℕ
  pub order_date : Option ℕ
  pub status : String
  pub loaded_at : ℕ

pub record OrderItem : Type 0 where
  pub order_item_id : ℕ
  pub order_id : ℕ
  pub product_id : ℕ
  pub quantity : ℤ
  pub unit_price : ℤ
  pub loaded_at : ℕ

pub record Payment : Type 0 where
  pub payment_id : ℕ
  pub order_id : ℕ
  pub payment_status : String
  pub loaded_at : ℕ

pub record Sale : Type 0 where
  pub order_item_id : ℕ
  pub order_id : ℕ
  pub customer_id : ℕ
  pub product_id : ℕ
  pub order_date : Option ℕ
  pub sales_date : Option ℕ
  pub order_status : String
  pub quantity : ℤ
  pub unit_price : ℤ
  pub sales_amount : Option ℤ
  pub payment_status : String
  pub payment_attempt_count : ℕ
  pub source_loaded_at : ℕ

pub record PaymentMetrics : Type 0 where
  pub payment_attempt_count : ℕ
  pub completed_payment_count : ℕ
  pub payment_loaded_at : ℕ

-- The aggregates of one group of payments.
abbrev pub latest_load : List Payment → ℕ
latest_load [] = 0
latest_load (p ∷ ps) = max p.loaded_at (latest_load ps)

abbrev pub aggregate : List Payment → PaymentMetrics
aggregate ps = record {
  payment_attempt_count = length ps;
  completed_payment_count = count_if (λ p. p.payment_status == "completed") ps;
  payment_loaded_at = latest_load ps;
}

-- The row of `groupBy("order_id")` that the left join finds; an order without payments has none.
abbrev pub group_of : List Payment → Option PaymentMetrics
group_of [] = none
group_of (p ∷ ps) = some (aggregate (p ∷ ps))

unfoldable pub payment_metrics : List Payment → ℕ → Option PaymentMetrics
payment_metrics payments order_id = group_of (select (λ p. p.order_id == order_id) payments)

abbrev pub payment_status : PaymentMetrics → String
payment_status m =
    if m.completed_payment_count == m.payment_attempt_count
    then "paid"
    else if ltb 0 m.completed_payment_count
    then "partially_paid"
    else "unpaid"

-- `.cast("decimal(14,2)")`: what does not fit is NULL.
abbrev pub fits : ℕ → ℤ → Option ℤ
fits bound (pos n) = if ltb n bound then some (pos n) else none
fits bound (negsuc n) = if ltb (suc n) bound then some (negsuc n) else none

abbrev pub to_date : Option ℕ → Option ℕ
to_date none = none
to_date (some t) = some (t / 86400000000)

-- `coalesce` of a column of the left join, which is NULL when the join found nothing.
abbrev pub status_or_unpaid : Option PaymentMetrics → String
status_or_unpaid none = "unpaid"
status_or_unpaid (some m) = payment_status m

abbrev pub attempts_or_zero : Option PaymentMetrics → ℕ
attempts_or_zero none = 0
attempts_or_zero (some m) = m.payment_attempt_count

abbrev pub loaded_or : ℕ → Option PaymentMetrics → ℕ
loaded_or default none = default
loaded_or default (some m) = m.payment_loaded_at

-- 1900-01-01 00:00:00, in microseconds since the year 1.
abbrev pub start_of_1900 : ℕ
start_of_1900 = 59926608000000000

abbrev pub sale_of : Order → OrderItem → Option PaymentMetrics → Sale
sale_of o i m = record {
  order_item_id = i.order_item_id;
  order_id = o.order_id;
  customer_id = o.customer_id;
  product_id = i.product_id;
  order_date = o.order_date;
  sales_date = to_date o.order_date;
  order_status = o.status;
  quantity = i.quantity;
  unit_price = i.unit_price;
  sales_amount = fits (10 ^ 14) (i.quantity *ℤ i.unit_price);
  payment_status = status_or_unpaid m;
  payment_attempt_count = attempts_or_zero m;
  source_loaded_at = max o.loaded_at (max i.loaded_at (loaded_or start_of_1900 m));
}

-- The orders that an item joins, each with its payments.
unfoldable pub sales_of_item : List Payment → List Order → OrderItem → List Sale
sales_of_item payments [] i = []
sales_of_item payments (o ∷ os) i =
    let rest = sales_of_item payments os i in
    if o.order_id == i.order_id
    then sale_of o i (payment_metrics payments o.order_id) ∷ rest
    else rest

unfoldable pub transform_sales : List Order → List OrderItem → List Payment → List Sale
transform_sales orders [] payments = []
transform_sales orders (i ∷ is) payments =
    sales_of_item payments orders i ++ transform_sales orders is payments

abbrev pub sale_key : Sale → ℕ
sale_key s = s.order_item_id

-- F.countDistinct("order_item_id")
abbrev pub count_distinct : List Sale → ℕ
count_distinct [] = 0
count_distinct (s ∷ ss) =
    let rest = count_distinct ss in if has sale_key s.order_item_id ss then rest else suc rest

abbrev pub lacks_date : Sale → Bool
lacks_date s = elim s.sales_date [ none ↦ true | some d ↦ false ]

-- The comparison with a NULL amount is not true.
abbrev pub is_negative_amount : Option ℤ → Bool
is_negative_amount none = false
is_negative_amount (some a) = is_negative a

abbrev pub has_invalid_measure : Sale → Bool
has_invalid_measure s = is_negative s.quantity || is_negative_amount s.sales_amount

pub data SalesError : Type 0 where
  grain : SalesError
  null_keys invalid_measures : ℕ → SalesError

abbrev pub grain_errors : ℕ → ℕ → List SalesError
grain_errors rows distinct = if rows == distinct then [] else grain ∷ []

abbrev pub null_errors : ℕ → List SalesError
null_errors zero = []
null_errors (suc n) = null_keys (suc n) ∷ []

abbrev pub measure_errors : ℕ → List SalesError
measure_errors zero = []
measure_errors (suc n) = invalid_measures (suc n) ∷ []

pub record SalesMetrics : Type 0 where
  pub row_count : ℕ
  pub distinct_order_item_count : ℕ
  pub null_key_count : ℕ
  pub invalid_measure_count : ℕ

abbrev pub metrics : List Sale → SalesMetrics
metrics sales = record {
  row_count = length sales;
  distinct_order_item_count = count_distinct sales;
  null_key_count = count_if lacks_date sales;
  invalid_measure_count = count_if has_invalid_measure sales;
}

abbrev pub sales_errors : SalesMetrics → List SalesError
sales_errors m =
    grain_errors m.row_count m.distinct_order_item_count
    ++ null_errors m.null_key_count
    ++ measure_errors m.invalid_measure_count

abbrev pub raise_all : SalesMetrics → List SalesError → Result (List SalesError) SalesMetrics
raise_all m [] = ok m
raise_all m (e ∷ es) = err (e ∷ es)

unfoldable pub validate_sales : List Sale → Result (List SalesError) SalesMetrics
validate_sales sales = raise_all (metrics sales) (sales_errors (metrics sales))

-- `main`: the Parquet files are replaced once the validation has passed.
unfoldable pub run_sales_batch :
    List Order
    → List OrderItem
    → List Payment
    → List Sale
    → List Sale × Result (List SalesError) SalesMetrics
run_sales_batch orders items payments output =
    let sales = transform_sales orders items payments in
    elim (validate_sales sales) [ ok m ↦ (sales, ok m) | err errors ↦ (output, err errors) ]
