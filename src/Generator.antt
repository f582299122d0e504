-- ===== src/Generator.antt =====
-- The generators of data-generator/. This file has the payments of generate_payments.py, and
-- Generator.Tables the other tables and `main`. What `random` draws for an order is a
-- record; a time is a number of minutes, an amount a number of cents. The text of a transaction is
-- told by the two numbers that it is formatted from, and the batch size, 10,000, is a parameter.
pub mod Copy
pub mod Tables
pub mod Attempts
pub mod Batches
mod Tests
use local_data_platform.Generator.Copy.{DrawError, index_error, copy_all}
use local_data_platform.Prelude.{
  ℕ, zero, suc, ◌+◌, ◌-◌, min, String, Bool, true, false, not, ◌&&◌, Option, none, some, List, [],
  ◌∷◌, ◌++◌, ◌==◌, nat_eq, ltb, length, Result, ok, err, if◌then◌else◌,
}

pub record Order : Type 0 where
  pub order_id : ℕ
  pub total_amount : ℕ
  pub order_date : ℕ

pub data PaymentStatus : Type 0 where
  completed failed : PaymentStatus

-- f"TXN-{order_id}-{attempt + 1}"
pub record Transaction : Type 0 where
  pub order_id : ℕ
  pub attempt : ℕ

pub record Payment : Type 0 where
  pub order_id : ℕ
  pub amount : ℕ
  pub payment_method : String
  pub status : PaymentStatus
  pub transaction_id : Option Transaction
  pub paid_at : Option ℕ

-- What is drawn for an attempt: of the two statuses, of the methods, and of the minutes.
pub record AttemptDraw : Type 0 where
  pub status : PaymentStatus
  pub payment_method : String
  pub minutes : ℕ

-- What is drawn for an order: whether random() < 0.90, randint(2, 3), and its attempts.
pub record PaymentDraw : Type 0 where
  pub single : Bool
  pub retries : ℕ
  pub attempts : ℕ → AttemptDraw

abbrev pub payment_count : PaymentDraw → ℕ
payment_count d = if d.single then 1 else d.retries

abbrev pub attempt_status : ℕ → ℕ → PaymentStatus → PaymentStatus
attempt_status count attempt drawn =
    let is_last_attempt = attempt == count - 1 in
    if count == 1 then drawn else if not is_last_attempt then failed else drawn

abbrev pub payment_row : Order → ℕ → AttemptDraw → PaymentStatus → Payment
payment_row o attempt d failed = record {
  order_id = o.order_id;
  amount = o.total_amount;
  payment_method = d.payment_method;
  status = failed;
  transaction_id = none;
  paid_at = none;
}
payment_row o attempt d completed = record {
  order_id = o.order_id;
  amount = o.total_amount;
  payment_method = d.payment_method;
  status = completed;
  transaction_id = some (record { order_id = o.order_id; attempt = attempt + 1 });
  paid_at = some (o.order_date + d.minutes);
}

abbrev pub attempt_row : Order → ℕ → (ℕ → AttemptDraw) → ℕ → Payment
attempt_row o count draws attempt =
    payment_row o attempt (draws attempt) (attempt_status count attempt (draws attempt).status)

-- `for attempt in range(payment_count)`, from an attempt on with a number of them left.
abbrev pub attempt_rows : Order → ℕ → (ℕ → AttemptDraw) → ℕ → ℕ → List Payment
attempt_rows o count draws attempt zero = []
attempt_rows o count draws attempt (suc left) =
    attempt_row o count draws attempt ∷ attempt_rows o count draws (attempt + 1) left

unfoldable pub payments_of : Order → PaymentDraw → List Payment
payments_of o d = attempt_rows o (payment_count d) d.attempts 0 (payment_count d)

abbrev pub get_order? : List Order → ℕ → Option Order
get_order? [] i = none
get_order? (o ∷ os) zero = some o
get_order? (o ∷ os) (suc i) = get_order? os i

-- The rows that are written for `orders[index]`, where the index is `processed_orders + i`.
abbrev pub payment_rows : (ℕ → PaymentDraw) → List Order → ℕ → Result DrawError (List Payment)
payment_rows draws orders index = elim (get_order? orders index) [
  | none ↦ err index_error
  | some o ↦ ok (payments_of o (draws index))
]

-- The rows of the COPYs; `total_payments` counts them.
unfoldable pub generate_payments :
    ℕ → (ℕ → PaymentDraw) → List Order → Result DrawError (List Payment)
unfolding payments_of
generate_payments batch_size draws orders =
    copy_all (payment_rows draws orders) batch_size (length orders)
