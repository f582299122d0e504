-- ===== src/Generator/Tests.antt =====
-- Runs of data-generator/generate_payments.py: an order with two attempts, and three orders in batches
-- of two.
use local_data_platform.Prelude.{ℕ, ◌≡◌, refl, false, none, some, List, [], ◌∷◌, arith, ok}
use local_data_platform.Generator.{
  Order, completed, failed, PaymentDraw, payments_of, generate_payments,
}
use local_data_platform.Generator.Attempts.{IsDraw, History, payments_of-History}
use local_data_platform.Generator.Batches.{all_payments, generate_payments_whole}

abbrev order : ℕ → Order
order id = record { order_id = id; total_amount = 500; order_date = 100 }

abbrev retried : PaymentDraw
retried = record {
  single = false;
  retries = 2;
  attempts = λ n. record { status = completed; payment_method = "cash"; minutes = 30 };
}

retried_history :
    payments_of (order 7) retried
    ≡ record {
      order_id = 7;
      amount = 500;
      payment_method = "cash";
      status = failed;
      transaction_id = none;
      paid_at = none;
    }
      ∷ record {
        order_id = 7;
        amount = 500;
        payment_method = "cash";
        status = completed;
        transaction_id = some (record { order_id = 7; attempt = 2 });
        paid_at = some 130;
      }
      ∷ []
unfolding payments_of
retried_history = refl

retried-IsDraw : IsDraw retried
retried-IsDraw = record {
  at_least_two = omega arith;
  at_most_three = omega arith;
  at_least_a_minute = λ n. omega arith;
  at_most_an_hour = λ n. omega arith;
}

payments_of-History_example : History (order 7) retried (payments_of (order 7) retried)
payments_of-History_example = payments_of-History (order 7) retried retried-IsDraw

abbrev orders : List Order
orders = order 1 ∷ order 2 ∷ order 3 ∷ []

generate_payments_whole_example :
    generate_payments 2 (λ n. retried) orders ≡ ok (all_payments (λ n. retried) 0 orders)
generate_payments_whole_example = generate_payments_whole 2 (λ n. retried) orders (omega arith)
