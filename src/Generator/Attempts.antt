-- ===== src/Generator/Attempts.antt =====
-- The history of one order's payments (data-generator/generate_payments.py).
use local_data_platform.Prelude.{
  ℕ, zero, suc, ap, subst, ◌∙◌, ◌⊎◌, ◌+◌, ◌-◌, ◌≤◌, ◌<◌, ◌≡◌, refl, sym, none, some, List, [], ◌∷◌,
  ◌++◌, arith, nat_eq, length, All, inl, inr,
}
use local_data_platform.Generator.{
  Order, PaymentStatus, completed, failed, Payment, AttemptDraw, PaymentDraw, payment_count,
  attempt_status, payment_row, attempt_row, attempt_rows, payments_of,
}

-- A failed attempt of the order.
pub record IsFailure (o : Order) (p : Payment) : Type 0 where
  pub order_id : p.order_id ≡ o.order_id
  pub amount : p.amount ≡ o.total_amount
  pub status : p.status ≡ failed
  pub transaction_id : p.transaction_id ≡ none
  pub paid_at : p.paid_at ≡ none

-- A completed payment: its transaction is the attempt's, and it is paid within the hour after the order.
pub record IsSuccess (o : Order) (attempt : ℕ) (p : Payment) : Type 0 where
  pub minutes : ℕ
  pub order_id : p.order_id ≡ o.order_id
  pub amount : p.amount ≡ o.total_amount
  pub status : p.status ≡ completed
  pub transaction_id : p.transaction_id ≡ some (record { order_id = o.order_id; attempt = attempt })
  pub paid_at : p.paid_at ≡ some (o.order_date + minutes)
  pub at_least : 1 ≤ minutes
  pub at_most : minutes ≤ 60

-- The ranges that the module `random` promises.
pub record IsDraw (d : PaymentDraw) : Type 0 where
  pub at_least_two : 2 ≤ d.retries
  pub at_most_three : d.retries ≤ 3
  pub at_least_a_minute : (n : ℕ) → 1 ≤ (d.attempts n).minutes
  pub at_most_an_hour : (n : ℕ) → (d.attempts n).minutes ≤ 60

-- Failures, then one last attempt, of at most three.
pub record History (o : Order) (d : PaymentDraw) (ps : List Payment) : Type 0 where
  pub failures : List Payment
  pub last : Payment
  pub are : ps ≡ failures ++ last ∷ []
  pub count : length ps ≡ payment_count d
  pub at_most : length ps ≤ 3
  pub before_fail : All (IsFailure o) failures
  pub last_is : IsFailure o last ⊎ IsSuccess o (payment_count d) last

length-attempt_rows :
    (o : Order) (count : ℕ) (draws : ℕ → AttemptDraw) (attempt left : ℕ)
    → length (attempt_rows o count draws attempt left) ≡ left
length-attempt_rows o count draws attempt zero = refl
length-attempt_rows o count draws attempt (suc left) =
    ap suc (length-attempt_rows o count draws (attempt + 1) left)

early_fails :
    (count attempt : ℕ) (drawn : PaymentStatus)
    → attempt + 1 < count
    → attempt_status count attempt drawn ≡ failed
early_fails count attempt drawn h = ground arith

failed-IsFailure :
    (o : Order) (attempt : ℕ) (d : AttemptDraw) → IsFailure o (payment_row o attempt d failed)
failed-IsFailure o attempt d = record {
  order_id = refl;
  amount = refl;
  status = refl;
  transaction_id = refl;
  paid_at = refl;
}

module _ (o : Order) (count : ℕ) (draws : ℕ → AttemptDraw) where
  failures_then_last :
      (attempt left : ℕ)
      → attempt + suc left ≡ count
      → (failures : List Payment) × (attempt_rows o count draws attempt (suc left)
          ≡ failures ++ attempt_row o count draws (count - 1) ∷ [])
        × All (IsFailure o) failures
  failures_then_last attempt zero h =
      ([], ap (λ n. attempt_row o count draws n ∷ []) (omega arith), tt)
  failures_then_last attempt (suc left) h =
      let (fs, are, fail) = failures_then_last (attempt + 1) left (omega arith) in
      (
        attempt_row o count draws attempt ∷ fs,
        ap (λ ps. attempt_row o count draws attempt ∷ ps) are,
        (
          subst (λ s. IsFailure o (payment_row o attempt (draws attempt) s))
              (sym (early_fails count attempt (draws attempt).status (omega arith)))
              (failed-IsFailure o attempt (draws attempt)),
          fail,
        ),
      )

last_outcome :
    (o : Order) (attempt : ℕ) (d : AttemptDraw) (s : PaymentStatus)
    → 1 ≤ d.minutes
    → d.minutes ≤ 60
    → IsFailure o (payment_row o attempt d s)
      ⊎ IsSuccess o (attempt + 1) (payment_row o attempt d s)
last_outcome o attempt d failed low high = inl (failed-IsFailure o attempt d)
last_outcome o attempt d completed low high = inr (record {
  minutes = d.minutes;
  order_id = refl;
  amount = refl;
  status = refl;
  transaction_id = refl;
  paid_at = refl;
  at_least = low;
  at_most = high;
})

count_bounds : (d : PaymentDraw) → IsDraw d → (1 ≤ payment_count d) × (payment_count d ≤ 3)
count_bounds d is = (ground (arith, is.at_least_two), ground (arith, is.at_most_three))

-- For draws in the ranges of `random`, an order gets one to three payments of its amount: every one
-- but the last failed, and the last either failed too or is completed, with the transaction of that
-- attempt and a time of payment one to sixty minutes after the order. A failed one has neither.
pub payments_of-History : (o : Order) (d : PaymentDraw) → IsDraw d → History o d (payments_of o d)
unfolding payments_of
payments_of-History o d is =
    let count = payment_count d in
    let (positive, few) = count_bounds d is in
    let whole : suc (count - 1) ≡ count = omega (arith, positive) in
    let (fs, are, fail) =
      failures_then_last o count d.attempts 0 (count - 1) (omega (arith, positive)) in
    record {
      failures = fs;
      last = attempt_row o count d.attempts (count - 1);
      are = ap (attempt_rows o count d.attempts 0) (sym whole) ∙ are;
      count = length-attempt_rows o count d.attempts 0 count;
      at_most = omega (arith, length-attempt_rows o count d.attempts 0 count, few);
      before_fail = fail;
      last_is =
          subst
            (λ n.
              IsFailure o (attempt_row o count d.attempts (count - 1))
              ⊎ IsSuccess o n (attempt_row o count d.attempts (count - 1)))
            (omega (arith, positive))
            (last_outcome o (count - 1) (d.attempts (count - 1))
              (attempt_status count (count - 1) (d.attempts (count - 1)).status)
              (is.at_least_a_minute (count - 1)) (is.at_most_an_hour (count - 1)));
    }
