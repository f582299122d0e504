-- ===== src/Generator/Batches.antt =====
-- The batched loop of data-generator/generate_payments.py against one pass over the orders.
use local_data_platform.Prelude.{
  ℕ, ◌+◌, ◌≤◌, ◌≡◌, refl, sym, ap, subst, ◌∙◌, some, List, [], ◌∷◌, ◌++◌, ok, length, length-append,
}
use mathlib.Core.List.{append_assoc, append-nil}
use local_data_platform.Generator.{
  Order, Payment, PaymentDraw, payments_of, get_order?, payment_rows, generate_payments,
}
use local_data_platform.Generator.Copy.{write_from, copy_all-write_from}

-- The payments of every order, in order; the draws are numbered from an index on.
unfoldable pub all_payments : (ℕ → PaymentDraw) → ℕ → List Order → List Payment
all_payments draws index [] = []
all_payments draws index (o ∷ os) = payments_of o (draws index) ++ all_payments draws (index + 1) os

get_order?-append :
    (before : List Order) (o : Order) (os : List Order)
    → get_order? (before ++ o ∷ os) (length before) ≡ some o
get_order?-append [] o os = refl
get_order?-append (b ∷ before) o os = get_order?-append before o os

module _ (draws : ℕ → PaymentDraw) (orders : List Order) where
  -- What the loop writes for the orders from an index on.
  write_from-all_payments :
      (before rest : List Order) (rows : List Payment)
      → before ++ rest ≡ orders
      → write_from (payment_rows draws orders) (length before) (length rest) rows
        ≡ ok (rows ++ all_payments draws (length before) rest)
  unfolding write_from all_payments
  write_from-all_payments before [] rows is = ap ok (sym (append-nil rows))
  write_from-all_payments before (o ∷ os) rows is =
      let at = length before in
      let new = payments_of o (draws at) in
      let found : get_order? orders at ≡ some o =
        subst (λ all. get_order? all at ≡ some o) is (get_order?-append before o os) in
      let after : length (before ++ o ∷ []) ≡ at + 1 = length-append before (o ∷ []) in
      let later =
        subst
          (λ n.
            write_from (payment_rows draws orders) n (length os) (rows ++ new)
            ≡ ok ((rows ++ new) ++ all_payments draws n os))
          after
          (write_from-all_payments (before ++ o ∷ []) os (rows ++ new)
            (append_assoc before (o ∷ []) os ∙ is)) in
      rw (payment_rows, found)
        (later ∙ ap ok (append_assoc rows new (all_payments draws (at + 1) os)))

-- For any batch size but 0, the batches go through with the payments of every order, in the order of
-- the orders, as one pass over them writes them: no order is left out, taken twice or out of range.
pub generate_payments_whole :
    (batch_size : ℕ) (draws : ℕ → PaymentDraw) (orders : List Order)
    → 1 ≤ batch_size
    → generate_payments batch_size draws orders ≡ ok (all_payments draws 0 orders)
unfolding generate_payments
generate_payments_whole batch_size draws orders some_order =
    copy_all-write_from (payment_rows draws orders) batch_size (length orders) some_order
    ∙ write_from-all_payments draws orders [] orders [] refl
