-- ===== src/Sales/Grain.antt =====
-- The grain of the sales of spark/jobs/sales_batch.py: one row for each order item.
use local_data_platform.Prelude.{
  ℕ, ◌≤◌, ◌≡◌, refl, sym, ap, ◌↔◌, none, List, [], ◌∷◌, arith, ok, ◌==◌, nat_eq, nat_beq_iff,
  length, length-append, count_if, if◌then◌else◌, inl, inr, ◌⊎◌, subst, Bool-cases,
}
use local_data_platform.Sql.{find, has, Unique}
use local_data_platform.Sales.{
  Order, OrderItem, Payment, Sale, sale_of, payment_metrics, sales_of_item, transform_sales,
  sale_key, count_distinct, lacks_date, has_invalid_measure, validate_sales, metrics,
}

abbrev pub order_key : Order → ℕ
order_key o = o.order_id

none_joined :
    (payments : List Payment) (orders : List Order) (i : OrderItem)
    → find order_key i.order_id orders ≡ none
    → sales_of_item payments orders i ≡ []
unfolding find sales_of_item
none_joined payments [] i h = refl
none_joined payments (o ∷ os) i h = ground (arith, none_joined payments os i)

one_joined :
    (payments : List Payment) (orders : List Order) (i : OrderItem)
    → Unique order_key orders
    → length (sales_of_item payments orders i) ≡ (if has order_key i.order_id orders then 1 else 0)
unfolding find sales_of_item
one_joined payments [] i u = refl
one_joined payments (o ∷ os) i u = ground (
  arith,
  none_joined payments os i,
  nat_beq_iff o.order_id i.order_id,
  one_joined payments os i u.1,
)

-- However many payments an order has, the sales have one row for each item whose order exists, when
-- the orders have distinct ids.
pub length-transform_sales :
    (orders : List Order) (items : List OrderItem) (payments : List Payment)
    → Unique order_key orders
    → length (transform_sales orders items payments)
      ≡ count_if (λ i. has order_key i.order_id orders) items
unfolding transform_sales
length-transform_sales orders [] payments u = refl
length-transform_sales orders (i ∷ is) payments u = ground (
  arith,
  length-append (sales_of_item payments orders i) (transform_sales orders is payments),
  one_joined payments orders i u,
  length-transform_sales orders is payments u,
)

abbrev pub item_key : OrderItem → ℕ
item_key i = i.order_item_id

-- An item joins no order, or one.
one_sale :
    (payments : List Payment) (orders : List Order) (i : OrderItem)
    → Unique order_key orders
    → (sales_of_item payments orders i ≡ [])
      ⊎ ((s : Sale) × (sales_of_item payments orders i ≡ s ∷ []) × (sale_key s ≡ item_key i))
unfolding sales_of_item
one_sale payments [] i u = inl refl
one_sale payments (o ∷ os) i u = elim (Bool-cases (o.order_id == i.order_id)) [
  | inl same ↦ inr (
    sale_of o i (payment_metrics payments o.order_id),
    rw same (
        ap (λ rest. sale_of o i (payment_metrics payments o.order_id) ∷ rest)
          (none_joined payments os i (
            subst (λ k. find order_key k os ≡ none) ((nat_beq_iff o.order_id i.order_id).0 same)
              u.0))),
    refl,
  )
  | inr other ↦ rw other (one_sale payments os i u.1)
]

absent_sale :
    (orders : List Order) (items : List OrderItem) (payments : List Payment) (k : ℕ)
    → Unique order_key orders
    → find item_key k items ≡ none
    → find sale_key k (transform_sales orders items payments) ≡ none
unfolding transform_sales find
absent_sale orders [] payments k u h = refl
absent_sale orders (i ∷ is) payments k u h = elim (one_sale payments orders i u) [
  | inl nothing ↦ rw nothing (absent_sale orders is payments k u (ground arith))
  | inr (s, one, key) ↦ rw (one, key) (ground (arith, absent_sale orders is payments k u))
]

-- The order items of the sales are distinct, when the items and the orders have distinct ids.
pub transform_sales-Unique :
    (orders : List Order) (items : List OrderItem) (payments : List Payment)
    → Unique order_key orders
    → Unique item_key items
    → Unique sale_key (transform_sales orders items payments)
unfolding transform_sales
transform_sales-Unique orders [] payments u v = tt
transform_sales-Unique orders (i ∷ is) payments u v = elim (one_sale payments orders i u) [
  | inl nothing ↦ rw nothing (transform_sales-Unique orders is payments u v.1)
  | inr (s, one, key) ↦ rw one (
    absent_sale orders is payments s.order_item_id u
        (subst (λ k. find item_key k is ≡ none) (sym key) v.0),
    transform_sales-Unique orders is payments u v.1,
  )
]

distinct_le : (sales : List Sale) → count_distinct sales ≤ length sales
distinct_le [] = omega arith
distinct_le (s ∷ ss) = ground (arith, distinct_le ss)

pub distinct_iff :
    (sales : List Sale) → (length sales ≡ count_distinct sales) ↔ Unique sale_key sales
distinct_iff [] = (λ h. tt, λ h. refl)
distinct_iff (s ∷ ss) = ground (arith, distinct_le ss, distinct_iff ss)

pub validate_sales_iff :
    (sales : List Sale)
    → (validate_sales sales ≡ ok (metrics sales)) ↔ (
        Unique sale_key sales
        × (count_if lacks_date sales ≡ 0)
        × (count_if has_invalid_measure sales ≡ 0))
unfolding validate_sales
validate_sales_iff sales =
    ground (arith, distinct_iff sales, nat_beq_iff (length sales) (count_distinct sales))
