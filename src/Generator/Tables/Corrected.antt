-- ===== src/Generator/Tables/Corrected.antt =====
-- What postgres/sql/001_correction.sql keeps of the orders, and the amounts that it sets.
use local_data_platform.Prelude.{
  ℕ, ◌≡◌, refl, sym, ap, subst, ◌∙◌, true, Option, none, some, List, [], ◌∷◌, map, arith, nat_eq,
  pair_eq, any, All, In, here, there, In-cons, inl, inr, ◌==◌, is_some,
}
use local_data_platform.Sql.{find, Unique}
use local_data_platform.Sql.Upsert.{key_of_find}
use local_data_platform.Sql.Selection.{In-find, find-map, apply_to}
use local_data_platform.Generator.{Payment}
use local_data_platform.Generator.Tables.{
  OrderItem, OrderRow, order_key, amount_of, correct_order, correct_payment, pay,
}

key_found :
    (k : ℕ) (orders : List OrderRow)
    → In k (map order_key orders)
    → is_some (find order_key k orders) ≡ true
unfolding find
key_found k [] m = elim m [ ]
key_found k (o ∷ orders) m = elim (In-cons m) [
  | inl same ↦ ground (arith, same)
  | inr more ↦ ground (arith, key_found k orders more)
]

module _ (items : List OrderItem) where
  correct_order-key : (o : OrderRow) → order_key (correct_order items o) ≡ order_key o
  correct_order-key o = ground arith

  correct_order-customer : (o : OrderRow) → (correct_order items o).customer_id ≡ o.customer_id
  correct_order-customer o = ground arith

  pub keys_kept :
      (orders : List OrderRow)
      → map order_key (map (correct_order items) orders) ≡ map order_key orders
  keys_kept [] = refl
  keys_kept (o ∷ orders) =
      ap (λ k. k ∷ map order_key (map (correct_order items) orders)) (correct_order-key o)
      ∙ ap (λ ks. order_key o ∷ ks) (keys_kept orders)

  pub order_customers :
      (ids : List ℕ) (orders : List OrderRow)
      → All (λ (o : OrderRow). In o.customer_id ids) orders
      → All (λ (o : OrderRow). In o.customer_id ids) (map (correct_order items) orders)
  order_customers ids [] all = tt
  order_customers ids (o ∷ orders) all = (
    subst (λ c. In c ids) (sym (correct_order-customer o)) all.0,
    order_customers ids orders all.1,
  )

  pub order_amounts :
      (orders : List OrderRow)
      → ((k : ℕ)
          → In k (map order_key orders)
          → any (λ (t : OrderItem). t.order_id == k) items ≡ true)
      → All
          (λ (o : OrderRow). o.total_amount ≡ amount_of o.order_id items)
          (map (correct_order items) orders)
  order_amounts [] has_items = tt
  order_amounts (o ∷ orders) has_items =
      (rw (has_items o.order_id here) refl, order_amounts orders (λ k m. has_items k (there m)))

  correct_payment-amount :
      (orders : List OrderRow) (p : Payment)
      → In p.order_id (map order_key orders)
      → (o : OrderRow) × In o orders
        × (o.order_id ≡ (correct_payment orders p).order_id)
        × ((correct_payment orders p).amount ≡ o.total_amount)
  correct_payment-amount orders p m = by_found (find order_key p.order_id orders) refl
    where
      by_found :
          (found : Option OrderRow)
          → find order_key p.order_id orders ≡ found
          → (o : OrderRow) × In o orders
            × (o.order_id ≡ (pay found p).order_id)
            × ((pay found p).amount ≡ o.total_amount)
      by_found none is =
          let there_is : is_some (find order_key p.order_id orders) ≡ true =
            key_found p.order_id orders m in
          absurd (ground (arith, there_is, is))
      by_found (some o) is = (
        o,
        In-find order_key p.order_id orders o is,
        key_of_find order_key p.order_id orders is,
        refl,
      )

  pub payment_amounts :
      (orders : List OrderRow) (payments : List Payment)
      → All (λ (p : Payment). In p.order_id (map order_key orders)) payments
      → All
          (λ (p : Payment).
            (o : OrderRow) × In o orders × (o.order_id ≡ p.order_id) × (p.amount ≡ o.total_amount))
          (map (correct_payment orders) payments)
  payment_amounts orders [] all = tt
  payment_amounts orders (p ∷ payments) all =
      (correct_payment-amount orders p all.0, payment_amounts orders payments all.1)

  pub orders_distinct :
      (orders : List OrderRow)
      → Unique order_key orders
      → Unique order_key (map (correct_order items) orders)
  unfolding find
  orders_distinct [] u = tt
  orders_distinct (o ∷ orders) u = (
    subst (λ k. find order_key k (map (correct_order items) orders) ≡ none)
        (sym (correct_order-key o))
        (find-map order_key (correct_order items) correct_order-key (order_key o) orders
          ∙ ap (apply_to order_key (correct_order items)) u.0),
    orders_distinct orders u.1,
  )
