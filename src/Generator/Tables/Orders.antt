-- ===== src/Generator/Tables/Orders.antt =====
-- The orders of data-generator/generate_orders.py: their customers exist, and their numbers are
-- distinct.
use local_data_platform.Prelude.{
  ℕ, ◌≤◌, ◌≡◌, refl, sym, subst, ◌∙◌, some, List, [], ◌∷◌, ok, nat_eq, All, All-append, In,
  bind-eq-ok, ok_inj,
}
use local_data_platform.Sql.{Unique}
use local_data_platform.Generator.Copy.{index_error, copy_all-write_from, write_from_induction}
use local_data_platform.Generator.Tables.Numbered.{IsFresh, write_from-Unique}
use local_data_platform.Generator.Tables.{
  OrderRow, Draws, Uuids, Sizes, raise_unless, raise_unless_ok, order_row, order_key,
  generate_orders,
}

-- random.choice gives an element.
abbrev pub IsChoice : Draws → Type 0
IsChoice d = (i : ℕ) (ids : List ℕ) (x : ℕ) → d.choice i ids ≡ some x → In x ids

module _ (d : Draws) (uuids : Uuids) (sizes : Sizes) (customer_ids : List ℕ) (choice : IsChoice d)
    (fresh : IsFresh uuids.order) where
  drawn_row :
      (i : ℕ) (new : List OrderRow)
      → order_row d uuids sizes customer_ids i ≡ ok new
      → (o : OrderRow) × (new ≡ o ∷ [])
        × In o.customer_id customer_ids
        × (o.order_id ≡ uuids.order i)
  drawn_row i new h =
      let (c, raised, done) = bind-eq-ok (raise_unless index_error (d.choice i customer_ids)) _ h in
      (
        _,
        sym (ok_inj done),
        choice i customer_ids c (raise_unless_ok index_error (d.choice i customer_ids) c raised),
        refl,
      )

  -- Every order has a customer of the table, and no two orders have the same number.
  pub generate_orders_sound :
      (orders : List OrderRow)
      → 1 ≤ sizes.order_batch
      → generate_orders d uuids sizes customer_ids ≡ ok orders
      → All (λ (o : OrderRow). In o.customer_id customer_ids) orders × Unique order_key orders
  unfolding generate_orders
  generate_orders_sound orders some_order h =
      let one_pass =
        sym (
          copy_all-write_from (order_row d uuids sizes customer_ids) sizes.order_batch
            sizes.total_orders some_order)
        ∙ h in
      (
        write_from_induction (order_row d uuids sizes customer_ids)
            (λ i rows. All (λ (o : OrderRow). In o.customer_id customer_ids) rows)
            (λ i rows new drawn all.
              let (o, is, known, numbered) = drawn_row i new drawn in
              All-append (λ (o : OrderRow). In o.customer_id customer_ids) rows new all
                (subst (All (λ (o : OrderRow). In o.customer_id customer_ids)) (sym is)
                  (known, tt)))
            0 sizes.total_orders [] orders one_pass tt,
        write_from-Unique order_key uuids.order fresh (order_row d uuids sizes customer_ids)
            (λ i new drawn.
              let (o, is, known, numbered) = drawn_row i new drawn in (o, is, numbered))
            sizes.total_orders orders one_pass,
      )
