-- ===== src/Generator/Tables/Seeded.antt =====
-- What data-generator/main.py leaves in the source: the keys, and the amounts after the corrections.
use local_data_platform.Generator.Copy.{DrawError}
use local_data_platform.Prelude.{
  ap, Bool, Bool-cases, inl, inr, Result, err, ◌>>=◌, ℕ, zero, suc, ◌+◌, ◌≤◌, ◌≡◌, refl, sym, subst,
  ◌∙◌, none, List, [], ◌∷◌, map, arith, ok, nat_eq, pair_eq, All, All-append, All-In, All-of, In,
  here, there, bind-eq-ok, ok_inj,
}
use local_data_platform.Sql.{find, Unique}
use local_data_platform.Generator.{
  Order, PaymentStatus, Payment, PaymentDraw, AttemptDraw, failed, completed, attempt_rows,
  attempt_status, payment_row, payment_count, payments_of, generate_payments,
}
use local_data_platform.Generator.Batches.{all_payments, generate_payments_whole}
use local_data_platform.Generator.Tables.{
  Product, OrderItem, OrderRow, Draws, Uuids, Sizes, customer_key, product_key, order_key, loaded,
  amount_of, correct_order, Source, product_row, generate_products, generate_customers,
  generate_orders, generate_order_items, Constraints, accepted, seed,
}
use local_data_platform.Generator.Tables.Corrected.{
  keys_kept, order_customers, order_amounts, payment_amounts, orders_distinct,
}
use local_data_platform.Generator.Tables.Numbered.{IsFresh, write_from-Unique}
use local_data_platform.Generator.Tables.Orders.{IsChoice, generate_orders_sound}
use local_data_platform.Generator.Tables.Indexed.{self}
use local_data_platform.Generator.Tables.Items.{item_key, IsSample, generate_order_items_sound}

-- The foreign keys, the unique keys, and the amounts of the source.
pub record IsCoherent (s : Source) : Type 0 where
  pub order_customers :
      All (λ (o : OrderRow). In o.customer_id (map customer_key s.customers)) s.orders
  pub order_ids : Unique order_key s.orders
  pub item_parents :
      All
        (λ (t : OrderItem).
          In t.order_id (map order_key s.orders) × In t.product_id (map product_key s.products))
        s.order_items
  pub item_pairs : Unique item_key s.order_items
  pub order_amounts :
      All (λ (o : OrderRow). o.total_amount ≡ amount_of o.order_id s.order_items) s.orders
  pub payment_amounts :
      All
        (λ (p : Payment).
          (o : OrderRow) × In o s.orders × (o.order_id ≡ p.order_id) × (p.amount ≡ o.total_amount))
        s.payments

In-map : {A : Type 0} (f : A → ℕ) (xs : List A) (x : A) → In x xs → In (f x) (map f xs)
In-map f [] x m = elim m [ ]
In-map f (_ ∷ xs) x here = here
In-map f (y ∷ xs) x (there m) = there (In-map f xs x m)

absent-map :
    {A : Type 0} (key : A → ℕ) (k : ℕ) (rs : List A)
    → find key k rs ≡ none
    → find self k (map key rs) ≡ none
unfolding find
absent-map key k [] h = refl
absent-map key k (r ∷ rs) h = ground (arith, absent-map key k rs)

Unique-map : {A : Type 0} (key : A → ℕ) (rs : List A) → Unique key rs → Unique self (map key rs)
Unique-map key [] u = tt
Unique-map key (r ∷ rs) u = (absent-map key (key r) rs u.0, Unique-map key rs u.1)

payment_row-order :
    (o : Order) (attempt : ℕ) (d : AttemptDraw) (s : PaymentStatus)
    → (payment_row o attempt d s).order_id ≡ o.order_id
payment_row-order o attempt d failed = refl
payment_row-order o attempt d completed = refl

attempt_rows-order :
    (o : Order) (count : ℕ) (draws : ℕ → AttemptDraw) (attempt left : ℕ)
    → All (λ (p : Payment). p.order_id ≡ o.order_id) (attempt_rows o count draws attempt left)
attempt_rows-order o count draws attempt zero = tt
attempt_rows-order o count draws attempt (suc left) = (
  payment_row-order o attempt (draws attempt) (attempt_status count attempt (draws attempt).status),
  attempt_rows-order o count draws (attempt + 1) left,
)

-- Every payment is of an order that was loaded.
all_payments-order :
    (draws : ℕ → PaymentDraw) (index : ℕ) (orders : List OrderRow)
    → All
        (λ (p : Payment). In p.order_id (map order_key orders))
        (all_payments draws index (map loaded orders))
unfolding all_payments payments_of
all_payments-order draws index [] = tt
all_payments-order draws index (o ∷ orders) =
    let d = draws index in
    let later = all_payments draws (index + 1) (map loaded orders) in
    let own = attempt_rows (loaded o) (payment_count d) d.attempts 0 (payment_count d) in
    All-append (λ (p : Payment). In p.order_id (map order_key (o ∷ orders))) own later
      (All-of _ own (λ p m.
        subst (λ k. In k (map order_key (o ∷ orders)))
          (sym (
            All-In (λ (p : Payment). p.order_id ≡ o.order_id) own
              (attempt_rows-order (loaded o) (payment_count d) d.attempts 0 (payment_count d)) p m))
          here))
      (All-of _ later (λ p m. there (
        All-In (λ (p : Payment). In p.order_id (map order_key orders)) later
          (all_payments-order draws (index + 1) orders) p m)))

accepted_ok :
    {A : Type 0} (test : A → Bool) (m : Result DrawError A) (a : A)
    → m >>= accepted test ≡ ok a
    → m ≡ ok a
accepted_ok test (err e) a h = cc
accepted_ok test (ok b) a h = elim (Bool-cases (test b)) [
  | inl fits ↦ ap ok (ok_inj (rw fits at h))
  | inr refused ↦ absurd (ground arith)
]

module _ (constraints : Constraints) (d : Draws) (uuids : Uuids) (sizes : Sizes)
    (choice : IsChoice d) (sample : IsSample d) (fresh_products : IsFresh uuids.product)
    (fresh_orders : IsFresh uuids.order) (some_order : 1 ≤ sizes.order_batch)
    (some_item : 1 ≤ sizes.item_batch) (some_payment : 1 ≤ sizes.payment_batch) where
  products_distinct :
      (products : List Product)
      → generate_products d uuids sizes ≡ ok products
      → Unique product_key products
  unfolding generate_products
  products_distinct products h =
      write_from-Unique product_key uuids.product fresh_products (product_row d uuids sizes)
        (λ i new drawn. (_, sym (ok_inj drawn), refl)) sizes.total_products products h

  -- If the seeding goes through, the source is coherent.
  pub seed-IsCoherent : (s : Source) → seed constraints d uuids sizes ≡ ok s → IsCoherent s
  unfolding seed
  seed-IsCoherent s h =
      let (products, wrote_products, h1) =
        bind-eq-ok (generate_products d uuids sizes >>= accepted constraints.products) _ h in
      let (customers, wrote_customers, h2) =
        bind-eq-ok (generate_customers d uuids sizes >>= accepted constraints.customers) _ h1 in
      let (orders, wrote_orders, h3) =
        bind-eq-ok
          (generate_orders d uuids sizes (map customer_key customers)
            >>= accepted constraints.orders)
          _ h2 in
      let (items, wrote_items, h4) =
        bind-eq-ok
          (generate_order_items d uuids sizes (map order_key orders) (map product_key products)
            >>= accepted constraints.order_items)
          _ h3 in
      let (rows, wrote_payments, h5) =
        bind-eq-ok
          (generate_payments sizes.payment_batch d.payments (map loaded orders)
            >>= accepted constraints.payments)
          _ h4 in
      let made_products =
        accepted_ok constraints.products (generate_products d uuids sizes) products
          wrote_products in
      let made_orders =
        accepted_ok constraints.orders (generate_orders d uuids sizes (map customer_key customers))
          orders wrote_orders in
      let made_items =
        accepted_ok constraints.order_items
          (generate_order_items d uuids sizes (map order_key orders) (map product_key products))
          items wrote_items in
      let made_payments =
        accepted_ok constraints.payments
          (generate_payments sizes.payment_batch d.payments (map loaded orders)) rows
          wrote_payments in
      let rows_are : rows ≡ all_payments d.payments 0 (map loaded orders) = ok_inj (
        sym made_payments
        ∙ generate_payments_whole sizes.payment_batch d.payments (map loaded orders)
            some_payment) in
      let (known, distinct) =
        generate_orders_sound d uuids sizes (map customer_key customers) choice fresh_orders orders
          some_order made_orders in
      let (parents, pairs, covered) =
        generate_order_items_sound d uuids sizes (map order_key orders) (map product_key products)
          sample (Unique-map order_key orders distinct)
          (Unique-map product_key products (products_distinct products made_products)) items
          some_item made_items in
      let kept = sym (keys_kept items orders) in
      subst IsCoherent (ok_inj (accepted_ok constraints.corrected (ok _) s h5)) (record {
        order_customers = order_customers items (map customer_key customers) orders known;
        order_ids = orders_distinct items orders distinct;
        item_parents =
            subst
              (λ ks.
                All
                  (λ (t : OrderItem). In t.order_id ks × In t.product_id (map product_key products))
                  items)
              kept parents;
        item_pairs = pairs;
        order_amounts = order_amounts items orders covered;
        payment_amounts = payment_amounts items (map (correct_order items) orders) rows (
            subst (λ ks. All (λ (p : Payment). In p.order_id ks) rows) kept
              (subst (All (λ (p : Payment). In p.order_id (map order_key orders))) (sym rows_are)
                (all_payments-order d.payments 0 orders)));
      })
