-- ===== src/Generator/Tables/Items.antt =====
-- The order items of data-generator/generate_order_items.py: the keys exist, no pair of an order and a
-- product stands twice, and every order has an item.
use local_data_platform.Prelude.{
  ℕ, ◌+◌, ◌≤◌, ◌<◌, ◌≡◌, refl, sym, ap, subst, ◌∙◌, Bool, true, ◌||◌, none, some, List, [], ◌∷◌,
  ◌++◌, map, arith, ok, nat_eq, pair_eq, length, any, All, All-append, All-In, All-of, ltb, In, inl,
  inr, Bool-cases, bind-eq-ok, ok_inj, some_inj, ◌==◌, beq_refl,
}
use local_data_platform.Sql.{find, Unique}
use local_data_platform.Sql.Upsert.{append-Unique_both}
use local_data_platform.Generator.Copy.{index_error, value_error, copy_all_induction}
use local_data_platform.Generator.Tables.Indexed.{self, get_elem?_inj, get_elem?-In, In-get_elem?}
use local_data_platform.Generator.Tables.{
  OrderItem, Draws, Uuids, Sizes, get_elem?, raise_unless, raise_unless_ok, item_row, item_rows,
  generate_order_items,
}

abbrev pub item_key : OrderItem → ℕ × ℕ
item_key t = (t.order_id, t.product_id)

-- random.sample gives so many elements of the population, none of them twice if the population has
-- none twice.
pub record IsSample (d : Draws) : Type 0 where
  pub members : (i n : ℕ) (ids xs : List ℕ) → d.sample i ids n ≡ some xs → All (λ x. In x ids) xs
  pub distinct :
      (i n : ℕ) (ids xs : List ℕ) → Unique self ids → d.sample i ids n ≡ some xs → Unique self xs
  pub size : (i n : ℕ) (ids xs : List ℕ) → d.sample i ids n ≡ some xs → length xs ≡ n
  -- randint(1, 5)
  pub at_least_one : (i : ℕ) → 1 ≤ d.item_count i

any-append :
    (p : OrderItem → Bool) (xs ys : List OrderItem) → any p (xs ++ ys) ≡ any p xs || any p ys
any-append p [] ys = refl
any-append p (x ∷ xs) ys = ground (arith, any-append p xs ys)

module _ (d : Draws) (uuids : Uuids) (sizes : Sizes) where
  abbrev items_of : ℕ → ℕ → List ℕ → List OrderItem
  items_of i x selected = map (item_row d uuids sizes i x) selected

  items_of-order : (i x : ℕ) (selected : List ℕ) → All (λ t. t.order_id ≡ x) (items_of i x selected)
  items_of-order i x [] = tt
  items_of-order i x (q ∷ qs) = (refl, items_of-order i x qs)

  items_of-product :
      (i x : ℕ) (ids selected : List ℕ)
      → All (λ y. In y ids) selected
      → All (λ t. In t.product_id ids) (items_of i x selected)
  items_of-product i x ids [] all = tt
  items_of-product i x ids (q ∷ qs) all = (all.0, items_of-product i x ids qs all.1)

  no_item :
      (i x q : ℕ) (qs : List ℕ)
      → find self q qs ≡ none
      → find item_key (x, q) (items_of i x qs) ≡ none
  unfolding find
  no_item i x q [] h = refl
  no_item i x q (r ∷ qs) h = ground (arith, no_item i x q qs)

  items_of-Unique :
      (i x : ℕ) (selected : List ℕ) → Unique self selected → Unique item_key (items_of i x selected)
  items_of-Unique i x [] u = tt
  items_of-Unique i x (q ∷ qs) u = (no_item i x q qs u.0, items_of-Unique i x qs u.1)

  other_order :
      (i x : ℕ) (t : OrderItem) (qs : List ℕ)
      → (t.order_id ≡ x → ⊥)
      → find item_key (item_key t) (items_of i x qs) ≡ none
  unfolding find
  other_order i x t [] h = refl
  other_order i x t (q ∷ qs) h = ground (arith, other_order i x t qs h)

  some_item :
      (i x : ℕ) (selected : List ℕ)
      → 1 ≤ length selected
      → any (λ t. t.order_id == x) (items_of i x selected) ≡ true
  some_item i x [] h = absurd (omega arith)
  some_item i x (q ∷ qs) h = rw (beq_refl x) refl

  module _ (order_ids product_ids : List ℕ) (sample : IsSample d)
      (orders_distinct : Unique self order_ids) (products_distinct : Unique self product_ids) where
    -- The items of the orders of the first indices.
    record Written (i : ℕ) (rows : List OrderItem) : Type 0 where
      pub orders :
          All
            (λ (t : OrderItem). (j : ℕ) × (j < i) × (get_elem? order_ids j ≡ some t.order_id))
            rows
      pub products : All (λ (t : OrderItem). In t.product_id product_ids) rows
      pub distinct : Unique item_key rows
      pub covered :
          (j x : ℕ)
          → j < i
          → get_elem? order_ids j ≡ some x
          → any (λ (t : OrderItem). t.order_id == x) rows ≡ true

    drawn_items :
        (i : ℕ) (new : List OrderItem)
        → item_rows d uuids sizes order_ids product_ids i ≡ ok new
        → (x : ℕ) × (selected : List ℕ) × (get_elem? order_ids i ≡ some x)
          × (d.sample i product_ids (d.item_count i) ≡ some selected)
          × (new ≡ items_of i x selected)
    drawn_items i new h =
        let (x, found, more) = bind-eq-ok (raise_unless index_error (get_elem? order_ids i)) _ h in
        let (selected, drawn, done) =
          bind-eq-ok (raise_unless value_error (d.sample i product_ids (d.item_count i))) _ more in
        (
          x,
          selected,
          raise_unless_ok index_error (get_elem? order_ids i) x found,
          raise_unless_ok value_error (d.sample i product_ids (d.item_count i)) selected drawn,
          sym (ok_inj done),
        )

    At : ℕ → OrderItem → Type 0
    At i t = (j : ℕ) × (j < i) × (get_elem? order_ids j ≡ some t.order_id)

    next_orders :
        (i x : ℕ) (rows : List OrderItem) (selected : List ℕ)
        → get_elem? order_ids i ≡ some x
        → All (At i) rows
        → All (At (i + 1)) (rows ++ items_of i x selected)
    unfolding At
    next_orders i x rows selected found all =
        All-append (At (i + 1)) rows (items_of i x selected)
          (All-of (At (i + 1)) rows (λ t m.
            let (j, below, is) = All-In (At i) rows all t m in (j, omega (arith, below), is)))
          (All-of (At (i + 1)) (items_of i x selected) (λ t m.
            let same =
              All-In (λ (t : OrderItem). t.order_id ≡ x) (items_of i x selected)
                (items_of-order i x selected) t m in
            (i, omega arith, found ∙ ap some (sym same))))

    next_distinct :
        (i x : ℕ) (rows : List OrderItem) (selected : List ℕ)
        → get_elem? order_ids i ≡ some x
        → All (At i) rows
        → Unique self selected
        → Unique item_key rows
        → Unique item_key (rows ++ items_of i x selected)
    unfolding At
    next_distinct i x rows selected found all once u =
        append-Unique_both item_key rows (items_of i x selected) u
          (items_of-Unique i x selected once)
          (λ t m. other_order i x t selected (λ same.
            let (j, below, is) = All-In (At i) rows all t m in
            let twice : j ≡ i =
              get_elem?_inj order_ids j i x orders_distinct (is ∙ ap some same) found in
            absurd (omega (arith, below, twice))))

    next_covered :
        (i x : ℕ) (rows : List OrderItem) (selected : List ℕ)
        → get_elem? order_ids i ≡ some x
        → 1 ≤ length selected
        → ((j y : ℕ)
            → j < i
            → get_elem? order_ids j ≡ some y
            → any (λ t. t.order_id == y) rows ≡ true)
        → (j y : ℕ) → j < i + 1
        → get_elem? order_ids j ≡ some y
        → any (λ t. t.order_id == y) (rows ++ items_of i x selected) ≡ true
    next_covered i x rows selected found more covered j y below is = elim (Bool-cases (ltb j i)) [
      | inl earlier ↦
          let before : j < i = ground arith in
          ground (
            arith,
            covered j y before is,
            any-append (λ t. t.order_id == y) rows (items_of i x selected),
          )
      | inr last ↦
          let same : i ≡ j = ground arith in
          let this : x ≡ y = some_inj (sym found ∙ ap (get_elem? order_ids) same ∙ is) in
          ground (
            arith,
            subst (λ z. any (λ t. t.order_id == z) (items_of i x selected) ≡ true) this
                (some_item i x selected more),
            any-append (λ t. t.order_id == y) rows (items_of i x selected),
          )
    ]

    next_items :
        (i : ℕ) (rows new : List OrderItem)
        → item_rows d uuids sizes order_ids product_ids i ≡ ok new
        → Written i rows
        → Written (i + 1) (rows ++ new)
    unfolding At
    next_items i rows new h w =
        let (x, selected, found, drawn, is) = drawn_items i new h in
        let size = sample.size i (d.item_count i) product_ids selected drawn in
        let count = sample.at_least_one i in
        subst (λ n. Written (i + 1) (rows ++ n)) (sym is)
          (record {
            orders = next_orders i x rows selected found w.orders;
            products =
                All-append (λ (t : OrderItem). In t.product_id product_ids) rows
                  (items_of i x selected) w.products
                  (items_of-product i x product_ids selected
                    (sample.members i (d.item_count i) product_ids selected drawn));
            distinct =
                next_distinct i x rows selected found w.orders
                  (sample.distinct i (d.item_count i) product_ids selected products_distinct drawn)
                  w.distinct;
            covered = next_covered i x rows selected found (omega (arith, size, count)) w.covered;
          })

    -- Every item has an order and a product of the tables, no pair of them stands in two items, and
    -- every order has an item.
    pub generate_order_items_sound :
        (items : List OrderItem)
        → 1 ≤ sizes.item_batch
        → generate_order_items d uuids sizes order_ids product_ids ≡ ok items
        → All (λ (t : OrderItem). In t.order_id order_ids × In t.product_id product_ids) items
          × Unique item_key items
          × ((x : ℕ) → In x order_ids → any (λ (t : OrderItem). t.order_id == x) items ≡ true)
    unfolding generate_order_items At
    generate_order_items_sound items some_order h =
        let w =
          copy_all_induction (item_rows d uuids sizes order_ids product_ids) Written next_items
            sizes.item_batch (length order_ids) items some_order h
            (record {
              orders = tt;
              products = tt;
              distinct = tt;
              covered = λ j x below is. absurd (omega arith);
            }) in
        (
          All-of _ items (λ t m.
              let (j, below, is) = All-In (At (length order_ids)) items w.orders t m in
              (
                get_elem?-In order_ids j t.order_id is,
                All-In (λ (t : OrderItem). In t.product_id product_ids) items w.products t m,
              )),
          w.distinct,
          λ x m. let (j, below, is) = In-get_elem? order_ids x m in w.covered j x below is,
        )
