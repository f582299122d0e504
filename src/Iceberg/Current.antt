-- ===== src/Iceberg/Current.antt =====
-- What a run of spark/jobs/iceberg_sales.py makes of fact_sales.
use local_data_platform.Prelude.{
  ℕ, ◌≤◌, ◌≡◌, refl, sym, ap, ◌∙◌, subst, Bool, Option, none, some, List, [], ◌∷◌, arith, ok, ◌==◌,
  nat_eq, nat_beq_iff, ltb, length, count_if, select, In, here, there, inl, inr, Bool-cases,
  some_inj,
}
use local_data_platform.Sql.{find, Unique}
use local_data_platform.Sql.Selection.{find-select, select-Unique, passing, find-In-Unique}
use local_data_platform.Sql.Merge.{
  merge_update, combine, find-merge_update, merge_update_empty, merge_update-Unique,
}
use local_data_platform.Sales.{
  Order, OrderItem, Payment, Sale, transform_sales, sale_key, count_distinct, lacks_date,
  has_invalid_measure, metrics, validate_sales,
}
use local_data_platform.Sales.Grain.{
  order_key, item_key, transform_sales-Unique, validate_sales_iff, distinct_iff,
}
use local_data_platform.Iceberg.{
  Snapshot, FactSales, Write, no_op, max_loaded_at, high_watermark, not_older, write_rows,
  write_sales, validate_table, table_metrics, Report, write_if, report, check_and_report,
  load_valid, sales_updates, load_sales, run_iceberg_sales,
}

max_loaded_at_bounds :
    (rs : List Sale) (least k : ℕ) (r : Sale)
    → find sale_key k rs ≡ some r
    → r.source_loaded_at ≤ max_loaded_at rs least
unfolding find max_loaded_at
max_loaded_at_bounds [] least k r h = cc
max_loaded_at_bounds (s ∷ ss) least k r h = elim (Bool-cases (s.order_item_id == k)) [
  | inl same ↦ let is : s ≡ r = some_inj (ground arith) in rw (← is) (omega arith)
  | inr other ↦ omega (arith, max_loaded_at_bounds ss least k r (ground arith))
]

-- No row of the table is newer than its high watermark.
high_watermark_bounds :
    (rs : List Sale) (k : ℕ) (r : Sale)
    → find sale_key k rs ≡ some r
    → r.source_loaded_at ≤ high_watermark rs
high_watermark_bounds [] k r h = let none_found : none ≡ some r = unfold find in h in cc
high_watermark_bounds (s ∷ ss) k r h = max_loaded_at_bounds (s ∷ ss) 0 k r h

write_rows-merge : (u t : List Sale) → write_rows u t ≡ merge_update sale_key not_older u t
unfolding write_rows
write_rows-merge u [] = sym (merge_update_empty sale_key not_older u)
write_rows-merge u (x ∷ t) = refl

module _ (commit : Snapshot) (t : FactSales) where
  find-write_if :
      (u : List Sale) (k : ℕ)
      → find sale_key k (write_if (length u) u commit t).0.rows
        ≡ combine sale_key not_older (find sale_key k t.rows) (find sale_key k u)
  unfolding write_sales find
  find-write_if [] k = kept (find sale_key k t.rows)
    where
      kept : (o : Option Sale) → o ≡ combine sale_key not_older o none
      kept none = refl
      kept (some r) = refl
  find-write_if (s ∷ ss) k =
      ap (find sale_key k) (write_rows-merge (s ∷ ss) t.rows)
      ∙ find-merge_update sale_key not_older k (s ∷ ss) t.rows

  write_if-Unique :
      (u : List Sale)
      → Unique sale_key u
      → Unique sale_key t.rows
      → Unique sale_key (write_if (length u) u commit t).0.rows
  unfolding write_sales
  write_if-Unique [] u v = v
  write_if-Unique (s ∷ ss) u v =
      subst (Unique sale_key) (sym (write_rows-merge (s ∷ ss) t.rows))
        (merge_update-Unique sale_key not_older (s ∷ ss) t.rows u v)

  accepted :
      (o : Option Sale) (s : Sale)
      → ((r : Sale) → o ≡ some r → r.source_loaded_at ≤ s.source_loaded_at)
      → combine sale_key not_older o (some s) ≡ some s
  accepted none s h = refl
  accepted (some r) s h = ground (arith, h r refl)

  -- A staged sale is in the table after the write, as it is staged.
  written_current :
      (sales : List Sale) (s : Sale)
      → Unique sale_key sales
      → (s.source_loaded_at ≤ high_watermark t.rows → find sale_key s.order_item_id t.rows ≡ some s)
      → In s sales
      → find sale_key s.order_item_id
          (write_if (length (sales_updates sales t)) (sales_updates sales t) commit t).0.rows
        ≡ some s
  written_current sales s u loaded i =
      let k = s.order_item_id in
      let newer = λ (r : Sale). ltb (high_watermark t.rows) r.source_loaded_at in
      let in_updates : find sale_key s.order_item_id (sales_updates sales t)
          ≡ passing sale_key (λ r. ltb (high_watermark t.rows) r.source_loaded_at) (some s) =
        unfold sales_updates in
        find-select sale_key (λ r. ltb (high_watermark t.rows) r.source_loaded_at) k sales u
        ∙ ap (passing sale_key (λ r. ltb (high_watermark t.rows) r.source_loaded_at))
            (find-In-Unique sale_key sales s i u) in
      find-write_if (sales_updates sales t) k
      ∙ rw in_updates (elim (Bool-cases (ltb (high_watermark t.rows) s.source_loaded_at)) [
        | inl fresh ↦ rw fresh (
            accepted (find sale_key k t.rows) s
              (λ r found. ground (arith, high_watermark_bounds t.rows k r found)))
        | inr old ↦ rw (old, loaded (ground arith)) refl
      ])

validate_table_accepts :
    (t : FactSales) → Unique sale_key t.rows → validate_table t ≡ ok (table_metrics t)
unfolding validate_table
validate_table_accepts t u =
    rw ((nat_beq_iff (length t.rows) (count_distinct t.rows)).1 ((distinct_iff t.rows).1 u)) refl

-- The run, once both validations have passed.
load_sales_ok :
    (sales : List Sale) (commit : Snapshot) (t written : FactSales) (w : Write)
    → validate_sales (sales_updates sales t) ≡ ok (metrics (sales_updates sales t))
    → write_if (length (sales_updates sales t)) (sales_updates sales t) commit t ≡ (written, w)
    → validate_table written ≡ ok (table_metrics written)
    → load_sales sales commit t ≡ (
      written,
      ok (record {
        operation = w;
        source = metrics (sales_updates sales t);
        table = table_metrics written;
      }),
    )
unfolding load_sales
load_sales_ok sales commit t written w valid wrote passed =
    ap (load_valid (sales_updates sales t) commit t) valid
    ∙ ap (check_and_report (metrics (sales_updates sales t))) wrote
    ∙ ap (report w (metrics (sales_updates sales t)) written) passed

count_if-select :
    (p q : Sale → Bool) (sales : List Sale) → count_if p sales ≡ 0 → count_if p (select q sales) ≡ 0
count_if-select p q [] h = refl
count_if-select p q (s ∷ ss) h = ground (arith, count_if-select p q ss)

-- The staged sales are valid, and those that are not newer than the table are in it.
pub record IsLoadable (sales : List Sale) (t : FactSales) : Type 0 where
  pub dated : count_if lacks_date sales ≡ 0
  pub measured : count_if has_invalid_measure sales ≡ 0
  pub loaded :
      (s : Sale)
      → In s sales
      → s.source_loaded_at ≤ high_watermark t.rows
      → find sale_key s.order_item_id t.rows ≡ some s

module _ (orders : List Order) (items : List OrderItem) (payments : List Payment)
    (commit : Snapshot) (t : FactSales) (distinct_orders : Unique order_key orders)
    (distinct_items : Unique item_key items) where
  updates-Unique : Unique sale_key (sales_updates (transform_sales orders items payments) t)
  unfolding sales_updates
  updates-Unique =
      select-Unique sale_key (λ s. ltb (high_watermark t.rows) s.source_loaded_at)
        (transform_sales orders items payments)
        (transform_sales-Unique orders items payments distinct_orders distinct_items)

  updates_valid :
      IsLoadable (transform_sales orders items payments) t
      → validate_sales (sales_updates (transform_sales orders items payments) t)
        ≡ ok (metrics (sales_updates (transform_sales orders items payments) t))
  unfolding sales_updates
  updates_valid l =
      let newer = λ (s : Sale). ltb (high_watermark t.rows) s.source_loaded_at in
      let sales = transform_sales orders items payments in
      (validate_sales_iff (select newer sales)).1 (
        updates-Unique,
        count_if-select lacks_date newer sales l.dated,
        count_if-select has_invalid_measure newer sales l.measured,
      )

  -- If the staging tables have distinct ids, the staged sales are valid, and fact_sales has distinct
  -- order items and shows those staged sales that are not newer than it, then a run succeeds, fact_sales
  -- still has distinct order items, and it shows every staged sale as it is staged.
  pub run_iceberg_sales_refreshes :
      IsLoadable (transform_sales orders items payments) t
      → Unique sale_key t.rows
      → (t' : FactSales) × (r : Report) × (run_iceberg_sales orders items payments commit t
          ≡ (t', ok r))
        × Unique sale_key t'.rows
        × ((s : Sale)
            → In s (transform_sales orders items payments)
            → find sale_key s.order_item_id t'.rows ≡ some s)
  unfolding run_iceberg_sales
  run_iceberg_sales_refreshes l u =
      let updates = sales_updates (transform_sales orders items payments) t in
      let written =
        write_if (length (sales_updates (transform_sales orders items payments) t))
          (sales_updates (transform_sales orders items payments) t) commit t in
      let unique = write_if-Unique commit t updates updates-Unique u in
      (
        written.0,
        record { operation = written.1; source = metrics updates; table = table_metrics written.0 },
        load_sales_ok (transform_sales orders items payments) commit t written.0 written.1
            (updates_valid l) refl (validate_table_accepts written.0 unique),
        unique,
        λ s i.
            written_current commit t (transform_sales orders items payments) s
              (transform_sales-Unique orders items payments distinct_orders distinct_items)
              (l.loaded s i) i,
      )

-- A run over staged sales that are all in fact_sales already, as they are staged, writes nothing: it
-- reports a no-op, and no snapshot is made.
pub run_iceberg_sales_noop :
    (orders : List Order) (items : List OrderItem) (payments : List Payment) (commit : Snapshot)
    (t : FactSales)
    → Unique sale_key t.rows
    → ((s : Sale)
        → In s (transform_sales orders items payments)
        → find sale_key s.order_item_id t.rows ≡ some s)
    → (r : Report) × (run_iceberg_sales orders items payments commit t ≡ (t, ok r))
      × (r.operation ≡ no_op)
unfolding run_iceberg_sales load_sales sales_updates
run_iceberg_sales_noop orders items payments commit t u current =
    let sales = transform_sales orders items payments in
    (
      record { operation = no_op; source = metrics []; table = table_metrics t },
      ap (λ u. load_valid u commit t (validate_sales u)) (no_updates sales current)
          ∙ ap (load_valid [] commit t) ((validate_sales_iff []).1 (tt, refl, refl))
          ∙ ap (report no_op (metrics []) t) (validate_table_accepts t u),
      refl,
    )
  where
    no_updates :
        (sales : List Sale)
        → ((s : Sale) → In s sales → find sale_key s.order_item_id t.rows ≡ some s)
        → select (λ s. ltb (high_watermark t.rows) s.source_loaded_at) sales ≡ []
    no_updates [] h = refl
    no_updates (s ∷ ss) h = ground (
      arith,
      high_watermark_bounds t.rows s.order_item_id s (h s here),
      no_updates ss (λ r i. h r (there i)),
    )
