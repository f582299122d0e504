-- ===== src/Cdc/Batch/View.antt =====
-- What readers of cdc_silver.customers_current see after batches of cdc/materialize_customers.py.
use local_data_platform.Prelude.{
  ℕ, ◌≡◌, refl, not, Option, none, some, List, [], ◌∷◌, sym, ◌∙◌, ap, subst, In, arith, nat_eq,
}
use local_data_platform.Sql.{find, Unique}
use local_data_platform.Sql.Upsert.{upsert-Unique}
use local_data_platform.Sql.Selection.{find-select, passing}
use local_data_platform.Cdc.Bronze.{BronzeRow}
use local_data_platform.Cdc.Silver.{SilverRow, customer, newer, customers_current}
use local_data_platform.Cdc.Silver.Rebuild.{
  change_of, set_change, set_change_keeps, apply_change, rebuild_from, rebuild,
}
use local_data_platform.Cdc.Silver.Latest.{
  Agrees, visible, latest, rebuild-latest, rebuild-Agrees_latest,
}
use local_data_platform.Cdc.Silver.Latest.Convergence.{DistinctVersions, rebuild_converges}
use local_data_platform.Cdc.Batch.{Database}
use local_data_platform.Cdc.Batch.Rebuilt.{IsConsistent}

rebuild_from-Unique :
    (bs : List BronzeRow) (rows : List SilverRow)
    → Unique customer rows
    → Unique customer (rebuild_from rows bs)
unfolding rebuild_from
rebuild_from-Unique [] rows u = u
rebuild_from-Unique (b ∷ bs) rows u = rebuild_from-Unique bs _ (step (change_of b))
  where
    step : (c : Option SilverRow) → Unique customer (apply_change c rows)
    step none = unfold apply_change in u
    step (some c) =
        unfold apply_change in
        upsert-Unique customer newer (set_change c.is_deleted) (set_change_keeps c.is_deleted) c
          rows u

visible-passing : (o : Option SilverRow) → passing customer (λ r. not r.is_deleted) o ≡ visible o
visible-passing none = refl
visible-passing (some r) = ground arith

module _ (k : ℕ) (db : Database) (c : IsConsistent db) where
  -- One row for each customer.
  pub silver-Unique : Unique customer db.silver
  silver-Unique =
      subst (Unique customer) (sym c.rebuilt)
        (unfold rebuild in rebuild_from-Unique db.bronze [] tt)

  pub silver-Agrees : Agrees (find customer k db.silver) (latest k db.bronze)
  silver-Agrees =
      subst (λ s. Agrees (find customer k s) (latest k db.bronze)) (sym c.rebuilt)
        (rebuild-Agrees_latest k db.bronze)

  view-visible : find customer k (customers_current db.silver) ≡ visible (find customer k db.silver)
  view-visible =
      find-select customer (λ r. not r.is_deleted) k db.silver silver-Unique
      ∙ visible-passing (find customer k db.silver)

  pub customers_current-latest :
      find customer k (customers_current db.silver) ≡ visible (latest k db.bronze)
  customers_current-latest =
      view-visible ∙ ap (λ s. visible (find customer k s)) c.rebuilt ∙ rebuild-latest k db.bronze

-- Two consistent databases with the same Bronze records, delivered in whatever order, show the same
-- row of a customer, if no two of its changes have the same (source_lsn, kafka_offset).
pub customers_current_converges :
    (k : ℕ) (db db' : Database)
    → IsConsistent db
    → IsConsistent db'
    → ((b : BronzeRow) → In b db.bronze → In b db'.bronze)
    → ((b : BronzeRow) → In b db'.bronze → In b db.bronze)
    → DistinctVersions k db.bronze
    → find customer k (customers_current db.silver) ≡ find customer k (customers_current db'.silver)
customers_current_converges k db db' c c' into back distinct =
    view-visible k db c
    ∙ ap (λ s. visible (find customer k s)) c.rebuilt
    ∙ rebuild_converges k db.bronze db'.bronze into back distinct
    ∙ sym (ap (λ s. visible (find customer k s)) c'.rebuilt)
    ∙ sym (view-visible k db' c')
