-- ===== src/Cdc/Verify/Answers.antt =====
-- What the three queries of cdc/verify_materialization.py answer, by the Bronze records of the
-- customer.
use local_data_platform.Prelude.{
  ℕ, suc, String, ◌≡◌, refl, sym, ap, subst, ◌∙◌, Bool, true, false, not, ◌&&◌, Option, none, some,
  List, [], ◌∷◌, arith, ◌==◌, nat_eq, string_eq, nat_beq_iff, beq_refl, select, any, count_if, All,
  inl, inr, Bool-cases, some_inj,
}
use local_data_platform.Sql.{find, Unique}
use local_data_platform.Sql.Selection.{select-Unique}
use local_data_platform.Cdc.Bronze.{BronzeRow}
use local_data_platform.Cdc.Silver.{SilverRow, customer, customers_current}
use local_data_platform.Cdc.Silver.Latest.{visible, Agrees, latest}
use local_data_platform.Cdc.Batch.{Database}
use local_data_platform.Cdc.Batch.Rebuilt.{IsConsistent}
use local_data_platform.Cdc.Batch.View.{silver-Unique, silver-Agrees, customers_current-latest}
use local_data_platform.Cdc.Verify.{is_row, is_named, shows_name, is_change_of, shows_deletion}
use local_data_platform.Cdc.Verify.Published.{
  IsKeyed, latest-select, Published, latest_creation, latest_renaming, latest_deletion,
}

module _ (k : ℕ) where
  count_absent :
      (p : SilverRow → Bool) (rows : List SilverRow)
      → find customer k rows ≡ none
      → count_if (λ r. is_row k r && p r) rows ≡ 0
  unfolding find
  count_absent p [] h = refl
  count_absent p (r ∷ rows) h = ground (arith, count_absent p rows)

  -- With unique keys, COUNT(*) is 1 if the row that is found passes.
  count_found :
      (p : SilverRow → Bool) (rows : List SilverRow) (r : SilverRow)
      → Unique customer rows
      → find customer k rows ≡ some r
      → p r ≡ true
      → count_if (λ r. is_row k r && p r) rows ≡ 1
  unfolding find
  count_found p [] r u h passes = cc
  count_found p (q ∷ rows) r u h passes = elim (Bool-cases (customer q == k)) [
    | inl this ↦
        let same : q ≡ r = some_inj (rw this at h) in
        let alone : find customer k rows ≡ none =
          subst (λ j. find customer j rows ≡ none) ((nat_beq_iff (customer q) k).0 this) u.0 in
        rw (this, subst (λ x. p x ≡ true) (sym same) passes) (ap suc (count_absent p rows alone))
    | inr other ↦ rw other (count_found p rows r u.1 (rw other at h) passes)
  ]

  any_absent : (rows : List SilverRow) → find customer k rows ≡ none → any (is_row k) rows ≡ false
  unfolding find
  any_absent [] h = refl
  any_absent (r ∷ rows) h = ground (arith, any_absent rows)

  any_deleted :
      (rows : List SilverRow) (r : SilverRow)
      → find customer k rows ≡ some r
      → r.is_deleted ≡ true
      → any (λ r. is_row k r && r.is_deleted) rows ≡ true
  unfolding find
  any_deleted [] r h d = cc
  any_deleted (q ∷ rows) r h d = elim (Bool-cases (customer q == k)) [
    | inl this ↦
        let same : q ≡ r = some_inj (rw this at h) in
        rw (this, subst (λ x. x.is_deleted ≡ true) (sym same) d) refl
    | inr other ↦ rw other (any_deleted rows r (rw other at h) d)
  ]

  module _ (db : Database) (consistent : IsConsistent db) (keyed : All IsKeyed db.bronze) where
    -- The customer's records.
    abbrev pub changes : List BronzeRow
    changes = select (is_change_of k) db.bronze

    shown :
        (name : String) (c : SilverRow)
        → latest k changes ≡ some c
        → c.is_deleted ≡ false
        → c.last_name ≡ some name
        → shows_name k name db ≡ true
    unfolding shows_name
    shown name c is live named =
        let row : find customer k (customers_current db.silver) ≡ some c =
          customers_current-latest k db consistent
          ∙ ap visible (latest-select k db.bronze keyed ∙ is)
          ∙ rw live refl in
        let one =
          count_found (is_named k name) (customers_current db.silver) c
            (select-Unique customer (λ r. not r.is_deleted) db.silver
              (silver-Unique k db consistent))
            row (rw named (beq_refl name)) in
        rw one refl

    module _ (p : Published k) where
      pub shows_name_created : changes ≡ p.creation ∷ [] → shows_name k "Created" db ≡ true
      shows_name_created are =
          let (c, is, c_is) = latest_creation k p in
          shown "Created" c (ap (latest k) are ∙ is) c_is.is_deleted c_is.last_name

      pub shows_name_updated :
          changes ≡ p.creation ∷ p.renaming ∷ [] → shows_name k "Updated" db ≡ true
      shows_name_updated are =
          let (c, is, c_is) = latest_renaming k p in
          shown "Updated" c (ap (latest k) are ∙ is) c_is.is_deleted c_is.last_name

      pub shows_deletion_all :
          changes ≡ p.creation ∷ p.renaming ∷ p.deletion ∷ p.grave ∷ [] → shows_deletion k db ≡ true
      unfolding shows_deletion
      shows_deletion_all are =
          let (c, is, c_is) = latest_deletion k p in
          let is_latest : latest k db.bronze ≡ some c =
            latest-select k db.bronze keyed ∙ ap (latest k) are ∙ is in
          let hidden : find customer k (customers_current db.silver) ≡ none =
            customers_current-latest k db consistent
            ∙ ap visible is_latest
            ∙ rw c_is.is_deleted refl in
          let (r, found, deleted) =
            stored (find customer k db.silver) c
              (subst (Agrees (find customer k db.silver)) is_latest (silver-Agrees k db consistent))
              c_is.is_deleted in
          rw
            (
              any_absent (customers_current db.silver) hidden,
              any_deleted db.silver r found deleted,
              are,
              p.creation_is.operation,
              p.renaming_is.operation,
              p.deletion_is.operation,
              p.grave_is.operation,
            )
            refl
        where
          stored :
              (o : Option SilverRow) (c : SilverRow)
              → Agrees o (some c)
              → c.is_deleted ≡ true
              → (r : SilverRow) × (o ≡ some r) × (r.is_deleted ≡ true)
          stored none c a d = absurd a
          stored (some r) c a d = (r, refl, ground arith)
