-- ===== src/Cdc/Reconcile/Clean.antt =====
-- What a reconciliation of cdc/reconcile_customers.py that goes through says.
use local_data_platform.Prelude.{
  ◌≡◌, ◌↔◌, refl, sym, ◌∙◌, Bool, true, false, not, ◌&&◌, List, ◌++◌, arith, ◌==◌, nat_eq,
  string_eq, pair_eq, length, select, ok, err, is_ok, if◌then◌else◌,
}
use local_data_platform.Sql.{Unique}
use local_data_platform.Cdc.Event.{CustomerImage}
use local_data_platform.Cdc.Bronze.{BronzeRow, coordinates}
use local_data_platform.Sql.Selection.{select-Unique}
use local_data_platform.Cdc.Silver.{SilverRow, customers_current}
use local_data_platform.Cdc.Reconcile.{
  joined_rows, unmatched, full_outer_join, differs, Report, ReconcileError, reconciliation_failed,
  query, is_clean, reconcile,
}
use local_data_platform.Cdc.Reconcile.Exact.{
  any-append, none_selected-any, AllShown, no_difference, all_shown,
}
use local_data_platform.Cdc.Reconcile.Offsets.{duplicate_offsets_iff}

differences_iff :
    (source : List CustomerImage) (silver : List SilverRow)
    → Unique CustomerImage.customer_id source
    → Unique SilverRow.customer_id silver
    → ((length (select differs (full_outer_join source silver)) == 0) ≡ true)
      ↔ AllShown source silver
unfolding full_outer_join
differences_iff source silver us u =
    rw
      (
        none_selected-any differs (joined_rows source silver ++ unmatched source silver),
        any-append differs (joined_rows source silver) (unmatched source silver),
      )
      (
        λ h. no_difference source silver u (ground arith) (ground arith),
        λ shown. let (a, b) = all_shown source silver us u shown in rw (a, b) refl,
      )

ok_if :
    (b : Bool) (r : Report)
    → is_ok {E = ReconcileError} (if b then ok r else err (reconciliation_failed r)) ≡ b
ok_if true r = refl
ok_if false r = refl

both : (a b : Bool) → (a && b) ≡ true → (a ≡ true) × (b ≡ true)
both a b h = (ground arith, ground arith)

-- For tables whose customers are unique, the reconciliation goes through exactly if the view shows, for
-- every customer, the columns of the source row or nothing where the source has no row, and no two
-- Bronze rows have the same coordinates.
pub reconcile_iff :
    (source : List CustomerImage) (silver : List SilverRow) (bronze : List BronzeRow)
    → Unique CustomerImage.customer_id source
    → Unique SilverRow.customer_id silver
    → (is_ok (reconcile source silver bronze) ≡ true)
      ↔ (AllShown source (customers_current silver) × Unique coordinates bronze)
unfolding reconcile
reconcile_iff source silver bronze us u =
    let r = query source silver bronze in
    let (sound, complete) =
      differences_iff source (customers_current silver) us
        (select-Unique SilverRow.customer_id (λ v. not v.is_deleted) silver u) in
    let (once, apart) = duplicate_offsets_iff bronze in
    (
      λ h.
          let (same, single) =
            both (r.differences == 0) (r.duplicate_offsets == 0) (sym (ok_if (is_clean r) r) ∙ h) in
          (sound same, once single),
      λ h. ok_if (is_clean r) r ∙ rw (complete h.0, apart h.1) refl,
    )
