-- ===== src/Pipeline/Checks.antt =====
-- The tasks `validate_record_count` and `validate_relationships` of
-- airflow/dags/ecommerce_pipeline.py, over the rows that their queries count.
pub mod Sound
use local_data_platform.Prelude.{
  ℕ, zero, suc, String, ◌≡◌, refl, ◌↔◌, Bool, true, false, not, Option, none, some, List, [], ◌∷◌,
  arith, Result, ok, err, ◌==◌, nat_eq, any, length, count_if, is_some, if◌then◌else◌, In, here,
  there, inl, inr, Bool-cases,
}
use local_data_platform.Pipeline.Watermark.{
  TaskError, data_validation_failed, relationship_validation_failed,
}

-- The columns that the checks read.
pub record OrderKeys : Type 0 where
  pub order_id : ℕ
  pub customer_id : ℕ

pub record ItemKeys : Type 0 where
  pub order_id : ℕ
  pub product_id : ℕ

-- cdc_silver.customers_current and the staging tables, by the columns that the checks join.
pub record Warehouse : Type 0 where
  pub customers : List ℕ
  pub products : List ℕ
  pub orders : List OrderKeys
  pub order_items : List ItemKeys
  pub payment_orders : List ℕ

abbrev pub failing_counts : List (String × ℕ) → List String
failing_counts [] = []
failing_counts ((table, count) ∷ rest) =
    if count == 0 then table ∷ failing_counts rest else failing_counts rest

abbrev pub fail_with : (List String → TaskError) → List String → Result TaskError (Unit {0})
fail_with e [] = ok tt
fail_with e (f ∷ fs) = err (e (f ∷ fs))

unfoldable pub validate_record_count : Warehouse → Result TaskError (Unit {0})
validate_record_count w = fail_with data_validation_failed (
    failing_counts (
      ("customers", length w.customers)
      ∷ ("products", length w.products)
      ∷ ("orders", length w.orders)
      ∷ ("order_items", length w.order_items)
      ∷ ("payments", length w.payment_orders)
      ∷ []))

abbrev pub order_key : OrderKeys → ℕ
order_key o = o.order_id

-- LEFT JOIN .. WHERE the joined key IS NULL
abbrev pub orphans : {A B : Type 0} → (A → ℕ) → (B → ℕ) → List B → List A → ℕ
orphans foreign key parents rows = count_if (λ r. not (any (λ p. key p == foreign r) parents)) rows

abbrev pub same : ℕ → ℕ
same k = k

abbrev pub failing_checks : List (String × ℕ) → List String
failing_checks [] = []
failing_checks ((check, zero) ∷ rest) = failing_checks rest
failing_checks ((check, suc n) ∷ rest) = check ∷ failing_checks rest

unfoldable pub validate_relationships : Warehouse → Result TaskError (Unit {0})
validate_relationships w = fail_with relationship_validation_failed (
    failing_checks (
      ("orders_without_customer", orphans (λ o. o.customer_id) same w.customers w.orders)
      ∷ ("order_items_without_order", orphans (λ i. i.order_id) order_key w.orders w.order_items)
      ∷ ("order_items_without_product", orphans (λ i. i.product_id) same w.products w.order_items)
      ∷ ("payments_without_order", orphans same order_key w.orders w.payment_orders)
      ∷ []))
