-- ===== src/Pipeline/Checks/Sound.antt =====
-- What the two validation tasks of airflow/dags/ecommerce_pipeline.py guarantee to the tasks
-- that run after them.
use local_data_platform.Prelude.{
  ℕ, zero, suc, String, ◌≡◌, refl, ◌↔◌, true, List, [], ◌∷◌, arith, ok, ◌==◌, nat_eq, any, length,
  In, here, there, Bool-cases, inl, inr, nat_beq_iff, ◌≤◌,
}
use local_data_platform.Pipeline.Watermark.{
  TaskError, data_validation_failed, relationship_validation_failed,
}
use local_data_platform.Pipeline.Checks.{
  Warehouse, failing_counts, fail_with, validate_record_count, order_key, orphans, same,
  failing_checks, validate_relationships,
}

module _ (e : List String → TaskError) where
  fail_with_iff : (fs : List String) → (fail_with e fs ≡ ok tt) ↔ (fs ≡ [])
  fail_with_iff [] = (λ h. refl, λ h. refl)
  fail_with_iff (f ∷ fs) = (λ h. cc, λ h. cc)

-- Every relation has a row.
abbrev pub IsPopulated : Warehouse → Type 0
IsPopulated w =
    (1 ≤ length w.customers)
    × (1 ≤ length w.products)
    × (1 ≤ length w.orders)
    × (1 ≤ length w.order_items)
    × (1 ≤ length w.payment_orders)

failing_counts_cons :
    (t : String) (n : ℕ) (rest : List (String × ℕ))
    → (failing_counts ((t, n) ∷ rest) ≡ []) ↔ ((1 ≤ n) × (failing_counts rest ≡ []))
failing_counts_cons t n rest = ground (arith, nat_beq_iff n 0)

failing_checks_cons :
    (t : String) (n : ℕ) (rest : List (String × ℕ))
    → (failing_checks ((t, n) ∷ rest) ≡ []) ↔ ((n ≡ 0) × (failing_checks rest ≡ []))
failing_checks_cons t zero rest = ground arith
failing_checks_cons t (suc n) rest = ground arith

-- The task passes exactly when none of the five relations is empty.
pub validate_record_count_iff : (w : Warehouse) → (validate_record_count w ≡ ok tt) ↔ IsPopulated w
unfolding validate_record_count
validate_record_count_iff w = ground (
  arith,
  fail_with_iff data_validation_failed _,
  failing_counts_cons "customers" (length w.customers) _,
  failing_counts_cons "products" (length w.products) _,
  failing_counts_cons "orders" (length w.orders) _,
  failing_counts_cons "order_items" (length w.order_items) _,
  failing_counts_cons "payments" (length w.payment_orders) [],
)

module _ {A B : Type 0} (foreign : A → ℕ) (key : B → ℕ) where
  any-In : (k : ℕ) (ps : List B) → any (λ p. key p == k) ps ≡ true → (p : B) × In p ps × (key p ≡ k)
  any-In k [] h = cc
  any-In k (p ∷ ps) h = elim (Bool-cases (key p == k)) [
    | inl e ↦ (p, here, (nat_beq_iff (key p) k).0 e)
    | inr e ↦ let (q, i, f) = any-In k ps (ground arith) in (q, there i, f)
  ]

  In-any : (k : ℕ) (ps : List B) (p : B) → In p ps → key p ≡ k → any (λ p. key p == k) ps ≡ true
  In-any k [] p i h = elim i [ ]
  In-any k (_ ∷ ps) p here h = ground (arith, nat_beq_iff (key p) k)
  In-any k (q ∷ ps) p (there i) h = ground (arith, In-any k ps p i h)

  -- Every row has a parent.
  abbrev pub HasParents : List B → List A → Type 0
  HasParents ps rs = (r : A) → In r rs → (p : B) × In p ps × (key p ≡ foreign r)

  none_orphaned : (ps : List B) (rs : List A) → orphans foreign key ps rs ≡ 0 → HasParents ps rs
  none_orphaned ps [] h r i = elim i [ ]
  none_orphaned ps (_ ∷ rs) h r here = any-In (foreign r) ps (ground arith)
  none_orphaned ps (x ∷ rs) h r (there i) = none_orphaned ps rs (ground arith) r i

  orphans_none : (ps : List B) (rs : List A) → HasParents ps rs → orphans foreign key ps rs ≡ 0
  orphans_none ps [] h = refl
  orphans_none ps (x ∷ rs) h =
      let (p, i, e) = h x here in
      let found = In-any (foreign x) ps p i e in
      ground (arith, orphans_none ps rs (λ r j. h r (there j)))

  orphans_iff : (ps : List B) (rs : List A) → (orphans foreign key ps rs ≡ 0) ↔ HasParents ps rs
  orphans_iff ps rs = (none_orphaned ps rs, orphans_none ps rs)

-- Every foreign key of the staging tables has its row.
abbrev pub HasReferences : Warehouse → Type 0
HasReferences w =
    HasParents (λ o. o.customer_id) same w.customers w.orders
    × HasParents (λ i. i.order_id) order_key w.orders w.order_items
    × HasParents (λ i. i.product_id) same w.products w.order_items
    × HasParents same order_key w.orders w.payment_orders

-- The task passes exactly when every order has its customer in Silver, every order item its
-- order and its product, and every payment its order.
pub validate_relationships_iff :
    (w : Warehouse) → (validate_relationships w ≡ ok tt) ↔ HasReferences w
unfolding validate_relationships
validate_relationships_iff w =
    let customers = orphans_iff (λ o. o.customer_id) same w.customers w.orders in
    let orders = orphans_iff (λ i. i.order_id) order_key w.orders w.order_items in
    let products = orphans_iff (λ i. i.product_id) same w.products w.order_items in
    let payments = orphans_iff same order_key w.orders w.payment_orders in
    ground (
      arith,
      customers,
      orders,
      products,
      payments,
      fail_with_iff relationship_validation_failed _,
      failing_checks_cons "orders_without_customer" _ _,
      failing_checks_cons "order_items_without_order" _ _,
      failing_checks_cons "order_items_without_product" _ _,
      failing_checks_cons "payments_without_order" _ [],
    )
