-- ===== src/Cdc/Bronze/Growth.antt =====
-- What `insert_bronze` does to cdc_bronze.customer_changes: it only grows, by the message's row.
use local_data_platform.Prelude.{
  ℕ, ◌++◌, String, bind-eq-ok, ◌≡◌, Bool, true, false, Option, List, [], ◌∷◌, arith, ok, nat_eq,
  string_eq, pair_eq, beq_refl,
}
use local_data_platform.Sql.{find, has, Unique}
use local_data_platform.Sql.Upsert.{find-append, append-Unique}
use local_data_platform.Cdc.Event.{Operation, Envelope, Message}
use local_data_platform.Cdc.Bronze.{
  BronzeRow, check_operation, operation_of, insert_bronze, coordinates, position, bronze_row,
}

has-append :
    (k : String × (ℕ × ℕ)) (rs ts : List BronzeRow)
    → has coordinates k rs ≡ true
    → has coordinates k (rs ++ ts) ≡ true
has-append k rs ts h = ground (arith, find-append coordinates k rs ts)

has-append_last :
    (rs : List BronzeRow) (r : BronzeRow) → has coordinates (coordinates r) (rs ++ r ∷ []) ≡ true
unfolding find
has-append_last rs r =
    ground (arith, find-append coordinates (coordinates r) rs (r ∷ []), beq_refl (coordinates r))

module _ (m : Message) (c : ℕ) (event : Option Envelope) (now : ℕ) (rows rows' : List BronzeRow)
    (taken : Bool) (h : insert_bronze m c event now rows ≡ ok (rows', taken)) where
  -- The operation was accepted, and the table holds the coordinates now.
  pub insert_bronze_stores :
      (op : Operation) × (check_operation (operation_of event) ≡ ok op)
      × (has coordinates (position m) rows' ≡ true)
  unfolding insert_bronze
  insert_bronze_stores =
      let (op, checked, done) = bind-eq-ok (check_operation (operation_of event)) _ h in
      (op, checked, ground (arith, has-append_last rows (bronze_row m c event op now)))

  -- No record is forgotten.
  pub insert_bronze_keeps :
      (k : String × (ℕ × ℕ)) → has coordinates k rows ≡ true → has coordinates k rows' ≡ true
  unfolding insert_bronze
  insert_bronze_keeps k p =
      let (op, checked, done) = bind-eq-ok (check_operation (operation_of event)) _ h in
      ground (arith, has-append k rows (bronze_row m c event op now ∷ []))

  -- The primary key holds.
  pub insert_bronze-Unique : Unique coordinates rows → Unique coordinates rows'
  unfolding insert_bronze
  insert_bronze-Unique u =
      let (op, checked, done) = bind-eq-ok (check_operation (operation_of event)) _ h in
      ground (arith, append-Unique coordinates rows (bronze_row m c event op now))

  -- The row is appended if the statement returned one, and nothing changes if not.
  pub insert_bronze_appends :
      (op : Operation) × (check_operation (operation_of event) ≡ ok op)
      × (taken ≡ true → rows' ≡ rows ++ bronze_row m c event op now ∷ [])
      × (taken ≡ false → rows' ≡ rows)
  unfolding insert_bronze
  insert_bronze_appends =
      let (op, checked, done) = bind-eq-ok (check_operation (operation_of event)) _ h in
      (op, checked, ground arith, ground arith)
