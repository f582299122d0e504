-- ===== src/Cdc/Silver/Rebuild.antt =====
-- Silver as a fold over Bronze (postgres/sql/003_cdc_customer_layers.sql: "Keeping both lets us
-- rebuild Silver"). The row that one Bronze record writes, and the rebuild, are a specification:
-- the service itself applies each message as it comes.
use local_data_platform.Prelude.{
  ℕ, ◌≡◌, refl, Bool, true, false, Option, none, some, List, [], ◌∷◌, ◌++◌, arith, ok, nat_eq,
  if◌then◌else◌,
}
use local_data_platform.Sql.{upsert}
use local_data_platform.Cdc.Event.{Operation, Envelope, Message}
use local_data_platform.Cdc.Bronze.{BronzeRow, bronze_row, check_operation, operation_of}
use local_data_platform.Cdc.Silver.{
  SilverRow, customer, newer, set_live, set_deleted, is_upsert, is_delete, apply_silver,
}

abbrev pub change_row : BronzeRow → Operation → ℕ → SilverRow
change_row b op lsn = record {
  customer_id = b.customer_id;
  first_name = none;
  last_name = none;
  email = none;
  created_at = none;
  updated_at = none;
  is_deleted = true;
  source_operation = op;
  source_lsn = lsn;
  source_ts_ms = b.source_ts_ms;
  kafka_topic = b.kafka_topic;
  kafka_partition = b.kafka_partition;
  kafka_offset = b.kafka_offset;
  applied_at = b.ingested_at;
}

-- What the record says of its customer: nothing, deleted, or the new attributes.
unfoldable pub change_of : BronzeRow → Option SilverRow
change_of b = elim b.source_lsn [
  | none ↦ none
  | some lsn ↦
      if is_upsert (some b.operation)
      then (elim b.after_value [
        | none ↦ none
        | some after ↦ some (record (change_row b b.operation lsn) {
          customer_id = after.customer_id;
          first_name = after.first_name;
          last_name = after.last_name;
          email = after.email;
          created_at = after.created_at;
          updated_at = after.updated_at;
          is_deleted = false;
        })
      ])
      else if is_delete (some b.operation)
      then some (change_row b b.operation lsn)
      else none
]

-- A delete keeps the stored attributes, any other change overwrites them.
abbrev pub set_change : Bool → SilverRow → SilverRow → SilverRow
set_change true = set_deleted
set_change false = set_live

pub set_change_keeps :
    (deleted : Bool) (r t : SilverRow)
    → customer t ≡ customer r
    → customer (set_change deleted r t) ≡ customer r
set_change_keeps true r t h = h
set_change_keeps false r t h = h

unfoldable pub apply_change : Option SilverRow → List SilverRow → List SilverRow
apply_change none rows = rows
apply_change (some c) rows = upsert customer newer (set_change c.is_deleted) c rows

unfoldable pub rebuild_from : List SilverRow → List BronzeRow → List SilverRow
rebuild_from rows [] = rows
rebuild_from rows (b ∷ bs) = rebuild_from (apply_change (change_of b) rows) bs

unfoldable pub rebuild : List BronzeRow → List SilverRow
unfolding rebuild_from
rebuild bs = rebuild_from [] bs

rebuild_from-append :
    (rows : List SilverRow) (bs : List BronzeRow) (b : BronzeRow)
    → rebuild_from rows (bs ++ b ∷ []) ≡ apply_change (change_of b) (rebuild_from rows bs)
unfolding rebuild_from
rebuild_from-append rows [] b = refl
rebuild_from-append rows (c ∷ bs) b = rebuild_from-append (apply_change (change_of c) rows) bs b

-- One more Bronze record is one more change after the rebuild.
pub rebuild-append :
    (bs : List BronzeRow) (b : BronzeRow)
    → rebuild (bs ++ b ∷ []) ≡ apply_change (change_of b) (rebuild bs)
unfolding rebuild
rebuild-append bs b = rebuild_from-append [] bs b

-- An accepted message changes Silver as its Bronze record says.
pub apply_silver-change :
    (m : Message) (key : ℕ) (event : Option Envelope) (op : Operation) (now : ℕ)
    (rows rows' : List SilverRow)
    → check_operation (operation_of event) ≡ ok op
    → apply_silver m key event now rows ≡ ok rows'
    → rows' ≡ apply_change (change_of (bronze_row m key event op now)) rows
unfolding check_operation apply_silver change_of apply_change
apply_silver-change m key none op now rows rows' c h = ground arith
apply_silver-change m key (some event) op now rows rows' c h = ground arith
