-- ===== src/Cdc/Silver.antt =====
-- `apply_silver` of cdc/materialize_customers.py, the table cdc_silver.customers and the view
-- cdc_silver.customers_current over it.
pub mod Rebuild
pub mod Latest
use local_data_platform.Prelude.{
  ℕ, String, Bool, true, false, not, ◌&&◌, ◌||◌, Option, none, some, List, Result, ok, err, ◌==◌,
  nat_eq, ltb, select, if◌then◌else◌,
}
use local_data_platform.Cdc.Event.{
  Operation, read, create, update, delete, tombstone, other, CustomerImage, Envelope, Message,
  Failure, missing_lsn, missing_after,
}
use local_data_platform.Cdc.Bronze.{lsn_of, ts_ms_of}
use local_data_platform.Sql.{upsert}

pub record SilverRow : Type 0 where
  pub customer_id : ℕ
  pub first_name : Option String
  pub last_name : Option String
  pub email : Option String
  pub created_at : Option String
  pub updated_at : Option String
  pub is_deleted : Bool
  pub source_operation : Operation
  pub source_lsn : ℕ
  pub source_ts_ms : Option ℕ
  pub kafka_topic : String
  pub kafka_partition : ℕ
  pub kafka_offset : ℕ
  pub applied_at : ℕ

-- (EXCLUDED.source_lsn, EXCLUDED.kafka_offset) > (customers.source_lsn, customers.kafka_offset)
abbrev pub newer : SilverRow → SilverRow → Bool
newer excluded stored =
    ltb stored.source_lsn excluded.source_lsn
    || ((stored.source_lsn == excluded.source_lsn) && ltb stored.kafka_offset excluded.kafka_offset)

-- The row of the first INSERT's VALUES.
abbrev pub live_row : Message → CustomerImage → Operation → ℕ → Option ℕ → ℕ → SilverRow
live_row message after op lsn ts now = record {
  customer_id = after.customer_id;
  first_name = after.first_name;
  last_name = after.last_name;
  email = after.email;
  created_at = after.created_at;
  updated_at = after.updated_at;
  is_deleted = false;
  source_operation = op;
  source_lsn = lsn;
  source_ts_ms = ts;
  kafka_topic = message.topic;
  kafka_partition = message.partition;
  kafka_offset = message.offset;
  applied_at = now;
}

-- The row of the second INSERT's VALUES: the columns that it leaves out are NULL.
abbrev pub deleted_row : Message → ℕ → Operation → ℕ → Option ℕ → ℕ → SilverRow
deleted_row message customer op lsn ts now = record {
  customer_id = customer;
  first_name = none;
  last_name = none;
  email = none;
  created_at = none;
  updated_at = none;
  is_deleted = true;
  source_operation = op;
  source_lsn = lsn;
  source_ts_ms = ts;
  kafka_topic = message.topic;
  kafka_partition = message.partition;
  kafka_offset = message.offset;
  applied_at = now;
}

-- DO UPDATE SET of the first statement: every column but the key is EXCLUDED's.
abbrev pub set_live : SilverRow → SilverRow → SilverRow
set_live excluded stored = record excluded { customer_id = stored.customer_id }

-- DO UPDATE SET of the second statement: the customer's attributes stay.
abbrev pub set_deleted : SilverRow → SilverRow → SilverRow
set_deleted excluded stored = record stored {
  is_deleted = true;
  source_operation = excluded.source_operation;
  source_lsn = excluded.source_lsn;
  source_ts_ms = excluded.source_ts_ms;
  kafka_topic = excluded.kafka_topic;
  kafka_partition = excluded.kafka_partition;
  kafka_offset = excluded.kafka_offset;
  applied_at = excluded.applied_at;
}

abbrev pub customer : SilverRow → ℕ
customer r = r.customer_id

-- `operation in {"r", "c", "u"}`
abbrev pub is_upsert : Option Operation → Bool
is_upsert (some read) = true
is_upsert (some create) = true
is_upsert (some update) = true
is_upsert _ = false

abbrev pub is_delete : Option Operation → Bool
is_delete (some delete) = true
is_delete _ = false

-- The two branches on the operation, once the LSN is known.
unfoldable pub apply_operation :
    Message → ℕ → Envelope → ℕ → ℕ → List SilverRow → Result Failure (List SilverRow)
apply_operation message key event lsn now rows = elim event.op [
  | none ↦ ok rows
  | some op ↦
      if is_upsert (some op)
      then (elim event.after [
        | none ↦ err missing_after
        | some after ↦ ok (
            upsert customer newer set_live (live_row message after op lsn (ts_ms_of event) now)
              rows)
      ])
      else if is_delete (some op)
      then ok (
          upsert customer newer set_deleted (deleted_row message key op lsn (ts_ms_of event) now)
            rows)
      else ok rows
]

unfoldable pub apply_silver :
    Message → ℕ → Option Envelope → ℕ → List SilverRow → Result Failure (List SilverRow)
unfolding apply_operation
apply_silver message key none now rows = ok rows
apply_silver message key (some event) now rows = elim (lsn_of event) [
  | none ↦ err missing_lsn
  | some lsn ↦ apply_operation message key event lsn now rows
]

-- cdc_silver.customers_current
abbrev pub customers_current : List SilverRow → List SilverRow
customers_current rows = select (λ r. not r.is_deleted) rows
