-- ===== src/Cdc/Bronze.antt =====
-- `insert_bronze` of cdc/materialize_customers.py, and the table cdc_bronze.customer_changes.

pub mod Growth
use local_data_platform.Prelude.{
  ℕ, String, Bool, true, false, Option, none, some, List, [], ◌∷◌, ◌++◌, Result, ok, err, ◌>>=◌,
  ◌==◌, nat_eq, string_eq, pair_eq, if◌then◌else◌,
}
use local_data_platform.Cdc.Event.{
  Operation, tombstone, other, Source, CustomerImage, Envelope, Message, Failure,
  unsupported_operation, kafka_timestamp,
}
use local_data_platform.Sql.{has}

pub record BronzeRow : Type 0 where
  pub kafka_topic : String
  pub kafka_partition : ℕ
  pub kafka_offset : ℕ
  pub customer_id : ℕ
  pub operation : Operation
  pub source_lsn : Option ℕ
  pub source_ts_ms : Option ℕ
  pub transaction_id : Option String
  pub event_key : ℕ
  pub before_value : Option CustomerImage
  pub after_value : Option CustomerImage
  pub kafka_timestamp : Option ℕ
  pub ingested_at : ℕ

-- The primary key.
abbrev pub coordinates : BronzeRow → String × (ℕ × ℕ)
coordinates r = (r.kafka_topic, (r.kafka_partition, r.kafka_offset))

abbrev pub position : Message → String × (ℕ × ℕ)
position m = (m.topic, (m.partition, m.offset))

-- `(event or {}).get("source") or {}` and a field of it.
abbrev pub lsn_of : Envelope → Option ℕ
lsn_of event = elim event.source [ none ↦ none | some s ↦ s.lsn ]

abbrev pub ts_ms_of : Envelope → Option ℕ
ts_ms_of event = elim event.source [ none ↦ none | some s ↦ s.ts_ms ]

-- The operation that Bronze records: "t" for a message without a value.
abbrev pub operation_of : Option Envelope → Option Operation
operation_of none = some tombstone
operation_of (some event) = event.op

-- The test `operation not in {"r", "c", "u", "d", "t"}`.
unfoldable pub check_operation : Option Operation → Result Failure Operation
check_operation none = err unsupported_operation
check_operation (some (other text)) = err unsupported_operation
check_operation (some op) = ok op

abbrev pub bronze_row : Message → ℕ → Option Envelope → Operation → ℕ → BronzeRow
bronze_row message customer event op now = record {
  kafka_topic = message.topic;
  kafka_partition = message.partition;
  kafka_offset = message.offset;
  customer_id = customer;
  operation = op;
  source_lsn = elim event [ none ↦ none | some e ↦ lsn_of e ];
  source_ts_ms = elim event [ none ↦ none | some e ↦ ts_ms_of e ];
  transaction_id = elim event [ none ↦ none | some e ↦ e.transaction_id ];
  event_key = customer;
  before_value = elim event [ none ↦ none | some e ↦ e.before ];
  after_value = elim event [ none ↦ none | some e ↦ e.after ];
  kafka_timestamp = kafka_timestamp message;
  ingested_at = now;
}

-- The table after the statement, and whether it returned a row.
unfoldable pub insert_bronze :
    Message → ℕ → Option Envelope → ℕ → List BronzeRow → Result Failure (List BronzeRow × Bool)
unfolding check_operation
insert_bronze message customer event now rows = do
  op ← check_operation (operation_of event)
  ok (
      if has coordinates (position message) rows
      then (rows, false)
      else (rows ++ bronze_row message customer event op now ∷ [], true))
