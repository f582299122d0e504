-- ===== src/Stream.antt =====
-- The order stream of spark/jobs/order_stream.py: `parse_kafka_events` and `merge_batch`. A column
-- that may be NULL is an Option, a truth value of SQL is an Option of Bool, a time is a number of
-- microseconds and an amount a number of cents.
pub mod Batch
pub mod Replay
pub mod Complete
pub mod Kafka
pub mod Dedupe
pub mod Query
mod Tests
use local_data_platform.Prelude.{
  ℕ, String, Bool, true, false, Option, none, some, List, [], ◌∷◌, map, ◌==◌, nat_eq, string_eq,
  is_some, if◌then◌else◌,
}
use local_data_platform.Prelude.Int.{ℤ, pos, negsuc}

-- A row of the Kafka source.
pub record KafkaRow : Type 0 where
  pub key : Option String
  pub value : Option String
  pub topic : String
  pub partition : ℕ
  pub offset : ℕ
  pub timestamp : ℕ

-- The columns of `EVENT_SCHEMA`, with `data` laid out flat.
pub record Payload : Type 0 where
  pub event_id : Option String
  pub event_type : Option String
  pub schema_version : Option ℤ
  pub occurred_at : Option String
  pub produced_at : Option String
  pub order_id : Option String
  pub customer_id : Option String
  pub status : Option String
  pub total_amount : Option ℤ
  pub order_date : Option String
  pub source_updated_at : Option String

-- The functions of Spark that the parsing calls.
pub record Functions : Type 0 where
  pub from_json : Option String → Payload
  pub to_timestamp : String → Option ℕ

pub record ParsedRow : Type 0 where
  pub message_key : Option String
  pub raw_value : Option String
  pub topic : String
  pub partition : ℕ
  pub offset : ℕ
  pub kafka_timestamp : ℕ
  pub event_id : Option String
  pub event_type : Option String
  pub schema_version : Option ℤ
  pub occurred_at : Option ℕ
  pub produced_at : Option ℕ
  pub order_id : Option String
  pub customer_id : Option String
  pub status : Option String
  pub total_amount : Option ℤ
  pub order_date : Option ℕ
  pub source_updated_at : Option ℕ
  pub ingested_at : ℕ
  pub is_valid : Option Bool

-- AND of SQL: false beats NULL, and NULL beats true.
infixl 40 ◌&?◌
abbrev pub ◌&?◌ : Option Bool → Option Bool → Option Bool
some false &? b = some false
some true &? b = b
none &? some false = some false
none &? some true = none
none &? none = none

-- A comparison of a column with a constant.
abbrev pub is_text : Option String → String → Option Bool
is_text none text = none
is_text (some s) text = some (s == text)

abbrev pub is_number : Option ℤ → ℕ → Option Bool
is_number none n = none
is_number (some (pos m)) n = some (m == n)
is_number (some (negsuc m)) n = some false

abbrev pub timestamp_of : (String → Option ℕ) → Option String → Option ℕ
timestamp_of to_timestamp none = none
timestamp_of to_timestamp (some s) = to_timestamp s

unfoldable pub validity :
    Option String → Option String → Option ℤ → Option String → Option ℕ → Option Bool
validity event_id event_type schema_version order_id source_updated_at =
    some (is_some event_id)
    &? is_text event_type "order.upserted"
    &? is_number schema_version 1
    &? some (is_some order_id)
    &? some (is_some source_updated_at)

abbrev pub parse_row : Functions → ℕ → KafkaRow → ParsedRow
parse_row f now row =
    let event = f.from_json row.value in
    let updated = timestamp_of f.to_timestamp event.source_updated_at in
    record {
      message_key = row.key;
      raw_value = row.value;
      topic = row.topic;
      partition = row.partition;
      offset = row.offset;
      kafka_timestamp = row.timestamp;
      event_id = event.event_id;
      event_type = event.event_type;
      schema_version = event.schema_version;
      occurred_at = timestamp_of f.to_timestamp event.occurred_at;
      produced_at = timestamp_of f.to_timestamp event.produced_at;
      order_id = event.order_id;
      customer_id = event.customer_id;
      status = event.status;
      total_amount = event.total_amount;
      order_date = timestamp_of f.to_timestamp event.order_date;
      source_updated_at = updated;
      ingested_at = now;
      is_valid =
          validity event.event_id event.event_type event.schema_version event.order_id updated;
    }

unfoldable pub parse_kafka_events : Functions → ℕ → List KafkaRow → List ParsedRow
unfolding validity
parse_kafka_events f now rows = map (parse_row f now) rows
