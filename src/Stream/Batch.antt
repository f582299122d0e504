-- ===== src/Stream/Batch.antt =====
-- `merge_batch` of spark/jobs/order_stream.py: the valid rows of a micro-batch go to the event
-- history and, by the newest version of each order, to the current state; the invalid rows go to
-- the dead letters. The three statements commit one after the other.
pub mod Lookup
use local_data_platform.Prelude.{
  ℕ, String, Bool, true, false, ◌&&◌, ◌||◌, Option, none, some, List, [], ◌∷◌, ◌++◌, map, ◌==◌,
  nat_eq, string_eq, ltb, leb, select, if◌then◌else◌,
}
use local_data_platform.Prelude.Int.{ℤ}
use local_data_platform.Sql.{upsert}
use local_data_platform.Sql.Merge.{merge_insert, merge_update}
use local_data_platform.Stream.{ParsedRow}

-- A row of the table order_events.
pub record OrderEvent : Type 0 where
  pub event_id : String
  pub event_type : Option String
  pub schema_version : Option ℤ
  pub occurred_at : Option ℕ
  pub produced_at : Option ℕ
  pub order_id : String
  pub customer_id : Option String
  pub status : Option String
  pub total_amount : Option ℤ
  pub order_date : Option ℕ
  pub source_updated_at : ℕ
  pub message_key : Option String
  pub kafka_topic : String
  pub kafka_partition : ℕ
  pub kafka_offset : ℕ
  pub kafka_timestamp : ℕ
  pub ingested_at : ℕ

-- A row of the table current_orders.
pub record CurrentOrder : Type 0 where
  pub order_id : String
  pub customer_id : Option String
  pub status : Option String
  pub total_amount : Option ℤ
  pub order_date : Option ℕ
  pub source_updated_at : ℕ
  pub latest_event_id : String
  pub updated_at : ℕ

pub record DeadLetter : Type 0 where
  pub dead_letter_id : String
  pub raw_value : Option String
  pub error_reason : String
  pub kafka_topic : String
  pub kafka_partition : ℕ
  pub kafka_offset : ℕ
  pub kafka_timestamp : ℕ
  pub ingested_at : ℕ

pub record Lake : Type 0 where
  pub events : List OrderEvent
  pub current : List CurrentOrder
  pub dead_letters : List DeadLetter

abbrev pub event_key : OrderEvent → String
event_key e = e.event_id

abbrev pub event_order : OrderEvent → String
event_order e = e.order_id

abbrev pub order_key : CurrentOrder → String
order_key o = o.order_id

abbrev pub letter_key : DeadLetter → String
letter_key d = d.dead_letter_id

-- The columns of a row with the three that a valid row has.
abbrev pub event_row : ParsedRow → Option String → Option String → Option ℕ → Option OrderEvent
event_row r (some event) (some order) (some updated) = some (record {
  event_id = event;
  event_type = r.event_type;
  schema_version = r.schema_version;
  occurred_at = r.occurred_at;
  produced_at = r.produced_at;
  order_id = order;
  customer_id = r.customer_id;
  status = r.status;
  total_amount = r.total_amount;
  order_date = r.order_date;
  source_updated_at = updated;
  message_key = r.message_key;
  kafka_topic = r.topic;
  kafka_partition = r.partition;
  kafka_offset = r.offset;
  kafka_timestamp = r.kafka_timestamp;
  ingested_at = r.ingested_at;
})
event_row r _ _ _ = none

-- `filter("is_valid")` keeps a row whose test is true, `filter("NOT is_valid")` one whose test is
-- false; a row whose test is NULL passes neither.
abbrev pub passes_filter : Option Bool → Bool
passes_filter (some true) = true
passes_filter _ = false

abbrev pub passes_not_filter : Option Bool → Bool
passes_not_filter (some false) = true
passes_not_filter _ = false

abbrev pub valid_event : ParsedRow → Option OrderEvent
valid_event r =
    if passes_filter r.is_valid then event_row r r.event_id r.order_id r.source_updated_at else none

abbrev pub cons_some {ℓ} : {A : Type ℓ} → Option A → List A → List A
cons_some none xs = xs
cons_some (some x) xs = x ∷ xs

unfoldable pub valid_events : List ParsedRow → List OrderEvent
valid_events [] = []
valid_events (r ∷ rs) = cons_some (valid_event r) (valid_events rs)

abbrev pub dead_letter : (String → ℕ → ℕ → String) → ParsedRow → DeadLetter
dead_letter digest r = record {
  dead_letter_id = digest r.topic r.partition r.offset;
  raw_value = r.raw_value;
  error_reason = "invalid_json_or_unsupported_order_event_v1";
  kafka_topic = r.topic;
  kafka_partition = r.partition;
  kafka_offset = r.offset;
  kafka_timestamp = r.kafka_timestamp;
  ingested_at = r.ingested_at;
}

unfoldable pub invalid_letters : (String → ℕ → ℕ → String) → List ParsedRow → List DeadLetter
invalid_letters digest rows =
    map (dead_letter digest) (select (λ r. passes_not_filter r.is_valid) rows)

-- (source_updated_at, offset) in the order of the window; which of two equal rows comes first, Spark
-- leaves open, and here it is the order of the list.
abbrev pub at_least_as_new : OrderEvent → OrderEvent → Bool
at_least_as_new e t =
    ltb t.source_updated_at e.source_updated_at
    || ((t.source_updated_at == e.source_updated_at) && leb t.kafka_offset e.kafka_offset)

abbrev pub replace : OrderEvent → OrderEvent → OrderEvent
replace e t = e

-- The rows with row_number = 1.
unfoldable pub latest_per_order : List OrderEvent → List OrderEvent
latest_per_order [] = []
latest_per_order (e ∷ es) = upsert event_order at_least_as_new replace e (latest_per_order es)

abbrev pub current_row : OrderEvent → CurrentOrder
current_row e = record {
  order_id = e.order_id;
  customer_id = e.customer_id;
  status = e.status;
  total_amount = e.total_amount;
  order_date = e.order_date;
  source_updated_at = e.source_updated_at;
  latest_event_id = e.event_id;
  updated_at = e.ingested_at;
}

abbrev pub not_older : CurrentOrder → CurrentOrder → Bool
not_older source target = leb target.source_updated_at source.source_updated_at

-- Append to an empty table, MERGE into any other.
unfoldable pub write_events : List OrderEvent → List OrderEvent → List OrderEvent
write_events updates [] = [] ++ updates
write_events updates (t ∷ ts) = merge_insert event_key updates (t ∷ ts)

unfoldable pub write_current : List CurrentOrder → List CurrentOrder → List CurrentOrder
write_current updates [] = [] ++ updates
write_current updates (t ∷ ts) = merge_update order_key not_older updates (t ∷ ts)

unfoldable pub write_dead_letters : List DeadLetter → List DeadLetter → List DeadLetter
write_dead_letters updates [] = [] ++ updates
write_dead_letters updates (t ∷ ts) = merge_insert letter_key updates (t ∷ ts)

-- `if valid.head(1)`: the history first, then the current state.
abbrev pub merge_valid : List OrderEvent → Lake → Lake
merge_valid [] lake = lake
merge_valid (e ∷ es) lake = record lake {
  events = write_events (e ∷ es) lake.events;
  current = write_current (map current_row (latest_per_order (e ∷ es))) lake.current;
}

-- `if invalid.head(1)`
abbrev pub merge_invalid : List DeadLetter → Lake → Lake
merge_invalid [] lake = lake
merge_invalid (d ∷ ds) lake = record lake {
  dead_letters = write_dead_letters (d ∷ ds) lake.dead_letters;
}

-- The choice that `dropDuplicates` makes and the hash of the coordinates are parameters.
module _ (drop_duplicates : List OrderEvent → List OrderEvent)
    (digest : String → ℕ → ℕ → String) where
  unfoldable pub merge_batch : List ParsedRow → Lake → Lake
  unfolding valid_events invalid_letters
  merge_batch [] lake = lake
  merge_batch (r ∷ rs) lake =
      merge_invalid (invalid_letters digest (r ∷ rs))
        (merge_valid (drop_duplicates (valid_events (r ∷ rs))) lake)
