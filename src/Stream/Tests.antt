-- ===== src/Stream/Tests.antt =====
-- Runs of spark/jobs/order_stream.py on two Kafka rows: an order event, and a text that is no JSON.
use local_data_platform.Prelude.{
  ℕ, ◌≤◌, String, ◌≡◌, refl, false, Option, none, some, List, [], ◌∷◌, ◌==◌, string_eq, In, here,
  there, In-cons, inl, inr, if◌then◌else◌,
}
use local_data_platform.Prelude.Int.{pos}
use local_data_platform.Sql.{find}
use local_data_platform.Stream.{
  Functions, Payload, KafkaRow, ParsedRow, parse_row, parse_kafka_events, validity,
}
use local_data_platform.Stream.Batch.{
  OrderEvent, CurrentOrder, Lake, event_key, order_key, valid_event, valid_events, merge_batch,
  current_row,
}
use local_data_platform.Stream.Replay.{version}
use local_data_platform.Stream.Complete.{IsVersioned, merge_batch_monotone}
use local_data_platform.Stream.Dedupe.{dedupe, dedupe-DropsDuplicates}
use local_data_platform.Stream.Kafka.{merge_batch_replay, merge_batch_loses}

abbrev payload : Option String → Option String → Payload
payload id kind = record {
  event_id = id;
  event_type = kind;
  schema_version = some (pos 1);
  occurred_at = none;
  produced_at = none;
  order_id = some "order-1";
  customer_id = none;
  status = some "paid";
  total_amount = some (pos 995);
  order_date = none;
  source_updated_at = some "2026-01-01";
}

abbrev read_json : Option String → Payload
read_json none = payload none none
read_json (some text) =
    if text == "event"
    then payload (some "e1") (some "order.upserted")
    else if text == "untyped"
    then payload (some "e2") none
    else payload none none

abbrev pub functions : Functions
functions = record { from_json = read_json; to_timestamp = λ text. some 50 }

abbrev pub digest : String → ℕ → ℕ → String
digest topic partition offset = topic

abbrev pub kafka_row : String → ℕ → KafkaRow
kafka_row text offset = record {
  key = some "order-1";
  value = some text;
  topic = "orders";
  partition = 0;
  offset = offset;
  timestamp = 60;
}

abbrev pub rows : List KafkaRow
rows = kafka_row "event" 3 ∷ kafka_row "noise" 4 ∷ []

abbrev batch : List ParsedRow
batch = parse_kafka_events functions 70 rows

abbrev parsed : ParsedRow
parsed = parse_row functions 70 (kafka_row "event" 3)

abbrev noise : ParsedRow
noise = parse_row functions 70 (kafka_row "noise" 4)

abbrev pub event : OrderEvent
event = record {
  event_id = "e1";
  event_type = some "order.upserted";
  schema_version = some (pos 1);
  occurred_at = none;
  produced_at = none;
  order_id = "order-1";
  customer_id = none;
  status = some "paid";
  total_amount = some (pos 995);
  order_date = none;
  source_updated_at = 50;
  message_key = some "order-1";
  kafka_topic = "orders";
  kafka_partition = 0;
  kafka_offset = 3;
  kafka_timestamp = 60;
  ingested_at = 70;
}

-- A newer version of the order is current already.
abbrev newer : CurrentOrder
newer = record (current_row event) { source_updated_at = 80 }

abbrev lake : Lake
lake = record { events = event ∷ []; current = newer ∷ []; dead_letters = [] }

parsed-event : valid_event parsed ≡ some event
unfolding validity
parsed-event = refl

parsed-In : In parsed batch
unfolding parse_kafka_events
parsed-In = here

noise-In : In noise batch
unfolding parse_kafka_events
noise-In = there here

noise_invalid : noise.is_valid ≡ some false
unfolding validity
noise_invalid = refl

batch_events : valid_events batch ≡ event ∷ []
unfolding parse_kafka_events validity valid_events
batch_events = refl

batch-IsVersioned : IsVersioned (valid_events batch)
batch-IsVersioned = rw batch_events single
  where
    single : IsVersioned (event ∷ [])
    single e x i j h = elim (In-cons i) [
      | inr k ↦ elim k [ ]
      | inl p ↦ elim (In-cons j) [ inr k ↦ elim k [ ] | inl q ↦ (rw (p, q) refl, rw (p, q) refl) ]
    ]

event_stored : find event_key "e1" lake.events ≡ some event
unfolding find
event_stored = refl

order_current : find order_key "order-1" lake.current ≡ some newer
unfolding find
order_current = refl

merge_batch_monotone_example :
    (c : CurrentOrder) × (find order_key "order-1" (merge_batch dedupe digest batch lake).current
      ≡ some c)
    × (80 ≤ c.source_updated_at)
merge_batch_monotone_example =
    merge_batch_monotone dedupe digest dedupe-DropsDuplicates batch lake "order-1" newer
      order_current

merge_batch_replay_example :
    ((merge_batch dedupe digest
        (parse_kafka_events functions 90 rows)
        (merge_batch dedupe digest batch lake)).events
      ≡ (merge_batch dedupe digest batch lake).events)
    × ((merge_batch dedupe digest
          (parse_kafka_events functions 90 rows)
          (merge_batch dedupe digest batch lake)).dead_letters
        ≡ (merge_batch dedupe digest batch lake).dead_letters)
    × ((k : String)
        → version (
            find order_key k
              (merge_batch dedupe digest
                (parse_kafka_events functions 90 rows)
                (merge_batch dedupe digest batch lake)).current)
          ≡ version (find order_key k (merge_batch dedupe digest batch lake).current))
merge_batch_replay_example =
    merge_batch_replay functions digest dedupe dedupe dedupe-DropsDuplicates dedupe-DropsDuplicates
      70 90 rows lake batch-IsVersioned

merge_batch_loses_example :
    merge_batch dedupe digest (parse_kafka_events functions 70 (kafka_row "untyped" 5 ∷ [])) lake
    ≡ lake
merge_batch_loses_example =
    merge_batch_loses functions digest dedupe 70 (kafka_row "untyped" 5) lake "e2" "order-1" 50
      dedupe-DropsDuplicates refl refl (inl refl) refl refl
