-- ===== src/Producer/Published.antt =====
-- From kafka/producer/publish_orders.py to spark/jobs/order_stream.py: the records that the producer
-- writes, read by the stream. How json.dumps writes an event, with str and isoformat for its UUIDs and
-- times, and how Spark reads it back are parameters, with the round trip of the text as a hypothesis.
use local_data_platform.Prelude.{
  ℕ, String, ◌≡◌, refl, sym, ap, ◌∙◌, ◌≤◌, some, List, map, In, some_inj, string_eq,
}
use local_data_platform.Prelude.Int.{pos}
use local_data_platform.Sql.{find}
use local_data_platform.Producer.{StagedOrder, Event, event_of}
use local_data_platform.Stream.{
  Functions, Payload, KafkaRow, validity, parse_row, parse_kafka_events,
}
use local_data_platform.Stream.Batch.{
  OrderEvent, CurrentOrder, Lake, order_key, valid_event, valid_events, merge_batch,
}
use local_data_platform.Stream.Batch.Lookup.{DropsDuplicates}
use local_data_platform.Stream.Complete.{IsVersioned, In-map, merge_batch_refreshes}
use local_data_platform.Stream.Kafka.{valid_events-In, map-In}

-- str and isoformat in `json_default`, json.dumps, and str of the key.
pub record Texts : Type 0 where
  pub show_uuid : ℕ → String
  pub isoformat : ℕ → String
  pub dumps : Event → String

-- A staged order with the time at which it was handed over, and where Kafka put the record.
pub record Published : Type 0 where
  pub order : StagedOrder
  pub produced_at : ℕ
  pub topic : String
  pub partition : ℕ
  pub offset : ℕ
  pub timestamp : ℕ

module _ (texts : Texts) (uuid5 : ℕ → ℕ → String) where
  -- The arguments of `producer.produce`.
  abbrev pub kafka_row : Published → KafkaRow
  kafka_row p = record {
    key = some (texts.show_uuid p.order.order_id);
    value = some (texts.dumps (event_of uuid5 (λ o. p.produced_at) p.order));
    topic = p.topic;
    partition = p.partition;
    offset = p.offset;
    timestamp = p.timestamp;
  }

  -- The fields of the text that json.dumps writes, as they are read by name.
  abbrev pub payload_of : Event → Payload
  payload_of e = record {
    event_id = some e.event_id;
    event_type = some e.event_type;
    schema_version = some (pos e.schema_version);
    occurred_at = some (texts.isoformat e.occurred_at);
    produced_at = some (texts.isoformat e.produced_at);
    order_id = some (texts.show_uuid e.order.order_id);
    customer_id = some (texts.show_uuid e.order.customer_id);
    status = some e.order.status;
    total_amount = some e.order.total_amount;
    order_date = some (texts.isoformat e.order.order_date);
    source_updated_at = some (texts.isoformat e.order.source_updated_at);
  }

  -- Of a published record, Spark's from_json reads back what json.dumps wrote, and its to_timestamp
  -- what isoformat wrote.
  pub record ReadsBack (f : Functions) (p : Published) : Type 0 where
    pub json :
        f.from_json (some (texts.dumps (event_of uuid5 (λ o. p.produced_at) p.order)))
        ≡ payload_of (event_of uuid5 (λ o. p.produced_at) p.order)
    pub updated : f.to_timestamp (texts.isoformat p.order.updated_at) ≡ some p.order.updated_at
    pub ordered : f.to_timestamp (texts.isoformat p.order.order_date) ≡ some p.order.order_date
    pub produced : f.to_timestamp (texts.isoformat p.produced_at) ≡ some p.produced_at

  -- The row of the history that a published order becomes.
  abbrev pub history_row : ℕ → Published → OrderEvent
  history_row now p = record {
    event_id = uuid5 p.order.order_id p.order.updated_at;
    event_type = some "order.upserted";
    schema_version = some (pos 1);
    occurred_at = some p.order.order_date;
    produced_at = some p.produced_at;
    order_id = texts.show_uuid p.order.order_id;
    customer_id = some (texts.show_uuid p.order.customer_id);
    status = some p.order.status;
    total_amount = some p.order.total_amount;
    order_date = some p.order.order_date;
    source_updated_at = p.order.updated_at;
    message_key = some (texts.show_uuid p.order.order_id);
    kafka_topic = p.topic;
    kafka_partition = p.partition;
    kafka_offset = p.offset;
    kafka_timestamp = p.timestamp;
    ingested_at = now;
  }

  -- A published order is read back as a valid event with every one of its columns.
  pub valid_event-published :
      (f : Functions) (now : ℕ) (p : Published)
      → ReadsBack f p
      → valid_event (parse_row f now (kafka_row p)) ≡ some (history_row now p)
  unfolding validity
  valid_event-published f now p r = rw (r.json, r.updated, r.ordered, r.produced) refl

  -- No two published versions of orders share an event id.
  abbrev pub HasIdentity : List Published → Type 0
  HasIdentity ps =
      (p q : Published)
      → In p ps
      → In q ps
      → uuid5 p.order.order_id p.order.updated_at ≡ uuid5 q.order.order_id q.order.updated_at
      → (p.order.order_id ≡ q.order.order_id) × (p.order.updated_at ≡ q.order.updated_at)

  module _ (f : Functions) (now : ℕ) (ps : List Published)
      (r : (p : Published) → In p ps → ReadsBack f p) where
    published-In :
        (e : OrderEvent)
        → In e (valid_events (parse_kafka_events f now (map kafka_row ps)))
        → (p : Published) × In p ps × (history_row now p ≡ e)
    unfolding parse_kafka_events
    published-In e i =
        let (parsed, j, valid) = valid_events-In (map (parse_row f now) (map kafka_row ps)) e i in
        let (row, k, is_row) = map-In (parse_row f now) (map kafka_row ps) parsed j in
        let (p, l, is) = map-In kafka_row ps row k in
        (
          p,
          l,
          some_inj (
              sym (valid_event-published f now p (r p l))
              ∙ ap (λ q. valid_event (parse_row f now q)) (sym is)
              ∙ ap valid_event (sym is_row)
              ∙ valid),
        )

    -- Published orders are versions of one order at one time if they share an event id.
    published-IsVersioned :
        HasIdentity ps → IsVersioned (valid_events (parse_kafka_events f now (map kafka_row ps)))
    published-IsVersioned d e x i j same =
        let (p, k, is_e) = published-In e i in
        let (q, l, is_x) = published-In x j in
        let (order, time) = d p q k l (
          ap (λ (z : OrderEvent). z.event_id) is_e
          ∙ same
          ∙ ap (λ (z : OrderEvent). z.event_id) (sym is_x)) in
        (
          ap (λ (z : OrderEvent). z.order_id) (sym is_e)
              ∙ ap texts.show_uuid order
              ∙ ap (λ (z : OrderEvent). z.order_id) is_x,
          ap (λ (z : OrderEvent). z.source_updated_at) (sym is_e)
              ∙ time
              ∙ ap (λ (z : OrderEvent). z.source_updated_at) is_x,
        )

    -- Once a micro-batch of published records is merged, the current state of the order of each of
    -- them is at least as new as the version that was published. This is so when for each of the
    -- records Spark's from_json reads back the fields that json.dumps wrote, under the same names, and
    -- to_timestamp the times that isoformat wrote, when distinct order versions have distinct event
    -- ids, and when dropDuplicates keeps one row of the batch for each event id.
    pub published_current :
        (drop : List OrderEvent → List OrderEvent) (digest : String → ℕ → ℕ → String) (lake : Lake)
        (p : Published)
        → DropsDuplicates drop
        → HasIdentity ps
        → In p ps
        → (o : CurrentOrder) × (find order_key
              (texts.show_uuid p.order.order_id)
              (merge_batch drop digest (parse_kafka_events f now (map kafka_row ps)) lake).current
            ≡ some o)
          × (p.order.updated_at ≤ o.source_updated_at)
    unfolding parse_kafka_events
    published_current drop digest lake p d identity i =
        merge_batch_refreshes drop digest d (map (parse_row f now) (map kafka_row ps)) lake
          (parse_row f now (kafka_row p)) (history_row now p) (published-IsVersioned identity)
          (In-map (parse_row f now) (map kafka_row ps) (kafka_row p) (In-map kafka_row ps p i))
          (valid_event-published f now p (r p i))
