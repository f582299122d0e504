-- ===== src/Stream/Query/Delivery.antt =====
-- Nothing is lost by the streaming query of spark/jobs/order_stream.py, however often it stops.
use local_data_platform.Prelude.{
  ℕ, zero, ◌≤◌, String, ◌≡◌, sym, ap, ◌∙◌, subst, true, false, some, List, [], map, arith,
  string_eq, In, inl, inr, append-In, In-append_left, In-append_right,
}
use local_data_platform.Sql.{find, has}
use local_data_platform.Stream.{Functions, KafkaRow, parse_row, parse_kafka_events}
use local_data_platform.Stream.Batch.{
  OrderEvent, CurrentOrder, Lake, event_key, order_key, letter_key, passes_filter, valid_event,
  valid_events, merge_batch,
}
use local_data_platform.Stream.Batch.Lookup.{DropsDuplicates}
use local_data_platform.Stream.Complete.{
  IsVersioned, In-map, In-valid_events, merge_batch_stores, merge_batch_refreshes,
  merge_batch_dead_letters,
}
use local_data_platform.Stream.Kafka.{same_event, valid_events-In, map-In}
use local_data_platform.Stream.Query.{
  Query, Step, committed, stopped, Steps, begin, next, merge_statements,
}
use local_data_platform.Stream.Query.Grows.{
  Grows, first-Grows, merge_statements-Adds, merge_batch-Grows,
}

module _ (f : Functions) (digest : String → ℕ → ℕ → String) where
  -- A Kafka row has arrived in the tables: as an event with its order's state, or as a dead letter.
  pub record HasArrived (lake : Lake) (row : KafkaRow) : Type 0 where
    pub stored :
        (now : ℕ) (e : OrderEvent)
        → valid_event (parse_row f now row) ≡ some e
        → has event_key e.event_id lake.events ≡ true
    pub current :
        (now : ℕ) (e : OrderEvent)
        → valid_event (parse_row f now row) ≡ some e
        → (o : CurrentOrder) × (find order_key e.order_id lake.current ≡ some o)
          × (e.source_updated_at ≤ o.source_updated_at)
    pub rejected :
        (parse_row f zero row).is_valid ≡ some false
        → has letter_key (digest row.topic row.partition row.offset) lake.dead_letters ≡ true

  pub HasArrived-Grows :
      (l m : Lake) (row : KafkaRow) → Grows l m → HasArrived l row → HasArrived m row
  HasArrived-Grows l m row g h = record {
    stored = λ now e v. g.events e.event_id (h.stored now e v);
    current = λ now e v.
        let (o, found, le) = h.current now e v in
        let (c, there_is, more) = g.current e.order_id o found in (c, there_is, omega arith);
    rejected = λ v. g.letters (digest row.topic row.partition row.offset) (h.rejected v);
  }

module _ (f : Functions) (digest : String → ℕ → ℕ → String) where
  -- In the topic, two valid rows with one event id are versions of one order at one time.
  abbrev pub AreVersions : List KafkaRow → Type 0
  AreVersions log = (now : ℕ) → IsVersioned (valid_events (parse_kafka_events f now log))

  In-parsed :
      (now : ℕ) (rows log : List KafkaRow) (e : OrderEvent)
      → ((row : KafkaRow) → In row rows → In row log)
      → In e (valid_events (parse_kafka_events f now rows))
      → In e (valid_events (parse_kafka_events f now log))
  unfolding parse_kafka_events
  In-parsed now rows log e inside i =
      let (r, j, valid) = valid_events-In (map (parse_row f now) rows) e i in
      let (row, k, is) = map-In (parse_row f now) rows r j in
      In-valid_events (map (parse_row f now) log) (parse_row f now row) e
        (In-map (parse_row f now) log row (inside row k)) (sym (ap valid_event is) ∙ valid)

  AreVersions-part :
      (rows log : List KafkaRow)
      → AreVersions log
      → ((row : KafkaRow) → In row rows → In row log)
      → AreVersions rows
  AreVersions-part rows log v inside now e x i j same =
      v now e x (In-parsed now rows log e inside i) (In-parsed now rows log x inside j) same

  module _ (drop : List OrderEvent → List OrderEvent) (d : DropsDuplicates drop) (now : ℕ)
      (batch : List KafkaRow) (v : AreVersions batch) (lake : Lake) where
    In-parse :
        (row : KafkaRow) → In row batch → In (parse_row f now row) (parse_kafka_events f now batch)
    unfolding parse_kafka_events
    In-parse row i = In-map (parse_row f now) batch row i

    merge_batch-HasArrived :
        (row : KafkaRow)
        → In row batch
        → HasArrived f digest (merge_batch drop digest (parse_kafka_events f now batch) lake) row
    merge_batch-HasArrived row i = record {
      stored = λ other e valid.
          let (x, made, id, order, time) = at_now other e valid in
          subst
            (λ k.
              has event_key k (merge_batch drop digest (parse_kafka_events f now batch) lake).events
              ≡ true)
            id
            (merge_batch_stores drop digest d (parse_kafka_events f now batch) lake
              (parse_row f now row) x (In-parse row i) made);
      current = λ other e valid.
          let (x, made, id, order, time) = at_now other e valid in
          let (o, found, le) =
            merge_batch_refreshes drop digest d (parse_kafka_events f now batch) lake
              (parse_row f now row) x (v now) (In-parse row i) made in
          (
            o,
            ap
                  (λ k.
                    find order_key k
                      (merge_batch drop digest (parse_kafka_events f now batch) lake).current)
                  (sym order)
                ∙ found,
            omega arith,
          );
      rejected = λ invalid.
          merge_batch_dead_letters drop digest d (parse_kafka_events f now batch) lake
            (parse_row f now row) (In-parse row i) invalid;
    }
      where
        at_now :
            (other : ℕ) (e : OrderEvent)
            → valid_event (parse_row f other row) ≡ some e
            → (x : OrderEvent) × (valid_event (parse_row f now row) ≡ some x)
              × (x.event_id ≡ e.event_id)
              × (x.order_id ≡ e.order_id)
              × (x.source_updated_at ≡ e.source_updated_at)
        at_now other e valid =
            same_event (parse_row f other row) (parse_row f now row)
              (passes_filter (parse_row f other row).is_valid) (parse_row f other row).event_id
              (parse_row f other row).order_id (parse_row f other row).source_updated_at e valid

  module _ (drops : ℕ → List OrderEvent → List OrderEvent)
      (d : (now : ℕ) → DropsDuplicates (drops now)) (log : List KafkaRow)
      (versions : AreVersions log) where
    -- Every row before the checkpoint has arrived.
    pub record IsDelivered (q : Query) : Type 0 where
      pub arrived : (row : KafkaRow) → In row q.processed → HasArrived f digest q.lake row
      pub from_log : (row : KafkaRow) → In row q.pending → In row log

    Step-IsDelivered : (q r : Query) → Step f digest drops q r → IsDelivered q → IsDelivered r
    Step-IsDelivered q _ (committed now batch rest split few) h =
        let mine = λ (row : KafkaRow) (i : In row batch).
          h.from_log row (subst (In row) (sym split) (In-append_left batch rest row i)) in
        let merged = merge_batch (drops now) digest (parse_kafka_events f now batch) q.lake in
        record {
          arrived = λ row i. elim (append-In q.processed batch row i) [
            | inl old ↦
                HasArrived-Grows f digest q.lake merged row
                  (merge_batch-Grows f digest drops now batch q.lake) (h.arrived row old)
            | inr new ↦
                merge_batch-HasArrived (drops now) (d now) now batch
                  (AreVersions-part batch log versions mine) q.lake row new
          ];
          from_log = λ row i.
              h.from_log row (subst (In row) (sym split) (In-append_right batch rest row i));
        }
    Step-IsDelivered q _ (stopped now done batch rest split few) h = record {
      arrived = λ row i.
          HasArrived-Grows f digest q.lake _ row
            (first-Grows done (merge_statements f digest drops now batch) q.lake
              (merge_statements-Adds f digest drops now batch))
            (h.arrived row i);
      from_log = h.from_log;
    }

    steps-IsDelivered : (q r : Query) → Steps f digest drops q r → IsDelivered q → IsDelivered r
    steps-IsDelivered q _ begin h = h
    steps-IsDelivered q s (next {r} rs step) h =
        Step-IsDelivered r s step (steps-IsDelivered q r rs h)

    -- However often the query stops, after whichever statement, and whatever its batches are, the rows
    -- before the checkpoint have arrived: a valid one has its event in the history and its order at its
    -- version or a newer one, and one that was judged invalid has its dead letter. The rows of the
    -- topic with one event id are to be versions of one order at one time, and dropDuplicates is to
    -- keep one of the rows of each event id.
    pub Steps-HasArrived :
        (lake : Lake) (q : Query) (row : KafkaRow)
        → Steps f digest drops (record { processed = []; pending = log; lake = lake }) q
        → In row q.processed
        → HasArrived f digest q.lake row
    Steps-HasArrived lake q row steps i =
        (steps-IsDelivered (record { processed = []; pending = log; lake = lake }) q steps
            (record { arrived = λ r k. elim k [ ]; from_log = λ r k. k })).arrived
          row i
