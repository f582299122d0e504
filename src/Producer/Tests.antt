-- ===== src/Producer/Tests.antt =====
-- A scheduled run of kafka/producer/publish_orders.py over three staged orders, and one of its records
-- in the order stream.
use local_data_platform.Prelude.{
  ℕ, String, ◌≡◌, refl, true, Option, none, some, List, [], ◌∷◌, ok, length, select, In, here,
  there, ◌⊎◌, All-In, arith, map, ◌≤◌, ◌==◌, nat_eq, string_eq, if◌then◌else◌,
}
use local_data_platform.Prelude.Int.{pos}
use local_data_platform.Sql.{find, Unique}
use local_data_platform.Pipeline.Watermark.{
  WatermarkRow, name_of, incremental, promote_all, advance_watermarks,
}
use local_data_platform.Pipeline.Extract.{Bound}
use local_data_platform.Producer.{
  StagedOrder, Event, Fate, acknowledged, bounds, insert_sorted, order_by, in_bounds, query,
  event_of, deliver, publish_orders,
}
use local_data_platform.Producer.Buffer.{
  Attempt, taken, buffer_error, publish_buffered, publish_buffered-publish_orders,
}
use local_data_platform.Producer.Published.{
  Texts, Published, kafka_row, payload_of, ReadsBack, history_row, HasIdentity,
  valid_event-published, published_current,
}
use local_data_platform.Stream.{Functions, parse_row, parse_kafka_events}
use local_data_platform.Stream.Batch.{CurrentOrder, Lake, order_key, valid_event, merge_batch}
use local_data_platform.Stream.Dedupe.{dedupe, dedupe-DropsDuplicates}
use local_data_platform.Producer.Committed.{scheduled, advance_watermarks_published}
use local_data_platform.Producer.Delivered.{publish_orders_delivers}

abbrev order : ℕ → ℕ → StagedOrder
order id updated_at = record {
  order_id = id;
  customer_id = 7;
  status = "paid";
  total_amount = pos 995;
  order_date = 3;
  updated_at = updated_at;
}

abbrev orders : List StagedOrder
orders = order 1 12 ∷ order 2 10 ∷ order 3 11 ∷ []

abbrev watermarks : List WatermarkRow
watermarks =
    record {
      pipeline_name = "staging_orders";
      watermark_value = 10;
      candidate_value = some 12;
      active = true;
      updated_at = 0;
    }
    ∷ []

abbrev parse : String → Option ℕ
parse text = none

abbrev identity : ℕ → ℕ → String
identity order updated = "id"

abbrev clock : StagedOrder → ℕ
clock o = 20

abbrev accepts : Event → Fate
accepts event = acknowledged

published : publish_orders parse identity accepts scheduled clock watermarks orders ≡ ok 2
unfolding publish_orders query bounds find order_by insert_sorted deliver
published = refl

publish_orders_delivers_example :
    (window : Bound × Bound) × (bounds parse none none watermarks ≡ ok window)
    × (2 ≡ length (select (in_bounds window) orders))
    × ((o : StagedOrder)
        → In o orders
        → in_bounds window o ≡ true
        → accepts (event_of identity clock o) ≡ acknowledged)
publish_orders_delivers_example =
    publish_orders_delivers parse identity accepts scheduled clock watermarks orders 2 refl
      published

abbrev cursor : String → WatermarkRow
cursor name = record {
  pipeline_name = name;
  watermark_value = 10;
  candidate_value = some 12;
  active = true;
  updated_at = 0;
}

abbrev cursors : List WatermarkRow
cursors =
    cursor "staging_products"
    ∷ cursor "staging_orders"
    ∷ cursor "staging_order_items"
    ∷ cursor "staging_payments"
    ∷ []

cursors-Unique : Unique name_of cursors
unfolding find
cursors-Unique = (refl, (refl, (refl, (refl, tt))))

cursors_published : publish_orders parse identity accepts scheduled clock cursors orders ≡ ok 2
unfolding publish_orders query bounds find order_by insert_sorted deliver
cursors_published = refl

cursors_advanced : advance_watermarks incremental 30 cursors ≡ ok (promote_all 30 cursors)
unfolding advance_watermarks
cursors_advanced = refl

orders_cursor : find name_of "staging_orders" cursors ≡ some (cursor "staging_orders")
unfolding find
orders_cursor = refl

orders_committed :
    find name_of "staging_orders" (promote_all 30 cursors)
    ≡ some (record (cursor "staging_orders") {
      watermark_value = 12;
      candidate_value = none;
      updated_at = 30;
    })
unfolding find promote_all
orders_committed = refl

advance_watermarks_published_example :
    (12 ≤ 10) ⊎ (accepts (event_of identity clock (order 1 12)) ≡ acknowledged)
advance_watermarks_published_example =
    advance_watermarks_published parse identity accepts clock 30 cursors (promote_all 30 cursors)
      orders 2 (cursor "staging_orders")
      (record (cursor "staging_orders") {
        watermark_value = 12;
        candidate_value = none;
        updated_at = 30;
      })
      (λ o. o.updated_at ≤ 10) cursors-Unique cursors_published cursors_advanced orders_cursor
      orders_committed (λ o i h. h) (order 1 12) here (omega arith)

abbrev published_order : Published
published_order = record {
  order = order 1 12;
  produced_at = 20;
  topic = "orders";
  partition = 0;
  offset = 6;
  timestamp = 21;
}

abbrev texts : Texts
texts = record {
  show_uuid = λ id. "uuid";
  isoformat = λ t. if t == 12 then "12" else if t == 3 then "3" else "20";
  dumps = λ e. "event";
}

abbrev functions : Functions
functions = record {
  from_json = λ text. payload_of texts identity (event_of identity clock (order 1 12));
  to_timestamp = λ text. if text == "12" then some 12 else if text == "3" then some 3 else some 20;
}

published-ReadsBack : ReadsBack texts identity functions published_order
published-ReadsBack = record { json = refl; updated = refl; ordered = refl; produced = refl }

valid_event-published_example :
    valid_event (parse_row functions 30 (kafka_row texts identity published_order))
    ≡ some (history_row texts identity 30 published_order)
valid_event-published_example =
    valid_event-published texts identity functions 30 published_order published-ReadsBack

all-ReadsBack : (p : Published) → In p (published_order ∷ []) → ReadsBack texts identity functions p
all-ReadsBack =
    All-In (ReadsBack texts identity functions) (published_order ∷ []) (published-ReadsBack, tt)

one-HasIdentity : HasIdentity texts identity (published_order ∷ [])
one-HasIdentity p q i j h = let is = only p i in let is' = only q j in rw (is, is') (refl, refl)
  where
    only : (p : Published) → In p (published_order ∷ []) → p ≡ published_order
    only p here = refl
    only p (there i) = elim i [ ]

abbrev digest : String → ℕ → ℕ → String
digest topic partition offset = topic

abbrev lake : Lake
lake = record { events = []; current = []; dead_letters = [] }

published_current_example :
    (o : CurrentOrder) × (find order_key "uuid"
        (merge_batch dedupe digest
          (parse_kafka_events functions 30 (map (kafka_row texts identity) (published_order ∷ [])))
          lake).current
      ≡ some o)
    × (12 ≤ o.source_updated_at)
published_current_example =
    published_current texts identity functions 30 (published_order ∷ []) all-ReadsBack dedupe digest
      lake published_order dedupe-DropsDuplicates one-HasIdentity here

abbrev refused_once : Event → List Attempt
refused_once event = buffer_error ∷ taken ∷ []

publish_buffered-publish_orders_example :
    publish_buffered refused_once parse identity accepts scheduled clock watermarks orders
    ≡ some (publish_orders parse identity accepts scheduled clock watermarks orders)
publish_buffered-publish_orders_example =
    publish_buffered-publish_orders refused_once (λ event. refl) parse identity accepts scheduled
      clock watermarks orders
