-- ===== src/Cdc/Tests.antt =====
-- Runs of the service of cdc/materialize_customers.py on a small log: one customer is created and
-- deleted, another one is created.
use local_data_platform.Prelude.{
  ℕ, ◌<◌, All-In, ◌≡◌, refl, sym, ◌∙◌, true, map, some_inj, Option, none, some, List, [], ◌∷◌,
  arith, ok, err, Result, In, here, there, nat_eq, string_eq, pair_eq,
}
use local_data_platform.Prelude.Int.{pos}
use local_data_platform.Sql.{find, has, upsert}
use local_data_platform.Cdc.Event.{
  commit_error, create, delete, CustomerImage, Source, Envelope, Message, Failure, undecodable,
  kafka_timestamp,
}
use local_data_platform.Cdc.Bronze.{
  BronzeRow, bronze_row, check_operation, insert_bronze, coordinates, position,
}
use local_data_platform.Cdc.Silver.{customer, customers_current, apply_operation, apply_silver}
use local_data_platform.Cdc.Silver.Rebuild.{change_of, rebuild_from, rebuild}
use local_data_platform.Cdc.Silver.Latest.Convergence.{DistinctVersions}
use local_data_platform.Cdc.Offsets.{
  get_offset, topic_partition, next_offsets_from, store_offsets, commit_offsets,
}
use local_data_platform.Cdc.Batch.{
  Key, Environment, Database, Platform, decode, process_message, process_messages, process_batch,
}
use local_data_platform.Cdc.Batch.Replay.{process_batch_replay}
use local_data_platform.Cdc.Batch.Rebuilt.{IsConsistent, process_batch-IsConsistent}
use local_data_platform.Cdc.Batch.Delivery.{
  Contiguous, acknowledged, stopped, Rounds, none_yet, one_more, NothingLost, Rounds-NothingLost,
}
use local_data_platform.Cdc.Batch.View.{customers_current_converges}
use local_data_platform.Cdc.Service.{
  record_of, partition_eof, no_fault, kafka_fails, unacknowledged, valid_messages, Poll, Service,
  round, serve,
}
use local_data_platform.Cdc.Service.Laws.{IsAccounted, uncounted, serve-IsAccounted}

abbrev image : ℕ → CustomerImage
image c = record {
  customer_id = c;
  first_name = some "Ada";
  last_name = none;
  email = none;
  created_at = none;
  updated_at = none;
}

abbrev source_at : ℕ → Option Source
source_at lsn = some (record { lsn = some lsn; ts_ms = none })

abbrev creation : ℕ → ℕ → Envelope
creation c lsn = record {
  op = some create;
  source = source_at lsn;
  transaction_id = none;
  before = none;
  after = some (image c);
}

abbrev deletion : ℕ → Envelope
deletion lsn = record {
  op = some delete;
  source = source_at lsn;
  transaction_id = none;
  before = none;
  after = none;
}

abbrev read_key : Option (List ℕ) → Result Failure (Option Key)
read_key (some (c ∷ [])) = ok (some (record { customer_id = some c }))
read_key _ = err undecodable

abbrev read_value : List ℕ → Result Failure (Option Envelope)
read_value (c ∷ lsn ∷ []) = ok (some (creation c lsn))
read_value (lsn ∷ []) = ok (some (deletion lsn))
read_value _ = err undecodable

abbrev env : Environment
env = record {
  key_deserializer = λ bytes topic. read_key bytes;
  value_deserializer = λ bytes topic. read_value bytes;
  clock_timestamp = λ m. m.offset;
}

abbrev message : ℕ → ℕ → List ℕ → Message
message offset c value = record {
  topic = "customers";
  partition = 0;
  offset = offset;
  key = some (c ∷ []);
  value = some value;
  milliseconds = some (pos 1);
}

abbrev created : Message
created = message 5 7 (7 ∷ 100 ∷ [])

abbrev deleted : Message
deleted = message 6 7 (101 ∷ [])

abbrev another : Message
another = message 7 8 (8 ∷ 102 ∷ [])

abbrev batch : List Message
batch = created ∷ deleted ∷ another ∷ []

abbrev start : Platform
start = record {
  database = record { bronze = []; silver = [] };
  committed = (("customers", 0), 5) ∷ [];
}

abbrev platform_of : Result Failure (Platform × ℕ × ℕ) → Platform
platform_of (ok (p, i, d)) = p
platform_of (err e) = start

done : Platform
unfolding process_batch process_messages process_message decode insert_bronze check_operation
    apply_silver apply_operation upsert find commit_offsets next_offsets_from store_offsets
    kafka_timestamp
done = platform_of (process_batch env batch start)

run : process_batch env batch start ≡ ok (done, 3, 0)
unfolding done
run = refl

process_batch_replay_example :
    process_batch env batch (record start { database = done.database }) ≡ ok (done, 0, 3)
process_batch_replay_example = process_batch_replay env batch start done 3 0 run

start-IsConsistent : IsConsistent start.database
unfolding rebuild rebuild_from
start-IsConsistent = record { one_row_per_record = tt; rebuilt = refl }

process_batch-IsConsistent_example : IsConsistent done.database
process_batch-IsConsistent_example =
    process_batch-IsConsistent env batch start done 3 0 run start-IsConsistent

-- The whole log is the batch: the poll leaves no gap, and nothing lies below the committed offset.
batch-Contiguous : Contiguous env batch start.committed batch
batch-Contiguous m b i j same from upto = i

start-NothingLost : NothingLost env batch start
unfolding find
start-NothingLost =
    All-In
      (λ m.
        m.offset < get_offset (topic_partition m) start.committed
        → has coordinates (position m) start.database.bronze ≡ true)
      batch
      (
        λ below. absurd (omega arith),
        (λ below. absurd (omega arith), (λ below. absurd (omega arith), tt)),
      )

replayed : process_batch env batch (record start { database = done.database }) ≡ ok (done, 0, 3)
replayed = process_batch_replay env batch start done 3 0 run

-- The process stops after the first database commit, and the batch is delivered again.
rounds : Rounds env batch start done
rounds =
    one_more (one_more none_yet (stopped batch 3 0 batch-Contiguous run))
      (acknowledged batch 0 3 batch-Contiguous replayed)

below : 6 < get_offset ("customers", 0) done.committed
unfolding done
below = omega arith

Rounds-NothingLost_example : has coordinates (position deleted) done.database.bronze ≡ true
Rounds-NothingLost_example =
    Rounds-NothingLost env batch rounds start-NothingLost deleted (there here) below

-- The same two records of a customer in the two orders.
abbrev created_row : BronzeRow
created_row = bronze_row created 7 (some (creation 7 100)) create 5

abbrev deleted_row : BronzeRow
deleted_row = bronze_row deleted 7 (some (deletion 101)) delete 6

abbrev database_of : List BronzeRow → Database
database_of rows = record { bronze = rows; silver = rebuild rows }

abbrev in_order : Database
in_order = database_of (created_row ∷ deleted_row ∷ [])

abbrev out_of_order : Database
out_of_order = database_of (deleted_row ∷ created_row ∷ [])

in_order-IsConsistent : IsConsistent in_order
unfolding find
in_order-IsConsistent = record { one_row_per_record = (refl, (refl, tt)); rebuilt = refl }

out_of_order-IsConsistent : IsConsistent out_of_order
unfolding find
out_of_order-IsConsistent = record { one_row_per_record = (refl, (refl, tt)); rebuilt = refl }

swapped : {A : Type 0} {x y : A} (z : A) → In z (x ∷ y ∷ []) → In z (y ∷ x ∷ [])
swapped z here = there here
swapped z (there here) = here
swapped z (there (there i)) = elim i [ ]

distinct : DistinctVersions 7 in_order.bronze
unfolding change_of
distinct a b x y here here made makes p q = some_inj (sym made.0 ∙ makes.0)
distinct a b x y (there here) (there here) made makes p q = some_inj (sym made.0 ∙ makes.0)
distinct a b x y here (there here) made makes p q = ground arith
distinct a b x y (there here) here made makes p q = ground arith
distinct a b x y here (there (there j)) made makes p q = elim j [ ]
distinct a b x y (there here) (there (there j)) made makes p q = elim j [ ]
distinct a b x y (there (there i)) j made makes p q = elim i [ ]

customers_current_converges_example :
    find customer 7 (customers_current in_order.silver)
    ≡ find customer 7 (customers_current out_of_order.silver)
customers_current_converges_example =
    customers_current_converges 7 in_order out_of_order in_order-IsConsistent
      out_of_order-IsConsistent swapped swapped distinct

abbrev service : Service
service = record { platform = start; last_record_at = 0; total_inserted = 0; total_duplicates = 0 }

-- After a batch that Kafka does not acknowledge, the service ends.
abbrev polls : List Poll
polls =
    record { running = true; messages = partition_eof ∷ []; monotonic = 1; fault = no_fault }
    ∷ record {
      running = true;
      messages = map record_of batch;
      monotonic = 2;
      fault = kafka_fails commit_error;
    }
    ∷ []

abbrev stopped_service : Service
stopped_service = record service { platform = record start { database = done.database } }

served : serve env 5 service polls ≡ (stopped_service, unacknowledged 3 commit_error)
unfolding serve round valid_messages
served = rw run refl

serve-IsAccounted_example :
    let (t, ending) = serve env 5 service polls in IsAccounted 0 (uncounted ending) t
serve-IsAccounted_example =
    serve-IsAccounted env 5 0 service polls
      (record { consistent = start-IsConsistent; counted = refl })
