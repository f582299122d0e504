-- ===== src/Stream/Query/Tests.antt =====
-- A query of spark/jobs/order_stream.py that stops after the first statement of its first batch, and is
-- started again.
use local_data_platform.Prelude.{
  ℕ, ◌≡◌, refl, some, List, [], ◌∷◌, ◌++◌, arith, string_eq, here, In-cons, inl, inr,
}
use local_data_platform.Stream.{parse_kafka_events, validity}
use local_data_platform.Stream.Tests.{functions, digest, rows, event}
use local_data_platform.Stream.Batch.{OrderEvent, Lake, valid_events, merge_batch}
use local_data_platform.Stream.Batch.Lookup.{DropsDuplicates}
use local_data_platform.Stream.Dedupe.{dedupe, dedupe-DropsDuplicates}
use local_data_platform.Stream.Complete.{IsVersioned}
use local_data_platform.Stream.Query.{
  Query, committed, stopped, Steps, begin, next, run_statements, first, merge_statements,
}
use local_data_platform.Stream.Query.Delivery.{HasArrived, AreVersions, Steps-HasArrived}
use local_data_platform.Stream.Query.Grain.{IsDistinct, Steps-IsDistinct}

abbrev drops : ℕ → List OrderEvent → List OrderEvent
drops now = dedupe

drops-DropsDuplicates : (now : ℕ) → DropsDuplicates (drops now)
drops-DropsDuplicates now = dedupe-DropsDuplicates

abbrev empty : Lake
empty = record { events = []; current = []; dead_letters = [] }

abbrev fresh : Query
fresh = record { processed = []; pending = rows; lake = empty }

abbrev half : Query
half = record fresh {
  lake = run_statements (first 1 (merge_statements functions digest drops 70 rows)) empty;
}

abbrev done : Query
done = record {
  processed = [] ++ rows;
  pending = [];
  lake = merge_batch dedupe digest (parse_kafka_events functions 90 rows) half.lake;
}

stopped_once : Steps functions digest drops fresh half
stopped_once = next begin (stopped 70 1 rows [] refl (omega arith))

finished : Steps functions digest drops fresh done
finished = next stopped_once (committed 90 rows [] refl (omega arith))

one_event :
    (now : ℕ)
    → valid_events (parse_kafka_events functions now rows) ≡ record event { ingested_at = now } ∷ []
unfolding parse_kafka_events validity valid_events
one_event now = refl

rows-AreVersions : AreVersions functions digest rows
rows-AreVersions now = rw (one_event now) single
  where
    single : IsVersioned (record event { ingested_at = now } ∷ [])
    single e x i j h = elim (In-cons i) [
      | inr k ↦ elim k [ ]
      | inl p ↦ elim (In-cons j) [ inr k ↦ elim k [ ] | inl q ↦ (rw (p, q) refl, rw (p, q) refl) ]
    ]

Steps-HasArrived_example : HasArrived functions digest done.lake (record {
  key = some "order-1";
  value = some "event";
  topic = "orders";
  partition = 0;
  offset = 3;
  timestamp = 60;
})
Steps-HasArrived_example =
    Steps-HasArrived functions digest drops drops-DropsDuplicates rows rows-AreVersions empty done
      (record {
        key = some "order-1";
        value = some "event";
        topic = "orders";
        partition = 0;
        offset = 3;
        timestamp = 60;
      })
      finished here

empty-IsDistinct : IsDistinct empty
empty-IsDistinct = record { events = tt; current = tt }

Steps-IsDistinct_example : IsDistinct done.lake
Steps-IsDistinct_example =
    Steps-IsDistinct functions digest drops drops-DropsDuplicates fresh done finished
      empty-IsDistinct
