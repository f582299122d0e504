-- ===== src/Stream/Query.antt =====
-- The streaming query that `main` of spark/jobs/order_stream.py starts. A micro-batch runs the
-- statements of `merge_batch` one after the other; the checkpoint passes its rows once the last one has
-- committed, and a query that stops before that runs them again.
pub mod Grows
pub mod Delivery
pub mod Grain
mod Tests
use local_data_platform.Prelude.{ℕ, zero, suc, ◌≤◌, ◌≡◌, String, List, [], ◌∷◌, ◌++◌, map, length}
use local_data_platform.Stream.{Functions, KafkaRow, ParsedRow, parse_kafka_events}
use local_data_platform.Stream.Batch.{
  OrderEvent, DeadLetter, Lake, valid_events, invalid_letters, latest_per_order, current_row,
  write_events, write_current, write_dead_letters, merge_batch,
}

abbrev pub Statement : Type 0
Statement = Lake → Lake

abbrev pub write_history : List OrderEvent → Statement
write_history es lake = record lake { events = write_events es lake.events }

abbrev pub refresh_current : List OrderEvent → Statement
refresh_current es lake = record lake {
  current = write_current (map current_row (latest_per_order es)) lake.current;
}

abbrev pub keep_letters : List DeadLetter → Statement
keep_letters ds lake = record lake { dead_letters = write_dead_letters ds lake.dead_letters }

abbrev pub valid_statements : List OrderEvent → List Statement
valid_statements [] = []
valid_statements (e ∷ es) = write_history (e ∷ es) ∷ refresh_current (e ∷ es) ∷ []

abbrev pub invalid_statements : List DeadLetter → List Statement
invalid_statements [] = []
invalid_statements (d ∷ ds) = keep_letters (d ∷ ds) ∷ []

abbrev pub run_statements : List Statement → Statement
run_statements [] lake = lake
run_statements (s ∷ ss) lake = run_statements ss (s lake)

abbrev pub first : ℕ → List Statement → List Statement
first zero ss = []
first (suc n) [] = []
first (suc n) (s ∷ ss) = s ∷ first n ss

-- maxOffsetsPerTrigger
abbrev pub max_offsets_per_trigger : ℕ
max_offsets_per_trigger = 10000

-- The topic's rows before and after the checkpoint, and the tables.
pub record Query : Type 0 where
  pub processed : List KafkaRow
  pub pending : List KafkaRow
  pub lake : Lake

-- Which row `dropDuplicates` keeps may differ from run to run.
module _ (f : Functions) (digest : String → ℕ → ℕ → String)
    (drops : ℕ → List OrderEvent → List OrderEvent) where
  unfoldable pub merge_statements : ℕ → List KafkaRow → List Statement
  unfolding valid_events invalid_letters parse_kafka_events
  merge_statements now [] = []
  merge_statements now (r ∷ rs) =
      let batch = parse_kafka_events f now (r ∷ rs) in
      valid_statements (drops now (valid_events batch))
      ++ invalid_statements (invalid_letters digest batch)

  pub data Step (q : Query) : Query → Type 0 where
    -- `merge_batch` returns, and the checkpoint advances
    committed :
        (now : ℕ) (batch rest : List KafkaRow)
        → q.pending ≡ batch ++ rest
        → length batch ≤ max_offsets_per_trigger
        → Step q (record {
          processed = q.processed ++ batch;
          pending = rest;
          lake = merge_batch (drops now) digest (parse_kafka_events f now batch) q.lake;
        })
    -- the query stops after some of the statements
    stopped :
        (now done : ℕ) (batch rest : List KafkaRow)
        → q.pending ≡ batch ++ rest
        → length batch ≤ max_offsets_per_trigger
        → Step q
            (record q { lake = run_statements (first done (merge_statements now batch)) q.lake })

  -- The steps from a query, with its restarts.
  pub data Steps (q : Query) : Query → Type 0 where
    begin : Steps q q
    next : {r s : Query} → Steps q r → Step r s → Steps q s
