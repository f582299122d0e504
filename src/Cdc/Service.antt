-- ===== src/Cdc/Service.antt =====
-- The `while RUNNING` loop of `main` in cdc/materialize_customers.py. A signal, the polls, the clock,
-- and what the database and Kafka refuse are the environment's: they come as one record for each
-- round.
pub mod Laws
use local_data_platform.Prelude.{
  ℕ, ◌+◌, ◌-◌, Bool, true, false, ◌&&◌, List, [], ◌∷◌, Result, ok, err, ◌>>=◌, ltb, leb,
  if◌then◌else◌,
}
use local_data_platform.Cdc.Event.{Message, Failure, kafka_error}
use local_data_platform.Cdc.Batch.{Environment, Platform, process_batch}

-- An element of what `consumer.consume` returns.
pub data Polled : Type 0 where
  nothing partition_eof broken : Polled
  record_of : Message → Polled

-- What goes wrong in a batch outside of the service: a statement or `connection.commit` raises, and
-- the transaction is rolled back; or `consumer.commit` raises, after the transaction is committed.
pub data Fault : Type 0 where
  no_fault : Fault
  database_fails kafka_fails : Failure → Fault

pub record Poll : Type 0 where
  pub running : Bool
  pub messages : List Polled
  -- `time.monotonic()` where the round reads it
  pub monotonic : ℕ
  pub fault : Fault

pub record Service : Type 0 where
  pub platform : Platform
  pub last_record_at : ℕ
  pub total_inserted : ℕ
  pub total_duplicates : ℕ

pub data Ending : Type 0 where
  signalled idle : Ending
  raised : Failure → Ending
  -- an exception of `consumer.commit`, and the batch's `inserted`, which is in no counter
  unacknowledged : ℕ → Failure → Ending
  -- the rounds given are over, and the loop goes on
  serving : Ending

-- The inner loop: the records, or the exception of the first broken one.
unfoldable pub valid_messages : List Polled → Result Failure (List Message)
valid_messages [] = ok []
valid_messages (nothing ∷ rest) = valid_messages rest
valid_messages (partition_eof ∷ rest) = valid_messages rest
valid_messages (broken ∷ rest) = err kafka_error
valid_messages (record_of m ∷ rest) = do ms ← valid_messages rest; ok (m ∷ ms)

-- What a round does to the service: it goes on, ends by idleness, or raises, before or after the
-- database has committed.
pub data Outcome : Type 0 where
  goes_on : Service → Outcome
  breaks : Outcome
  raises : Failure → Outcome
  raises_committed : Service → ℕ → Failure → Outcome

abbrev pub after_batch : Service → ℕ → Fault → Result Failure (Platform × ℕ × ℕ) → Outcome
after_batch s now (database_fails e) batch = raises e
after_batch s now (kafka_fails e) (err f) = raises f
-- the database is as after the batch; the offsets and the counters are as before
after_batch s now (kafka_fails e) (ok (p, inserted, duplicates)) =
    raises_committed (record s { platform = record s.platform { database = p.database } }) inserted
      e
after_batch s now no_fault (err e) = raises e
after_batch s now no_fault (ok (p, inserted, duplicates)) = goes_on (record {
  platform = p;
  last_record_at = now;
  total_inserted = s.total_inserted + inserted;
  total_duplicates = s.total_duplicates + duplicates;
})

-- The loop goes on, or ends with the state of the round.
abbrev pub settle : Service → (Service → Service × Ending) → Outcome → Service × Ending
settle s rest (goes_on next) = rest next
settle s rest breaks = (s, idle)
settle s rest (raises e) = (s, raised e)
settle s rest (raises_committed stopped inserted e) = (stopped, unacknowledged inserted e)

module _ (env : Environment) (idle_exit_seconds : ℕ) where
  abbrev pub handle : Service → ℕ → Fault → List Message → Outcome
  handle s now fault [] =
      if ltb 0 idle_exit_seconds && leb idle_exit_seconds (now - s.last_record_at)
      then breaks
      else goes_on s
  handle s now fault (m ∷ ms) = after_batch s now fault (process_batch env (m ∷ ms) s.platform)

  unfoldable pub round : Service → Poll → Outcome
  unfolding valid_messages
  round s poll = elim (valid_messages poll.messages) [
    | err e ↦ raises e
    | ok ms ↦ handle s poll.monotonic poll.fault ms
  ]

  unfoldable pub serve : Service → List Poll → Service × Ending
  serve s [] = (s, serving)
  serve s (poll ∷ polls) =
      if poll.running then settle s (λ next. serve next polls) (round s poll) else (s, signalled)
