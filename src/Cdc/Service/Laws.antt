-- ===== src/Cdc/Service/Laws.antt =====
-- What holds however the service of cdc/materialize_customers.py is polled and however it ends.
use local_data_platform.Prelude.{
  ℕ, ◌+◌, ◌≡◌, refl, ◌&&◌, ltb, leb, ◌-◌, List, [], ◌∷◌, arith, Result, ok, err, length, if_both,
}
use local_data_platform.Cdc.Event.{Message, Failure}
use local_data_platform.Cdc.Batch.{Environment, Platform, process_batch}
use local_data_platform.Cdc.Batch.Rebuilt.{IsConsistent, process_batch-IsConsistent}
use local_data_platform.Cdc.Batch.Totals.{process_batch_counts}
use local_data_platform.Cdc.Service.{
  Fault, no_fault, database_fails, kafka_fails, Poll, Service, Outcome, goes_on, breaks, raises,
  raises_committed, Ending, signalled, unacknowledged, valid_messages, settle, after_batch, handle,
  round, serve,
}

-- What the last batch inserted, if `consumer.commit` raised after it.
abbrev pub uncounted : Ending → ℕ
uncounted (unacknowledged inserted e) = inserted
uncounted _ = 0

-- The database is consistent, and Bronze holds what was there before the service started plus
-- every record that the service counted as inserted, and some that it did not.
pub record IsAccounted (before extra : ℕ) (s : Service) : Type 0 where
  pub consistent : IsConsistent s.platform.database
  pub counted : length s.platform.database.bronze ≡ before + s.total_inserted + extra

-- What a round leaves, when it does not leave the service as it was.
abbrev Accounts : ℕ → Outcome → Type 0
Accounts before (goes_on t) = IsAccounted before 0 t
Accounts before (raises_committed t inserted e) = IsAccounted before inserted t
Accounts before _ = Unit

module _ (env : Environment) (idle_exit_seconds before : ℕ) where
  batch-Accounts :
      (s : Service) (now : ℕ) (fault : Fault) (ms : List Message)
      (r : Result Failure (Platform × ℕ × ℕ))
      → process_batch env ms s.platform ≡ r
      → IsAccounted before 0 s
      → Accounts before (after_batch s now fault r)
  batch-Accounts s now (database_fails e) ms r ran a = tt
  batch-Accounts s now (kafka_fails e) ms (err f) ran a = tt
  batch-Accounts s now (kafka_fails e) ms (ok (p, i, d)) ran a = record {
    consistent = process_batch-IsConsistent env ms s.platform p i d ran a.consistent;
    counted = omega (arith, process_batch_counts env ms s.platform p i d ran, a.counted);
  }
  batch-Accounts s now no_fault ms (err e) ran a = tt
  batch-Accounts s now no_fault ms (ok (p, i, d)) ran a = record {
    consistent = process_batch-IsConsistent env ms s.platform p i d ran a.consistent;
    counted = omega (arith, process_batch_counts env ms s.platform p i d ran, a.counted);
  }

  handle-Accounts :
      (s : Service) (now : ℕ) (fault : Fault) (ms : List Message)
      → IsAccounted before 0 s
      → Accounts before (handle env idle_exit_seconds s now fault ms)
  handle-Accounts s now fault [] a =
      if_both (Accounts before)
        (ltb 0 idle_exit_seconds && leb idle_exit_seconds (now - s.last_record_at)) breaks
        (goes_on s) tt a
  handle-Accounts s now fault (m ∷ ms) a =
      batch-Accounts s now fault (m ∷ ms) (process_batch env (m ∷ ms) s.platform) refl a

  round-Accounts :
      (s : Service) (poll : Poll)
      → IsAccounted before 0 s
      → Accounts before (round env idle_exit_seconds s poll)
  unfolding round
  round-Accounts s poll a = go (valid_messages poll.messages)
    where
      go :
          (r : Result Failure (List Message))
          → Accounts before (elim r [
            | err e ↦ raises e
            | ok ms ↦ handle env idle_exit_seconds s poll.monotonic poll.fault ms
          ])
      go (err e) = tt
      go (ok ms) = handle-Accounts s poll.monotonic poll.fault ms a

  settle-IsAccounted :
      (s : Service) (rest : Service → Service × Ending) (o : Outcome)
      → ((t : Service)
          → IsAccounted before 0 t
          → IsAccounted before (uncounted (rest t).1) (rest t).0)
      → Accounts before o
      → IsAccounted before 0 s
      → IsAccounted before (uncounted (settle s rest o).1) (settle s rest o).0
  settle-IsAccounted s rest (goes_on next) k o a = k next o
  settle-IsAccounted s rest breaks k o a = a
  settle-IsAccounted s rest (raises e) k o a = a
  settle-IsAccounted s rest (raises_committed stopped inserted e) k o a = o

  -- Whatever the polls are, whatever the database or Kafka refuses, and however the service ends (by
  -- a signal, by idleness, by an exception before a batch's transaction is committed, or by one of
  -- consumer.commit after it), Silver is the rebuild from Bronze, Bronze has one row per Kafka record,
  -- and Bronze has grown by exactly the records that the service counted as inserted, and in the last
  -- case by those that its last batch inserted, which no counter has; if the database was consistent
  -- and the counters agreed with Bronze at first.
  pub serve-IsAccounted :
      (s : Service) (polls : List Poll)
      → IsAccounted before 0 s
      → let (t, ending) = serve env idle_exit_seconds s polls in
        IsAccounted before (uncounted ending) t
  unfolding serve
  serve-IsAccounted s [] a = a
  serve-IsAccounted s (poll ∷ polls) a =
      let rest = λ (next : Service). serve env idle_exit_seconds next polls in
      let o = round env idle_exit_seconds s poll in
      if_both (λ r. IsAccounted before (uncounted r.1) r.0) poll.running (settle s rest o)
        (s, signalled)
        (settle-IsAccounted s rest o (λ t h. serve-IsAccounted t polls h) (round-Accounts s poll a)
          a)
        a
