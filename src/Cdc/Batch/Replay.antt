-- ===== src/Cdc/Batch/Replay.antt =====
-- Replays of `process_batch` (cdc/materialize_customers.py): the crash between the database commit
-- and the Kafka commit.
use native.Mathlib.Nat.{add-zero}
use local_data_platform.Prelude.{
  ℕ, ◌+◌, bind-eq-ok, ◌≡◌, Bool, true, false, Option, List, [], ◌∷◌, arith, ok, length, All, nat_eq,
  string_eq, pair_eq,
}
use local_data_platform.Sql.{has}
use local_data_platform.Cdc.Bronze.Growth.{insert_bronze_stores, insert_bronze_keeps}
use local_data_platform.Cdc.Event.{Operation, Envelope, Message}
use local_data_platform.Cdc.Bronze.{
  check_operation, operation_of, insert_bronze, coordinates, position,
}
use local_data_platform.Cdc.Batch.Inversion.{
  Processed, process_message-Processed, process_messages_induction, process_batch-messages,
}
use local_data_platform.Cdc.Batch.{
  Environment, Database, Platform, decode, process_message, process_messages, process_batch, tally,
}

module _ (env : Environment) where
  -- The message decodes, and Bronze holds its coordinates.
  pub record Seen (m : Message) (db : Database) : Type 0 where
    pub customer : ℕ
    pub event : Option Envelope
    pub op : Operation
    pub decoded : decode env m ≡ ok (customer, event)
    pub checked : check_operation (operation_of event) ≡ ok op
    pub stored : has coordinates (position m) db.bronze ≡ true

  -- A message that was seen is passed over: neither table changes.
  pub process_message-Seen :
      (m : Message) (db : Database) → Seen m db → process_message env m db ≡ ok (db, false)
  unfolding process_message insert_bronze
  process_message-Seen m db s = rw (s.decoded, s.checked, s.stored)

  Seen-Processed :
      (m : Message) (db db' : Database) (taken : Bool) → Processed env m db db' taken → Seen m db'
  Seen-Processed m db db' taken p =
      let (op, checked, stored) =
        insert_bronze_stores m p.customer p.event (env.clock_timestamp m) db.bronze db'.bronze taken
          p.inserted in
      record {
        customer = p.customer;
        event = p.event;
        op = op;
        decoded = p.decoded;
        checked = checked;
        stored = stored;
      }

  Seen-keeps :
      (m n : Message) (db db' : Database) (taken : Bool)
      → Processed env m db db' taken
      → Seen n db
      → Seen n db'
  Seen-keeps m n db db' taken p s = record {
    customer = s.customer;
    event = s.event;
    op = s.op;
    decoded = s.decoded;
    checked = s.checked;
    stored =
        insert_bronze_keeps m p.customer p.event (env.clock_timestamp m) db.bronze db'.bronze taken
          p.inserted (position n) s.stored;
  }

  process_messages_keeps :
      (n : Message) (ms : List Message) (acc acc' : Database × ℕ × ℕ)
      → process_messages env ms acc ≡ ok acc'
      → Seen n acc.0
      → Seen n acc'.0
  process_messages_keeps n =
      process_messages_induction env (Seen n)
        (λ m db db' taken p s. Seen-keeps m n db db' taken p s)

  -- After a batch every message of it is seen.
  pub process_messages-Seen :
      (ms : List Message) (acc acc' : Database × ℕ × ℕ)
      → process_messages env ms acc ≡ ok acc'
      → All (λ m. Seen m acc'.0) ms
  unfolding process_messages
  process_messages-Seen [] acc acc' h = tt
  process_messages-Seen (m ∷ ms) (db, i, d) acc' h =
      let ((next, taken), now, later) = bind-eq-ok (process_message env m db) _ h in
      let step = process_message-Processed env m db next taken now in
      (
        process_messages_keeps m ms (tally taken i d next) acc' later
            (Seen-Processed m db next taken step),
        process_messages-Seen ms (tally taken i d next) acc' later,
      )

  -- A batch of seen messages changes neither table, and counts duplicates only.
  replay_of_Seen :
      (ms : List Message) (db : Database) (i d : ℕ)
      → All (λ m. Seen m db) ms
      → process_messages env ms (db, i, d) ≡ ok (db, i, d + length ms)
  unfolding process_messages
  replay_of_Seen [] db i d h = rw add-zero
  replay_of_Seen (m ∷ ms) db i d h =
      rw (process_message-Seen m db h.0, replay_of_Seen ms db i (d + 1) h.1) (ground arith)

  -- A batch that was committed to the database, and is delivered again because the process stopped
  -- before the offsets reached Kafka, succeeds with both tables unchanged: every message counts as
  -- a duplicate, and the offsets are committed this time.
  pub process_batch_replay :
      (ms : List Message) (before after : Platform) (inserted duplicates : ℕ)
      → process_batch env ms before ≡ ok (after, inserted, duplicates)
      → process_batch env ms (record before { database = after.database })
        ≡ ok (after, 0, length ms)
  unfolding process_batch
  process_batch_replay ms before after inserted duplicates h =
      let (ran, offsets) = process_batch-messages env ms before after inserted duplicates h in
      let seen =
        process_messages-Seen ms (before.database, 0, 0) (after.database, inserted, duplicates)
          ran in
      ground (arith, replay_of_Seen ms after.database 0 0 seen)
