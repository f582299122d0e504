-- ===== src/Cdc/Batch/Totals.antt =====
-- What the two counts of a batch of cdc/materialize_customers.py say.
use local_data_platform.Prelude.{
  ℕ, ◌+◌, ◌≡◌, refl, Bool, inl, inr, Bool-cases, List, [], ◌∷◌, sym, arith, ok, bind-eq-ok, ok_inj,
  length, length-append, nat_eq, if◌then◌else◌,
}
use local_data_platform.Cdc.Event.{Message}
use local_data_platform.Cdc.Bronze.Growth.{insert_bronze_appends}
use local_data_platform.Cdc.Batch.Inversion.{
  Processed, process_message-Processed, process_batch-messages,
}
use local_data_platform.Cdc.Batch.{
  Environment, Database, Platform, tally, process_message, process_messages, process_batch,
}

module _ (env : Environment) where
  grows_by_one :
      (m : Message) (db db' : Database) (taken : Bool)
      → Processed env m db db' taken
      → length db'.bronze ≡ length db.bronze + (if taken then 1 else 0)
  grows_by_one m db db' taken p =
      let (op, checked, appended, same) =
        insert_bronze_appends m p.customer p.event (env.clock_timestamp m) db.bronze db'.bronze
          taken p.inserted in
      elim (Bool-cases taken) [
        | inl fresh ↦ rw (appended fresh, fresh, length-append) refl
        | inr seen ↦ rw (same seen, seen) (omega arith)
      ]

  counted :
      (ms : List Message) (acc acc' : Database × ℕ × ℕ)
      → process_messages env ms acc ≡ ok acc'
      → (acc'.1 + acc'.2 ≡ acc.1 + acc.2 + length ms)
        × (length acc'.0.bronze + acc.1 ≡ length acc.0.bronze + acc'.1)
  unfolding process_messages
  counted [] acc acc' h = rw (ok_inj (sym h)) (omega arith)
  counted (m ∷ ms) (db, i, d) acc' h =
      let ((next, taken), now, later) = bind-eq-ok (process_message env m db) _ h in
      ground (
        arith,
        counted ms (tally taken i d next) acc' later,
        grows_by_one m db next taken (process_message-Processed env m db next taken now),
      )

  -- Of a batch that goes through, the two counts add up to its messages, and Bronze has grown by
  -- the count of the inserted ones.
  pub process_batch_counts :
      (ms : List Message) (before after : Platform) (inserted duplicates : ℕ)
      → process_batch env ms before ≡ ok (after, inserted, duplicates)
      → (inserted + duplicates ≡ length ms)
        × (length after.database.bronze ≡ length before.database.bronze + inserted)
  process_batch_counts ms before after inserted duplicates h = omega (
    arith,
    counted ms (before.database, 0, 0) (after.database, inserted, duplicates)
        (process_batch-messages env ms before after inserted duplicates h).0,
  )
