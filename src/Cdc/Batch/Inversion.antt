-- ===== src/Cdc/Batch/Inversion.antt =====
-- What a message that `process_message` (cdc/materialize_customers.py) accepted has gone through.
use mathlib.Core.Path.{subst₂}
use local_data_platform.Prelude.{
  ℕ, ◌≡◌, Bool, true, false, Option, List, arith, Result, ok, ◌>>=◌, bind-eq-ok, ok_inj, [], ◌∷◌,
  sym, ◌∙◌, if◌then◌else◌,
}
use local_data_platform.Cdc.Event.{Envelope, Message, Failure}
use local_data_platform.Cdc.Bronze.{BronzeRow, insert_bronze}
use local_data_platform.Cdc.Offsets.{commit_offsets}
use local_data_platform.Cdc.Silver.{SilverRow, apply_silver}
use local_data_platform.Cdc.Batch.{
  Environment, Database, Platform, tally, decode, process_message, process_messages, process_batch,
}

settled :
    (fresh : Bool) (rows : List BronzeRow) (applied : Result Failure (List SilverRow))
    (db db' : Database) (taken : Bool)
    → (if fresh
        then (◌>>=◌ {B = Database × Bool} applied
            (λ silver. ok (record { bronze = rows; silver = silver }, true)))
        else ok (record db { bronze = rows }, false))
      ≡ ok (db', taken)
    → (db'.bronze ≡ rows)
      × (taken ≡ fresh)
      × (fresh ≡ true → applied ≡ ok db'.silver)
      × (fresh ≡ false → db'.silver ≡ db.silver)
settled fresh rows applied db db' taken h = ground arith

module _ (env : Environment) where
  pub record Processed (m : Message) (db db' : Database) (taken : Bool) : Type 0 where
    pub customer : ℕ
    pub event : Option Envelope
    pub decoded : decode env m ≡ ok (customer, event)
    pub inserted :
        insert_bronze m customer event (env.clock_timestamp m) db.bronze ≡ ok (db'.bronze, taken)
    pub applied :
        taken ≡ true
        → apply_silver m customer event (env.clock_timestamp m) db.silver ≡ ok db'.silver
    pub kept : taken ≡ false → db'.silver ≡ db.silver

  -- The calls behind an accepted message.
  pub process_message-Processed :
      (m : Message) (db db' : Database) (taken : Bool)
      → process_message env m db ≡ ok (db', taken)
      → Processed m db db' taken
  unfolding process_message
  process_message-Processed m db db' taken h =
      let ((c, event), decoded, rest) = bind-eq-ok (decode env m) _ h in
      let ((rows, fresh), inserted, done) =
        bind-eq-ok (insert_bronze m c event (env.clock_timestamp m) db.bronze) _ rest in
      let (is_rows, is_fresh, applied, kept) = settled fresh rows _ db db' taken done in
      record {
        customer = c;
        event = event;
        decoded = decoded;
        inserted =
            subst₂ (λ r t. insert_bronze m c event (env.clock_timestamp m) db.bronze ≡ ok (r, t))
              (sym is_rows) (sym is_fresh) inserted;
        applied = λ t. applied (sym is_fresh ∙ t);
        kept = λ t. kept (sym is_fresh ∙ t);
      }

  -- What every accepted message keeps, an accepted batch keeps.
  pub process_messages_induction {ℓ} :
      (P : Database → Type ℓ)
      → ((m : Message) (db db' : Database) (taken : Bool) → Processed m db db' taken → P db → P db')
      → (ms : List Message) (acc acc' : Database × ℕ × ℕ) → process_messages env ms acc ≡ ok acc'
      → P acc.0
      → P acc'.0
  unfolding process_messages
  process_messages_induction P step [] acc acc' h p = rw (ok_inj (sym h)) p
  process_messages_induction P step (m ∷ ms) (db, i, d) acc' h p =
      let ((next, taken), now, later) = bind-eq-ok (process_message env m db) _ h in
      process_messages_induction P step ms (tally taken i d next) acc' later
        (step m db next taken (process_message-Processed m db next taken now) p)

  -- The batch's database is the one that the loop ends with, and the offsets are the batch's.
  pub process_batch-messages :
      (ms : List Message) (before after : Platform) (inserted duplicates : ℕ)
      → process_batch env ms before ≡ ok (after, inserted, duplicates)
      → (process_messages env ms (before.database, 0, 0)
          ≡ ok (after.database, inserted, duplicates))
        × (after.committed ≡ commit_offsets ms before.committed)
  unfolding process_batch
  process_batch-messages ms before after inserted duplicates h =
      let ((db, i, d), ran, done) =
        bind-eq-ok (process_messages env ms (before.database, 0, 0)) _ h in
      (ground arith, ground arith)
