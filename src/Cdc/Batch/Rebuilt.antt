-- ===== src/Cdc/Batch/Rebuilt.antt =====
-- `process_batch` (cdc/materialize_customers.py) keeps the two layers together: Bronze has one row
-- per Kafka record, and Silver is what a rebuild from Bronze gives.
use local_data_platform.Prelude.{
  ℕ, ◌≡◌, Bool, inl, inr, Bool-cases, List, ◌∙◌, ok, string_eq, nat_eq, pair_eq,
}
use local_data_platform.Sql.{Unique}
use local_data_platform.Cdc.Event.{Message}
use local_data_platform.Cdc.Bronze.{coordinates}
use local_data_platform.Cdc.Bronze.Growth.{insert_bronze_appends, insert_bronze-Unique}
use local_data_platform.Cdc.Silver.Rebuild.{rebuild, rebuild-append, apply_silver-change}
use local_data_platform.Cdc.Batch.Inversion.{
  Processed, process_messages_induction, process_batch-messages,
}
use local_data_platform.Cdc.Batch.{Environment, Database, Platform, process_batch}

pub record IsConsistent (db : Database) : Type 0 where
  pub one_row_per_record : Unique coordinates db.bronze
  pub rebuilt : db.silver ≡ rebuild db.bronze

module _ (env : Environment) where
  rebuilt_step :
      (m : Message) (db db' : Database) (taken : Bool)
      → Processed env m db db' taken
      → db.silver ≡ rebuild db.bronze
      → db'.silver ≡ rebuild db'.bronze
  rebuilt_step m db db' taken p h =
      let now = env.clock_timestamp m in
      let (op, checked, appended, same) =
        insert_bronze_appends m p.customer p.event now db.bronze db'.bronze taken p.inserted in
      elim (Bool-cases taken) [
        | inl fresh ↦
            rw (appended fresh, rebuild-append)
              (apply_silver-change m p.customer p.event op now db.silver db'.silver checked
                  (p.applied fresh)
                ∙ rw h)
        | inr seen ↦ rw (same seen, p.kept seen) h
      ]

  step-IsConsistent :
      (m : Message) (db db' : Database) (taken : Bool)
      → Processed env m db db' taken
      → IsConsistent db
      → IsConsistent db'
  step-IsConsistent m db db' taken p c = record {
    one_row_per_record =
        insert_bronze-Unique m p.customer p.event (env.clock_timestamp m) db.bronze db'.bronze taken
          p.inserted c.one_row_per_record;
    rebuilt = rebuilt_step m db db' taken p c.rebuilt;
  }

  -- A batch that succeeds keeps Bronze at one row per Kafka coordinates, and keeps Silver equal to
  -- the rebuild from Bronze.
  pub process_batch-IsConsistent :
      (ms : List Message) (before after : Platform) (inserted duplicates : ℕ)
      → process_batch env ms before ≡ ok (after, inserted, duplicates)
      → IsConsistent before.database
      → IsConsistent after.database
  process_batch-IsConsistent ms before after inserted duplicates h c =
      process_messages_induction env IsConsistent step-IsConsistent ms (before.database, 0, 0)
        (after.database, inserted, duplicates)
        (process_batch-messages env ms before after inserted duplicates h).0 c
