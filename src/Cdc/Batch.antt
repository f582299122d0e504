-- ===== src/Cdc/Batch.antt =====
-- `process_batch` of cdc/materialize_customers.py: one database transaction over the polled
-- messages, and then the acknowledgement to Kafka. The exception of a failed batch leaves the
-- `with` block, which rolls the transaction back, so a failure carries no state.
pub mod Inversion
pub mod Replay
pub mod Delivery
pub mod View
pub mod Totals
pub mod Rebuilt
use local_data_platform.Prelude.{
  ℕ, ◌+◌, String, Bool, true, false, Option, none, some, List, [], ◌∷◌, Result, ok, err, ◌>>=◌,
  if◌then◌else◌,
}
use local_data_platform.Cdc.Event.{Envelope, Message, Failure, no_business_key}
use local_data_platform.Cdc.Bronze.{BronzeRow, insert_bronze}
use local_data_platform.Cdc.Silver.{SilverRow, apply_silver}
use local_data_platform.Cdc.Offsets.{OffsetMap, commit_offsets}

-- The decoded key; a customer_id that is missing or empty is `none`.
pub record Key : Type 0 where
  pub customer_id : Option ℕ

-- What the service is given: the two Avro deserializers, which get the bytes and the topic, and
-- the database's clock when a message is applied.
pub record Environment : Type 0 where
  pub key_deserializer : Option (List ℕ) → String → Result Failure (Option Key)
  pub value_deserializer : List ℕ → String → Result Failure (Option Envelope)
  pub clock_timestamp : Message → ℕ

pub record Database : Type 0 where
  pub bronze : List BronzeRow
  pub silver : List SilverRow

-- The database, and the offsets that Kafka holds for the consumer group.
pub record Platform : Type 0 where
  pub database : Database
  pub committed : OffsetMap

-- `if not key or not key.get("customer_id")`
abbrev pub business_key : Option Key → Result Failure ℕ
business_key none = err no_business_key
business_key (some key) = elim key.customer_id [ none ↦ err no_business_key | some c ↦ ok c ]

-- The database and the counts of inserted and duplicate messages, after one more message.
abbrev pub tally : Bool → ℕ → ℕ → Database → Database × ℕ × ℕ
tally taken inserted duplicates db =
    (db, (if taken then inserted + 1 else inserted), (if taken then duplicates else duplicates + 1))

module _ (env : Environment) where
  unfoldable pub decode : Message → Result Failure (ℕ × Option Envelope)
  decode m = do
    key ← env.key_deserializer m.key m.topic
    customer ← business_key key
    event ← elim m.value [ none ↦ ok none | some bytes ↦ env.value_deserializer bytes m.topic ]
    ok (customer, event)

  -- The body of the loop, and whether Bronze took the message.
  unfoldable pub process_message : Message → Database → Result Failure (Database × Bool)
  process_message m db = do
    (customer, event) ← decode m
    (bronze, inserted) ← insert_bronze m customer event (env.clock_timestamp m) db.bronze
    if inserted
        then (do
          silver ← apply_silver m customer event (env.clock_timestamp m) db.silver
          ok (record { bronze = bronze; silver = silver }, true))
        else ok (record db { bronze = bronze }, false)

  unfoldable pub process_messages :
      List Message → Database × ℕ × ℕ → Result Failure (Database × ℕ × ℕ)
  process_messages [] acc = ok acc
  process_messages (m ∷ ms) (db, inserted, duplicates) = do
    (db', taken) ← process_message m db
    process_messages ms (tally taken inserted duplicates db')

  -- `connection.commit()`, then `commit_offsets`, with statements and commits that go through: what
  -- is left when one of them raises is in Cdc.Service.
  unfoldable pub process_batch : List Message → Platform → Result Failure (Platform × ℕ × ℕ)
  process_batch ms p = do
    (db, inserted, duplicates) ← process_messages ms (p.database, 0, 0)
    ok (record { database = db; committed = commit_offsets ms p.committed }, inserted, duplicates)
