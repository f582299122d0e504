-- ===== src/Cdc/Event.antt =====
-- The records that cdc/materialize_customers.py reads: a Kafka message with its coordinates, and
-- the decoded Debezium key and envelope. A UUID is its 128-bit number. A missing key of a dict, a
-- JSON null and an empty dict read alike in the source (`event.get(..) or {}`): all are `none`.
use local_data_platform.Prelude.{ℕ, ◌*◌, String, Option, none, some, List}
use local_data_platform.Prelude.Int.{ℤ, pos, negsuc}

-- The `op` of an envelope. `other` is any text outside {"r", "c", "u", "d", "t"}.
pub data Operation : Type 0 where
  read create update delete tombstone : Operation
  other : String → Operation

pub record Source : Type 0 where
  pub lsn : Option ℕ
  pub ts_ms : Option ℕ

-- The customer row in `before` and `after`.
pub record CustomerImage : Type 0 where
  pub customer_id : ℕ
  pub first_name : Option String
  pub last_name : Option String
  pub email : Option String
  pub created_at : Option String
  pub updated_at : Option String

pub record Envelope : Type 0 where
  pub op : Option Operation
  pub source : Option Source
  pub transaction_id : Option String
  pub before : Option CustomerImage
  pub after : Option CustomerImage

pub record Message : Type 0 where
  pub topic : String
  pub partition : ℕ
  pub offset : ℕ
  pub key : Option (List ℕ)
  pub value : Option (List ℕ)
  pub milliseconds : Option ℤ

-- The exceptions that end a batch.
pub data Failure : Type 0 where
  no_business_key unsupported_operation missing_lsn missing_after : Failure
  -- raised by a deserializer
  undecodable : Failure
  -- an error record of the consumer other than the end of a partition
  kafka_error : Failure
  -- raised by psycopg, and by consumer.commit
  database_error commit_error : Failure

-- `kafka_timestamp`: the time in microseconds since the epoch.
unfoldable pub kafka_timestamp : Message → Option ℕ
kafka_timestamp message = elim message.milliseconds [
  | none ↦ none
  | some (negsuc n) ↦ none
  | some (pos n) ↦ some (n * 1000)
]
