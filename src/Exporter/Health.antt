-- ===== src/Exporter/Health.antt =====
-- What a reading of monitoring/platform_exporter.py says of its own component.
use local_data_platform.Prelude.{
  String, ◌≡◌, Bool, true, false, not, ◌&&◌, Option, none, some, string_eq, is_some, every,
}
use local_data_platform.Bootstrap.{is_running}
use local_data_platform.Exporter.{
  PostgresReading, KafkaReading, partitions, DebeziumReading, connector_status, Cycle,
  staging_tables,
}

-- The components, by the labels of their gauges.
pub data Component : Type 0 where
  postgres kafka debezium schema_registry spark_gateway minio airflow : Component

abbrev pub label : Component → String
label postgres = "postgres"
label kafka = "kafka"
label debezium = "debezium"
label schema_registry = "schema_registry"
label spark_gateway = "spark_gateway"
label minio = "minio"
label airflow = "airflow"

abbrev pub reads_postgres : PostgresReading → Bool
reads_postgres r =
    is_some r.watermarks
    && (every (λ table. is_some (r.count table)) staging_tables && is_some r.slot)

abbrev pub answers : Option Bool → Bool
answers none = false
answers (some b) = b

abbrev pub kafka_up : KafkaReading → Bool
kafka_up (partitions n) = true
kafka_up _ = false

abbrev pub debezium_up : DebeziumReading → Bool
debezium_up (connector_status state tasks) = is_running state tasks
debezium_up _ = false

abbrev pub debezium_failed : DebeziumReading → Bool
debezium_failed (connector_status state tasks) = false
debezium_failed _ = true

-- Whether the component's own reading of the cycle is healthy.
abbrev pub is_up : Cycle → Component → Bool
is_up c postgres = reads_postgres c.postgres
is_up c kafka = kafka_up c.kafka
is_up c debezium = debezium_up c.debezium
is_up c schema_registry = answers c.schema_registry
is_up c spark_gateway = answers c.spark_gateway
is_up c minio = answers c.minio
is_up c airflow = answers c.airflow

-- Whether the component's own reading failed: a connector that answers but does not run is no failure
-- of the collection.
abbrev pub is_failed : Cycle → Component → Bool
is_failed c debezium = debezium_failed c.debezium
is_failed c k = not (is_up c k)

-- No variable that a cycle reads outside of a `try` is empty or missing.
abbrev pub HasSettings : Cycle → Type 0
HasSettings c =
    (is_some c.topic ≡ true)
    × (is_some c.connector ≡ true)
    × (is_some c.base_url ≡ true)
    × (is_some c.schema_registry ≡ true)
    × (is_some c.spark_gateway ≡ true)
    × (is_some c.minio ≡ true)
    × (is_some c.airflow ≡ true)
