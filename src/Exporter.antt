-- ===== src/Exporter.antt =====
-- The exporter monitoring/platform_exporter.py: its gauges, the collectors and the loop of `main`.
-- What the dependencies answer in a cycle is one record; an exception inside a collector's `try` is a
-- reading that is `none` or `raised`. A lag is a number of microseconds.
pub mod Health
pub mod Isolated
mod Tests
use local_data_platform.Prelude.{
  ℕ, ◌-◌, String, Bool, true, false, ◌&&◌, Option, none, some, List, [], ◌∷◌, ◌==◌, string_eq,
  length, is_some, if◌then◌else◌,
}
use local_data_platform.Bootstrap.{is_running}

-- A gauge by its label; a label that was never set has no sample.
abbrev pub Family : Type 0
Family = String → Option ℕ

pub record Gauges : Type 0 where
  pub component_up : Family
  pub watermark_lag : Family
  pub candidate_pending : Family
  pub staging_rows : Family
  pub kafka_partitions : Family
  pub cdc_connector_up : Family
  pub cdc_slot_active : Family
  pub cdc_slot_retained_bytes : Family
  pub collection_errors : Family

-- `GAUGE.labels(label).set(value)`
abbrev pub set_label : String → ℕ → Family → Family
set_label label value family l = if l == label then some value else family l

abbrev pub to_number : Bool → ℕ
to_number true = 1
to_number false = 0

pub record WatermarkReading : Type 0 where
  pub pipeline : String
  pub watermark : ℕ
  pub candidate : Option ℕ

pub record SlotReading : Type 0 where
  pub active : Bool
  pub retained_bytes : ℕ

-- The connection and the query of the watermarks, the count of each table, and the query of the slot.
pub record PostgresReading : Type 0 where
  pub now : ℕ
  pub watermarks : Option (List WatermarkReading)
  pub count : String → Option ℕ
  pub slot : Option (Option SlotReading)

pub data KafkaReading : Type 0 where
  raised topic_unavailable : KafkaReading
  partitions : ℕ → KafkaReading

-- The connector's state and its tasks' states.
pub data DebeziumReading : Type 0 where
  raised : DebeziumReading
  connector_status : Option String → List (Option String) → DebeziumReading

-- What `env` gives outside of a collector's `try`, and the readings of a cycle; `none` is a variable
-- that is empty, or that is missing and has no default, for which `env` raises. A Boolean says whether
-- GET of the URL succeeded. A setting that is read inside a `try` fails with its reading.
pub record Cycle : Type 0 where
  pub topic : Option String
  pub connector : Option String
  pub base_url : Option String
  pub slot_name : String
  pub postgres : PostgresReading
  pub kafka : KafkaReading
  pub debezium : DebeziumReading
  pub schema_registry : Option Bool
  pub spark_gateway : Option Bool
  pub minio : Option Bool
  pub airflow : Option Bool

-- A loop or a statement of `collect_postgres`: the gauges, and whether it went through.
abbrev pub set_watermarks : ℕ → List WatermarkReading → Gauges → Gauges
set_watermarks now [] g = g
set_watermarks now (w ∷ ws) g = set_watermarks now ws (record g {
  watermark_lag = set_label w.pipeline (now - w.watermark) g.watermark_lag;
  candidate_pending = set_label w.pipeline (to_number (is_some w.candidate)) g.candidate_pending;
})

-- The count of one table; when it raises, the tables after it are not counted.
abbrev pub set_count : String → Option ℕ → (Gauges → Gauges × Bool) → Gauges → Gauges × Bool
set_count table none rest g = (g, false)
set_count table (some n) rest g =
    rest (record g { staging_rows = set_label table n g.staging_rows })

unfoldable pub set_counts :
    (String → Option ℕ) → List String → (Gauges → Gauges × Bool) → Gauges → Gauges × Bool
set_counts count [] rest g = rest g
set_counts count (table ∷ tables) rest g =
    set_count table (count table) (set_counts count tables rest) g

abbrev pub slot_active : Option SlotReading → Bool
slot_active none = false
slot_active (some s) = s.active

abbrev pub slot_bytes : Option SlotReading → ℕ
slot_bytes none = 0
slot_bytes (some s) = s.retained_bytes

abbrev pub set_slot : String → Option (Option SlotReading) → Gauges → Gauges × Bool
set_slot slot none g = (g, false)
set_slot slot (some state) g = (
  record g {
    cdc_slot_active = set_label slot (to_number (slot_active state)) g.cdc_slot_active;
    cdc_slot_retained_bytes = set_label slot (slot_bytes state) g.cdc_slot_retained_bytes;
  },
  true,
)

abbrev pub staging_tables : List String
staging_tables = "customers" ∷ "products" ∷ "orders" ∷ "order_items" ∷ "payments" ∷ []

abbrev pub read_postgres :
    String → PostgresReading → Option (List WatermarkReading) → Gauges → Gauges × Bool
read_postgres slot r none g = (g, false)
read_postgres slot r (some ws) g =
    set_counts r.count staging_tables (set_slot slot r.slot) (set_watermarks r.now ws g)

-- COMPONENT_UP and COLLECTION_ERRORS of one component.
abbrev pub set_health : String → Bool → Bool → Gauges → Gauges
set_health component up failed g = record g {
  component_up = set_label component (to_number up) g.component_up;
  collection_errors = set_label component (to_number failed) g.collection_errors;
}

abbrev pub after_reading : String → Gauges × Bool → Gauges
after_reading component (g, true) = set_health component true false g
after_reading component (g, false) = set_health component false true g

unfoldable pub collect_postgres : String → PostgresReading → Gauges → Gauges
unfolding set_counts
collect_postgres slot r g = after_reading "postgres" (read_postgres slot r r.watermarks g)

unfoldable pub collect_http : String → Bool → Gauges → Gauges
collect_http component answered g = after_reading component (g, answered)

unfoldable pub collect_kafka : String → KafkaReading → Gauges → Gauges
collect_kafka topic (partitions n) g =
    set_health "kafka" true false
      (record g { kafka_partitions = set_label topic n g.kafka_partitions })
collect_kafka topic topic_unavailable g =
    set_health "kafka" false true
      (record g { kafka_partitions = set_label topic 0 g.kafka_partitions })
collect_kafka topic raised g =
    set_health "kafka" false true
      (record g { kafka_partitions = set_label topic 0 g.kafka_partitions })

unfoldable pub collect_debezium : String → DebeziumReading → Gauges → Gauges
collect_debezium connector (connector_status state tasks) g =
    set_health "debezium" (is_running state tasks) false (record g {
      cdc_connector_up =
          set_label connector (to_number (is_running state tasks)) g.cdc_connector_up;
    })
collect_debezium connector raised g =
    set_health "debezium" false true
      (record g { cdc_connector_up = set_label connector 0 g.cdc_connector_up })

-- A call of `collect_http` in `collect`: the URL is read outside of the collector's `try`, so that a
-- missing variable ends the cycle with an exception.
abbrev pub collect_url : String → Option Bool → (Gauges → Gauges × Bool) → Gauges → Gauges × Bool
collect_url component none rest g = (g, false)
collect_url component (some answered) rest g = rest (collect_http component answered g)

-- `env` before the `try` of a collector.
abbrev pub with_setting : Option String → (String → Gauges → Gauges × Bool) → Gauges → Gauges × Bool
with_setting none rest g = (g, false)
with_setting (some value) rest g = rest value g

-- The four calls of `collect_http`.
abbrev pub collect_urls : Cycle → Gauges → Gauges × Bool
collect_urls c = collect_url "schema_registry" c.schema_registry (
    collect_url "spark_gateway" c.spark_gateway
      (collect_url "minio" c.minio (collect_url "airflow" c.airflow (λ done. (done, true)))))

-- The gauges after a cycle, and whether the exporter goes on.
unfoldable pub collect : Cycle → Gauges → Gauges × Bool
unfolding collect_postgres collect_kafka collect_debezium collect_http
collect c g =
    with_setting c.topic
      (λ topic before_kafka.
        with_setting c.connector
          (λ connector. with_setting c.base_url (λ url before_debezium.
            collect_urls c (collect_debezium connector c.debezium before_debezium)))
          (collect_kafka topic c.kafka before_kafka))
      (collect_postgres c.slot_name c.postgres g)

abbrev pub go_on : Gauges × Bool → (Gauges → Gauges × Bool) → Gauges × Bool
go_on (g, true) rest = rest g
go_on (g, false) rest = (g, false)

-- The loop of `main` over the cycles: the gauges that are scraped, and whether the process lives.
unfoldable pub run_exporter : List Cycle → Gauges → Gauges × Bool
run_exporter [] g = (g, true)
run_exporter (c ∷ cs) g = go_on (collect c g) (run_exporter cs)
