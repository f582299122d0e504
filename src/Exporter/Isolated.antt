-- ===== src/Exporter/Isolated.antt =====
-- One subsystem does not hide the others: what the health gauges of monitoring/platform_exporter.py
-- show of a component after a cycle.
use local_data_platform.Prelude.{
  ℕ, String, ◌≡◌, refl, ap, ◌∙◌, Bool, true, false, not, ◌&&◌, Option, none, some, List, [], ◌∷◌,
  string_eq, is_some, every,
}
use local_data_platform.Exporter.{
  Family, Gauges, set_label, to_number, WatermarkReading, SlotReading, PostgresReading,
  KafkaReading, topic_unavailable, partitions, DebeziumReading, connector_status, Cycle,
  set_watermarks, set_count, set_counts, set_slot, staging_tables, read_postgres, after_reading,
  collect_postgres, collect_http, collect_kafka, collect_debezium, collect_url, with_setting,
  collect,
}
use local_data_platform.Exporter.Health.{
  Component, postgres, kafka, debezium, schema_registry, spark_gateway, minio, airflow, label,
  reads_postgres, answers, kafka_up, debezium_up, debezium_failed, is_up, is_failed, HasSettings,
}

-- A part of `collect_postgres` leaves the health gauges alone, and goes through as told.
Leaves : (Gauges → Gauges × Bool) → Bool → Type 0
Leaves part through =
    (g : Gauges)
    → ((part g).0.component_up ≡ g.component_up)
      × ((part g).0.collection_errors ≡ g.collection_errors)
      × ((part g).1 ≡ through)

set_watermarks_keeps :
    (now : ℕ) (ws : List WatermarkReading) (g : Gauges)
    → ((set_watermarks now ws g).component_up ≡ g.component_up)
      × ((set_watermarks now ws g).collection_errors ≡ g.collection_errors)
set_watermarks_keeps now [] g = (refl, refl)
set_watermarks_keeps now (w ∷ ws) g = set_watermarks_keeps now ws _

set_counts-Leaves :
    (count : String → Option ℕ) (tables : List String) (rest : Gauges → Gauges × Bool)
    (through : Bool)
    → Leaves rest through
    → Leaves
        (set_counts count tables rest)
        (every (λ table. is_some (count table)) tables && through)
unfolding set_counts Leaves
set_counts-Leaves count [] rest through h = h
set_counts-Leaves count (table ∷ tables) rest through h =
    counted (count table) (set_counts-Leaves count tables rest through h)
  where
    counted :
        (o : Option ℕ)
        → Leaves (set_counts count tables rest) (every (λ t. is_some (count t)) tables && through)
        → Leaves
            (set_count table o (set_counts count tables rest))
            (is_some o && every (λ t. is_some (count t)) tables && through)
    counted none k g = (refl, refl, refl)
    counted (some n) k g = k _

set_slot-Leaves :
    (slot : String) (o : Option (Option SlotReading)) → Leaves (set_slot slot o) (is_some o)
unfolding Leaves
set_slot-Leaves slot none g = (refl, refl, refl)
set_slot-Leaves slot (some state) g = (refl, refl, refl)

-- A collector sets the health of its component, and of no other.
abbrev Sets : (Gauges → Gauges) → String → Bool → Bool → Type 0
Sets collector component up failed =
    (g : Gauges)
    → ((collector g).component_up ≡ set_label component (to_number up) g.component_up)
      × ((collector g).collection_errors
          ≡ set_label component (to_number failed) g.collection_errors)

read_postgres-Leaves :
    (slot : String) (r : PostgresReading) (o : Option (List WatermarkReading))
    → Leaves
        (read_postgres slot r o)
        (is_some o && (every (λ table. is_some (r.count table)) staging_tables && is_some r.slot))
unfolding Leaves
read_postgres-Leaves slot r none g = (refl, refl, refl)
read_postgres-Leaves slot r (some ws) g =
    let (up, errors, through) =
      set_counts-Leaves r.count staging_tables (set_slot slot r.slot) (is_some r.slot)
        (set_slot-Leaves slot r.slot) (set_watermarks r.now ws g) in
    let (kept, also) = set_watermarks_keeps r.now ws g in (up ∙ kept, errors ∙ also, through)

after_reading-Sets :
    (component : String) (g : Gauges) (read : Gauges × Bool) (through : Bool)
    → (read.0.component_up ≡ g.component_up)
      × (read.0.collection_errors ≡ g.collection_errors)
      × (read.1 ≡ through)
    → ((after_reading component read).component_up
        ≡ set_label component (to_number through) g.component_up)
      × ((after_reading component read).collection_errors
          ≡ set_label component (to_number (not through)) g.collection_errors)
after_reading-Sets component g (done, true) through (up, errors, is) =
    rw (← is) (ap (set_label component 1) up, ap (set_label component 0) errors)
after_reading-Sets component g (done, false) through (up, errors, is) =
    rw (← is) (ap (set_label component 0) up, ap (set_label component 1) errors)

collect_postgres-Sets :
    (slot : String) (r : PostgresReading)
    → Sets (collect_postgres slot r) "postgres" (reads_postgres r) (not (reads_postgres r))
unfolding collect_postgres
collect_postgres-Sets slot r g =
    after_reading-Sets "postgres" g (read_postgres slot r r.watermarks g) (reads_postgres r)
      (unfold Leaves in read_postgres-Leaves slot r r.watermarks g)

collect_http-Sets :
    (component : String) (answered : Bool)
    → Sets (collect_http component answered) component answered (not answered)
unfolding collect_http
collect_http-Sets component true g = (refl, refl)
collect_http-Sets component false g = (refl, refl)

collect_kafka-Sets :
    (topic : String) (r : KafkaReading)
    → Sets (collect_kafka topic r) "kafka" (kafka_up r) (not (kafka_up r))
unfolding collect_kafka
collect_kafka-Sets topic (partitions n) g = (refl, refl)
collect_kafka-Sets topic topic_unavailable g = (refl, refl)
collect_kafka-Sets topic _ g = (refl, refl)

collect_debezium-Sets :
    (connector : String) (r : DebeziumReading)
    → Sets (collect_debezium connector r) "debezium" (debezium_up r) (debezium_failed r)
unfolding collect_debezium
collect_debezium-Sets connector (connector_status state tasks) g = (refl, refl)
collect_debezium-Sets connector _ g = (refl, refl)

collect_url-given :
    (component : String) (o : Option Bool) (rest : Gauges → Gauges × Bool) (g : Gauges)
    → is_some o ≡ true
    → collect_url component o rest g ≡ rest (collect_http component (answers o) g)
collect_url-given component none rest g h = cc
collect_url-given component (some answered) rest g h = refl

abbrev Shows : Gauges → Family → Family → Type 0
Shows g up failed = (g.component_up ≡ up) × (g.collection_errors ≡ failed)

-- A collector after others.
then-Sets :
    (collector : Gauges → Gauges) (component : String) (up failed : Bool) (g : Gauges)
    (u e : Family)
    → Sets collector component up failed
    → Shows g u e
    → Shows
        (collector g)
        (set_label component (to_number up) u)
        (set_label component (to_number failed) e)
then-Sets collector component up failed g u e sets (shown, also) = (
  (sets g).0 ∙ ap (set_label component (to_number up)) shown,
  (sets g).1 ∙ ap (set_label component (to_number failed)) also,
)

-- The health of the seven components, set one after the other.
abbrev set_all : (Component → Bool) → Family → Family
set_all value f = set_label "airflow" (to_number (value airflow)) (
    set_label "minio" (to_number (value minio)) (
      set_label "spark_gateway" (to_number (value spark_gateway)) (
        set_label "schema_registry" (to_number (value schema_registry)) (
          set_label "debezium" (to_number (value debezium)) (
            set_label "kafka" (to_number (value kafka))
              (set_label "postgres" (to_number (value postgres)) f))))))

set_all-label :
    (value : Component → Bool) (f : Family) (k : Component)
    → set_all value f (label k) ≡ some (to_number (value k))
set_all-label value f postgres = refl
set_all-label value f kafka = refl
set_all-label value f debezium = refl
set_all-label value f schema_registry = refl
set_all-label value f spark_gateway = refl
set_all-label value f minio = refl
set_all-label value f airflow = refl

abbrev given : Option String → String
given none = ""
given (some value) = value

with_setting-given :
    (o : Option String) (rest : String → Gauges → Gauges × Bool) (g : Gauges)
    → is_some o ≡ true
    → with_setting o rest g ≡ rest (given o) g
with_setting-given none rest g h = cc
with_setting-given (some value) rest g h = refl

module _ (c : Cycle) (g : Gauges) where
  after_debezium : Gauges
  after_debezium =
      collect_debezium (given c.connector) c.debezium
        (collect_kafka (given c.topic) c.kafka (collect_postgres c.slot_name c.postgres g))

  after_urls : Gauges
  unfolding after_debezium
  after_urls = collect_http "airflow" (answers c.airflow) (
      collect_http "minio" (answers c.minio) (
        collect_http "spark_gateway" (answers c.spark_gateway)
          (collect_http "schema_registry" (answers c.schema_registry) after_debezium)))

  collect-after_urls : HasSettings c → collect c g ≡ (after_urls, true)
  unfolding collect after_urls
  collect-after_urls (t, n, b, s, p, m, a) =
      with_setting-given c.topic _ _ t
      ∙ with_setting-given c.connector _ _ n
      ∙ with_setting-given c.base_url _ _ b
      ∙ collect_url-given "schema_registry" c.schema_registry _ after_debezium s
      ∙ collect_url-given "spark_gateway" c.spark_gateway _ _ p
      ∙ collect_url-given "minio" c.minio _ _ m
      ∙ collect_url-given "airflow" c.airflow _ _ a

  after_urls-Shows :
      Shows after_urls
        (set_all (is_up c) g.component_up)
        (set_all (is_failed c) g.collection_errors)
  unfolding after_urls
  after_urls-Shows =
      then-Sets (collect_http "airflow" (answers c.airflow)) _ _ _ _ _ _
        (collect_http-Sets "airflow" (answers c.airflow))
        (then-Sets (collect_http "minio" (answers c.minio)) _ _ _ _ _ _
          (collect_http-Sets "minio" (answers c.minio))
          (then-Sets (collect_http "spark_gateway" (answers c.spark_gateway)) _ _ _ _ _ _
            (collect_http-Sets "spark_gateway" (answers c.spark_gateway))
            (then-Sets (collect_http "schema_registry" (answers c.schema_registry)) _ _ _ _ _ _
              (collect_http-Sets "schema_registry" (answers c.schema_registry))
              (then-Sets (collect_debezium (given c.connector) c.debezium) _ _ _ _ _ _
                (collect_debezium-Sets (given c.connector) c.debezium)
                (then-Sets (collect_kafka (given c.topic) c.kafka) _ _ _ _ _ _
                  (collect_kafka-Sets (given c.topic) c.kafka)
                  (collect_postgres-Sets c.slot_name c.postgres g))))))

  -- When none of the variables is empty that a cycle reads outside of a collector's `try` (the Kafka
  -- topic, the connector's name, the URL of Kafka Connect and the four health URLs, of which the last
  -- four must be set), a cycle does not end the exporter, and each component's health gauge and error
  -- gauge are those of its own reading, whatever the other components' readings are and whatever the
  -- gauges were before.
  pub collect_isolated :
      (k : Component)
      → HasSettings c
      → ((collect c g).1 ≡ true)
        × ((collect c g).0.component_up (label k) ≡ some (to_number (is_up c k)))
        × ((collect c g).0.collection_errors (label k) ≡ some (to_number (is_failed c k)))
  collect_isolated k urls =
      let done = collect-after_urls urls in
      let (up, failed) = after_urls-Shows in
      (
        ap (λ (r : Gauges × Bool). r.1) done,
        ap (λ (r : Gauges × Bool). r.0.component_up (label k)) done
            ∙ ap (λ (f : Family). f (label k)) up
            ∙ set_all-label (is_up c) g.component_up k,
        ap (λ (r : Gauges × Bool). r.0.collection_errors (label k)) done
            ∙ ap (λ (f : Family). f (label k)) failed
            ∙ set_all-label (is_failed c) g.collection_errors k,
      )
