-- ===== src/Exporter/Tests.antt =====
-- A cycle of monitoring/platform_exporter.py in which the count of a staging table fails and a task of
-- the connector has failed.
use local_data_platform.Prelude.{
  ℕ, String, ◌≡◌, refl, true, false, Option, none, some, [], ◌∷◌, ◌==◌, string_eq, if◌then◌else◌,
}
use local_data_platform.Exporter.{Gauges, partitions, connector_status, Cycle, collect}
use local_data_platform.Exporter.Health.{debezium}
use local_data_platform.Exporter.Isolated.{collect_isolated}

abbrev count : String → Option ℕ
count table = if table == "orders" then none else some 5

abbrev cycle : Cycle
cycle = record {
  topic = some "orders";
  connector = some "cdc";
  base_url = some "http://debezium-connect:8083";
  slot_name = "slot";
  postgres = record { now = 50; watermarks = some []; count = count; slot = some none };
  kafka = partitions 3;
  debezium = connector_status (some "RUNNING") (some "RUNNING" ∷ some "FAILED" ∷ []);
  schema_registry = some true;
  spark_gateway = some true;
  minio = some false;
  airflow = some true;
}

abbrev unset : Gauges
unset = record {
  component_up = λ l. none;
  watermark_lag = λ l. none;
  candidate_pending = λ l. none;
  staging_rows = λ l. none;
  kafka_partitions = λ l. none;
  cdc_connector_up = λ l. none;
  cdc_slot_active = λ l. none;
  cdc_slot_retained_bytes = λ l. none;
  collection_errors = λ l. none;
}

-- The tables before the failing one are counted.
counted : (collect cycle unset).0.staging_rows "products" ≡ some 5
unfolding collect
counted = refl

not_counted : (collect cycle unset).0.staging_rows "payments" ≡ none
unfolding collect
not_counted = refl

collect_isolated_example :
    ((collect cycle unset).1 ≡ true)
    × ((collect cycle unset).0.component_up "debezium" ≡ some 0)
    × ((collect cycle unset).0.collection_errors "debezium" ≡ some 0)
collect_isolated_example =
    collect_isolated cycle unset debezium (refl, refl, refl, refl, refl, refl, refl)
