-- ===== src/Lib.antt =====
-- Verification of the local data platform: customers flow from Postgres through Debezium and Kafka
-- into Bronze and Silver tables, and orders, products and payments flow through a watermarked
-- batch pipeline. Each part below is a state and the operations on it, translated from the Python
-- code.
--
-- - Prelude: names of the libraries, Boolean tests on numbers, lists, equality as an interface,
--   results, signed integers. Sql: a table is a list of rows, and `find` and `upsert` are the
--   index lookup and one row of INSERT .. ON CONFLICT .. DO UPDATE; Sql.Merge is MERGE.
-- - Cdc (cdc/materialize_customers.py): Cdc.Event the messages and the Debezium envelope;
--   Cdc.Bronze `insert_bronze`; Cdc.Silver `apply_silver` and the view customers_current;
--   Cdc.Offsets `commit_offsets`; Cdc.Batch `process_batch`; Cdc.Service the loop of `main`, with
--   a database or a Kafka that refuses a batch. A UUID is a number, a failing batch is a value
--   without a state, since the transaction is rolled back. The Avro deserializers and the clock of
--   the database are parameters (Cdc.Batch.Environment).
-- - Stream (spark/jobs/order_stream.py): `parse_kafka_events` in Stream, the tables and
--   `merge_batch` in Stream.Batch. NULL is `none` and a truth value of SQL an Option of Bool.
--   Spark's from_json, to_timestamp and sha2 are parameters, and so is the row that
--   `dropDuplicates` keeps, under the hypothesis DropsDuplicates: what is kept was there, one row
--   for each id. Stream.Query is the streaming query of `main`: the statements of `merge_batch`,
--   the checkpoint, and a query that stops after any statement.
-- - Gateway (spark/gateway/job_gateway.py, and its clients, `run_iceberg_batch` of
--   airflow/dags/ecommerce_pipeline.py and the task of airflow/dags/lakehouse_maintenance.py):
--   `do_GET` is Gateway.do_get; `do_POST` is cut at the subprocess into Gateway.admit and
--   Gateway.finish, and Gateway.Step interleaves the requests.
-- - Producer (kafka/producer/publish_orders.py): `main` is Producer.publish_orders. The uuid5 of
--   an order version and what the broker does with an event are parameters. Producer.Buffer is
--   `main` with the loop that waits for the local buffer. Producer.Published joins it to the
--   stream: the Kafka records that it hands over, read by `parse_kafka_events`; Producer.Committed
--   to the watermarks that are advanced after it. How json.dumps writes an event and how Spark
--   reads it are parameters.
-- - Sales (spark/jobs/sales_batch.py): `transform_sales`, `validate_sales` and `main`. An amount
--   is a number of cents, and one that does not fit decimal(14,2) is NULL, as in Spark without
--   ANSI mode. The rows come in the order of the items, where Spark leaves the order open.
-- - Iceberg (spark/jobs/iceberg_sales.py): the job's `main` is Iceberg.run_iceberg_sales, over the
--   sales that Sales transforms. The identity and the time of the snapshot that a write commits
--   are given.
-- - Bootstrap (cdc/bootstrap.py): the loops of `wait_for_connect` and `register_connector`, over
--   the answers and the clock readings of their rounds; Bootstrap.Catalog `required` and
--   `configure_postgres` on a catalog of roles, grants and publications (Sql.Ensure is a SELECT
--   followed by CREATE or ALTER); Bootstrap.Deploy `connector_config`, the PUT and `main`.
-- - Contract (schema_registry/verify_contract.py): JSON values, `break_first_field_type`,
--   `wait_for_subjects` and `main`, over the answers of a registry.
-- - Exporter (monitoring/platform_exporter.py): the gauges are functions of their label; a cycle
--   of `collect` takes one record of readings, in which an exception inside a collector's `try` is
--   a value, and a setting that is missing outside of it ends the exporter.
-- - Cdc.Reconcile (cdc/reconcile_customers.py): the FULL OUTER JOIN and the groups of Bronze
--   coordinates.
-- - Cdc.Smoke (cdc/verify_cdc.py): `assign_topic_tail` and the loop of `main` over its rounds.
-- - Cdc.Verify (cdc/verify_materialization.py): `wait_for` over its rounds, the three queries and
--   `main`; Cdc.Source the statements on public.customers, and `mutate_customer` of
--   cdc/verify_cdc.py. What Debezium publishes of them is the record
--   Cdc.Verify.Published.Published.
-- - Lakehouse (spark/jobs/iceberg_common.py): the session's options; Lakehouse.Validation
--   (validate_platform.py) the grain of the tables of Iceberg and Stream; Lakehouse.Maintenance
--   (maintain_iceberg.py) the loop of `main`, with the Iceberg procedures as parameters.
-- - Generator (data-generator/): Generator itself an order's payment attempts and
--   `generate_payments`; Generator.Copy the batched COPY of the generators, Generator.Tables the
--   customers, products, orders and order items, postgres/sql/001_correction.sql and `main`. What
--   `random` and Faker draw is a function of the row's index, and what the constraints of the
--   tables accept is a parameter.
-- - Pipeline (airflow/dags/ecommerce_pipeline.py): Pipeline.Watermark the table
--   metadata.etl_watermark and `advance_watermarks`; Pipeline.Extract `extract_incremental` and
--   the four tasks that call it; Pipeline.Config `validate_run_config`; Pipeline.Checks the two
--   validation tasks; Pipeline.Graph the task graph; Pipeline.Runs the tasks on the tables they
--   share, run after run, while the source changes, with runs that fail at any task. A time is a
--   number of microseconds. The columns of a source row other than its key and its update time are
--   texts, read by name.
--
-- The batch service and the pipeline meet in the view cdc_silver.customers_current: the service
-- keeps it, and `validate_relationships` joins the staged orders with it.
--
-- The functions are structural recursions, but for Generator.Copy.copy_loop, whose fuel is the
-- number of rows: a batch takes one at least. The loops that wait or serve are given their rounds
-- as a list: a list of any length is one run of the loop.
--
-- Not modelled: a source row that appears with a time of update in the past, as when its
-- transaction commits late, which Pipeline.Runs leaves out; rows that were there before the
-- generators ran; the DAG that replays the init SQL; the JSON text of an event; the DDL, argument
-- parsing, client set-up and log output everywhere. Of what a third party does only its answers
-- appear, as parameters.
pub mod Prelude
pub mod Sql
pub mod Cdc
pub mod Stream
pub mod Gateway
pub mod Bootstrap
pub mod Contract
pub mod Exporter
pub mod Producer
pub mod Generator
pub mod Sales
pub mod Iceberg
pub mod Lakehouse
pub mod Pipeline
