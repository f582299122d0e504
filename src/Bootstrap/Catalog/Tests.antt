-- ===== src/Bootstrap/Catalog/Tests.antt =====
-- Runs of `configure_postgres` and of `main` (cdc/bootstrap.py) on a blank server, and on one whose role
-- has lost its rights and whose publication has a table too many.
use local_data_platform.Prelude.{
  ◌≡◌, refl, true, false, some, [], ◌∷◌, ◌==◌, string_eq, err, if◌then◌else◌,
}
use local_data_platform.Bootstrap.{
  running, listed, connector_status, wait_for_connect, register_connector,
}
use local_data_platform.Sql.{find}
use local_data_platform.Sql.Ensure.{ensure}
use local_data_platform.Bootstrap.Catalog.{
  Environment, required, Server, configure_postgres, undefined_table,
}
use local_data_platform.Bootstrap.Deploy.{
  Deployment, Answers, registered, connector_config, register, bootstrap,
}
use local_data_platform.Bootstrap.Deploy.Agreed.{Agreement, bootstrap_agrees}

abbrev env : Environment
env name =
    if name == "CDC_POSTGRES_PASSWORD"
    then some "secret"
    else if name == "CDC_POSTGRES_USER"
    then some "cdc"
    else if name == "CDC_PUBLICATION_NAME"
    then some "customers_pub"
    else if name == "CDC_CONNECTOR_NAME"
    then some "customers-connector"
    else some "x"

abbrev drifted : Server
drifted = record {
  accepts_admin = true;
  tables = "public.orders" ∷ "public.customers" ∷ [];
  roles = record { rolname = "cdc"; login = true; replication = false; password = "old" } ∷ [];
  grants = [];
  publications =
      record { pubname = "customers_pub"; tables = "public.orders" ∷ "public.customers" ∷ [] } ∷ [];
}

-- The grants before the missing table's stay.
missing_table : configure_postgres env (record drifted { tables = [] }) ≡ (
  err undefined_table,
  record drifted {
    tables = [];
    roles = record { rolname = "cdc"; login = true; replication = true; password = "secret" } ∷ [];
    grants =
        record { privilege = "CONNECT"; object = "x"; grantee = "cdc" }
        ∷ record { privilege = "USAGE"; object = "public"; grantee = "cdc" }
        ∷ [];
  },
)
unfolding configure_postgres required ensure find
missing_table = refl

abbrev answers : Answers
answers = record {
  plugin_deadline = 180;
  plugins =
      record {
        monotonic = 2;
        plugins = listed ("io.debezium.connector.postgresql.PostgresConnector" ∷ []);
      }
      ∷ [];
  put_raises = false;
  status_deadline = 190;
  statuses =
      record { monotonic = 12; status = connector_status (some "RUNNING") (some "RUNNING" ∷ []) }
      ∷ [];
}

abbrev before : Deployment
before = record { server = drifted; connectors = [] }

abbrev after : Deployment
unfolding bootstrap
after = (bootstrap env answers before).1

deployed : bootstrap env answers before ≡ (registered running, after)
unfolding bootstrap configure_postgres required register wait_for_connect connector_config
    register_connector
deployed = refl

bootstrap_agrees_example : Agreement env after
bootstrap_agrees_example = bootstrap_agrees env answers before after running deployed
