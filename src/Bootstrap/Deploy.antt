-- ===== src/Bootstrap/Deploy.antt =====
-- The rest of cdc/bootstrap.py: the contract of the connector, `connector_config`, and the job from end
-- to end, `main` with `register_connector`. Kafka Connect holds a configuration under each
-- connector's name, which PUT creates or replaces.
pub mod Agreed
use Prim.Native.String.{◌++◌ as concat}
use local_data_platform.Prelude.{
  ℕ, String, ◌≡◌, Bool, true, false, Option, none, some, List, [], ◌∷◌, ◌==◌, string_eq, Result, ok,
  err, ◌>>=◌, if◌then◌else◌,
}
use local_data_platform.Sql.{find}
use local_data_platform.Sql.Ensure.{ensure}
use local_data_platform.Bootstrap.{
  Wait, ready, timed_out, waiting, PluginRound, StatusRound, Registration, wait_for_connect,
  register_connector,
}
use local_data_platform.Bootstrap.Catalog.{
  BootstrapError, Environment, required, Server, captured_tables, configure_postgres,
}

abbrev pub Config : Type 0
Config = List (String × String)

-- `separator.join(texts)`
abbrev pub join : String → List String → String
join separator [] = ""
join separator (t ∷ []) = t
join separator (t ∷ u ∷ ts) = concat t (concat separator (join separator (u ∷ ts)))

abbrev pub avro_converter : String
avro_converter = "io.apicurio.registry.utils.converter.AvroConverter"

-- What `connector_config` reads, in the order in which it reads it.
pub record ConnectorSettings : Type 0 where
  pub topic_prefix : String
  pub registry_url : String
  pub hostname : String
  pub port : String
  pub user : String
  pub password : String
  pub dbname : String
  pub slot_name : String
  pub publication_name : String

abbrev pub connector_settings : Environment → Result BootstrapError ConnectorSettings
connector_settings env = do
  topic_prefix ← required env "CDC_TOPIC_PREFIX"
  registry_url ← required env "SCHEMA_REGISTRY_NATIVE_URL"
  hostname ← required env "ECOMMERCE_POSTGRES_HOST"
  port ← required env "ECOMMERCE_POSTGRES_PORT"
  user ← required env "CDC_POSTGRES_USER"
  password ← required env "CDC_POSTGRES_PASSWORD"
  dbname ← required env "ECOMMERCE_POSTGRES_DB"
  slot_name ← required env "CDC_SLOT_NAME"
  publication_name ← required env "CDC_PUBLICATION_NAME"
  ok (record {
    topic_prefix = topic_prefix;
    registry_url = registry_url;
    hostname = hostname;
    port = port;
    user = user;
    password = password;
    dbname = dbname;
    slot_name = slot_name;
    publication_name = publication_name;
  })

abbrev pub to_config : ConnectorSettings → Config
to_config c =
    ("connector.class", "io.debezium.connector.postgresql.PostgresConnector")
    ∷ ("tasks.max", "1")
    ∷ ("database.hostname", c.hostname)
    ∷ ("database.port", c.port)
    ∷ ("database.user", c.user)
    ∷ ("database.password", c.password)
    ∷ ("database.dbname", c.dbname)
    ∷ ("topic.prefix", c.topic_prefix)
    ∷ ("plugin.name", "pgoutput")
    ∷ ("slot.name", c.slot_name)
    ∷ ("slot.drop.on.stop", "false")
    ∷ ("publication.name", c.publication_name)
    ∷ ("publication.autocreate.mode", "disabled")
    ∷ ("table.include.list", join "," captured_tables)
    ∷ ("snapshot.mode", "initial")
    ∷ ("tombstones.on.delete", "true")
    ∷ ("provide.transaction.metadata", "true")
    ∷ ("heartbeat.interval.ms", "10000")
    ∷ ("schema.name.adjustment.mode", "avro")
    ∷ ("key.converter", avro_converter)
    ∷ ("key.converter.apicurio.registry.url", c.registry_url)
    ∷ ("key.converter.apicurio.registry.auto-register", "true")
    ∷ ("key.converter.apicurio.registry.find-latest", "true")
    ∷ ("key.converter.apicurio.registry.as-confluent", "true")
    ∷ ("key.converter.apicurio.use-id", "contentId")
    ∷ ("key.converter.apicurio.registry.headers.enabled", "false")
    ∷ ("key.converter.schemas.enable", "false")
    ∷ ("value.converter", avro_converter)
    ∷ ("value.converter.apicurio.registry.url", c.registry_url)
    ∷ ("value.converter.apicurio.registry.auto-register", "true")
    ∷ ("value.converter.apicurio.registry.find-latest", "true")
    ∷ ("value.converter.apicurio.registry.as-confluent", "true")
    ∷ ("value.converter.apicurio.use-id", "contentId")
    ∷ ("value.converter.apicurio.registry.headers.enabled", "false")
    ∷ ("value.converter.schemas.enable", "false")
    ∷ ("topic.creation.default.replication.factor", "1")
    ∷ ("topic.creation.default.partitions", "1")
    ∷ ("topic.creation.default.cleanup.policy", "delete")
    ∷ ("topic.creation.default.retention.ms", "604800000")
    ∷ ("topic.creation.groups", "tables")
    ∷ ("topic.creation.tables.include", concat c.topic_prefix "\\.public\\..*")
    ∷ ("topic.creation.tables.partitions", "3")
    ∷ ("topic.creation.tables.cleanup.policy", "compact")
    ∷ ("topic.creation.tables.delete.retention.ms", "86400000")
    ∷ ("topic.creation.tables.compression.type", "lz4")
    ∷ []

unfoldable pub connector_config : Environment → Result BootstrapError Config
connector_config env = do c ← connector_settings env; ok (to_config c)

-- `config[key]`
abbrev pub option : String → Config → Option String
option key [] = none
option key ((k, v) ∷ rest) = if k == key then some v else option key rest

pub record Connector : Type 0 where
  pub name : String
  pub config : Config

unfoldable pub put_connector : String → Config → List Connector → List Connector
put_connector name config =
    ensure Connector.name name (record { name = name; config = config })
      (λ c. record c { config = config })

-- PostgreSQL and Kafka Connect.
pub record Deployment : Type 0 where
  pub server : Server
  pub connectors : List Connector

-- What Connect answers in a run: the rounds of the two loops with their deadlines, and whether the
-- PUT raised.
pub record Answers : Type 0 where
  pub plugin_deadline : ℕ
  pub plugins : List PluginRound
  pub put_raises : Bool
  pub status_deadline : ℕ
  pub statuses : List StatusRound

pub data Outcome : Type 0 where
  raised : BootstrapError → Outcome
  not_ready : String → Outcome
  put_raised unfinished : Outcome
  registered : Registration → Outcome

-- The PUT of the configuration, and the loop after it.
abbrev pub put_and_wait :
    String → Result BootstrapError Config → Answers → Deployment → Outcome × Deployment
put_and_wait name (err e) a d = (raised e, d)
put_and_wait name (ok config) a d = if a.put_raises then (put_raised, d) else (
  registered (register_connector a.status_deadline a.statuses),
  record d { connectors = put_connector name config d.connectors },
)

abbrev pub once_ready : Wait → Outcome × Deployment → Deployment → Outcome × Deployment
once_ready ready rest d = rest
once_ready (timed_out error) rest d = (not_ready error, d)
once_ready waiting rest d = (unfinished, d)

abbrev pub register_named :
    Environment → Result BootstrapError String → Answers → Deployment → Outcome × Deployment
register_named env (err e) a d = (raised e, d)
register_named env (ok name) a d =
    once_ready (wait_for_connect a.plugin_deadline "not started" a.plugins)
      (put_and_wait name (connector_config env) a d) d

-- `register_connector` from its first line.
unfoldable pub register : Environment → Answers → Deployment → Outcome × Deployment
unfolding put_connector
register env a d =
    register_named env
      (required env "DEBEZIUM_CONNECT_URL" >>= λ url. required env "CDC_CONNECTOR_NAME") a d

abbrev pub then_register :
    Environment
    → Answers
    → Result BootstrapError (Unit {0}) × Server
    → Deployment
    → Outcome × Deployment
then_register env a (err e, s) d = (raised e, record d { server = s })
then_register env a (ok u, s) d = register env a (record d { server = s })

-- `main`
unfoldable pub bootstrap : Environment → Answers → Deployment → Outcome × Deployment
bootstrap env a d = then_register env a (configure_postgres env d.server) d
