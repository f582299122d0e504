-- ===== src/Lakehouse.antt =====
-- The jobs over all Iceberg tables, spark/jobs/validate_platform.py in Lakehouse.Validation and
-- spark/jobs/maintain_iceberg.py in Lakehouse.Maintenance, and the session of
-- spark/jobs/iceberg_common.py that every job opens.
pub mod Validation
pub mod Maintenance
mod Tests
use Prim.Native.String.{◌++◌ as concat}
use local_data_platform.Prelude.{
  ℕ, String, Bool, true, false, not, Option, none, some, List, [], ◌∷◌, Result, ok, err, ◌==◌,
  string_eq, select, if◌then◌else◌,
}
use local_data_platform.Bootstrap.Catalog.{Environment}

abbrev pub is_given : Option String → Bool
is_given none = false
is_given (some value) = not (value == "")

-- `os.environ[name]`, once the variable is known to be there.
abbrev pub value_of : Option String → String
value_of none = ""
value_of (some value) = value

abbrev pub required_variables : List String
required_variables =
    "ECOMMERCE_POSTGRES_HOST" ∷ "ECOMMERCE_POSTGRES_PORT" ∷ "ECOMMERCE_POSTGRES_USER"
    ∷ "ECOMMERCE_POSTGRES_PASSWORD" ∷ "ECOMMERCE_POSTGRES_DB" ∷ "ICEBERG_WAREHOUSE" ∷ "S3_ENDPOINT"
    ∷ []

abbrev pub missing_variables : Environment → List String → List String
missing_variables env names = select (λ name. not (is_given (env name))) names

abbrev pub jdbc_uri : Environment → String
jdbc_uri env = concat "jdbc:postgresql://" (
    concat (value_of (env "ECOMMERCE_POSTGRES_HOST")) (
      concat ":" (
        concat (value_of (env "ECOMMERCE_POSTGRES_PORT"))
          (concat "/" (value_of (env "ECOMMERCE_POSTGRES_DB"))))))

-- The options of the session, or the variables that are missing.
abbrev pub session_config : Environment → List (String × String)
session_config env =
    ("spark.sql.extensions", "org.apache.iceberg.spark.extensions.IcebergSparkSessionExtensions")
    ∷ ("spark.sql.catalog.local", "org.apache.iceberg.spark.SparkCatalog")
    ∷ ("spark.sql.catalog.local.type", "jdbc")
    ∷ ("spark.sql.catalog.local.uri", jdbc_uri env)
    ∷ ("spark.sql.catalog.local.jdbc.user", value_of (env "ECOMMERCE_POSTGRES_USER"))
    ∷ ("spark.sql.catalog.local.jdbc.password", value_of (env "ECOMMERCE_POSTGRES_PASSWORD"))
    ∷ ("spark.sql.catalog.local.warehouse", value_of (env "ICEBERG_WAREHOUSE"))
    ∷ ("spark.sql.catalog.local.io-impl", "org.apache.iceberg.aws.s3.S3FileIO")
    ∷ ("spark.sql.catalog.local.s3.endpoint", value_of (env "S3_ENDPOINT"))
    ∷ ("spark.sql.catalog.local.s3.path-style-access", "true")
    ∷ ("spark.sql.session.timeZone", "UTC")
    ∷ ("spark.sql.shuffle.partitions", "64")
    ∷ ("spark.default.parallelism", "64")
    ∷ ("spark.sql.sources.partitionOverwriteMode", "dynamic")
    ∷ []

abbrev pub unless_missing : {A : Type 0} → List String → A → Result (List String) A
unless_missing [] a = ok a
unless_missing (name ∷ names) a = err (name ∷ names)

unfoldable pub iceberg_spark : Environment → Result (List String) (List (String × String))
iceberg_spark env = unless_missing (missing_variables env required_variables) (session_config env)
