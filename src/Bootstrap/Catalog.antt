-- ===== src/Bootstrap/Catalog.antt =====
-- The administrative half of cdc/bootstrap.py, `required` and `configure_postgres`, and the contract of
-- the connector, `connector_config`. The server's catalog is a record of tables. The connection
-- autocommits, so that what was executed before an exception stays.
pub mod Configured
pub mod Entries
mod Tests
use Prim.Native.String.{◌++◌ as concat}
use local_data_platform.Prelude.{
  ℕ, String, ◌≡◌, Bool, true, false, not, ◌&&◌, Option, none, some, List, [], ◌∷◌, ◌==◌, string_eq,
  pair_eq, Result, ok, err, ◌>>=◌, any, every, map, if◌then◌else◌,
}
use local_data_platform.Sql.{find}
use local_data_platform.Sql.Ensure.{ensure}

pub data BootstrapError : Type 0 where
  missing_variable : String → BootstrapError
  connection_refused : BootstrapError
  undefined_table : BootstrapError

-- `os.getenv`
abbrev pub Environment : Type 0
Environment = String → Option String

abbrev pub present : String → Option String → Result BootstrapError String
present name none = err (missing_variable name)
present name (some value) = if value == "" then err (missing_variable name) else ok value

unfoldable pub required : Environment → String → Result BootstrapError String
required env name = present name (env name)

-- A row of pg_roles, as far as the statements set it.
pub record Role : Type 0 where
  pub rolname : String
  pub login : Bool
  pub replication : Bool
  pub password : String

-- A privilege that a role holds on an object: CONNECT, USAGE or SELECT.
pub record Grant : Type 0 where
  pub privilege : String
  pub object : String
  pub grantee : String

pub record Publication : Type 0 where
  pub pubname : String
  pub tables : List String

-- One database, with the tables that exist.
pub record Server : Type 0 where
  pub accepts_admin : Bool
  pub tables : List String
  pub roles : List Role
  pub grants : List Grant
  pub publications : List Publication

-- The tables are named with their schema.
abbrev pub captured_tables : List String
captured_tables = "public.customers" ∷ []

abbrev pub with_login : String → Role → Role
with_login password r = record r { login = true; replication = true; password = password }

-- CREATE ROLE or ALTER ROLE .. WITH LOGIN REPLICATION PASSWORD ..
unfoldable pub ensure_role : String → String → List Role → List Role
ensure_role user password =
    ensure Role.rolname user
      (record { rolname = user; login = true; replication = true; password = password })
      (with_login password)

abbrev pub grant_key : Grant → (String × String) × String
grant_key g = ((g.privilege, g.object), g.grantee)

-- GRANT .. ON .. TO ..; what is granted already stays.
unfoldable pub grant : String → String → String → List Grant → List Grant
grant privilege object user =
    ensure grant_key ((privilege, object), user)
      (record { privilege = privilege; object = object; grantee = user }) (λ g. g)

abbrev pub grant_all : String → List String → String → List Grant → List Grant
grant_all privilege [] user gs = gs
grant_all privilege (t ∷ ts) user gs = grant_all privilege ts user (grant privilege t user gs)

-- CREATE PUBLICATION .. FOR TABLE .. or ALTER PUBLICATION .. SET TABLE ..
unfoldable pub ensure_publication : String → List String → List Publication → List Publication
ensure_publication name tables =
    ensure Publication.pubname name (record { pubname = name; tables = tables })
      (λ p. record p { tables = tables })

-- What `configure_postgres` reads before it connects.
pub record Settings : Type 0 where
  pub cdc_user : String
  pub cdc_password : String
  pub database : String

abbrev pub settings : Environment → Result BootstrapError Settings
settings env = do
  _ ← required env "ECOMMERCE_POSTGRES_USER"
  cdc_user ← required env "CDC_POSTGRES_USER"
  cdc_password ← required env "CDC_POSTGRES_PASSWORD"
  database ← required env "ECOMMERCE_POSTGRES_DB"
  _ ← required env "ECOMMERCE_POSTGRES_HOST"
  _ ← required env "ECOMMERCE_POSTGRES_PORT"
  _ ← required env "ECOMMERCE_POSTGRES_PASSWORD"
  ok (record { cdc_user = cdc_user; cdc_password = cdc_password; database = database })

-- The role and its privileges on the database and on the schema.
abbrev pub with_role : Settings → Server → Server
with_role c s = record s {
  roles = ensure_role c.cdc_user c.cdc_password s.roles;
  grants = grant "USAGE" "public" c.cdc_user (grant "CONNECT" c.database c.cdc_user s.grants);
}

abbrev pub with_select : Settings → Server → Server
with_select c s = record s { grants = grant_all "SELECT" captured_tables c.cdc_user s.grants }

abbrev pub with_publication :
    Result BootstrapError String → Server → Result BootstrapError (Unit {0}) × Server
with_publication (err e) s = (err e, s)
with_publication (ok name) s =
    (ok tt, record s { publications = ensure_publication name captured_tables s.publications })

abbrev pub exists : List String → String → Bool
exists tables table = any (λ t. t == table) tables

abbrev pub configure : Environment → Settings → Server → Result BootstrapError (Unit {0}) × Server
configure env c s =
    if s.accepts_admin
    then (if every (exists s.tables) captured_tables
        then with_publication (required env "CDC_PUBLICATION_NAME") (with_select c (with_role c s))
        else (err undefined_table, with_role c s))
    else (err connection_refused, s)

abbrev pub configure_with :
    Environment
    → Result BootstrapError Settings
    → Server
    → Result BootstrapError (Unit {0}) × Server
configure_with env (err e) s = (err e, s)
configure_with env (ok c) s = configure env c s

unfoldable pub configure_postgres : Environment → Server → Result BootstrapError (Unit {0}) × Server
unfolding ensure_role grant ensure_publication
configure_postgres env s = configure_with env (settings env) s
