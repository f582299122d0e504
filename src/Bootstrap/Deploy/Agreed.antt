-- ===== src/Bootstrap/Deploy/Agreed.antt =====
-- What a deployment of cdc/bootstrap.py that came to the connector's loop has agreed on.
use local_data_platform.Prelude.{
  String, ◌≡◌, ◌≢◌, refl, sym, ap, subst, ◌∙◌, true, false, Option, none, some, List, arith,
  string_eq, pair_eq, Result, ok, err, ◌>>=◌, bind-eq-ok, ok_inj, All, inl, inr, Bool-cases,
}
use local_data_platform.Sql.{find, has}
use local_data_platform.Bootstrap.Catalog.{
  BootstrapError, Environment, required, present, Role, Publication, Server, grant_key, settings,
  Settings, captured_tables, configure_postgres,
}
use local_data_platform.Bootstrap.Catalog.Entries.{
  HasLogin, IsPublished, IsConfigured, configure_postgres_ok,
}
use local_data_platform.Bootstrap.{
  Wait, ready, timed_out, waiting, Registration, wait_for_connect, register_connector,
}
use local_data_platform.Sql.Upsert.{key_of_find}
use local_data_platform.Sql.Ensure.{find-ensure-cases}
use local_data_platform.Bootstrap.Deploy.{
  Config, join, connector_settings, ConnectorSettings, to_config, connector_config, option,
  Connector, put_connector, Deployment, Answers, Outcome, put_raised, registered, put_and_wait,
  once_ready, register_named, register, then_register, bootstrap,
}

module _ (env : Environment) where
  settings_ok :
      (c : Settings)
      → settings env ≡ ok c
      → (required env "CDC_POSTGRES_USER" ≡ ok c.cdc_user)
        × (required env "CDC_POSTGRES_PASSWORD" ≡ ok c.cdc_password)
  settings_ok c h = ground arith

  connector_settings_ok :
      (c : ConnectorSettings)
      → connector_settings env ≡ ok c
      → (required env "CDC_POSTGRES_USER" ≡ ok c.user)
        × (required env "CDC_POSTGRES_PASSWORD" ≡ ok c.password)
        × (required env "CDC_PUBLICATION_NAME" ≡ ok c.publication_name)
  connector_settings_ok c h = ground arith

-- What the connector named by the environment is configured with, against the server that it reads.
pub record Agreement (env : Environment) (d : Deployment) : Type 0 where
  pub name : String
  pub config : Config
  pub role : Role
  pub publication : Publication
  pub is_named : env "CDC_CONNECTOR_NAME" ≡ some name
  pub connector :
      find Connector.name name d.connectors ≡ some (record { name = name; config = config })
  pub user : option "database.user" config ≡ some role.rolname
  pub password : option "database.password" config ≡ some role.password
  pub found_role : find Role.rolname role.rolname d.server.roles ≡ some role
  pub login : role.login ≡ true
  pub replication : role.replication ≡ true
  pub publishes : option "publication.name" config ≡ some publication.pubname
  pub found_publication :
      find Publication.pubname publication.pubname d.server.publications ≡ some publication
  pub includes : option "table.include.list" config ≡ some (join "," publication.tables)
  pub selects :
      All
        (λ t. has grant_key (("SELECT", t), role.rolname) d.server.grants ≡ true)
        publication.tables

required_is :
    (env : Environment) (name value : String) → required env name ≡ ok value → env name ≡ some value
unfolding required
required_is env name value h = by_value (env name) h
  where
    by_value : (o : Option String) → present name o ≡ ok value → o ≡ some value
    by_value none k = cc
    by_value (some v) k = ground arith

-- The connector stands in Connect with the configuration that was put last.
find-put_connector :
    (name : String) (config : Config) (rows : List Connector)
    → find Connector.name name (put_connector name config rows)
      ≡ some (record { name = name; config = config })
unfolding put_connector
find-put_connector name config rows =
    elim (find-ensure-cases Connector.name name (record { name = name; config = config })
      (λ c. record c { config = config }) (λ c. refl) rows refl) [
        | inl created ↦ created
        | inr (c, replaced) ↦
            replaced
            ∙ ap (λ n. some (record { name = n; config = config }))
                (key_of_find Connector.name name (put_connector name config rows)
                  {r = record c { config = config }} replaced)
      ]

put_raised_when :
    (a : Answers) (name : String) (config : Config) (d : Deployment)
    → a.put_raises ≡ true
    → put_and_wait name (ok config) a d ≡ (put_raised, d)
put_raised_when a name config d h = rw h refl

put_when :
    (a : Answers) (name : String) (config : Config) (d : Deployment)
    → a.put_raises ≡ false
    → put_and_wait name (ok config) a d ≡ (
      registered (register_connector a.status_deadline a.statuses),
      record d { connectors = put_connector name config d.connectors },
    )
put_when a name config d h = rw h refl

module _ (env : Environment) (d : Deployment) (c : IsConfigured env d.server) where
  agreed :
      (name : String) (cs : ConnectorSettings)
      → env "CDC_CONNECTOR_NAME" ≡ some name
      → connector_settings env ≡ ok cs
      → Agreement env (record d { connectors = put_connector name (to_config cs) d.connectors })
  agreed name cs named is =
      let from : HasLogin d.server.roles c.c.cdc_user c.c.cdc_password = c.login in
      let to : IsPublished d.server.publications c.name captured_tables = c.published in
      let (user, secret) = settings_ok env c.c c.settings_are in
      let (same_user, same_secret, same_name) = connector_settings_ok env cs is in
      let role_is : from.role.rolname ≡ c.c.cdc_user =
        key_of_find Role.rolname c.c.cdc_user d.server.roles {r = from.role} from.found in
      let name_is : to.publication.pubname ≡ c.name =
        key_of_find Publication.pubname c.name d.server.publications {r = to.publication}
          to.found in
      record {
        name = name;
        config = to_config cs;
        role = from.role;
        publication = to.publication;
        is_named = named;
        connector = find-put_connector name (to_config cs) d.connectors;
        user = ap some (ok_inj (sym same_user ∙ user) ∙ sym role_is);
        password = ap some (ok_inj (sym same_secret ∙ secret) ∙ sym from.password);
        found_role = ap (λ k. find Role.rolname k d.server.roles) role_is ∙ from.found;
        login = from.login;
        replication = from.replication;
        publishes = ap some (ok_inj (sym same_name ∙ c.name_is) ∙ sym name_is);
        found_publication =
            ap (λ k. find Publication.pubname k d.server.publications) name_is ∙ to.found;
        includes = ap (λ ts. some (join "," ts)) (sym to.tables_are);
        selects =
            subst
              (λ ts.
                All (λ t. has grant_key (("SELECT", t), from.role.rolname) d.server.grants ≡ true)
                  ts)
              (sym to.tables_are)
              (
                subst
                    (λ u. has grant_key (("SELECT", "public.customers"), u) d.server.grants ≡ true)
                    (sym role_is) c.select,
                tt,
              );
      }

  put_agrees :
      (a : Answers) (name : String) (config : Result BootstrapError Config) (r : Registration)
      (e : Deployment)
      → env "CDC_CONNECTOR_NAME" ≡ some name
      → connector_config env ≡ config
      → put_and_wait name config a d ≡ (registered r, e)
      → Agreement env e
  unfolding connector_config
  put_agrees a name (err x) r e named is h = absurd (ground arith)
  put_agrees a name (ok config) r e named is h = elim (Bool-cases a.put_raises) [
    | inl raises ↦ absurd (rejected (sym (put_raised_when a name config d raises) ∙ h))
    | inr accepted ↦
        let (cs, settings_are, config_is) =
          bind-eq-ok (connector_settings env) (λ cs. ok (to_config cs)) {b = config} is in
        subst (Agreement env)
          (ap (λ k. record d { connectors = put_connector name k d.connectors }) (ok_inj config_is)
            ∙ ap (λ x. x.1) (sym (put_when a name config d accepted) ∙ h))
          (agreed name cs named settings_are)
  ]
    where
      rejected : ◌≢◌ {A = Outcome × Deployment} (put_raised, d) (registered r, e)
      rejected k = cc

  register_agrees :
      (a : Answers) (name : Result BootstrapError String) (r : Registration) (e : Deployment)
      → (required env "DEBEZIUM_CONNECT_URL" >>= λ url. required env "CDC_CONNECTOR_NAME") ≡ name
      → register_named env name a d ≡ (registered r, e)
      → Agreement env e
  register_agrees a (err x) r e is h = absurd (ground arith)
  register_agrees a (ok name) r e is h =
      let (url, url_is, name_is) =
        bind-eq-ok (required env "DEBEZIUM_CONNECT_URL") (λ url. required env "CDC_CONNECTOR_NAME")
          {b = name} is in
      by_wait (wait_for_connect a.plugin_deadline "not started" a.plugins)
        (required_is env "CDC_CONNECTOR_NAME" name name_is) h
    where
      by_wait :
          (w : Wait)
          → env "CDC_CONNECTOR_NAME" ≡ some name
          → once_ready w (put_and_wait name (connector_config env) a d) d ≡ (registered r, e)
          → Agreement env e
      by_wait ready named k = put_agrees a name (connector_config env) r e named refl k
      by_wait (timed_out x) named k = absurd (ground arith)
      by_wait waiting named k = absurd (ground arith)

-- If the deployment comes to the connector's loop, then Connect holds the connector's configuration
-- under its name, and what it names is there: a role that may log in and replicate, with the password
-- of the configuration and SELECT on every published table, and a publication whose tables are the
-- ones that the configuration includes.
pub bootstrap_agrees :
    (env : Environment) (a : Answers) (d e : Deployment) (r : Registration)
    → bootstrap env a d ≡ (registered r, e)
    → Agreement env e
unfolding bootstrap register
bootstrap_agrees env a d e r h = by_server (configure_postgres env d.server) refl h
  where
    by_server :
        (x : Result BootstrapError (Unit {0}) × Server)
        → configure_postgres env d.server ≡ x
        → then_register env a x d ≡ (registered r, e)
        → Agreement env e
    by_server (err x, s) is k = absurd (ground arith)
    by_server (ok u, s) is k =
        register_agrees env (record d { server = s }) (configure_postgres_ok env d.server s is) a
          (required env "DEBEZIUM_CONNECT_URL" >>= λ url. required env "CDC_CONNECTOR_NAME") r e
          refl k
