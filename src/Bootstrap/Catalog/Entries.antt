-- ===== src/Bootstrap/Catalog/Entries.antt =====
-- The rows that a run of `configure_postgres` (cdc/bootstrap.py) that went through has left.
use local_data_platform.Prelude.{
  String, ◌≡◌, ◌≢◌, refl, sym, ap, subst, ◌∙◌, true, some, List, arith, string_eq, pair_eq, Result,
  ok, err, every, inl, inr, Bool-cases,
}
use local_data_platform.Sql.{find}
use local_data_platform.Sql.Ensure.{find-ensure-cases}
use local_data_platform.Bootstrap.Catalog.{
  BootstrapError, connection_refused, undefined_table, Environment, required, Role, Publication,
  Server, captured_tables, ensure_role, grant, ensure_publication, Settings, settings, with_role,
  with_select, with_publication, exists, configure, configure_with, configure_postgres,
}
use local_data_platform.Bootstrap.Catalog.Configured.{
  Granted, Granted-grant, configure-refused, configure-missing, configure-all,
}

-- A role that may log in and replicate, with its password.
pub record HasLogin (roles : List Role) (user secret : String) : Type 0 where
  pub role : Role
  pub found : find Role.rolname user roles ≡ some role
  pub login : role.login ≡ true
  pub replication : role.replication ≡ true
  pub password : role.password ≡ secret

pub HasLogin-ensure_role :
    (user password : String) (rows : List Role)
    → HasLogin (ensure_role user password rows) user password
unfolding ensure_role
HasLogin-ensure_role user password rows =
    elim (find-ensure-cases Role.rolname user
      (record { rolname = user; login = true; replication = true; password = password })
      (λ r. record r { login = true; replication = true; password = password }) (λ r. refl) rows
      refl) [
        | inl created ↦ record {
          role = record { rolname = user; login = true; replication = true; password = password };
          found = created;
          login = refl;
          replication = refl;
          password = refl;
        }
        | inr (r, altered) ↦ record {
          role = record r { login = true; replication = true; password = password };
          found = altered;
          login = refl;
          replication = refl;
          password = refl;
        }
      ]

-- A publication of exactly the tables.
pub record IsPublished (publications : List Publication) (name : String) (tables : List String)
    : Type 0 where
  pub publication : Publication
  pub found : find Publication.pubname name publications ≡ some publication
  pub tables_are : publication.tables ≡ tables

pub ensure_publication-IsPublished :
    (name : String) (tables : List String) (rows : List Publication)
    → IsPublished (ensure_publication name tables rows) name tables
unfolding ensure_publication
ensure_publication-IsPublished name tables rows =
    elim (find-ensure-cases Publication.pubname name (record { pubname = name; tables = tables })
      (λ p. record p { tables = tables }) (λ p. refl) rows refl) [
        | inl created ↦ record {
          publication = record { pubname = name; tables = tables };
          found = created;
          tables_are = refl;
        }
        | inr (p, altered) ↦ record {
          publication = record p { tables = tables };
          found = altered;
          tables_are = refl;
        }
      ]

-- The server after `configure_postgres`, as the variables of the environment name it.
pub record IsConfigured (env : Environment) (s : Server) : Type 0 where
  pub c : Settings
  pub name : String
  pub settings_are : settings env ≡ ok c
  pub name_is : required env "CDC_PUBLICATION_NAME" ≡ ok name
  pub login : HasLogin s.roles c.cdc_user c.cdc_password
  pub select : Granted "SELECT" "public.customers" c.cdc_user s.grants
  pub published : IsPublished s.publications name captured_tables

module _ (env : Environment) (c : Settings) (s t : Server) (is : settings env ≡ ok c) where
  publish_ok :
      (name : Result BootstrapError String)
      → required env "CDC_PUBLICATION_NAME" ≡ name
      → with_publication name (with_select c (with_role c s)) ≡ (ok tt, t)
      → IsConfigured env t
  publish_ok (err e) named h = absurd (ground arith)
  publish_ok (ok name) named h = subst (IsConfigured env) (ap (λ r. r.1) h) (record {
    c = c;
    name = name;
    settings_are = is;
    name_is = named;
    login = HasLogin-ensure_role c.cdc_user c.cdc_password s.roles;
    select =
        Granted-grant "SELECT" "public.customers" c.cdc_user
          (grant "USAGE" "public" c.cdc_user (grant "CONNECT" c.database c.cdc_user s.grants));
    published = ensure_publication-IsPublished name captured_tables s.publications;
  })

  configure_ok : configure env c s ≡ (ok tt, t) → IsConfigured env t
  configure_ok h = elim (Bool-cases s.accepts_admin) [
    | inr refused ↦
        absurd (refuted connection_refused (sym (configure-refused env c s refused) ∙ h))
    | inl accepted ↦ elim (Bool-cases (every (exists s.tables) captured_tables)) [
      | inr missing ↦
          absurd (refuted undefined_table (sym (configure-missing env c s accepted missing) ∙ h))
      | inl there_are ↦
          publish_ok (required env "CDC_PUBLICATION_NAME") refl
            (sym (configure-all env c s accepted there_are) ∙ h)
    ]
  ]
    where
      refuted :
          (e : BootstrapError) {u : Server}
          → ◌≢◌ {A = Result BootstrapError (Unit {0}) × Server} (err e, u) (ok tt, t)
      refuted e {u} k = cc

pub configure_postgres_ok :
    (env : Environment) (s t : Server) → configure_postgres env s ≡ (ok tt, t) → IsConfigured env t
unfolding configure_postgres
configure_postgres_ok env s t h = by_settings (settings env) refl h
  where
    by_settings :
        (c : Result BootstrapError Settings)
        → settings env ≡ c
        → configure_with env c s ≡ (ok tt, t)
        → IsConfigured env t
    by_settings (err e) is h = absurd (ground arith)
    by_settings (ok c) is h = configure_ok env c s t is h
