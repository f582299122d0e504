-- ===== src/Bootstrap/Catalog/Configured.antt =====
-- What `configure_postgres` (cdc/bootstrap.py) leaves in the catalog, and that it converges.
use local_data_platform.Prelude.{
  String, ◌≡◌, refl, sym, ap, ◌∙◌, true, false, List, string_eq, pair_eq, Result, ok, err, every,
  inl, inr, Bool-cases,
}
use local_data_platform.Sql.{has}
use local_data_platform.Sql.Ensure.{has-ensure, has-ensure_same, ensure_present, ensure_idempotent}
use local_data_platform.Bootstrap.Catalog.{
  BootstrapError, connection_refused, undefined_table, Environment, required, Role, Grant,
  Publication, Server, captured_tables, ensure_role, grant_key, grant, ensure_publication, Settings,
  settings, with_role, with_select, with_publication, exists, configure, configure_with,
  configure_postgres,
}

-- A grant that is there.
abbrev pub Granted : String → String → String → List Grant → Type 0
Granted privilege object user gs = has grant_key ((privilege, object), user) gs ≡ true

grant_keeps :
    (p o u q t w : String) (gs : List Grant) → Granted p o u gs → Granted p o u (grant q t w gs)
unfolding grant
grant_keeps p o u q t w gs h =
    has-ensure grant_key ((p, o), u) ((q, t), w) (record { privilege = q; object = t; grantee = w })
      (λ g. g) (λ g. refl) gs h

pub Granted-grant : (p o u : String) (gs : List Grant) → Granted p o u (grant p o u gs)
unfolding grant
Granted-grant p o u gs =
    has-ensure_same grant_key ((p, o), u) (record { privilege = p; object = o; grantee = u })
      (λ g. g) (λ g. refl) gs refl

grant_present : (p o u : String) (gs : List Grant) → Granted p o u gs → grant p o u gs ≡ gs
unfolding grant
grant_present p o u gs h =
    ensure_present grant_key ((p, o), u) (record { privilege = p; object = o; grantee = u }) gs h

ensure_role_idempotent :
    (user password : String) (rows : List Role)
    → ensure_role user password (ensure_role user password rows) ≡ ensure_role user password rows
unfolding ensure_role
ensure_role_idempotent user password rows =
    ensure_idempotent Role.rolname user
      (record { rolname = user; login = true; replication = true; password = password })
      (λ r. record r { login = true; replication = true; password = password }) (λ r. refl)
      (λ r. refl) refl refl rows

ensure_publication_idempotent :
    (name : String) (tables : List String) (rows : List Publication)
    → ensure_publication name tables (ensure_publication name tables rows)
      ≡ ensure_publication name tables rows
unfolding ensure_publication
ensure_publication_idempotent name tables rows =
    ensure_idempotent Publication.pubname name (record { pubname = name; tables = tables })
      (λ p. record p { tables = tables }) (λ p. refl) (λ p. refl) refl refl rows

module _ (c : Settings) (gs : List Grant) where
  abbrev base : List Grant
  base = grant "USAGE" "public" c.cdc_user (grant "CONNECT" c.database c.cdc_user gs)

  abbrev all_grants : List Grant
  all_grants = grant "SELECT" "public.customers" c.cdc_user base

  connect_base : Granted "CONNECT" c.database c.cdc_user base
  connect_base =
      grant_keeps "CONNECT" c.database c.cdc_user "USAGE" "public" c.cdc_user
        (grant "CONNECT" c.database c.cdc_user gs)
        (Granted-grant "CONNECT" c.database c.cdc_user gs)

  usage_base : Granted "USAGE" "public" c.cdc_user base
  usage_base = Granted-grant "USAGE" "public" c.cdc_user (grant "CONNECT" c.database c.cdc_user gs)

  base_present :
      (hs : List Grant)
      → Granted "CONNECT" c.database c.cdc_user hs
      → Granted "USAGE" "public" c.cdc_user hs
      → grant "USAGE" "public" c.cdc_user (grant "CONNECT" c.database c.cdc_user hs) ≡ hs
  base_present hs a b =
      ap (grant "USAGE" "public" c.cdc_user) (grant_present "CONNECT" c.database c.cdc_user hs a)
      ∙ grant_present "USAGE" "public" c.cdc_user hs b

  base_twice : grant "USAGE" "public" c.cdc_user (grant "CONNECT" c.database c.cdc_user base) ≡ base
  base_twice = base_present base connect_base usage_base

  all_twice_base :
      grant "USAGE" "public" c.cdc_user (grant "CONNECT" c.database c.cdc_user all_grants)
      ≡ all_grants
  all_twice_base =
      base_present all_grants
        (grant_keeps "CONNECT" c.database c.cdc_user "SELECT" "public.customers" c.cdc_user base
          connect_base)
        (grant_keeps "USAGE" "public" c.cdc_user "SELECT" "public.customers" c.cdc_user base
          usage_base)

  all_twice :
      grant "SELECT" "public.customers" c.cdc_user
        (grant "USAGE" "public" c.cdc_user (grant "CONNECT" c.database c.cdc_user all_grants))
      ≡ all_grants
  all_twice =
      ap (grant "SELECT" "public.customers" c.cdc_user) all_twice_base
      ∙ grant_present "SELECT" "public.customers" c.cdc_user all_grants
          (Granted-grant "SELECT" "public.customers" c.cdc_user base)

with_role_twice : (c : Settings) (s : Server) → with_role c (with_role c s) ≡ with_role c s
with_role_twice c s =
    rw (ensure_role_idempotent c.cdc_user c.cdc_password s.roles, base_twice c s.grants) refl

-- A step from a state that gives a result and a state which it gives again.
repeats :
    {S R : Type 0} (f : S → R × S) (s : S) (r : R) (t : S)
    → f s ≡ (r, t)
    → f t ≡ (r, t)
    → f ((f s).1) ≡ f s
repeats f s r t first again = ap (λ x. f x.1) first ∙ again ∙ sym first

module _ (env : Environment) (c : Settings) where
  pub configure-refused :
      (s : Server) → s.accepts_admin ≡ false → configure env c s ≡ (err connection_refused, s)
  configure-refused s refused = rw refused refl

  pub configure-missing :
      (s : Server)
      → s.accepts_admin ≡ true
      → every (exists s.tables) captured_tables ≡ false
      → configure env c s ≡ (err undefined_table, with_role c s)
  configure-missing s accepted missing = rw (accepted, missing) refl

  pub configure-all :
      (s : Server)
      → s.accepts_admin ≡ true
      → every (exists s.tables) captured_tables ≡ true
      → configure env c s
        ≡ with_publication (required env "CDC_PUBLICATION_NAME") (with_select c (with_role c s))
  configure-all s accepted there_are = rw (accepted, there_are) refl

  abbrev pub with_name : String → Server → Server
  with_name name s = record s {
    publications = ensure_publication name captured_tables s.publications;
  }

  named_twice :
      (name : String) (s : Server)
      → with_name name
          (with_select c (with_role c (with_name name (with_select c (with_role c s)))))
        ≡ with_name name (with_select c (with_role c s))
  named_twice name s =
      rw
        (
          ensure_role_idempotent c.cdc_user c.cdc_password s.roles,
          all_twice c s.grants,
          ensure_publication_idempotent name captured_tables s.publications,
        )
        refl

  select_twice :
      (s : Server)
      → with_select c (with_role c (with_select c (with_role c s))) ≡ with_select c (with_role c s)
  select_twice s =
      rw (ensure_role_idempotent c.cdc_user c.cdc_password s.roles, all_twice c s.grants) refl

  publish_twice :
      (s : Server)
      → s.accepts_admin ≡ true
      → every (exists s.tables) captured_tables ≡ true
      → (name : Result BootstrapError String) → required env "CDC_PUBLICATION_NAME" ≡ name
      → configure env c ((configure env c s).1) ≡ configure env c s
  publish_twice s accepted there_are (err e) is =
      let selected : Server = with_select c (with_role c s) in
      repeats (configure env c) s (err e) selected
        (configure-all s accepted there_are ∙ ap (λ n. with_publication n selected) is)
        (configure-all selected accepted there_are
          ∙ ap (λ n. with_publication n (with_select c (with_role c selected))) is
          ∙ ap (λ t. (err e, t)) (select_twice s))
  publish_twice s accepted there_are (ok name) is =
      let selected : Server = with_select c (with_role c s) in
      let published : Server = with_name name selected in
      repeats (configure env c) s (ok tt) published
        (configure-all s accepted there_are ∙ ap (λ n. with_publication n selected) is)
        (configure-all published accepted there_are
          ∙ ap (λ n. with_publication n (with_select c (with_role c published))) is
          ∙ ap (λ t. (ok tt, t)) (named_twice name s))

  configure_twice : (s : Server) → configure env c ((configure env c s).1) ≡ configure env c s
  configure_twice s = elim (Bool-cases s.accepts_admin) [
    | inr refused ↦
        let e = configure-refused s refused in
        repeats (configure env c) s (err connection_refused) s e e
    | inl accepted ↦ elim (Bool-cases (every (exists s.tables) captured_tables)) [
      | inr missing ↦
          repeats (configure env c) s (err undefined_table) (with_role c s)
            (configure-missing s accepted missing)
            (configure-missing (with_role c s) accepted missing
              ∙ ap (λ t. (err undefined_table, t)) (with_role_twice c s))
      | inl there_are ↦
          publish_twice s accepted there_are (required env "CDC_PUBLICATION_NAME") refl
    ]
  ]

-- Run once more in the same environment, `configure_postgres` gives the same result and changes
-- nothing in the catalog, whether the first run went through or raised, and where it raised.
pub configure_postgres_converges :
    (env : Environment) (s : Server)
    → configure_postgres env ((configure_postgres env s).1) ≡ configure_postgres env s
unfolding configure_postgres
configure_postgres_converges env s = by_settings (settings env)
  where
    by_settings :
        (c : Result BootstrapError Settings)
        → configure_with env c ((configure_with env c s).1) ≡ configure_with env c s
    by_settings (err e) = refl
    by_settings (ok c) = configure_twice env c s
