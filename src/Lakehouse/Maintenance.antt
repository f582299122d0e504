-- ===== src/Lakehouse/Maintenance.antt =====
-- The job spark/jobs/maintain_iceberg.py. The procedures of Iceberg are parameters on a table of any
-- kind: one raises, which is `none`, or gives the table after its commit. What was committed before an
-- exception stays.
use local_data_platform.Prelude.{
  ℕ, ◌-◌, String, Option, none, some, List, [], ◌∷◌, map, ◌==◌, string_eq, if◌then◌else◌,
}
use local_data_platform.Sql.{find}

abbrev pub table_names : List String
table_names =
    "ecommerce.fact_sales" ∷ "ecommerce.order_events" ∷ "ecommerce.current_orders"
    ∷ "ecommerce.dead_letter_events" ∷ []

-- `timedelta(days=7)`, in microseconds
abbrev pub seven_days : ℕ
seven_days = 604800000000

-- The columns of the row that a procedure returns, if it returns one.
abbrev pub Counters : Type 0
Counters = Option (List (String × ℕ))

module _ (Table : Type 0) where
  pub record Procedures : Type 0 where
    -- 'target-file-size-bytes' and 'min-input-files'
    pub rewrite_data_files : ℕ → ℕ → Table → Option (Table × Counters)
    pub rewrite_position_delete_files : Table → Option (Table × Counters)
    -- older_than and retain_last
    pub expire_snapshots : ℕ → ℕ → Table → Option (Table × Counters)

  pub record Entry : Type 0 where
    pub name : String
    pub table : Table

-- What the job reports of a table.
pub data Maintained : Type 0 where
  not_created_yet : Maintained
  maintained : Counters → Option Counters → Counters → Maintained

module _ {Table : Type 0} (p : Procedures Table) (now : ℕ) where
  abbrev pub expired :
      Counters → Option Counters → Table → Option (Table × Counters) → Table × Option Maintained
  expired rewrite delete t none = (t, none)
  expired rewrite delete t (some (u, expire)) = (u, some (maintained rewrite delete expire))

  abbrev pub expire_after : Counters → Option Counters → Table → Table × Option Maintained
  expire_after rewrite delete t =
      expired rewrite delete t (p.expire_snapshots (now - seven_days) 10 t)

  abbrev pub deletes_rewritten :
      Counters → Table → Option (Table × Counters) → Table × Option Maintained
  deletes_rewritten rewrite t none = (t, none)
  deletes_rewritten rewrite t (some (u, delete)) = expire_after rewrite (some delete) u

  -- The table current_orders is merge-on-read.
  abbrev pub data_rewritten : String → Table → Option (Table × Counters) → Table × Option Maintained
  data_rewritten name t none = (t, none)
  data_rewritten name t (some (u, rewrite)) =
      if name == "ecommerce.current_orders"
      then deletes_rewritten rewrite u (p.rewrite_position_delete_files u)
      else expire_after rewrite none u

  unfoldable pub maintain_table : String → Table → Table × Option Maintained
  maintain_table name t = data_rewritten name t (p.rewrite_data_files 134217728 5 t)

  abbrev pub put_table : String → Table → Entry Table → Entry Table
  put_table name t entry = if entry.name == name then record entry { table = t } else entry

  abbrev pub entry_name : Entry Table → String
  entry_name e = e.name

  abbrev pub Run : Type 0
  Run = List (Entry Table) × Option (List (String × Maintained))

  abbrev pub report : String → Maintained → Run → Run
  report name m (catalog, none) = (catalog, none)
  report name m (catalog, some results) = (catalog, some ((name, m) ∷ results))

  -- An iteration, with the iterations after it.
  abbrev pub after_table :
      String → List (Entry Table) → Table × Option Maintained → (List (Entry Table) → Run) → Run
  after_table name catalog (t, none) rest = (map (put_table name t) catalog, none)
  after_table name catalog (t, some m) rest = report name m (rest (map (put_table name t) catalog))

  abbrev pub visit :
      String → Option (Entry Table) → List (Entry Table) → (List (Entry Table) → Run) → Run
  visit name none catalog rest = report name not_created_yet (rest catalog)
  visit name (some entry) catalog rest =
      after_table name catalog (maintain_table name entry.table) rest

  -- The tables that exist at the start are those of `catalog`: the job creates and drops none.
  unfoldable pub maintain : List String → List (Entry Table) → Run
  unfolding maintain_table
  maintain [] catalog = (catalog, some [])
  maintain (name ∷ names) catalog =
      visit name (find entry_name name catalog) catalog (maintain names)

  -- `main`: the tables, and the results unless it raised.
  unfoldable pub maintain_iceberg : List (Entry Table) → Run
  unfolding maintain
  maintain_iceberg catalog = maintain table_names catalog
