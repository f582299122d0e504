-- ===== src/Pipeline/Extract/Staged.antt =====
-- What `extract_incremental` (airflow/dags/ecommerce_pipeline.py) leaves in staging.
pub mod Complete
pub mod Typed
use local_data_platform.Prelude.{
  ℕ, max, String, ◌≡◌, ◌≢◌, refl, Bool, true, false, Option, none, some, List, [], ◌∷◌, arith, ◌==◌,
  nat_eq, string_eq, eq_iff, nat_beq_iff, is_some, select, any, if◌then◌else◌, inl, inr, Bool-cases,
  some_inj, ap, ◌∙◌, subst, In, here, there,
}
use local_data_platform.Sql.{find, upsert, Unique}
use local_data_platform.Sql.Upsert.{find-upsert, merged}
use local_data_platform.Pipeline.Extract.{
  SourceRow, StagedRow, staged_id, TableSpec, project, staged_row, value_of_column, set_columns,
  refresh, always, upsert_all,
}

abbrev pub source_id : SourceRow → ℕ
source_id r = r.id

pub read_column : String → List (String × String) → Option String
read_column name [] = none
read_column name ((c, v) ∷ cs) = if c == name then some v else read_column name cs

-- The columns that a load gives a row.
abbrev pub loaded : TableSpec → SourceRow → List (String × String)
loaded spec r = project spec.target_columns spec.source_columns r

-- Every column that a load sets is a column of the row.
abbrev pub HasColumns : TableSpec → StagedRow → Type 0
HasColumns spec s =
    (r : SourceRow) (c v : String)
    → read_column c (loaded spec r) ≡ some v
    → is_some (read_column c s.columns) ≡ true

abbrev pub HasSchema : TableSpec → List StagedRow → Type 0
HasSchema spec staging =
    (id : ℕ) (s : StagedRow) → find staged_id id staging ≡ some s → HasColumns spec s

-- Staging shows the source row: under its key, every column but the key's reads as in the source.
pub record IsStaged (spec : TableSpec) (staging : List StagedRow) (r : SourceRow) : Type 0 where
  pub row : StagedRow
  pub found : find staged_id r.id staging ≡ some row
  pub current :
      (c v : String)
      → (c == spec.primary_key) ≡ false
      → read_column c (loaded spec r) ≡ some v
      → read_column c row.columns ≡ some v

value_of_read :
    (c v old : String) (cs : List (String × String))
    → read_column c cs ≡ some v
    → value_of_column c cs old ≡ v
unfolding read_column
value_of_read c v old [] h = cc
value_of_read c v old ((d, w) ∷ cs) h = ground (arith, value_of_read c v old cs)

read-set_columns :
    (c v key : String) (excluded stored : List (String × String))
    → (c == key) ≡ false
    → read_column c excluded ≡ some v
    → is_some (read_column c stored) ≡ true
    → read_column c (set_columns key excluded stored) ≡ some v
unfolding read_column
read-set_columns c v key excluded [] other h p = cc
read-set_columns c v key excluded ((d, w) ∷ stored) other h p = ground (
  arith,
  eq_iff d c,
  eq_iff d key,
  eq_iff c key,
  value_of_read c v w excluded,
  read-set_columns c v key excluded stored,
)

has-set_columns :
    (c key : String) (excluded stored : List (String × String))
    → is_some (read_column c (set_columns key excluded stored)) ≡ is_some (read_column c stored)
unfolding read_column
has-set_columns c key excluded [] = refl
has-set_columns c key excluded ((d, w) ∷ stored) =
    ground (arith, has-set_columns c key excluded stored)

module _ (spec : TableSpec) (now : ℕ) where
  keeps_id :
      (e s : StagedRow) → staged_id s ≡ staged_id e → staged_id (refresh spec e s) ≡ staged_id e
  keeps_id e s h = h

  abbrev put_row : SourceRow → List StagedRow → List StagedRow
  put_row r staging = upsert staged_id always (refresh spec) (staged_row spec now r) staging

  -- The row of the source after the upsert, from the one before.
  abbrev placed : SourceRow → Option StagedRow → StagedRow
  placed r o = merged staged_id always (refresh spec) (staged_row spec now r) o

  find-put_row :
      (id : ℕ) (r : SourceRow) (staging : List StagedRow)
      → find staged_id id (put_row r staging) ≡ (
          if r.id == id
          then some (placed r (find staged_id r.id staging))
          else find staged_id id staging)
  find-put_row id r staging =
      find-upsert staged_id always (refresh spec) keeps_id id (staged_row spec now r) staging

  placed_current :
      (r : SourceRow) (o : Option StagedRow)
      → ((s : StagedRow) → o ≡ some s → HasColumns spec s)
      → (c v : String) → (c == spec.primary_key) ≡ false
      → read_column c (loaded spec r) ≡ some v
      → read_column c (placed r o).columns ≡ some v
  placed_current r none schema c v other h = h
  placed_current r (some s) schema c v other h =
      read-set_columns c v spec.primary_key (loaded spec r) s.columns other h
        (schema s refl r c v h)

  put_row-IsStaged :
      (r : SourceRow) (staging : List StagedRow)
      → HasSchema spec staging
      → IsStaged spec (put_row r staging) r
  put_row-IsStaged r staging schema = record {
    row = placed r (find staged_id r.id staging);
    found = rw (find-put_row r.id r staging, (nat_beq_iff r.id r.id).1 refl);
    current = placed_current r (find staged_id r.id staging) (schema r.id);
  }

  -- A column that some row of the source loads, every row loads.
  loads_alike :
      (targets sources : List String) (r q : SourceRow) (c : String)
      → is_some (read_column c (project targets sources r))
        ≡ is_some (read_column c (project targets sources q))
  unfolding read_column
  loads_alike [] sources r q c = refl
  loads_alike (t ∷ ts) [] r q c = refl
  loads_alike (t ∷ ts) (s ∷ ss) r q c = ground (arith, loads_alike ts ss r q c)

  placed-HasColumns :
      (r : SourceRow) (o : Option StagedRow)
      → ((s : StagedRow) → o ≡ some s → HasColumns spec s)
      → HasColumns spec (placed r o)
  placed-HasColumns r none schema q c v h =
      loads_alike spec.target_columns spec.source_columns r q c ∙ ap is_some h
  placed-HasColumns r (some s) schema q c v h =
      has-set_columns c spec.primary_key (loaded spec r) s.columns ∙ schema s refl q c v h

  pub put_row-HasSchema :
      (r : SourceRow) (staging : List StagedRow)
      → HasSchema spec staging
      → HasSchema spec (put_row r staging)
  put_row-HasSchema r staging schema id s h = elim (Bool-cases (r.id == id)) [
    | inl same ↦
        subst (HasColumns spec) (some_inj (rw (find-put_row id r staging, same) at h))
          (placed-HasColumns r (find staged_id r.id staging) (schema r.id))
    | inr other ↦ schema id s (rw (find-put_row id r staging, other) at h)
  ]

  put_row_keeps :
      (r q : SourceRow) (staging : List StagedRow)
      → (r.id == q.id) ≡ false
      → IsStaged spec staging q
      → IsStaged spec (put_row r staging) q
  put_row_keeps r q staging other s = record {
    row = s.row;
    found = rw (find-put_row q.id r staging, other) s.found;
    current = s.current;
  }

  -- A load touches no row whose key it does not select.
  pub upsert_all_keeps :
      (rs : List SourceRow) (id : ℕ) (staging : List StagedRow)
      → find source_id id rs ≡ none
      → find staged_id id (upsert_all spec now rs staging) ≡ find staged_id id staging
  unfolding find upsert_all
  upsert_all_keeps [] id staging absent = refl
  upsert_all_keeps (r ∷ rs) id staging absent = elim (Bool-cases (r.id == id)) [
    | inl same ↦ absurd (ground arith)
    | inr other ↦
        upsert_all_keeps rs id (put_row r staging) (rw other at absent)
        ∙ find-put_row id r staging
        ∙ rw other
  ]

  pub IsStaged-upsert_all :
      (rs : List SourceRow) (q : SourceRow) (staging : List StagedRow)
      → find source_id q.id rs ≡ none
      → IsStaged spec staging q
      → IsStaged spec (upsert_all spec now rs staging) q
  IsStaged-upsert_all rs q staging absent s = record {
    row = s.row;
    found = upsert_all_keeps rs q.id staging absent ∙ s.found;
    current = s.current;
  }

  -- A load with distinct keys stages every row that it is given.
  pub upsert_all-IsStaged :
      (rs : List SourceRow) (q : SourceRow) (staging : List StagedRow)
      → Unique source_id rs
      → HasSchema spec staging
      → In q rs
      → IsStaged spec (upsert_all spec now rs staging) q
  unfolding find upsert_all
  upsert_all-IsStaged [] q staging u schema i = elim i [ ]
  upsert_all-IsStaged (_ ∷ rs) q staging u schema here =
      IsStaged-upsert_all rs q (put_row q staging) u.0 (put_row-IsStaged q staging schema)
  upsert_all-IsStaged (r ∷ rs) q staging u schema (there i) =
      upsert_all-IsStaged rs q (put_row r staging) u.1 (put_row-HasSchema r staging schema) i
