-- ===== src/Pipeline/Runs/Kept.antt =====
-- No source row is skipped by the runs of airflow/dags/ecommerce_pipeline.py.
use local_data_platform.Prelude.{
  ℕ, ◌≤◌, String, ◌≡◌, refl, sym, subst, ◌∙◌, true, false, Option, none, some, List, arith, ok,
  nat_eq, string_eq, ◌==◌, In, inl, inr, Bool-cases,
}
use local_data_platform.Sql.{find, Unique}
use local_data_platform.Sql.Upsert.{key_of_find}
use local_data_platform.Sql.Selection.{find-map, apply_to}
use local_data_platform.Pipeline.Watermark.{WatermarkRow, name_of, RunMode, incremental, backfill}
use local_data_platform.Pipeline.Watermark.Advance.{find-advance_watermarks}
use local_data_platform.Pipeline.Extract.{
  SourceRow, StagedRow, pipeline_name, upper_bound, Tables, raise_candidate, extract_incremental,
  load_window,
}
use local_data_platform.Pipeline.Extract.Window.{window_loaded, extract_incremental_loads}
use local_data_platform.Pipeline.Extract.Staged.{source_id, HasSchema, IsStaged}
use local_data_platform.Pipeline.Extract.Staged.Typed.{extract_incremental-HasSchema}
use local_data_platform.Pipeline.Config.{Params}
use local_data_platform.Pipeline.Graph.{Task}
use local_data_platform.Pipeline.Runs.{
  Entity, products, orders, order_items, payments, spec_of, same_entity, World, tables_of,
  put_tables, run_task, Pipeline, Changes, Step, changed, triggered, succeeded, lost, Steps, begin,
  next,
}
use local_data_platform.Pipeline.Runs.Tasks.{
  Effect, unchanged, extracted, advanced, run_task-Effect,
}
use local_data_platform.Pipeline.Runs.Cursors.{
  Covers, IsCursor, stepped-IsCursor, extract_incremental-IsCursor,
}

abbrev pub cursor_name : Entity → String
cursor_name e = pipeline_name (spec_of e)

pub same_entity_is : (d e : Entity) → same_entity d e ≡ true → d ≡ e
same_entity_is products products h = refl
same_entity_is orders orders h = refl
same_entity_is order_items order_items h = refl
same_entity_is payments payments h = refl
same_entity_is _ _ h = cc

pub names_differ :
    (d e : Entity) → same_entity d e ≡ false → (cursor_name e == cursor_name d) ≡ false
names_differ products products h = cc
names_differ orders orders h = cc
names_differ order_items order_items h = cc
names_differ payments payments h = cc
names_differ _ _ h = refl

-- The cursor of every table stands for what staging shows of it. Keys are unique, no time of update is
-- in the future, and a staged row has the columns of a load.
pub record IsKept (w : World) : Type 0 where
  pub keyed : (e : Entity) → Unique source_id (w.source e)
  pub dated : (e : Entity) (r : SourceRow) → In r (w.source e) → r.updated_at ≤ w.clock
  pub typed : (e : Entity) → HasSchema (spec_of e) (w.staging e)
  pub cursors :
      (e : Entity) (m : WatermarkRow)
      → find name_of (cursor_name e) w.watermarks ≡ some m
      → IsCursor (spec_of e) w.clock (w.source e) (w.staging e) m

-- An extract leaves the cursors of the other tables alone.
pub other_cursor :
    (d e : Entity) (mode : RunMode) (start end : Option ℕ) (now : ℕ) (source : List SourceRow)
    (t : Tables) (m : WatermarkRow)
    → same_entity d e ≡ false
    → find name_of
        (cursor_name e)
        (window_loaded (spec_of d) start end now source t mode m).watermarks
      ≡ find name_of (cursor_name e) t.watermarks
unfolding load_window
other_cursor d e backfill start end now source t m other = refl
other_cursor d e incremental start end now source t m other =
    let upper = upper_bound m.watermark_value source in
    find-map name_of (raise_candidate (cursor_name d) upper) (λ v. ground arith) (cursor_name e)
      t.watermarks
    ∙ untouched upper (find name_of (cursor_name e) t.watermarks) refl
  where
    untouched :
        (upper : ℕ) (o : Option WatermarkRow)
        → find name_of (cursor_name e) t.watermarks ≡ o
        → apply_to name_of (raise_candidate (cursor_name d) upper) o ≡ o
    untouched upper none is = refl
    untouched upper (some v) is =
        let unnamed : (v.pipeline_name == cursor_name d) ≡ false =
          subst (λ n. (n == cursor_name d) ≡ false)
            (sym (key_of_find name_of (cursor_name e) t.watermarks {r = v} is))
            (names_differ d e other) in
        rw unnamed refl

-- The staging tables after an extract of one of them.
pub put_tables_ind :
    (d : Entity) (w : World) (t : Tables) (P : Entity → List StagedRow → Type 0)
    → P d t.staging
    → ((e : Entity) → same_entity d e ≡ false → P e (w.staging e))
    → (e : Entity) → P e ((put_tables d w t).staging e)
put_tables_ind d w t P own others e = elim (Bool-cases (same_entity d e)) [
  | inl this ↦ rw this (subst (λ x. P x t.staging) (same_entity_is d e this) own)
  | inr other ↦ rw other (others e other)
]

put_tables-IsKept :
    (d : Entity) (mode : RunMode) (start end : Option ℕ) (now : ℕ) (w : World) (t' : Tables)
    → extract_incremental (spec_of d) mode start end now (w.source d) (tables_of d w) ≡ ok t'
    → IsKept w
    → IsKept (put_tables d w t')
put_tables-IsKept d mode start end now w t' h k =
    let (m, found, is) =
      extract_incremental_loads (spec_of d) start end now (w.source d) (tables_of d w) mode t' h in
    record {
      keyed = k.keyed;
      dated = k.dated;
      typed =
          put_tables_ind d w t' (λ e rows. HasSchema (spec_of e) rows)
            (extract_incremental-HasSchema (spec_of d) now mode start end (w.source d)
              (tables_of d w) t' (k.typed d) h)
            (λ e other. k.typed e);
      cursors =
          put_tables_ind d w t'
            (λ e rows.
              (v : WatermarkRow)
              → find name_of (cursor_name e) t'.watermarks ≡ some v
              → IsCursor (spec_of e) w.clock (w.source e) rows v)
            (extract_incremental-IsCursor (spec_of d) w.clock (w.source d) now (tables_of d w)
              (k.keyed d) (k.typed d) (k.dated d) mode start end t' h (k.cursors d))
            (λ e other v reached. k.cursors e v (
              sym (other_cursor d e mode start end now (w.source d) (tables_of d w) m other)
              ∙ subst (λ u. find name_of (cursor_name e) u.watermarks ≡ some v) (sym is) reached));
    }

Effect-IsKept : (mode : RunMode) (w w' : World) → Effect mode w w' → IsKept w → IsKept w'
Effect-IsKept mode w w' (unchanged same) k = subst IsKept same k
Effect-IsKept mode w w' (extracted d x) k =
    subst IsKept x.world (put_tables-IsKept d mode x.start x.end x.now w x.tables x.went k)
Effect-IsKept mode w w' (advanced now rows went same) k = subst IsKept same (record {
  keyed = k.keyed;
  dated = k.dated;
  typed = k.typed;
  cursors = λ e m found.
      stepped-IsCursor (spec_of e) w.clock (w.source e) mode now (w.staging e)
        (find name_of (cursor_name e) w.watermarks) (k.cursors e) m
        (sym (find-advance_watermarks mode now (cursor_name e) w.watermarks rows went) ∙ found);
})

module _ (fromisoformat : String → Option ℕ) (timestamptz : String → Option ℕ)
    (uuid : String → ℕ) where
  run_task-IsKept :
      (t : Task) (params : Params) (now : ℕ) (w w' : World)
      → run_task fromisoformat timestamptz uuid t params now w ≡ ok w'
      → IsKept w
      → IsKept w'
  run_task-IsKept t params now w w' h k =
      Effect-IsKept params.run_mode w w'
        (run_task-Effect fromisoformat timestamptz uuid t params now w w' h) k

  changed-IsKept :
      (w : World) (source : Entity → List SourceRow) (clock : ℕ) (customers : List ℕ)
      → Changes fromisoformat timestamptz uuid w source clock
      → IsKept w
      → IsKept (record w { source = source; clock = clock; customers = customers })
  changed-IsKept w source clock customers c k = record {
    keyed = c.keyed;
    dated = c.dated;
    typed = k.typed;
    cursors = λ e m found.
        let old = k.cursors e m found in
        let covered : (limit : ℕ)
            → limit ≤ w.clock
            → Covers (spec_of e) (w.staging e) (w.source e) limit
            → Covers (spec_of e) (w.staging e) (source e) limit =
          λ limit past covers r i below. elim (c.fresh e r i) [
            | inl before ↦ covers r before below
            | inr fresh ↦ absurd (omega arith)
          ] in
        record {
          committed_past = omega (arith, old.committed_past, c.later);
          candidate_past = λ n is. omega (arith, old.candidate_past n is, c.later);
          committed_covered = covered m.watermark_value old.committed_past old.committed_covered;
          candidate_covered =
              λ n is. covered n (old.candidate_past n is) (old.candidate_covered n is);
        };
  }

  Step-IsKept :
      (p q : Pipeline fromisoformat timestamptz uuid)
      → Step fromisoformat timestamptz uuid p q
      → IsKept p.world
      → IsKept q.world
  Step-IsKept p _ (changed source clock customers c) k =
      changed-IsKept p.world source clock customers c k
  Step-IsKept p _ (triggered params) k = k
  Step-IsKept p _ (succeeded t now w ready ran) k = run_task-IsKept t p.params now p.world w ran k
  Step-IsKept p _ (lost t now w ready ran) k = run_task-IsKept t p.params now p.world w ran k

  -- Whatever runs there are, scheduled or backfills, that go through or fail at any task, with the
  -- source changing meanwhile, the cursors go on standing for what staging shows.
  pub Steps-IsKept :
      (p q : Pipeline fromisoformat timestamptz uuid)
      → Steps fromisoformat timestamptz uuid p q
      → IsKept p.world
      → IsKept q.world
  Steps-IsKept p _ begin k = k
  Steps-IsKept p q (next {q = mid} steps step) k =
      Step-IsKept mid q step (Steps-IsKept p mid steps k)

  -- Nothing is skipped: after whatever runs, scheduled or backfills, that go through or fail or lose a
  -- worker at any task, while the source goes on changing, staging shows every source row up to the
  -- committed watermark of its table, if at first the source's keys were unique and none of its rows
  -- was dated after the clock, the staged rows had the columns of a load, and the cursors, committed
  -- and candidate, stood for what staging showed. The changes of the source are to keep its keys
  -- unique and to give a row that appears or changes a time of update after every one before.
  pub Steps-IsStaged :
      (p q : Pipeline fromisoformat timestamptz uuid) (e : Entity) (m : WatermarkRow)
      (r : SourceRow)
      → Steps fromisoformat timestamptz uuid p q
      → IsKept p.world
      → find name_of (cursor_name e) q.world.watermarks ≡ some m
      → In r (q.world.source e)
      → r.updated_at ≤ m.watermark_value
      → IsStaged (spec_of e) (q.world.staging e) r
  Steps-IsStaged p q e m r steps k found i below =
      ((Steps-IsKept p q steps k).cursors e m found).committed_covered r i below
