-- ===== src/Pipeline/Runs/Reached.antt =====
-- How far the cursors of airflow/dags/ecommerce_pipeline.py have come in a scheduled run.
use local_data_platform.Prelude.{
  ℕ, ◌≤◌, ◌≡◌, refl, ap, subst, ◌∙◌, true, ◌&&◌, some, List, arith, ok, nat_eq, string_eq, In, inl,
  inr, ◌⊎◌,
}
use local_data_platform.Sql.{find}
use local_data_platform.Sql.Upsert.{key_of_find}
use local_data_platform.Pipeline.Watermark.{
  WatermarkRow, name_of, RunMode, incremental, backfill, TaskError, is_ready, is_member,
  pipeline_names,
}
use local_data_platform.Pipeline.Watermark
use local_data_platform.Pipeline.Watermark.Advance.{
  step, stepped, step-promoted, find-advance_watermarks,
}
use local_data_platform.Pipeline.Extract.{SourceRow}
use local_data_platform.Pipeline.Graph
use local_data_platform.Pipeline.Graph.{Task, upstream, DagRun, started, succeed}
use local_data_platform.Pipeline.Runs.{Entity, products, orders, order_items, payments, World}
use local_data_platform.Pipeline.Runs.Kept.{cursor_name}
use local_data_platform.Pipeline.Runs.Marks.{Moves, step-Moves}

abbrev pub task_of : Entity → Task
task_of products = Graph.extract_products
task_of orders = Graph.extract_orders
task_of order_items = Graph.extract_order_items
task_of payments = Graph.extract_payments

-- The rows of the source that are older than the run lie at or below a mark.
abbrev pub OldUpTo : World → ℕ → Entity → ℕ → Type 0
OldUpTo w began e mark =
    (r : SourceRow) → In r (w.source e) → r.updated_at ≤ began → r.updated_at ≤ mark

pub record IsReached (w : World) (began : ℕ) (e : Entity) : Type 0 where
  pub cursor : WatermarkRow
  pub found : find name_of (cursor_name e) w.watermarks ≡ some cursor
  pub old :
      OldUpTo w began e cursor.watermark_value
      ⊎ ((c : ℕ) × (cursor.candidate_value ≡ some c) × OldUpTo w began e c)

pub record IsCommitted (w : World) (began : ℕ) (e : Entity) : Type 0 where
  pub cursor : WatermarkRow
  pub found : find name_of (cursor_name e) w.watermarks ≡ some cursor
  pub old : OldUpTo w began e cursor.watermark_value

-- A mark further on, in a source that has no other old rows.
further :
    (w w' : World) (began : ℕ) (e : Entity) (mark mark' : ℕ)
    → ((r : SourceRow) → In r (w'.source e) → r.updated_at ≤ began → In r (w.source e))
    → mark ≤ mark'
    → OldUpTo w began e mark
    → OldUpTo w' began e mark'
further w w' began e mark mark' back far old r i early = omega (arith, old r (back r i early) early)

pub IsReached-Moves :
    (w w' : World) (began : ℕ) (e : Entity) (n : WatermarkRow)
    → ((r : SourceRow) → In r (w'.source e) → r.updated_at ≤ began → In r (w.source e))
    → (k : IsReached w began e) → find name_of (cursor_name e) w'.watermarks ≡ some n
    → Moves k.cursor n
    → IsReached w' began e
IsReached-Moves w w' began e n back k found moves = record {
  cursor = n;
  found = found;
  old = elim k.old [
    | inl old ↦
        inl
          (further w w' began e k.cursor.watermark_value n.watermark_value back moves.committed old)
    | inr (c, is, old) ↦ elim (moves.candidate c is) [
      | inl below ↦ inl (further w w' began e c n.watermark_value back below old)
      | inr (b, at, below) ↦ inr (b, at, further w w' began e c b back below old)
    ]
  ];
}

pub IsCommitted-Moves :
    (w w' : World) (began : ℕ) (e : Entity) (n : WatermarkRow)
    → ((r : SourceRow) → In r (w'.source e) → r.updated_at ≤ began → In r (w.source e))
    → (k : IsCommitted w began e) → find name_of (cursor_name e) w'.watermarks ≡ some n
    → Moves k.cursor n
    → IsCommitted w' began e
IsCommitted-Moves w w' began e n back k found moves = record {
  cursor = n;
  found = found;
  old = further w w' began e k.cursor.watermark_value n.watermark_value back moves.committed k.old;
}

is_member_cursor : (e : Entity) → is_member (cursor_name e) pipeline_names ≡ true
is_member_cursor products = refl
is_member_cursor orders = refl
is_member_cursor order_items = refl
is_member_cursor payments = refl

pub not_advance : (e : Entity) → task_of e ≡ Graph.advance_watermarks → ⊥
not_advance products h = cc
not_advance orders h = cc
not_advance order_items h = cc
not_advance payments h = cc

-- The commit turns a mark that was reached into a committed one.
pub advance-IsCommitted :
    (now : ℕ) (w w' : World) (rows : List WatermarkRow) (began : ℕ) (e : Entity)
    → Watermark.advance_watermarks incremental now w.watermarks ≡ ok rows
    → w'.watermarks ≡ rows
    → w'.source e ≡ w.source e
    → IsReached w began e
    → IsCommitted w' began e
advance-IsCommitted now w w' rows began e advanced rows_are same k =
    let name = cursor_name e in
    let m = k.cursor in
    let back : (r : SourceRow) → In r (w'.source e) → r.updated_at ≤ began → In r (w.source e) =
      λ r i early. subst (In r) same i in
    record {
      cursor = step now m;
      found =
          ap (find name_of name) rows_are
          ∙ find-advance_watermarks incremental now name w.watermarks rows advanced
          ∙ ap (stepped incremental now) k.found;
      old = elim k.old [
        | inl old ↦
            further w w' began e m.watermark_value (step now m).watermark_value back
              (step-Moves now m).committed old
        | inr (c, is, old) ↦
            let ready : is_ready m ≡ true =
              rw (key_of_find name_of name w.watermarks {r = m} k.found, is)
                (ap (λ b. b && true) (is_member_cursor e)) in
            further w w' began e c (step now m).watermark_value back
              (rw (step-promoted now m c is ready) (omega arith)) old
      ];
    }
