-- ===== src/Pipeline/Runs/CaughtUp.antt =====
-- A scheduled run of airflow/dags/ecommerce_pipeline.py that goes through catches up with the source.
use local_data_platform.Prelude.{
  ℕ, ◌≤◌, String, ◌≡◌, refl, sym, ap, subst, ◌∙◌, Option, some, [], ◌∷◌, arith, ok, bind-eq-ok,
  ok_inj, nat_eq, string_eq, All, In, In-cons, inl, inr,
}
use local_data_platform.Sql.{find}
use local_data_platform.Pipeline.Watermark.{
  WatermarkRow, name_of, RunMode, incremental, backfill, TaskError, is_ready, is_member,
  pipeline_names,
}
use local_data_platform.Pipeline.Watermark
use local_data_platform.Pipeline.Watermark.Advance.{step}
use local_data_platform.Pipeline.Extract.{SourceRow}
use local_data_platform.Pipeline.Extract.Staged.{IsStaged}
use local_data_platform.Pipeline.Config.{Params}
use local_data_platform.Pipeline.Graph
use local_data_platform.Pipeline.Graph.{Task, upstream, DagRun, started, succeed}
use local_data_platform.Pipeline.Graph.Barrier.{advance_watermarks_last}
use local_data_platform.Pipeline.Runs.{
  Entity, products, orders, order_items, payments, spec_of, World, run_task, Pipeline, Step,
  changed, triggered, succeeded, lost, Steps, begin, next,
}
use local_data_platform.Pipeline.Runs.Kept.{cursor_name, IsKept, Steps-IsStaged}
use local_data_platform.Pipeline.Runs.Tasks.{Extracted, extract-Extracted, run_task-Effect}
use local_data_platform.Pipeline.Runs.Marks.{stays, Carries, scheduled_reaches, Effect-Advances}
use local_data_platform.Pipeline.Runs.Reached.{
  task_of, IsReached, IsCommitted, IsReached-Moves, IsCommitted-Moves, not_advance,
  advance-IsCommitted,
}

module _ (w w' : World) (began : ℕ)
    (back : (e : Entity) (r : SourceRow)
      → In r (w'.source e)
      → r.updated_at ≤ began
      → In r (w.source e))
    (carries : Carries w w') where
  carried_reached : (e : Entity) → IsReached w began e → IsReached w' began e
  carried_reached e k =
      let (n, found, moves) = carries e k.cursor k.found in
      IsReached-Moves w w' began e n (back e) k found moves

  carried_committed : (e : Entity) → IsCommitted w began e → IsCommitted w' began e
  carried_committed e k =
      let (n, found, moves) = carries e k.cursor k.found in
      IsCommitted-Moves w w' began e n (back e) k found moves

module _ (fromisoformat : String → Option ℕ) (timestamptz : String → Option ℕ)
    (uuid : String → ℕ) where
  task_of-Extracted :
      (e : Entity) (params : Params) (now : ℕ) (w w' : World)
      → run_task fromisoformat timestamptz uuid (task_of e) params now w ≡ ok w'
      → Extracted e params.run_mode w w'
  unfolding run_task
  task_of-Extracted products params now w w' h =
      extract-Extracted fromisoformat timestamptz uuid products params now w w' h
  task_of-Extracted orders params now w w' h =
      extract-Extracted fromisoformat timestamptz uuid orders params now w w' h
  task_of-Extracted order_items params now w w' h =
      extract-Extracted fromisoformat timestamptz uuid order_items params now w w' h
  task_of-Extracted payments params now w w' h =
      extract-Extracted fromisoformat timestamptz uuid payments params now w w' h

  extracted_reached :
      (e : Entity) (params : Params) (now : ℕ) (w w' : World) (began : ℕ)
      → run_task fromisoformat timestamptz uuid (task_of e) params now w ≡ ok w'
      → params.run_mode ≡ incremental
      → IsReached w' began e
  extracted_reached e params now w w' began h scheduled =
      let x =
        subst (λ mode. Extracted e mode w w') scheduled (task_of-Extracted e params now w w' h) in
      let (m, c, found, is, all) = scheduled_reaches e w w' x in
      record { cursor = m; found = found; old = inr (c, is, λ r i early. all r i) }

  advanced_committed :
      (e : Entity) (params : Params) (now : ℕ) (w w' : World) (began : ℕ)
      → run_task fromisoformat timestamptz uuid Graph.advance_watermarks params now w ≡ ok w'
      → params.run_mode ≡ incremental
      → IsReached w began e
      → IsCommitted w' began e
  unfolding run_task
  advanced_committed e params now w w' began h scheduled k =
      let (rows, advanced, done) =
        bind-eq-ok (Watermark.advance_watermarks params.run_mode now w.watermarks) _ h in
      let same = ok_inj done in
      advance-IsCommitted now w w' rows began e
        (subst (λ mode. Watermark.advance_watermarks mode now w.watermarks ≡ ok rows) scheduled
          advanced)
        (ap (λ (v : World). v.watermarks) (sym same)) (ap (λ (v : World). v.source e) (sym same)) k

  -- What a scheduled run has achieved, by the tasks that have succeeded.
  record InRun (p : Pipeline fromisoformat timestamptz uuid) : Type 0 where
    pub chain : DagRun p.done
    pub past : p.began ≤ p.world.clock
    pub reached :
        p.params.run_mode ≡ incremental
        → (e : Entity) → In (task_of e) p.done
        → IsReached p.world p.began e
    pub committed :
        p.params.run_mode ≡ incremental
        → In Graph.advance_watermarks p.done
        → (e : Entity) → IsCommitted p.world p.began e

  -- The world moves on under a run.
  carried :
      (p : Pipeline fromisoformat timestamptz uuid) (w' : World)
      → ((e : Entity) (r : SourceRow)
          → In r (w'.source e)
          → r.updated_at ≤ p.began
          → In r (p.world.source e))
      → Carries p.world w'
      → p.began ≤ w'.clock
      → InRun p
      → InRun (record p { world = w' })
  carried p w' back carries past k = record {
    chain = k.chain;
    past = past;
    reached = λ scheduled e i.
        carried_reached p.world w' p.began back carries e (k.reached scheduled e i);
    committed = λ scheduled i e.
        carried_committed p.world w' p.began back carries e (k.committed scheduled i e);
  }

  ran :
      (p : Pipeline fromisoformat timestamptz uuid) (t : Task) (now : ℕ) (w' : World)
      → run_task fromisoformat timestamptz uuid t p.params now p.world ≡ ok w'
      → InRun p
      → InRun (record p { world = w' })
  ran p t now w' h k =
      let a =
        Effect-Advances p.params.run_mode p.world w'
          (run_task-Effect fromisoformat timestamptz uuid t p.params now p.world w' h) in
      carried p w' (λ e r i early. subst (In r) (a.source e) i) a.carries
        (subst (λ n. p.began ≤ n) (sym a.clock) k.past) k

  succeeded-InRun :
      (p : Pipeline fromisoformat timestamptz uuid) (t : Task) (now : ℕ) (w' : World)
      → All (λ u. In u p.done) (upstream t)
      → run_task fromisoformat timestamptz uuid t p.params now p.world ≡ ok w'
      → InRun p
      → InRun (record p { world = w'; done = t ∷ p.done })
  succeeded-InRun p t now w' ready h k =
      let on = ran p t now w' h k in
      let longer = succeed t k.chain ready in
      record {
        chain = longer;
        past = on.past;
        reached = λ scheduled e i. elim (In-cons i) [
          | inl this ↦
              extracted_reached e p.params now p.world w' p.began
                (subst (λ u. run_task fromisoformat timestamptz uuid u p.params now p.world ≡ ok w')
                  (sym this) h)
                scheduled
          | inr earlier ↦ on.reached scheduled e earlier
        ];
        committed = λ scheduled i e. elim (In-cons i) [
          | inl this ↦ elim (In-cons (advance_watermarks_last (t ∷ p.done) longer i (task_of e))) [
            | inl both ↦ absurd (not_advance e (both ∙ sym this))
            | inr earlier ↦
                advanced_committed e p.params now p.world w' p.began
                  (subst
                    (λ u. run_task fromisoformat timestamptz uuid u p.params now p.world ≡ ok w')
                    (sym this) h)
                  scheduled (k.reached scheduled e earlier)
          ]
          | inr earlier ↦ on.committed scheduled earlier e
        ];
      }

  idle :
      (p : Pipeline fromisoformat timestamptz uuid)
      → p.done ≡ []
      → p.began ≤ p.world.clock
      → InRun p
  idle p empty past = record {
    chain = subst DagRun (sym empty) started;
    past = past;
    reached = λ scheduled e i. elim (subst (In (task_of e)) empty i) [ ];
    committed = λ scheduled i e. elim (subst (In Graph.advance_watermarks) empty i) [ ];
  }

  Step-InRun :
      (p q : Pipeline fromisoformat timestamptz uuid)
      → Step fromisoformat timestamptz uuid p q
      → InRun p
      → InRun q
  Step-InRun p _ (changed source clock customers c) k =
      carried p (record p.world { source = source; clock = clock; customers = customers })
        (λ e r i early. elim (c.fresh e r i) [
          | inl before ↦ before
          | inr fresh ↦ absurd (omega (arith, k.past))
        ])
        (λ e m found. (m, found, stays m)) (omega (arith, k.past, c.later)) k
  Step-InRun p _ (triggered params) k =
      idle (record p { params = params; began = p.world.clock; done = [] }) refl (omega arith)
  Step-InRun p _ (succeeded t now w ready h) k = succeeded-InRun p t now w ready h k
  Step-InRun p _ (lost t now w ready h) k = ran p t now w h k

  Steps-InRun :
      (p q : Pipeline fromisoformat timestamptz uuid)
      → Steps fromisoformat timestamptz uuid p q
      → InRun p
      → InRun q
  Steps-InRun p _ begin k = k
  Steps-InRun p q (next {q = mid} steps step) k = Step-InRun mid q step (Steps-InRun p mid steps k)

  -- Nothing is left behind: when the commit of a scheduled run has succeeded, each source row that was
  -- last updated before the run began is staged, and its table's committed watermark has reached it,
  -- whatever runs there were before, whatever the source does meanwhile, and whichever tasks lose a
  -- worker. At first no task of a run was done and none had begun in the future, the source's keys
  -- were unique and none of its rows was dated after the clock, the staged rows had the columns of a
  -- load, and the cursors stood for what staging showed. The changes of the source are to keep its
  -- keys unique and to give a row that appears or changes a time of update after every one before.
  pub Steps_catch_up :
      (p q : Pipeline fromisoformat timestamptz uuid) (e : Entity) (r : SourceRow)
      → Steps fromisoformat timestamptz uuid p q
      → IsKept p.world
      → p.done ≡ []
      → p.began ≤ p.world.clock
      → q.params.run_mode ≡ incremental
      → In Graph.advance_watermarks q.done
      → In r (q.world.source e)
      → r.updated_at ≤ q.began
      → IsStaged (spec_of e) (q.world.staging e) r
        × (m : WatermarkRow) × (find name_of (cursor_name e) q.world.watermarks ≡ some m)
        × (r.updated_at ≤ m.watermark_value)
  Steps_catch_up p q e r steps kept empty past scheduled done i early =
      let k = (Steps-InRun p q steps (idle p empty past)).committed scheduled done e in
      let below = k.old r i early in
      (
        Steps-IsStaged fromisoformat timestamptz uuid p q e k.cursor r steps kept k.found i below,
        k.cursor,
        k.found,
        below,
      )
