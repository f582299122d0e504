-- ===== src/Pipeline/Runs/Marks.antt =====
-- How the tasks of airflow/dags/ecommerce_pipeline.py move the cursors on.
use local_data_platform.Prelude.{
  ℕ, ◌≤◌, ◌≡◌, refl, sym, ap, subst, ◌∙◌, Option, some, List, arith, ok, some_inj, nat_eq,
  string_eq, In, inl, inr, ◌⊎◌, Bool-cases,
}
use local_data_platform.Sql.{find}
use local_data_platform.Pipeline.Watermark.{WatermarkRow, name_of, RunMode, incremental, backfill}
use local_data_platform.Pipeline.Watermark.Advance.{
  step, stepped, step_cases, find-advance_watermarks,
}
use local_data_platform.Pipeline.Extract.{SourceRow, Tables, load_window, extract_incremental}
use local_data_platform.Pipeline.Extract.Window.{window_loaded, extract_incremental_loads}
use local_data_platform.Pipeline.Extract.Staged.Complete.{upper_bound_bounds}
use local_data_platform.Pipeline.Runs.{Entity, spec_of, same_entity, World, tables_of, put_tables}
use local_data_platform.Pipeline.Runs.Tasks.{Extracted, Effect, unchanged, extracted, advanced}
use local_data_platform.Pipeline.Runs.Cursors.{raised_to, window_loaded_cursor}
use local_data_platform.Pipeline.Runs.Kept.{cursor_name, same_entity_is, other_cursor}

-- A mark that was reached stays reached: by the committed watermark, or by a candidate.
pub record Moves (m n : WatermarkRow) : Type 0 where
  pub committed : m.watermark_value ≤ n.watermark_value
  pub candidate :
      (c : ℕ)
      → m.candidate_value ≡ some c
      → (c ≤ n.watermark_value) ⊎ ((b : ℕ) × (n.candidate_value ≡ some b) × (c ≤ b))

pub stays : (m : WatermarkRow) → Moves m m
stays m = record { committed = omega arith; candidate = λ c is. inr (c, is, omega arith) }

raised-Moves :
    (source : List SourceRow) (m : WatermarkRow)
    → Moves m (record m { candidate_value = some (raised_to source m) })
raised-Moves source m = record {
  committed = omega arith;
  candidate = λ c is. inr (raised_to source m, refl, rw is (omega arith));
}

pub step-Moves : (now : ℕ) (m : WatermarkRow) → Moves m (step now m)
step-Moves now m = elim (step_cases now m) [
  | inl same ↦ subst (Moves m) (sym same) (stays m)
  | inr (c, is, moved) ↦ subst (Moves m) (sym moved) (record {
    committed = omega arith;
    candidate = λ d at. let same : c ≡ d = some_inj (sym is ∙ at) in inl (omega (arith, same));
  })
]

stepped-Moves :
    (mode : RunMode) (now : ℕ) (m : WatermarkRow)
    → (n : WatermarkRow) × (stepped mode now (some m) ≡ some n) × Moves m n
stepped-Moves backfill now m = (m, refl, stays m)
stepped-Moves incremental now m = (step now m, refl, step-Moves now m)

-- What becomes of the cursors between two states of the tables.
abbrev pub Carries : World → World → Type 0
Carries w w' =
    (e : Entity) (m : WatermarkRow)
    → find name_of (cursor_name e) w.watermarks ≡ some m
    → (n : WatermarkRow) × (find name_of (cursor_name e) w'.watermarks ≡ some n) × Moves m n

pub all_stay : (w : World) → Carries w w
all_stay w e m found = (m, found, stays m)

loaded-Moves :
    (d : Entity) (mode : RunMode) (start end : Option ℕ) (now : ℕ) (source : List SourceRow)
    (t : Tables) (m : WatermarkRow)
    → find name_of (cursor_name d) t.watermarks ≡ some m
    → (n : WatermarkRow) × (find name_of
          (cursor_name d)
          (window_loaded (spec_of d) start end now source t mode m).watermarks
        ≡ some n)
      × Moves m n
loaded-Moves d incremental start end now source t m found =
    (_, window_loaded_cursor (spec_of d) start end now source t m found, raised-Moves source m)
loaded-Moves d backfill start end now source t m found = (m, unfold load_window in found, stays m)

put_tables-Carries :
    (d : Entity) (mode : RunMode) (start end : Option ℕ) (now : ℕ) (w : World) (t' : Tables)
    → extract_incremental (spec_of d) mode start end now (w.source d) (tables_of d w) ≡ ok t'
    → Carries w (put_tables d w t')
put_tables-Carries d mode start end now w t' h e m found =
    let (v, at, is) =
      extract_incremental_loads (spec_of d) start end now (w.source d) (tables_of d w) mode t' h in
    subst
      (λ u. (n : WatermarkRow) × (find name_of (cursor_name e) u.watermarks ≡ some n) × Moves m n)
      is
      (elim (Bool-cases (same_entity d e)) [
        | inl this ↦
            let same = same_entity_is d e this in
            let v_is : v ≡ m = some_inj (
              sym at
              ∙ subst (λ x. find name_of (cursor_name x) w.watermarks ≡ some m) (sym same) found) in
            let t = window_loaded (spec_of d) start end now (w.source d) (tables_of d w) mode v in
            subst
              (λ x.
                (n : WatermarkRow) × (find name_of (cursor_name x) t.watermarks ≡ some n)
                × Moves m n)
              same
              (subst
                (λ y.
                  (n : WatermarkRow) × (find name_of (cursor_name d) t.watermarks ≡ some n)
                  × Moves y n)
                v_is (loaded-Moves d mode start end now (w.source d) (tables_of d w) v at))
        | inr other ↦ (
          m,
          other_cursor d e mode start end now (w.source d) (tables_of d w) v other ∙ found,
          stays m,
        )
      ])

-- A task moves marks on, and leaves the source as it is.
pub record Advances (w w' : World) : Type 0 where
  pub carries : Carries w w'
  pub source : (e : Entity) → w'.source e ≡ w.source e
  pub clock : w'.clock ≡ w.clock

pub Effect-Advances : (mode : RunMode) (w w' : World) → Effect mode w w' → Advances w w'
Effect-Advances mode w w' (unchanged same) =
    subst (Advances w) same (record { carries = all_stay w; source = λ e. refl; clock = refl })
Effect-Advances mode w w' (extracted d x) = subst (Advances w) x.world (record {
  carries = put_tables-Carries d mode x.start x.end x.now w x.tables x.went;
  source = λ e. refl;
  clock = refl;
})
Effect-Advances mode w w' (advanced now rows went same) = subst (Advances w) same (record {
  carries = λ e m found.
      let (n, is, moves) = stepped-Moves mode now m in
      (
        n,
        find-advance_watermarks mode now (cursor_name e) w.watermarks rows went
            ∙ ap (stepped mode now) found
            ∙ is,
        moves,
      );
  source = λ e. refl;
  clock = refl;
})

-- A scheduled extract raises the candidate to every time of update in the source.
pub scheduled_reaches :
    (d : Entity) (w w' : World)
    → Extracted d incremental w w'
    → (m : WatermarkRow) × (c : ℕ) × (find name_of (cursor_name d) w'.watermarks ≡ some m)
      × (m.candidate_value ≡ some c)
      × ((r : SourceRow) → In r (w'.source d) → r.updated_at ≤ c)
scheduled_reaches d w w' x =
    let (m, found, is) =
      extract_incremental_loads (spec_of d) x.start x.end x.now (w.source d) (tables_of d w)
        incremental x.tables x.went in
    let at =
      window_loaded_cursor (spec_of d) x.start x.end x.now (w.source d) (tables_of d w) m found in
    subst
      (λ v.
        (m : WatermarkRow) × (c : ℕ) × (find name_of (cursor_name d) v.watermarks ≡ some m)
        × (m.candidate_value ≡ some c)
        × ((r : SourceRow) → In r (v.source d) → r.updated_at ≤ c))
      x.world
      (
        record m { candidate_value = some (raised_to (w.source d) m) },
        raised_to (w.source d) m,
        subst
            (λ u.
              find name_of (cursor_name d) u.watermarks
              ≡ some (record m { candidate_value = some (raised_to (w.source d) m) }))
            is at,
        refl,
        λ r i. omega (arith, upper_bound_bounds m.watermark_value (w.source d) r i),
      )
