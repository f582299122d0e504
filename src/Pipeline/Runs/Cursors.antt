-- ===== src/Pipeline/Runs/Cursors.antt =====
-- What a watermark row stands for, and how the extracts and the commit of
-- airflow/dags/ecommerce_pipeline.py keep it.
use local_data_platform.Prelude.{
  ℕ, max, ◌≤◌, ◌≡◌, refl, sym, subst, ◌∙◌, Option, none, some, List, [], ◌∷◌, arith, ok, some_inj,
  nat_eq, string_eq, eq_iff, leb, select, In, here, there, inl, inr, Option-cases, Bool-cases,
}
use local_data_platform.Sql.{find, Unique}
use local_data_platform.Sql.Upsert.{key_of_find}
use local_data_platform.Pipeline.Watermark.{WatermarkRow, name_of, RunMode, incremental, backfill}
use local_data_platform.Pipeline.Watermark.Advance.{step, step_cases, stepped}
use local_data_platform.Pipeline.Extract.{
  SourceRow, StagedRow, TableSpec, pipeline_name, Tables, at_least, before, after, up_to, in_window,
  coalesce, max_updated_at, upper_bound, upsert_all, load_window, extract_incremental,
}
use local_data_platform.Pipeline.Extract.Window.{window_loaded, extract_incremental_loads}
use local_data_platform.Pipeline.Extract.Staged.{source_id, HasSchema, IsStaged}
use local_data_platform.Pipeline.Extract.Staged.Complete.{
  upper_bound_bounds, load_window-IsStaged, raised,
}

-- Staging shows every source row up to a time.
abbrev pub Covers : TableSpec → List StagedRow → List SourceRow → ℕ → Type 0
Covers spec staging source limit =
    (r : SourceRow) → In r source → r.updated_at ≤ limit → IsStaged spec staging r

-- The candidate that an extract sets.
abbrev pub raised_to : List SourceRow → WatermarkRow → ℕ
raised_to source w =
    let upper = upper_bound w.watermark_value source in max (coalesce w.candidate_value upper) upper

pub window_loaded_cursor :
    (spec : TableSpec) (start end : Option ℕ) (now : ℕ) (source : List SourceRow) (t : Tables)
    (w : WatermarkRow)
    → find name_of (pipeline_name spec) t.watermarks ≡ some w
    → find name_of
        (pipeline_name spec)
        (window_loaded spec start end now source t incremental w).watermarks
      ≡ some (record w { candidate_value = some (raised_to source w) })
unfolding load_window
window_loaded_cursor spec start end now source t w found =
    let name = pipeline_name spec in
    let named = (eq_iff w.pipeline_name name).1 (key_of_find name_of name t.watermarks found) in
    raised spec now source t w (upper_bound w.watermark_value source) found ∙ rw named refl

module _ (spec : TableSpec) (clock : ℕ) (source : List SourceRow) where
  -- Neither of the two marks is in the future, and staging covers both.
  pub record IsCursor (staging : List StagedRow) (w : WatermarkRow) : Type 0 where
    pub committed_past : w.watermark_value ≤ clock
    pub candidate_past : (c : ℕ) → w.candidate_value ≡ some c → c ≤ clock
    pub committed_covered : Covers spec staging source w.watermark_value
    pub candidate_covered : (c : ℕ) → w.candidate_value ≡ some c → Covers spec staging source c

  step-IsCursor :
      (now : ℕ) (staging : List StagedRow) (w : WatermarkRow)
      → IsCursor staging w
      → IsCursor staging (step now w)
  step-IsCursor now staging w k = elim (step_cases now w) [
    | inl same ↦ subst (IsCursor staging) (sym same) k
    | inr (c, is, moved) ↦ subst (IsCursor staging) (sym moved) (record {
      committed_past = omega (arith, k.committed_past, k.candidate_past c is);
      candidate_past = λ d h. cc;
      committed_covered = λ r i below. elim (Bool-cases (leb r.updated_at w.watermark_value)) [
        | inl early ↦ k.committed_covered r i (ground arith)
        | inr late ↦ k.candidate_covered c is r i (ground arith)
      ];
      candidate_covered = λ d h. cc;
    })
  ]

  max_updated_at_past :
      (rows : List SourceRow) (t : ℕ)
      → ((r : SourceRow) → In r rows → r.updated_at ≤ clock)
      → max_updated_at rows ≡ some t
      → t ≤ clock
  unfolding max_updated_at
  max_updated_at_past [] t dated h = cc
  max_updated_at_past (r ∷ rows) t dated h = elim (Option-cases (max_updated_at rows)) [
    | inl absent ↦ ground (arith, dated r here, absent)
    | inr (u, is) ↦
        ground (arith, dated r here, is, max_updated_at_past rows u (λ q i. dated q (there i)) is)
  ]

  upper_bound_past :
      (lower : ℕ)
      → lower ≤ clock
      → ((r : SourceRow) → In r source → r.updated_at ≤ clock)
      → upper_bound lower source ≤ clock
  upper_bound_past lower low dated = elim (Option-cases (max_updated_at source)) [
    | inl absent ↦ rw absent low
    | inr (t, is) ↦ rw is (max_updated_at_past source t dated is)
  ]

  -- What the commit does to a cursor.
  pub stepped-IsCursor :
      (mode : RunMode) (now : ℕ) (staging : List StagedRow) (o : Option WatermarkRow)
      → ((w : WatermarkRow) → o ≡ some w → IsCursor staging w)
      → (w : WatermarkRow) → stepped mode now o ≡ some w
      → IsCursor staging w
  stepped-IsCursor backfill now staging o k w h = k w h
  stepped-IsCursor incremental now staging none k w h = cc
  stepped-IsCursor incremental now staging (some v) k w h =
      subst (IsCursor staging) (some_inj h) (step-IsCursor now staging v (k v refl))

  module _ (now : ℕ) (t : Tables) (unique : Unique source_id source)
      (schema : HasSchema spec t.staging)
      (dated : (r : SourceRow) → In r source → r.updated_at ≤ clock) where
    incremental-IsCursor :
        (w w' : WatermarkRow)
        → find name_of (pipeline_name spec) t.watermarks ≡ some w
        → IsCursor t.staging w
        → let upper = upper_bound w.watermark_value source in
          let t' =
            load_window spec incremental now
              (after w.watermark_value)
              (up_to upper)
              upper
              source
              t in
          find name_of (pipeline_name spec) t'.watermarks ≡ some w' → IsCursor t'.staging w'
    unfolding load_window
    incremental-IsCursor w w' found k h =
        let upper = upper_bound w.watermark_value source in
        let past = upper_bound_past w.watermark_value k.committed_past dated in
        let all : (r : SourceRow)
            → In r source
            → IsStaged spec
                (upsert_all spec now
                  (select (in_window (after w.watermark_value) (up_to upper)) source) t.staging)
                r =
          λ r i.
            load_window-IsStaged spec now source t
              (in_window (after w.watermark_value) (up_to upper)) r unique schema
              (λ out.
                k.committed_covered r i
                  (ground (arith, upper_bound_bounds w.watermark_value source r i)))
              i in
        let top = raised_to source w in
        let top_past : top ≤ clock = elim (Option-cases w.candidate_value) [
          | inl absent ↦ ground (arith, past, absent)
          | inr (c, is) ↦ ground (arith, past, is, k.candidate_past c is)
        ] in
        let raised_is : record w { candidate_value = some top } ≡ w' = some_inj (
          sym (window_loaded_cursor spec none none now source t w found)
          ∙ unfold load_window in h) in
        subst
          (IsCursor (
            upsert_all spec now (select (in_window (after w.watermark_value) (up_to upper)) source)
              t.staging))
          raised_is
          (record {
            committed_past = k.committed_past;
            candidate_past = λ c is. subst (λ n. n ≤ clock) (some_inj is) top_past;
            committed_covered = λ r i below. all r i;
            candidate_covered = λ c is r i below. all r i;
          })

    backfill-IsCursor :
        (start end : Option ℕ) (w : WatermarkRow)
        → IsCursor t.staging w
        → IsCursor
            (load_window spec backfill now (at_least start) (before end) 0 source t).staging
            w
    unfolding load_window
    backfill-IsCursor start end w k =
        let kept : (limit : ℕ)
            → Covers spec t.staging source limit
            → Covers spec
                (upsert_all spec now (select (in_window (at_least start) (before end)) source)
                  t.staging)
                source limit =
          λ limit covers r i below.
            load_window-IsStaged spec now source t (in_window (at_least start) (before end)) r
              unique schema (λ out. covers r i below) i in
        record {
          committed_past = k.committed_past;
          candidate_past = k.candidate_past;
          committed_covered = kept w.watermark_value k.committed_covered;
          candidate_covered = λ c is. kept c (k.candidate_covered c is);
        }

    -- What an extract that goes through does to the cursor of its table.
    pub extract_incremental-IsCursor :
        (mode : RunMode) (start end : Option ℕ) (t' : Tables)
        → extract_incremental spec mode start end now source t ≡ ok t'
        → ((w : WatermarkRow)
            → find name_of (pipeline_name spec) t.watermarks ≡ some w
            → IsCursor t.staging w)
        → (w' : WatermarkRow) → find name_of (pipeline_name spec) t'.watermarks ≡ some w'
        → IsCursor t'.staging w'
    extract_incremental-IsCursor mode start end t' h k w' found' =
        let (w, found, is) = extract_incremental_loads spec start end now source t mode t' h in
        subst (λ u. IsCursor u.staging w') is
          (by_mode mode w found
            (subst (λ u. find name_of (pipeline_name spec) u.watermarks ≡ some w') (sym is) found'))
      where
        by_mode :
            (m : RunMode) (w : WatermarkRow)
            → find name_of (pipeline_name spec) t.watermarks ≡ some w
            → find name_of
                (pipeline_name spec)
                (window_loaded spec start end now source t m w).watermarks
              ≡ some w'
            → IsCursor (window_loaded spec start end now source t m w).staging w'
        by_mode incremental w found h = incremental-IsCursor w w' found (k w found) h
        by_mode backfill w found h =
            subst (IsCursor (window_loaded spec start end now source t backfill w).staging)
              (some_inj (sym found ∙ unfold load_window in h))
              (backfill-IsCursor start end w (k w found))
