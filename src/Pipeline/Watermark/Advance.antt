-- ===== src/Pipeline/Watermark/Advance.antt =====
-- What `advance_watermarks` (airflow/dags/ecommerce_pipeline.py) does to each cursor.
use local_data_platform.Prelude.{
  ℕ, ◌≤◌, max, String, ◌≡◌, ◌≢◌, refl, true, false, not, Option, none, some, List, [], ◌∷◌, map,
  arith, ok, err, string_eq, is_some, select, ◌⊎◌, if◌then◌else◌, inl, inr, Option-cases,
  Bool-cases, ok_inj, sym, ap, ◌∙◌, some_inj, In, select-eq-nil,
}
use local_data_platform.Sql.{find, Unique}
use local_data_platform.Sql.Selection.{find-select, passing, find-map, apply_to, any-key}
use local_data_platform.Pipeline.Watermark.{
  WatermarkRow, name_of, RunMode, incremental, backfill, TaskError, pipeline_names, is_member,
  is_ready, missing_candidates, promote, promote_all, advance_if, advance_watermarks,
}

pub step : ℕ → WatermarkRow → WatermarkRow
step now w = if is_ready w then promote now w else w

step-name : (now : ℕ) (w : WatermarkRow) → name_of (step now w) ≡ name_of w
unfolding step
step-name now w = ground arith

pub step-promoted :
    (now : ℕ) (w : WatermarkRow) (c : ℕ)
    → w.candidate_value ≡ some c
    → is_ready w ≡ true
    → step now w ≡ record w {
      watermark_value = max w.watermark_value c;
      candidate_value = none;
      updated_at = now;
    }
unfolding step
step-promoted now w c p ready = ground arith

-- A cursor stays, or moves to its candidate.
pub step_cases :
    (now : ℕ) (w : WatermarkRow)
    → (step now w ≡ w)
      ⊎ ((c : ℕ) × (w.candidate_value ≡ some c)
          × (step now w ≡ record w {
            watermark_value = max w.watermark_value c;
            candidate_value = none;
            updated_at = now;
          }))
unfolding step
step_cases now w = elim (Option-cases w.candidate_value) [
  | inl absent ↦ inl (ground (arith, absent))
  | inr (c, is) ↦ elim (Bool-cases (is_ready w)) [
    | inl ready ↦ inr (c, is, step-promoted now w c is ready)
    | inr unready ↦ inl (rw unready refl)
  ]
]

find-promote_all :
    (now : ℕ) (name : String) (rows : List WatermarkRow)
    → find name_of name (promote_all now rows)
      ≡ apply_to name_of (step now) (find name_of name rows)
unfolding promote_all step
find-promote_all now name rows = find-map name_of (step now) (step-name now) name rows

advance_ok :
    (missing : List String) (now : ℕ) (rows rows' : List WatermarkRow)
    → advance_if missing now rows ≡ ok rows'
    → (missing ≡ []) × (rows' ≡ promote_all now rows)
advance_ok [] now rows rows' h = (refl, sym (ok_inj h))
advance_ok (n ∷ ns) now rows rows' h = cc

-- The cursor of a name after a run that is committed.
abbrev pub stepped : RunMode → ℕ → Option WatermarkRow → Option WatermarkRow
stepped backfill now o = o
stepped incremental now o = apply_to name_of (step now) o

pub find-advance_watermarks :
    (mode : RunMode) (now : ℕ) (name : String) (rows rows' : List WatermarkRow)
    → advance_watermarks mode now rows ≡ ok rows'
    → find name_of name rows' ≡ stepped mode now (find name_of name rows)
unfolding advance_watermarks
find-advance_watermarks backfill now name rows rows' h = ap (find name_of name) (sym (ok_inj h))
find-advance_watermarks incremental now name rows rows' h =
    ap (find name_of name) (advance_ok (missing_candidates rows) now rows rows' h).1
    ∙ find-promote_all now name rows

candidate_of :
    (o : Option WatermarkRow)
    → is_some (passing name_of is_ready o) ≡ true
    → (w : WatermarkRow) × (c : ℕ) × (o ≡ some w)
      × (w.candidate_value ≡ some c)
      × (is_ready w ≡ true)
candidate_of none h = cc
candidate_of (some w) h = elim (Option-cases w.candidate_value) [
  | inl p ↦ absurd (ground arith)
  | inr (c, p) ↦ (w, c, refl, p, ground arith)
]

-- A pipeline that is not missing has a row with a candidate.
found_ready :
    (rows : List WatermarkRow) (name : String)
    → Unique name_of rows
    → missing_candidates rows ≡ []
    → In name pipeline_names
    → (w : WatermarkRow) × (c : ℕ) × (find name_of name rows ≡ some w)
      × (w.candidate_value ≡ some c)
      × (is_ready w ≡ true)
unfolding missing_candidates
found_ready rows name u h i =
    let present =
      select-eq-nil (λ n. not (is_member n (map name_of (select is_ready rows)))) pipeline_names
        name h i in
    candidate_of (find name_of name rows) (
      rw (← find-select name_of is_ready name rows u, ← any-key name_of name (select is_ready rows))
        (ground arith))

module _ (now : ℕ) (rows rows' : List WatermarkRow) where
  -- With one row for each pipeline, an incremental run that is committed moves every one of the four cursors to its candidate, or
  -- leaves it if it is further, and clears the candidate.
  pub advance_watermarks_commits :
      Unique name_of rows
      → advance_watermarks incremental now rows ≡ ok rows'
      → (name : String) → In name pipeline_names
      → (w : WatermarkRow) × (c : ℕ) × (find name_of name rows ≡ some w)
        × (w.candidate_value ≡ some c)
        × (find name_of name rows'
            ≡ some (record w {
              watermark_value = max w.watermark_value c;
              candidate_value = none;
              updated_at = now;
            }))
  unfolding advance_watermarks
  advance_watermarks_commits u h name i =
      let (complete, is) = advance_ok (missing_candidates rows) now rows rows' h in
      let (w, c, p, q, ready) = found_ready rows name u complete i in
      (
        w,
        c,
        p,
        q,
        ap (find name_of name) is
            ∙ find-promote_all now name rows
            ∙ ap (apply_to name_of (step now)) p
            ∙ ap some (step-promoted now w c q ready),
      )

missing_or_some :
    (rows : List WatermarkRow) (name : String)
    → Unique name_of rows
    → In name pipeline_names
    → (find name_of name rows ≡ none)
      ⊎ ((w : WatermarkRow) × (find name_of name rows ≡ some w) × (w.candidate_value ≡ none))
    → missing_candidates rows ≢ []
missing_or_some rows name u i (inl absent) h =
    let (w, c, p, q, r) = found_ready rows name u h i in cc
missing_or_some rows name u i (inr (v, found, empty)) h =
    let (w, c, p, q, r) = found_ready rows name u h i in
    let same : v ≡ w = some_inj (sym found ∙ p) in
    cc (ap (λ (x : WatermarkRow). x.candidate_value) same)

-- An incremental run of which a pipeline has no row or no candidate is refused, with no cursor moved.
pub advance_watermarks_refuses :
    (now : ℕ) (rows : List WatermarkRow) (name : String)
    → Unique name_of rows
    → In name pipeline_names
    → (find name_of name rows ≡ none)
      ⊎ ((w : WatermarkRow) × (find name_of name rows ≡ some w) × (w.candidate_value ≡ none))
    → (e : TaskError) × (advance_watermarks incremental now rows ≡ err e)
unfolding advance_watermarks
advance_watermarks_refuses now rows name u i lacks =
    go (missing_candidates rows) (missing_or_some rows name u i lacks)
  where
    go : (ns : List String) → ns ≢ [] → (e : TaskError) × (advance_if ns now rows ≡ err e)
    go [] h = absurd (h refl)
    go (n ∷ ns) h = (_, refl)

-- Whatever the mode, a run that is committed moves no cursor back, and a row outside of the four
-- pipelines keeps every field.
pub advance_watermarks_monotone :
    (mode : RunMode) (now : ℕ) (rows rows' : List WatermarkRow) (name : String) (w : WatermarkRow)
    → advance_watermarks mode now rows ≡ ok rows'
    → find name_of name rows ≡ some w
    → (w' : WatermarkRow) × (find name_of name rows' ≡ some w')
      × (w.watermark_value ≤ w'.watermark_value)
      × (is_member w.pipeline_name pipeline_names ≡ false → w' ≡ w)
unfolding advance_watermarks
advance_watermarks_monotone backfill now rows rows' name w h p =
    (w, rw (← ok_inj h) p, omega arith, λ _. refl)
advance_watermarks_monotone incremental now rows rows' name w h p =
    let (complete, is) = advance_ok (missing_candidates rows) now rows rows' h in
    (
      step now w,
      ap (find name_of name) is
          ∙ find-promote_all now name rows
          ∙ ap (apply_to name_of (step now)) p,
      unfold step in ground arith,
      λ outside. unfold step in rw outside,
    )
