-- ===== src/Pipeline/Watermark.antt =====
-- The table metadata.etl_watermark and the task `advance_watermarks` of
-- airflow/dags/ecommerce_pipeline.py. A time is a number of microseconds since the year 1.
pub mod Advance
use local_data_platform.Prelude.{
  ℕ, max, String, Bool, true, false, not, ◌&&◌, Option, none, some, List, [], ◌∷◌, map, Result, ok,
  err, ◌==◌, string_eq, is_some, select, any, every, if◌then◌else◌,
}

pub record WatermarkRow : Type 0 where
  pub pipeline_name : String
  pub watermark_value : ℕ
  pub candidate_value : Option ℕ
  pub active : Bool
  pub updated_at : ℕ

abbrev pub name_of : WatermarkRow → String
name_of w = w.pipeline_name

pub data RunMode : Type 0 where
  incremental backfill : RunMode

-- The exceptions of the tasks.
pub data TaskError : Type 0 where
  missing_watermark : String → TaskError
  backfill_bounds_required bad_timestamp backfill_start_not_earlier : TaskError
  incomplete_watermark_batch : List String → TaskError
  data_validation_failed relationship_validation_failed : List String → TaskError

-- `PIPELINE_NAMES`
abbrev pub pipeline_names : List String
pipeline_names =
    "staging_products" ∷ "staging_orders" ∷ "staging_order_items" ∷ "staging_payments" ∷ []

abbrev pub is_member : String → List String → Bool
is_member name names = any (λ n. n == name) names

-- pipeline_name = ANY(names) AND candidate_value IS NOT NULL
abbrev pub is_ready : WatermarkRow → Bool
is_ready w = is_member w.pipeline_name pipeline_names && is_some w.candidate_value

-- `PIPELINE_NAMES - candidates`
unfoldable pub missing_candidates : List WatermarkRow → List String
missing_candidates rows =
    select (λ name. not (is_member name (map name_of (select is_ready rows)))) pipeline_names

-- The SET of the UPDATE.
abbrev pub promote : ℕ → WatermarkRow → WatermarkRow
promote now w = elim w.candidate_value [
  | none ↦ w
  | some candidate ↦ record w {
    watermark_value = max w.watermark_value candidate;
    candidate_value = none;
    updated_at = now;
  }
]

unfoldable pub promote_all : ℕ → List WatermarkRow → List WatermarkRow
promote_all now rows = map (λ w. if is_ready w then promote now w else w) rows

abbrev pub advance_if : List String → ℕ → List WatermarkRow → Result TaskError (List WatermarkRow)
advance_if [] now rows = ok (promote_all now rows)
advance_if (name ∷ names) now rows = err (incomplete_watermark_batch (name ∷ names))

unfoldable pub advance_watermarks :
    RunMode → ℕ → List WatermarkRow → Result TaskError (List WatermarkRow)
unfolding missing_candidates promote_all
advance_watermarks backfill now rows = ok rows
advance_watermarks incremental now rows = advance_if (missing_candidates rows) now rows
