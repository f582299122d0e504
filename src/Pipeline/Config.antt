-- ===== src/Pipeline/Config.antt =====
-- The task `validate_run_config` of airflow/dags/ecommerce_pipeline.py, and the arguments that the
-- task `publish_order_events` hands to the producer. `datetime.fromisoformat` is a parameter.
use Prim.Native.Char.{code}
use Prim.Native.String.{◌++◌ as ◌<>◌}
use local_data_platform.Prelude.{
  ℕ, ◌<◌, String, ◌≡◌, refl, Option, none, some, List, [], ◌∷◌, arith, Result, ok, err, ◌==◌,
  nat_eq, leb, if◌then◌else◌,
}
use local_data_platform.Pipeline.Watermark.{
  RunMode, incremental, backfill, TaskError, backfill_bounds_required, bad_timestamp,
  backfill_start_not_earlier,
}

pub record Params : Type 0 where
  pub run_mode : RunMode
  pub backfill_start : Option String
  pub backfill_end : Option String

-- `text.replace("Z", "+00:00")`
unfoldable pub replace_z : String → String
replace_z String.[] = String.[]
replace_z (String.◌∷◌ c s) =
    (if code c == b'Z' then "+00:00" else String.◌∷◌ c String.[]) <> replace_z s

abbrev pub compare_bounds : Option ℕ → Option ℕ → Result TaskError (Unit {0})
compare_bounds (some start) (some end) =
    if leb end start then err backfill_start_not_earlier else ok tt
compare_bounds _ _ = err bad_timestamp

abbrev pub required_bounds :
    (String → Option ℕ) → Option String → Option String → Result TaskError (Unit {0})
required_bounds parse (some start) (some end) =
    compare_bounds (parse (replace_z start)) (parse (replace_z end))
required_bounds parse _ _ = err backfill_bounds_required

module _ (fromisoformat : String → Option ℕ) where
  unfoldable pub validate_run_config : Params → Result TaskError (Unit {0})
  validate_run_config params = elim params.run_mode [
    | incremental ↦ ok tt
    | backfill ↦ required_bounds fromisoformat params.backfill_start params.backfill_end
  ]

  -- What an accepted backfill configuration is: both bounds are given, they parse, and the start is
  -- strictly earlier than the end.
  pub record IsBackfill (params : Params) : Type 0 where
    pub start_text : String
    pub end_text : String
    pub start : ℕ
    pub end : ℕ
    pub given_start : params.backfill_start ≡ some start_text
    pub given_end : params.backfill_end ≡ some end_text
    pub parsed_start : fromisoformat (replace_z start_text) ≡ some start
    pub parsed_end : fromisoformat (replace_z end_text) ≡ some end
    pub ordered : start < end

  bounds_ordered :
      (o p : Option ℕ)
      → compare_bounds o p ≡ ok tt
      → (a : ℕ) × (b : ℕ) × (o ≡ some a) × (p ≡ some b) × (a < b)
  bounds_ordered none p h = cc
  bounds_ordered (some a) none h = cc
  bounds_ordered (some a) (some b) h = (a, b, refl, refl, ground arith)

  bounds_given :
      (o p : Option String)
      → required_bounds fromisoformat o p ≡ ok tt
      → (s : String) × (e : String) × (a : ℕ) × (b : ℕ) × (o ≡ some s)
        × (p ≡ some e)
        × (fromisoformat (replace_z s) ≡ some a)
        × (fromisoformat (replace_z e) ≡ some b)
        × (a < b)
  bounds_given none p h = cc
  bounds_given (some s) none h = cc
  bounds_given (some s) (some e) h =
      let (a, b, p, q, lt) =
        bounds_ordered (fromisoformat (replace_z s)) (fromisoformat (replace_z e)) h in
      (s, e, a, b, refl, refl, p, q, lt)

  -- A backfill run that passes the check has both bounds, which parse to a nonempty interval.
  pub validate_run_config_sound :
      (params : Params)
      → params.run_mode ≡ backfill
      → validate_run_config params ≡ ok tt
      → IsBackfill params
  unfolding validate_run_config
  validate_run_config_sound params m h =
      let (s, e, a, b, gs, ge, ps, pe, lt) =
        bounds_given params.backfill_start params.backfill_end (rw (m, validate_run_config) at h) in
      record {
        start_text = s;
        end_text = e;
        start = a;
        end = b;
        given_start = gs;
        given_end = ge;
        parsed_start = ps;
        parsed_end = pe;
        ordered = lt;
      }

-- The command line of `publish_order_events`; a missing bound would end the task with a TypeError.
unfoldable pub producer_arguments : Params → Option (List String)
producer_arguments params = elim params.run_mode [
  | incremental ↦ some []
  | backfill ↦ elim params.backfill_start [
    | none ↦ none
    | some start ↦ elim params.backfill_end [
      | none ↦ none
      | some end ↦ some ("--start" ∷ start ∷ "--end" ∷ end ∷ [])
    ]
  ]
]
