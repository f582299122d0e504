-- ===== src/Pipeline/Extract/Windows.antt =====
-- How the windows of consecutive extracts (airflow/dags/ecommerce_pipeline.py) fit together.
use local_data_platform.Prelude.{ℕ, ◌≤◌, ◌≡◌, false, ◌&&◌, ◌||◌, some, arith}
use local_data_platform.Pipeline.Extract.{SourceRow, at_least, before, after, up_to, in_window}

-- Two backfills that meet at a time select together what one over both intervals selects, and no
-- row twice. Two scheduled windows that meet at a watermark do so too.
pub windows_compose :
    (a b c : ℕ) (r : SourceRow)
    → a ≤ b
    → b ≤ c
    → (in_window (at_least (some a)) (before (some c)) r ≡ (
        in_window (at_least (some a)) (before (some b)) r
        || in_window (at_least (some b)) (before (some c)) r))
      × ((in_window (at_least (some a)) (before (some b)) r
            && in_window (at_least (some b)) (before (some c)) r)
          ≡ false)
      × (in_window (after a) (up_to c) r
          ≡ (in_window (after a) (up_to b) r || in_window (after b) (up_to c) r))
      × ((in_window (after a) (up_to b) r && in_window (after b) (up_to c) r) ≡ false)
windows_compose a b c r h k = (ground arith, ground arith, ground arith, ground arith)
