-- ===== src/Pipeline.antt =====
-- The daily orchestration (airflow/dags/ecommerce_pipeline.py).
pub mod Watermark
pub mod Extract
pub mod Config
pub mod Checks
pub mod Graph
pub mod Runs
mod Tests
