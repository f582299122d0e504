-- ===== src/Pipeline/Graph/Barrier.antt =====
-- The fan-in barrier that the task graph of airflow/dags/ecommerce_pipeline.py puts before the
-- commit of the watermarks.
use local_data_platform.Prelude.{
  subst, List, [], ◌∷◌, All, All-In, All-of, In, there, In-cons, inl, inr,
}
use local_data_platform.Pipeline.Graph.{
  Task, validate_run_config, extract_products, extract_orders, extract_order_items,
  extract_payments, validate_record_count, validate_relationships, run_dbt_transform,
  run_iceberg_batch, publish_order_events, advance_watermarks, upstream, DagRun, succeed,
}

-- The succeeded tasks are closed under going upstream.
upstream_closed :
    (done : List Task) → DagRun done → (t : Task) → In t done → All (λ u. In u done) (upstream t)
upstream_closed [] r t i = elim i [ ]
upstream_closed (d ∷ done) (succeed _ r h) t i = All-of _ (upstream t) (λ u j.
    there (elim (In-cons i) [
      | inl e ↦ All-In _ (upstream d) h u (subst (λ x. In u (upstream x)) e j)
      | inr k ↦ All-In _ (upstream t) (upstream_closed done r t k) u j
    ]))

-- In every order in which the scheduler can run the graph, when `advance_watermarks` has
-- succeeded, each of the eleven tasks has: no watermark is committed before both validations
-- and all three sinks have finished.
pub advance_watermarks_last :
    (done : List Task) → DagRun done → In advance_watermarks done → (t : Task) → In t done
advance_watermarks_last done r i = reach
  where
    sinks : All (λ u. In u done) (upstream advance_watermarks)
    sinks = upstream_closed done r advance_watermarks i

    related : In validate_relationships done
    related = (upstream_closed done r run_dbt_transform sinks.0).0

    counted : In validate_record_count done
    counted = (upstream_closed done r validate_relationships related).0

    extracts : All (λ u. In u done) (upstream validate_record_count)
    extracts = upstream_closed done r validate_record_count counted

    reach : (t : Task) → In t done
    reach validate_run_config = (upstream_closed done r extract_products extracts.0).0
    reach extract_products = extracts.0
    reach extract_orders = extracts.1.0
    reach extract_order_items = extracts.1.1.0
    reach extract_payments = extracts.1.1.1.0
    reach validate_record_count = counted
    reach validate_relationships = related
    reach run_dbt_transform = sinks.0
    reach run_iceberg_batch = sinks.1.0
    reach publish_order_events = sinks.1.1.0
    reach advance_watermarks = i
