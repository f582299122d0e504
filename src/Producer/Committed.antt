-- ===== src/Producer/Committed.antt =====
-- kafka/producer/publish_orders.py before `advance_watermarks` of airflow/dags/ecommerce_pipeline.py, as
-- the DAG orders them: what the committed cursor of the orders stands for.
use local_data_platform.Prelude.{
  ℕ, max, ◌≤◌, String, ◌≡◌, refl, sym, ap, subst, ◌∙◌, true, leb, Option, none, some, List, arith,
  ok, ok_inj, some_inj, string_eq, In, here, there, inl, inr, ◌⊎◌, Bool-cases,
}
use local_data_platform.Sql.{find, Unique}
use local_data_platform.Pipeline.Watermark.{WatermarkRow, name_of, incremental, advance_watermarks}
use local_data_platform.Pipeline.Watermark.Advance.{advance_watermarks_commits}
use local_data_platform.Pipeline.Extract.{after, up_to}
use local_data_platform.Producer.{
  Arguments, StagedOrder, Event, Fate, acknowledged, bounds, in_bounds, event_of, publish_orders,
}
use local_data_platform.Producer.Delivered.{publish_orders_delivers}

-- A scheduled run: no bounds and no limit.
abbrev pub scheduled : Arguments
scheduled = record { start = none; end = none; limit = none }

bounds_scheduled :
    (fromisoformat : String → Option ℕ) (rows : List WatermarkRow) (w : WatermarkRow) (c : ℕ)
    → find name_of "staging_orders" rows ≡ some w
    → w.candidate_value ≡ some c
    → bounds fromisoformat none none rows ≡ ok (after w.watermark_value, up_to c)
unfolding bounds
bounds_scheduled fromisoformat rows w c found candidate = rw (found, candidate) refl

module _ (fromisoformat : String → Option ℕ) (uuid5 : ℕ → ℕ → String) (fate : Event → Fate)
    (now : StagedOrder → ℕ) (later : ℕ) (rows rows' : List WatermarkRow)
    (orders : List StagedOrder) where
  -- Let the watermark table have one row for each pipeline. If every staged order up to the committed
  -- watermark of the orders was handed over, then after a scheduled run of the producer that succeeds,
  -- with the watermarks advanced after it, so is every staged order up to the new committed
  -- watermark: before, or with an event that the broker acknowledged in this run.
  pub advance_watermarks_published :
      (n : ℕ) (w w' : WatermarkRow) (HandedOver : StagedOrder → Type 0)
      → Unique name_of rows
      → publish_orders fromisoformat uuid5 fate scheduled now rows orders ≡ ok n
      → advance_watermarks incremental later rows ≡ ok rows'
      → find name_of "staging_orders" rows ≡ some w
      → find name_of "staging_orders" rows' ≡ some w'
      → ((o : StagedOrder) → In o orders → o.updated_at ≤ w.watermark_value → HandedOver o)
      → (o : StagedOrder) → In o orders
      → o.updated_at ≤ w'.watermark_value
      → HandedOver o ⊎ (fate (event_of uuid5 now o) ≡ acknowledged)
  advance_watermarks_published n w w' Published u published advanced found found' before o i
        reached =
      let (window, given, counted, each) =
        publish_orders_delivers fromisoformat uuid5 fate scheduled now rows orders n refl
          published in
      let (v, c, is, candidate, is') =
        advance_watermarks_commits later rows rows' u advanced "staging_orders" (there here) in
      let same : v ≡ w = some_inj (sym is ∙ found) in
      let marks : w'.watermark_value ≡ max v.watermark_value c =
        ap WatermarkRow.watermark_value (some_inj (sym found' ∙ is')) in
      let window_is : (after v.watermark_value, up_to c) ≡ window =
        ok_inj (sym (bounds_scheduled fromisoformat rows v c is candidate) ∙ given) in
      elim (Bool-cases (leb o.updated_at v.watermark_value)) [
        | inl old ↦
            inl (before o i (subst (λ x. o.updated_at ≤ x.watermark_value) same (ground arith)))
        | inr new ↦ inr (each o i (subst (λ b. in_bounds b o ≡ true) window_is (ground arith)))
      ]
