-- ===== src/Producer/Delivered.antt =====
-- What the success of kafka/producer/publish_orders.py means.
use local_data_platform.Prelude.{
  ℕ, suc, zero, String, ◌≡◌, refl, sym, ap, ◌∙◌, true, Option, none, List, [], ◌∷◌, map, arith, ok,
  bind-eq-ok, In, here, there, In-cons, inl, inr, length, length-map, select, In-select, Bool-cases,
}
use local_data_platform.Pipeline.Watermark.{WatermarkRow}
use local_data_platform.Pipeline.Extract.{Bound}
use local_data_platform.Producer.{
  Arguments, StagedOrder, Event, Fate, acknowledged, rejected, unanswered, bounds, insert_sorted,
  order_by, in_bounds, query, not_after, event_of, limited, tally_fate, deliver, outcome,
  publish_orders,
}

outcome_ok :
    (t : ℕ × List String × ℕ) (n : ℕ) → outcome t ≡ ok n → (t.0 ≡ n) × (t.1 ≡ []) × (t.2 ≡ 0)
outcome_ok (delivered, [], zero) n h = (ground arith, refl, refl)
outcome_ok (delivered, e ∷ es, zero) n h = cc
outcome_ok (delivered, [], suc r) n h = cc
outcome_ok (delivered, e ∷ es, suc r) n h = cc

tally_clean :
    (f : Fate) (t : ℕ × List String × ℕ)
    → (tally_fate f t).1 ≡ []
    → (tally_fate f t).2 ≡ 0
    → (f ≡ acknowledged) × (t.1 ≡ []) × (t.2 ≡ 0) × ((tally_fate f t).0 ≡ suc t.0)
tally_clean acknowledged (delivered, errors, remaining) h r = (refl, h, r, omega arith)
tally_clean (rejected error) (delivered, errors, remaining) h r = cc
tally_clean unanswered (delivered, errors, remaining) h r = absurd (omega arith)

deliver_all :
    (fate : Event → Fate) (es : List Event)
    → (deliver fate es).1 ≡ []
    → (deliver fate es).2 ≡ 0
    → ((deliver fate es).0 ≡ length es) × ((e : Event) → In e es → fate e ≡ acknowledged)
unfolding deliver
deliver_all fate [] h r = (refl, λ e i. elim i [ ])
deliver_all fate (x ∷ es) h r =
    let (taken, errors, remaining, total) = tally_clean (fate x) (deliver fate es) h r in
    let (all, each) = deliver_all fate es errors remaining in
    (
      total ∙ ap suc all,
      λ e i. elim (In-cons i) [ inl same ↦ ap fate same ∙ taken | inr j ↦ each e j ],
    )

In-insert_sorted : (o : StagedOrder) (ps : List StagedOrder) → In o (insert_sorted o ps)
unfolding insert_sorted
In-insert_sorted o [] = here
In-insert_sorted o (p ∷ ps) = elim (Bool-cases (not_after o p)) [
  | inl first ↦ rw first here
  | inr later ↦ rw later (there (In-insert_sorted o ps))
]

insert_sorted_keeps :
    (o p : StagedOrder) (ps : List StagedOrder) → In p ps → In p (insert_sorted o ps)
unfolding insert_sorted
insert_sorted_keeps o p [] i = elim i [ ]
insert_sorted_keeps o p (q ∷ ps) i = elim (Bool-cases (not_after o q)) [
  | inl first ↦ rw first (there i)
  | inr later ↦
      rw later (elim (In-cons i) [
        | inl same ↦ rw same here
        | inr j ↦ there (insert_sorted_keeps o p ps j)
      ])
]

In-order_by : (os : List StagedOrder) (o : StagedOrder) → In o os → In o (order_by os)
unfolding order_by
In-order_by [] o i = elim i [ ]
In-order_by (_ ∷ os) o here = In-insert_sorted o (order_by os)
In-order_by (p ∷ os) o (there i) = insert_sorted_keeps p o (order_by os) (In-order_by os o i)

In-map_event :
    (f : StagedOrder → Event) (os : List StagedOrder) (o : StagedOrder)
    → In o os
    → In (f o) (map f os)
In-map_event f [] o i = elim i [ ]
In-map_event f (_ ∷ os) o here = here
In-map_event f (p ∷ os) o (there i) = there (In-map_event f os o i)

length-insert_sorted :
    (o : StagedOrder) (ps : List StagedOrder) → length (insert_sorted o ps) ≡ suc (length ps)
unfolding insert_sorted
length-insert_sorted o [] = refl
length-insert_sorted o (p ∷ ps) = ground (arith, length-insert_sorted o ps)

length-order_by : (os : List StagedOrder) → length (order_by os) ≡ length os
unfolding order_by
length-order_by [] = refl
length-order_by (o ∷ os) = length-insert_sorted o (order_by os) ∙ ap suc (length-order_by os)

module _ (fromisoformat : String → Option ℕ) (uuid5 : ℕ → ℕ → String) (fate : Event → Fate)
    (args : Arguments) (now : StagedOrder → ℕ) (watermarks : List WatermarkRow)
    (orders : List StagedOrder) where
  -- If a run without a limit succeeds, it had a window, the broker acknowledged the event of every
  -- staged order in the window, and the reported number is that of these orders.
  pub publish_orders_delivers :
      (n : ℕ)
      → args.limit ≡ none
      → publish_orders fromisoformat uuid5 fate args now watermarks orders ≡ ok n
      → (window : Bound × Bound) × (bounds fromisoformat args.start args.end watermarks ≡ ok window)
        × (n ≡ length (select (in_bounds window) orders))
        × ((o : StagedOrder)
            → In o orders
            → in_bounds window o ≡ true
            → fate (event_of uuid5 now o) ≡ acknowledged)
  unfolding publish_orders query
  publish_orders_delivers n l h =
      let (window, given, ran) =
        bind-eq-ok (bounds fromisoformat args.start args.end watermarks) _ h in
      let chosen = select (in_bounds window) orders in
      let all = map (event_of uuid5 now) (order_by chosen) in
      let unlimited : outcome (deliver fate all) ≡ ok n =
        ap
          (λ limit.
            outcome (deliver fate (map (event_of uuid5 now) (limited limit (order_by chosen)))))
          (sym l)
        ∙ ran in
      let (total, errors, remaining) = outcome_ok (deliver fate all) n unlimited in
      let (counted, each) = deliver_all fate all errors remaining in
      (
        window,
        given,
        sym total
            ∙ counted
            ∙ length-map (event_of uuid5 now) (order_by chosen)
            ∙ length-order_by chosen,
        λ o i inside. each (event_of uuid5 now o) (
            In-map_event (event_of uuid5 now) (order_by chosen) o
              (In-order_by chosen o (In-select (in_bounds window) orders o i inside))),
      )
