-- ===== src/Stream/Complete.antt =====
-- Where each row of a micro-batch goes, and what stays of the tables before it
-- (spark/jobs/order_stream.py).
use local_data_platform.Prelude.{
  ℕ, ◌≤◌, String, ◌≡◌, refl, sym, ap, ◌∙◌, subst, Bool, true, false, Option, none, some, List, [],
  ◌∷◌, map, arith, ◌==◌, nat_eq, string_eq, In, here, there, is_some, inl, inr, ◌⊎◌, Bool-cases,
  beq_refl, eq_iff, In-select, select, some_inj, nat_beq_iff, if◌then◌else◌,
}
use local_data_platform.Sql.{find, has}
use local_data_platform.Sql.Upsert.{find-upsert, merged, key_of_find}
use local_data_platform.Sql.Selection.{find-In}
use local_data_platform.Sql.Merge.{combine, updated}
use local_data_platform.Stream.{ParsedRow}
use local_data_platform.Stream.Batch.{
  OrderEvent, CurrentOrder, Lake, event_key, event_order, order_key, letter_key, valid_event,
  cons_some, valid_events, passes_not_filter, dead_letter, invalid_letters, at_least_as_new,
  replace, latest_per_order, current_row, not_older, merge_batch,
}
use local_data_platform.Stream.Batch.Lookup.{
  DropsDuplicates, current_updates, find-merge_batch-events, find-merge_batch-current,
  find-merge_batch-dead_letters,
}

pub In-valid_events :
    (b : List ParsedRow) (r : ParsedRow) (e : OrderEvent)
    → In r b
    → valid_event r ≡ some e
    → In e (valid_events b)
unfolding valid_events
In-valid_events [] r e i h = elim i [ ]
In-valid_events (_ ∷ rs) r e here h = rw h here
In-valid_events (q ∷ rs) r e (there i) h = skip (valid_event q) (In-valid_events rs r e i h)
  where
    skip : (o : Option OrderEvent) → In e (valid_events rs) → In e (cons_some o (valid_events rs))
    skip none j = j
    skip (some x) j = there j

pub In-map : {A B : Type 0} (f : A → B) (xs : List A) (x : A) → In x xs → In (f x) (map f xs)
In-map f [] x i = elim i [ ]
In-map f (_ ∷ xs) x here = here
In-map f (y ∷ xs) x (there i) = there (In-map f xs x i)

abbrev newer_of : OrderEvent → Option OrderEvent → OrderEvent
newer_of h o = merged event_order at_least_as_new replace h o

newer_of-first :
    (h : OrderEvent) (o : Option OrderEvent)
    → h.source_updated_at ≤ (newer_of h o).source_updated_at
newer_of-first h none = omega arith
newer_of-first h (some t) = ground (arith, nat_beq_iff t.source_updated_at h.source_updated_at)

newer_of-second : (h t : OrderEvent) → t.source_updated_at ≤ (newer_of h (some t)).source_updated_at
newer_of-second h t = ground (arith, nat_beq_iff t.source_updated_at h.source_updated_at)

find-latest :
    (k : String) (h : OrderEvent) (es : List OrderEvent)
    → find event_order k (latest_per_order (h ∷ es)) ≡ (
        if h.order_id == k
        then some (newer_of h (find event_order h.order_id (latest_per_order es)))
        else find event_order k (latest_per_order es))
unfolding latest_per_order
find-latest k h es =
    find-upsert event_order at_least_as_new replace (λ r t e. refl) k h (latest_per_order es)

-- The row of an order's window with row_number = 1 is as new as any row of the window.
latest_per_order-newest :
    (es : List OrderEvent) (e : OrderEvent)
    → In e es
    → (x : OrderEvent) × (find event_order e.order_id (latest_per_order es) ≡ some x)
      × (e.source_updated_at ≤ x.source_updated_at)
latest_per_order-newest [] e i = elim i [ ]
latest_per_order-newest (_ ∷ es) e here =
    let o = find event_order e.order_id (latest_per_order es) in
    (newer_of e o, find-latest e.order_id e es ∙ rw (beq_refl e.order_id) refl, newer_of-first e o)
latest_per_order-newest (h ∷ es) e (there i) =
    let (x, found, le) = latest_per_order-newest es e i in
    elim (Bool-cases (h.order_id == e.order_id)) [
      | inl same ↦ (
        newer_of h (some x),
        find-latest e.order_id h es ∙ rw (same, (eq_iff h.order_id e.order_id).0 same, found) refl,
        omega (arith, newer_of-second h x),
      )
      | inr other ↦ (x, find-latest e.order_id h es ∙ rw (other, found) refl, le)
    ]

newer_of-cases :
    (h : OrderEvent) (o : Option OrderEvent) → (newer_of h o ≡ h) ⊎ (o ≡ some (newer_of h o))
newer_of-cases h none = inl refl
newer_of-cases h (some t) = go (at_least_as_new h t)
  where
    go : (b : Bool) → ((if b then h else t) ≡ h) ⊎ (some t ≡ some (if b then h else t))
    go true = inl refl
    go false = inr refl

pub In-latest :
    (es : List OrderEvent) (k : String) (x : OrderEvent)
    → find event_order k (latest_per_order es) ≡ some x
    → In x es
In-latest [] k x h = let g : none ≡ some x = unfold find latest_per_order in h in cc
In-latest (e ∷ es) k x h = elim (Bool-cases (e.order_id == k)) [
  | inr other ↦ there (In-latest es k x (rw other at (sym (find-latest k e es) ∙ h)))
  | inl same ↦
      let is : newer_of e (find event_order e.order_id (latest_per_order es)) ≡ x =
        some_inj (rw same at (sym (find-latest k e es) ∙ h)) in
      elim (newer_of-cases e (find event_order e.order_id (latest_per_order es))) [
        | inl first ↦ subst (λ y. In y (e ∷ es)) (sym first ∙ is) here
        | inr second ↦ there (In-latest es e.order_id x (second ∙ ap some is))
      ]
]

find-current_row :
    (k : String) (es : List OrderEvent) (x : OrderEvent)
    → find event_order k es ≡ some x
    → find order_key k (map current_row es) ≡ some (current_row x)
unfolding find
find-current_row k [] x h = cc
find-current_row k (e ∷ es) x h = ground (arith, find-current_row k es x)

-- Two valid rows with one event id are versions of one order at one time: the producer derives the
-- id from both.
abbrev pub IsVersioned : List OrderEvent → Type 0
IsVersioned es =
    (e x : OrderEvent)
    → In e es
    → In x es
    → e.event_id ≡ x.event_id
    → (e.order_id ≡ x.order_id) × (e.source_updated_at ≡ x.source_updated_at)

pub In-find :
    (k : String) (es : List OrderEvent) (e : OrderEvent) → find event_key k es ≡ some e → In e es
unfolding find
In-find k [] e h = cc
In-find k (x ∷ es) e h = elim (Bool-cases (x.event_id == k)) [
  | inl same ↦ subst (λ y. In y (x ∷ es)) (some_inj (ground arith)) here
  | inr other ↦ there (In-find k es e (ground arith))
]

pub value_of_some : {A : Type 0} (o : Option A) → is_some o ≡ true → (a : A) × (o ≡ some a)
value_of_some none h = cc
value_of_some (some a) h = (a, refl)

pub kept_or_newer :
    (o : CurrentOrder) (s : Option CurrentOrder)
    → o.source_updated_at ≤ (updated order_key not_older o s).source_updated_at
kept_or_newer o none = omega arith
kept_or_newer o (some s) = ground arith

current_of :
    (o : Option CurrentOrder) (s : CurrentOrder)
    → (c : CurrentOrder) × (combine order_key not_older o (some s) ≡ some c)
      × (s.source_updated_at ≤ c.source_updated_at)
current_of none s = (s, refl, omega arith)
current_of (some t) s = (updated order_key not_older t (some s), refl, ground arith)

module _ (drop : List OrderEvent → List OrderEvent) (digest : String → ℕ → ℕ → String)
    (d : DropsDuplicates drop) (b : List ParsedRow) (lake : Lake) where
  -- After a micro-batch the history has the event of each of its valid rows.
  pub merge_batch_stores :
      (r : ParsedRow) (e : OrderEvent)
      → In r b
      → valid_event r ≡ some e
      → has event_key e.event_id (merge_batch drop digest b lake).events ≡ true
  merge_batch_stores r e i h = ground (
    arith,
    find-merge_batch-events drop digest d e.event_id b lake,
    d.keeps (valid_events b) e (In-valid_events b r e i h),
  )

  -- The order of a kept event is current at its version or a newer one.
  pub kept_refreshes :
      (x : OrderEvent)
      → In x (drop (valid_events b))
      → (o : CurrentOrder) × (find order_key x.order_id (merge_batch drop digest b lake).current
          ≡ some o)
        × (x.source_updated_at ≤ o.source_updated_at)
  kept_refreshes x i =
      let (y, found, le) = latest_per_order-newest (drop (valid_events b)) x i in
      let (c, is, newer) = current_of (find order_key x.order_id lake.current) (current_row y) in
      (
        c,
        find-merge_batch-current drop digest d x.order_id b lake
            ∙ rw (find-current_row x.order_id (latest_per_order (drop (valid_events b))) y found)
                is,
        omega arith,
      )

  -- After a micro-batch in which the rows with one event id are versions of one order at one time,
  -- the current state of the order of each valid row is at least as new as the row.
  pub merge_batch_refreshes :
      (r : ParsedRow) (e : OrderEvent)
      → IsVersioned (valid_events b)
      → In r b
      → valid_event r ≡ some e
      → (o : CurrentOrder) × (find order_key e.order_id (merge_batch drop digest b lake).current
          ≡ some o)
        × (e.source_updated_at ≤ o.source_updated_at)
  merge_batch_refreshes r e v i h =
      let j = In-valid_events b r e i h in
      let (x, found) =
        value_of_some (find event_key e.event_id (drop (valid_events b)))
          (d.keeps (valid_events b) e j) in
      let k = In-find e.event_id (drop (valid_events b)) x found in
      let same_id = key_of_find event_key e.event_id (drop (valid_events b)) {r = x} found in
      let (order, time) = v e x j (d.sound (valid_events b) x k) (sym same_id) in
      let (o, current, le) = kept_refreshes x k in
      (
        o,
        ap (λ q. find order_key q (merge_batch drop digest b lake).current) order ∙ current,
        omega arith,
      )

  -- After a micro-batch each row that was judged invalid has its dead letter, under the digest of
  -- its Kafka coordinates.
  pub merge_batch_dead_letters :
      (r : ParsedRow)
      → In r b
      → r.is_valid ≡ some false
      → has letter_key
          (digest r.topic r.partition r.offset)
          (merge_batch drop digest b lake).dead_letters
        ≡ true
  unfolding invalid_letters
  merge_batch_dead_letters r i h = ground (
    arith,
    find-merge_batch-dead_letters drop digest d (digest r.topic r.partition r.offset) b lake,
    find-In letter_key (invalid_letters digest b) (dead_letter digest r) (
        In-map (dead_letter digest) (select (λ q. passes_not_filter q.is_valid) b) r
          (In-select (λ q. passes_not_filter q.is_valid) b r i (ap passes_not_filter h))),
  )

  -- A stored event is never changed by a later micro-batch.
  pub merge_batch_immutable :
      (k : String) (e : OrderEvent)
      → find event_key k lake.events ≡ some e
      → find event_key k (merge_batch drop digest b lake).events ≡ some e
  merge_batch_immutable k e h = find-merge_batch-events drop digest d k b lake ∙ rw h refl

  -- A late or replayed micro-batch never rolls an order back to an older version.
  pub merge_batch_monotone :
      (k : String) (o : CurrentOrder)
      → find order_key k lake.current ≡ some o
      → (c : CurrentOrder) × (find order_key k (merge_batch drop digest b lake).current ≡ some c)
        × (o.source_updated_at ≤ c.source_updated_at)
  merge_batch_monotone k o h =
      let updates = find order_key k (current_updates (drop (valid_events b))) in
      (
        updated order_key not_older o updates,
        find-merge_batch-current drop digest d k b lake ∙ rw h refl,
        kept_or_newer o updates,
      )
