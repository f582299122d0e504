-- ===== src/Stream/Replay.antt =====
-- A micro-batch of spark/jobs/order_stream.py that runs again: the checkpoint only advances once
-- `merge_batch` has returned, so after a crash Spark runs it over the same Kafka rows.
use local_data_platform.Prelude.{
  ℕ, ◌≤◌, String, ◌≡◌, refl, sym, ap, ◌∙◌, subst, true, false, Option, none, some, List, [], ◌∷◌,
  map, arith, ◌==◌, string_eq, In, here, Bool-cases, some_inj, inl, inr,
}
use local_data_platform.Sql.{find, has}
use local_data_platform.Sql.Upsert.{key_of_find}
use local_data_platform.Sql.Merge.{merge_insert_known, combine}
use local_data_platform.Stream.{ParsedRow}
use local_data_platform.Stream.Batch.{
  OrderEvent, CurrentOrder, DeadLetter, Lake, event_key, event_order, order_key, letter_key,
  valid_events, invalid_letters, write_events, write_dead_letters, merge_valid, merge_invalid,
  not_older, merge_batch, latest_per_order, current_row,
}
use local_data_platform.Stream.Batch.Lookup.{
  DropsDuplicates, current_updates, find-merge_batch-events, find-merge_batch-current,
  find-merge_batch-dead_letters, merge_batch-steps, merge_invalid_keeps, merge_valid_keeps,
}
use local_data_platform.Stream.Complete.{
  IsVersioned, value_of_some, In-find, In-latest, kept_refreshes,
}

-- Every event of the second batch is one of the first, at another ingestion time, and so is every
-- dead letter.
pub record IsReplay (digest : String → ℕ → ℕ → String) (b c : List ParsedRow) : Type 0 where
  pub events :
      (e : OrderEvent)
      → In e (valid_events c)
      → (x : OrderEvent) × In x (valid_events b)
        × (x.event_id ≡ e.event_id)
        × (x.order_id ≡ e.order_id)
        × (x.source_updated_at ≡ e.source_updated_at)
  pub letters :
      (l : DeadLetter)
      → In l (invalid_letters digest c)
      → has letter_key l.dead_letter_id (invalid_letters digest b) ≡ true

has_none : {A : Type 0} (key : A → String) (k : String) → has key k [] ≡ false
unfolding find
has_none key k = refl

merge_valid_known :
    (es : List OrderEvent) (lake : Lake)
    → ((e : OrderEvent) → In e es → has event_key e.event_id lake.events ≡ true)
    → (merge_valid es lake).events ≡ lake.events
unfolding write_events
merge_valid_known [] lake h = refl
merge_valid_known (e ∷ es) lake h = known lake.events h
  where
    known :
        (t : List OrderEvent)
        → ((x : OrderEvent) → In x (e ∷ es) → has event_key x.event_id t ≡ true)
        → write_events (e ∷ es) t ≡ t
    known [] k = let p = k e here in let q = has_none event_key e.event_id in absurd (ground arith)
    known (x ∷ t) k = merge_insert_known event_key (e ∷ es) (x ∷ t) k

merge_invalid_known :
    (ds : List DeadLetter) (lake : Lake)
    → ((l : DeadLetter) → In l ds → has letter_key l.dead_letter_id lake.dead_letters ≡ true)
    → (merge_invalid ds lake).dead_letters ≡ lake.dead_letters
unfolding write_dead_letters
merge_invalid_known [] lake h = refl
merge_invalid_known (d ∷ ds) lake h = known lake.dead_letters h
  where
    known :
        (t : List DeadLetter)
        → ((l : DeadLetter) → In l (d ∷ ds) → has letter_key l.dead_letter_id t ≡ true)
        → write_dead_letters (d ∷ ds) t ≡ t
    known [] k =
        let p = k d here in let q = has_none letter_key d.dead_letter_id in absurd (ground arith)
    known (x ∷ t) k = merge_insert_known letter_key (d ∷ ds) (x ∷ t) k

abbrev pub version : Option CurrentOrder → Option ℕ
version none = none
version (some o) = some o.source_updated_at

version-combine :
    (o u : Option CurrentOrder)
    → ((r : CurrentOrder)
        → u ≡ some r
        → (c : CurrentOrder) × (o ≡ some c) × (r.source_updated_at ≤ c.source_updated_at))
    → version (combine order_key not_older o u) ≡ version o
version-combine none none h = refl
version-combine none (some r) h = let (c, p, q) = h r refl in cc
version-combine (some o) none h = refl
version-combine (some o) (some r) h =
    let (c, p, le) = h r refl in let same : o ≡ c = some_inj p in ground arith

In-current_updates :
    (k : String) (es : List OrderEvent) (r : CurrentOrder)
    → find order_key k (map current_row es) ≡ some r
    → (x : OrderEvent) × (find event_order k es ≡ some x) × (r ≡ current_row x)
unfolding find
In-current_updates k [] r h = cc
In-current_updates k (e ∷ es) r h = elim (Bool-cases (e.order_id == k)) [
  | inl same ↦ (e, rw same refl, sym (some_inj (rw same at h)))
  | inr other ↦
      let (x, found, is) = In-current_updates k es r (rw other at h) in (x, rw other found, is)
]

module _ (drop again : List OrderEvent → List OrderEvent) (digest : String → ℕ → ℕ → String)
    (d : DropsDuplicates drop) (a : DropsDuplicates again) (b c : List ParsedRow)
    (replay : IsReplay digest b c) (lake : Lake) where
  -- The event that the first run kept for an event of the second run.
  kept_once :
      (e : OrderEvent)
      → In e (valid_events c)
      → (x : OrderEvent) × (y : OrderEvent) × (In x (valid_events b))
        × (In y (drop (valid_events b)))
        × (find event_key e.event_id (drop (valid_events b)) ≡ some y)
        × (x.event_id ≡ y.event_id)
        × (x.order_id ≡ e.order_id)
        × (x.source_updated_at ≡ e.source_updated_at)
  kept_once e i =
      let (x, j, id, order, time) = replay.events e i in
      let (y, found) =
        value_of_some (find event_key x.event_id (drop (valid_events b)))
          (d.keeps (valid_events b) x j) in
      let at_id = subst (λ k. find event_key k (drop (valid_events b)) ≡ some y) id found in
      (
        x,
        y,
        j,
        In-find x.event_id (drop (valid_events b)) y found,
        at_id,
        sym (key_of_find event_key x.event_id (drop (valid_events b)) {r = y} found),
        order,
        time,
      )

  stored_once :
      (e : OrderEvent)
      → In e (again (valid_events c))
      → has event_key e.event_id (merge_batch drop digest b lake).events ≡ true
  stored_once e i =
      let (x, y, j, k, found, same, order, time) = kept_once e (a.sound (valid_events c) e i) in
      ground (arith, find-merge_batch-events drop digest d e.event_id b lake)

  lettered_once :
      (l : DeadLetter)
      → In l (invalid_letters digest c)
      → has letter_key l.dead_letter_id (merge_batch drop digest b lake).dead_letters ≡ true
  lettered_once l i = ground (
    arith,
    find-merge_batch-dead_letters drop digest d l.dead_letter_id b lake,
    replay.letters l i,
  )

  current_once :
      (k : String) (u : CurrentOrder)
      → IsVersioned (valid_events b)
      → find order_key k (current_updates (again (valid_events c))) ≡ some u
      → (o : CurrentOrder) × (find order_key k (merge_batch drop digest b lake).current ≡ some o)
        × (u.source_updated_at ≤ o.source_updated_at)
  current_once k u v h =
      let (e, latest, is) = In-current_updates k (latest_per_order (again (valid_events c))) u h in
      let i = a.sound (valid_events c) e (In-latest (again (valid_events c)) k e latest) in
      let (x, y, j, kept, found, same, order, time) = kept_once e i in
      let (orders, times) = v x y j (d.sound (valid_events b) y kept) same in
      let (o, current, le) = kept_refreshes drop digest d b lake y kept in
      let of_k =
        key_of_find event_order k (latest_per_order (again (valid_events c))) {r = e} latest in
      (
        o,
        ap (λ q. find order_key q (merge_batch drop digest b lake).current)
              (sym of_k ∙ sym order ∙ orders)
            ∙ current,
        omega (arith, ap (λ (q : CurrentOrder). q.source_updated_at) is),
      )

  pub replayed :
      IsVersioned (valid_events b)
      → ((merge_batch again digest c (merge_batch drop digest b lake)).events
          ≡ (merge_batch drop digest b lake).events)
        × ((merge_batch again digest c (merge_batch drop digest b lake)).dead_letters
            ≡ (merge_batch drop digest b lake).dead_letters)
        × ((k : String)
            → version (
                find order_key k
                  (merge_batch again digest c (merge_batch drop digest b lake)).current)
              ≡ version (find order_key k (merge_batch drop digest b lake).current))
  replayed v =
      let first = merge_batch drop digest b lake in
      let second = merge_valid (again (valid_events c)) first in
      let letters = invalid_letters digest c in
      let steps = merge_batch-steps again digest a c first in
      (
        ap (λ (l : Lake). l.events) steps
            ∙ (merge_invalid_keeps letters second).0
            ∙ merge_valid_known (again (valid_events c)) first stored_once,
        ap (λ (l : Lake). l.dead_letters) steps
            ∙ merge_invalid_known letters second
                (λ l i. rw (merge_valid_keeps (again (valid_events c)) first) (lettered_once l i))
            ∙ merge_valid_keeps (again (valid_events c)) first,
        λ k.
            ap version (find-merge_batch-current again digest a k c first)
            ∙ version-combine (find order_key k first.current)
                (find order_key k (current_updates (again (valid_events c))))
                (λ u h. current_once k u v h),
      )
