-- ===== src/Stream/Batch/Lookup.antt =====
-- What stands under a key in the tables of spark/jobs/order_stream.py after `merge_batch`.
use local_data_platform.Prelude.{
  ℕ, String, ◌≡◌, refl, sym, ap, ◌∙◌, true, Option, none, some, List, [], ◌∷◌, map, string_eq, In,
  here, is_some,
}
use local_data_platform.Sql.{find, Unique}
use local_data_platform.Sql.Upsert.{first_of_both}
use local_data_platform.Sql.Merge.{
  merge_insert, merge_update, combine, find-merge_insert, find-merge_update, merge_insert_empty,
  merge_update_empty,
}
use local_data_platform.Stream.{ParsedRow}
use local_data_platform.Stream.Batch.{
  OrderEvent, CurrentOrder, DeadLetter, Lake, event_key, order_key, letter_key, valid_events,
  invalid_letters, latest_per_order, current_row, not_older, write_events, write_current,
  write_dead_letters, merge_valid, merge_invalid, merge_batch,
}

-- What Spark promises of `dropDuplicates(["event_id"])`: of the rows with one event id, one stays.
pub record DropsDuplicates (drop : List OrderEvent → List OrderEvent) : Type 0 where
  pub sound : (es : List OrderEvent) (e : OrderEvent) → In e (drop es) → In e es
  pub keeps :
      (es : List OrderEvent) (e : OrderEvent)
      → In e es
      → is_some (find event_key e.event_id (drop es)) ≡ true
  pub unique : (es : List OrderEvent) → Unique event_key (drop es)

pub write_events-merge : (u t : List OrderEvent) → write_events u t ≡ merge_insert event_key u t
unfolding write_events
write_events-merge u [] = sym (merge_insert_empty event_key u)
write_events-merge u (x ∷ t) = refl

pub write_current-merge :
    (u t : List CurrentOrder) → write_current u t ≡ merge_update order_key not_older u t
unfolding write_current
write_current-merge u [] = sym (merge_update_empty order_key not_older u)
write_current-merge u (x ∷ t) = refl

pub write_dead_letters-merge :
    (u t : List DeadLetter) → write_dead_letters u t ≡ merge_insert letter_key u t
unfolding write_dead_letters
write_dead_letters-merge u [] = sym (merge_insert_empty letter_key u)
write_dead_letters-merge u (x ∷ t) = refl

-- The newest versions of a batch, as the rows that they write.
abbrev pub current_updates : List OrderEvent → List CurrentOrder
current_updates es = map current_row (latest_per_order es)

module _ (k : String) (lake : Lake) where
  find-merge_valid-events :
      (es : List OrderEvent)
      → find event_key k (merge_valid es lake).events
        ≡ first_of_both event_key (find event_key k lake.events) (find event_key k es)
  unfolding find
  find-merge_valid-events [] = go (find event_key k lake.events)
    where
      go : (o : Option OrderEvent) → o ≡ first_of_both event_key o (find event_key k [])
      go none = refl
      go (some e) = refl
  find-merge_valid-events (e ∷ es) =
      ap (find event_key k) (write_events-merge (e ∷ es) lake.events)
      ∙ find-merge_insert event_key k (e ∷ es) lake.events

  find-merge_valid-current :
      (es : List OrderEvent)
      → find order_key k (merge_valid es lake).current
        ≡ combine order_key not_older
            (find order_key k lake.current)
            (find order_key k (current_updates es))
  unfolding find latest_per_order
  find-merge_valid-current [] = go (find order_key k lake.current)
    where
      go :
          (o : Option CurrentOrder)
          → o ≡ combine order_key not_older o (find order_key k (current_updates []))
      go none = refl
      go (some e) = refl
  find-merge_valid-current (e ∷ es) =
      ap (find order_key k) (write_current-merge (current_updates (e ∷ es)) lake.current)
      ∙ find-merge_update order_key not_older k (current_updates (e ∷ es)) lake.current

  find-merge_invalid :
      (ds : List DeadLetter)
      → find letter_key k (merge_invalid ds lake).dead_letters
        ≡ first_of_both letter_key (find letter_key k lake.dead_letters) (find letter_key k ds)
  unfolding find
  find-merge_invalid [] = go (find letter_key k lake.dead_letters)
    where
      go : (o : Option DeadLetter) → o ≡ first_of_both letter_key o (find letter_key k [])
      go none = refl
      go (some e) = refl
  find-merge_invalid (d ∷ ds) =
      ap (find letter_key k) (write_dead_letters-merge (d ∷ ds) lake.dead_letters)
      ∙ find-merge_insert letter_key k (d ∷ ds) lake.dead_letters

pub merge_invalid_keeps :
    (ds : List DeadLetter) (lake : Lake)
    → ((merge_invalid ds lake).events ≡ lake.events)
      × ((merge_invalid ds lake).current ≡ lake.current)
merge_invalid_keeps [] lake = (refl, refl)
merge_invalid_keeps (d ∷ ds) lake = (refl, refl)

pub merge_valid_keeps :
    (es : List OrderEvent) (lake : Lake) → (merge_valid es lake).dead_letters ≡ lake.dead_letters
merge_valid_keeps [] lake = refl
merge_valid_keeps (e ∷ es) lake = refl

pub nothing_dropped :
    (drop : List OrderEvent → List OrderEvent) → DropsDuplicates drop → drop [] ≡ []
nothing_dropped drop d = go (drop []) (d.sound [])
  where
    go : (es : List OrderEvent) → ((e : OrderEvent) → In e es → In e []) → es ≡ []
    go [] h = refl
    go (e ∷ es) h = elim (h e here) [ ]

module _ (drop : List OrderEvent → List OrderEvent) (digest : String → ℕ → ℕ → String)
    (d : DropsDuplicates drop) where
  -- An empty batch is like any other one.
  pub merge_batch-steps :
      (b : List ParsedRow) (lake : Lake)
      → merge_batch drop digest b lake
        ≡ merge_invalid (invalid_letters digest b) (merge_valid (drop (valid_events b)) lake)
  unfolding merge_batch
  merge_batch-steps [] lake = rw (nothing_dropped drop d) refl
  merge_batch-steps (r ∷ rs) lake = refl

  module _ (k : String) (b : List ParsedRow) (lake : Lake) where
    -- The first event stored under an id stays.
    pub find-merge_batch-events :
        find event_key k (merge_batch drop digest b lake).events
        ≡ first_of_both event_key
            (find event_key k lake.events)
            (find event_key k (drop (valid_events b)))
    find-merge_batch-events =
        rw
          (
            merge_batch-steps b lake,
            (merge_invalid_keeps (invalid_letters digest b)
                (merge_valid (drop (valid_events b)) lake)).0,
          )
          (find-merge_valid-events k lake (drop (valid_events b)))

    pub find-merge_batch-current :
        find order_key k (merge_batch drop digest b lake).current
        ≡ combine order_key not_older
            (find order_key k lake.current)
            (find order_key k (current_updates (drop (valid_events b))))
    find-merge_batch-current =
        rw
          (
            merge_batch-steps b lake,
            (merge_invalid_keeps (invalid_letters digest b)
                (merge_valid (drop (valid_events b)) lake)).1,
          )
          (find-merge_valid-current k lake (drop (valid_events b)))

    pub find-merge_batch-dead_letters :
        find letter_key k (merge_batch drop digest b lake).dead_letters
        ≡ first_of_both letter_key
            (find letter_key k lake.dead_letters)
            (find letter_key k (invalid_letters digest b))
    find-merge_batch-dead_letters = rw (merge_batch-steps b lake) (
        find-merge_invalid k (merge_valid (drop (valid_events b)) lake) (invalid_letters digest b)
        ∙ rw (merge_valid_keeps (drop (valid_events b)) lake) refl)
