-- ===== src/Stream/Query/Grows.antt =====
-- What the statements of `merge_batch` (spark/jobs/order_stream.py) keep of the tables, and that all of
-- them together are `merge_batch`.
use local_data_platform.Prelude.{
  ℕ, zero, suc, ◌≤◌, String, ◌≡◌, refl, ap, ◌∙◌, subst, true, Option, none, some, List, [], ◌∷◌,
  ◌++◌, map, arith, string_eq, is_some, All, All-append, length,
}
use local_data_platform.Sql.{find, has}
use local_data_platform.Sql.Upsert.{first_of_both}
use local_data_platform.Sql.Merge.{updated, find-merge_insert, find-merge_update}
use local_data_platform.Stream.{Functions, KafkaRow, parse_kafka_events}
use local_data_platform.Stream.Batch.{
  OrderEvent, CurrentOrder, DeadLetter, Lake, event_key, order_key, letter_key, valid_events,
  invalid_letters, latest_per_order, current_row, not_older, merge_valid, merge_invalid,
  merge_batch,
}
use local_data_platform.Stream.Batch.Lookup.{
  write_events-merge, write_current-merge, write_dead_letters-merge,
}
use local_data_platform.Stream.Complete.{kept_or_newer}
use local_data_platform.Stream.Query.{
  Statement, write_history, refresh_current, keep_letters, valid_statements, invalid_statements,
  run_statements, first, merge_statements,
}

-- No event and no dead letter goes, and no order goes back to an older version.
pub record Grows (l m : Lake) : Type 0 where
  pub events : (k : String) → has event_key k l.events ≡ true → has event_key k m.events ≡ true
  pub current :
      (k : String) (o : CurrentOrder)
      → find order_key k l.current ≡ some o
      → (c : CurrentOrder) × (find order_key k m.current ≡ some c)
        × (o.source_updated_at ≤ c.source_updated_at)
  pub letters :
      (k : String) → has letter_key k l.dead_letters ≡ true → has letter_key k m.dead_letters ≡ true

pub Grows-same : (l : Lake) → Grows l l
Grows-same l = record {
  events = λ k h. h;
  current = λ k o h. (o, h, omega arith);
  letters = λ k h. h;
}

pub Grows-then : (l m n : Lake) → Grows l m → Grows m n → Grows l n
Grows-then l m n g h = record {
  events = λ k i. h.events k (g.events k i);
  current = λ k o i.
      let (c, found, le) = g.current k o i in
      let (d, there_is, more) = h.current k c found in (d, there_is, omega arith);
  letters = λ k i. h.letters k (g.letters k i);
}

has_first :
    {A : Type 0} (key : A → String) (o s : Option A)
    → is_some o ≡ true
    → is_some (first_of_both key o s) ≡ true
has_first key none s h = cc
has_first key (some r) s h = refl

write_history-Grows : (es : List OrderEvent) (l : Lake) → Grows l (write_history es l)
write_history-Grows es l = record {
  events = λ k h.
      ap is_some (
        ap (find event_key k) (write_events-merge es l.events)
        ∙ find-merge_insert event_key k es l.events)
      ∙ has_first event_key (find event_key k l.events) (find event_key k es) h;
  current = λ k o h. (o, h, omega arith);
  letters = λ k h. h;
}

refresh_current-Grows : (es : List OrderEvent) (l : Lake) → Grows l (refresh_current es l)
refresh_current-Grows es l = record {
  events = λ k h. h;
  current = λ k o h.
      let updates = map current_row (latest_per_order es) in
      (
        updated order_key not_older o (find order_key k updates),
        ap (find order_key k) (write_current-merge updates l.current)
            ∙ find-merge_update order_key not_older k updates l.current
            ∙ rw h refl,
        kept_or_newer o (find order_key k updates),
      );
  letters = λ k h. h;
}

letters_grow : (ds : List DeadLetter) (l : Lake) → Grows l (keep_letters ds l)
letters_grow ds l = record {
  events = λ k h. h;
  current = λ k o h. (o, h, omega arith);
  letters = λ k h.
      ap is_some (
        ap (find letter_key k) (write_dead_letters-merge ds l.dead_letters)
        ∙ find-merge_insert letter_key k ds l.dead_letters)
      ∙ has_first letter_key (find letter_key k l.dead_letters) (find letter_key k ds) h;
}

-- A statement that only adds.
abbrev pub Adds : Statement → Type 0
Adds s = (l : Lake) → Grows l (s l)

valid_statements-Adds : (es : List OrderEvent) → All Adds (valid_statements es)
valid_statements-Adds [] = tt
valid_statements-Adds (e ∷ es) =
    (write_history-Grows (e ∷ es), (refresh_current-Grows (e ∷ es), tt))

invalid_statements-Adds : (ds : List DeadLetter) → All Adds (invalid_statements ds)
invalid_statements-Adds [] = tt
invalid_statements-Adds (d ∷ ds) = (letters_grow (d ∷ ds), tt)

-- So does any first part of such statements.
pub first-Grows :
    (n : ℕ) (ss : List Statement) (l : Lake) → All Adds ss → Grows l (run_statements (first n ss) l)
first-Grows zero ss l h = Grows-same l
first-Grows (suc n) [] l h = Grows-same l
first-Grows (suc n) (s ∷ ss) l h =
    Grows-then l (s l) (run_statements (first n ss) (s l)) (h.0 l) (first-Grows n ss (s l) h.1)

run_append :
    (ss ts : List Statement) (l : Lake)
    → run_statements (ss ++ ts) l ≡ run_statements ts (run_statements ss l)
run_append [] ts l = refl
run_append (s ∷ ss) ts l = run_append ss ts (s l)

run_valid :
    (es : List OrderEvent) (l : Lake) → run_statements (valid_statements es) l ≡ merge_valid es l
run_valid [] l = refl
run_valid (e ∷ es) l = refl

run_invalid :
    (ds : List DeadLetter) (l : Lake)
    → run_statements (invalid_statements ds) l ≡ merge_invalid ds l
run_invalid [] l = refl
run_invalid (d ∷ ds) l = refl

pub first_whole : (ss : List Statement) → first (length ss) ss ≡ ss
first_whole [] = refl
first_whole (s ∷ ss) = ap (λ ts. s ∷ ts) (first_whole ss)

module _ (f : Functions) (digest : String → ℕ → ℕ → String)
    (drops : ℕ → List OrderEvent → List OrderEvent) (now : ℕ) where
  pub merge_statements-Adds :
      (rows : List KafkaRow) → All Adds (merge_statements f digest drops now rows)
  unfolding merge_statements
  merge_statements-Adds [] = tt
  merge_statements-Adds (r ∷ rs) =
      let batch = parse_kafka_events f now (r ∷ rs) in
      All-append Adds (valid_statements (drops now (valid_events batch)))
        (invalid_statements (invalid_letters digest batch))
        (valid_statements-Adds (drops now (valid_events batch)))
        (invalid_statements-Adds (invalid_letters digest batch))

  -- All the statements of a batch are `merge_batch`.
  pub run-merge_statements :
      (rows : List KafkaRow) (l : Lake)
      → run_statements (merge_statements f digest drops now rows) l
        ≡ merge_batch (drops now) digest (parse_kafka_events f now rows) l
  unfolding merge_statements merge_batch parse_kafka_events
  run-merge_statements [] l = refl
  run-merge_statements (r ∷ rs) l =
      let batch = parse_kafka_events f now (r ∷ rs) in
      let es = drops now (valid_events batch) in
      let ds = invalid_letters digest batch in
      run_append (valid_statements es) (invalid_statements ds) l
      ∙ ap (run_statements (invalid_statements ds)) (run_valid es l)
      ∙ run_invalid ds (merge_valid es l)

  pub merge_batch-Grows :
      (rows : List KafkaRow) (l : Lake)
      → Grows l (merge_batch (drops now) digest (parse_kafka_events f now rows) l)
  merge_batch-Grows rows l =
      let ss = merge_statements f digest drops now rows in
      subst (Grows l)
        (ap (λ ts. run_statements ts l) (first_whole ss) ∙ run-merge_statements rows l)
        (first-Grows (length ss) ss l (merge_statements-Adds rows))
