-- ===== src/Stream/Query/Grain.antt =====
-- The keys of the tables of spark/jobs/order_stream.py stay unique, at each of its statements.
use local_data_platform.Prelude.{
  ℕ, zero, suc, String, ◌≡◌, refl, sym, ap, ◌∙◌, subst, none, List, [], ◌∷◌, map, arith, string_eq,
  All, All-append, length,
}
use local_data_platform.Sql.{find, Unique}
use local_data_platform.Sql.Upsert.{upsert-Unique}
use local_data_platform.Sql.Merge.{merge_insert-Unique, merge_update-Unique}
use local_data_platform.Stream.{Functions, KafkaRow, parse_kafka_events}
use local_data_platform.Stream.Batch.{
  OrderEvent, DeadLetter, Lake, event_key, event_order, order_key, at_least_as_new, replace,
  valid_events, invalid_letters, latest_per_order, current_row, not_older,
}
use local_data_platform.Stream.Batch.Lookup.{
  DropsDuplicates, write_events-merge, write_current-merge,
}
use local_data_platform.Stream.Query.{
  Query, Statement, valid_statements, invalid_statements, run_statements, first, merge_statements,
  Step, committed, stopped, Steps, begin, next,
}
use local_data_platform.Stream.Query.Grows.{first_whole, run-merge_statements}

-- No event id and no order stands in two rows.
pub record IsDistinct (l : Lake) : Type 0 where
  pub events : Unique event_key l.events
  pub current : Unique order_key l.current

latest-Unique : (es : List OrderEvent) → Unique event_order (latest_per_order es)
unfolding latest_per_order
latest-Unique [] = tt
latest-Unique (e ∷ es) =
    upsert-Unique event_order at_least_as_new replace (λ r t same. refl) e (latest_per_order es)
      (latest-Unique es)

absent :
    (k : String) (xs : List OrderEvent)
    → find event_order k xs ≡ none
    → find order_key k (map current_row xs) ≡ none
unfolding find
absent k [] h = refl
absent k (x ∷ xs) h = ground (arith, absent k xs)

current_row-Unique :
    (es : List OrderEvent) → Unique event_order es → Unique order_key (map current_row es)
current_row-Unique [] u = tt
current_row-Unique (e ∷ es) u = (absent e.order_id es u.0, current_row-Unique es u.1)

abbrev Keeps : Statement → Type 0
Keeps s = (l : Lake) → IsDistinct l → IsDistinct (s l)

valid_statements-Keeps :
    (es : List OrderEvent) → Unique event_key es → All Keeps (valid_statements es)
valid_statements-Keeps [] u = tt
valid_statements-Keeps (e ∷ es) u = (
  λ l h. record {
    events =
        subst (Unique event_key) (sym (write_events-merge (e ∷ es) l.events))
          (merge_insert-Unique event_key (e ∷ es) l.events u h.events);
    current = h.current;
  },
  (
    λ l h. record {
      events = h.events;
      current =
          subst (Unique order_key)
            (sym (write_current-merge (map current_row (latest_per_order (e ∷ es))) l.current))
            (merge_update-Unique order_key not_older (map current_row (latest_per_order (e ∷ es)))
              l.current (current_row-Unique (latest_per_order (e ∷ es)) (latest-Unique (e ∷ es)))
              h.current);
    },
    tt,
  ),
)

invalid_statements-Keeps : (ds : List DeadLetter) → All Keeps (invalid_statements ds)
invalid_statements-Keeps [] = tt
invalid_statements-Keeps (d ∷ ds) = (λ l h. record { events = h.events; current = h.current }, tt)

first-Keeps :
    (n : ℕ) (ss : List Statement) (l : Lake)
    → All Keeps ss
    → IsDistinct l
    → IsDistinct (run_statements (first n ss) l)
first-Keeps zero ss l k h = h
first-Keeps (suc n) [] l k h = h
first-Keeps (suc n) (s ∷ ss) l k h = first-Keeps n ss (s l) k.1 (k.0 l h)

module _ (f : Functions) (digest : String → ℕ → ℕ → String)
    (drops : ℕ → List OrderEvent → List OrderEvent)
    (d : (now : ℕ) → DropsDuplicates (drops now)) where
  merge_statements-Keeps :
      (now : ℕ) (rows : List KafkaRow) → All Keeps (merge_statements f digest drops now rows)
  unfolding merge_statements
  merge_statements-Keeps now [] = tt
  merge_statements-Keeps now (r ∷ rs) =
      let batch = parse_kafka_events f now (r ∷ rs) in
      let rows : List OrderEvent = drops now (valid_events batch) in
      let promise : DropsDuplicates (drops now) = d now in
      All-append Keeps (valid_statements rows) (invalid_statements (invalid_letters digest batch))
        (valid_statements-Keeps rows (promise.unique (valid_events batch)))
        (invalid_statements-Keeps (invalid_letters digest batch))

  Step-IsDistinct : (q r : Query) → Step f digest drops q r → IsDistinct q.lake → IsDistinct r.lake
  Step-IsDistinct q _ (committed now batch rest split few) h =
      let ss = merge_statements f digest drops now batch in
      subst IsDistinct
        (ap (λ ts. run_statements ts q.lake) (first_whole ss)
          ∙ run-merge_statements f digest drops now batch q.lake)
        (first-Keeps (length ss) ss q.lake (merge_statements-Keeps now batch) h)
  Step-IsDistinct q _ (stopped now done batch rest split few) h =
      first-Keeps done (merge_statements f digest drops now batch) q.lake
        (merge_statements-Keeps now batch) h

  -- Whatever the query does and wherever it stops, the events stay unique by their id and the current
  -- orders by theirs, if they were so before and dropDuplicates keeps one of the rows of each event id.
  pub Steps-IsDistinct :
      (q r : Query) → Steps f digest drops q r → IsDistinct q.lake → IsDistinct r.lake
  Steps-IsDistinct q _ begin h = h
  Steps-IsDistinct q s (next {r} rs step) h = Step-IsDistinct r s step (Steps-IsDistinct q r rs h)
