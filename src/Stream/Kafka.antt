-- ===== src/Stream/Kafka.antt =====
-- From the Kafka rows of spark/jobs/order_stream.py to the three tables: parsing, then merging.
use local_data_platform.Prelude.{
  ℕ, String, ◌≡◌, refl, sym, ap, ◌∙◌, subst, Bool, true, false, Option, none, some, List, [], ◌∷◌,
  map, string_eq, In, here, there, In-cons, select, select-In, In-select, if◌then◌else◌, inl, inr,
  ◌⊎◌, some_inj,
}
use local_data_platform.Prelude.Int.{pos}
use local_data_platform.Sql.{find, has}
use local_data_platform.Sql.Selection.{find-In}
use local_data_platform.Stream.{
  Functions, KafkaRow, ParsedRow, timestamp_of, validity, parse_row, parse_kafka_events,
}
use local_data_platform.Stream.Batch.{
  OrderEvent, DeadLetter, Lake, order_key, letter_key, event_row, passes_filter, valid_event,
  cons_some, valid_events, passes_not_filter, dead_letter, invalid_letters, merge_batch,
}
use local_data_platform.Stream.Batch.Lookup.{DropsDuplicates, merge_batch-steps, nothing_dropped}
use local_data_platform.Stream.Complete.{In-valid_events, In-map, IsVersioned}
use local_data_platform.Stream.Replay.{IsReplay, version, replayed}

cons_some-In :
    (o : Option OrderEvent) (es : List OrderEvent) (e : OrderEvent)
    → In e (cons_some o es)
    → (o ≡ some e) ⊎ In e es
cons_some-In none es e i = inr i
cons_some-In (some x) es e i = elim (In-cons i) [
  | inl same ↦ inl (ap some (sym same))
  | inr j ↦ inr j
]

pub valid_events-In :
    (b : List ParsedRow) (e : OrderEvent)
    → In e (valid_events b)
    → (r : ParsedRow) × In r b × (valid_event r ≡ some e)
unfolding valid_events
valid_events-In [] e i = elim i [ ]
valid_events-In (q ∷ rs) e i = elim (cons_some-In (valid_event q) (valid_events rs) e i) [
  | inl is ↦ (q, here, is)
  | inr j ↦ let (r, k, is) = valid_events-In rs e j in (r, there k, is)
]

pub map-In :
    {A B : Type 0} (f : A → B) (xs : List A) (y : B)
    → In y (map f xs)
    → (x : A) × In x xs × (y ≡ f x)
map-In f [] y i = elim i [ ]
map-In f (x ∷ xs) y i = elim (In-cons i) [
  | inl same ↦ (x, here, same)
  | inr j ↦ let (z, k, is) = map-In f xs y j in (z, there k, is)
]

-- Two rows with the same test and the same three columns give events with the same three columns.
pub same_event :
    (r q : ParsedRow) (valid : Bool) (event order : Option String) (updated : Option ℕ)
    (e : OrderEvent)
    → (if valid then event_row r event order updated else none) ≡ some e
    → (x : OrderEvent) × ((if valid then event_row q event order updated else none) ≡ some x)
      × (x.event_id ≡ e.event_id)
      × (x.order_id ≡ e.order_id)
      × (x.source_updated_at ≡ e.source_updated_at)
same_event r q false event order updated e h = cc
same_event r q true none order updated e h = cc
same_event r q true (some i) none updated e h = cc
same_event r q true (some i) (some o) none e h = cc
same_event r q true (some i) (some o) (some t) e h = (
  _,
  refl,
  ap (λ (z : OrderEvent). z.event_id) (some_inj h),
  ap (λ (z : OrderEvent). z.order_id) (some_inj h),
  ap (λ (z : OrderEvent). z.source_updated_at) (some_inj h),
)

module _ (f : Functions) (digest : String → ℕ → ℕ → String) (now later : ℕ)
    (rows : List KafkaRow) where
  -- Parsed again at a later time, the same Kafka rows are a replay.
  parse_kafka_events-IsReplay :
      IsReplay digest (parse_kafka_events f now rows) (parse_kafka_events f later rows)
  unfolding parse_kafka_events invalid_letters
  parse_kafka_events-IsReplay = record { events = same_events; letters = same_letters }
    where
      same_events :
          (e : OrderEvent)
          → In e (valid_events (map (parse_row f later) rows))
          → (x : OrderEvent) × In x (valid_events (map (parse_row f now) rows))
            × (x.event_id ≡ e.event_id)
            × (x.order_id ≡ e.order_id)
            × (x.source_updated_at ≡ e.source_updated_at)
      same_events e i =
          let (r, j, valid) = valid_events-In (map (parse_row f later) rows) e i in
          let (row, k, is) = map-In (parse_row f later) rows r j in
          let (x, made, id, order, time) =
            same_event (parse_row f later row) (parse_row f now row)
              (passes_filter (parse_row f now row).is_valid) (parse_row f now row).event_id
              (parse_row f now row).order_id (parse_row f now row).source_updated_at e
              (sym (ap valid_event is) ∙ valid) in
          (
            x,
            In-valid_events (map (parse_row f now) rows) (parse_row f now row) x
                (In-map (parse_row f now) rows row k) made,
            id,
            order,
            time,
          )

      same_letters :
          (l : DeadLetter)
          → In l (invalid_letters digest (map (parse_row f later) rows))
          → has letter_key l.dead_letter_id (invalid_letters digest (map (parse_row f now) rows))
            ≡ true
      same_letters l i =
          let invalid = λ (r : ParsedRow). passes_not_filter r.is_valid in
          let (r, j, same) =
            map-In (dead_letter digest) (select invalid (map (parse_row f later) rows)) l i in
          let (k, fails) = select-In invalid (map (parse_row f later) rows) r j in
          let (row, m, is) = map-In (parse_row f later) rows r k in
          let found =
            find-In letter_key (invalid_letters digest (map (parse_row f now) rows))
              (dead_letter digest (parse_row f now row))
              (In-map (dead_letter digest) (select invalid (map (parse_row f now) rows))
                (parse_row f now row)
                (In-select invalid (map (parse_row f now) rows) (parse_row f now row)
                  (In-map (parse_row f now) rows row m) (sym (ap invalid is) ∙ fails))) in
          subst
            (λ key. has letter_key key (invalid_letters digest (map (parse_row f now) rows)) ≡ true)
            (sym (ap letter_key (same ∙ ap (dead_letter digest) is))) found

module _ (f : Functions) (digest : String → ℕ → ℕ → String)
    (drop again : List OrderEvent → List OrderEvent) (d : DropsDuplicates drop)
    (a : DropsDuplicates again) (now later : ℕ) (rows : List KafkaRow) (lake : Lake) where
  -- Run again over the same Kafka rows, at a later time and with whatever choice among duplicates,
  -- a micro-batch changes neither the history nor the dead letters, and leaves every order at its
  -- version, if the rows with one event id are versions of one order at one time.
  pub merge_batch_replay :
      IsVersioned (valid_events (parse_kafka_events f now rows))
      → ((merge_batch again digest
            (parse_kafka_events f later rows)
            (merge_batch drop digest (parse_kafka_events f now rows) lake)).events
          ≡ (merge_batch drop digest (parse_kafka_events f now rows) lake).events)
        × ((merge_batch again digest
              (parse_kafka_events f later rows)
              (merge_batch drop digest (parse_kafka_events f now rows) lake)).dead_letters
            ≡ (merge_batch drop digest (parse_kafka_events f now rows) lake).dead_letters)
        × ((k : String)
            → version (
                find order_key k
                  (merge_batch again digest
                    (parse_kafka_events f later rows)
                    (merge_batch drop digest (parse_kafka_events f now rows) lake)).current)
              ≡ version (
                  find order_key k
                    (merge_batch drop digest (parse_kafka_events f now rows) lake).current))
  merge_batch_replay v =
      replayed drop again digest d a (parse_kafka_events f now rows)
        (parse_kafka_events f later rows) (parse_kafka_events-IsReplay f digest now later rows) lake
        v

-- A row whose test is NULL passes neither filter.
not_valid : (r : ParsedRow) → r.is_valid ≡ none → valid_events (r ∷ []) ≡ []
unfolding valid_events
not_valid r h =
    ap
      (λ t.
        cons_some
          (if passes_filter t then event_row r r.event_id r.order_id r.source_updated_at else none)
          [])
      h

not_invalid :
    (digest : String → ℕ → ℕ → String) (r : ParsedRow)
    → r.is_valid ≡ none
    → invalid_letters digest (r ∷ []) ≡ []
unfolding invalid_letters
not_invalid digest r h =
    ap (λ t. map (dead_letter digest) (if passes_not_filter t then r ∷ [] else [])) h

-- A record whose event id, order and update time are there, whose version is 1 or missing, and
-- whose event type is missing is lost: its test is NULL, so it is neither merged nor kept as a dead
-- letter, and no table changes.
pub merge_batch_loses :
    (f : Functions) (digest : String → ℕ → ℕ → String) (drop : List OrderEvent → List OrderEvent)
    (now : ℕ) (row : KafkaRow) (lake : Lake) (event order : String) (updated : ℕ)
    → DropsDuplicates drop
    → (f.from_json row.value).event_id ≡ some event
    → (f.from_json row.value).event_type ≡ none
    → ((f.from_json row.value).schema_version ≡ some (pos 1))
      ⊎ ((f.from_json row.value).schema_version ≡ none)
    → (f.from_json row.value).order_id ≡ some order
    → timestamp_of f.to_timestamp (f.from_json row.value).source_updated_at ≡ some updated
    → merge_batch drop digest (parse_kafka_events f now (row ∷ [])) lake ≡ lake
unfolding parse_kafka_events validity
merge_batch_loses f digest drop now row lake event order updated d e t v o u =
    let r = parse_row f now row in
    let unknown : (parse_row f now row).is_valid ≡ none = elim v [
      | inl one ↦ rw (e, t, one, o, u) refl
      | inr missing ↦ rw (e, t, missing, o, u) refl
    ] in
    merge_batch-steps drop digest d (r ∷ []) lake
    ∙ rw (not_valid r unknown, not_invalid digest r unknown, nothing_dropped drop d) refl
