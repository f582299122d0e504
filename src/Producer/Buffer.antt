-- ===== src/Producer/Buffer.antt =====
-- The `while True` loop of kafka/producer/publish_orders.py, which hands an event over until the local
-- buffer takes it, and `main` with it. The answers of `producer.produce` to an event come as a list.
use local_data_platform.Prelude.{
  ℕ, ◌+◌, String, ◌≡◌, refl, sym, ap, ◌∙◌, Bool, true, false, Option, none, some, List, [], ◌∷◌,
  ◌++◌, map, any, arith, Result, ok, err, ◌>>=◌,
}
use mathlib.Core.List.{append_assoc, append-nil}
use local_data_platform.Pipeline.Watermark.{WatermarkRow}
use local_data_platform.Pipeline.Extract.{Bound}
use local_data_platform.Producer.{
  Arguments, StagedOrder, Event, ProducerError, Fate, bounds, query, event_of, deliver, outcome,
  publish_orders,
}

pub data Attempt : Type 0 where
  taken buffer_error : Attempt

abbrev pub is_taken : Attempt → Bool
is_taken taken = true
is_taken buffer_error = false

-- The producer's queue, and the calls of `poll`.
pub record Buffer : Type 0 where
  pub queue : List Event
  pub polls : ℕ

-- The loop for one event; `none` while the attempts given are over.
unfoldable pub hand_over : Event → List Attempt → Buffer → Option Buffer
hand_over e [] b = none
hand_over e (taken ∷ rest) b = some (record { queue = b.queue ++ e ∷ []; polls = b.polls + 1 })
hand_over e (buffer_error ∷ rest) b = hand_over e rest (record b { polls = b.polls + 1 })

abbrev pub then_next : Option Buffer → (Buffer → Option Buffer) → Option Buffer
then_next none next = none
then_next (some b) next = next b

abbrev pub after_window :
    Result ProducerError (Bound × Bound)
    → (Bound × Bound → Option (Result ProducerError ℕ))
    → Option (Result ProducerError ℕ)
after_window (err e) next = some (err e)
after_window (ok window) next = next window

module _ (attempts : Event → List Attempt) where
  unfoldable pub produce_all : List Event → Buffer → Option Buffer
  unfolding hand_over
  produce_all [] b = some b
  produce_all (e ∷ es) b = then_next (hand_over e (attempts e) b) (produce_all es)

  abbrev pub flushed : (Event → Fate) → Option Buffer → Option (Result ProducerError ℕ)
  flushed fate none = none
  flushed fate (some b) = some (outcome (deliver fate b.queue))

  module _ (fromisoformat : String → Option ℕ) (uuid5 : ℕ → ℕ → String) (fate : Event → Fate) where
    -- `main`; `none` while an event waits for the buffer.
    unfoldable pub publish_buffered :
        Arguments
        → (StagedOrder → ℕ)
        → List WatermarkRow
        → List StagedOrder
        → Option (Result ProducerError ℕ)
    unfolding produce_all
    publish_buffered args now watermarks orders =
        after_window (bounds fromisoformat args.start args.end watermarks) (λ window. flushed fate (
          produce_all (map (event_of uuid5 now) (query window args.limit orders))
            (record { queue = []; polls = 0 })))

  hand_over_queues :
      (e : Event) (answers : List Attempt) (b : Buffer)
      → any is_taken answers ≡ true
      → (c : Buffer) × (hand_over e answers b ≡ some c) × (c.queue ≡ b.queue ++ e ∷ [])
  unfolding hand_over
  hand_over_queues e [] b h = absurd (ground (arith, h))
  hand_over_queues e (taken ∷ rest) b h = (_, refl, refl)
  hand_over_queues e (buffer_error ∷ rest) b h =
      hand_over_queues e rest (record b { polls = b.polls + 1 }) h

  module _ (in_time : (e : Event) → any is_taken (attempts e) ≡ true) where
    produce_all_queues :
        (es : List Event) (b : Buffer)
        → (c : Buffer) × (produce_all es b ≡ some c) × (c.queue ≡ b.queue ++ es)
    unfolding produce_all
    produce_all_queues [] b = (b, refl, sym (append-nil b.queue))
    produce_all_queues (e ∷ es) b =
        let (c, taken_is, queue) = hand_over_queues e (attempts e) b (in_time e) in
        let (last, is, all) = produce_all_queues es c in
        (
          last,
          ap (λ o. then_next o (produce_all es)) taken_is ∙ is,
          all ∙ ap (λ q. q ++ es) queue ∙ append_assoc b.queue (e ∷ []) es,
        )

    -- If the buffer takes every event after however many refusals, the run comes to the end that it
    -- has without a full buffer: no event is lost, handed over twice or out of order.
    pub publish_buffered-publish_orders :
        (fromisoformat : String → Option ℕ) (uuid5 : ℕ → ℕ → String) (fate : Event → Fate)
        (args : Arguments) (now : StagedOrder → ℕ) (watermarks : List WatermarkRow)
        (orders : List StagedOrder)
        → publish_buffered fromisoformat uuid5 fate args now watermarks orders
          ≡ some (publish_orders fromisoformat uuid5 fate args now watermarks orders)
    unfolding publish_buffered publish_orders
    publish_buffered-publish_orders fromisoformat uuid5 fate args now watermarks orders =
        by_window (bounds fromisoformat args.start args.end watermarks)
      where
        by_window :
            (w : Result ProducerError (Bound × Bound))
            → after_window w (λ window. flushed fate (
                produce_all
                  (map (event_of uuid5 now) (query window args.limit orders))
                  (record { queue = []; polls = 0 })))
              ≡ some (
                  w >>= λ window.
                  outcome
                    (deliver fate (map (event_of uuid5 now) (query window args.limit orders))))
        by_window (err e) = refl
        by_window (ok window) =
            let events = map (event_of uuid5 now) (query window args.limit orders) in
            let (b, is, queue) = produce_all_queues events (record { queue = []; polls = 0 }) in
            ap (flushed fate) is ∙ ap (λ q. some (outcome (deliver fate q))) queue
