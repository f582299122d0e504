-- ===== src/Producer.antt =====
-- `main` of kafka/producer/publish_orders.py: the staged orders of one window become events, and the
-- task succeeds once the broker has acknowledged each of them. The parser of the command line's
-- bounds, uuid5 with its text, and what the broker does with an event are parameters. Here the local
-- buffer takes every event; Producer.Buffer has the loop that waits for it.
pub mod Delivered
pub mod Published
pub mod Committed
pub mod Buffer
mod Tests
use local_data_platform.Prelude.{
  ℕ, ◌+◌, String, Bool, true, false, ◌&&◌, ◌||◌, Option, none, some, List, [], ◌∷◌, map, Result, ok,
  err, ◌>>=◌, ◌==◌, nat_eq, string_eq, ltb, leb, zero, suc, select, if◌then◌else◌,
}
use local_data_platform.Prelude.Int.{ℤ}
use local_data_platform.Sql.{find}
use local_data_platform.Pipeline.Watermark.{WatermarkRow, name_of}
use local_data_platform.Pipeline.Extract.{Bound, at_least, before, after, up_to, passes}
use local_data_platform.Pipeline.Config.{replace_z}

pub record Arguments : Type 0 where
  pub limit : Option ℕ
  pub start : Option String
  pub end : Option String

-- A row of staging.orders, by the columns of the query.
pub record StagedOrder : Type 0 where
  pub order_id : ℕ
  pub customer_id : ℕ
  pub status : String
  pub total_amount : ℤ
  pub order_date : ℕ
  pub updated_at : ℕ

-- The `data` of an event.
pub record Data : Type 0 where
  pub order_id : ℕ
  pub customer_id : ℕ
  pub status : String
  pub total_amount : ℤ
  pub order_date : ℕ
  pub source_updated_at : ℕ

pub record Event : Type 0 where
  pub event_id : String
  pub event_type : String
  pub schema_version : ℕ
  pub occurred_at : ℕ
  pub produced_at : ℕ
  pub order : Data

pub data ProducerError : Type 0 where
  bounds_not_together missing_candidate invalid_bound : ProducerError
  not_delivered : ℕ → ProducerError
  deliveries_failed : ℕ → String → ProducerError

-- What becomes of an event until the flush is over.
pub data Fate : Type 0 where
  acknowledged unanswered : Fate
  rejected : String → Fate

abbrev pub parsed_bounds : Option ℕ → Option ℕ → Result ProducerError (Bound × Bound)
parsed_bounds (some a) (some b) = ok (at_least (some a), before (some b))
parsed_bounds _ _ = err invalid_bound

abbrev pub watermark_bounds : Option WatermarkRow → Result ProducerError (Bound × Bound)
watermark_bounds none = err missing_candidate
watermark_bounds (some w) = elim w.candidate_value [
  | none ↦ err missing_candidate
  | some candidate ↦ ok (after w.watermark_value, up_to candidate)
]

unfoldable pub bounds :
    (String → Option ℕ)
    → Option String
    → Option String
    → List WatermarkRow
    → Result ProducerError (Bound × Bound)
bounds fromisoformat none none watermarks =
    watermark_bounds (find name_of "staging_orders" watermarks)
bounds fromisoformat (some start) (some end) watermarks =
    parsed_bounds (fromisoformat (replace_z start)) (fromisoformat (replace_z end))
bounds fromisoformat none (some end) watermarks = err bounds_not_together
bounds fromisoformat (some start) none watermarks = err bounds_not_together

-- ORDER BY updated_at, order_id
abbrev pub not_after : StagedOrder → StagedOrder → Bool
not_after o p =
    ltb o.updated_at p.updated_at || ((o.updated_at == p.updated_at) && leb o.order_id p.order_id)

unfoldable pub insert_sorted : StagedOrder → List StagedOrder → List StagedOrder
insert_sorted o [] = o ∷ []
insert_sorted o (p ∷ ps) =
    let rest = insert_sorted o ps in if not_after o p then o ∷ p ∷ ps else p ∷ rest

unfoldable pub order_by : List StagedOrder → List StagedOrder
order_by [] = []
order_by (o ∷ os) = insert_sorted o (order_by os)

-- LIMIT
abbrev pub take : ℕ → List StagedOrder → List StagedOrder
take zero os = []
take (suc n) [] = []
take (suc n) (o ∷ os) = o ∷ take n os

abbrev pub limited : Option ℕ → List StagedOrder → List StagedOrder
limited none os = os
limited (some n) os = take n os

abbrev pub in_bounds : Bound × Bound → StagedOrder → Bool
in_bounds b o = passes b.0 o.updated_at && passes b.1 o.updated_at

unfoldable pub query : Bound × Bound → Option ℕ → List StagedOrder → List StagedOrder
query b limit orders = limited limit (order_by (select (in_bounds b) orders))

-- The clock is read for each event.
abbrev pub event_of : (ℕ → ℕ → String) → (StagedOrder → ℕ) → StagedOrder → Event
event_of uuid5 now o = record {
  event_id = uuid5 o.order_id o.updated_at;
  event_type = "order.upserted";
  schema_version = 1;
  occurred_at = o.order_date;
  produced_at = now o;
  order = record {
    order_id = o.order_id;
    customer_id = o.customer_id;
    status = o.status;
    total_amount = o.total_amount;
    order_date = o.order_date;
    source_updated_at = o.updated_at;
  };
}

-- One event's part in the count of the delivered, the errors and the count of the remaining.
abbrev pub tally_fate : Fate → ℕ × List String × ℕ → ℕ × List String × ℕ
tally_fate acknowledged (delivered, errors, remaining) = (delivered + 1, errors, remaining)
tally_fate (rejected error) (delivered, errors, remaining) = (delivered, error ∷ errors, remaining)
tally_fate unanswered (delivered, errors, remaining) = (delivered, errors, remaining + 1)

-- `delivery_callback` over the events, with what `flush` leaves.
unfoldable pub deliver : (Event → Fate) → List Event → ℕ × List String × ℕ
deliver fate [] = (0, [], 0)
deliver fate (e ∷ es) = tally_fate (fate e) (deliver fate es)

abbrev pub count : List String → ℕ
count [] = 0
count (e ∷ es) = suc (count es)

abbrev pub outcome : ℕ × List String × ℕ → Result ProducerError ℕ
outcome (delivered, errors, suc n) = err (not_delivered (suc n))
outcome (delivered, [], zero) = ok delivered
outcome (delivered, e ∷ es, zero) = err (deliveries_failed (suc (count es)) e)

module _ (fromisoformat : String → Option ℕ) (uuid5 : ℕ → ℕ → String) (fate : Event → Fate) where
  -- The number of the delivered events, or the exception.
  unfoldable pub publish_orders :
      Arguments → (StagedOrder → ℕ) → List WatermarkRow → List StagedOrder → Result ProducerError ℕ
  publish_orders args now watermarks orders = do
    window ← bounds fromisoformat args.start args.end watermarks
    outcome (deliver fate (map (event_of uuid5 now) (query window args.limit orders)))
