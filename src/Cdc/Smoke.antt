-- ===== src/Cdc/Smoke.antt =====
-- The smoke test cdc/verify_cdc.py: the topic's tail and the loop of `main` that waits for the three
-- changes of one customer. What the consumer answers comes as one record for each round.
pub mod Passed
pub mod Exactly
mod Tests
use local_data_platform.Prelude.{
  ℕ, Bool, true, false, ◌&&◌, Option, none, some, List, [], ◌∷◌, ◌++◌, ◌==◌, nat_eq, ltb, leb,
  if◌then◌else◌,
}
use local_data_platform.Cdc.Event.{Operation, create, update, delete}

-- The high watermark of each partition.
pub record Partition : Type 0 where
  pub partition_id : ℕ
  pub high : ℕ

-- `sorted(..)` by the partition's number
unfoldable pub insert_partition : Partition → List Partition → List Partition
insert_partition p [] = p ∷ []
insert_partition p (q ∷ qs) =
    let rest = insert_partition p qs in
    if leb p.partition_id q.partition_id then p ∷ q ∷ qs else q ∷ rest

-- The assigned positions, or nothing when the topic is unavailable.
unfoldable pub assign_topic_tail : Option (List Partition) → Option (List Partition)
assign_topic_tail none = none
assign_topic_tail (some partitions) = some (sorted partitions)
  where
    sorted : List Partition → List Partition
    sorted [] = []
    sorted (p ∷ ps) = insert_partition p (sorted ps)

-- What `poll` gives: no message, an error record, or a message with its decoded key and, unless it is
-- a tombstone, the `op` of its event.
pub data Polled : Type 0 where
  no_message partition_eof : Polled
  failed : Polled
  message : Option ℕ → Option (Option Operation) → Polled

pub record PollRound : Type 0 where
  pub monotonic : ℕ
  pub polled : Polled

pub record Observation : Type 0 where
  pub operations : List Operation
  pub saw_tombstone : Bool

pub data SmokeTest : Type 0 where
  passed kafka_error unfinished : SmokeTest
  timed_out : Observation → SmokeTest

abbrev pub is_target_key : ℕ → Option ℕ → Bool
is_target_key customer none = false
is_target_key customer (some key) = key == customer

-- `operation in {"c", "u", "d"}`
abbrev pub is_change : Operation → Bool
is_change create = true
is_change update = true
is_change delete = true
is_change _ = false

abbrev pub append_change : Option Operation → List Operation → List Operation
append_change none ops = ops
append_change (some op) ops = if is_change op then ops ++ op ∷ [] else ops

abbrev pub observe : Option (Option Operation) → Observation → Observation
observe none o = record o { saw_tombstone = true }
observe (some op) o = record o { operations = append_change op o.operations }

-- `operations == ["c", "u", "d"]`
abbrev pub is_sequence : List Operation → Bool
is_sequence (create ∷ update ∷ delete ∷ []) = true
is_sequence _ = false

abbrev pub is_complete : Observation → Bool
is_complete o = is_sequence o.operations && o.saw_tombstone

-- A round of the loop, with the rounds after it.
abbrev pub after_poll : ℕ → Polled → Observation → (Observation → SmokeTest) → SmokeTest
after_poll customer no_message o continue = continue o
after_poll customer partition_eof o continue = continue o
after_poll customer failed o continue = kafka_error
after_poll customer (message key value) o continue =
    let seen = observe value o in
    if is_target_key customer key
    then (if is_complete seen then passed else continue seen)
    else continue o

-- The loop of `main`, over the rounds.
unfoldable pub wait_for_changes : ℕ → ℕ → List PollRound → Observation → SmokeTest
wait_for_changes customer deadline [] o = unfinished
wait_for_changes customer deadline (r ∷ rs) o =
    if ltb r.monotonic deadline
    then after_poll customer r.polled o (wait_for_changes customer deadline rs)
    else timed_out o
