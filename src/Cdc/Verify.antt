-- ===== src/Cdc/Verify.antt =====
-- The end-to-end test cdc/verify_materialization.py: the rounds of each `wait_for`, with the database
-- that the round's transaction sees, and `main` over the statements on public.customers.
pub mod Published
pub mod Answers
pub mod Passes
mod Tests
use Prim.Native.String.{◌++◌ as concat}
use local_data_platform.Prelude.{
  ℕ, ◌+◌, String, ◌≡◌, Bool, true, false, not, ◌&&◌, Option, none, some, List, [], ◌∷◌, ◌++◌, ◌==◌,
  nat_eq, string_eq, ltb, select, any, every, count_if, if◌then◌else◌,
}
use local_data_platform.Cdc.Event.{
  Operation, read, create, update, delete, tombstone, other, CustomerImage,
}
use local_data_platform.Cdc.Bronze.{BronzeRow}
use local_data_platform.Cdc.Silver.{SilverRow, customers_current}
use local_data_platform.Cdc.Batch.{Database}
use local_data_platform.Cdc.Source.{
  same_text, new_customer, insert_customer, update_customer, delete_customer,
}

abbrev pub same_operation : Operation → Operation → Bool
same_operation read read = true
same_operation create create = true
same_operation update update = true
same_operation delete delete = true
same_operation tombstone tombstone = true
same_operation (other s) (other t) = s == t
same_operation _ _ = false

module _ (k : ℕ) where
  abbrev pub is_row : SilverRow → Bool
  is_row r = r.customer_id == k

  abbrev pub is_named : String → SilverRow → Bool
  is_named name r = same_text r.last_name (some name)

  -- SELECT COUNT(*) = 1 .. WHERE customer_id = .. AND last_name = ..
  unfoldable pub shows_name : String → Database → Bool
  shows_name name db =
      count_if (λ r. is_row r && is_named name r) (customers_current db.silver) == 1

  abbrev pub is_change_of : BronzeRow → Bool
  is_change_of b = b.customer_id == k

  -- ARRAY['c', 'u', 'd', 't'] <@ ARRAY(SELECT operation ..)
  abbrev pub has_operation : List BronzeRow → Operation → Bool
  has_operation rows op = any (λ b. same_operation b.operation op) (select is_change_of rows)

  abbrev pub all_operations : List Operation
  all_operations = create ∷ update ∷ delete ∷ tombstone ∷ []

  unfoldable pub shows_deletion : Database → Bool
  shows_deletion db =
      not (any is_row (customers_current db.silver))
      && (any (λ r. is_row r && r.is_deleted) db.silver
          && every (has_operation db.bronze) all_operations)

-- A round of `wait_for`: the clock where the loop tests it, and the committed state that it reads.
pub record Round : Type 0 where
  pub monotonic : ℕ
  pub database : Database

pub data Waited : Type 0 where
  -- `pending`: the rounds given are over
  found timed_out pending : Waited

unfoldable pub poll_until : (Database → Bool) → ℕ → List Round → Waited
poll_until query deadline [] = pending
poll_until query deadline (r ∷ rs) =
    let rest = poll_until query deadline rs in
    if ltb r.monotonic deadline then (if query r.database then found else rest) else timed_out

-- A call of `wait_for`: its first reading of the clock, and its rounds.
pub record Wait : Type 0 where
  pub started : ℕ
  pub rounds : List Round

unfoldable pub wait_for : (Database → Bool) → Wait → Waited
unfolding poll_until
wait_for query w = poll_until query (w.started + 180) w.rounds

pub data Verification : Type 0 where
  -- `unfinished`: a wait is pending
  passed unique_violation timeout_error unfinished : Verification

abbrev pub materialized_email : String → String
materialized_email id = concat "cdc-materialized-" (concat id "@example.test")

abbrev pub Outcome : Type 0
Outcome = Verification × List CustomerImage

-- The block goes on after the wait, or the exception leaves it with the table as it is.
abbrev pub once_found : Waited → List CustomerImage → Outcome → Outcome
once_found found rows rest = rest
once_found timed_out rows rest = (timeout_error, rows)
once_found pending rows rest = (unfinished, rows)

-- The `finally` block: whatever the outcome, the row is deleted.
abbrev pub clean_up : ℕ → Outcome → Outcome
clean_up k (unfinished, rows) = (unfinished, rows)
clean_up k (v, rows) = (v, delete_customer k rows)

module _ (k : ℕ) (id : String) (created updated : Option String) (first second third : Wait) where
  abbrev pub after_deletion : List CustomerImage → Outcome
  after_deletion rows = once_found (wait_for (shows_deletion k) third) rows (passed, rows)

  abbrev pub after_update : List CustomerImage → Outcome
  after_update rows =
      once_found (wait_for (shows_name k "Updated") second) rows
        (after_deletion (delete_customer k rows))

  abbrev pub after_insert : List CustomerImage → Option (List CustomerImage) → Outcome
  after_insert rows none = (unique_violation, rows)
  after_insert rows (some inserted) =
      once_found (wait_for (shows_name k "Created") first) inserted
        (after_update (update_customer k updated inserted))

  unfoldable pub verify_materialization : List CustomerImage → Outcome
  unfolding wait_for
  verify_materialization rows =
      clean_up k
        (after_insert rows (insert_customer (new_customer k (materialized_email id) created) rows))
