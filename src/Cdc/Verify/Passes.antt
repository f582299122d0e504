-- ===== src/Cdc/Verify/Passes.antt =====
-- When cdc/verify_materialization.py passes, and what it leaves in public.customers.
use local_data_platform.Prelude.{
  ℕ, ◌<◌, ◌+◌, String, ◌≡◌, refl, ap, ◌∙◌, Bool, true, false, Option, none, some, List, [], ◌∷◌,
  ◌++◌, arith, nat_eq, string_eq, ltb, any, All, ◌⊎◌, inl, inr,
}
use local_data_platform.Sql.{find}
use local_data_platform.Cdc.Event.{CustomerImage}
use local_data_platform.Cdc.Bronze.{BronzeRow}
use local_data_platform.Cdc.Batch.{Database}
use local_data_platform.Cdc.Batch.Rebuilt.{IsConsistent}
use local_data_platform.Cdc.Source.{
  source_key, same_text, new_customer, insert_customer, update_customer, delete_customer,
  delete_customer-insert_customer, delete_customer-update_customer, delete_customer_absent,
  delete_customer_twice,
}
use local_data_platform.Cdc.Verify.{
  shows_name, shows_deletion, Round, Waited, found, timed_out, pending, poll_until, Wait, wait_for,
  passed, unique_violation, timeout_error, unfinished, materialized_email, Outcome, once_found,
  clean_up, after_insert, verify_materialization,
}
use local_data_platform.Cdc.Verify.Published.{IsKeyed, Published}
use local_data_platform.Cdc.Verify.Answers.{
  changes, shows_name_created, shows_name_updated, shows_deletion_all,
}

-- Some round sees such a database, and no round up to it is late.
pub data Sees (Q : Database → Type 0) (deadline : ℕ) : List Round → Type 0 where
  now :
      {r : Round} {rs : List Round}
      → r.monotonic < deadline
      → Q r.database
      → Sees Q deadline (r ∷ rs)
  later :
      {r : Round} {rs : List Round}
      → r.monotonic < deadline
      → Sees Q deadline rs
      → Sees Q deadline (r ∷ rs)

-- The service has stored these records of the customer.
pub record Stored (k : ℕ) (rows : List BronzeRow) (db : Database) : Type 0 where
  pub consistent : IsConsistent db
  pub keyed : All IsKeyed db.bronze
  pub records : changes k db consistent keyed ≡ rows

module _ (Q : Database → Type 0) (query : Database → Bool)
    (answers : (db : Database) → Q db → query db ≡ true) where
  poll_until-found :
      (deadline : ℕ) (rs : List Round) → Sees Q deadline rs → poll_until query deadline rs ≡ found
  unfolding poll_until
  poll_until-found deadline [] sees = elim sees [ ]
  poll_until-found deadline (r ∷ rs) (now early holds) =
      let in_time : ltb r.monotonic deadline ≡ true = ground arith in
      rw (in_time, answers r.database holds) refl
  poll_until-found deadline (r ∷ rs) (later early sees) =
      let in_time : ltb r.monotonic deadline ≡ true = ground arith in
      rw (in_time, poll_until-found deadline rs sees) (ground arith)

  wait_for-found : (w : Wait) → Sees Q (w.started + 180) w.rounds → wait_for query w ≡ found
  unfolding wait_for
  wait_for-found w sees = poll_until-found (w.started + 180) w.rounds sees

module _ (k : ℕ) (id : String) (created updated : Option String) where
  insert_succeeds :
      (rows : List CustomerImage) (r : CustomerImage)
      → find source_key r.customer_id rows ≡ none
      → any (λ t. same_text t.email r.email) rows ≡ false
      → insert_customer r rows ≡ some (rows ++ r ∷ [])
  unfolding insert_customer
  insert_succeeds rows r absent free = rw (absent, free) refl

  once_found_kept :
      (rows : List CustomerImage) (w : Waited) (t : List CustomerImage) (rest : Outcome)
      → delete_customer k t ≡ rows
      → delete_customer k rest.1 ≡ rows
      → delete_customer k (once_found w t rest).1 ≡ rows
  once_found_kept rows found t rest here_too after_it = after_it
  once_found_kept rows timed_out t rest here_too after_it = here_too
  once_found_kept rows pending t rest here_too after_it = here_too

  module _ (first second third : Wait) where
    -- The test passes, with the table as it was, if the table has neither the customer's number nor
    -- its email and if, before 180 seconds of each wait are over, a round sees the creation, then the
    -- change of name too, then the deletion and the tombstone too as the customer's only records of a
    -- consistent database in which every record has its row's key.
    pub verify_materialization_passes :
        (p : Published k) (rows : List CustomerImage)
        → find source_key k rows ≡ none
        → any (λ t. same_text t.email (some (materialized_email id))) rows ≡ false
        → Sees (Stored k (p.creation ∷ [])) (first.started + 180) first.rounds
        → Sees (Stored k (p.creation ∷ p.renaming ∷ [])) (second.started + 180) second.rounds
        → Sees
            (Stored k (p.creation ∷ p.renaming ∷ p.deletion ∷ p.grave ∷ []))
            (third.started + 180)
            third.rounds
        → verify_materialization k id created updated first second third rows ≡ (passed, rows)
    unfolding verify_materialization
    verify_materialization_passes p rows absent free one two all =
        let row = new_customer k (materialized_email id) created in
        let first_found =
          wait_for-found _ (shows_name k "Created")
            (λ db s. shows_name_created k db s.consistent s.keyed p s.records) first one in
        let second_found =
          wait_for-found _ (shows_name k "Updated")
            (λ db s. shows_name_updated k db s.consistent s.keyed p s.records) second two in
        let third_found =
          wait_for-found _ (shows_deletion k)
            (λ db s. shows_deletion_all k db s.consistent s.keyed p s.records) third all in
        let inserted = insert_succeeds rows row absent free in
        rw (inserted, first_found, second_found, third_found)
          (ap (λ t. (passed, t))
            (delete_customer_twice k _
              ∙ delete_customer-update_customer k updated _
              ∙ delete_customer-insert_customer row rows _ inserted
              ∙ delete_customer_absent k rows absent))

    -- However the test ends, by passing, by a timeout of any of its waits or by a conflict of the first
    -- statement, public.customers is as it was, if it had no row of the customer.
    pub verify_materialization_cleans :
        (rows : List CustomerImage)
        → find source_key k rows ≡ none
        → let (v, after) = verify_materialization k id created updated first second third rows in
          (v ≡ unfinished) ⊎ (after ≡ rows)
    unfolding verify_materialization
    verify_materialization_cleans rows absent =
        cleaned
          (after_insert k id created updated first second third rows
            (insert_customer (new_customer k (materialized_email id) created) rows))
          (by_insert (insert_customer (new_customer k (materialized_email id) created) rows) refl)
      where
        by_insert :
            (o : Option (List CustomerImage))
            → insert_customer (new_customer k (materialized_email id) created) rows ≡ o
            → delete_customer k (after_insert k id created updated first second third rows o).1
              ≡ rows
        by_insert none is = delete_customer_absent k rows absent
        by_insert (some inserted) is =
            let one : delete_customer k inserted ≡ rows =
              delete_customer-insert_customer (new_customer k (materialized_email id) created) rows
                inserted is
              ∙ delete_customer_absent k rows absent in
            let two : delete_customer k (update_customer k updated inserted) ≡ rows =
              delete_customer-update_customer k updated inserted ∙ one in
            let three = delete_customer_twice k (update_customer k updated inserted) ∙ two in
            once_found_kept rows (wait_for (shows_name k "Created") first) inserted _ one (
              once_found_kept rows (wait_for (shows_name k "Updated") second) _ _ two (
                once_found_kept rows (wait_for (shows_deletion k) third) _ (passed, _) three three))

        cleaned :
            (o : Outcome)
            → delete_customer k o.1 ≡ rows
            → ((clean_up k o).0 ≡ unfinished) ⊎ ((clean_up k o).1 ≡ rows)
        cleaned (unfinished, t) is = inl refl
        cleaned (passed, t) is = inr is
        cleaned (unique_violation, t) is = inr is
        cleaned (timeout_error, t) is = inr is
