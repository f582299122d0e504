-- ===== src/Cdc/Smoke/Exactly.antt =====
-- When the smoke test cdc/verify_cdc.py passes.
use local_data_platform.Prelude.{
  ℕ, ◌<◌, ◌≡◌, ◌↔◌, refl, sym, ap, subst, ◌∙◌, Bool, true, false, ◌||◌, List, [], ◌∷◌, ◌++◌, nat_eq,
  arith, All, inl, inr, Bool-cases,
}
use mathlib.Core.List.{append_assoc, append-nil}
use local_data_platform.Cdc.Event.{Operation, create, update, delete}
use local_data_platform.Cdc.Smoke.{
  Polled, no_message, partition_eof, failed, message, PollRound, Observation, SmokeTest, passed,
  is_target_key, observe, is_complete, after_poll, wait_for_changes,
}
use local_data_platform.Cdc.Smoke.Passed.{
  change_of, changes_of, is_tombstone, has_tombstone, is_error, Early, Completed,
  observe_operations, observe_tombstone, complete_of, no_change, not_deleted, completed,
}

module _ (customer : ℕ) where
  -- A round passes the smoke test if the rounds after it do, from what it leaves to be seen.
  passes_poll :
      (p : Polled) (o : Observation) (continue : Observation → SmokeTest) (left : List Operation)
      (gone : Bool)
      → is_complete o ≡ false
      → is_error customer p ≡ false
      → o.operations ++ (change_of customer p ++ left) ≡ create ∷ update ∷ delete ∷ []
      → (o.saw_tombstone || (is_tombstone customer p || gone)) ≡ true
      → ((next : Observation)
          → is_complete next ≡ false
          → next.operations ++ left ≡ create ∷ update ∷ delete ∷ []
          → (next.saw_tombstone || gone) ≡ true
          → continue next ≡ passed)
      → after_poll customer p o continue ≡ passed
  passes_poll no_message o continue left gone not_yet clean ops tomb ih = ih o not_yet ops tomb
  passes_poll partition_eof o continue left gone not_yet clean ops tomb ih = ih o not_yet ops tomb
  passes_poll failed o continue left gone not_yet clean ops tomb ih = cc
  passes_poll (message key value) o continue left gone not_yet clean ops tomb ih =
      elim (Bool-cases (is_target_key customer key)) [
        | inr other ↦ rw other (
            ih o not_yet
              (subst (λ xs. o.operations ++ (xs ++ left) ≡ create ∷ update ∷ delete ∷ [])
                (no_change customer key value other) ops)
              (ground (arith, not_deleted customer key value other, tomb)))
        | inl target ↦
            let next = observe value o in
            elim (Bool-cases (is_complete next)) [
              | inl done ↦ rw (target, done) refl
              | inr more ↦
                  rw (target, more)
                    (ih next more
                      (ap (λ xs. xs ++ left) (observe_operations customer key value o target)
                        ∙ append_assoc o.operations (change_of customer (message key value)) left
                        ∙ ops)
                      (ground (arith, observe_tombstone customer key value o target, tomb)))
            ]
      ]

  passes :
      (deadline : ℕ) (seen rest : List PollRound) (o : Observation)
      → is_complete o ≡ false
      → All (Early customer deadline) seen
      → o.operations ++ changes_of customer seen ≡ create ∷ update ∷ delete ∷ []
      → (o.saw_tombstone || has_tombstone customer seen) ≡ true
      → wait_for_changes customer deadline (seen ++ rest) o ≡ passed
  unfolding wait_for_changes
  passes deadline [] rest o not_yet early ops tomb =
      absurd (ground (arith, complete_of customer o (sym (append-nil o.operations) ∙ ops)))
  passes deadline (r ∷ rs) rest o not_yet early ops tomb =
      let soon : r.monotonic < deadline = early.0.0 in
      let here_passes : after_poll customer r.polled o
            (wait_for_changes customer deadline (rs ++ rest))
          ≡ passed =
        passes_poll r.polled o (wait_for_changes customer deadline (rs ++ rest))
          (changes_of customer rs) (has_tombstone customer rs) not_yet early.0.1 ops tomb
          (λ next more left gone. passes deadline rs rest next more early.1 left gone) in
      ground (arith, here_passes)

abbrev pub nothing_seen : Observation
nothing_seen = record { operations = []; saw_tombstone = false }

-- The smoke test passes exactly if some first rounds, all before the deadline and without an error
-- record, show of the customer exactly a create, an update and a delete, in this order and each once,
-- and a tombstone.
pub wait_for_changes_iff :
    (customer deadline : ℕ) (rounds : List PollRound)
    → (wait_for_changes customer deadline rounds nothing_seen ≡ passed)
      ↔ Completed customer deadline rounds nothing_seen
wait_for_changes_iff customer deadline rounds = (
  completed customer deadline rounds nothing_seen,
  λ c.
      subst (λ rs. wait_for_changes customer deadline rs nothing_seen ≡ passed) (sym c.split)
        (passes customer deadline c.seen c.rest nothing_seen refl c.early c.changes c.tombstone),
)
