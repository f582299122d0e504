-- ===== src/Cdc/Smoke/Passed.antt =====
-- What the smoke test cdc/verify_cdc.py has seen when it passes.
use local_data_platform.Prelude.{
  ℕ, ◌<◌, ◌≡◌, refl, sym, ap, ◌∙◌, Bool, true, false, ◌&&◌, ◌||◌, Option, none, some, List, [], ◌∷◌,
  ◌++◌, nat_eq, ltb, arith, if◌then◌else◌, All, inl, inr, Bool-cases,
}
use mathlib.Core.List.{append_assoc, append-nil}
use local_data_platform.Cdc.Event.{Operation, create, update, delete}
use local_data_platform.Cdc.Smoke.{
  Polled, no_message, partition_eof, failed, message, PollRound, Observation, SmokeTest, passed,
  is_target_key, is_change, observe, is_sequence, is_complete, after_poll, wait_for_changes,
}

module _ (customer : ℕ) where
  -- The change of the customer that a round shows.
  abbrev pub change_of : Polled → List Operation
  change_of (message key (some (some op))) =
      if is_target_key customer key && is_change op then op ∷ [] else []
  change_of _ = []

  abbrev pub changes_of : List PollRound → List Operation
  changes_of [] = []
  changes_of (r ∷ rs) = change_of r.polled ++ changes_of rs

  abbrev pub is_tombstone : Polled → Bool
  is_tombstone (message key none) = is_target_key customer key
  is_tombstone _ = false

  abbrev pub has_tombstone : List PollRound → Bool
  has_tombstone [] = false
  has_tombstone (r ∷ rs) = is_tombstone r.polled || has_tombstone rs

  -- A round before the deadline without an error record.
  abbrev pub is_error : Polled → Bool
  is_error failed = true
  is_error _ = false

  abbrev pub Early : ℕ → PollRound → Type 0
  Early deadline r = (r.monotonic < deadline) × (is_error r.polled ≡ false)

  -- The rounds up to the one that completes an observation.
  pub record Completed (deadline : ℕ) (rounds : List PollRound) (o : Observation) : Type 0 where
    pub seen : List PollRound
    pub rest : List PollRound
    pub split : rounds ≡ seen ++ rest
    pub early : All (Early deadline) seen
    pub changes : o.operations ++ changes_of seen ≡ create ∷ update ∷ delete ∷ []
    pub tombstone : (o.saw_tombstone || has_tombstone seen) ≡ true

  sequence_of :
      (ops : List Operation) → is_sequence ops ≡ true → ops ≡ create ∷ update ∷ delete ∷ []
  sequence_of (create ∷ update ∷ delete ∷ []) h = refl
  sequence_of _ h = cc

  -- The observation after a message of the customer, by what the round shows.
  pub observe_operations :
      (key : Option ℕ) (value : Option (Option Operation)) (o : Observation)
      → is_target_key customer key ≡ true
      → (observe value o).operations ≡ o.operations ++ change_of (message key value)
  observe_operations key none o h = sym (append-nil o.operations)
  observe_operations key (some none) o h = sym (append-nil o.operations)
  observe_operations key (some (some op)) o h = ground (arith, append-nil o.operations)

  pub observe_tombstone :
      (key : Option ℕ) (value : Option (Option Operation)) (o : Observation)
      → is_target_key customer key ≡ true
      → (observe value o).saw_tombstone ≡ (o.saw_tombstone || is_tombstone (message key value))
  observe_tombstone key none o h = ground arith
  observe_tombstone key (some op) o h = ground arith

  is_complete_sound :
      (o : Observation)
      → is_complete o ≡ true
      → (o.operations ≡ create ∷ update ∷ delete ∷ []) × (o.saw_tombstone ≡ true)
  is_complete_sound o h = (sequence_of o.operations (ground arith), ground arith)

  pub complete_of :
      (o : Observation)
      → o.operations ≡ create ∷ update ∷ delete ∷ []
      → is_complete o ≡ o.saw_tombstone
  complete_of o h = rw h refl

  pub no_change :
      (key : Option ℕ) (value : Option (Option Operation))
      → is_target_key customer key ≡ false
      → change_of (message key value) ≡ []
  no_change key none h = refl
  no_change key (some none) h = refl
  no_change key (some (some op)) h = rw h refl

  pub not_deleted :
      (key : Option ℕ) (value : Option (Option Operation))
      → is_target_key customer key ≡ false
      → is_tombstone (message key value) ≡ false
  not_deleted key none h = h
  not_deleted key (some op) h = refl

  module _ (deadline : ℕ) (r : PollRound) (rs : List PollRound) (o : Observation)
      (soon : Early deadline r) where
    -- A round before the completed ones.
    extend :
        (next : Observation)
        → next.operations ≡ o.operations ++ change_of r.polled
        → next.saw_tombstone ≡ (o.saw_tombstone || is_tombstone r.polled)
        → Completed deadline rs next
        → Completed deadline (r ∷ rs) o
    extend next ops tomb c = record {
      seen = r ∷ c.seen;
      rest = c.rest;
      split = ap (λ xs. r ∷ xs) c.split;
      early = (soon, c.early);
      changes =
          sym (append_assoc o.operations (change_of r.polled) (changes_of c.seen))
          ∙ ap (λ xs. xs ++ changes_of c.seen) (sym ops)
          ∙ c.changes;
      tombstone = ground (arith, tomb, c.tombstone);
    }

    -- The round that completes the observation.
    complete_now :
        (next : Observation)
        → next.operations ≡ o.operations ++ change_of r.polled
        → next.saw_tombstone ≡ (o.saw_tombstone || is_tombstone r.polled)
        → is_complete next ≡ true
        → Completed deadline (r ∷ rs) o
    complete_now next ops tomb done =
        let (sequence, deleted) = is_complete_sound next done in
        extend next ops tomb (record {
          seen = [];
          rest = rs;
          split = refl;
          early = tt;
          changes = append-nil next.operations ∙ sequence;
          tombstone = ground arith;
        })

    skip_round :
        change_of r.polled ≡ []
        → is_tombstone r.polled ≡ false
        → Completed deadline rs o
        → Completed deadline (r ∷ rs) o
    skip_round ops tomb c =
        extend o (sym (append-nil o.operations) ∙ ap (λ xs. o.operations ++ xs) (sym ops))
          (ground (arith, tomb)) c

  by_poll :
      (deadline : ℕ) (r : PollRound) (rs : List PollRound) (o : Observation) (p : Polled)
      (continue : Observation → SmokeTest)
      → r.monotonic < deadline
      → r.polled ≡ p
      → ((next : Observation) → continue next ≡ passed → Completed deadline rs next)
      → after_poll customer p o continue ≡ passed
      → Completed deadline (r ∷ rs) o
  by_poll deadline r rs o no_message continue soon is ih h =
      skip_round deadline r rs o (soon, ap is_error is) (ap change_of is) (ap is_tombstone is)
        (ih o h)
  by_poll deadline r rs o partition_eof continue soon is ih h =
      skip_round deadline r rs o (soon, ap is_error is) (ap change_of is) (ap is_tombstone is)
        (ih o h)
  by_poll deadline r rs o failed continue soon is ih h = cc
  by_poll deadline r rs o (message key value) continue soon is ih h =
      elim (Bool-cases (is_target_key customer key)) [
        | inr other ↦
            skip_round deadline r rs o (soon, ap is_error is)
              (ap change_of is ∙ no_change key value other)
              (ap is_tombstone is ∙ not_deleted key value other) (ih o (rw other at h))
        | inl target ↦
            let next = observe value o in
            let ops =
              observe_operations key value o target
              ∙ ap (λ q. o.operations ++ change_of q) (sym is) in
            let tomb =
              observe_tombstone key value o target
              ∙ ap (λ q. o.saw_tombstone || is_tombstone q) (sym is) in
            elim (Bool-cases (is_complete next)) [
              | inl done ↦ complete_now deadline r rs o (soon, ap is_error is) next ops tomb done
              | inr more ↦
                  extend deadline r rs o (soon, ap is_error is) next ops tomb
                    (ih next (rw (target, more) at h))
            ]
      ]

  pub completed :
      (deadline : ℕ) (rounds : List PollRound) (o : Observation)
      → wait_for_changes customer deadline rounds o ≡ passed
      → Completed deadline rounds o
  unfolding wait_for_changes
  completed deadline [] o h = cc
  completed deadline (r ∷ rs) o h = elim (Bool-cases (ltb r.monotonic deadline)) [
    | inr late ↦ absurd (ground arith)
    | inl soon ↦
        by_poll deadline r rs o r.polled (wait_for_changes customer deadline rs) (ground arith) refl
          (completed deadline rs) (rw soon at h)
  ]
