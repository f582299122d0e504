-- ===== src/Cdc/Smoke/Tests.antt =====
-- A run of the smoke test cdc/verify_cdc.py, with a message of another customer in between.
use local_data_platform.Prelude.{ℕ, ◌≡◌, ◌↔◌, refl, none, some, List, [], ◌∷◌, nat_eq}
use local_data_platform.Cdc.Event.{create, update, delete}
use local_data_platform.Cdc.Smoke.{
  Polled, no_message, message, PollRound, passed, assign_topic_tail, insert_partition,
  wait_for_changes,
}
use local_data_platform.Cdc.Smoke.Passed.{Completed}
use local_data_platform.Cdc.Smoke.Exactly.{nothing_seen, wait_for_changes_iff}

abbrev at : ℕ → Polled → PollRound
at time polled = record { monotonic = time; polled = polled }

abbrev rounds : List PollRound
rounds =
    at 1 no_message
    ∷ at 2 (message (some 7) (some (some create)))
    ∷ at 3 (message (some 8) (some (some delete)))
    ∷ at 4 (message (some 7) (some (some update)))
    ∷ at 5 (message (some 7) (some (some delete)))
    ∷ at 6 (message (some 7) none)
    ∷ []

run : wait_for_changes 7 180 rounds nothing_seen ≡ passed
unfolding wait_for_changes
run = refl

wait_for_changes_iff_example :
    (wait_for_changes 7 180 rounds nothing_seen ≡ passed) ↔ Completed 7 180 rounds nothing_seen
wait_for_changes_iff_example = wait_for_changes_iff 7 180 rounds

tail :
    assign_topic_tail
      (some (record { partition_id = 1; high = 4 } ∷ record { partition_id = 0; high = 9 } ∷ []))
    ≡ some (record { partition_id = 0; high = 9 } ∷ record { partition_id = 1; high = 4 } ∷ [])
unfolding assign_topic_tail insert_partition
tail = refl
