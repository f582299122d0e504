-- ===== src/Cdc/Verify/Tests.antt =====
-- Runs of cdc/verify_materialization.py: one that passes in its second round of the first wait, and one
-- that times out.
use local_data_platform.Prelude.{
  ℕ, ◌≡◌, refl, Option, none, some, List, [], ◌∷◌, arith, nat_eq, ◌⊎◌, ap, sym, ◌∙◌, some_inj,
  string_eq,
}
use local_data_platform.Sql.{find}
use local_data_platform.Cdc.Event.{Operation, create, update, delete, tombstone, CustomerImage}
use local_data_platform.Cdc.Bronze.{BronzeRow}
use local_data_platform.Cdc.Silver.Rebuild.{rebuild, rebuild_from}
use local_data_platform.Cdc.Batch.{Database}
use local_data_platform.Cdc.Source.{new_customer, renamed, insert_customer, delete_customer}
use local_data_platform.Cdc.Verify.{
  Wait, wait_for, poll_until, shows_name, passed, timeout_error, unfinished, verify_materialization,
}
use local_data_platform.Cdc.Verify.Published.{Published, IsKeyed}
use local_data_platform.Cdc.Verify.Passes.{
  Stored, now, later, verify_materialization_passes, verify_materialization_cleans,
}

abbrev row : CustomerImage
row = new_customer 7 "cdc-materialized-seven@example.test" none

abbrev record_at : ℕ → Operation → Option ℕ → Option CustomerImage → BronzeRow
record_at offset op lsn after = record {
  kafka_topic = "customers";
  kafka_partition = 0;
  kafka_offset = offset;
  customer_id = 7;
  operation = op;
  source_lsn = lsn;
  source_ts_ms = none;
  transaction_id = none;
  event_key = 7;
  before_value = none;
  after_value = after;
  kafka_timestamp = none;
  ingested_at = offset;
}

abbrev creation : BronzeRow
creation = record_at 1 create (some 10) (some row)

abbrev renaming : BronzeRow
renaming = record_at 2 update (some 11) (some (renamed 7 none row))

abbrev deletion : BronzeRow
deletion = record_at 3 delete (some 12) none

abbrev grave : BronzeRow
grave = record_at 4 tombstone none none

abbrev all_records : List BronzeRow
all_records = creation ∷ renaming ∷ deletion ∷ grave ∷ []

abbrev published : Published 7
published = record {
  created_lsn = 10;
  updated_lsn = 11;
  deleted_lsn = 12;
  created_after = row;
  updated_after = renamed 7 none row;
  creation = creation;
  renaming = renaming;
  deletion = deletion;
  grave = grave;
  created_key = refl;
  updated_key = refl;
  created_name = refl;
  updated_name = refl;
  created_first = omega arith;
  updated_next = omega arith;
  creation_is = record { operation = refl; source_lsn = refl; after_value = refl };
  renaming_is = record { operation = refl; source_lsn = refl; after_value = refl };
  deletion_is = record { operation = refl; source_lsn = refl; after_value = refl };
  grave_is = record { operation = refl; source_lsn = refl; after_value = refl };
  deletion_key = refl;
}

abbrev stored_in : List BronzeRow → Database
stored_in rows = record { bronze = rows; silver = rebuild rows }

keyed : (op : Operation) (offset : ℕ) (lsn : Option ℕ) → IsKeyed (record_at offset op lsn none)
keyed op offset lsn = record { same_customer = λ a h. cc }

keyed_row :
    (op : Operation) (offset : ℕ) (lsn : Option ℕ) (r : CustomerImage)
    → r.customer_id ≡ 7
    → IsKeyed (record_at offset op lsn (some r))
keyed_row op offset lsn r is = record {
  same_customer = λ a h. ap (λ (x : CustomerImage). x.customer_id) (sym (some_inj h)) ∙ is;
}

first_Stored : Stored 7 (creation ∷ []) (stored_in (creation ∷ []))
unfolding find
first_Stored = record {
  consistent = record { one_row_per_record = (refl, tt); rebuilt = refl };
  keyed = (keyed_row create 1 (some 10) row refl, tt);
  records = refl;
}

second_Stored : Stored 7 (creation ∷ renaming ∷ []) (stored_in (creation ∷ renaming ∷ []))
unfolding find
second_Stored = record {
  consistent = record { one_row_per_record = (refl, (refl, tt)); rebuilt = refl };
  keyed = (
    keyed_row create 1 (some 10) row refl,
    (keyed_row update 2 (some 11) (renamed 7 none row) refl, tt),
  );
  records = refl;
}

third_Stored : Stored 7 all_records (stored_in all_records)
unfolding find
third_Stored = record {
  consistent = record { one_row_per_record = (refl, (refl, (refl, (refl, tt)))); rebuilt = refl };
  keyed = (
    keyed_row create 1 (some 10) row refl,
    (
      keyed_row update 2 (some 11) (renamed 7 none row) refl,
      (keyed delete 3 (some 12), (keyed tombstone 4 none, tt)),
    ),
  );
  records = refl;
}

abbrev first : Wait
first = record {
  started = 100;
  rounds =
      record { monotonic = 100; database = stored_in [] }
      ∷ record { monotonic = 101; database = stored_in (creation ∷ []) }
      ∷ [];
}

abbrev second : Wait
second = record {
  started = 101;
  rounds = record { monotonic = 102; database = stored_in (creation ∷ renaming ∷ []) } ∷ [];
}

abbrev third : Wait
third = record {
  started = 102;
  rounds = record { monotonic = 103; database = stored_in all_records } ∷ [];
}

verify_materialization_passes_example :
    verify_materialization 7 "seven" none none first second third [] ≡ (passed, [])
verify_materialization_passes_example =
    verify_materialization_passes 7 "seven" none none first second third published []
      (unfold find in refl) refl (later (omega arith) (now (omega arith) first_Stored))
      (now (omega arith) second_Stored) (now (omega arith) third_Stored)

-- No round of the first wait sees the customer in time.
abbrev late : Wait
late = record {
  started = 100;
  rounds =
      record { monotonic = 279; database = stored_in [] }
      ∷ record { monotonic = 280; database = stored_in (creation ∷ []) }
      ∷ [];
}

timed_out_run :
    verify_materialization 7 "seven" none none late second third [] ≡ (timeout_error, [])
unfolding verify_materialization wait_for poll_until shows_name rebuild rebuild_from insert_customer
    delete_customer find
timed_out_run = refl

verify_materialization_cleans_example :
    ((verify_materialization 7 "seven" none none late second third []).0 ≡ unfinished)
    ⊎ ((verify_materialization 7 "seven" none none late second third []).1 ≡ [])
verify_materialization_cleans_example =
    verify_materialization_cleans 7 "seven" none none late second third [] (unfold find in refl)
