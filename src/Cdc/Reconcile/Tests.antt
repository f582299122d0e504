-- ===== src/Cdc/Reconcile/Tests.antt =====
-- A reconciliation of cdc/reconcile_customers.py over one live and one deleted customer, and one that
-- finds a stale row.
use local_data_platform.Prelude.{
  ℕ, ◌≡◌, ◌↔◌, refl, Bool, true, false, Option, none, some, String, List, [], ◌∷◌, is_ok, nat_eq,
  pair_eq, string_eq,
}
use local_data_platform.Sql.{find, Unique}
use local_data_platform.Cdc.Event.{Operation, create, delete, CustomerImage}
use local_data_platform.Cdc.Bronze.{coordinates}
use local_data_platform.Cdc.Silver.{SilverRow, customers_current}
use local_data_platform.Cdc.Reconcile.{reconcile}
use local_data_platform.Cdc.Reconcile.Exact.{AllShown}
use local_data_platform.Cdc.Reconcile.Clean.{reconcile_iff}

abbrev customer : ℕ → Option String → CustomerImage
customer id email = record {
  customer_id = id;
  first_name = some "Ada";
  last_name = none;
  email = email;
  created_at = none;
  updated_at = none;
}

abbrev stored : ℕ → Bool → Operation → SilverRow
stored id deleted op = record {
  customer_id = id;
  first_name = some "Ada";
  last_name = none;
  email = some "a@b";
  created_at = none;
  updated_at = none;
  is_deleted = deleted;
  source_operation = op;
  source_lsn = 9;
  source_ts_ms = none;
  kafka_topic = "t";
  kafka_partition = 0;
  kafka_offset = 4;
  applied_at = 7;
}

abbrev source : List CustomerImage
source = customer 1 (some "a@b") ∷ []

abbrev silver : List SilverRow
silver = stored 1 false create ∷ stored 2 true delete ∷ []

source-Unique : Unique CustomerImage.customer_id source
unfolding find
source-Unique = (refl, tt)

silver-Unique : Unique SilverRow.customer_id silver
unfolding find
silver-Unique = (refl, (refl, tt))

clean : is_ok (reconcile source silver []) ≡ true
unfolding reconcile
clean = refl

stale : is_ok (reconcile (customer 1 none ∷ []) silver []) ≡ false
unfolding reconcile
stale = refl

reconcile_iff_example :
    (is_ok (reconcile source silver []) ≡ true)
    ↔ (AllShown source (customers_current silver) × Unique coordinates [])
reconcile_iff_example = reconcile_iff source silver [] source-Unique silver-Unique
