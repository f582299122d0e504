-- ===== src/Contract/Verified.antt =====
-- What the success of schema_registry/verify_contract.py says of the registry.
use local_data_platform.Prelude.{String, ◌≡◌, true, false, ok, string_eq}
use local_data_platform.Contract.{Members, break_first_field_type, Registry}

-- The registry's rule holds of a subject: its current schema is accepted, and the incompatible copy of
-- it exists and is rejected.
pub record IsGuarded (r : Registry) (subject : String) : Type 0 where
  pub broken : Members
  pub is_broken : break_first_field_type (r.latest subject).schema ≡ ok broken
  pub accepts :
      r.is_compatible subject (r.latest subject).schema (r.latest subject).references ≡ true
  pub rejects : r.is_compatible subject broken (r.latest subject).references ≡ false
