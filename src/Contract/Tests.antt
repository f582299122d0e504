-- ===== src/Contract/Tests.antt =====
-- A run of schema_registry/verify_contract.py against a registry that guards its two subjects.
use local_data_platform.Prelude.{◌≡◌, refl, Bool, false, Option, none, some, [], ◌∷◌, string_eq}
use local_data_platform.Contract.{
  Json, text, array, object, nil, item, Members, empty, member, get, is_text, Registry,
}

abbrev field : Members
field = member "name" (text "customer_id") (member "type" (text "string") empty)

abbrev schema : Members
schema = member "type" (text "record") (member "fields" (array (item (object field) nil)) empty)

fields_of : get "fields" schema ≡ some (array (item (object field) nil))
unfolding get
fields_of = refl

-- The type of the first field.
abbrev is_string : Option Json → Bool
is_string (some (array (item (object f) rest))) = is_text "string" (get "type" f)
is_string _ = false

abbrev registry : Registry
registry = record {
  rounds =
      record { monotonic = 1; subjects = none }
      ∷ record { monotonic = 3; subjects = some ("key" ∷ "row" ∷ "envelope" ∷ []) }
      ∷ [];
  config = member "compatibilityLevel" (text "BACKWARD_TRANSITIVE") empty;
  latest = λ subject. record { schema = schema; references = "row" ∷ [] };
  is_compatible = λ subject proposed references. is_string (get "fields" proposed);
}
