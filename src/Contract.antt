-- ===== src/Contract.antt =====
-- The check schema_registry/verify_contract.py: JSON values, the incompatible copy of a schema, the
-- wait for the subjects and the checks of `main`. What the registry answers is a parameter.
pub mod Broken
pub mod Verified
mod Tests
use local_data_platform.Prelude.{
  ℕ, String, ◌≡◌, Bool, true, false, not, ◌&&◌, Option, none, some, List, [], ◌∷◌, Result, ok, err,
  ◌>>=◌, ◌>>◌, raise_if, ◌==◌, string_eq, ltb, any, every, if◌then◌else◌,
}
use local_data_platform.Prelude.Int.{ℤ, pos}

mutual
  pub data Json : Type 0 where
    null : Json
    boolean : Bool → Json
    number : ℤ → Json
    text : String → Json
    array : Items → Json
    object : Members → Json

  pub data Items : Type 0 where
    nil : Items
    item : Json → Items → Items

  -- A dict, in insertion order.
  pub data Members : Type 0 where
    empty : Members
    member : String → Json → Members → Members

-- `d.get(key)`
unfoldable pub get : String → Members → Option Json
get key empty = none
get key (member k v rest) = if k == key then some v else get key rest

-- `d[key] = value`
unfoldable pub put : String → Json → Members → Members
put key value empty = member key value empty
put key value (member k v rest) =
    let more = put key value rest in if k == key then member k value rest else member k v more

abbrev pub has_key : String → Members → Bool
has_key key m = elim (get key m) [ none ↦ false | some v ↦ true ]

-- `isinstance(value, list)`
abbrev pub is_list : Option Json → Bool
is_list (some (array items)) = true
is_list _ = false

abbrev pub optional_long : Json
optional_long = array (item (text "null") (item (text "long") nil))

abbrev pub broken_type : Option Json → Json
broken_type type = if is_list type then optional_long else text "long"

-- The change to `fields[0]`.
unfoldable pub break_field : Members → Members
break_field field =
    let typed = put "type" (broken_type (get "type" field)) field in
    if is_list (get "type" field)
    then typed
    else if has_key "default" typed
    then put "default" (number (pos 0)) typed
    else typed

pub data ContractError : Type 0 where
  not_a_record timed_out wrong_level row_not_referenced : ContractError
  current_rejected breaking_accepted : String → ContractError

abbrev pub break_fields : Option Json → Members → Result ContractError Members
break_fields (some (array (item (object field) rest))) schema =
    ok (put "fields" (array (item (object (break_field field)) rest)) schema)
break_fields _ schema = err not_a_record

unfoldable pub break_first_field_type : Members → Result ContractError Members
break_first_field_type schema = break_fields (get "fields" schema) schema

-- A version of a subject: its schema, and the names of the subjects that it refers to.
pub record Version : Type 0 where
  pub schema : Members
  pub references : List String

-- A round of the wait: the clock, and the subjects unless the request raised.
pub record Round : Type 0 where
  pub monotonic : ℕ
  pub subjects : Option (List String)

pub record Registry : Type 0 where
  pub rounds : List Round
  pub config : Members
  pub latest : String → Version
  pub is_compatible : String → Members → List String → Bool

abbrev pub is_among : List String → String → Bool
is_among names name = any (λ n. n == name) names

-- `expected_subjects <= latest_subjects`
abbrev pub has_all : List String → Option (List String) → Bool
has_all expected none = false
has_all expected (some subjects) = every (is_among subjects) expected

-- The rounds given are all the rounds of the wait: after the last one the deadline has passed.
unfoldable pub wait_for_subjects : ℕ → List String → List Round → Result ContractError (Unit {0})
wait_for_subjects deadline expected [] = err timed_out
wait_for_subjects deadline expected (r ∷ rs) =
    let rest = wait_for_subjects deadline expected rs in
    if ltb r.monotonic deadline
    then (if has_all expected r.subjects then ok tt else rest)
    else err timed_out

-- config.get("compatibilityLevel", config.get("compatibility"))
abbrev pub configured_level : Members → Option Json
configured_level config =
    if has_key "compatibilityLevel" config
    then get "compatibilityLevel" config
    else get "compatibility" config

abbrev pub is_text : String → Option Json → Bool
is_text name (some (text t)) = t == name
is_text name _ = false

-- The body of the loop over the two subjects.
unfoldable pub check_subject : Registry → String → Result ContractError (Unit {0})
check_subject r subject = do
  let version = r.latest subject
  raise_if (not (r.is_compatible subject version.schema version.references))
      (current_rejected subject)
  broken ← break_first_field_type version.schema
  raise_if (r.is_compatible subject broken version.references) (breaking_accepted subject)

-- `main`, with the three subjects of the topic.
unfoldable pub verify_contract :
    ℕ → String → String → String → Registry → Result ContractError (Unit {0})
unfolding check_subject
verify_contract deadline key_subject row_subject envelope_subject r = do
  wait_for_subjects deadline (key_subject ∷ row_subject ∷ envelope_subject ∷ []) r.rounds
  raise_if (not (is_text "BACKWARD_TRANSITIVE" (configured_level r.config))) wrong_level
  raise_if (not (is_among (r.latest envelope_subject).references row_subject)) row_not_referenced
  check_subject r key_subject
  check_subject r row_subject
