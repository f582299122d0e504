-- ===== src/Contract/Broken.antt =====
-- The incompatible copy that schema_registry/verify_contract.py makes of a schema.
use local_data_platform.Prelude.{
  String, ◌≡◌, refl, ap, ◌∙◌, Bool, true, false, some, arith, ok, ◌==◌, string_eq, eq_iff, beq_refl,
  if◌then◌else◌,
}
use local_data_platform.Prelude.Int.{pos}
use local_data_platform.Contract.{
  Json, number, text, array, object, Items, item, Members, empty, member, get, put, has_key,
  is_list, optional_long, broken_type, break_field, break_fields, break_first_field_type,
}

get-put :
    (k key : String) (v : Json) (m : Members)
    → get k (put key v m) ≡ (if k == key then some v else get k m)
unfolding get put
get-put k key v empty = ground (arith, eq_iff k key, eq_iff key k)
get-put k key v (member j w rest) =
    ground (arith, eq_iff j key, eq_iff j k, eq_iff key k, eq_iff k key, get-put k key v rest)

get-put_other :
    (k key : String) (v : Json) (m : Members) → (k == key) ≡ false → get k (put key v m) ≡ get k m
get-put_other k key v m other = get-put k key v m ∙ rw other refl

get-put_same : (key : String) (v : Json) (m : Members) → get key (put key v m) ≡ some v
get-put_same key v m = get-put key key v m ∙ rw (beq_refl key) refl

get-break_field :
    (k : String) (f : Members)
    → (k == "default") ≡ false
    → get k (break_field f) ≡ get k (put "type" (broken_type (get "type" f)) f)
unfolding break_field
get-break_field k f other =
    split (is_list (get "type" f)) (has_key "default" (put "type" (broken_type (get "type" f)) f))
  where
    split :
        (a b : Bool)
        → get k (
            if a
            then put "type" (broken_type (get "type" f)) f
            else if b
            then put "default" (number (pos 0)) (put "type" (broken_type (get "type" f)) f)
            else put "type" (broken_type (get "type" f)) f)
          ≡ get k (put "type" (broken_type (get "type" f)) f)
    split true b = refl
    split false true =
        get-put_other k "default" (number (pos 0)) (put "type" (broken_type (get "type" f)) f) other
    split false false = refl

-- Of a record schema with a first field, the copy has that field's type replaced by an optional long if
-- it was a union and by long if it was not; the field's other attributes but the default, the other
-- fields, and the schema's other attributes are the same.
pub break_first_field_type_lem :
    (schema field : Members) (rest : Items)
    → get "fields" schema ≡ some (array (item (object field) rest))
    → (broken field' : Members) × (break_first_field_type schema ≡ ok broken)
      × (get "fields" broken ≡ some (array (item (object field') rest)))
      × (get "type" field'
          ≡ some (if is_list (get "type" field) then optional_long else text "long"))
      × ((k : String)
          → (k == "type") ≡ false
          → (k == "default") ≡ false
          → get k field' ≡ get k field)
      × ((k : String) → (k == "fields") ≡ false → get k broken ≡ get k schema)
unfolding break_first_field_type
break_first_field_type_lem schema field rest h = (
  put "fields" (array (item (object (break_field field)) rest)) schema,
  break_field field,
  ap (λ o. break_fields o schema) h,
  get-put_same "fields" (array (item (object (break_field field)) rest)) schema,
  get-break_field "type" field refl ∙ get-put_same "type" (broken_type (get "type" field)) field,
  λ k other also.
      get-break_field k field also
      ∙ get-put_other k "type" (broken_type (get "type" field)) field other,
  λ k other. get-put_other k "fields" (array (item (object (break_field field)) rest)) schema other,
)
