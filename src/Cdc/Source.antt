-- ===== src/Cdc/Source.antt =====
-- The statements on public.customers that the tests cdc/verify_cdc.py and
-- cdc/verify_materialization.py commit, and `mutate_customer` of the first. The text of a UUID is a
-- parameter; so are the times of the column defaults and of clock_timestamp().
use Prim.Native.String.{◌++◌ as concat}
use local_data_platform.Prelude.{
  ℕ, String, ◌≡◌, refl, sym, ap, ◌∙◌, Bool, false, not, ◌||◌, Option, none, some, List, [], ◌∷◌,
  ◌++◌, map, arith, ◌==◌, nat_eq, string_eq, select, any, if◌then◌else◌, some_inj, beq_refl,
}
use local_data_platform.Sql.{find, has}
use local_data_platform.Cdc.Event.{CustomerImage}

abbrev pub source_key : CustomerImage → ℕ
source_key r = r.customer_id

abbrev pub same_text : Option String → Option String → Bool
same_text (some s) (some t) = s == t
same_text _ _ = false

-- INSERT INTO public.customers, whose key and email are unique; a conflict raises.
unfoldable pub insert_customer : CustomerImage → List CustomerImage → Option (List CustomerImage)
insert_customer r rows =
    if has source_key r.customer_id rows || any (λ t. same_text t.email r.email) rows
    then none
    else some (rows ++ r ∷ [])

abbrev pub renamed : ℕ → Option String → CustomerImage → CustomerImage
renamed k now r =
    if r.customer_id == k then record r { last_name = some "Updated"; updated_at = now } else r

-- UPDATE .. SET last_name = 'Updated', updated_at = clock_timestamp() WHERE customer_id = ..
unfoldable pub update_customer : ℕ → Option String → List CustomerImage → List CustomerImage
update_customer k now rows = map (renamed k now) rows

-- DELETE FROM public.customers WHERE customer_id = ..
unfoldable pub delete_customer : ℕ → List CustomerImage → List CustomerImage
delete_customer k rows = select (λ r. not (r.customer_id == k)) rows

-- The row that a test inserts.
abbrev pub new_customer : ℕ → String → Option String → CustomerImage
new_customer k email now = record {
  customer_id = k;
  first_name = some "CDC";
  last_name = some "Created";
  email = some email;
  created_at = now;
  updated_at = now;
}

abbrev pub smoke_email : String → String
smoke_email id = concat "cdc-smoke-" (concat id "@example.test")

abbrev pub Commits : Type 0
Commits = List CustomerImage × List CustomerImage × List CustomerImage

abbrev pub after_first : ℕ → Option String → Option (List CustomerImage) → Option Commits
after_first k updated none = none
after_first k updated (some inserted) =
    let changed = update_customer k updated inserted in
    some (inserted, changed, delete_customer k changed)

-- The table after each of the three transactions, unless the first raises.
unfoldable pub mutate_customer :
    ℕ → String → Option String → Option String → List CustomerImage → Option Commits
mutate_customer k id created updated rows =
    after_first k updated (insert_customer (new_customer k (smoke_email id) created) rows)

delete_customer_last :
    (r : CustomerImage) (rows : List CustomerImage)
    → delete_customer r.customer_id (rows ++ r ∷ []) ≡ delete_customer r.customer_id rows
unfolding delete_customer
delete_customer_last r [] = rw (beq_refl r.customer_id) refl
delete_customer_last r (q ∷ rows) = ground (arith, delete_customer_last r rows)

pub delete_customer-insert_customer :
    (r : CustomerImage) (rows inserted : List CustomerImage)
    → insert_customer r rows ≡ some inserted
    → delete_customer r.customer_id inserted ≡ delete_customer r.customer_id rows
unfolding insert_customer
delete_customer-insert_customer r rows inserted h = ground (arith, delete_customer_last r rows)

pub delete_customer-update_customer :
    (k : ℕ) (now : Option String) (rows : List CustomerImage)
    → delete_customer k (update_customer k now rows) ≡ delete_customer k rows
unfolding delete_customer update_customer
delete_customer-update_customer k now [] = refl
delete_customer-update_customer k now (r ∷ rows) =
    ground (arith, delete_customer-update_customer k now rows)

pub delete_customer_absent :
    (k : ℕ) (rows : List CustomerImage)
    → find source_key k rows ≡ none
    → delete_customer k rows ≡ rows
unfolding delete_customer find
delete_customer_absent k [] h = refl
delete_customer_absent k (r ∷ rows) h = ground (arith, delete_customer_absent k rows)

pub delete_customer_twice :
    (k : ℕ) (rows : List CustomerImage)
    → delete_customer k (delete_customer k rows) ≡ delete_customer k rows
unfolding delete_customer
delete_customer_twice k [] = refl
delete_customer_twice k (r ∷ rows) = ground (arith, delete_customer_twice k rows)

-- After its three transactions the table is as it was, if it had no row of the customer.
pub mutate_customer_restores :
    (k : ℕ) (id : String) (created updated : Option String)
    (rows inserted changed after : List CustomerImage)
    → find source_key k rows ≡ none
    → mutate_customer k id created updated rows ≡ some (inserted, changed, after)
    → after ≡ rows
unfolding mutate_customer
mutate_customer_restores k id created updated rows inserted changed after absent h =
    by_insert (insert_customer row rows) refl h
  where
    row : CustomerImage
    row = new_customer k (smoke_email id) created

    by_insert :
        (o : Option (List CustomerImage))
        → insert_customer row rows ≡ o
        → after_first k updated o ≡ some (inserted, changed, after)
        → after ≡ rows
    by_insert none is h = cc
    by_insert (some first) is h =
        sym (ap (λ (c : Commits). c.2) (some_inj h))
        ∙ delete_customer-update_customer k updated first
        ∙ delete_customer-insert_customer row rows first is
        ∙ delete_customer_absent k rows absent
