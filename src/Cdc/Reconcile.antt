-- ===== src/Cdc/Reconcile.antt =====
-- The reconciliation cdc/reconcile_customers.py: public.customers against the view
-- cdc_silver.customers_current, and the Bronze coordinates that stand in more than one row. A row of
-- public.customers has the columns of a customer's image.
pub mod Exact
pub mod Offsets
pub mod Clean
mod Tests
use local_data_platform.Prelude.{
  ℕ, String, Bool, true, false, not, ◌&&◌, ◌||◌, Option, none, some, List, [], ◌∷◌, ◌++◌, map,
  Result, ok, err, ◌==◌, nat_eq, string_eq, pair_eq, ltb, length, select, any, count_if, is_some,
  if◌then◌else◌,
}
use local_data_platform.Cdc.Event.{CustomerImage}
use local_data_platform.Cdc.Bronze.{BronzeRow, coordinates}
use local_data_platform.Cdc.Silver.{SilverRow, customers_current}

-- `IS DISTINCT FROM`
abbrev pub is_distinct : Option String → Option String → Bool
is_distinct none none = false
is_distinct none (some b) = true
is_distinct (some a) none = true
is_distinct (some a) (some b) = not (a == b)

-- A row of the FULL OUTER JOIN.
abbrev pub Joined : Type 0
Joined = Option CustomerImage × Option SilverRow

abbrev pub same_customer : CustomerImage → SilverRow → Bool
same_customer source silver = silver.customer_id == source.customer_id

abbrev pub pair_up : CustomerImage → List SilverRow → List Joined
pair_up source [] = []
pair_up source (v ∷ vs) = (some source, some v) ∷ pair_up source vs

-- A source row with its matches, or alone.
abbrev pub join_row : CustomerImage → List SilverRow → List Joined
join_row source [] = (some source, none) ∷ []
join_row source (v ∷ vs) = pair_up source (v ∷ vs)

abbrev pub has_match : List CustomerImage → SilverRow → Bool
has_match source silver = any (λ s. same_customer s silver) source

-- The silver rows without a match, alone.
abbrev pub unmatched : List CustomerImage → List SilverRow → List Joined
unmatched source [] = []
unmatched source (v ∷ vs) =
    let rest = unmatched source vs in if has_match source v then rest else (none, some v) ∷ rest

abbrev pub joined_rows : List CustomerImage → List SilverRow → List Joined
joined_rows [] silver = []
joined_rows (s ∷ ss) silver = join_row s (select (same_customer s) silver) ++ joined_rows ss silver

unfoldable pub full_outer_join : List CustomerImage → List SilverRow → List Joined
full_outer_join source silver = joined_rows source silver ++ unmatched source silver

-- The WHERE clause of `differences`.
abbrev pub differs : Joined → Bool
differs (none, v) = true
differs (some s, none) = true
differs (some s, some v) =
    is_distinct s.first_name v.first_name
    || (is_distinct s.last_name v.last_name
        || (is_distinct s.email v.email
            || (is_distinct s.created_at v.created_at || is_distinct s.updated_at v.updated_at)))

-- GROUP BY 1, 2, 3: the coordinates, each once.
abbrev pub Coordinates : Type 0
Coordinates = String × (ℕ × ℕ)

abbrev pub is_among : List Coordinates → Coordinates → Bool
is_among ks k = any (λ j. j == k) ks

abbrev pub groups : List BronzeRow → List Coordinates
groups [] = []
groups (r ∷ rs) =
    let rest = groups rs in if is_among rest (coordinates r) then rest else coordinates r ∷ rest

-- HAVING COUNT(*) > 1
abbrev pub stands_twice : List BronzeRow → Coordinates → Bool
stands_twice rows k = ltb 1 (count_if (λ r. coordinates r == k) rows)

unfoldable pub duplicate_offsets : List BronzeRow → ℕ
duplicate_offsets rows = length (select (stands_twice rows) (groups rows))

pub record Report : Type 0 where
  pub source_count : ℕ
  pub silver_count : ℕ
  pub differences : ℕ
  pub duplicate_offsets : ℕ

-- The AssertionError.
pub data ReconcileError : Type 0 where
  reconciliation_failed : Report → ReconcileError

abbrev pub query : List CustomerImage → List SilverRow → List BronzeRow → Report
query source silver bronze = record {
  source_count = length source;
  silver_count = length (customers_current silver);
  differences = length (select differs (full_outer_join source (customers_current silver)));
  duplicate_offsets = duplicate_offsets bronze;
}

-- `if differences or duplicate_offsets: raise`
abbrev pub is_clean : Report → Bool
is_clean r = (r.differences == 0) && (r.duplicate_offsets == 0)

-- `main`
unfoldable pub reconcile :
    List CustomerImage → List SilverRow → List BronzeRow → Result ReconcileError Report
unfolding full_outer_join duplicate_offsets
reconcile source silver bronze =
    let r = query source silver bronze in if is_clean r then ok r else err (reconciliation_failed r)
