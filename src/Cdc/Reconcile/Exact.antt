-- ===== src/Cdc/Reconcile/Exact.antt =====
-- When the reconciliation of cdc/reconcile_customers.py goes through.
use local_data_platform.Prelude.{
  ℕ, String, ◌≡◌, ◌↔◌, refl, sym, ap, subst, ◌∙◌, Bool, true, false, not, ◌||◌, Option, none, some,
  List, [], ◌∷◌, ◌++◌, arith, ◌==◌, nat_eq, string_eq, eq_iff, pair_eq, length, select, any, All,
  All-of, All-In, some_inj, is_some, inl, inr, Bool-cases, Option-cases,
}
use local_data_platform.Sql.{find, Unique}
use local_data_platform.Sql.Upsert.{key_of_find}
use local_data_platform.Sql.Selection.{find-In-Unique, find-In, In-find}
use local_data_platform.Cdc.Event.{CustomerImage}
use local_data_platform.Cdc.Silver.{SilverRow}
use local_data_platform.Cdc.Reconcile.{
  is_distinct, same_customer, join_row, has_match, unmatched, joined_rows, differs,
}

-- The columns of a silver row that the source has.
abbrev pub image : SilverRow → CustomerImage
image v = record {
  customer_id = v.customer_id;
  first_name = v.first_name;
  last_name = v.last_name;
  email = v.email;
  created_at = v.created_at;
  updated_at = v.updated_at;
}

abbrev pub image_of : Option SilverRow → Option CustomerImage
image_of none = none
image_of (some v) = some (image v)

is_distinct_iff : (a b : Option String) → (is_distinct a b ≡ false) ↔ (a ≡ b)
is_distinct_iff none none = (λ h. refl, λ h. refl)
is_distinct_iff none (some b) = (λ h. cc, λ h. cc)
is_distinct_iff (some a) none = (λ h. cc, λ h. cc)
is_distinct_iff (some a) (some b) = ground (arith, eq_iff a b)

-- Two rows of one customer do not differ exactly if they are equal.
agree :
    (s : CustomerImage) (v : SilverRow)
    → s.customer_id ≡ v.customer_id
    → differs (some s, some v) ≡ false
    → image v ≡ s
agree s v same h = ground (
  arith,
  is_distinct_iff s.first_name v.first_name,
  is_distinct_iff s.last_name v.last_name,
  is_distinct_iff s.email v.email,
  is_distinct_iff s.created_at v.created_at,
  is_distinct_iff s.updated_at v.updated_at,
)

differs_self : (s : CustomerImage) (v : SilverRow) → image v ≡ s → differs (some s, some v) ≡ false
differs_self s v e = ground (
  arith,
  ap CustomerImage.first_name e,
  ap CustomerImage.last_name e,
  ap CustomerImage.email e,
  ap CustomerImage.created_at e,
  ap CustomerImage.updated_at e,
  is_distinct_iff s.first_name v.first_name,
  is_distinct_iff s.last_name v.last_name,
  is_distinct_iff s.email v.email,
  is_distinct_iff s.created_at v.created_at,
  is_distinct_iff s.updated_at v.updated_at,
)

-- With unique keys a row's matches are the row that its key finds.
matches :
    (s : CustomerImage) (silver : List SilverRow)
    → Unique SilverRow.customer_id silver
    → select (same_customer s) silver
      ≡ elim (find SilverRow.customer_id s.customer_id silver) [ none ↦ [] | some v ↦ v ∷ [] ]
unfolding find
matches s [] u = refl
matches s (v ∷ vs) u = elim (Bool-cases (v.customer_id == s.customer_id)) [
  | inl same ↦
      let gone : find SilverRow.customer_id s.customer_id vs ≡ none =
        subst (λ k. find SilverRow.customer_id k vs ≡ none) (ground arith) u.0 in
      rw same (ap (λ xs. v ∷ xs) (matches s vs u.1 ∙ rw gone refl))
  | inr other ↦ rw other (matches s vs u.1)
]

module _ {ℓ} {A : Type ℓ} (p : A → Bool) where
  pub any-append : (xs ys : List A) → any p (xs ++ ys) ≡ (any p xs || any p ys)
  any-append [] ys = refl
  any-append (x ∷ xs) ys = ground (arith, any-append xs ys)

  pub none_selected-any : (xs : List A) → (length (select p xs) == 0) ≡ not (any p xs)
  none_selected-any [] = refl
  none_selected-any (x ∷ xs) = elim (Bool-cases (p x)) [
    | inl hit ↦ rw hit (ground arith)
    | inr miss ↦ rw miss (none_selected-any xs)
  ]

module _ (silver : List SilverRow) (unique : Unique SilverRow.customer_id silver) where
  -- The view shows the source row.
  abbrev pub Shows : CustomerImage → Type 0
  Shows s = image_of (find SilverRow.customer_id s.customer_id silver) ≡ some s

  join_row_iff :
      (s : CustomerImage)
      → (any differs (join_row s (select (same_customer s) silver)) ≡ false) ↔ Shows s
  join_row_iff s = elim (Option-cases (find SilverRow.customer_id s.customer_id silver)) [
    | inl absent ↦ rw (matches s silver unique, absent) (λ h. cc, λ h. cc)
    | inr (v, found) ↦
        let same : v.customer_id ≡ s.customer_id =
          key_of_find SilverRow.customer_id s.customer_id silver {r = v} found in
        rw (matches s silver unique, found)
          (
            λ h. ap some (agree s v (sym same) (ground arith)),
            λ h. rw (differs_self s v (some_inj h)) refl,
          )
  ]

  joined_rows_iff :
      (source : List CustomerImage)
      → (any differs (joined_rows source silver) ≡ false) ↔ All Shows source
  joined_rows_iff [] = (λ h. tt, λ h. refl)
  joined_rows_iff (s ∷ ss) =
      rw (any-append differs (join_row s (select (same_customer s) silver)) (joined_rows ss silver))
        (
          λ h. ((join_row_iff s).0 (ground arith), (joined_rows_iff ss).0 (ground arith)),
          λ h.
              let here_is = (join_row_iff s).1 h.0 in
              let rest_is = (joined_rows_iff ss).1 h.1 in rw (here_is, rest_is) refl,
        )

has_match-find :
    (v : SilverRow) (source : List CustomerImage)
    → has_match source v ≡ is_some (find CustomerImage.customer_id v.customer_id source)
unfolding find
has_match-find v [] = refl
has_match-find v (s ∷ ss) = ground (arith, has_match-find v ss)

-- The source has a row of the silver row's customer.
abbrev IsKnown : List CustomerImage → SilverRow → Type 0
IsKnown source v = is_some (find CustomerImage.customer_id v.customer_id source) ≡ true

unmatched_iff :
    (source : List CustomerImage) (silver : List SilverRow)
    → (any differs (unmatched source silver) ≡ false) ↔ All (IsKnown source) silver
unmatched_iff source [] = (λ h. tt, λ h. refl)
unmatched_iff source (v ∷ vs) = elim (Bool-cases (has_match source v)) [
  | inl hit ↦ rw hit (
    λ h. (sym (has_match-find v source) ∙ hit, (unmatched_iff source vs).0 h),
    λ h. (unmatched_iff source vs).1 h.1,
  )
  | inr miss ↦ rw miss (λ h. cc, λ h. absurd (ground (arith, has_match-find v source, h.0)))
]

module _ (source : List CustomerImage) (silver : List SilverRow) where
  abbrev pub AllShown : Type 0
  AllShown =
      (k : ℕ)
      → image_of (find SilverRow.customer_id k silver) ≡ find CustomerImage.customer_id k source

  pub no_difference :
      Unique SilverRow.customer_id silver
      → any differs (joined_rows source silver) ≡ false
      → any differs (unmatched source silver) ≡ false
      → AllShown
  no_difference u a b k = elim (Option-cases (find CustomerImage.customer_id k source)) [
    | inr (s, found) ↦
        let same : s.customer_id ≡ k =
          key_of_find CustomerImage.customer_id k source {r = s} found in
        subst (λ j. image_of (find SilverRow.customer_id j silver) ≡ some s) same
          (All-In (Shows silver u) source ((joined_rows_iff silver u source).0 a) s
            (In-find CustomerImage.customer_id k source s found))
        ∙ sym found
    | inl absent ↦ rw absent (gone (find SilverRow.customer_id k silver) refl absent)
  ]
    where
      gone :
          (o : Option SilverRow)
          → find SilverRow.customer_id k silver ≡ o
          → find CustomerImage.customer_id k source ≡ none
          → image_of o ≡ none
      gone none is absent = refl
      gone (some v) is absent =
          let same : v.customer_id ≡ k = key_of_find SilverRow.customer_id k silver {r = v} is in
          let known : is_some (find CustomerImage.customer_id v.customer_id source) ≡ true =
            All-In (IsKnown source) silver ((unmatched_iff source silver).0 b) v
              (In-find SilverRow.customer_id k silver v is) in
          absurd (ground (arith, same, known, absent))

  pub all_shown :
      Unique CustomerImage.customer_id source
      → Unique SilverRow.customer_id silver
      → AllShown
      → (any differs (joined_rows source silver) ≡ false)
        × (any differs (unmatched source silver) ≡ false)
  all_shown us u shown = (
    (joined_rows_iff silver u source).1 (
        All-of (Shows silver u) source
          (λ s i. shown s.customer_id ∙ find-In-Unique CustomerImage.customer_id source s i us)),
    (unmatched_iff source silver).1 (
        All-of (IsKnown source) silver (λ v i.
          ap is_some (sym (shown v.customer_id))
          ∙ image_there (find SilverRow.customer_id v.customer_id silver)
              (find-In SilverRow.customer_id silver v i))),
  )
    where
      image_there : (o : Option SilverRow) → is_some o ≡ true → is_some (image_of o) ≡ true
      image_there none h = cc
      image_there (some v) h = refl
