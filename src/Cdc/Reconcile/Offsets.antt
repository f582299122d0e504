-- ===== src/Cdc/Reconcile/Offsets.antt =====
-- The Bronze half of cdc/reconcile_customers.py: no group of coordinates has two rows.
use local_data_platform.Prelude.{
  ℕ, ◌≤◌, ◌≡◌, ◌↔◌, refl, ap, subst, ◌∙◌, Bool, true, false, not, none, List, [], ◌∷◌, arith, ◌==◌,
  nat_eq, string_eq, pair_eq, beq_refl, any, count_if, inl, inr, Bool-cases, In, In-cons, here,
  there,
}
use local_data_platform.Sql.{find, Unique}
use local_data_platform.Cdc.Bronze.{BronzeRow, coordinates}
use local_data_platform.Cdc.Reconcile.{
  Coordinates, is_among, groups, stands_twice, duplicate_offsets,
}
use local_data_platform.Cdc.Reconcile.Exact.{none_selected-any}

-- How many rows stand at the coordinates.
abbrev at : Coordinates → List BronzeRow → ℕ
at k rows = count_if (λ r. coordinates r == k) rows

among_any :
    (p : Coordinates → Bool) (k : Coordinates) (ks : List Coordinates)
    → is_among ks k ≡ true
    → p k ≡ true
    → any p ks ≡ true
among_any p k [] i h = cc
among_any p k (j ∷ js) i h = elim (Bool-cases (j == k)) [
  | inl same ↦ rw (ap p ((pair_eq.beq_iff j k).0 same) ∙ h) refl
  | inr other ↦ ground (arith, among_any p k js (rw other at i) h)
]

any-groups :
    (p : Coordinates → Bool) (rows : List BronzeRow)
    → any p (groups rows) ≡ any (λ r. p (coordinates r)) rows
any-groups p [] = refl
any-groups p (r ∷ rs) = elim (Bool-cases (is_among (groups rs) (coordinates r))) [
  | inr fresh ↦ rw (fresh, any-groups p rs) refl
  | inl known ↦ elim (Bool-cases (p (coordinates r))) [
    | inr miss ↦ rw (known, miss) (any-groups p rs)
    | inl hit ↦ rw (known, hit) (among_any p (coordinates r) (groups rs) known hit)
  ]
]

at-zero :
    (k : Coordinates) (rows : List BronzeRow) → (at k rows ≡ 0) ↔ (find coordinates k rows ≡ none)
unfolding find
at-zero k [] = (λ h. refl, λ h. refl)
at-zero k (r ∷ rs) = elim (Bool-cases (coordinates r == k)) [
  | inl same ↦ rw same (λ h. absurd (ground arith), λ h. cc)
  | inr other ↦ rw other (at-zero k rs)
]

-- At every row's coordinates stands one row.
abbrev Single : List BronzeRow → Type 0
Single rows = (r : BronzeRow) → In r rows → at (coordinates r) rows ≤ 1

Single-Unique : (rows : List BronzeRow) → Single rows → Unique coordinates rows
Single-Unique [] single = tt
Single-Unique (x ∷ xs) single = (
  (at-zero (coordinates x) xs).0 (ground (arith, single x here, beq_refl (coordinates x))),
  Single-Unique xs (λ r i. ground (arith, single r (there i))),
)

Unique-Single : (rows : List BronzeRow) → Unique coordinates rows → Single rows
Unique-Single [] u r i = elim i [ ]
Unique-Single (x ∷ xs) u r i = elim (Bool-cases (coordinates x == coordinates r)) [
  | inl same ↦
      let alone : at (coordinates r) xs ≡ 0 = (at-zero (coordinates r) xs).1 (
        subst (λ k. find coordinates k xs ≡ none)
          ((pair_eq.beq_iff (coordinates x) (coordinates r)).0 same) u.0) in
      rw same (ground arith)
  | inr other ↦ rw other (elim (In-cons i) [
    | inl e ↦ absurd (ground (arith, ap coordinates e, beq_refl (coordinates x)))
    | inr later ↦ Unique-Single xs u.1 r later
  ])
]

none_of_any :
    (p : BronzeRow → Bool) (rows : List BronzeRow)
    → any p rows ≡ false
    → (r : BronzeRow) → In r rows
    → p r ≡ false
none_of_any p [] h r i = elim i [ ]
none_of_any p (_ ∷ rs) h r here = ground arith
none_of_any p (x ∷ rs) h r (there i) = none_of_any p rs (ground arith) r i

any_of_none :
    (p : BronzeRow → Bool) (rows : List BronzeRow)
    → ((r : BronzeRow) → In r rows → p r ≡ false)
    → any p rows ≡ false
any_of_none p [] h = refl
any_of_none p (x ∷ rs) h = rw (h x here) (any_of_none p rs (λ r i. h r (there i)))

duplicates :
    (rows : List BronzeRow)
    → (duplicate_offsets rows == 0) ≡ not (any (λ r. stands_twice rows (coordinates r)) rows)
unfolding duplicate_offsets
duplicates rows =
    none_selected-any (stands_twice rows) (groups rows)
    ∙ ap not (any-groups (stands_twice rows) rows)

pub duplicate_offsets_iff :
    (rows : List BronzeRow) → ((duplicate_offsets rows == 0) ≡ true) ↔ Unique coordinates rows
duplicate_offsets_iff rows = (
  λ h. Single-Unique rows (λ r i. ground (
    arith,
    none_of_any (λ q. stands_twice rows (coordinates q)) rows (ground (arith, duplicates rows)) r i,
  )),
  λ u.
      duplicates rows
      ∙ ap not (
          any_of_none (λ q. stands_twice rows (coordinates q)) rows
            (λ r i. ground (arith, Unique-Single rows u r i))),
)
