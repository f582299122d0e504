-- ===== src/Sql/Selection.antt =====
-- Lookups in a view: a SELECT with a WHERE clause over a table with unique keys.
use local_data_platform.Prelude.{
  ◌≡◌, refl, Bool, true, Option, none, some, List, [], ◌∷◌, arith, Eq, ◌==◌, select, map, any,
  is_some, if◌then◌else◌, if_both, In, here, there, beq_refl, Bool-cases, inl, inr, subst, some_inj,
}
use local_data_platform.Sql.{find, Unique}

module _ {ℓ κ} {K : Type κ} {A : Type ℓ} ⦃e : Eq K⦄ (key : A → K) (p : A → Bool) where
  abbrev pub passing : Option A → Option A
  passing none = none
  passing (some r) = if p r then some r else none

  pub find-select_absent :
      (k : K) (rs : List A) → find key k rs ≡ none → find key k (select p rs) ≡ none
  unfolding find
  find-select_absent k [] h = refl
  find-select_absent k (r ∷ rs) h = ground (arith, find-select_absent k rs)

  -- With unique keys the view finds the table's row if it passes the test.
  pub find-select :
      (k : K) (rs : List A) → Unique key rs → find key k (select p rs) ≡ passing (find key k rs)
  unfolding find
  find-select k [] u = refl
  find-select k (r ∷ rs) u =
      ground (arith, e.beq_iff (key r) k, find-select k rs u.1, find-select_absent k rs)

-- An UPDATE that leaves the key alone acts on the row that is found.
module _ {ℓ κ} {K : Type κ} {A : Type ℓ} ⦃e : Eq K⦄ (key : A → K) where
  abbrev pub apply_to : (A → A) → Option A → Option A
  apply_to f none = none
  apply_to f (some r) = some (f r)

  pub find-map :
      (f : A → A)
      → ((r : A) → key (f r) ≡ key r)
      → (k : K) (rs : List A) → find key k (map f rs) ≡ apply_to f (find key k rs)
  unfolding find
  find-map f keeps k [] = refl
  find-map f keeps k (r ∷ rs) = ground (arith, keeps r, find-map f keeps k rs)

  -- The key of a row of the table is found.
  pub find-In : (rs : List A) (r : A) → In r rs → is_some (find key (key r) rs) ≡ true
  unfolding find
  find-In [] r i = elim i [ ]
  find-In (_ ∷ rs) r here = rw (beq_refl (key r)) refl
  find-In (q ∷ rs) r (there i) = ground (arith, find-In rs r i)

  -- With unique keys, a row of the table is the one that its key finds.
  pub find-In-Unique :
      (rs : List A) (r : A) → In r rs → Unique key rs → find key (key r) rs ≡ some r
  unfolding find
  find-In-Unique [] r i u = elim i [ ]
  find-In-Unique (_ ∷ rs) r here u = rw (beq_refl (key r)) refl
  find-In-Unique (q ∷ rs) r (there i) u =
      ground (arith, e.beq_iff (key q) (key r), find-In-Unique rs r i u.1)

  -- Whether a key is among the keys is whether it is found.
  pub any-key : (k : K) (rs : List A) → any (λ j. j == k) (map key rs) ≡ is_some (find key k rs)
  unfolding find
  any-key k [] = refl
  any-key k (r ∷ rs) = ground (arith, any-key k rs)

module _ {ℓ κ} {K : Type κ} {A : Type ℓ} ⦃e : Eq K⦄ (key : A → K) (p : A → Bool) where
  -- A selection of rows with unique keys has unique keys.
  pub select-Unique : (rs : List A) → Unique key rs → Unique key (select p rs)
  unfolding find
  select-Unique [] u = tt
  select-Unique (r ∷ rs) u =
      if_both (Unique key) (p r) (r ∷ select p rs) (select p rs)
        (find-select_absent key p (key r) rs u.0, select-Unique rs u.1) (select-Unique rs u.1)

module _ {ℓ κ} {K : Type κ} {A : Type ℓ} ⦃e : Eq K⦄ (key : A → K) where
  -- A row that is found is a row of the table.
  pub In-find : (k : K) (rs : List A) (r : A) → find key k rs ≡ some r → In r rs
  unfolding find
  In-find k [] r h = cc
  In-find k (q ∷ rs) r h = elim (Bool-cases (key q == k)) [
    | inl same ↦ subst (λ x. In x (q ∷ rs)) (some_inj (rw same at h)) here
    | inr other ↦ there (In-find k rs r (rw other at h))
  ]
