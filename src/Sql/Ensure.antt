-- ===== src/Sql/Ensure.antt =====
-- A row that is created when its key is missing and altered when it is there, as administrative scripts
-- do with a SELECT before the CREATE or the ALTER.
use local_data_platform.Prelude.{
  ◌≡◌, refl, ap, ◌∙◌, true, false, Option, none, some, List, [], ◌∷◌, ◌++◌, map, arith, Eq, ◌==◌,
  beq_refl, is_some, if◌then◌else◌, inl, inr, ◌⊎◌, Bool-cases, Option-cases,
}
use local_data_platform.Sql.{find, has}
use local_data_platform.Sql.Upsert.{find-append, first_of_both, key_of_find}
use local_data_platform.Sql.Selection.{find-map, apply_to}

module _ {ℓ κ} {K : Type κ} {A : Type ℓ} ⦃e : Eq K⦄ (key : A → K) where
  abbrev pub altered : K → (A → A) → A → A
  altered k alter r = if key r == k then alter r else r

  unfoldable pub ensure : K → A → (A → A) → List A → List A
  ensure k create alter rows =
      if has key k rows then map (altered k alter) rows else rows ++ create ∷ []

  module _ (k : K) (create : A) (alter : A → A) (keeps : (r : A) → key (alter r) ≡ key r) where
    altered-key : (r : A) → key (altered k alter r) ≡ key r
    altered-key r = ground (arith, keeps r)

    -- Under the key stands the altered row, or the created one.
    pub find-ensure :
        (rows : List A)
        → key create ≡ k
        → find key k (ensure k create alter rows)
          ≡ some (elim (find key k rows) [ none ↦ create | some r ↦ altered k alter r ])
    unfolding ensure find
    find-ensure rows is = elim (Option-cases (find key k rows)) [
      | inl absent ↦
          rw absent (find-append key k rows (create ∷ []) ∙ rw (absent, is, beq_refl k) refl)
      | inr (r, found) ↦
          rw found (find-map key (altered k alter) altered-key k rows ∙ rw found refl)
    ]

    -- Either the row was created or it was there and is altered.
    pub find-ensure-cases :
        (rows : List A)
        → key create ≡ k
        → (find key k (ensure k create alter rows) ≡ some create)
          ⊎ ((r : A) × (find key k (ensure k create alter rows) ≡ some (alter r)))
    find-ensure-cases rows is = elim (Option-cases (find key k rows)) [
      | inl absent ↦ inl (find-ensure rows is ∙ rw absent refl)
      | inr (r, found) ↦ inr (
        r,
        find-ensure rows is ∙ rw found (rw (key_of_find key k rows {r = r} found, beq_refl k) refl),
      )
    ]

    -- Every other key keeps its row.
    pub find-ensure_other :
        (j : K) (rows : List A)
        → key create ≡ k
        → (k == j) ≡ false
        → find key j (ensure k create alter rows) ≡ find key j rows
    unfolding ensure find
    find-ensure_other j rows is other = elim (Option-cases (find key k rows)) [
      | inl absent ↦ rw absent (find-append key j rows (create ∷ []) ∙ appended (find key j rows))
      | inr (r, found) ↦
          rw found
            (find-map key (altered k alter) altered-key j rows ∙ unaltered (find key j rows) refl)
    ]
      where
        appended :
            (o : Option A) → first_of_both key o (if key create == j then some create else none) ≡ o
        appended none = rw (is, other) refl
        appended (some r) = refl

        unaltered : (o : Option A) → find key j rows ≡ o → apply_to key (altered k alter) o ≡ o
        unaltered none h = refl
        unaltered (some r) h =
            ap some
              (ground (arith, key_of_find key j rows {r = r} h, e.beq_iff (key r) k, e.beq_iff k j))

    map_absent : (rows : List A) → find key k rows ≡ none → map (altered k alter) rows ≡ rows
    unfolding find
    map_absent [] h = refl
    map_absent (r ∷ rs) h = ground (arith, map_absent rs)

    map_append :
        (rows ts : List A)
        → map (altered k alter) (rows ++ ts)
          ≡ map (altered k alter) rows ++ map (altered k alter) ts
    map_append [] ts = refl
    map_append (r ∷ rs) ts = ap (λ xs. altered k alter r ∷ xs) (map_append rs ts)

    map_twice :
        ((r : A) → alter (alter r) ≡ alter r)
        → (rows : List A)
        → map (altered k alter) (map (altered k alter) rows) ≡ map (altered k alter) rows
    map_twice twice [] = refl
    map_twice twice (r ∷ rs) = ground (arith, keeps r, twice r, map_twice twice rs)

    ensured_there :
        (rows : List A)
        → has key k rows ≡ true
        → ensure k create alter rows ≡ map (altered k alter) rows
    unfolding ensure
    ensured_there rows is = rw is refl

    altered-ensure :
        ((r : A) → alter (alter r) ≡ alter r)
        → alter create ≡ create
        → key create ≡ k
        → (rows : List A)
        → map (altered k alter) (ensure k create alter rows) ≡ ensure k create alter rows
    unfolding ensure
    altered-ensure twice same is rows = elim (Option-cases (find key k rows)) [
      | inl absent ↦
          rw absent
            (map_append rows (create ∷ []) ∙ rw (map_absent rows absent, is, beq_refl k, same) refl)
      | inr (r, found) ↦ rw found (map_twice twice rows)
    ]

    -- Ensured once more, nothing changes.
    pub ensure_idempotent :
        ((r : A) → alter (alter r) ≡ alter r)
        → alter create ≡ create
        → key create ≡ k
        → (rows : List A)
        → ensure k create alter (ensure k create alter rows) ≡ ensure k create alter rows
    ensure_idempotent twice same is rows =
        let there_now : has key k (ensure k create alter rows) ≡ true =
          ap is_some (find-ensure rows is) in
        ensured_there (ensure k create alter rows) there_now ∙ altered-ensure twice same is rows

module _ {ℓ κ} {K : Type κ} {A : Type ℓ} ⦃e : Eq K⦄ (key : A → K) where
  -- What is found under a key is still found after another row is ensured.
  pub has-ensure :
      (j k : K) (create : A) (alter : A → A)
      → ((r : A) → key (alter r) ≡ key r)
      → (rows : List A) → has key j rows ≡ true
      → has key j (ensure key k create alter rows) ≡ true
  unfolding ensure find
  has-ensure j k create alter keeps rows there_is = elim (Bool-cases (has key k rows)) [
    | inl present ↦ rw present (
        rw (find-map key (altered key k alter) (altered-key key k create alter keeps) j rows)
          (still (find key j rows) there_is))
    | inr absent ↦
        rw absent (rw (find-append key j rows (create ∷ [])) (first (find key j rows) there_is))
  ]
    where
      still :
          (o : Option A) → is_some o ≡ true → is_some (apply_to key (altered key k alter) o) ≡ true
      still none h = cc
      still (some r) h = refl

      first :
          (o : Option A)
          → is_some o ≡ true
          → is_some (first_of_both key o (if key create == j then some create else none)) ≡ true
      first none h = cc
      first (some r) h = refl

  unaltered : (k : K) (rows : List A) → map (altered key k (λ r. r)) rows ≡ rows
  unaltered k [] = refl
  unaltered k (r ∷ rs) = ground (arith, unaltered k rs)

  -- A row that is there and is not altered.
  pub ensure_present :
      (k : K) (create : A) (rows : List A)
      → has key k rows ≡ true
      → ensure key k create (λ r. r) rows ≡ rows
  ensure_present k create rows is =
      ensured_there key k create (λ r. r) (λ r. refl) rows is ∙ unaltered k rows

  pub has-ensure_same :
      (k : K) (create : A) (alter : A → A)
      → ((r : A) → key (alter r) ≡ key r)
      → (rows : List A) → key create ≡ k
      → has key k (ensure key k create alter rows) ≡ true
  has-ensure_same k create alter keeps rows is =
      ap is_some (find-ensure key k create alter keeps rows is)
