-- ===== src/Generator/Tables/Numbered.antt =====
-- Tables whose rows are numbered by gen_random_uuid(), one row for each index.
use local_data_platform.Prelude.{
  ℕ, ◌+◌, ◌<◌, ◌≡◌, refl, sym, subst, none, List, [], ◌∷◌, ◌++◌, arith, Result, ok, nat_eq, All,
  All-append,
}
use local_data_platform.Sql.{find, Unique}
use local_data_platform.Sql.Upsert.{append-Unique}
use local_data_platform.Generator.Copy.{DrawError, write_from, write_from_induction}

-- It never repeats itself.
abbrev pub IsFresh : (ℕ → ℕ) → Type 0
IsFresh uuid = (i j : ℕ) → uuid i ≡ uuid j → i ≡ j

module _ {A : Type 0} (key : A → ℕ) (uuid : ℕ → ℕ) (fresh : IsFresh uuid)
    (row : ℕ → Result DrawError (List A))
    (single : (i : ℕ) (new : List A)
      → row i ≡ ok new
      → (a : A) × (new ≡ a ∷ []) × (key a ≡ uuid i)) where
  Before : ℕ → A → Type 0
  Before i a = (j : ℕ) × (j < i) × (key a ≡ uuid j)

  Numbered : ℕ → List A → Type 0
  Numbered i rows = All (Before i) rows × Unique key rows

  weaken : (i : ℕ) (rows : List A) → All (Before i) rows → All (Before (i + 1)) rows
  unfolding Before
  weaken i [] all = tt
  weaken i (a ∷ rows) all = ((all.0.0, omega (arith, all.0.1), all.0.2), weaken i rows all.1)

  not_yet : (i : ℕ) (rows : List A) → All (Before i) rows → find key (uuid i) rows ≡ none
  unfolding Before find
  not_yet i [] all = refl
  not_yet i (a ∷ rows) all = ground (arith, fresh all.0.0 i, all.0.1, all.0.2, not_yet i rows all.1)

  next_row :
      (i : ℕ) (rows new : List A)
      → row i ≡ ok new
      → Numbered i rows
      → Numbered (i + 1) (rows ++ new)
  unfolding Before Numbered
  next_row i rows new h w =
      let (a, is, numbered) = single i new h in
      subst (λ n. Numbered (i + 1) (rows ++ n)) (sym is)
        (
          All-append (Before (i + 1)) rows (a ∷ []) (weaken i rows w.0)
              ((i, omega arith, numbered), tt),
          append-Unique key rows a
              (subst (λ k. find key k rows ≡ none) (sym numbered) (not_yet i rows w.0)) w.1,
        )

  pub write_from-Unique : (n : ℕ) (out : List A) → write_from row 0 n [] ≡ ok out → Unique key out
  unfolding Numbered
  write_from-Unique n out h = (write_from_induction row Numbered next_row 0 n [] out h (tt, tt)).1
