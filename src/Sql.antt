-- ===== src/Sql.antt =====
-- Tables as lists of rows, under the SQL and DataFrame statements that the components run. A row's
-- key is a function of the row; `find` is the index lookup, `upsert` one row of
-- INSERT .. ON CONFLICT (key) DO UPDATE SET .. WHERE ..
pub mod Upsert
pub mod Selection
pub mod Merge
pub mod Ensure
pub mod Distinct
use local_data_platform.Prelude.{
  ◌≡◌, Bool, Option, none, some, List, [], ◌∷◌, ◌++◌, Eq, ◌==◌, is_some, if◌then◌else◌,
}

module _ {ℓ κ} {K : Type κ} {A : Type ℓ} ⦃e : Eq K⦄ (key : A → K) where
  unfoldable pub find : K → List A → Option A
  find k [] = none
  find k (r ∷ rs) = if key r == k then some r else find k rs

  -- Whether a row holds the key.
  abbrev pub has : K → List A → Bool
  has k rs = is_some (find k rs)

  unfoldable pub upsert : (A → A → Bool) → (A → A → A) → A → List A → List A
  upsert accept update r [] = r ∷ []
  upsert accept update r (t ∷ ts) =
      if key t == key r
      then (if accept r t then update r t else t) ∷ ts
      else t ∷ upsert accept update r ts

  -- No key stands in two rows.
  abbrev pub Unique : List A → Type ℓ
  Unique [] = Unit
  Unique (r ∷ rs) = (find (key r) rs ≡ none) × Unique rs
