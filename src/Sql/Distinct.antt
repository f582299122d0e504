-- ===== src/Sql/Distinct.antt =====
-- COUNT(DISTINCT key) against COUNT(*).
use local_data_platform.Prelude.{
  ℕ, suc, ◌≤◌, ◌≡◌, ◌↔◌, refl, List, [], ◌∷◌, arith, Eq, length, if◌then◌else◌,
}
use local_data_platform.Sql.{has, Unique}

module _ {K A : Type 0} ⦃e : Eq K⦄ (key : A → K) where
  abbrev pub count_distinct : List A → ℕ
  count_distinct [] = 0
  count_distinct (r ∷ rs) =
      let rest = count_distinct rs in if has key (key r) rs then rest else suc rest

  distinct_le : (rs : List A) → count_distinct rs ≤ length rs
  distinct_le [] = omega arith
  distinct_le (r ∷ rs) = ground (arith, distinct_le rs)

  -- The counts agree exactly if no key stands in two rows.
  pub count_distinct_iff : (rs : List A) → (length rs ≡ count_distinct rs) ↔ Unique key rs
  count_distinct_iff [] = (λ h. tt, λ h. refl)
  count_distinct_iff (r ∷ rs) = ground (arith, distinct_le rs, count_distinct_iff rs)
