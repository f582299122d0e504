-- ===== src/Generator/Tables/Indexed.antt =====
-- The numbers of a table by their index, `order_ids[i]` of data-generator/generate_order_items.py.
use local_data_platform.Prelude.{
  ℕ, zero, suc, ◌<◌, ◌≡◌, refl, ap, subst, true, some, List, [], ◌∷◌, arith, nat_eq, pair_eq,
  length, In, here, there, some_inj, beq_refl,
}
use local_data_platform.Sql.{find, has, Unique}
use local_data_platform.Generator.Tables.{get_elem?}

abbrev pub self : ℕ → ℕ
self x = x

-- An element of a list without repetitions stands at one index.
get_elem?-has : (ids : List ℕ) (i x : ℕ) → get_elem? ids i ≡ some x → has self x ids ≡ true
unfolding find
get_elem?-has [] i x h = cc
get_elem?-has (y ∷ ids) zero x h = rw (some_inj h) (rw (beq_refl x) refl)
get_elem?-has (y ∷ ids) (suc i) x h = ground (arith, get_elem?-has ids i x h)

pub get_elem?_inj :
    (ids : List ℕ) (i j x : ℕ)
    → Unique self ids
    → get_elem? ids i ≡ some x
    → get_elem? ids j ≡ some x
    → i ≡ j
get_elem?_inj [] i j x u h k = cc
get_elem?_inj (y ∷ ids) zero zero x u h k = refl
get_elem?_inj (y ∷ ids) zero (suc j) x u h k = ground (arith, get_elem?-has ids j x k)
get_elem?_inj (y ∷ ids) (suc i) zero x u h k = ground (arith, get_elem?-has ids i x h)
get_elem?_inj (y ∷ ids) (suc i) (suc j) x u h k = ap suc (get_elem?_inj ids i j x u.1 h k)

pub get_elem?-In : (ids : List ℕ) (i x : ℕ) → get_elem? ids i ≡ some x → In x ids
get_elem?-In [] i x h = cc
get_elem?-In (y ∷ ids) zero x h = subst (λ z. In z (y ∷ ids)) (some_inj h) here
get_elem?-In (y ∷ ids) (suc i) x h = there (get_elem?-In ids i x h)

pub In-get_elem? :
    (ids : List ℕ) (x : ℕ) → In x ids → (i : ℕ) × (i < length ids) × (get_elem? ids i ≡ some x)
In-get_elem? [] x m = elim m [ ]
In-get_elem? (_ ∷ ids) x here = (0, omega arith, refl)
In-get_elem? (y ∷ ids) x (there m) =
    let (i, below, is) = In-get_elem? ids x m in (suc i, omega (arith, below), is)
