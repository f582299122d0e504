-- ===== src/Sql/Upsert.antt =====
-- What is found after an upsert, and that keys stay unique.
use local_data_platform.Prelude.{
  ◌≡◌, refl, Bool, Option, none, some, List, [], ◌∷◌, ◌++◌, arith, In, here, there, Eq, ◌==◌,
  if◌then◌else◌,
}
use local_data_platform.Sql.{find, upsert, Unique}

module _ {ℓ κ} {K : Type κ} {A : Type ℓ} ⦃e : Eq K⦄ (key : A → K) where
  -- The row that stands under a key after an upsert of `r`, from the row that stood there.
  abbrev pub merged : (A → A → Bool) → (A → A → A) → A → Option A → A
  merged accept update r none = r
  merged accept update r (some t) = if accept r t then update r t else t

  -- A found row has the key.
  pub key_of_find : (k : K) (rs : List A) {r : A} → find key k rs ≡ some r → key r ≡ k
  unfolding find
  key_of_find k [] h = cc
  key_of_find k (t ∷ ts) {r} h = ground (arith, e.beq_iff (key t) k, key_of_find k ts {r = r})

  module _ (accept : A → A → Bool) (update : A → A → A) where
    pub find-upsert :
        ((r t : A) → key t ≡ key r → key (update r t) ≡ key r)
        → (k : K) (r : A) (rs : List A)
        → find key k (upsert key accept update r rs) ≡ (
            if key r == k
            then some (merged accept update r (find key (key r) rs))
            else find key k rs)
    unfolding find upsert
    find-upsert keeps k r [] = ground arith
    find-upsert keeps k r (t ∷ ts) = ground (
      arith,
      keeps r t,
      e.beq_iff (key t) (key r),
      e.beq_iff (key t) k,
      e.beq_iff (key r) k,
      find-upsert keeps k r ts,
    )

    -- Upserts keep keys unique, and neither lose nor invent a key.
    pub upsert-Unique :
        ((r t : A) → key t ≡ key r → key (update r t) ≡ key r)
        → (r : A) (rs : List A) → Unique key rs
        → Unique key (upsert key accept update r rs)
    unfolding find upsert
    upsert-Unique keeps r [] h = ground arith
    upsert-Unique keeps r (t ∷ ts) h = ground (
      arith,
      keeps r t,
      e.beq_iff (key t) (key r),
      e.beq_iff (key r) (key t),
      find-upsert keeps (key t) r ts,
      upsert-Unique keeps r ts h.1,
    )

  -- A row appended at the end is found if no earlier row has the key.
  abbrev pub first_of_both : Option A → Option A → Option A
  first_of_both none o = o
  first_of_both (some r) o = some r

  pub find-append :
      (k : K) (rs ts : List A)
      → find key k (rs ++ ts) ≡ first_of_both (find key k rs) (find key k ts)
  unfolding find
  find-append k [] ts = refl
  find-append k (r ∷ rs) ts = ground (arith, find-append k rs ts)

  pub append-Unique :
      (rs : List A) (r : A) → find key (key r) rs ≡ none → Unique key rs → Unique key (rs ++ r ∷ [])
  unfolding find
  append-Unique [] r absent h = (refl, tt)
  append-Unique (t ∷ ts) r absent h = ground (
    arith,
    find-append (key t) ts (r ∷ []),
    e.beq_iff (key t) (key r),
    e.beq_iff (key r) (key t),
    append-Unique ts r,
  )

  -- Keys stay unique when no key of one table is found in the other.
  pub append-Unique_both :
      (rs ts : List A)
      → Unique key rs
      → Unique key ts
      → ((r : A) → In r rs → find key (key r) ts ≡ none)
      → Unique key (rs ++ ts)
  append-Unique_both [] ts u v apart = v
  append-Unique_both (r ∷ rs) ts u v apart = (
    ground (arith, find-append (key r) rs ts, apart r here),
    append-Unique_both rs ts u.1 v (λ q i. apart q (there i)),
  )
