-- ===== src/Sql/Merge.antt =====
-- MERGE INTO .. USING .. ON the key, as the Spark jobs run it: every row is compared with the target
-- as it was before the statement.
use local_data_platform.Prelude.{
  ◌≡◌, refl, ap, ◌∙◌, Bool, true, false, not, Option, none, some, List, [], ◌∷◌, ◌++◌, map, arith,
  Eq, ◌==◌, select, is_some, if◌then◌else◌, In, here, there, select-In,
}
use local_data_platform.Sql.{find, has, Unique}
use local_data_platform.Sql.Upsert.{key_of_find, first_of_both, find-append}
use local_data_platform.Sql.Selection.{find-map, apply_to, select-Unique}

module _ {ℓ κ} {K : Type κ} {A : Type ℓ} ⦃e : Eq K⦄ (key : A → K) where
  -- The source rows whose key the target does not have.
  abbrev pub unmatched : List A → List A → List A
  unmatched source target = select (λ s. not (has key (key s) target)) source

  -- WHEN NOT MATCHED THEN INSERT *
  unfoldable pub merge_insert : List A → List A → List A
  merge_insert source target = target ++ unmatched source target

  abbrev pub updated : (A → A → Bool) → A → Option A → A
  updated accept t none = t
  updated accept t (some s) = if accept s t then s else t

  abbrev pub refreshed : (A → A → Bool) → List A → A → A
  refreshed accept source t = updated accept t (find key (key t) source)

  -- WHEN MATCHED AND accept THEN UPDATE SET *, WHEN NOT MATCHED THEN INSERT *
  unfoldable pub merge_update : (A → A → Bool) → List A → List A → List A
  merge_update accept source target =
      map (refreshed accept source) target ++ unmatched source target

  find-select_key :
      (p : K → Bool) (k : K) (rs : List A)
      → find key k (select (λ r. p (key r)) rs) ≡ (if p k then find key k rs else none)
  unfolding find
  find-select_key p k [] = ground arith
  find-select_key p k (r ∷ rs) = ground (arith, e.beq_iff (key r) k, find-select_key p k rs)

  -- The target's row stays, and a new key gets the source's row.
  pub find-merge_insert :
      (k : K) (source target : List A)
      → find key k (merge_insert source target)
        ≡ first_of_both key (find key k target) (find key k source)
  unfolding merge_insert
  find-merge_insert k source target = ground (
    arith,
    find-append key k target (unmatched source target),
    find-select_key (λ j. not (has key j target)) k source,
  )

  abbrev pub combine : (A → A → Bool) → Option A → Option A → Option A
  combine accept none s = s
  combine accept (some t) s = some (updated accept t s)

  updated-key :
      (accept : A → A → Bool) (t : A) (source : List A)
      → key (updated accept t (find key (key t) source)) ≡ key t
  updated-key accept t source = go (find key (key t) source) refl
    where
      go : (o : Option A) → find key (key t) source ≡ o → key (updated accept t o) ≡ key t
      go none h = refl
      go (some s) h = ground (arith, key_of_find key (key t) source {r = s})

  combined :
      (accept : A → A → Bool) (k : K) (source target : List A) (o : Option A)
      → find key k target ≡ o
      → first_of_both key
          (apply_to key (refreshed accept source) o)
          (if not (is_some o) then find key k source else none)
        ≡ combine accept o (find key k source)
  combined accept k source target none h = refl
  combined accept k source target (some t) h =
      ap (λ j. some (updated accept t (find key j source))) (key_of_find key k target h)

  -- A matched row is replaced if the source's row is accepted, and a new key gets the source's row.
  pub find-merge_update :
      (accept : A → A → Bool) (k : K) (source target : List A)
      → find key k (merge_update accept source target)
        ≡ combine accept (find key k target) (find key k source)
  unfolding merge_update
  find-merge_update accept k source target =
      find-append key k (map (refreshed accept source) target) (unmatched source target)
      ∙ rw
          (
            find-map key (refreshed accept source) (λ t. updated-key accept t source) k target,
            find-select_key (λ j. not (has key j target)) k source,
          )
          (combined accept k source target (find key k target) refl)

  absent_of_none :
      (k : K) (ts : List A) → ((t : A) → In t ts → (key t == k) ≡ false) → find key k ts ≡ none
  unfolding find
  absent_of_none k [] h = refl
  absent_of_none k (t ∷ ts) h = ground (arith, h t here, absent_of_none k ts (λ r i. h r (there i)))

  append_disjoint-Unique :
      (rs ts : List A)
      → Unique key rs
      → Unique key ts
      → ((t : A) → In t ts → find key (key t) rs ≡ none)
      → Unique key (rs ++ ts)
  unfolding find
  append_disjoint-Unique [] ts u v h = v
  append_disjoint-Unique (r ∷ rs) ts u v h = (
    ground (
      arith,
      find-append key (key r) rs ts,
      absent_of_none (key r) ts
          (λ t i. ground (arith, h t i, e.beq_iff (key t) (key r), e.beq_iff (key r) (key t))),
    ),
    append_disjoint-Unique rs ts u.1 v (λ t i. ground (arith, h t i)),
  )

  -- Keys stay unique.
  pub merge_insert-Unique :
      (source target : List A)
      → Unique key source
      → Unique key target
      → Unique key (merge_insert source target)
  unfolding merge_insert
  merge_insert-Unique source target u v =
      append_disjoint-Unique target (unmatched source target) v
        (select-Unique key (λ s. not (has key (key s) target)) source u)
        (λ t i. ground (arith, select-In (λ s. not (has key (key s) target)) source t i))

  select_all : (p : A → Bool) (rs : List A) → ((r : A) → p r ≡ true) → select p rs ≡ rs
  select_all p [] h = refl
  select_all p (r ∷ rs) h = rw (h r) (ap (λ ts. r ∷ ts) (select_all p rs h))

  -- Into an empty table a MERGE is an append.
  pub merge_insert_empty : (source : List A) → merge_insert source [] ≡ [] ++ source
  unfolding merge_insert find
  merge_insert_empty source = select_all (λ s. not (has key (key s) [])) source (λ r. refl)

  pub merge_update_empty :
      (accept : A → A → Bool) (source : List A) → merge_update accept source [] ≡ [] ++ source
  unfolding merge_update find
  merge_update_empty accept source = select_all (λ s. not (has key (key s) [])) source (λ r. refl)

  map-Unique :
      (f : A → A)
      → ((r : A) → key (f r) ≡ key r)
      → (rs : List A) → Unique key rs
      → Unique key (map f rs)
  unfolding find
  map-Unique f keeps [] u = tt
  map-Unique f keeps (r ∷ rs) u =
      (ground (arith, keeps r, find-map key f keeps (key r) rs), map-Unique f keeps rs u.1)

  pub merge_update-Unique :
      (accept : A → A → Bool) (source target : List A)
      → Unique key source
      → Unique key target
      → Unique key (merge_update accept source target)
  unfolding merge_update
  merge_update-Unique accept source target u v =
      append_disjoint-Unique (map (refreshed accept source) target) (unmatched source target)
        (map-Unique (refreshed accept source) (λ t. updated-key accept t source) target v)
        (select-Unique key (λ s. not (has key (key s) target)) source u)
        (λ t i. ground (
          arith,
          find-map key (refreshed accept source) (λ r. updated-key accept r source) (key t) target,
          select-In (λ s. not (has key (key s) target)) source t i,
        ))

  -- If every key of the source is in the target, the statement changes nothing.
  pub merge_insert_known :
      (source target : List A)
      → ((s : A) → In s source → has key (key s) target ≡ true)
      → merge_insert source target ≡ target
  unfolding merge_insert
  merge_insert_known source target h =
      ap (λ rs. target ++ rs) (none_unmatched source h) ∙ append-nil target
    where
      none_unmatched :
          (ss : List A)
          → ((s : A) → In s ss → has key (key s) target ≡ true)
          → unmatched ss target ≡ []
      none_unmatched [] h = refl
      none_unmatched (s ∷ ss) h = ground (arith, h s here, none_unmatched ss (λ r i. h r (there i)))

      append-nil : (rs : List A) → rs ++ [] ≡ rs
      append-nil [] = refl
      append-nil (r ∷ rs) = ap (λ ts. r ∷ ts) (append-nil rs)
