-- ===== src/Cdc/Silver/Latest/Convergence.antt =====
-- The view over Silver does not depend on the order in which partitions and retries deliver.
use local_data_platform.Prelude.{
  ℕ, ◌≡◌, refl, ◌⊎◌, inl, inr, false, Option, none, some, List, [], ◌∷◌, sym, ◌∙◌, ap, subst, arith,
  ◌==◌, nat_eq, nat_beq_iff, In, here, there, Bool-cases, Option-cases,
}
use local_data_platform.Sql.{find}
use local_data_platform.Cdc.Bronze.{BronzeRow}
use local_data_platform.Cdc.Silver.{SilverRow, customer, newer}
use local_data_platform.Cdc.Silver.Rebuild.{change_of, rebuild}
use local_data_platform.Cdc.Silver.Latest.{
  visible, later, note_change, latest_from, latest, rebuild-latest,
}

newer_negtrans : (a b c : SilverRow) → newer a b ≡ false → newer b c ≡ false → newer a c ≡ false
newer_negtrans a b c p q = ground arith

later_top : (c : SilverRow) (o : Option SilverRow) → newer c (later c o) ≡ false
later_top c none = ground arith
later_top c (some t) = ground arith

later_keeps : (c t : SilverRow) → newer t (later c (some t)) ≡ false
later_keeps c t = ground arith

later_either : (c : SilverRow) (o : Option SilverRow) → (later c o ≡ c) ⊎ (o ≡ some (later c o))
later_either c none = inl refl
later_either c (some t) = elim (Bool-cases (newer c t)) [ inl p ↦ inl (rw p) | inr p ↦ inr (rw p) ]

module _ (k : ℕ) where
  -- A change of the customer that a Bronze record of the list makes.
  abbrev pub Makes : BronzeRow → SilverRow → Type 0
  Makes b e = (change_of b ≡ some e) × (customer e ≡ k)

  note_self :
      (c : SilverRow) (o : Option SilverRow)
      → customer c ≡ k
      → note_change k (some c) o ≡ some (later c o)
  note_self c o h = rw ((nat_beq_iff (customer c) k).1 h)

  note_top :
      (c : Option SilverRow) (t : SilverRow)
      → (u : SilverRow) × (note_change k c (some t) ≡ some u) × (newer t u ≡ false)
  note_top none t = (t, refl, ground arith)
  note_top (some c) t = elim (Bool-cases (customer c == k)) [
    | inl p ↦ (later c (some t), rw p, later_keeps c t)
    | inr p ↦ (t, rw p, ground arith)
  ]

  latest_from_top :
      (bs : List BronzeRow) (t : SilverRow)
      → (e : SilverRow) × (latest_from k (some t) bs ≡ some e) × (newer t e ≡ false)
  unfolding latest_from
  latest_from_top [] t = (t, refl, ground arith)
  latest_from_top (b ∷ bs) t =
      let (u, p, q) = note_top (change_of b) t in
      let (e, r, s) = latest_from_top bs u in (e, rw p r, newer_negtrans t u e q s)

  latest_from_max :
      (bs : List BronzeRow) (o : Option SilverRow) (b : BronzeRow) (c : SilverRow)
      → In b bs
      → Makes b c
      → (e : SilverRow) × (latest_from k o bs ≡ some e) × (newer c e ≡ false)
  unfolding latest_from
  latest_from_max [] o b c m h = elim m [ ]
  latest_from_max (_ ∷ bs) o b c here h =
      let (e, p, q) = latest_from_top bs (later c o) in
      (e, rw (h.0, note_self c o h.1) p, newer_negtrans c (later c o) e (later_top c o) q)
  latest_from_max (a ∷ bs) o b c (there m) h =
      latest_from_max bs (note_change k (change_of a) o) b c m h

  note_sound :
      (c o : Option SilverRow) (e : SilverRow)
      → note_change k c o ≡ some e
      → (o ≡ some e) ⊎ ((c ≡ some e) × (customer e ≡ k))
  note_sound none o e h = inl h
  note_sound (some c) o e h = elim (Bool-cases (customer c == k)) [
    | inl p ↦ elim (later_either c o) [
      | inl q ↦ inr (ground (arith, nat_beq_iff (customer c) k))
      | inr q ↦ inl (ground arith)
    ]
    | inr p ↦ inl (ground arith)
  ]

  -- The result is the accumulator or a change that some record makes.
  latest_from_sound :
      (bs : List BronzeRow) (o : Option SilverRow) (e : SilverRow)
      → latest_from k o bs ≡ some e
      → (o ≡ some e) ⊎ ((b : BronzeRow) × In b bs × Makes b e)
  unfolding latest_from
  latest_from_sound [] o e h = inl h
  latest_from_sound (b ∷ bs) o e h =
      elim (latest_from_sound bs (note_change k (change_of b) o) e h) [
        | inr (a, m, made) ↦ inr (a, there m, made)
        | inl p ↦ elim (note_sound (change_of b) o e p) [ inl q ↦ inl q | inr q ↦ inr (b, here, q) ]
      ]

  -- No two records change the customer under one (source_lsn, kafka_offset).
  abbrev pub DistinctVersions : List BronzeRow → Type 0
  DistinctVersions bs =
      (a b : BronzeRow) (x y : SilverRow)
      → In a bs
      → In b bs
      → Makes a x
      → Makes b y
      → newer x y ≡ false
      → newer y x ≡ false
      → x ≡ y

  module _ (bs cs : List BronzeRow) (into : (b : BronzeRow) → In b bs → In b cs) where
    -- What is latest among fewer records is not later than what is latest among more.
    latest_grows :
        (e : SilverRow)
        → latest k bs ≡ some e
        → (b : BronzeRow) × In b bs
          × Makes b e
          × (u : SilverRow) × (latest k cs ≡ some u)
          × (newer e u ≡ false)
    unfolding latest
    latest_grows e h = elim (latest_from_sound bs none e h) [
      | inl p ↦ absurd (cc)
      | inr (b, m, made) ↦
          let (u, p, q) = latest_from_max cs none b e (into b m) made in (b, m, made, u, p, q)
    ]

  module _ (bs cs : List BronzeRow) (into : (b : BronzeRow) → In b bs → In b cs)
      (back : (b : BronzeRow) → In b cs → In b bs) (distinct : DistinctVersions bs) where
    latest-eq : latest k bs ≡ latest k cs
    latest-eq = elim (Option-cases (latest k bs)) [
      | inl p ↦ elim (Option-cases (latest k cs)) [
        | inl q ↦ p ∙ sym q
        | inr (u, q) ↦ let (b, m, made, e, r, s) = latest_grows cs bs back u q in absurd (cc)
      ]
      | inr (e, p) ↦
          let (b, m, made, u, q, keeps) = latest_grows bs cs into e p in
          let (c, n, makes, e', p', kept) = latest_grows cs bs back u q in
          let back_again : e' ≡ e = ground (arith, p', p) in
          p
          ∙ ap some (
              distinct b c e u m (back c n) made makes keeps
                (subst (λ x. newer u x ≡ false) back_again kept))
          ∙ sym q
    ]

    -- Two deliveries that left the same records in Bronze, in whatever order, show the same row of
    -- the customer, if no two of its changes have the same (source_lsn, kafka_offset).
    pub rebuild_converges :
        visible (find customer k (rebuild bs)) ≡ visible (find customer k (rebuild cs))
    rebuild_converges = rebuild-latest k bs ∙ ap visible latest-eq ∙ sym (rebuild-latest k cs)
