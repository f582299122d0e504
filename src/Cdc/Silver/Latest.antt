-- ===== src/Cdc/Silver/Latest.antt =====
-- What a reader of cdc_silver.customers_current sees of one customer, and the specification of it:
-- the latest change by (source_lsn, kafka_offset), shown unless it deletes.
pub mod Convergence
use local_data_platform.Prelude.{
  ℕ, ◌≡◌, refl, Bool, true, false, Option, none, some, List, [], ◌∷◌, arith, ◌==◌, nat_eq,
  nat_beq_iff, if◌then◌else◌, inl, inr, sym, subst, Bool-cases,
}
use local_data_platform.Sql.{find}
use local_data_platform.Sql.Upsert.{find-upsert, key_of_find, merged}
use local_data_platform.Cdc.Bronze.{BronzeRow}
use local_data_platform.Cdc.Silver.{SilverRow, customer, newer}
use local_data_platform.Cdc.Silver.Rebuild.{
  change_of, set_change, set_change_keeps, apply_change, rebuild_from, rebuild,
}

-- The row of a customer in the view.
abbrev pub visible : Option SilverRow → Option SilverRow
visible none = none
visible (some r) = if r.is_deleted then none else some r

-- The later of two changes; the first stays on a tie.
abbrev pub later : SilverRow → Option SilverRow → SilverRow
later c none = c
later c (some t) = if newer c t then c else t

abbrev pub note_change : ℕ → Option SilverRow → Option SilverRow → Option SilverRow
note_change k none o = o
note_change k (some c) o = if customer c == k then some (later c o) else o

-- The latest change of a customer among Bronze records, whatever attributes a delete kept.
unfoldable pub latest_from : ℕ → Option SilverRow → List BronzeRow → Option SilverRow
latest_from k o [] = o
latest_from k o (b ∷ bs) = latest_from k (note_change k (change_of b) o) bs

unfoldable pub latest : ℕ → List BronzeRow → Option SilverRow
unfolding latest_from
latest k bs = latest_from k none bs

-- A stored row agrees with a change up to the attributes that a delete kept.
abbrev pub Agrees : Option SilverRow → Option SilverRow → Type 0
Agrees none none = Unit
Agrees none (some e) = ⊥
Agrees (some s) none = ⊥
Agrees (some s) (some e) =
    (s.customer_id ≡ e.customer_id)
    × (s.source_lsn ≡ e.source_lsn)
    × (s.kafka_offset ≡ e.kafka_offset)
    × (s.is_deleted ≡ e.is_deleted)
    × (e.is_deleted ≡ false → s ≡ e)

-- The merge of a change into the row that stands there keeps the agreement.
merge-Agrees :
    (deleted : Bool) (c : SilverRow) (o l : Option SilverRow)
    → c.is_deleted ≡ deleted
    → ((s : SilverRow) → o ≡ some s → s.customer_id ≡ c.customer_id)
    → Agrees o l
    → Agrees (some (merged customer newer (set_change deleted) c o)) (some (later c l))
merge-Agrees true c none none d k a = ground arith
merge-Agrees true c (some s) (some e) d k a = ground (arith, k s refl)
merge-Agrees false c none none d k a = ground arith
merge-Agrees false c (some s) (some e) d k a = ground (arith, k s refl)
merge-Agrees _ c none (some e) d k a = absurd a
merge-Agrees _ c (some s) none d k a = absurd a

module _ (c : SilverRow) (rows : List SilverRow) where
  change-Agrees :
      (k : ℕ) (l : Option SilverRow)
      → Agrees (find customer k rows) l
      → Agrees (find customer k (apply_change (some c) rows)) (note_change k (some c) l)
  unfolding apply_change
  change-Agrees k l a =
      let update = set_change c.is_deleted in
      let found = find-upsert customer newer update (set_change_keeps c.is_deleted) k c rows in
      elim (Bool-cases (customer c == k)) [
        | inl same ↦
            let e : k ≡ customer c = sym ((nat_beq_iff (customer c) k).0 same) in
            rw (found, same)
              (merge-Agrees c.is_deleted c (find customer (customer c) rows) l refl
                (λ s h. key_of_find customer (customer c) rows h)
                (subst (λ j. Agrees (find customer j rows) l) e a))
        | inr other ↦ rw (found, other) a
      ]

rebuild-Agrees :
    (k : ℕ) (bs : List BronzeRow) (rows : List SilverRow) (l : Option SilverRow)
    → Agrees (find customer k rows) l
    → Agrees (find customer k (rebuild_from rows bs)) (latest_from k l bs)
unfolding rebuild_from latest_from
rebuild-Agrees k [] rows l a = a
rebuild-Agrees k (b ∷ bs) rows l a =
    rebuild-Agrees k bs (apply_change (change_of b) rows) (note_change k (change_of b) l)
      (step (change_of b))
  where
    step :
        (c : Option SilverRow) → Agrees (find customer k (apply_change c rows)) (note_change k c l)
    step none = unfold apply_change in a
    step (some c) = change-Agrees c rows k l a

Agrees-visible : (o l : Option SilverRow) → Agrees o l → visible o ≡ visible l
Agrees-visible none none a = refl
Agrees-visible none (some e) a = absurd a
Agrees-visible (some s) none a = absurd a
Agrees-visible (some s) (some e) a = ground arith

-- A customer's row in the rebuilt Silver is that of the latest change, attributes of a delete aside.
pub rebuild-Agrees_latest :
    (k : ℕ) (bs : List BronzeRow) → Agrees (find customer k (rebuild bs)) (latest k bs)
unfolding rebuild latest find
rebuild-Agrees_latest k bs = rebuild-Agrees k bs [] none tt

-- A customer's row in the view over the rebuilt Silver is that of the latest change in Bronze: the
-- attributes of the change with the greatest (source_lsn, kafka_offset), or no row if it deletes.
pub rebuild-latest :
    (k : ℕ) (bs : List BronzeRow) → visible (find customer k (rebuild bs)) ≡ visible (latest k bs)
unfolding rebuild latest find
rebuild-latest k bs = Agrees-visible _ _ (rebuild-Agrees k bs [] none tt)
