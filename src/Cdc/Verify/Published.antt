-- ===== src/Cdc/Verify/Published.antt =====
-- What the Bronze records of the customer that cdc/verify_materialization.py changes say of it.
use local_data_platform.Prelude.{
  ℕ, ◌<◌, String, ◌≡◌, refl, ap, subst, ◌∙◌, Bool, true, false, Option, none, some, List, [], ◌∷◌,
  arith, ◌==◌, nat_eq, string_eq, select, All, inl, inr, Bool-cases, Option-cases,
}
use local_data_platform.Cdc.Event.{Operation, create, update, delete, tombstone, CustomerImage}
use local_data_platform.Cdc.Bronze.{BronzeRow}
use local_data_platform.Cdc.Silver.{SilverRow, customer, newer, is_upsert}
use local_data_platform.Cdc.Silver.Rebuild.{change_of}
use local_data_platform.Cdc.Silver.Latest.{note_change, latest_from, latest}
use local_data_platform.Cdc.Verify.{is_change_of}

-- A record of an operation at a position of the source's log.
pub record IsRecord (op : Operation) (lsn : Option ℕ) (after : Option CustomerImage) (b : BronzeRow)
    : Type 0 where
  pub operation : b.operation ≡ op
  pub source_lsn : b.source_lsn ≡ lsn
  pub after_value : b.after_value ≡ after

-- The key of the message is the row's.
pub record IsKeyed (b : BronzeRow) : Type 0 where
  pub same_customer : (a : CustomerImage) → b.after_value ≡ some a → a.customer_id ≡ b.customer_id

pub record IsChange (k : ℕ) (name : Option String) (deleted : Bool) (lsn : ℕ) (c : SilverRow)
    : Type 0 where
  pub customer_id : c.customer_id ≡ k
  pub last_name : c.last_name ≡ name
  pub is_deleted : c.is_deleted ≡ deleted
  pub source_lsn : c.source_lsn ≡ lsn

change_of_upsert :
    (k : ℕ) (op : Operation) (lsn : ℕ) (a : CustomerImage) (b : BronzeRow)
    → is_upsert (some op) ≡ true
    → a.customer_id ≡ k
    → IsRecord op (some lsn) (some a) b
    → (c : SilverRow) × (change_of b ≡ some c) × IsChange k a.last_name false lsn c
unfolding change_of
change_of_upsert k op lsn a b changes key is =
    rw (is.source_lsn, is.operation, is.after_value, changes)
      (
        _,
        refl,
        record { customer_id = key; last_name = refl; is_deleted = refl; source_lsn = refl },
      )

change_of_delete :
    (k lsn : ℕ) (after : Option CustomerImage) (b : BronzeRow)
    → b.customer_id ≡ k
    → IsRecord delete (some lsn) after b
    → (c : SilverRow) × (change_of b ≡ some c) × IsChange k none true lsn c
unfolding change_of
change_of_delete k lsn after b key is =
    rw (is.source_lsn, is.operation)
      (
        _,
        refl,
        record { customer_id = key; last_name = refl; is_deleted = refl; source_lsn = refl },
      )

change_of_nothing : (b : BronzeRow) → b.source_lsn ≡ none → change_of b ≡ none
unfolding change_of
change_of_nothing b h = rw h refl

change_of-IsKeyed :
    (b : BronzeRow) (c : SilverRow)
    → IsKeyed b
    → change_of b ≡ some c
    → c.customer_id ≡ b.customer_id
unfolding change_of
change_of-IsKeyed b c keyed h = elim (Option-cases b.after_value) [
  | inl absent ↦ ground (arith, absent)
  | inr (a, is) ↦ ground (arith, keyed.same_customer a is)
]

-- The records of other customers are of no account.
latest_from-select :
    (k : ℕ) (bs : List BronzeRow) (o : Option SilverRow)
    → All IsKeyed bs
    → latest_from k o bs ≡ latest_from k o (select (is_change_of k) bs)
unfolding latest_from
latest_from-select k [] o keyed = refl
latest_from-select k (b ∷ bs) o keyed = elim (Bool-cases (b.customer_id == k)) [
  | inl this ↦ rw this (latest_from-select k bs (note_change k (change_of b) o) keyed.1)
  | inr other ↦ rw (other, skipped (change_of b) refl other) (latest_from-select k bs o keyed.1)
]
  where
    skipped :
        (c : Option SilverRow)
        → change_of b ≡ c
        → (b.customer_id == k) ≡ false
        → note_change k c o ≡ o
    skipped none h other = refl
    skipped (some c) h other = ground (arith, change_of-IsKeyed b c keyed.0 h)

pub latest-select :
    (k : ℕ) (bs : List BronzeRow)
    → All IsKeyed bs
    → latest k bs ≡ latest k (select (is_change_of k) bs)
unfolding latest
latest-select k bs keyed = latest_from-select k bs none keyed

module _ (k : ℕ) where
  note_first :
      (name : Option String) (deleted : Bool) (lsn : ℕ) (b : BronzeRow) (c : SilverRow)
      → change_of b ≡ some c
      → IsChange k name deleted lsn c
      → note_change k (change_of b) none ≡ some c
  note_first name deleted lsn b c is c_is =
      let matches : (customer c == k) ≡ true = ground (arith, c_is.customer_id) in
      rw (is, matches) refl

  note_next :
      (name old_name : Option String) (deleted old_deleted : Bool) (lsn old_lsn : ℕ) (b : BronzeRow)
      (c old : SilverRow)
      → change_of b ≡ some c
      → IsChange k name deleted lsn c
      → IsChange k old_name old_deleted old_lsn old
      → old_lsn < lsn
      → note_change k (change_of b) (some old) ≡ some c
  note_next name old_name deleted old_deleted lsn old_lsn b c old is c_is old_is after =
      let matches : (customer c == k) ≡ true = ground (arith, c_is.customer_id) in
      let wins : newer c old ≡ true = ground (arith, c_is.source_lsn, old_is.source_lsn) in
      rw (is, matches, wins) refl

-- What the source publishes of the customer: its creation, its change of name, its deletion and the
-- tombstone, at increasing positions of the log.
pub record Published (k : ℕ) : Type 0 where
  pub created_lsn : ℕ
  pub updated_lsn : ℕ
  pub deleted_lsn : ℕ
  pub created_after : CustomerImage
  pub updated_after : CustomerImage
  pub creation : BronzeRow
  pub renaming : BronzeRow
  pub deletion : BronzeRow
  pub grave : BronzeRow
  pub created_key : created_after.customer_id ≡ k
  pub updated_key : updated_after.customer_id ≡ k
  pub created_name : created_after.last_name ≡ some "Created"
  pub updated_name : updated_after.last_name ≡ some "Updated"
  pub created_first : created_lsn < updated_lsn
  pub updated_next : updated_lsn < deleted_lsn
  pub creation_is : IsRecord create (some created_lsn) (some created_after) creation
  pub renaming_is : IsRecord update (some updated_lsn) (some updated_after) renaming
  pub deletion_is : IsRecord delete (some deleted_lsn) none deletion
  pub grave_is : IsRecord tombstone none none grave
  pub deletion_key : deletion.customer_id ≡ k

module _ (k : ℕ) (p : Published k) where
  pub latest_creation :
      (c : SilverRow) × (latest k (p.creation ∷ []) ≡ some c)
      × IsChange k (some "Created") false p.created_lsn c
  unfolding latest latest_from
  latest_creation =
      let (c, is, c_is) =
        change_of_upsert k create p.created_lsn p.created_after p.creation refl p.created_key
          p.creation_is in
      (
        c,
        note_first k _ _ _ p.creation c is c_is,
        subst (λ n. IsChange k n false p.created_lsn c) p.created_name c_is,
      )

  pub latest_renaming :
      (c : SilverRow) × (latest k (p.creation ∷ p.renaming ∷ []) ≡ some c)
      × IsChange k (some "Updated") false p.updated_lsn c
  unfolding latest latest_from
  latest_renaming =
      let (old, was, old_is) = latest_creation in
      let (c, is, c_is) =
        change_of_upsert k update p.updated_lsn p.updated_after p.renaming refl p.updated_key
          p.renaming_is in
      (
        c,
        ap (note_change k (change_of p.renaming)) was
            ∙ note_next k _ _ _ _ _ _ p.renaming c old is c_is old_is p.created_first,
        subst (λ n. IsChange k n false p.updated_lsn c) p.updated_name c_is,
      )

  pub latest_deletion :
      (c : SilverRow) × (latest k (p.creation ∷ p.renaming ∷ p.deletion ∷ p.grave ∷ []) ≡ some c)
      × IsChange k none true p.deleted_lsn c
  unfolding latest latest_from
  latest_deletion =
      let (old, was, old_is) = latest_renaming in
      let (c, is, c_is) =
        change_of_delete k p.deleted_lsn none p.deletion p.deletion_key p.deletion_is in
      (
        c,
        ap
              (λ o.
                note_change k o
                  (note_change k (change_of p.deletion) (latest k (p.creation ∷ p.renaming ∷ []))))
              (change_of_nothing p.grave p.grave_is.source_lsn)
            ∙ ap (note_change k (change_of p.deletion)) was
            ∙ note_next k _ _ _ _ _ _ p.deletion c old is c_is old_is p.updated_next,
        c_is,
      )
