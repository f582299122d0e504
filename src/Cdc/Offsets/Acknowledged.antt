-- ===== src/Cdc/Offsets/Acknowledged.antt =====
-- Which offsets `commit_offsets` (cdc/materialize_customers.py) acknowledges.
use local_data_platform.Prelude.{
  ℕ, ◌+◌, max, String, ◌≡◌, refl, Bool, true, false, Option, none, some, List, [], ◌∷◌, arith, sym,
  ap, subst, ◌⊎◌, ◌<◌, ◌≤◌, In, here, there, ◌∙◌, Bool-cases, Option-cases, some_inj, beq_refl, leb,
  inl, inr, ◌==◌, nat_eq, string_eq, pair_eq, pair_beq_iff, if◌then◌else◌,
}
use local_data_platform.Sql.{find, Unique}
use local_data_platform.Sql.Upsert.{find-upsert, upsert-Unique, merged}
use local_data_platform.Cdc.Event.{Message}
use local_data_platform.Cdc.Offsets.{
  OffsetMap, entry_key, or_zero, get_offset, overwrite, newest, put_offset, topic_partition,
  next_offsets_from, store_offsets, commit_offsets,
}

-- The entry of a partition, as a value.
abbrev pub value_of : Option ((String × ℕ) × ℕ) → Option ℕ
value_of none = none
value_of (some e) = some e.1

merged_new :
    (e : (String × ℕ) × ℕ) (o : Option ((String × ℕ) × ℕ))
    → merged entry_key overwrite newest e o ≡ e
merged_new e none = refl
merged_new e (some t) = refl

keep_key :
    (r t : (String × ℕ) × ℕ) → entry_key t ≡ entry_key r → entry_key (newest r t) ≡ entry_key r
keep_key r t h = refl

value_of_if :
    (b : Bool) (e : (String × ℕ) × ℕ) (o : Option ((String × ℕ) × ℕ))
    → value_of (if b then some e else o) ≡ (if b then some e.1 else value_of o)
value_of_if true e o = refl
value_of_if false e o = refl

value-put :
    (tp k : String × ℕ) (o : ℕ) (m : OffsetMap)
    → value_of (find entry_key k (put_offset tp o m))
      ≡ (if tp == k then some o else value_of (find entry_key k m))
value-put tp k o m =
    rw (find-upsert entry_key overwrite newest keep_key k (tp, o) m, merged_new)
      (value_of_if (tp == k) (tp, o) (find entry_key k m))

abbrev start : Option ℕ → ℕ
start none = 0
start (some n) = n

or_zero-value : (o : Option ((String × ℕ) × ℕ)) → or_zero o ≡ start (value_of o)
or_zero-value none = refl
or_zero-value (some e) = refl

-- One past the greatest offset of the partition among the messages and the value before.
reached : String × ℕ → Option ℕ → List Message → Option ℕ
reached tp o [] = o
reached tp o (m ∷ ms) =
    reached tp (if topic_partition m == tp then some (max (start o) (m.offset + 1)) else o) ms

value-round :
    (tp : String × ℕ) (m : Message) (next : OffsetMap)
    → value_of (
        find entry_key tp (
          put_offset
            (topic_partition m)
            (max (get_offset (topic_partition m) next) (m.offset + 1))
            next))
      ≡ (let o = value_of (find entry_key tp next) in
          if topic_partition m == tp then some (max (start o) (m.offset + 1)) else o)
value-round tp m next =
    rw
      (value-put (topic_partition m) tp (max (get_offset (topic_partition m) next) (m.offset + 1))
        next)
      (elim (Bool-cases (topic_partition m == tp)) [
        | inl same ↦ rw (same, or_zero-value, (pair_beq_iff (topic_partition m) tp).0 same)
        | inr other ↦ rw other
      ])

value-next :
    (tp : String × ℕ) (ms : List Message) (next : OffsetMap)
    → value_of (find entry_key tp (next_offsets_from next ms))
      ≡ reached tp (value_of (find entry_key tp next)) ms
unfolding next_offsets_from reached
value-next tp [] next = refl
value-next tp (m ∷ ms) next =
    let o = max (get_offset (topic_partition m) next) (m.offset + 1) in
    value-next tp ms (put_offset (topic_partition m) o next)
    ∙ ap (λ v. reached tp v ms) (value-round tp m next)

next_offsets_from-Unique :
    (ms : List Message) (next : OffsetMap)
    → Unique entry_key next
    → Unique entry_key (next_offsets_from next ms)
unfolding next_offsets_from
next_offsets_from-Unique [] next u = u
next_offsets_from-Unique (m ∷ ms) next u =
    let o = max (get_offset (topic_partition m) next) (m.offset + 1) in
    next_offsets_from-Unique ms (put_offset (topic_partition m) o next)
      (upsert-Unique entry_key overwrite newest keep_key (topic_partition m, o) next u)

abbrev or_before : Option ℕ → Option ℕ → Option ℕ
or_before none o = o
or_before (some n) o = some n

value-store :
    (tp : String × ℕ) (m committed : OffsetMap)
    → Unique entry_key m
    → value_of (find entry_key tp (store_offsets m committed))
      ≡ or_before (value_of (find entry_key tp m)) (value_of (find entry_key tp committed))
unfolding store_offsets find
value-store tp [] committed u = refl
value-store tp (e ∷ m) committed u =
    value-store tp m (put_offset e.0 e.1 committed) u.1
    ∙ ap (or_before (value_of (find entry_key tp m))) (value-put e.0 tp e.1 committed)
    ∙ elim (Bool-cases (e.0 == tp)) [
      | inl same ↦
          let absent = subst (λ k. find entry_key k m ≡ none) ((pair_beq_iff e.0 tp).0 same) u.0 in
          rw (same, absent)
      | inr other ↦ rw other
    ]

-- The value of a partition after the commit.
committed-reached :
    (tp : String × ℕ) (ms : List Message) (committed : OffsetMap)
    → get_offset tp (commit_offsets ms committed)
      ≡ start (or_before (reached tp none ms) (value_of (find entry_key tp committed)))
unfolding commit_offsets find
committed-reached tp ms committed =
    or_zero-value (find entry_key tp (store_offsets (next_offsets_from [] ms) committed))
    ∙ ap start (
        value-store tp (next_offsets_from [] ms) committed (next_offsets_from-Unique ms [] tt)
        ∙ ap (λ v. or_before v (value_of (find entry_key tp committed))) (value-next tp ms []))

reached_grows :
    (tp : String × ℕ) (ms : List Message) (o : ℕ)
    → (n : ℕ) × (reached tp (some o) ms ≡ some n) × (o ≤ n)
unfolding reached
reached_grows tp [] o = (o, refl, omega arith)
reached_grows tp (m ∷ ms) o = elim (Bool-cases (topic_partition m == tp)) [
  | inl same ↦
      let (n, p, q) = reached_grows tp ms (max o (m.offset + 1)) in (n, rw same p, omega arith)
  | inr other ↦ let (n, p, q) = reached_grows tp ms o in (n, rw other p, q)
]

reached_covers :
    (ms : List Message) (o : Option ℕ) (m : Message)
    → In m ms
    → (n : ℕ) × (reached (topic_partition m) o ms ≡ some n) × (m.offset < n)
unfolding reached
reached_covers [] o m i = elim i [ ]
reached_covers (_ ∷ ms) o m here =
    let (n, p, q) = reached_grows (topic_partition m) ms (max (start o) (m.offset + 1)) in
    (n, rw (beq_refl (topic_partition m)) p, omega arith)
reached_covers (a ∷ ms) o m (there i) =
    reached_covers ms
      (if topic_partition a == topic_partition m then some (max (start o) (a.offset + 1)) else o) m
      i

raised_either : (o : Option ℕ) (b n : ℕ) → max (start o) (b + 1) ≡ n → (o ≡ some n) ⊎ (n ≡ b + 1)
raised_either none b n h = inr (omega arith)
raised_either (some k) b n h = elim (Bool-cases (leb k (b + 1))) [
  | inl le ↦ inr (ground arith)
  | inr gt ↦ inl (ap some (ground arith))
]

-- A value that is reached is the one before, or one past a message of the partition.
reached_sound :
    (tp : String × ℕ) (ms : List Message) (o : Option ℕ) (n : ℕ)
    → reached tp o ms ≡ some n
    → (o ≡ some n) ⊎ ((m : Message) × In m ms × (topic_partition m ≡ tp) × (n ≡ m.offset + 1))
unfolding reached
reached_sound tp [] o n h = inl h
reached_sound tp (a ∷ ms) o n h =
    let o' = if topic_partition a == tp then some (max (start o) (a.offset + 1)) else o in
    elim (reached_sound tp ms o' n h) [
      | inr (m, i, t, e) ↦ inr (m, there i, t, e)
      | inl p ↦ elim (Bool-cases (topic_partition a == tp)) [
        | inl same ↦ elim (raised_either o a.offset n (some_inj (rw same at p))) [
          | inl q ↦ inl q
          | inr q ↦ inr (a, here, (pair_beq_iff (topic_partition a) tp).0 same, q)
        ]
        | inr other ↦ inl (rw other at p)
      ]
    ]

module _ (ms : List Message) (committed : OffsetMap) where
  -- Every message of the batch lies below the offset that is committed for its partition.
  pub commit_offsets_covers :
      (m : Message)
      → In m ms
      → m.offset < get_offset (topic_partition m) (commit_offsets ms committed)
  commit_offsets_covers m i =
      let (n, p, q) = reached_covers ms none m i in
      rw (committed-reached (topic_partition m) ms committed, p) q

  -- What is committed for a partition is what was committed before, or one past the offset of a
  -- message of the batch in that partition.
  pub commit_offsets_tight :
      (tp : String × ℕ)
      → (get_offset tp (commit_offsets ms committed) ≡ get_offset tp committed)
        ⊎ ((m : Message) × In m ms
            × (topic_partition m ≡ tp)
            × (get_offset tp (commit_offsets ms committed) ≡ m.offset + 1))
  commit_offsets_tight tp = elim (Option-cases (reached tp none ms)) [
    | inl untouched ↦ inl (
        committed-reached tp ms committed
        ∙ rw untouched (sym (or_zero-value (find entry_key tp committed))))
    | inr (n, p) ↦ elim (reached_sound tp ms none n p) [
      | inl q ↦ absurd (cc)
      | inr (m, i, t, e) ↦ inr (m, i, t, committed-reached tp ms committed ∙ rw p e)
    ]
  ]
