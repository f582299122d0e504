-- ===== src/Stream/Dedupe.antt =====
-- A choice among duplicates that keeps what spark/jobs/order_stream.py asks of `dropDuplicates`.
use local_data_platform.Prelude.{
  ◌≡◌, sym, subst, true, List, [], ◌∷◌, arith, string_eq, In, here, there, In-cons, inl, inr,
  is_some, Bool-cases, if◌then◌else◌, beq_refl,
}
use local_data_platform.Sql.{find, has, Unique}
use local_data_platform.Stream.Batch.{OrderEvent, event_key}
use local_data_platform.Stream.Batch.Lookup.{DropsDuplicates}

-- A way to drop duplicates: the last row with an id stays.
unfoldable pub dedupe : List OrderEvent → List OrderEvent
dedupe [] = []
dedupe (e ∷ es) = let rest = dedupe es in if has event_key e.event_id rest then rest else e ∷ rest

dedupe_sound : (es : List OrderEvent) (e : OrderEvent) → In e (dedupe es) → In e es
unfolding dedupe
dedupe_sound [] e i = elim i [ ]
dedupe_sound (x ∷ es) e i = elim (Bool-cases (has event_key x.event_id (dedupe es))) [
  | inl dup ↦ there (dedupe_sound es e (rw dup at i))
  | inr new ↦ elim (In-cons (rw new at i)) [
    | inl same ↦ subst (λ y. In y (x ∷ es)) (sym same) here
    | inr j ↦ there (dedupe_sound es e j)
  ]
]

dedupe_keeps :
    (es : List OrderEvent) (e : OrderEvent)
    → In e es
    → is_some (find event_key e.event_id (dedupe es)) ≡ true
unfolding dedupe find
dedupe_keeps [] e i = elim i [ ]
dedupe_keeps (_ ∷ es) e here = ground (arith, beq_refl e.event_id)
dedupe_keeps (x ∷ es) e (there i) = ground (arith, dedupe_keeps es e i)

dedupe-Unique : (es : List OrderEvent) → Unique event_key (dedupe es)
unfolding dedupe
dedupe-Unique [] = tt
dedupe-Unique (e ∷ es) = ground (arith, dedupe-Unique es)

pub dedupe-DropsDuplicates : DropsDuplicates dedupe
dedupe-DropsDuplicates = record {
  sound = dedupe_sound;
  keeps = dedupe_keeps;
  unique = dedupe-Unique;
}
