-- ===== src/Cdc/Offsets.antt =====
-- `commit_offsets` of cdc/materialize_customers.py, and the offsets that Kafka holds for the group.
pub mod Acknowledged
use local_data_platform.Prelude.{
  ℕ, ◌+◌, max, String, Bool, true, Option, none, some, List, [], ◌∷◌, nat_eq, string_eq, pair_eq,
}
use local_data_platform.Sql.{find, upsert}
use local_data_platform.Cdc.Event.{Message}

-- A dict from (topic, partition) to an offset, in insertion order.
abbrev pub OffsetMap : Type 0
OffsetMap = List ((String × ℕ) × ℕ)

abbrev pub entry_key : (String × ℕ) × ℕ → String × ℕ
entry_key e = e.0

-- `next_offsets.get(key, 0)`
abbrev pub or_zero : Option ((String × ℕ) × ℕ) → ℕ
or_zero none = 0
or_zero (some e) = e.1

abbrev pub get_offset : String × ℕ → OffsetMap → ℕ
get_offset tp m = or_zero (find entry_key tp m)

abbrev pub overwrite : (String × ℕ) × ℕ → (String × ℕ) × ℕ → Bool
overwrite e t = true

abbrev pub newest : (String × ℕ) × ℕ → (String × ℕ) × ℕ → (String × ℕ) × ℕ
newest e t = e

-- `next_offsets[key] = offset`
abbrev pub put_offset : String × ℕ → ℕ → OffsetMap → OffsetMap
put_offset tp o m = upsert entry_key overwrite newest (tp, o) m

abbrev pub topic_partition : Message → String × ℕ
topic_partition m = (m.topic, m.partition)

-- The loop over the messages.
unfoldable pub next_offsets_from : OffsetMap → List Message → OffsetMap
next_offsets_from next [] = next
next_offsets_from next (m ∷ ms) =
    next_offsets_from
      (put_offset (topic_partition m) (max (get_offset (topic_partition m) next) (m.offset + 1))
        next)
      ms

-- Kafka's record of the group after the commit: each named partition is set, the others stay.
unfoldable pub store_offsets : OffsetMap → OffsetMap → OffsetMap
store_offsets [] committed = committed
store_offsets (e ∷ m) committed = store_offsets m (put_offset e.0 e.1 committed)

unfoldable pub commit_offsets : List Message → OffsetMap → OffsetMap
unfolding next_offsets_from store_offsets
commit_offsets ms committed = store_offsets (next_offsets_from [] ms) committed
