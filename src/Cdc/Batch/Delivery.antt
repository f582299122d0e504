-- ===== src/Cdc/Batch/Delivery.antt =====
-- At-least-once delivery of cdc/materialize_customers.py: the batches of a consumer group, with the
-- process stopping before, between and after the two commits.
use local_data_platform.Prelude.{
  ℕ, ◌≤◌, ◌<◌, String, ◌≡◌, true, List, subst, arith, ok, inl, inr, In, All-In, Bool-cases, leb,
  nat_eq, string_eq, pair_eq,
}
use local_data_platform.Sql.{has}
use local_data_platform.Cdc.Event.{Message}
use local_data_platform.Cdc.Bronze.{coordinates, position}
use local_data_platform.Cdc.Bronze.Growth.{insert_bronze_keeps}
use local_data_platform.Cdc.Offsets.{OffsetMap, get_offset, topic_partition}
use local_data_platform.Cdc.Offsets.Acknowledged.{commit_offsets_tight}
use local_data_platform.Cdc.Batch.Inversion.{process_messages_induction, process_batch-messages}
use local_data_platform.Cdc.Batch.Replay.{Seen, process_messages-Seen}
use local_data_platform.Cdc.Batch.{Environment, Platform, process_batch}

module _ (env : Environment) (log : List Message) where
  -- What Kafka does for a consumer: the messages of a poll leave no gap after the committed offset
  -- of their partition.
  abbrev pub Contiguous : OffsetMap → List Message → Type 0
  Contiguous committed ms =
      (m b : Message)
      → In m log
      → In b ms
      → topic_partition b ≡ topic_partition m
      → get_offset (topic_partition m) committed ≤ m.offset
      → m.offset ≤ b.offset
      → In m ms

  -- A round of the service: a batch that is acknowledged, or one after whose database commit the
  -- process stops. A batch that raises changes nothing, as does a stop before the commit.
  pub data Round : Platform → Platform → Type 0 where
    acknowledged :
        {p q : Platform} (ms : List Message) (inserted duplicates : ℕ)
        → Contiguous p.committed ms
        → process_batch env ms p ≡ ok (q, inserted, duplicates)
        → Round p q
    stopped :
        {p q : Platform} (ms : List Message) (inserted duplicates : ℕ)
        → Contiguous p.committed ms
        → process_batch env ms p ≡ ok (q, inserted, duplicates)
        → Round p (record p { database = q.database })

  pub data Rounds (p : Platform) : Platform → Type 0 where
    none_yet : Rounds p p
    one_more : {q r : Platform} → Rounds p q → Round q r → Rounds p r

  -- Every record of the log below a committed offset is in Bronze.
  abbrev pub NothingLost : Platform → Type 0
  NothingLost p =
      (m : Message)
      → In m log
      → m.offset < get_offset (topic_partition m) p.committed
      → has coordinates (position m) p.database.bronze ≡ true

  module _ (p q : Platform) (ms : List Message) (inserted duplicates : ℕ)
      (h : process_batch env ms p ≡ ok (q, inserted, duplicates)) where
    bronze_keeps :
        (k : String × (ℕ × ℕ))
        → has coordinates k p.database.bronze ≡ true
        → has coordinates k q.database.bronze ≡ true
    bronze_keeps k =
        process_messages_induction env (λ db. has coordinates k db.bronze ≡ true)
          (λ m db db' taken done was.
            insert_bronze_keeps m done.customer done.event (env.clock_timestamp m) db.bronze
              db'.bronze taken done.inserted k was)
          ms (p.database, 0, 0) (q.database, inserted, duplicates)
          (process_batch-messages env ms p q inserted duplicates h).0

    batch_stored : (m : Message) → In m ms → has coordinates (position m) q.database.bronze ≡ true
    batch_stored m i =
        (All-In (λ n. Seen env n q.database) ms
          (process_messages-Seen env ms (p.database, 0, 0) (q.database, inserted, duplicates)
            (process_batch-messages env ms p q inserted duplicates h).0)
          m i).stored

    acknowledged-NothingLost : Contiguous p.committed ms → NothingLost p → NothingLost q
    acknowledged-NothingLost whole safe m i below =
        let (_, offsets) = process_batch-messages env ms p q inserted duplicates h in
        let under = subst (λ c. m.offset < get_offset (topic_partition m) c) offsets below in
        elim (commit_offsets_tight ms p.committed (topic_partition m)) [
          | inl same ↦ bronze_keeps (position m) (safe m i (omega arith))
          | inr (b, j, t, e) ↦
              elim (Bool-cases (leb (get_offset (topic_partition m) p.committed) m.offset)) [
                | inl past ↦ batch_stored m (whole m b i j t (ground arith) (omega arith))
                | inr before ↦ bronze_keeps (position m) (safe m i (ground arith))
              ]
        ]

  Round-NothingLost : {p q : Platform} → Round p q → NothingLost p → NothingLost q
  Round-NothingLost {p} {q} (acknowledged ms i d whole h) safe =
      acknowledged-NothingLost p q ms i d h whole safe
  Round-NothingLost {p} (stopped {q = q} ms i d whole h) safe =
      λ m j below. bronze_keeps p q ms i d h (position m) (safe m j below)

  Rounds-keep : {p q : Platform} → Rounds p q → NothingLost p → NothingLost q
  Rounds-keep none_yet safe = safe
  Rounds-keep (one_more r s) safe = Round-NothingLost s (Rounds-keep r safe)

  -- Whatever rounds the service goes through, with the process stopping between the database commit
  -- and the Kafka commit as often as it likes, each record of the log below a committed offset is in
  -- Bronze, if this was so before and polls leave no gap.
  pub Rounds-NothingLost :
      {p q : Platform}
      → Rounds p q
      → NothingLost p
      → (m : Message) → In m log
      → m.offset < get_offset (topic_partition m) q.committed
      → has coordinates (position m) q.database.bronze ≡ true
  Rounds-NothingLost r safe = Rounds-keep r safe
