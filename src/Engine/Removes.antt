-- ===== src/Engine/Removes.antt =====
-- storage.go: what a flush of a partition that succeeds removes from the buffers.
use marchilogs.Base.{
  Bytes, List, Map, Option, Result, [], ap, err, if-both, if◌then◌else◌, io_failure, is_nil, keys,
  mem_bytes, none, ok, refl, some, true, zero_padded, ℕ, ◌+◌, ◌||◌, ◌∙◌, ◌∷◌, ◌≡◌,
}
use marchilogs.Block.{MemBlock}
use marchilogs.Deletes.{seq_at}
use marchilogs.Flush.{
  Io, Outcome, add_part, advanced, announced, blocks_of, compacted, drop_items, flush_items,
  flush_partition, make_parts, publish, publish_part, release_from, remove_items, try_compact,
  with_part, write_part, rollback, temp_name, rename_part, unfinished, begun,
}
use marchilogs.Flush.Outcomes.{add_part-Lists}
use marchilogs.Store.{Part, Store, day_at}
use marchilogs.Wal.{RecordCodec, Wal}

-- Where the outcome has no error, the buffers are those without the items that are removed.
abbrev pub Removes : List Bytes → Map MemBlock → Outcome → Type 0
Removes removed buffers o = o.1 ≡ none → o.0.buffers ≡ remove_items removed buffers

module _ (io : Io) (codec : RecordCodec) where
  compacted-Removes :
      (removed : List Bytes) (s : Store) (w : Wal) (r : Result Wal)
      → Removes removed s.buffers
          (compacted (record s { buffers = remove_items removed s.buffers }) w r)
  compacted-Removes removed s w (err e) h = cc
  compacted-Removes removed s w (ok w') h = refl

  drop_items-Removes :
      (removed : List Bytes) (s : Store) (r : Result Wal)
      → Removes removed s.buffers (drop_items io codec removed s r)
  drop_items-Removes removed s (err e) h = cc
  drop_items-Removes removed s (ok w) h = compacted-Removes removed s w (try_compact io codec w) h

  release-Removes :
      (removed : List Bytes) (s : Store) (w : Option Wal)
      → Removes removed s.buffers (release_from io codec removed s w)
  release-Removes removed s none h = refl
  release-Removes removed s (some w) h =
      drop_items-Removes removed s (advanced io removed s.buffers w) h

  announced-Removes :
      (day : Bytes) (id : ℕ) (removed : List Bytes) (o : Outcome)
      → Removes removed o.0.buffers (announced io codec day id removed o)
  announced-Removes day id removed (s, some e) h = cc
  announced-Removes day id removed (s, none) h = release-Removes removed s s.wal h

  publish_part-Removes :
      (day : Bytes) (id : ℕ) (removed : List Bytes) (left : Part) (s : Store) (r : Result Part)
      → Removes removed s.buffers (publish_part io codec day id removed left s r)
  publish_part-Removes day id removed left s (err e) = λ h. cc
  publish_part-Removes day id removed left s (ok part) =
      let name = zero_padded 6 id in
      let tmp = with_part day (temp_name id) part s in
      let placed = rename_part day id part tmp in
      if-both (Removes removed s.buffers)
        (io publish || mem_bytes name (keys (day_at day s.disk).parts))
        (rollback io day id tmp, some io_failure)
        (announced io codec day id removed (add_part io day name placed)) (λ failed h. cc)
        (λ fine h.
          announced-Removes day id removed (add_part io day name placed) h
          ∙ ap (remove_items removed) (add_part-Lists io day name placed).buffers)

  pub flush_partition-Removes :
      (day : Bytes) (s : Store)
      → Removes (keys (flush_items day s.buffers)) s.buffers (flush_partition io codec day s)
  unfolding flush_partition
  flush_partition-Removes day s =
      let items = flush_items day s.buffers in
      let bs = blocks_of items in
      let id = seq_at day s.part_seq + 1 in
      let published =
        publish_part io codec day id (keys items) (unfinished io bs) (begun io codec day s)
          (write_part io bs) in
      if-both (Removes (keys items) s.buffers) (is_nil items) (s, none)
        (if io make_parts then (s, some io_failure) else published)
        (λ nothing h. nil_removes items nothing)
        (λ some_items.
          if-both (Removes (keys items) s.buffers) (io make_parts) (s, some io_failure) published
            (λ failed h. cc)
            (λ made.
              publish_part-Removes day id (keys items) (unfinished io bs) (begun io codec day s)
                (write_part io bs)))
    where
      nil_removes :
          (items : Map MemBlock)
          → is_nil items ≡ true
          → s.buffers ≡ remove_items (keys items) s.buffers
      nil_removes [] h = unfold remove_items in refl
      nil_removes (item ∷ items) h = cc
