-- ===== src/Flush.antt =====
-- storage.go: a flush makes a part of the buffers of a day. The calls of the operating system may
-- fail: a function says which of them do. A removal that fails leaves the whole directory; the removal
-- of what an earlier attempt left, before a part is written, does not fail.
pub mod Outcomes
pub mod Errors
pub mod Durable
pub mod NoLoss
pub mod Kept
use Prim.Native.Nat.{ℕ}
use marchilogs.Base.{
  ltb, ◌==◌, if◌then◌else◌, is_nil, keep_if, any, ℤ, pos, ltb_ℤ, has_prefix, sort_strings,
  zero_padded, Bytes, bytes_lt, mem_bytes, Map, keys, insert, remove, Error, io_failure, Result,
  err, ok, ◌+◌, ◌-◌, Bool, ◌&&◌, ◌||◌, Option, none, some, List, [], ◌∷◌, ◌++◌, map, codes,
}
use marchilogs.Tags.{
  PartMeta, StreamFlushInfo, ids_at, sort_ids, safe_stream_dir, blocks_dir, build_part_meta,
}
use marchilogs.Block.{rows, MemBlock, BlockDir, write_to}
use marchilogs.Parts.{add_parts_to_index_db}
use marchilogs.Deletes.{seq_at}
use marchilogs.Wal.{RecordCodec, Wal, set_checkpoint, compact}
use marchilogs.Store.{File, missing, corrupt, holds, Part, DayDir, day_at, Store, dir_at}

-- The calls that may fail.
pub data IoCall : Type 0 where
  append_log make_parts make_blocks write_meta publish : IoCall
  write_manifest write_catalog write_checkpoint compact_log close_log : IoCall
  make_root : IoCall
  write_block write_tombstones : Bytes → IoCall
  write_log : ℕ → ℕ → IoCall
  remove_part : Bytes → Bytes → IoCall
  remove_leftover remove_orphan : Bytes → Bytes → IoCall

-- The calls that fail.
abbrev pub Io : Type 0
Io = IoCall → Bool

-- A store and the error that is returned, if there is one.
abbrev pub Outcome : Type 0
Outcome = Store × Option Error

-- `sort.Slice` by the stream.
unfoldable pub insert_item : Bytes × MemBlock → Map MemBlock → Map MemBlock
insert_item item [] = item ∷ []
insert_item item (first ∷ items) =
    if bytes_lt first.1.stream item.1.stream
    then first ∷ insert_item item items
    else item ∷ first ∷ items

unfoldable pub sort_items : Map MemBlock → Map MemBlock
sort_items [] = []
sort_items (item ∷ items) = insert_item item (sort_items items)

-- The buffers that a flush of a partition writes.
unfoldable pub flush_items : Bytes → Map MemBlock → Map MemBlock
flush_items partition buffers = sort_items (
    keep_if
      (λ (item : Bytes × MemBlock). has_prefix item.0 (partition ++ 0 ∷ []) && ltb 0 (rows item.1))
      buffers)

abbrev pub blocks_of : Map MemBlock → List MemBlock
blocks_of items = map (λ (item : Bytes × MemBlock). item.1) items

abbrev pub info_of : MemBlock → StreamFlushInfo
info_of b = record {
  id = b.stream;
  time_min_ns = b.time_min;
  time_max_ns = b.time_max;
  rows = rows b;
}

-- The bounds `tMin` and `tMax` after the first block.
unfoldable pub widen : List MemBlock → ℤ → ℤ → ℤ × ℤ
widen [] t_min t_max = (t_min, t_max)
widen (b ∷ bs) t_min t_max =
    widen bs (if ltb_ℤ b.time_min t_min then b.time_min else t_min)
      (if ltb_ℤ t_max b.time_max then b.time_max else t_max)

unfoldable pub time_bounds : List MemBlock → ℤ × ℤ
time_bounds [] = (pos 0, pos 0)
time_bounds (b ∷ bs) = widen bs b.time_min b.time_max

abbrev pub path_of : MemBlock → Bytes
path_of b = blocks_dir (safe_stream_dir b.stream)

-- The directories of the blocks, where no write fails.
unfoldable pub block_dirs : List MemBlock → Map BlockDir → Map BlockDir
block_dirs [] dirs = dirs
block_dirs (b ∷ bs) dirs =
    block_dirs bs (insert (path_of b) (write_to b (dir_at (path_of b) dirs)) dirs)

-- The part that a flush writes.
abbrev pub part_of : List MemBlock → Part
part_of bs =
    let bounds = time_bounds bs in
    record {
      meta = holds (build_part_meta (map info_of bs) bounds.0 bounds.1);
      blocks = block_dirs bs [];
    }

-- Whether a write of a block fails.
abbrev pub block_fails : Io → List MemBlock → Bool
block_fails io bs = any (λ (b : MemBlock). io (write_block b.stream)) bs

-- The writes before the rename that publishes a part.
abbrev pub write_part : Io → List MemBlock → Result Part
write_part io bs =
    if io make_blocks || block_fails io bs || io write_meta then err io_failure else ok (part_of bs)

-- The blocks whose writes come before one that fails.
unfoldable pub before_failure : Io → List MemBlock → List MemBlock
before_failure io [] = []
before_failure io (b ∷ bs) =
    let rest = before_failure io bs in if io (write_block b.stream) then [] else b ∷ rest

-- What a failure leaves of a part that is being written; of a block whose write fails, nothing.
abbrev pub unfinished : Io → List MemBlock → Part
unfinished io bs = record {
  meta = missing;
  blocks = if io make_blocks then [] else block_dirs (before_failure io bs) [];
}

abbrev pub set_day : Bytes → DayDir → Store → Store
set_day day dir s = record s { disk = insert day dir s.disk }

-- `os.MkdirAll(partsParent)`
abbrev pub with_day : Bytes → Store → Store
with_day day s = set_day day (day_at day s.disk) s

abbrev pub with_part : Bytes → Bytes → Part → Store → Store
with_part day name part s =
    let dir = day_at day s.disk in set_day day (record dir { parts = insert name part dir.parts }) s

-- `os.RemoveAll(finalDir)`
abbrev pub without_part : Bytes → Bytes → Store → Store
without_part day name s =
    let dir = day_at day s.disk in set_day day (record dir { parts = remove name dir.parts }) s

-- `os.RemoveAll`, whose error is ignored.
abbrev pub try_remove : Io → Bytes → Bytes → Store → Store
try_remove io day name s = if io (remove_part day name) then s else without_part day name s

-- `tmpDir`
abbrev pub temp_name : ℕ → Bytes
temp_name id = codes ".publishing-" ++ zero_padded 6 id

-- `s.partSeq[partition]--`
abbrev pub unnumbered : Bytes → Store → Store
unnumbered day s = record s { part_seq = insert day (seq_at day s.part_seq - 1) s.part_seq }

-- The closure `rollback` of `flushPartitionLocked`.
abbrev pub rollback : Io → Bytes → ℕ → Store → Store
rollback io day id s = unnumbered day (try_remove io day (temp_name id) s)

-- `os.Rename(tmpDir, finalDir)`
abbrev pub rename_part : Bytes → ℕ → Part → Store → Store
rename_part day id part s =
    with_part day (zero_padded 6 id) part (without_part day (temp_name id) s)

abbrev pub add_meta : Bytes → File PartMeta → Map PartMeta → Map PartMeta
add_meta id missing metas = metas
add_meta id corrupt metas = metas
add_meta id (holds meta) metas = (id, meta) ∷ metas

-- The metadata of the parts of a day that can be read.
unfoldable pub metas_of : Map Part → Map PartMeta
metas_of [] = []
metas_of ((id, part) ∷ parts) = add_meta id part.meta (metas_of parts)

abbrev pub set_catalog : Bytes → Map (List Bytes) → Store → Store
set_catalog day by_tag s =
    let dir = day_at day s.disk in
    set_day day (record dir { catalog = holds by_tag })
      (record s { catalogs = insert day by_tag s.catalogs })

abbrev pub write_catalog_of : Io → Bytes → Store → Result (Map (List Bytes)) → Outcome
write_catalog_of io day s (err e) = (s, some e)
write_catalog_of io day s (ok by_tag) =
    if io write_catalog then (s, some io_failure) else (set_catalog day (sort_ids by_tag) s, none)

-- `rebuildDayIndexDBLocked`; a part without metadata that can be read is an error.
abbrev pub rebuild_catalog : Io → Bytes → Store → Outcome
rebuild_catalog io day s =
    write_catalog_of io day s
      (add_parts_to_index_db (ids_at day s.manifests) (metas_of (day_at day s.disk).parts) [])

abbrev pub set_manifest : Bytes → List Bytes → Store → Store
set_manifest day ids s =
    let dir = day_at day s.disk in
    set_day day (record dir { manifest = holds ids })
      (record s { manifests = insert day ids s.manifests })

-- `addPartToManifestLocked`
unfoldable pub add_part : Io → Bytes → Bytes → Store → Outcome
add_part io day id s =
    let cur = ids_at day s.manifests in
    if mem_bytes id cur
    then (s, none)
    else if io write_manifest
    then (s, some io_failure)
    else rebuild_catalog io day (set_manifest day (sort_strings (cur ++ id ∷ [])) s)

-- The inner loop of `advanceWALCheckpointLocked`.
unfoldable pub min_seq : List ℕ → ℕ → ℕ
min_seq [] m = m
min_seq (n ∷ ns) m = min_seq ns (if ltb 0 n && ltb n m then n else m)

unfoldable pub min_unflushed : List Bytes → Map MemBlock → ℕ → ℕ
min_unflushed removed [] m = m
min_unflushed removed ((key, b) ∷ buffers) m =
    min_unflushed removed buffers (if mem_bytes key removed then m else min_seq b.seqs m)

-- `setCheckpoint`, where the write may fail.
abbrev pub try_checkpoint : Io → ℕ → Wal → Result Wal
try_checkpoint io cp w =
    if ltb cp w.checkpoint
    then ok w
    else if io write_checkpoint
    then err io_failure
    else ok (set_checkpoint cp w)

abbrev pub advanced : Io → List Bytes → Map MemBlock → Wal → Result Wal
advanced io removed buffers w =
    let m = min_unflushed removed buffers w.next_seq in
    try_checkpoint io (if m == 0 then 0 else m - 1) w

-- `delete(s.buffers, it.key)` for every item.
unfoldable pub remove_items : List Bytes → Map MemBlock → Map MemBlock
remove_items [] buffers = buffers
remove_items (key ∷ keys) buffers = remove_items keys (remove key buffers)

abbrev pub compacted : Store → Wal → Result Wal → Outcome
compacted s w (err e) = (record s { wal = some w }, some e)
compacted s w (ok w') = (record s { wal = some w' }, none)

module _ (io : Io) (codec : RecordCodec) where
  -- `compactLocked`, where a call before its rename may fail.
  abbrev pub try_compact : Wal → Result Wal
  try_compact w = if io compact_log then err io_failure else compact codec w

  abbrev pub drop_items : List Bytes → Store → Result Wal → Outcome
  drop_items removed s (err e) = (s, some e)
  drop_items removed s (ok w) =
      compacted (record s { buffers = remove_items removed s.buffers }) w (try_compact w)

  abbrev pub release_from : List Bytes → Store → Option Wal → Outcome
  release_from removed s none = (record s { buffers = remove_items removed s.buffers }, none)
  release_from removed s (some w) = drop_items removed s (advanced io removed s.buffers w)

  -- What follows the publication: `advanceWALCheckpointLocked`, the deletes, and the compaction.
  abbrev pub release : List Bytes → Store → Outcome
  release removed s = release_from removed s s.wal

  abbrev pub announced : Bytes → ℕ → List Bytes → Outcome → Outcome
  announced day id removed (s, some e) =
      (try_remove io day (zero_padded 6 id) (rollback io day id s), some e)
  announced day id removed (s, none) = release removed s

  -- The rename, which fails on a directory that is there already, and what follows it. Where the
  -- writes fail, `left` is what they leave in the temporary directory.
  abbrev pub publish_part : Bytes → ℕ → List Bytes → Part → Store → Result Part → Outcome
  publish_part day id removed left s (err e) =
      (rollback io day id (with_part day (temp_name id) left s), some e)
  publish_part day id removed left s (ok part) =
      let name = zero_padded 6 id in
      if io publish || mem_bytes name (keys (day_at day s.disk).parts)
      then (rollback io day id (with_part day (temp_name id) part s), some io_failure)
      else announced day id removed
          (add_part io day name (rename_part day id part (with_part day (temp_name id) part s)))

  -- The store once `s.partSeq[partition]++` and the removal of `tmpDir` are done.
  abbrev pub begun : Bytes → Store → Store
  begun day s =
      let id = seq_at day s.part_seq + 1 in
      without_part day (temp_name id)
        (record (with_day day s) { part_seq = insert day id s.part_seq })

  -- `flushPartitionLocked`, for the buffers that it has collected.
  abbrev pub flush_blocks : Bytes → Map MemBlock → Store → Outcome
  flush_blocks day items s =
      if is_nil items
      then (s, none)
      else if io make_parts
      then (s, some io_failure)
      else publish_part day (seq_at day s.part_seq + 1) (keys items)
          (unfinished io (blocks_of items)) (begun day s) (write_part io (blocks_of items))

  -- `flushPartitionLocked`
  unfoldable pub flush_partition : Bytes → Store → Outcome
  flush_partition day s = flush_blocks day (flush_items day s.buffers) s
