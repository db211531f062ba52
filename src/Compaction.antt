-- ===== src/Compaction.antt =====
-- compaction.go: small parts of a day are merged into a big one. Which calls of the operating system
-- fail is an argument, as for a flush, those of a rollback and of the removal of the inputs included.
-- The temporary directory of a merge, which no other operation reads, is left out.
pub mod Rows
pub mod Alike
pub mod Merge
pub mod Answer
pub mod Search
pub mod Outcomes
pub mod Rollback
pub mod Ends
use marchilogs.Base.{
  Bool, Bytes, List, Map, Result, [], all, bytes_eq, err, false, if◌then◌else◌, insert, io_failure,
  is_empty, is_nil, keep_if, keys, length, lookup, ltb, map, mem_bytes, none, not, ok, pos, set_of,
  some, sort_strings, take, true, zero_padded, ℕ, ◌++◌, ◌+◌, ◌-◌, ◌==◌, ◌>>=◌, ◌||◌, ◌∷◌,
}
use marchilogs.Block.{BlockDir, MemBlock, add_entry, new_mem_block, read_block, rows}
use marchilogs.Calendar.{Time, parse_partition_name}
use marchilogs.Deletes.{seq_at}
use marchilogs.Entry.{Entry}
use marchilogs.Flush.{
  Io, Outcome, block_dirs, block_fails, blocks_of, info_of, make_blocks, make_parts, publish,
  rebuild_catalog, set_manifest, time_bounds, with_day, with_part, without_part, write_manifest,
  write_meta, try_remove,
}
use marchilogs.Parts.{dedupe}
use marchilogs.Search.{all_rows, part_at}
use marchilogs.Search.FlushedPart.{streams}
use marchilogs.Store.{Part, Store, day_at, dir_at, holds, read_json}
use marchilogs.Tags.{
  BlockRef, StreamMeta, blocks_dir, build_part_meta, ids_at, safe_stream_dir, tier_big, tier_small,
}
use marchilogs.Wal.{next}

unfoldable pub add_rows : List Entry → MemBlock → MemBlock
add_rows [] dst = dst
add_rows (e ∷ es) dst = add_rows es (add_entry dst e)

-- The loop over the references of a stream: the rows of every block go to `dst`.
unfoldable pub merge_refs : Map BlockDir → List BlockRef → MemBlock → Result MemBlock
merge_refs blocks [] dst = ok dst
merge_refs blocks (ref ∷ refs) dst = do
  b ← read_block (dir_at ref.path blocks)
  merge_refs blocks refs (add_rows (all_rows b) dst)

-- The references of a stream, or the one that stands for its directory.
abbrev pub refs_to_merge : StreamMeta → List BlockRef
refs_to_merge sm =
    let name = if is_empty sm.dir then safe_stream_dir sm.id else sm.dir in
    if is_nil sm.blocks
    then record { path = blocks_dir name; time_min_ns = pos 0; time_max_ns = pos 0; rows = 0 } ∷ []
    else sm.blocks

-- `byStream[sm.ID]`, or a new block. The order of the map is `streamOrder`.
abbrev pub merged_block : Bytes → Map MemBlock → MemBlock
merged_block id by_stream = elim (lookup id by_stream) [ none ↦ new_mem_block id | some b ↦ b ]

unfoldable pub merge_streams : Map BlockDir → List StreamMeta → Map MemBlock → Result (Map MemBlock)
merge_streams blocks [] by_stream = ok by_stream
merge_streams blocks (sm ∷ sms) by_stream = do
  dst ← merge_refs blocks (refs_to_merge sm) (merged_block sm.id by_stream)
  merge_streams blocks sms (insert sm.id dst by_stream)

-- The loop over the streams of a part, after the read of its metadata.
abbrev pub merge_part : Part → Map MemBlock → Result (Map MemBlock)
merge_part part by_stream = do
  meta ← read_json part.meta
  merge_streams part.blocks meta.streams by_stream

unfoldable pub merge_inputs : Map Part → List Bytes → Map MemBlock → Result (Map MemBlock)
merge_inputs parts [] by_stream = ok by_stream
merge_inputs parts (id ∷ ids) by_stream = do
  more ← merge_part (part_at id parts) by_stream
  merge_inputs parts ids more

-- The part that is written for the merged blocks.
abbrev pub merged_part_of : List MemBlock → Part
merged_part_of bs =
    let bounds = time_bounds bs in
    record {
      meta =
          holds (record (build_part_meta (map info_of bs) bounds.0 bounds.1) { tier = tier_big });
      blocks = block_dirs bs [];
    }

abbrev pub write_merged_blocks : Io → List MemBlock → Result Part
write_merged_blocks io bs =
    if block_fails io bs || io write_meta then err io_failure else ok (merged_part_of bs)

-- `writeMergedPart`
unfoldable pub write_merged_part : Io → Map Part → List Bytes → Result Part
write_merged_part io parts inputs =
    if io make_blocks
    then err io_failure
    else (merge_inputs parts inputs [] >>= λ by_stream.
        write_merged_blocks io (blocks_of by_stream))

-- `replaceManifestPartsLocked` (manifest.go), where the writes may fail.
unfoldable pub replace_parts : Io → Bytes → List Bytes → List Bytes → Store → Outcome
replace_parts io day remove_ids add_ids s =
    let next =
      keep_if (λ id. not (mem_bytes id (set_of remove_ids))) (ids_at day s.manifests) ++ add_ids in
    if io write_manifest
    then (s, some io_failure)
    else rebuild_catalog io day (set_manifest day (sort_strings (dedupe [] next)) s)

-- The loops that look for an input that is no longer active.
abbrev pub are_active : List Bytes → Bytes → Store → Bool
are_active inputs day s = all (λ (id : Bytes). mem_bytes id (ids_at day s.manifests)) inputs

-- `s.partSeq[day]--`, if no other part has been numbered since.
abbrev pub release_id : Bytes → ℕ → Store → Store
release_id day id s =
    if seq_at day s.part_seq == id
    then record s { part_seq = insert day (id - 1) s.part_seq }
    else s

-- `rollbackSeqUnlocked`, and `rollbackSeq` before it.
abbrev pub rolled_back : Io → Bytes → ℕ → Store → Store
rolled_back io day id s = try_remove io day (zero_padded 6 id) (release_id day id s)

-- The inputs are deleted once the manifest leaves them out.
unfoldable pub without_parts : Io → Bytes → List Bytes → Store → Store
without_parts io day [] s = s
without_parts io day (id ∷ ids) s = without_parts io day ids (try_remove io day id s)

abbrev pub replaced : Io → Bytes → ℕ → List Bytes → Outcome → Outcome
replaced io day id inputs (s, some e) = (rolled_back io day id s, some e)
replaced io day id inputs (s, none) = (without_parts io day inputs s, none)

-- The end of `mergeParts`, from the second lock on, where `s` is the store that it finds.
abbrev pub publish_merged : Io → Bytes → ℕ → List Bytes → Store → Result Part → Outcome
publish_merged io day id inputs s (err e) = (rolled_back io day id s, some e)
publish_merged io day id inputs s (ok part) =
    let name = zero_padded 6 id in
    if not (are_active inputs day s)
    then (rolled_back io day id s, none)
    else if io publish || mem_bytes name (keys (day_at day s.disk).parts)
    then (rolled_back io day id s, some io_failure)
    else replaced io day id inputs
        (replace_parts io day inputs (name ∷ []) (with_part day name part s))

-- `mergeParts`, where no other call comes between its two locks.
unfoldable pub merge_parts : Io → Bytes → List Bytes → Store → Outcome
merge_parts io day inputs s =
    let s' = with_day day s in
    let id = seq_at day s'.part_seq + 1 in
    let numbered = record s' { part_seq = insert day id s'.part_seq } in
    if is_nil inputs
    then (s, none)
    else if io make_parts
    then (s, some io_failure)
    else if not (are_active inputs day s')
    then (s', none)
    else publish_merged io day id inputs numbered
        (write_merged_part io (day_at day numbered.disk).parts inputs)

-- `partTier`
abbrev pub part_tier : Map Part → Bytes → Result Bytes
part_tier parts id = do
  meta ← read_json (part_at id parts).meta
  ok (if is_empty meta.tier then tier_small else meta.tier)

-- The loop of `listSmallPartIDs`.
unfoldable pub small_part_ids : Map Part → List Bytes → Result (List Bytes)
small_part_ids parts [] = ok []
small_part_ids parts (id ∷ ids) = do
  tier ← part_tier parts id
  small ← small_part_ids parts ids
  ok (if bytes_eq tier tier_big then small else id ∷ small)

-- `listSmallPartIDs`
abbrev pub list_small_part_ids : Map Part → List Bytes → Result (List Bytes)
list_small_part_ids parts ids = do small ← small_part_ids parts ids; ok (sort_strings small)

-- A store, an error if there is one, and whether parts were merged.
abbrev pub Merged : Type 0
Merged = Outcome × Bool

abbrev pub merged_if_ok : Outcome → Merged
merged_if_ok (s, some e) = ((s, some e), false)
merged_if_ok (s, none) = ((s, none), true)

abbrev pub merge_small : Io → Bytes → ℕ → ℕ → Store → Result (List Bytes) → Merged
merge_small io day min_parts max_parts s (err e) = ((s, some e), false)
merge_small io day min_parts max_parts s (ok small) =
    if ltb (length small) min_parts
    then ((s, none), false)
    else merged_if_ok (
        merge_parts io day
          (take (if ltb (length small) max_parts then length small else max_parts) small) s)

-- `mergeDayIfNeeded`
unfoldable pub merge_day_if_needed : Io → Bytes → ℕ → ℕ → Store → Merged
merge_day_if_needed io day min_parts max_parts s =
    let enough = if ltb min_parts 2 then 2 else min_parts in
    let ids = ids_at day s.manifests in
    if ltb (length ids) enough
    then ((s, none), false)
    else merge_small io day enough max_parts s (list_small_part_ids (day_at day s.disk).parts ids)

abbrev pub pass_on : (Store → Outcome) → Merged → Outcome
pass_on rest ((s, some e), merged) = (s, some e)
pass_on rest ((s, none), true) = (s, none)
pass_on rest ((s, none), false) = rest s

-- The loop of `runMergePass` over the days, where `tryMergeDay` merges at most one.
unfoldable pub merge_first : Io → ℕ → ℕ → List Bytes → Store → Outcome
merge_first io min_parts max_parts [] s = (s, none)
merge_first io min_parts max_parts (day ∷ days) s =
    pass_on (λ s'. merge_first io min_parts max_parts days s')
      (merge_day_if_needed io day min_parts max_parts s)

-- `runMergePass`
unfoldable pub run_merge_pass : Io → ℕ → ℕ → Store → Outcome
run_merge_pass io min_parts max_parts s =
    merge_first io min_parts max_parts (sort_strings (keys s.manifests)) s

abbrev pub force_merge_day : Io → Bytes → ℕ → Store → Result Time → Outcome
force_merge_day io day max_parts s (err e) = (s, some e)
force_merge_day io day max_parts s (ok start) = (merge_day_if_needed io day 2 max_parts s).0

-- `ForceMerge`
unfoldable pub force_merge : Io → Bytes → ℕ → ℕ → Store → Outcome
force_merge io day min_parts max_parts s =
    if is_empty day
    then run_merge_pass io min_parts max_parts s
    else force_merge_day io day max_parts s (parse_partition_name day)
