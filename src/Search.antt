-- ===== src/Search.antt =====
-- storage.go (`SearchWithStats` and what it calls), inmemory_part.go and query_stats.go: a search of
-- the buffers and of the parts on disk. A limit of 0 is none, as a negative one is in the code.
pub mod Flows
pub mod Window
pub mod Limits
pub mod Buffers
pub mod Written
pub mod Selection
pub mod FlushedPart
pub mod PartAnswer
use Prim.Native.Nat.{ℕ}
use marchilogs.Base.{
  ltb, leb, ◌==◌, if◌then◌else◌, length, is_nil, take, ltb_ℤ, has_prefix, trim_prefix,
  has_substring, sort_strings, Bytes, codes, is_empty, Map, keys, lookup, insert, Error, Result,
  err, ok, ◌>>=◌, zero, suc, ◌+◌, ◌-◌, Bool, true, false, not, ◌&&◌, ◌||◌, none, some, List, [],
  ◌∷◌, ◌++◌,
}
use marchilogs.Calendar.{Time}
use marchilogs.Entry.{Entry, is_zero, msg}
use marchilogs.Tags.{
  BlockRef, StreamMeta, PartMeta, parse_stream_tags, stream_matches_tags, ids_at, safe_stream_dir,
  blocks_dir, match_stream_ids, filter_block_refs,
}
use marchilogs.Bloom.{block_might_contain_msg}
use marchilogs.Block.{
  rows, MemBlock, overlaps, row, bloom_file, BlockDir, read_block_meta, read_block,
}
use marchilogs.Parts.{parts_matching_stream_eq}
use marchilogs.Deletes.{
  DeleteRecord, entry_hidden_by_deletes, partition_overlaps_query, deletes_at,
  deletes_overlapping_query,
}
use marchilogs.Store.{
  File, missing, corrupt, holds, Part, DayDir, day_at, Store, partition_of, dir_at,
}

-- `Query`
pub record Query : Type 0 where
  pub start : Time
  pub end : Time
  pub stream_eq : Map Bytes
  pub contains : Bytes
  pub limit : ℕ

-- `QueryStats`
pub record QueryStats : Type 0 where
  pub mem_blocks_scanned : ℕ
  pub parts_scanned : ℕ
  pub parts_pruned_index_db : ℕ
  pub blocks_seen : ℕ
  pub blocks_skipped_bloom : ℕ
  pub blocks_scanned : ℕ
  pub rows_scanned : ℕ
  pub rows_suppressed_delete : ℕ
  pub rows_returned : ℕ

abbrev pub no_stats : QueryStats
no_stats = record {
  mem_blocks_scanned = 0;
  parts_scanned = 0;
  parts_pruned_index_db = 0;
  blocks_seen = 0;
  blocks_skipped_bloom = 0;
  blocks_scanned = 0;
  rows_scanned = 0;
  rows_suppressed_delete = 0;
  rows_returned = 0;
}

-- `out` and `st`.
pub record Found : Type 0 where
  pub out : List Entry
  pub stats : QueryStats

-- How a piece of a search ends: the loop goes on, the limit is reached, or a read failed.
pub data Flow : Type 0 where
  go : Found → Flow
  stop : Found → Flow
  fail : Error → Found → Flow

infixl 5 ◌and_then◌
abbrev pub ◌and_then◌ : Flow → (Found → Flow) → Flow
go f and_then rest = rest f
stop f and_then rest = stop f
fail e f and_then rest = fail e f

abbrev pub is_full : ℕ → List Entry → Bool
is_full limit out = ltb 0 limit && leb limit (length out)

-- The time and text tests of a row, which both loops over rows make.
abbrev pub is_skipped : Query → Entry → Bool
is_skipped q e =
    (not (is_zero q.start) && ltb_ℤ e.time q.start)
    || (not (is_zero q.end) && ltb_ℤ q.end e.time)
    || (not (is_empty q.contains) && not (has_substring (msg e) q.contains))

abbrev pub scanned_row : Found → Found
scanned_row f = record f { stats = record f.stats { rows_scanned = f.stats.rows_scanned + 1 } }

abbrev pub suppressed_row : Found → Found
suppressed_row f = record f {
  stats = record f.stats { rows_suppressed_delete = f.stats.rows_suppressed_delete + 1 };
}

-- What becomes of a row, by the outcomes of its tests: it is skipped, or hidden by a tombstone, or
-- fills the limit, or is added.
abbrev pub row_flow : Bool → Bool → Bool → Entry → Found → Flow
row_flow true hidden full e f = go f
row_flow false true full e f = go (suppressed_row f)
row_flow false false true e f = stop (record f { out = f.out ++ e ∷ [] })
row_flow false false false e f = go (record f { out = f.out ++ e ∷ [] })

-- The body of the loops over rows.
unfoldable pub scan_row : Query → List DeleteRecord → Entry → Found → Flow
scan_row q dels e f =
    row_flow (is_skipped q e) (entry_hidden_by_deletes e dels) (is_full q.limit (f.out ++ e ∷ [])) e
      (scanned_row f)

unfoldable pub scan_rows : Query → List DeleteRecord → List Entry → Found → Flow
scan_rows q dels [] f = go f
scan_rows q dels (e ∷ es) f = scan_row q dels e f and_then λ f'. scan_rows q dels es f'

-- The rows of a block, from row `i` on.
unfoldable pub rows_from : MemBlock → ℕ → ℕ → List Entry
rows_from b zero i = []
rows_from b (suc todo) i = row b i ∷ rows_from b todo (i + 1)

abbrev pub all_rows : MemBlock → List Entry
all_rows b = rows_from b (rows b) 0

abbrev pub scanned_buffer : Found → Found
scanned_buffer f = record f {
  stats = record f.stats { mem_blocks_scanned = f.stats.mem_blocks_scanned + 1 };
}

-- The tests of a buffer in `searchBuffersRLocked`.
abbrev pub is_pruned_buffer : Query → Bytes → MemBlock → Bool
is_pruned_buffer q key b =
    rows b == 0
    || not (partition_overlaps_query (partition_of key) q.start q.end)
    || (not (is_nil q.stream_eq) && not (stream_matches_tags b.stream q.stream_eq))
    || not (overlaps b q.start q.end)

abbrev pub unless_pruned : Bool → Flow → Flow → Flow
unless_pruned true skipped scan = skipped
unless_pruned false skipped scan = scan

unfoldable pub search_buffer : Query → Map (List DeleteRecord) → Bytes → MemBlock → Found → Flow
search_buffer q tombstones key b f =
    unless_pruned (is_pruned_buffer q key b) (go f)
      (scan_rows q (deletes_at (partition_of key) tombstones) (all_rows b) (scanned_buffer f))

-- `searchBuffersRLocked`
unfoldable pub search_buffers : Query → Map (List DeleteRecord) → Map MemBlock → Found → Flow
search_buffers q tombstones [] f = go f
search_buffers q tombstones ((key, b) ∷ buffers) f =
    search_buffer q tombstones key b f and_then λ f'. search_buffers q tombstones buffers f'

-- `listPublishedPartsLocked`
unfoldable pub list_published_parts : Time → Time → Map (List Bytes) → Map (List Bytes)
list_published_parts start end [] = []
list_published_parts start end ((day, ids) ∷ manifests) =
    let rest = list_published_parts start end manifests in
    if is_nil ids || not (partition_overlaps_query day start end) then rest else (day, ids) ∷ rest

-- The loop that prunes the parts by the catalogs, and the number of parts that it leaves out.
unfoldable pub prune_parts :
    Query → Map (Map (List Bytes)) → Map (List Bytes) → Map (List Bytes) × ℕ
prune_parts q catalogs [] = ([], 0)
prune_parts q catalogs ((day, ids) ∷ days) =
    let rest = prune_parts q catalogs days in
    let filtered = parts_matching_stream_eq (lookup day catalogs) ids q.stream_eq in
    ((day, filtered) ∷ rest.0, length ids - length filtered + rest.1)

-- `keysOf`
abbrev pub keys_of : Map (List Bytes) → List Bytes
keys_of m = sort_strings (keys m)

-- The directories below `blocks`, by name.
unfoldable pub block_dir_names : Map BlockDir → List Bytes
block_dir_names [] = []
block_dir_names ((path, dir) ∷ blocks) =
    let rest = block_dir_names blocks in
    if has_prefix path (codes "blocks/") then trim_prefix path (codes "blocks/") ∷ rest else rest

-- The defaults that the scan of a part without an index by tags fills in.
abbrev pub completed : StreamMeta → StreamMeta
completed sm = record sm {
  tags = elim sm.tags [ none ↦ some (parse_stream_tags sm.id) | some tags ↦ some tags ];
  dir = if is_empty sm.dir then safe_stream_dir sm.id else sm.dir;
}

unfoldable pub legacy_streams : List StreamMeta → Map Bytes → Map StreamMeta → Map StreamMeta
legacy_streams [] stream_eq out = out
legacy_streams (sm ∷ sms) stream_eq out =
    legacy_streams sms stream_eq
      (if stream_matches_tags sm.id stream_eq then insert sm.id (completed sm) out else out)

abbrev pub named_stream : Bytes → StreamMeta
named_stream id = record { id = id; dir = id; tags = some (parse_stream_tags id); blocks = [] }

unfoldable pub streams_of_dirs : List Bytes → Map Bytes → Map StreamMeta → Map StreamMeta
streams_of_dirs [] stream_eq out = out
streams_of_dirs (id ∷ ids) stream_eq out =
    streams_of_dirs ids stream_eq
      (if stream_matches_tags id stream_eq then insert id (named_stream id) out else out)

-- `streamsForPart`, by what the metadata's file holds; no read of a directory fails.
abbrev pub streams_of_meta : File PartMeta → Map BlockDir → Map Bytes → Map StreamMeta
streams_of_meta missing blocks stream_eq =
    streams_of_dirs (sort_strings (block_dir_names blocks)) stream_eq []
streams_of_meta corrupt blocks stream_eq =
    streams_of_dirs (sort_strings (block_dir_names blocks)) stream_eq []
streams_of_meta (holds meta) blocks stream_eq =
    if is_nil meta.streams
    then streams_of_dirs (sort_strings (block_dir_names blocks)) stream_eq []
    else if not (is_nil meta.by_tag) || is_nil stream_eq
    then match_stream_ids meta stream_eq
    else legacy_streams meta.streams stream_eq []

unfoldable pub streams_for_part : Part → Map Bytes → Map StreamMeta
streams_for_part part stream_eq = streams_of_meta part.meta part.blocks stream_eq

abbrev pub refs_or_peek : List BlockRef → StreamMeta → Map BlockDir → Result (List BlockRef)
refs_or_peek (ref ∷ refs) sm blocks = ok (ref ∷ refs)
refs_or_peek [] sm blocks = do
  let name = if is_empty sm.dir then safe_stream_dir sm.id else sm.dir
  bm ← read_block_meta (dir_at (blocks_dir name) blocks)
  ok (
      record {
        path = blocks_dir name;
        time_min_ns = bm.time_min_ns;
        time_max_ns = bm.time_max_ns;
        rows = bm.rows;
      }
      ∷ [])

-- `blockRefsForStream`
unfoldable pub block_refs_for_stream : StreamMeta → Map BlockDir → Result (List BlockRef)
block_refs_for_stream sm blocks = refs_or_peek sm.blocks sm blocks

abbrev pub seen_block : Found → Found
seen_block f = record f { stats = record f.stats { blocks_seen = f.stats.blocks_seen + 1 } }

abbrev pub skipped_block : Found → Found
skipped_block f = record f {
  stats = record f.stats { blocks_skipped_bloom = f.stats.blocks_skipped_bloom + 1 };
}

abbrev pub scanned_block : Found → Found
scanned_block f = record f {
  stats = record f.stats { blocks_scanned = f.stats.blocks_scanned + 1 };
}

abbrev pub scan_block : Query → List DeleteRecord → Result MemBlock → Found → Flow
scan_block q dels (err e) f = fail e f
scan_block q dels (ok b) f = scan_rows q dels (all_rows b) (scanned_block f)

-- The body of the loop over the blocks of a stream.
unfoldable pub search_block : Query → List DeleteRecord → BlockDir → Found → Flow
search_block q dels dir f =
    let f' = seen_block f in
    unless_pruned
      (not (is_empty q.contains)
        && not (block_might_contain_msg (lookup bloom_file dir.files) q.contains))
      (go (skipped_block f')) (scan_block q dels (read_block dir) f')

unfoldable pub search_blocks :
    Query → List DeleteRecord → Map BlockDir → List BlockRef → Found → Flow
search_blocks q dels blocks [] f = go f
search_blocks q dels blocks (ref ∷ refs) f =
    search_block q dels (dir_at ref.path blocks) f and_then λ f'.
    search_blocks q dels blocks refs f'

abbrev pub search_refs :
    Query → List DeleteRecord → Map BlockDir → Result (List BlockRef) → Found → Flow
search_refs q dels blocks (err e) f = fail e f
search_refs q dels blocks (ok refs) f =
    search_blocks q dels blocks (filter_block_refs refs q.start q.end) f

unfoldable pub search_streams :
    Query → List DeleteRecord → Map BlockDir → Map StreamMeta → Found → Flow
search_streams q dels blocks [] f = go f
search_streams q dels blocks ((id, sm) ∷ sms) f =
    search_refs q dels blocks (block_refs_for_stream sm blocks) f and_then λ f'.
    search_streams q dels blocks sms f'

abbrev pub scanned_part : Found → Found
scanned_part f = record f { stats = record f.stats { parts_scanned = f.stats.parts_scanned + 1 } }

-- A part whose directory is missing has no streams.
abbrev pub no_part : Part
no_part = record { meta = missing; blocks = [] }

abbrev pub part_at : Bytes → Map Part → Part
part_at id parts = elim (lookup id parts) [ none ↦ no_part | some part ↦ part ]

unfoldable pub search_part : Query → List DeleteRecord → Part → Found → Flow
search_part q dels part f =
    search_streams q dels part.blocks (streams_for_part part q.stream_eq) (scanned_part f)

unfoldable pub search_parts : Query → List DeleteRecord → Map Part → List Bytes → Found → Flow
search_parts q dels parts [] f = go f
search_parts q dels parts (id ∷ ids) f =
    search_part q dels (part_at id parts) f and_then λ f'. search_parts q dels parts ids f'

unfoldable pub search_days :
    Query → Map (List DeleteRecord) → Map DayDir → Map (List Bytes) → List Bytes → Found → Flow
search_days q tombstones disk disk_parts [] f = go f
search_days q tombstones disk disk_parts (day ∷ days) f =
    search_parts q (deletes_at day tombstones) (day_at day disk).parts (ids_at day disk_parts) f
    and_then λ f'. search_days q tombstones disk disk_parts days f'

-- What is returned: `st.RowsReturned = len(out)`, or the error and the counters so far.
abbrev pub returned : Found → Found
returned f = record f { stats = record f.stats { rows_returned = length f.out } }

abbrev pub found_of : Flow → Found
found_of (go f) = f
found_of (stop f) = f
found_of (fail e f) = f

abbrev pub finish : Flow → Result (List Entry) × QueryStats
finish (go f) = (ok f.out, (returned f).stats)
finish (stop f) = (ok f.out, (returned f).stats)
finish (fail e f) = (err e, f.stats)

-- The search of the disk, after that of the buffers.
unfoldable pub search_disk : Query → Map (List DeleteRecord) → Store → Found → Flow
search_disk q tombstones s f =
    let pruned = prune_parts q s.catalogs (list_published_parts q.start q.end s.manifests) in
    let f' = record f {
      stats = record f.stats { parts_pruned_index_db = f.stats.parts_pruned_index_db + pruned.1 };
    } in
    search_days q tombstones s.disk pruned.0 (keys_of pruned.0) f'

-- `SearchWithStats`
unfoldable pub search_with_stats : Query → Store → Result (List Entry) × QueryStats
search_with_stats q s =
    let tombstones = deletes_overlapping_query q.start q.end s.tombstones.deletes in
    let f =
      found_of (search_buffers q tombstones s.buffers (record { out = []; stats = no_stats })) in
    if is_full q.limit f.out
    then (ok (take q.limit f.out), (returned f).stats)
    else finish (search_disk q tombstones s f)

-- `Search`
abbrev pub search_store : Query → Store → Result (List Entry)
search_store q s = (search_with_stats q s).0
