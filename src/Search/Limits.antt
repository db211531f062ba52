-- ===== src/Search/Limits.antt =====
-- storage.go and inmemory_part.go: what a search returns under a limit.
use Prim.Native.Nat.{ℕ}
use marchilogs.Base.{
  ltb, leb, if◌then◌else◌, Bool-cases, length, take, length-append, length-take, Bytes, is_empty,
  Map, lookup, Result, err, ok, ◌+◌, ◌≤◌, ◌<◌, ◌≡◌, refl, ap, inl, inr, Bool, true, false, not,
  ◌&&◌, List, [], ◌∷◌, ◌++◌, arith,
}
use marchilogs.Entry.{Entry}
use marchilogs.Tags.{BlockRef, StreamMeta, ids_at, filter_block_refs}
use marchilogs.Bloom.{block_might_contain_msg}
use marchilogs.Block.{MemBlock, bloom_file, BlockDir, read_block}
use marchilogs.Deletes.{
  DeleteRecord, entry_hidden_by_deletes, deletes_at, deletes_overlapping_query,
}
use marchilogs.Store.{Part, DayDir, day_at, Store, dir_at}
use marchilogs.Search.{
  Query, QueryStats, no_stats, Found, Flow, go, stop, fail, ◌and_then◌, is_full, is_skipped,
  scanned_row, row_flow, scan_row, scan_rows, all_rows, unless_pruned, search_buffers,
  list_published_parts, prune_parts, keys_of, streams_for_part, block_refs_for_stream, seen_block,
  skipped_block, scanned_block, scan_block, search_block, search_blocks, search_refs,
  search_streams, scanned_part, part_at, search_part, search_parts, search_days, returned, found_of,
  finish, search_disk, search_with_stats, search_store,
}

-- A piece of a search leaves room for a row where it goes on, and is within the limit where it stops.
Fits : ℕ → Flow → Type 0
Fits limit (go f) = length f.out < limit
Fits limit (stop f) = length f.out ≤ limit
Fits limit (fail e f) = Unit

Fits-then :
    (limit : ℕ) (flow : Flow) (rest : Found → Flow)
    → Fits limit flow
    → ((f : Found) → length f.out < limit → Fits limit (rest f))
    → Fits limit (flow and_then rest)
unfolding Fits
Fits-then limit (go f) rest h next = next f h
Fits-then limit (stop f) rest h next = h
Fits-then limit (fail e f) rest h next = h

Fits-unless_pruned :
    (limit : ℕ) (pruned : Bool) (skipped scan : Flow)
    → Fits limit skipped
    → Fits limit scan
    → Fits limit (unless_pruned pruned skipped scan)
Fits-unless_pruned limit true skipped scan hs hr = hs
Fits-unless_pruned limit false skipped scan hs hr = hr

row_flow-Fits :
    (limit : ℕ) (skipped hidden : Bool) (e : Entry) (f : Found)
    → length f.out < limit
    → Fits limit (row_flow skipped hidden (is_full limit (f.out ++ e ∷ [])) e f)
unfolding Fits
row_flow-Fits limit true hidden e f h = h
row_flow-Fits limit false true e f h = h
row_flow-Fits limit false false e f h =
    let longer = length-append f.out (e ∷ []) in
    elim (Bool-cases (is_full limit (f.out ++ e ∷ []))) [
      | inl full ↦ rw full (omega arith)
      | inr room ↦ rw room (below limit (length (f.out ++ e ∷ [])) h (omega arith) room)
    ]
  where
    below :
        (limit n : ℕ) {m : ℕ}
        → m < limit
        → n ≡ m + 1
        → (ltb 0 limit && leb limit n) ≡ false
        → n < limit
    below limit n h e room = ground arith

module _ (q : Query) (dels : List DeleteRecord) where
  scan_rows-Fits :
      (es : List Entry) (f : Found) → length f.out < q.limit → Fits q.limit (scan_rows q dels es f)
  unfolding scan_rows Fits scan_row
  scan_rows-Fits [] f h = h
  scan_rows-Fits (e ∷ es) f h =
      Fits-then q.limit (scan_row q dels e f) (λ f'. scan_rows q dels es f')
        (row_flow-Fits q.limit (is_skipped q e) (entry_hidden_by_deletes e dels) e (scanned_row f)
          h)
        (λ f' h'. scan_rows-Fits es f' h')

  scan_block-Fits :
      (b : Result MemBlock) (f : Found)
      → length f.out < q.limit
      → Fits q.limit (scan_block q dels b f)
  unfolding Fits
  scan_block-Fits (err e) f h = tt
  scan_block-Fits (ok b) f h = scan_rows-Fits (all_rows b) (scanned_block f) h

  search_blocks-Fits :
      (blocks : Map BlockDir) (refs : List BlockRef) (f : Found)
      → length f.out < q.limit
      → Fits q.limit (search_blocks q dels blocks refs f)
  unfolding search_blocks search_block Fits
  search_blocks-Fits blocks [] f h = h
  search_blocks-Fits blocks (ref ∷ refs) f h =
      let dir = dir_at ref.path blocks in
      Fits-then q.limit (search_block q dels dir f) (λ f'. search_blocks q dels blocks refs f')
        (Fits-unless_pruned q.limit
          (not (is_empty q.contains)
            && not (block_might_contain_msg (lookup bloom_file dir.files) q.contains))
          (go (skipped_block (seen_block f))) (scan_block q dels (read_block dir) (seen_block f)) h
          (scan_block-Fits (read_block dir) (seen_block f) h))
        (λ f' h'. search_blocks-Fits blocks refs f' h')

  search_refs-Fits :
      (blocks : Map BlockDir) (refs : Result (List BlockRef)) (f : Found)
      → length f.out < q.limit
      → Fits q.limit (search_refs q dels blocks refs f)
  unfolding Fits
  search_refs-Fits blocks (err e) f h = tt
  search_refs-Fits blocks (ok refs) f h =
      search_blocks-Fits blocks (filter_block_refs refs q.start q.end) f h

  search_streams-Fits :
      (blocks : Map BlockDir) (sms : Map StreamMeta) (f : Found)
      → length f.out < q.limit
      → Fits q.limit (search_streams q dels blocks sms f)
  unfolding search_streams Fits
  search_streams-Fits blocks [] f h = h
  search_streams-Fits blocks ((id, sm) ∷ sms) f h =
      Fits-then q.limit (search_refs q dels blocks (block_refs_for_stream sm blocks) f)
        (λ f'. search_streams q dels blocks sms f')
        (search_refs-Fits blocks (block_refs_for_stream sm blocks) f h)
        (λ f' h'. search_streams-Fits blocks sms f' h')

  search_parts-Fits :
      (parts : Map Part) (ids : List Bytes) (f : Found)
      → length f.out < q.limit
      → Fits q.limit (search_parts q dels parts ids f)
  unfolding search_parts search_part Fits
  search_parts-Fits parts [] f h = h
  search_parts-Fits parts (id ∷ ids) f h =
      let part = part_at id parts in
      Fits-then q.limit (search_part q dels part f) (λ f'. search_parts q dels parts ids f')
        (search_streams-Fits part.blocks (streams_for_part part q.stream_eq) (scanned_part f) h)
        (λ f' h'. search_parts-Fits parts ids f' h')

search_days-Fits :
    (q : Query) (tombstones : Map (List DeleteRecord)) (disk : Map DayDir)
    (disk_parts : Map (List Bytes)) (days : List Bytes) (f : Found)
    → length f.out < q.limit
    → Fits q.limit (search_days q tombstones disk disk_parts days f)
unfolding search_days Fits
search_days-Fits q tombstones disk disk_parts [] f h = h
search_days-Fits q tombstones disk disk_parts (day ∷ days) f h =
    Fits-then q.limit
      (search_parts q (deletes_at day tombstones) (day_at day disk).parts (ids_at day disk_parts) f)
      (λ f'. search_days q tombstones disk disk_parts days f')
      (search_parts-Fits q (deletes_at day tombstones) (day_at day disk).parts
        (ids_at day disk_parts) f h)
      (λ f' h'. search_days-Fits q tombstones disk disk_parts days f' h')

ok_length :
    (limit : ℕ) (found es : List Entry)
    → ok found ≡ ok es
    → length found ≤ limit
    → length es ≤ limit
ok_length limit found es e h =
    omega
      (arith, ap {B = ℕ} (λ (r : Result (List Entry)). elim r [ err x ↦ 0 | ok v ↦ length v ]) e)

finish-length :
    (limit : ℕ) (flow : Flow) (es : List Entry)
    → Fits limit flow
    → (finish flow).0 ≡ ok es
    → length es ≤ limit
unfolding Fits
finish-length limit (go f) es h e = ok_length limit f.out es e (omega arith)
finish-length limit (stop f) es h e = ok_length limit f.out es e h
finish-length limit (fail x f) es h e = cc

-- The two ends of a search: the buffers fill the limit, or the parts are searched too.
either_end :
    (limit : ℕ) (full : Bool) (found es : List Entry) (st : QueryStats) (flow : Flow)
    → (full ≡ true → length found ≤ limit)
    → (full ≡ false → Fits limit flow)
    → (if full then (ok found, st) else finish flow).0 ≡ ok es
    → length es ≤ limit
either_end limit true found es st flow hit miss e = ok_length limit found es e (hit refl)
either_end limit false found es st flow hit miss e = finish-length limit flow es (miss refl) e

full_take : (limit : ℕ) (es : List Entry) → is_full limit es ≡ true → length (take limit es) ≤ limit
full_take limit es h =
    let enough = many limit (length es) h in omega (arith, length-take limit es enough)
  where
    many : (limit n : ℕ) → (ltb 0 limit && leb limit n) ≡ true → limit ≤ n
    many limit n h = ground arith

room_left : (limit : ℕ) (es : List Entry) → 0 < limit → is_full limit es ≡ false → length es < limit
room_left limit es hl h = few limit (length es) hl h
  where
    few : (limit n : ℕ) → 0 < limit → (ltb 0 limit && leb limit n) ≡ false → n < limit
    few limit n hl h = ground arith

-- A search with a limit above 0 that does not fail returns at most that many rows, whatever it finds
-- in the buffers and in the parts.
pub search_store-length :
    (q : Query) (s : Store) (es : List Entry)
    → 0 < q.limit
    → search_store q s ≡ ok es
    → length es ≤ q.limit
unfolding search_with_stats search_disk
search_store-length q s es hl e =
    let tombstones = deletes_overlapping_query q.start q.end s.tombstones.deletes in
    let f =
      found_of (search_buffers q tombstones s.buffers (record { out = []; stats = no_stats })) in
    let pruned = prune_parts q s.catalogs (list_published_parts q.start q.end s.manifests) in
    let f' = record f {
      stats = record f.stats { parts_pruned_index_db = f.stats.parts_pruned_index_db + pruned.1 };
    } in
    either_end q.limit (is_full q.limit f.out) (take q.limit f.out) es (returned f).stats
      (search_days q tombstones s.disk pruned.0 (keys_of pruned.0) f') (full_take q.limit f.out)
      (λ room.
        search_days-Fits q tombstones s.disk pruned.0 (keys_of pruned.0) f'
          (room_left q.limit f.out hl room))
      e
