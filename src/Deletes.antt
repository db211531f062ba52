-- ===== src/Deletes.antt =====
-- delete.go: tombstones, and what they hide. A day's `deletes.json` holds the records that
-- `s.deletes` holds of it, so the map stands for both; the id of a record is `d-` and its number.
pub mod Hiding
pub mod Days
use Prim.Native.Nat.{ℕ}
use marchilogs.Base.{
  ◌==◌, if◌then◌else◌, is_nil, get_or, keep_if, ℤ, pos, ltb_ℤ, eqb_ℤ, trim_prefix, has_substring,
  sort_strings, zero_padded, atoi, Bytes, codes, is_empty, bytes_eq, mem_bytes, Map, keys, lookup,
  insert, unless_empty, delete_unbounded, Result, ok, err, zero, suc, ◌+◌, Bool, true, false, not,
  ◌&&◌, ◌||◌, none, some, List, [], ◌∷◌, ◌++◌,
}
use marchilogs.Calendar.{Time, partition_name, parse_partition_name, day_end}
use marchilogs.Entry.{field_stream, Entry, field_of, is_zero, unix_nano, msg}
use marchilogs.Tags.{stream_matches_tags}
use marchilogs.Block.{rows, MemBlock, new_mem_block, add_with_seq, row}

-- `DeleteSpec`
pub record DeleteSpec : Type 0 where
  pub start : Time
  pub end : Time
  pub stream_eq : Map Bytes
  pub contains : Bytes

-- `deleteRecord`
pub record DeleteRecord : Type 0 where
  pub id : Bytes
  pub created_ns : ℤ
  pub start_ns : ℤ
  pub end_ns : ℤ
  pub stream_eq : Map Bytes
  pub contains : Bytes

-- The loop over `r.StreamEq` for an entry without a stream.
unfoldable pub fields_match : Map Bytes → Map Bytes → Bool
fields_match fields [] = true
fields_match fields ((k, v) ∷ q) =
    if is_empty v
    then fields_match fields q
    else if bytes_eq (field_of k fields) v
    then fields_match fields q
    else false

-- The test of the stream in `hidesEntry`.
abbrev pub stream_passes : Map Bytes → Map Bytes → Bool
stream_passes stream_eq fields =
    if is_empty (field_of field_stream fields)
    then fields_match fields stream_eq
    else stream_matches_tags (field_of field_stream fields) stream_eq

-- `hidesEntry`; both tests of the stream accept an empty `StreamEq`.
unfoldable pub hides_entry : DeleteRecord → Entry → Bool
hides_entry r e =
    let ts = unix_nano e.time in
    if not (eqb_ℤ r.start_ns (pos 0)) && ltb_ℤ ts r.start_ns
    then false
    else if not (eqb_ℤ r.end_ns (pos 0)) && ltb_ℤ r.end_ns ts
    then false
    else if not (stream_passes r.stream_eq e.fields)
    then false
    else if not (is_empty r.contains) && not (has_substring (msg e) r.contains)
    then false
    else true

-- `mayHideBlock`
unfoldable pub may_hide_block : DeleteRecord → Bytes → ℤ → ℤ → Bool
may_hide_block r stream time_min_ns time_max_ns =
    if not (eqb_ℤ r.start_ns (pos 0)) && ltb_ℤ time_max_ns r.start_ns
    then false
    else if not (eqb_ℤ r.end_ns (pos 0)) && ltb_ℤ r.end_ns time_min_ns
    then false
    else if not (stream_matches_tags stream r.stream_eq)
    then false
    else true

-- `entryHiddenByDeletes`
unfoldable pub entry_hidden_by_deletes : Entry → List DeleteRecord → Bool
entry_hidden_by_deletes e [] = false
entry_hidden_by_deletes e (d ∷ dels) =
    if hides_entry d e then true else entry_hidden_by_deletes e dels

-- `parseDeleteSeq`
unfoldable pub parse_delete_seq : Bytes → ℤ
parse_delete_seq id = elim (atoi (trim_prefix id (codes "d-"))) [ err e ↦ pos 0 | ok n ↦ n ]

-- The loop of `loadDeletesLocked` over the records of a day, from the sequence number so far.
unfoldable pub load_delete_seq : List DeleteRecord → ℤ → ℤ
load_delete_seq [] n = n
load_delete_seq (r ∷ rs) n =
    load_delete_seq rs (if ltb_ℤ n (parse_delete_seq r.id) then parse_delete_seq r.id else n)

-- The record that `deleteSpecHides` and `Delete` make of a specification.
abbrev pub record_of_spec : DeleteSpec → DeleteRecord
record_of_spec spec = record {
  id = [];
  created_ns = pos 0;
  start_ns = if is_zero spec.start then pos 0 else unix_nano spec.start;
  end_ns = if is_zero spec.end then pos 0 else unix_nano spec.end;
  stream_eq = spec.stream_eq;
  contains = spec.contains;
}

-- `deleteSpecHides`
unfoldable pub delete_spec_hides : DeleteSpec → Entry → Bool
delete_spec_hides spec e = hides_entry (record_of_spec spec) e

-- The body of the inner loop of `purgeBuffersMatchingLocked`: the block of the rows that stay and
-- the number of those that go.
abbrev pub purge_row : Bool → Entry → ℕ → MemBlock × ℕ → MemBlock × ℕ
purge_row true e seq (kept, n) = (kept, n + 1)
purge_row false e seq (kept, n) = (add_with_seq kept e seq, n)

-- That loop, with `todo` rows left, the next of them row `i`.
unfoldable pub purge_rows : DeleteSpec → MemBlock → ℕ → ℕ → MemBlock × ℕ → MemBlock × ℕ
purge_rows spec b zero i purged = purged
purge_rows spec b (suc todo) i purged =
    purge_rows spec b todo (i + 1)
      (purge_row (delete_spec_hides spec (row b i)) (row b i) (get_or b.seqs i 0) purged)

-- `purgeBuffersMatchingLocked`: the buffers afterwards and the number of rows purged.
unfoldable pub purge_buffers : DeleteSpec → Map MemBlock → Map MemBlock × ℕ
purge_buffers spec [] = ([], 0)
purge_buffers spec ((key, b) ∷ buffers) =
    let rest = purge_buffers spec buffers in
    let purged = purge_rows spec b (rows b) 0 (new_mem_block b.stream, 0) in
    if rows b == 0
    then ((key, b) ∷ rest.0, rest.1)
    else (if rows purged.0 == 0 then rest.0 else (key, purged.0) ∷ rest.0, purged.1 + rest.1)

-- `partitionOverlapsQuery` (inmemory_part.go)
abbrev pub day_overlaps : Result Time → Time → Time → Bool
day_overlaps (err e) start end = false
day_overlaps (ok day) start end =
    if not (is_zero end) && ltb_ℤ end day
    then false
    else if not (is_zero start) && ltb_ℤ (day_end day) start
    then false
    else true

unfoldable pub partition_overlaps_query : Bytes → Time → Time → Bool
partition_overlaps_query name start end = day_overlaps (parse_partition_name name) start end

-- The closure `add` of `daysForDeleteLocked`, over a sequence of days.
unfoldable pub add_days : Time → Time → List Bytes → List Bytes → List Bytes
add_days start end [] out = out
add_days start end (day ∷ days) out = add_days start end days (
    if mem_bytes day out
    then out
    else if partition_overlaps_query day start end
    then out ++ day ∷ []
    else out)

-- `daysForDeleteLocked`; `on_disk` are the names of the directories below `partitions`.
unfoldable pub days_for_delete : List Bytes → List Bytes → List Bytes → Time → Time → List Bytes
days_for_delete manifest_days delete_days on_disk start end =
    let named =
      keep_if (λ name. elim (parse_partition_name name) [ err e ↦ false | ok t ↦ true ]) on_disk in
    let known = add_days start end (manifest_days ++ delete_days ++ named) [] in
    let starts = if is_zero start then [] else partition_name start ∷ [] in
    let ends = if is_zero end then [] else partition_name end ∷ [] in
    sort_strings (unless_empty known (add_days start end (starts ++ ends) []))

-- The tombstones of the days, and the number of the last one of each.
pub record Tombstones : Type 0 where
  pub deletes : Map (List DeleteRecord)
  pub delete_seq : Map ℕ

abbrev pub seq_at : Bytes → Map ℕ → ℕ
seq_at day m = elim (lookup day m) [ none ↦ 0 | some n ↦ n ]

abbrev pub deletes_at : Bytes → Map (List DeleteRecord) → List DeleteRecord
deletes_at day m = elim (lookup day m) [ none ↦ [] | some ds ↦ ds ]

-- The body of the last loop of `Delete`, where no write fails.
abbrev pub add_tombstone : DeleteRecord → Bytes → Tombstones → Tombstones
add_tombstone r day s =
    let n = seq_at day s.delete_seq + 1 in
    record {
      deletes =
          insert day
            (deletes_at day s.deletes ++ record r { id = codes "d-" ++ zero_padded 6 n } ∷ [])
            s.deletes;
      delete_seq = insert day n s.delete_seq;
    }

unfoldable pub add_tombstones : DeleteRecord → List Bytes → Tombstones → Tombstones
add_tombstones r [] s = s
add_tombstones r (day ∷ days) s = add_tombstones r days (add_tombstone r day s)

abbrev pub is_unbounded : DeleteSpec → Bool
is_unbounded spec =
    is_zero spec.start && is_zero spec.end && is_nil spec.stream_eq && is_empty spec.contains

-- `Delete`: the buffers and the tombstones afterwards, and the number of rows purged.
unfoldable pub delete :
    Time
    → List Bytes
    → List Bytes
    → DeleteSpec
    → Map MemBlock
    → Tombstones
    → Result (Map MemBlock × Tombstones × ℕ)
delete now manifest_days on_disk spec buffers s =
    if is_unbounded spec
    then err delete_unbounded
    else let purged = purge_buffers spec buffers in
      let days = days_for_delete manifest_days (keys s.deletes) on_disk spec.start spec.end in
      let r = record (record_of_spec spec) { created_ns = unix_nano now } in
      ok (purged.0, add_tombstones r days s, purged.1)

-- `deletesOverlappingQueryLocked`
unfoldable pub deletes_overlapping_query :
    Time → Time → Map (List DeleteRecord) → Map (List DeleteRecord)
deletes_overlapping_query start end [] = []
deletes_overlapping_query start end ((day, dels) ∷ m) =
    let rest = deletes_overlapping_query start end m in
    if is_nil dels || not (partition_overlaps_query day start end) then rest else (day, dels) ∷ rest
