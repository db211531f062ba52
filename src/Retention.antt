-- ===== src/Retention.antt =====
-- retention.go: days that are over for longer than the retention period are dropped. The
-- directories below `partitions` are a list of names; no removal fails.
pub mod Drop
use Prim.Native.Nat.{ℕ}
use marchilogs.Base.{
  if◌then◌else◌, keep_if, ℤ, pos, ◌-ℤ◌, ltb_ℤ, has_prefix, sort_strings, Bytes, bytes_eq, mem_bytes,
  Map, keys, remove, set_of, Result, err, ok, ◌+◌, Bool, true, false, not, ◌&&◌, List, [], ◌∷◌,
  ◌++◌,
}
use marchilogs.Calendar.{Time, parse_partition_name, day_end}
use marchilogs.Block.{MemBlock}
use marchilogs.Deletes.{DeleteRecord}

-- What `Storage` keeps by day, the buffers, and the names of the directories.
pub record Days : Type 0 where
  pub buffers : Map MemBlock
  pub manifests : Map (List Bytes)
  pub catalogs : Map (Map (List Bytes))
  pub tombstones : Map (List DeleteRecord)
  pub delete_seq : Map ℕ
  pub part_seq : Map ℤ
  pub on_disk : List Bytes

-- `delete(s.buffers, key)` for the keys with a prefix.
unfoldable pub drop_prefix : Bytes → Map MemBlock → Map MemBlock
drop_prefix p [] = []
drop_prefix p ((key, b) ∷ buffers) =
    if has_prefix key p then drop_prefix p buffers else (key, b) ∷ drop_prefix p buffers

-- `dropDayLocked`
unfoldable pub drop_day : Bytes → Days → Days
drop_day day s = record {
  buffers = drop_prefix (day ++ 0 ∷ []) s.buffers;
  manifests = remove day s.manifests;
  catalogs = remove day s.catalogs;
  tombstones = remove day s.tombstones;
  delete_seq = remove day s.delete_seq;
  part_seq = remove day s.part_seq;
  on_disk = keep_if (λ (name : Bytes). not (bytes_eq name day)) s.on_disk;
}

-- The test of both loops: the day's last nanosecond is before the deadline.
abbrev pub ends_before : Time → Result Time → Bool
ends_before deadline (err e) = false
ends_before deadline (ok start) = ltb_ℤ (day_end start) deadline

unfoldable pub is_expired : Time → Bytes → Bool
is_expired deadline day = ends_before deadline (parse_partition_name day)

-- The last loop, which tests each day again, with the number of days dropped.
unfoldable pub drop_days : Time → List Bytes → Days → Days × ℕ
drop_days deadline [] s = (s, 0)
drop_days deadline (day ∷ days) s =
    let dropped = drop_days deadline days (if is_expired deadline day then drop_day day s else s) in
    (dropped.0, if is_expired deadline day then dropped.1 + 1 else dropped.1)

abbrev pub parses : Result Time → Bool
parses (err e) = false
parses (ok day) = true

-- The days of the manifests, then those on disk only.
unfoldable pub known_days : Days → List Bytes
known_days s = sort_strings (
    keys s.manifests
    ++ keep_if
        (λ (name : Bytes).
          parses (parse_partition_name name) && not (mem_bytes name (set_of (keys s.manifests))))
        s.on_disk)

-- `applyRetentionAt`; a period is in nanoseconds.
unfoldable pub apply_retention_at : ℤ → Time → Days → Days × ℕ
apply_retention_at period now s =
    if ltb_ℤ (pos 0) period
    then drop_days (now -ℤ period) (keep_if (is_expired (now -ℤ period)) (known_days s)) s
    else (s, 0)
