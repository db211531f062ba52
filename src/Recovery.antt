-- ===== src/Recovery.antt =====
-- storage.go, manifest.go, indexdb.go and delete.go: `Open` makes a store of the files below a root.
-- What the directories hold can be read; the removals and the writes may fail. Where `Open` returns an
-- error, the store of the outcome stands for the files that it leaves. A directory `parts` that is
-- missing is an empty one, for which the code does the same.
pub mod Removals
pub mod Steps
pub mod Listed
pub mod Numbers
pub mod Fresh
pub mod Replay
use marchilogs.Base.{
  Bool, Bytes, List, Map, Option, Result, [], bad_json, codes, err, false, has_prefix,
  if◌then◌else◌, insert, io_failure, keep_if, keys, ltb_ℤ, mem_bytes, negsuc, none, not, ok, pos,
  some, sort_strings, true, ℕ, ℤ, ◌||◌, ◌∷◌,
}
use marchilogs.Calendar.{Time, parse_partition_name}
use marchilogs.Deletes.{DeleteRecord, load_delete_seq, seq_at}
use marchilogs.Engine.{apply_locked, ◌if_ok◌}
use marchilogs.Entry.{Entry, normalize}
use marchilogs.Flush.{
  Io, Outcome, make_root, rebuild_catalog, remove_leftover, remove_orphan, set_manifest,
  without_part, write_manifest,
}
use marchilogs.Options.{Options, with_defaults}
use marchilogs.Parts.{is_published_part_dir, max_part_id, max_part_id_from}
use marchilogs.Store.{DayDir, File, Store, corrupt, day_at, holds, missing}
use marchilogs.Tags.{ids_at}
use marchilogs.Wal.{RecordCodec, Wal, WalRecord, open_wal, replay_after_checkpoint}

-- The files below a root. A log that is missing is empty.
pub record Root : Type 0 where
  pub partitions : Map DayDir
  pub log : Bytes
  pub checkpoint_file : Option Bytes

-- A loop that ends at the first error.
unfoldable pub for_each : (Bytes → Store → Outcome) → List Bytes → Store → Outcome
for_each step [] s = (s, none)
for_each step (k ∷ ks) s = step k s if_ok λ s'. for_each step ks s'

-- The test of a name in `cleanupOrphanPublishing`.
abbrev pub is_leftover : Bytes → Bool
is_leftover name = has_prefix name (codes ".publishing-") || has_prefix name (codes ".merging-")

abbrev pub part_dirs : Bytes → Store → List Bytes
part_dirs day s = keys (day_at day s.disk).parts

-- A day whose name parses.
abbrev pub is_day : Bytes → Bool
is_day name = elim (parse_partition_name name) [ err e ↦ false | ok t ↦ true ]

module _ (io : Io) where
  -- The body of the inner loop of `cleanupOrphanPublishing`.
  abbrev pub clean_leftover : Bytes → Bytes → Store → Outcome
  clean_leftover day name s =
      if not (is_leftover name)
      then (s, none)
      else if io (remove_leftover day name)
      then (s, some io_failure)
      else (without_part day name s, none)

  abbrev pub clean_day : Bytes → Store → Outcome
  clean_day day s = for_each (clean_leftover day) (part_dirs day s) s

  -- `cleanupOrphanPublishing`
  unfoldable pub cleanup_orphan_publishing : Store → Outcome
  cleanup_orphan_publishing s = for_each clean_day (keys s.disk) s

  -- The end of `ensureDayManifestLocked`: the ids are those of the directories.
  abbrev pub rebuild_manifest : Bytes → Store → Outcome
  rebuild_manifest day s = if io write_manifest then (s, some io_failure) else (
    set_manifest day (sort_strings (keep_if (λ name. is_published_part_dir name) (part_dirs day s)))
        s,
    none,
  )

  abbrev pub manifest_from : Bytes → Store → File (List Bytes) → Outcome
  manifest_from day s missing = rebuild_manifest day s
  manifest_from day s corrupt = rebuild_manifest day s
  manifest_from day s (holds ids) = (record s { manifests = insert day ids s.manifests }, none)

  -- `ensureDayManifestLocked`, with the assignment of what it returns to `s.manifests[day]`.
  unfoldable pub ensure_day_manifest : Bytes → Store → Outcome
  ensure_day_manifest day s = manifest_from day s (day_at day s.disk).manifest

  -- The body of the loop of `cleanupOrphanPartsLocked`, which ignores a removal that fails.
  abbrev pub clean_orphan : List Bytes → Bytes → Bytes → Store → Outcome
  clean_orphan active day name s = (
    if not (is_published_part_dir name) || mem_bytes name active || io (remove_orphan day name)
        then s
        else without_part day name s,
    none,
  )

  -- `cleanupOrphanPartsLocked`
  unfoldable pub cleanup_orphan_parts : Bytes → Store → Outcome
  cleanup_orphan_parts day s =
      for_each (clean_orphan (ids_at day s.manifests) day) (part_dirs day s) s

  -- The body of the loop of `loadManifestsLocked`.
  abbrev pub load_manifest : Bytes → Store → Outcome
  load_manifest day s =
      if is_day day then ensure_day_manifest day s if_ok cleanup_orphan_parts day else (s, none)

  -- `loadManifestsLocked`
  unfoldable pub load_manifests : Store → Outcome
  load_manifests s = for_each load_manifest (keys s.disk) (record s { manifests = [] })

  abbrev pub catalog_from : Bytes → Store → File (Map (List Bytes)) → Outcome
  catalog_from day s missing = rebuild_catalog io day s
  catalog_from day s corrupt = rebuild_catalog io day s
  catalog_from day s (holds by_tag) = (record s { catalogs = insert day by_tag s.catalogs }, none)

  -- `ensureDayIndexDBLocked`
  unfoldable pub ensure_day_index_db : Bytes → Store → Outcome
  ensure_day_index_db day s = catalog_from day s (day_at day s.disk).catalog

  -- `loadIndexDBsLocked`
  unfoldable pub load_index_dbs : Store → Outcome
  load_index_dbs s = for_each ensure_day_index_db (keys s.manifests) (record s { catalogs = [] })

-- A number that a Go `int` holds, where it is not negative.
abbrev pub to_nat : ℤ → ℕ
to_nat (pos n) = n
to_nat (negsuc n) = 0

abbrev pub set_deletes : Bytes → List DeleteRecord → Store → Store
set_deletes day recs s = record s {
  tombstones = record {
    deletes = insert day recs s.tombstones.deletes;
    delete_seq = insert day (to_nat (load_delete_seq recs (pos 0))) s.tombstones.delete_seq;
  };
}

abbrev pub deletes_from : Bytes → Store → File (List DeleteRecord) → Outcome
deletes_from day s missing = (s, none)
deletes_from day s corrupt = (s, some bad_json)
deletes_from day s (holds recs) = (set_deletes day recs s, none)

-- The body of the loop of `loadDeletesLocked`; a number 0 is one that is not in the map.
abbrev pub load_day_deletes : Bytes → Store → Outcome
load_day_deletes day s =
    if is_day day then deletes_from day s (day_at day s.disk).deletes else (s, none)

-- `loadDeletesLocked`
unfoldable pub load_deletes : Store → Outcome
load_deletes s =
    for_each load_day_deletes (keys s.disk)
      (record s { tombstones = record { deletes = []; delete_seq = [] } })

-- The first loop of `loadPartSeq`.
unfoldable pub seq_from_manifests : Map (List Bytes) → Map ℕ → Map ℕ
seq_from_manifests [] seqs = seqs
seq_from_manifests ((day, ids) ∷ manifests) seqs = seq_from_manifests manifests (
    if ltb_ℤ (pos (seq_at day seqs)) (max_part_id ids)
    then insert day (to_nat (max_part_id ids)) seqs
    else seqs)

-- Its second loop, over the directories.
unfoldable pub seq_from_dirs : Map DayDir → Map ℕ → Map ℕ
seq_from_dirs [] seqs = seqs
seq_from_dirs ((day, dir) ∷ disk) seqs = seq_from_dirs disk (
    insert day
      (to_nat (
        max_part_id_from (pos (seq_at day seqs))
          (keep_if (λ name. is_published_part_dir name) (keys dir.parts))))
      seqs)

-- `loadPartSeq`
unfoldable pub load_part_seq : Store → Store
load_part_seq s = record s {
  part_seq = seq_from_dirs s.disk (seq_from_manifests s.manifests s.part_seq);
}

-- The entry of a record in `replayWAL`; `now` is the clock of `normalize`.
abbrev pub replayed_entry : List Bytes → Time → WalRecord → Entry
replayed_entry stream_fields now r =
    normalize stream_fields now (record { time = r.time_ns; fields = r.fields })

unfoldable pub replay_records : List Bytes → Time → List WalRecord → Store → Store
replay_records stream_fields now [] s = s
replay_records stream_fields now (r ∷ rs) s =
    replay_records stream_fields now rs (apply_locked (replayed_entry stream_fields now r) r.seq s)

abbrev pub new_store : Root → Store
new_store root = record {
  buffers = [];
  part_seq = [];
  wal = none;
  manifests = [];
  catalogs = [];
  tombstones = record { deletes = []; delete_seq = [] };
  disk = root.partitions;
}

module _ (codec : RecordCodec) (o : Options) (now : Time) where
  abbrev pub replayed : Store → Wal → Result (List WalRecord) → Outcome
  replayed s w (err e) = (s, some e)
  replayed s w (ok rs) = (replay_records o.stream_fields now rs (record s { wal = some w }), none)

  abbrev pub with_log : Store → Result Wal → Outcome
  with_log s (err e) = (s, some e)
  with_log s (ok w) = replayed s w (replay_after_checkpoint codec w)

  -- `openWAL` and `replayWAL`
  unfoldable pub open_log : Root → Store → Outcome
  open_log root s =
      if o.enable_wal then with_log s (open_wal codec root.log root.checkpoint_file) else (s, none)

-- The steps of `Open` before those on the log.
unfoldable pub load_all : Io → Store → Outcome
load_all io s =
    cleanup_orphan_publishing io s
    if_ok load_manifests io
    if_ok load_index_dbs io
    if_ok load_deletes
    if_ok λ s'. (load_part_seq s', none)

-- `Open`, up to the start of the workers.
unfoldable pub open_store : Io → RecordCodec → Options → Time → Root → Outcome
open_store io codec opts now root =
    if io make_root
    then (new_store root, some io_failure)
    else load_all io (new_store root) if_ok open_log codec (with_defaults opts) now root
