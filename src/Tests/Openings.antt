-- ===== src/Tests/Openings.antt =====
-- storage.go on fixed inputs: the defaults of the options, and an `Open` of a root with one day.
use marchilogs.Base.{
  [], arith, atoi, bytes_eq, codes, digits_value, false, has_prefix, insert, lookup, mem_bytes,
  negsuc, none, pos, refl, remove, sym, true, ◌+◌, ◌<◌, ◌^◌, ◌∷◌, ◌≡◌,
}
use marchilogs.Calendar.{day_number, days_in, is_leap, midnight, parse_partition_name}
use marchilogs.Deletes.{seq_at}
use marchilogs.Flush.{Outcome, part_of}
use marchilogs.Options.{Options, with_defaults}
use marchilogs.Options.Defaults.{AreInRange, with_defaults-AreInRange}
use marchilogs.Parts.{is_published_part_dir, max_part_id_from}
use marchilogs.Recovery.{
  Root, cleanup_orphan_parts, cleanup_orphan_publishing, ensure_day_index_db, ensure_day_manifest,
  for_each, load_all, load_deletes, load_index_dbs, load_manifests, load_part_seq, new_store,
  open_log, open_store, part_dirs, replay_records, seq_from_dirs, seq_from_manifests,
}
use marchilogs.Recovery.Fresh.{IsNextFresh, open_store-Fresh}
use marchilogs.Recovery.Listed.{KeepsPart, open_store-KeepsPart}
use marchilogs.Recovery.Replay.{files_of}
use marchilogs.Store.{DayDir, Part, Store, day_at, holds, missing}
use marchilogs.Tests.Log.{number_codec}
use marchilogs.Tests.Stores.{all_fine, appended_log, day_name, evening, hello_block, stored}
use marchilogs.Wal.{
  for_each_record, max_seq, open_wal, read_checkpoint, records_within, replay_after_checkpoint,
}
use mathlib.Core.Path.{subst}

abbrev pub no_options : Options
no_options = record {
  stream_fields = [];
  max_rows_per_block = pos 0;
  flush_interval = pos 1;
  enable_wal = true;
  wal_sync = none;
  merge_min_parts = negsuc 0;
  merge_max_parts_per_job = pos 0;
  merge_check_interval = pos 0;
  merge_disable = false;
  retention_period = pos 5;
  retention_check_interval = pos 0;
}

with_defaults-AreInRange_example :
    AreInRange (with_defaults no_options)
    × (with_defaults (with_defaults no_options) ≡ with_defaults no_options)
with_defaults-AreInRange_example = with_defaults-AreInRange no_options

abbrev hello_part : Part
hello_part = part_of (hello_block ∷ [])

-- A day with a part that its manifest lists, one that it does not list, and one that is being written.
abbrev half_day : DayDir
half_day = record {
  parts =
      (codes "000001", hello_part)
      ∷ (codes "000002", hello_part)
      ∷ (codes ".publishing-000003", hello_part)
      ∷ [];
  manifest = holds (codes "000001" ∷ []);
  catalog = holds [];
  deletes = missing;
}

abbrev half_root : Root
half_root = record { partitions = (day_name, half_day) ∷ []; log = []; checkpoint_file = none }

abbrev half_opened : Outcome
half_opened = open_store all_fine number_codec no_options evening half_root

open_store-KeepsPart_example :
    KeepsPart
      (codes "000001")
      (day_at day_name half_root.partitions)
      (day_at day_name half_opened.0.disk)
unfolding lookup mem_bytes bytes_eq has_prefix
open_store-KeepsPart_example =
    open_store-KeepsPart all_fine number_codec no_options evening half_root day_name
      (codes "000001") (codes "000001" ∷ []) refl refl refl

half_opened_test :
    (half_opened.1 ≡ none)
    × (part_dirs day_name half_opened.0 ≡ codes "000001" ∷ [])
    × (seq_at day_name half_opened.0.part_seq ≡ 1)
unfolding open_store load_all cleanup_orphan_publishing load_manifests ensure_day_manifest
    cleanup_orphan_parts load_index_dbs ensure_day_index_db load_deletes load_part_seq
    seq_from_manifests seq_from_dirs open_log replay_records for_each lookup insert remove mem_bytes
    bytes_eq has_prefix is_published_part_dir max_part_id_from atoi digits_value
    parse_partition_name midnight day_number is_leap days_in open_wal read_checkpoint
    for_each_record records_within max_seq replay_after_checkpoint with_defaults
half_opened_test = (refl, refl, refl)

open_store-Fresh_example : IsNextFresh day_name half_opened.0
open_store-Fresh_example =
    open_store-Fresh all_fine number_codec no_options evening half_root day_name half_opened_test.0
      (subst (λ n. n + 1 < 2 ^ 63) (sym half_opened_test.2) (omega arith))

abbrev stored_files : Root
stored_files = files_of stored appended_log

abbrev loaded : Store
loaded = (load_all all_fine (new_store stored_files)).0
