-- ===== src/Tests/Days.antt =====
-- manifest.go, indexdb.go and delete.go on fixed inputs.
use marchilogs.Base.{
  Bytes, Map, [], add_to_set, arith, atoi, bytes_eq, codes, cut_from, decimal, digits_value, false,
  has_prefix, has_substring, insert, insert_sorted, lookup, mem_bytes, none, ok, pos, refl, set_of,
  some, sort_strings, split_from, true, zero_padded, ◌*◌, ◌+ℤ◌, ◌+◌, ◌-ℤ◌, ◌∷◌, ◌≡◌,
}
use marchilogs.Block.{add_entry, new_mem_block}
use marchilogs.Calendar.{
  Time, day_ns, day_number, days_in, is_leap, midnight, parse_partition_name, partition_name,
}
use marchilogs.Deletes.{
  DeleteRecord, DeleteSpec, Tombstones, add_days, add_tombstones, days_for_delete, delete,
  delete_spec_hides, deletes_at, entry_hidden_by_deletes, hides_entry, may_hide_block,
  partition_overlaps_query, purge_buffers, record_of_spec,
}
use marchilogs.Deletes.Days.{delete-hides, delete-keeps}
use marchilogs.Deletes.Hiding.{all_hidden, all_rows, may_hide_block_sound, purge_buffers-count}
use marchilogs.Entry.{Entry, zero_time}
use marchilogs.Parts.{
  Day, add_part_to_index_db, add_part_to_manifest, add_parts_to_index_db, catalog_tags, dedupe,
  is_published_part_dir, part_tag_keys, parts_matching_stream_eq, rebuild_day_index_db,
  replace_manifest_parts,
}
use marchilogs.Parts.Prune.{parts_matching_stream_eq_complete}
use marchilogs.Retention.{Days, apply_retention_at, is_expired}
use marchilogs.Retention.Drop.{apply_retention_at_keeps}
use marchilogs.Tags.{
  PartMeta, StreamFlushInfo, add_tags, build_part_meta, candidates_of, index_streams, index_tags,
  match_stream_ids, parse_stream_tags, select_streams, sort_ids, stream_matches_tags, streams_by_id,
  tags_match,
}
use marchilogs.Calendar.Partition.{InCalendar}

abbrev part_1 : Bytes
part_1 = codes "000001"

abbrev api_stream : StreamFlushInfo
api_stream = record { id = codes "service=api"; time_min_ns = pos 5; time_max_ns = pos 9; rows = 2 }

abbrev api_meta : PartMeta
api_meta = build_part_meta (api_stream ∷ []) (pos 5) (pos 9)

abbrev metas : Map PartMeta
metas = (part_1, api_meta) ∷ []

abbrev one_part : Day
one_part = record { parts = part_1 ∷ []; catalog = none }

abbrev no_parts : Day
no_parts = record { parts = []; catalog = none }

abbrev catalogued : Day
catalogued = record {
  parts = part_1 ∷ [];
  catalog = some ((codes "service=api", part_1 ∷ []) ∷ []);
}

is_published_part_dir_test :
    (is_published_part_dir part_1 ≡ true)
    × (is_published_part_dir (codes ".publishing-000002") ≡ false)
unfolding is_published_part_dir has_prefix atoi digits_value
is_published_part_dir_test = (refl, refl)

rebuilt : rebuild_day_index_db metas one_part ≡ ok catalogued
unfolding rebuild_day_index_db add_parts_to_index_db lookup bytes_eq add_part_to_index_db
    part_tag_keys catalog_tags mem_bytes build_part_meta index_streams index_tags sort_ids
    parse_stream_tags add_tags split_from cut_from insert sort_strings insert_sorted
rebuilt = refl

parts_matching_stream_eq_complete_example :
    mem_bytes part_1 (
      parts_matching_stream_eq catalogued.catalog catalogued.parts
        ((codes "service", codes "api") ∷ []))
    ≡ true
unfolding lookup bytes_eq mem_bytes match_stream_ids candidates_of streams_by_id select_streams
    build_part_meta index_streams index_tags sort_ids parse_stream_tags add_tags split_from cut_from
    insert sort_strings insert_sorted set_of add_to_set
parts_matching_stream_eq_complete_example =
    parts_matching_stream_eq_complete metas one_part catalogued api_meta
      ((codes "service", codes "api") ∷ []) part_1 (codes "service=api") rebuilt refl refl refl

added : add_part_to_manifest metas part_1 no_parts ≡ ok catalogued
unfolding add_part_to_manifest rebuild_day_index_db add_parts_to_index_db lookup bytes_eq
    add_part_to_index_db part_tag_keys catalog_tags mem_bytes build_part_meta index_streams
    index_tags sort_ids parse_stream_tags add_tags split_from cut_from insert sort_strings
    insert_sorted
added = refl

replaced :
    replace_manifest_parts metas
      (codes "000007" ∷ [])
      (part_1 ∷ [])
      (record no_parts { parts = codes "000007" ∷ [] })
    ≡ ok catalogued
unfolding replace_manifest_parts dedupe set_of add_to_set rebuild_day_index_db add_parts_to_index_db
    lookup bytes_eq add_part_to_index_db part_tag_keys catalog_tags mem_bytes build_part_meta
    index_streams index_tags sort_ids parse_stream_tags add_tags split_from cut_from insert
    sort_strings insert_sorted
replaced = refl

-- 2025-02-19 21:20:00 UTC, and the name of its day.
abbrev evening : Time
evening = pos 1_740_000_000_000_000_000

abbrev day_name : Bytes
day_name = codes "20250219"

abbrev api_row : Entry
api_row = record {
  time = evening;
  fields = (codes "_msg", codes "hello") ∷ (codes "_stream", codes "service=api") ∷ [];
}

abbrev pub hello_spec : DeleteSpec
hello_spec = record { start = evening; end = zero_time; stream_eq = []; contains = codes "ell" }

hello_hidden : delete_spec_hides hello_spec api_row ≡ true
unfolding delete_spec_hides hides_entry stream_matches_tags tags_match lookup bytes_eq has_substring
    has_prefix
hello_hidden = refl

may_hide_block_sound_example :
    may_hide_block (record_of_spec hello_spec) (codes "service=api") evening evening ≡ true
unfolding lookup bytes_eq delete_spec_hides
may_hide_block_sound_example =
    may_hide_block_sound (record_of_spec hello_spec) api_row evening evening refl (omega arith)
      (omega arith) hello_hidden

abbrev no_tombstones : Tombstones
no_tombstones = record { deletes = []; delete_seq = [] }

abbrev hello_record : DeleteRecord
hello_record = record (record_of_spec hello_spec) { id = codes "d-000001"; created_ns = pos 3 }

abbrev hello_tombstones : Tombstones
hello_tombstones = record {
  deletes = (day_name, hello_record ∷ []) ∷ [];
  delete_seq = (day_name, 1) ∷ [];
}

overlaps_day : partition_overlaps_query day_name evening zero_time ≡ true
unfolding partition_overlaps_query parse_partition_name digits_value days_in is_leap day_number
    midnight
overlaps_day = refl

deleted :
    delete (pos 3) (day_name ∷ []) [] hello_spec [] no_tombstones ≡ ok ([], hello_tombstones, 0)
unfolding delete purge_buffers days_for_delete add_days add_tombstones mem_bytes
    partition_overlaps_query parse_partition_name digits_value days_in is_leap day_number midnight
    sort_strings insert_sorted insert lookup zero_padded decimal
deleted = refl

delete-hides_example : entry_hidden_by_deletes api_row (hello_record ∷ []) ≡ true
unfolding lookup bytes_eq mem_bytes
delete-hides_example =
    delete-hides (pos 3) (day_name ∷ []) [] hello_spec [] [] no_tombstones hello_tombstones 0
      api_row day_name deleted refl overlaps_day hello_hidden

-- Another deletion of the same text, which finds the first one's tombstone.
abbrev again : DeleteSpec
again = record hello_spec { contains = codes "hello" }

abbrev two_tombstones : Tombstones
two_tombstones = record {
  deletes =
      (
        day_name,
        hello_record
            ∷ record (record_of_spec again) { id = codes "d-000002"; created_ns = pos 4 }
            ∷ [],
      )
      ∷ [];
  delete_seq = (day_name, 2) ∷ [];
}

deleted_again :
    delete (pos 4) (day_name ∷ []) [] again [] hello_tombstones ≡ ok ([], two_tombstones, 0)
unfolding delete purge_buffers days_for_delete add_days add_tombstones mem_bytes bytes_eq
    partition_overlaps_query parse_partition_name digits_value days_in is_leap day_number midnight
    sort_strings insert_sorted insert lookup zero_padded decimal
deleted_again = refl

hidden_before : entry_hidden_by_deletes api_row (hello_record ∷ []) ≡ true
unfolding entry_hidden_by_deletes hides_entry stream_matches_tags tags_match lookup bytes_eq
    has_substring has_prefix
hidden_before = refl

delete-keeps_example :
    entry_hidden_by_deletes api_row (deletes_at day_name two_tombstones.deletes) ≡ true
unfolding lookup bytes_eq
delete-keeps_example =
    delete-keeps (pos 4) (day_name ∷ []) [] again [] [] hello_tombstones two_tombstones 0 api_row
      day_name deleted_again hidden_before

purge_buffers-count_example :
    ((purge_buffers hello_spec ((codes "k", add_entry (new_mem_block []) api_row) ∷ [])).1
      ≡ all_hidden hello_spec ((codes "k", add_entry (new_mem_block []) api_row) ∷ []))
    × (all_rows
            (purge_buffers hello_spec ((codes "k", add_entry (new_mem_block []) api_row) ∷ [])).0
          + (purge_buffers hello_spec ((codes "k", add_entry (new_mem_block []) api_row) ∷ [])).1
        ≡ all_rows ((codes "k", add_entry (new_mem_block []) api_row) ∷ []))
purge_buffers-count_example =
    purge_buffers-count hello_spec ((codes "k", add_entry (new_mem_block []) api_row) ∷ [])

abbrev one_day : Days
one_day = record {
  buffers = [];
  manifests = (day_name, part_1 ∷ []) ∷ [];
  catalogs = [];
  tombstones = [];
  delete_seq = [];
  part_seq = (day_name, pos 1) ∷ [];
  on_disk = day_name ∷ [];
}

-- A period of a day, three days later.
abbrev three_days_later : Time
three_days_later = evening +ℤ pos (3 * day_ns)

is_expired_test : is_expired (three_days_later -ℤ pos day_ns) day_name ≡ true
unfolding is_expired parse_partition_name digits_value days_in is_leap day_number midnight
is_expired_test = refl

evening-InCalendar : InCalendar evening
evening-InCalendar = (omega arith, omega arith)

apply_retention_at_keeps_example :
    (lookup
        (partition_name evening)
        (apply_retention_at (pos (4 * day_ns)) three_days_later one_day).0.manifests
      ≡ lookup (partition_name evening) one_day.manifests)
    × (mem_bytes
          (partition_name evening)
          (apply_retention_at (pos (4 * day_ns)) three_days_later one_day).0.on_disk
        ≡ mem_bytes (partition_name evening) one_day.on_disk)
apply_retention_at_keeps_example =
    apply_retention_at_keeps (pos (4 * day_ns)) three_days_later one_day evening refl
      evening-InCalendar (omega arith)
