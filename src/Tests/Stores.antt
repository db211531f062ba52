-- ===== src/Tests/Stores.antt =====
-- storage.go on fixed inputs: a store of one row, its flush, and its search.
use marchilogs.Base.{
  All, Bytes, IsMap, List, Map, [], arith, bytes_eq, codes, cut_from, decimal, digits_value, false,
  has_prefix, has_substring, insert, insert_sorted, length, lookup, mem_bytes, none, ok, pos, refl,
  set_of, some, sort_strings, split_from, true, zero_padded, ◌∷◌, ◌≡◌, ◌≤◌, remove, put_le, keys,
  ◌⊎◌, take, ◌==◌,
}
use marchilogs.Block.{
  MemBlock, add_values, add_with_seq, new_mem_block, overlaps, pad_missing, row, row_fields, rows,
}
use marchilogs.Block.Rows.{IsBlock, add_with_seq-IsBlock, new_mem_block-IsBlock}
use marchilogs.Bloom.{byte_trigrams, count_trigrams}
use marchilogs.Calendar.{
  Time, calendar_month, date_of, date_of_day, day_number, day_of_year, days_in, is_leap, march_day,
  march_month, midnight, parse_partition_name, partition_name, year_of_era,
}
use marchilogs.Deletes.{
  deletes_overlapping_query, entry_hidden_by_deletes, partition_overlaps_query,
}
use marchilogs.Engine.{
  append_normalized, append_rows, apply_locked, flush, flush_if_full, flush_partitions, log_entries,
  write_fails, written_bytes,
}
use marchilogs.Engine.Empties.{flush-Empties}
use marchilogs.Engine.NoLoss.{Reachable, after, append_step, opened}
use marchilogs.Entry.{Entry, zero_time}
use marchilogs.Flush.{
  Io, add_part, flush_items, flush_partition, insert_item, metas_of, part_of, sort_items,
  write_meta, remove_items, blocks_of, write_log,
}
use marchilogs.Flush.Errors.{IsUndone, flush_partition-IsUndone}
use marchilogs.Parts.{add_parts_to_index_db}
use marchilogs.Search.{
  Found, Query, no_stats, rows_from, scan_row, scan_rows, search_buffer, search_buffers,
  search_part, search_store, search_with_stats,
}
use marchilogs.Search.Buffers.{AreBuffers, buffers_answer, search_buffers-answer}
use marchilogs.Search.Flows.{Adds}
use marchilogs.Search.FlushedPart.{AreBlocks}
use marchilogs.Search.Limits.{search_store-length}
use marchilogs.Search.PartAnswer.{AddsCount, count_wanted, search_part-answer}
use marchilogs.Store.{Store, buf_key}
use marchilogs.Tags.{
  add_tags, build_part_meta, index_streams, index_tags, parse_stream_tags, safe_stream_dir,
  sort_ids, stream_matches_tags, tags_match, time_range_overlaps,
}
use marchilogs.Tests.Log.{at_epoch, number_codec, numbered}
use marchilogs.Wal.{Wal, append_entries, read_checkpoint, frame, crc32, crc_bits, crc_bytes}
use marchilogs.Flush.Kept.{HasPart, flush_partition-ReadsBack}

abbrev pub all_fine : Io
all_fine call = false

abbrev empty_log : Wal
empty_log = record { log = []; next_seq = 1; checkpoint = 0; checkpoint_file = none }

abbrev pub empty_store : Store
empty_store = record {
  buffers = [];
  part_seq = [];
  wal = some empty_log;
  manifests = [];
  catalogs = [];
  tombstones = record { deletes = []; delete_seq = [] };
  disk = [];
}

abbrev pub stored : Store
stored = (append_normalized all_fine number_codec 4 (at_epoch ∷ []) empty_store).0

abbrev pub appended_log : Wal
appended_log = (append_entries number_codec (at_epoch ∷ []) empty_log).0

pub stored_wal : stored.wal ≡ some appended_log
unfolding append_normalized append_entries log_entries write_fails frame put_le append_rows
    apply_locked flush_if_full add_with_seq insert lookup bytes_eq partition_name date_of
    date_of_day march_month march_day day_of_year calendar_month year_of_era zero_padded decimal
stored_wal = refl

pub stored-Reachable : Reachable number_codec stored
unfolding read_checkpoint write_fails frame put_le
stored-Reachable =
    after empty_store stored
      (opened empty_store empty_log refl refl refl refl (omega arith) (omega arith))
      (append_step all_fine 4 at_epoch empty_store empty_log refl (omega arith) (refl, omega arith)
        refl)

-- The write of a record stops at its byte 12.
abbrev torn_io : Io
torn_io (write_log n k) = k == 12
torn_io other = false

log_entries_test :
    log_entries torn_io number_codec (at_epoch ∷ []) empty_log
    ≡ (record empty_log { log = take 12 (frame number_codec (numbered 1)); next_seq = 2 }, true)
unfolding log_entries write_fails written_bytes frame put_le crc32 crc_bytes crc_bits
log_entries_test = refl

-- A store of one buffered row, without a log.
abbrev pub evening : Time
evening = pos 1_740_000_000_000_000_000

abbrev pub day_name : Bytes
day_name = codes "20250219"

abbrev hello_row : Entry
hello_row = record { time = evening; fields = (codes "_msg", codes "hello") ∷ [] }

abbrev pub hello_block : MemBlock
hello_block = record {
  stream = codes "host=h1";
  times = evening ∷ [];
  seqs = 0 ∷ [];
  fields = (codes "_msg", codes "hello" ∷ []) ∷ [];
  time_min = evening;
  time_max = evening;
}

abbrev hello_key : Bytes
hello_key = buf_key day_name (codes "host=h1")

abbrev hello_buffers : Map MemBlock
hello_buffers = (hello_key, hello_block) ∷ []

abbrev pub hello_store : Store
hello_store = record empty_store { wal = none; buffers = hello_buffers }

hello_flush : (flush all_fine number_codec hello_store).1 ≡ none
unfolding flush flush_partitions flush_partition flush_items sort_items insert_item has_prefix
    add_part mem_bytes lookup insert bytes_eq set_of cut_from zero_padded decimal
    add_parts_to_index_db metas_of sort_strings remove
hello_flush = refl

flush-Empties_example :
    All
      (λ (item : Bytes × MemBlock). rows item.1 ≡ 0)
      (flush all_fine number_codec hello_store).0.buffers
flush-Empties_example =
    flush-Empties all_fine number_codec hello_store ((day_name, codes "host=h1", refl, refl), tt)
      hello_flush

-- The write of the metadata fails.
abbrev meta_fails : Io
meta_fails write_meta = true
meta_fails other = false

flush_partition-IsUndone_example :
    IsUndone meta_fails day_name hello_store
      (flush_partition meta_fails number_codec day_name hello_store)
unfolding flush_items sort_items insert_item has_prefix
flush_partition-IsUndone_example =
    flush_partition-IsUndone meta_fails number_codec day_name hello_store refl refl

abbrev pub hello_query : Query
hello_query = record {
  start = evening;
  end = zero_time;
  stream_eq = (codes "host", codes "h1") ∷ [];
  contains = codes "ell";
  limit = 0;
}

abbrev pub nothing_found : Found
nothing_found = record { out = []; stats = no_stats }

hello_block-IsBlock : IsBlock hello_block
unfolding add_with_seq add_values pad_missing insert lookup bytes_eq
hello_block-IsBlock =
    add_with_seq-IsBlock (new_mem_block (codes "host=h1")) hello_row 0
      (new_mem_block-IsBlock (codes "host=h1")) hello_fields
  where
    hello_fields : IsMap hello_row.fields
    hello_fields = unfold mem_bytes in (refl, tt)

hello-AreBuffers : AreBuffers hello_buffers
unfolding parse_partition_name digits_value days_in is_leap day_number midnight cut_from
hello-AreBuffers = (
  record {
    block = hello_block-IsBlock;
    day = pos 1_739_923_200_000_000_000;
    names_day = refl;
    in_day = omega arith;
  },
  tt,
)

search_buffers-answer_example :
    Adds
      (search_buffers hello_query
        (deletes_overlapping_query evening zero_time [])
        hello_buffers
        nothing_found)
      []
      (buffers_answer hello_query [] hello_buffers)
search_buffers-answer_example =
    search_buffers-answer hello_query [] hello_buffers nothing_found refl tt hello-AreBuffers

pub hello-AreBlocks : AreBlocks (hello_block ∷ [])
unfolding mem_bytes bytes_eq safe_stream_dir count_trigrams byte_trigrams lookup
hello-AreBlocks = record {
  some_block = refl;
  streams_differ = (refl, tt);
  paths_differ = (refl, tt);
  writable = (
    record {
      block = hello_block-IsBlock;
      files = (refl, (refl, tt));
      fit = ((omega arith, (omega arith, tt)), tt);
      few = omega arith;
      int64 = ((omega arith, omega arith), tt);
      few_trigrams = omega arith;
    },
    tt,
  );
}

search_part-answer_example :
    AddsCount
      (λ e. true)
      (search_part hello_query [] (part_of (hello_block ∷ [])) nothing_found)
      0
      (count_wanted (λ e. true) hello_query [] (hello_block ∷ []))
unfolding build_part_meta index_streams index_tags sort_ids parse_stream_tags add_tags split_from
    cut_from insert lookup bytes_eq sort_strings insert_sorted
search_part-answer_example =
    search_part-answer (λ e. true) hello_query [] (hello_block ∷ []) nothing_found refl refl
      hello-AreBlocks refl

flush_partition-ReadsBack_example :
    let s' = (flush_partition all_fine number_codec day_name hello_store).0 in
    let items = flush_items day_name hello_buffers in
    (s'.buffers ≡ hello_buffers)
    ⊎ (HasPart day_name (blocks_of items) s'
        × (s'.buffers ≡ remove_items (keys items) hello_buffers))
unfolding flush_items sort_items insert_item has_prefix
flush_partition-ReadsBack_example =
    flush_partition-ReadsBack all_fine number_codec day_name hello_store hello-AreBlocks

abbrev one_row : Query
one_row = record hello_query { limit = 1 }

abbrev hello_found : List Entry
hello_found = row hello_block 0 ∷ []

found_hello : search_store one_row hello_store ≡ ok hello_found
unfolding search_with_stats search_buffers search_buffer scan_rows scan_row rows_from row
    deletes_overlapping_query partition_overlaps_query parse_partition_name digits_value days_in
    is_leap day_number midnight cut_from stream_matches_tags tags_match parse_stream_tags add_tags
    split_from insert lookup bytes_eq overlaps time_range_overlaps has_substring has_prefix
    row_fields entry_hidden_by_deletes
found_hello = refl

search_store-length_example : length hello_found ≤ 1
search_store-length_example =
    search_store-length one_row hello_store hello_found (omega arith) found_hello
