-- ===== src/Tests/Requests.antt =====
-- cmd/marchilogs/main.go on fixed requests.
use marchilogs.Base.{
  All, Bytes, List, [], arith, bytes_eq, codes, cut_from, decimal, digits_value, false, has_prefix,
  has_substring, insert, length, lookup, mem_bytes, none, ok, pos, refl, set_of, sort_strings,
  split_from, true, zero_padded, ◌∷◌, ◌≡◌, ◌≤◌, remove, inl,
}
use marchilogs.Block.{MemBlock, add_with_seq, overlaps, row, row_fields, rows}
use marchilogs.Calendar.{
  calendar_month, date_of, date_of_day, day_number, day_of_year, days_in, is_leap, march_day,
  march_month, midnight, parse_partition_name, partition_name, year_of_era,
}
use marchilogs.Deletes.{
  deletes_overlapping_query, entry_hidden_by_deletes, partition_overlaps_query,
}
use marchilogs.Engine.{
  append, append_normalized, append_rows, apply_locked, flush, flush_if_full, flush_partitions,
}
use marchilogs.Entry.{Entry, copy_fields, normalize, stream_id, stream_parts, zero_time}
use marchilogs.Flush.{add_part, flush_items, flush_partition, insert_item, metas_of, sort_items}
use marchilogs.Options.{Options}
use marchilogs.Parts.{add_parts_to_index_db}
use marchilogs.Requests.{
  Request, TimeParser, array_body, array_entries, decode_entries, get_method, map_entry, no_body,
  parse_time_param, post_method, stream_params, string_value, trim_left, trim_right, want_truthy,
}
use marchilogs.Search.{
  Query, QueryStats, list_published_parts, prune_parts, rows_from, scan_row, scan_rows,
  search_buffer, search_buffers, search_days, search_disk, search_with_stats,
}
use marchilogs.Server.{handle_insert, handle_query, reply_inserted, reply_rows}
use marchilogs.Server.Replies.{handle_insert-flushes, handle_query-length}
use marchilogs.Store.{Store}
use marchilogs.Tags.{
  add_tags, parse_stream_tags, stream_matches_tags, tags_match, time_range_overlaps,
}
use marchilogs.Tests.Log.{number_codec}
use marchilogs.Tests.Openings.{no_options}
use marchilogs.Tests.Stores.{all_fine, empty_store, evening, hello_block, hello_query, hello_store}

abbrev no_times : TimeParser
no_times = record { parse_nano = λ s. none; parse_rfc3339 = λ s. none }

abbrev row_request : Request
row_request = record {
  method = post_method;
  params = (codes "flush", codes " Yes") ∷ [];
  body = array_body (ok (((codes "_msg", string_value (codes "hello")) ∷ []) ∷ []));
}

abbrev blank_store : Store
blank_store = record empty_store { wal = none }

abbrev row_options : Options
row_options = record no_options { max_rows_per_block = pos 1024 }

row_reply :
    (handle_insert all_fine number_codec row_options no_times evening row_request blank_store).1
    ≡ reply_inserted 1 true
unfolding handle_insert decode_entries array_entries map_entry parse_time_param trim_left trim_right
    want_truthy append append_normalized append_rows apply_locked flush_if_full flush
    flush_partitions flush_partition flush_items sort_items insert_item has_prefix add_part
    mem_bytes lookup insert remove bytes_eq set_of cut_from zero_padded decimal
    add_parts_to_index_db metas_of sort_strings partition_name date_of date_of_day calendar_month
    march_month day_of_year march_day year_of_era add_with_seq normalize copy_fields stream_id
    stream_parts
row_reply = refl

handle_insert-flushes_example :
    All
      (λ (item : Bytes × MemBlock). rows item.1 ≡ 0)
      (handle_insert all_fine number_codec row_options no_times evening row_request
        blank_store).0.buffers
handle_insert-flushes_example =
    handle_insert-flushes all_fine number_codec row_options no_times evening row_request blank_store
      1 tt row_reply

abbrev hello_request : Request
hello_request = record {
  method = get_method;
  params = (codes "host", codes "h1") ∷ [];
  body = no_body;
}

abbrev found_rows : List Entry
found_rows = row hello_block 0 ∷ []

abbrev all_query : Query
all_query = record hello_query { start = zero_time; contains = []; limit = 100 }

abbrev all_stats : QueryStats
all_stats = (search_with_stats all_query hello_store).1

hello_reply :
    handle_query no_times (codes "host" ∷ []) hello_request hello_store
    ≡ reply_rows found_rows all_stats false
unfolding search_with_stats search_buffers search_buffer scan_rows scan_row rows_from row
    deletes_overlapping_query partition_overlaps_query parse_partition_name digits_value days_in
    is_leap day_number midnight cut_from stream_matches_tags tags_match parse_stream_tags add_tags
    split_from insert lookup bytes_eq overlaps time_range_overlaps has_substring has_prefix
    row_fields entry_hidden_by_deletes handle_query parse_time_param trim_left trim_right
    stream_params want_truthy mem_bytes search_disk search_days prune_parts list_published_parts
    sort_strings
hello_reply = refl

handle_query-length_example : length found_rows ≤ 100
unfolding lookup bytes_eq
handle_query-length_example =
    handle_query-length no_times (codes "host" ∷ []) hello_request hello_store 100 found_rows
      all_stats false (inl (refl, refl)) (omega arith) hello_reply
