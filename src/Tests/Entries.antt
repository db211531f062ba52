-- ===== src/Tests/Entries.antt =====
-- entry.go, stream_index.go and bloom.go on fixed inputs.
use marchilogs.Base.{
  Bytes, IsMap, List, Map, [], arith, bad_partition, bytes_eq, bytes_lt, codes, cut_from, decimal,
  digits_value, err, has_prefix, has_substring, if◌then◌else◌, insert, insert_sorted, is_empty,
  join, keys, lookup, map, mem_bytes, none, not, ok, pos, refl, some, sort_strings, split_from,
  true, zero_padded, ◌&&◌, ◌∷◌, ◌≡◌, ◌≤ℤ◌,
}
use marchilogs.Bloom.{
  block_might_contain_msg, build_msg_bloom, byte_trigrams, count_trigrams, marshal, unmarshal_bloom,
}
use marchilogs.Bloom.Codec.{block_might_contain_msg_sound, unmarshal-marshal}
use marchilogs.Calendar.{
  Time, calendar_month, date_of, date_of_day, day_end, day_of_year, days_in, is_leap, march_day,
  march_month, parse_partition_name, partition_name,
}
use marchilogs.Calendar.Partition.{parse-partition_name}
use marchilogs.Entry.{Entry, field_of, normalize, stream_id, stream_parts}
use marchilogs.Entry.Normalize.{normalize_idem}
use marchilogs.Tags.{
  StreamFlushInfo, add_tags, build_part_meta, match_stream_ids, parse_stream_tags,
  stream_matches_tags,
}
use marchilogs.Tags.Match.{match_stream_ids-eq-scan}
use marchilogs.Tags.RoundTrip.{parse_stream_tags-stream_id}

abbrev stream_fields : List Bytes
stream_fields = codes "service" ∷ codes "host" ∷ []

abbrev api_fields : Map Bytes
api_fields =
    (codes "service", codes "api")
    ∷ (codes "_msg", codes "hello")
    ∷ (codes "_time", codes "now")
    ∷ []

-- 2025-02-19 21:20:00 UTC.
abbrev noon : Time
noon = pos 1_740_000_000_000_000_000

abbrev api_entry : Entry
api_entry = record { time = noon; fields = api_fields }

stream_id_test : stream_id stream_fields api_fields ≡ codes "service=api"
unfolding stream_id stream_parts sort_strings insert_sorted join lookup bytes_eq bytes_lt
stream_id_test = refl

partition_name_test : partition_name noon ≡ codes "20250219"
unfolding partition_name date_of zero_padded decimal date_of_day calendar_month march_month
    day_of_year march_day
partition_name_test = refl

parse_partition_name_test : parse_partition_name (codes "20250229") ≡ err bad_partition
unfolding parse_partition_name digits_value days_in is_leap
parse_partition_name_test = refl

parse_stream_tags_test :
    parse_stream_tags (codes "host=h1,service=api")
    ≡ (codes "host", codes "h1") ∷ (codes "service", codes "api") ∷ []
unfolding parse_stream_tags add_tags split_from cut_from insert bytes_eq
parse_stream_tags_test = refl

api_fields-IsMap : IsMap api_fields
unfolding mem_bytes bytes_eq
api_fields-IsMap = (refl, (refl, (refl, tt)))

parse-partition_name_example :
    (day : Time) × (parse_partition_name (partition_name noon) ≡ ok day)
    × (day ≤ℤ noon)
    × (noon ≤ℤ day_end day)
parse-partition_name_example = parse-partition_name noon (omega arith, omega arith)

normalize_idem_example :
    ((normalize stream_fields (pos 9) (normalize stream_fields (pos 7) api_entry)).time
      ≡ (normalize stream_fields (pos 7) api_entry).time)
    × ((k : Bytes)
        → lookup k
            (normalize stream_fields (pos 9) (normalize stream_fields (pos 7) api_entry)).fields
          ≡ lookup k (normalize stream_fields (pos 7) api_entry).fields)
normalize_idem_example =
    normalize_idem stream_fields (pos 7) (pos 9) api_entry api_fields-IsMap refl

parse_stream_tags-stream_id_example :
    lookup (codes "service") (parse_stream_tags (stream_id stream_fields api_fields)) ≡ (
      if mem_bytes (codes "service") stream_fields
        && not (is_empty (field_of (codes "service") api_fields))
      then some (field_of (codes "service") api_fields)
      else none)
unfolding lookup bytes_eq
parse_stream_tags-stream_id_example =
    parse_stream_tags-stream_id stream_fields api_fields (codes "service") refl

abbrev api_streams : List StreamFlushInfo
api_streams =
    record { id = codes "host=h1,service=api"; time_min_ns = pos 5; time_max_ns = pos 9; rows = 2 }
    ∷ record { id = codes "service=db"; time_min_ns = pos 1; time_max_ns = pos 2; rows = 1 }
    ∷ []

abbrev api_query : Map Bytes
api_query = (codes "service", codes "api") ∷ []

match_stream_ids-eq-scan_example :
    mem_bytes
      (codes "host=h1,service=api")
      (keys (match_stream_ids (build_part_meta api_streams (pos 1) (pos 9)) api_query))
    ≡ (mem_bytes (codes "host=h1,service=api") (map (λ (i : StreamFlushInfo). i.id) api_streams)
        && stream_matches_tags (codes "host=h1,service=api") api_query)
match_stream_ids-eq-scan_example =
    match_stream_ids-eq-scan api_streams (pos 1) (pos 9) api_query (codes "host=h1,service=api")
      refl

abbrev messages : List Bytes
messages = codes "connection refused" ∷ codes "ok" ∷ []

unmarshal-marshal_example : unmarshal_bloom (marshal (5 ∷ 7 ∷ [])) ≡ ok (5 ∷ 7 ∷ [])
unmarshal-marshal_example =
    unmarshal-marshal (5 ∷ 7 ∷ []) (omega arith) (omega arith) (omega arith, (omega arith, tt))

block_might_contain_msg_sound_example :
    (block_might_contain_msg (some (marshal (build_msg_bloom messages))) (codes "refuse") ≡ true)
    × (block_might_contain_msg none (codes "refuse") ≡ true)
unfolding mem_bytes bytes_eq has_substring has_prefix count_trigrams byte_trigrams
block_might_contain_msg_sound_example =
    block_might_contain_msg_sound messages (codes "connection refused") (codes "refuse")
      (omega arith) refl refl
