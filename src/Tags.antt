-- ===== src/Tags.antt =====
-- stream_index.go: the tags of a stream, the metadata of a part, and the pruning of streams and
-- blocks by tags and by time.
pub mod Names
pub mod Candidates
pub mod Match
pub mod RoundTrip
use Prim.Native.Nat.{ℕ}
use marchilogs.Base.{
  ◌==◌, if◌then◌else◌, keep_if, any, ℤ, ltb_ℤ, split, cut, sort_strings, Bytes, codes, is_empty,
  bytes_eq, mem_bytes, Map, lookup, insert, set_of, Bool, true, false, not, ◌&&◌, ◌||◌, Option,
  none, some, List, [], ◌∷◌, ◌++◌, map,
}
use marchilogs.Calendar.{Time}
use marchilogs.Entry.{default_stream, field_of, is_zero}

-- `blockRef`
pub record BlockRef : Type 0 where
  pub path : Bytes
  pub time_min_ns : ℤ
  pub time_max_ns : ℤ
  pub rows : ℕ

-- `streamMeta`; the tags of an old part may be nil.
pub record StreamMeta : Type 0 where
  pub id : Bytes
  pub dir : Bytes
  pub tags : Option (Map Bytes)
  pub blocks : List BlockRef

-- `partMeta`
pub record PartMeta : Type 0 where
  pub tier : Bytes
  pub time_min_ns : ℤ
  pub time_max_ns : ℤ
  pub streams : List StreamMeta
  pub by_tag : Map (List Bytes)

-- `streamFlushInfo`
pub record StreamFlushInfo : Type 0 where
  pub id : Bytes
  pub time_min_ns : ℤ
  pub time_max_ns : ℤ
  pub rows : ℕ

abbrev pub tier_small : Bytes
tier_small = codes "small"

abbrev pub tier_big : Bytes
tier_big = codes "big"

-- The body of the loop of `ParseStreamTags`.
abbrev pub add_tag : Option (Bytes × Bytes) → Map Bytes → Map Bytes
add_tag none tags = tags
add_tag (some (k, v)) tags = if is_empty k then tags else insert k v tags

unfoldable pub add_tags : List Bytes → Map Bytes → Map Bytes
add_tags [] tags = tags
add_tags (part ∷ parts) tags = add_tags parts (add_tag (cut b'=' part) tags)

-- `ParseStreamTags`
unfoldable pub parse_stream_tags : Bytes → Map Bytes
parse_stream_tags stream =
    if is_empty stream || bytes_eq stream default_stream
    then []
    else add_tags (split b',' stream) []

-- `tagKey`
abbrev pub tag_key : Bytes → Bytes → Bytes
tag_key field value = field ++ b'=' ∷ value

-- `streamMatchesTags`. A range over an empty map makes no round, so the guard on an empty query
-- needs no clause of its own.
unfoldable pub tags_match : Map Bytes → Map Bytes → Bool
tags_match tags [] = true
tags_match tags ((k, v) ∷ q) = (is_empty v || bytes_eq (field_of k tags) v) && tags_match tags q

unfoldable pub stream_matches_tags : Bytes → Map Bytes → Bool
stream_matches_tags stream stream_eq = tags_match (parse_stream_tags stream) stream_eq

-- The ids that an index holds for a tag: `m[k]` of a `map[string][]string`.
abbrev pub ids_at : Bytes → Map (List Bytes) → List Bytes
ids_at k m = elim (lookup k m) [ none ↦ [] | some ids ↦ ids ]

-- `meta.ByTag[tk] = append(meta.ByTag[tk], id)`
abbrev pub append_id : Bytes → Bytes → Map (List Bytes) → Map (List Bytes)
append_id tk id m = insert tk (ids_at tk m ++ id ∷ []) m

unfoldable pub index_tags : Bytes → Map Bytes → Map (List Bytes) → Map (List Bytes)
index_tags id [] m = m
index_tags id ((k, v) ∷ tags) m = index_tags id tags (append_id (tag_key k v) id m)

unfoldable pub sort_ids : Map (List Bytes) → Map (List Bytes)
sort_ids [] = []
sort_ids ((k, ids) ∷ m) = (k, sort_strings ids) ∷ sort_ids m

-- `safeStreamDir` (block.go): path separators and their like become `_`.
abbrev pub is_unsafe : ℕ → Bool
is_unsafe c = any (λ d. c == d) (codes "/\\:<>|?*\"")

unfoldable pub safe_stream_dir : Bytes → Bytes
safe_stream_dir [] = default_stream
safe_stream_dir (c ∷ s) = map (λ d. if is_unsafe d then b'_' else d) (c ∷ s)

-- `filepath.Join("blocks", dir)`, for a `dir` without a separator.
abbrev pub blocks_dir : Bytes → Bytes
blocks_dir dir =
    if bytes_eq dir (codes ".")
    then codes "blocks"
    else if bytes_eq dir (codes "..")
    then codes "."
    else codes "blocks/" ++ dir

abbrev pub stream_meta_of : StreamFlushInfo → StreamMeta
stream_meta_of info = record {
  id = info.id;
  dir = safe_stream_dir info.id;
  tags = some (parse_stream_tags info.id);
  blocks =
      record {
        path = blocks_dir (safe_stream_dir info.id);
        time_min_ns = info.time_min_ns;
        time_max_ns = info.time_max_ns;
        rows = info.rows;
      }
      ∷ [];
}

unfoldable pub index_streams : List StreamFlushInfo → Map (List Bytes) → Map (List Bytes)
unfolding index_tags
index_streams [] m = m
index_streams (info ∷ infos) m =
    index_streams infos (index_tags info.id (parse_stream_tags info.id) m)

-- `buildPartMeta`
unfoldable pub build_part_meta : List StreamFlushInfo → ℤ → ℤ → PartMeta
build_part_meta infos t_min t_max = record {
  tier = tier_small;
  time_min_ns = t_min;
  time_max_ns = t_max;
  streams = map stream_meta_of infos;
  by_tag = sort_ids (index_streams infos []);
}

-- The loop over the query that `matchStreamIDs` and `partsMatchingStreamEq` (indexdb.go) share:
-- `none` is `first`, before any tag was looked up.
abbrev pub narrow : Option (List Bytes) → List Bytes → Option (List Bytes)
narrow none ids = some (set_of ids)
narrow (some candidates) ids = some (keep_if (λ id. mem_bytes id (set_of ids)) candidates)

unfoldable pub candidates_of :
    Map (List Bytes) → Map Bytes → Option (List Bytes) → Option (List Bytes)
candidates_of by_tag [] c = c
candidates_of by_tag ((k, v) ∷ q) c =
    candidates_of by_tag q (if is_empty v then c else narrow c (ids_at (tag_key k v) by_tag))

unfoldable pub streams_by_id : List StreamMeta → Map StreamMeta → Map StreamMeta
streams_by_id [] m = m
streams_by_id (s ∷ ss) m = streams_by_id ss (insert s.id s m)

unfoldable pub select_streams : List Bytes → Map StreamMeta → Map StreamMeta → Map StreamMeta
select_streams [] by_id out = out
select_streams (id ∷ ids) by_id out =
    select_streams ids by_id (elim (lookup id by_id) [ none ↦ out | some sm ↦ insert id sm out ])

-- `matchStreamIDs`; an empty query leaves `first` set, and so does one with empty values only.
unfoldable pub match_stream_ids : PartMeta → Map Bytes → Map StreamMeta
match_stream_ids meta stream_eq =
    let by_id = streams_by_id meta.streams [] in
    elim (candidates_of meta.by_tag stream_eq none) [
      | none ↦ by_id
      | some ids ↦ select_streams ids by_id []
    ]

-- `timeRangeOverlaps`: the block's range is in nanoseconds of the epoch.
unfoldable pub time_range_overlaps : Time → Time → ℤ → ℤ → Bool
time_range_overlaps start end min_ns max_ns =
    if not (is_zero end) && ltb_ℤ end min_ns
    then false
    else if not (is_zero start) && ltb_ℤ max_ns start
    then false
    else true

-- `filterBlockRefs`
unfoldable pub filter_block_refs : List BlockRef → Time → Time → List BlockRef
filter_block_refs refs start end =
    if is_zero start && is_zero end
    then refs
    else keep_if (λ (r : BlockRef). time_range_overlaps start end r.time_min_ns r.time_max_ns) refs
