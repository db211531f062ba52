-- ===== src/Tags/Match.antt =====
-- stream_index.go: the index of a part by tags against the scan of the tags.
use marchilogs.Base.{
  if◌then◌else◌, all, ℤ, has_byte, mem_bytes-sort_strings, Bytes, is_empty, bytes_eq, bytes_eq_iff,
  mem_bytes, mem_bytes-append, Map, keys, lookup, IsMap, lookup-insert, ◌≡◌, refl, ap, ◌∙◌, Bool,
  true, false, not, ◌&&◌, ◌||◌, Option, none, some, List, [], ◌∷◌, ◌++◌, map, arith,
}
use marchilogs.Entry.{field_of}
use marchilogs.Tags.{
  StreamMeta, StreamFlushInfo, parse_stream_tags, tag_key, tags_match, stream_matches_tags, ids_at,
  append_id, index_tags, sort_ids, stream_meta_of, index_streams, build_part_meta, candidates_of,
  streams_by_id, select_streams, match_stream_ids,
}
use marchilogs.Tags.Candidates.{
  at_all_tags, is_candidate, is_candidate-candidates_of, mem_by_id, mem_selected,
}
use marchilogs.Tags.Names.{tag_key-eq, are_names, parse_stream_tags_names}

-- A tag among those of a stream.
abbrev pub has_tag : Bytes → Bytes → Map Bytes → Bool
has_tag k v [] = false
has_tag k v ((j, w) ∷ tags) = (bytes_eq j k && bytes_eq w v) || has_tag k v tags

absent_tag : (k v : Bytes) (m : Map Bytes) → mem_bytes k (keys m) ≡ false → has_tag k v m ≡ false
unfolding mem_bytes
absent_tag k v [] h = refl
absent_tag k v ((j, w) ∷ m) h = ground (arith, absent_tag k v m)

-- A tag with a value that is not empty is there just when its field reads so.
has_tag_lookup :
    (k v : Bytes) (tags : Map Bytes)
    → IsMap tags
    → is_empty v ≡ false
    → bytes_eq (field_of k tags) v ≡ has_tag k v tags
unfolding lookup
has_tag_lookup k [] [] d hv = cc
has_tag_lookup k (c ∷ v) [] d hv = unfold bytes_eq in refl
has_tag_lookup k v ((j, w) ∷ tags) d hv =
    ground (arith, has_tag_lookup k v tags d.1 hv, absent_tag k v tags, bytes_eq_iff j k)

ids_at-append_id :
    (id tk tk' : Bytes) (m : Map (List Bytes))
    → ids_at tk (append_id tk' id m)
      ≡ (if bytes_eq tk' tk then ids_at tk m ++ id ∷ [] else ids_at tk m)
ids_at-append_id id tk tk' m =
    ground (arith, lookup-insert tk' tk (ids_at tk' m ++ id ∷ []) m, bytes_eq_iff tk' tk)

pub mem-append_id :
    (a id tk tk' : Bytes) (m : Map (List Bytes))
    → mem_bytes a (ids_at tk (append_id tk' id m))
      ≡ ((bytes_eq tk' tk && bytes_eq id a) || mem_bytes a (ids_at tk m))
mem-append_id a id tk tk' m =
    ground (
      arith,
      ids_at-append_id id tk tk' m,
      mem_bytes-append a (ids_at tk m) (id ∷ []),
      mem_one a id,
    )
  where
    mem_one : (a id : Bytes) → mem_bytes a (id ∷ []) ≡ bytes_eq id a
    mem_one a id = unfold mem_bytes in ground arith

module _ (a k v : Bytes) (hk : has_byte b'=' k ≡ false) where
  mem-index_tags :
      (id : Bytes) (tags : Map Bytes) (m : Map (List Bytes))
      → are_names (keys tags) ≡ true
      → mem_bytes a (ids_at (tag_key k v) (index_tags id tags m))
        ≡ ((bytes_eq id a && has_tag k v tags) || mem_bytes a (ids_at (tag_key k v) m))
  unfolding index_tags
  mem-index_tags id [] m h = ground arith
  mem-index_tags id ((j, w) ∷ tags) m h = ground (
    arith,
    mem-index_tags id tags (append_id (tag_key j w) id m),
    mem-append_id a id (tag_key k v) (tag_key j w) m,
    tag_key-eq j w k v,
    hk,
  )

  -- The streams of a part that have the tag.
  abbrev tagged : List StreamFlushInfo → Bool
  tagged [] = false
  tagged (info ∷ infos) =
      (bytes_eq info.id a && has_tag k v (parse_stream_tags info.id)) || tagged infos

  mem-index_streams :
      (infos : List StreamFlushInfo) (m : Map (List Bytes))
      → mem_bytes a (ids_at (tag_key k v) (index_streams infos m))
        ≡ (tagged infos || mem_bytes a (ids_at (tag_key k v) m))
  unfolding index_streams
  mem-index_streams [] m = ground arith
  mem-index_streams (info ∷ infos) m = ground (
    arith,
    mem-index_streams infos (index_tags info.id (parse_stream_tags info.id) m),
    mem-index_tags info.id (parse_stream_tags info.id) m (parse_stream_tags_names info.id).0,
  )

pub ids_at-sort_ids :
    (tk a : Bytes) (m : Map (List Bytes))
    → mem_bytes a (ids_at tk (sort_ids m)) ≡ mem_bytes a (ids_at tk m)
unfolding sort_ids lookup
ids_at-sort_ids tk a [] = refl
ids_at-sort_ids tk a ((k, ids) ∷ m) =
    ground (arith, ids_at-sort_ids tk a m, mem_bytes-sort_strings a ids)

abbrev info_ids : List StreamFlushInfo → List Bytes
info_ids infos = map (λ (i : StreamFlushInfo). i.id) infos

info_ids-build_part_meta :
    (infos : List StreamFlushInfo)
    → map (λ (s : StreamMeta). s.id) (map stream_meta_of infos) ≡ info_ids infos
info_ids-build_part_meta [] = refl
info_ids-build_part_meta (info ∷ infos) = ap (◌∷◌ info.id) (info_ids-build_part_meta infos)

tagged_lem :
    (a k v : Bytes) (hk : has_byte b'=' k ≡ false) (infos : List StreamFlushInfo)
    → tagged a k v hk infos ≡ (mem_bytes a (info_ids infos) && has_tag k v (parse_stream_tags a))
unfolding mem_bytes
tagged_lem a k v hk [] = refl
tagged_lem a k v hk (info ∷ infos) =
    ground (arith, tagged_lem a k v hk infos, bytes_eq_iff info.id a)

-- The index of a part holds an id for a tag just when the part has the stream, with that tag.
pub mem-by_tag :
    (infos : List StreamFlushInfo) (t_min t_max : ℤ) (a k v : Bytes)
    → has_byte b'=' k ≡ false
    → mem_bytes a (ids_at (tag_key k v) (build_part_meta infos t_min t_max).by_tag)
      ≡ (mem_bytes a (info_ids infos) && has_tag k v (parse_stream_tags a))
unfolding build_part_meta
mem-by_tag infos t_min t_max a k v hk =
    ids_at-sort_ids (tag_key k v) a (index_streams infos [])
    ∙ mem-index_streams a k v hk infos []
    ∙ ground (arith, tagged_lem a k v hk infos, nothing_at (tag_key k v) a)
  where
    nothing_at : (tk a : Bytes) → mem_bytes a (ids_at tk []) ≡ false
    nothing_at tk a = unfold lookup mem_bytes in refl

-- The names of a query's tags have no `=`.
abbrev pub are_tag_names : Map Bytes → Bool
are_tag_names q = all (λ k. not (has_byte b'=' k)) (keys q)

module _ (infos : List StreamFlushInfo) (t_min t_max : ℤ) (a : Bytes) where
  abbrev by_tag : Map (List Bytes)
  by_tag = (build_part_meta infos t_min t_max).by_tag

  at_all_tags_lem :
      (q : Map Bytes)
      → are_tag_names q ≡ true
      → mem_bytes a (info_ids infos) ≡ true
      → at_all_tags by_tag q a ≡ tags_match (parse_stream_tags a) q
  unfolding tags_match
  at_all_tags_lem [] h m = refl
  at_all_tags_lem ((k, v) ∷ q) h m = ground (
    arith,
    at_all_tags_lem q,
    mem-by_tag infos t_min t_max a k v (ground arith),
    has_tag_lookup k v (parse_stream_tags a) (parse_stream_tags_names a).1,
  )

pub mem-selection :
    (a : Bytes) (by_id : Map StreamMeta) (c : Option (List Bytes))
    → mem_bytes a (keys (elim c [ none ↦ by_id | some ids ↦ select_streams ids by_id [] ]))
      ≡ (is_candidate a c && mem_bytes a (keys by_id))
mem-selection a by_id none = refl
mem-selection a by_id (some ids) = mem_selected a ids by_id

mem-streams :
    (infos : List StreamFlushInfo) (t_min t_max : ℤ) (a : Bytes)
    → mem_bytes a (keys (streams_by_id (build_part_meta infos t_min t_max).streams []))
      ≡ mem_bytes a (info_ids infos)
unfolding build_part_meta
mem-streams infos t_min t_max a =
    mem_by_id a (map stream_meta_of infos) ∙ ap (mem_bytes a) (info_ids-build_part_meta infos)

-- `matchStreamIDs` on the metadata of a part selects a stream just when the part has it and
-- `streamMatchesTags`, the scan of its tags, accepts it. The query's field names have no `=`.
pub match_stream_ids-eq-scan :
    (infos : List StreamFlushInfo) (t_min t_max : ℤ) (q : Map Bytes) (a : Bytes)
    → are_tag_names q ≡ true
    → mem_bytes a (keys (match_stream_ids (build_part_meta infos t_min t_max) q))
      ≡ (mem_bytes a (map (λ (i : StreamFlushInfo). i.id) infos) && stream_matches_tags a q)
unfolding match_stream_ids stream_matches_tags
match_stream_ids-eq-scan infos t_min t_max q a h =
    let meta = build_part_meta infos t_min t_max in
    let by_id = streams_by_id meta.streams [] in
    mem-selection a by_id (candidates_of meta.by_tag q none)
    ∙ ground (
      arith,
      is_candidate-candidates_of meta.by_tag q none a,
      mem-streams infos t_min t_max a,
      at_all_tags_lem infos t_min t_max a q h,
    )
