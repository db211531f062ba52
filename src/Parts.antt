-- ===== src/Parts.antt =====
-- manifest.go and indexdb.go: the active parts of a day, and the catalog from tags to parts by which
-- a search leaves out whole parts. The metadata of the parts on disk is a map from part ids; the
-- files are JSON texts that stand for the values here.
pub mod Catalog
pub mod Prune
pub mod Manifest
use Prim.Native.Nat.{ℕ}
use marchilogs.Base.{
  if◌then◌else◌, keep_if, ℤ, pos, ltb_ℤ, has_prefix, sort_strings, atoi, Bytes, codes, is_empty,
  mem_bytes, Map, keys, lookup, set_of, unless_empty, not_exist, Result, ok, err, ◌>>=◌, Bool, true,
  false, not, ◌||◌, Option, none, some, List, [], ◌∷◌, ◌++◌, map,
}
use marchilogs.Tags.{
  StreamMeta, PartMeta, parse_stream_tags, tag_key, ids_at, append_id, sort_ids, candidates_of,
}

-- `isPublishedPartDir` (storage.go)
unfoldable pub is_published_part_dir : Bytes → Bool
is_published_part_dir name =
    if is_empty name || has_prefix name (codes ".")
    then false
    else elim (atoi name) [ ok n ↦ true | err e ↦ false ]

-- The body of the loop of `maxPartID`.
abbrev pub larger_id : ℤ → Result ℤ → ℤ
larger_id m (err e) = m
larger_id m (ok n) = if ltb_ℤ m n then n else m

-- `maxPartID`, from the greatest id so far.
unfoldable pub max_part_id_from : ℤ → List Bytes → ℤ
max_part_id_from m [] = m
max_part_id_from m (id ∷ ids) = max_part_id_from (larger_id m (atoi id)) ids

abbrev pub max_part_id : List Bytes → ℤ
max_part_id ids = max_part_id_from (pos 0) ids

-- The closure `addTag` of `addPartToIndexDB`; `seen` is its set.
abbrev pub catalog_tag : Bytes → Bytes → Map (List Bytes) → Map (List Bytes)
catalog_tag part tk by_tag =
    if mem_bytes part (ids_at tk by_tag) then by_tag else append_id tk part by_tag

unfoldable pub catalog_tags : Bytes → List Bytes → List Bytes → Map (List Bytes) → Map (List Bytes)
catalog_tags part [] seen by_tag = by_tag
catalog_tags part (tk ∷ tks) seen by_tag =
    if mem_bytes tk seen
    then catalog_tags part tks seen by_tag
    else catalog_tags part tks (tk ∷ seen) (catalog_tag part tk by_tag)

-- The tag keys of a stream: those of its metadata, or those that its id spells.
abbrev pub stream_tag_keys : StreamMeta → List Bytes
stream_tag_keys s =
    map (λ (kv : Bytes × Bytes). tag_key kv.0 kv.1)
      (elim s.tags [ none ↦ parse_stream_tags s.id | some tags ↦ tags ])

unfoldable pub streams_tag_keys : List StreamMeta → List Bytes
streams_tag_keys [] = []
streams_tag_keys (s ∷ ss) = stream_tag_keys s ++ streams_tag_keys ss

-- The tag keys that `addPartToIndexDB` ranges over.
unfoldable pub part_tag_keys : PartMeta → List Bytes
part_tag_keys meta = unless_empty (keys meta.by_tag) (streams_tag_keys meta.streams)

-- `addPartToIndexDB`
unfoldable pub add_part_to_index_db : Map (List Bytes) → Bytes → PartMeta → Map (List Bytes)
add_part_to_index_db by_tag part meta = catalog_tags part (part_tag_keys meta) [] by_tag

-- The loop of `rebuildDayIndexDBLocked`; a part whose metadata cannot be read is an error.
unfoldable pub add_parts_to_index_db :
    List Bytes → Map PartMeta → Map (List Bytes) → Result (Map (List Bytes))
add_parts_to_index_db [] metas by_tag = ok by_tag
add_parts_to_index_db (part ∷ parts) metas by_tag =
    let rest = λ (meta : PartMeta).
      add_parts_to_index_db parts metas (add_part_to_index_db by_tag part meta) in
    elim (lookup part metas) [ none ↦ err not_exist | some meta ↦ rest meta ]

-- The state of a day: the ids in its manifest, and the catalog, `none` where `s.indexdbs` has none.
-- The files `manifest.json` and `indexdb.json` hold the same after each successful write.
pub record Day : Type 0 where
  pub parts : List Bytes
  pub catalog : Option (Map (List Bytes))

-- `rebuildDayIndexDBLocked`, where no write fails: the write sorts the ids of every tag.
unfoldable pub rebuild_day_index_db : Map PartMeta → Day → Result Day
rebuild_day_index_db metas d = do
  by_tag ← add_parts_to_index_db d.parts metas []
  ok (record d { catalog = some (sort_ids by_tag) })

-- `addPartToManifestLocked`; where the rebuild fails, the code has written the manifest already,
-- and the error alone is modelled here and in the next function.
unfoldable pub add_part_to_manifest : Map PartMeta → Bytes → Day → Result Day
add_part_to_manifest metas part d =
    if mem_bytes part d.parts
    then ok d
    else rebuild_day_index_db metas (record d { parts = sort_strings (d.parts ++ part ∷ []) })

-- The loop that drops repeated ids; `seen` is its set.
unfoldable pub dedupe : List Bytes → List Bytes → List Bytes
dedupe seen [] = []
dedupe seen (id ∷ ids) = if mem_bytes id seen then dedupe seen ids else id ∷ dedupe (id ∷ seen) ids

-- `replaceManifestPartsLocked`
unfoldable pub replace_manifest_parts : Map PartMeta → List Bytes → List Bytes → Day → Result Day
replace_manifest_parts metas remove_ids add_ids d =
    let next = keep_if (λ id. not (mem_bytes id (set_of remove_ids))) d.parts ++ add_ids in
    rebuild_day_index_db metas (record d { parts = sort_strings (dedupe [] next) })

-- The end of `partsMatchingStreamEq`: the candidates that are active, or all parts where no tag was
-- looked up.
abbrev pub keep_active : List Bytes → Option (List Bytes) → List Bytes
keep_active parts none = parts
keep_active parts (some ids) =
    sort_strings (keep_if (λ (id : Bytes). mem_bytes id (set_of parts)) ids)

-- `partsMatchingStreamEq`
unfoldable pub parts_matching_stream_eq :
    Option (Map (List Bytes)) → List Bytes → Map Bytes → List Bytes
parts_matching_stream_eq catalog [] q = []
parts_matching_stream_eq catalog (p ∷ parts) [] = p ∷ parts
parts_matching_stream_eq none (p ∷ parts) (kv ∷ q) = p ∷ parts
parts_matching_stream_eq (some []) (p ∷ parts) (kv ∷ q) = p ∷ parts
parts_matching_stream_eq (some (t ∷ by_tag)) (p ∷ parts) (kv ∷ q) =
    keep_active (p ∷ parts) (candidates_of (t ∷ by_tag) (kv ∷ q) none)
