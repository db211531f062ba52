-- ===== src/Parts/Prune.antt =====
-- indexdb.go: `partsMatchingStreamEq` against the streams that `matchStreamIDs` selects in a part.
use mathlib.Core.Path.{subst}
use marchilogs.Base.{
  Option-cases, keep_if, mem_bytes-sort_strings, Bytes, mem_bytes, Map, keys, lookup,
  mem_keys_of_lookup, set_of, mem_bytes-set_of, mem_bytes-keep_if, mem_bytes-unless_empty, Result,
  ok, err, ok_of_chain, ◌≡◌, refl, ◌∙◌, inl, inr, true, ◌&&◌, Option, none, some, List, [], ◌∷◌,
  arith,
}
use marchilogs.Tags.{
  PartMeta, tag_key, ids_at, sort_ids, candidates_of, streams_by_id, match_stream_ids,
}
use marchilogs.Tags.Candidates.{at_all_tags, is_candidate, is_candidate-candidates_of}
use marchilogs.Tags.Match.{ids_at-sort_ids, mem-selection}
use marchilogs.Parts.{
  streams_tag_keys, part_tag_keys, add_parts_to_index_db, Day, rebuild_day_index_db, keep_active,
  parts_matching_stream_eq,
}
use marchilogs.Parts.Catalog.{part_has_tag, mem-add_parts}

-- A tag under which an index holds an id is a key of the index.
mem_keys_of_ids_at :
    (a tk : Bytes) (by_tag : Map (List Bytes))
    → mem_bytes a (ids_at tk by_tag) ≡ true
    → mem_bytes tk (keys by_tag) ≡ true
unfolding mem_bytes
mem_keys_of_ids_at a tk by_tag h = elim (Option-cases (lookup tk by_tag)) [
  | inl absent ↦ ground (arith, h, absent)
  | inr (ids, found) ↦ mem_keys_of_lookup tk by_tag ids found
]

mem-part_tag_keys :
    (tk : Bytes) (meta : PartMeta)
    → mem_bytes tk (keys meta.by_tag) ≡ true
    → mem_bytes tk (part_tag_keys meta) ≡ true
unfolding part_tag_keys
mem-part_tag_keys tk meta h =
    mem_bytes-unless_empty tk (keys meta.by_tag) (streams_tag_keys meta.streams) h

-- The catalog lists the part for every tag of a query, if an index of the part has a stream for all.
at_all_tags-catalog :
    (p a : Bytes) (meta : PartMeta) (metas : Map PartMeta) (catalog : Map (List Bytes))
    (q : Map Bytes)
    → lookup p metas ≡ some meta
    → ((tk : Bytes) → part_has_tag p tk metas ≡ true → mem_bytes p (ids_at tk catalog) ≡ true)
    → at_all_tags meta.by_tag q a ≡ true
    → at_all_tags catalog q p ≡ true
at_all_tags-catalog p a meta metas catalog [] hp hc h = refl
at_all_tags-catalog p a meta metas catalog ((k, v) ∷ q) hp hc h = ground (
  arith,
  h,
  hp,
  at_all_tags-catalog p a meta metas catalog q hp hc,
  hc (tag_key k v),
  mem_keys_of_ids_at a (tag_key k v) meta.by_tag,
  mem-part_tag_keys (tag_key k v) meta,
)

mem-keep_active :
    (p : Bytes) (parts : List Bytes) (c : Option (List Bytes))
    → mem_bytes p (keep_active parts c) ≡ (is_candidate p c && mem_bytes p parts)
mem-keep_active p parts none = refl
mem-keep_active p parts (some ids) = ground (
  arith,
  mem_bytes-sort_strings p (keep_if (λ (id : Bytes). mem_bytes id (set_of parts)) ids),
  mem_bytes-keep_if (λ (id : Bytes). mem_bytes id (set_of parts)) p ids,
  mem_bytes-set_of p parts,
)

-- A part passes if the catalog lists it for every tag of the query.
mem-parts_matching :
    (p : Bytes) (by_tag : Map (List Bytes)) (parts : List Bytes) (q : Map Bytes)
    → mem_bytes p parts ≡ true
    → at_all_tags by_tag q p ≡ true
    → mem_bytes p (parts_matching_stream_eq (some by_tag) parts q) ≡ true
unfolding parts_matching_stream_eq
mem-parts_matching p by_tag [] q hp h = hp
mem-parts_matching p by_tag (p' ∷ parts) [] hp h = hp
mem-parts_matching p [] (p' ∷ parts) (kv ∷ q) hp h = hp
mem-parts_matching p (t ∷ by_tag) (p' ∷ parts) (kv ∷ q) hp h =
    let c = candidates_of (t ∷ by_tag) (kv ∷ q) none in
    mem-keep_active p (p' ∷ parts) c
    ∙ ground (arith, hp, h, is_candidate-candidates_of (t ∷ by_tag) (kv ∷ q) none p)

-- What `matchStreamIDs` selects has every tag in the index.
selected_at_all_tags :
    (a : Bytes) (meta : PartMeta) (q : Map Bytes)
    → mem_bytes a (keys (match_stream_ids meta q)) ≡ true
    → at_all_tags meta.by_tag q a ≡ true
unfolding match_stream_ids
selected_at_all_tags a meta q h =
    let c = candidates_of meta.by_tag q none in
    ground (
      arith,
      h,
      mem-selection a (streams_by_id meta.streams []) c,
      is_candidate-candidates_of meta.by_tag q none a,
    )

-- A search of the parts that the catalog leaves loses no stream: if `matchStreamIDs` selects some
-- stream from the metadata of an active part, `partsMatchingStreamEq` keeps the part, once the
-- catalog is rebuilt from the metadata of the active parts.
pub parts_matching_stream_eq_complete :
    (metas : Map PartMeta) (d out : Day) (meta : PartMeta) (q : Map Bytes) (p a : Bytes)
    → rebuild_day_index_db metas d ≡ ok out
    → mem_bytes p d.parts ≡ true
    → lookup p metas ≡ some meta
    → mem_bytes a (keys (match_stream_ids meta q)) ≡ true
    → mem_bytes p (parts_matching_stream_eq out.catalog out.parts q) ≡ true
unfolding rebuild_day_index_db match_stream_ids
parts_matching_stream_eq_complete metas d out meta q p a hr hp hm ha =
    let (by_tag, added, made) =
      ok_of_chain (add_parts_to_index_db d.parts metas [])
        (λ (m : Map (List Bytes)). ok (record d { catalog = some (sort_ids m) })) out hr in
    subst
      (λ (r : Result Day). elim r [
        | err e ↦ Unit
        | ok o ↦ mem_bytes p (parts_matching_stream_eq o.catalog o.parts q) ≡ true
      ])
      made
      (mem-parts_matching p (sort_ids by_tag) d.parts q hp (
        at_all_tags-catalog p a meta metas (sort_ids by_tag) q hm
          (λ tk h. ground (
            arith,
            h,
            hp,
            ids_at-sort_ids tk p by_tag,
            mem-add_parts p tk d.parts metas [] by_tag added,
          ))
          (selected_at_all_tags a meta q ha)))
