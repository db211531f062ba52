-- ===== src/Tags/Candidates.antt =====
-- stream_index.go: the loop over a query's tags, and the maps that `matchStreamIDs` builds.
use marchilogs.Base.{
  Bool-cases, Option-cases, Bytes, is_empty, bytes_eq_iff, mem_bytes, Distinct, Map, keys, lookup,
  insert, mem_keys_of_lookup, mem_keys-insert, absent_of_lookup, set_of, mem_bytes-set_of,
  set_of-Distinct, mem_bytes-keep_if, keep_if-Distinct, ◌≡◌, refl, inl, inr, Bool, true, ◌&&◌, ◌||◌,
  Option, none, some, List, [], ◌∷◌, map, arith,
}
use marchilogs.Tags.{
  StreamMeta, tag_key, ids_at, narrow, candidates_of, streams_by_id, select_streams,
}

-- An id that the index holds for every tag of the query that has a value.
abbrev pub at_all_tags : Map (List Bytes) → Map Bytes → Bytes → Bool
at_all_tags by_tag [] a = true
at_all_tags by_tag ((k, v) ∷ q) a =
    (is_empty v || mem_bytes a (ids_at (tag_key k v) by_tag)) && at_all_tags by_tag q a

-- A query whose values are all empty asks for nothing.
abbrev pub asks_nothing : Map Bytes → Bool
asks_nothing [] = true
asks_nothing ((k, v) ∷ q) = is_empty v && asks_nothing q

-- An id among the candidates; before the first tag every id is.
abbrev pub is_candidate : Bytes → Option (List Bytes) → Bool
is_candidate a none = true
is_candidate a (some ids) = mem_bytes a ids

is_candidate-narrow :
    (a : Bytes) (c : Option (List Bytes)) (ids : List Bytes)
    → is_candidate a (narrow c ids) ≡ (is_candidate a c && mem_bytes a ids)
is_candidate-narrow a none ids = mem_bytes-set_of a ids
is_candidate-narrow a (some cs) ids =
    ground (arith, mem_bytes-keep_if (λ id. mem_bytes id (set_of ids)) a cs, mem_bytes-set_of a ids)

-- The loop leaves the ids that the index holds for all tags.
pub is_candidate-candidates_of :
    (by_tag : Map (List Bytes)) (q : Map Bytes) (c : Option (List Bytes)) (a : Bytes)
    → is_candidate a (candidates_of by_tag q c) ≡ (is_candidate a c && at_all_tags by_tag q a)
unfolding candidates_of
is_candidate-candidates_of by_tag [] c a = ground arith
is_candidate-candidates_of by_tag ((k, v) ∷ q) c a = ground (
  arith,
  is_candidate-candidates_of by_tag q c a,
  is_candidate-candidates_of by_tag q (narrow c (ids_at (tag_key k v) by_tag)) a,
  is_candidate-narrow a c (ids_at (tag_key k v) by_tag),
)

-- The lists of candidates have no id twice.
abbrev pub DistinctCandidates : Option (List Bytes) → Type 0
DistinctCandidates none = Unit
DistinctCandidates (some ids) = Distinct ids

narrow-Distinct :
    (c : Option (List Bytes)) (ids : List Bytes)
    → DistinctCandidates c
    → DistinctCandidates (narrow c ids)
narrow-Distinct none ids d = set_of-Distinct ids
narrow-Distinct (some cs) ids d = keep_if-Distinct (λ id. mem_bytes id (set_of ids)) cs d

pub candidates_of-Distinct :
    (by_tag : Map (List Bytes)) (q : Map Bytes) (c : Option (List Bytes))
    → DistinctCandidates c
    → DistinctCandidates (candidates_of by_tag q c)
unfolding candidates_of
candidates_of-Distinct by_tag [] c d = d
candidates_of-Distinct by_tag ((k, v) ∷ q) c d = elim (Bool-cases (is_empty v)) [
  | inl no_value ↦ rw no_value (candidates_of-Distinct by_tag q c d)
  | inr value ↦
      let ids = ids_at (tag_key k v) by_tag in
      rw value (candidates_of-Distinct by_tag q (narrow c ids) (narrow-Distinct c ids d))
]

mem-streams_by_id :
    (a : Bytes) (ss : List StreamMeta) (m : Map StreamMeta)
    → mem_bytes a (keys (streams_by_id ss m))
      ≡ (mem_bytes a (map (λ (s : StreamMeta). s.id) ss) || mem_bytes a (keys m))
unfolding streams_by_id mem_bytes
mem-streams_by_id a [] m = refl
mem-streams_by_id a (s ∷ ss) m =
    ground (arith, mem-streams_by_id a ss (insert s.id s m), mem_keys-insert a s.id s m)

pub mem_by_id :
    (a : Bytes) (ss : List StreamMeta)
    → mem_bytes a (keys (streams_by_id ss [])) ≡ mem_bytes a (map (λ (s : StreamMeta). s.id) ss)
unfolding mem_bytes
mem_by_id a ss = ground (arith, mem-streams_by_id a ss [])

mem-select_streams :
    (a : Bytes) (ids : List Bytes) (by_id out : Map StreamMeta)
    → mem_bytes a (keys (select_streams ids by_id out))
      ≡ ((mem_bytes a ids && mem_bytes a (keys by_id)) || mem_bytes a (keys out))
unfolding select_streams mem_bytes
mem-select_streams a [] by_id out = refl
mem-select_streams a (id ∷ ids) by_id out = elim (Option-cases (lookup id by_id)) [
  | inl absent ↦ rw absent (
      ground (
        arith,
        mem-select_streams a ids by_id out,
        absent_of_lookup id by_id absent,
        bytes_eq_iff id a,
      ))
  | inr (sm, found) ↦ rw found (
      ground (
        arith,
        mem-select_streams a ids by_id (insert id sm out),
        mem_keys-insert a id sm out,
        mem_keys_of_lookup id by_id sm found,
        bytes_eq_iff id a,
      ))
]

pub mem_selected :
    (a : Bytes) (ids : List Bytes) (by_id : Map StreamMeta)
    → mem_bytes a (keys (select_streams ids by_id []))
      ≡ (mem_bytes a ids && mem_bytes a (keys by_id))
unfolding mem_bytes
mem_selected a ids by_id = ground (arith, mem-select_streams a ids by_id [])
