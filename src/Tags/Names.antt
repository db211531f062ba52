-- ===== src/Tags/Names.antt =====
-- stream_index.go: the field names and values that `ParseStreamTags` gives.
use marchilogs.Base.{
  Option-cases, all, split, cut, has_byte, cut-append, cut-no_sep, Bytes, is_empty, bytes_eq,
  bytes_eq_iff, Map, keys, insert, IsMap, insert-IsMap, ◌≡◌, refl, inl, inr, Bool, true, false, not,
  ◌&&◌, List, [], ◌∷◌, arith,
}
use marchilogs.Tags.{add_tag, add_tags, parse_stream_tags, tag_key}

-- Tag keys of fields without `=` are equal only for the same field and value.
pub tag_key-eq :
    (k v k' v' : Bytes)
    → has_byte b'=' k ≡ false
    → has_byte b'=' k' ≡ false
    → bytes_eq (tag_key k v) (tag_key k' v') ≡ (bytes_eq k k' && bytes_eq v v')
tag_key-eq k v k' v' hk hk' = ground (
  arith,
  bytes_eq_iff (tag_key k v) (tag_key k' v'),
  bytes_eq_iff k k',
  bytes_eq_iff v v',
  cut-append b'=' k v hk,
  cut-append b'=' k' v' hk',
)

-- The field names that a stream's identity gives are not empty, differ, and have no `=`.
abbrev pub are_names : List Bytes → Bool
are_names ks = all (λ k. not (has_byte b'=' k) && not (is_empty k)) ks

are_names-insert :
    (k v : Bytes) (m : Map Bytes)
    → has_byte b'=' k ≡ false
    → is_empty k ≡ false
    → are_names (keys m) ≡ true
    → are_names (keys (insert k v m)) ≡ true
unfolding insert
are_names-insert k v [] hb he h = ground arith
are_names-insert k v ((j, w) ∷ m) hb he h = ground (arith, are_names-insert k v m hb he)

add_tag_names :
    (part : Bytes) (m : Map Bytes)
    → are_names (keys m) ≡ true
    → IsMap m
    → (are_names (keys (add_tag (cut b'=' part) m)) ≡ true) × IsMap (add_tag (cut b'=' part) m)
add_tag_names part m h d = elim (Option-cases (cut b'=' part)) [
  | inl no_cut ↦ rw no_cut (h, d)
  | inr ((k, v), at) ↦
      rw at
        (ground (arith, are_names-insert k v m (cut-no_sep b'=' part k v at), insert-IsMap k v m d))
]

add_tags_names :
    (parts : List Bytes) (m : Map Bytes)
    → are_names (keys m) ≡ true
    → IsMap m
    → (are_names (keys (add_tags parts m)) ≡ true) × IsMap (add_tags parts m)
unfolding add_tags
add_tags_names [] m h d = (h, d)
add_tags_names (part ∷ parts) m h d =
    let (names, distinct) = add_tag_names part m h d in
    add_tags_names parts (add_tag (cut b'=' part) m) names distinct

pub parse_stream_tags_names :
    (s : Bytes) → (are_names (keys (parse_stream_tags s)) ≡ true) × IsMap (parse_stream_tags s)
unfolding parse_stream_tags
parse_stream_tags_names s = ground (arith, add_tags_names (split b',' s) [] refl tt)
