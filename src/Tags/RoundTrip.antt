-- ===== src/Tags/RoundTrip.antt =====
-- entry.go and stream_index.go: `ParseStreamTags` on what `StreamID` makes.
use marchilogs.Base.{
  if◌then◌else◌, Bool-cases, all, cut, join, has_byte, has_byte-append, split-join, cut-append,
  sort_strings, mem_bytes-sort_strings, all-sort_strings, Bytes, is_empty, bytes_eq, eq_of_bytes_eq,
  bytes_eq_refl, bytes_eq_iff, mem_bytes, Map, lookup, lookup-insert, ◌≡◌, refl, ap, ◌∙◌, inl, inr,
  Bool, true, false, not, ◌&&◌, ◌||◌, Option, none, some, List, [], ◌∷◌, arith,
}
use marchilogs.Entry.{default_stream, field_of, stream_parts, stream_of_parts, stream_id}
use marchilogs.Tags.{add_tag, add_tags, parse_stream_tags, tag_key}

abbrev gives : Bytes → Bytes → Option (Bytes × Bytes) → Bool
gives k v none = true
gives k v (some (j, w)) = not (bytes_eq j k) || bytes_eq w v

-- A part that, if it is about the field `k`, gives it the value `v`.
abbrev part_gives : Bytes → Bytes → Bytes → Bool
part_gives k v p = gives k v (cut b'=' p)

abbrev names : Bytes → Option (Bytes × Bytes) → Bool
names k none = false
names k (some (j, w)) = bytes_eq j k

-- A part about another field.
abbrev part_skips : Bytes → Bytes → Bool
part_skips k p = not (names k (cut b'=' p))

lookup-add_tag :
    (k v : Bytes) (c : Option (Bytes × Bytes)) (m : Map Bytes)
    → gives k v c ≡ true
    → lookup k m ≡ some v
    → lookup k (add_tag c m) ≡ some v
lookup-add_tag k v none m h e = e
lookup-add_tag k v (some (j, w)) m h e = ground (arith, lookup-insert j k w m, bytes_eq_iff w v)

keep-add_tags :
    (k v : Bytes) (ps : List Bytes) (m : Map Bytes)
    → all (part_gives k v) ps ≡ true
    → lookup k m ≡ some v
    → lookup k (add_tags ps m) ≡ some v
unfolding add_tags
keep-add_tags k v [] m h e = e
keep-add_tags k v (p ∷ ps) m h e =
    keep-add_tags k v ps (add_tag (cut b'=' p) m) (ground arith)
      (lookup-add_tag k v (cut b'=' p) m (ground arith) e)

-- A tag among the parts is the value of its field.
find-add_tags :
    (k v : Bytes) (ps : List Bytes) (m : Map Bytes)
    → has_byte b'=' k ≡ false
    → is_empty k ≡ false
    → all (part_gives k v) ps ≡ true
    → mem_bytes (tag_key k v) ps ≡ true
    → lookup k (add_tags ps m) ≡ some v
unfolding add_tags mem_bytes
find-add_tags k v [] m hb he h e = cc
find-add_tags k v (p ∷ ps) m hb he h e = elim (Bool-cases (bytes_eq p (tag_key k v))) [
  | inl here ↦ keep-add_tags k v ps (add_tag (cut b'=' p) m) (ground arith) (
      ground (
        arith,
        eq_of_bytes_eq p (tag_key k v) here,
        cut-append b'=' k v hb,
        lookup-insert k k v m,
        bytes_eq_refl k,
      ))
  | inr later ↦ find-add_tags k v ps (add_tag (cut b'=' p) m) hb he (ground arith) (ground arith)
]

skip-add_tag :
    (k : Bytes) (c : Option (Bytes × Bytes)) (m : Map Bytes)
    → names k c ≡ false
    → lookup k (add_tag c m) ≡ lookup k m
skip-add_tag k none m h = refl
skip-add_tag k (some (j, w)) m h = ground (arith, lookup-insert j k w m)

skip-add_tags :
    (k : Bytes) (ps : List Bytes) (m : Map Bytes)
    → all (part_skips k) ps ≡ true
    → lookup k (add_tags ps m) ≡ lookup k m
unfolding add_tags
skip-add_tags k [] m h = refl
skip-add_tags k (p ∷ ps) m h =
    skip-add_tags k ps (add_tag (cut b'=' p) m) (ground arith)
    ∙ skip-add_tag k (cut b'=' p) m (ground arith)

-- Field names that a stream's identity can carry, and values without a comma.
abbrev pub is_stream_name : Bytes → Bool
is_stream_name k = not (has_byte b'=' k) && not (has_byte b',' k) && not (is_empty k)

abbrev pub is_stream_value : Bytes → Bool
is_stream_value v = not (has_byte b',' v)

abbrev pub can_name_stream : List Bytes → Map Bytes → Bool
can_name_stream sf f = all (λ k. is_stream_name k && is_stream_value (field_of k f)) sf

module _ (f : Map Bytes) where
  parts_give :
      (k : Bytes) (sf : List Bytes)
      → can_name_stream sf f ≡ true
      → all (part_gives k (field_of k f)) (stream_parts sf f) ≡ true
  unfolding stream_parts
  parts_give k [] h = refl
  parts_give k (j ∷ sf) h = ground (
    arith,
    parts_give k sf,
    cut-append b'=' j (field_of j f),
    bytes_eq_iff j k,
    bytes_eq_refl (field_of k f),
  )

  parts_hold :
      (k : Bytes) (sf : List Bytes)
      → is_empty (field_of k f) ≡ false
      → mem_bytes k sf ≡ true
      → mem_bytes (tag_key k (field_of k f)) (stream_parts sf f) ≡ true
  unfolding stream_parts mem_bytes
  parts_hold k [] hv h = cc
  parts_hold k (j ∷ sf) hv h =
      ground (arith, parts_hold k sf hv, bytes_eq_iff j k, bytes_eq_refl (tag_key k (field_of k f)))

  parts_skip :
      (k : Bytes) (sf : List Bytes)
      → can_name_stream sf f ≡ true
      → (mem_bytes k sf && not (is_empty (field_of k f))) ≡ false
      → all (part_skips k) (stream_parts sf f) ≡ true
  unfolding stream_parts mem_bytes
  parts_skip k [] h a = refl
  parts_skip k (j ∷ sf) h a =
      ground (arith, parts_skip k sf, cut-append b'=' j (field_of j f), bytes_eq_iff j k)

  -- No part holds a comma, and every part holds `=`.
  parts_split :
      (sf : List Bytes)
      → can_name_stream sf f ≡ true
      → all (λ p. not (has_byte b',' p)) (stream_parts sf f) ≡ true
  unfolding stream_parts
  parts_split [] h = refl
  parts_split (j ∷ sf) h =
      ground (arith, parts_split sf, has_byte-append b',' j (b'=' ∷ field_of j f))

  parts_equal_sign : (sf : List Bytes) → all (has_byte b'=') (stream_parts sf f) ≡ true
  unfolding stream_parts
  parts_equal_sign [] = refl
  parts_equal_sign (j ∷ sf) =
      ground (arith, parts_equal_sign sf, has_byte-append b'=' j (b'=' ∷ field_of j f))

equal_sign-join :
    (ps : List Bytes) (p : Bytes)
    → has_byte b'=' p ≡ true
    → has_byte b'=' (join b',' (p ∷ ps)) ≡ true
unfolding join
equal_sign-join [] p h = h
equal_sign-join (q ∷ ps) p h = ground (arith, has_byte-append b'=' p (b',' ∷ join b',' (q ∷ ps)))

not_default : (s : Bytes) → has_byte b'=' s ≡ true → bytes_eq s default_stream ≡ false
not_default s h = ground (arith, bytes_eq_iff s default_stream)

not_empty : (s : Bytes) → has_byte b'=' s ≡ true → is_empty s ≡ false
not_empty [] h = cc
not_empty (c ∷ s) h = refl

-- The tags of a stream are the parts of its identity.
parse-stream_of_parts :
    (ps : List Bytes)
    → all (λ p. not (has_byte b',' p)) ps ≡ true
    → all (has_byte b'=') ps ≡ true
    → parse_stream_tags (stream_of_parts ps) ≡ add_tags ps []
unfolding parse_stream_tags add_tags
parse-stream_of_parts [] hc he = unfold bytes_eq in refl
parse-stream_of_parts (p ∷ ps) hc he = ground (
  arith,
  equal_sign-join ps p,
  not_default (join b',' (p ∷ ps)),
  not_empty (join b',' (p ∷ ps)),
  split-join b',' p ps hc,
)

name_of_mem :
    (k : Bytes) (sf : List Bytes) (f : Map Bytes)
    → can_name_stream sf f ≡ true
    → mem_bytes k sf ≡ true
    → (has_byte b'=' k ≡ false) × (is_empty k ≡ false)
unfolding mem_bytes
name_of_mem k [] f h m = cc
name_of_mem k (j ∷ sf) f h m = ground (arith, name_of_mem k sf f, bytes_eq_iff j k)

lookup-sorted_parts :
    (sf : List Bytes) (f : Map Bytes) (k : Bytes)
    → can_name_stream sf f ≡ true
    → lookup k (add_tags (sort_strings (stream_parts sf f)) [])
      ≡ (if mem_bytes k sf && not (is_empty (field_of k f)) then some (field_of k f) else none)
lookup-sorted_parts sf f k h =
    let v = field_of k f in
    let ps = stream_parts sf f in
    elim (Bool-cases (mem_bytes k sf && not (is_empty v))) [
      | inl there ↦
          let (hb, he) = name_of_mem k sf f h (ground arith) in
          rw there (
            find-add_tags k v (sort_strings ps) [] hb he
              (all-sort_strings (part_gives k v) ps ∙ parts_give f k sf h)
              (mem_bytes-sort_strings (tag_key k v) ps
                ∙ parts_hold f k sf (ground arith) (ground arith)))
      | inr absent ↦ rw absent (
          skip-add_tags k (sort_strings ps) []
            (all-sort_strings (part_skips k) ps ∙ parts_skip f k sf h absent)
          ∙ unfold lookup in refl)
    ]

-- The tags that `ParseStreamTags` reads from a stream's identity are the stream fields that have a
-- value, and no others. The names hold no `=` or comma and are not empty; the values hold no comma.
pub parse_stream_tags-stream_id :
    (sf : List Bytes) (f : Map Bytes) (k : Bytes)
    → can_name_stream sf f ≡ true
    → lookup k (parse_stream_tags (stream_id sf f))
      ≡ (if mem_bytes k sf && not (is_empty (field_of k f)) then some (field_of k f) else none)
unfolding stream_id
parse_stream_tags-stream_id sf f k h =
    let ps = stream_parts sf f in
    ap (lookup k) (
      parse-stream_of_parts (sort_strings ps)
        (all-sort_strings (λ p. not (has_byte b',' p)) ps ∙ parts_split f sf h)
        (all-sort_strings (has_byte b'=') ps ∙ parts_equal_sign f sf))
    ∙ lookup-sorted_parts sf f k h
