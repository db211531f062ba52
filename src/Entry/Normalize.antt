-- ===== src/Entry/Normalize.antt =====
-- entry.go: the entries that `normalize` gives.
use marchilogs.Base.{
  if◌then◌else◌, Bool-cases, all, join, sort_strings, all-sort_strings, Bytes, is_empty, bytes_eq,
  eq_of_bytes_eq, bytes_eq_refl, bytes_eq_iff, Map, lookup, insert, IsMap, lookup-insert,
  lookup-eq-none, insert-IsMap, ◌≡◌, refl, ap, ◌∙◌, inl, inr, Bool, true, false, not, ◌&&◌, Option,
  none, some, List, [], ◌∷◌, ◌++◌, arith,
}
use marchilogs.Calendar.{Time}
use marchilogs.Entry.{
  field_msg, field_time, field_stream, missing_msg, Entry, field_of, is_zero, stream_parts,
  stream_of_parts, stream_id, is_copied, copy_fields, with_msg, with_stream, normalize,
}

abbrev pub copied_value : Bytes → Option Bytes → Option Bytes
copied_value k none = none
copied_value k (some v) = if is_copied k v then some v else none

or_else : Option Bytes → Option Bytes → Option Bytes
or_else none y = y
or_else (some x) y = some x

-- The copy holds what the source holds, less what is left out.
lookup-copy_fields :
    (k : Bytes) (m out : Map Bytes)
    → IsMap m
    → lookup k (copy_fields m out) ≡ or_else (copied_value k (lookup k m)) (lookup k out)
unfolding copy_fields or_else lookup
lookup-copy_fields k [] out h = refl
lookup-copy_fields k ((j, v) ∷ m) out h = ground (
  arith,
  lookup-copy_fields k m (insert j v out) h.1,
  lookup-copy_fields k m out h.1,
  lookup-insert j k v out,
  lookup-eq-none j m h.0,
  bytes_eq_iff j k,
)

-- What `copy_fields` copies into an empty map.
pub lookup_copied :
    (k : Bytes) (m : Map Bytes)
    → IsMap m
    → lookup k (copy_fields m []) ≡ copied_value k (lookup k m)
unfolding or_else lookup
lookup_copied k m h = ground (arith, lookup-copy_fields k m [] h)

copy_fields-IsMap : (m out : Map Bytes) → IsMap out → IsMap (copy_fields m out)
unfolding copy_fields
copy_fields-IsMap [] out h = h
copy_fields-IsMap ((j, v) ∷ m) out h = elim (Bool-cases (is_copied j v)) [
  | inl keep ↦ rw keep (copy_fields-IsMap m (insert j v out) (insert-IsMap j v out h))
  | inr leave ↦ rw leave (copy_fields-IsMap m out h)
]

with_msg-IsMap : (m : Map Bytes) → IsMap m → IsMap (with_msg m)
with_msg-IsMap m h = ground (arith, insert-IsMap field_msg missing_msg m h)

-- The fields of a normalised entry have distinct keys.
pub normalize-IsMap : (sf : List Bytes) (now : Time) (e : Entry) → IsMap (normalize sf now e).fields
unfolding normalize
normalize-IsMap sf now e =
    let copied = copy_fields e.fields [] in
    insert-IsMap field_stream (stream_id sf (with_msg copied)) (with_msg copied)
      (with_msg-IsMap copied (copy_fields-IsMap e.fields [] tt))

-- A stream's identity depends only on what the fields hold.
stream_parts_ext :
    (ks : List Bytes) (f g : Map Bytes)
    → ((k : Bytes) → field_of k f ≡ field_of k g)
    → stream_parts ks f ≡ stream_parts ks g
unfolding stream_parts
stream_parts_ext [] f g h = refl
stream_parts_ext (k ∷ ks) f g h = rw (h k, stream_parts_ext ks f g h)

pub stream_id_ext :
    (ks : List Bytes) (f g : Map Bytes)
    → ((k : Bytes) → field_of k f ≡ field_of k g)
    → stream_id ks f ≡ stream_id ks g
unfolding stream_id
stream_id_ext ks f g h = rw (stream_parts_ext ks f g h)

lookup-with_stream :
    (s k : Bytes) (c : Map Bytes)
    → lookup k (insert field_stream s (with_msg c)) ≡ (
        if bytes_eq field_stream k
        then some s
        else if is_empty (field_of field_msg c) && bytes_eq field_msg k
        then some missing_msg
        else lookup k c)
lookup-with_stream s k c =
    ground
      (arith, lookup-insert field_stream k s (with_msg c), lookup-insert field_msg k missing_msg c)

module _ (sf : List Bytes) (now : Time) (e : Entry) (h : IsMap e.fields) where
  abbrev copied : Map Bytes
  copied = copy_fields e.fields []

  -- What a normalised entry holds at each key.
  lookup-normalize :
      (k : Bytes)
      → lookup k (normalize sf now e).fields ≡ (
          if bytes_eq field_stream k
          then some (stream_id sf (with_msg copied))
          else if is_empty (field_of field_msg copied) && bytes_eq field_msg k
          then some missing_msg
          else copied_value k (lookup k e.fields))
  unfolding normalize
  lookup-normalize k =
      lookup-with_stream (stream_id sf (with_msg copied)) k copied ∙ rw (lookup_copied k e.fields h)

pub is_copied_lem :
    (k v : Bytes)
    → is_copied k v ≡ true
    → (is_empty k ≡ false) × (is_empty v ≡ false) × (bytes_eq k field_time ≡ false)
is_copied_lem k v h = ground arith

nonempty_part : (k v : Bytes) → is_empty (k ++ b'=' ∷ v) ≡ false
nonempty_part [] v = refl
nonempty_part (c ∷ k) v = refl

all_parts_nonempty :
    (ks : List Bytes) (f : Map Bytes) → all (λ p. not (is_empty p)) (stream_parts ks f) ≡ true
unfolding stream_parts
all_parts_nonempty [] f = refl
all_parts_nonempty (k ∷ ks) f =
    ground (arith, nonempty_part k (field_of k f), all_parts_nonempty ks f)

stream_of_parts-nonempty :
    (ps : List Bytes)
    → all (λ p. not (is_empty p)) ps ≡ true
    → is_empty (stream_of_parts ps) ≡ false
unfolding join
stream_of_parts-nonempty [] h = refl
stream_of_parts-nonempty ([] ∷ ps) h = cc
stream_of_parts-nonempty ((c ∷ p) ∷ []) h = refl
stream_of_parts-nonempty ((c ∷ p) ∷ q ∷ ps) h = refl

-- A stream's identity is never the empty string.
pub stream_id-nonempty : (ks : List Bytes) (f : Map Bytes) → is_empty (stream_id ks f) ≡ false
unfolding stream_id
stream_id-nonempty ks f =
    stream_of_parts-nonempty (sort_strings (stream_parts ks f))
      (all-sort_strings (λ p. not (is_empty p)) (stream_parts ks f) ∙ all_parts_nonempty ks f)

missing_msg-is_copied : (k : Bytes) → bytes_eq field_msg k ≡ true → is_copied k missing_msg ≡ true
unfolding bytes_eq
missing_msg-is_copied k h = rw (← eq_of_bytes_eq field_msg k h)

stream-not_copied :
    (k : Bytes) (o : Option Bytes) → bytes_eq field_stream k ≡ true → copied_value k o ≡ none
stream-not_copied k none h = refl
stream-not_copied k (some v) h =
    ground (arith, eq_of_bytes_eq field_stream k h, bytes_eq_refl field_stream)

copied_value_twice :
    (k : Bytes) (missing : Bool) (o : Option Bytes)
    → copied_value k
        (if missing && bytes_eq field_msg k then some missing_msg else copied_value k o)
      ≡ (if missing && bytes_eq field_msg k then some missing_msg else copied_value k o)
copied_value_twice k missing none = ground (arith, missing_msg-is_copied k)
copied_value_twice k missing (some v) = ground (arith, missing_msg-is_copied k)

module _ (sf : List Bytes) (now : Time) (e : Entry) (h : IsMap e.fields) where
  abbrev messaged : Map Bytes
  messaged = with_msg (copy_fields e.fields [])

  lookup-messaged :
      (k : Bytes)
      → lookup k messaged ≡ (
          if is_empty (field_of field_msg (copy_fields e.fields [])) && bytes_eq field_msg k
          then some missing_msg
          else copied_value k (lookup k e.fields))
  lookup-messaged k = ground (
    arith,
    lookup-insert field_msg k missing_msg (copy_fields e.fields []),
    lookup_copied k e.fields h,
  )

  pub copied_messaged : (k : Bytes) → copied_value k (lookup k messaged) ≡ lookup k messaged
  copied_messaged k = rw (lookup-messaged k) (
      copied_value_twice k (is_empty (field_of field_msg (copy_fields e.fields [])))
        (lookup k e.fields))

  messaged_has_msg : is_empty (field_of field_msg messaged) ≡ false
  messaged_has_msg = ground (
    arith,
    lookup-insert field_msg field_msg missing_msg (copy_fields e.fields []),
    bytes_eq_refl field_msg,
  )

  recopy : (k : Bytes) → lookup k (copy_fields (normalize sf now e).fields []) ≡ lookup k messaged
  unfolding normalize
  recopy k =
      let sid = stream_id sf messaged in
      ground (
        arith,
        lookup_copied k (insert field_stream sid messaged) (normalize-IsMap sf now e),
        lookup-insert field_stream k sid messaged,
        copied_messaged k,
        stream-not_copied k (some sid),
        stream-not_copied k (lookup k messaged),
      )

  recopy_field :
      (k : Bytes) → field_of k (copy_fields (normalize sf now e).fields []) ≡ field_of k messaged
  recopy_field k = ground (arith, recopy k)

  recopy_messaged :
      with_msg (copy_fields (normalize sf now e).fields [])
      ≡ copy_fields (normalize sf now e).fields []
  recopy_messaged = ground (arith, recopy_field field_msg, messaged_has_msg)

-- What `normalize` gives has a time, and at every key what a second `normalize`, as the replay of
-- the log makes it, has there. The clock's time must not be the zero time.
pub normalize_idem :
    (sf : List Bytes) (now now' : Time) (e : Entry)
    → IsMap e.fields
    → is_zero now ≡ false
    → ((normalize sf now' (normalize sf now e)).time ≡ (normalize sf now e).time)
      × ((k : Bytes)
          → lookup k (normalize sf now' (normalize sf now e)).fields
            ≡ lookup k (normalize sf now e).fields)
unfolding normalize
normalize_idem sf now now' e h hn =
    let again = copy_fields (normalize sf now e).fields [] in
    let once = with_msg (copy_fields e.fields []) in
    (
      ground arith,
      λ k.
          ap (λ (m : Map Bytes). lookup k (with_stream sf m)) (recopy_messaged sf now e h)
          ∙ ground (
            arith,
            lookup-insert field_stream k (stream_id sf again) again,
            lookup-insert field_stream k (stream_id sf once) once,
            stream_id_ext sf again once (recopy_field sf now e h),
            recopy sf now e h k,
          ),
    )
