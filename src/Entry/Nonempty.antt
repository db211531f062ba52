-- ===== src/Entry/Nonempty.antt =====
-- entry.go: the names and values of the fields that `normalize` gives.
use marchilogs.Base.{
  Bool-cases, Bytes, is_empty, bytes_eq, eq_of_bytes_eq, lookup, IsMap, lookup-insert, ◌≡◌, refl,
  inl, inr, true, false, Option, some, List, [], arith,
}
use marchilogs.Calendar.{Time}
use marchilogs.Entry.{
  field_time, field_stream, Entry, stream_id, is_copied, copy_fields, with_msg, normalize,
}
use marchilogs.Entry.Normalize.{copied_value, is_copied_lem, stream_id-nonempty, copied_messaged}

stream_key :
    (k : Bytes)
    → bytes_eq field_stream k ≡ true
    → (is_empty k ≡ false) × (bytes_eq k field_time ≡ false)
unfolding bytes_eq
stream_key k h = rw (← eq_of_bytes_eq field_stream k h) (refl, refl)

copied_dest :
    (k v : Bytes) (o : Option Bytes) → o ≡ some v → copied_value k o ≡ o → is_copied k v ≡ true
copied_dest k v o e h = ground arith

-- Every field of a normalised entry has a name and a value that are not empty, and is not `_time`.
pub normalize_nonempty :
    (sf : List Bytes) (now : Time) (e : Entry)
    → IsMap e.fields
    → (k v : Bytes) → lookup k (normalize sf now e).fields ≡ some v
    → (is_empty k ≡ false) × (is_empty v ≡ false) × (bytes_eq k field_time ≡ false)
unfolding normalize
normalize_nonempty sf now e h k v found =
    let m = with_msg (copy_fields e.fields []) in
    let stored = lookup-insert field_stream k (stream_id sf m) m in
    elim (Bool-cases (bytes_eq field_stream k)) [
      | inl own ↦ ground (arith, stored, stream_key k own, stream_id-nonempty sf m)
      | inr other ↦
          let here : lookup k m ≡ some v = ground (arith, stored) in
          is_copied_lem k v (copied_dest k v (lookup k m) here (copied_messaged sf now e h k))
    ]
