-- ===== src/Entry.antt =====
-- entry.go: log entries, their normalisation and the identity of their stream. A nil map of fields
-- is the empty one, since the code reads both alike. `now` stands for `time.Now()`.
pub mod Normalize
pub mod Nonempty
use Prim.Native.Nat.{ℕ}
use marchilogs.Base.{
  if◌then◌else◌, ℤ, negsuc, eqb_ℤ, to_int64, join, sort_strings, Bytes, codes, is_empty, bytes_eq,
  Map, lookup, insert, Bool, not, ◌||◌, none, some, List, [], ◌∷◌, ◌++◌,
}
use marchilogs.Calendar.{Time}

abbrev pub field_msg : Bytes
field_msg = codes "_msg"

abbrev pub field_time : Bytes
field_time = codes "_time"

abbrev pub field_stream : Bytes
field_stream = codes "_stream"

abbrev pub default_stream : Bytes
default_stream = codes "_default"

abbrev pub missing_msg : Bytes
missing_msg = codes "missing _msg"

pub record Entry : Type 0 where
  pub time : Time
  pub fields : Map Bytes

-- `m[k]` of a `map[string]string`: a missing key reads as the empty string.
abbrev pub field_of : Bytes → Map Bytes → Bytes
field_of k m = elim (lookup k m) [ none ↦ [] | some v ↦ v ]

-- The zero `time.Time`: midnight of 1 January of year 1.
abbrev pub zero_time : Time
zero_time = negsuc 62_135_596_799_999_999_999

abbrev pub is_zero : Time → Bool
is_zero t = eqb_ℤ t zero_time

-- `t.UnixNano()`, which wraps outside the years 1678 to 2262.
abbrev pub unix_nano : Time → ℤ
unix_nano = to_int64

-- The loop of `StreamID`.
unfoldable pub stream_parts : List Bytes → Map Bytes → List Bytes
stream_parts [] fields = []
stream_parts (k ∷ ks) fields =
    if is_empty (field_of k fields)
    then stream_parts ks fields
    else (k ++ b'=' ∷ field_of k fields) ∷ stream_parts ks fields

abbrev pub stream_of_parts : List Bytes → Bytes
stream_of_parts [] = default_stream
stream_of_parts (p ∷ ps) = join b',' (p ∷ ps)

-- `StreamID`
unfoldable pub stream_id : List Bytes → Map Bytes → Bytes
stream_id stream_fields fields = stream_of_parts (sort_strings (stream_parts stream_fields fields))

-- `Entry.Msg`
abbrev pub msg : Entry → Bytes
msg e = field_of field_msg e.fields

-- The fields that `normalize` copies.
abbrev pub is_copied : Bytes → Bytes → Bool
is_copied k v = not (is_empty k || is_empty v || bytes_eq k field_time || bytes_eq k field_stream)

unfoldable pub copy_fields : Map Bytes → Map Bytes → Map Bytes
copy_fields [] out = out
copy_fields ((k, v) ∷ m) out = copy_fields m (if is_copied k v then insert k v out else out)

abbrev pub with_msg : Map Bytes → Map Bytes
with_msg fields =
    if is_empty (field_of field_msg fields) then insert field_msg missing_msg fields else fields

abbrev pub with_stream : List Bytes → Map Bytes → Map Bytes
with_stream stream_fields fields = insert field_stream (stream_id stream_fields fields) fields

-- `Entry.normalize`
unfoldable pub normalize : List Bytes → Time → Entry → Entry
normalize stream_fields now e = record {
  time = if is_zero e.time then now else e.time;
  fields = with_stream stream_fields (with_msg (copy_fields e.fields []));
}
