-- ===== src/Block/Columns.antt =====
-- block.go: the bytes of a column, and reading them.
use marchilogs.Base.{
  length, All, ℤ, IsInt64, to_uint64, to_uint64-lt, to_int64-to_uint64, Bytes, ok, read_full-append,
  put_le, length-put_le, get_le-put_le, ◌^◌, ◌<◌, ◌≡◌, refl, ap, List, [], ◌∷◌, ◌++◌, append-nil,
  append_assoc,
}
use marchilogs.Block.{
  put_strings, write_string_column, get_strings, read_string_column, put_times, write_time_column,
  get_times, read_time_column,
}

-- A string whose length fits the four bytes that it is written in.
abbrev pub FitsColumn : Bytes → Type 0
FitsColumn v = length v < 2 ^ 32

get_strings-put_strings :
    (vs : List Bytes) (rest : Bytes)
    → All FitsColumn vs
    → get_strings (length vs) (put_strings vs ++ rest) ≡ ok vs
unfolding get_strings put_strings
get_strings-put_strings [] rest h = refl
get_strings-put_strings (v ∷ vs) rest h =
    let word = put_le 4 (length v) in
    let more = put_strings vs ++ rest in
    rw (
      append_assoc (word ++ v) (put_strings vs) rest,
      append_assoc word v more,
      read_full-append 4 word (v ++ more) (length-put_le 4 (length v)),
      get_le-put_le 4 (length v) h.0,
      read_full-append (length v) v more refl,
      get_strings-put_strings vs rest h.1,
    )

-- `readStringColumn` reads back what `writeStringColumn` wrote: fewer than 2^32 strings, each of
-- fewer than 2^32 bytes.
pub read_string_column-write :
    (vs : List Bytes)
    → length vs < 2 ^ 32
    → All FitsColumn vs
    → read_string_column (write_string_column vs) ≡ ok vs
unfolding read_string_column write_string_column
read_string_column-write vs hl h = rw (
  read_full-append 4 (put_le 4 (length vs)) (put_strings vs) (length-put_le 4 (length vs)),
  get_le-put_le 4 (length vs) hl,
  ← append-nil (put_strings vs),
  get_strings-put_strings vs [] h,
)

get_times-put_times : (ts : List ℤ) → All IsInt64 ts → get_times (length ts) (put_times ts) ≡ ok ts
unfolding get_times put_times
get_times-put_times [] h = refl
get_times-put_times (t ∷ ts) h =
    let word = put_le 8 (to_uint64 t) in
    rw
      (
        read_full-append 8 word (put_times ts) (length-put_le 8 (to_uint64 t)),
        get_le-put_le 8 (to_uint64 t) (to_uint64-lt t),
        get_times-put_times ts h.1,
      )
      (ap (λ (x : ℤ). ok (x ∷ ts)) (to_int64-to_uint64 t h.0))

-- `readTimeColumn` reads back what `writeTimeColumn` wrote: fewer than 2^32 `int64` values.
pub read_time_column-write :
    (ts : List ℤ)
    → length ts < 2 ^ 32
    → All IsInt64 ts
    → read_time_column (write_time_column ts) ≡ ok ts
unfolding read_time_column write_time_column
read_time_column-write ts hl h = rw (
  read_full-append 4 (put_le 4 (length ts)) (put_times ts) (length-put_le 4 (length ts)),
  get_le-put_le 4 (length ts) hl,
  get_times-put_times ts h,
)
