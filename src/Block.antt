-- ===== src/Block.antt =====
-- block.go: the rows of one stream in memory, their columns on disk, and the way back. A directory
-- is a map from file names to contents; the JSON text of `meta.json` is kept as the value that it
-- stands for, and the columns and the bloom filter are bytes.
pub mod Rows
pub mod Read
pub mod Columns
pub mod Files
use Prim.Native.Nat.{ℕ}
use marchilogs.Base.{
  ltb, ◌==◌, if◌then◌else◌, length, get_or, replicate, ℤ, pos, ltb_ℤ, to_int64, to_uint64, Bytes,
  codes, is_empty, Map, keys, lookup, insert, not_exist, Result, ok, err, ◌>>=◌, read_full, put_le,
  get_le, zero, suc, ◌+◌, ◌-◌, Bool, false, Option, none, some, List, [], ◌∷◌, ◌++◌,
}
use marchilogs.Calendar.{Time}
use marchilogs.Entry.{field_msg, Entry, unix_nano}
use marchilogs.Tags.{ids_at, safe_stream_dir, time_range_overlaps}
use marchilogs.Bloom.{build_msg_bloom, marshal}

-- `blockMeta`
pub record BlockMeta : Type 0 where
  pub stream : Bytes
  pub rows : ℕ
  pub time_min_ns : ℤ
  pub time_max_ns : ℤ
  pub fields : List Bytes

-- `memBlock`
pub record MemBlock : Type 0 where
  pub stream : Bytes
  pub times : List ℤ
  pub seqs : List ℕ
  pub fields : Map (List Bytes)
  pub time_min : ℤ
  pub time_max : ℤ

-- `newMemBlock`
abbrev pub new_mem_block : Bytes → MemBlock
new_mem_block stream = record {
  stream = stream;
  times = [];
  seqs = [];
  fields = [];
  time_min = pos 0;
  time_max = pos 0;
}

-- `rows`
abbrev pub rows : MemBlock → ℕ
rows b = length b.times

-- A column of `n - 1` values, with empty strings for the rows that it missed, and a new value.
abbrev pub pad_to : ℕ → List Bytes → List Bytes
pad_to n col = col ++ replicate (n - length col) []

-- The first loop of `addWithSeq`; `past` is the number of rows before this one.
unfoldable pub add_values : ℕ → Map Bytes → Map (List Bytes) → Map (List Bytes)
add_values past [] cols = cols
add_values past ((k, v) ∷ fields) cols =
    add_values past fields
      (insert k (pad_to past (elim (lookup k cols) [ none ↦ [] | some col ↦ col ]) ++ v ∷ []) cols)

-- The second loop: a column that is still short gets one empty string.
unfoldable pub pad_missing : ℕ → Map (List Bytes) → Map (List Bytes)
pad_missing n [] = []
pad_missing n ((k, col) ∷ cols) =
    (k, if ltb (length col) n then col ++ [] ∷ [] else col) ∷ pad_missing n cols

-- `addWithSeq`
unfoldable pub add_with_seq : MemBlock → Entry → ℕ → MemBlock
add_with_seq b e seq =
    let ts = unix_nano e.time in
    let past = rows b in
    record b {
      times = b.times ++ ts ∷ [];
      seqs = b.seqs ++ seq ∷ [];
      time_min = if past == 0 then ts else if ltb_ℤ ts b.time_min then ts else b.time_min;
      time_max = if past == 0 then ts else if ltb_ℤ b.time_max ts then ts else b.time_max;
      fields = pad_missing (past + 1) (add_values past e.fields b.fields);
    }

-- `add`
abbrev pub add_entry : MemBlock → Entry → MemBlock
add_entry b e = add_with_seq b e 0

-- `overlaps`
unfoldable pub overlaps : MemBlock → Time → Time → Bool
overlaps b start end =
    if rows b == 0 then false else time_range_overlaps start end b.time_min b.time_max

-- The fields of row `i`: a value that is missing or empty is left out.
unfoldable pub row_fields : ℕ → Map (List Bytes) → Map Bytes → Map Bytes
row_fields i [] out = out
row_fields i ((k, col) ∷ cols) out =
    row_fields i cols (if is_empty (get_or col i []) then out else insert k (get_or col i []) out)

-- `row`; the callers keep `i` below the number of rows.
unfoldable pub row : MemBlock → ℕ → Entry
row b i = record { time = get_or b.times i (pos 0); fields = row_fields i b.fields [] }

unfoldable pub put_strings : List Bytes → Bytes
put_strings [] = []
put_strings (v ∷ vs) = put_le 4 (length v) ++ v ++ put_strings vs

-- `writeStringColumn`: the bytes that it writes.
unfoldable pub write_string_column : List Bytes → Bytes
write_string_column values = put_le 4 (length values) ++ put_strings values

unfoldable pub get_strings : ℕ → Bytes → Result (List Bytes)
get_strings zero s = ok []
get_strings (suc n) s = do
  (word, s') ← read_full 4 s
  (v, s'') ← read_full (get_le word) s'
  vs ← get_strings n s''
  ok (v ∷ vs)

-- `readStringColumn`
unfoldable pub read_string_column : Bytes → Result (List Bytes)
read_string_column s = do (word, rest) ← read_full 4 s; get_strings (get_le word) rest

unfoldable pub put_times : List ℤ → Bytes
put_times [] = []
put_times (t ∷ ts) = put_le 8 (to_uint64 t) ++ put_times ts

-- `writeTimeColumn`
unfoldable pub write_time_column : List ℤ → Bytes
write_time_column times = put_le 4 (length times) ++ put_times times

unfoldable pub get_times : ℕ → Bytes → Result (List ℤ)
get_times zero s = ok []
get_times (suc n) s = do
  (word, s') ← read_full 8 s
  ts ← get_times n s'
  ok (to_int64 (pos (get_le word)) ∷ ts)

-- `readTimeColumn`
unfoldable pub read_time_column : Bytes → Result (List ℤ)
read_time_column s = do (word, rest) ← read_full 4 s; get_times (get_le word) rest

-- `fieldFileName`
abbrev pub field_file_name : Bytes → Bytes
field_file_name field = safe_stream_dir field ++ codes ".col"

abbrev pub time_file : Bytes
time_file = codes "_time.col"

abbrev pub bloom_file : Bytes
bloom_file = codes "_msg.bloom"

-- The directory of a block.
pub record BlockDir : Type 0 where
  pub meta : Option BlockMeta
  pub files : Map Bytes

abbrev pub empty_dir : BlockDir
empty_dir = record { meta = none; files = [] }

unfoldable pub write_columns : Map (List Bytes) → Map Bytes → Map Bytes
write_columns [] files = files
write_columns ((k, col) ∷ cols) files =
    write_columns cols (insert (field_file_name k) (write_string_column col) files)

-- `writeTo`, where no write fails: the metadata, the times, the columns, then the bloom filter.
unfoldable pub write_to : MemBlock → BlockDir → BlockDir
write_to b dir =
    let timed = insert time_file (write_time_column b.times) dir.files in
    let columns = write_columns b.fields timed in
    let msgs = ids_at field_msg b.fields in
    record {
      meta = some (record {
        stream = b.stream;
        rows = rows b;
        time_min_ns = b.time_min;
        time_max_ns = b.time_max;
        fields = keys b.fields;
      });
      files =
          if ltb 0 (length msgs)
          then insert bloom_file (marshal (build_msg_bloom msgs)) columns
          else columns;
    }

abbrev pub read_file : Map Bytes → Bytes → Result Bytes
read_file files name = elim (lookup name files) [ none ↦ err not_exist | some s ↦ ok s ]

-- `readBlockMeta`
abbrev pub read_block_meta : BlockDir → Result BlockMeta
read_block_meta dir = elim dir.meta [ none ↦ err not_exist | some m ↦ ok m ]

unfoldable pub read_columns : List Bytes → Map Bytes → Map (List Bytes) → Result (Map (List Bytes))
read_columns [] files cols = ok cols
read_columns (k ∷ ks) files cols = do
  s ← read_file files (field_file_name k)
  col ← read_string_column s
  read_columns ks files (insert k col cols)

-- `readBlock`; the sequence numbers are not on disk.
unfoldable pub read_block : BlockDir → Result MemBlock
read_block dir = do
  meta ← read_block_meta dir
  s ← read_file dir.files time_file
  times ← read_time_column s
  cols ← read_columns meta.fields dir.files []
  ok (record {
    stream = meta.stream;
    times = times;
    seqs = [];
    fields = cols;
    time_min = meta.time_min_ns;
    time_max = meta.time_max_ns;
  })
