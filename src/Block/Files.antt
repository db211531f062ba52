-- ===== src/Block/Files.antt =====
-- block.go: the files that `writeTo` leaves, and `readBlock` on them.
use Prim.Native.Nat.{ℕ}
use mathlib.Core.Path.{subst}
use marchilogs.Base.{
  ltb, if◌then◌else◌, length, All, IsInt64, Bytes, codes, bytes_eq, bytes_eq_refl, bytes_eq_iff,
  mem_bytes, mem_bytes-append, Distinct, Map, keys, lookup, insert, lookup-insert, insert_absent,
  keys-append, ok, ◌^◌, ◌<◌, ◌≡◌, refl, sym, ap, ◌∙◌, Bool, true, false, some, List, [], ◌∷◌, ◌++◌,
  map, append-nil, append_assoc, arith,
}
use marchilogs.Entry.{field_msg}
use marchilogs.Tags.{ids_at, safe_stream_dir}
use marchilogs.Bloom.{build_msg_bloom, marshal}
use marchilogs.Block.{
  MemBlock, write_string_column, write_time_column, field_file_name, time_file, bloom_file,
  BlockDir, write_columns, write_to, read_columns, read_block,
}
use marchilogs.Block.Columns.{FitsColumn, read_string_column-write, read_time_column-write}

-- The files that hold the columns of a block.
abbrev pub column_files : Map (List Bytes) → List Bytes
column_files cols = map field_file_name (keys cols)

-- Every column stands in its file.
abbrev Stored : Map Bytes → Map (List Bytes) → Type 0
Stored files cols =
    All
      (λ (c : Bytes × List Bytes).
        lookup (field_file_name c.0) files ≡ some (write_string_column c.1))
      cols

pub lookup-write_columns :
    (name : Bytes) (cols : Map (List Bytes)) (files : Map Bytes)
    → mem_bytes name (column_files cols) ≡ false
    → lookup name (write_columns cols files) ≡ lookup name files
unfolding write_columns mem_bytes
lookup-write_columns name [] files h = refl
lookup-write_columns name ((k, col) ∷ cols) files h = ground (
  arith,
  lookup-write_columns name cols (insert (field_file_name k) (write_string_column col) files),
  lookup-insert (field_file_name k) name (write_string_column col) files,
)

write_columns-Stored :
    (cols : Map (List Bytes)) (files : Map Bytes)
    → Distinct (column_files cols)
    → Stored (write_columns cols files) cols
unfolding write_columns
write_columns-Stored [] files d = tt
write_columns-Stored ((k, col) ∷ cols) files d =
    let file = field_file_name k in
    let more = insert file (write_string_column col) files in
    (
      lookup-write_columns file cols more d.0
          ∙ ground
              (arith, lookup-insert file file (write_string_column col) files, bytes_eq_refl file),
      write_columns-Stored cols more d.1,
    )

-- The file of a column never is the bloom filter's.
last_byte : Bytes → ℕ
last_byte [] = 0
last_byte (c ∷ []) = c
last_byte (c ∷ d ∷ s) = last_byte (d ∷ s)

last_byte-append : (s : Bytes) (c : ℕ) (t : Bytes) → last_byte (s ++ c ∷ t) ≡ last_byte (c ∷ t)
unfolding last_byte
last_byte-append [] c t = refl
last_byte-append (a ∷ []) c t = refl
last_byte-append (a ∷ b ∷ s) c t = last_byte-append (b ∷ s) c t

pub field_file-ne-bloom : (k : Bytes) → bytes_eq bloom_file (field_file_name k) ≡ false
unfolding last_byte
field_file-ne-bloom k = ground (
  arith,
  bytes_eq_iff bloom_file (field_file_name k),
  last_byte-append (safe_stream_dir k) b'.' (codes "col"),
)

bloom-Stored :
    (cols : Map (List Bytes)) (content : Bytes) (files : Map Bytes)
    → Stored files cols
    → Stored (insert bloom_file content files) cols
bloom-Stored [] content files h = tt
bloom-Stored ((k, col) ∷ cols) content files h = (
  ground (
    arith,
    lookup-insert bloom_file (field_file_name k) content files,
    field_file-ne-bloom k,
    h.0,
  ),
  bloom-Stored cols content files h.1,
)

abbrev pub ColumnsFit : Map (List Bytes) → Type 0
ColumnsFit cols = All (λ (c : Bytes × List Bytes). (length c.1 < 2 ^ 32) × All FitsColumn c.1) cols

absent_before :
    (k : Bytes) (col : List Bytes) (out cols : Map (List Bytes))
    → Distinct (keys (out ++ (k, col) ∷ cols))
    → mem_bytes k (keys out) ≡ false
unfolding mem_bytes
absent_before k col [] cols d = refl
absent_before k col ((j, w) ∷ out) cols d = ground (
  arith,
  absent_before k col out cols d.1,
  keys-append {V = List Bytes} out ((k, col) ∷ cols),
  mem_bytes-append j (keys out) (k ∷ keys cols),
  bytes_eq_iff j k,
  bytes_eq_refl j,
)

read_columns-Stored :
    (cols out : Map (List Bytes)) (files : Map Bytes)
    → Distinct (keys (out ++ cols))
    → ColumnsFit cols
    → Stored files cols
    → read_columns (keys cols) files out ≡ ok (out ++ cols)
unfolding read_columns
read_columns-Stored [] out files d f h = ground (arith, append-nil out)
read_columns-Stored ((k, col) ∷ cols) out files d f h = ground (
  arith,
  h.0,
  read_string_column-write col f.0.0 f.0.1,
  insert_absent k col out (absent_before k col out cols d),
  read_columns-Stored cols (out ++ (k, col) ∷ []) files
      (subst (λ (m : Map (List Bytes)). Distinct (keys m))
        (sym (append_assoc out ((k, col) ∷ []) cols)) d)
      f.1 h.1,
  append_assoc out ((k, col) ∷ []) cols,
)

-- The files after `writeTo`: the columns in theirs and the times in theirs.
bloomed : List Bytes → Map Bytes → Map Bytes
bloomed msgs files =
    if ltb 0 (length msgs) then insert bloom_file (marshal (build_msg_bloom msgs)) files else files

if-Stored :
    (test : Bool) (cols : Map (List Bytes)) (more files : Map Bytes)
    → Stored more cols
    → Stored files cols
    → Stored (if test then more else files) cols
if-Stored true cols more files hm hf = hm
if-Stored false cols more files hm hf = hf

bloomed-Stored :
    (msgs : List Bytes) (cols : Map (List Bytes)) (files : Map Bytes)
    → Stored files cols
    → Stored (bloomed msgs files) cols
unfolding bloomed
bloomed-Stored msgs cols files h =
    let content = marshal (build_msg_bloom msgs) in
    if-Stored (ltb 0 (length msgs)) cols (insert bloom_file content files) files
      (bloom-Stored cols content files h) h

bloom_file-ne-time_file : bytes_eq bloom_file time_file ≡ false
unfolding bytes_eq
bloom_file-ne-time_file = refl

lookup-bloomed :
    (msgs : List Bytes) (files : Map Bytes)
    → lookup time_file (bloomed msgs files) ≡ lookup time_file files
unfolding bloomed
lookup-bloomed msgs files = ground (
  arith,
  lookup-insert bloom_file time_file (marshal (build_msg_bloom msgs)) files,
  bloom_file-ne-time_file,
)

-- A block whose columns go to files of their own, none of them the times', is read back as it was,
-- without the sequence numbers, whatever the directory held: no field stands twice, the rows, the
-- values of a column and the bytes of a value are fewer than 2^32, and the times have 64 bits.
pub read_block-write_to :
    (b : MemBlock) (dir : BlockDir)
    → Distinct (time_file ∷ column_files b.fields)
    → Distinct (keys b.fields)
    → ColumnsFit b.fields
    → length b.times < 2 ^ 32
    → All IsInt64 b.times
    → read_block (write_to b dir) ≡ ok (record b { seqs = [] })
unfolding read_block write_to bloomed
read_block-write_to b dir df dk hc hl ht =
    let timed = insert time_file (write_time_column b.times) dir.files in
    let msgs = ids_at field_msg b.fields in
    let files = write_columns b.fields timed in
    ground (
      arith,
      lookup-bloomed msgs files,
      lookup-write_columns time_file b.fields timed df.0,
      lookup-insert time_file time_file (write_time_column b.times) dir.files,
      bytes_eq_refl time_file,
      read_time_column-write b.times hl ht,
      read_columns-Stored b.fields [] (bloomed msgs files) dk hc
          (bloomed-Stored msgs b.fields files (write_columns-Stored b.fields timed df.1)),
    )

lookup-write_columns_last :
    (cols : Map (List Bytes)) (k : Bytes) (col : List Bytes) (files : Map Bytes)
    → lookup (field_file_name k) (write_columns (cols ++ (k, col) ∷ []) files)
      ≡ some (write_string_column col)
unfolding write_columns
lookup-write_columns_last [] k col files = ground (
  arith,
  lookup-insert (field_file_name k) (field_file_name k) (write_string_column col) files,
  bytes_eq_refl (field_file_name k),
)
lookup-write_columns_last ((j, w) ∷ cols) k col files =
    lookup-write_columns_last cols k col (insert (field_file_name j) (write_string_column w) files)

-- A block whose last column has the name of the times' file, as a field `:time` has, loses its
-- times: what is in their file is the column.
pub time_file-overwritten :
    (b : MemBlock) (cols : Map (List Bytes)) (k : Bytes) (col : List Bytes) (dir : BlockDir)
    → b.fields ≡ cols ++ (k, col) ∷ []
    → field_file_name k ≡ time_file
    → lookup time_file (write_to b dir).files ≡ some (write_string_column col)
unfolding write_to bloomed
time_file-overwritten b cols k col dir hb hk =
    let timed = insert time_file (write_time_column b.times) dir.files in
    let msgs = ids_at field_msg b.fields in
    ground (
      arith,
      hb,
      hk,
      lookup-bloomed msgs (write_columns b.fields timed),
      lookup-write_columns_last cols k col timed,
      ap (λ (m : Map (List Bytes)). write_columns m timed) hb,
      ap (λ (n : Bytes). lookup n (write_columns (cols ++ (k, col) ∷ []) timed)) hk,
    )
