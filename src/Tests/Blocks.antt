-- ===== src/Tests/Blocks.antt =====
-- block.go on fixed inputs.
use marchilogs.Base.{
  Bytes, IsMap, [], arith, bytes_eq, codes, lookup, mem_bytes, ok, pos, refl, some, ◌∷◌, ◌≡◌,
}
use marchilogs.Block.{
  MemBlock, add_with_seq, empty_dir, new_mem_block, read_block, row, time_file, write_string_column,
  write_to,
}
use marchilogs.Block.Files.{read_block-write_to, time_file-overwritten}
use marchilogs.Block.Read.{nonempty, row-add_with_seq_new, row-add_with_seq_old}
use marchilogs.Block.Rows.{IsBlock, add_with_seq-IsBlock, new_mem_block-IsBlock}
use marchilogs.Entry.{Entry}
use marchilogs.Tags.{safe_stream_dir}

abbrev hello : Entry
hello = record {
  time = pos 50;
  fields = (codes "_msg", codes "hello") ∷ (codes "host", codes "h1") ∷ [];
}

abbrev empty_block : MemBlock
empty_block = new_mem_block (codes "host=h1")

hello-IsMap : IsMap hello.fields
unfolding mem_bytes bytes_eq
hello-IsMap = (refl, (refl, tt))

one_row-IsBlock : IsBlock (add_with_seq empty_block hello 1)
one_row-IsBlock =
    add_with_seq-IsBlock empty_block hello 1 (new_mem_block-IsBlock (codes "host=h1")) hello-IsMap

add_with_seq-IsBlock_example : IsBlock (add_with_seq (add_with_seq empty_block hello 1) hello 2)
add_with_seq-IsBlock_example =
    add_with_seq-IsBlock (add_with_seq empty_block hello 1) hello 2 one_row-IsBlock hello-IsMap

row-add_with_seq_new_example :
    ((row (add_with_seq empty_block hello 1) 0).time ≡ pos 50)
    × ((k : Bytes)
        → lookup k (row (add_with_seq empty_block hello 1) 0).fields
          ≡ nonempty (lookup k hello.fields))
row-add_with_seq_new_example =
    row-add_with_seq_new empty_block hello 1 (new_mem_block-IsBlock (codes "host=h1")) hello-IsMap

row-add_with_seq_old_example :
    ((row (add_with_seq (add_with_seq empty_block hello 1) hello 2) 0).time
      ≡ (row (add_with_seq empty_block hello 1) 0).time)
    × ((k : Bytes)
        → lookup k (row (add_with_seq (add_with_seq empty_block hello 1) hello 2) 0).fields
          ≡ lookup k (row (add_with_seq empty_block hello 1) 0).fields)
unfolding add_with_seq
row-add_with_seq_old_example =
    row-add_with_seq_old (add_with_seq empty_block hello 1) hello 2 one_row-IsBlock hello-IsMap 0
      (omega arith)

-- A block of one row.
abbrev stored_block : MemBlock
stored_block = record {
  stream = codes "host=h1";
  times = pos 50 ∷ [];
  seqs = 1 ∷ [];
  fields = (codes "_msg", codes "hello" ∷ []) ∷ (codes "host", codes "h1" ∷ []) ∷ [];
  time_min = pos 50;
  time_max = pos 50;
}

read_block-write_to_example :
    read_block (write_to stored_block empty_dir) ≡ ok (record stored_block { seqs = [] })
unfolding mem_bytes bytes_eq safe_stream_dir
read_block-write_to_example =
    read_block-write_to stored_block empty_dir (refl, (refl, (refl, tt))) (refl, (refl, tt))
      ((omega arith, (omega arith, tt)), ((omega arith, (omega arith, tt)), tt)) (omega arith)
      ((omega arith, omega arith), tt)

-- A block with a field `:time`.
abbrev colliding_block : MemBlock
colliding_block = record stored_block { fields = (codes ":time", codes "x" ∷ []) ∷ [] }

time_file-overwritten_example :
    lookup time_file (write_to colliding_block empty_dir).files
    ≡ some (write_string_column (codes "x" ∷ []))
unfolding safe_stream_dir
time_file-overwritten_example =
    time_file-overwritten colliding_block [] (codes ":time") (codes "x" ∷ []) empty_dir refl refl
