-- ===== src/Search/Written.antt =====
-- storage.go, block.go and bloom.go: the search of a block that was written to disk, against a scan of
-- its rows.
use marchilogs.Base.{
  All, Bool, Bytes, Distinct, IsInt64, List, Map, Option, Result, [], ap, append-nil, arith,
  bytes_eq, bytes_eq_iff, bytes_eq_refl, false, get_or, has_substring, if-both, if◌then◌else◌,
  insert, is_empty, keep_if, keep_if-none, length, lookup, lookup-insert, ltb, mem_bytes, none, not,
  refl, some, suc, sym, true, zero, ℕ, ◌&&◌, ◌+◌, ◌-◌, ◌<◌, ◌^◌, ◌||◌, ◌∙◌, ◌∷◌, ◌≡◌,
}
use marchilogs.Block.{
  BlockDir, MemBlock, bloom_file, empty_dir, field_file_name, read_block, row, rows, time_file,
  write_columns, write_time_column, write_to,
}
use marchilogs.Block.Files.{
  ColumnsFit, column_files, field_file-ne-bloom, lookup-write_columns, read_block-write_to,
}
use marchilogs.Block.Read.{lookup-row, nonempty}
use marchilogs.Block.Rows.{IsBlock, col_of}
use marchilogs.Bloom.{block_might_contain_msg, build_msg_bloom, count_trigrams, marshal}
use marchilogs.Bloom.Codec.{block_might_contain_msg_sound}
use marchilogs.Deletes.{DeleteRecord}
use marchilogs.Entry.{Entry, field_msg, is_zero, msg}
use marchilogs.Flush.{info_of, path_of}
use marchilogs.Search.{
  Flow, Found, Query, all_rows, block_refs_for_stream, go, rows_from, scan_block, scan_rows,
  scanned_block, search_block, search_blocks, search_refs, seen_block, skipped_block, ◌and_then◌,
}
use marchilogs.Search.Flows.{
  Adds, Adds-none, Adds-then, row_passes, scan_rows-Adds, unless_pruned-both,
}
use marchilogs.Search.Window.{All-all_rows, Within-all_rows, no_text-row_passes, pruned_by_time}
use marchilogs.Store.{dir_at}
use marchilogs.Tags.{BlockRef, filter_block_refs, ids_at, stream_meta_of, time_range_overlaps}
use mathlib.Core.Path.{subst}

-- The messages of a block.
abbrev pub msgs_of : MemBlock → List Bytes
msgs_of b = ids_at field_msg b.fields

-- A block whose columns go to files of their own, within the limits of the format and of the filter.
pub record IsWritable (b : MemBlock) : Type 0 where
  pub block : IsBlock b
  pub files : Distinct (time_file ∷ column_files b.fields)
  pub fit : ColumnsFit b.fields
  pub few : rows b < 2 ^ 32
  pub int64 : All IsInt64 b.times
  pub few_trigrams : count_trigrams (msgs_of b) < 2 ^ 34 - 3

-- The reference to the block of a stream in the metadata of a part.
abbrev pub ref_of : MemBlock → BlockRef
ref_of b = record {
  path = path_of b;
  time_min_ns = b.time_min;
  time_max_ns = b.time_max;
  rows = rows b;
}

no_bloom_column : (cols : Map (List Bytes)) → mem_bytes bloom_file (column_files cols) ≡ false
unfolding mem_bytes
no_bloom_column [] = refl
no_bloom_column ((k, col) ∷ cols) = ground (
  arith,
  field_file-ne-bloom k,
  bytes_eq_iff bloom_file (field_file_name k),
  bytes_eq_iff (field_file_name k) bloom_file,
  no_bloom_column cols,
)

time_file-ne-bloom_file : bytes_eq time_file bloom_file ≡ false
unfolding bytes_eq
time_file-ne-bloom_file = refl

-- What the file of the filter holds in a directory that was empty.
lookup-bloom_file :
    (b : MemBlock)
    → lookup bloom_file (write_to b empty_dir).files
      ≡ (if ltb 0 (length (msgs_of b)) then some (marshal (build_msg_bloom (msgs_of b))) else none)
unfolding write_to
lookup-bloom_file b =
    let timed = insert time_file (write_time_column b.times) [] in
    let columns = write_columns b.fields timed in
    let content = marshal (build_msg_bloom (msgs_of b)) in
    if-both
      (λ (files : Map Bytes).
        lookup bloom_file files ≡ (if ltb 0 (length (msgs_of b)) then some content else none))
      (ltb 0 (length (msgs_of b))) (insert bloom_file content columns) columns
      (λ has_msgs.
        lookup-insert bloom_file bloom_file content columns
        ∙ ap (λ c. if c then some content else lookup bloom_file columns) (bytes_eq_refl bloom_file)
        ∙ rw has_msgs refl)
      (λ no_msgs.
        lookup-write_columns bloom_file b.fields timed (no_bloom_column b.fields)
        ∙ lookup-insert time_file bloom_file (write_time_column b.times) []
        ∙ ap (λ c. if c then some (write_time_column b.times) else lookup bloom_file [])
            time_file-ne-bloom_file
        ∙ (unfold lookup in rw no_msgs refl))

mem-get_or :
    (xs : List Bytes) (i : ℕ) (d : Bytes) → i < length xs → mem_bytes (get_or xs i d) xs ≡ true
unfolding mem_bytes
mem-get_or [] i d h = absurd (omega arith)
mem-get_or (x ∷ xs) zero d h = ground (arith, bytes_eq_refl x)
mem-get_or (x ∷ xs) (suc i) d h = ground (arith, mem-get_or xs i d (omega arith))

-- The message of a row is its value in the column of messages.
msg-row : (b : MemBlock) (i : ℕ) → IsBlock b → msg (row b i) ≡ get_or (msgs_of b) i []
msg-row b i v =
    ap (λ (o : Option Bytes). elim o [ none ↦ [] | some w ↦ w ])
      (lookup-row b i field_msg v.distinct)
    ∙ whole (get_or (col_of (lookup field_msg b.fields)) i [])
    ∙ ap (λ (col : List Bytes). get_or col i []) (same (lookup field_msg b.fields))
  where
    whole :
        (w : Bytes) → (elim (nonempty (some w)) as (λ x. Bytes) [ none ↦ [] | some w' ↦ w' ]) ≡ w
    whole [] = refl
    whole (c ∷ w) = refl

    same : (o : Option (List Bytes)) → col_of o ≡ (elim o [ none ↦ [] | some col ↦ col ])
    same none = refl
    same (some col) = refl

length-msgs :
    (b : MemBlock) → IsBlock b → ltb 0 (length (msgs_of b)) ≡ true → length (msgs_of b) ≡ rows b
length-msgs b v h = of_column (lookup field_msg b.fields) (v.columns field_msg) h
  where
    of_column :
        (o : Option (List Bytes))
        → ((col : List Bytes) → o ≡ some col → length col ≡ rows b)
        → ltb 0 (length (elim o as (λ x. List Bytes) [ none ↦ [] | some col ↦ col ])) ≡ true
        → length (elim o as (λ x. List Bytes) [ none ↦ [] | some col ↦ col ]) ≡ rows b
    of_column none full h = cc
    of_column (some col) full h = full col refl

-- Where a row has the text, the filter lets its block pass.
bloom-passes :
    (b : MemBlock) (needle : Bytes) (i : ℕ)
    → IsWritable b
    → i < rows b
    → has_substring (msg (row b i)) needle ≡ true
    → block_might_contain_msg (lookup bloom_file (write_to b empty_dir).files) needle ≡ true
unfolding block_might_contain_msg
bloom-passes b needle i v lt h =
    let content = marshal (build_msg_bloom (msgs_of b)) in
    let might = λ (o : Option Bytes). block_might_contain_msg o needle ≡ true in
    subst might (sym (lookup-bloom_file b)) (
      if-both might (ltb 0 (length (msgs_of b))) (some content) none
        (λ has_msgs.
          (block_might_contain_msg_sound (msgs_of b) (msg (row b i)) needle v.few_trigrams
            (ap (λ (m : Bytes). mem_bytes m (msgs_of b)) (msg-row b i v.block)
              ∙ mem-get_or (msgs_of b) i []
                  (subst (λ n. i < n) (sym (length-msgs b v.block has_msgs)) lt))
            h).0)
        (λ no_msgs. without_file needle))
  where
    without_file : (needle : Bytes) → block_might_contain_msg none needle ≡ true
    without_file needle = ground arith

-- The rows do not show the sequence numbers, which are not on disk.
pub all_rows-read : (b : MemBlock) → all_rows (record b { seqs = [] }) ≡ all_rows b
unfolding rows_from row
all_rows-read b = same_rows (rows b) 0
  where
    same_rows : (todo i : ℕ) → rows_from (record b { seqs = [] }) todo i ≡ rows_from b todo i
    same_rows zero i = refl
    same_rows (suc todo) i = ap (λ (es : List Entry). row b i ∷ es) (same_rows todo (i + 1))

module _ (q : Query) (dels : List DeleteRecord) (b : MemBlock) (v : IsWritable b) where
  skipped_rows :
      (not (is_empty q.contains)
          && not
              (block_might_contain_msg (lookup bloom_file (write_to b empty_dir).files) q.contains))
        ≡ true
      → keep_if (row_passes q dels) (all_rows b) ≡ []
  skipped_rows h = keep_if-none (row_passes q dels) (all_rows b) (
      All-all_rows (λ e. row_passes q dels e ≡ false) b
        (λ i lt. no_text-row_passes q dels (row b i) (
          no_text (is_empty q.contains) (has_substring (msg (row b i)) q.contains)
            (block_might_contain_msg (lookup bloom_file (write_to b empty_dir).files) q.contains) h
            (bloom-passes b q.contains i v lt))))
    where
      imp : false ≡ true → ⊥
      imp e = cc

      no_text :
          (empty found might : Bool)
          → (not empty && not might) ≡ true
          → (found ≡ true → might ≡ true)
          → (not empty && not found) ≡ true
      no_text false false might h f = refl
      no_text false true true h f = h
      no_text false true false h f = absurd (imp (f refl))
      no_text true found might h f = cc

  search_block-Adds :
      (f : Found)
      → q.limit ≡ 0
      → Adds
          (search_block q dels (write_to b empty_dir) f)
          f.out
          (keep_if (row_passes q dels) (all_rows b))
  unfolding search_block
  search_block-Adds f hl =
      let dir = write_to b empty_dir in
      let kept = keep_if (row_passes q dels) (all_rows b) in
      unless_pruned-both (λ (flow : Flow). Adds flow f.out kept)
        (not (is_empty q.contains)
          && not (block_might_contain_msg (lookup bloom_file dir.files) q.contains))
        (go (skipped_block (seen_block f))) (scan_block q dels (read_block dir) (seen_block f))
        (λ skipped.
          subst (Adds (go (skipped_block (seen_block f))) f.out) (sym (skipped_rows skipped))
            (Adds-none (skipped_block (seen_block f)) f.out refl))
        (λ read.
          subst (λ (r : Result MemBlock). Adds (scan_block q dels r (seen_block f)) f.out kept)
            (sym (read_block-write_to b empty_dir v.files v.block.distinct v.fit v.few v.int64))
            (subst
              (λ (es : List Entry).
                Adds (scan_rows q dels es (scanned_block (seen_block f))) f.out kept)
              (sym (all_rows-read b))
              (scan_rows-Adds q dels (all_rows b) (scanned_block (seen_block f)) hl)))

  -- What the references of a stream select: its one block, or nothing where its bounds are outside.
  selected :
      (blocks : Map BlockDir)
      → filter_block_refs (ref_of b ∷ []) q.start q.end ≡ (
          if (is_zero q.start && is_zero q.end)
            || time_range_overlaps q.start q.end b.time_min b.time_max
          then ref_of b ∷ []
          else [])
  unfolding filter_block_refs
  selected blocks =
      by_tests (is_zero q.start && is_zero q.end)
        (time_range_overlaps q.start q.end b.time_min b.time_max)
    where
      by_tests :
          (none_given overlap : Bool)
          → (if none_given then ref_of b ∷ [] else if overlap then ref_of b ∷ [] else [])
            ≡ (if none_given || overlap then ref_of b ∷ [] else [])
      by_tests true overlap = refl
      by_tests false overlap = refl

  -- The search of a stream of a part, whose directory holds what a flush wrote for a block, adds
  -- exactly the rows of the block that pass the tests, in their order, where there is no limit: the
  -- bounds, the bloom filter and the files lose no row and add none.
  pub search_stream-written :
      (blocks : Map BlockDir) (f : Found)
      → q.limit ≡ 0
      → dir_at (path_of b) blocks ≡ write_to b empty_dir
      → Adds
          (search_refs q dels blocks (block_refs_for_stream (stream_meta_of (info_of b)) blocks) f)
          f.out
          (keep_if (row_passes q dels) (all_rows b))
  unfolding block_refs_for_stream search_blocks
  search_stream-written blocks f hl hd =
      let kept = keep_if (row_passes q dels) (all_rows b) in
      let none_given = is_zero q.start && is_zero q.end in
      let overlap = time_range_overlaps q.start q.end b.time_min b.time_max in
      subst (λ (refs : List BlockRef). Adds (search_blocks q dels blocks refs f) f.out kept)
        (sym (selected blocks))
        (if-both (λ (refs : List BlockRef). Adds (search_blocks q dels blocks refs f) f.out kept)
          (none_given || overlap) (ref_of b ∷ []) []
          (λ searched.
            subst
              (λ (dir : BlockDir). Adds (search_block q dels dir f and_then λ f'. go f') f.out kept)
              (sym hd)
              (subst
                (Adds (search_block q dels (write_to b empty_dir) f and_then λ f'. go f') f.out)
                (append-nil kept)
                (Adds-then (search_block q dels (write_to b empty_dir) f) (λ f'. go f') f.out kept
                  [] (search_block-Adds f hl) (λ f'. Adds-none f' f'.out refl))))
          (λ outside.
            subst (Adds (go f) f.out)
              (sym (
                pruned_by_time q dels b.time_min b.time_max (all_rows b)
                  (Within-all_rows b b.time_min b.time_max v.block.bounded)
                  (second none_given overlap outside)))
              (Adds-none f f.out refl)))
    where
      second : (a c : Bool) → (a || c) ≡ false → c ≡ false
      second a c h = ground arith
