-- ===== src/Compaction/Merge.antt =====
-- compaction.go: what the loops of `writeMergedPart` make of the blocks of parts that flushes wrote.
use marchilogs.Base.{
  All, All-map, Bytes, List, Map, Option, Result, [], ap, insert, lookup, map, none, ok, refl, some,
  sym, ◌++◌, ◌>>=◌, ◌∙◌, ◌∷◌, ◌≡◌,
}
use marchilogs.Block.{BlockDir, MemBlock, empty_dir, read_block, write_to}
use marchilogs.Block.Files.{read_block-write_to}
use marchilogs.Compaction.{
  add_rows, merge_inputs, merge_part, merge_refs, merge_streams, merged_block,
}
use marchilogs.Entry.{Entry}
use marchilogs.Flush.{block_dirs, info_of, part_of, path_of}
use marchilogs.Search.{all_rows, no_part}
use marchilogs.Search.FlushedPart.{AreBlocks, absent_at_first, block_dirs-All}
use marchilogs.Search.Written.{IsWritable, all_rows-read, ref_of}
use marchilogs.Store.{Part, dir_at}
use marchilogs.Tags.{build_part_meta, stream_meta_of}

-- The rows of the blocks, added to the block of their stream.
unfoldable pub merge_blocks : List MemBlock → Map MemBlock → Map MemBlock
merge_blocks [] m = m
merge_blocks (b ∷ bs) m =
    merge_blocks bs (insert b.stream (add_rows (all_rows b) (merged_block b.stream m)) m)

merge_refs-written :
    (blocks : Map BlockDir) (b dst : MemBlock)
    → IsWritable b
    → dir_at (path_of b) blocks ≡ write_to b empty_dir
    → merge_refs blocks (ref_of b ∷ []) dst ≡ ok (add_rows (all_rows b) dst)
unfolding merge_refs
merge_refs-written blocks b dst v h =
    ap (λ (dir : BlockDir). read_block dir >>= λ b'. ok (add_rows (all_rows b') dst)) h
    ∙ ap (λ (r : Result MemBlock). r >>= λ b'. ok (add_rows (all_rows b') dst))
        (read_block-write_to b empty_dir v.files v.block.distinct v.fit v.few v.int64)
    ∙ ap (λ (es : List Entry). ok (add_rows es dst)) (all_rows-read b)

merge_streams-written :
    (blocks : Map BlockDir) (bs : List MemBlock) (m : Map MemBlock)
    → All IsWritable bs
    → All (λ (b : MemBlock). dir_at (path_of b) blocks ≡ write_to b empty_dir) bs
    → merge_streams blocks (map stream_meta_of (map info_of bs)) m ≡ ok (merge_blocks bs m)
unfolding merge_streams merge_blocks
merge_streams-written blocks [] m v h = refl
merge_streams-written blocks (b ∷ bs) m v h =
    ap
      (λ (r : Result MemBlock). r >>= λ dst.
        merge_streams blocks (map stream_meta_of (map info_of bs)) (insert b.stream dst m))
      (merge_refs-written blocks b (merged_block b.stream m) v.0 h.0)
    ∙ merge_streams-written blocks bs
        (insert b.stream (add_rows (all_rows b) (merged_block b.stream m)) m) v.1 h.1

-- A part whose directory holds what a flush writes for some blocks.
pub record Holds (parts : Map Part) (input : Bytes × List MemBlock) : Type 0 where
  pub blocks : AreBlocks input.1
  pub part : lookup input.0 parts ≡ some (part_of input.1)

abbrev pub ids_of_inputs : List (Bytes × List MemBlock) → List Bytes
ids_of_inputs inputs = map (λ (input : Bytes × List MemBlock). input.0) inputs

abbrev pub blocks_of_inputs : List (Bytes × List MemBlock) → List MemBlock
blocks_of_inputs [] = []
blocks_of_inputs (input ∷ inputs) = input.1 ++ blocks_of_inputs inputs

merge_blocks-append :
    (bs bs' : List MemBlock) (m : Map MemBlock)
    → merge_blocks (bs ++ bs') m ≡ merge_blocks bs' (merge_blocks bs m)
unfolding merge_blocks
merge_blocks-append [] bs' m = refl
merge_blocks-append (b ∷ bs) bs' m =
    merge_blocks-append bs bs' (insert b.stream (add_rows (all_rows b) (merged_block b.stream m)) m)

merge_part-written :
    (bs : List MemBlock) (m : Map MemBlock)
    → AreBlocks bs
    → merge_part (part_of bs) m ≡ ok (merge_blocks bs m)
unfolding build_part_meta
merge_part-written bs m v = merge_streams-written (block_dirs bs []) bs m v.writable (
    All-map (λ (b : MemBlock). lookup (path_of b) (block_dirs bs []) ≡ some (write_to b empty_dir))
      (λ (b : MemBlock). dir_at (path_of b) (block_dirs bs []) ≡ write_to b empty_dir)
      (λ b h. ap (λ (o : Option BlockDir). elim o [ none ↦ empty_dir | some dir ↦ dir ]) h) bs
      (block_dirs-All bs [] v.paths_differ (absent_at_first bs)))

-- The reads of a merge succeed on parts that flushes wrote.
pub merge_inputs-written :
    (parts : Map Part) (inputs : List (Bytes × List MemBlock)) (m : Map MemBlock)
    → All (Holds parts) inputs
    → merge_inputs parts (ids_of_inputs inputs) m ≡ ok (merge_blocks (blocks_of_inputs inputs) m)
unfolding merge_inputs merge_blocks
merge_inputs-written parts [] m h = refl
merge_inputs-written parts ((id, bs) ∷ inputs) m h =
    let rest = λ (m' : Map MemBlock). merge_inputs parts (ids_of_inputs inputs) m' in
    ap (λ (o : Option Part). merge_part (elim o [ none ↦ no_part | some part ↦ part ]) m >>= rest)
      h.0.part
    ∙ ap (λ (r : Result (Map MemBlock)). r >>= rest) (merge_part-written bs m h.0.blocks)
    ∙ merge_inputs-written parts inputs (merge_blocks bs m) h.1
    ∙ ap ok (sym (merge_blocks-append bs (blocks_of_inputs inputs) m))
