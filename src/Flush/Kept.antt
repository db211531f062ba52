-- ===== src/Flush/Kept.antt =====
-- storage.go and block.go: the rows of a flush are read back from its part.
use marchilogs.Base.{
  All, Bytes, List, Option, [], ap, inl, inr, keys, lookup, mem_bytes, none, ok, some, true, ◌≡◌,
  ◌⊎◌, ◌∙◌, ◌∷◌,
}
use marchilogs.Block.{BlockDir, MemBlock, empty_dir, read_block, write_to}
use marchilogs.Block.Files.{read_block-write_to}
use marchilogs.Flush.{Io, blocks_of, flush_items, flush_partition, part_of, path_of, remove_items}
use marchilogs.Flush.Outcomes.{flush_partition-KeepsRows}
use marchilogs.Search.{all_rows}
use marchilogs.Search.FlushedPart.{AreBlocks, absent_at_first, block_dirs-All}
use marchilogs.Search.Written.{IsWritable, all_rows-read}
use marchilogs.Store.{Part, Store, day_at, dir_at}
use marchilogs.Tags.{ids_at}
use marchilogs.Wal.{RecordCodec}

-- The directory of a block in a part reads as a block with its rows.
abbrev pub ReadsBack : Part → MemBlock → Type 0
ReadsBack part b =
    (b' : MemBlock) × (read_block (dir_at (path_of b) part.blocks) ≡ ok b')
    × (all_rows b' ≡ all_rows b)

-- A part on disk that the manifest of its day lists, from which the rows of the blocks are read.
pub record HasPart (day : Bytes) (bs : List MemBlock) (s : Store) : Type 0 where
  pub name : Bytes
  pub part : Part
  pub on_disk : lookup name (day_at day s.disk).parts ≡ some part
  pub listed : mem_bytes name (ids_at day s.manifests) ≡ true
  pub read : All (ReadsBack part) bs

written-ReadsBack :
    (b : MemBlock) (part : Part)
    → IsWritable b
    → lookup (path_of b) part.blocks ≡ some (write_to b empty_dir)
    → ReadsBack part b
written-ReadsBack b part v h = (
  record b { seqs = [] },
  ap (λ (o : Option BlockDir). read_block (elim o [ none ↦ empty_dir | some dir ↦ dir ])) h
      ∙ read_block-write_to b empty_dir v.files v.block.distinct v.fit v.few v.int64,
  all_rows-read b,
)

All-ReadsBack :
    (part : Part) (bs : List MemBlock)
    → All IsWritable bs
    → All (λ (b : MemBlock). lookup (path_of b) part.blocks ≡ some (write_to b empty_dir)) bs
    → All (ReadsBack part) bs
All-ReadsBack part [] v h = tt
All-ReadsBack part (b ∷ bs) v h = (written-ReadsBack b part v.0 h.0, All-ReadsBack part bs v.1 h.1)

-- A flush of a partition loses no row, whichever calls of the operating system fail: afterwards all
-- buffers are as they were, or those that it collected are gone, and a part on disk, which the
-- manifest of the day lists, reads back each of their blocks with the same rows. The blocks that it
-- collects are of different streams with different directories; each writes its columns to files of
-- their own, none of them the times' file, and they are within the limits of the file format and of
-- its filters.
pub flush_partition-ReadsBack :
    (io : Io) (codec : RecordCodec) (day : Bytes) (s : Store)
    → AreBlocks (blocks_of (flush_items day s.buffers))
    → let items = flush_items day s.buffers in
      let s' = (flush_partition io codec day s).0 in
      (s'.buffers ≡ s.buffers)
      ⊎ (HasPart day (blocks_of items) s' × (s'.buffers ≡ remove_items (keys items) s.buffers))
flush_partition-ReadsBack io codec day s v =
    let bs = blocks_of (flush_items day s.buffers) in
    elim (flush_partition-KeepsRows io codec day s) [
      | inl same ↦ inl same
      | inr (id, made, fewer) ↦ inr (
        record {
          name = id;
          part = part_of bs;
          on_disk = made.on_disk;
          listed = made.listed;
          read =
              All-ReadsBack (part_of bs) bs v.writable
                (block_dirs-All bs [] v.paths_differ (absent_at_first bs));
        },
        fewer,
      )
    ]
