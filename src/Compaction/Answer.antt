-- ===== src/Compaction/Answer.antt =====
-- compaction.go: a merge of parts against the rows of their blocks.
use marchilogs.Base.{
  All, All-append, All-insert, All-lookup, Bool, Bytes, List, Map, Option, [], ap, arith, bytes_eq,
  count_if, count_if-append, false, if-both, if◌then◌else◌, insert, is_nil, keep_if, keep_if-append,
  lookup, none, ok, refl, some, true, ℕ, ◌++◌, ◌+◌, ◌||◌, ◌∙◌, ◌∷◌, ◌≡◌,
}
use marchilogs.Block.{MemBlock, new_mem_block}
use marchilogs.Compaction.{add_rows, merge_inputs, merged_block}
use marchilogs.Compaction.Alike.{Respects, count-alike, row_passes-Respects}
use marchilogs.Compaction.Merge.{
  Holds, blocks_of_inputs, ids_of_inputs, merge_blocks, merge_inputs-written,
}
use marchilogs.Compaction.Rows.{
  Gains, IsTarget, add_rows-Gains, all_rows-IsRow, new_mem_block-IsTarget,
}
use marchilogs.Deletes.{DeleteRecord}
use marchilogs.Entry.{Entry}
use marchilogs.Flush.{blocks_of}
use marchilogs.Search.{Query, all_rows, rows_from}
use marchilogs.Search.Buffers.{wanted_rows}
use marchilogs.Search.Flows.{row_passes}
use marchilogs.Search.PartAnswer.{count_wanted}
use marchilogs.Search.Written.{IsWritable}
use marchilogs.Store.{Part}
use marchilogs.Tags.{stream_matches_tags}

-- The blocks that are merged into, by their streams.
AreTargets : Map MemBlock → Type 0
AreTargets m = All (λ (item : Bytes × MemBlock). IsTarget item.1 × (item.1.stream ≡ item.0)) m

merged_block-IsTarget :
    (k : Bytes) (m : Map MemBlock)
    → AreTargets m
    → IsTarget (merged_block k m) × ((merged_block k m).stream ≡ k)
unfolding AreTargets
merged_block-IsTarget k m h = which (lookup k m) (λ b e.
    All-lookup (λ (item : Bytes × MemBlock). IsTarget item.1 × (item.1.stream ≡ item.0)) k b m h e)
  where
    which :
        (o : Option MemBlock)
        → ((b : MemBlock) → o ≡ some b → IsTarget b × (b.stream ≡ k))
        → let b : MemBlock = elim o [ none ↦ new_mem_block k | some b ↦ b ] in
          IsTarget b × (b.stream ≡ k)
    which none found = (new_mem_block-IsTarget k, refl)
    which (some b) found = found b refl

module _ (p : Entry → Bool) (q : Query) (dels : List DeleteRecord) (respects : Respects p) where
  -- How many rows of a block a query asks for that the test accepts.
  wanted : MemBlock → ℕ
  wanted b = count_if p (wanted_rows q dels b)

  wanted-new : (k : Bytes) → wanted (new_mem_block k) ≡ 0
  unfolding wanted rows_from
  wanted-new k =
      if-both (λ (es : List Entry). count_if p es ≡ 0)
        (is_nil q.stream_eq || stream_matches_tags k q.stream_eq) [] [] (λ h. refl) (λ h. refl)

  wanted-Gains :
      (b dst dst' : MemBlock)
      → Gains (all_rows b) dst dst'
      → dst.stream ≡ b.stream
      → wanted dst' ≡ wanted dst + wanted b
  unfolding wanted
  wanted-Gains b dst dst' g h =
      let keep = λ (es : List Entry). keep_if (row_passes q dels) es in
      let asked = λ (a : Bytes). is_nil q.stream_eq || stream_matches_tags a q.stream_eq in
      by_stream (asked dst'.stream) (asked dst.stream) (asked b.stream) (keep (all_rows dst'))
        (keep (all_rows dst)) (keep (all_rows b)) (ap asked (g.same_stream ∙ h)) (ap asked h)
        (count-alike p (row_passes q dels) (all_rows dst') (all_rows dst ++ all_rows b) respects
            (row_passes-Respects q dels) g.rows_alike
          ∙ ap (count_if p) (keep_if-append (row_passes q dels) (all_rows dst) (all_rows b))
          ∙ count_if-append p (keep (all_rows dst)) (keep (all_rows b)))
    where
      by_stream :
          (x y z : Bool) (es es' es'' : List Entry)
          → x ≡ z
          → y ≡ z
          → count_if p es ≡ count_if p es' + count_if p es''
          → count_if p (if x then es else [])
            ≡ count_if p (if y then es' else []) + count_if p (if z then es'' else [])
      by_stream true true true es es' es'' ex ey h = h
      by_stream false false false es es' es'' ex ey h = omega arith
      by_stream true true false es es' es'' ex ey h = cc
      by_stream true false z es es' es'' ex ey h = ground arith
      by_stream false true z es es' es'' ex ey h = ground arith
      by_stream false false true es es' es'' ex ey h = cc

  count_wanted-insert :
      (k : Bytes) (b' : MemBlock) (m : Map MemBlock)
      → count_wanted p q dels (blocks_of (insert k b' m)) + wanted (merged_block k m)
        ≡ count_wanted p q dels (blocks_of m) + wanted b'
  unfolding insert lookup count_wanted wanted
  count_wanted-insert k b' [] = omega (arith, wanted-new k)
  count_wanted-insert k b' ((j, b) ∷ m) = by_key (bytes_eq j k) (count_wanted-insert k b' m)
    where
      by_key :
          (c : Bool)
          → count_wanted p q dels (blocks_of (insert k b' m)) + wanted (merged_block k m)
            ≡ count_wanted p q dels (blocks_of m) + wanted b'
          → count_wanted p q dels (blocks_of (if c then (j, b') ∷ m else (j, b) ∷ insert k b' m))
              + wanted (elim (if c then some b else lookup k m) as (λ x. MemBlock) [
                | none ↦ new_mem_block k
                | some b'' ↦ b''
              ])
            ≡ wanted b + count_wanted p q dels (blocks_of m) + wanted b'
      by_key true h = omega arith
      by_key false h = omega arith

  count_wanted-merge_blocks :
      (bs : List MemBlock) (m : Map MemBlock)
      → All IsWritable bs
      → AreTargets m
      → count_wanted p q dels (blocks_of (merge_blocks bs m))
        ≡ count_wanted p q dels (blocks_of m) + count_wanted p q dels bs
  unfolding merge_blocks count_wanted AreTargets wanted
  count_wanted-merge_blocks [] m v h = omega arith
  count_wanted-merge_blocks (b ∷ bs) m v h =
      let dst = merged_block b.stream m in
      let dst' = add_rows (all_rows b) dst in
      let target = merged_block-IsTarget b.stream m h in
      let gains = add_rows-Gains (all_rows b) dst target.0 (all_rows-IsRow b v.0.block v.0.int64) in
      let m' = insert b.stream dst' m in
      let kept =
        All-insert (λ (item : Bytes × MemBlock). IsTarget item.1 × (item.1.stream ≡ item.0))
          b.stream dst' m (gains.target, gains.same_stream ∙ target.1) h in
      sums (count_wanted p q dels (blocks_of (merge_blocks bs m')))
        (count_wanted p q dels (blocks_of m')) (count_wanted p q dels (blocks_of m)) (wanted dst)
        (wanted dst') (wanted b) (count_wanted p q dels bs)
        (count_wanted-merge_blocks bs m' v.1 kept) (count_wanted-insert b.stream dst' m)
        (wanted-Gains b dst dst' gains target.1)
    where
      sums :
          (end now before w w' wb rest : ℕ)
          → end ≡ now + rest
          → now + w ≡ before + w'
          → w' ≡ w + wb
          → end ≡ before + (wb + rest)
      sums end now before w w' wb rest e₁ e₂ e₃ = omega arith

IsWritable-inputs :
    (parts : Map Part) (inputs : List (Bytes × List MemBlock))
    → All (Holds parts) inputs
    → All IsWritable (blocks_of_inputs inputs)
IsWritable-inputs parts [] h = tt
IsWritable-inputs parts ((id, bs) ∷ inputs) h =
    All-append IsWritable bs (blocks_of_inputs inputs) h.0.blocks.writable
      (IsWritable-inputs parts inputs h.1)

-- A merge of parts that flushes wrote for some blocks reads them without an error, and for every
-- query, every list of tombstones and every test that reads the time and the fields of a row, as many
-- rows of the merged blocks are asked for and accepted as of all the blocks of the inputs. In each
-- part the blocks are of different streams with different directories; each writes its columns to
-- files of their own, none of them the times' file, and they are within the limits of the file format
-- and of its filters.
pub merge_inputs-answer :
    (p : Entry → Bool) (q : Query) (dels : List DeleteRecord) (parts : Map Part)
    (inputs : List (Bytes × List MemBlock))
    → Respects p
    → All (Holds parts) inputs
    → (m : Map MemBlock) × (merge_inputs parts (ids_of_inputs inputs) [] ≡ ok m)
      × (count_wanted p q dels (blocks_of m) ≡ count_wanted p q dels (blocks_of_inputs inputs))
unfolding count_wanted AreTargets
merge_inputs-answer p q dels parts inputs hp h =
    let bs = blocks_of_inputs inputs in
    (
      merge_blocks bs [],
      merge_inputs-written parts inputs [] h,
      omega (
        arith,
        count_wanted-merge_blocks p q dels hp bs [] (IsWritable-inputs parts inputs h) tt,
      ),
    )
