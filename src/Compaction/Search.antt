-- ===== src/Compaction/Search.antt =====
-- compaction.go and storage.go: a search of a merged part against one of the parts that it replaces.
use marchilogs.Base.{
  All, Bool, Bytes, List, Map, Option, Result, [], ap, arith, count_if, err, none, ok, refl, some,
  sym, true, ℕ, ◌+◌, ◌∙◌, ◌∷◌, ◌≡◌,
}
use marchilogs.Block.{MemBlock}
use marchilogs.Compaction.{merge_inputs, merged_part_of}
use marchilogs.Compaction.Alike.{Respects}
use marchilogs.Compaction.Answer.{merge_inputs-answer}
use marchilogs.Compaction.Merge.{Holds, blocks_of_inputs, ids_of_inputs}
use marchilogs.Deletes.{DeleteRecord}
use marchilogs.Entry.{Entry}
use marchilogs.Flush.{blocks_of, part_of}
use marchilogs.Search.{
  Flow, Found, Query, no_part, search_part, search_parts, streams_for_part, ◌and_then◌,
}
use marchilogs.Search.FlushedPart.{AreBlocks}
use marchilogs.Search.PartAnswer.{
  AddsCount, count_wanted, count_wanted-append, is_indexed, search_part-answer,
}
use marchilogs.Store.{Part}
use marchilogs.Tags.{build_part_meta, match_stream_ids}
use marchilogs.Tags.Match.{are_tag_names}

-- The tier of a part is nothing that a search reads.
search_part-merged :
    (q : Query) (dels : List DeleteRecord) (bs : List MemBlock) (f : Found)
    → search_part q dels (merged_part_of bs) f ≡ search_part q dels (part_of bs) f
unfolding search_part streams_for_part match_stream_ids build_part_meta
search_part-merged q dels bs f = refl

module _ (p : Entry → Bool) (q : Query) (dels : List DeleteRecord) (parts : Map Part) where
  search_inputs-answer :
      (inputs : List (Bytes × List MemBlock)) (f : Found)
      → q.limit ≡ 0
      → are_tag_names q.stream_eq ≡ true
      → All (Holds parts) inputs
      → All (λ (input : Bytes × List MemBlock). is_indexed input.1 q.stream_eq ≡ true) inputs
      → AddsCount p
          (search_parts q dels parts (ids_of_inputs inputs) f)
          (count_if p f.out)
          (count_wanted p q dels (blocks_of_inputs inputs))
  unfolding search_parts count_wanted
  search_inputs-answer [] f hl hq h hi = (f, refl, omega arith)
  search_inputs-answer ((id, bs) ∷ inputs) f hl hq h hi =
      let (f₁, ends₁, adds₁) = search_part-answer p q dels bs f hl hq h.0.blocks hi.0 in
      let (f₂, ends₂, adds₂) = search_inputs-answer inputs f₁ hl hq h.1 hi.1 in
      (
        f₂,
        ap
              (λ (o : Option Part).
                search_part q dels (elim o [ none ↦ no_part | some part ↦ part ]) f and_then λ f'.
                search_parts q dels parts (ids_of_inputs inputs) f')
              h.0.part
            ∙ ap
                (λ (flow : Flow).
                  flow and_then λ f'. search_parts q dels parts (ids_of_inputs inputs) f')
                ends₁
            ∙ ends₂,
        omega (arith, adds₂, adds₁, count_wanted-append p q dels bs (blocks_of_inputs inputs)),
      )

  -- A search without a limit finds in a merged part, for every test that reads the time and the fields
  -- of a row, as many rows that the test accepts as in all the parts that it replaces, and no search
  -- fails. Those parts are what flushes write for blocks; in each of them, and in the merged part, the
  -- blocks are of different streams with different directories, each writes its columns to files of
  -- their own, none of them the times' file, and they are within the limits of the file format and of
  -- its filters; each part has tags or the query has none, and the query's field names have no `=`.
  pub search_merged-answer :
      (inputs : List (Bytes × List MemBlock)) (f : Found) (m : Map MemBlock)
      → q.limit ≡ 0
      → are_tag_names q.stream_eq ≡ true
      → Respects p
      → All (Holds parts) inputs
      → All (λ (input : Bytes × List MemBlock). is_indexed input.1 q.stream_eq ≡ true) inputs
      → merge_inputs parts (ids_of_inputs inputs) [] ≡ ok m
      → AreBlocks (blocks_of m)
      → is_indexed (blocks_of m) q.stream_eq ≡ true
      → (n : ℕ) × AddsCount p
          (search_parts q dels parts (ids_of_inputs inputs) f)
          (count_if p f.out)
          n
        × AddsCount p (search_part q dels (merged_part_of (blocks_of m)) f) (count_if p f.out) n
  search_merged-answer inputs f m hl hq hp h hi merged v hm =
      let (m', merged', same) = merge_inputs-answer p q dels parts inputs hp h in
      let (f', ends, adds) = search_part-answer p q dels (blocks_of m) f hl hq v hm in
      (
        count_wanted p q dels (blocks_of_inputs inputs),
        search_inputs-answer inputs f hl hq h hi,
        (
          f',
          search_part-merged q dels (blocks_of m) f ∙ ends,
          adds
              ∙ ap (λ n. count_if p f.out + n)
                  (ap
                      (λ (r : Result (Map MemBlock)).
                        count_wanted p q dels (blocks_of (of_result r)))
                      (sym merged ∙ merged')
                    ∙ same),
        ),
      )
    where
      of_result : Result (Map MemBlock) → Map MemBlock
      of_result (err e) = []
      of_result (ok m) = m
