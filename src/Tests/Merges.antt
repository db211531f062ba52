-- ===== src/Tests/Merges.antt =====
-- compaction.go on fixed inputs: a day with one part of one row.
use marchilogs.Base.{
  All, Bytes, Error, List, Map, Result, [], ap, bytes_eq, codes, cut_from, decimal, false, insert,
  insert_sorted, lookup, mem_bytes, none, ok, refl, some, sort_strings, split_from, true,
  zero_padded, ℕ, ◌>>=◌, ◌∷◌, ◌≡◌,
}
use marchilogs.Block.{MemBlock, add_values, add_with_seq, pad_missing, row, row_fields}
use marchilogs.Compaction.{
  add_rows, merge_inputs, merge_parts, merged_part_of, write_merged_blocks, write_merged_part,
}
use marchilogs.Compaction.Answer.{merge_inputs-answer}
use marchilogs.Compaction.Ends.{OnlyCatalogFails, merge_parts-Ends, merge_parts-Lost}
use marchilogs.Compaction.Merge.{Holds, merge_blocks, merge_inputs-written}
use marchilogs.Compaction.Outcomes.{Ends, Lost, parts_at}
use marchilogs.Compaction.Search.{search_merged-answer}
use marchilogs.Flush.{Io, blocks_of, part_of, write_catalog}
use marchilogs.Search.{rows_from, search_part, search_parts}
use marchilogs.Search.PartAnswer.{AddsCount, count_wanted}
use marchilogs.Store.{Part, Store, holds, missing}
use marchilogs.Tags.{
  add_tags, build_part_meta, index_streams, index_tags, parse_stream_tags, sort_ids,
}
use marchilogs.Tests.Stores.{
  all_fine, day_name, empty_store, hello-AreBlocks, hello_block, hello_query, nothing_found,
}

abbrev first_id : Bytes
first_id = codes "000001"

abbrev hello_part : Part
hello_part = part_of (hello_block ∷ [])

abbrev one_part : Map Part
one_part = (first_id, hello_part) ∷ []

abbrev inputs : List (Bytes × List MemBlock)
inputs = (first_id, hello_block ∷ []) ∷ []

hello-Holds : All (Holds one_part) inputs
unfolding lookup bytes_eq
hello-Holds = (record { blocks = hello-AreBlocks; part = refl }, tt)

merge_inputs-answer_example :
    (m : Map MemBlock) × (merge_inputs one_part (first_id ∷ []) [] ≡ ok m)
    × (count_wanted (λ e. true) hello_query [] (blocks_of m)
        ≡ count_wanted (λ e. true) hello_query [] (hello_block ∷ []))
merge_inputs-answer_example =
    merge_inputs-answer (λ e. true) hello_query [] one_part inputs (λ e e' h. refl) hello-Holds

-- The merged block is the one block again.
abbrev merged_blocks : Map MemBlock
merged_blocks = (codes "host=h1", hello_block) ∷ []

merged_hello : merge_inputs one_part (first_id ∷ []) [] ≡ ok merged_blocks
unfolding merge_blocks add_rows add_with_seq rows_from row row_fields add_values pad_missing insert
    lookup bytes_eq
merged_hello = merge_inputs-written one_part inputs [] hello-Holds

search_merged-answer_example :
    (n : ℕ) × AddsCount
      (λ e. true)
      (search_parts hello_query [] one_part (first_id ∷ []) nothing_found)
      0
      n
    × AddsCount
        (λ e. true)
        (search_part hello_query [] (merged_part_of (hello_block ∷ [])) nothing_found)
        0
        n
unfolding build_part_meta index_streams index_tags sort_ids parse_stream_tags add_tags split_from
    cut_from insert lookup bytes_eq sort_strings insert_sorted
search_merged-answer_example =
    search_merged-answer (λ e. true) hello_query [] one_part inputs nothing_found merged_blocks refl
      refl (λ e e' h. refl) hello-Holds (refl, tt) merged_hello hello-AreBlocks refl

abbrev merging_store : Store
merging_store = record empty_store {
  wal = none;
  part_seq = (day_name, 1) ∷ [];
  manifests = (day_name, first_id ∷ []) ∷ [];
  disk =
      (
        day_name,
        record {
          parts = one_part;
          manifest = holds (first_id ∷ []);
          catalog = missing;
          deletes = missing;
        },
      )
      ∷ [];
}

merge_parts-Ends_example :
    Ends all_fine day_name
      (first_id ∷ [])
      (zero_padded 6 2)
      (write_merged_part all_fine (parts_at day_name merging_store) (first_id ∷ []))
      merging_store
      (merge_parts all_fine day_name (first_id ∷ []) merging_store)
unfolding lookup bytes_eq mem_bytes zero_padded decimal
merge_parts-Ends_example = merge_parts-Ends all_fine day_name (first_id ∷ []) merging_store refl

-- The write of the catalog fails.
abbrev catalog_fails : Io
catalog_fails write_catalog = true
catalog_fails other = false

hello_merge_fails :
    OnlyCatalogFails catalog_fails day_name
      (first_id ∷ [])
      (merged_part_of (hello_block ∷ []))
      merging_store
unfolding write_merged_part lookup bytes_eq mem_bytes zero_padded decimal
hello_merge_fails = record {
  inputs_given = refl;
  made = refl;
  active = refl;
  merged =
      ap
        (λ (r : Result (Map MemBlock)).
          r >>= λ by_stream. write_merged_blocks catalog_fails (blocks_of by_stream))
        merged_hello;
  published = refl;
  manifest_written = refl;
  catalog_unwritten = refl;
  removed = refl;
}

merge_parts-Lost_example :
    let o = merge_parts catalog_fails day_name (first_id ∷ []) merging_store in
    (e : Error) × (o.1 ≡ some e) × Lost day_name (first_id ∷ []) (zero_padded 6 2) merging_store o.0
unfolding lookup bytes_eq
merge_parts-Lost_example =
    merge_parts-Lost catalog_fails day_name (first_id ∷ []) (merged_part_of (hello_block ∷ []))
      merging_store hello_merge_fails
