-- ===== src/Search/PartAnswer.antt =====
-- storage.go and stream_index.go: the search of a part that a flush wrote, against a scan of the rows of
-- its blocks.
use marchilogs.Base.{
  All, All-map, Bool, Bytes, List, Map, Option, [], ap, arith, bytes_eq, bytes_eq_refl, count_if,
  count_if-append, false, if◌then◌else◌, is_nil, keep_if, keys, lookup, map, mem_bytes, none, not,
  refl, some, true, ℕ, ◌&&◌, ◌++◌, ◌+◌, ◌||◌, ◌∙◌, ◌∷◌, ◌≡◌,
}
use marchilogs.Block.{BlockDir, MemBlock, empty_dir, write_to}
use marchilogs.Deletes.{DeleteRecord}
use marchilogs.Entry.{Entry}
use marchilogs.Flush.{block_dirs, info_of, part_of, path_of, time_bounds}
use marchilogs.Search.{
  Flow, Found, Query, all_rows, block_refs_for_stream, go, legacy_streams, scanned_part,
  search_part, search_refs, search_streams, streams_for_part, ◌and_then◌,
}
use marchilogs.Search.Buffers.{wanted_rows}
use marchilogs.Search.Flows.{row_passes}
use marchilogs.Search.FlushedPart.{AreBlocks, absent_at_first, block_dirs-All, tally-All}
use marchilogs.Search.Selection.{
  meta_of, selection-All, selection-IsMap, streams_by_id-All, streams_by_id-IsMap, sum_at,
  sum_at-tally, sum_selected, tally,
}
use marchilogs.Search.Written.{IsWritable, search_stream-written}
use marchilogs.Store.{dir_at}
use marchilogs.Tags.{
  StreamFlushInfo, StreamMeta, build_part_meta, candidates_of, match_stream_ids,
  stream_matches_tags, stream_meta_of, streams_by_id, tags_match,
}
use marchilogs.Tags.Match.{are_tag_names, match_stream_ids-eq-scan}

-- How many rows of the blocks a query asks for that a test accepts, without any pruning.
unfoldable pub count_wanted : (Entry → Bool) → Query → List DeleteRecord → List MemBlock → ℕ
count_wanted p q dels [] = 0
count_wanted p q dels (b ∷ bs) = count_if p (wanted_rows q dels b) + count_wanted p q dels bs

pub count_wanted-append :
    (p : Entry → Bool) (q : Query) (dels : List DeleteRecord) (bs bs' : List MemBlock)
    → count_wanted p q dels (bs ++ bs') ≡ count_wanted p q dels bs + count_wanted p q dels bs'
unfolding count_wanted
count_wanted-append p q dels [] bs' = omega arith
count_wanted-append p q dels (b ∷ bs) bs' = omega (arith, count_wanted-append p q dels bs bs')

-- A piece of a search that goes on and adds that many rows that a test accepts.
abbrev pub AddsCount : (Entry → Bool) → Flow → ℕ → ℕ → Type 0
AddsCount p flow before n = (f : Found) × (flow ≡ go f) × (count_if p f.out ≡ before + n)

module _ (p : Entry → Bool) (q : Query) (dels : List DeleteRecord) (bs : List MemBlock) where
  -- How many rows of a block pass the tests of a query and a further one.
  count_passing : MemBlock → ℕ
  count_passing b = count_if p (keep_if (row_passes q dels) (all_rows b))

  -- A stream that comes from a block of the part.
  IsFrom : Map BlockDir → Bytes × StreamMeta → Type 0
  IsFrom blocks entry =
      (b : MemBlock) × (entry ≡ (b.stream, meta_of b))
      × IsWritable b
      × (dir_at (path_of b) blocks ≡ write_to b empty_dir)
      × (tally count_passing b.stream bs ≡ count_passing b)

  search_streams-AddsCount :
      (blocks : Map BlockDir) (sms : Map StreamMeta) (f : Found)
      → q.limit ≡ 0
      → All (IsFrom blocks) sms
      → AddsCount p
          (search_streams q dels blocks sms f)
          (count_if p f.out)
          (sum_at (λ a. tally count_passing a bs) (keys sms))
  unfolding search_streams sum_at IsFrom count_passing
  search_streams-AddsCount blocks [] f hl h = (f, refl, omega arith)
  search_streams-AddsCount blocks ((id, sm) ∷ sms) f hl ((b, is_b, v, hd, ht), hs) =
      let kept = keep_if (row_passes q dels) (all_rows b) in
      let (f₁, ends₁, adds₁) = search_stream-written q dels b v blocks f hl hd in
      let (f₂, ends₂, adds₂) = search_streams-AddsCount blocks sms f₁ hl hs in
      let searched : search_refs q dels blocks (block_refs_for_stream sm blocks) f ≡ go f₁ =
        ap
          (λ (e : Bytes × StreamMeta).
            search_refs q dels blocks (block_refs_for_stream e.1 blocks) f)
          is_b
        ∙ ends₁ in
      (
        f₂,
        ap (λ (flow : Flow). flow and_then λ f'. search_streams q dels blocks sms f') searched
            ∙ ends₂,
        sums (count_if p f₂.out) (count_if p f₁.out) (count_if p f.out) (count_if p kept)
            (tally count_passing id bs) (sum_at (λ a. tally count_passing a bs) (keys sms)) adds₂
            (ap (count_if p) adds₁ ∙ count_if-append p f.out kept)
            (ap (λ (e : Bytes × StreamMeta). tally count_passing e.0 bs) is_b ∙ ht),
      )
    where
      sums : (c₂ c₁ c k t rest : ℕ) → c₂ ≡ c₁ + rest → c₁ ≡ c + k → t ≡ k → c₂ ≡ c + (t + rest)
      sums c₂ c₁ c k t rest e₂ e₁ et = omega arith

  -- What the metadata of the part lists comes from the blocks.
  metas-IsFrom :
      (blocks : Map BlockDir) (cs : List MemBlock)
      → All IsWritable cs
      → All (λ (b : MemBlock). dir_at (path_of b) blocks ≡ write_to b empty_dir) cs
      → All (λ (b : MemBlock). tally count_passing b.stream bs ≡ count_passing b) cs
      → All (λ (s : StreamMeta). IsFrom blocks (s.id, s)) (map stream_meta_of (map info_of cs))
  unfolding IsFrom
  metas-IsFrom blocks [] hw hd ht = tt
  metas-IsFrom blocks (b ∷ cs) hw hd ht =
      ((b, refl, hw.0, hd.0, ht.0), metas-IsFrom blocks cs hw.1 hd.1 ht.1)

  -- The streams that are selected are those of the blocks that a query asks for.
  sum_selected-eq :
      (names : List Bytes) (cs : List MemBlock)
      → All
          (λ (b : MemBlock). mem_bytes b.stream names ≡ stream_matches_tags b.stream q.stream_eq)
          cs
      → sum_selected count_passing names cs ≡ count_wanted p q dels cs
  unfolding sum_selected count_wanted count_passing
  sum_selected-eq names [] h = refl
  sum_selected-eq names (b ∷ cs) h =
      let kept = keep_if (row_passes q dels) (all_rows b) in
      omega (
        arith,
        ap (λ (c : Bool). if c then count_if p kept else 0) h.0
            ∙ by_test (stream_matches_tags b.stream q.stream_eq) (is_nil q.stream_eq) kept
                (asks_all q.stream_eq b.stream),
        sum_selected-eq names cs h.1,
      )
    where
      by_test :
          (matches none_given : Bool) (es : List Entry)
          → (none_given ≡ true → matches ≡ true)
          → (if matches then count_if p es else 0)
            ≡ count_if p (if none_given || matches then es else [])
      by_test true true es h = refl
      by_test true false es h = refl
      by_test false true es h = absurd (never (h refl))
        where
          never : false ≡ true → ⊥
          never e = cc
      by_test false false es h = refl

      asks_all : (m : Map Bytes) (a : Bytes) → is_nil m ≡ true → stream_matches_tags a m ≡ true
      asks_all [] a h = unfold stream_matches_tags tags_match in refl
      asks_all (kv ∷ m) a h = cc

ids_of : List MemBlock → List Bytes
ids_of bs = map (λ (i : StreamFlushInfo). i.id) (map info_of bs)

mem-ids_of : (bs : List MemBlock) → All (λ (b : MemBlock). mem_bytes b.stream (ids_of bs) ≡ true) bs
unfolding mem_bytes ids_of
mem-ids_of [] = tt
mem-ids_of (b ∷ bs) = (
  ground (arith, bytes_eq_refl b.stream),
  All-map (λ (c : MemBlock). mem_bytes c.stream (ids_of bs) ≡ true)
      (λ (c : MemBlock). (bytes_eq b.stream c.stream || mem_bytes c.stream (ids_of bs)) ≡ true)
      (λ c h. ground (arith, h)) bs (mem-ids_of bs),
)

-- Whether the search of a part uses the index by tags.
abbrev pub is_indexed : List MemBlock → Map Bytes → Bool
is_indexed bs stream_eq =
    let bounds = time_bounds bs in
    not (is_nil (build_part_meta (map info_of bs) bounds.0 bounds.1).by_tag) || is_nil stream_eq

streams_for_flushed :
    (bs : List MemBlock) (stream_eq : Map Bytes)
    → is_nil bs ≡ false
    → is_indexed bs stream_eq ≡ true
    → streams_for_part (part_of bs) stream_eq
      ≡ match_stream_ids
          (build_part_meta (map info_of bs) (time_bounds bs).0 (time_bounds bs).1)
          stream_eq
unfolding streams_for_part build_part_meta
streams_for_flushed [] stream_eq hn hi = cc
streams_for_flushed (b ∷ bs) stream_eq hn hi =
    ap
      (λ (indexed : Bool).
        if indexed
        then match_stream_ids
            (build_part_meta (map info_of (b ∷ bs)) (time_bounds (b ∷ bs)).0
              (time_bounds (b ∷ bs)).1)
            stream_eq
        else legacy_streams (map stream_meta_of (map info_of (b ∷ bs))) stream_eq [])
      hi

-- The search of a part that a flush wrote for some blocks goes on, where there is no limit, and for
-- every test it adds as many rows that the test accepts as a scan of all rows of all its blocks finds.
-- The blocks are of different streams with different directories; each writes its columns to files of
-- their own, none of them the times' file, and they are within the limits of the file format and of
-- its filters; the part has tags or the query has none, and the query's field names have no `=`.
pub search_part-answer :
    (p : Entry → Bool) (q : Query) (dels : List DeleteRecord) (bs : List MemBlock) (f : Found)
    → q.limit ≡ 0
    → are_tag_names q.stream_eq ≡ true
    → AreBlocks bs
    → is_indexed bs q.stream_eq ≡ true
    → AddsCount p (search_part q dels (part_of bs) f) (count_if p f.out) (count_wanted p q dels bs)
unfolding search_part match_stream_ids build_part_meta ids_of
search_part-answer p q dels bs f hl hq v hi =
    let t_min = (time_bounds bs).0 in
    let t_max = (time_bounds bs).1 in
    let meta = build_part_meta (map info_of bs) t_min t_max in
    let blocks = block_dirs bs [] in
    let by_id = streams_by_id meta.streams [] in
    let chosen = candidates_of meta.by_tag q.stream_eq none in
    let sms = match_stream_ids meta q.stream_eq in
    let in_place =
      All-map (λ (b : MemBlock). lookup (path_of b) blocks ≡ some (write_to b empty_dir))
        (λ (b : MemBlock). dir_at (path_of b) blocks ≡ write_to b empty_dir)
        (λ b h. ap (λ (o : Option BlockDir). elim o [ none ↦ empty_dir | some dir ↦ dir ]) h) bs
        (block_dirs-All bs [] v.paths_differ (absent_at_first bs)) in
    let sources = selection-All (IsFrom p q dels bs blocks) by_id chosen (
      streams_by_id-All (IsFrom p q dels bs blocks) meta.streams []
        (metas-IsFrom p q dels bs blocks bs v.writable in_place
          (tally-All (count_passing p q dels bs) bs v.streams_differ))
        tt) in
    let (f', ends, adds) =
      search_streams-AddsCount p q dels bs blocks sms (scanned_part f) hl sources in
    let selected : All
        (λ (b : MemBlock). mem_bytes b.stream (keys sms) ≡ stream_matches_tags b.stream q.stream_eq)
        bs =
      All-map (λ (b : MemBlock). mem_bytes b.stream (ids_of bs) ≡ true)
        (λ (b : MemBlock). mem_bytes b.stream (keys sms) ≡ stream_matches_tags b.stream q.stream_eq)
        (λ b there.
          match_stream_ids-eq-scan (map info_of bs) t_min t_max q.stream_eq b.stream hq
          ∙ ap (λ (c : Bool). c && stream_matches_tags b.stream q.stream_eq) there)
        bs (mem-ids_of bs) in
    (
      f',
      ap (λ (ms : Map StreamMeta). search_streams q dels blocks ms (scanned_part f))
            (streams_for_flushed bs q.stream_eq v.some_block hi)
          ∙ ends,
      adds
          ∙ ap (λ n. count_if p f.out + n)
              (sum_at-tally (count_passing p q dels bs) (keys sms) bs
                  (selection-IsMap by_id chosen (streams_by_id-IsMap meta.streams [] tt))
                ∙ sum_selected-eq p q dels bs (keys sms) bs selected),
    )
