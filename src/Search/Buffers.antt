-- ===== src/Search/Buffers.antt =====
-- storage.go and inmemory_part.go: the search of the buffers, against a scan of every row.
use mathlib.Core.Path.{subst}
use marchilogs.Base.{
  ◌==◌, if◌then◌else◌, ==_iff, Bool-cases, if-both, is_nil, keep_if, All, ◌≤ℤ◌, Bytes, bytes_eq,
  eq_of_bytes_eq, mem_bytes, Map, keys, lookup, IsMap, lookup-eq-none, Result, ok, ◌≡◌, refl, sym,
  ap, ◌∙◌, inl, inr, Bool, true, false, not, ◌&&◌, ◌||◌, Option, none, some, List, [], ◌∷◌, ◌++◌,
  arith,
}
use marchilogs.Calendar.{Time, parse_partition_name, day_end}
use marchilogs.Entry.{Entry}
use marchilogs.Tags.{stream_matches_tags, time_range_overlaps}
use marchilogs.Block.{rows, MemBlock, overlaps}
use marchilogs.Block.Rows.{IsBlock}
use marchilogs.Deletes.{
  DeleteRecord, day_overlaps, partition_overlaps_query, deletes_at, deletes_overlapping_query,
}
use marchilogs.Store.{partition_of}
use marchilogs.Search.{
  Query, Found, Flow, go, scan_rows, rows_from, all_rows, scanned_buffer, is_pruned_buffer,
  search_buffer, search_buffers,
}
use marchilogs.Search.Flows.{
  row_passes, Adds, Adds-none, Adds-then, scan_rows-Adds, unless_pruned-both,
}
use marchilogs.Search.Window.{Within-all_rows, pruned_by_time}

-- A buffer with the rows of one day: its key names the day.
pub record IsBuffer (key : Bytes) (b : MemBlock) : Type 0 where
  pub block : IsBlock b
  pub day : Time
  pub names_day : parse_partition_name (partition_of key) ≡ ok day
  pub in_day : All (λ t. (day ≤ℤ t) × (t ≤ℤ day_end day)) b.times

abbrev pub AreBuffers : Map MemBlock → Type 0
AreBuffers buffers = All (λ (item : Bytes × MemBlock). IsBuffer item.0 item.1) buffers

-- The rows of a block that a query asks for, without any pruning.
abbrev pub wanted_rows : Query → List DeleteRecord → MemBlock → List Entry
wanted_rows q dels b =
    if is_nil q.stream_eq || stream_matches_tags b.stream q.stream_eq
    then keep_if (row_passes q dels) (all_rows b)
    else []

-- The answer of a scan of all rows of all buffers, with all tombstones of their days.
unfoldable pub buffers_answer : Query → Map (List DeleteRecord) → Map MemBlock → List Entry
buffers_answer q deletes [] = []
buffers_answer q deletes ((key, b) ∷ buffers) =
    wanted_rows q (deletes_at (partition_of key) deletes) b ++ buffers_answer q deletes buffers

deletes_at-cons :
    (day d : Bytes) (dels : List DeleteRecord) (m : Map (List DeleteRecord))
    → deletes_at day ((d, dels) ∷ m) ≡ (if bytes_eq d day then dels else deletes_at day m)
unfolding lookup
deletes_at-cons day d dels m = by_test (bytes_eq d day) (lookup day m)
  where
    by_test :
        (b : Bool) (o : Option (List DeleteRecord))
        → (elim (if b then some dels else o) as (λ x. List DeleteRecord) [
          | none ↦ []
          | some ds ↦ ds
        ])
          ≡ (if b then dels else elim o [ none ↦ [] | some ds ↦ ds ])
    by_test true o = refl
    by_test false o = refl

deletes_at-absent :
    (day : Bytes) (m : Map (List DeleteRecord))
    → mem_bytes day (keys m) ≡ false
    → deletes_at day m ≡ []
deletes_at-absent day m h =
    ap (λ (o : Option (List DeleteRecord)). elim o [ none ↦ [] | some ds ↦ ds ])
      (lookup-eq-none day m h)

-- The days that overlap the query keep their tombstones.
deletes_at-overlapping :
    (start end : Time) (day : Bytes) (m : Map (List DeleteRecord))
    → IsMap m
    → partition_overlaps_query day start end ≡ true
    → deletes_at day (deletes_overlapping_query start end m) ≡ deletes_at day m
unfolding deletes_overlapping_query
deletes_at-overlapping start end day [] hm ho = refl
deletes_at-overlapping start end day ((d, dels) ∷ m) hm ho =
    let rest = deletes_overlapping_query start end m in
    let left_out = is_nil dels || not (partition_overlaps_query d start end) in
    let later = deletes_at-overlapping start end day m hm.1 ho in
    if-both (λ (m' : Map (List DeleteRecord)). deletes_at day m' ≡ deletes_at day ((d, dels) ∷ m))
      left_out rest ((d, dels) ∷ rest)
      (λ out.
        later
        ∙ sym (
            deletes_at-cons day d dels m
            ∙ if-both (λ (ds : List DeleteRecord). ds ≡ deletes_at day m) (bytes_eq d day) dels
                (deletes_at day m)
                (λ same.
                  let is_day = eq_of_bytes_eq d day same in
                  nothing dels (partition_overlaps_query d start end) out
                    (ap (λ (k : Bytes). partition_overlaps_query k start end) is_day ∙ ho)
                  ∙ sym (
                      deletes_at-absent day m
                        (ap (λ (k : Bytes). mem_bytes k (keys m)) (sym is_day) ∙ hm.0)))
                (λ other. refl)))
      (λ kept.
        deletes_at-cons day d dels rest
        ∙ ap (λ (ds : List DeleteRecord). if bytes_eq d day then dels else ds) later
        ∙ sym (deletes_at-cons day d dels m))
  where
    nothing : (ds : List DeleteRecord) (b : Bool) → (is_nil ds || not b) ≡ true → b ≡ true → ds ≡ []
    nothing [] b h hb = refl
    nothing (r ∷ rs) true h hb = cc
    nothing (r ∷ rs) false h hb = cc

-- A test that prunes for one of its reasons leaves out nothing that is wanted.
none_wanted :
    (empty day nil matches time : Bool) (es : List Entry)
    → (empty ≡ true → es ≡ [])
    → (day ≡ false → es ≡ [])
    → (time ≡ false → es ≡ [])
    → (empty || not day || (not nil && not matches) || not time) ≡ true
    → (if nil || matches then es else []) ≡ []
none_wanted empty day false false time es he hd ht h = refl
none_wanted true day true matches time es he hd ht h = he refl
none_wanted false false true matches time es he hd ht h = hd refl
none_wanted false true true matches false es he hd ht h = ht refl
none_wanted false true true matches true es he hd ht h = cc
none_wanted true day false true time es he hd ht h = he refl
none_wanted false false false true time es he hd ht h = hd refl
none_wanted false true false true false es he hd ht h = ht refl
none_wanted false true false true true es he hd ht h = cc

unpruned :
    (empty day nil matches time : Bool)
    → (empty || not day || (not nil && not matches) || not time) ≡ false
    → (day ≡ true) × ((nil || matches) ≡ true)
unpruned empty day nil matches time h = ground arith

no_rows : (b : MemBlock) → (rows b == 0) ≡ true → all_rows b ≡ []
unfolding rows_from
no_rows b h = ap (λ n. rows_from b n 0) ((==_iff (rows b) 0).0 h)

outside_bounds :
    (q : Query) (b : MemBlock)
    → (rows b == 0) ≡ false
    → overlaps b q.start q.end ≡ false
    → time_range_overlaps q.start q.end b.time_min b.time_max ≡ false
unfolding overlaps
outside_bounds q b some_rows h =
    sym (
      ap (λ c. if c then false else time_range_overlaps q.start q.end b.time_min b.time_max)
        some_rows)
    ∙ h

outside_day :
    (q : Query) (key : Bytes) (day : Time)
    → parse_partition_name (partition_of key) ≡ ok day
    → partition_overlaps_query (partition_of key) q.start q.end ≡ false
    → time_range_overlaps q.start q.end day (day_end day) ≡ false
unfolding time_range_overlaps partition_overlaps_query
outside_day q key day names h =
    sym (ap (λ (r : Result Time). day_overlaps r q.start q.end) names) ∙ h

module _ (q : Query) (deletes : Map (List DeleteRecord)) where
  abbrev overlapping : Map (List DeleteRecord)
  overlapping = deletes_overlapping_query q.start q.end deletes

  search_buffer-Adds :
      (key : Bytes) (b : MemBlock) (f : Found)
      → q.limit ≡ 0
      → IsMap deletes
      → IsBuffer key b
      → Adds
          (search_buffer q overlapping key b f)
          f.out
          (wanted_rows q (deletes_at (partition_of key) deletes) b)
  unfolding search_buffer
  search_buffer-Adds key b f hl hm hb =
      let in_day = partition_overlaps_query (partition_of key) q.start q.end in
      let matches = stream_matches_tags b.stream q.stream_eq in
      let dels = deletes_at (partition_of key) deletes in
      let seen = deletes_at (partition_of key) overlapping in
      let kept = keep_if (row_passes q dels) (all_rows b) in
      unless_pruned-both (λ (flow : Flow). Adds flow f.out (wanted_rows q dels b))
        (is_pruned_buffer q key b) (go f) (scan_rows q seen (all_rows b) (scanned_buffer f))
        (λ pruned.
          subst (Adds (go f) f.out)
            (sym (
              none_wanted (rows b == 0) in_day (is_nil q.stream_eq) matches
                (overlaps b q.start q.end) kept
                (λ no_row. ap (keep_if (row_passes q dels)) (no_rows b no_row))
                (λ other_day.
                  pruned_by_time q dels hb.day (day_end hb.day) (all_rows b)
                    (Within-all_rows b hb.day (day_end hb.day) hb.in_day)
                    (outside_day q key hb.day hb.names_day other_day))
                (λ other_time. elim (Bool-cases (rows b == 0)) [
                  | inl no_row ↦ ap (keep_if (row_passes q dels)) (no_rows b no_row)
                  | inr some_rows ↦
                      pruned_by_time q dels b.time_min b.time_max (all_rows b)
                        (Within-all_rows b b.time_min b.time_max hb.block.bounded)
                        (outside_bounds q b some_rows other_time)
                ])
                pruned))
            (Adds-none f f.out refl))
        (λ searched.
          let (on_day, asked) =
            unpruned (rows b == 0) in_day (is_nil q.stream_eq) matches (overlaps b q.start q.end)
              searched in
          subst (Adds (scan_rows q seen (all_rows b) (scanned_buffer f)) f.out)
            (ap (λ (ds : List DeleteRecord). keep_if (row_passes q ds) (all_rows b))
                (deletes_at-overlapping q.start q.end (partition_of key) deletes hm on_day)
              ∙ sym (ap (λ (c : Bool). if c then kept else []) asked))
            (scan_rows-Adds q seen (all_rows b) (scanned_buffer f) hl))

  -- Without a limit, the search of the buffers adds to what was found exactly the rows that a scan of
  -- all rows finds, in its order: the prunings by day, by stream and by time leave out no row. Each
  -- buffer has the rows of the day that its key names.
  pub search_buffers-answer :
      (buffers : Map MemBlock) (f : Found)
      → q.limit ≡ 0
      → IsMap deletes
      → AreBuffers buffers
      → Adds (search_buffers q overlapping buffers f) f.out (buffers_answer q deletes buffers)
  unfolding search_buffers buffers_answer
  search_buffers-answer [] f hl hm hb = Adds-none f f.out refl
  search_buffers-answer ((key, b) ∷ buffers) f hl hm hb =
      Adds-then (search_buffer q overlapping key b f)
        (λ f'. search_buffers q overlapping buffers f') f.out
        (wanted_rows q (deletes_at (partition_of key) deletes) b) (buffers_answer q deletes buffers)
        (search_buffer-Adds key b f hl hm hb.0) (λ f'. search_buffers-answer buffers f' hl hm hb.1)
