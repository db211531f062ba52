-- ===== src/Deletes/Hiding.antt =====
-- delete.go: what a tombstone hides, and what a deletion leaves.
use marchilogs.Base.{
  if◌then◌else◌, get_or, length-append, ℤ, pos, ◌≤ℤ◌, ltb_ℤ, eqb_ℤ, has_substring, Bytes, is_empty,
  Map, ℕ, zero, suc, ◌+◌, ◌≡◌, refl, sym, ◌∙◌, Bool, true, false, not, ◌&&◌, ◌||◌, List, [], ◌∷◌,
  arith,
}
use marchilogs.Entry.{field_stream, Entry, field_of, unix_nano, msg}
use marchilogs.Tags.{stream_matches_tags}
use marchilogs.Block.{rows, MemBlock, new_mem_block, add_with_seq, row}
use marchilogs.Deletes.{
  DeleteSpec, DeleteRecord, stream_passes, hides_entry, may_hide_block, delete_spec_hides,
  purge_row, purge_rows, purge_buffers,
}

-- What a record hides, in one condition: each bound other than 0 holds, the stream passes, and the
-- message has the text.
hides_entry_iff :
    (r : DeleteRecord) (e : Entry)
    → hides_entry r e ≡ (
        (eqb_ℤ r.start_ns (pos 0) || not (ltb_ℤ (unix_nano e.time) r.start_ns))
        && (eqb_ℤ r.end_ns (pos 0) || not (ltb_ℤ r.end_ns (unix_nano e.time)))
        && stream_passes r.stream_eq e.fields
        && (is_empty r.contains || has_substring (msg e) r.contains))
unfolding hides_entry
hides_entry_iff r e = ground arith

may_hide_block_iff :
    (r : DeleteRecord) (stream : Bytes) (t_min t_max : ℤ)
    → may_hide_block r stream t_min t_max ≡ (
        (eqb_ℤ r.start_ns (pos 0) || not (ltb_ℤ t_max r.start_ns))
        && (eqb_ℤ r.end_ns (pos 0) || not (ltb_ℤ r.end_ns t_min))
        && stream_matches_tags stream r.stream_eq)
unfolding may_hide_block
may_hide_block_iff r stream t_min t_max = ground arith

not_below_start :
    (t t_max start : ℤ) → t ≤ℤ t_max → not (ltb_ℤ t start) ≡ true → not (ltb_ℤ t_max start) ≡ true
not_below_start t t_max start h h' = ground arith

not_above_end :
    (t t_min end : ℤ) → t_min ≤ℤ t → not (ltb_ℤ end t) ≡ true → not (ltb_ℤ end t_min) ≡ true
not_above_end t t_min end h h' = ground arith

stream_test :
    (q fields : Map Bytes)
    → is_empty (field_of field_stream fields) ≡ false
    → stream_passes q fields ≡ stream_matches_tags (field_of field_stream fields) q
stream_test q fields h = rw h refl

or_mono : (a b c : Bool) → (b ≡ true → c ≡ true) → (a || b) ≡ true → (a || c) ≡ true
or_mono true b c f h = refl
or_mono false b c f h = f h

and_parts : (a b c d : Bool) → (a && b && c && d) ≡ true → (a ≡ true) × (b ≡ true) × (c ≡ true)
and_parts a b c d h = (ground arith, ground arith, ground arith)

-- If a tombstone hides an entry of a block, `mayHideBlock` keeps the block: the entry's time is
-- within the bounds of the block, and its stream is the block's, which has a name.
pub may_hide_block_sound :
    (r : DeleteRecord) (e : Entry) (t_min t_max : ℤ)
    → is_empty (field_of field_stream e.fields) ≡ false
    → t_min ≤ℤ unix_nano e.time
    → unix_nano e.time ≤ℤ t_max
    → hides_entry r e ≡ true
    → may_hide_block r (field_of field_stream e.fields) t_min t_max ≡ true
may_hide_block_sound r e t_min t_max hs hlo hhi h =
    let ts = unix_nano e.time in
    let no_start = eqb_ℤ r.start_ns (pos 0) in
    let no_end = eqb_ℤ r.end_ns (pos 0) in
    let (above, below, passes) =
      and_parts (no_start || not (ltb_ℤ ts r.start_ns)) (no_end || not (ltb_ℤ r.end_ns ts))
        (stream_passes r.stream_eq e.fields)
        (is_empty r.contains || has_substring (msg e) r.contains) (sym (hides_entry_iff r e) ∙ h) in
    may_hide_block_iff r (field_of field_stream e.fields) t_min t_max
    ∙ all_true
        (or_mono no_start (not (ltb_ℤ ts r.start_ns)) (not (ltb_ℤ t_max r.start_ns))
          (not_below_start ts t_max r.start_ns hhi) above)
        (or_mono no_end (not (ltb_ℤ r.end_ns ts)) (not (ltb_ℤ r.end_ns t_min))
          (not_above_end ts t_min r.end_ns hlo) below)
        (sym (stream_test r.stream_eq e.fields hs) ∙ passes)
  where
    all_true : {a b c : Bool} → a ≡ true → b ≡ true → c ≡ true → (a && b && c) ≡ true
    all_true ha hb hc = rw (ha, hb, hc) refl

-- The rows of a block from row `i` on.
abbrev pub rows_from : MemBlock → ℕ → ℕ → List Entry
rows_from b zero i = []
rows_from b (suc todo) i = row b i ∷ rows_from b todo (i + 1)

abbrev pub count_hidden : DeleteSpec → List Entry → ℕ
count_hidden spec [] = 0
count_hidden spec (e ∷ es) = (if delete_spec_hides spec e then 1 else 0) + count_hidden spec es

rows-add_with_seq : (b : MemBlock) (e : Entry) (seq : ℕ) → rows (add_with_seq b e seq) ≡ rows b + 1
unfolding add_with_seq
rows-add_with_seq b e seq = length-append b.times (unix_nano e.time ∷ [])

purge_row-count :
    (h : Bool) (e : Entry) (seq : ℕ) (purged : MemBlock × ℕ)
    → ((purge_row h e seq purged).1 ≡ purged.1 + (if h then 1 else 0))
      × (rows (purge_row h e seq purged).0 + (purge_row h e seq purged).1
          ≡ rows purged.0 + purged.1 + 1)
purge_row-count true e seq (kept, n) = (refl, omega arith)
purge_row-count false e seq (kept, n) = (omega arith, omega (arith, rows-add_with_seq kept e seq))

-- The rows that a deletion covers are counted, and no other row of the block is lost.
purge_rows-count :
    (spec : DeleteSpec) (b : MemBlock) (todo i : ℕ) (purged : MemBlock × ℕ)
    → ((purge_rows spec b todo i purged).1 ≡ purged.1 + count_hidden spec (rows_from b todo i))
      × (rows (purge_rows spec b todo i purged).0 + (purge_rows spec b todo i purged).1
          ≡ rows purged.0 + purged.1 + todo)
unfolding purge_rows
purge_rows-count spec b zero i purged = (omega arith, omega arith)
purge_rows-count spec b (suc todo) i purged =
    let hides = delete_spec_hides spec (row b i) in
    let seq = get_or b.seqs i 0 in
    let (counted, total) = purge_row-count hides (row b i) seq purged in
    let (counted', total') =
      purge_rows-count spec b todo (i + 1) (purge_row hides (row b i) seq purged) in
    (omega (arith, counted, counted'), omega (arith, total, total'))

-- The rows of all buffers, and those among them that a deletion covers.
abbrev pub all_rows : Map MemBlock → ℕ
all_rows [] = 0
all_rows ((key, b) ∷ buffers) = rows b + all_rows buffers

abbrev pub all_hidden : DeleteSpec → Map MemBlock → ℕ
all_hidden spec [] = 0
all_hidden spec ((key, b) ∷ buffers) =
    count_hidden spec (rows_from b (rows b) 0) + all_hidden spec buffers

-- `purgeBuffersMatchingLocked` returns the number of the buffered rows that the deletion covers, and
-- the buffers keep as many rows as are not covered.
pub purge_buffers-count :
    (spec : DeleteSpec) (buffers : Map MemBlock)
    → ((purge_buffers spec buffers).1 ≡ all_hidden spec buffers)
      × (all_rows (purge_buffers spec buffers).0 + (purge_buffers spec buffers).1
          ≡ all_rows buffers)
unfolding purge_buffers
purge_buffers-count spec [] = (refl, refl)
purge_buffers-count spec ((key, b) ∷ buffers) =
    let (counted, total) = purge_buffers-count spec buffers in
    let (counted', total') = purge_rows-count spec b (rows b) 0 (new_mem_block b.stream, 0) in
    (
      ground (arith, counted, counted', none_hidden spec b),
      ground (arith, counted, total, total', none_hidden spec b),
    )
  where
    none_hidden :
        (spec : DeleteSpec) (b : MemBlock)
        → rows b ≡ 0
        → count_hidden spec (rows_from b (rows b) 0) ≡ 0
    none_hidden spec b h = rw h refl
