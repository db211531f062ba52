-- ===== src/Search/Window.antt =====
-- stream_index.go, inmemory_part.go and block.go: the prunings by time, and the rows that they prune.
use Prim.Native.Nat.{ℕ}
use marchilogs.Base.{
  if◌then◌else◌, Bool-cases, keep_if, All, keep_if-none, All-map, All-get_or, pos, ◌≤ℤ◌, ltb_ℤ,
  has_substring, is_empty, zero, suc, ◌+◌, ◌≤◌, ◌<◌, ◌≡◌, refl, ◌⊎◌, inl, inr, Bool, true, false,
  not, ◌&&◌, ◌||◌, List, [], arith,
}
use marchilogs.Calendar.{Time}
use marchilogs.Entry.{Entry, is_zero, msg}
use marchilogs.Tags.{time_range_overlaps}
use marchilogs.Block.{rows, MemBlock, row}
use marchilogs.Deletes.{DeleteRecord, entry_hidden_by_deletes}
use marchilogs.Search.{Query, rows_from, all_rows}
use marchilogs.Search.Flows.{row_passes}

abbrev pub Within : Time → Time → Entry → Type 0
Within lo hi e = (lo ≤ℤ e.time) × (e.time ≤ℤ hi)

abbrev is_before : Query → Entry → Bool
is_before q e = not (is_zero q.start) && ltb_ℤ e.time q.start

abbrev is_after : Query → Entry → Bool
is_after q e = not (is_zero q.end) && ltb_ℤ q.end e.time

fails_first : (a b c d : Bool) → a ≡ true → (not (a || b || c) && d) ≡ false
fails_first a b c d h = rw h refl

fails_second : (a b c d : Bool) → b ≡ true → (not (a || b || c) && d) ≡ false
fails_second true b c d h = refl
fails_second false b c d h = rw h refl

fails_third : (a b c d : Bool) → c ≡ true → (not (a || b || c) && d) ≡ false
fails_third true b c d h = refl
fails_third false true c d h = refl
fails_third false false c d h = rw h refl

-- Where a pruning by time says no, a row between the bounds is before the window or after it.
outside :
    (q : Query) (lo hi : Time) (e : Entry)
    → time_range_overlaps q.start q.end lo hi ≡ false
    → Within lo hi e
    → (is_before q e ≡ true) ⊎ (is_after q e ≡ true)
unfolding time_range_overlaps
outside q lo hi e h (above, below) = elim (Bool-cases (not (is_zero q.end) && ltb_ℤ q.end lo)) [
  | inl late ↦ inr (later_too q.end lo e.time (not (is_zero q.end)) late above)
  | inr other ↦ inl (earlier_too q.start hi e.time (not (is_zero q.start)) (rest_of h other) below)
]
  where
    later_too :
        (end lo t : Time) (b : Bool)
        → (b && ltb_ℤ end lo) ≡ true
        → lo ≤ℤ t
        → (b && ltb_ℤ end t) ≡ true
    later_too end lo t b h le = ground arith

    earlier_too :
        (start hi t : Time) (b : Bool)
        → (b && ltb_ℤ hi start) ≡ true
        → t ≤ℤ hi
        → (b && ltb_ℤ t start) ≡ true
    earlier_too start hi t b h le = ground arith

    rest_of :
        {a b : Bool}
        → (if a then false else if b then false else true) ≡ false
        → a ≡ false
        → b ≡ true
    rest_of {a} {b} h e = ground arith

pub outside-row_passes :
    (q : Query) (dels : List DeleteRecord) (lo hi : Time) (e : Entry)
    → time_range_overlaps q.start q.end lo hi ≡ false
    → Within lo hi e
    → row_passes q dels e ≡ false
unfolding row_passes
outside-row_passes q dels lo hi e h w =
    let no_text = not (is_empty q.contains) && not (has_substring (msg e) q.contains) in
    let shown = not (entry_hidden_by_deletes e dels) in
    elim (outside q lo hi e h w) [
      | inl before ↦ fails_first (is_before q e) (is_after q e) no_text shown before
      | inr after ↦ fails_second (is_before q e) (is_after q e) no_text shown after
    ]

pub no_text-row_passes :
    (q : Query) (dels : List DeleteRecord) (e : Entry)
    → (not (is_empty q.contains) && not (has_substring (msg e) q.contains)) ≡ true
    → row_passes q dels e ≡ false
unfolding row_passes
no_text-row_passes q dels e h =
    fails_third (is_before q e) (is_after q e)
      (not (is_empty q.contains) && not (has_substring (msg e) q.contains))
      (not (entry_hidden_by_deletes e dels)) h

-- A property of every row of a block.
All-rows_from :
    (P : Entry → Type 0) (b : MemBlock)
    → ((i : ℕ) → i < rows b → P (row b i))
    → (todo i : ℕ) → i + todo ≤ rows b
    → All P (rows_from b todo i)
unfolding rows_from
All-rows_from P b h zero i le = tt
All-rows_from P b h (suc todo) i le =
    (h i (omega arith), All-rows_from P b h todo (i + 1) (omega arith))

pub All-all_rows :
    (P : Entry → Type 0) (b : MemBlock) → ((i : ℕ) → i < rows b → P (row b i)) → All P (all_rows b)
All-all_rows P b h = All-rows_from P b h (rows b) 0 (omega arith)

pub Within-all_rows :
    (b : MemBlock) (lo hi : Time)
    → All (λ t. (lo ≤ℤ t) × (t ≤ℤ hi)) b.times
    → All (Within lo hi) (all_rows b)
Within-all_rows b lo hi h =
    All-all_rows (Within lo hi) b
      (λ i lt. unfold row in All-get_or (λ t. (lo ≤ℤ t) × (t ≤ℤ hi)) b.times i (pos 0) h lt)

-- Rows within bounds that a pruning by time refuses: none of them passes.
pub pruned_by_time :
    (q : Query) (dels : List DeleteRecord) (lo hi : Time) (es : List Entry)
    → All (Within lo hi) es
    → time_range_overlaps q.start q.end lo hi ≡ false
    → keep_if (row_passes q dels) es ≡ []
pruned_by_time q dels lo hi es w h = keep_if-none (row_passes q dels) es (
    All-map (Within lo hi) (λ e. row_passes q dels e ≡ false)
      (λ e within. outside-row_passes q dels lo hi e h within) es w)
