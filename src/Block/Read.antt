-- ===== src/Block/Read.antt =====
-- block.go: the rows of a block before and after `addWithSeq`.
use Prim.Native.Nat.{ℕ}
use marchilogs.Base.{
  if◌then◌else◌, length, get_or, replicate, length-append, length-replicate, get_or-append_left,
  get_or-append_right, get_or-append-replicate, pos, Bytes, is_empty, bytes_eq_iff, Map, lookup,
  insert, IsMap, lookup-insert, lookup-eq-none, ◌+◌, ◌-◌, ◌≤◌, ◌<◌, ◌≡◌, refl, sym, ap, ◌∙◌, Option,
  none, some, List, [], ◌∷◌, ◌++◌, arith,
}
use marchilogs.Entry.{Entry, unix_nano}
use marchilogs.Block.{rows, MemBlock, pad_to, add_with_seq, row_fields, row}
use marchilogs.Block.Rows.{
  col_of, extended, padded, IsBlock, length-value, lookup-add_with_seq, add_with_seq-IsBlock,
}

-- What row `i` of a column holds.
abbrev cell : Option (List Bytes) → ℕ → Bytes
cell col i = get_or (col_of col) i []

abbrev pub nonempty : Option Bytes → Option Bytes
nonempty none = none
nonempty (some v) = if is_empty v then none else some v

lookup-row_fields :
    (k : Bytes) (i : ℕ) (cols : Map (List Bytes)) (out : Map Bytes)
    → IsMap cols
    → lookup k (row_fields i cols out)
      ≡ (if is_empty (cell (lookup k cols) i) then lookup k out else some (cell (lookup k cols) i))
unfolding row_fields lookup
lookup-row_fields k i [] out h = refl
lookup-row_fields k i ((j, col) ∷ cols) out h = ground (
  arith,
  lookup-row_fields k i cols (insert j (get_or col i []) out) h.1,
  lookup-row_fields k i cols out h.1,
  lookup-insert j k (get_or col i []) out,
  lookup-eq-none j cols h.0,
  bytes_eq_iff j k,
)

-- The value of a field in a row.
pub lookup-row :
    (b : MemBlock) (i : ℕ) (k : Bytes)
    → IsMap b.fields
    → lookup k (row b i).fields ≡ nonempty (some (get_or (col_of (lookup k b.fields)) i []))
unfolding row
lookup-row b i k h = lookup-row_fields k i b.fields [] h ∙ unfold lookup in refl

length-pad_to : (past : ℕ) (c : List Bytes) → length c ≤ past → length (pad_to past c) ≡ past
length-pad_to past c h = omega (
  arith,
  length-append c (replicate (past - length c) []),
  length-replicate {A = Bytes} (past - length c) [],
)

-- The column that a value was put into.
abbrev valued : ℕ → List Bytes → Bytes → List Bytes
valued past c w = pad_to past c ++ w ∷ []

valued_new :
    (past : ℕ) (c : List Bytes) (w : Bytes)
    → length c ≤ past
    → cell (padded (past + 1) (some (valued past c w))) past ≡ w
valued_new past c w h = ground (
  arith,
  length-value past c w h,
  get_or-append_right (pad_to past c) w past [] (sym (length-pad_to past c h)),
)

valued_old :
    (past : ℕ) (c : List Bytes) (w : Bytes) (i : ℕ)
    → length c ≤ past
    → i < past
    → cell (padded (past + 1) (some (valued past c w))) i ≡ get_or c i []
valued_old past c w i h hi = ground (
  arith,
  length-value past c w h,
  length-pad_to past c h,
  get_or-append_left (pad_to past c) (w ∷ []) i [],
  get_or-append-replicate {A = Bytes} c (past - length c) i [],
)

Full : ℕ → Option (List Bytes) → Type 0
Full past old = (c : List Bytes) → old ≡ some c → length c ≡ past

-- The new row of a column holds the value that the entry has there, if it is not empty.
cell_new :
    (past : ℕ) (old : Option (List Bytes)) (v : Option Bytes)
    → Full past old
    → nonempty (some (cell (padded (past + 1) (extended past old v)) past)) ≡ nonempty v
unfolding Full
cell_new past none none full = refl
cell_new past none (some w) full = rw (valued_new past [] w (omega arith))
cell_new past (some c) none full =
    ground (arith, full c refl, get_or-append_right c [] past [] (sym (full c refl)))
cell_new past (some c) (some w) full = rw (valued_new past c w (omega (arith, full c refl)))

-- The rows before it are as they were.
cell_old :
    (past : ℕ) (old : Option (List Bytes)) (v : Option Bytes) (i : ℕ)
    → Full past old
    → i < past
    → cell (padded (past + 1) (extended past old v)) i ≡ cell old i
unfolding Full
cell_old past none none i full h = refl
cell_old past none (some w) i full h = valued_old past [] w i (omega arith) h
cell_old past (some c) none i full h =
    ground (arith, full c refl, get_or-append_left c ([] ∷ []) i [])
cell_old past (some c) (some w) i full h = valued_old past c w i (omega (arith, full c refl)) h

module _ (b : MemBlock) (e : Entry) (seq : ℕ) (v : IsBlock b) (m : IsMap e.fields) where
  distinct_after : IsMap (add_with_seq b e seq).fields
  distinct_after = (add_with_seq-IsBlock b e seq v m).distinct

  -- After `addWithSeq` the new row reads as the entry that was added: its time in nanoseconds, and
  -- its fields that are not empty.
  pub row-add_with_seq_new :
      ((row (add_with_seq b e seq) (rows b)).time ≡ unix_nano e.time)
      × ((k : Bytes)
          → lookup k (row (add_with_seq b e seq) (rows b)).fields ≡ nonempty (lookup k e.fields))
  row-add_with_seq_new = (
    unfold row add_with_seq in get_or-append_right b.times (unix_nano e.time) (rows b) (pos 0) refl,
    λ k.
        lookup-row (add_with_seq b e seq) (rows b) k distinct_after
        ∙ ap (λ (o : Option (List Bytes)). nonempty (some (cell o (rows b))))
            (lookup-add_with_seq b e seq v m k)
        ∙ cell_new (rows b) (lookup k b.fields) (lookup k e.fields) (unfold Full in v.columns k),
  )

  -- After `addWithSeq` every earlier row of a block reads as before: its time and all its fields.
  pub row-add_with_seq_old :
      (i : ℕ)
      → i < rows b
      → ((row (add_with_seq b e seq) i).time ≡ (row b i).time)
        × ((k : Bytes) → lookup k (row (add_with_seq b e seq) i).fields ≡ lookup k (row b i).fields)
  row-add_with_seq_old i h = (
    unfold row add_with_seq in get_or-append_left b.times (unix_nano e.time ∷ []) i (pos 0) h,
    λ k.
        lookup-row (add_with_seq b e seq) i k distinct_after
        ∙ ap (λ (o : Option (List Bytes)). nonempty (some (cell o i)))
            (lookup-add_with_seq b e seq v m k)
        ∙ ap (λ (c : Bytes). nonempty (some c))
            (cell_old (rows b) (lookup k b.fields) (lookup k e.fields) i
              (unfold Full in v.columns k) h)
        ∙ sym (lookup-row b i k v.distinct),
  )
