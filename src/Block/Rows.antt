-- ===== src/Block/Rows.antt =====
-- block.go: the invariant of a block in memory, and what `addWithSeq` does to its rows.
use Prim.Native.Nat.{ℕ}
use marchilogs.Base.{
  ltb, ◌==◌, if◌then◌else◌, length, replicate, All, length-append, length-replicate, All-append, ℤ,
  ◌≤ℤ◌, ltb_ℤ, Bytes, bytes_eq_iff, Map, keys, lookup, insert, IsMap, lookup-insert, lookup-eq-none,
  insert-IsMap, ◌+◌, ◌-◌, ◌≤◌, ◌≡◌, refl, sym, ap, ◌∙◌, Option, none, some, List, [], ◌∷◌, ◌++◌,
  arith,
}
use marchilogs.Entry.{Entry, unix_nano}
use marchilogs.Block.{rows, MemBlock, new_mem_block, pad_to, add_values, pad_missing, add_with_seq}

abbrev pub col_of : Option (List Bytes) → List Bytes
col_of none = []
col_of (some col) = col

-- A column after a row that gives it a value, or none.
abbrev pub extended : ℕ → Option (List Bytes) → Option Bytes → Option (List Bytes)
extended past col none = col
extended past col (some v) = some (pad_to past (col_of col) ++ v ∷ [])

lookup-add_values :
    (k : Bytes) (past : ℕ) (fields : Map Bytes) (cols : Map (List Bytes))
    → IsMap fields
    → lookup k (add_values past fields cols) ≡ extended past (lookup k cols) (lookup k fields)
unfolding add_values lookup
lookup-add_values k past [] cols h = refl
lookup-add_values k past ((j, v) ∷ fields) cols h =
    let col = pad_to past (col_of (lookup j cols)) ++ v ∷ [] in
    ground (
      arith,
      lookup-add_values k past fields (insert j col cols) h.1,
      lookup-insert j k col cols,
      lookup-eq-none j fields h.0,
      bytes_eq_iff j k,
    )

abbrev pub padded : ℕ → Option (List Bytes) → Option (List Bytes)
padded n none = none
padded n (some col) = some (if ltb (length col) n then col ++ [] ∷ [] else col)

lookup-pad_missing :
    (k : Bytes) (n : ℕ) (cols : Map (List Bytes))
    → lookup k (pad_missing n cols) ≡ padded n (lookup k cols)
unfolding pad_missing lookup
lookup-pad_missing k n [] = refl
lookup-pad_missing k n ((j, col) ∷ cols) = ground (arith, lookup-pad_missing k n cols)

keys-pad_missing : (n : ℕ) (cols : Map (List Bytes)) → keys (pad_missing n cols) ≡ keys cols
unfolding pad_missing
keys-pad_missing n [] = refl
keys-pad_missing n ((j, col) ∷ cols) = ap (◌∷◌ j) (keys-pad_missing n cols)

add_values-IsMap :
    (past : ℕ) (fields : Map Bytes) (cols : Map (List Bytes))
    → IsMap cols
    → IsMap (add_values past fields cols)
unfolding add_values
add_values-IsMap past [] cols h = h
add_values-IsMap past ((j, v) ∷ fields) cols h =
    let col = pad_to past (col_of (lookup j cols)) ++ v ∷ [] in
    add_values-IsMap past fields (insert j col cols) (insert-IsMap j col cols h)

-- The invariant: the columns, the times and the sequence numbers have one value for each row, no
-- column stands twice, and the bounds hold every time.
pub record IsBlock (b : MemBlock) : Type 0 where
  pub columns : (k : Bytes) (col : List Bytes) → lookup k b.fields ≡ some col → length col ≡ rows b
  pub distinct : IsMap b.fields
  pub numbered : length b.seqs ≡ rows b
  pub bounded : All (λ t. (b.time_min ≤ℤ t) × (t ≤ℤ b.time_max)) b.times

pub new_mem_block-IsBlock : (stream : Bytes) → IsBlock (new_mem_block stream)
unfolding lookup
new_mem_block-IsBlock stream = record {
  columns = λ k col e. cc;
  distinct = tt;
  numbered = refl;
  bounded = tt;
}

pub length-value :
    (past : ℕ) (c : List Bytes) (w : Bytes)
    → length c ≤ past
    → length (pad_to past c ++ w ∷ []) ≡ past + 1
length-value past c w h = omega (
  arith,
  length-append (pad_to past c) (w ∷ []),
  length-append c (replicate (past - length c) []),
  length-replicate {A = Bytes} (past - length c) [],
)

pub length-padded :
    (past : ℕ) (old : Option (List Bytes)) (v : Option Bytes) (col : List Bytes)
    → ((c : List Bytes) → old ≡ some c → length c ≡ past)
    → padded (past + 1) (extended past old v) ≡ some col
    → length col ≡ past + 1
length-padded past none none col h e = cc
length-padded past none (some w) col h e = ground (arith, length-value past [] w (omega arith))
length-padded past (some c) none col h e = ground (arith, h c refl, length-append c ([] ∷ []))
length-padded past (some c) (some w) col h e =
    ground (arith, h c refl, length-value past c w (omega (arith, h c refl)))

bounds_widen :
    (lo hi lo' hi' : ℤ) (ts : List ℤ)
    → lo' ≤ℤ lo
    → hi ≤ℤ hi'
    → All (λ t. (lo ≤ℤ t) × (t ≤ℤ hi)) ts
    → All (λ t. (lo' ≤ℤ t) × (t ≤ℤ hi')) ts
bounds_widen lo hi lo' hi' [] p q h = tt
bounds_widen lo hi lo' hi' (t ∷ ts) p q h =
    ((omega (arith, h.0.0), omega (arith, h.0.1)), bounds_widen lo hi lo' hi' ts p q h.1)

bounds_after :
    (lo hi ts : ℤ) (times : List ℤ)
    → All (λ t. (lo ≤ℤ t) × (t ≤ℤ hi)) times
    → All
        (λ t.
          ((if length times == 0 then ts else if ltb_ℤ ts lo then ts else lo) ≤ℤ t)
          × (t ≤ℤ (if length times == 0 then ts else if ltb_ℤ hi ts then ts else hi)))
        (times ++ ts ∷ [])
bounds_after lo hi ts [] h = ((omega arith, omega arith), tt)
bounds_after lo hi ts (x ∷ times) h =
    let lo' = if length (x ∷ times) == 0 then ts else if ltb_ℤ ts lo then ts else lo in
    let hi' = if length (x ∷ times) == 0 then ts else if ltb_ℤ hi ts then ts else hi in
    All-append (λ t. (lo' ≤ℤ t) × (t ≤ℤ hi')) (x ∷ times) (ts ∷ [])
      (bounds_widen lo hi lo' hi' (x ∷ times) (ground arith) (ground arith) h)
      ((ground arith, ground arith), tt)

module _ (b : MemBlock) (e : Entry) (seq : ℕ) (v : IsBlock b) (m : IsMap e.fields) where
  -- The columns after a row.
  pub lookup-add_with_seq :
      (k : Bytes)
      → lookup k (add_with_seq b e seq).fields
        ≡ padded (rows b + 1) (extended (rows b) (lookup k b.fields) (lookup k e.fields))
  unfolding add_with_seq
  lookup-add_with_seq k =
      lookup-pad_missing k (rows b + 1) (add_values (rows b) e.fields b.fields)
      ∙ ap (padded (rows b + 1)) (lookup-add_values k (rows b) e.fields b.fields m)

  pub rows-add_with_seq : rows (add_with_seq b e seq) ≡ rows b + 1
  unfolding add_with_seq
  rows-add_with_seq = length-append b.times (unix_nano e.time ∷ [])

  -- `addWithSeq` keeps the invariant `IsBlock`: one value for each row in every column, no column
  -- twice, and bounds that hold every time. The fields of the entry are a map.
  pub add_with_seq-IsBlock : IsBlock (add_with_seq b e seq)
  add_with_seq-IsBlock = record {
    columns = λ k col found.
        length-padded (rows b) (lookup k b.fields) (lookup k e.fields) col (v.columns k)
          (sym (lookup-add_with_seq k) ∙ found)
        ∙ sym rows-add_with_seq;
    distinct =
        unfold add_with_seq in
        rw (keys-pad_missing (rows b + 1) (add_values (rows b) e.fields b.fields))
          (add_values-IsMap (rows b) e.fields b.fields v.distinct);
    numbered =
        unfold add_with_seq in
        omega (
          arith,
          v.numbered,
          length-append b.seqs (seq ∷ []),
          length-append b.times (unix_nano e.time ∷ []),
        );
    bounded =
        unfold add_with_seq in
        bounds_after b.time_min b.time_max (unix_nano e.time) b.times v.bounded;
  }
