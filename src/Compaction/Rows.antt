-- ===== src/Compaction/Rows.antt =====
-- compaction.go and block.go: the rows of a block that rows of other blocks were added to.
use marchilogs.Base.{
  All, All-append, All-get_or, Bytes, IsInt64, IsMap, List, Map, Option, [], ap, append-nil,
  append_assoc, arith, get_or, if-both, if◌then◌else◌, insert, insert-IsMap, is_empty, lookup, none,
  pos, refl, some, suc, sym, to_int64-IsInt64, to_int64_id, zero, ℕ, ◌++◌, ◌+◌, ◌<◌, ◌∙◌, ◌∷◌, ◌≡◌,
}
use marchilogs.Block.{MemBlock, add_entry, add_with_seq, new_mem_block, row, row_fields, rows}
use marchilogs.Block.Read.{lookup-row, nonempty, row-add_with_seq_new, row-add_with_seq_old}
use marchilogs.Block.Rows.{
  IsBlock, add_with_seq-IsBlock, col_of, new_mem_block-IsBlock, rows-add_with_seq,
}
use marchilogs.Compaction.{add_rows}
use marchilogs.Entry.{Entry, unix_nano}
use marchilogs.Search.{all_rows, rows_from}
use marchilogs.Search.Window.{All-all_rows}
use mathlib.Core.Path.{subst}

-- Entries that read alike: the same time, and the same value at every field.
abbrev pub Alike : Entry → Entry → Type 0
Alike e e' = (e.time ≡ e'.time) × ((k : Bytes) → lookup k e.fields ≡ lookup k e'.fields)

-- Lists whose entries read alike one by one.
abbrev pub AllAlike : List Entry → List Entry → Type 0
AllAlike [] [] = Unit
AllAlike [] (e' ∷ es') = ⊥
AllAlike (e ∷ es) [] = ⊥
AllAlike (e ∷ es) (e' ∷ es') = Alike e e' × AllAlike es es'

pub AllAlike-refl : (es : List Entry) → AllAlike es es
AllAlike-refl [] = tt
AllAlike-refl (e ∷ es) = ((refl, λ k. refl), AllAlike-refl es)

pub AllAlike-trans :
    (es es' es'' : List Entry) → AllAlike es es' → AllAlike es' es'' → AllAlike es es''
AllAlike-trans [] [] [] h h' = tt
AllAlike-trans [] [] (z ∷ zs) h h' = h'
AllAlike-trans [] (y ∷ ys) zs h h' = absurd h
AllAlike-trans (x ∷ xs) [] zs h h' = absurd h
AllAlike-trans (x ∷ xs) (y ∷ ys) [] h h' = h'
AllAlike-trans (x ∷ xs) (y ∷ ys) (z ∷ zs) h h' =
    ((h.0.0 ∙ h'.0.0, λ k. h.0.1 k ∙ h'.0.1 k), AllAlike-trans xs ys zs h.1 h'.1)

pub AllAlike-append :
    (xs xs' ys ys' : List Entry)
    → AllAlike xs xs'
    → AllAlike ys ys'
    → AllAlike (xs ++ ys) (xs' ++ ys')
AllAlike-append [] [] ys ys' h h' = h'
AllAlike-append [] (x' ∷ xs') ys ys' h h' = absurd h
AllAlike-append (x ∷ xs) [] ys ys' h h' = absurd h
AllAlike-append (x ∷ xs) (x' ∷ xs') ys ys' h h' = (h.0, AllAlike-append xs xs' ys ys' h.1 h')

-- An entry as a block holds it: a time of 64 bits, and fields with values.
pub record IsRow (e : Entry) : Type 0 where
  pub int64 : IsInt64 e.time
  pub distinct : IsMap e.fields
  pub valued : (k : Bytes) → nonempty (lookup k e.fields) ≡ lookup k e.fields

row_fields-IsMap :
    (i : ℕ) (cols : Map (List Bytes)) (out : Map Bytes) → IsMap out → IsMap (row_fields i cols out)
unfolding row_fields
row_fields-IsMap i [] out h = h
row_fields-IsMap i ((k, col) ∷ cols) out h =
    row_fields-IsMap i cols
      (if is_empty (get_or col i []) then out else insert k (get_or col i []) out)
      (if-both IsMap (is_empty (get_or col i [])) out (insert k (get_or col i []) out) (λ e. h)
        (λ e. insert-IsMap k (get_or col i []) out h))

nonempty_idem : (o : Option Bytes) → nonempty (nonempty o) ≡ nonempty o
nonempty_idem none = refl
nonempty_idem (some v) = ground arith

pub row-IsRow :
    (b : MemBlock) (i : ℕ) → IsBlock b → All IsInt64 b.times → i < rows b → IsRow (row b i)
row-IsRow b i v h hi = record {
  int64 = unfold row in All-get_or IsInt64 b.times i (pos 0) h hi;
  distinct = unfold row in row_fields-IsMap i b.fields [] tt;
  valued = λ k.
      let e = lookup-row b i k v.distinct in
      ap nonempty e ∙ nonempty_idem (some (get_or (col_of (lookup k b.fields)) i [])) ∙ sym e;
}

pub all_rows-IsRow : (b : MemBlock) → IsBlock b → All IsInt64 b.times → All IsRow (all_rows b)
all_rows-IsRow b v h = All-all_rows IsRow b (λ i hi. row-IsRow b i v h hi)

module _ (b : MemBlock) (e : Entry) (v : IsBlock b) (r : IsRow e) where
  row-add_new : Alike (row (add_entry b e) (rows b)) e
  row-add_new =
      let h = row-add_with_seq_new b e 0 v r.distinct in
      (h.0 ∙ to_int64_id e.time r.int64, λ k. h.1 k ∙ r.valued k)

  rows_from-add :
      (todo i : ℕ)
      → i + todo ≡ rows b
      → AllAlike (rows_from (add_entry b e) (suc todo) i) (rows_from b todo i ++ e ∷ [])
  unfolding rows_from
  rows_from-add zero i h =
      (subst (λ n. Alike (row (add_entry b e) n) e) (omega arith) row-add_new, tt)
  rows_from-add (suc todo) i h = (
    row-add_with_seq_old b e 0 v r.distinct i (omega arith),
    rows_from-add todo (i + 1) (omega arith),
  )

  all_rows-add : AllAlike (all_rows (add_entry b e)) (all_rows b ++ e ∷ [])
  all_rows-add =
      subst (λ n. AllAlike (rows_from (add_entry b e) n 0) (all_rows b ++ e ∷ []))
        (omega (arith, rows-add_with_seq b e 0)) (rows_from-add (rows b) 0 (omega arith))

-- A block that is merged into: it keeps its invariant, and its times have 64 bits.
pub record IsTarget (b : MemBlock) : Type 0 where
  pub block : IsBlock b
  pub int64 : All IsInt64 b.times

pub new_mem_block-IsTarget : (stream : Bytes) → IsTarget (new_mem_block stream)
new_mem_block-IsTarget stream = record { block = new_mem_block-IsBlock stream; int64 = tt }

add_entry-IsTarget : (b : MemBlock) (e : Entry) → IsTarget b → IsRow e → IsTarget (add_entry b e)
add_entry-IsTarget b e v r = record {
  block = add_with_seq-IsBlock b e 0 v.block r.distinct;
  int64 =
      unfold add_with_seq in
      All-append IsInt64 b.times (unix_nano e.time ∷ []) v.int64 (to_int64-IsInt64 e.time, tt);
}

-- What `add` makes of a block with the rows of others.
pub record Gains (es : List Entry) (b b' : MemBlock) : Type 0 where
  pub target : IsTarget b'
  pub rows_alike : AllAlike (all_rows b') (all_rows b ++ es)
  pub same_stream : b'.stream ≡ b.stream

pub add_rows-Gains :
    (es : List Entry) (b : MemBlock) → IsTarget b → All IsRow es → Gains es b (add_rows es b)
unfolding add_rows
add_rows-Gains [] b v h = record {
  target = v;
  rows_alike =
      subst (AllAlike (all_rows b)) (sym (append-nil (all_rows b))) (AllAlike-refl (all_rows b));
  same_stream = refl;
}
add_rows-Gains (e ∷ es) b v h =
    let more = add_rows-Gains es (add_entry b e) (add_entry-IsTarget b e v h.0) h.1 in
    record {
      target = more.target;
      rows_alike =
          AllAlike-trans (all_rows (add_rows es (add_entry b e))) (all_rows (add_entry b e) ++ es)
            (all_rows b ++ e ∷ es) more.rows_alike
            (subst (AllAlike (all_rows (add_entry b e) ++ es))
              (append_assoc (all_rows b) (e ∷ []) es)
              (AllAlike-append (all_rows (add_entry b e)) (all_rows b ++ e ∷ []) es es
                (all_rows-add b e v.block h.0) (AllAlike-refl es)));
      same_stream = more.same_stream ∙ stream_kept;
    }
  where
    stream_kept : (add_entry b e).stream ≡ b.stream
    stream_kept = unfold add_with_seq in refl
