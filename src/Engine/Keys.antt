-- ===== src/Engine/Keys.antt =====
-- storage.go: the keys of the buffers are those that `bufKey` makes.
use marchilogs.Base.{
  All, All-insert, Bool, Bytes, List, Option, [], arith, digits_value, digits_value-zero_padded,
  false, has_byte, has_byte-append, if-both, inl, inr, io_failure, is_nil, keys, leb, length,
  lookup, map, negsuc, none, pos, refl, replicate, some, suc, sym, zero_padded, ℕ, ℤ, ◌*◌, ◌++◌,
  ◌+◌, ◌-◌, ◌∷◌, ◌≡◌,
}
use marchilogs.Block.{MemBlock, add_with_seq, rows}
use marchilogs.Calendar.{Time, date_of, partition_name, year_text}
use marchilogs.Engine.{
  append, append_from, append_normalized, append_rows, apply_locked, buffer_at, flush_if_full,
  if_ok-keeps, logged, log_entries,
}
use marchilogs.Engine.Collected.{All-remove_items}
use marchilogs.Engine.Empties.{IsKey}
use marchilogs.Entry.{Entry, field_of, field_stream, normalize}
use marchilogs.Flush.{Io, Outcome, flush_items, flush_partition}
use marchilogs.Flush.Outcomes.{flush_partition-KeepsRows}
use marchilogs.Store.{Store, buf_key}
use marchilogs.Wal.{RecordCodec, Wal, append_entries}
use mathlib.Core.Path.{subst}

abbrev pub IsKeyed : Store → Type 0
IsKeyed s = All (λ (item : Bytes × MemBlock). IsKey item.0) s.buffers

has_byte-digits : (acc : ℕ) (s : Bytes) (n : ℕ) → digits_value acc s ≡ some n → has_byte 0 s ≡ false
unfolding digits_value
has_byte-digits acc [] n h = refl
has_byte-digits acc (c ∷ s) n h = ground (arith, h, has_byte-digits (acc * 10 + (c - 48)) s n)

has_byte-zero_padded : (width n : ℕ) → has_byte 0 (zero_padded width n) ≡ false
has_byte-zero_padded width n =
    has_byte-digits 0 (zero_padded width n) n (digits_value-zero_padded width n)

has_byte-year_text : (year : ℤ) → has_byte 0 (year_text year) ≡ false
has_byte-year_text (pos n) = has_byte-zero_padded 4 n
has_byte-year_text (negsuc n) = ground (arith, has_byte-zero_padded 4 (suc n))

has_byte-three :
    (s t u : Bytes)
    → has_byte 0 s ≡ false
    → has_byte 0 t ≡ false
    → has_byte 0 u ≡ false
    → has_byte 0 (s ++ t ++ u) ≡ false
has_byte-three s t u hs ht hu =
    ground (arith, hs, ht, hu, has_byte-append 0 (s ++ t) u, has_byte-append 0 s t)

partition_name-IsKey : (t : Time) (stream : Bytes) → IsKey (buf_key (partition_name t) stream)
unfolding partition_name
partition_name-IsKey t stream =
    let d = date_of t in
    (
      partition_name t,
      stream,
      refl,
      has_byte-three (year_text d.year) (zero_padded 2 d.month) (zero_padded 2 d.day)
          (has_byte-year_text d.year) (has_byte-zero_padded 2 d.month)
          (has_byte-zero_padded 2 d.day),
    )

apply_locked-IsKeyed : (e : Entry) (n : ℕ) (s : Store) → IsKeyed s → IsKeyed (apply_locked e n s)
unfolding apply_locked
apply_locked-IsKeyed e n s h =
    let stream = field_of field_stream e.fields in
    let key = buf_key (partition_name e.time) stream in
    All-insert (λ item. IsKey item.0) key (add_with_seq (buffer_at key stream s.buffers) e n)
      s.buffers (partition_name-IsKey e.time stream) h

module _ (io : Io) (codec : RecordCodec) where
  flush_partition-IsKeyed :
      (day : Bytes) (s : Store) → IsKeyed s → IsKeyed (flush_partition io codec day s).0
  flush_partition-IsKeyed day s h = elim (flush_partition-KeepsRows io codec day s) [
    | inl same ↦ subst (All (λ (item : Bytes × MemBlock). IsKey item.0)) (sym same) h
    | inr (name, made, fewer) ↦
        subst (All (λ (item : Bytes × MemBlock). IsKey item.0)) (sym fewer)
          (All-remove_items (λ item. IsKey item.0) (keys (flush_items day s.buffers)) s.buffers h)
  ]

  flush_if_full-IsKeyed :
      (max_rows : ℕ) (e : Entry) (s : Store)
      → IsKeyed s
      → IsKeyed (flush_if_full io codec max_rows e s).0
  unfolding flush_if_full
  flush_if_full-IsKeyed max_rows e s h =
      let day = partition_name e.time in
      let key = buf_key day (field_of field_stream e.fields) in
      if-both (λ (o : Outcome). IsKeyed o.0)
        (elim (lookup key s.buffers) as (λ x. Bool) [
          | none ↦ false
          | some b ↦ leb max_rows (rows b)
        ])
        (flush_partition io codec day s) (s, none) (λ full. flush_partition-IsKeyed day s h)
        (λ room. h)

  append_rows-IsKeyed :
      (max_rows : ℕ) (es : List Entry) (seqs : List ℕ) (s : Store)
      → IsKeyed s
      → IsKeyed (append_rows io codec max_rows es seqs s).0
  unfolding append_rows
  append_rows-IsKeyed max_rows [] seqs s h = h
  append_rows-IsKeyed max_rows (e ∷ es) [] s h = h
  append_rows-IsKeyed max_rows (e ∷ es) (seq ∷ seqs) s h =
      if_ok-keeps IsKeyed (flush_if_full io codec max_rows e (apply_locked e seq s))
        (λ s'. append_rows io codec max_rows es seqs s')
        (flush_if_full-IsKeyed max_rows e (apply_locked e seq s) (apply_locked-IsKeyed e seq s h))
        (λ s' h'. append_rows-IsKeyed max_rows es seqs s' h')

  append_from-IsKeyed :
      (max_rows : ℕ) (es : List Entry) (s : Store) (w : Option Wal)
      → IsKeyed s
      → IsKeyed (append_from io codec max_rows es s w).0
  append_from-IsKeyed max_rows es s none h =
      append_rows-IsKeyed max_rows es (replicate (length es) 0) s h
  append_from-IsKeyed max_rows es s (some w) h =
      let done = append_entries codec es w in
      let written = log_entries io codec es w in
      if-both (λ (o : Outcome). IsKeyed o.0) written.1
        (record s { wal = some written.0 }, some io_failure) (logged io codec max_rows es s done)
        (λ failed. h)
        (λ fine. append_rows-IsKeyed max_rows es done.1 (record s { wal = some done.0 }) h)

  -- An `Append` keeps the keys, whichever of its calls fail.
  pub append-IsKeyed :
      (fields : List Bytes) (max_rows : ℕ) (entries : List (Time × Entry)) (s : Store)
      → IsKeyed s
      → IsKeyed (append io codec fields max_rows entries s).0
  unfolding append append_normalized
  append-IsKeyed fields max_rows entries s h =
      let es = map (λ (te : Time × Entry). normalize fields te.0 te.1) entries in
      if-both (λ (o : Outcome). IsKeyed o.0) (is_nil entries) (s, none)
        (append_normalized io codec max_rows es s) (λ nothing. h)
        (λ some_rows. append_from-IsKeyed max_rows es s s.wal h)
