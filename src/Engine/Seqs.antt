-- ===== src/Engine/Seqs.antt =====
-- storage.go: the sequence numbers of the buffers that a row is added to.
use marchilogs.Base.{
  All, All-append, Bytes, List, Map, Option, [], arith, bytes_eq, if-both, insert, lookup, none,
  refl, some, ℕ, ◌++◌, ◌||◌, ◌∷◌, ◌≡◌,
}
use marchilogs.Block.{MemBlock, add_with_seq, new_mem_block}
use marchilogs.Calendar.{partition_name}
use marchilogs.Engine.{apply_locked, buffer_at}
use marchilogs.Entry.{Entry, field_of, field_stream}
use marchilogs.Flush.Durable.{AllSeqs, has_seq}
use marchilogs.Store.{Store, buf_key}
use marchilogs.Wal.{WalRecord}

or_new : Bytes → Option MemBlock → MemBlock
or_new stream o = elim o [ none ↦ new_mem_block stream | some b ↦ b ]

AllSeqs-lookup :
    (P : ℕ → Type 0) (key stream : Bytes) (buffers : Map MemBlock)
    → AllSeqs P buffers
    → All P (buffer_at key stream buffers).seqs
unfolding lookup or_new
AllSeqs-lookup P key stream [] h = tt
AllSeqs-lookup P key stream ((k, b) ∷ buffers) h =
    if-both (λ (o : Option MemBlock). All P (or_new stream o).seqs) (bytes_eq k key) (some b)
      (lookup key buffers) (λ found. h.0) (λ later. AllSeqs-lookup P key stream buffers h.1)

AllSeqs-insert :
    (P : ℕ → Type 0) (key : Bytes) (b : MemBlock) (buffers : Map MemBlock)
    → All P b.seqs
    → AllSeqs P buffers
    → AllSeqs P (insert key b buffers)
unfolding insert
AllSeqs-insert P key b [] hb h = (hb, tt)
AllSeqs-insert P key b ((k, b') ∷ buffers) hb h =
    if-both (AllSeqs P) (bytes_eq k key) ((k, b) ∷ buffers) ((k, b') ∷ insert key b buffers)
      (λ found. (hb, h.1)) (λ later. (h.0, AllSeqs-insert P key b buffers hb h.1))

pub apply_locked-AllSeqs :
    (P : ℕ → Type 0) (e : Entry) (n : ℕ) (s : Store)
    → P n
    → AllSeqs P s.buffers
    → AllSeqs P (apply_locked e n s).buffers
unfolding apply_locked add_with_seq
apply_locked-AllSeqs P e n s hn h =
    let stream = field_of field_stream e.fields in
    let key = buf_key (partition_name e.time) stream in
    let b = buffer_at key stream s.buffers in
    AllSeqs-insert P key (add_with_seq b e n) s.buffers
      (All-append P b.seqs (n ∷ []) (AllSeqs-lookup P key stream s.buffers h) (hn, tt)) h

pub has_seq-append :
    (n : ℕ) (rs rs' : List WalRecord) → has_seq n (rs ++ rs') ≡ (has_seq n rs || has_seq n rs')
has_seq-append n [] rs' = refl
has_seq-append n (r ∷ rs) rs' = ground (arith, has_seq-append n rs rs')
