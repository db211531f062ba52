-- ===== src/Flush/Durable.antt =====
-- storage.go and wal.go: the log holds the records of the rows that the buffers hold, after the
-- checkpoint.
use marchilogs.Base.{
  All, All-both, All-keep_if, All-map, Bool, Bool-cases, Bytes, List, Map, Option, Result, [], any,
  ap, arith, bytes_eq_iff, err, if◌then◌else◌, inl, inr, keep_if, keep_if-every, ltb, mem_bytes,
  none, not, ok, refl, remove, some, sym, true, ℕ, ◌&&◌, ◌<◌, ◌==◌, ◌>>=◌, ◌^◌, ◌∙◌, ◌∷◌, ◌≡◌, ◌≤◌,
}
use marchilogs.Block.{MemBlock}
use marchilogs.Flush.{min_seq, min_unflushed, remove_items}
use marchilogs.Store.{Store}
use marchilogs.Wal.{RecordCodec, Wal, WalRecord, compact, for_each_record, frames, read_checkpoint}
use marchilogs.Wal.Frames.{IsEncodable}
use marchilogs.Wal.Replay.{for_each_record-frames}
use mathlib.Core.Path.{subst}

-- A property of the sequence number of every buffered row.
abbrev pub AllSeqs : (ℕ → Type 0) → Map MemBlock → Type 0
AllSeqs P buffers = All (λ (item : Bytes × MemBlock). All P item.1.seqs) buffers

abbrev pub has_seq : ℕ → List WalRecord → Bool
has_seq n rs = any (λ (r : WalRecord). r.seq == n) rs

-- The number is that of a record after the checkpoint, and below the next one.
abbrev pub IsLogged : List WalRecord → Wal → ℕ → Type 0
IsLogged rs w n = (has_seq n rs ≡ true) × (w.checkpoint < n) × (n < w.next_seq)

pub record DurableWal (codec : RecordCodec) (buffers : Map MemBlock) (w : Wal) : Type 0 where
  pub records : List WalRecord
  pub log : w.log ≡ frames codec records
  pub encodable : All (IsEncodable codec) records
  pub logged : AllSeqs (IsLogged records w) buffers
  pub on_file : read_checkpoint w.checkpoint_file ≡ ok w.checkpoint
  pub ahead : w.checkpoint < w.next_seq
  pub no_wrap : w.next_seq < 2 ^ 64

abbrev pub IsLoggedBy : RecordCodec → Map MemBlock → Option Wal → Type 0
IsLoggedBy codec buffers none = Unit
IsLoggedBy codec buffers (some w) = DurableWal codec buffers w

abbrev pub IsDurable : RecordCodec → Store → Type 0
IsDurable codec s = IsLoggedBy codec s.buffers s.wal

pub AllSeqs-map :
    (P Q : ℕ → Type 0) (buffers : Map MemBlock)
    → ((n : ℕ) → P n → Q n)
    → AllSeqs P buffers
    → AllSeqs Q buffers
AllSeqs-map P Q buffers f h =
    All-map (λ (item : Bytes × MemBlock). All P item.1.seqs)
      (λ (item : Bytes × MemBlock). All Q item.1.seqs) (λ item hs. All-map P Q f item.1.seqs hs)
      buffers h

pub AllSeqs-both :
    (P Q : ℕ → Type 0) (buffers : Map MemBlock)
    → AllSeqs P buffers
    → AllSeqs Q buffers
    → AllSeqs (λ n. P n × Q n) buffers
AllSeqs-both P Q [] hp hq = tt
AllSeqs-both P Q ((key, b) ∷ buffers) hp hq =
    (All-both P Q b.seqs hp.0 hq.0, AllSeqs-both P Q buffers hp.1 hq.1)

remove-keep_if :
    (k : Bytes) (ks : List Bytes) (m : Map MemBlock)
    → keep_if (λ (item : Bytes × MemBlock). not (mem_bytes item.0 ks)) (remove k m)
      ≡ keep_if (λ (item : Bytes × MemBlock). not (mem_bytes item.0 (k ∷ ks))) m
unfolding remove mem_bytes
remove-keep_if k ks [] = refl
remove-keep_if k ks ((j, b) ∷ m) =
    ground (arith, bytes_eq_iff j k, bytes_eq_iff k j, remove-keep_if k ks m)

-- The deletes of a flush leave out exactly the items.
pub remove_items_lem :
    (removed : List Bytes) (m : Map MemBlock)
    → remove_items removed m
      ≡ keep_if (λ (item : Bytes × MemBlock). not (mem_bytes item.0 removed)) m
unfolding remove_items mem_bytes
remove_items_lem [] m =
    sym (keep_if-every (λ (item : Bytes × MemBlock). not (mem_bytes item.0 [])) m (λ item. refl))
remove_items_lem (k ∷ ks) m = remove_items_lem ks (remove k m) ∙ remove-keep_if k ks m

min_seq-le : (ns : List ℕ) (m : ℕ) → min_seq ns m ≤ m
unfolding min_seq
min_seq-le [] m = omega arith
min_seq-le (n ∷ ns) m = ground (arith, min_seq-le ns (if ltb 0 n && ltb n m then n else m))

min_seq-below : (ns : List ℕ) (m : ℕ) → All (λ n. 0 < n → min_seq ns m ≤ n) ns
unfolding min_seq
min_seq-below [] m = tt
min_seq-below (n ∷ ns) m =
    let m' = if ltb 0 n && ltb n m then n else m in
    (λ positive. ground (arith, positive, min_seq-le ns m'), min_seq-below ns m')

pub min_unflushed-le :
    (removed : List Bytes) (buffers : Map MemBlock) (m : ℕ) → min_unflushed removed buffers m ≤ m
unfolding min_unflushed
min_unflushed-le removed [] m = omega arith
min_unflushed-le removed ((key, b) ∷ buffers) m = ground (
  arith,
  min_seq-le b.seqs m,
  min_unflushed-le removed buffers (if mem_bytes key removed then m else min_seq b.seqs m),
)

-- The minimum is at most every positive number in the buffers that stay.
pub min_unflushed-below :
    (removed : List Bytes) (buffers : Map MemBlock) (m : ℕ)
    → AllSeqs
        (λ n. 0 < n → min_unflushed removed buffers m ≤ n)
        (keep_if (λ (item : Bytes × MemBlock). not (mem_bytes item.0 removed)) buffers)
unfolding min_unflushed
min_unflushed-below removed [] m = tt
min_unflushed-below removed ((key, b) ∷ buffers) m = elim (Bool-cases (mem_bytes key removed)) [
  | inl gone ↦ rw gone (min_unflushed-below removed buffers m)
  | inr stays ↦
      let m' = min_seq b.seqs m in
      rw stays (
        All-map (λ n. 0 < n → m' ≤ n) (λ n. 0 < n → min_unflushed removed buffers m' ≤ n)
            (λ n below positive. omega (arith, below positive, min_unflushed-le removed buffers m'))
            b.seqs (min_seq-below b.seqs m),
        min_unflushed-below removed buffers m',
      )
]

-- A log whose checkpoint moves on, below every number that is buffered.
module _ (codec : RecordCodec) (buffers : Map MemBlock) (w : Wal)
    (d : DurableWal codec buffers w) where
  pub checkpoint-DurableWal :
      (cp : ℕ) (file : Option Bytes) (fewer : Map MemBlock)
      → read_checkpoint file ≡ ok cp
      → cp < w.next_seq
      → AllSeqs (IsLogged d.records w) fewer
      → AllSeqs (λ n. cp < n) fewer
      → DurableWal codec fewer (record w { checkpoint = cp; checkpoint_file = file })
  checkpoint-DurableWal cp file fewer hf hc hl hn = record {
    on_file = hf;
    records = d.records;
    log = d.log;
    encodable = d.encodable;
    logged =
        AllSeqs-map (λ n. IsLogged d.records w n × (cp < n))
          (IsLogged d.records (record w { checkpoint = cp; checkpoint_file = file })) fewer
          (λ n h. (h.0.0, h.1, h.0.2))
          (AllSeqs-both (IsLogged d.records w) (λ n. cp < n) fewer hl hn);
    ahead = hc;
    no_wrap = d.no_wrap;
  }

  -- What a compaction writes.
  kept : List WalRecord
  kept = keep_if (λ (r : WalRecord). ltb w.checkpoint r.seq) d.records

  compact-kept : compact codec w ≡ ok (record w { log = frames codec kept })
  unfolding compact kept
  compact-kept =
      ap
        (λ (o : Result (List WalRecord)). o >>= λ rs. ok (record w {
          log = frames codec (keep_if (λ (r : WalRecord). ltb w.checkpoint r.seq) rs);
        }))
        (ap (for_each_record codec) d.log ∙ for_each_record-frames codec d.records d.encodable)

  has_seq-kept : (n : ℕ) → w.checkpoint < n → has_seq n kept ≡ has_seq n d.records
  unfolding kept
  has_seq-kept n h = after d.records
    where
      after :
          (rs : List WalRecord)
          → has_seq n (keep_if (λ (r : WalRecord). ltb w.checkpoint r.seq) rs) ≡ has_seq n rs
      after [] = refl
      after (r ∷ rs) = ground (arith, h, after rs)

  kept-DurableWal : DurableWal codec buffers (record w { log = frames codec kept })
  kept-DurableWal = record {
    on_file = d.on_file;
    records = kept;
    log = refl;
    encodable =
        unfold kept in
        All-keep_if (IsEncodable codec) (λ (r : WalRecord). ltb w.checkpoint r.seq) d.records
          d.encodable;
    logged =
        AllSeqs-map (IsLogged d.records w) (IsLogged kept (record w { log = frames codec kept }))
          buffers (λ n h. (has_seq-kept n h.1 ∙ h.0, h.1, h.2)) d.logged;
    ahead = d.ahead;
    no_wrap = d.no_wrap;
  }

  pub compact-DurableWal : (w' : Wal) → compact codec w ≡ ok w' → DurableWal codec buffers w'
  compact-DurableWal w' h =
      subst (DurableWal codec buffers)
        (ap (λ (o : Result Wal). elim o [ err e ↦ w | ok v ↦ v ]) (sym compact-kept ∙ h))
        kept-DurableWal
