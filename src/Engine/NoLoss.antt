-- ===== src/Engine/NoLoss.antt =====
-- storage.go and wal.go: the rows that are buffered can be replayed from the log, whatever appends and
-- flushes came before, and whichever of their calls failed.
use marchilogs.Engine.Seqs.{apply_locked-AllSeqs, has_seq-append}
use marchilogs.Base.{
  All-append, Bool, Bytes, List, Map, Option, [], ap, arith, false, if-both, io_failure, leb,
  lookup, none, ok, refl, some, sym, true, ℕ, ◌++◌, ◌+◌, ◌<◌, ◌==◌, ◌^◌, ◌||◌, ◌∙◌, ◌∷◌, ◌≡◌,
  else-branch, if◌then◌else◌, ◌%◌,
}
use marchilogs.Block.{MemBlock, rows}
use marchilogs.Calendar.{partition_name}
use marchilogs.Engine.{
  append_from, append_normalized, append_rows, apply_locked, flush_if_full, logged, ◌if_ok◌,
  log_entries, entry_fails, written_bytes,
}
use marchilogs.Entry.{Entry, field_of, field_stream}
use marchilogs.Flush.{Io, Outcome, append_log, flush_partition, write_log}
use marchilogs.Flush.Durable.{
  AllSeqs, AllSeqs-map, DurableWal, IsDurable, IsLogged, IsLoggedBy, has_seq,
}
use marchilogs.Flush.NoLoss.{flush_partition-IsDurable}
use marchilogs.Store.{Store, buf_key}
use marchilogs.Wal.{
  RecordCodec, Wal, WalRecord, append_entries, frames, read_checkpoint, record_of_entry,
  replay_after_checkpoint, frame,
}
use marchilogs.Wal.Frames.{IsEncodable}
use marchilogs.Wal.Replay.{frames-append, log-append_entries}
use mathlib.Core.Path.{subst}

-- The steps of a store with a log: an append of one entry, and a flush of a partition. Any calls but
-- the writes of a record to the log may fail in a step, its sync included; the record of the entry is
-- encodable, and the sequence numbers do not wrap.
pub data Step (codec : RecordCodec) : Store → Store → Type 0 where
  append_step :
      (io : Io) (max_rows : ℕ) (e : Entry) (s : Store) (w : Wal)
      → s.wal ≡ some w
      → w.next_seq + 1 < 2 ^ 64
      → IsEncodable codec (record_of_entry w.next_seq e)
      → entry_fails io codec e w ≡ false
      → Step codec s (append_normalized io codec max_rows (e ∷ []) s).0
  flush_step : (io : Io) (day : Bytes) (s : Store) → Step codec s (flush_partition io codec day s).0

-- A store that some steps lead to from a store with no buffers and an empty log, whose checkpoint is
-- that of its file.
pub data Reachable (codec : RecordCodec) : Store → Type 0 where
  opened :
      (s : Store) (w : Wal)
      → s.buffers ≡ []
      → s.wal ≡ some w
      → w.log ≡ []
      → read_checkpoint w.checkpoint_file ≡ ok w.checkpoint
      → w.checkpoint < w.next_seq
      → w.next_seq < 2 ^ 64
      → Reachable codec s
  after : (s s' : Store) → Reachable codec s → Step codec s s' → Reachable codec s'

module _ (io : Io) (codec : RecordCodec) where
  -- The log with the record of an entry, for buffers whose rows are in it.
  logged-DurableWal :
      (e : Entry) (buffers buffers' : Map MemBlock) (w : Wal) (d : DurableWal codec buffers w)
      → w.next_seq + 1 < 2 ^ 64
      → IsEncodable codec (record_of_entry w.next_seq e)
      → let rs = d.records ++ record_of_entry w.next_seq e ∷ [] in
        let w' = (append_entries codec (e ∷ []) w).0 in
        AllSeqs (IsLogged rs w') buffers' → DurableWal codec buffers' w'
  unfolding append_entries
  logged-DurableWal e buffers buffers' w d hn he hb =
      let r = record_of_entry w.next_seq e in
      let rs = d.records ++ r ∷ [] in
      let w' = (append_entries codec (e ∷ []) w).0 in
      let longer : w'.next_seq ≡ w.next_seq + 1 = omega arith in
      record {
        records = rs;
        log =
            log-append_entries codec (e ∷ []) w
            ∙ ap (λ (l : Bytes). l ++ frames codec (r ∷ [])) d.log
            ∙ sym (frames-append codec d.records (r ∷ []));
        encodable = All-append (IsEncodable codec) d.records (r ∷ []) d.encodable (he, tt);
        logged = hb;
        on_file = d.on_file;
        ahead = omega (arith, longer, d.ahead);
        no_wrap = omega (arith, longer, hn);
      }

  -- The rows that were in the log still are.
  still-AllSeqs :
      (e : Entry) (buffers : Map MemBlock) (w : Wal) (d : DurableWal codec buffers w)
      → w.next_seq + 1 < 2 ^ 64
      → let rs = d.records ++ record_of_entry w.next_seq e ∷ [] in
        AllSeqs (IsLogged rs (append_entries codec (e ∷ []) w).0) buffers
  unfolding append_entries
  still-AllSeqs e buffers w d hn =
      let r = record_of_entry w.next_seq e in
      let w' = (append_entries codec (e ∷ []) w).0 in
      let longer : w'.next_seq ≡ w.next_seq + 1 = omega arith in
      AllSeqs-map (IsLogged d.records w) (IsLogged (d.records ++ r ∷ []) w') buffers
        (λ n h.
          (has_seq-append n d.records (r ∷ []) ∙ rw h.0 refl, h.1, omega (arith, longer, h.2)))
        d.logged

  -- A row that is logged and then buffered.
  applied-IsDurable :
      (e : Entry) (s : Store) (w : Wal)
      → DurableWal codec s.buffers w
      → w.next_seq + 1 < 2 ^ 64
      → IsEncodable codec (record_of_entry w.next_seq e)
      → IsDurable codec
          (apply_locked e w.next_seq (record s { wal = some (append_entries codec (e ∷ []) w).0 }))
  unfolding append_entries apply_locked
  applied-IsDurable e s w d hn he =
      let r = record_of_entry w.next_seq e in
      let rs = d.records ++ r ∷ [] in
      let w' = (append_entries codec (e ∷ []) w).0 in
      let longer : w'.next_seq ≡ w.next_seq + 1 = omega arith in
      let new : IsLogged rs w' w.next_seq = (
        has_seq-append w.next_seq d.records (r ∷ [])
            ∙ last (has_seq w.next_seq d.records) w.next_seq,
        d.ahead,
        omega (arith, longer),
      ) in
      let s' = record s { wal = some w' } in
      logged-DurableWal e s.buffers (apply_locked e w.next_seq s').buffers w d hn he (
        apply_locked-AllSeqs (IsLogged rs w') e w.next_seq s' new
          (still-AllSeqs e s.buffers w d hn))
    where
      last : (b : Bool) (n : ℕ) → (b || (n == n || false)) ≡ true
      last b n = ground arith

  flush_if_full-IsDurable :
      (max_rows : ℕ) (e : Entry) (s : Store)
      → IsDurable codec s
      → IsDurable codec (flush_if_full io codec max_rows e s).0
  unfolding flush_if_full
  flush_if_full-IsDurable max_rows e s h =
      let day = partition_name e.time in
      let key = buf_key day (field_of field_stream e.fields) in
      if-both (λ (o : Outcome). IsDurable codec o.0)
        (elim (lookup key s.buffers) as (λ x. Bool) [
          | none ↦ false
          | some b ↦ leb max_rows (rows b)
        ])
        (flush_partition io codec day s) (s, none)
        (λ full. flush_partition-IsDurable io codec day s h) (λ room. h)

  -- Without further rows, an append ends with its flush.
  ends-IsDurable :
      (max_rows : ℕ) (o : Outcome)
      → IsDurable codec o.0
      → IsDurable codec (o if_ok λ s. append_rows io codec max_rows [] [] s).0
  unfolding append_rows
  ends-IsDurable max_rows (s, none) h = h
  ends-IsDurable max_rows (s, some e) h = h

  append_one-IsDurable :
      (max_rows : ℕ) (e : Entry) (s : Store) (w : Wal)
      → s.wal ≡ some w
      → DurableWal codec s.buffers w
      → w.next_seq + 1 < 2 ^ 64
      → IsEncodable codec (record_of_entry w.next_seq e)
      → entry_fails io codec e w ≡ false
      → IsDurable codec (append_normalized io codec max_rows (e ∷ []) s).0
  unfolding append_normalized append_rows append_entries log_entries
  append_one-IsDurable max_rows e s w hw d hn he hf =
      let r = record_of_entry w.next_seq e in
      let torn : Wal = record w {
        next_seq = (w.next_seq + 1) % 2 ^ 64;
        log = w.log ++ written_bytes (λ k. io (write_log w.next_seq k)) 0 (frame codec r);
      } in
      let w' = (append_entries codec (e ∷ []) w).0 in
      let s' = apply_locked e w.next_seq (record s { wal = some w' }) in
      let done = logged io codec max_rows (e ∷ []) s (append_entries codec (e ∷ []) w) in
      subst (λ (v : Option Wal). IsDurable codec (append_from io codec max_rows (e ∷ []) s v).0)
        (sym hw)
        (else-branch
          (λ (written : Wal × Bool).
            IsDurable codec
              (if written.1 then (record s { wal = some written.0 }, some io_failure) else done).0)
          (entry_fails io codec e w) (torn, true) (w', io append_log) hf
          (if-both (λ (o : Outcome). IsDurable codec o.0) (io append_log)
            (record s { wal = some w' }, some io_failure) done
            (λ failed.
              logged-DurableWal e s.buffers s.buffers w d hn he (still-AllSeqs e s.buffers w d hn))
            (λ fine.
              ends-IsDurable max_rows (flush_if_full io codec max_rows e s')
                (flush_if_full-IsDurable max_rows e s' (applied-IsDurable e s w d hn he)))))

opened-IsDurable :
    (codec : RecordCodec) (buffers : Map MemBlock) (w : Wal)
    → buffers ≡ []
    → w.log ≡ []
    → read_checkpoint w.checkpoint_file ≡ ok w.checkpoint
    → w.checkpoint < w.next_seq
    → w.next_seq < 2 ^ 64
    → DurableWal codec buffers w
unfolding frames
opened-IsDurable codec buffers w hb hl hf ha hn = record {
  records = [];
  log = hl;
  encodable = tt;
  logged = subst (AllSeqs (IsLogged [] w)) (sym hb) tt;
  on_file = hf;
  ahead = ha;
  no_wrap = hn;
}

Step-IsDurable :
    (codec : RecordCodec) (s s' : Store) → Step codec s s' → IsDurable codec s → IsDurable codec s'
Step-IsDurable codec s s' (append_step io max_rows e _ w hw hn he hf) h =
    append_one-IsDurable io codec max_rows e s w hw (subst (IsLoggedBy codec s.buffers) hw h) hn he
      hf
Step-IsDurable codec s s' (flush_step io day _) h = flush_partition-IsDurable io codec day s h

pub Reachable-IsDurable : (codec : RecordCodec) (s : Store) → Reachable codec s → IsDurable codec s
Reachable-IsDurable codec s (opened _ w hb hw hl hf ha hn) =
    subst (IsLoggedBy codec s.buffers) (sym hw) (opened-IsDurable codec s.buffers w hb hl hf ha hn)
Reachable-IsDurable codec s (after s₀ _ r step) =
    Step-IsDurable codec s₀ s step (Reachable-IsDurable codec s₀ r)

-- What a replay of a log gives back of the buffers.
abbrev pub Replays : RecordCodec → Map MemBlock → Wal → Type 0
Replays codec buffers w =
    (rs : List WalRecord) × (replay_after_checkpoint codec w ≡ ok rs)
    × AllSeqs (λ n. has_seq n rs ≡ true) buffers
