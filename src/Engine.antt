-- ===== src/Engine.antt =====
-- storage.go: `Append` puts rows into the log and the buffers, `Flush` makes parts of the buffers, and
-- `Close` flushes and closes the log.
pub mod Seqs
pub mod NoLoss
pub mod Logging
pub mod Removes
pub mod Collected
pub mod Empties
pub mod Keys
use marchilogs.Base.{
  Bytes, Error, List, Map, Option, [], codes, delete_unbounded, false, if◌then◌else◌, insert,
  io_failure, is_nil, keys, leb, length, lookup, map, none, replicate, set_of, some, zero_padded, ℕ,
  ◌++◌, ◌+◌, ◌∷◌, Bool, true, suc, ◌%◌, ◌^◌, ◌||◌,
}
use marchilogs.Block.{MemBlock, add_with_seq, new_mem_block, rows}
use marchilogs.Calendar.{Time, partition_name}
use marchilogs.Deletes.{
  DeleteRecord, DeleteSpec, Tombstones, days_for_delete, deletes_at, is_unbounded, purge_buffers,
  record_of_spec, seq_at,
}
use marchilogs.Entry.{Entry, field_of, field_stream, normalize, unix_nano}
use marchilogs.Flush.{
  Io, Outcome, append_log, close_log, flush_partition, set_day, write_tombstones, write_log,
}
use marchilogs.Store.{Store, buf_key, day_at, holds, partition_of}
use marchilogs.Wal.{RecordCodec, Wal, append_entries, frame, record_of_entry}

infixl 5 ◌if_ok◌
abbrev pub ◌if_ok◌ : Outcome → (Store → Outcome) → Outcome
(s, none) if_ok rest = rest s
(s, some e) if_ok rest = (s, some e)

-- What the first of two steps keeps and the second keeps where the first has no error.
pub if_ok-keeps :
    (P : Store → Type 0) (o : Outcome) (rest : Store → Outcome)
    → P o.0
    → ((s : Store) → P s → P (rest s).0)
    → P (o if_ok rest).0
if_ok-keeps P (s, none) rest h keeps = keeps s h
if_ok-keeps P (s, some e) rest h keeps = h

abbrev pub buffer_at : Bytes → Bytes → Map MemBlock → MemBlock
buffer_at key stream buffers = elim (lookup key buffers) [
  | none ↦ new_mem_block stream
  | some b ↦ b
]

-- `applyLocked`
unfoldable pub apply_locked : Entry → ℕ → Store → Store
apply_locked e seq s =
    let stream = field_of field_stream e.fields in
    let key = buf_key (partition_name e.time) stream in
    record s {
      buffers = insert key (add_with_seq (buffer_at key stream s.buffers) e seq) s.buffers;
    }

-- What a write leaves of some bytes, from byte `k` on, where the write of a byte may fail.
unfoldable pub written_bytes : (ℕ → Bool) → ℕ → Bytes → Bytes
written_bytes fails k [] = []
written_bytes fails k (b ∷ s) =
    let rest = written_bytes fails (suc k) s in if fails k then [] else b ∷ rest

-- Whether it fails.
unfoldable pub write_fails : (ℕ → Bool) → ℕ → Bytes → Bool
write_fails fails k [] = false
write_fails fails k (b ∷ s) = fails k || write_fails fails (suc k) s

-- Whether one of the writes of `writeRecord` fails, for the record of an entry.
abbrev pub entry_fails : Io → RecordCodec → Entry → Wal → Bool
entry_fails io codec e w =
    write_fails (λ k. io (write_log w.next_seq k)) 0 (frame codec (record_of_entry w.next_seq e))

module _ (io : Io) (codec : RecordCodec) where
  unfoldable pub flush_partitions : List Bytes → Store → Outcome
  flush_partitions [] s = (s, none)
  flush_partitions (day ∷ days) s =
      flush_partition io codec day s if_ok λ s'. flush_partitions days s'

  -- `Flush`
  unfoldable pub flush : Store → Outcome
  flush s = flush_partitions (set_of (map partition_of (keys s.buffers))) s

  -- The test of `Append` after a row, and the flush.
  unfoldable pub flush_if_full : ℕ → Entry → Store → Outcome
  flush_if_full max_rows e s =
      let day = partition_name e.time in
      let key = buf_key day (field_of field_stream e.fields) in
      if elim (lookup key s.buffers) [ none ↦ false | some b ↦ leb max_rows (rows b) ]
      then flush_partition io codec day s
      else (s, none)

  -- The loop of `Append` over the rows and their sequence numbers.
  unfoldable pub append_rows : ℕ → List Entry → List ℕ → Store → Outcome
  append_rows max_rows [] seqs s = (s, none)
  append_rows max_rows (e ∷ es) [] s = (s, none)
  append_rows max_rows (e ∷ es) (seq ∷ seqs) s =
      flush_if_full max_rows e (apply_locked e seq s) if_ok λ s'. append_rows max_rows es seqs s'

  abbrev pub logged : ℕ → List Entry → Store → Wal × List ℕ → Outcome
  logged max_rows es s (w, seqs) = append_rows max_rows es seqs (record s { wal = some w })

  -- The loop of `appendEntries` and its `Sync`, where a write or the sync may fail: the log, and
  -- whether one of them failed.
  unfoldable pub log_entries : List Entry → Wal → Wal × Bool
  log_entries [] w = (w, io append_log)
  log_entries (e ∷ es) w =
      let w' = record w { next_seq = (w.next_seq + 1) % 2 ^ 64 } in
      let bytes = frame codec (record_of_entry w.next_seq e) in
      let rest = log_entries es (record w' { log = w.log ++ bytes }) in
      if entry_fails io codec e w
      then (
        record w' { log = w.log ++ written_bytes (λ k. io (write_log w.next_seq k)) 0 bytes },
        true,
      )
      else rest

  abbrev pub append_from : ℕ → List Entry → Store → Option Wal → Outcome
  append_from max_rows es s none = append_rows max_rows es (replicate (length es) 0) s
  append_from max_rows es s (some w) =
      if (log_entries es w).1
      then (record s { wal = some (log_entries es w).0 }, some io_failure)
      else logged max_rows es s (append_entries codec es w)

  -- `Append`, for entries that are normalized.
  unfoldable pub append_normalized : ℕ → List Entry → Store → Outcome
  append_normalized max_rows es s = append_from max_rows es s s.wal

  -- `Append`; each entry comes with the time at which it is normalized.
  unfoldable pub append : List Bytes → ℕ → List (Time × Entry) → Store → Outcome
  append stream_fields max_rows entries s =
      if is_nil entries
      then (s, none)
      else append_normalized max_rows
          (map (λ (te : Time × Entry). normalize stream_fields te.0 te.1) entries) s

  abbrev pub first_error : Option Error → Option Error → Option Error
  first_error (some e) other = some e
  first_error none other = other

  abbrev pub close_wal : Outcome → Outcome
  close_wal (s, e) = (
    record s { wal = none },
    first_error e
        (elim s.wal [ none ↦ none | some w ↦ if io close_log then some io_failure else none ]),
  )

  -- `Close`, after the workers have stopped.
  unfoldable pub close_store : Store → Outcome
  close_store s = close_wal (flush s)

-- The records of a day with that of a `Delete`, whose number is the next one.
abbrev pub with_record : DeleteRecord → Bytes → Tombstones → List DeleteRecord
with_record r day t =
    deletes_at day t.deletes
    ++ record r { id = codes "d-" ++ zero_padded 6 (seq_at day t.delete_seq + 1) } ∷ []

abbrev pub numbered : Bytes → Store → Map ℕ
numbered day s = insert day (seq_at day s.tombstones.delete_seq + 1) s.tombstones.delete_seq

-- The body of the last loop of `Delete`: where the write fails, the number is taken already.
abbrev pub delete_on : Io → DeleteRecord → Bytes → Store → Outcome
delete_on io r day s =
    let dels = with_record r day s.tombstones in
    if io (write_tombstones day)
    then (
      record s { tombstones = record s.tombstones { delete_seq = numbered day s } },
      some io_failure,
    )
    else (
      set_day day (record (day_at day s.disk) { deletes = holds dels })
          (record s {
            tombstones = record {
              deletes = insert day dels s.tombstones.deletes;
              delete_seq = numbered day s;
            };
          }),
      none,
    )

unfoldable pub delete_on_days : Io → DeleteRecord → List Bytes → Store → Outcome
delete_on_days io r [] s = (s, none)
delete_on_days io r (day ∷ days) s = delete_on io r day s if_ok λ s'. delete_on_days io r days s'

-- `Delete`: the store and the error, and the number of rows purged.
unfoldable pub delete_rows : Io → Time → DeleteSpec → Store → Outcome × ℕ
delete_rows io now spec s =
    if is_unbounded spec
    then ((s, some delete_unbounded), 0)
    else let purged = purge_buffers spec s.buffers in
      let days =
        days_for_delete (keys s.manifests) (keys s.tombstones.deletes) (keys s.disk) spec.start
          spec.end in
      let r = record (record_of_spec spec) { created_ns = unix_nano now } in
      (delete_on_days io r days (record s { buffers = purged.0 }), purged.1)
