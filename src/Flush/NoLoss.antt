-- ===== src/Flush/NoLoss.antt =====
-- storage.go: a flush of a partition keeps every buffered row in the log, whichever calls fail.
use marchilogs.Base.{
  All, All-keep_if, Bytes, List, Map, Option, Result, [], arith, decimal, err, false, if-both,
  if◌then◌else◌, io_failure, is_nil, keys, ltb, mem_bytes, none, not, ok, refl, some, sym,
  zero_padded, ℕ, ◌++◌, ◌+◌, ◌-◌, ◌<◌, ◌==◌, ◌||◌, ◌∷◌, ◌≡◌, ◌≤◌,
}
use marchilogs.Block.{MemBlock}
use marchilogs.Deletes.{seq_at}
use marchilogs.Flush.{
  Io, Outcome, add_part, advanced, announced, blocks_of, compact_log, compacted, drop_items,
  flush_items, flush_partition, make_parts, min_unflushed, publish, publish_part, release_from,
  remove_items, try_compact, with_part, write_checkpoint, write_part, rollback, temp_name,
  rename_part, unfinished, begun,
}
use marchilogs.Flush.Durable.{
  AllSeqs, AllSeqs-both, AllSeqs-map, DurableWal, IsDurable, IsLogged, IsLoggedBy,
  checkpoint-DurableWal, compact-DurableWal, min_unflushed-below, min_unflushed-le,
  remove_items_lem,
}
use marchilogs.Flush.Outcomes.{add_part-Lists, try_remove-both, rollback-both}
use marchilogs.Store.{Part, Store, day_at}
use marchilogs.Wal.{RecordCodec, Wal, compact, set_checkpoint}
use marchilogs.Wal.Checkpoint.{read_checkpoint-decimal}
use mathlib.Core.Path.{subst}

-- A log after a step that may fail.
IsDurableResult : RecordCodec → Map MemBlock → Result Wal → Type 0
IsDurableResult codec buffers (err e) = Unit
IsDurableResult codec buffers (ok w) = DurableWal codec buffers w

module _ (io : Io) (codec : RecordCodec) where
  fewer-DurableWal :
      (removed : List Bytes) (buffers : Map MemBlock) (w : Wal)
      → DurableWal codec buffers w
      → DurableWal codec (remove_items removed buffers) w
  fewer-DurableWal removed buffers w d = record {
    on_file = d.on_file;
    records = d.records;
    log = d.log;
    encodable = d.encodable;
    ahead = d.ahead;
    no_wrap = d.no_wrap;
    logged = subst (AllSeqs (IsLogged d.records w)) (sym (remove_items_lem removed buffers)) (
        All-keep_if (λ (item : Bytes × MemBlock). All (IsLogged d.records w) item.1.seqs)
          (λ (item : Bytes × MemBlock). not (mem_bytes item.0 removed)) buffers d.logged);
  }

  advanced-IsDurableResult :
      (removed : List Bytes) (buffers : Map MemBlock) (w : Wal)
      → DurableWal codec buffers w
      → IsDurableResult codec (remove_items removed buffers) (advanced io removed buffers w)
  unfolding IsDurableResult set_checkpoint fewer-DurableWal
  advanced-IsDurableResult removed buffers w d =
      let m = min_unflushed removed buffers w.next_seq in
      let cp = if m == 0 then 0 else m - 1 in
      let below_top : cp < w.next_seq =
        cp_below m w.next_seq w.checkpoint (min_unflushed-le removed buffers w.next_seq) d.ahead in
      let fewer = remove_items removed buffers in
      let d' = fewer-DurableWal removed buffers w d in
      let below : AllSeqs (λ n. 0 < n → m ≤ n) fewer =
        subst (AllSeqs (λ n. 0 < n → m ≤ n)) (sym (remove_items_lem removed buffers))
          (min_unflushed-below removed buffers w.next_seq) in
      if-both (IsDurableResult codec fewer) (ltb cp w.checkpoint) (ok w)
        (if io write_checkpoint then err io_failure else ok (set_checkpoint cp w)) (λ behind. d')
        (λ forward.
          if-both (IsDurableResult codec fewer) (io write_checkpoint) (err io_failure)
            (ok (set_checkpoint cp w)) (λ failed. tt)
            (λ fine. subst (DurableWal codec fewer) (sym (moved cp w forward)) (
              checkpoint-DurableWal codec fewer w d' cp (some (decimal cp ++ 10 ∷ [])) fewer
                (read_checkpoint-decimal cp (omega (arith, below_top, d.no_wrap))) below_top
                d'.logged
                (AllSeqs-map (λ n. IsLogged d.records w n × (0 < n → m ≤ n)) (λ n. cp < n) fewer
                  (λ n h. before m n w.checkpoint h.0.1 h.1)
                  (AllSeqs-both (IsLogged d.records w) (λ n. 0 < n → m ≤ n) fewer d'.logged
                    below)))))
    where
      moved :
          (cp : ℕ) (w : Wal)
          → ltb cp w.checkpoint ≡ false
          → set_checkpoint cp w
            ≡ record w { checkpoint = cp; checkpoint_file = some (decimal cp ++ 10 ∷ []) }
      moved cp w h = rw h refl

      cp_below : (m top cp : ℕ) → m ≤ top → cp < top → (if m == 0 then 0 else m - 1) < top
      cp_below m top cp h ha = ground arith

      before_positive : (m n cp : ℕ) → cp < n → m ≤ n → (if m == 0 then 0 else m - 1) < n
      before_positive m n cp h f = ground arith

      before : (m n cp : ℕ) → cp < n → (0 < n → m ≤ n) → (if m == 0 then 0 else m - 1) < n
      before m n cp h f = before_positive m n cp h (f (omega arith))

  compacted-IsDurable :
      (s : Store) (w : Wal) (r : Result Wal)
      → DurableWal codec s.buffers w
      → IsDurableResult codec s.buffers r
      → IsDurable codec (compacted s w r).0
  unfolding IsDurableResult
  compacted-IsDurable s w (err e) d h = d
  compacted-IsDurable s w (ok w') d h = h

  try_compact-IsDurableResult :
      (buffers : Map MemBlock) (w : Wal)
      → DurableWal codec buffers w
      → IsDurableResult codec buffers (try_compact io codec w)
  unfolding IsDurableResult
  try_compact-IsDurableResult buffers w d =
      if-both (IsDurableResult codec buffers) (io compact_log) (err io_failure) (compact codec w)
        (λ failed. tt) (λ fine. whichever (compact codec w) refl)
    where
      whichever : (r : Result Wal) → compact codec w ≡ r → IsDurableResult codec buffers r
      whichever (err e) h = tt
      whichever (ok w') h = compact-DurableWal codec buffers w d w' h

  drop_items-IsDurable :
      (removed : List Bytes) (s : Store) (r : Result Wal)
      → IsDurable codec s
      → IsDurableResult codec (remove_items removed s.buffers) r
      → IsDurable codec (drop_items io codec removed s r).0
  unfolding IsDurableResult
  drop_items-IsDurable removed s (err e) hs hr = hs
  drop_items-IsDurable removed s (ok w) hs hr =
      compacted-IsDurable (record s { buffers = remove_items removed s.buffers }) w
        (try_compact io codec w) hr
        (try_compact-IsDurableResult (remove_items removed s.buffers) w hr)

  release-IsDurable :
      (removed : List Bytes) (s : Store) (w : Option Wal)
      → s.wal ≡ w
      → IsLoggedBy codec s.buffers w
      → IsDurable codec (release_from io codec removed s w).0
  release-IsDurable removed s none e h =
      subst (IsLoggedBy codec (remove_items removed s.buffers)) (sym e) tt
  release-IsDurable removed s (some w) e h =
      drop_items-IsDurable removed s (advanced io removed s.buffers w)
        (subst (IsLoggedBy codec s.buffers) (sym e) h)
        (advanced-IsDurableResult removed s.buffers w h)

  rollback-IsDurable :
      (day : Bytes) (id : ℕ) (s : Store)
      → IsDurable codec s
      → IsDurable codec (rollback io day id s)
  rollback-IsDurable day id s h = rollback-both (IsDurable codec) io day id s h h

  announced-IsDurable :
      (day : Bytes) (id : ℕ) (removed : List Bytes) (o : Outcome)
      → IsDurable codec o.0
      → IsDurable codec (announced io codec day id removed o).0
  announced-IsDurable day id removed (s, some e) h =
      let back = rollback-IsDurable day id s h in
      try_remove-both (IsDurable codec) io day (zero_padded 6 id) (rollback io day id s) back back
  announced-IsDurable day id removed (s, none) h = release-IsDurable removed s s.wal refl h

  publish_part-IsDurable :
      (day : Bytes) (id : ℕ) (removed : List Bytes) (left : Part) (s : Store) (r : Result Part)
      → IsDurable codec s
      → IsDurable codec (publish_part io codec day id removed left s r).0
  publish_part-IsDurable day id removed left s (err e) h =
      rollback-IsDurable day id (with_part day (temp_name id) left s) h
  publish_part-IsDurable day id removed left s (ok part) h =
      let name = zero_padded 6 id in
      let tmp = with_part day (temp_name id) part s in
      let placed = rename_part day id part tmp in
      let o = add_part io day name placed in
      let l = add_part-Lists io day name placed in
      if-both (λ (o' : Outcome). IsDurable codec o'.0)
        (io publish || mem_bytes name (keys (day_at day s.disk).parts))
        (rollback io day id tmp, some io_failure) (announced io codec day id removed o)
        (λ failed. rollback-IsDurable day id tmp h)
        (λ fine. announced-IsDurable day id removed o (
          subst (IsLoggedBy codec o.0.buffers) (sym l.wal)
            (subst (λ (b : Map MemBlock). IsLoggedBy codec b s.wal) (sym l.buffers) h)))

  pub flush_partition-IsDurable :
      (day : Bytes) (s : Store)
      → IsDurable codec s
      → IsDurable codec (flush_partition io codec day s).0
  unfolding flush_partition
  flush_partition-IsDurable day s h =
      let items = flush_items day s.buffers in
      let bs = blocks_of items in
      let id = seq_at day s.part_seq + 1 in
      let published =
        publish_part io codec day id (keys items) (unfinished io bs) (begun io codec day s)
          (write_part io bs) in
      let durable = λ (o : Outcome). IsDurable codec o.0 in
      if-both durable (is_nil items) (s, none)
        (if io make_parts then (s, some io_failure) else published) (λ nothing. h)
        (λ some_items.
          if-both durable (io make_parts) (s, some io_failure) published (λ failed. h)
            (λ made.
              publish_part-IsDurable day id (keys items) (unfinished io bs) (begun io codec day s)
                (write_part io bs) h))
