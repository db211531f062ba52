-- ===== src/Flush/Errors.antt =====
-- storage.go: a flush of a partition that fails before the manifest names its part.
use Prim.Native.Nat.{ℕ}
use marchilogs.Base.{
  if◌then◌else◌, if-both, is_nil, zero_padded, Bytes, mem_bytes, Map, keys, io_failure, Result, err,
  ok, ◌+◌, ◌-◌, ◌≡◌, ◌∙◌, ap, refl, ◌⊎◌, inl, inr, Bool, true, false, ◌||◌, none, some, Option,
  List, arith, lookup, insert, remove, lookup-insert, lookup-remove, bytes_eq, bytes_eq_refl,
  bytes_eq_iff,
}
use marchilogs.Block.{MemBlock}
use marchilogs.Deletes.{seq_at}
use marchilogs.Wal.{RecordCodec}
use marchilogs.Store.{Part, DayDir, empty_day, day_at, Store}
use marchilogs.Flush.{
  make_parts, make_blocks, write_meta, publish, remove_part, Io, Outcome, flush_items, blocks_of,
  part_of, block_fails, write_part, with_day, with_part, without_part, set_day, add_part, announced,
  publish_part, flush_partition, temp_name, unnumbered, rollback, rename_part, begun, unfinished,
}
use marchilogs.Flush.Outcomes.{day_at-set_day}

-- One of the calls before the manifest fails, for the buffers that are collected.
abbrev pub fails_early : Io → List MemBlock → Bool
fails_early io bs =
    io make_parts || (io make_blocks || block_fails io bs || io write_meta) || io publish

-- What is the same in two stores: all but the numbers of the parts, and a directory in that of a day.
pub record SameBut (day temp : Bytes) (s t : Store) : Type 0 where
  pub buffers : t.buffers ≡ s.buffers
  pub wal : t.wal ≡ s.wal
  pub manifests : t.manifests ≡ s.manifests
  pub catalogs : t.catalogs ≡ s.catalogs
  pub tombstones : t.tombstones ≡ s.tombstones
  pub manifest_file : (day_at day t.disk).manifest ≡ (day_at day s.disk).manifest
  pub catalog_file : (day_at day t.disk).catalog ≡ (day_at day s.disk).catalog
  pub deletes_file : (day_at day t.disk).deletes ≡ (day_at day s.disk).deletes
  pub other_days :
      (other : Bytes) → bytes_eq day other ≡ false → day_at other t.disk ≡ day_at other s.disk
  pub parts :
      (name : Bytes)
      → bytes_eq temp name ≡ false
      → lookup name (day_at day t.disk).parts ≡ lookup name (day_at day s.disk).parts

-- An input or output error, and the store as it was: the number that was taken is free again, and the
-- temporary directory is gone, unless nothing was done or its removal failed.
pub record IsUndone (io : Io) (day : Bytes) (s : Store) (o : Outcome) : Type 0 where
  pub error : o.1 ≡ some io_failure
  pub same : SameBut day (temp_name (seq_at day s.part_seq + 1)) s o.0
  pub numbers : (d : Bytes) → seq_at d o.0.part_seq ≡ seq_at d s.part_seq
  pub cleared :
      (o.0 ≡ s)
      ⊎ ((lookup (temp_name (seq_at day s.part_seq + 1)) (day_at day o.0.disk).parts ≡ none)
          ⊎ (io (remove_part day (temp_name (seq_at day s.part_seq + 1))) ≡ true))

rest_fails : (a b c : Bool) → (a || b || c) ≡ true → a ≡ false → (b || c) ≡ true
rest_fails a b c h e = ground arith

same_refl : (day temp : Bytes) (s : Store) → SameBut day temp s s
same_refl day temp s = record {
  buffers = refl;
  wal = refl;
  manifests = refl;
  catalogs = refl;
  tombstones = refl;
  manifest_file = refl;
  catalog_file = refl;
  deletes_file = refl;
  other_days = λ other ne. refl;
  parts = λ name ne. refl;
}

-- New numbers change nothing that is compared.
same_renumbered :
    (day temp : Bytes) (s t : Store) (numbers : Map ℕ)
    → SameBut day temp s t
    → SameBut day temp s (record t { part_seq = numbers })
same_renumbered day temp s t numbers h = record {
  buffers = h.buffers;
  wal = h.wal;
  manifests = h.manifests;
  catalogs = h.catalogs;
  tombstones = h.tombstones;
  manifest_file = h.manifest_file;
  catalog_file = h.catalog_file;
  deletes_file = h.deletes_file;
  other_days = h.other_days;
  parts = h.parts;
}

-- A step that puts other parts in the directory of the day, where only those at `temp` differ.
same_reparted :
    (day temp : Bytes) (s t : Store) (parts : Map Part)
    → ((name : Bytes)
        → bytes_eq temp name ≡ false
        → lookup name parts ≡ lookup name (day_at day t.disk).parts)
    → SameBut day temp s t
    → SameBut day temp s (set_day day (record (day_at day t.disk) { parts = parts }) t)
same_reparted day temp s t parts hp h =
    let dir = record (day_at day t.disk) { parts = parts } in
    let at = day_at-set_day day dir t in
    record {
      buffers = h.buffers;
      wal = h.wal;
      manifests = h.manifests;
      catalogs = h.catalogs;
      tombstones = h.tombstones;
      manifest_file = ap (λ (d : DayDir). d.manifest) at ∙ h.manifest_file;
      catalog_file = ap (λ (d : DayDir). d.catalog) at ∙ h.catalog_file;
      deletes_file = ap (λ (d : DayDir). d.deletes) at ∙ h.deletes_file;
      other_days = λ other ne.
          ap (λ (d : Option DayDir). elim d [ none ↦ empty_day | some d' ↦ d' ])
            (lookup-insert day other dir t.disk
              ∙ ap (λ (b : Bool). if b then some dir else lookup other t.disk) ne)
          ∙ h.other_days other ne;
      parts = λ name ne. ap (λ (d : DayDir). lookup name d.parts) at ∙ hp name ne ∙ h.parts name ne;
    }

same_with_part :
    (day temp : Bytes) (part : Part) (s t : Store)
    → SameBut day temp s t
    → SameBut day temp s (with_part day temp part t)
same_with_part day temp part s t h =
    let old = (day_at day t.disk).parts in
    same_reparted day temp s t (insert temp part old)
      (λ name ne.
        lookup-insert temp name part old
        ∙ ap (λ (b : Bool). if b then some part else lookup name old) ne)
      h

same_without_part :
    (day temp : Bytes) (s t : Store)
    → SameBut day temp s t
    → SameBut day temp s (without_part day temp t)
same_without_part day temp s t h =
    let old = (day_at day t.disk).parts in
    same_reparted day temp s t (remove temp old)
      (λ name ne.
        lookup-remove temp name old ∙ ap (λ (b : Bool). if b then none else lookup name old) ne)
      h

same_with_day : (day temp : Bytes) (s : Store) → SameBut day temp s (with_day day s)
same_with_day day temp s =
    same_reparted day temp s s (day_at day s.disk).parts (λ name ne. refl) (same_refl day temp s)

seq_at-insert :
    (day d : Bytes) (n : ℕ) (m : Map ℕ)
    → seq_at d (insert day n m) ≡ (if bytes_eq day d then n else seq_at d m)
seq_at-insert day d n m =
    ap (λ (o : Option ℕ). elim o [ none ↦ 0 | some k ↦ k ]) (lookup-insert day d n m)
    ∙ either (bytes_eq day d)
  where
    either :
        (b : Bool)
        → elim (if b then some n else lookup d m) [ none ↦ 0 | some k ↦ k ]
          ≡ (if b then n else seq_at d m)
    either true = refl
    either false = refl

-- The number that is taken and given back.
unnumbered-numbers :
    (day d : Bytes) (m : Map ℕ)
    → let taken = insert day (seq_at day m + 1) m in
      seq_at d (insert day (seq_at day taken - 1) taken) ≡ seq_at d m
unnumbered-numbers day d m =
    let n = seq_at day m + 1 in
    let taken = insert day n m in
    seq_at-insert day d (seq_at day taken - 1) taken
    ∙ if-both (λ (k : ℕ). k ≡ seq_at d m) (bytes_eq day d) (seq_at day taken - 1) (seq_at d taken)
        (λ e.
          ap (λ k. k - 1)
            (seq_at-insert day day n m
              ∙ ap (λ (b : Bool). if b then n else seq_at day m) (bytes_eq_refl day))
          ∙ omega arith
          ∙ ap (λ name. seq_at name m) ((bytes_eq_iff day d).0 e))
        (λ e. seq_at-insert day d n m ∙ ap (λ (b : Bool). if b then n else seq_at d m) e)

module _ (io : Io) (codec : RecordCodec) (day : Bytes) (s : Store) where
  abbrev id : ℕ
  id = seq_at day s.part_seq + 1

  same_begun : SameBut day (temp_name id) s (begun io codec day s)
  same_begun =
      let numbers = insert day id s.part_seq in
      same_without_part day (temp_name id) s (record (with_day day s) { part_seq = numbers })
        (same_renumbered day (temp_name id) s (with_day day s) numbers
          (same_with_day day (temp_name id) s))

  -- The rollback, with what the failure left in the temporary directory.
  rollback-IsUndone :
      (left : Part)
      → IsUndone io day s (
        rollback io day id (with_part day (temp_name id) left (begun io codec day s)),
        some io_failure,
      )
  rollback-IsUndone left =
      let temp = temp_name id in
      let t = with_part day temp left (begun io codec day s) in
      let t' = without_part day temp t in
      let same_t = same_with_part day temp left s (begun io codec day s) same_begun in
      let back = insert day (seq_at day t.part_seq - 1) t.part_seq in
      let undone = λ (v : Store). IsUndone io day s (unnumbered day v, some io_failure) in
      if-both undone (io (remove_part day temp)) t t'
        (λ failed. record {
          error = refl;
          same = same_renumbered day temp s t back same_t;
          numbers = λ d. unnumbered-numbers day d s.part_seq;
          cleared = inr (inr failed);
        })
        (λ fine. record {
          error = refl;
          same = same_renumbered day temp s t' back (same_without_part day temp s t same_t);
          numbers = λ d. unnumbered-numbers day d s.part_seq;
          cleared = inr (
              inl (
                ap (λ (d : DayDir). lookup temp d.parts)
                  (day_at-set_day day
                    (record (day_at day t.disk) { parts = remove temp (day_at day t.disk).parts })
                    t)
                ∙ lookup-remove temp temp (day_at day t.disk).parts
                ∙ ap (λ (b : Bool). if b then none else lookup temp (day_at day t.disk).parts)
                    (bytes_eq_refl temp)));
        })

  publish-IsUndone :
      (items : Map MemBlock)
      → ((io make_blocks || block_fails io (blocks_of items) || io write_meta) || io publish) ≡ true
      → IsUndone io day s (
          publish_part io codec day id
            (keys items)
            (unfinished io (blocks_of items))
            (begun io codec day s)
            (write_part io (blocks_of items)))
  publish-IsUndone items h =
      let s' = begun io codec day s in
      let bs = blocks_of items in
      let name = zero_padded 6 id in
      let unwritten = io make_blocks || block_fails io bs || io write_meta in
      let there = mem_bytes name (keys (day_at day s'.disk).parts) in
      let tmp = with_part day (temp_name id) (part_of bs) s' in
      if-both
        (λ (r : Result Part).
          IsUndone io day s (publish_part io codec day id (keys items) (unfinished io bs) s' r))
        unwritten (err io_failure) (ok (part_of bs))
        (λ failed. rollback-IsUndone (unfinished io bs))
        (λ written.
          if-both (IsUndone io day s) (io publish || there)
            (rollback io day id tmp, some io_failure)
            (announced io codec day id (keys items)
              (add_part io day name (rename_part day id (part_of bs) tmp)))
            (λ failed. rollback-IsUndone (part_of bs))
            (λ fine. absurd (never unwritten (io publish) there h written fine)))
    where
      never : (a b c : Bool) → (a || b) ≡ true → a ≡ false → (b || c) ≡ false → ⊥
      never a b c h ha hb = ground arith

  -- A flush of a partition with rows in its buffers, where making the directories, writing a block or
  -- the metadata, or publishing the part fails, returns an error and undoes what it did: the buffers,
  -- the log, the manifests, the catalogs, the tombstones, the files of the day, every directory in it
  -- but the temporary one, and all other days are as they were; every day's last part number is as it
  -- was; and the temporary directory is gone, unless the store was left as it was or that removal
  -- failed.
  pub flush_partition-IsUndone :
      is_nil (flush_items day s.buffers) ≡ false
      → fails_early io (blocks_of (flush_items day s.buffers)) ≡ true
      → IsUndone io day s (flush_partition io codec day s)
  unfolding flush_partition
  flush_partition-IsUndone hi hf =
      let items = flush_items day s.buffers in
      let unwritten = io make_blocks || block_fails io (blocks_of items) || io write_meta in
      let published =
        publish_part io codec day id (keys items) (unfinished io (blocks_of items))
          (begun io codec day s) (write_part io (blocks_of items)) in
      if-both (IsUndone io day s) (is_nil items) (s, none)
        (if io make_parts then (s, some io_failure) else published) (λ nothing. absurd cc)
        (λ some_items.
          if-both (IsUndone io day s) (io make_parts) (s, some io_failure) published
            (λ failed. record {
              error = refl;
              same = same_refl day (temp_name id) s;
              numbers = λ d. refl;
              cleared = inl refl;
            })
            (λ made.
              publish-IsUndone items (rest_fails (io make_parts) unwritten (io publish) hf made)))
