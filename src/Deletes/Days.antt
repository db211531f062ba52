-- ===== src/Deletes/Days.antt =====
-- delete.go: `Delete` and the tombstones of the days.
use marchilogs.Base.{
  if◌then◌else◌, keep_if, ℤ, mem_bytes-sort_strings, zero_padded, Bytes, codes, bytes_eq,
  bytes_eq_iff, mem_bytes, mem_bytes-append, Map, keys, lookup-insert, unless_empty,
  mem_bytes-unless_empty, delete_unbounded, Result, ok, err, ℕ, ◌+◌, ◌≡◌, refl, sym, ap, ◌∙◌, Bool,
  true, false, ◌&&◌, ◌||◌, List, [], ◌∷◌, ◌++◌, arith,
}
use marchilogs.Calendar.{Time, partition_name, parse_partition_name}
use marchilogs.Entry.{Entry, is_zero, unix_nano}
use marchilogs.Block.{MemBlock}
use marchilogs.Deletes.{
  DeleteSpec, DeleteRecord, hides_entry, entry_hidden_by_deletes, record_of_spec, delete_spec_hides,
  purge_buffers, partition_overlaps_query, add_days, days_for_delete, Tombstones, seq_at,
  deletes_at, add_tombstone, add_tombstones, is_unbounded, delete,
}

mem-add_days :
    (start end : Time) (day : Bytes) (days out : List Bytes)
    → mem_bytes day (add_days start end days out)
      ≡ (mem_bytes day out || (mem_bytes day days && partition_overlaps_query day start end))
unfolding add_days mem_bytes
mem-add_days start end day [] out = ground arith
mem-add_days start end day (d ∷ days) out = ground (
  arith,
  mem-add_days start end day days out,
  mem-add_days start end day days (out ++ d ∷ []),
  mem_bytes-append day out (d ∷ []),
  bytes_eq_iff d day,
)

mem_known :
    (manifest_days delete_days named : List Bytes) (start end : Time) (day : Bytes)
    → mem_bytes day manifest_days ≡ true
    → partition_overlaps_query day start end ≡ true
    → mem_bytes day (add_days start end (manifest_days ++ delete_days ++ named) []) ≡ true
mem_known manifest_days delete_days named start end day hm ho = ground (
  arith,
  mem-add_days start end day (manifest_days ++ delete_days ++ named) [],
  mem_bytes-append day (manifest_days ++ delete_days) named,
  mem_bytes-append day manifest_days delete_days,
  hm,
  ho,
)

-- Every day of a manifest that overlaps the window gets a tombstone.
mem-days_for_delete :
    (manifest_days delete_days on_disk : List Bytes) (start end : Time) (day : Bytes)
    → mem_bytes day manifest_days ≡ true
    → partition_overlaps_query day start end ≡ true
    → mem_bytes day (days_for_delete manifest_days delete_days on_disk start end) ≡ true
unfolding days_for_delete
mem-days_for_delete manifest_days delete_days on_disk start end day hm ho =
    let named =
      keep_if (λ (name : Bytes). elim (parse_partition_name name) [ err e ↦ false | ok t ↦ true ])
        on_disk in
    let days = manifest_days ++ delete_days ++ named in
    let known = add_days start end days [] in
    let starts = if is_zero start then [] else partition_name start ∷ [] in
    let ends = if is_zero end then [] else partition_name end ∷ [] in
    let others = add_days start end (starts ++ ends) [] in
    mem_bytes-sort_strings day (unless_empty known others)
    ∙ mem_bytes-unless_empty day known others
        (mem_known manifest_days delete_days named start end day hm ho)

hides_entry-id :
    (r : DeleteRecord) (e : Entry) (id : Bytes)
    → hides_entry (record r { id = id }) e ≡ hides_entry r e
unfolding hides_entry
hides_entry-id r e id = refl

hides_entry-created :
    (r : DeleteRecord) (e : Entry) (ns : ℤ)
    → hides_entry (record r { created_ns = ns }) e ≡ hides_entry r e
unfolding hides_entry
hides_entry-created r e ns = refl

or_true : (b : Bool) → (b || true) ≡ true
or_true b = ground arith

-- What a result that succeeded holds, behind a guard.
made_of :
    (guard : Bool) (x y : Map MemBlock × Tombstones × ℕ)
    → (if guard then err delete_unbounded else ok x) ≡ ok y
    → y.1 ≡ x.1
made_of true x y h = ground (arith, h)
made_of false x y h =
    ap (λ (o : Result (Map MemBlock × Tombstones × ℕ)). elim o [ err e ↦ y.1 | ok z ↦ z.1 ]) (sym h)

hidden-append :
    (e : Entry) (ds ds' : List DeleteRecord)
    → entry_hidden_by_deletes e (ds ++ ds')
      ≡ (entry_hidden_by_deletes e ds || entry_hidden_by_deletes e ds')
unfolding entry_hidden_by_deletes
hidden-append e [] ds' = refl
hidden-append e (d ∷ ds) ds' = ground (arith, hidden-append e ds ds')

-- A tombstone for `day` hides there what it hides, and what was hidden stays so.
hidden-add_tombstone :
    (r : DeleteRecord) (day day' : Bytes) (s : Tombstones) (e : Entry)
    → entry_hidden_by_deletes e (deletes_at day (add_tombstone r day' s).deletes) ≡ (
        (bytes_eq day' day && hides_entry r e)
        || entry_hidden_by_deletes e (deletes_at day s.deletes))
unfolding entry_hidden_by_deletes
hidden-add_tombstone r day day' s e =
    let n = seq_at day' s.delete_seq + 1 in
    let new = record r { id = codes "d-" ++ zero_padded 6 n } in
    ground (
      arith,
      lookup-insert day' day (deletes_at day' s.deletes ++ new ∷ []) s.deletes,
      hidden-append e (deletes_at day' s.deletes) (new ∷ []),
      hides_entry-id r e (codes "d-" ++ zero_padded 6 n),
      bytes_eq_iff day' day,
    )

hidden-add_tombstones :
    (r : DeleteRecord) (day : Bytes) (days : List Bytes) (s : Tombstones) (e : Entry)
    → entry_hidden_by_deletes e (deletes_at day (add_tombstones r days s).deletes) ≡ (
        (mem_bytes day days && hides_entry r e)
        || entry_hidden_by_deletes e (deletes_at day s.deletes))
unfolding add_tombstones mem_bytes
hidden-add_tombstones r day [] s e = refl
hidden-add_tombstones r day (d ∷ days) s e = ground (
  arith,
  hidden-add_tombstones r day days (add_tombstone r d s) e,
  hidden-add_tombstone r day d s e,
)

-- The tombstones of a day after a `Delete`.
hidden-delete :
    (now : Time) (manifest_days on_disk : List Bytes) (spec : DeleteSpec)
    (buffers buffers' : Map MemBlock) (s s' : Tombstones) (n : ℕ) (e : Entry) (day : Bytes)
    → delete now manifest_days on_disk spec buffers s ≡ ok (buffers', s', n)
    → entry_hidden_by_deletes e (deletes_at day s'.deletes) ≡ (
        (mem_bytes day (days_for_delete manifest_days (keys s.deletes) on_disk spec.start spec.end)
          && delete_spec_hides spec e)
        || entry_hidden_by_deletes e (deletes_at day s.deletes))
unfolding delete delete_spec_hides
hidden-delete now manifest_days on_disk spec buffers buffers' s s' n e day h =
    let days = days_for_delete manifest_days (keys s.deletes) on_disk spec.start spec.end in
    let r = record (record_of_spec spec) { created_ns = unix_nano now } in
    let purged = purge_buffers spec buffers in
    ap (λ (t : Tombstones). entry_hidden_by_deletes e (deletes_at day t.deletes))
      (made_of (is_unbounded spec) (purged.0, add_tombstones r days s, purged.1) (buffers', s', n)
        h)
    ∙ hidden-add_tombstones r day days s e
    ∙ ap (λ b. mem_bytes day days && b || entry_hidden_by_deletes e (deletes_at day s.deletes))
        (hides_entry-created (record_of_spec spec) e (unix_nano now))

-- After a `Delete` that succeeds, an entry that the specification covers is hidden in every day of
-- the manifests that overlaps the specification's window.
pub delete-hides :
    (now : Time) (manifest_days on_disk : List Bytes) (spec : DeleteSpec)
    (buffers buffers' : Map MemBlock) (s s' : Tombstones) (n : ℕ) (e : Entry) (day : Bytes)
    → delete now manifest_days on_disk spec buffers s ≡ ok (buffers', s', n)
    → mem_bytes day manifest_days ≡ true
    → partition_overlaps_query day spec.start spec.end ≡ true
    → delete_spec_hides spec e ≡ true
    → entry_hidden_by_deletes e (deletes_at day s'.deletes) ≡ true
delete-hides now manifest_days on_disk spec buffers buffers' s s' n e day h hm ho hs =
    let listed =
      mem-days_for_delete manifest_days (keys s.deletes) on_disk spec.start spec.end day hm ho in
    hidden-delete now manifest_days on_disk spec buffers buffers' s s' n e day h
    ∙ rw (listed, hs) refl

-- After a `Delete` that succeeds, what was hidden in a day is hidden there still.
pub delete-keeps :
    (now : Time) (manifest_days on_disk : List Bytes) (spec : DeleteSpec)
    (buffers buffers' : Map MemBlock) (s s' : Tombstones) (n : ℕ) (e : Entry) (day : Bytes)
    → delete now manifest_days on_disk spec buffers s ≡ ok (buffers', s', n)
    → entry_hidden_by_deletes e (deletes_at day s.deletes) ≡ true
    → entry_hidden_by_deletes e (deletes_at day s'.deletes) ≡ true
delete-keeps now manifest_days on_disk spec buffers buffers' s s' n e day h before =
    let days = days_for_delete manifest_days (keys s.deletes) on_disk spec.start spec.end in
    hidden-delete now manifest_days on_disk spec buffers buffers' s s' n e day h
    ∙ rw before (or_true (mem_bytes day days && delete_spec_hides spec e))
