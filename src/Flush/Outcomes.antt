-- ===== src/Flush/Outcomes.antt =====
-- storage.go: what a flush of a partition leaves behind, whichever calls of the operating system fail.
use marchilogs.Base.{
  Bytes, List, Map, Option, Result, [], ap, arith, bytes_eq_refl, err, if-both, if◌then◌else◌, inl,
  inr, insert, io_failure, is_nil, keys, lookup, lookup-insert, mem_bytes, mem_bytes-append,
  mem_bytes-sort_strings, none, ok, refl, some, sort_strings, true, zero_padded, ℕ, ◌++◌, ◌+◌, ◌||◌,
  ◌∙◌, ◌∷◌, ◌≡◌, ◌⊎◌,
}
use marchilogs.Block.{MemBlock}
use marchilogs.Deletes.{seq_at}
use marchilogs.Flush.{
  Io, Outcome, add_part, advanced, announced, block_fails, blocks_of, compacted, drop_items,
  flush_items, flush_partition, make_blocks, make_parts, metas_of, part_of, publish, publish_part,
  rebuild_catalog, release_from, remove_items, set_catalog, set_day, set_manifest, try_compact,
  with_part, write_catalog, write_catalog_of, write_manifest, write_meta, write_part, try_remove,
  remove_part, without_part, rollback, unnumbered, temp_name, rename_part, unfinished, begun,
}
use marchilogs.Parts.{add_parts_to_index_db}
use marchilogs.Store.{DayDir, Part, Store, day_at, empty_day, holds}
use marchilogs.Tags.{ids_at, sort_ids}
use marchilogs.Wal.{RecordCodec, Wal}

-- The part `name` of a day holds what a flush writes for `bs`, and the day's manifest lists it.
pub record IsPublished (day name : Bytes) (bs : List MemBlock) (s : Store) : Type 0 where
  pub on_disk : lookup name (day_at day s.disk).parts ≡ some (part_of bs)
  pub listed : mem_bytes name (ids_at day s.manifests) ≡ true

-- The buffers of the items are still there, or they are gone and their part is published.
abbrev pub KeepsRows : Bytes → Map MemBlock → Store → Store → Type 0
KeepsRows day items s s' =
    (s'.buffers ≡ s.buffers)
    ⊎ ((name : Bytes) × IsPublished day name (blocks_of items) s'
        × (s'.buffers ≡ remove_items (keys items) s.buffers))

pub day_at-set_day :
    (day : Bytes) (dir : DayDir) (s : Store) → day_at day (set_day day dir s).disk ≡ dir
day_at-set_day day dir s =
    ap (λ (d : Option DayDir). elim d [ none ↦ empty_day | some d' ↦ d' ])
      (lookup-insert day day dir s.disk
        ∙ ap (λ b. if b then some dir else lookup day s.disk) (bytes_eq_refl day))

pub ids_at-insert :
    (day : Bytes) (ids : List Bytes) (m : Map (List Bytes)) → ids_at day (insert day ids m) ≡ ids
ids_at-insert day ids m =
    ap (λ (o : Option (List Bytes)). elim o [ none ↦ [] | some l ↦ l ])
      (lookup-insert day day ids m
        ∙ ap (λ b. if b then some ids else lookup day m) (bytes_eq_refl day))

-- What holds of a store with and without a directory holds after a removal that may fail.
pub try_remove-both :
    (P : Store → Type 0) (io : Io) (day name : Bytes) (s : Store)
    → P s
    → P (without_part day name s)
    → P (try_remove io day name s)
try_remove-both P io day name s h h' =
    if-both P (io (remove_part day name)) s (without_part day name s) (λ failed. h) (λ fine. h')

pub rollback-both :
    (P : Store → Type 0) (io : Io) (day : Bytes) (id : ℕ) (s : Store)
    → P (unnumbered day s)
    → P (unnumbered day (without_part day (temp_name id) s))
    → P (rollback io day id s)
rollback-both P io day id s h h' =
    try_remove-both (λ (t : Store). P (unnumbered day t)) io day (temp_name id) s h h'

rollback-buffers :
    (io : Io) (day : Bytes) (id : ℕ) (s : Store) → (rollback io day id s).buffers ≡ s.buffers
rollback-buffers io day id s =
    rollback-both (λ (t : Store). t.buffers ≡ s.buffers) io day id s refl refl

-- The steps after the publication keep the parts and the manifests, and drop nothing but the items.
record Releases (removed : List Bytes) (s s' : Store) : Type 0 where
  disk : s'.disk ≡ s.disk
  manifests : s'.manifests ≡ s.manifests
  buffers : (s'.buffers ≡ s.buffers) ⊎ (s'.buffers ≡ remove_items removed s.buffers)

module _ (io : Io) (codec : RecordCodec) where
  compacted-Releases :
      (removed : List Bytes) (s : Store) (w : Wal) (r : Result Wal)
      → Releases removed s (compacted (record s { buffers = remove_items removed s.buffers }) w r).0
  compacted-Releases removed s w (err e) = record {
    disk = refl;
    manifests = refl;
    buffers = inr refl;
  }
  compacted-Releases removed s w (ok w') = record {
    disk = refl;
    manifests = refl;
    buffers = inr refl;
  }

  drop_items-Releases :
      (removed : List Bytes) (s : Store) (r : Result Wal)
      → Releases removed s (drop_items io codec removed s r).0
  drop_items-Releases removed s (err e) = record {
    disk = refl;
    manifests = refl;
    buffers = inl refl;
  }
  drop_items-Releases removed s (ok w) = compacted-Releases removed s w (try_compact io codec w)

  release-Releases :
      (removed : List Bytes) (s : Store) (w : Option Wal)
      → Releases removed s (release_from io codec removed s w).0
  release-Releases removed s none = record { disk = refl; manifests = refl; buffers = inr refl }
  release-Releases removed s (some w) =
      drop_items-Releases removed s (advanced io removed s.buffers w)

-- What the write of a manifest and of a catalog keeps: the buffers, the log, and the parts of the day;
-- where it does not fail, the part is listed.
pub record Lists (day name : Bytes) (s : Store) (o : Outcome) : Type 0 where
  pub buffers : o.0.buffers ≡ s.buffers
  pub wal : o.0.wal ≡ s.wal
  pub parts : (day_at day o.0.disk).parts ≡ (day_at day s.disk).parts
  pub listed : o.1 ≡ none → mem_bytes name (ids_at day o.0.manifests) ≡ true

module _ (io : Io) (day name : Bytes) (s : Store) where
  catalog-Lists :
      (r : Result (Map (List Bytes)))
      → mem_bytes name (ids_at day s.manifests) ≡ true
      → Lists day name s (write_catalog_of io day s r)
  catalog-Lists (err e) h = record {
    buffers = refl;
    wal = refl;
    parts = refl;
    listed = λ succeeded. h;
  }
  catalog-Lists (ok by_tag) h =
      let s' = set_catalog day (sort_ids by_tag) s in
      if-both (Lists day name s) (io write_catalog) (s, some io_failure) (s', none)
        (λ failed. record { buffers = refl; wal = refl; parts = refl; listed = λ succeeded. h })
        (λ fine. record {
          buffers = refl;
          wal = refl;
          parts =
              ap (λ (d : DayDir). d.parts)
                (day_at-set_day day
                  (record (day_at day s.disk) { catalog = holds (sort_ids by_tag) })
                  (record s { catalogs = insert day (sort_ids by_tag) s.catalogs }));
          listed = λ succeeded. h;
        })

pub add_part-Lists :
    (io : Io) (day name : Bytes) (s : Store) → Lists day name s (add_part io day name s)
unfolding add_part mem_bytes
add_part-Lists io day name s =
    let cur = ids_at day s.manifests in
    let ids = sort_strings (cur ++ name ∷ []) in
    let s' = set_manifest day ids s in
    let rebuilt =
      catalog-Lists io day name s'
        (add_parts_to_index_db (ids_at day s'.manifests) (metas_of (day_at day s'.disk).parts) [])
        (ap (mem_bytes name) (ids_at-insert day ids s.manifests)
          ∙ mem_bytes-sort_strings name (cur ++ name ∷ [])
          ∙ last_mem cur) in
    if-both (Lists day name s) (mem_bytes name cur) (s, none)
      (if io write_manifest then (s, some io_failure) else rebuild_catalog io day s')
      (λ there. record { buffers = refl; wal = refl; parts = refl; listed = λ succeeded. there })
      (λ new.
        if-both (Lists day name s) (io write_manifest) (s, some io_failure)
          (rebuild_catalog io day s')
          (λ failed. record { buffers = refl; wal = refl; parts = refl; listed = λ succeeded. cc })
          (λ fine. record {
            buffers = rebuilt.buffers;
            wal = rebuilt.wal;
            parts =
                rebuilt.parts
                ∙ ap (λ (d : DayDir). d.parts)
                    (day_at-set_day day (record (day_at day s.disk) { manifest = holds ids })
                      (record s { manifests = insert day ids s.manifests }));
            listed = rebuilt.listed;
          }))
  where
    last_mem : (cur : List Bytes) → mem_bytes name (cur ++ name ∷ []) ≡ true
    last_mem cur = mem_bytes-append name cur (name ∷ []) ∙ ground (arith, bytes_eq_refl name)

module _ (io : Io) (codec : RecordCodec) (day : Bytes) (items : Map MemBlock) (s : Store) where
  -- After the manifest: a failure removes the part again and keeps the buffers.
  announced-KeepsRows :
      (id : ℕ) (o : Outcome)
      → o.0.buffers ≡ s.buffers
      → (o.1 ≡ none → IsPublished day (zero_padded 6 id) (blocks_of items) o.0)
      → KeepsRows day items s (announced io codec day id (keys items) o).0
  announced-KeepsRows id (s', some e) hb hp = inl (
      try_remove-both (λ (t : Store). t.buffers ≡ s.buffers) io day (zero_padded 6 id)
        (rollback io day id s') (rollback-buffers io day id s' ∙ hb)
        (rollback-buffers io day id s' ∙ hb))
  announced-KeepsRows id (s', none) hb hp =
      let r = release-Releases io codec (keys items) s' s'.wal in
      let p = hp refl in
      elim r.buffers [
        | inl same ↦ inl (same ∙ hb)
        | inr fewer ↦ inr (
          zero_padded 6 id,
          record {
            on_disk =
                ap (λ (disk : Map DayDir). lookup (zero_padded 6 id) (day_at day disk).parts) r.disk
                ∙ p.on_disk;
            listed =
                ap (λ (m : Map (List Bytes)). mem_bytes (zero_padded 6 id) (ids_at day m))
                  r.manifests
                ∙ p.listed;
          },
          fewer ∙ ap (remove_items (keys items)) hb,
        )
      ]

  publish_part-KeepsRows :
      (id : ℕ) (s' : Store)
      → s'.buffers ≡ s.buffers
      → KeepsRows day items s
          (publish_part io codec day id
            (keys items)
            (unfinished io (blocks_of items))
            s'
            (write_part io (blocks_of items))).0
  publish_part-KeepsRows id s' hb =
      let name = zero_padded 6 id in
      let bs = blocks_of items in
      let tmp = λ (part : Part). with_part day (temp_name id) part s' in
      let cleared = without_part day (temp_name id) (tmp (part_of bs)) in
      let placed = rename_part day id (part_of bs) (tmp (part_of bs)) in
      let l = add_part-Lists io day name placed in
      let back = λ (part : Part). rollback-buffers io day id (tmp part) ∙ hb in
      let goal = λ (r : Result Part).
        KeepsRows day items s
          (publish_part io codec day id (keys items) (unfinished io bs) s' r).0 in
      if-both goal (io make_blocks || block_fails io bs || io write_meta) (err io_failure)
        (ok (part_of bs)) (λ failed. inl (back (unfinished io bs)))
        (λ written.
          if-both (λ (o : Outcome). KeepsRows day items s o.0)
            (io publish || mem_bytes name (keys (day_at day s'.disk).parts))
            (rollback io day id (tmp (part_of bs)), some io_failure)
            (announced io codec day id (keys items) (add_part io day name placed))
            (λ failed. inl (back (part_of bs)))
            (λ fine.
              announced-KeepsRows id (add_part io day name placed) (l.buffers ∙ hb) (λ succeeded.
                record {
                  on_disk =
                      ap (lookup name) l.parts
                      ∙ ap (λ (d : DayDir). lookup name d.parts)
                          (day_at-set_day day
                            (record (day_at day cleared.disk) {
                              parts = insert name (part_of bs) (day_at day cleared.disk).parts;
                            })
                            cleared)
                      ∙ lookup-insert name name (part_of bs) (day_at day cleared.disk).parts
                      ∙ ap
                          (λ b.
                            if b
                            then some (part_of bs)
                            else lookup name (day_at day cleared.disk).parts)
                          (bytes_eq_refl name);
                  listed = l.listed succeeded;
                })))

-- A flush of a partition loses no buffer, whichever calls of the operating system fail: afterwards all
-- buffers are as they were, or the buffers that it collected are gone, and a part that its day's
-- manifest lists is on disk as `part_of` makes it of their blocks.
pub flush_partition-KeepsRows :
    (io : Io) (codec : RecordCodec) (day : Bytes) (s : Store)
    → KeepsRows day (flush_items day s.buffers) s (flush_partition io codec day s).0
unfolding flush_partition
flush_partition-KeepsRows io codec day s =
    let items = flush_items day s.buffers in
    let keeps = λ (o : Outcome). KeepsRows day items s o.0 in
    let id = seq_at day s.part_seq + 1 in
    let published =
      publish_part io codec day id (keys items) (unfinished io (blocks_of items))
        (begun io codec day s) (write_part io (blocks_of items)) in
    if-both keeps (is_nil items) (s, none)
      (if io make_parts then (s, some io_failure) else published) (λ nothing. inl refl)
      (λ some_items.
        if-both keeps (io make_parts) (s, some io_failure) published (λ failed. inl refl)
          (λ made. publish_part-KeepsRows io codec day items s id (begun io codec day s) refl))
