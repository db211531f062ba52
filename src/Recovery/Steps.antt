-- ===== src/Recovery/Steps.antt =====
-- storage.go, manifest.go and indexdb.go: each step of `Open` keeps the parts that a manifest lists.
use marchilogs.Base.{
  Bytes, List, Map, Result, [], arith, err, false, if-both, if◌then◌else◌, insert, io_failure,
  keep_if, keys, mem_bytes, none, not, ok, refl, some, sort_strings, ◌&&◌, ◌||◌, ◌∙◌, ◌≡◌, ◌≢◌,
}
use marchilogs.Deletes.{DeleteRecord}
use marchilogs.Engine.{if_ok-keeps, ◌if_ok◌}
use marchilogs.Flush.{
  Io, Outcome, metas_of, remove_leftover, remove_orphan, set_catalog, set_manifest, without_part,
  write_catalog, write_catalog_of, write_manifest,
}
use marchilogs.Flush.Outcomes.{ids_at-insert}
use marchilogs.Parts.{add_parts_to_index_db, is_published_part_dir}
use marchilogs.Recovery.{
  catalog_from, clean_day, clean_leftover, clean_orphan, cleanup_orphan_parts,
  cleanup_orphan_publishing, deletes_from, ensure_day_index_db, ensure_day_manifest, is_day,
  is_leftover, load_all, load_day_deletes, load_deletes, load_index_dbs, load_manifest,
  load_manifests, load_part_seq, manifest_from, part_dirs, rebuild_manifest,
}
use marchilogs.Recovery.Removals.{
  KeepsListed, for_each-keeps, set_day-KeepsListed, without_part-KeepsListed,
}
use marchilogs.Store.{DayDir, File, Store, corrupt, day_at, holds, missing}
use marchilogs.Tags.{ids_at, sort_ids}
use mathlib.Core.Path.{subst}

-- A list that is that of a readable manifest.
abbrev IsActive : DayDir → List Bytes → Type 0
IsActive old active = (ids : List Bytes) → old.manifest ≡ holds ids → active ≡ ids

module _ (disk : Map DayDir) where
  module _ (io : Io) where
    clean_leftover-KeepsListed :
        (day name : Bytes) (s : Store)
        → KeepsListed disk s
        → KeepsListed disk (clean_leftover io day name s).0
    clean_leftover-KeepsListed day name s h =
        if-both (λ (o : Outcome). KeepsListed disk o.0) (not (is_leftover name)) (s, none)
          (if io (remove_leftover day name)
            then (s, some io_failure)
            else (without_part day name s, none))
          (λ other. h)
          (λ leftover.
            if-both (λ (o : Outcome). KeepsListed disk o.0) (io (remove_leftover day name))
              (s, some io_failure) (without_part day name s, none) (λ failed. h)
              (λ fine.
                without_part-KeepsListed disk day name s h
                  (λ ids listed. ground (arith, leftover))))

    clean_orphan-KeepsListed :
        (active : List Bytes) (day name : Bytes) (s : Store)
        → IsActive (day_at day disk) active
        → KeepsListed disk s
        → KeepsListed disk (clean_orphan io active day name s).0
    clean_orphan-KeepsListed active day name s ha h =
        if-both (KeepsListed disk)
          (not (is_published_part_dir name) || mem_bytes name active || io (remove_orphan day name))
          s (without_part day name s) (λ stays. h)
          (λ orphan. without_part-KeepsListed disk day name s h (λ ids listed.
            subst (λ (l : List Bytes). (mem_bytes name l && not (is_leftover name)) ≡ false)
              (ha ids listed) (ground (arith, orphan))))

    -- The manifest that a day has in memory is the one on disk, where that one can be read.
    Ensured : Bytes → Outcome → Type 0
    Ensured day o =
        KeepsListed disk o.0 × (o.1 ≡ none → IsActive (day_at day disk) (ids_at day o.0.manifests))

    rebuild_manifest-Ensured :
        (day : Bytes) (s : Store)
        → KeepsListed disk s
        → ((ids : List Bytes) → (day_at day disk).manifest ≢ holds ids)
        → Ensured day (rebuild_manifest io day s)
    unfolding Ensured
    rebuild_manifest-Ensured day s h unread =
        let dir = day_at day s.disk in
        let ids = sort_strings (keep_if (λ name. is_published_part_dir name) (part_dirs day s)) in
        (
          if-both (λ (o : Outcome). KeepsListed disk o.0) (io write_manifest) (s, some io_failure)
              (set_manifest day ids s, none) (λ failed. h)
              (λ fine.
                set_day-KeepsListed disk day (record dir { manifest = holds ids })
                  (record s { manifests = insert day ids s.manifests }) h
                  (λ ids' listed. absurd (unread ids' listed))),
          λ fine ids' listed. absurd (unread ids' listed),
        )

    missing-ne-holds : (ids : List Bytes) → missing ≢ holds ids
    missing-ne-holds ids e = cc

    corrupt-ne-holds : (ids : List Bytes) → corrupt ≢ holds ids
    corrupt-ne-holds ids e = cc

    held : (ids ids' : List Bytes) → holds ids ≡ holds ids' → ids ≡ ids'
    held ids ids' e = cc

    manifest_from-Ensured :
        (day : Bytes) (s : Store) (f : File (List Bytes))
        → f ≡ (day_at day s.disk).manifest
        → KeepsListed disk s
        → Ensured day (manifest_from io day s f)
    unfolding Ensured
    manifest_from-Ensured day s missing hf h =
        rebuild_manifest-Ensured day s h
          (λ ids listed. missing-ne-holds ids (hf ∙ (h day ids listed).0))
    manifest_from-Ensured day s corrupt hf h =
        rebuild_manifest-Ensured day s h
          (λ ids listed. corrupt-ne-holds ids (hf ∙ (h day ids listed).0))
    manifest_from-Ensured day s (holds ids) hf h = (
      h,
      λ fine ids' listed.
          ids_at-insert day ids s.manifests ∙ held ids ids' (hf ∙ (h day ids' listed).0),
    )

    cleaned-KeepsListed :
        (day : Bytes) (o : Outcome)
        → Ensured day o
        → KeepsListed disk (o if_ok cleanup_orphan_parts io day).0
    unfolding Ensured cleanup_orphan_parts
    cleaned-KeepsListed day (s, some e) (h, ha) = h
    cleaned-KeepsListed day (s, none) (h, ha) =
        let active = ids_at day s.manifests in
        for_each-keeps (KeepsListed disk) (clean_orphan io active day) (part_dirs day s) s
          (λ name s' h'. clean_orphan-KeepsListed active day name s' (ha refl) h') h

    load_manifest-KeepsListed :
        (day : Bytes) (s : Store) → KeepsListed disk s → KeepsListed disk (load_manifest io day s).0
    unfolding ensure_day_manifest
    load_manifest-KeepsListed day s h =
        if-both (λ (o : Outcome). KeepsListed disk o.0) (is_day day)
          (ensure_day_manifest io day s if_ok cleanup_orphan_parts io day) (s, none)
          (λ named.
            cleaned-KeepsListed day (manifest_from io day s (day_at day s.disk).manifest)
              (manifest_from-Ensured day s (day_at day s.disk).manifest refl h))
          (λ other. h)

    write_catalog-KeepsListed :
        (day : Bytes) (s : Store) (r : Result (Map (List Bytes)))
        → KeepsListed disk s
        → KeepsListed disk (write_catalog_of io day s r).0
    write_catalog-KeepsListed day s (err e) h = h
    write_catalog-KeepsListed day s (ok by_tag) h =
        let dir = day_at day s.disk in
        let sorted = sort_ids by_tag in
        if-both (λ (o : Outcome). KeepsListed disk o.0) (io write_catalog) (s, some io_failure)
          (set_catalog day sorted s, none) (λ failed. h)
          (λ fine.
            set_day-KeepsListed disk day (record dir { catalog = holds sorted })
              (record s { catalogs = insert day sorted s.catalogs }) h (h day))

    catalog_from-KeepsListed :
        (day : Bytes) (s : Store) (f : File (Map (List Bytes)))
        → KeepsListed disk s
        → KeepsListed disk (catalog_from io day s f).0
    catalog_from-KeepsListed day s missing h =
        write_catalog-KeepsListed day s
          (add_parts_to_index_db (ids_at day s.manifests) (metas_of (day_at day s.disk).parts) []) h
    catalog_from-KeepsListed day s corrupt h =
        write_catalog-KeepsListed day s
          (add_parts_to_index_db (ids_at day s.manifests) (metas_of (day_at day s.disk).parts) []) h
    catalog_from-KeepsListed day s (holds by_tag) h = h

  deletes_from-KeepsListed :
      (day : Bytes) (s : Store) (f : File (List DeleteRecord))
      → KeepsListed disk s
      → KeepsListed disk (deletes_from day s f).0
  deletes_from-KeepsListed day s missing h = h
  deletes_from-KeepsListed day s corrupt h = h
  deletes_from-KeepsListed day s (holds recs) h = h

  pub load_all-KeepsListed :
      (io : Io) (s : Store) → KeepsListed disk s → KeepsListed disk (load_all io s).0
  unfolding load_all cleanup_orphan_publishing load_manifests load_index_dbs load_deletes
      load_part_seq ensure_day_index_db
  load_all-KeepsListed io s h =
      if_ok-keeps (KeepsListed disk)
        (cleanup_orphan_publishing io s
          if_ok load_manifests io
          if_ok load_index_dbs io
          if_ok load_deletes)
        (λ s'. (load_part_seq s', none))
        (if_ok-keeps (KeepsListed disk)
          (cleanup_orphan_publishing io s if_ok load_manifests io if_ok load_index_dbs io)
          load_deletes
          (if_ok-keeps (KeepsListed disk) (cleanup_orphan_publishing io s if_ok load_manifests io)
            (load_index_dbs io)
            (if_ok-keeps (KeepsListed disk) (cleanup_orphan_publishing io s) (load_manifests io)
              (for_each-keeps (KeepsListed disk) (clean_day io) (keys s.disk) s
                (λ day s' h'.
                  for_each-keeps (KeepsListed disk) (clean_leftover io day) (part_dirs day s') s'
                    (clean_leftover-KeepsListed io day) h')
                h)
              (λ s' h'.
                for_each-keeps (KeepsListed disk) (load_manifest io) (keys s'.disk)
                  (record s' { manifests = [] }) (load_manifest-KeepsListed io) h'))
            (λ s' h'.
              for_each-keeps (KeepsListed disk) (ensure_day_index_db io) (keys s'.manifests)
                (record s' { catalogs = [] })
                (λ day s'' h''.
                  catalog_from-KeepsListed io day s'' (day_at day s''.disk).catalog h'')
                h'))
          (λ s' h'.
            for_each-keeps (KeepsListed disk) load_day_deletes (keys s'.disk)
              (record s' { tombstones = record { deletes = []; delete_seq = [] } })
              (λ day s'' h''.
                if-both (λ (o : Outcome). KeepsListed disk o.0) (is_day day)
                  (deletes_from day s'' (day_at day s''.disk).deletes) (s'', none)
                  (λ named. deletes_from-KeepsListed day s'' (day_at day s''.disk).deletes h'')
                  (λ other. h''))
              h'))
        (λ s' h'. h')
