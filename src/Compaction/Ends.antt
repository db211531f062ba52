-- ===== src/Compaction/Ends.antt =====
-- compaction.go: how `mergeParts` ends, and the failure that it does not undo.
use marchilogs.Base.{
  Bool, Bytes, Error, List, Map, Option, Result, [], all, ap, arith, bytes_eq, bytes_eq_refl,
  else-branch, err, false, if-both, if◌then◌else◌, insert, io_failure, is_nil, keep_if, keys,
  lookup, mem_bytes, none, not, ok, refl, set_of, some, sort_strings, sym, true, zero_padded, ℕ,
  ◌&&◌, ◌++◌, ◌+◌, ◌||◌, ◌∙◌, ◌∷◌, ◌≡◌, Bool-cases, inl, inr,
}
use marchilogs.Compaction.{
  are_active, merge_parts, publish_merged, replace_parts, replaced, rolled_back, without_parts,
  write_merged_part,
}
use marchilogs.Compaction.Outcomes.{
  Announces, Ends, ListsMerged, Lost, Replaced, Unchanged, active-fresh, finished, left_alone,
  lookup-with_part, lookup-without_parts, lost, manifests-without_parts, parts_at,
  replace_parts-Announces, replace_parts-written, unwritten, written, left_behind,
}
use marchilogs.Compaction.Rollback.{
  placed-Unchanged, rolled_back-Left, rolled_back-Lost, rolled_back-Unchanged,
}
use marchilogs.Deletes.{seq_at}
use marchilogs.Flush.{
  Io, Outcome, make_parts, metas_of, publish, rebuild_catalog, set_catalog, set_manifest, with_day,
  with_part, write_catalog, write_catalog_of, write_manifest, remove_part,
}
use marchilogs.Flush.Outcomes.{day_at-set_day}
use marchilogs.Parts.{add_parts_to_index_db, dedupe}
use marchilogs.Store.{DayDir, Part, Store, day_at}
use marchilogs.Tags.{ids_at, sort_ids}
use mathlib.Core.Path.{subst}

-- The manifest and the parts that it lists are the same in two stores.
same-Unchanged :
    (day : Bytes) (s t : Store)
    → ids_at day t.manifests ≡ ids_at day s.manifests
    → parts_at day t ≡ parts_at day s
    → Unchanged day s t
same-Unchanged day s t hm hp = record { listed = hm; on_disk = λ id there. ap (lookup id) hp }

with_day-Unchanged : (day : Bytes) (s : Store) → Unchanged day s (with_day day s)
with_day-Unchanged day s =
    same-Unchanged day s (with_day day s) refl
      (ap (λ (d : DayDir). d.parts) (day_at-set_day day (day_at day s.disk) s))

module _ (io : Io) (day : Bytes) (id : ℕ) (inputs : List Bytes) (s t : Store)
    (fresh : mem_bytes (zero_padded 6 id) (ids_at day s.manifests) ≡ false)
    (listed : ids_at day t.manifests ≡ ids_at day s.manifests)
    (on_disk : parts_at day t ≡ parts_at day s) where
  unchanged : Unchanged day s t
  unchanged = same-Unchanged day s t listed on_disk

  -- What the manifest lists after the merged part was put in its place.
  merged_list :
      (part : Part) (s' : Store)
      → ListsMerged day inputs (zero_padded 6 id) (with_part day (zero_padded 6 id) part t) s'
      → ListsMerged day inputs (zero_padded 6 id) s s'
  merged_list part s' h = λ other.
      h other
      ∙ ap
          (λ (ids : List Bytes).
            not (mem_bytes other inputs) && mem_bytes other ids
            || bytes_eq (zero_padded 6 id) other)
          listed

  completed-Replaced :
      (part : Part) (s' : Store)
      → all (λ (i : Bytes). mem_bytes i (ids_at day t.manifests)) inputs ≡ true
      → parts_at day s' ≡ parts_at day (with_part day (zero_padded 6 id) part t)
      → ListsMerged day inputs (zero_padded 6 id) (with_part day (zero_padded 6 id) part t) s'
      → Replaced day inputs (zero_padded 6 id) part s (without_parts io day inputs s')
  completed-Replaced part s' active hp hl =
      let name = zero_padded 6 id in
      let at = λ (other : Bytes) (kept : mem_bytes other inputs ≡ false).
        lookup-without_parts io day other inputs s' kept
        ∙ ap (lookup other) hp
        ∙ lookup-with_part day name other part t in
      let not_input =
        active-fresh inputs (ids_at day t.manifests) name (ap (mem_bytes name) listed ∙ fresh)
          active in
      record {
        listed = λ other.
            ap (λ (m : Map (List Bytes)). mem_bytes other (ids_at day m))
              (manifests-without_parts io day inputs s')
            ∙ merged_list part s' hl other;
        merged = at name not_input ∙ ground (arith, bytes_eq_refl name);
        others =
            λ other not_there new. at other not_there ∙ ground (arith, ap (lookup other) on_disk);
      }

  replaced-Ends :
      (part : Part) (o : Outcome)
      → all (λ (i : Bytes). mem_bytes i (ids_at day t.manifests)) inputs ≡ true
      → Announces day inputs (zero_padded 6 id) (with_part day (zero_padded 6 id) part t) o
      → Ends io day inputs (zero_padded 6 id) (ok part) s (replaced io day id inputs o)
  replaced-Ends part o active (unwritten e) =
      let placed = with_part day (zero_padded 6 id) part t in
      left_alone (rolled_back io day id placed, some e)
        (rolled_back-Unchanged day id s fresh io placed
          (placed-Unchanged day id s fresh part t unchanged))
  replaced-Ends part o active (written (s', some e) hp hl) =
      let name = zero_padded 6 id in
      let back = rolled_back io day id s' in
      elim (Bool-cases (io (remove_part day name))) [
        | inl failed ↦ left_behind back e part refl (
            rolled_back-Left io day inputs id part s s' failed (merged_list part s' hl) (
              ap (lookup name) hp
              ∙ lookup-with_part day name name part t
              ∙ ap (λ (b : Bool). if b then some part else lookup name (parts_at day t))
                  (bytes_eq_refl name)))
        | inr fine ↦
            lost back e (rolled_back-Lost io day inputs id s s' fine (merged_list part s' hl))
      ]
  replaced-Ends part o active (written (s', none) hp hl) =
      finished (without_parts io day inputs s') part refl (completed-Replaced part s' active hp hl)

  publish_merged-Ends :
      (r : Result Part)
      → Ends io day inputs (zero_padded 6 id) r s (publish_merged io day id inputs t r)
  publish_merged-Ends (err e) =
      left_alone (rolled_back io day id t, some e)
        (rolled_back-Unchanged day id s fresh io t unchanged)
  publish_merged-Ends (ok part) =
      let name = zero_padded 6 id in
      let o = replace_parts io day inputs (name ∷ []) (with_part day name part t) in
      let ends = Ends io day inputs name (ok part) s in
      let back = rolled_back-Unchanged day id s fresh io t unchanged in
      if-both ends (not (are_active inputs day t)) (rolled_back io day id t, none)
        (if io publish || mem_bytes name (keys (day_at day t.disk).parts)
          then (rolled_back io day id t, some io_failure)
          else replaced io day id inputs o)
        (λ raced. left_alone (rolled_back io day id t, none) back)
        (λ active.
          if-both ends (io publish || mem_bytes name (keys (day_at day t.disk).parts))
            (rolled_back io day id t, some io_failure) (replaced io day id inputs o)
            (λ failed. left_alone (rolled_back io day id t, some io_failure) back)
            (λ placed.
              replaced-Ends part o (not_not (are_active inputs day t) active)
                (replace_parts-Announces io day inputs name (with_part day name part t))))
    where
      not_not : (b : Bool) → not b ≡ false → b ≡ true
      not_not b h = ground arith

-- How a merge of active parts ends, whichever calls of the operating system fail, removals included:
-- the manifest and every part that it lists are as they were; or there is no error, and the merged
-- part stands on disk and in the manifest in the place of the inputs, and every part that is no input
-- is as it was; or there is an error, and the manifest names the merged part in the place of the
-- inputs, and there is no such part, or it is there since its removal failed. The number after the
-- day's last part number is not in the manifest.
pub merge_parts-Ends :
    (io : Io) (day : Bytes) (inputs : List Bytes) (s : Store)
    → let name = zero_padded 6 (seq_at day s.part_seq + 1) in
      mem_bytes name (ids_at day s.manifests) ≡ false
      → Ends io day inputs name
          (write_merged_part io (parts_at day s) inputs)
          s
          (merge_parts io day inputs s)
unfolding merge_parts
merge_parts-Ends io day inputs s fresh =
    let s' = with_day day s in
    let id = seq_at day s.part_seq + 1 in
    let name = zero_padded 6 id in
    let numbered = record s' { part_seq = insert day id s'.part_seq } in
    let r = write_merged_part io (parts_at day s) inputs in
    let same = ap (λ (d : DayDir). d.parts) (day_at-set_day day (day_at day s.disk) s) in
    let ends = Ends io day inputs name r s in
    let end =
      publish_merged io day id inputs numbered
        (write_merged_part io (parts_at day numbered) inputs) in
    if-both ends (is_nil inputs) (s, none)
      (if io make_parts
        then (s, some io_failure)
        else if not (are_active inputs day s')
        then (s', none)
        else end)
      (λ nothing. left_alone (s, none) (same-Unchanged day s s refl refl))
      (λ inputs_given.
        if-both ends (io make_parts) (s, some io_failure)
          (if not (are_active inputs day s') then (s', none) else end)
          (λ failed. left_alone (s, some io_failure) (same-Unchanged day s s refl refl))
          (λ made.
            if-both ends (not (are_active inputs day s')) (s', none) end
              (λ raced. left_alone (s', none) (with_day-Unchanged day s))
              (λ active.
                subst
                  (λ (parts : Map Part).
                    ends (
                      publish_merged io day id inputs numbered (write_merged_part io parts inputs)))
                  (sym same) (publish_merged-Ends io day id inputs s numbered fresh refl same r))))

catalog_fails :
    (io : Io) (day : Bytes) (s : Store) (r : Result (Map (List Bytes)))
    → io write_catalog ≡ true
    → (e : Error) × ((write_catalog_of io day s r).1 ≡ some e)
catalog_fails io day s (err e) h = (e, refl)
catalog_fails io day s (ok by_tag) h =
    let done : Outcome = (set_catalog day (sort_ids by_tag) s, none) in
    let failed : Outcome = (s, some io_failure) in
    (io_failure, ap (λ (b : Bool). (if◌then◌else◌ {A = Outcome} b failed done).1) h)

replace_parts_fails :
    (io : Io) (day : Bytes) (inputs add_ids : List Bytes) (s : Store)
    → io write_manifest ≡ false
    → io write_catalog ≡ true
    → (e : Error) × ((replace_parts io day inputs add_ids s).1 ≡ some e)
unfolding replace_parts
replace_parts_fails io day inputs add_ids s hm hc =
    let next =
      keep_if (λ id. not (mem_bytes id (set_of inputs))) (ids_at day s.manifests) ++ add_ids in
    let s' = set_manifest day (sort_strings (dedupe [] next)) s in
    subst
      (λ (b : Bool).
        (e : Error) × ((if b then (s, some io_failure) else rebuild_catalog io day s').1 ≡ some e))
      (sym hm)
      (catalog_fails io day s'
        (add_parts_to_index_db (ids_at day s'.manifests) (metas_of (day_at day s'.disk).parts) [])
        hc)

-- The calls before the write of the catalog succeed, that write fails, and the removal of the merged
-- part does not fail.
pub record OnlyCatalogFails (io : Io) (day : Bytes) (inputs : List Bytes) (part : Part) (s : Store)
    : Type 0 where
  pub inputs_given : is_nil inputs ≡ false
  pub made : io make_parts ≡ false
  pub active : are_active inputs day s ≡ true
  pub merged : write_merged_part io (parts_at day s) inputs ≡ ok part
  pub published :
      (io publish || mem_bytes (zero_padded 6 (seq_at day s.part_seq + 1)) (keys (parts_at day s)))
      ≡ false
  pub manifest_written : io write_manifest ≡ false
  pub catalog_unwritten : io write_catalog ≡ true
  pub removed : io (remove_part day (zero_padded 6 (seq_at day s.part_seq + 1))) ≡ false

-- A merge where only the write of the catalog fails returns an error, and the manifest has lost the
-- inputs by then: it names the merged part in their place, which was removed again.
pub merge_parts-Lost :
    (io : Io) (day : Bytes) (inputs : List Bytes) (part : Part) (s : Store)
    → OnlyCatalogFails io day inputs part s
    → let o = merge_parts io day inputs s in
      (e : Error) × (o.1 ≡ some e)
      × Lost day inputs (zero_padded 6 (seq_at day s.part_seq + 1)) s o.0
unfolding merge_parts
merge_parts-Lost io day inputs part s h =
    let s' = with_day day s in
    let id = seq_at day s.part_seq + 1 in
    let name = zero_padded 6 id in
    let numbered = record s' { part_seq = insert day id s'.part_seq } in
    let same = ap (λ (d : DayDir). d.parts) (day_at-set_day day (day_at day s.disk) s) in
    let is_lost = λ (o : Outcome). (e : Error) × (o.1 ≡ some e) × Lost day inputs name s o.0 in
    let placed = with_part day name part numbered in
    let o = replace_parts io day inputs (name ∷ []) placed in
    let (e, failed) =
      replace_parts_fails io day inputs (name ∷ []) placed h.manifest_written h.catalog_unwritten in
    let listed = (replace_parts-written io day inputs name placed h.manifest_written).1 in
    let there = mem_bytes name (keys (parts_at day numbered)) in
    let end = replaced io day id inputs o in
    let publish_end =
      if io publish || there then (rolled_back io day id numbered, some io_failure) else end in
    let all_active = not_false (are_active inputs day s) h.active in
    else-branch is_lost (is_nil inputs) (s, none)
      (if io make_parts
        then (s, some io_failure)
        else if not (are_active inputs day s')
        then (s', none)
        else publish_merged io day id inputs numbered
            (write_merged_part io (parts_at day numbered) inputs))
      h.inputs_given
      (else-branch is_lost (io make_parts) (s, some io_failure)
        (if not (are_active inputs day s')
          then (s', none)
          else publish_merged io day id inputs numbered
              (write_merged_part io (parts_at day numbered) inputs))
        h.made
        (else-branch is_lost (not (are_active inputs day s')) (s', none)
          (publish_merged io day id inputs numbered
            (write_merged_part io (parts_at day numbered) inputs))
          all_active
          (subst (λ (r : Result Part). is_lost (publish_merged io day id inputs numbered r))
            (sym (ap (λ (parts : Map Part). write_merged_part io parts inputs) same ∙ h.merged))
            (else-branch is_lost (not (are_active inputs day numbered))
              (rolled_back io day id numbered, none) publish_end all_active
              (else-branch is_lost (io publish || there)
                (rolled_back io day id numbered, some io_failure) end
                (ap (λ (parts : Map Part). io publish || mem_bytes name (keys parts)) same
                  ∙ h.published)
                (subst (λ (x : Option Error). is_lost (replaced io day id inputs (o.0, x)))
                  (sym failed)
                  (e, refl, rolled_back-Lost io day inputs id s o.0 h.removed listed)))))))
  where
    not_false : (b : Bool) → b ≡ true → not b ≡ false
    not_false b h = ground arith
