-- ===== src/Compaction/Outcomes.antt =====
-- compaction.go: what a merge leaves behind, whichever calls of the operating system fail.
use marchilogs.Base.{
  Bool, Bool-cases, Bytes, Error, List, Map, Result, [], all, ap, arith, bytes_eq, bytes_eq_iff,
  err, false, if-both, if◌then◌else◌, inl, inr, insert, io_failure, keep_if, lookup, lookup-insert,
  lookup-remove, mem_bytes, mem_bytes-sort_strings, none, not, ok, refl, remove, set_of, some,
  sort_strings, sym, true, ◌&&◌, ◌++◌, ◌||◌, ◌∙◌, ◌∷◌, ◌≡◌,
}
use marchilogs.Compaction.{replace_parts, without_parts}
use marchilogs.Flush.{
  Io, Outcome, metas_of, rebuild_catalog, set_catalog, set_manifest, with_part, without_part,
  write_catalog, write_catalog_of, write_manifest, try_remove, remove_part,
}
use marchilogs.Flush.Outcomes.{day_at-set_day, ids_at-insert, try_remove-both}
use marchilogs.Parts.{add_parts_to_index_db, dedupe}
use marchilogs.Parts.Manifest.{mem-replaced}
use marchilogs.Store.{DayDir, Part, Store, day_at, holds}
use marchilogs.Tags.{ids_at, sort_ids}
use mathlib.Core.Path.{subst}

abbrev pub parts_at : Bytes → Store → Map Part
parts_at day s = (day_at day s.disk).parts

pub lookup-with_part :
    (day name id : Bytes) (part : Part) (s : Store)
    → lookup id (parts_at day (with_part day name part s))
      ≡ (if bytes_eq name id then some part else lookup id (parts_at day s))
lookup-with_part day name id part s =
    let dir = day_at day s.disk in
    ap (λ (d : DayDir). lookup id d.parts)
      (day_at-set_day day (record dir { parts = insert name part dir.parts }) s)
    ∙ lookup-insert name id part dir.parts

pub lookup-without_part :
    (day name id : Bytes) (s : Store)
    → lookup id (parts_at day (without_part day name s))
      ≡ (if bytes_eq name id then none else lookup id (parts_at day s))
lookup-without_part day name id s =
    let dir = day_at day s.disk in
    ap (λ (d : DayDir). lookup id d.parts)
      (day_at-set_day day (record dir { parts = remove name dir.parts }) s)
    ∙ lookup-remove name id dir.parts

pub lookup-try_remove :
    (io : Io) (day name id : Bytes) (s : Store)
    → bytes_eq name id ≡ false
    → lookup id (parts_at day (try_remove io day name s)) ≡ lookup id (parts_at day s)
lookup-try_remove io day name id s ne =
    try_remove-both (λ (t : Store). lookup id (parts_at day t) ≡ lookup id (parts_at day s)) io day
      name s refl
      (lookup-without_part day name id s
        ∙ ap (λ (b : Bool). if b then none else lookup id (parts_at day s)) ne)

-- The removals of the inputs touch no other part.
pub lookup-without_parts :
    (io : Io) (day id : Bytes) (names : List Bytes) (s : Store)
    → mem_bytes id names ≡ false
    → lookup id (parts_at day (without_parts io day names s)) ≡ lookup id (parts_at day s)
unfolding without_parts mem_bytes
lookup-without_parts io day id [] s h = refl
lookup-without_parts io day id (name ∷ names) s h =
    lookup-without_parts io day id names (try_remove io day name s) (ground arith)
    ∙ lookup-try_remove io day name id s
        (ground (arith, bytes_eq_iff name id, bytes_eq_iff id name))

pub manifests-without_parts :
    (io : Io) (day : Bytes) (names : List Bytes) (s : Store)
    → (without_parts io day names s).manifests ≡ s.manifests
unfolding without_parts
manifests-without_parts io day [] s = refl
manifests-without_parts io day (name ∷ names) s =
    manifests-without_parts io day names (try_remove io day name s)
    ∙ try_remove-both (λ (t : Store). t.manifests ≡ s.manifests) io day name s refl refl

-- The write of a catalog keeps the manifests and the parts of the day.
record KeepsParts (day : Bytes) (s s' : Store) : Type 0 where
  manifests : s'.manifests ≡ s.manifests
  parts : parts_at day s' ≡ parts_at day s

catalog-KeepsParts :
    (io : Io) (day : Bytes) (s : Store) (r : Result (Map (List Bytes)))
    → KeepsParts day s (write_catalog_of io day s r).0
catalog-KeepsParts io day s (err e) = record { manifests = refl; parts = refl }
catalog-KeepsParts io day s (ok by_tag) =
    if-both (λ (o : Outcome). KeepsParts day s o.0) (io write_catalog) (s, some io_failure)
      (set_catalog day (sort_ids by_tag) s, none)
      (λ failed. record { manifests = refl; parts = refl })
      (λ fine. record {
        manifests = refl;
        parts =
            ap (λ (d : DayDir). d.parts)
              (day_at-set_day day (record (day_at day s.disk) { catalog = holds (sort_ids by_tag) })
                (record s { catalogs = insert day (sort_ids by_tag) s.catalogs }));
      })

-- The manifest after a merge: the inputs are gone, and the merged part is there.
abbrev pub ListsMerged : Bytes → List Bytes → Bytes → Store → Store → Type 0
ListsMerged day inputs name s s' =
    (id : Bytes)
    → mem_bytes id (ids_at day s'.manifests)
      ≡ (not (mem_bytes id inputs) && mem_bytes id (ids_at day s.manifests) || bytes_eq name id)

-- What the write of the manifest and of the catalog leaves.
pub data Announces (day : Bytes) (inputs : List Bytes) (name : Bytes) (s : Store)
    : Outcome → Type 0 where
  unwritten : (e : Error) → Announces day inputs name s (s, some e)
  written :
      (o : Outcome)
      → parts_at day o.0 ≡ parts_at day s
      → ListsMerged day inputs name s o.0
      → Announces day inputs name s o

-- Where the manifest can be written, the parts stay and it lists them, whatever becomes of the catalog.
pub replace_parts-written :
    (io : Io) (day : Bytes) (inputs : List Bytes) (name : Bytes) (s : Store)
    → io write_manifest ≡ false
    → let s' = (replace_parts io day inputs (name ∷ []) s).0 in
      (parts_at day s' ≡ parts_at day s) × ListsMerged day inputs name s s'
unfolding replace_parts
replace_parts-written io day inputs name s fine =
    let cur = ids_at day s.manifests in
    let next = keep_if (λ id. not (mem_bytes id (set_of inputs))) cur ++ name ∷ [] in
    let ids = sort_strings (dedupe [] next) in
    let s' = set_manifest day ids s in
    let o = rebuild_catalog io day s' in
    let kept =
      catalog-KeepsParts io day s' (
        add_parts_to_index_db (ids_at day s'.manifests) (metas_of (day_at day s'.disk).parts) []) in
    subst
      (λ (b : Bool).
        let s'' = (if b then (s, some io_failure) else o).0 in
        (parts_at day s'' ≡ parts_at day s) × ListsMerged day inputs name s s'')
      (sym fine)
      (
        kept.parts
            ∙ ap (λ (d : DayDir). d.parts)
                (day_at-set_day day (record (day_at day s.disk) { manifest = holds ids })
                  (record s { manifests = insert day ids s.manifests })),
        λ id.
            ap (λ (m : Map (List Bytes)). mem_bytes id (ids_at day m)) kept.manifests
            ∙ ap (mem_bytes id) (ids_at-insert day ids s.manifests)
            ∙ mem_bytes-sort_strings id (dedupe [] next)
            ∙ mem-replaced id inputs (name ∷ []) cur
            ∙ unfold mem_bytes in ground arith,
      )

pub replace_parts-Announces :
    (io : Io) (day : Bytes) (inputs : List Bytes) (name : Bytes) (s : Store)
    → Announces day inputs name s (replace_parts io day inputs (name ∷ []) s)
unfolding replace_parts
replace_parts-Announces io day inputs name s = elim (Bool-cases (io write_manifest)) [
  | inl failed ↦ rw failed (unwritten io_failure)
  | inr fine ↦
      let h = replace_parts-written io day inputs name s fine in
      written (replace_parts io day inputs (name ∷ []) s) h.0 h.1
]

-- The manifest is as it was, and so is every part that it lists.
pub record Unchanged (day : Bytes) (s s' : Store) : Type 0 where
  pub listed : ids_at day s'.manifests ≡ ids_at day s.manifests
  pub on_disk :
      (id : Bytes)
      → mem_bytes id (ids_at day s.manifests) ≡ true
      → lookup id (parts_at day s') ≡ lookup id (parts_at day s)

-- The merged part stands on disk and in the manifest, in the place of the inputs, and every other part
-- is as it was.
pub record Replaced (day : Bytes) (inputs : List Bytes) (name : Bytes) (part : Part) (s s' : Store)
    : Type 0 where
  pub listed : ListsMerged day inputs name s s'
  pub merged : lookup name (parts_at day s') ≡ some part
  pub others :
      (id : Bytes)
      → mem_bytes id inputs ≡ false
      → bytes_eq name id ≡ false
      → lookup id (parts_at day s') ≡ lookup id (parts_at day s)

-- The manifest names the merged part in the place of the inputs, and there is no such part.
pub record Lost (day : Bytes) (inputs : List Bytes) (name : Bytes) (s s' : Store) : Type 0 where
  pub listed : ListsMerged day inputs name s s'
  pub gone : lookup name (parts_at day s') ≡ none

-- The manifest names the merged part in the place of the inputs, and that part stands on disk, since its
-- removal failed.
pub record Left (io : Io) (day : Bytes) (inputs : List Bytes) (name : Bytes) (part : Part)
    (s s' : Store) : Type 0 where
  pub listed : ListsMerged day inputs name s s'
  pub kept : io (remove_part day name) ≡ true
  pub there : lookup name (parts_at day s') ≡ some part

-- How a merge ends.
pub data Ends (io : Io) (day : Bytes) (inputs : List Bytes) (name : Bytes) (r : Result Part)
    (s : Store) : Outcome → Type 0 where
  left_alone : (o : Outcome) → Unchanged day s o.0 → Ends io day inputs name r s o
  finished :
      (s' : Store) (part : Part)
      → r ≡ ok part
      → Replaced day inputs name part s s'
      → Ends io day inputs name r s (s', none)
  lost :
      (s' : Store) (e : Error)
      → Lost day inputs name s s'
      → Ends io day inputs name r s (s', some e)
  left_behind :
      (s' : Store) (e : Error) (part : Part)
      → r ≡ ok part
      → Left io day inputs name part s s'
      → Ends io day inputs name r s (s', some e)

-- What is active is in the manifest, so a fresh name is none of it.
pub active-fresh :
    (inputs ids : List Bytes) (name : Bytes)
    → mem_bytes name ids ≡ false
    → all (λ (id : Bytes). mem_bytes id ids) inputs ≡ true
    → mem_bytes name inputs ≡ false
unfolding mem_bytes
active-fresh [] ids name fresh h = refl
active-fresh (id ∷ inputs) ids name fresh h =
    ground (arith, bytes_eq_iff id name, active-fresh inputs ids name fresh)
