-- ===== src/Parts/Catalog.antt =====
-- indexdb.go: which parts the catalog of a day lists for a tag.
use marchilogs.Base.{
  Bool-cases, Option-cases, Bytes, bytes_eq, bytes_eq_refl, bytes_eq_iff, mem_bytes, Map, lookup,
  ok, ◌≡◌, inl, inr, Bool, true, false, ◌&&◌, ◌||◌, none, some, List, [], ◌∷◌, arith,
}
use marchilogs.Tags.{PartMeta, ids_at}
use marchilogs.Tags.Match.{mem-append_id}
use marchilogs.Parts.{
  catalog_tag, catalog_tags, part_tag_keys, add_part_to_index_db, add_parts_to_index_db,
}

mem-catalog_tag :
    (p part tk tk' : Bytes) (by_tag : Map (List Bytes))
    → mem_bytes p (ids_at tk (catalog_tag part tk' by_tag))
      ≡ ((bytes_eq tk' tk && bytes_eq part p) || mem_bytes p (ids_at tk by_tag))
mem-catalog_tag p part tk tk' by_tag =
    ground (arith, mem-append_id p part tk tk' by_tag, bytes_eq_iff tk' tk, bytes_eq_iff part p)

still_seen :
    (part tk : Bytes) (seen : List Bytes) (by_tag : Map (List Bytes))
    → ((t : Bytes) → mem_bytes t seen ≡ true → mem_bytes part (ids_at t by_tag) ≡ true)
    → (t : Bytes) → mem_bytes t (tk ∷ seen) ≡ true
    → mem_bytes part (ids_at t (catalog_tag part tk by_tag)) ≡ true
unfolding mem_bytes
still_seen part tk seen by_tag h t m = elim (Bool-cases (mem_bytes t seen)) [
  | inl old ↦ ground (arith, mem-catalog_tag part part t tk by_tag, h t old)
  | inr new ↦ ground (arith, mem-catalog_tag part part t tk by_tag, bytes_eq_refl part)
]

-- A tag key that was seen already lists the part.
mem-catalog_tags :
    (p part tk : Bytes) (tks seen : List Bytes) (by_tag : Map (List Bytes))
    → ((t : Bytes) → mem_bytes t seen ≡ true → mem_bytes part (ids_at t by_tag) ≡ true)
    → mem_bytes p (ids_at tk (catalog_tags part tks seen by_tag))
      ≡ ((bytes_eq part p && mem_bytes tk tks) || mem_bytes p (ids_at tk by_tag))
unfolding catalog_tags mem_bytes
mem-catalog_tags p part tk [] seen by_tag h = ground arith
mem-catalog_tags p part tk (t ∷ tks) seen by_tag h = elim (Bool-cases (mem_bytes t seen)) [
  | inl again ↦ rw again (
      ground (
        arith,
        mem-catalog_tags p part tk tks seen by_tag h,
        h t again,
        bytes_eq_iff t tk,
        bytes_eq_iff part p,
      ))
  | inr new ↦
      let more = catalog_tag part t by_tag in
      rw new (
        ground (
          arith,
          mem-catalog_tags p part tk tks (t ∷ seen) more (still_seen part t seen by_tag h),
          mem-catalog_tag p part tk t by_tag,
        ))
]

mem-add_part :
    (p part tk : Bytes) (meta : PartMeta) (by_tag : Map (List Bytes))
    → mem_bytes p (ids_at tk (add_part_to_index_db by_tag part meta))
      ≡ ((bytes_eq part p && mem_bytes tk (part_tag_keys meta)) || mem_bytes p (ids_at tk by_tag))
unfolding add_part_to_index_db
mem-add_part p part tk meta by_tag =
    mem-catalog_tags p part tk (part_tag_keys meta) [] by_tag
      (λ t h. unfold mem_bytes in ground arith)

-- A part that has the tag.
abbrev pub part_has_tag : Bytes → Bytes → Map PartMeta → Bool
part_has_tag p tk metas = elim (lookup p metas) [
  | none ↦ false
  | some meta ↦ mem_bytes tk (part_tag_keys meta)
]

pub mem-add_parts :
    (p tk : Bytes) (parts : List Bytes) (metas : Map PartMeta) (by_tag out : Map (List Bytes))
    → add_parts_to_index_db parts metas by_tag ≡ ok out
    → mem_bytes p (ids_at tk out)
      ≡ ((mem_bytes p parts && part_has_tag p tk metas) || mem_bytes p (ids_at tk by_tag))
unfolding add_parts_to_index_db mem_bytes
mem-add_parts p tk [] metas by_tag out h = ground (arith, h)
mem-add_parts p tk (part ∷ parts) metas by_tag out h = elim (Option-cases (lookup part metas)) [
  | inl missing ↦ ground (arith, h, missing)
  | inr (meta, found) ↦
      let more = add_part_to_index_db by_tag part meta in
      ground (
        arith,
        found,
        bytes_eq_iff part p,
        mem-add_part p part tk meta by_tag,
        mem-add_parts p tk parts metas more out (ground (arith, h, found)),
      )
]
