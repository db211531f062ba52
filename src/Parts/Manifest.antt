-- ===== src/Parts/Manifest.antt =====
-- manifest.go: the ids that the writes of a day's manifest leave in it.
use marchilogs.Base.{
  Bool, Bool-cases, Bytes, Distinct, List, Map, Result, [], ap, arith, atoi, atoi-zero_padded,
  bytes_eq, bytes_eq_iff, bytes_eq_refl, eq_of_bytes_eq, err, false, inl, inr, keep_if, mem_bytes,
  mem_bytes-append, mem_bytes-keep_if, mem_bytes-set_of, mem_bytes-sort_strings, not, ok,
  ok_of_chain, pos, refl, set_of, some, sort_strings, sort_strings-Distinct, sym, true, zero_padded,
  ℕ, ℤ, ◌&&◌, ◌++◌, ◌+◌, ◌<◌, ◌^◌, ◌||◌, ◌∙◌, ◌∷◌, ◌≡◌, ◌≤ℤ◌,
}
use marchilogs.Parts.{
  Day, add_part_to_manifest, add_parts_to_index_db, dedupe, larger_id, max_part_id,
  max_part_id_from, rebuild_day_index_db, replace_manifest_parts,
}
use marchilogs.Tags.{PartMeta, sort_ids}
use mathlib.Core.Path.{subst}

mem-dedupe :
    (a : Bytes) (seen ids : List Bytes)
    → mem_bytes a (dedupe seen ids) ≡ (not (mem_bytes a seen) && mem_bytes a ids)
unfolding dedupe mem_bytes
mem-dedupe a seen [] = ground arith
mem-dedupe a seen (id ∷ ids) =
    ground (arith, mem-dedupe a seen ids, mem-dedupe a (id ∷ seen) ids, bytes_eq_iff id a)

dedupe-Distinct : (seen ids : List Bytes) → Distinct (dedupe seen ids)
unfolding dedupe mem_bytes
dedupe-Distinct seen [] = tt
dedupe-Distinct seen (id ∷ ids) = ground (
  arith,
  dedupe-Distinct seen ids,
  dedupe-Distinct (id ∷ seen) ids,
  mem-dedupe id (id ∷ seen) ids,
  bytes_eq_refl id,
)

rebuilt-parts :
    (metas : Map PartMeta) (d out : Day)
    → rebuild_day_index_db metas d ≡ ok out
    → out.parts ≡ d.parts
unfolding rebuild_day_index_db
rebuilt-parts metas d out h =
    let (by_tag, added, made) =
      ok_of_chain (add_parts_to_index_db d.parts metas [])
        (λ (m : Map (List Bytes)). ok (record d { catalog = some (sort_ids m) })) out h in
    ground (arith, made)

append_one-Distinct :
    (ids : List Bytes) (id : Bytes)
    → Distinct ids
    → mem_bytes id ids ≡ false
    → Distinct (ids ++ id ∷ [])
unfolding mem_bytes
append_one-Distinct [] id d h = (refl, tt)
append_one-Distinct (x ∷ ids) id d h = ground (
  arith,
  d,
  append_one-Distinct ids id,
  mem_bytes-append x ids (id ∷ []),
  bytes_eq_iff id x,
  bytes_eq_iff x id,
)

-- The ids of a manifest that is written: each once, and those that `p` says.
abbrev HasIds : List Bytes → (Bytes → Bool) → Type 0
HasIds ids p = Distinct ids × ((a : Bytes) → mem_bytes a ids ≡ p a)

sorted-HasIds :
    (metas : Map PartMeta) (d out : Day) (ids : List Bytes) (p : Bytes → Bool)
    → rebuild_day_index_db metas (record d { parts = sort_strings ids }) ≡ ok out
    → HasIds ids p
    → HasIds out.parts p
sorted-HasIds metas d out ids p h (hd, hm) =
    subst (λ (ps : List Bytes). HasIds ps p)
      (sym (rebuilt-parts metas (record d { parts = sort_strings ids }) out h))
      (sort_strings-Distinct ids hd, λ a. mem_bytes-sort_strings a ids ∙ hm a)

-- After an `addPartToManifestLocked` that succeeds the manifest has the new part and those it had, no
-- id twice, if none was there twice.
pub parts-add_part_to_manifest :
    (metas : Map PartMeta) (part : Bytes) (d out : Day)
    → Distinct d.parts
    → add_part_to_manifest metas part d ≡ ok out
    → Distinct out.parts
      × ((a : Bytes) → mem_bytes a out.parts ≡ (bytes_eq part a || mem_bytes a d.parts))
unfolding add_part_to_manifest
parts-add_part_to_manifest metas part d out hd h = elim (Bool-cases (mem_bytes part d.parts)) [
  | inl there ↦
      subst (λ (o : Day). HasIds o.parts (λ a. bytes_eq part a || mem_bytes a d.parts))
        (same d out (ground (arith, h, there)))
        (hd, λ a. ground (arith, there, bytes_eq_iff part a))
  | inr new ↦
      sorted-HasIds metas d out (d.parts ++ part ∷ []) (λ a. bytes_eq part a || mem_bytes a d.parts)
        (ground (arith, h, new))
        (
          append_one-Distinct d.parts part hd new,
          λ a. unfold mem_bytes in ground (arith, mem_bytes-append a d.parts (part ∷ [])),
        )
]
  where
    same : (d out : Day) → ok d ≡ ok out → d ≡ out
    same d out e = ap (λ (r : Result Day). elim r [ err x ↦ d | ok o ↦ o ]) e

-- What the manifest holds once some ids are removed and others added.
pub mem-replaced :
    (a : Bytes) (remove_ids add_ids cur : List Bytes)
    → mem_bytes a
        (dedupe [] (keep_if (λ id. not (mem_bytes id (set_of remove_ids))) cur ++ add_ids))
      ≡ (not (mem_bytes a remove_ids) && mem_bytes a cur || mem_bytes a add_ids)
mem-replaced a remove_ids add_ids cur =
    let keeps = λ (id : Bytes). not (mem_bytes id (set_of remove_ids)) in
    mem-dedupe a [] (keep_if keeps cur ++ add_ids)
    ∙ unfold mem_bytes in
      ground (
        arith,
        mem_bytes-append a (keep_if keeps cur) add_ids,
        mem_bytes-keep_if keeps a cur,
        mem_bytes-set_of a remove_ids,
      )

-- After a `replaceManifestPartsLocked` that succeeds the manifest has the added parts and those of before that were
-- not to be removed, no id twice.
pub parts-replace_manifest_parts :
    (metas : Map PartMeta) (remove_ids add_ids : List Bytes) (d out : Day)
    → replace_manifest_parts metas remove_ids add_ids d ≡ ok out
    → Distinct out.parts
      × ((a : Bytes)
          → mem_bytes a out.parts
            ≡ (not (mem_bytes a remove_ids) && mem_bytes a d.parts || mem_bytes a add_ids))
unfolding replace_manifest_parts
parts-replace_manifest_parts metas remove_ids add_ids d out h =
    let keeps = λ (id : Bytes). not (mem_bytes id (set_of remove_ids)) in
    let next = keep_if keeps d.parts ++ add_ids in
    sorted-HasIds metas d out (dedupe [] next)
      (λ a. not (mem_bytes a remove_ids) && mem_bytes a d.parts || mem_bytes a add_ids) h
      (dedupe-Distinct [] next, λ a. mem-replaced a remove_ids add_ids d.parts)

pub le_trans : (a b c : ℤ) → a ≤ℤ b → b ≤ℤ c → a ≤ℤ c
le_trans a b c h h' = omega arith

larger_id-le : (m : ℤ) (r : Result ℤ) → m ≤ℤ larger_id m r
larger_id-le m (err e) = ground arith
larger_id-le m (ok n) = ground arith

number-le-larger_id : (m n : ℤ) (r : Result ℤ) → r ≡ ok n → n ≤ℤ larger_id m r
number-le-larger_id m n (err e) h = ground (arith, h)
number-le-larger_id m n (ok k) h = ground (arith, h)

pub max_part_id_from-le : (m : ℤ) (ids : List Bytes) → m ≤ℤ max_part_id_from m ids
unfolding max_part_id_from
max_part_id_from-le m [] = ground arith
max_part_id_from-le m (id ∷ ids) =
    let m' = larger_id m (atoi id) in
    let le = larger_id-le m (atoi id) in
    let le' = max_part_id_from-le m' ids in le_trans m m' (max_part_id_from m' ids) le le'

number-le-max_part_id :
    (m : ℤ) (ids : List Bytes) (id : Bytes) (n : ℤ)
    → mem_bytes id ids ≡ true
    → atoi id ≡ ok n
    → n ≤ℤ max_part_id_from m ids
unfolding max_part_id_from mem_bytes
number-le-max_part_id m [] id n h hn = ground (arith, h)
number-le-max_part_id m (id' ∷ ids) id n h hn =
    let m' = larger_id m (atoi id') in
    elim (Bool-cases (bytes_eq id' id)) [
      | inl here ↦
          le_trans n m' (max_part_id_from m' ids)
            (number-le-larger_id m n (atoi id') (ap atoi (eq_of_bytes_eq id' id here) ∙ hn))
            (max_part_id_from-le m' ids)
      | inr later ↦ number-le-max_part_id m' ids id n (ground (arith, h, later)) hn
    ]

-- The id of the next part, `fmt.Sprintf("%06d", n+1)`, is not among the ids whose greatest number
-- is at most `n`, for `n + 1` below 2^63.
pub next_part_id_fresh :
    (ids : List Bytes) (n : ℕ)
    → max_part_id ids ≤ℤ pos n
    → n + 1 < 2 ^ 63
    → mem_bytes (zero_padded 6 (n + 1)) ids ≡ false
next_part_id_fresh ids n h hn = elim (Bool-cases (mem_bytes (zero_padded 6 (n + 1)) ids)) [
  | inr fresh ↦ fresh
  | inl used ↦
      let le =
        number-le-max_part_id (pos 0) ids (zero_padded 6 (n + 1)) (pos (n + 1)) used
          (atoi-zero_padded 6 (n + 1) hn) in
      ground (arith, le, h)
]
