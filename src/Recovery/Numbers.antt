-- ===== src/Recovery/Numbers.antt =====
-- storage.go: `loadPartSeq` bounds the numbers of the parts of each day.
use marchilogs.Base.{
  Bool, Bool-cases, Bytes, List, Map, Option, Result, [], ap, arith, atoi, bytes_eq, eq_of_bytes_eq,
  err, false, if-both, if◌then◌else◌, inl, inr, insert, keep_if, keys, lookup, lookup-insert, ltb_ℤ,
  negsuc, none, ok, pos, refl, some, sym, true, ℕ, ℤ, ◌∙◌, ◌∷◌, ◌≡◌, ◌≤ℤ◌, ◌≤◌,
}
use marchilogs.Deletes.{seq_at}
use marchilogs.Parts.{is_published_part_dir, larger_id, max_part_id, max_part_id_from}
use marchilogs.Parts.Manifest.{le_trans, max_part_id_from-le}
use marchilogs.Recovery.{seq_from_dirs, seq_from_manifests, to_nat}
use marchilogs.Store.{DayDir, day_at, empty_day}
use marchilogs.Tags.{ids_at}
use mathlib.Core.Path.{subst}

max_part_id_from_mono :
    (m n : ℤ) (ids : List Bytes) → m ≤ℤ n → max_part_id_from m ids ≤ℤ max_part_id_from n ids
unfolding max_part_id_from
max_part_id_from_mono m n [] h = h
max_part_id_from_mono m n (id ∷ ids) h =
    max_part_id_from_mono (larger_id m (atoi id)) (larger_id n (atoi id)) ids (larger (atoi id))
  where
    larger : (r : Result ℤ) → larger_id m r ≤ℤ larger_id n r
    larger (err e) = h
    larger (ok k) = ground (arith, h)

le-to_nat : (n : ℕ) (z : ℤ) → pos n ≤ℤ z → z ≤ℤ pos (to_nat z)
le-to_nat n (pos k) h = omega arith
le-to_nat n (negsuc k) h = omega arith

-- A number that is not below those of the ids.
abbrev pub Bounds : ℕ → List Bytes → Type 0
Bounds n ids = max_part_id ids ≤ℤ pos n

to_nat-Bounds : (n : ℕ) (ids : List Bytes) → Bounds (to_nat (max_part_id_from (pos n) ids)) ids
to_nat-Bounds n ids =
    let m = max_part_id_from (pos n) ids in
    le_trans (max_part_id ids) m (pos (to_nat m))
      (max_part_id_from_mono (pos 0) (pos n) ids (omega arith))
      (le-to_nat n m (max_part_id_from-le (pos n) ids))

le-to_nat-max : (n : ℕ) (ids : List Bytes) → n ≤ to_nat (max_part_id_from (pos n) ids)
le-to_nat-max n ids =
    let m = max_part_id_from (pos n) ids in
    le_of_pos n (to_nat m) (
      le_trans (pos n) m (pos (to_nat m)) (max_part_id_from-le (pos n) ids)
        (le-to_nat n m (max_part_id_from-le (pos n) ids)))
  where
    le_of_pos : (a b : ℕ) → pos a ≤ℤ pos b → a ≤ b
    le_of_pos a b h = omega arith

pub Bounds-le : (n m : ℕ) (ids : List Bytes) → n ≤ m → Bounds n ids → Bounds m ids
Bounds-le n m ids h hb = le_trans (max_part_id ids) (pos n) (pos m) hb (omega arith)

seq_at-insert-same :
    (day j : Bytes) (n : ℕ) (seqs : Map ℕ)
    → bytes_eq day j ≡ true
    → seq_at j (insert day n seqs) ≡ n
seq_at-insert-same day j n seqs e =
    ap (λ (o : Option ℕ). elim o [ none ↦ 0 | some k ↦ k ])
      (lookup-insert day j n seqs ∙ ap (λ b. if b then some n else lookup j seqs) e)

seq_at-insert-other :
    (day j : Bytes) (n : ℕ) (seqs : Map ℕ)
    → bytes_eq day j ≡ false
    → seq_at j (insert day n seqs) ≡ seq_at j seqs
seq_at-insert-other day j n seqs e =
    ap (λ (o : Option ℕ). elim o [ none ↦ 0 | some k ↦ k ])
      (lookup-insert day j n seqs ∙ ap (λ b. if b then some n else lookup j seqs) e)

-- A number of a day that grows stays above what it was for every day.
seq_at-le-insert :
    (day j : Bytes) (n : ℕ) (seqs : Map ℕ)
    → seq_at day seqs ≤ n
    → seq_at j seqs ≤ seq_at j (insert day n seqs)
seq_at-le-insert day j n seqs h = elim (Bool-cases (bytes_eq day j)) [
  | inl same ↦
      let h' = subst (λ (k : Bytes). seq_at k seqs ≤ n) (eq_of_bytes_eq day j same) h in
      omega (arith, h', seq_at-insert-same day j n seqs same)
  | inr other ↦ omega (arith, seq_at-insert-other day j n seqs other)
]

le_trans_nat : (a b c : ℕ) → a ≤ b → b ≤ c → a ≤ c
le_trans_nat a b c h h' = omega arith

abbrev pub published : DayDir → List Bytes
published dir = keep_if (λ name. is_published_part_dir name) (keys dir.parts)

pub seq_from_dirs-le :
    (disk : Map DayDir) (seqs : Map ℕ) (j : Bytes)
    → seq_at j seqs ≤ seq_at j (seq_from_dirs disk seqs)
unfolding seq_from_dirs
seq_from_dirs-le [] seqs j = omega arith
seq_from_dirs-le ((day, dir) ∷ disk) seqs j =
    let n = to_nat (max_part_id_from (pos (seq_at day seqs)) (published dir)) in
    le_trans_nat (seq_at j seqs) (seq_at j (insert day n seqs))
      (seq_at j (seq_from_dirs disk (insert day n seqs)))
      (seq_at-le-insert day j n seqs (le-to_nat-max (seq_at day seqs) (published dir)))
      (seq_from_dirs-le disk (insert day n seqs) j)

pub seq_from_dirs-Bounds :
    (disk : Map DayDir) (seqs : Map ℕ) (j : Bytes)
    → Bounds (seq_at j (seq_from_dirs disk seqs)) (published (day_at j disk))
unfolding seq_from_dirs lookup max_part_id_from
seq_from_dirs-Bounds [] seqs j = omega arith
seq_from_dirs-Bounds ((day, dir) ∷ disk) seqs j =
    let n = to_nat (max_part_id_from (pos (seq_at day seqs)) (published dir)) in
    let seqs' = insert day n seqs in
    by_key (seq_at j (seq_from_dirs disk seqs')) (bytes_eq day j)
      (λ same.
        Bounds-le n (seq_at j (seq_from_dirs disk seqs')) (published dir)
          (subst (λ k. k ≤ seq_at j (seq_from_dirs disk seqs'))
            (seq_at-insert-same day j n seqs same) (seq_from_dirs-le disk seqs' j))
          (to_nat-Bounds (seq_at day seqs) (published dir)))
      (seq_from_dirs-Bounds disk seqs' j)
  where
    by_key :
        (m : ℕ) (b : Bool)
        → (b ≡ true → Bounds m (published dir))
        → Bounds m (published (day_at j disk))
        → Bounds m (
            published (elim (if b then some dir else lookup j disk) as (λ o. DayDir) [
              | none ↦ empty_day
              | some d ↦ d
            ]))
    by_key m true here later = here refl
    by_key m false here later = later

-- The body of the first loop of `loadPartSeq`.
raised : Bytes → List Bytes → Map ℕ → Map ℕ
raised day ids seqs =
    if ltb_ℤ (pos (seq_at day seqs)) (max_part_id ids)
    then insert day (to_nat (max_part_id ids)) seqs
    else seqs

raised-le :
    (day j : Bytes) (ids : List Bytes) (seqs : Map ℕ)
    → seq_at j seqs ≤ seq_at j (raised day ids seqs)
unfolding raised
raised-le day j ids seqs =
    if-both (λ (m : Map ℕ). seq_at j seqs ≤ seq_at j m)
      (ltb_ℤ (pos (seq_at day seqs)) (max_part_id ids)) (insert day (to_nat (max_part_id ids)) seqs)
      seqs
      (λ larger.
        seq_at-le-insert day j (to_nat (max_part_id ids)) seqs
          (below (seq_at day seqs) (max_part_id ids) larger))
      (λ enough. omega arith)
  where
    below : (n : ℕ) (z : ℤ) → ltb_ℤ (pos n) z ≡ true → n ≤ to_nat z
    below n (pos k) h = ground (arith, h)
    below n (negsuc k) h = ground (arith, h)

raised-Bounds :
    (day j : Bytes) (ids : List Bytes) (seqs : Map ℕ)
    → bytes_eq day j ≡ true
    → Bounds (seq_at j (raised day ids seqs)) ids
unfolding raised
raised-Bounds day j ids seqs e =
    if-both (λ (m : Map ℕ). Bounds (seq_at j m) ids)
      (ltb_ℤ (pos (seq_at day seqs)) (max_part_id ids)) (insert day (to_nat (max_part_id ids)) seqs)
      seqs
      (λ larger.
        subst (λ n. Bounds n ids) (sym (seq_at-insert-same day j (to_nat (max_part_id ids)) seqs e))
          (to_nat-Bounds 0 ids))
      (λ enough.
        subst (λ (k : Bytes). Bounds (seq_at k seqs) ids) (eq_of_bytes_eq day j e)
          (ground (arith, enough)))

seq_from_manifests-le :
    (manifests : Map (List Bytes)) (seqs : Map ℕ) (j : Bytes)
    → seq_at j seqs ≤ seq_at j (seq_from_manifests manifests seqs)
unfolding seq_from_manifests raised
seq_from_manifests-le [] seqs j = omega arith
seq_from_manifests-le ((day, ids) ∷ manifests) seqs j =
    le_trans_nat (seq_at j seqs) (seq_at j (raised day ids seqs))
      (seq_at j (seq_from_manifests manifests (raised day ids seqs))) (raised-le day j ids seqs)
      (seq_from_manifests-le manifests (raised day ids seqs) j)

pub seq_from_manifests-Bounds :
    (manifests : Map (List Bytes)) (seqs : Map ℕ) (j : Bytes)
    → Bounds (seq_at j (seq_from_manifests manifests seqs)) (ids_at j manifests)
unfolding seq_from_manifests raised lookup max_part_id_from
seq_from_manifests-Bounds [] seqs j = omega arith
seq_from_manifests-Bounds ((day, ids) ∷ manifests) seqs j =
    let seqs' = raised day ids seqs in
    let m = seq_at j (seq_from_manifests manifests seqs') in
    by_key m (bytes_eq day j)
      (λ same.
        Bounds-le (seq_at j seqs') m ids (seq_from_manifests-le manifests seqs' j)
          (raised-Bounds day j ids seqs same))
      (seq_from_manifests-Bounds manifests seqs' j)
  where
    by_key :
        (m : ℕ) (b : Bool)
        → (b ≡ true → Bounds m ids)
        → Bounds m (ids_at j manifests)
        → Bounds m (elim (if b then some ids else lookup j manifests) as (λ o. List Bytes) [
          | none ↦ []
          | some l ↦ l
        ])
    by_key m true here later = here refl
    by_key m false here later = later
