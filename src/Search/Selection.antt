-- ===== src/Search/Selection.antt =====
-- stream_index.go: the streams of a part that a query selects, and sums over them.
use Prim.Native.Nat.{ℕ}
use marchilogs.Base.{
  if◌then◌else◌, All, Bytes, bytes_eq, bytes_eq_iff, mem_bytes, Distinct, Map, lookup, insert,
  IsMap, insert-IsMap, All-insert, All-lookup, ◌+◌, ◌≡◌, refl, ◌∙◌, Option, none, some, List, [],
  ◌∷◌, arith,
}
use marchilogs.Tags.{StreamMeta, stream_meta_of, streams_by_id, select_streams}
use marchilogs.Block.{MemBlock}
use marchilogs.Flush.{info_of}

abbrev pub meta_of : MemBlock → StreamMeta
meta_of b = stream_meta_of (info_of b)

-- A number for each block, summed over those of a stream, and over those of all streams of a list.
unfoldable pub tally : (MemBlock → ℕ) → Bytes → List MemBlock → ℕ
tally g a [] = 0
tally g a (b ∷ bs) = (if bytes_eq b.stream a then g b else 0) + tally g a bs

unfoldable pub sum_at : (Bytes → ℕ) → List Bytes → ℕ
sum_at h [] = 0
sum_at h (a ∷ names) = h a + sum_at h names

unfoldable pub sum_selected : (MemBlock → ℕ) → List Bytes → List MemBlock → ℕ
sum_selected g names [] = 0
sum_selected g names (b ∷ bs) =
    (if mem_bytes b.stream names then g b else 0) + sum_selected g names bs

sum_at-add :
    (h h' : Bytes → ℕ) (names : List Bytes)
    → sum_at (λ a. h a + h' a) names ≡ sum_at h names + sum_at h' names
unfolding sum_at
sum_at-add h h' [] = omega arith
sum_at-add h h' (a ∷ names) = omega (arith, sum_at-add h h' names)

sum_at-zero : (names : List Bytes) → sum_at (λ a. 0) names ≡ 0
unfolding sum_at
sum_at-zero [] = refl
sum_at-zero (a ∷ names) = omega (arith, sum_at-zero names)

sum_at-one :
    (x : Bytes) (n : ℕ) (names : List Bytes)
    → Distinct names
    → sum_at (λ a. if bytes_eq x a then n else 0) names ≡ (if mem_bytes x names then n else 0)
unfolding sum_at mem_bytes
sum_at-one x n [] d = refl
sum_at-one x n (a ∷ names) d =
    ground (arith, bytes_eq_iff x a, bytes_eq_iff a x, sum_at-one x n names d.1, d.0)

-- Summed stream by stream or block by block.
pub sum_at-tally :
    (g : MemBlock → ℕ) (names : List Bytes) (bs : List MemBlock)
    → Distinct names
    → sum_at (λ a. tally g a bs) names ≡ sum_selected g names bs
unfolding tally sum_selected
sum_at-tally g names [] d = sum_at-zero names
sum_at-tally g names (b ∷ bs) d =
    sum_at-add (λ a. if bytes_eq b.stream a then g b else 0) (λ a. tally g a bs) names
    ∙ omega (arith, sum_at-one b.stream (g b) names d, sum_at-tally g names bs d)

-- The entries of the streams that a search selects come from the blocks.
module _ (P : Bytes × StreamMeta → Type 0) where
  pub streams_by_id-All :
      (ss : List StreamMeta) (m : Map StreamMeta)
      → All (λ (s : StreamMeta). P (s.id, s)) ss
      → All P m
      → All P (streams_by_id ss m)
  unfolding streams_by_id
  streams_by_id-All [] m hs hm = hm
  streams_by_id-All (s ∷ ss) m hs hm =
      streams_by_id-All ss (insert s.id s m) hs.1 (All-insert P s.id s m hs.0 hm)

  select_streams-All :
      (ids : List Bytes) (by_id out : Map StreamMeta)
      → All P by_id
      → All P out
      → All P (select_streams ids by_id out)
  unfolding select_streams
  select_streams-All [] by_id out hb ho = ho
  select_streams-All (id ∷ ids) by_id out hb ho =
      select_streams-All ids by_id
        (elim (lookup id by_id) [ none ↦ out | some sm ↦ insert id sm out ]) hb
        (added (lookup id by_id) refl)
    where
      added :
          (o : Option StreamMeta)
          → lookup id by_id ≡ o
          → All P (elim o as (λ x. Map StreamMeta) [ none ↦ out | some sm ↦ insert id sm out ])
      added none e = ho
      added (some sm) e = All-insert P id sm out (All-lookup P id sm by_id hb e) ho

  pub selection-All :
      (by_id : Map StreamMeta) (c : Option (List Bytes))
      → All P by_id
      → All P (elim c as (λ x. Map StreamMeta) [
        | none ↦ by_id
        | some ids ↦ select_streams ids by_id []
      ])
  selection-All by_id none h = h
  selection-All by_id (some ids) h = select_streams-All ids by_id [] h tt

pub streams_by_id-IsMap :
    (ss : List StreamMeta) (m : Map StreamMeta) → IsMap m → IsMap (streams_by_id ss m)
unfolding streams_by_id
streams_by_id-IsMap [] m h = h
streams_by_id-IsMap (s ∷ ss) m h =
    streams_by_id-IsMap ss (insert s.id s m) (insert-IsMap s.id s m h)

select_streams-IsMap :
    (ids : List Bytes) (by_id out : Map StreamMeta)
    → IsMap out
    → IsMap (select_streams ids by_id out)
unfolding select_streams
select_streams-IsMap [] by_id out h = h
select_streams-IsMap (id ∷ ids) by_id out h =
    select_streams-IsMap ids by_id
      (elim (lookup id by_id) [ none ↦ out | some sm ↦ insert id sm out ]) (added (lookup id by_id))
  where
    added :
        (o : Option StreamMeta)
        → IsMap (elim o as (λ x. Map StreamMeta) [ none ↦ out | some sm ↦ insert id sm out ])
    added none = h
    added (some sm) = insert-IsMap id sm out h

pub selection-IsMap :
    (by_id : Map StreamMeta) (c : Option (List Bytes))
    → IsMap by_id
    → IsMap
        (elim c as (λ x. Map StreamMeta) [ none ↦ by_id | some ids ↦ select_streams ids by_id [] ])
selection-IsMap by_id none h = h
selection-IsMap by_id (some ids) h = select_streams-IsMap ids by_id [] tt
