-- ===== src/Engine/Collected.antt =====
-- storage.go: the buffers that a flush of a partition collects, and those that its removals leave.
use marchilogs.Base.{
  All, All-keep_if, All-map, Bool, Bytes, List, Map, [], arith, bytes_eq, bytes_eq_refl, false,
  has_prefix, if-both, keep_if, keys, ltb, mem_bytes, not, refl, sym, ◌&&◌, ◌++◌, ◌||◌, ◌∷◌, ◌≡◌,
}
use marchilogs.Block.{MemBlock, rows}
use marchilogs.Flush.{insert_item, remove_items, sort_items}
use marchilogs.Flush.Durable.{remove_items_lem}
use mathlib.Core.Path.{subst}

-- The test of a flush of a day for a buffer.
abbrev pub collected : Bytes → Bytes × MemBlock → Bool
collected day item = has_prefix item.0 (day ++ 0 ∷ []) && ltb 0 (rows item.1)

mem_keys-insert_item :
    (k : Bytes) (item : Bytes × MemBlock) (items : Map MemBlock)
    → mem_bytes k (keys (insert_item item items)) ≡ (bytes_eq item.0 k || mem_bytes k (keys items))
unfolding insert_item mem_bytes
mem_keys-insert_item k item [] = refl
mem_keys-insert_item k item (first ∷ items) = ground (arith, mem_keys-insert_item k item items)

pub mem_keys-sort_items :
    (k : Bytes) (items : Map MemBlock)
    → mem_bytes k (keys (sort_items items)) ≡ mem_bytes k (keys items)
unfolding sort_items mem_bytes
mem_keys-sort_items k [] = refl
mem_keys-sort_items k (item ∷ items) =
    ground (arith, mem_keys-insert_item k item (sort_items items), mem_keys-sort_items k items)

module _ (p : Bytes × MemBlock → Bool) where
  -- The keys of the items that pass a test are among those of the items that pass.
  kept_keys :
      (items : Map MemBlock)
      → All (λ item. (p item && not (mem_bytes item.0 (keys (keep_if p items)))) ≡ false) items
  unfolding mem_bytes
  kept_keys [] = tt
  kept_keys (item ∷ items) = (
    ground (arith, bytes_eq_refl item.0),
    All-map (λ i. (p i && not (mem_bytes i.0 (keys (keep_if p items)))) ≡ false)
        (λ i. (p i && not (mem_bytes i.0 (keys (keep_if p (item ∷ items))))) ≡ false)
        (λ i h. ground (arith, h)) items (kept_keys items),
  )

  rest_fails :
      (q : Bytes × MemBlock → Bool) (items : Map MemBlock)
      → All (λ item. (p item && not (q item)) ≡ false) items
      → All (λ item. p item ≡ false) (keep_if (λ item. not (q item)) items)
  rest_fails q [] h = tt
  rest_fails q (item ∷ items) h =
      if-both (All (λ i. p i ≡ false)) (not (q item)) (item ∷ keep_if (λ i. not (q i)) items)
        (keep_if (λ i. not (q i)) items)
        (λ stays. (ground (arith, stays, h.0), rest_fails q items h.1))
        (λ goes. rest_fails q items h.1)

  -- What a removal keeps, for every property of the items.
  pub remove_items-fails :
      (items : Map MemBlock) (removed : List Bytes)
      → ((k : Bytes) → mem_bytes k removed ≡ mem_bytes k (keys (keep_if p items)))
      → All (λ item. p item ≡ false) (remove_items removed items)
  remove_items-fails items removed same =
      subst (All (λ item. p item ≡ false)) (sym (remove_items_lem removed items)) (
        rest_fails (λ item. mem_bytes item.0 removed) items
          (All-map (λ i. (p i && not (mem_bytes i.0 (keys (keep_if p items)))) ≡ false)
            (λ i. (p i && not (mem_bytes i.0 removed)) ≡ false) (λ i h. ground (arith, h, same i.0))
            items (kept_keys items)))

pub All-remove_items :
    (P : Bytes × MemBlock → Type 0) (removed : List Bytes) (items : Map MemBlock)
    → All P items
    → All P (remove_items removed items)
All-remove_items P removed items h =
    subst (All P) (sym (remove_items_lem removed items))
      (All-keep_if P (λ item. not (mem_bytes item.0 removed)) items h)
