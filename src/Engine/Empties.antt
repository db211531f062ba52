-- ===== src/Engine/Empties.antt =====
-- storage.go: what a `Flush` that succeeds leaves in the buffers.
use marchilogs.Base.{
  All, All-both, All-map, Bool-cases, Bytes, List, Map, Option, [], any, ap, arith, bytes_eq,
  bytes_eq_refl, cut-append, eq_of_bytes_eq, false, has_byte, has_prefix, inl, inr, keep_if, keys,
  ltb, map, mem_bytes, mem_bytes-set_of, none, refl, set_of, some, sym, true, ℕ, ◌++◌, ◌∙◌, ◌∷◌,
  ◌≡◌,
}
use marchilogs.Block.{MemBlock, rows}
use marchilogs.Engine.{flush, flush_partitions, ◌if_ok◌}
use marchilogs.Engine.Collected.{
  All-remove_items, collected, mem_keys-sort_items, remove_items-fails,
}
use marchilogs.Engine.Removes.{flush_partition-Removes}
use marchilogs.Flush.{Io, Outcome, flush_items, flush_partition, remove_items}
use marchilogs.Store.{Store, buf_key, partition_of}
use marchilogs.Wal.{RecordCodec}
use mathlib.Core.Path.{subst}

module _ (io : Io) (codec : RecordCodec) where
  -- What holds of the buffers after some flushes that succeed.
  Leaves : List Bytes → (Bytes × MemBlock → Type 0) → Outcome → Type 0
  Leaves days P o =
      o.1 ≡ none
      → All P o.0.buffers × All (λ item. any (λ day. collected day item) days ≡ false) o.0.buffers

  every : (items : Map MemBlock) → All (λ (item : Bytes × MemBlock). false ≡ false) items
  every [] = tt
  every (item ∷ items) = (refl, every items)

  -- A flush of a day and those of further days.
  further-Leaves :
      (day : Bytes) (days : List Bytes) (P : Bytes × MemBlock → Type 0) (o : Outcome)
      → (o.1 ≡ none → All (λ item. P item × (collected day item ≡ false)) o.0.buffers)
      → ((s : Store)
          → All (λ item. P item × (collected day item ≡ false)) s.buffers
          → Leaves days
              (λ item. P item × (collected day item ≡ false))
              (flush_partitions io codec days s))
      → Leaves (day ∷ days) P (o if_ok λ s. flush_partitions io codec days s)
  unfolding Leaves
  further-Leaves day days P (s, some e) first later h = cc
  further-Leaves day days P (s, none) first later h =
      let both = λ (item : Bytes × MemBlock). P item × (collected day item ≡ false) in
      let last = flush_partitions io codec days s in
      let (kept, flushed) = later s (first refl) h in
      (
        All-map both P (λ item hi. hi.0) last.0.buffers kept,
        All-map (λ item. both item × (any (λ d. collected d item) days ≡ false))
            (λ item. any (λ d. collected d item) (day ∷ days) ≡ false)
            (λ item hi. ground (arith, hi.0.1, hi.1)) last.0.buffers
            (All-both both (λ item. any (λ d. collected d item) days ≡ false) last.0.buffers kept
              flushed),
      )

  flush_partitions-Leaves :
      (days : List Bytes) (P : Bytes × MemBlock → Type 0) (s : Store)
      → All P s.buffers
      → Leaves days P (flush_partitions io codec days s)
  unfolding Leaves flush_partitions
  flush_partitions-Leaves [] P s hp = λ h. (hp, every s.buffers)
  flush_partitions-Leaves (day ∷ days) P s hp =
      let both = λ (item : Bytes × MemBlock). P item × (collected day item ≡ false) in
      let removed = keys (flush_items day s.buffers) in
      further-Leaves day days P (flush_partition io codec day s)
        (λ h. subst (All both) (sym (flush_partition-Removes io codec day s h)) (
          All-both P (λ item. collected day item ≡ false) (remove_items removed s.buffers)
            (All-remove_items P removed s.buffers hp)
            (remove_items-fails (collected day) s.buffers removed (λ k.
              unfold flush_items in mem_keys-sort_items k (keep_if (collected day) s.buffers)))))
        (λ s' hs. flush_partitions-Leaves days both s' hs)

-- A key that `bufKey` makes of a day's name.
abbrev pub IsKey : Bytes → Type 0
IsKey key =
    (partition : Bytes) × (stream : Bytes) × (key ≡ buf_key partition stream)
    × (has_byte 0 partition ≡ false)

-- The test of the flush of its own day for a buffer.
IsFound : List Bytes → Bytes × MemBlock → Type 0
IsFound days item =
    (mem_bytes (partition_of item.0) days ≡ true)
    × (has_prefix item.0 (partition_of item.0 ++ 0 ∷ []) ≡ true)

partition_of-buf_key :
    (partition stream : Bytes)
    → has_byte 0 partition ≡ false
    → partition_of (buf_key partition stream) ≡ partition
partition_of-buf_key partition stream h =
    ap (λ (o : Option (Bytes × Bytes)). elim o [ none ↦ buf_key partition stream | some kv ↦ kv.0 ])
      (cut-append 0 partition stream h)

has_prefix-buf_key :
    (partition stream : Bytes) → has_prefix (buf_key partition stream) (partition ++ 0 ∷ []) ≡ true
unfolding has_prefix
has_prefix-buf_key [] stream = refl
has_prefix-buf_key (c ∷ partition) stream = ground (arith, has_prefix-buf_key partition stream)

-- The day of each buffer is among those that a `Flush` collects.
All-IsFound :
    (days : List Bytes) (items : Map MemBlock)
    → All (λ (item : Bytes × MemBlock). IsKey item.0) items
    → ((d : Bytes) → mem_bytes d (map partition_of (keys items)) ≡ true → mem_bytes d days ≡ true)
    → All (IsFound days) items
unfolding IsFound mem_bytes
All-IsFound days [] h among = tt
All-IsFound days ((key, b) ∷ items) (hk, h) among =
    let (partition, stream, made, clean) = hk in
    let named : partition_of key ≡ partition =
      ap partition_of made ∙ partition_of-buf_key partition stream clean in
    (
      (
        among (partition_of key) (ground (arith, bytes_eq_refl (partition_of key))),
        subst (λ (k : Bytes). has_prefix k (partition_of key ++ 0 ∷ []) ≡ true) (sym made)
            (subst (λ (d : Bytes). has_prefix (buf_key partition stream) (d ++ 0 ∷ []) ≡ true)
              (sym named) (has_prefix-buf_key partition stream)),
      ),
      All-IsFound days items h (λ d hd. among d (ground (arith, hd))),
    )

flushed_day :
    (item : Bytes × MemBlock) (d : Bytes) (days : List Bytes)
    → mem_bytes d days ≡ true
    → any (λ day. collected day item) days ≡ false
    → collected d item ≡ false
unfolding mem_bytes
flushed_day item d [] h ha = cc
flushed_day item d (day ∷ days) h ha = elim (Bool-cases (bytes_eq day d)) [
  | inl here ↦
      subst (λ (k : Bytes). collected k item ≡ false) (eq_of_bytes_eq day d here)
        (ground (arith, ha))
  | inr later ↦ flushed_day item d days (ground (arith, h, later)) (ground (arith, ha))
]

-- A `Flush` that succeeds leaves no buffer with a row, where the keys are those of `bufKey` for names
-- of days without a zero byte.
pub flush-Empties :
    (io : Io) (codec : RecordCodec) (s : Store)
    → All (λ (item : Bytes × MemBlock). IsKey item.0) s.buffers
    → (flush io codec s).1 ≡ none
    → All (λ (item : Bytes × MemBlock). rows item.1 ≡ 0) (flush io codec s).0.buffers
unfolding flush Leaves IsFound
flush-Empties io codec s hk h =
    let days = set_of (map partition_of (keys s.buffers)) in
    let found =
      All-IsFound days s.buffers hk
        (λ d hd. mem_bytes-set_of d (map partition_of (keys s.buffers)) ∙ hd) in
    let out = flush_partitions io codec days s in
    let (kept, flushed) = flush_partitions-Leaves io codec days (IsFound days) s found h in
    All-map (λ item. IsFound days item × (any (λ day. collected day item) days ≡ false))
      (λ item. rows item.1 ≡ 0)
      (λ item hi. no_rows item hi.0.1 (flushed_day item (partition_of item.0) days hi.0.0 hi.1))
      out.0.buffers
      (All-both (IsFound days) (λ item. any (λ day. collected day item) days ≡ false) out.0.buffers
        kept flushed)
  where
    no_count : (n : ℕ) → ltb 0 n ≡ false → n ≡ 0
    no_count n e = ground (arith, e)

    no_rows :
        (item : Bytes × MemBlock)
        → has_prefix item.0 (partition_of item.0 ++ 0 ∷ []) ≡ true
        → collected (partition_of item.0) item ≡ false
        → rows item.1 ≡ 0
    no_rows item hp hc = no_count (rows item.1) (ground (arith, hp, hc))
