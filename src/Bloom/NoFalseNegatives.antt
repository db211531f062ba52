-- ===== src/Bloom/NoFalseNegatives.antt =====
-- bloom.go: the filter that `buildMsgBloom` makes, and substrings of the messages.
use Prim.Native.Nat.{ℕ}
use marchilogs.Base.{
  ltb, if◌then◌else◌, Bool-cases, length, all, length-replicate, has_substring, has_substring_dest,
  split, Bytes, bytes_eq, eq_of_bytes_eq, mem_bytes, ◌+◌, ◌*◌, ◌/◌, ◌<◌, ◌≡◌, refl, ◌∙◌, inl, inr,
  Bool, true, List, [], ◌∷◌, ◌++◌, append_assoc, arith,
}
use marchilogs.Bloom.{
  bloom_bits_per_trigram, BloomFilter, new_bloom_filter, might_contain, byte_trigrams,
  might_contain_substring, count_trigrams, add_all, add_msgs, build_msg_bloom,
}
use marchilogs.Bloom.Covers.{
  Covers, Covers-refl, Covers-trans, might_contain_mono, Covers-add_all, might_contain-add_all,
}

Covers-add_msgs :
    (bf : BloomFilter) (msgs : List Bytes) → 0 < length bf → Covers bf (add_msgs bf msgs)
unfolding add_msgs
Covers-add_msgs bf [] h = Covers-refl bf
Covers-add_msgs bf (m ∷ msgs) h =
    let step = Covers-add_all bf (byte_trigrams m) h in
    Covers-trans step (Covers-add_msgs (add_all bf (byte_trigrams m)) msgs (rw step.size h))

all_mono :
    (a b : BloomFilter) (tgs : List Bytes)
    → Covers a b
    → all (might_contain a) tgs ≡ true
    → all (might_contain b) tgs ≡ true
all_mono a b [] c h = refl
all_mono a b (tg ∷ tgs) c h = ground (arith, might_contain_mono tg c, all_mono a b tgs c)

-- Every trigram of every message is in the filter that is built from the messages.
might_contain-add_msgs :
    (bf : BloomFilter) (msgs : List Bytes) (m : Bytes)
    → 0 < length bf
    → mem_bytes m msgs ≡ true
    → all (might_contain (add_msgs bf msgs)) (byte_trigrams m) ≡ true
unfolding add_msgs mem_bytes
might_contain-add_msgs bf [] m h e = cc
might_contain-add_msgs bf (x ∷ msgs) m h e =
    let next = add_all bf (byte_trigrams x) in
    let wide : 0 < length next = rw (Covers-add_all bf (byte_trigrams x) h).size h in
    elim (Bool-cases (bytes_eq x m)) [
      | inl here ↦
          all_mono next (add_msgs next msgs) (byte_trigrams m) (Covers-add_msgs next msgs wide)
            (rw (← eq_of_bytes_eq x m here) (might_contain-add_all bf (byte_trigrams x) h))
      | inr later ↦ might_contain-add_msgs next msgs m wide (ground arith)
    ]

pub new_bloom_filter-pos : (n : ℕ) → 0 < length (new_bloom_filter n)
unfolding new_bloom_filter
new_bloom_filter-pos n =
    let w = ((if ltb n 1 then 1 else n) * bloom_bits_per_trigram + 63) / 64 in
    rw (length-replicate {A = ℕ} (if ltb w 1 then 1 else w) 0) (ground arith)

-- The trigrams of a part of a message are among those of the message.
all_trigrams_suffix :
    (p : Bytes → Bool) (before s : Bytes)
    → all p (byte_trigrams (before ++ s)) ≡ true
    → all p (byte_trigrams s) ≡ true
unfolding byte_trigrams
all_trigrams_suffix p [] s h = h
all_trigrams_suffix p (a ∷ before) s h =
    all_trigrams_suffix p before s (drop_first p a (before ++ s) h)
  where
    drop_first :
        (p : Bytes → Bool) (a : ℕ) (s : Bytes)
        → all p (byte_trigrams (a ∷ s)) ≡ true
        → all p (byte_trigrams s) ≡ true
    drop_first p a [] h = refl
    drop_first p a (b ∷ []) h = refl
    drop_first p a (b ∷ c ∷ s) h = ground arith

all_trigrams_prefix :
    (p : Bytes → Bool) (s rest : Bytes)
    → all p (byte_trigrams (s ++ rest)) ≡ true
    → all p (byte_trigrams s) ≡ true
unfolding byte_trigrams
all_trigrams_prefix p [] rest h = refl
all_trigrams_prefix p (a ∷ []) rest h = refl
all_trigrams_prefix p (a ∷ b ∷ []) rest h = refl
all_trigrams_prefix p (a ∷ b ∷ c ∷ s) rest h =
    ground (arith, all_trigrams_prefix p (b ∷ c ∷ s) rest)

-- The size of a filter stays what `newBloomFilter` made it.
pub length-build :
    (msgs : List Bytes)
    → length (build_msg_bloom msgs) ≡ length (new_bloom_filter (count_trigrams msgs))
unfolding build_msg_bloom
length-build msgs =
    let start = new_bloom_filter (count_trigrams msgs) in
    (Covers-add_msgs start msgs (new_bloom_filter-pos (count_trigrams msgs))).size

-- The filter built from a block's messages never rejects a needle that one of them holds.
pub might_contain_substring-build :
    (msgs : List Bytes) (m needle : Bytes)
    → mem_bytes m msgs ≡ true
    → has_substring m needle ≡ true
    → might_contain_substring (build_msg_bloom msgs) needle ≡ true
unfolding might_contain_substring build_msg_bloom
might_contain_substring-build msgs m needle h e =
    let (before, rest, split) = has_substring_dest m needle e in
    let bf = add_msgs (new_bloom_filter (count_trigrams msgs)) msgs in
    let whole : all (might_contain bf) (byte_trigrams (before ++ (needle ++ rest))) ≡ true =
      rw (← (split ∙ append_assoc before needle rest)) (
        might_contain-add_msgs (new_bloom_filter (count_trigrams msgs)) msgs m
          (new_bloom_filter-pos (count_trigrams msgs)) h) in
    let part =
      all_trigrams_prefix (might_contain bf) needle rest
        (all_trigrams_suffix (might_contain bf) before (needle ++ rest) whole) in
    ground (arith, part)
