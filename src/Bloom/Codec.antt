-- ===== src/Bloom/Codec.antt =====
-- bloom.go: the bytes of a filter, `marshal` and `unmarshalBloom`.
use Prim.Native.Nat.{ℕ}
use native.Mathlib.Nat.{pow-le-pow_right}
use marchilogs.Base.{
  ltb, if◌then◌else◌, length, get_or, set, replicate, All, length-append, length-replicate,
  take-append, drop-append, bit_or-lt, has_substring, Bytes, mem_bytes, ok, put_le, length-put_le,
  get_le-put_le, zero, suc, ◌+◌, ◌-◌, ◌*◌, ◌/◌, ◌%◌, ◌^◌, ◌≤◌, ◌<◌, bit_or, ◌≡◌, refl, true, none,
  some, List, [], ◌∷◌, arith,
}
use marchilogs.Bloom.{
  bloom_hashes, bloom_bits_per_trigram, fnv64a, BloomFilter, new_bloom_filter, n_bits, bit_index,
  set_bit, add_hashes, add, byte_trigrams, count_trigrams, add_all, add_msgs, build_msg_bloom,
  put_words, marshal, get_words, unmarshal_bloom, block_might_contain_msg,
}
use marchilogs.Bloom.NoFalseNegatives.{
  new_bloom_filter-pos, length-build, might_contain_substring-build,
}

abbrev pub IsWord : ℕ → Type 0
IsWord w = w < 2 ^ 64

get_words-put_words : (ws : BloomFilter) → All IsWord ws → get_words (length ws) (put_words ws) ≡ ws
unfolding get_words put_words
get_words-put_words [] h = refl
get_words-put_words (w ∷ ws) h = ground (
  arith,
  take-append (put_le 8 w) (put_words ws) 8 (length-put_le 8 w),
  drop-append (put_le 8 w) (put_words ws) 8 (length-put_le 8 w),
  get_le-put_le 8 w h.0,
  get_words-put_words ws h.1,
)

length-put_words : (ws : BloomFilter) → length (put_words ws) ≡ 8 * length ws
unfolding put_words
length-put_words [] = omega arith
length-put_words (w ∷ ws) =
    omega (arith, length-append (put_le 8 w) (put_words ws), length-put_le 8 w, length-put_words ws)

-- `unmarshalBloom` reads back what `marshal` wrote, for a filter of 1 to 2^32 - 1 words of 64 bits.
pub unmarshal-marshal :
    (bf : BloomFilter)
    → 0 < length bf
    → length bf < 2 ^ 32
    → All IsWord bf
    → unmarshal_bloom (marshal bf) ≡ ok bf
unfolding unmarshal_bloom marshal
unmarshal-marshal bf hp hl hw = ground (
  arith,
  take-append (put_le 4 (length bf)) (put_words bf) 4 (length-put_le 4 (length bf)),
  drop-append (put_le 4 (length bf)) (put_words bf) 4 (length-put_le 4 (length bf)),
  length-append (put_le 4 (length bf)) (put_words bf),
  length-put_le 4 (length bf),
  length-put_words bf,
  get_le-put_le 4 (length bf) hl,
  get_words-put_words bf hw,
)

-- The words of a filter that the program builds have 64 bits.
two_pow-lt_64 : (k : ℕ) → k < 64 → 2 ^ k < 2 ^ 64
two_pow-lt_64 k h =
    let e : 2 ^ k ≤ 2 ^ 63 =
      pow-le-pow_right {n = 2} (omega arith) {i = k} {j = 63} (omega arith) in
    omega arith

set-IsWord : (ws : BloomFilter) (i w : ℕ) → All IsWord ws → IsWord w → All IsWord (set ws i w)
set-IsWord [] i w h hw = tt
set-IsWord (x ∷ ws) zero w h hw = (hw, h.1)
set-IsWord (x ∷ ws) (suc i) w h hw = (h.0, set-IsWord ws i w h.1 hw)

get_or-IsWord : (ws : BloomFilter) (i : ℕ) → All IsWord ws → IsWord (get_or ws i 0)
get_or-IsWord [] i h = omega arith
get_or-IsWord (x ∷ ws) zero h = h.0
get_or-IsWord (x ∷ ws) (suc i) h = get_or-IsWord ws i h.1

set_bit-IsWord : (bf : BloomFilter) (bit : ℕ) → All IsWord bf → All IsWord (set_bit bf bit)
unfolding set_bit
set_bit-IsWord bf bit h =
    let old = get_or bf (bit / 64) 0 in
    set-IsWord bf (bit / 64) (bit_or old (2 ^ (bit % 64))) h (
      bit_or-lt 64 old (2 ^ (bit % 64)) (get_or-IsWord bf (bit / 64) h)
        (two_pow-lt_64 (bit % 64) (omega arith)))

add_hashes-IsWord :
    (left i x n : ℕ) (bf : BloomFilter) → All IsWord bf → All IsWord (add_hashes left i x n bf)
unfolding add_hashes
add_hashes-IsWord zero i x n bf h = h
add_hashes-IsWord (suc left) i x n bf h =
    add_hashes-IsWord left (i + 1) x n (set_bit bf (bit_index x i n))
      (set_bit-IsWord bf (bit_index x i n) h)

add-IsWord : (bf : BloomFilter) (s : Bytes) → All IsWord bf → All IsWord (add bf s)
unfolding add
add-IsWord bf [] h = h
add-IsWord bf (c ∷ s) h = add_hashes-IsWord bloom_hashes 0 (fnv64a (c ∷ s)) (n_bits bf) bf h

add_all-IsWord : (bf : BloomFilter) (tgs : List Bytes) → All IsWord bf → All IsWord (add_all bf tgs)
unfolding add_all
add_all-IsWord bf [] h = h
add_all-IsWord bf (tg ∷ tgs) h = add_all-IsWord (add bf tg) tgs (add-IsWord bf tg h)

add_msgs-IsWord :
    (bf : BloomFilter) (msgs : List Bytes) → All IsWord bf → All IsWord (add_msgs bf msgs)
unfolding add_msgs
add_msgs-IsWord bf [] h = h
add_msgs-IsWord bf (m ∷ msgs) h =
    add_msgs-IsWord (add_all bf (byte_trigrams m)) msgs (add_all-IsWord bf (byte_trigrams m) h)

zeros-IsWord : (n : ℕ) → All IsWord (replicate {A = ℕ} n 0)
zeros-IsWord zero = tt
zeros-IsWord (suc n) = (omega arith, zeros-IsWord n)

build-IsWord : (msgs : List Bytes) → All IsWord (build_msg_bloom msgs)
unfolding build_msg_bloom new_bloom_filter
build-IsWord msgs = add_msgs-IsWord (new_bloom_filter (count_trigrams msgs)) msgs (zeros-IsWord _)

new_bloom_filter-lt : (n : ℕ) → n < 2 ^ 34 - 3 → length (new_bloom_filter n) < 2 ^ 32
unfolding new_bloom_filter
new_bloom_filter-lt n h =
    let w = ((if ltb n 1 then 1 else n) * bloom_bits_per_trigram + 63) / 64 in
    rw (length-replicate {A = ℕ} (if ltb w 1 then 1 else w) 0) (ground arith)

-- The test on the file that a block's messages were written to lets every block pass that has a
-- message with the needle, if the messages have fewer than 2^34 - 3 trigrams. Without a file that
-- can be read it lets every block pass.
pub block_might_contain_msg_sound :
    (msgs : List Bytes) (m needle : Bytes)
    → count_trigrams msgs < 2 ^ 34 - 3
    → mem_bytes m msgs ≡ true
    → has_substring m needle ≡ true
    → (block_might_contain_msg (some (marshal (build_msg_bloom msgs))) needle ≡ true)
      × (block_might_contain_msg none needle ≡ true)
unfolding block_might_contain_msg
block_might_contain_msg_sound msgs m needle hn h e =
    let bf = build_msg_bloom msgs in
    let size = length-build msgs in
    let wide : 0 < length bf = rw size (new_bloom_filter-pos (count_trigrams msgs)) in
    let narrow : length bf < 2 ^ 32 = rw size (new_bloom_filter-lt (count_trigrams msgs) hn) in
    (
      ground (
        arith,
        unmarshal-marshal bf wide narrow (build-IsWord msgs),
        might_contain_substring-build msgs m needle h e,
      ),
      ground arith,
    )
