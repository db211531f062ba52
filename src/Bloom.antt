-- ===== src/Bloom.antt =====
-- bloom.go: the bloom filter of a block's messages, its bytes, and the test that skips blocks.
-- `hash/fnv` is FNV-1a with 64 bits. A filter that the program makes has a word at least; on one
-- without words Go's `%` would panic in `add`, where the model writes nothing.
pub mod Covers
pub mod NoFalseNegatives
pub mod Codec
use Prim.Native.Nat.{ℕ, bit_xor}
use marchilogs.Base.{
  ltb, leb, ◌==◌, if◌then◌else◌, length, get_or, set, take, drop, replicate, all, Bytes, is_empty,
  bloom_too_short, bloom_version, bloom_truncated, Result, ok, err, put_le, get_le, zero, suc, ◌+◌,
  ◌-◌, ◌*◌, ◌/◌, ◌%◌, ◌^◌, bit_and, bit_or, Bool, true, not, ◌&&◌, ◌||◌, Option, none, some, List,
  [], ◌∷◌, ◌++◌,
}

abbrev pub bloom_hashes : ℕ
bloom_hashes = 6

abbrev pub bloom_bits_per_trigram : ℕ
bloom_bits_per_trigram = 16

abbrev pub bloom_trigram_len : ℕ
bloom_trigram_len = 3

abbrev pub bloom_version_byte : ℕ
bloom_version_byte = 1

-- `fnv.New64a` and its `Write`.
unfoldable pub fnv64a_from : ℕ → Bytes → ℕ
fnv64a_from h [] = h
fnv64a_from h (b ∷ s) = fnv64a_from (bit_xor h b * 1_099_511_628_211 % 2 ^ 64) s

unfoldable pub fnv64a : Bytes → ℕ
unfolding fnv64a_from
fnv64a s = fnv64a_from 14_695_981_039_346_656_037 s

-- `bloomFilter`: its words of 64 bits.
abbrev pub BloomFilter : Type 0
BloomFilter = List ℕ

-- `newBloomFilter`
unfoldable pub new_bloom_filter : ℕ → BloomFilter
new_bloom_filter trigram_count =
    let count = if ltb trigram_count 1 then 1 else trigram_count in
    let n_bits = count * bloom_bits_per_trigram in
    let n_words = (n_bits + 63) / 64 in replicate (if ltb n_words 1 then 1 else n_words) 0

-- `nBits`
abbrev pub n_bits : BloomFilter → ℕ
n_bits bf = length bf * 64

-- The bit of hash `i`: `(x + uint64(i)*0x9e3779b97f4a7c15) % n`, in 64 bits.
abbrev pub bit_index : ℕ → ℕ → ℕ → ℕ
bit_index x i n = (x + i * 0x9e3779b97f4a7c15 % 2 ^ 64) % 2 ^ 64 % n

-- `bf.bits[bit/64] |= 1 << (bit % 64)`
unfoldable pub set_bit : BloomFilter → ℕ → BloomFilter
set_bit bf bit = set bf (bit / 64) (bit_or (get_or bf (bit / 64) 0) (2 ^ (bit % 64)))

-- `bf.bits[bit/64]&(1<<(bit%64)) != 0`
unfoldable pub has_bit : BloomFilter → ℕ → Bool
has_bit bf bit = not (bit_and (get_or bf (bit / 64) 0) (2 ^ (bit % 64)) == 0)

-- The loop of `add`, with the rounds that are left, the round and the number of bits.
unfoldable pub add_hashes : ℕ → ℕ → ℕ → ℕ → BloomFilter → BloomFilter
add_hashes zero i x n bf = bf
add_hashes (suc left) i x n bf = add_hashes left (i + 1) x n (set_bit bf (bit_index x i n))

-- `add`
unfoldable pub add : BloomFilter → Bytes → BloomFilter
add bf s = if is_empty s then bf else add_hashes bloom_hashes 0 (fnv64a s) (n_bits bf) bf

unfoldable pub has_hashes : ℕ → ℕ → ℕ → ℕ → BloomFilter → Bool
has_hashes zero i x n bf = true
has_hashes (suc left) i x n bf = has_bit bf (bit_index x i n) && has_hashes left (i + 1) x n bf

-- `mightContain`
unfoldable pub might_contain : BloomFilter → Bytes → Bool
might_contain bf s =
    if is_empty s || length bf == 0
    then true
    else has_hashes bloom_hashes 0 (fnv64a s) (n_bits bf) bf

-- `byteTrigrams`: `s[i:i+3]` for each `i` at which three bytes are left.
unfoldable pub byte_trigrams : Bytes → List Bytes
byte_trigrams (a ∷ b ∷ c ∷ s) = (a ∷ b ∷ c ∷ []) ∷ byte_trigrams (b ∷ c ∷ s)
byte_trigrams _ = []

-- `mightContainSubstring`
unfoldable pub might_contain_substring : BloomFilter → Bytes → Bool
might_contain_substring bf needle =
    if ltb (length needle) bloom_trigram_len
    then true
    else all (might_contain bf) (byte_trigrams needle)

-- The first loop of `buildMsgBloom`.
unfoldable pub count_trigrams : List Bytes → ℕ
count_trigrams [] = 0
count_trigrams (m ∷ msgs) =
    (if leb bloom_trigram_len (length m) then length m - bloom_trigram_len + 1 else 0)
    + count_trigrams msgs

unfoldable pub add_all : BloomFilter → List Bytes → BloomFilter
add_all bf [] = bf
add_all bf (tg ∷ tgs) = add_all (add bf tg) tgs

unfoldable pub add_msgs : BloomFilter → List Bytes → BloomFilter
add_msgs bf [] = bf
add_msgs bf (m ∷ msgs) = add_msgs (add_all bf (byte_trigrams m)) msgs

-- `buildMsgBloom`
unfoldable pub build_msg_bloom : List Bytes → BloomFilter
build_msg_bloom msgs = add_msgs (new_bloom_filter (count_trigrams msgs)) msgs

unfoldable pub put_words : BloomFilter → Bytes
put_words [] = []
put_words (w ∷ ws) = put_le 8 w ++ put_words ws

-- `marshal`
unfoldable pub marshal : BloomFilter → Bytes
marshal bf = bloom_version_byte ∷ put_le 4 (length bf) ++ put_words bf

unfoldable pub get_words : ℕ → Bytes → BloomFilter
get_words zero src = []
get_words (suc n) src = get_le (take 8 src) ∷ get_words n (drop 8 src)

-- `unmarshalBloom`
unfoldable pub unmarshal_bloom : Bytes → Result BloomFilter
unmarshal_bloom [] = err bloom_too_short
unmarshal_bloom (version ∷ src) =
    if ltb (length src) 4
    then err bloom_too_short
    else if not (version == bloom_version_byte)
    then err bloom_version
    else (let n_words = get_le (take 4 src) in
        if ltb n_words 1 || ltb (suc (length src)) (5 + n_words * 8)
        then err bloom_truncated
        else ok (get_words n_words (drop 4 src)))

-- `blockMightContainMsg`, on the content of the bloom file, or `none` where it cannot be read.
unfoldable pub block_might_contain_msg : Option Bytes → Bytes → Bool
block_might_contain_msg file needle =
    if is_empty needle || ltb (length needle) bloom_trigram_len then true else elim file [
      | none ↦ true
      | some src ↦ elim (unmarshal_bloom src) [
        | err e ↦ true
        | ok bf ↦ might_contain_substring bf needle
      ]
    ]
