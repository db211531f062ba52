-- ===== src/Bloom/Covers.antt =====
-- bloom.go: what adding to a filter does to its bits.
use Prim.Native.Nat.{ℕ}
use native.Mathlib.Nat.{one-le-pow, mod-lt}
use marchilogs.Base.{
  ◌==◌, Bool-cases, length, get_or, all, length-set, get_or-set, bit_at, bit_at-le, bit_at-bit_or,
  bit_at-two_pow, bit_and-two_pow, Bytes, is_empty, zero, suc, ◌+◌, ◌*◌, ◌/◌, ◌%◌, ◌^◌, ◌≤◌, ◌<◌,
  bit_or, ◌≡◌, refl, ◌∙◌, inl, inr, true, not, List, [], ◌∷◌, arith,
}
use marchilogs.Bloom.{
  bloom_hashes, fnv64a, BloomFilter, n_bits, bit_index, set_bit, has_bit, add_hashes, add,
  has_hashes, might_contain, add_all,
}

-- One bit is one binary digit of its word.
has_bit-digit :
    (bf : BloomFilter) (bit : ℕ)
    → has_bit bf bit ≡ (bit_at (bit % 64) (get_or bf (bit / 64) 0) == 1)
unfolding has_bit
has_bit-digit bf bit =
    let k = bit % 64 in
    let w = get_or bf (bit / 64) 0 in
    ground (arith, bit_and-two_pow k w, bit_at-le k w, digit_cases k (bit_at k w) (bit_at-le k w))
  where
    digit_cases : (k d : ℕ) → d ≤ 1 → not (d * 2 ^ k == 0) ≡ (d == 1)
    digit_cases k zero h = ground arith
    digit_cases k (suc zero) h = ground (arith, one-le-pow k 2)
    digit_cases k (suc (suc d)) h = absurd (omega arith)

word_in_range : (bf : BloomFilter) (bit : ℕ) → bit < n_bits bf → bit / 64 < length bf
word_in_range bf bit h = omega arith

-- Setting a bit sets it, and clears none.
has_bit-set_bit_self :
    (bf : BloomFilter) (bit : ℕ) → bit < n_bits bf → has_bit (set_bit bf bit) bit ≡ true
unfolding set_bit
has_bit-set_bit_self bf bit h = ground (
  arith,
  has_bit-digit (set_bit bf bit) bit,
  get_or-set bf (bit / 64) (bit / 64) (bit_or (get_or bf (bit / 64) 0) (2 ^ (bit % 64))) 0,
  word_in_range bf bit h,
  bit_at-bit_or (bit % 64) (get_or bf (bit / 64) 0) (2 ^ (bit % 64)),
  bit_at-two_pow (bit % 64),
  bit_at-le (bit % 64) (get_or bf (bit / 64) 0),
)

has_bit-set_bit :
    (bf : BloomFilter) (bit b : ℕ)
    → bit < n_bits bf
    → has_bit bf b ≡ true
    → has_bit (set_bit bf bit) b ≡ true
unfolding set_bit
has_bit-set_bit bf bit b h e = ground (
  arith,
  has_bit-digit (set_bit bf bit) b,
  has_bit-digit bf b,
  get_or-set bf (bit / 64) (b / 64) (bit_or (get_or bf (bit / 64) 0) (2 ^ (bit % 64))) 0,
  word_in_range bf bit h,
  bit_at-bit_or (b % 64) (get_or bf (bit / 64) 0) (2 ^ (bit % 64)),
  bit_at-le (b % 64) (2 ^ (bit % 64)),
)

pub length-set_bit : (bf : BloomFilter) (bit : ℕ) → length (set_bit bf bit) ≡ length bf
unfolding set_bit
length-set_bit bf bit = length-set bf (bit / 64) (bit_or (get_or bf (bit / 64) 0) (2 ^ (bit % 64)))

bit_index-lt : (x i n : ℕ) → 0 < n → bit_index x i n < n
bit_index-lt x i n h = mod-lt ((x + i * 0x9e3779b97f4a7c15 % 2 ^ 64) % 2 ^ 64) h

-- One filter holds every bit of another of its size.
pub record Covers (bf bf' : BloomFilter) : Type 0 where
  pub size : length bf' ≡ length bf
  pub bits : (b : ℕ) → has_bit bf b ≡ true → has_bit bf' b ≡ true

pub Covers-refl : (bf : BloomFilter) → Covers bf bf
Covers-refl bf = record { size = refl; bits = λ b h. h }

pub Covers-trans : {a b c : BloomFilter} → Covers a b → Covers b c → Covers a c
Covers-trans f g = record { size = g.size ∙ f.size; bits = λ b h. g.bits b (f.bits b h) }

Covers-set_bit : (bf : BloomFilter) (bit : ℕ) → bit < n_bits bf → Covers bf (set_bit bf bit)
Covers-set_bit bf bit h = record {
  size = length-set_bit bf bit;
  bits = λ b e. has_bit-set_bit bf bit b h e;
}

Covers-add_hashes :
    (left i x n : ℕ) (bf : BloomFilter)
    → n_bits bf ≡ n
    → 0 < n
    → Covers bf (add_hashes left i x n bf)
unfolding add_hashes
Covers-add_hashes zero i x n bf e h = Covers-refl bf
Covers-add_hashes (suc left) i x n bf e h =
    let bit = bit_index x i n in
    let fits : bit < n_bits bf = rw e (bit_index-lt x i n h) in
    let same : n_bits (set_bit bf bit) ≡ n = rw (length-set_bit bf bit) e in
    Covers-trans (Covers-set_bit bf bit fits)
      (Covers-add_hashes left (i + 1) x n (set_bit bf bit) same h)

has_hashes-add_hashes :
    (left i x n : ℕ) (bf : BloomFilter)
    → n_bits bf ≡ n
    → 0 < n
    → has_hashes left i x n (add_hashes left i x n bf) ≡ true
unfolding add_hashes has_hashes
has_hashes-add_hashes zero i x n bf e h = refl
has_hashes-add_hashes (suc left) i x n bf e h =
    let bit = bit_index x i n in
    let fits : bit < n_bits bf = rw e (bit_index-lt x i n h) in
    let same : n_bits (set_bit bf bit) ≡ n = rw (length-set_bit bf bit) e in
    ground (
      arith,
      has_hashes-add_hashes left (i + 1) x n (set_bit bf bit) same h,
      (Covers-add_hashes left (i + 1) x n (set_bit bf bit) same h).bits bit
          (has_bit-set_bit_self bf bit fits),
    )

has_hashes_mono :
    (left i x n : ℕ) {a b : BloomFilter}
    → Covers a b
    → has_hashes left i x n a ≡ true
    → has_hashes left i x n b ≡ true
unfolding has_hashes
has_hashes_mono zero i x n c h = refl
has_hashes_mono (suc left) i x n c h =
    ground (arith, c.bits (bit_index x i n), has_hashes_mono left (i + 1) x n c)

-- What a filter might contain, a filter that covers it might contain.
pub might_contain_mono :
    (s : Bytes) {a b : BloomFilter}
    → Covers a b
    → might_contain a s ≡ true
    → might_contain b s ≡ true
unfolding might_contain
might_contain_mono s {a} {b} c h =
    rw c.size (ground (arith, has_hashes_mono bloom_hashes 0 (fnv64a s) (n_bits a) c))

pub Covers-add : (bf : BloomFilter) (s : Bytes) → 0 < length bf → Covers bf (add bf s)
unfolding add
Covers-add bf s h = elim (Bool-cases (is_empty s)) [
  | inl empty ↦ rw empty (Covers-refl bf)
  | inr some_bytes ↦
      rw some_bytes (Covers-add_hashes bloom_hashes 0 (fnv64a s) (n_bits bf) bf refl (omega arith))
]

-- What was added might be contained.
pub might_contain-add :
    (bf : BloomFilter) (s : Bytes) → 0 < length bf → might_contain (add bf s) s ≡ true
unfolding might_contain
might_contain-add bf s h = elim (Bool-cases (is_empty s)) [
  | inl empty ↦ ground arith
  | inr some_bytes ↦
      let hit = has_hashes-add_hashes bloom_hashes 0 (fnv64a s) (n_bits bf) bf refl (omega arith) in
      rw (Covers-add bf s h).size (unfold add in rw (some_bytes) (ground (arith, hit)))
]

pub Covers-add_all :
    (bf : BloomFilter) (tgs : List Bytes) → 0 < length bf → Covers bf (add_all bf tgs)
unfolding add_all
Covers-add_all bf [] h = Covers-refl bf
Covers-add_all bf (tg ∷ tgs) h =
    let step = Covers-add bf tg h in
    Covers-trans step (Covers-add_all (add bf tg) tgs (rw step.size h))

pub might_contain-add_all :
    (bf : BloomFilter) (tgs : List Bytes)
    → 0 < length bf
    → all (might_contain (add_all bf tgs)) tgs ≡ true
unfolding add_all
might_contain-add_all bf [] h = refl
might_contain-add_all bf (tg ∷ tgs) h =
    let wide : 0 < length (add bf tg) = rw (Covers-add bf tg h).size h in
    ground (
      arith,
      might_contain-add_all (add bf tg) tgs wide,
      might_contain_mono tg (Covers-add_all (add bf tg) tgs wide) (might_contain-add bf tg h),
    )
