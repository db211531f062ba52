-- ===== src/Base/Bits.antt =====
-- `|` and `&` on 64-bit words, one bit at a time.
use Prim.Native.Nat.{ℕ, zero, suc, ◌+◌, ◌*◌, ◌/◌, ◌%◌, ◌^◌, ◌≤◌, ◌<◌, min, max}
use Prim.Native.Nat.{bit_and, bit_or, digits, bitwise, bit_and-bitwise, bit_or-bitwise}
use mathlib.Core.Path.{◌≡◌, refl, ap}
use native.Mathlib.Nat.{pow-suc, le_refl}
use native.Mathlib.Omega.{arith}

-- The native operations stand for a recursion on binary digits with fuel; here the fuel is dropped.
module _ (z : ℕ → ℕ) (f : ℕ → ℕ → ℕ) where
  digits_enough : (x y k l : ℕ) → x ≤ k → x ≤ l → digits z f k x y ≡ digits z f l x y
  digits_enough zero y zero zero hk hl = refl
  digits_enough zero y zero (suc l) hk hl = refl
  digits_enough zero y (suc k) zero hk hl = refl
  digits_enough (suc x) y zero l hk hl = absurd (omega arith)
  digits_enough (suc x) y (suc k) zero hk hl = absurd (omega arith)
  digits_enough zero y (suc k) (suc l) hk hl = refl
  digits_enough (suc x) y (suc k) (suc l) hk hl =
      rw (digits_enough (suc x / 2) (y / 2) k l (omega arith) (omega arith))

  bitwise_step :
      (x y : ℕ)
      → bitwise z f (suc x) y ≡ bitwise z f (suc x / 2) (y / 2) * 2 + f (suc x % 2) (y % 2)
  bitwise_step x y =
      let half = suc x / 2 in
      omega (arith, digits_enough half (y / 2) x half (omega arith) (le_refl half))

bit_or_digit : (a b : ℕ) → bit_or a b ≡ bit_or (a / 2) (b / 2) * 2 + max (a % 2) (b % 2)
bit_or_digit zero b = simp bit_or-bitwise (omega arith)
bit_or_digit (suc a) b = simp bit_or-bitwise (bitwise_step (λ y. y) max a b)

bit_and_digit : (a b : ℕ) → bit_and a b ≡ bit_and (a / 2) (b / 2) * 2 + min (a % 2) (b % 2)
bit_and_digit zero b = simp bit_and-bitwise (omega arith)
bit_and_digit (suc a) b = simp bit_and-bitwise (bitwise_step (λ y. 0) min a b)

-- Bit `k` of a word.
pub bit_at : ℕ → ℕ → ℕ
bit_at zero a = a % 2
bit_at (suc k) a = bit_at k (a / 2)

pub bit_at-le : (k a : ℕ) → bit_at k a ≤ 1
unfolding bit_at
bit_at-le zero a = omega arith
bit_at-le (suc k) a = bit_at-le k (a / 2)

pub bit_at-bit_or : (k a b : ℕ) → bit_at k (bit_or a b) ≡ max (bit_at k a) (bit_at k b)
unfolding bit_at
bit_at-bit_or zero a b = omega (arith, bit_or_digit a b)
bit_at-bit_or (suc k) a b =
    let e : bit_or a b / 2 ≡ bit_or (a / 2) (b / 2) = omega (arith, bit_or_digit a b) in
    rw e (bit_at-bit_or k (a / 2) (b / 2))

pub bit_at-two_pow : (k : ℕ) → bit_at k (2 ^ k) ≡ 1
unfolding bit_at
bit_at-two_pow zero = refl
bit_at-two_pow (suc k) =
    let e : 2 ^ suc k / 2 ≡ 2 ^ k = omega (arith, pow-suc 2 k) in rw e (bit_at-two_pow k)

bit_and-zero : (n a : ℕ) → a ≤ n → bit_and a 0 ≡ 0
bit_and-zero n zero h = refl
bit_and-zero zero (suc a) h = absurd (omega arith)
bit_and-zero (suc n) (suc a) h =
    omega (arith, bit_and_digit (suc a) 0, bit_and-zero n (suc a / 2) (omega arith))

-- `w & (1 << k)` is bit `k` of `w`, in its place.
pub bit_and-two_pow : (k a : ℕ) → bit_and a (2 ^ k) ≡ bit_at k a * 2 ^ k
unfolding bit_at
bit_and-two_pow zero a = omega (arith, bit_and_digit a 1, bit_and-zero (a / 2) (a / 2) (le_refl _))
bit_and-two_pow (suc k) a =
    let e : 2 ^ suc k / 2 ≡ 2 ^ k = omega (arith, pow-suc 2 k) in
    omega (
      arith,
      bit_and_digit a (2 ^ suc k),
      pow-suc 2 k,
      ap (λ (t : ℕ). bit_and (a / 2) t) e,
      bit_and-two_pow k (a / 2),
      ap (λ (t : ℕ). bit_at k (a / 2) * t) (pow-suc 2 k),
    )

pub bit_or-lt : (w a b : ℕ) → a < 2 ^ w → b < 2 ^ w → bit_or a b < 2 ^ w
bit_or-lt zero zero zero p q = omega arith
bit_or-lt zero zero (suc b) p q = absurd (omega arith)
bit_or-lt zero (suc a) b p q = absurd (omega arith)
bit_or-lt (suc w) a b p q = omega (
  arith,
  bit_or_digit a b,
  pow-suc 2 w,
  bit_or-lt w (a / 2) (b / 2) (omega (arith, pow-suc 2 w)) (omega (arith, pow-suc 2 w)),
)
