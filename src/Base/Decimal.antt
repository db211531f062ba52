-- ===== src/Base/Decimal.antt =====
-- Decimal text: the digits that `fmt` prints, `%0Nd`, and `strconv.Atoi`.
use Prim.Native.Nat.{ℕ, zero, suc, ◌+◌, ◌-◌, ◌*◌, ◌/◌, ◌%◌, ◌^◌, ◌≤◌, ◌<◌}
use mathlib.Core.Path.{◌≡◌, refl, ◌∙◌}
use mathlib.Core.Bool.{Bool, true, false, ◌&&◌}
use mathlib.Core.List.{[], ◌∷◌, ◌++◌}
use mathlib.Core.Option.{Option, none, some}
use mathlib.Core.Logic.{inl, inr, ◌≢◌}
use native.Mathlib.Nat.{pow-suc}
use native.Mathlib.Omega.{arith}
use marchilogs.Base.Tests.{ltb, leb, ◌==◌, if◌then◌else◌, Bool-cases}
use marchilogs.Base.Lists.{length, replicate, length-append, length-replicate}
use marchilogs.Base.ByteStrings.{Bytes}
use marchilogs.Base.Ints.{ℤ, pos, sub_ℕ}
use marchilogs.Base.Results.{bad_number, Result, ok, err}

-- The fuel is the number itself, and a number has at most so many digits and one more.
decimal_from : ℕ → ℕ → Bytes
decimal_from zero n = (48 + n) ∷ []
decimal_from (suc fuel) n =
    let more = decimal_from fuel (n / 10) in
    if ltb n 10 then (48 + n) ∷ [] else more ++ (48 + n % 10) ∷ []

-- `%d` of a number that is not negative.
unfoldable pub decimal : ℕ → Bytes
unfolding decimal_from
decimal n = decimal_from n n

-- `%0Nd`
unfoldable pub zero_padded : ℕ → ℕ → Bytes
unfolding decimal
zero_padded width n = replicate (width - length (decimal n)) b'0' ++ decimal n

unfoldable pub digits_value : ℕ → Bytes → Option ℕ
digits_value acc [] = some acc
digits_value acc (c ∷ s) =
    if leb b'0' c && leb c b'9' then digits_value (acc * 10 + (c - 48)) s else none

abbrev signed_value : Bool → Bytes → Result ℤ
signed_value negative [] = err bad_number
signed_value negative (c ∷ s) = elim (digits_value 0 (c ∷ s)) [
  | none ↦ err bad_number
  | some n ↦
      if negative
      then (if leb n (2 ^ 63) then ok (sub_ℕ 0 n) else err bad_number)
      else (if ltb n (2 ^ 63) then ok (pos n) else err bad_number)
]

-- `strconv.Atoi`, where `int` has 64 bits.
unfoldable pub atoi : Bytes → Result ℤ
unfolding digits_value
atoi [] = err bad_number
atoi (c ∷ s) =
    if c == b'-'
    then signed_value true s
    else if c == b'+'
    then signed_value false s
    else signed_value false (c ∷ s)

digits_value-append :
    (acc : ℕ) (s t : Bytes) (n : ℕ)
    → digits_value acc s ≡ some n
    → digits_value acc (s ++ t) ≡ digits_value n t
unfolding digits_value
digits_value-append acc [] t n h = ground arith
digits_value-append acc (c ∷ s) t n h =
    ground (arith, digits_value-append (acc * 10 + (c - 48)) s t n)

digits_value-decimal_from : (fuel n : ℕ) → n ≤ fuel → digits_value 0 (decimal_from fuel n) ≡ some n
unfolding digits_value decimal_from
digits_value-decimal_from zero n h = ground arith
digits_value-decimal_from (suc fuel) n h = elim (Bool-cases (ltb n 10)) [
  | inl small ↦ ground arith
  | inr large ↦ rw large (
      digits_value-append 0 (decimal_from fuel (n / 10)) ((48 + n % 10) ∷ []) (n / 10)
        (digits_value-decimal_from fuel (n / 10) (ground arith))
      ∙ ground arith)
]

digits_value-zeros : (k : ℕ) (s : Bytes) → digits_value 0 (replicate k b'0' ++ s) ≡ digits_value 0 s
unfolding digits_value
digits_value-zeros zero s = refl
digits_value-zeros (suc k) s = digits_value-zeros k s

pub digits_value-decimal : (n : ℕ) → digits_value 0 (decimal n) ≡ some n
unfolding decimal
digits_value-decimal n = digits_value-decimal_from n n (omega arith)

pub digits_value-zero_padded : (width n : ℕ) → digits_value 0 (zero_padded width n) ≡ some n
unfolding zero_padded
digits_value-zero_padded width n =
    digits_value-zeros (width - length (decimal n)) (decimal n) ∙ digits_value-decimal n

-- What has digits only has no sign, so `Atoi` is the value of its digits.
pub atoi_of_digits :
    (s : Bytes) (n : ℕ) → s ≢ [] → digits_value 0 s ≡ some n → n < 2 ^ 63 → atoi s ≡ ok (pos n)
unfolding atoi
atoi_of_digits [] n e h b = absurd (e refl)
atoi_of_digits (c ∷ s) n e h b = ground arith

decimal_from-ne-nil : (fuel n : ℕ) → decimal_from fuel n ≢ []
unfolding decimal_from
decimal_from-ne-nil zero n e = cc
decimal_from-ne-nil (suc fuel) n e = elim (Bool-cases (ltb n 10)) [
  | inl small ↦ ground arith
  | inr large ↦ snoc-ne-nil (decimal_from fuel (n / 10)) (48 + n % 10) (rw large at e)
]
  where
    snoc-ne-nil : (s : Bytes) (c : ℕ) → s ++ c ∷ [] ≢ []
    snoc-ne-nil [] c p = cc
    snoc-ne-nil (x ∷ s) c p = cc

pub decimal-ne-nil : (n : ℕ) → decimal n ≢ []
unfolding decimal
decimal-ne-nil n = decimal_from-ne-nil n n

zeros-append-ne-nil : (k : ℕ) (s : Bytes) → s ≢ [] → replicate k b'0' ++ s ≢ []
zeros-append-ne-nil zero s h = h
zeros-append-ne-nil (suc k) s h = λ p. cc

-- `Atoi` reads back what `%0Nd` printed.
pub atoi-zero_padded : (width n : ℕ) → n < 2 ^ 63 → atoi (zero_padded width n) ≡ ok (pos n)
atoi-zero_padded width n h =
    atoi_of_digits (zero_padded width n) n
      (unfold zero_padded decimal in
        zeros-append-ne-nil (width - length (decimal n)) (decimal n) (decimal_from-ne-nil n n))
      (digits_value-zero_padded width n) h

length-decimal_from :
    (w fuel n : ℕ) → n ≤ fuel → n < 10 ^ suc w → length (decimal_from fuel n) ≤ suc w
unfolding decimal_from
length-decimal_from w zero n h b = omega arith
length-decimal_from zero (suc fuel) n h b = ground arith
length-decimal_from (suc w) (suc fuel) n h b = ground (
  arith,
  length-append (decimal_from fuel (n / 10)) ((48 + n % 10) ∷ []),
  pow-suc 10 (suc w),
  length-decimal_from w fuel (n / 10),
)

-- A number of at most `w` digits, padded to `w`, has `w` of them.
pub length-zero_padded : (w n : ℕ) → n < 10 ^ suc w → length (zero_padded (suc w) n) ≡ suc w
unfolding zero_padded decimal
length-zero_padded w n h = omega (
  arith,
  length-append (replicate (suc w - length (decimal n)) b'0') (decimal n),
  length-replicate {A = ℕ} (suc w - length (decimal n)) b'0',
  length-decimal_from w n n (omega arith) h,
)
