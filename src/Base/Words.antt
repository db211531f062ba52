-- ===== src/Base/Words.antt =====
-- Little-endian words: `binary.LittleEndian.PutUint32`, `PutUint64`, `Uint32` and `Uint64`.
use Prim.Native.Nat.{ℕ, zero, suc, ◌+◌, ◌*◌, ◌/◌, ◌%◌, ◌^◌, ◌<◌}
use mathlib.Core.Path.{◌≡◌, refl}
use mathlib.Core.List.{[], ◌∷◌}
use native.Mathlib.Nat.{pow-suc}
use native.Mathlib.Omega.{arith}
use marchilogs.Base.Lists.{length, All}
use marchilogs.Base.ByteStrings.{Bytes}

-- The `n` low bytes of `v`, the lowest first. `put_le 4 v` is `PutUint32` of `uint32(v)`.
unfoldable pub put_le : ℕ → ℕ → Bytes
put_le zero v = []
put_le (suc n) v = (v % 256) ∷ put_le n (v / 256)

unfoldable pub get_le : Bytes → ℕ
get_le [] = 0
get_le (b ∷ bs) = b + 256 * get_le bs

pub length-put_le : (n v : ℕ) → length (put_le n v) ≡ n
unfolding put_le
length-put_le zero v = refl
length-put_le (suc n) v = omega (arith, length-put_le n (v / 256))

pub get_le-put_le : (n v : ℕ) → v < 256 ^ n → get_le (put_le n v) ≡ v
unfolding put_le get_le
get_le-put_le zero v h = omega arith
get_le-put_le (suc n) v h = omega (arith, get_le-put_le n (v / 256) (omega (arith, pow-suc 256 n)))

abbrev pub IsByte : ℕ → Type 0
IsByte b = b < 256

pub put_le-IsByte : (n v : ℕ) → All IsByte (put_le n v)
unfolding put_le
put_le-IsByte zero v = tt
put_le-IsByte (suc n) v = (omega arith, put_le-IsByte n (v / 256))

pub get_le-lt : (bs : Bytes) → All IsByte bs → get_le bs < 256 ^ length bs
unfolding get_le
get_le-lt [] h = omega arith
get_le-lt (b ∷ bs) h = omega (arith, get_le-lt bs h.1, pow-suc 256 (length bs), h.0)
