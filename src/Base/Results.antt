-- ===== src/Base/Results.antt =====
-- Go's (a, error) pairs, and reads from a file as functions on the bytes that are left.
use Prim.Native.Nat.{ℕ, ◌<◌}
use mathlib.Core.Path.{◌≡◌, refl}
use mathlib.Core.List.{[], ◌∷◌, ◌++◌}
use native.Mathlib.Omega.{arith}
use marchilogs.Base.Tests.{leb, if◌then◌else◌}
use marchilogs.Base.Lists.{length, take, drop, length-append, take-append, drop-append}
use marchilogs.Base.ByteStrings.{Bytes, is_empty}

-- The errors that the program makes or passes on.
pub data Error : Type 0 where
  eof unexpected_eof not_exist io_failure bad_json bad_number bad_time : Error
  bloom_too_short bloom_version bloom_truncated : Error
  bad_magic unsupported_version crc_mismatch : Error
  bad_partition bad_time_type delete_unbounded : Error

pub data Result {ℓ} (A : Type ℓ) : Type ℓ where
  err : Error → Result A
  ok : A → Result A

-- `if err != nil { return err }`: the first error ends a chain.
module _ {ℓ κ} {A : Type ℓ} {B : Type κ} where
  infixl 5 ◌>>=◌
  abbrev pub ◌>>=◌ : Result A → (A → Result B) → Result B
  err e >>= rest = err e
  ok a >>= rest = rest a

  -- A chain that succeeds has no error at its first step either.
  pub ok_of_chain :
      (first : Result A) (rest : A → Result B) (b : B)
      → (first >>= rest) ≡ ok b
      → (a : A) × (first ≡ ok a) × (rest a ≡ ok b)
  ok_of_chain (err e) rest b h = cc
  ok_of_chain (ok a) rest b h = (a, refl, h)

-- `io.ReadFull(f, buf)` with `len(buf) = n`: the bytes read, and those that are left.
unfoldable pub read_full : ℕ → Bytes → Result (Bytes × Bytes)
read_full n s =
    if leb n (length s)
    then ok (take n s, drop n s)
    else if is_empty s
    then err eof
    else err unexpected_eof

pub read_full-append :
    (n : ℕ) (xs rest : Bytes) → length xs ≡ n → read_full n (xs ++ rest) ≡ ok (xs, rest)
unfolding read_full
read_full-append n xs rest h =
    ground (arith, length-append xs rest, take-append xs rest n, drop-append xs rest n)

-- A read of more than there is fails.
pub read_full_short : (n : ℕ) (s : Bytes) → length s < n → (e : Error) × (read_full n s ≡ err e)
unfolding read_full
read_full_short n [] h = (eof, ground arith)
read_full_short n (b ∷ s) h = (unexpected_eof, ground arith)
