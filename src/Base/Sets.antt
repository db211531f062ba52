-- ===== src/Base/Sets.antt =====
-- Go's `map[string]struct{}`, as lists without repetition.
use mathlib.Core.Path.{◌≡◌, refl}
use mathlib.Core.Bool.{Bool, true, ◌&&◌}
use mathlib.Core.List.{List, [], ◌∷◌}
use native.Mathlib.Omega.{arith}
use marchilogs.Base.Tests.{if◌then◌else◌}
use marchilogs.Base.Lists.{keep_if}
use marchilogs.Base.ByteStrings.{Bytes, bytes_eq_iff, mem_bytes, Distinct}

-- `set[id] = struct{}{}`
unfoldable pub add_to_set : Bytes → List Bytes → List Bytes
add_to_set a s = if mem_bytes a s then s else a ∷ s

-- The set of the elements of a slice.
unfoldable pub set_of : List Bytes → List Bytes
unfolding add_to_set
set_of [] = []
set_of (x ∷ xs) = add_to_set x (set_of xs)

pub mem_bytes-set_of : (a : Bytes) (xs : List Bytes) → mem_bytes a (set_of xs) ≡ mem_bytes a xs
unfolding set_of mem_bytes
mem_bytes-set_of a [] = refl
mem_bytes-set_of a (x ∷ xs) =
    ground (arith, mem_bytes-set_of a xs, mem_bytes-set_of x xs, bytes_eq_iff x a)

pub set_of-Distinct : (xs : List Bytes) → Distinct (set_of xs)
unfolding set_of
set_of-Distinct [] = tt
set_of-Distinct (x ∷ xs) = ground (arith, set_of-Distinct xs)

pub mem_bytes-keep_if :
    (p : Bytes → Bool) (a : Bytes) (xs : List Bytes)
    → mem_bytes a (keep_if p xs) ≡ (p a && mem_bytes a xs)
unfolding mem_bytes
mem_bytes-keep_if p a [] = ground arith
mem_bytes-keep_if p a (x ∷ xs) = ground (arith, mem_bytes-keep_if p a xs, bytes_eq_iff x a)

pub keep_if-Distinct : (p : Bytes → Bool) (xs : List Bytes) → Distinct xs → Distinct (keep_if p xs)
keep_if-Distinct p [] d = tt
keep_if-Distinct p (x ∷ xs) d = ground (arith, keep_if-Distinct p xs, mem_bytes-keep_if p x xs)

-- A list, or another one where it is empty.
abbrev pub unless_empty : List Bytes → List Bytes → List Bytes
unless_empty [] other = other
unless_empty (x ∷ xs) other = x ∷ xs

pub mem_bytes-unless_empty :
    (x : Bytes) (xs other : List Bytes)
    → mem_bytes x xs ≡ true
    → mem_bytes x (unless_empty xs other) ≡ true
unfolding mem_bytes
mem_bytes-unless_empty x [] other h = ground (arith, h)
mem_bytes-unless_empty x (y ∷ xs) other h = h
