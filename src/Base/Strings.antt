-- ===== src/Base/Strings.antt =====
-- Go's `strings` and `sort` on byte strings, as far as the program uses them.
use Prim.Native.Nat.{ℕ}
use mathlib.Core.Path.{◌≡◌, refl, ap, ◌∙◌}
use mathlib.Core.Bool.{Bool, true, false, ◌&&◌, ◌||◌, not}
use mathlib.Core.List.{List, [], ◌∷◌, ◌++◌, append_assoc, append-nil}
use mathlib.Core.Logic.{inl, inr}
use mathlib.Core.Option.{Option, none, some}
use native.Mathlib.Omega.{arith}
use marchilogs.Base.Tests.{◌==◌, if◌then◌else◌, Bool-cases}
use marchilogs.Base.Lists.{length, drop, all, any}
use marchilogs.Base.ByteStrings.{
  Bytes, is_empty, bytes_eq, bytes_eq_iff, bytes_lt, mem_bytes, Distinct,
}

-- `strings.HasPrefix(s, p)`
unfoldable pub has_prefix : Bytes → Bytes → Bool
has_prefix s [] = true
has_prefix [] (b ∷ p) = false
has_prefix (a ∷ s) (b ∷ p) = a == b && has_prefix s p

-- `strings.TrimPrefix(s, p)`
unfoldable pub trim_prefix : Bytes → Bytes → Bytes
unfolding has_prefix
trim_prefix s p = if has_prefix s p then drop (length p) s else s

-- `strings.Contains(s, sub)`
unfoldable pub has_substring : Bytes → Bytes → Bool
unfolding has_prefix
has_substring [] sub = is_empty sub
has_substring (a ∷ s) sub = has_prefix (a ∷ s) sub || has_substring s sub

pub has_prefix_dest : (s p : Bytes) → has_prefix s p ≡ true → (rest : Bytes) × (s ≡ p ++ rest)
unfolding has_prefix
has_prefix_dest s [] h = (s, refl)
has_prefix_dest [] (b ∷ p) h = cc
has_prefix_dest (a ∷ s) (b ∷ p) h =
    let (rest, e) = has_prefix_dest s p (ground arith) in (rest, ground arith)

pub has_prefix-append : (p rest : Bytes) → has_prefix (p ++ rest) p ≡ true
unfolding has_prefix
has_prefix-append [] rest = refl
has_prefix-append (b ∷ p) rest = ground (arith, has_prefix-append p rest)

-- A string that contains `sub` is `before ++ sub ++ after`.
pub has_substring_dest :
    (s sub : Bytes)
    → has_substring s sub ≡ true
    → (before : Bytes) × (rest : Bytes) × (s ≡ before ++ sub ++ rest)
unfolding has_substring
has_substring_dest [] [] h = ([], [], refl)
has_substring_dest [] (b ∷ sub) h = cc
has_substring_dest (a ∷ s) sub h = elim (Bool-cases (has_prefix (a ∷ s) sub)) [
  | inl here ↦ let (rest, e) = has_prefix_dest (a ∷ s) sub here in ([], rest, e)
  | inr later ↦
      let (before, rest, e) = has_substring_dest s sub (ground arith) in
      (a ∷ before, rest, ap (◌∷◌ a) e)
]

-- `strings.Split(s, sep)` for a separator of one byte.
unfoldable pub split_from : ℕ → Bytes → Bytes → List Bytes
split_from sep acc [] = acc ∷ []
split_from sep acc (c ∷ s) =
    let rest = split_from sep [] s in
    let more = split_from sep (acc ++ c ∷ []) s in if c == sep then acc ∷ rest else more

abbrev pub split : ℕ → Bytes → List Bytes
split sep s = split_from sep [] s

-- `strings.Cut(s, sep)` for a separator of one byte; `none` where the separator is not found.
unfoldable pub cut_from : ℕ → Bytes → Bytes → Option (Bytes × Bytes)
cut_from sep acc [] = none
cut_from sep acc (c ∷ s) =
    let more = cut_from sep (acc ++ c ∷ []) s in if c == sep then some (acc, s) else more

abbrev pub cut : ℕ → Bytes → Option (Bytes × Bytes)
cut sep s = cut_from sep [] s

-- `strings.Join(parts, sep)` for a separator of one byte.
unfoldable pub join : ℕ → List Bytes → Bytes
join sep [] = []
join sep (s ∷ []) = s
join sep (s ∷ s' ∷ ss) = s ++ sep ∷ join sep (s' ∷ ss)

abbrev pub has_byte : ℕ → Bytes → Bool
has_byte b s = any (λ c. c == b) s

pub has_byte-append : (b : ℕ) (s t : Bytes) → has_byte b (s ++ t) ≡ (has_byte b s || has_byte b t)
has_byte-append b [] t = refl
has_byte-append b (c ∷ s) t = ground (arith, has_byte-append b s t)

split_from-append :
    (sep : ℕ) (acc s rest : Bytes)
    → has_byte sep s ≡ false
    → split_from sep acc (s ++ sep ∷ rest) ≡ (acc ++ s) ∷ split_from sep [] rest
unfolding split_from
split_from-append sep acc [] rest h = ground (arith, append-nil acc)
split_from-append sep acc (c ∷ s) rest h =
    ground (arith, split_from-append sep (acc ++ c ∷ []) s rest, append_assoc acc (c ∷ []) s)

split_from_last :
    (sep : ℕ) (acc s : Bytes) → has_byte sep s ≡ false → split_from sep acc s ≡ (acc ++ s) ∷ []
unfolding split_from
split_from_last sep acc [] h = ground (arith, append-nil acc)
split_from_last sep acc (c ∷ s) h =
    ground (arith, split_from_last sep (acc ++ c ∷ []) s, append_assoc acc (c ∷ []) s)

-- Splitting takes a join apart again, if no part holds the separator.
pub split-join :
    (sep : ℕ) (s : Bytes) (ss : List Bytes)
    → all (λ p. not (has_byte sep p)) (s ∷ ss) ≡ true
    → split sep (join sep (s ∷ ss)) ≡ s ∷ ss
unfolding join
split-join sep s [] h = split_from_last sep [] s (ground arith)
split-join sep s (s' ∷ ss) h =
    split_from-append sep [] s (join sep (s' ∷ ss)) (ground arith)
    ∙ ap (◌∷◌ s) (split-join sep s' ss (ground arith))

cut_from-append :
    (sep : ℕ) (acc k v : Bytes)
    → has_byte sep k ≡ false
    → cut_from sep acc (k ++ sep ∷ v) ≡ some (acc ++ k, v)
unfolding cut_from
cut_from-append sep acc [] v h = ground (arith, append-nil acc)
cut_from-append sep acc (c ∷ k) v h =
    ground (arith, cut_from-append sep (acc ++ c ∷ []) k v, append_assoc acc (c ∷ []) k)

pub cut-append :
    (sep : ℕ) (k v : Bytes) → has_byte sep k ≡ false → cut sep (k ++ sep ∷ v) ≡ some (k, v)
cut-append sep k v h = cut_from-append sep [] k v h

-- `sort.Strings`: equal strings are the same, so every sorting function gives this list.
unfoldable pub insert_sorted : Bytes → List Bytes → List Bytes
insert_sorted a [] = a ∷ []
insert_sorted a (x ∷ xs) = if bytes_lt x a then x ∷ insert_sorted a xs else a ∷ x ∷ xs

unfoldable pub sort_strings : List Bytes → List Bytes
unfolding insert_sorted
sort_strings [] = []
sort_strings (x ∷ xs) = insert_sorted x (sort_strings xs)

mem_bytes-insert_sorted :
    (a x : Bytes) (xs : List Bytes)
    → mem_bytes a (insert_sorted x xs) ≡ (bytes_eq x a || mem_bytes a xs)
unfolding insert_sorted mem_bytes
mem_bytes-insert_sorted a x [] = refl
mem_bytes-insert_sorted a x (y ∷ ys) = ground (arith, mem_bytes-insert_sorted a x ys)

-- Sorting keeps the elements.
pub mem_bytes-sort_strings :
    (a : Bytes) (xs : List Bytes) → mem_bytes a (sort_strings xs) ≡ mem_bytes a xs
unfolding sort_strings mem_bytes
mem_bytes-sort_strings a [] = refl
mem_bytes-sort_strings a (x ∷ xs) =
    ground (arith, mem_bytes-insert_sorted a x (sort_strings xs), mem_bytes-sort_strings a xs)

insert_sorted-Distinct :
    (x : Bytes) (xs : List Bytes)
    → mem_bytes x xs ≡ false
    → Distinct xs
    → Distinct (insert_sorted x xs)
unfolding insert_sorted mem_bytes
insert_sorted-Distinct x [] h d = (refl, tt)
insert_sorted-Distinct x (y ∷ ys) h d = ground (
  arith,
  insert_sorted-Distinct x ys,
  mem_bytes-insert_sorted y x ys,
  bytes_eq_iff x y,
  bytes_eq_iff y x,
)

pub sort_strings-Distinct : (xs : List Bytes) → Distinct xs → Distinct (sort_strings xs)
unfolding sort_strings
sort_strings-Distinct [] d = tt
sort_strings-Distinct (x ∷ xs) d =
    insert_sorted-Distinct x (sort_strings xs) (rw mem_bytes-sort_strings d.0)
      (sort_strings-Distinct xs d.1)

all-insert_sorted :
    (p : Bytes → Bool) (x : Bytes) (xs : List Bytes)
    → all p (insert_sorted x xs) ≡ (p x && all p xs)
unfolding insert_sorted
all-insert_sorted p x [] = refl
all-insert_sorted p x (y ∷ ys) = ground (arith, all-insert_sorted p x ys)

-- Sorting keeps a test that all elements pass.
pub all-sort_strings : (p : Bytes → Bool) (xs : List Bytes) → all p (sort_strings xs) ≡ all p xs
unfolding sort_strings
all-sort_strings p [] = refl
all-sort_strings p (x ∷ xs) =
    all-insert_sorted p x (sort_strings xs) ∙ ap (λ b. p x && b) (all-sort_strings p xs)

cut_from-no_sep :
    (sep : ℕ) (acc s k v : Bytes)
    → has_byte sep acc ≡ false
    → cut_from sep acc s ≡ some (k, v)
    → has_byte sep k ≡ false
unfolding cut_from
cut_from-no_sep sep acc [] k v h e = cc
cut_from-no_sep sep acc (c ∷ s) k v h e =
    ground (arith, cut_from-no_sep sep (acc ++ c ∷ []) s k v, has_byte-append sep acc (c ∷ []))

-- What stands before the separator does not hold it.
pub cut-no_sep : (sep : ℕ) (s k v : Bytes) → cut sep s ≡ some (k, v) → has_byte sep k ≡ false
cut-no_sep sep s k v e = cut_from-no_sep sep [] s k v refl e
