-- ===== src/Base/Maps.antt =====
-- Go's maps with string keys, as association lists. Go leaves the order of an iteration open; here
-- it is the order of the list, so a statement for every list covers every order.
use mathlib.Core.Path.{◌≡◌, refl, sym, ap, subst}
use mathlib.Core.Bool.{Bool, true, false, ◌&&◌, ◌||◌, not}
use mathlib.Core.List.{List, [], ◌∷◌, ◌++◌}
use mathlib.Core.Option.{Option, none, some}
use native.Mathlib.Omega.{arith}
use marchilogs.Base.Tests.{if◌then◌else◌}
use marchilogs.Base.Lists.{All}
use marchilogs.Base.ByteStrings.{Bytes, bytes_eq, bytes_eq_iff, mem_bytes, Distinct}

abbrev pub Map {ℓ} : Type ℓ → Type ℓ
Map V = List (Bytes × V)

module _ {ℓ} {V : Type ℓ} where
  abbrev pub keys : Map V → List Bytes
  keys [] = []
  keys ((k, v) ∷ m) = k ∷ keys m

  -- `v, ok := m[k]`
  unfoldable pub lookup : Bytes → Map V → Option V
  lookup k [] = none
  lookup k ((j, v) ∷ m) = if bytes_eq j k then some v else lookup k m

  -- `m[k] = v`
  unfoldable pub insert : Bytes → V → Map V → Map V
  insert k v [] = (k, v) ∷ []
  insert k v ((j, w) ∷ m) = if bytes_eq j k then (j, v) ∷ m else (j, w) ∷ insert k v m

  -- `delete(m, k)`
  unfoldable pub remove : Bytes → Map V → Map V
  remove k [] = []
  remove k ((j, w) ∷ m) = if bytes_eq j k then remove k m else (j, w) ∷ remove k m

  abbrev pub IsMap : Map V → Type 0
  IsMap m = Distinct (keys m)

  pub lookup-insert :
      (k j : Bytes) (v : V) (m : Map V)
      → lookup j (insert k v m) ≡ (if bytes_eq k j then some v else lookup j m)
  unfolding lookup insert
  lookup-insert k j v [] = refl
  lookup-insert k j v ((i, w) ∷ m) =
      ground (arith, bytes_eq_iff k j, bytes_eq_iff i k, bytes_eq_iff i j, lookup-insert k j v m)

  pub lookup-remove :
      (k j : Bytes) (m : Map V)
      → lookup j (remove k m) ≡ (if bytes_eq k j then none else lookup j m)
  unfolding lookup remove
  lookup-remove k j [] = ground arith
  lookup-remove k j ((i, w) ∷ m) =
      ground (arith, bytes_eq_iff k j, bytes_eq_iff i k, bytes_eq_iff i j, lookup-remove k j m)

  pub lookup-eq-none : (k : Bytes) (m : Map V) → mem_bytes k (keys m) ≡ false → lookup k m ≡ none
  unfolding lookup mem_bytes
  lookup-eq-none k [] h = refl
  lookup-eq-none k ((j, v) ∷ m) h = ground (arith, lookup-eq-none k m)

  pub mem_keys_of_lookup :
      (k : Bytes) (m : Map V) (v : V) → lookup k m ≡ some v → mem_bytes k (keys m) ≡ true
  unfolding lookup mem_bytes
  mem_keys_of_lookup k [] v h = cc
  mem_keys_of_lookup k ((j, w) ∷ m) v h = ground (arith, mem_keys_of_lookup k m v)

  pub mem_keys-insert :
      (j k : Bytes) (v : V) (m : Map V)
      → mem_bytes j (keys (insert k v m)) ≡ (bytes_eq k j || mem_bytes j (keys m))
  unfolding insert mem_bytes
  mem_keys-insert j k v [] = refl
  mem_keys-insert j k v ((i, w) ∷ m) =
      ground (arith, bytes_eq_iff k j, bytes_eq_iff i k, bytes_eq_iff i j, mem_keys-insert j k v m)

  pub mem_keys-remove :
      (j k : Bytes) (m : Map V)
      → mem_bytes j (keys (remove k m)) ≡ (not (bytes_eq k j) && mem_bytes j (keys m))
  unfolding remove mem_bytes
  mem_keys-remove j k [] = ground arith
  mem_keys-remove j k ((i, w) ∷ m) =
      ground (arith, bytes_eq_iff k j, bytes_eq_iff i k, bytes_eq_iff i j, mem_keys-remove j k m)

  pub insert-IsMap : (k : Bytes) (v : V) (m : Map V) → IsMap m → IsMap (insert k v m)
  unfolding insert mem_bytes
  insert-IsMap k v [] h = (refl, tt)
  insert-IsMap k v ((i, w) ∷ m) h =
      ground
        (arith, bytes_eq_iff i k, bytes_eq_iff k i, mem_keys-insert i k v m, insert-IsMap k v m)

  pub remove-IsMap : (k : Bytes) (m : Map V) → IsMap m → IsMap (remove k m)
  unfolding remove mem_bytes
  remove-IsMap k [] h = tt
  remove-IsMap k ((i, w) ∷ m) h = ground (arith, mem_keys-remove i k m, remove-IsMap k m)

  pub absent_of_lookup : (k : Bytes) (m : Map V) → lookup k m ≡ none → mem_bytes k (keys m) ≡ false
  unfolding lookup mem_bytes
  absent_of_lookup k [] h = refl
  absent_of_lookup k ((j, w) ∷ m) h = ground (arith, absent_of_lookup k m)

  pub insert_absent :
      (k : Bytes) (v : V) (m : Map V)
      → mem_bytes k (keys m) ≡ false
      → insert k v m ≡ m ++ (k, v) ∷ []
  unfolding insert mem_bytes
  insert_absent k v [] h = refl
  insert_absent k v ((j, w) ∷ m) h = ground (arith, insert_absent k v m)

  pub keys-append : (m n : Map V) → keys (m ++ n) ≡ keys m ++ keys n
  keys-append [] n = refl
  keys-append ((j, w) ∷ m) n = rw (keys-append m n)

  -- A property of the entries, of a key with its value.
  pub All-insert {κ} :
      (P : Bytes × V → Type κ) (k : Bytes) (v : V) (m : Map V)
      → P (k, v)
      → All P m
      → All P (insert k v m)
  unfolding insert
  All-insert P k v [] h hm = (h, tt)
  All-insert P k v ((j, w) ∷ m) h hm = by_key (bytes_eq j k) refl (All-insert P k v m h hm.1)
    where
      by_key :
          (b : Bool)
          → bytes_eq j k ≡ b
          → All P (insert k v m)
          → All P (if b then (j, v) ∷ m else (j, w) ∷ insert k v m)
      by_key true e later = (subst (λ i. P (i, v)) (sym ((bytes_eq_iff j k).0 e)) h, hm.1)
      by_key false e later = (hm.0, later)

  pub All-lookup {κ} :
      (P : Bytes × V → Type κ) (k : Bytes) (v : V) (m : Map V)
      → All P m
      → lookup k m ≡ some v
      → P (k, v)
  unfolding lookup
  All-lookup P k v [] hm h = cc
  All-lookup P k v ((j, w) ∷ m) hm h = by_key (bytes_eq j k) refl h (All-lookup P k v m hm.1)
    where
      same : (u u' : V) → some u ≡ some u' → u ≡ u'
      same u u' e = cc

      by_key :
          (b : Bool)
          → bytes_eq j k ≡ b
          → (if b then some w else lookup k m) ≡ some v
          → (lookup k m ≡ some v → P (k, v))
          → P (k, v)
      by_key true e found later =
          subst P (ap (λ (i : Bytes). (i, v)) ((bytes_eq_iff j k).0 e))
            (subst (λ u. P (j, u)) (same w v found) hm.0)
      by_key false e found later = later found
