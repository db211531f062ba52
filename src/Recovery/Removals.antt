-- ===== src/Recovery/Removals.antt =====
-- manifest.go and storage.go: what a removal in `Open` leaves of the parts that a manifest lists.
use marchilogs.Base.{
  Bool, Bool-cases, Bytes, List, Map, Option, [], arith, bytes_eq, eq_of_bytes_eq, false,
  if◌then◌else◌, inl, inr, lookup, lookup-insert, lookup-remove, mem_bytes, none, not, refl, remove,
  some, sym, true, ◌&&◌, ◌∙◌, ◌∷◌, ◌≡◌,
}
use marchilogs.Engine.{if_ok-keeps}
use marchilogs.Flush.{Outcome, set_day, without_part}
use marchilogs.Recovery.{for_each, is_leftover}
use marchilogs.Store.{DayDir, Store, day_at, empty_day, holds}
use mathlib.Core.Path.{subst}

-- A loop keeps what each of its steps keeps.
pub for_each-keeps :
    (P : Store → Type 0) (step : Bytes → Store → Outcome) (ks : List Bytes) (s : Store)
    → ((k : Bytes) (s' : Store) → P s' → P (step k s').0)
    → P s
    → P (for_each step ks s).0
unfolding for_each
for_each-keeps P step [] s each h = h
for_each-keeps P step (k ∷ ks) s each h =
    if_ok-keeps P (step k s) (λ s'. for_each step ks s') (each k s h)
      (λ s' h'. for_each-keeps P step ks s' each h')

-- A readable manifest is as it was, and so are the parts that it lists, but for those with the name of
-- a part that is being written.
abbrev pub KeepsDir : DayDir → DayDir → Type 0
KeepsDir old new =
    (ids : List Bytes)
    → old.manifest ≡ holds ids
    → (new.manifest ≡ holds ids)
      × ((name : Bytes)
          → mem_bytes name ids ≡ true
          → is_leftover name ≡ false
          → lookup name new.parts ≡ lookup name old.parts)

abbrev pub KeepsListed : Map DayDir → Store → Type 0
KeepsListed disk s = (day : Bytes) → KeepsDir (day_at day disk) (day_at day s.disk)

module _ (disk : Map DayDir) where
  pub set_day-KeepsListed :
      (day : Bytes) (dir : DayDir) (s : Store)
      → KeepsListed disk s
      → KeepsDir (day_at day disk) dir
      → KeepsListed disk (set_day day dir s)
  set_day-KeepsListed day dir s h hd j =
      subst (λ (d : Option DayDir). KeepsDir (day_at j disk) (dir_of d))
        (sym (lookup-insert day j dir s.disk)) (by_key (bytes_eq day j) refl)
    where
      dir_of : Option DayDir → DayDir
      dir_of d = elim d [ none ↦ empty_day | some d' ↦ d' ]

      by_key :
          (same : Bool)
          → bytes_eq day j ≡ same
          → KeepsDir (day_at j disk) (dir_of (if same then some dir else lookup j s.disk))
      by_key true e =
          subst (λ (k : Bytes). KeepsDir (day_at k disk) dir) (eq_of_bytes_eq day j e) hd
      by_key false e = h j

  pub without_part-KeepsListed :
      (day name : Bytes) (s : Store)
      → KeepsListed disk s
      → ((ids : List Bytes)
          → (day_at day disk).manifest ≡ holds ids
          → (mem_bytes name ids && not (is_leftover name)) ≡ false)
      → KeepsListed disk (without_part day name s)
  without_part-KeepsListed day name s h off =
      let dir = day_at day s.disk in
      set_day-KeepsListed day (record dir { parts = remove name dir.parts }) s h
        (λ ids listed. (
          (h day ids listed).0,
          λ n hn hl.
              lookup-remove name n dir.parts
              ∙ other n ids (off ids listed) hn hl
              ∙ (h day ids listed).1 n hn hl,
        ))
    where
      taken : {a b : Bool} → (a && not b) ≡ false → a ≡ true → b ≡ false → ⊥
      taken h ha hb = ground (arith, h, ha, hb)

      other :
          (n : Bytes) (ids : List Bytes)
          → (mem_bytes name ids && not (is_leftover name)) ≡ false
          → mem_bytes n ids ≡ true
          → is_leftover n ≡ false
          → (if bytes_eq name n then none else lookup n (day_at day s.disk).parts)
            ≡ lookup n (day_at day s.disk).parts
      other n ids ho hn hl = elim (Bool-cases (bytes_eq name n)) [
        | inr differs ↦ rw differs refl
        | inl same ↦ absurd (
            taken
              (subst (λ (k : Bytes). (mem_bytes k ids && not (is_leftover k)) ≡ false)
                (eq_of_bytes_eq name n same) ho)
              hn hl)
      ]
