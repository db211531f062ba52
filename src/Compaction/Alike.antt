-- ===== src/Compaction/Alike.antt =====
-- storage.go and delete.go: a search tells rows apart by their times and their fields only.
use marchilogs.Base.{
  Bool, Bytes, List, Map, Option, [], ap, arith, bytes_eq, count_if, eqb_ℤ, false, has_substring,
  if◌then◌else◌, is_empty, keep_if, lookup, ltb_ℤ, none, not, pos, refl, some, true, ◌&&◌, ◌||◌,
  ◌∷◌, ◌≡◌,
}
use marchilogs.Compaction.Rows.{Alike, AllAlike}
use marchilogs.Deletes.{DeleteRecord, entry_hidden_by_deletes, fields_match, hides_entry}
use marchilogs.Entry.{Entry, field_msg, field_of, field_stream, is_zero, unix_nano}
use marchilogs.Search.{Query}
use marchilogs.Search.Flows.{row_passes}
use marchilogs.Tags.{stream_matches_tags}

-- A test that reads no more of an entry than its time and the values of its fields.
abbrev pub Respects : (Entry → Bool) → Type 0
Respects p = (e e' : Entry) → Alike e e' → p e ≡ p e'

field_of-alike :
    (k : Bytes) (fields fields' : Map Bytes)
    → ((j : Bytes) → lookup j fields ≡ lookup j fields')
    → field_of k fields ≡ field_of k fields'
field_of-alike k fields fields' h =
    ap (λ (o : Option Bytes). elim o [ none ↦ [] | some v ↦ v ]) (h k)

fields_match-alike :
    (fields fields' q : Map Bytes)
    → ((j : Bytes) → lookup j fields ≡ lookup j fields')
    → fields_match fields q ≡ fields_match fields' q
unfolding fields_match
fields_match-alike fields fields' [] h = refl
fields_match-alike fields fields' ((k, v) ∷ q) h = λ i.
    if is_empty v
    then fields_match-alike fields fields' q h i
    else if bytes_eq (field_of-alike k fields fields' h i) v
    then fields_match-alike fields fields' q h i
    else false

hides_entry-Respects : (r : DeleteRecord) → Respects (hides_entry r)
unfolding hides_entry
hides_entry-Respects r e e' h =
    let stream = field_of-alike field_stream e.fields e'.fields h.1 in
    let text = field_of-alike field_msg e.fields e'.fields h.1 in
    let found = fields_match-alike e.fields e'.fields r.stream_eq h.1 in
    λ i.
      if not (eqb_ℤ r.start_ns (pos 0)) && ltb_ℤ (unix_nano (h.0 i)) r.start_ns
      then false
      else if not (eqb_ℤ r.end_ns (pos 0)) && ltb_ℤ r.end_ns (unix_nano (h.0 i))
      then false
      else if not
          (if is_empty (stream i) then found i else stream_matches_tags (stream i) r.stream_eq)
      then false
      else if not (is_empty r.contains) && not (has_substring (text i) r.contains)
      then false
      else true

entry_hidden_by_deletes-Respects :
    (dels : List DeleteRecord) → Respects (λ e. entry_hidden_by_deletes e dels)
unfolding entry_hidden_by_deletes
entry_hidden_by_deletes-Respects [] e e' h = refl
entry_hidden_by_deletes-Respects (d ∷ dels) e e' h = λ i.
    if hides_entry-Respects d e e' h i then true else entry_hidden_by_deletes-Respects dels e e' h i

pub row_passes-Respects : (q : Query) (dels : List DeleteRecord) → Respects (row_passes q dels)
unfolding row_passes
row_passes-Respects q dels e e' h =
    let text = field_of-alike field_msg e.fields e'.fields h.1 in
    let hidden = entry_hidden_by_deletes-Respects dels e e' h in
    λ i.
      not (
        (not (is_zero q.start) && ltb_ℤ (h.0 i) q.start)
        || (not (is_zero q.end) && ltb_ℤ q.end (h.0 i))
        || (not (is_empty q.contains) && not (has_substring (text i) q.contains)))
      && not (hidden i)

-- Rows that read alike are counted alike.
pub count-alike :
    (p r : Entry → Bool) (xs ys : List Entry)
    → Respects p
    → Respects r
    → AllAlike xs ys
    → count_if p (keep_if r xs) ≡ count_if p (keep_if r ys)
count-alike p r [] [] hp hr h = refl
count-alike p r [] (y ∷ ys) hp hr h = absurd h
count-alike p r (x ∷ xs) [] hp hr h = absurd h
count-alike p r (x ∷ xs) (y ∷ ys) hp hr h =
    ground (arith, hp x y h.0, hr x y h.0, count-alike p r xs ys hp hr h.1)
