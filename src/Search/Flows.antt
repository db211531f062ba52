-- ===== src/Search/Flows.antt =====
-- storage.go and inmemory_part.go: the loops of a search over rows and over buffers.
use mathlib.Core.Path.{subst}
use marchilogs.Base.{
  if◌then◌else◌, keep_if, keep_if-append, ℕ, ◌≡◌, refl, sym, ap, ◌∙◌, Bool, true, false, not, ◌&&◌,
  List, [], ◌∷◌, ◌++◌, append-nil, append_assoc,
}
use marchilogs.Entry.{Entry}
use marchilogs.Deletes.{DeleteRecord, entry_hidden_by_deletes}
use marchilogs.Search.{
  Query, Found, Flow, go, ◌and_then◌, is_full, is_skipped, scanned_row, suppressed_row, row_flow,
  scan_row, scan_rows, unless_pruned,
}

-- The tests that a row of a block must pass, for the records of its day.
unfoldable pub row_passes : Query → List DeleteRecord → Entry → Bool
row_passes q dels e = not (is_skipped q e) && not (entry_hidden_by_deletes e dels)

-- A piece of a search that goes on and adds rows.
abbrev pub Adds : Flow → List Entry → List Entry → Type 0
Adds flow out rows = (f : Found) × (flow ≡ go f) × (f.out ≡ out ++ rows)

pub Adds-none : (f : Found) (out : List Entry) → f.out ≡ out → Adds (go f) out []
Adds-none f out h = (f, refl, h ∙ sym (append-nil out))

pub Adds-then :
    (flow : Flow) (rest : Found → Flow) (out rows rows' : List Entry)
    → Adds flow out rows
    → ((f : Found) → Adds (rest f) f.out rows')
    → Adds (flow and_then rest) out (rows ++ rows')
Adds-then flow rest out rows rows' (f, ends, adds) next =
    let (f', ends', adds') = next f in
    (
      f',
      ap (λ (w : Flow). w and_then rest) ends ∙ ends',
      adds' ∙ ap (λ (l : List Entry). l ++ rows') adds ∙ append_assoc out rows rows',
    )

row_flow-Adds :
    (skipped hidden full : Bool) (e : Entry) (f : Found)
    → full ≡ false
    → Adds
        (row_flow skipped hidden full e f)
        f.out
        (if not skipped && not hidden then e ∷ [] else [])
row_flow-Adds true hidden full e f h = Adds-none f f.out refl
row_flow-Adds false true full e f h = Adds-none (suppressed_row f) f.out refl
row_flow-Adds false false true e f h = cc
row_flow-Adds false false false e f h = (record f { out = f.out ++ e ∷ [] }, refl, refl)

scan_row-Adds :
    (q : Query) (dels : List DeleteRecord) (e : Entry) (f : Found)
    → q.limit ≡ 0
    → Adds (scan_row q dels e f) f.out (keep_if (row_passes q dels) (e ∷ []))
unfolding scan_row row_passes
scan_row-Adds q dels e f h =
    row_flow-Adds (is_skipped q e) (entry_hidden_by_deletes e dels)
      (is_full q.limit (f.out ++ e ∷ [])) e (scanned_row f)
      (ap (λ (n : ℕ). is_full n (f.out ++ e ∷ [])) h)

pub scan_rows-Adds :
    (q : Query) (dels : List DeleteRecord) (es : List Entry) (f : Found)
    → q.limit ≡ 0
    → Adds (scan_rows q dels es f) f.out (keep_if (row_passes q dels) es)
unfolding scan_rows
scan_rows-Adds q dels [] f h = Adds-none f f.out refl
scan_rows-Adds q dels (e ∷ es) f h =
    subst (Adds (scan_rows q dels (e ∷ es) f) f.out)
      (sym (keep_if-append (row_passes q dels) (e ∷ []) es))
      (Adds-then (scan_row q dels e f) (λ f'. scan_rows q dels es f') f.out
        (keep_if (row_passes q dels) (e ∷ [])) (keep_if (row_passes q dels) es)
        (scan_row-Adds q dels e f h) (λ f'. scan_rows-Adds q dels es f' h))

-- Rows that a test prunes add nothing, if none of them passes.
pub unless_pruned-Adds :
    (pruned : Bool) (skipped scan : Flow) (out rows : List Entry)
    → (pruned ≡ true → rows ≡ [])
    → Adds skipped out []
    → Adds scan out rows
    → Adds (unless_pruned pruned skipped scan) out rows
unless_pruned-Adds true skipped scan out rows h hs hr = subst (Adds skipped out) (sym (h refl)) hs
unless_pruned-Adds false skipped scan out rows h hs hr = hr

pub unless_pruned-both :
    (P : Flow → Type 0) (pruned : Bool) (skipped scan : Flow)
    → (pruned ≡ true → P skipped)
    → (pruned ≡ false → P scan)
    → P (unless_pruned pruned skipped scan)
unless_pruned-both P true skipped scan hs hr = hs refl
unless_pruned-both P false skipped scan hs hr = hr refl
