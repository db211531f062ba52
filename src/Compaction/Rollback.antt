-- ===== src/Compaction/Rollback.antt =====
-- compaction.go: what the rollback of a merge leaves behind.
use marchilogs.Compaction.Outcomes.{
  Unchanged, Lost, Left, ListsMerged, lookup-with_part, lookup-without_part, parts_at,
}
use marchilogs.Base.{
  Bool, Bytes, List, ap, arith, bytes_eq, bytes_eq_iff, bytes_eq_refl, false, if-both,
  if◌then◌else◌, insert, lookup, mem_bytes, none, some, true, zero_padded, ℕ, ◌-◌, ◌==◌, ◌∙◌, ◌≡◌,
  else-branch,
}
use marchilogs.Compaction.{rolled_back}
use marchilogs.Deletes.{seq_at}
use marchilogs.Flush.{Io, with_part, without_part, try_remove, remove_part}
use marchilogs.Flush.Outcomes.{try_remove-both}
use marchilogs.Store.{Part, Store}
use marchilogs.Tags.{ids_at}

ne_of_fresh :
    (name id : Bytes) (ids : List Bytes)
    → mem_bytes name ids ≡ false
    → mem_bytes id ids ≡ true
    → bytes_eq name id ≡ false
ne_of_fresh name id ids fresh there = ground (arith, bytes_eq_iff name id, fresh, there)

module _ (day : Bytes) (id : ℕ) (s : Store)
    (fresh : mem_bytes (zero_padded 6 id) (ids_at day s.manifests) ≡ false) where
  without-Unchanged :
      (t : Store) → Unchanged day s t → Unchanged day s (without_part day (zero_padded 6 id) t)
  without-Unchanged t u = record {
    listed = u.listed;
    on_disk = λ other there.
        lookup-without_part day (zero_padded 6 id) other t
        ∙ ap (λ (b : Bool). if b then none else lookup other (parts_at day t))
            (ne_of_fresh (zero_padded 6 id) other (ids_at day s.manifests) fresh there)
        ∙ u.on_disk other there;
  }

  pub rolled_back-Unchanged :
      (io : Io) (t : Store) → Unchanged day s t → Unchanged day s (rolled_back io day id t)
  rolled_back-Unchanged io t u =
      let t' = record t { part_seq = insert day (id - 1) t.part_seq } in
      let u' : Unchanged day s t' = record { listed = u.listed; on_disk = u.on_disk } in
      let tried = λ (v : Store). try_remove io day (zero_padded 6 id) v in
      if-both (λ (v : Store). Unchanged day s (tried v)) (seq_at day t.part_seq == id) t' t
        (λ last.
          try_remove-both (Unchanged day s) io day (zero_padded 6 id) t' u'
            (without-Unchanged t' u'))
        (λ later.
          try_remove-both (Unchanged day s) io day (zero_padded 6 id) t u (without-Unchanged t u))

  pub placed-Unchanged :
      (part : Part) (t : Store)
      → Unchanged day s t
      → Unchanged day s (with_part day (zero_padded 6 id) part t)
  placed-Unchanged part t u = record {
    listed = u.listed;
    on_disk = λ other there.
        lookup-with_part day (zero_padded 6 id) other part t
        ∙ ap (λ (b : Bool). if b then some part else lookup other (parts_at day t))
            (ne_of_fresh (zero_padded 6 id) other (ids_at day s.manifests) fresh there)
        ∙ u.on_disk other there;
  }

-- A part that was numbered and is taken back is not there, whatever the manifest says.
pub rolled_back-Lost :
    (io : Io) (day : Bytes) (inputs : List Bytes) (id : ℕ) (s t : Store)
    → io (remove_part day (zero_padded 6 id)) ≡ false
    → ListsMerged day inputs (zero_padded 6 id) s t
    → Lost day inputs (zero_padded 6 id) s (rolled_back io day id t)
rolled_back-Lost io day inputs id s t fine h =
    let name = zero_padded 6 id in
    let lost_from = λ (v : Store) (hv : ListsMerged day inputs name s v).
      else-branch (Lost day inputs name s) (io (remove_part day name)) v (without_part day name v)
        fine
        (record {
          listed = hv;
          gone =
              lookup-without_part day name name v
              ∙ ap (λ (b : Bool). if b then none else lookup name (parts_at day v))
                  (bytes_eq_refl name);
        }) in
    let t' = record t { part_seq = insert day (id - 1) t.part_seq } in
    if-both (λ (v : Store). Lost day inputs name s (try_remove io day name v))
      (seq_at day t.part_seq == id) t' t (λ last. lost_from t' h) (λ later. lost_from t h)

-- Where its removal fails, it stays.
pub rolled_back-Left :
    (io : Io) (day : Bytes) (inputs : List Bytes) (id : ℕ) (part : Part) (s t : Store)
    → io (remove_part day (zero_padded 6 id)) ≡ true
    → ListsMerged day inputs (zero_padded 6 id) s t
    → lookup (zero_padded 6 id) (parts_at day t) ≡ some part
    → Left io day inputs (zero_padded 6 id) part s (rolled_back io day id t)
rolled_back-Left io day inputs id part s t failed h hp =
    let name = zero_padded 6 id in
    let left_from = λ (v : Store) (hv : Left io day inputs name part s v).
      if-both (Left io day inputs name part s) (io (remove_part day name)) v
        (without_part day name v) (λ still. hv) (λ fine. absurd cc) in
    let t' = record t { part_seq = insert day (id - 1) t.part_seq } in
    if-both (λ (v : Store). Left io day inputs name part s (try_remove io day name v))
      (seq_at day t.part_seq == id) t' t
      (λ last. left_from t' (record { listed = h; kept = failed; there = hp }))
      (λ later. left_from t (record { listed = h; kept = failed; there = hp }))
