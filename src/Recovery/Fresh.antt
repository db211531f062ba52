-- ===== src/Recovery/Fresh.antt =====
-- storage.go: the number of the next part after `Open` is that of no part.
use marchilogs.Base.{
  Bool-cases, Bytes, List, Result, [], arith, atoi, atoi-zero_padded, digits_value, err, false,
  has_prefix, if-both, inl, inr, io_failure, mem_bytes, mem_bytes-keep_if, none, ok, pos, refl,
  some, sym, true, zero_padded, ℤ, ◌+◌, ◌<◌, ◌==◌, ◌^◌, ◌∙◌, ◌∷◌, ◌≡◌,
}
use marchilogs.Calendar.{Time}
use marchilogs.Deletes.{seq_at}
use marchilogs.Engine.{apply_locked, ◌if_ok◌}
use marchilogs.Flush.{Io, Outcome, make_root}
use marchilogs.Options.{Options, second, with_defaults}
use marchilogs.Parts.{is_published_part_dir}
use marchilogs.Parts.Manifest.{next_part_id_fresh}
use marchilogs.Recovery.{
  Root, cleanup_orphan_publishing, load_all, load_deletes, load_index_dbs, load_manifests,
  load_part_seq, new_store, open_log, open_store, part_dirs, replay_records, replayed,
  replayed_entry, seq_from_dirs, seq_from_manifests, with_log,
}
use marchilogs.Recovery.Numbers.{
  Bounds, Bounds-le, published, seq_from_dirs-Bounds, seq_from_dirs-le, seq_from_manifests-Bounds,
}
use marchilogs.Store.{Store, day_at}
use marchilogs.Tags.{ids_at}
use marchilogs.Wal.{RecordCodec, Wal, WalRecord, open_wal, replay_after_checkpoint}

-- The numbers of a store bound those of its parts, in the manifests and on disk.
IsNumbered : Store → Type 0
IsNumbered s =
    (day : Bytes)
    → Bounds (seq_at day s.part_seq) (ids_at day s.manifests)
      × Bounds (seq_at day s.part_seq) (published (day_at day s.disk))

load_part_seq-IsNumbered : (s : Store) → IsNumbered (load_part_seq s)
unfolding IsNumbered load_part_seq
load_part_seq-IsNumbered s day =
    let seqs = seq_from_manifests s.manifests s.part_seq in
    (
      Bounds-le (seq_at day seqs) (seq_at day (seq_from_dirs s.disk seqs)) (ids_at day s.manifests)
          (seq_from_dirs-le s.disk seqs day) (seq_from_manifests-Bounds s.manifests s.part_seq day),
      seq_from_dirs-Bounds s.disk seqs day,
    )

replay_records-IsNumbered :
    (fields : List Bytes) (now : Time) (rs : List WalRecord) (s : Store)
    → IsNumbered s
    → IsNumbered (replay_records fields now rs s)
unfolding IsNumbered replay_records apply_locked
replay_records-IsNumbered fields now [] s h = h
replay_records-IsNumbered fields now (r ∷ rs) s h =
    replay_records-IsNumbered fields now rs (apply_locked (replayed_entry fields now r) r.seq s) h

open_log-IsNumbered :
    (codec : RecordCodec) (o : Options) (now : Time) (root : Root) (s : Store)
    → IsNumbered s
    → IsNumbered (open_log codec o now root s).0
unfolding open_log IsNumbered
open_log-IsNumbered codec o now root s h =
    if-both (λ (out : Outcome). IsNumbered out.0) o.enable_wal
      (with_log codec o now s (open_wal codec root.log root.checkpoint_file)) (s, none)
      (λ logs. with_log-IsNumbered (open_wal codec root.log root.checkpoint_file)) (λ off. h)
  where
    replayed-IsNumbered :
        (w : Wal) (r : Result (List WalRecord)) → IsNumbered (replayed codec o now s w r).0
    replayed-IsNumbered w (err e) = h
    replayed-IsNumbered w (ok rs) =
        replay_records-IsNumbered o.stream_fields now rs (record s { wal = some w }) h

    with_log-IsNumbered : (r : Result Wal) → IsNumbered (with_log codec o now s r).0
    with_log-IsNumbered (err e) = h
    with_log-IsNumbered (ok w) = replayed-IsNumbered w (replay_after_checkpoint codec w)

-- What holds after two steps that succeed.
if_ok-succeeds :
    (P Q : Store → Type 0) (o : Outcome) (rest : Store → Outcome)
    → (o.1 ≡ none → P o.0)
    → ((s : Store) → P s → Q (rest s).0)
    → (o if_ok rest).1 ≡ none
    → Q (o if_ok rest).0
if_ok-succeeds P Q (s, none) rest first second h = second s (first refl)
if_ok-succeeds P Q (s, some e) rest first second h = cc

open_store-IsNumbered :
    (io : Io) (codec : RecordCodec) (opts : Options) (now : Time) (root : Root)
    → (open_store io codec opts now root).1 ≡ none
    → IsNumbered (open_store io codec opts now root).0
unfolding open_store load_all
open_store-IsNumbered io codec opts now root =
    let s = new_store root in
    if-both (λ (o : Outcome). o.1 ≡ none → IsNumbered o.0) (io make_root) (s, some io_failure)
      (load_all io s if_ok open_log codec (with_defaults opts) now root) (λ failed h. cc)
      (λ fine.
        if_ok-succeeds IsNumbered IsNumbered (load_all io s)
          (open_log codec (with_defaults opts) now root)
          (if_ok-succeeds (λ s'. Unit) IsNumbered
            (cleanup_orphan_publishing io s
              if_ok load_manifests io
              if_ok load_index_dbs io
              if_ok load_deletes)
            (λ s'. (load_part_seq s', none)) (λ h. tt) (λ s' h. load_part_seq-IsNumbered s'))
          (open_log-IsNumbered codec (with_defaults opts) now root))

-- A name that is a number is that of a part.
published_of_number : (name : Bytes) (n : ℤ) → atoi name ≡ ok n → is_published_part_dir name ≡ true
unfolding is_published_part_dir has_prefix atoi digits_value
published_of_number [] n h = ground (arith, h)
published_of_number (c ∷ s) n h = elim (Bool-cases (c == b'.')) [
  | inl dot ↦ ground (arith, h, dot)
  | inr other ↦ ground (arith, h, other)
]

-- The id of the next part of a day is neither in its manifest nor the name of a directory of it.
abbrev pub IsNextFresh : Bytes → Store → Type 0
IsNextFresh day s =
    let next = zero_padded 6 (seq_at day s.part_seq + 1) in
    (mem_bytes next (ids_at day s.manifests) ≡ false) × (mem_bytes next (part_dirs day s) ≡ false)

-- After an `Open` that succeeds, the id that the next flush of a day gives its part is neither in the day's
-- manifest nor the name of a directory of it, for numbers below 2^63.
pub open_store-Fresh :
    (io : Io) (codec : RecordCodec) (opts : Options) (now : Time) (root : Root) (day : Bytes)
    → (open_store io codec opts now root).1 ≡ none
    → seq_at day (open_store io codec opts now root).0.part_seq + 1 < 2 ^ 63
    → IsNextFresh day (open_store io codec opts now root).0
unfolding IsNumbered
open_store-Fresh io codec opts now root day h hn =
    let s = (open_store io codec opts now root).0 in
    let n = seq_at day s.part_seq in
    let next = zero_padded 6 (n + 1) in
    let (listed, there) = open_store-IsNumbered io codec opts now root h day in
    (
      next_part_id_fresh (ids_at day s.manifests) n listed hn,
      sym (
            mem_bytes-keep_if (λ name. is_published_part_dir name) next (part_dirs day s)
            ∙ rw (published_of_number next (pos (n + 1)) (atoi-zero_padded 6 (n + 1) hn)) refl)
          ∙ next_part_id_fresh (published (day_at day s.disk)) n there hn,
    )
