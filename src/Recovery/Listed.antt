-- ===== src/Recovery/Listed.antt =====
-- storage.go: `Open` keeps the parts that a manifest lists.
use marchilogs.Base.{
  Bytes, List, Map, Result, [], err, false, if-both, io_failure, lookup, mem_bytes, none, ok, refl,
  some, sym, true, ◌∙◌, ◌∷◌, ◌≡◌,
}
use marchilogs.Calendar.{Time}
use marchilogs.Engine.{apply_locked, if_ok-keeps, ◌if_ok◌}
use marchilogs.Flush.{Io, Outcome, make_root}
use marchilogs.Options.{Options, with_defaults}
use marchilogs.Recovery.{
  Root, is_leftover, load_all, new_store, open_log, open_store, replay_records, replayed,
  replayed_entry, with_log,
}
use marchilogs.Recovery.Removals.{KeepsDir, KeepsListed}
use marchilogs.Recovery.Steps.{load_all-KeepsListed}
use marchilogs.Store.{DayDir, Store, day_at, holds}
use marchilogs.Wal.{RecordCodec, Wal, WalRecord, open_wal, replay_after_checkpoint}
use mathlib.Core.Path.{subst}

-- The replay of the log leaves the directories as they are.
replay_records-disk :
    (fields : List Bytes) (now : Time) (rs : List WalRecord) (s : Store)
    → (replay_records fields now rs s).disk ≡ s.disk
unfolding replay_records apply_locked
replay_records-disk fields now [] s = refl
replay_records-disk fields now (r ∷ rs) s =
    replay_records-disk fields now rs (apply_locked (replayed_entry fields now r) r.seq s)

open_log-disk :
    (codec : RecordCodec) (o : Options) (now : Time) (root : Root) (s : Store)
    → (open_log codec o now root s).0.disk ≡ s.disk
unfolding open_log
open_log-disk codec o now root s =
    if-both (λ (out : Outcome). out.0.disk ≡ s.disk) o.enable_wal
      (with_log codec o now s (open_wal codec root.log root.checkpoint_file)) (s, none)
      (λ logs. with_log-disk (open_wal codec root.log root.checkpoint_file)) (λ off. refl)
  where
    replayed-disk :
        (w : Wal) (r : Result (List WalRecord)) → (replayed codec o now s w r).0.disk ≡ s.disk
    replayed-disk w (err e) = refl
    replayed-disk w (ok rs) = replay_records-disk o.stream_fields now rs (record s { wal = some w })

    with_log-disk : (r : Result Wal) → (with_log codec o now s r).0.disk ≡ s.disk
    with_log-disk (err e) = refl
    with_log-disk (ok w) = replayed-disk w (replay_after_checkpoint codec w)

open_store-KeepsListed :
    (io : Io) (codec : RecordCodec) (opts : Options) (now : Time) (root : Root)
    → KeepsListed root.partitions (open_store io codec opts now root).0
unfolding open_store
open_store-KeepsListed io codec opts now root =
    let s = new_store root in
    let kept : KeepsListed root.partitions s = λ day ids listed. (listed, λ name hn hl. refl) in
    if-both (λ (o : Outcome). KeepsListed root.partitions o.0) (io make_root) (s, some io_failure)
      (load_all io s if_ok open_log codec (with_defaults opts) now root) (λ failed. kept)
      (λ fine.
        if_ok-keeps (KeepsListed root.partitions) (load_all io s)
          (open_log codec (with_defaults opts) now root)
          (load_all-KeepsListed root.partitions io s kept)
          (λ s' h.
            subst
              (λ (disk : Map DayDir).
                (day : Bytes) → KeepsDir (day_at day root.partitions) (day_at day disk))
              (sym (open_log-disk codec (with_defaults opts) now root s')) h))

-- The manifest of a day is as it was, and so is the part.
abbrev pub KeepsPart : Bytes → DayDir → DayDir → Type 0
KeepsPart name old new =
    (new.manifest ≡ old.manifest) × (lookup name new.parts ≡ lookup name old.parts)

-- An `Open` that succeeds or fails, whichever of its calls fail, leaves the manifest of a day as it is,
-- if it can be read, and every part that it lists, but for one with the name of a part that is being
-- written.
pub open_store-KeepsPart :
    (io : Io) (codec : RecordCodec) (opts : Options) (now : Time) (root : Root)
    → (day name : Bytes) (ids : List Bytes) → (day_at day root.partitions).manifest ≡ holds ids
    → mem_bytes name ids ≡ true
    → is_leftover name ≡ false
    → KeepsPart name
        (day_at day root.partitions)
        (day_at day (open_store io codec opts now root).0.disk)
open_store-KeepsPart io codec opts now root day name ids listed hn hl =
    let (held, kept) = open_store-KeepsListed io codec opts now root day ids listed in
    (held ∙ sym listed, kept name hn hl)
