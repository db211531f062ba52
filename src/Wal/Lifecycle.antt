-- ===== src/Wal/Lifecycle.antt =====
-- wal.go: what a replay hands on after an append, after a compaction, and after a restart.
use mathlib.Core.Path.{subst}
use marchilogs.Base.{
  ltb, leb, if◌then◌else◌, keep_if, All, keep_if-append, All-append, Bytes, Result, ok, err, ◌>>=◌,
  ok_of_chain, ℕ, ◌+◌, ◌%◌, ◌^◌, ◌≤◌, ◌≡◌, refl, sym, ap, ◌∙◌, Bool, true, false, not, Option, List,
  [], ◌∷◌, ◌++◌, arith,
}
use marchilogs.Entry.{Entry}
use marchilogs.Wal.{
  WalRecord, RecordCodec, Wal, max_seq, read_checkpoint, record_of_entry, frame, records_within,
  for_each_record, open_wal, append_entries, replay_after_checkpoint, frames, compact,
}
use marchilogs.Wal.Frames.{IsEncodable}
use marchilogs.Wal.Replay.{for_each_record-frames, frames-append, records_of, log-append_entries}

-- The records after a checkpoint.
abbrev pub after_checkpoint : ℕ → List WalRecord → List WalRecord
after_checkpoint cp rs = keep_if (λ (r : WalRecord). not (leb r.seq cp)) rs

module _ (codec : RecordCodec) where
  pub replay-frames :
      (w : Wal) (rs : List WalRecord)
      → w.log ≡ frames codec rs
      → All (IsEncodable codec) rs
      → replay_after_checkpoint codec w ≡ ok (after_checkpoint w.checkpoint rs)
  unfolding replay_after_checkpoint
  replay-frames w rs hl hr =
      ap (λ (o : Result (List WalRecord)). o >>= λ rs'. ok (after_checkpoint w.checkpoint rs'))
        (ap (for_each_record codec) hl ∙ for_each_record-frames codec rs hr)

  checkpoint-append_entries :
      (es : List Entry) (w : Wal) → (append_entries codec es w).0.checkpoint ≡ w.checkpoint
  unfolding append_entries
  checkpoint-append_entries [] w = refl
  checkpoint-append_entries (e ∷ es) w = checkpoint-append_entries es (record w {
    log = w.log ++ frame codec (record_of_entry w.next_seq e);
    next_seq = (w.next_seq + 1) % 2 ^ 64;
  })

  -- A replay after an append whose writes all succeed hands on what it handed on before and then the
  -- records of the entries, each with its sequence number, those after the checkpoint only. The log
  -- consists of whole frames, without a torn one at its end, and all records are encodable.
  pub replay-append_entries :
      (w : Wal) (rs : List WalRecord) (es : List Entry)
      → w.log ≡ frames codec rs
      → All (IsEncodable codec) rs
      → All (IsEncodable codec) (records_of codec w.next_seq es)
      → replay_after_checkpoint codec (append_entries codec es w).0
        ≡ ok (
            after_checkpoint w.checkpoint rs
            ++ after_checkpoint w.checkpoint (records_of codec w.next_seq es))
  replay-append_entries w rs es hl hr he =
      let new = records_of codec w.next_seq es in
      replay-frames (append_entries codec es w).0 (rs ++ new)
        (log-append_entries codec es w
          ∙ ap (λ (s : Bytes). s ++ frames codec new) hl
          ∙ sym (frames-append codec rs new))
        (All-append (IsEncodable codec) rs new hr he)
      ∙ ap (λ (cp : ℕ). ok (after_checkpoint cp (rs ++ new))) (checkpoint-append_entries es w)
      ∙ ap ok (keep_if-append (λ (r : WalRecord). not (leb r.seq w.checkpoint)) rs new)

  keep_if-All :
      (p : WalRecord → Bool) (rs : List WalRecord)
      → All (IsEncodable codec) rs
      → All (IsEncodable codec) (keep_if p rs)
  keep_if-All p [] h = tt
  keep_if-All p (r ∷ rs) h = kept (p r) r (keep_if p rs) h.0 (keep_if-All p rs h.1)
    where
      kept :
          (b : Bool) (r : WalRecord) (rs : List WalRecord)
          → IsEncodable codec r
          → All (IsEncodable codec) rs
          → All (IsEncodable codec) (if b then r ∷ rs else rs)
      kept true r rs hr hrs = (hr, hrs)
      kept false r rs hr hrs = hrs

  compacted_twice :
      (cp : ℕ) (rs : List WalRecord)
      → after_checkpoint cp (keep_if (λ (r : WalRecord). ltb cp r.seq) rs) ≡ after_checkpoint cp rs
  compacted_twice cp [] = refl
  compacted_twice cp (r ∷ rs) = ground (arith, compacted_twice cp rs)

  -- A compaction of a log of encodable records succeeds, and a replay hands on the same records
  -- after it as before.
  pub replay-compact :
      (w : Wal) (rs : List WalRecord)
      → w.log ≡ frames codec rs
      → All (IsEncodable codec) rs
      → (w' : Wal) × (compact codec w ≡ ok w')
        × (replay_after_checkpoint codec w' ≡ replay_after_checkpoint codec w)
  unfolding compact
  replay-compact w rs hl hr =
      let keeps = λ (r : WalRecord). ltb w.checkpoint r.seq in
      let w' = record w { log = frames codec (keep_if keeps rs) } in
      (
        w',
        ap
            (λ (o : Result (List WalRecord)).
              o >>= λ rs'. ok (record w { log = frames codec (keep_if keeps rs') }))
            (ap (for_each_record codec) hl ∙ for_each_record-frames codec rs hr),
        replay-frames w' (keep_if keeps rs) refl (keep_if-All keeps rs hr)
            ∙ ap ok (compacted_twice w.checkpoint rs)
            ∙ sym (replay-frames w rs hl hr),
      )

  abbrev restarted_wal : Option Bytes → ℕ → Wal
  restarted_wal file cp = record { log = []; next_seq = 1; checkpoint = cp; checkpoint_file = file }

  abbrev restarted : Option Bytes → ℕ → Result Wal
  restarted file cp = ok (restarted_wal file cp)

  open-empty :
      (file : Option Bytes) → open_wal codec [] file ≡ (read_checkpoint file >>= restarted file)
  unfolding open_wal for_each_record records_within max_seq
  open-empty file = refl

  -- After a restart on an empty log, as a compaction leaves it once every record is published, the
  -- sequence numbers start at 1 again: an entry that is appended then is not replayed, whatever
  -- positive checkpoint the file holds, if its record is encodable.
  pub restart_loses :
      (w : Wal) (checkpoint_file : Option Bytes) (e : Entry)
      → open_wal codec [] checkpoint_file ≡ ok w
      → 1 ≤ w.checkpoint
      → IsEncodable codec (record_of_entry 1 e)
      → replay_after_checkpoint codec (append_entries codec (e ∷ []) w).0 ≡ ok []
  unfolding frames
  restart_loses w checkpoint_file e ho hc he =
      let (cp, read, opened) =
        ok_of_chain (read_checkpoint checkpoint_file) (restarted checkpoint_file) w
          (sym (open-empty checkpoint_file) ∙ ho) in
      let made : w ≡ restarted_wal checkpoint_file cp =
        ap (λ (o : Result Wal). elim o [ err x ↦ w | ok v ↦ v ]) (sym opened) in
      replay-append_entries w [] (e ∷ []) (ap (λ (v : Wal). v.log) made) tt (
        subst (λ (n : ℕ). All (IsEncodable codec) (records_of codec n (e ∷ [])))
          (ap (λ (v : Wal). v.next_seq) (sym made)) (he, tt))
      ∙ ap ok (behind w.next_seq w.checkpoint e (ap (λ (v : Wal). v.next_seq) made) hc)
    where
      behind :
          (n cp : ℕ) (e : Entry)
          → n ≡ 1
          → 1 ≤ cp
          → after_checkpoint cp (record_of_entry n e ∷ []) ≡ []
      behind n cp e hn hc = ground (arith, hn, hc)
