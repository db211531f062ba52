-- ===== src/Wal/Replay.antt =====
-- wal.go: the records that a log gives back, when its last write was torn, after an append, and
-- after a compaction.
use marchilogs.Base.{
  ltb, Bool-cases, length, take, All, length-append, length-take, take-append_past, Bytes, Result,
  ok, ◌>>=◌, read_full, read_full-append, read_full_short, put_le, length-put_le, ℕ, zero, suc, ◌+◌,
  ◌-◌, ◌%◌, ◌^◌, ◌≤◌, ◌<◌, ◌≡◌, refl, sym, ap, ◌∙◌, inl, inr, List, [], ◌∷◌, ◌++◌, append-nil,
  append_assoc, arith,
}
use marchilogs.Entry.{Entry}
use marchilogs.Wal.{
  WalRecord, RecordCodec, crc32, Wal, record_of_entry, stop, frame, after_crc, after_payload,
  after_header, read_frame, go_on, records_within, for_each_record, append_entries, frames,
}
use marchilogs.Wal.Frames.{
  IsEncodable, header, body, frame-parts, length-header, after_header-header, read_frame-frame,
}

module _ (codec : RecordCodec) where
  after_crc_short :
      (payload s : Bytes) → length s < 4 → after_crc codec payload (read_full 4 s) ≡ stop
  unfolding after_crc
  after_crc_short payload s h =
      let (e, failed) = read_full_short 4 s h in ap (after_crc codec payload) failed

  after_payload_short :
      (n : ℕ) (s : Bytes) → length s < n → after_payload codec (read_full n s) ≡ stop
  unfolding after_payload
  after_payload_short n s h =
      let (e, failed) = read_full_short n s h in ap (after_payload codec) failed

  read_frame_short : (s : Bytes) → length s < 9 → read_frame codec s ≡ stop
  unfolding read_frame after_header
  read_frame_short s h = let (e, failed) = read_full_short 9 s h in ap (after_header codec) failed

  length-body : (r : WalRecord) → length (body codec r) ≡ length (codec.marshal_record r) + 4
  length-body r =
      length-append (codec.marshal_record r) (put_le 4 (crc32 (codec.marshal_record r)))
      ∙ ap (λ n. length (codec.marshal_record r) + n)
          (length-put_le 4 (crc32 (codec.marshal_record r)))

  length-frame : (r : WalRecord) → length (frame codec r) ≡ 13 + length (codec.marshal_record r)
  length-frame r =
      ap length (frame-parts codec r)
      ∙ omega (
        arith,
        length-append (header codec r) (body codec r),
        length-header codec r,
        length-body r,
      )

  torn_body :
      (r : WalRecord) (k : ℕ)
      → k < length (body codec r)
      → after_payload codec (read_full (length (codec.marshal_record r)) (take k (body codec r)))
        ≡ stop
  unfolding after_payload
  torn_body r k h =
      let payload = codec.marshal_record r in
      let crc = put_le 4 (crc32 payload) in
      elim (Bool-cases (ltb k (length payload))) [
        | inl short ↦
            after_payload_short (length payload) (take k (body codec r))
              (ground (arith, short, length-take k (body codec r)))
        | inr long ↦
            let j = k - length payload in
            let rest = take j crc in
            ap (λ (s : Bytes). after_payload codec (read_full (length payload) s))
              (take-append_past payload crc k j (ground (arith, long)))
            ∙ ap (after_payload codec) (read_full-append (length payload) payload rest refl)
            ∙ after_crc_short payload rest (
                ground (
                  arith,
                  long,
                  h,
                  length-body r,
                  length-take j crc,
                  length-put_le 4 (crc32 payload),
                ))
      ]

  -- A round on a frame that was cut off ends the loop.
  torn_frame :
      (r : WalRecord) (k : ℕ)
      → length (codec.marshal_record r) < 2 ^ 32
      → k < length (frame codec r)
      → read_frame codec (take k (frame codec r)) ≡ stop
  unfolding read_frame
  torn_frame r k hl h = elim (Bool-cases (ltb k 9)) [
    | inl short ↦
        read_frame_short (take k (frame codec r))
          (ground (arith, short, length-take k (frame codec r), length-frame r))
    | inr long ↦
        let j = k - 9 in
        ap (λ (s : Bytes). read_frame codec (take k s)) (frame-parts codec r)
        ∙ ap (read_frame codec) (
            take-append_past (header codec r) (body codec r) k j
              (ground (arith, long, length-header codec r)))
        ∙ ap (after_header codec)
            (read_full-append 9 (header codec r) (take j (body codec r)) (length-header codec r))
        ∙ after_header-header codec r (take j (body codec r)) hl
        ∙ torn_body r j (ground (arith, long, h, length-frame r, length-body r))
  ]

  records-frames :
      (rs : List WalRecord) (tail : Bytes) (fuel : ℕ)
      → length rs ≤ fuel
      → All (IsEncodable codec) rs
      → read_frame codec tail ≡ stop
      → records_within codec fuel (frames codec rs ++ tail) ≡ ok rs
  unfolding records_within frames
  records-frames [] tail zero hf hr ht = refl
  records-frames [] tail (suc fuel) hf hr ht =
      ap (go_on codec (λ rest. records_within codec fuel rest)) ht
  records-frames (r ∷ rs) tail zero hf hr ht = absurd (omega arith)
  records-frames (r ∷ rs) tail (suc fuel) hf hr ht =
      ap (records_within codec (suc fuel)) (append_assoc (frame codec r) (frames codec rs) tail)
      ∙ ap (go_on codec (λ rest. records_within codec fuel rest))
          (read_frame-frame codec r (frames codec rs ++ tail) hr.0)
      ∙ ap (λ (out : Result (List WalRecord)). out >>= λ rs'. ok (r ∷ rs'))
          (records-frames rs tail fuel (omega arith) hr.1 ht)

  length-frames :
      (rs : List WalRecord) (tail : Bytes) → length rs ≤ length (frames codec rs ++ tail)
  unfolding frames
  length-frames [] tail = omega arith
  length-frames (r ∷ rs) tail = omega (
    arith,
    length-append (frame codec r ++ frames codec rs) tail,
    length-append (frame codec r) (frames codec rs),
    length-append (frames codec rs) tail,
    length-frame r,
    length-frames rs tail,
  )

  -- `forEachRecord` on a log of whole, encodable records gives them back, in their order, also where
  -- the write of one more record, of fewer than 2^32 bytes, was cut off at any byte.
  pub for_each_record-torn :
      (rs : List WalRecord) (r : WalRecord) (k : ℕ)
      → All (IsEncodable codec) rs
      → length (codec.marshal_record r) < 2 ^ 32
      → k < length (frame codec r)
      → for_each_record codec (frames codec rs ++ take k (frame codec r)) ≡ ok rs
  unfolding for_each_record
  for_each_record-torn rs r k hr hl hk =
      let tail = take k (frame codec r) in
      records-frames rs tail (length (frames codec rs ++ tail)) (length-frames rs tail) hr
        (torn_frame r k hl hk)

  pub for_each_record-frames :
      (rs : List WalRecord)
      → All (IsEncodable codec) rs
      → for_each_record codec (frames codec rs) ≡ ok rs
  unfolding for_each_record
  for_each_record-frames rs hr =
      ap (for_each_record codec) (sym (append-nil (frames codec rs)))
      ∙ records-frames rs [] (length (frames codec rs ++ [])) (length-frames rs []) hr
          (read_frame_short [] (omega arith))

  pub frames-append :
      (rs rs' : List WalRecord) → frames codec (rs ++ rs') ≡ frames codec rs ++ frames codec rs'
  unfolding frames
  frames-append [] rs' = refl
  frames-append (r ∷ rs) rs' =
      ap (λ (s : Bytes). frame codec r ++ s) (frames-append rs rs')
      ∙ sym (append_assoc (frame codec r) (frames codec rs) (frames codec rs'))

  -- The records of a batch of entries, from a sequence number on.
  abbrev pub records_of : ℕ → List Entry → List WalRecord
  records_of seq [] = []
  records_of seq (e ∷ es) = record_of_entry seq e ∷ records_of ((seq + 1) % 2 ^ 64) es

  pub log-append_entries :
      (es : List Entry) (w : Wal)
      → (append_entries codec es w).0.log ≡ w.log ++ frames codec (records_of w.next_seq es)
  unfolding append_entries frames
  log-append_entries [] w = sym (append-nil w.log)
  log-append_entries (e ∷ es) w =
      log-append_entries es (record w {
        log = w.log ++ frame codec (record_of_entry w.next_seq e);
        next_seq = (w.next_seq + 1) % 2 ^ 64;
      })
      ∙ append_assoc w.log (frame codec (record_of_entry w.next_seq e))
          (frames codec (records_of ((w.next_seq + 1) % 2 ^ 64) es))
