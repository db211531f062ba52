-- ===== src/Wal/Frames.antt =====
-- wal.go: `forEachRecord` on what `writeRecord` wrote.
use marchilogs.Base.{
  length, get_or, drop, length-append, take-append, Bytes, ok, read_full, read_full-append, put_le,
  get_le, length-put_le, get_le-put_le, ℕ, zero, suc, ◌^◌, ◌<◌, ◌≡◌, refl, ap, ◌∙◌, [], ◌∷◌, ◌++◌,
  append_assoc, arith,
}
use marchilogs.Wal.{
  WalRecord, RecordCodec, wal_magic, wal_version, crc32, next, frame, decode_record, after_crc,
  after_payload, after_header, read_frame,
}

drop_middle :
    (xs : Bytes) (v : ℕ) (ys : Bytes) (n : ℕ) → length xs ≡ n → drop (suc n) (xs ++ v ∷ ys) ≡ ys
drop_middle [] v ys zero h = refl
drop_middle [] v ys (suc n) h = absurd (omega arith)
drop_middle (x ∷ xs) v ys zero h = absurd (omega arith)
drop_middle (x ∷ xs) v ys (suc n) h = drop_middle xs v ys n (omega arith)

get_or_middle :
    (xs : Bytes) (v : ℕ) (ys : Bytes) (n : ℕ) → length xs ≡ n → get_or (xs ++ v ∷ ys) n 0 ≡ v
get_or_middle [] v ys zero h = refl
get_or_middle [] v ys (suc n) h = absurd (omega arith)
get_or_middle (x ∷ xs) v ys zero h = absurd (omega arith)
get_or_middle (x ∷ xs) v ys (suc n) h = get_or_middle xs v ys n (omega arith)

module _ (codec : RecordCodec) where
  -- A record that its JSON text stands for, of fewer than 2^32 bytes.
  abbrev pub IsEncodable : WalRecord → Type 0
  IsEncodable r =
      (codec.unmarshal_record (codec.marshal_record r) ≡ ok r)
      × (length (codec.marshal_record r) < 2 ^ 32)

  abbrev pub header : WalRecord → Bytes
  header r = put_le 4 wal_magic ++ wal_version ∷ put_le 4 (length (codec.marshal_record r))

  abbrev pub body : WalRecord → Bytes
  body r = codec.marshal_record r ++ put_le 4 (crc32 (codec.marshal_record r))

  pub frame-parts : (r : WalRecord) → frame codec r ≡ header r ++ body r
  unfolding frame
  frame-parts r = refl

  pub length-header : (r : WalRecord) → length (header r) ≡ 9
  length-header r = ground (
    arith,
    length-append (put_le 4 wal_magic) (wal_version ∷ put_le 4 (length (codec.marshal_record r))),
    length-put_le 4 wal_magic,
    length-put_le 4 (length (codec.marshal_record r)),
  )

  crc32-lt : (s : Bytes) → crc32 s < 256 ^ 4
  unfolding crc32
  crc32-lt s = omega arith

  pub after_crc-frame :
      (r : WalRecord) (rest : Bytes)
      → IsEncodable r
      → after_crc codec
          (codec.marshal_record r)
          (ok (put_le 4 (crc32 (codec.marshal_record r)), rest))
        ≡ next r rest
  unfolding after_crc
  after_crc-frame r rest h =
      let payload = codec.marshal_record r in
      ground (
        arith,
        get_le-put_le 4 (crc32 payload) (crc32-lt payload),
        ap (decode_record codec rest) h.0,
      )

  after_payload-body :
      (r : WalRecord) (rest : Bytes)
      → IsEncodable r
      → after_payload codec (read_full (length (codec.marshal_record r)) (body r ++ rest))
        ≡ next r rest
  unfolding after_payload
  after_payload-body r rest h =
      let payload = codec.marshal_record r in
      let crc = put_le 4 (crc32 payload) in
      ap (λ (s : Bytes). after_payload codec (read_full (length payload) s))
        (append_assoc payload crc rest)
      ∙ ap (after_payload codec) (read_full-append (length payload) payload (crc ++ rest) refl)
      ∙ ap (after_crc codec payload) (read_full-append 4 crc rest (length-put_le 4 (crc32 payload)))
      ∙ after_crc-frame r rest h

  pub after_header-header :
      (r : WalRecord) (s : Bytes)
      → length (codec.marshal_record r) < 2 ^ 32
      → after_header codec (ok (header r, s))
        ≡ after_payload codec (read_full (length (codec.marshal_record r)) s)
  unfolding after_header
  after_header-header r s hl =
      let magic = put_le 4 wal_magic in
      let n = length (codec.marshal_record r) in
      ground (
        arith,
        ap get_le (take-append magic (wal_version ∷ put_le 4 n) 4 (length-put_le 4 wal_magic)),
        get_le-put_le 4 wal_magic (omega arith),
        get_or_middle magic wal_version (put_le 4 n) 4 (length-put_le 4 wal_magic),
        drop_middle magic wal_version (put_le 4 n) 4 (length-put_le 4 wal_magic),
        get_le-put_le 4 n hl,
      )

  -- A round on a whole frame has its record.
  pub read_frame-frame :
      (r : WalRecord) (rest : Bytes)
      → IsEncodable r
      → read_frame codec (frame codec r ++ rest) ≡ next r rest
  unfolding read_frame
  read_frame-frame r rest h =
      ap (λ (s : Bytes). read_frame codec (s ++ rest)) (frame-parts r)
      ∙ ap (read_frame codec) (append_assoc (header r) (body r) rest)
      ∙ ap (after_header codec) (read_full-append 9 (header r) (body r ++ rest) (length-header r))
      ∙ after_header-header r (body r ++ rest) h.1
      ∙ after_payload-body r rest h
