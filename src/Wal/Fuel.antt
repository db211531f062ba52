-- ===== src/Wal/Fuel.antt =====
-- wal.go: the rounds of `forEachRecord` are no more than the bytes of the log.
use marchilogs.Base.{
  Bytes, List, Result, [], ap, arith, bad_magic, crc_mismatch, drop, eof, err, get_le, get_or,
  if-both, if◌then◌else◌, is_empty, leb, length, length-drop, not, ok, read_full, refl, suc, sym,
  take, unexpected_eof, unsupported_version, zero, ℕ, ◌-◌, ◌==◌, ◌>>=◌, ◌∷◌, ◌≡◌, ◌≤◌,
}
use marchilogs.Wal.{
  RecordCodec, Round, WalRecord, after_crc, after_header, after_payload, crc32, decode_record, fail,
  for_each_record, go_on, next, read_frame, records_within, stop, wal_magic, wal_version,
}

-- What a read leaves, and what a round hands on, is no longer than `n`.
LeavesAtMost : ℕ → Result (Bytes × Bytes) → Type 0
LeavesAtMost n (err e) = Unit
LeavesAtMost n (ok (read, rest)) = length rest ≤ n

PassesAtMost : ℕ → Round → Type 0
PassesAtMost n stop = Unit
PassesAtMost n (fail e) = Unit
PassesAtMost n (next r rest) = length rest ≤ n

read_full-LeavesAtMost : (n : ℕ) (s : Bytes) → LeavesAtMost (length s - n) (read_full n s)
unfolding read_full LeavesAtMost
read_full-LeavesAtMost n s =
    if-both (LeavesAtMost (length s - n)) (leb n (length s)) (ok (take n s, drop n s))
      (if is_empty s then err eof else err unexpected_eof)
      (λ enough. omega (arith, length-drop n s))
      (λ short.
        if-both (LeavesAtMost (length s - n)) (is_empty s) (err eof) (err unexpected_eof)
          (λ none_left. tt) (λ some_left. tt))

LeavesAtMost-le :
    (n m : ℕ) (res : Result (Bytes × Bytes)) → n ≤ m → LeavesAtMost n res → LeavesAtMost m res
unfolding LeavesAtMost
LeavesAtMost-le n m (err e) h hr = tt
LeavesAtMost-le n m (ok (read, rest)) h hr = omega (arith, h, hr)

module _ (codec : RecordCodec) (n : ℕ) where
  decode_record-PassesAtMost :
      (rest : Bytes) (res : Result WalRecord)
      → length rest ≤ n
      → PassesAtMost n (decode_record codec rest res)
  unfolding PassesAtMost
  decode_record-PassesAtMost rest (err e) h = tt
  decode_record-PassesAtMost rest (ok r) h = h

  after_crc-PassesAtMost :
      (payload : Bytes) (res : Result (Bytes × Bytes))
      → LeavesAtMost n res
      → PassesAtMost n (after_crc codec payload res)
  unfolding after_crc PassesAtMost LeavesAtMost
  after_crc-PassesAtMost payload (err e) h = tt
  after_crc-PassesAtMost payload (ok (crc, rest)) h =
      if-both (PassesAtMost n) (get_le crc == crc32 payload)
        (decode_record codec rest (codec.unmarshal_record payload)) (fail crc_mismatch)
        (λ same. decode_record-PassesAtMost rest (codec.unmarshal_record payload) h) (λ differs. tt)

  after_payload-PassesAtMost :
      (res : Result (Bytes × Bytes)) → LeavesAtMost n res → PassesAtMost n (after_payload codec res)
  unfolding after_payload PassesAtMost LeavesAtMost
  after_payload-PassesAtMost (err e) h = tt
  after_payload-PassesAtMost (ok (payload, s)) h = after_crc-PassesAtMost payload (read_full 4 s) (
      LeavesAtMost-le (length s - 4) n (read_full 4 s) (omega (arith, h))
        (read_full-LeavesAtMost 4 s))

  after_header-PassesAtMost :
      (res : Result (Bytes × Bytes)) → LeavesAtMost n res → PassesAtMost n (after_header codec res)
  unfolding after_header PassesAtMost LeavesAtMost
  after_header-PassesAtMost (err e) h = tt
  after_header-PassesAtMost (ok (hdr, s)) h =
      let size = get_le (drop 5 hdr) in
      if-both (PassesAtMost n) (not (get_le (take 4 hdr) == wal_magic)) (fail bad_magic)
        (if not (get_or hdr 4 0 == wal_version)
          then fail unsupported_version
          else after_payload codec (read_full size s))
        (λ bad. tt)
        (λ good.
          if-both (PassesAtMost n) (not (get_or hdr 4 0 == wal_version)) (fail unsupported_version)
            (after_payload codec (read_full size s)) (λ other. tt)
            (λ known. after_payload-PassesAtMost (read_full size s) (
              LeavesAtMost-le (length s - size) n (read_full size s) (omega (arith, h))
                (read_full-LeavesAtMost size s))))

module _ (codec : RecordCodec) where
  read_frame-PassesAtMost : (s : Bytes) → PassesAtMost (length s - 1) (read_frame codec s)
  unfolding read_frame
  read_frame-PassesAtMost s = after_header-PassesAtMost codec (length s - 1) (read_full 9 s) (
      LeavesAtMost-le (length s - 9) (length s - 1) (read_full 9 s) (omega arith)
        (read_full-LeavesAtMost 9 s))

  go_on-agrees :
      (f g : Bytes → Result (List WalRecord)) (n : ℕ) (round : Round)
      → PassesAtMost n round
      → ((rest : Bytes) → length rest ≤ n → f rest ≡ g rest)
      → go_on codec f round ≡ go_on codec g round
  unfolding PassesAtMost
  go_on-agrees f g n stop h same = refl
  go_on-agrees f g n (fail e) h same = refl
  go_on-agrees f g n (next r rest) h same =
      ap (λ (out : Result (List WalRecord)). out >>= λ rs. ok (r ∷ rs)) (same rest h)

  -- Nothing is read of an empty log.
  records_within-empty : (fuel : ℕ) (s : Bytes) → length s ≤ 0 → records_within codec fuel s ≡ ok []
  unfolding records_within read_frame read_full after_header
  records_within-empty zero s h = refl
  records_within-empty (suc fuel) [] h = refl
  records_within-empty (suc fuel) (b ∷ s) h = absurd (omega (arith, h))

  records_within-agrees :
      (f g : ℕ) (s : Bytes)
      → length s ≤ f
      → length s ≤ g
      → records_within codec f s ≡ records_within codec g s
  unfolding records_within
  records_within-agrees zero g s hf hg = sym (records_within-empty g s hf)
  records_within-agrees (suc f) zero s hf hg = records_within-empty (suc f) s hg
  records_within-agrees (suc f) (suc g) s hf hg =
      go_on-agrees (λ rest. records_within codec f rest) (λ rest. records_within codec g rest)
        (length s - 1) (read_frame codec s) (read_frame-PassesAtMost s)
        (λ rest h. records_within-agrees f g rest (omega (arith, h, hf)) (omega (arith, h, hg)))

  -- The loop of `forEachRecord` ends on every log, whatever its bytes, after no more rounds than the log
  -- has bytes: with any number of rounds from there on it gives the same records or the same error.
  pub for_each_record-ends :
      (fuel : ℕ) (log : Bytes)
      → length log ≤ fuel
      → records_within codec fuel log ≡ for_each_record codec log
  unfolding for_each_record
  for_each_record-ends fuel log h = records_within-agrees fuel (length log) log h (omega arith)
