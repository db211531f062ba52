-- ===== src/Wal.antt =====
-- wal.go: the write-ahead log. The log is its bytes; the checkpoint's file is its text. The JSON text
-- of a record is made and read by a codec that is a parameter, since its text is `encoding/json`'s.
-- No write fails here; the failing writes of an append are those of its caller.
pub mod Checkpoint
pub mod Frames
pub mod Replay
pub mod Fuel
pub mod Lifecycle
use Prim.Native.Nat.{ℕ}
use marchilogs.Base.{
  ltb, leb, ◌==◌, if◌then◌else◌, length, get_or, take, drop, keep_if, ℤ, decimal, digits_value,
  Bytes, is_empty, Map, Error, bad_number, bad_magic, unsupported_version, crc_mismatch, Result, ok,
  err, ◌>>=◌, read_full, put_le, get_le, zero, suc, ◌+◌, ◌/◌, ◌%◌, ◌^◌, bit_xor, not, ◌&&◌, ◌||◌,
  Option, none, some, List, [], ◌∷◌, ◌++◌,
}
use marchilogs.Entry.{Entry, unix_nano}

-- `walRecord`
pub record WalRecord : Type 0 where
  pub seq : ℕ
  pub time_ns : ℤ
  pub fields : Map Bytes

-- `json.Marshal` and `json.Unmarshal` on a `walRecord`.
pub record RecordCodec : Type 0 where
  pub marshal_record : WalRecord → Bytes
  pub unmarshal_record : Bytes → Result WalRecord

abbrev pub wal_magic : ℕ
wal_magic = 0x4D4C5741

abbrev pub wal_version : ℕ
wal_version = 1

-- `crc32.ChecksumIEEE`: the reflected polynomial 0xEDB88320, bit by bit.
unfoldable pub crc_bits : ℕ → ℕ → ℕ
crc_bits zero c = c
crc_bits (suc n) c = crc_bits n (if c % 2 == 1 then bit_xor (c / 2) 0xEDB88320 else c / 2)

unfoldable pub crc_bytes : Bytes → ℕ → ℕ
crc_bytes [] c = c
crc_bytes (b ∷ s) c = crc_bytes s (crc_bits 8 (bit_xor c b))

unfoldable pub crc32 : Bytes → ℕ
crc32 s = bit_xor (crc_bytes s 0xFFFFFFFF) 0xFFFFFFFF % 2 ^ 32

-- `wal`: the file, the next sequence number, and the checkpoint with the text of its file.
pub record Wal : Type 0 where
  pub log : Bytes
  pub next_seq : ℕ
  pub checkpoint : ℕ
  pub checkpoint_file : Option Bytes

-- `scanMaxSeq`
unfoldable pub max_seq : List WalRecord → ℕ → ℕ
max_seq [] m = m
max_seq (r ∷ rs) m = max_seq rs (if ltb m r.seq then r.seq else m)

-- `fmt.Sscanf(text, "%d", &cp)` for a `uint64`: blanks, then digits, and any text behind them.
unfoldable pub take_digits : Bytes → Bytes
take_digits [] = []
take_digits (c ∷ s) = if leb b'0' c && leb c b'9' then c ∷ take_digits s else []

unfoldable pub skip_blanks : Bytes → Bytes
skip_blanks [] = []
skip_blanks (c ∷ s) = if c == b' ' || c == 9 then skip_blanks s else c ∷ s

unfoldable pub scan_uint64 : Bytes → Result ℕ
scan_uint64 s =
    let digits = take_digits (skip_blanks s) in
    if is_empty digits then err bad_number else elim (digits_value 0 digits) [
      | none ↦ err bad_number
      | some n ↦ if ltb n (2 ^ 64) then ok n else err bad_number
    ]

-- `readCheckpoint`
unfoldable pub read_checkpoint : Option Bytes → Result ℕ
read_checkpoint none = ok 0
read_checkpoint (some s) = if is_empty s then ok 0 else scan_uint64 s

-- `setCheckpoint`
unfoldable pub set_checkpoint : ℕ → Wal → Wal
set_checkpoint cp w =
    if ltb cp w.checkpoint
    then w
    else record w { checkpoint = cp; checkpoint_file = some (decimal cp ++ 10 ∷ []) }

-- The record of an entry in `appendEntries`.
abbrev pub record_of_entry : ℕ → Entry → WalRecord
record_of_entry seq e = record { seq = seq; time_ns = unix_nano e.time; fields = e.fields }

-- What one round of the loop of `forEachRecord` does: it ends, fails, or has a record.
pub data Round : Type 0 where
  stop : Round
  fail : Error → Round
  next : WalRecord → Bytes → Round

module _ (codec : RecordCodec) where
  -- `writeRecord`: the bytes of the three writes.
  unfoldable pub frame : WalRecord → Bytes
  frame r =
      let payload = codec.marshal_record r in
      (put_le 4 wal_magic ++ wal_version ∷ put_le 4 (length payload))
      ++ (payload ++ put_le 4 (crc32 payload))

  abbrev pub write_record : WalRecord → Wal → Wal
  write_record r w = record w { log = w.log ++ frame r }

  abbrev pub decode_record : Bytes → Result WalRecord → Round
  decode_record rest (err e) = fail e
  decode_record rest (ok r) = next r rest

  -- The part of a round after the read of the checksum, after that of the payload, and after that
  -- of the header: a read that fails ends the loop.
  unfoldable pub after_crc : Bytes → Result (Bytes × Bytes) → Round
  after_crc payload (err e) = stop
  after_crc payload (ok (crc, rest)) =
      if get_le crc == crc32 payload
      then decode_record rest (codec.unmarshal_record payload)
      else fail crc_mismatch

  unfoldable pub after_payload : Result (Bytes × Bytes) → Round
  after_payload (err e) = stop
  after_payload (ok (payload, s)) = after_crc payload (read_full 4 s)

  unfoldable pub after_header : Result (Bytes × Bytes) → Round
  after_header (err e) = stop
  after_header (ok (hdr, s)) =
      if not (get_le (take 4 hdr) == wal_magic)
      then fail bad_magic
      else if not (get_or hdr 4 0 == wal_version)
      then fail unsupported_version
      else after_payload (read_full (get_le (drop 5 hdr)) s)

  -- One round of the loop.
  unfoldable pub read_frame : Bytes → Round
  read_frame s = after_header (read_full 9 s)

  abbrev pub go_on : (Bytes → Result (List WalRecord)) → Round → Result (List WalRecord)
  go_on rounds stop = ok []
  go_on rounds (fail e) = err e
  go_on rounds (next r rest) = do rs ← rounds rest; ok (r ∷ rs)

  -- `forEachRecord`, with a callback that collects the records; the callbacks of the program fail
  -- on none. Each round takes bytes off the log, so as many rounds as bytes are enough.
  unfoldable pub records_within : ℕ → Bytes → Result (List WalRecord)
  records_within zero s = ok []
  records_within (suc fuel) s = go_on (λ rest. records_within fuel rest) (read_frame s)

  unfoldable pub for_each_record : Bytes → Result (List WalRecord)
  for_each_record log = records_within (length log) log

  -- `openWAL`: what the files hold, or nothing where they are missing.
  unfoldable pub open_wal : Bytes → Option Bytes → Result Wal
  open_wal log checkpoint_file = do
    cp ← read_checkpoint checkpoint_file
    rs ← for_each_record log
    ok (record {
      log = log;
      next_seq = if leb 1 (max_seq rs 0) then (max_seq rs 0 + 1) % 2 ^ 64 else 1;
      checkpoint = cp;
      checkpoint_file = checkpoint_file;
    })

  -- `appendEntries`: the log afterwards and the sequence numbers.
  unfoldable pub append_entries : List Entry → Wal → Wal × List ℕ
  append_entries [] w = (w, [])
  append_entries (e ∷ es) w =
      let written = write_record (record_of_entry w.next_seq e) w in
      let rest = append_entries es (record written { next_seq = (w.next_seq + 1) % 2 ^ 64 }) in
      (rest.0, w.next_seq ∷ rest.1)

  -- `replayAfterCheckpoint`: the records that it hands on.
  unfoldable pub replay_after_checkpoint : Wal → Result (List WalRecord)
  replay_after_checkpoint w = do
    rs ← for_each_record w.log
    ok (keep_if (λ (r : WalRecord). not (leb r.seq w.checkpoint)) rs)

  unfoldable pub frames : List WalRecord → Bytes
  frames [] = []
  frames (r ∷ rs) = frame r ++ frames rs

  -- `compactLocked`: the records after the checkpoint, written again.
  unfoldable pub compact : Wal → Result Wal
  compact w = do
    rs ← for_each_record w.log
    ok (record w { log = frames (keep_if (λ (r : WalRecord). ltb w.checkpoint r.seq) rs) })
