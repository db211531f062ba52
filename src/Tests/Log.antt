-- ===== src/Tests/Log.antt =====
-- wal.go on fixed inputs, with a codec that writes a sequence number as one byte.
use marchilogs.Base.{
  Bytes, Result, [], arith, bad_json, codes, digits_value, err, none, ok, pos, put_le, refl, some,
  take, ℕ, ◌++◌, ◌∷◌, ◌≡◌, bad_number, crc_mismatch, get_le, read_full,
}
use marchilogs.Entry.{Entry}
use marchilogs.Wal.{
  RecordCodec, Wal, WalRecord, append_entries, compact, crc32, crc_bits, crc_bytes, for_each_record,
  frame, frames, max_seq, open_wal, read_checkpoint, records_within, replay_after_checkpoint,
  scan_uint64, skip_blanks, take_digits, read_frame, after_header, after_payload, after_crc,
}
use marchilogs.Wal.Fuel.{for_each_record-ends}
use marchilogs.Wal.Lifecycle.{replay-append_entries, replay-compact, restart_loses}
use marchilogs.Wal.Replay.{for_each_record-torn}

abbrev pub numbered : ℕ → WalRecord
numbered n = record { seq = n; time_ns = pos 0; fields = [] }

abbrev pub read_number : Bytes → Result WalRecord
read_number [] = err bad_json
read_number (n ∷ s) = ok (numbered n)

abbrev pub number_codec : RecordCodec
number_codec = record { marshal_record = λ r. r.seq ∷ []; unmarshal_record = read_number }

crc32_test : crc32 (codes "123456789") ≡ 0xCBF43926
unfolding crc32 crc_bytes crc_bits
crc32_test = refl

read_checkpoint_test : read_checkpoint (some (codes "42\n")) ≡ ok 42
unfolding read_checkpoint scan_uint64 take_digits skip_blanks digits_value
read_checkpoint_test = refl

read_checkpoint_no_digits : read_checkpoint (some (codes "abc")) ≡ err bad_number
unfolding read_checkpoint scan_uint64 take_digits skip_blanks
read_checkpoint_no_digits = refl

-- A record that is written after a torn one is read as the rest of it.
append_after_torn_test :
    for_each_record number_codec
      (take 12 (frame number_codec (numbered 1)) ++ frame number_codec (numbered 2))
    ≡ err crc_mismatch
unfolding for_each_record records_within read_frame after_header after_payload after_crc frame
    put_le get_le read_full crc32 crc_bytes crc_bits
append_after_torn_test = refl

abbrev pub at_epoch : Entry
at_epoch = record { time = pos 0; fields = [] }

abbrev one_record : Wal
one_record = record {
  log = frames number_codec (numbered 1 ∷ []);
  next_seq = 2;
  checkpoint = 0;
  checkpoint_file = none;
}

-- A header that promises 200 bytes, and two of them.
abbrev cut_off : Bytes
cut_off = 0x41 ∷ 0x57 ∷ 0x4C ∷ 0x4D ∷ 1 ∷ 200 ∷ 0 ∷ 0 ∷ 0 ∷ 7 ∷ 7 ∷ []

for_each_record-ends_example :
    records_within number_codec 50 cut_off ≡ for_each_record number_codec cut_off
for_each_record-ends_example = for_each_record-ends number_codec 50 cut_off (omega arith)

for_each_record-torn_example :
    for_each_record number_codec
      (frames number_codec (numbered 1 ∷ []) ++ take 11 (frame number_codec (numbered 2)))
    ≡ ok (numbered 1 ∷ [])
unfolding frame put_le
for_each_record-torn_example =
    for_each_record-torn number_codec (numbered 1 ∷ []) (numbered 2) 11 ((refl, omega arith), tt)
      (omega arith) (omega arith)

replay-append_entries_example :
    replay_after_checkpoint number_codec (append_entries number_codec (at_epoch ∷ []) one_record).0
    ≡ ok (numbered 1 ∷ numbered 2 ∷ [])
replay-append_entries_example =
    replay-append_entries number_codec one_record (numbered 1 ∷ []) (at_epoch ∷ []) refl
      ((refl, omega arith), tt) ((refl, omega arith), tt)

replay-compact_example :
    (w' : Wal) × (compact number_codec one_record ≡ ok w')
    × (replay_after_checkpoint number_codec w' ≡ replay_after_checkpoint number_codec one_record)
replay-compact_example =
    replay-compact number_codec one_record (numbered 1 ∷ []) refl ((refl, omega arith), tt)

abbrev restarted_at_5 : Wal
restarted_at_5 = record {
  log = [];
  next_seq = 1;
  checkpoint = 5;
  checkpoint_file = some (codes "5\n");
}

restart_loses_example :
    replay_after_checkpoint number_codec
      (append_entries number_codec (at_epoch ∷ []) restarted_at_5).0
    ≡ ok []
unfolding open_wal read_checkpoint scan_uint64 take_digits skip_blanks digits_value for_each_record
    records_within max_seq
restart_loses_example =
    restart_loses number_codec restarted_at_5 (some (codes "5\n")) at_epoch refl (omega arith)
      (refl, omega arith)
