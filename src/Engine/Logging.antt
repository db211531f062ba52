-- ===== src/Engine/Logging.antt =====
-- wal.go: an append to the log of which no call fails.
use marchilogs.Base.{Bool, List, [], false, if-both, refl, true, ◌%◌, ◌+◌, ◌++◌, ◌^◌, ◌∷◌, ◌≡◌}
use marchilogs.Engine.{entry_fails, log_entries, written_bytes}
use marchilogs.Entry.{Entry}
use marchilogs.Flush.{Io, write_log}
use marchilogs.Wal.{RecordCodec, Wal, append_entries, frame, record_of_entry}

-- Where no write of an append and no sync fails, the log holds a whole frame for each entry.
log_entries-append_entries :
    (io : Io) (codec : RecordCodec) (es : List Entry) (w : Wal)
    → (log_entries io codec es w).1 ≡ false
    → (log_entries io codec es w).0 ≡ (append_entries codec es w).0
unfolding log_entries append_entries
log_entries-append_entries io codec [] w h = refl
log_entries-append_entries io codec (e ∷ es) w h =
    let w' = record w { next_seq = (w.next_seq + 1) % 2 ^ 64 } in
    let bytes = frame codec (record_of_entry w.next_seq e) in
    let whole = record w' { log = w.log ++ bytes } in
    let torn : Wal = record w' {
      log = w.log ++ written_bytes (λ k. io (write_log w.next_seq k)) 0 bytes;
    } in
    if-both (λ (r : Wal × Bool). r.1 ≡ false → r.0 ≡ (append_entries codec (e ∷ es) w).0)
      (entry_fails io codec e w) (torn, true) (log_entries io codec es whole)
      (λ failed h'. absurd cc) (λ fine h'. log_entries-append_entries io codec es whole h') h
