-- ===== src/Recovery/Replay.antt =====
-- storage.go and wal.go: the rows that `Open` replays from the log.
use marchilogs.Base.{Bool, Bytes, Map, any, ℕ, ◌==◌}
use marchilogs.Block.{MemBlock}
use marchilogs.Entry.{Entry}
use marchilogs.Options.{Options}
use marchilogs.Recovery.{Root}
use marchilogs.Store.{Store}
use marchilogs.Wal.{Wal}

-- Whether a buffer has a row with the sequence number.
abbrev pub is_buffered : ℕ → Map MemBlock → Bool
is_buffered n buffers =
    any (λ (item : Bytes × MemBlock). any (λ (m : ℕ). m == n) item.1.seqs) buffers

-- The files that a store leaves, with what is in its log.
abbrev pub files_of : Store → Wal → Root
files_of s w = record { partitions = s.disk; log = w.log; checkpoint_file = w.checkpoint_file }
