-- ===== src/Lib.antt =====
-- marchilogs, a small log store in Go: entries are normalised, grouped into streams, buffered in
-- blocks, flushed to parts of a day, and searched through indexes that leave out parts, streams and
-- blocks. This library models its storage package and its server, and states what the pieces promise
-- each other.
--
-- How the parts correspond to the code (paths from the repository's root):
--   Base          Go's integers, byte strings, maps, sorting, decimal text and reads from a file.
--   Calendar      the day of a time: `partitionName`, `parsePartitionName` (storage/entry.go).
--   Entry         `Entry`, `StreamID`, `normalize` (storage/entry.go).
--   Tags          the tags of a stream, the index of a part by tags, and the two ways to match a
--                 query, by index and by scan (storage/stream_index.go).
--   Bloom         the filter on the trigrams of a block's messages, and its bytes
--                 (storage/bloom.go).
--   Block         the rows of a stream in memory, the files of a block, and reading them back
--                 (storage/block.go).
--   Parts         the manifest of a day and its catalog from tags to parts (storage/manifest.go,
--                 storage/indexdb.go).
--   Deletes       tombstones, the purge of the buffers and `Delete` (storage/delete.go,
--                 `partitionOverlapsQuery` of storage/inmemory_part.go).
--   Wal           the write-ahead log as bytes: frames, replay, checkpoint, compaction
--                 (storage/wal.go).
--   Retention     the days that are dropped (storage/retention.go).
--   Options       the options of a store and their defaults (storage/storage.go,
--                 storage/compaction.go, storage/retention.go).
--   Store         `Storage` and the tree below its root (storage/storage.go).
--   Flush         `flushPartitionLocked` and its rollback, with every call of the operating system that
--                 may fail (storage/storage.go, with the writes of storage/manifest.go and
--                 storage/indexdb.go).
--   Engine        `Append` with the failing writes of the log, `Flush`, `Close` (storage/storage.go,
--                 storage/wal.go) and `Delete` on a store (storage/delete.go).
--   Search        `SearchWithStats`: the buffers, then the parts (storage/storage.go,
--                 storage/inmemory_part.go, storage/query_stats.go).
--   Compaction    the merge of small parts into a big one, and the passes that start one
--                 (storage/compaction.go, `replaceManifestPartsLocked` of storage/manifest.go).
--   Recovery      `Open`: the repair of the directories, the files that it loads, and the replay of
--                 the log (storage/storage.go, storage/manifest.go, storage/indexdb.go,
--                 storage/delete.go).
--   Requests      the parsing of the server's requests (cmd/marchilogs/main.go).
--   Server        the handlers of the HTTP server (cmd/marchilogs/main.go).
--   Tests         runs on fixed inputs, and the theorems at inputs that meet their conditions.
--
-- Conventions. A `time.Time` is the integer of its nanoseconds since the epoch, and `UnixNano` wraps
-- it to 64 bits; `time.Now` is an argument. A Go string is a list of byte values. A map is a list of
-- keys and values in which an insertion keeps the place of a key: the order of the list stands for
-- the order of an iteration, which Go leaves open, so a statement for all lists is one for all orders.
-- A file is its bytes, and a file of JSON text is the value that it stands for, whose strings are
-- taken to be valid UTF-8. In the log, where the text's length matters, the JSON of a record is made
-- and read by a codec that is an argument; a record is called encodable if its text stands for it.
-- The CRC is computed bit by bit, and FNV-1a byte by byte, with their 32 and 64 bits. Which calls of
-- the operating system fail is a function from calls to truth values, an argument too; a write of a
-- record to the log may stop at any of its bytes.
--
-- Loops are recursions on the list that they range over. The loop of `forEachRecord` runs on fuel,
-- the number of the log's bytes, which is enough: each round takes 13 bytes or more. `purge_rows`
-- counts the rows left.
--
-- Not modelled: the temporary directory of a merge, which nothing reads; the locks and the tickers of
-- the background workers, since a store is used by one caller at a time here; `listPartitions`, which
-- nothing calls; of the server, the flags and the environment, the texts of its pages, its headers,
-- and how a URL, a JSON body or a time in RFC 3339 is read, which are values or parameters of the
-- handlers; cmd/demo, which calls the store with fixed entries.
pub mod Base
pub mod Calendar
pub mod Entry
pub mod Tags
pub mod Bloom
pub mod Block
pub mod Parts
pub mod Deletes
pub mod Wal
pub mod Retention
pub mod Options
pub mod Store
pub mod Search
pub mod Flush
pub mod Engine
pub mod Compaction
pub mod Recovery
pub mod Requests
pub mod Server
mod Tests
