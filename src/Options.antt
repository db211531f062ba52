-- ===== src/Options.antt =====
-- storage.go, compaction.go and retention.go: the options of a store, with their defaults. A duration
-- is in nanoseconds.
pub mod Defaults
use marchilogs.Base.{
  Bool, Bytes, List, Option, [], codes, eqb_ℤ, if◌then◌else◌, is_nil, ltb_ℤ, none, not, pos, some,
  true, ℕ, ℤ, ◌&&◌, ◌*◌, ◌||◌, ◌∷◌,
}

abbrev pub second : ℕ
second = 1_000_000_000

-- `Options`
pub record Options : Type 0 where
  pub stream_fields : List Bytes
  pub max_rows_per_block : ℤ
  pub flush_interval : ℤ
  pub enable_wal : Bool
  pub wal_sync : Option Bool
  pub merge_min_parts : ℤ
  pub merge_max_parts_per_job : ℤ
  pub merge_check_interval : ℤ
  pub merge_disable : Bool
  pub retention_period : ℤ
  pub retention_check_interval : ℤ

-- A number, or a default where it is not positive.
abbrev pub positive_or : ℕ → ℤ → ℤ
positive_or d n = if ltb_ℤ (pos 0) n then n else pos d

-- An interval, or a default where it is 0 and the worker is not turned off.
abbrev pub zero_or : Bool → ℕ → ℤ → ℤ
zero_or on d n = if eqb_ℤ n (pos 0) && on then pos d else n

abbrev pub fields_or_default : List Bytes → List Bytes
fields_or_default fields = if is_nil fields then codes "service" ∷ codes "host" ∷ [] else fields

abbrev pub or_synced : Option Bool → Option Bool
or_synced none = some true
or_synced (some sync) = some sync

-- The test of the flush interval in `withDefaults`.
abbrev pub default_flush_interval : ℤ → ℤ
default_flush_interval every =
    if eqb_ℤ every (pos 0)
    then pos (5 * second)
    else if ltb_ℤ (pos 0) every && ltb_ℤ every (pos second)
    then pos second
    else every

-- `withMergeDefaults`
unfoldable pub with_merge_defaults : Options → Options
with_merge_defaults o = record o {
  merge_min_parts = positive_or 4 o.merge_min_parts;
  merge_max_parts_per_job = positive_or 8 o.merge_max_parts_per_job;
  merge_check_interval = zero_or (not o.merge_disable) (10 * second) o.merge_check_interval;
}

-- `withRetentionDefaults`
unfoldable pub with_retention_defaults : Options → Options
with_retention_defaults o = record o {
  retention_check_interval =
      zero_or (ltb_ℤ (pos 0) o.retention_period) (3600 * second) o.retention_check_interval;
}

-- `withDefaults`
unfoldable pub with_defaults : Options → Options
unfolding with_merge_defaults with_retention_defaults
with_defaults o = with_retention_defaults (
    with_merge_defaults (record o {
      stream_fields = fields_or_default o.stream_fields;
      max_rows_per_block = positive_or 1024 o.max_rows_per_block;
      flush_interval = default_flush_interval o.flush_interval;
      wal_sync = or_synced o.wal_sync;
    }))

-- Whether `startPeriodicFlush`, `startPeriodicMerge` and `startPeriodicRetention` start their worker.
unfoldable pub flushes_periodically : Options → Bool
flushes_periodically o = ltb_ℤ (pos 0) o.flush_interval

unfoldable pub merges_periodically : Options → Bool
merges_periodically o = not (o.merge_disable || not (ltb_ℤ (pos 0) o.merge_check_interval))

unfoldable pub retains_periodically : Options → Bool
retains_periodically o =
    not (not (ltb_ℤ (pos 0) o.retention_period) || not (ltb_ℤ (pos 0) o.retention_check_interval))
