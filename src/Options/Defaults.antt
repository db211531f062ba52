-- ===== src/Options/Defaults.antt =====
-- storage.go, compaction.go and retention.go: what the defaults of the options ensure.
use marchilogs.Base.{
  Bool, Bytes, List, Option, [], arith, false, is_nil, ltb_ℤ, none, not, pos, refl, some, true, ℕ,
  ℤ, ◌*◌, ◌<◌, ◌∷◌, ◌≡◌, ◌≤ℤ◌, ◌⊎◌,
}
use marchilogs.Options.{
  Options, default_flush_interval, fields_or_default, flushes_periodically, merges_periodically,
  or_synced, positive_or, retains_periodically, second, with_defaults, zero_or,
}

-- The bounds of options that a store runs with.
pub record AreInRange (o : Options) : Type 0 where
  pub fields_given : is_nil o.stream_fields ≡ false
  pub some_rows : pos 1 ≤ℤ o.max_rows_per_block
  pub rarely_flushed : (flushes_periodically o ≡ false) ⊎ (pos second ≤ℤ o.flush_interval)
  pub sync_given : (sync : Bool) × (o.wal_sync ≡ some sync)
  pub some_parts : pos 1 ≤ℤ o.merge_min_parts
  pub some_job : pos 1 ≤ℤ o.merge_max_parts_per_job
  pub merges :
      (merges_periodically o ≡ true)
      ⊎ ((o.merge_disable ≡ true) ⊎ (ltb_ℤ o.merge_check_interval (pos 0) ≡ true))
  pub retains :
      (retains_periodically o ≡ true)
      ⊎ ((ltb_ℤ (pos 0) o.retention_period ≡ false)
          ⊎ (ltb_ℤ o.retention_check_interval (pos 0) ≡ true))

positive_or-le : (d : ℕ) (n : ℤ) → 0 < d → pos 1 ≤ℤ positive_or d n
positive_or-le d n h = ground arith

positive_or_idem : (d : ℕ) (n : ℤ) → positive_or d (positive_or d n) ≡ positive_or d n
positive_or_idem d n = ground arith

default_flush_interval_idem :
    (n : ℤ) → default_flush_interval (default_flush_interval n) ≡ default_flush_interval n
default_flush_interval_idem n = ground arith

or_synced-given : (o : Option Bool) → (sync : Bool) × (or_synced o ≡ some sync)
or_synced-given none = (true, refl)
or_synced-given (some sync) = (sync, refl)

or_synced_idem : (o : Option Bool) → or_synced (or_synced o) ≡ or_synced o
or_synced_idem none = refl
or_synced_idem (some sync) = refl

zero_or_idem : (b : Bool) (d : ℕ) (n : ℤ) → zero_or b d (zero_or b d n) ≡ zero_or b d n
zero_or_idem b d n = ground arith

fields_or_idem :
    (fields : List Bytes) → fields_or_default (fields_or_default fields) ≡ fields_or_default fields
fields_or_idem [] = refl
fields_or_idem (f ∷ fields) = refl

-- The defaults bring all options in range: there are stream fields, the numbers of rows and of parts
-- are at least 1, a periodic flush waits a second or more, and the workers for merges and retention run
-- unless they are turned off, by `MergeDisable`, a negative interval, or a retention period that is not
-- positive. A second `withDefaults` changes nothing.
pub with_defaults-AreInRange :
    (o : Options)
    → AreInRange (with_defaults o) × (with_defaults (with_defaults o) ≡ with_defaults o)
unfolding with_defaults flushes_periodically merges_periodically retains_periodically
with_defaults-AreInRange o = (
  record {
    fields_given = ground arith;
    some_rows = positive_or-le 1024 o.max_rows_per_block (omega arith);
    rarely_flushed = ground arith;
    sync_given = or_synced-given o.wal_sync;
    some_parts = positive_or-le 4 o.merge_min_parts (omega arith);
    some_job = positive_or-le 8 o.merge_max_parts_per_job (omega arith);
    merges = ground arith;
    retains = ground arith;
  },
  λ i. record {
    stream_fields = fields_or_idem o.stream_fields i;
    max_rows_per_block = positive_or_idem 1024 o.max_rows_per_block i;
    flush_interval = default_flush_interval_idem o.flush_interval i;
    enable_wal = o.enable_wal;
    wal_sync = or_synced_idem o.wal_sync i;
    merge_min_parts = positive_or_idem 4 o.merge_min_parts i;
    merge_max_parts_per_job = positive_or_idem 8 o.merge_max_parts_per_job i;
    merge_check_interval =
        zero_or_idem (not o.merge_disable) (10 * second) o.merge_check_interval i;
    merge_disable = o.merge_disable;
    retention_period = o.retention_period;
    retention_check_interval =
        zero_or_idem (ltb_ℤ (pos 0) o.retention_period) (3600 * second) o.retention_check_interval
          i;
  },
)
