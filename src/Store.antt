-- ===== src/Store.antt =====
-- storage.go: the state of a `Storage`, in memory and on disk. A directory of a day holds parts, and
-- a part holds the directories of its blocks by their paths. A file of JSON text is missing, is
-- corrupt, or stands for a value.
use Prim.Native.Nat.{ℕ}
use marchilogs.Base.{
  cut, Bytes, Map, lookup, not_exist, bad_json, Result, err, ok, Option, none, some, List, [], ◌∷◌,
  ◌++◌,
}
use marchilogs.Tags.{PartMeta}
use marchilogs.Block.{MemBlock, BlockDir, empty_dir}
use marchilogs.Deletes.{DeleteRecord, Tombstones}
use marchilogs.Wal.{Wal}

pub data File {ℓ} (A : Type ℓ) : Type ℓ where
  missing corrupt : File A
  holds : A → File A

-- `readJSON` (jsonutil.go)
abbrev pub read_json {ℓ} : {A : Type ℓ} → File A → Result A
read_json missing = err not_exist
read_json corrupt = err bad_json
read_json (holds a) = ok a

-- A directory below `parts`.
pub record Part : Type 0 where
  pub meta : File PartMeta
  pub blocks : Map BlockDir

-- A directory below `partitions`.
pub record DayDir : Type 0 where
  pub parts : Map Part
  pub manifest : File (List Bytes)
  pub catalog : File (Map (List Bytes))
  pub deletes : File (List DeleteRecord)

abbrev pub empty_day : DayDir
empty_day = record { parts = []; manifest = missing; catalog = missing; deletes = missing }

abbrev pub day_at : Bytes → Map DayDir → DayDir
day_at day disk = elim (lookup day disk) [ none ↦ empty_day | some d ↦ d ]

-- `Storage`, with the tree below its root; the locks and the channels of the workers are left out.
pub record Store : Type 0 where
  pub buffers : Map MemBlock
  pub part_seq : Map ℕ
  pub wal : Option Wal
  pub manifests : Map (List Bytes)
  pub catalogs : Map (Map (List Bytes))
  pub tombstones : Tombstones
  pub disk : Map DayDir

-- `bufKey`
abbrev pub buf_key : Bytes → Bytes → Bytes
buf_key partition stream = partition ++ 0 ∷ stream

-- `strings.SplitN(key, "\x00", 2)[0]`
abbrev pub partition_of : Bytes → Bytes
partition_of key = elim (cut 0 key) [ none ↦ key | some (partition, stream) ↦ partition ]

abbrev pub dir_at : Bytes → Map BlockDir → BlockDir
dir_at path blocks = elim (lookup path blocks) [ none ↦ empty_dir | some dir ↦ dir ]
