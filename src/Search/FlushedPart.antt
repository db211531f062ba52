-- ===== src/Search/FlushedPart.antt =====
-- storage.go: the blocks of a part that a flush wrote, each in its directory.
use Prim.Native.Nat.{ℕ}
use marchilogs.Base.{
  if◌then◌else◌, is_nil, All, Bytes, bytes_eq_refl, bytes_eq_iff, mem_bytes, Distinct, Map, lookup,
  insert, lookup-insert, ◌≡◌, refl, ap, ◌∙◌, false, Option, none, some, List, [], ◌∷◌, map, arith,
}
use marchilogs.Block.{MemBlock, BlockDir, empty_dir, write_to}
use marchilogs.Store.{dir_at}
use marchilogs.Flush.{path_of, block_dirs}
use marchilogs.Search.Written.{IsWritable}
use marchilogs.Search.Selection.{tally}

abbrev pub streams : List MemBlock → List Bytes
streams bs = map (λ (b : MemBlock). b.stream) bs

abbrev paths : List MemBlock → List Bytes
paths bs = map path_of bs

-- Blocks that a flush can write to one part: they are of different streams, and no two share a
-- directory.
pub record AreBlocks (bs : List MemBlock) : Type 0 where
  pub some_block : is_nil bs ≡ false
  pub streams_differ : Distinct (streams bs)
  pub paths_differ : Distinct (paths bs)
  pub writable : All IsWritable bs

lookup-block_dirs :
    (x : Bytes) (bs : List MemBlock) (dirs : Map BlockDir)
    → mem_bytes x (paths bs) ≡ false
    → lookup x (block_dirs bs dirs) ≡ lookup x dirs
unfolding block_dirs mem_bytes
lookup-block_dirs x [] dirs h = refl
lookup-block_dirs x (b ∷ bs) dirs h =
    let dir = write_to b (dir_at (path_of b) dirs) in
    ground (
      arith,
      lookup-block_dirs x bs (insert (path_of b) dir dirs),
      lookup-insert (path_of b) x dir dirs,
    )

still_absent :
    (x : Bytes) (dir : BlockDir) (bs : List MemBlock) (dirs : Map BlockDir)
    → mem_bytes x (paths bs) ≡ false
    → All (λ (b : MemBlock). lookup (path_of b) dirs ≡ none) bs
    → All (λ (b : MemBlock). lookup (path_of b) (insert x dir dirs) ≡ none) bs
unfolding mem_bytes
still_absent x dir [] dirs h ha = tt
still_absent x dir (b ∷ bs) dirs h ha = (
  ground (
    arith,
    lookup-insert x (path_of b) dir dirs,
    bytes_eq_iff x (path_of b),
    bytes_eq_iff (path_of b) x,
    h,
    ha.0,
  ),
  still_absent x dir bs dirs (ground (arith, h)) ha.1,
)

-- Each block stands in its directory.
pub block_dirs-All :
    (bs : List MemBlock) (dirs : Map BlockDir)
    → Distinct (paths bs)
    → All (λ (b : MemBlock). lookup (path_of b) dirs ≡ none) bs
    → All
        (λ (b : MemBlock). lookup (path_of b) (block_dirs bs dirs) ≡ some (write_to b empty_dir))
        bs
unfolding block_dirs
block_dirs-All [] dirs d h = tt
block_dirs-All (b ∷ bs) dirs d h =
    let dir = write_to b (dir_at (path_of b) dirs) in
    (
      lookup-block_dirs (path_of b) bs (insert (path_of b) dir dirs) d.0
          ∙ lookup-insert (path_of b) (path_of b) dir dirs
          ∙ ap (λ c. if c then some dir else lookup (path_of b) dirs) (bytes_eq_refl (path_of b))
          ∙ ap
              (λ (o : Option BlockDir).
                some (write_to b (elim o [ none ↦ empty_dir | some e ↦ e ])))
              h.0,
      block_dirs-All bs (insert (path_of b) dir dirs) d.1
          (still_absent (path_of b) dir bs dirs d.0 h.1),
    )

pub absent_at_first :
    (bs : List MemBlock) → All (λ (b : MemBlock). lookup {V = BlockDir} (path_of b) [] ≡ none) bs
unfolding lookup
absent_at_first [] = tt
absent_at_first (b ∷ bs) = (refl, absent_at_first bs)

tally-absent :
    (g : MemBlock → ℕ) (a : Bytes) (bs : List MemBlock)
    → mem_bytes a (streams bs) ≡ false
    → tally g a bs ≡ 0
unfolding tally mem_bytes
tally-absent g a [] h = refl
tally-absent g a (b ∷ bs) h = ground (arith, tally-absent g a bs)

tally-cons :
    (g : MemBlock → ℕ) (b : MemBlock) (cs bs : List MemBlock)
    → mem_bytes b.stream (streams cs) ≡ false
    → All (λ (c : MemBlock). tally g c.stream bs ≡ g c) cs
    → All (λ (c : MemBlock). tally g c.stream (b ∷ bs) ≡ g c) cs
unfolding tally mem_bytes
tally-cons g b [] bs h ht = tt
tally-cons g b (c ∷ cs) bs h ht = (
  ground (arith, bytes_eq_iff b.stream c.stream, bytes_eq_iff c.stream b.stream, h, ht.0),
  tally-cons g b cs bs (ground (arith, h)) ht.1,
)

-- The number of a block is that of its stream.
pub tally-All :
    (g : MemBlock → ℕ) (bs : List MemBlock)
    → Distinct (streams bs)
    → All (λ (b : MemBlock). tally g b.stream bs ≡ g b) bs
unfolding tally
tally-All g [] d = tt
tally-All g (b ∷ bs) d = (
  ground (arith, bytes_eq_refl b.stream, tally-absent g b.stream bs d.0),
  tally-cons g b bs bs d.0 (tally-All g bs d.1),
)
