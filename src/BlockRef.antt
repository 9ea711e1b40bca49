-- ===== src/BlockRef.antt =====
-- CacheBlock and CacheBlockRef of crates/mach-model/src/kv_block_pool.rs: shared handles to slots,
-- the last of which returns its slot to the pool.
-- The heap holds the one pool that all handles share and a cell for each block ever made; the
-- address of a cell is its index, and `strong` is what `Rc::strong_count` reads.
pub mod Sound
pub mod Drop
pub mod Acquire
use machserve.Common.{
  ℕ, zero, suc, ◌+◌, ◌-◌, ◌≡◌, Bool, true, false, Option, none, some, List, [], ◌∷◌, ◌++◌, length,
  get_elem?, set, map, ltb, ◌==◌, if◌then◌else◌, Outcome, returns, panics, assert, index, ◌>>=◌,
  ◌>>◌,
}
use machserve.BlockPool.{CacheBlockLocation, BlockPool, release}
use machserve.BlockPool.Acquire.{acquire_blocks}

pub record CacheBlock : Type 0 where
  pub location : CacheBlockLocation
  pub strong : ℕ

pub record Heap : Type 0 where
  pub pool : BlockPool
  pub blocks : List CacheBlock

-- A handle, null or an address.
abbrev pub CacheBlockRef : Type 0
CacheBlockRef = Option ℕ

unfoldable pub is_null : CacheBlockRef → Bool
is_null none = true
is_null (some a) = false

abbrev pub location_at : List CacheBlock → ℕ → Option CacheBlockLocation
location_at [] a = none
location_at (c ∷ cs) zero = some c.location
location_at (c ∷ cs) (suc a) = location_at cs a

abbrev pub strong_at : List CacheBlock → ℕ → ℕ
strong_at [] a = 0
strong_at (c ∷ cs) zero = c.strong
strong_at (c ∷ cs) (suc a) = strong_at cs a

unfoldable pub location : Heap → CacheBlockRef → Option CacheBlockLocation
location h none = none
location h (some a) = location_at h.blocks a

-- Live handles that share the block, none for a null handle.
unfoldable pub use_count : Heap → CacheBlockRef → ℕ
use_count h none = 0
use_count h (some a) = strong_at h.blocks a

unfoldable pub unique : Heap → CacheBlockRef → Bool
unfolding use_count
unique h r = use_count h r == 1

-- `==` compares the addresses.
unfoldable pub ref_eq : CacheBlockRef → CacheBlockRef → Bool
ref_eq none none = true
ref_eq (some a) (some b) = a == b
ref_eq _ _ = false

-- `clone`: one more handle.
unfoldable pub clone : Heap → CacheBlockRef → Outcome Heap
clone h none = returns h
clone h (some a) = do
  block ← index h.blocks a
  assert (ltb 0 block.strong)
  returns (record h { blocks = set h.blocks a (record block { strong = block.strong + 1 }) })

-- `drop` and `reset`: the last handle releases the slot.
unfoldable pub drop_ref : Heap → CacheBlockRef → Outcome Heap
drop_ref h none = returns h
drop_ref h (some a) = do
  block ← index h.blocks a
  assert (ltb 0 block.strong)
  let blocks = set h.blocks a (record block { strong = block.strong - 1 })
  if block.strong == 1
      then (do
        pool ← release h.pool block.location
        returns (record { pool = pool; blocks = blocks }))
      else returns (record h { blocks = blocks })

-- Handles dropped in order.
unfoldable pub drop_refs : Heap → List CacheBlockRef → Outcome Heap
drop_refs h [] = returns h
drop_refs h (r ∷ rs) = do h' ← drop_ref h r; drop_refs h' rs

abbrev pub fresh_block : CacheBlockLocation → CacheBlock
fresh_block l = record { location = l; strong = 1 }

-- The addresses of blocks that are made one after another.
abbrev pub refs_from : ℕ → List CacheBlockLocation → List CacheBlockRef
refs_from a [] = []
refs_from a (l ∷ ls) = some a ∷ refs_from (suc a) ls

-- `acquire_blocks`, with the owners that it makes.
unfoldable pub acquire_refs : Heap → ℕ → ℕ → ℕ → Outcome (List CacheBlockRef × Heap)
acquire_refs h group_id cache_blocks_per_lcm_block num = do
  (locations, pool) ← acquire_blocks h.pool group_id cache_blocks_per_lcm_block num
  returns (
    refs_from (length h.blocks) locations,
    record { pool = pool; blocks = h.blocks ++ map fresh_block locations },
  )
