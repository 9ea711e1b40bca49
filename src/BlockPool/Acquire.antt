-- ===== src/BlockPool/Acquire.antt =====
-- BlockPool::acquire_blocks of crates/mach-model/src/kv_block_pool.rs.
use machserve.Common.{
  ℕ, Option, none, some, List, [], ◌∷◌, length, ltb, ◌==◌, if◌then◌else◌, Outcome, returns, assert,
  ◌>>=◌, ◌>>◌,
}
use machserve.BlockPool.{CacheBlockLocation, BlockPool, occupy}
use machserve.BlockPool.Plan.{plan_locations}

-- The commit loop of `acquire_blocks`.
unfoldable pub occupy_all : BlockPool → ℕ → ℕ → List CacheBlockLocation → Outcome BlockPool
occupy_all p group_id slots_per_parent [] = returns p
occupy_all p group_id slots_per_parent (location ∷ locations) = do
  p' ← occupy p group_id slots_per_parent location
  occupy_all p' group_id slots_per_parent locations

-- `acquire_blocks` once the locations are planned.
unfoldable pub commit :
    BlockPool → ℕ → ℕ → ℕ → List CacheBlockLocation → Outcome (List CacheBlockLocation × BlockPool)
commit p group_id slots_per_parent num locations =
    if length locations == num
    then (do p' ← occupy_all p group_id slots_per_parent locations; returns (locations, p'))
    else returns ([], p)

-- The locations of the blocks that the caller gets, and the pool afterwards.
unfoldable pub acquire_blocks :
    BlockPool → ℕ → ℕ → ℕ → Outcome (List CacheBlockLocation × BlockPool)
unfolding commit
acquire_blocks p group_id cache_blocks_per_lcm_block num = do
  assert (ltb 0 cache_blocks_per_lcm_block)
  if num == 0 then returns ([], p) else (do
    locations ← plan_locations p group_id cache_blocks_per_lcm_block num
    commit p group_id cache_blocks_per_lcm_block num locations)

abbrev head? : List CacheBlockLocation → Option CacheBlockLocation
head? [] = none
head? (l ∷ ls) = some l

unfoldable pub acquire_block : BlockPool → ℕ → ℕ → Outcome (Option CacheBlockLocation × BlockPool)
acquire_block p group_id cache_blocks_per_lcm_block = do
  (locations, p') ← acquire_blocks p group_id cache_blocks_per_lcm_block 1
  returns (head? locations, p')
