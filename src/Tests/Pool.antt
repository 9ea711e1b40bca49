-- ===== src/Tests/Pool.antt =====
-- BlockPool of crates/mach-model/src/kv_block_pool.rs on small pools.
use machserve.Common.{
  occurs, ℕ, ◌≡◌, refl, zero, suc, inr, get_elem?, ◌⊎◌, List, [], ◌∷◌, length, true, false, some,
  returns, panics, arith,
}
use machserve.BlockPool.{
  CacheBlockLocation, LcmBlock, BlockPool, new, lcm_block, is_occupied, num_occupied_slots, release,
  occupy,
}
use machserve.BlockPool.Plan.{
  partial_ids, occupied_of, comes_before, insert_sorted, sort_ids, take_open, take_partial,
  take_free, plan_locations,
}
use machserve.BlockPool.Acquire.{occupy_all, acquire_blocks}
use machserve.BlockPool.Valid.{IsValid, IsFree, IsBound, free_mark, new-IsValid, location}
use machserve.BlockPool.Grant.{Acquired, acquire_blocks-Acquired, new-IsPacked}
use machserve.BlockPool.Release.Whole.{Released, release-Released, release-panics}

pool : Unit {0}
unfolding new lcm_block is_occupied num_occupied_slots release occupy partial_ids occupied_of
    comes_before insert_sorted sort_ids take_open take_partial take_free plan_locations occupy_all
    acquire_blocks
pool = tt

abbrev result : BlockPool → ℕ → ℕ → ℕ → BlockPool
unfolding pool
result p g spp num = elim (acquire_blocks p g spp num) [ returns (_, q) ↦ q | panics ↦ p ]

-- Group 7 fills its open parent before it takes the next free one.
abbrev three : BlockPool
unfolding pool
three = result (new 3) 7 2 3

fourth : acquire_blocks three 7 2 2 ≡ returns (location 1 1 ∷ location 2 0 ∷ [], result three 7 2 2)
unfolding pool
fourth = refl

-- All or nothing.
too_many : acquire_blocks three 7 2 4 ≡ returns ([], three)
unfolding pool
too_many = refl

acquire_blocks-Acquired_example :
    (ls : List CacheBlockLocation) × (q : BlockPool) × (acquire_blocks (new 3) 7 2 3
      ≡ returns (ls, q))
    × Acquired (new 3) ls q
    × ((length ls ≡ 3) ⊎ ((ls ≡ []) × (q ≡ new 3)))
acquire_blocks-Acquired_example =
    acquire_blocks-Acquired 7 2 3 (new 3) (new-IsValid 3) (omega arith) (new-IsPacked 7 2 3)

-- One parent of two slots, the first of which is taken.
abbrev pub one : BlockPool
one = record {
  lcm_blocks =
      record { bound_group = some 7; occupancy = true ∷ false ∷ []; occupied_count = 1 } ∷ [];
  free_parent_ids = [];
}

one-parents : (i : ℕ) (b : LcmBlock) → get_elem? one.lcm_blocks i ≡ some b → IsFree b ⊎ IsBound b
one-parents zero b h = inr (ground arith, ground arith, ground arith)
one-parents (suc i) b h = cc

one-queue : (i : ℕ) → occurs (suc i) one.free_parent_ids ≡ free_mark (get_elem? one.lcm_blocks i)
one-queue zero = refl
one-queue (suc i) = refl

pub one-IsValid : IsValid one
one-IsValid = record {
  parents = one-parents;
  queue = one-queue;
  no_null_page = refl;
  queue_len = refl;
}

release-Released_example :
    (q : BlockPool) × (release one (location 0 0) ≡ returns q) × Released one (location 0 0) q
unfolding pool
release-Released_example = release-Released one (location 0 0) one-IsValid refl

release-panics_example : release one (location 0 1) ≡ panics
unfolding pool
release-panics_example = release-panics one (location 0 1) (λ h. cc)
