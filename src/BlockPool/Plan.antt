-- ===== src/BlockPool/Plan.antt =====
-- BlockPool::plan_locations of crates/mach-model/src/kv_block_pool.rs.
use machserve.Common.{
  ℕ, zero, suc, ◌-◌, Bool, true, false, not, ◌&&◌, ◌||◌, List, [], ◌∷◌, ◌++◌, length, replicate,
  ltb, leb, ◌==◌, if◌then◌else◌, Outcome, returns, panics, assert, ◌>>=◌, ◌>>◌,
}
use machserve.BlockPool.{CacheBlockLocation, LcmBlock, BlockPool, lcm_block, is_group}

-- The ids of the group's parents that still have room; `index` counts from 0.
unfoldable pub partial_ids : ℕ → ℕ → ℕ → List LcmBlock → Outcome (List ℕ)
unfolding is_group
partial_ids group_id slots_per_parent i [] = returns []
partial_ids group_id slots_per_parent i (parent ∷ parents) =
    let rest = partial_ids group_id slots_per_parent (suc i) parents in
    if not (is_group group_id parent.bound_group) then rest else (do
      assert (length parent.occupancy == slots_per_parent)
      ids ← rest
      returns (if ltb parent.occupied_count (length parent.occupancy) then suc i ∷ ids else ids))

-- The count that the comparison reads; each id that it meets is in range.
unfoldable pub occupied_of : BlockPool → ℕ → ℕ
occupied_of p id = elim (lcm_block p id) [ returns b ↦ b.occupied_count | panics ↦ 0 ]

-- Most occupied first, then the lowest id.
unfoldable pub comes_before : BlockPool → ℕ → ℕ → Bool
comes_before p lhs rhs =
    let l = occupied_of p lhs in let r = occupied_of p rhs in ltb r l || ((l == r) && leb lhs rhs)

unfoldable pub insert_sorted : BlockPool → ℕ → List ℕ → List ℕ
unfolding comes_before
insert_sorted p id [] = id ∷ []
insert_sorted p id (x ∷ xs) = if comes_before p id x then id ∷ x ∷ xs else x ∷ insert_sorted p id xs

-- `sort_by`, as an insertion sort.
unfoldable pub sort_ids : BlockPool → List ℕ → List ℕ
unfolding insert_sorted
sort_ids p [] = []
sort_ids p (id ∷ ids) = insert_sorted p id (sort_ids p ids)

-- The loop over one parent's slots; `left` is `count - locations.len()`.
unfoldable pub take_open : ℕ → ℕ → List Bool → ℕ → List CacheBlockLocation
take_open id slot occupancy zero = []
take_open id slot [] (suc left) = []
take_open id slot (true ∷ bs) (suc left) = take_open id (suc slot) bs (suc left)
take_open id slot (false ∷ bs) (suc left) =
    record { lcm_block_id = id; slot_index = slot } ∷ take_open id (suc slot) bs left

-- The loop over the partly filled parents.
unfoldable pub take_partial : BlockPool → List ℕ → ℕ → Outcome (List CacheBlockLocation)
unfolding take_open
take_partial p [] left = returns []
take_partial p (id ∷ ids) zero = returns []
take_partial p (id ∷ ids) (suc left) = do
  parent ← lcm_block p id
  let here = take_open id 0 parent.occupancy (suc left)
  there ← take_partial p ids (suc left - length here)
  returns (here ++ there)

-- The loop over the free parents, all of whose slots are open.
unfoldable pub take_free : ℕ → List ℕ → ℕ → List CacheBlockLocation
unfolding take_open
take_free slots_per_parent [] left = []
take_free slots_per_parent (id ∷ ids) left =
    let here = take_open id 0 (replicate slots_per_parent false) left in
    here ++ take_free slots_per_parent ids (left - length here)

-- All or nothing.
unfoldable pub plan_locations : BlockPool → ℕ → ℕ → ℕ → Outcome (List CacheBlockLocation)
unfolding partial_ids sort_ids take_partial take_free
plan_locations p group_id slots_per_parent count = do
  ids ← partial_ids group_id slots_per_parent 0 p.lcm_blocks
  partials ← take_partial p (sort_ids p ids) count
  let locations = partials ++ take_free slots_per_parent p.free_parent_ids (count - length partials)
  returns (if length locations == count then locations else [])
