-- ===== src/BlockPool.antt =====
-- BlockPool of crates/mach-model/src/kv_block_pool.rs: child slots inside LCM-sized parent blocks.
-- Ids, slots and counts are `i32`, `u32` or `usize` values that the code keeps non-negative, and
-- are natural numbers here; a negative id or slot fails the same checks as one out of range.
pub mod Valid
pub mod Release
pub mod Occupy
pub mod Plan
pub mod Fill
pub mod Total
pub mod Grant
pub mod Packed
pub mod Acquire
use machserve.Common.{
  ℕ, zero, suc, ◌+◌, ◌-◌, ◌≡◌, Bool, true, false, not, ◌&&◌, ◌||◌, Option, none, some, List, [],
  ◌∷◌, ◌++◌, length, get_elem?, set, replicate, ltb, leb, ◌==◌, if◌then◌else◌, Outcome, returns,
  panics, assert, index, ◌>>=◌, ◌>>◌,
}

pub record CacheBlockLocation : Type 0 where
  pub lcm_block_id : ℕ
  pub slot_index : ℕ

-- One physical parent. It is unbound and holds no slots while free.
pub record LcmBlock : Type 0 where
  pub bound_group : Option ℕ
  pub occupancy : List Bool
  pub occupied_count : ℕ

-- The head of `free_parent_ids` is the front of the queue.
pub record BlockPool : Type 0 where
  pub lcm_blocks : List LcmBlock
  pub free_parent_ids : List ℕ

abbrev pub free_block : LcmBlock
free_block = record { bound_group = none; occupancy = []; occupied_count = 0 }

-- `start`, `start + 1`, …, `n` ids in all.
abbrev pub ids_from : ℕ → ℕ → List ℕ
ids_from start zero = []
ids_from start (suc n) = start ∷ ids_from (suc start) n

unfoldable pub new : ℕ → BlockPool
new num_lcm_blocks = record {
  lcm_blocks = replicate num_lcm_blocks free_block;
  free_parent_ids = ids_from 1 num_lcm_blocks;
}

unfoldable pub num_lcm_blocks : BlockPool → ℕ
num_lcm_blocks p = length p.lcm_blocks

unfoldable pub num_empty_lcm_blocks : BlockPool → ℕ
num_empty_lcm_blocks p = length p.free_parent_ids

-- A parent by its id, which counts from 1.
unfoldable pub lcm_block : BlockPool → ℕ → Outcome LcmBlock
lcm_block p id = do assert (ltb 0 id && leb id (length p.lcm_blocks)); index p.lcm_blocks (id - 1)

unfoldable pub bound_group : BlockPool → ℕ → Outcome (Option ℕ)
bound_group p id = do parent ← lcm_block p id; returns parent.bound_group

unfoldable pub occupied_count : BlockPool → ℕ → Outcome ℕ
occupied_count p id = do parent ← lcm_block p id; returns parent.occupied_count

abbrev pub is_true_at : List Bool → ℕ → Bool
is_true_at [] i = false
is_true_at (b ∷ bs) zero = b
is_true_at (b ∷ bs) (suc i) = is_true_at bs i

unfoldable pub is_occupied : BlockPool → CacheBlockLocation → Outcome Bool
is_occupied p location = do
  parent ← lcm_block p location.lcm_block_id
  returns (is_true_at parent.occupancy location.slot_index)

abbrev pub sum_occupied : List LcmBlock → ℕ
sum_occupied [] = 0
sum_occupied (b ∷ bs) = b.occupied_count + sum_occupied bs

unfoldable pub num_occupied_slots : BlockPool → ℕ
num_occupied_slots p = sum_occupied p.lcm_blocks

-- The occupied slots of one parent, from slot `slot` on.
unfoldable pub locations_from : ℕ → ℕ → List Bool → List CacheBlockLocation
locations_from id slot [] = []
locations_from id slot (true ∷ bs) =
    record { lcm_block_id = id; slot_index = slot } ∷ locations_from id (suc slot) bs
locations_from id slot (false ∷ bs) = locations_from id (suc slot) bs

unfoldable pub occupied_locations : BlockPool → ℕ → Outcome (List CacheBlockLocation)
occupied_locations p id = do parent ← lcm_block p id; returns (locations_from id 0 parent.occupancy)

-- `release` once the slot is cleared: the last slot frees the parent.
unfoldable pub unbind_if_empty : BlockPool → ℕ → LcmBlock → Outcome BlockPool
unbind_if_empty p id parent =
    if parent.occupied_count == 0
    then (do
      assert (ltb (length p.free_parent_ids) (length p.lcm_blocks))
      returns (record {
        lcm_blocks =
            set p.lcm_blocks (id - 1) (record parent { bound_group = none; occupancy = [] });
        free_parent_ids = p.free_parent_ids ++ id ∷ [];
      }))
    else returns (record p { lcm_blocks = set p.lcm_blocks (id - 1) parent })

unfoldable pub release : BlockPool → CacheBlockLocation → Outcome BlockPool
unfolding unbind_if_empty
release p location = do
  let id = location.lcm_block_id
  let slot = location.slot_index
  assert (ltb 0 id && leb id (length p.lcm_blocks))
  parent ← index p.lcm_blocks (id - 1)
  assert (ltb slot (length parent.occupancy))
  assert (is_true_at parent.occupancy slot && ltb 0 parent.occupied_count)
  unbind_if_empty p id (record parent {
    occupancy = set parent.occupancy slot false;
    occupied_count = parent.occupied_count - 1;
  })

-- `xs.front() == Some(&id)`.
front_is : ℕ → List ℕ → Bool
front_is id [] = false
front_is id (x ∷ xs) = x == id

pop_front : List ℕ → List ℕ
pop_front [] = []
pop_front (x ∷ xs) = xs

is_empty : List Bool → Bool
is_empty [] = true
is_empty (b ∷ bs) = false

unfoldable pub is_group : ℕ → Option ℕ → Bool
is_group g none = false
is_group g (some h) = h == g

-- The first part of `occupy`: an empty parent must be the next free one, and is bound.
unfoldable pub bind_if_empty : BlockPool → ℕ → ℕ → ℕ → LcmBlock → Outcome (LcmBlock × List ℕ)
unfolding front_is pop_front is_empty
bind_if_empty p group_id slots_per_parent id parent =
    if parent.occupied_count == 0
    then (do
      assert (front_is id p.free_parent_ids)
      assert (is_empty parent.occupancy)
      returns (
        record parent { occupancy = replicate slots_per_parent false; bound_group = some group_id },
        pop_front p.free_parent_ids,
      ))
    else returns (parent, p.free_parent_ids)

unfoldable pub occupy : BlockPool → ℕ → ℕ → CacheBlockLocation → Outcome BlockPool
unfolding bind_if_empty is_group
occupy p group_id slots_per_parent location = do
  let id = location.lcm_block_id
  let slot = location.slot_index
  assert (ltb 0 id)
  parent₀ ← index p.lcm_blocks (id - 1)
  (parent, free) ← bind_if_empty p group_id slots_per_parent id parent₀
  assert (is_group group_id parent.bound_group && (length parent.occupancy == slots_per_parent))
  assert (ltb slot (length parent.occupancy))
  assert (not (is_true_at parent.occupancy slot))
  returns (record {
    lcm_blocks = set p.lcm_blocks (id - 1) (record parent {
      occupancy = set parent.occupancy slot true;
      occupied_count = parent.occupied_count + 1;
    });
    free_parent_ids = free;
  })
