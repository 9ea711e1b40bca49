-- ===== src/Tests/Ref.antt =====
-- CacheBlockRef of crates/mach-model/src/kv_block_pool.rs on a heap with one block.
use machserve.Common.{
  ℕ, zero, suc, ◌<◌, ◌≡◌, refl, sym, ◌⊎◌, get_elem?, List, [], ◌∷◌, length, true, some, none,
  returns, panics, arith, ◌>>=◌,
}
use machserve.BlockPool.{new, lcm_block, is_occupied, num_occupied_slots, release, occupy}
use machserve.BlockPool.Plan.{
  partial_ids, occupied_of, comes_before, insert_sorted, sort_ids, take_open, take_partial,
  take_free, plan_locations,
}
use machserve.BlockPool.Acquire.{occupy_all, acquire_blocks}
use machserve.BlockPool.Valid.{location, new-IsValid}
use machserve.BlockPool.Grant.{new-IsPacked}
use machserve.BlockPool.Total.{IsPacked}
use machserve.BlockRef.{
  CacheBlock, Heap, CacheBlockRef, is_null, use_count, unique, ref_eq, clone, drop_ref, drop_refs,
  acquire_refs,
}
use machserve.BlockRef.Sound.{IsSound}
use machserve.BlockRef.Drop.{Dropped, drop_ref-Dropped, Cloned, clone-Cloned}
use machserve.BlockRef.Acquire.{Granted, acquire_refs-Granted}
use machserve.Tests.Pool.{one, one-IsValid}

heap : Unit {0}
unfolding new lcm_block is_occupied num_occupied_slots release occupy partial_ids occupied_of
    comes_before insert_sorted sort_ids take_open take_partial take_free plan_locations occupy_all
    acquire_blocks is_null use_count unique ref_eq clone drop_ref drop_refs acquire_refs
heap = tt

abbrev held_block : CacheBlock
held_block = record { location = location 0 0; strong = 1 }

abbrev pub single : Heap
single = record { pool = one; blocks = held_block ∷ [] }

abbrev empty : Heap
unfolding heap
empty = record { pool = new 3; blocks = [] }

single-holds :
    (a : ℕ) (c : CacheBlock)
    → get_elem? single.blocks a ≡ some c
    → 0 < c.strong
    → is_occupied one c.location ≡ returns true
unfolding heap
single-holds zero c h alive = rw (sym (some_injective h)) refl
  where
    some_injective : {x y : CacheBlock} → some x ≡ some y → x ≡ y
    some_injective e = cc
single-holds (suc a) c h alive = cc

single-own :
    (a b : ℕ) (c d : CacheBlock)
    → get_elem? single.blocks a ≡ some c
    → get_elem? single.blocks b ≡ some d
    → 0 < c.strong
    → 0 < d.strong
    → c.location ≡ d.location
    → a ≡ b
single-own zero zero c d g h p q same = refl
single-own (suc a) b c d g h p q same = cc
single-own zero (suc b) c d g h p q same = cc

pub single-IsSound : IsSound single
unfolding heap
single-IsSound = record {
  valid = one-IsValid;
  holds = single-holds;
  own = single-own;
  no_leak = refl;
}

empty-IsSound : IsSound empty
unfolding heap
empty-IsSound = record {
  valid = new-IsValid 3;
  holds = λ a c h p. cc;
  own = λ a b c d g h p q same. cc;
  no_leak = refl;
}

-- Two handles: the first drop keeps the slot, the second gives it back.
both_dropped :
    (do h ← clone single (some 0); drop_refs h (some 0 ∷ some 0 ∷ []))
    ≡ returns (record {
      pool = record {
        lcm_blocks = record { bound_group = none; occupancy = []; occupied_count = 0 } ∷ [];
        free_parent_ids = 1 ∷ [];
      };
      blocks = record held_block { strong = 0 } ∷ [];
    })
unfolding heap
both_dropped = refl

dropped_again : (do h ← drop_ref single (some 0); drop_ref h (some 0)) ≡ panics
unfolding heap
dropped_again = refl

drop_ref-Dropped_example :
    (h' : Heap) × (drop_ref single (some 0) ≡ returns h') × Dropped single 0 h'
unfolding heap
drop_ref-Dropped_example = drop_ref-Dropped single 0 single-IsSound (omega arith)

clone-Cloned_example : (h' : Heap) × (clone single (some 0) ≡ returns h') × Cloned single 0 h'
unfolding heap
clone-Cloned_example = clone-Cloned single 0 single-IsSound (omega arith)

acquire_refs-Granted_example :
    (rs : List CacheBlockRef) × (h' : Heap) × (acquire_refs empty 7 2 3 ≡ returns (rs, h'))
    × Granted empty rs h'
    × ((length rs ≡ 3) ⊎ ((rs ≡ []) × (h'.pool ≡ empty.pool)))
    × IsPacked 7 2 h'.pool
unfolding heap
acquire_refs-Granted_example =
    acquire_refs-Granted empty 7 2 3 empty-IsSound (omega arith) (new-IsPacked 7 2 3)
