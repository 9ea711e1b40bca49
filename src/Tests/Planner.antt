-- ===== src/Tests/Planner.antt =====
-- crates/mach-model/src/reuse_planner.rs: requests that share pages, over a pool of four blocks.
use machserve.Common.{
  map, length, Outcome, All, ℕ, ◌≡◌, refl, List, [], ◌∷◌, ◌++◌, some, none, returns, panics, arith,
  ◌>>=◌,
}
use machserve.Common.Int.{ℤ, pos}
use machserve.PrefixHasher.{
  u32_le, token_bytes, extra_block, hex_digit, hex_chars, hash_prefix_page, hashes_from,
  compute_prefix_hashes, frame, hex_to_bytes, digest_to_hex, append_hex_bytes,
}
use machserve.BlockPool.{new, lcm_block, is_occupied, num_occupied_slots, release, occupy}
use machserve.BlockPool.Plan.{
  partial_ids, occupied_of, comes_before, insert_sorted, sort_ids, take_open, take_partial,
  take_free, plan_locations,
}
use machserve.BlockPool.Acquire.{occupy_all, acquire_blocks}
use machserve.BlockRef.{Heap, use_count, clone, drop_ref, drop_refs, acquire_refs}
use machserve.BlockRef
use machserve.PrefixIndex.{
  insert, insert_at, insert_new, insert_registered, insert_duplicate, unlink, remove_at, remove,
  query, contains, evict_oldest, hits, probe, num_entries, block_for,
}
use machserve.PrefixIndex
use machserve.ReusePlanner.{
  block_of, ReusePlanner, PrefixReusePlan, Planned, chunks, keys_from, query_all, blocks_for,
  record_fresh, finish, give_up, plan_keys, plan, remove_keys, cached_pages, evict, empty_plan,
}
use machserve.ReusePlanner
use machserve.ReusePlanner.Admit.{IsPlanner, Admitted, plan-Admitted}
use machserve.ReusePlanner.Release.{Lacks, release-Planner}
use machserve.ReusePlanner.Session.{
  Session, handles, start-IsPlanner, Session-IsPlanner, Session-no_leak,
}
use machserve.Tests.Hasher.{checksum, checksum-IsDigest}

planning : Unit {0}
unfolding hash_prefix_page hashes_from compute_prefix_hashes frame new lcm_block is_occupied
    num_occupied_slots release occupy partial_ids occupied_of comes_before insert_sorted sort_ids
    take_open take_partial take_free plan_locations occupy_all acquire_blocks use_count clone
    drop_ref drop_refs acquire_refs BlockRef.location insert insert_at insert_new insert_registered
    insert_duplicate unlink remove_at remove query contains evict_oldest hits probe num_entries
    block_for PrefixIndex.new chunks keys_from query_all blocks_for record_fresh finish give_up
    hex_to_bytes digest_to_hex append_hex_bytes u32_le token_bytes extra_block hex_digit hex_chars
    plan_keys plan remove_keys ReusePlanner.release ReusePlanner.new cached_pages evict
planning = tt

-- A digest that is as long as its input.
abbrev digest : List ℕ → List ℕ
digest bytes = bytes

abbrev planner : ReusePlanner
unfolding planning
planner = record {
  group_id = 7;
  namespace_id = 1;
  tokens_per_page = 2;
  cache_blocks_per_lcm_block = 2;
  index = PrefixIndex.new 7;
}

abbrev empty_heap : Heap
unfolding planning
empty_heap = record { pool = new 2; blocks = [] }

-- How many pages of the plan are reused and how many fresh, and how many slots are held then.
abbrev counts : Planned → List ℕ
unfolding planning
counts (none, p, h) = num_occupied_slots h.pool ∷ []
counts (some q, p, h) = q.reused_pages ∷ q.fresh_pages ∷ num_occupied_slots h.pool ∷ []

abbrev prompt : List ℤ
prompt = pos 5 ∷ pos 6 ∷ pos 7 ∷ pos 8 ∷ pos 9 ∷ []

first_request :
    (do r ← plan digest empty_heap planner prompt; returns (counts r)) ≡ returns (0 ∷ 3 ∷ 3 ∷ [])
unfolding planning
first_request = refl

-- The same prompt again reuses all pages and takes no slot.
second_request :
    (do
      (_, p, h) ← plan digest empty_heap planner prompt
      r ← plan digest h p prompt
      returns (counts r))
    ≡ returns (3 ∷ 0 ∷ 3 ∷ [])
unfolding planning
second_request = refl

-- Seven pages do not fit: no slot stays taken, and nothing is cached.
too_long :
    (do
      (q, p, h) ← plan digest empty_heap planner (prompt ++ (prompt ++ (prompt ++ prompt)))
      returns (cached_pages p ∷ counts (q, p, h)))
    ≡ returns (0 ∷ 0 ∷ [])
unfolding planning
too_long = refl

two_pages : chunks 2 (pos 1 ∷ pos 2 ∷ pos 3 ∷ []) ≡ (pos 1 ∷ pos 2 ∷ []) ∷ (pos 3 ∷ []) ∷ []
unfolding planning
two_pages = refl

-- The first plan loses its pages to eviction, and the second records the same prompt anew; to release
-- the first removes the keys of the second.
abbrev plan_of : Planned → PrefixReusePlan
plan_of (none, _, _) = empty_plan
plan_of (some q, _, _) = q

removed_from_another :
    (do
      (a, p₁, h₁) ← plan digest empty_heap planner (pos 5 ∷ pos 6 ∷ [])
      (_, p₂, h₂) ← evict h₁ p₁
      (b, p₃, h₃) ← plan digest h₂ p₂ (pos 5 ∷ pos 6 ∷ [])
      (p₄, h₄) ← ReusePlanner.release h₃ p₃ (plan_of (a, p₁, h₁))
      returns (cached_pages p₃ ∷ cached_pages p₄ ∷ num_occupied_slots h₄.pool ∷ []))
    ≡ returns (1 ∷ 0 ∷ 1 ∷ [])
unfolding planning
removed_from_another = refl

planner-IsPlanner : IsPlanner empty_heap planner []
unfolding planning
planner-IsPlanner = start-IsPlanner 7 1 2 2 2 planner (omega arith) refl

plan-Admitted_example :
    (r : Planned) × (plan checksum empty_heap planner prompt ≡ returns r)
    × Admitted [] (length prompt) (length (chunks planner.tokens_per_page prompt)) r
plan-Admitted_example =
    plan-Admitted checksum checksum-IsDigest empty_heap planner prompt [] planner-IsPlanner

abbrev first_outcome : Outcome Planned
first_outcome = plan checksum empty_heap planner prompt

abbrev planned_or : Outcome Planned → Planned
planned_or (returns r) = r
planned_or panics = (none, planner, empty_heap)

abbrev first_plan : PrefixReusePlan
first_plan = plan_of (planned_or first_outcome)

abbrev planner_after : Outcome Planned → ReusePlanner
planner_after (returns (_, p, _)) = p
planner_after panics = planner

abbrev heap_after : Outcome Planned → Heap
heap_after (returns (_, _, h)) = h
heap_after panics = empty_heap

started : Session checksum planner [] empty_heap
unfolding planning
started = Session.start 7 1 2 2 2 planner (omega arith) refl

admitted :
    Session checksum (planner_after first_outcome) (first_plan ∷ []) (heap_after first_outcome)
unfolding planning
admitted = Session.admit prompt first_plan started refl

first_plan-IsPlanner :
    IsPlanner
      (heap_after first_outcome)
      (planner_after first_outcome)
      (map block_of first_plan.pages ++ [])
first_plan-IsPlanner = Session-IsPlanner checksum checksum-IsDigest admitted

Session-IsPlanner_example :
    IsPlanner (heap_after first_outcome) (planner_after first_outcome) (handles (first_plan ∷ []))
Session-IsPlanner_example = Session-IsPlanner checksum checksum-IsDigest admitted

release-Planner_example :
    (p : ReusePlanner) × (h : Heap) × (ReusePlanner.release
        (heap_after first_outcome)
        (planner_after first_outcome)
        first_plan
      ≡ returns (p, h))
    × IsPlanner h p []
    × All (Lacks p.index) first_plan.fresh_keys
release-Planner_example =
    release-Planner (heap_after first_outcome) (planner_after first_outcome) first_plan []
      first_plan-IsPlanner

abbrev released_outcome : Outcome (ReusePlanner × Heap)
released_outcome =
    ReusePlanner.release (heap_after first_outcome) (planner_after first_outcome) first_plan

abbrev released_planner : Outcome (ReusePlanner × Heap) → ReusePlanner
released_planner (returns (p, _)) = p
released_planner panics = planner

abbrev released_heap : Outcome (ReusePlanner × Heap) → Heap
released_heap (returns (_, h)) = h
released_heap panics = empty_heap

given_back :
    Session checksum (released_planner released_outcome) [] (released_heap released_outcome)
unfolding planning
given_back = Session.give_back [] [] first_plan admitted refl refl refl

all_removed : cached_pages (released_planner released_outcome) ≡ 0
unfolding planning
all_removed = refl

Session-no_leak_example : num_occupied_slots (released_heap released_outcome).pool ≡ 0
Session-no_leak_example = Session-no_leak checksum checksum-IsDigest given_back all_removed
