-- ===== src/Lib.antt =====
-- machserve: models and proofs for the host-side control plane of the inference engine.
--
-- The engine admits a request, looks up which pages of its prompt are cached already, takes blocks
-- for the other pages from a pool, prefills the prompt in chunks and decodes. The parts modelled:
--
-- * SchedulerFsm (crates/mach-model/src/scheduler_fsm.rs): the lifecycle of a request. `transition`
--   is the table of FsmEvent::apply_with_hook, `apply` and `apply_with_hook` are the two entry
--   points, `run` applies a schedule of events.
-- * PrefixHasher (crates/mach-model/src/prefix_cache.rs, first part): hex coding, the framing of a
--   page and the chain of page hashes. SHA-256 is the parameter `sha256`, from the list of all
--   bytes that the context absorbs to the digest.
-- * BlockPool (crates/mach-model/src/kv_block_pool.rs): LCM-sized parents and their child slots.
--   `release` and `occupy` are in BlockPool.antt, plan_locations in BlockPool/Plan.antt,
--   acquire_blocks in BlockPool/Acquire.antt. Valid has the invariant; Release, Occupy, Fill, Total
--   and Grant have the proofs, in this order.
-- * BlockRef (crates/mach-model/src/kv_block_pool.rs, CacheBlock and CacheBlockRef): the heap holds
--   the pool and a counted cell for each block; `clone` and `drop_ref` change the counts and the
--   last drop calls `release`; `acquire_refs` is acquire_blocks with the handles that it makes.
--   Sound has the invariant; Drop and Acquire have the proofs.
-- * PrefixIndex (crates/mach-model/src/prefix_cache.rs, CacheKey to PrefixMatcher): the page index of
--   a cache group. `remove_at` is `unlink`, on the vector and the maps, and the drop of the entry's
--   handle. Common/Positions.antt keeps a map and a vector in step under push, pop and swap_remove;
--   Found has the invariant of the index, Evict the invariant with the heap; Remove, Evict, Store,
--   Insert and Match have the proofs.
-- * StateReuse (crates/mach-model/src/state_reuse.rs): the anchor store and the longest-prefix match.
--   `insert` is AnchorStore::insert, in the steps `make_room` and `keep`; `find_reusable` folds
--   `improves` over what the iteration over the hash map yields, an argument of it. Store has the invariant; Queue and Match have the proofs.
-- * ReusePlanner (crates/mach-model/src/reuse_planner.rs): admission. `plan` hashes the pages
--   (PrefixHasher), matches them (PrefixIndex.probe), refreshes and clones the reused ones, acquires
--   blocks for the rest (BlockRef.acquire_refs) and records them; `release` removes the
--   keys of a plan and drops it. Balance has the invariant, which counts the owners of each block;
--   Take, Reuse, Record and Fill have the steps of `plan`, Admit and Release the calls, and Session
--   the sequences of calls.
-- * BlockTable (crates/mach-model/src/kv_block_pool.rs, BlockTable): the rows of page numbers.
-- * Fp16 (crates/mach-model/src/fp16.rs): half-precision conversions on bit patterns. Value has
--   the magnitudes that they stand for; Exact, Back and Round have the proofs.
-- * PagedKv (crates/mach-model/src/paged_kv.rs): block tables, the page allocator and
--   GpuPagedTableBuilder, over the same page hashes (PrefixHasher) as the planner. Runs is
--   build_tiled_attn_runs; Alloc has the invariant of the allocator, Plan that of the builder; Held,
--   Plan, Pad, Register and Evict have the proofs.
-- * PrefillBuffered (crates/mach-model/src/prefill_buffered.rs): run_double_buffered over its two
--   closures; Schedule has the sequential loop that it agrees with.
-- * ExpertCache (crates/mach-model/src/moe_backend.rs): LruExpertCache. `plan`, `plan_step` and
--   `plan_lru` run `plan_each` over their loop bodies; Slot has the invariant, Assign, Place and Plan
--   the proofs.
-- * Retired (crates/mach-model/src/continuous.rs, evict_one_retired and what it calls): the pages of
--   finished sequences, over PagedKv. `evict_hashes` is the loop of evict_entry_at. Claims has the
--   counts, Shrunk what a round may free, Evict the proofs.
--
-- Conventions. A call that may panic returns an `Outcome` (Common/Panics.antt); a method returns the
-- new state beside its result. An `i32` that may be negative is an integer of Common/Int.antt, whose
-- addition wraps as in a release build; counts, ids and sizes that the code keeps non-negative are
-- natural numbers, and the bounds of their machine types are not modelled. A string is the list of
-- its bytes. Loops recur on their lists or on the rounds that
-- are left. Fuel is taken by `normalize` of Fp16, where ten shifts are enough for a mantissa of ten
-- bits that is not zero, by `tiles_from` and `runs_from` of PagedKv, where the rows are enough,
-- since each round takes at least one, and by `lowest_free` of ExpertCache, where one more than the
-- resident experts is enough.
--
-- Not modelled: device kernels and floating-point arithmetic, file formats, HTTP, and the parts of
-- the control plane that the manifest lists as open.
pub mod Common
pub mod BlockPool
pub mod BlockRef
pub mod BlockTable
pub mod ExpertCache
pub mod Fp16
pub mod PagedKv
pub mod PrefillBuffered
pub mod PrefixHasher
pub mod PrefixIndex
pub mod Retired
pub mod ReusePlanner
pub mod SchedulerFsm
pub mod StateReuse
pub mod Tests
