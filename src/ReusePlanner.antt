-- ===== src/ReusePlanner.antt =====
-- crates/mach-model/src/reuse_planner.rs: admission of a request over the block pool and the prefix
-- index. A plan is a list of handles, and dropping it drops them in order.
pub mod Chunks
pub mod Balance
pub mod Take
pub mod Reuse
pub mod Record
pub mod Fill
pub mod Prompt
pub mod Admit
pub mod Release
pub mod Session
use machserve.Common.{
  ℕ, zero, suc, ◌+◌, ◌-◌, ◌*◌, ◌≡◌, Bool, true, false, min, Option, none, some, List, [], ◌∷◌, ◌++◌,
  map, length, take, drop, ltb, leb, ◌==◌, if◌then◌else◌, Outcome, returns, panics, assert, ◌>>=◌,
  ◌>>◌,
}
use machserve.Common.Int.{ℤ}
use machserve.PrefixHasher.{compute_prefix_hashes}
use machserve.BlockPool.{CacheBlockLocation}
use machserve.BlockRef.{CacheBlockRef, Heap, acquire_refs, drop_ref, drop_refs}
use machserve.PrefixIndex.{
  num_entries, contains, CacheKey, PrefixCacheIndex, block_for, query, insert, remove, probe,
  expect, evict_oldest,
}
use machserve.PrefixIndex

pub data PageRef : Type 0 where
  reused : CacheBlockRef → PageRef
  fresh : CacheBlockRef → PageRef

pub record PrefixReusePlan : Type 0 where
  pub pages : List PageRef
  pub reused_pages : ℕ
  pub fresh_pages : ℕ
  pub reused_tokens : ℕ
  pub total_tokens : ℕ
  pub fresh_keys : List CacheKey
  pub page_keys : List CacheKey

pub record ReusePlanner : Type 0 where
  pub group_id : ℕ
  pub namespace_id : ℕ
  pub tokens_per_page : ℕ
  pub cache_blocks_per_lcm_block : ℕ
  pub index : PrefixCacheIndex

unfoldable pub new : ℕ → ℕ → ℕ → ℕ → Outcome ReusePlanner
new group_id namespace_id tokens_per_page cache_blocks_per_lcm_block = do
  assert (ltb 0 tokens_per_page)
  returns (record {
    group_id = group_id;
    namespace_id = namespace_id;
    tokens_per_page = tokens_per_page;
    cache_blocks_per_lcm_block = cache_blocks_per_lcm_block;
    index = PrefixIndex.new group_id;
  })

-- `tokens.chunks(size)` of the standard library: `room` is what the current chunk can still take.
abbrev pub chunks_from : ℕ → ℕ → List ℤ → List ℤ → List (List ℤ)
chunks_from size room chunk [] = chunk ∷ []
chunks_from size zero chunk (t ∷ ts) = chunk ∷ chunks_from size (size - 1) (t ∷ []) ts
chunks_from size (suc room) chunk (t ∷ ts) = chunks_from size room (chunk ++ t ∷ []) ts

unfoldable pub chunks : ℕ → List ℤ → List (List ℤ)
chunks size [] = []
chunks size (t ∷ ts) = chunks_from size (size - 1) (t ∷ []) ts

unfoldable pub keys_from : ReusePlanner → ℕ → List (List ℕ) → List CacheKey
keys_from p i [] = []
keys_from p i (h ∷ hashes) =
    record {
      namespace_id = p.namespace_id;
      group_id = p.group_id;
      content_hash = h;
      page_offset = i * p.tokens_per_page;
    }
    ∷ keys_from p (suc i) hashes

-- The queries that refresh the reused pages.
unfoldable pub query_all : PrefixCacheIndex → List CacheKey → Outcome PrefixCacheIndex
query_all ix [] = returns ix
query_all ix (key ∷ keys) = do (_, ix') ← query ix key; query_all ix' keys

-- The handles of the reused pages.
unfoldable pub blocks_for :
    Heap → PrefixCacheIndex → List CacheKey → Outcome (List CacheBlockRef × Heap)
blocks_for h ix [] = returns ([], h)
blocks_for h ix (key ∷ keys) = do
  (found, h₁) ← block_for h ix key
  block ← expect found
  (blocks, h₂) ← blocks_for h₁ ix keys
  returns (block ∷ blocks, h₂)

pub record Recorded : Type 0 where
  pub keys : List CacheKey
  pub pages : List PageRef
  pub index : PrefixCacheIndex
  pub heap : Heap

abbrev pub with_key : CacheKey → PageRef → Recorded → Recorded
with_key key page r = record r { keys = key ∷ r.keys; pages = page ∷ r.pages }

abbrev pub with_page : PageRef → Recorded → Recorded
with_page page r = record r { pages = page ∷ r.pages }

-- The loop over the fresh blocks and their keys.
unfoldable pub record_fresh :
    Heap → PrefixCacheIndex → List CacheKey → List CacheBlockRef → Outcome Recorded
record_fresh h ix keys [] = returns (record { keys = []; pages = []; index = ix; heap = h })
record_fresh h ix [] (block ∷ blocks) = panics
record_fresh h ix (key ∷ keys) (block ∷ blocks) = do
  (previous, ix', h₁) ← insert h ix key block
  elim previous [
    | none ↦ (do rest ← record_fresh h₁ ix' keys blocks; returns (with_key key (fresh block) rest))
    | some canonical ↦ (do
      h₂ ← drop_ref h₁ block
      rest ← record_fresh h₂ ix' keys blocks
      returns (with_page (reused canonical) rest))
  ]

abbrev pub count_fresh : List PageRef → ℕ
count_fresh [] = 0
count_fresh (reused b ∷ pages) = count_fresh pages
count_fresh (fresh b ∷ pages) = suc (count_fresh pages)

abbrev pub empty_plan : PrefixReusePlan
empty_plan = record {
  pages = [];
  reused_pages = 0;
  fresh_pages = 0;
  reused_tokens = 0;
  total_tokens = 0;
  fresh_keys = [];
  page_keys = [];
}

abbrev pub Planned : Type 0
Planned = Option PrefixReusePlan × ReusePlanner × Heap

-- `plan` once the fresh blocks are there: they are recorded, and the plan is put together.
unfoldable pub finish :
    Heap
    → ReusePlanner
    → ℕ
    → List CacheKey
    → List CacheBlockRef
    → List CacheBlockRef
    → Outcome Planned
finish h p total_tokens keys reused_blocks fresh_blocks = do
  let reused_pages = length reused_blocks
  r ← record_fresh h p.index (drop reused_pages keys) fresh_blocks
  let pages = map reused reused_blocks ++ r.pages
  returns (
    some (record {
      pages = pages;
      reused_pages = reused_pages;
      fresh_pages = count_fresh pages;
      reused_tokens = min (reused_pages * p.tokens_per_page) total_tokens;
      total_tokens = total_tokens;
      fresh_keys = r.keys;
      page_keys = keys;
    }),
    record p { index = r.index },
    r.heap,
  )

-- `plan` without room: the handles taken so far are dropped.
unfoldable pub give_up :
    Heap → ReusePlanner → List CacheBlockRef → List CacheBlockRef → Outcome Planned
give_up h p reused_blocks fresh_blocks = do
  h₁ ← drop_refs h fresh_blocks
  h₂ ← drop_refs h₁ reused_blocks
  returns (none, p, h₂)

-- `plan` for the keys of a prompt that has pages.
unfoldable pub plan_keys : Heap → ReusePlanner → ℕ → List CacheKey → Outcome Planned
plan_keys h p total_tokens keys = do
  let reused_keys = take (length (probe p.index keys 0 (length keys))) keys
  ix ← query_all p.index reused_keys
  (reused_blocks, h₁) ← blocks_for h ix reused_keys
  let need_fresh = length keys - length reused_keys
  (fresh_blocks, h₂) ← acquire_refs h₁ p.group_id p.cache_blocks_per_lcm_block need_fresh
  let touched_planner = record p { index = ix }
  if length fresh_blocks == need_fresh
      then finish h₂ touched_planner total_tokens keys reused_blocks fresh_blocks
      else give_up h₂ touched_planner reused_blocks fresh_blocks

module _ (sha256 : List ℕ → List ℕ) where
  unfoldable pub plan : Heap → ReusePlanner → List ℤ → Outcome Planned
  plan h p tokens =
      let pages = chunks p.tokens_per_page tokens in
      if length pages == 0 then returns (some empty_plan, p, h) else (do
        hashes ← compute_prefix_hashes sha256 pages [] []
        plan_keys h p (length tokens) (keys_from p 0 hashes))

abbrev pub block_of : PageRef → CacheBlockRef
block_of (reused b) = b
block_of (fresh b) = b

unfoldable pub remove_keys :
    Heap → PrefixCacheIndex → List CacheKey → Outcome (PrefixCacheIndex × Heap)
remove_keys h ix [] = returns (ix, h)
remove_keys h ix (key ∷ keys) = do (_, ix', h') ← remove h ix key; remove_keys h' ix' keys

-- `release`: the plan is dropped after its keys are removed.
unfoldable pub release : Heap → ReusePlanner → PrefixReusePlan → Outcome (ReusePlanner × Heap)
release h p plan = do
  (ix, h₁) ← remove_keys h p.index plan.fresh_keys
  h₂ ← drop_refs h₁ (map block_of plan.pages)
  returns (record p { index = ix }, h₂)

unfoldable pub cached_pages : ReusePlanner → ℕ
cached_pages p = num_entries p.index

unfoldable pub index_contains : ReusePlanner → CacheKey → Bool
index_contains p key = contains p.index key

unfoldable pub evict :
    Heap → ReusePlanner → Outcome (Option (CacheKey × CacheBlockLocation) × ReusePlanner × Heap)
evict h p = do
  (evicted, ix, h') ← evict_oldest h p.index
  returns (evicted, record p { index = ix }, h')
