-- ===== src/PrefixIndex.antt =====
-- CacheKey, PrefixCacheIndex and PrefixMatcher of crates/mach-model/src/prefix_cache.rs.
-- An entry owns a handle to its block, so the methods that clone or drop a handle take the heap and
-- return it. The two hash maps are their lookup functions. Epochs are u64 counters and are not
-- bounded here.
pub mod Owners
pub mod Found
pub mod Remove
pub mod Store
pub mod Insert
pub mod Evict
pub mod Match
use machserve.Common.{
  list_eq, ℕ, zero, suc, ◌+◌, ◌-◌, ◌≡◌, min, Bool, true, false, ◌&&◌, not, Option, none, some, List,
  [], ◌∷◌, ◌++◌, length, get_elem?, set, take, drop, ltb, ◌==◌, if◌then◌else◌, Outcome, returns,
  panics, assert, index, ◌>>=◌, ◌>>◌,
}
use machserve.Common.Positions.{pop, put, delete}
use machserve.BlockPool.{CacheBlockLocation}
use machserve.BlockRef.{CacheBlockRef, Heap, clone, drop_ref}
use machserve.BlockRef

pub record CacheKey : Type 0 where
  pub namespace_id : ℕ
  pub group_id : ℕ
  pub content_hash : List ℕ
  pub page_offset : ℕ

pub record CacheEntry : Type 0 where
  pub key : CacheKey
  pub location : CacheBlockLocation
  pub last_access_epoch : ℕ
  pub block_ref : CacheBlockRef

pub record PrefixCacheIndex : Type 0 where
  pub group_id : ℕ
  pub entries : List CacheEntry
  pub by_key : CacheKey → Option ℕ
  pub by_location : CacheBlockLocation → Option ℕ
  pub next_epoch : ℕ

-- The derived `==` of a key.
abbrev pub key_eq : CacheKey → CacheKey → Bool
key_eq a b =
    (a.namespace_id == b.namespace_id)
    && ((a.group_id == b.group_id)
        && (list_eq a.content_hash b.content_hash && (a.page_offset == b.page_offset)))

abbrev pub location_eq : CacheBlockLocation → CacheBlockLocation → Bool
location_eq a b = (a.lcm_block_id == b.lcm_block_id) && (a.slot_index == b.slot_index)

unfoldable pub new : ℕ → PrefixCacheIndex
new group_id = record {
  group_id = group_id;
  entries = [];
  by_key = λ k. none;
  by_location = λ l. none;
  next_epoch = 0;
}

abbrev pub is_empty : List ℕ → Bool
is_empty [] = true
is_empty (c ∷ cs) = false

abbrev pub validate_key : PrefixCacheIndex → CacheKey → Outcome (Unit {0})
validate_key ix key = do
  assert (key.group_id == ix.group_id)
  assert (not (is_empty key.content_hash))

-- `next_epoch` and its store in the entry.
abbrev pub touch : PrefixCacheIndex → ℕ → CacheEntry → PrefixCacheIndex
touch ix idx entry = record ix {
  entries = set ix.entries idx (record entry { last_access_epoch = ix.next_epoch });
  next_epoch = ix.next_epoch + 1;
}

abbrev pub new_entry : PrefixCacheIndex → CacheKey → CacheBlockLocation → CacheBlockRef → CacheEntry
new_entry ix key location block = record {
  key = key;
  location = location;
  last_access_epoch = ix.next_epoch;
  block_ref = block;
}

-- `insert` of a key and a location that the index does not have.
abbrev pub push_entry :
    PrefixCacheIndex → CacheKey → CacheBlockLocation → CacheBlockRef → PrefixCacheIndex
push_entry ix key location block = record ix {
  entries = ix.entries ++ new_entry ix key location block ∷ [];
  by_key = put key_eq ix.by_key key (length ix.entries);
  by_location = put location_eq ix.by_location location (length ix.entries);
  next_epoch = ix.next_epoch + 1;
}

abbrev pub Inserted : Type 0
Inserted = Option CacheBlockRef × PrefixCacheIndex × Heap

unfoldable pub insert_registered : Heap → PrefixCacheIndex → CacheKey → ℕ → Outcome Inserted
insert_registered h ix key idx = do
  entry ← index ix.entries idx
  assert (key_eq entry.key key)
  returns (none, touch ix idx entry, h)

unfoldable pub insert_duplicate : Heap → PrefixCacheIndex → ℕ → Outcome Inserted
insert_duplicate h ix idx = do
  entry ← index ix.entries idx
  h' ← clone h entry.block_ref
  returns (some entry.block_ref, touch ix idx entry, h')

unfoldable pub insert_new :
    Heap → PrefixCacheIndex → CacheKey → CacheBlockLocation → CacheBlockRef → Outcome Inserted
insert_new h ix key location block = do
  h' ← clone h block
  returns (none, push_entry ix key location block, h')

unfoldable pub insert_at :
    Heap → PrefixCacheIndex → CacheKey → CacheBlockLocation → CacheBlockRef → Outcome Inserted
insert_at h ix key location block = elim (ix.by_location location) [
  | some idx ↦ insert_registered h ix key idx
  | none ↦ elim (ix.by_key key) [
    | some idx ↦ insert_duplicate h ix idx
    | none ↦ insert_new h ix key location block
  ]
]

-- `expect` of an option.
abbrev pub expect {ℓ} : {A : Type ℓ} → Option A → Outcome A
expect none = panics
expect (some x) = returns x

unfoldable pub insert : Heap → PrefixCacheIndex → CacheKey → CacheBlockRef → Outcome Inserted
insert h ix key block = do
  validate_key ix key
  location ← expect (BlockRef.location h block)
  insert_at h ix key location block

-- The cloned handle of the entry.
unfoldable pub block_for :
    Heap → PrefixCacheIndex → CacheKey → Outcome (Option CacheBlockRef × Heap)
block_for h ix key = elim (ix.by_key key) [
  | none ↦ returns (none, h)
  | some idx ↦ (do
    entry ← index ix.entries idx
    h' ← clone h entry.block_ref
    returns (some entry.block_ref, h'))
]

-- `remove_at` on the vector and the maps; the removed entry is returned.
unfoldable pub unlink : PrefixCacheIndex → ℕ → Outcome (CacheEntry × PrefixCacheIndex)
unlink ix idx = do
  entry ← index ix.entries idx
  let by_key = delete key_eq ix.by_key entry.key
  let by_location = delete location_eq ix.by_location entry.location
  let last = length ix.entries - 1
  if idx == last
      then returns (
        entry,
        record ix { entries = pop ix.entries; by_key = by_key; by_location = by_location },
      )
      else (do
        moved ← index ix.entries last
        returns (
          entry,
          record ix {
            entries = pop (set ix.entries idx moved);
            by_key = put key_eq by_key moved.key idx;
            by_location = put location_eq by_location moved.location idx;
          },
        ))

-- The removed entry drops its handle.
unfoldable pub remove_at : Heap → PrefixCacheIndex → ℕ → Outcome (PrefixCacheIndex × Heap)
remove_at h ix idx = do
  (entry, ix') ← unlink ix idx
  h' ← drop_ref h entry.block_ref
  returns (ix', h')

unfoldable pub remove :
    Heap
    → PrefixCacheIndex
    → CacheKey
    → Outcome (Option CacheBlockLocation × PrefixCacheIndex × Heap)
remove h ix key = elim (ix.by_key key) [
  | none ↦ returns (none, ix, h)
  | some idx ↦ (do
    entry ← index ix.entries idx
    (ix', h') ← remove_at h ix idx
    returns (some entry.location, ix', h'))
]

unfoldable pub remove_location :
    Heap
    → PrefixCacheIndex
    → CacheBlockLocation
    → Outcome (Option CacheKey × PrefixCacheIndex × Heap)
remove_location h ix location = elim (ix.by_location location) [
  | none ↦ returns (none, ix, h)
  | some idx ↦ (do
    entry ← index ix.entries idx
    (ix', h') ← remove_at h ix idx
    returns (some entry.key, ix', h'))
]

unfoldable pub query :
    PrefixCacheIndex → CacheKey → Outcome (Option CacheBlockLocation × PrefixCacheIndex)
query ix key = elim (ix.by_key key) [
  | none ↦ returns (none, ix)
  | some idx ↦ (do entry ← index ix.entries idx; returns (some entry.location, touch ix idx entry))
]

abbrev pub is_some {ℓ} : {A : Type ℓ} → Option A → Bool
is_some none = false
is_some (some x) = true

unfoldable pub contains : PrefixCacheIndex → CacheKey → Bool
contains ix key = is_some (ix.by_key key)

unfoldable pub contains_location : PrefixCacheIndex → CacheBlockLocation → Bool
contains_location ix location = is_some (ix.by_location location)

unfoldable pub key_for : PrefixCacheIndex → CacheBlockLocation → Outcome (Option CacheKey)
key_for ix location = elim (ix.by_location location) [
  | none ↦ returns none
  | some idx ↦ (do entry ← index ix.entries idx; returns (some entry.key))
]

unfoldable pub last_access_epoch : PrefixCacheIndex → CacheKey → Outcome (Option ℕ)
last_access_epoch ix key = elim (ix.by_key key) [
  | none ↦ returns none
  | some idx ↦ (do entry ← index ix.entries idx; returns (some entry.last_access_epoch))
]

unfoldable pub num_entries : PrefixCacheIndex → ℕ
num_entries ix = length ix.entries

-- `min_by_key` over the entries from position `i` on: the first of the least epochs.
abbrev pub coldest_from : ℕ → ℕ → ℕ → List CacheEntry → ℕ
coldest_from best epoch i [] = best
coldest_from best epoch i (e ∷ es) =
    let colder = ltb e.last_access_epoch epoch in
    coldest_from (if colder then i else best) (if colder then e.last_access_epoch else epoch)
      (suc i) es

abbrev pub coldest : List CacheEntry → Option ℕ
coldest [] = none
coldest (e ∷ es) = some (coldest_from 0 e.last_access_epoch 1 es)

unfoldable pub evict_oldest :
    Heap
    → PrefixCacheIndex
    → Outcome (Option (CacheKey × CacheBlockLocation) × PrefixCacheIndex × Heap)
evict_oldest h ix = elim (coldest ix.entries) [
  | none ↦ returns (none, ix, h)
  | some idx ↦ (do
    entry ← index ix.entries idx
    (ix', h') ← remove_at h ix idx
    returns (some (entry.key, entry.location), ix', h'))
]

-- The run of cached keys at the head of the list.
unfoldable pub hits : PrefixCacheIndex → List CacheKey → List ℕ
hits ix [] = []
hits ix (key ∷ keys) = let rest = hits ix keys in if contains ix key then 1 ∷ rest else []

unfoldable pub probe : PrefixCacheIndex → List CacheKey → ℕ → ℕ → List ℕ
probe ix keys begin_blocks max_blocks =
    hits ix (drop begin_blocks (take (min (length keys) max_blocks) keys))
