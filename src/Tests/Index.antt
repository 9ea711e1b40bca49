-- ===== src/Tests/Index.antt =====
-- PrefixCacheIndex of crates/mach-model/src/prefix_cache.rs on an index of at most two pages.
use machserve.Common.{
  ℕ, zero, suc, ◌≤◌, ◌<◌, ◌≡◌, refl, subst, ◌⊎◌, get_elem?, [], ◌∷◌, false, some, none, Option,
  returns, panics, arith, Outcome,
}
use machserve.BlockPool.{CacheBlockLocation, lcm_block, is_occupied, num_occupied_slots, release}
use machserve.BlockPool.Valid.{location}
use machserve.BlockRef.{CacheBlock, Heap, CacheBlockRef, use_count, clone, drop_ref}
use machserve.BlockRef
use machserve.PrefixIndex.{
  CacheKey, CacheEntry, PrefixCacheIndex, key_eq, location_eq, touch, insert, insert_at, insert_new,
  insert_registered, insert_duplicate, unlink, remove_at, remove, query, contains, evict_oldest,
  hits, probe, num_entries,
}
use machserve.PrefixIndex
use machserve.Common.Positions.{Indexes-push}
use machserve.PrefixIndex.Found.{entry_for, key_eq-IsTest, location_eq-IsTest}
use machserve.PrefixIndex.Evict.{Pinned, IsCached, Removed, remove-Removed, evict_oldest-Removed}
use machserve.PrefixIndex.Store.{Stored, touched, query-Stored}
use machserve.PrefixIndex.Insert.{Insertion, insert-Insertion}
use machserve.PrefixIndex.Match.{Probed, probe-Probed}
use machserve.Tests.Ref.{single, single-IsSound}

index_run : Unit {0}
unfolding lcm_block is_occupied num_occupied_slots release use_count clone drop_ref
    BlockRef.location insert insert_at insert_new insert_registered insert_duplicate unlink
    remove_at remove query contains evict_oldest hits probe num_entries PrefixIndex.new
index_run = tt

abbrev page : ℕ → CacheKey
page n = record { namespace_id = 1; group_id = 7; content_hash = n ∷ []; page_offset = 0 }

abbrev nothing_cached : PrefixCacheIndex
unfolding index_run
nothing_cached = PrefixIndex.new 7

nothing_cached-IsCached : IsCached single nothing_cached
unfolding index_run
nothing_cached-IsCached = record {
  sound = single-IsSound;
  indexed = record {
    keys = record { here = λ i e at. cc; there = λ k i at. cc };
    locations = record { here = λ i e at. cc; there = λ k i at. cc };
    past = λ i e at. cc;
  };
  pinned = λ i e at. cc;
}

insert-Insertion_example :
    Insertion single nothing_cached
      (page 5)
      0
      (location 0 0)
      (insert single nothing_cached (page 5) (some 0))
unfolding index_run
insert-Insertion_example =
    insert-Insertion single nothing_cached (page 5) 0 (location 0 0) nothing_cached-IsCached refl
      refl (omega arith) refl

-- An index with one page, whose entry and whose block have the only handle.
abbrev one_cached : PrefixCacheIndex
one_cached = PrefixIndex.push_entry nothing_cached (page 5) (location 0 0) (some 0)

one_cached-IsCached : IsCached single one_cached
unfolding index_run
one_cached-IsCached = record {
  sound = single-IsSound;
  indexed = record {
    keys =
        Indexes-push key_eq key_eq-IsTest (λ (e : CacheEntry). e.key) nothing_cached.by_key [] entry
          nothing_cached-IsCached.indexed.keys refl;
    locations =
        Indexes-push location_eq location_eq-IsTest (λ (e : CacheEntry). e.location)
          nothing_cached.by_location [] entry nothing_cached-IsCached.indexed.locations refl;
    past = one_past;
  };
  pinned = one_pinned;
}
  where
    entry : CacheEntry
    entry = PrefixIndex.new_entry nothing_cached (page 5) (location 0 0) (some 0)

    one_past :
        (i : ℕ) (e : CacheEntry) → get_elem? one_cached.entries i ≡ some e → e.last_access_epoch < 1
    one_past zero e at =
        let same : entry ≡ e = cc in subst (λ c. c.last_access_epoch < 1) same (omega arith)
    one_past (suc i) e at = cc

    one_pinned :
        (i : ℕ) (e : CacheEntry) → get_elem? one_cached.entries i ≡ some e → Pinned single e
    one_pinned zero e at =
        let same : entry ≡ e = cc in subst (Pinned single) same (0, refl, omega arith, refl)
    one_pinned (suc i) e at = cc

abbrev index_after :
    Outcome (Option (CacheKey × CacheBlockLocation) × PrefixCacheIndex × Heap) → PrefixCacheIndex
index_after (returns (_, ix, h)) = ix
index_after panics = one_cached

-- The only page is evicted, and found no more.
evicted_page : contains (index_after (evict_oldest single one_cached)) (page 5) ≡ false
unfolding index_run
evicted_page = refl

-- The slot is registered under another page.
slot_taken : insert single one_cached (page 6) (some 0) ≡ panics
unfolding index_run
slot_taken = refl

remove-Removed_example :
    ((entry_for one_cached (page 5) ≡ none)
      × (remove single one_cached (page 5) ≡ returns (none, one_cached, single)))
    ⊎ ((e : CacheEntry) × (entry_for one_cached (page 5) ≡ some e)
        × (ix' : PrefixCacheIndex) × (h' : Heap) × (remove single one_cached (page 5)
            ≡ returns (some e.location, ix', h'))
        × Removed single one_cached e ix' h')
remove-Removed_example = remove-Removed single one_cached (page 5) one_cached-IsCached

evict_oldest-Removed_example :
    ((one_cached.entries ≡ [])
      × (evict_oldest single one_cached ≡ returns (none, one_cached, single)))
    ⊎ ((e : CacheEntry) × (entry_for one_cached e.key ≡ some e)
        × ((j : ℕ) (d : CacheEntry)
            → get_elem? one_cached.entries j ≡ some d
            → e.last_access_epoch ≤ d.last_access_epoch)
        × (ix' : PrefixCacheIndex) × (h' : Heap) × (evict_oldest single one_cached
            ≡ returns (some (e.key, e.location), ix', h'))
        × Removed single one_cached e ix' h')
evict_oldest-Removed_example = evict_oldest-Removed single one_cached one_cached-IsCached

query-Stored_example :
    ((entry_for one_cached (page 5) ≡ none)
      × (query one_cached (page 5) ≡ returns (none, one_cached)))
    ⊎ ((e : CacheEntry) × (entry_for one_cached (page 5) ≡ some e)
        × (ix' : PrefixCacheIndex) × (query one_cached (page 5) ≡ returns (some e.location, ix'))
        × Stored one_cached (touched one_cached e) single ix')
query-Stored_example = query-Stored single one_cached (page 5) one_cached-IsCached

probe-Probed_example :
    Probed one_cached
      (page 5 ∷ page 6 ∷ page 5 ∷ [])
      0
      3
      (probe one_cached (page 5 ∷ page 6 ∷ page 5 ∷ []) 0 3)
probe-Probed_example = probe-Probed one_cached (page 5 ∷ page 6 ∷ page 5 ∷ []) 0 3

-- The match stops at the hole, though a later page is cached.
hole_stops : probe one_cached (page 5 ∷ page 6 ∷ page 5 ∷ []) 0 3 ≡ 1 ∷ []
unfolding index_run
hole_stops = refl
