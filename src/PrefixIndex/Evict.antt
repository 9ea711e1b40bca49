-- ===== src/PrefixIndex/Evict.antt =====
-- Removal and eviction of PrefixCacheIndex in prefix_cache.rs, with the handles that entries own.
use machserve.Common.{
  ℕ, zero, suc, ◌+◌, ◌-◌, ◌≤◌, ◌<◌, ◌≡◌, ◌≢◌, refl, sym, ap, subst, ◌∙◌, ◌⊎◌, inl, inr, none, some,
  List, [], ◌∷◌, length, get_elem?, ◌==◌, ltb, if◌then◌else◌, arith, Bool-cases, Option-cases,
  index-get_elem?, returns,
}
use machserve.Common.Positions.{Indexes-apart}
use machserve.BlockPool.{CacheBlockLocation}
use machserve.BlockRef.{CacheBlockRef, Heap, use_count, drop_ref}
use machserve.BlockRef
use machserve.BlockRef.Sound.{IsSound}
use machserve.BlockRef.Drop.{Dropped, drop_ref-Dropped}
use machserve.PrefixIndex.{
  CacheKey, CacheEntry, PrefixCacheIndex, key_eq, location_eq, remove_at, remove, coldest_from,
  coldest, evict_oldest,
}
use machserve.PrefixIndex.Owners.{owned, owners}
use machserve.PrefixIndex.Found.{IsIndexed, entry_for, entry_for-member, location_eq-IsTest}
use machserve.PrefixIndex.Remove.{unlink-Unlinked, entry_for-Unlinked}

-- The entry holds a live handle to the block at its location.
abbrev pub Pinned : Heap → CacheEntry → Type 0
Pinned h e =
    (a : ℕ) × (e.block_ref ≡ some a)
    × (0 < use_count h (some a))
    × (BlockRef.location h (some a) ≡ some e.location)

-- The invariant of the index and the heap together.
pub record IsCached (h : Heap) (ix : PrefixCacheIndex) : Type 0 where
  pub sound : IsSound h
  pub indexed : IsIndexed ix
  pub pinned : (i : ℕ) (e : CacheEntry) → get_elem? ix.entries i ≡ some e → Pinned h e

-- What holds after the entry `e` was removed.
pub record Removed (h : Heap) (ix : PrefixCacheIndex) (e : CacheEntry) (ix' : PrefixCacheIndex)
    (h' : Heap) : Type 0 where
  pub cached : IsCached h' ix'
  pub forgotten :
      (key : CacheKey) → entry_for ix' key ≡ (if key_eq e.key key then none else entry_for ix key)
  pub released : (a : ℕ) × (e.block_ref ≡ some a) × Dropped h a h'
  pub fewer : length ix'.entries + 1 ≡ length ix.entries
  pub group : ix'.group_id ≡ ix.group_id
  pub freed : (b : ℕ) → owners ix'.entries b + owned e.block_ref b ≡ owners ix.entries b

-- The handle of another entry survives the drop.
still-Pinned :
    (h h' : Heap) (ix : PrefixCacheIndex) (i n a : ℕ) (e d : CacheEntry)
    → IsIndexed ix
    → get_elem? ix.entries i ≡ some e
    → get_elem? ix.entries n ≡ some d
    → n ≢ i
    → BlockRef.location h (some a) ≡ some e.location
    → Dropped h a h'
    → Pinned h d
    → Pinned h' d
still-Pinned h h' ix i n a e d x at at_n ne place dropped (b, ref, live, there) =
    (b, ref, subst (λ k. 0 < k) (sym (dropped.others b apart)) live, dropped.places b ∙ there)
  where
    some_injective : {l k : CacheBlockLocation} → some l ≡ some k → l ≡ k
    some_injective p = cc

    apart : b ≢ a
    apart same = ne (
        Indexes-apart location_eq location_eq-IsTest (λ (c : CacheEntry). c.location) ix.by_location
          ix.entries x.locations n i d e at_n at
          (some_injective (sym there ∙ ap (λ k. BlockRef.location h (some k)) same ∙ place)))

remove_at-Removed :
    (h : Heap) (ix : PrefixCacheIndex) (i : ℕ) (e : CacheEntry)
    → IsCached h ix
    → get_elem? ix.entries i ≡ some e
    → (ix' : PrefixCacheIndex) × (h' : Heap) × (remove_at h ix i ≡ returns (ix', h'))
      × Removed h ix e ix' h'
unfolding remove_at
remove_at-Removed h ix i e c at =
    let (ix', run, u) = unlink-Unlinked ix i e c.indexed at in
    let (a, ref, live, place) = c.pinned i e at in
    let (h', drop_run, dropped) = drop_ref-Dropped h a c.sound live in
    (
      ix',
      h',
      rw run (rw ref (rw drop_run refl)),
      record {
        cached = record {
          sound = dropped.sound;
          indexed = u.indexed;
          pinned = λ j d g.
              let (n, ne, old) = u.members j d g in
              still-Pinned h h' ix i n a e d c.indexed at old ne place dropped (c.pinned n d old);
        };
        forgotten = entry_for-Unlinked ix i e ix' c.indexed at u;
        released = (a, ref, dropped);
        fewer = u.fewer;
        group = u.group;
        freed = u.freed;
      },
    )

-- Under the invariant, to remove a key that is not cached changes nothing. Otherwise its location is returned, the key is
-- forgotten and no other, the handle of its entry is dropped, and the invariant holds again.
pub remove-Removed :
    (h : Heap) (ix : PrefixCacheIndex) (key : CacheKey)
    → IsCached h ix
    → ((entry_for ix key ≡ none) × (remove h ix key ≡ returns (none, ix, h)))
      ⊎ ((e : CacheEntry) × (entry_for ix key ≡ some e)
          × (ix' : PrefixCacheIndex) × (h' : Heap) × (remove h ix key
              ≡ returns (some e.location, ix', h'))
          × Removed h ix e ix' h')
unfolding remove
remove-Removed h ix key c = elim (Option-cases (ix.by_key key)) [
  | inl p ↦ inl (rw p refl, rw (p, remove) refl)
  | inr (i, p) ↦
      let (e, at, _) = c.indexed.keys.there key i p in
      let (ix', h', run, r) = remove_at-Removed h ix i e c at in
      inr (
        e,
        rw p at,
        ix',
        h',
        rw (p, remove) (rw (index-get_elem? ix.entries i at) (rw run refl)),
        r,
      )
]

-- The scan keeps the position of the first of the least epochs so far.
coldest_from-least :
    (full es : List CacheEntry) (best k : ℕ) (b : CacheEntry)
    → get_elem? full best ≡ some b
    → ((j : ℕ) (d : CacheEntry)
        → j < k
        → get_elem? full j ≡ some d
        → b.last_access_epoch ≤ d.last_access_epoch)
    → ((j : ℕ) → get_elem? full (k + j) ≡ get_elem? es j)
    → (e : CacheEntry) × (get_elem? full (coldest_from best b.last_access_epoch k es) ≡ some e)
      × ((j : ℕ) (d : CacheEntry)
          → get_elem? full j ≡ some d
          → e.last_access_epoch ≤ d.last_access_epoch)
coldest_from-least full [] best k b at least rest = (
  b,
  at,
  λ j d g. elim (Bool-cases (ltb j k)) [
    | inl p ↦ least j d (ground arith) g
    | inr p ↦ absurd (
        let q = rest (j - k) in
        let s : k + (j - k) ≡ j = ground arith in let t = ap (get_elem? full) s in cc)
  ],
)
coldest_from-least full (e ∷ es) best k b at least rest =
    let here : get_elem? full k ≡ some e = ap (get_elem? full) (omega arith) ∙ rest 0 in
    let later : (j : ℕ) → get_elem? full (suc k + j) ≡ get_elem? es j =
      λ j. ap (get_elem? full) (omega arith) ∙ rest (suc j) in
    elim (Bool-cases (ltb e.last_access_epoch b.last_access_epoch)) [
      | inl p ↦ rw p (
          coldest_from-least full es k (suc k) e here
            (λ j d lt g. elim (Bool-cases (j == k)) [
              | inl q ↦
                  let s : j ≡ k = ground arith in
                  let t : e ≡ d = ground arith in
                  subst (λ c. e.last_access_epoch ≤ c.last_access_epoch) t (omega arith)
              | inr q ↦ let o = least j d (ground arith) g in ground arith
            ])
            later)
      | inr p ↦ rw p (
          coldest_from-least full es best (suc k) b at
            (λ j d lt g. elim (Bool-cases (j == k)) [
              | inl q ↦
                  let s : j ≡ k = ground arith in
                  let t : e ≡ d = ground arith in
                  subst (λ c. b.last_access_epoch ≤ c.last_access_epoch) t (ground arith)
              | inr q ↦ least j d (ground arith) g
            ])
            later)
    ]

coldest-least :
    (es : List CacheEntry)
    → ((es ≡ []) × (coldest es ≡ none))
      ⊎ ((i : ℕ) × (coldest es ≡ some i)
          × (e : CacheEntry) × (get_elem? es i ≡ some e)
          × ((j : ℕ) (d : CacheEntry)
              → get_elem? es j ≡ some d
              → e.last_access_epoch ≤ d.last_access_epoch))
coldest-least [] = inl (refl, refl)
coldest-least (b ∷ es) =
    let (e, at, least) = coldest_from-least (b ∷ es) es 0 1 b refl first rest in
    inr (coldest_from 0 b.last_access_epoch 1 es, refl, e, at, least)
  where
    rest : (j : ℕ) → get_elem? (b ∷ es) (1 + j) ≡ get_elem? es j
    rest j = let s : 1 + j ≡ suc j = omega arith in ap (get_elem? (b ∷ es)) s

    first :
        (j : ℕ) (d : CacheEntry)
        → j < 1
        → get_elem? (b ∷ es) j ≡ some d
        → b.last_access_epoch ≤ d.last_access_epoch
    first zero d lt g =
        let t : b ≡ d = ground arith in
        subst (λ c. b.last_access_epoch ≤ c.last_access_epoch) t (omega arith)
    first (suc j) d lt g = absurd (omega arith)

-- On an empty index that satisfies the invariant nothing changes. Otherwise an entry with the least epoch of all is removed and
-- returned, its key is forgotten and no other, its handle is dropped, and the invariant holds again.
pub evict_oldest-Removed :
    (h : Heap) (ix : PrefixCacheIndex)
    → IsCached h ix
    → ((ix.entries ≡ []) × (evict_oldest h ix ≡ returns (none, ix, h)))
      ⊎ ((e : CacheEntry) × (entry_for ix e.key ≡ some e)
          × ((j : ℕ) (d : CacheEntry)
              → get_elem? ix.entries j ≡ some d
              → e.last_access_epoch ≤ d.last_access_epoch)
          × (ix' : PrefixCacheIndex) × (h' : Heap) × (evict_oldest h ix
              ≡ returns (some (e.key, e.location), ix', h'))
          × Removed h ix e ix' h')
unfolding evict_oldest
evict_oldest-Removed h ix c = elim (coldest-least ix.entries) [
  | inl (p, q) ↦ inl (p, rw (q, evict_oldest) refl)
  | inr (i, p, e, at, least) ↦
      let (ix', h', run, r) = remove_at-Removed h ix i e c at in
      inr (
        e,
        entry_for-member ix i e c.indexed at,
        least,
        ix',
        h',
        rw (p, evict_oldest) (rw (index-get_elem? ix.entries i at) (rw run refl)),
        r,
      )
]
