-- ===== src/PrefixIndex/Store.antt =====
-- Storing an entry in, and queries of, PrefixCacheIndex in prefix_cache.rs.
use machserve.Common.{
  Option, ℕ, ◌+◌, ◌<◌, ◌≡◌, refl, sym, ap, subst, ◌∙◌, ◌⊎◌, inl, inr, none, some, get_elem?, set,
  ◌==◌, if◌then◌else◌, arith, Bool-cases, Option-cases, get_elem?-lt, get_elem?-set,
  index-get_elem?, returns,
}
use machserve.Common.Positions.{Indexes-set}
use machserve.BlockRef.{CacheBlockRef, Heap, use_count, clone}
use machserve.BlockRef
use machserve.BlockRef.Sound.{IsSound}
use machserve.BlockRef.Drop.{Cloned}
use machserve.PrefixIndex.{
  CacheKey, CacheEntry, PrefixCacheIndex, key_eq, location_eq, touch, query,
}
use machserve.PrefixIndex.Owners.{owned, owners, owners-set}
use machserve.PrefixIndex.Found.{
  entry_for-member, IsIndexed, entry_for, key_eq-IsTest, location_eq-IsTest,
}
use machserve.PrefixIndex.Evict.{Pinned, IsCached}

-- What the entry owns, if there is one.
abbrev pub owned_in : Option CacheEntry → ℕ → ℕ
owned_in none b = 0
owned_in (some e) b = owned e.block_ref b

-- What holds after the entry `e` was stored, in place of the one with its key if there was one.
pub record Stored (ix : PrefixCacheIndex) (e : CacheEntry) (h' : Heap) (ix' : PrefixCacheIndex)
    : Type 0 where
  pub cached : IsCached h' ix'
  pub stored :
      (key : CacheKey) → entry_for ix' key ≡ (if key_eq e.key key then some e else entry_for ix key)
  pub group : ix'.group_id ≡ ix.group_id
  pub taken :
      (b : ℕ)
      → owners ix'.entries b + owned_in (entry_for ix e.key) b
        ≡ owners ix.entries b + owned e.block_ref b

abbrev pub touched : PrefixCacheIndex → CacheEntry → CacheEntry
touched ix e = record e { last_access_epoch = ix.next_epoch }

touch-IsIndexed :
    (ix : PrefixCacheIndex) (i : ℕ) (e : CacheEntry)
    → IsIndexed ix
    → get_elem? ix.entries i ≡ some e
    → IsIndexed (touch ix i e)
touch-IsIndexed ix i e x at = record {
  keys =
      Indexes-set key_eq key_eq-IsTest (λ d. d.key) ix.by_key ix.entries i e (touched ix e) x.keys
        at refl;
  locations =
      Indexes-set location_eq location_eq-IsTest (λ d. d.location) ix.by_location ix.entries i e
        (touched ix e) x.locations at refl;
  past = λ j d g.
      let now = get_elem?-set ix.entries i j (touched ix e) (get_elem?-lt ix.entries i at) in
      elim (Bool-cases (i == j)) [
        | inl p ↦
            let same : touched ix e ≡ d = ground arith in
            subst (λ c. c.last_access_epoch < ix.next_epoch + 1) same (omega arith)
        | inr p ↦ let old = x.past j d (ground arith) in omega (arith, old)
      ];
}

touch-entry_for :
    (ix : PrefixCacheIndex) (i : ℕ) (e : CacheEntry) (key : CacheKey)
    → IsIndexed ix
    → get_elem? ix.entries i ≡ some e
    → entry_for (touch ix i e) key
      ≡ (if key_eq e.key key then some (touched ix e) else entry_for ix key)
touch-entry_for ix i e key x at = elim (Bool-cases (key_eq e.key key)) [
  | inl p ↦
      let same = key_eq-IsTest.sound e.key key p in
      let place : ix.by_key key ≡ some i = ap ix.by_key (sym same) ∙ x.keys.here i e at in
      rw p (rw place (ground (arith, now i)))
  | inr p ↦ elim (Option-cases (ix.by_key key)) [
    | inl q ↦ rw p (rw q refl)
    | inr (j, q) ↦
        let (d, g, dk) = x.keys.there key j q in
        elim (Bool-cases (i == j)) [
          | inl r ↦
              let same : e ≡ d = ground arith in
              let t = ap (key_eq e.key) (ap (λ c. c.key) same ∙ dk) in
              let own = key_eq-IsTest.complete e.key in absurd cc
          | inr r ↦ rw p (rw q (ground (arith, now j)))
        ]
  ]
]
  where
    now :
        (j : ℕ)
        → get_elem? (set ix.entries i (touched ix e)) j
          ≡ (if i == j then some (touched ix e) else get_elem? ix.entries j)
    now j = get_elem?-set ix.entries i j (touched ix e) (get_elem?-lt ix.entries i at)

-- The handles of the entries stay live when the heap keeps its places and loses no handle.
abbrev pub Keeps : Heap → Heap → Type 0
Keeps h h' =
    ((b : ℕ) → 0 < use_count h (some b) → 0 < use_count h' (some b))
    × ((b : ℕ) → BlockRef.location h' (some b) ≡ BlockRef.location h (some b))

pub keep-Pinned : (h h' : Heap) (e : CacheEntry) → Keeps h h' → Pinned h e → Pinned h' e
keep-Pinned h h' e (counts, places) (a, ref, live, place) =
    (a, ref, counts a live, places a ∙ place)

pub Cloned-Keeps : (h h' : Heap) (a : ℕ) → Cloned h a h' → Keeps h h'
Cloned-Keeps h h' a c = (
  λ b live. elim (Bool-cases (b == a)) [
    | inl p ↦
        let same : a ≡ b = ground arith in
        subst (λ k. 0 < use_count h' (some k)) same (omega (arith, c.more))
    | inr p ↦ subst (λ n. 0 < n) (sym (c.others b (λ same. ground arith))) live
  ],
  c.places,
)

pub touch-Stored :
    (h h' : Heap) (ix : PrefixCacheIndex) (i : ℕ) (e : CacheEntry)
    → IsCached h ix
    → IsSound h'
    → Keeps h h'
    → get_elem? ix.entries i ≡ some e
    → Stored ix (touched ix e) h' (touch ix i e)
touch-Stored h h' ix i e c s keeps at = record {
  cached = record {
    sound = s;
    indexed = touch-IsIndexed ix i e c.indexed at;
    pinned = λ j d g.
        let now = get_elem?-set ix.entries i j (touched ix e) (get_elem?-lt ix.entries i at) in
        keep-Pinned h h' d keeps (elim (Bool-cases (i == j)) [
          | inl p ↦
              let same : touched ix e ≡ d = ground arith in subst (Pinned h) same (c.pinned i e at)
          | inr p ↦ c.pinned j d (ground arith)
        ]);
  };
  stored = λ key. touch-entry_for ix i e key c.indexed at;
  group = refl;
  taken = λ b.
      let old = ap (λ o. owned_in o b) (entry_for-member ix i e c.indexed at) in
      let changed = owners-set ix.entries i e (touched ix e) b at in omega (arith, old, changed);
}

-- Under the invariant, a query of a key that is not cached changes nothing; any other returns the location and makes the
-- entry the latest, and the invariant holds again.
pub query-Stored :
    (h : Heap) (ix : PrefixCacheIndex) (key : CacheKey)
    → IsCached h ix
    → ((entry_for ix key ≡ none) × (query ix key ≡ returns (none, ix)))
      ⊎ ((e : CacheEntry) × (entry_for ix key ≡ some e)
          × (ix' : PrefixCacheIndex) × (query ix key ≡ returns (some e.location, ix'))
          × Stored ix (touched ix e) h ix')
unfolding query
query-Stored h ix key c = elim (Option-cases (ix.by_key key)) [
  | inl p ↦ inl (rw p refl, rw (p, query) refl)
  | inr (i, p) ↦
      let (e, at, _) = c.indexed.keys.there key i p in
      inr (
        e,
        rw p at,
        touch ix i e,
        rw (p, query) (rw (index-get_elem? ix.entries i at) refl),
        touch-Stored h h ix i e c c.sound ((λ b live. live), (λ b. refl)) at,
      )
]
