-- ===== src/PrefixIndex/Insert.antt =====
-- PrefixCacheIndex::insert of prefix_cache.rs.
use machserve.Common.{
  ℕ, ◌+◌, ◌<◌, ◌≡◌, ◌≢◌, refl, sym, ap, subst, ◌∙◌, inl, inr, true, false, Option, none, some, ◌==◌,
  if◌then◌else◌, arith, Bool-cases, Option-cases, index-get_elem?, returns, panics, Outcome,
}
use machserve.Common.Positions.{
  at_position, Indexes-push, get_elem?-push, get_elem?-push_old, get_elem?-push_new,
}
use machserve.BlockPool.{CacheBlockLocation}
use machserve.BlockRef.{CacheBlockRef, Heap, use_count, clone}
use machserve.BlockRef
use machserve.BlockRef.Drop.{Cloned, clone-Cloned}
use machserve.PrefixIndex.{
  CacheKey, CacheEntry, PrefixCacheIndex, Inserted, key_eq, location_eq, touch, new_entry,
  push_entry, is_empty, insert_registered, insert_duplicate, insert_new, insert_at, insert,
}
use machserve.PrefixIndex.Owners.{owners-push}
use machserve.PrefixIndex.Found.{IsIndexed, entry_for, key_eq-IsTest, location_eq-IsTest}
use machserve.PrefixIndex.Evict.{Pinned, IsCached}
use machserve.PrefixIndex.Store.{owned_in, Stored, touched, keep-Pinned, Cloned-Keeps, touch-Stored}

push-IsIndexed :
    (ix : PrefixCacheIndex) (key : CacheKey) (l : CacheBlockLocation) (r : CacheBlockRef)
    → IsIndexed ix
    → ix.by_key key ≡ none
    → ix.by_location l ≡ none
    → IsIndexed (push_entry ix key l r)
push-IsIndexed ix key l r x no_key no_location = record {
  keys =
      Indexes-push key_eq key_eq-IsTest (λ d. d.key) ix.by_key ix.entries (new_entry ix key l r)
        x.keys no_key;
  locations =
      Indexes-push location_eq location_eq-IsTest (λ d. d.location) ix.by_location ix.entries
        (new_entry ix key l r) x.locations no_location;
  past = λ i d g. elim (get_elem?-push ix.entries (new_entry ix key l r) i g) [
    | inl (_, same) ↦ subst (λ c. c.last_access_epoch < ix.next_epoch + 1) (sym same) (omega arith)
    | inr old ↦ let past = x.past i d old in omega (arith, past)
  ];
}

push-entry_for :
    (ix : PrefixCacheIndex) (key : CacheKey) (l : CacheBlockLocation) (r : CacheBlockRef)
    (k : CacheKey)
    → IsIndexed ix
    → entry_for (push_entry ix key l r) k
      ≡ (if key_eq key k then some (new_entry ix key l r) else entry_for ix k)
push-entry_for ix key l r k x = elim (Bool-cases (key_eq key k)) [
  | inl p ↦ rw p (get_elem?-push_new ix.entries (new_entry ix key l r))
  | inr p ↦ elim (Option-cases (ix.by_key k)) [
    | inl q ↦ rw p (rw q refl)
    | inr (j, q) ↦
        let (d, g, _) = x.keys.there k j q in
        rw p (rw q (get_elem?-push_old ix.entries (new_entry ix key l r) j g ∙ sym g))
  ]
]

push-Stored :
    (h h' : Heap) (ix : PrefixCacheIndex) (key : CacheKey) (l : CacheBlockLocation) (a : ℕ)
    → IsCached h ix
    → ix.by_key key ≡ none
    → ix.by_location l ≡ none
    → BlockRef.location h (some a) ≡ some l
    → Cloned h a h'
    → Stored ix (new_entry ix key l (some a)) h' (push_entry ix key l (some a))
push-Stored h h' ix key l a c no_key no_location place cloned = record {
  cached = record {
    sound = cloned.sound;
    indexed = push-IsIndexed ix key l (some a) c.indexed no_key no_location;
    pinned = λ i d g. elim (get_elem?-push ix.entries (new_entry ix key l (some a)) i g) [
      | inl (_, same) ↦
          subst (Pinned h') (sym same)
            (a, refl, omega (arith, cloned.more), cloned.places a ∙ place)
      | inr old ↦ keep-Pinned h h' d (Cloned-Keeps h h' a cloned) (c.pinned i d old)
    ];
  };
  stored = λ k. push-entry_for ix key l (some a) k c.indexed;
  group = refl;
  taken = λ b.
      let old = ap (λ o. owned_in (at_position ix.entries o) b) no_key in
      let pushed = owners-push ix.entries (new_entry ix key l (some a)) b in
      omega (arith, old, pushed);
}

-- The entry registered at a location.
abbrev pub entry_at : PrefixCacheIndex → CacheBlockLocation → Option CacheEntry
entry_at ix l = at_position ix.entries (ix.by_location l)

-- The documented outcomes of inserting `key` for the block at `a`, which is placed at `l`.
pub data Insertion (h : Heap) (ix : PrefixCacheIndex) (key : CacheKey) (a : ℕ)
    (l : CacheBlockLocation) : Outcome Inserted → Type 0 where
  conflict : (e : CacheEntry) → entry_at ix l ≡ some e → e.key ≢ key → Insertion h ix key a l panics
  registered :
      (e : CacheEntry) (ix' : PrefixCacheIndex)
      → entry_at ix l ≡ some e
      → e.key ≡ key
      → Stored ix (touched ix e) h ix'
      → Insertion h ix key a l (returns (none, ix', h))
  duplicate :
      (e : CacheEntry) (b : ℕ) (ix' : PrefixCacheIndex) (h' : Heap)
      → entry_at ix l ≡ none
      → entry_for ix key ≡ some e
      → e.block_ref ≡ some b
      → Cloned h b h'
      → Stored ix (touched ix e) h' ix'
      → Insertion h ix key a l (returns (some e.block_ref, ix', h'))
  fresh :
      (ix' : PrefixCacheIndex) (h' : Heap)
      → entry_at ix l ≡ none
      → entry_for ix key ≡ none
      → Cloned h a h'
      → Stored ix (new_entry ix key l (some a)) h' ix'
      → Insertion h ix key a l (returns (none, ix', h'))

registered-Insertion :
    (h : Heap) (ix : PrefixCacheIndex) (key : CacheKey) (a i : ℕ) (l : CacheBlockLocation)
    → IsCached h ix
    → ix.by_location l ≡ some i
    → Insertion h ix key a l (insert_registered h ix key i)
unfolding insert_registered
registered-Insertion h ix key a i l c p =
    let (e, at, _) = c.indexed.locations.there l i p in
    let found : entry_at ix l ≡ some e = ap (at_position ix.entries) p ∙ at in
    elim (Bool-cases (key_eq e.key key)) [
      | inl q ↦ rw (index-get_elem? ix.entries i at) (
          rw q (
            registered e (touch ix i e) found (key_eq-IsTest.sound e.key key q)
              (touch-Stored h h ix i e c c.sound ((λ b live. live), (λ b. refl)) at)))
      | inr q ↦ rw (index-get_elem? ix.entries i at) (
          rw q (
            conflict e found (λ same.
              let own = key_eq-IsTest.complete e.key in let t = ap (key_eq e.key) same in cc)))
    ]

duplicate-Insertion :
    (h : Heap) (ix : PrefixCacheIndex) (key : CacheKey) (a i : ℕ) (l : CacheBlockLocation)
    → IsCached h ix
    → ix.by_location l ≡ none
    → ix.by_key key ≡ some i
    → Insertion h ix key a l (insert_duplicate h ix i)
unfolding insert_duplicate
duplicate-Insertion h ix key a i l c no_location p =
    let (e, at, _) = c.indexed.keys.there key i p in
    let (b, ref, live, _) = c.pinned i e at in
    let (h', run, cloned) = clone-Cloned h b c.sound live in
    let run_ref : clone h e.block_ref ≡ returns h' = ap (clone h) ref ∙ run in
    rw (index-get_elem? ix.entries i at) (
      rw run_ref (
        duplicate e b (touch ix i e) h' (ap (at_position ix.entries) no_location)
          (ap (at_position ix.entries) p ∙ at) ref cloned
          (touch-Stored h h' ix i e c cloned.sound (Cloned-Keeps h h' b cloned) at)))

fresh-Insertion :
    (h : Heap) (ix : PrefixCacheIndex) (key : CacheKey) (a : ℕ) (l : CacheBlockLocation)
    → IsCached h ix
    → 0 < use_count h (some a)
    → BlockRef.location h (some a) ≡ some l
    → ix.by_location l ≡ none
    → ix.by_key key ≡ none
    → Insertion h ix key a l (insert_new h ix key l (some a))
unfolding insert_new
fresh-Insertion h ix key a l c live place no_location no_key =
    let (h', run, cloned) = clone-Cloned h a c.sound live in
    rw run (
      fresh (push_entry ix key l (some a)) h' (ap (at_position ix.entries) no_location)
        (ap (at_position ix.entries) no_key) cloned
        (push-Stored h h' ix key l a c no_key no_location place cloned))

insert_at-Insertion :
    (h : Heap) (ix : PrefixCacheIndex) (key : CacheKey) (a : ℕ) (l : CacheBlockLocation)
    → IsCached h ix
    → 0 < use_count h (some a)
    → BlockRef.location h (some a) ≡ some l
    → Insertion h ix key a l (insert_at h ix key l (some a))
unfolding insert_at
insert_at-Insertion h ix key a l c live place = elim (Option-cases (ix.by_location l)) [
  | inr (i, p) ↦ rw (p, insert_at) (registered-Insertion h ix key a i l c p)
  | inl p ↦ elim (Option-cases (ix.by_key key)) [
    | inr (i, q) ↦ rw (p, insert_at) (rw q (duplicate-Insertion h ix key a i l c p q))
    | inl q ↦ rw (p, insert_at) (rw q (fresh-Insertion h ix key a l c live place p q))
  ]
]

-- To insert a live block under a key of the group with a hash, into an index and a heap that satisfy
-- the invariant, has one of four outcomes, each with its own condition: a panic, since the location is registered under another key; nothing new, since it
-- is registered under this key; a clone of the canonical handle, since the key has another block; or
-- a new entry that owns a clone of the given handle. In the last three the invariant holds again,
-- the entry of the key is the latest, and every other key keeps its entry.
pub insert-Insertion :
    (h : Heap) (ix : PrefixCacheIndex) (key : CacheKey) (a : ℕ) (l : CacheBlockLocation)
    → IsCached h ix
    → key.group_id ≡ ix.group_id
    → is_empty key.content_hash ≡ false
    → 0 < use_count h (some a)
    → BlockRef.location h (some a) ≡ some l
    → Insertion h ix key a l (insert h ix key (some a))
unfolding insert
insert-Insertion h ix key a l c group hash live place =
    let same : (key.group_id == ix.group_id) ≡ true = ground arith in
    rw (same, hash, place) (insert_at-Insertion h ix key a l c live place)
