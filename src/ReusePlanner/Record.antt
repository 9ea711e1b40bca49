-- ===== src/ReusePlanner/Record.antt =====
-- The fresh pages of a plan in reuse_planner.rs: they are recorded in the index, and a page that is
-- there already gives its block back.
use machserve.Common.{
  ℕ, ◌+◌, ◌<◌, ◌≡◌, refl, sym, ap, ◌∙◌, ◌⊎◌, inl, inr, false, none, some, List, ◌∷◌, ◌++◌, map,
  arith, Option-cases, Outcome, returns,
}
use machserve.Common.Positions.{at_position}
use machserve.BlockPool.{CacheBlockLocation}
use machserve.BlockRef.{Heap, CacheBlockRef, use_count, location_at, clone, drop_ref}
use machserve.BlockRef
use machserve.BlockRef.Sound.{IsSound}
use machserve.BlockRef.Drop.{Cloned, live-block, location_at-get_elem?}
use machserve.PrefixIndex.{
  CacheKey, CacheEntry, PrefixCacheIndex, Inserted, insert, is_empty, new_entry,
}
use machserve.PrefixIndex.Owners.{owned, owners, owners-member, owned_self}
use machserve.PrefixIndex.Found.{entry_for, member-entry_for}
use machserve.PrefixIndex.Evict.{IsCached}
use machserve.PrefixIndex.Store.{Stored, touched, owned_in}
use machserve.PrefixIndex.Insert.{Insertion, entry_at, insert-Insertion}
use machserve.ReusePlanner.{Recorded, block_of}
use machserve.ReusePlanner.Balance.{IsBalanced, clone-IsBalanced, drop-IsBalanced}
use machserve.ReusePlanner.Reuse.{Stored-Extends, Matches, Extends, same-owners, same_ref}

live-location :
    (h : Heap) (a : ℕ)
    → 0 < use_count h (some a)
    → (l : CacheBlockLocation) × (BlockRef.location h (some a) ≡ some l)
unfolding use_count BlockRef.location
live-location h a live =
    let (c, at, _) = live-block h.blocks a live in (c.location, location_at-get_elem? h.blocks a at)

-- Live handles to one location are handles to one block.
one_block :
    (h : Heap) (a b : ℕ) (l : CacheBlockLocation)
    → IsSound h
    → 0 < use_count h (some a)
    → 0 < use_count h (some b)
    → BlockRef.location h (some a) ≡ some l
    → BlockRef.location h (some b) ≡ some l
    → a ≡ b
unfolding use_count BlockRef.location
one_block h a b l s p q here there =
    let (c, at_a, n) = live-block h.blocks a p in
    let (d, at_b, m) = live-block h.blocks b q in
    let lc = location_at-get_elem? h.blocks a at_a in
    let ld = location_at-get_elem? h.blocks b at_b in
    let same : c.location ≡ d.location = cc in
    s.own a b c d at_a at_b (omega (arith, n, p)) (omega (arith, m, q)) same

-- The location of a block that no entry owns is not registered.
fresh-entry_at :
    (h : Heap) (ix : PrefixCacheIndex) (a : ℕ) (l : CacheBlockLocation)
    → IsCached h ix
    → 0 < use_count h (some a)
    → BlockRef.location h (some a) ≡ some l
    → owners ix.entries a ≡ 0
    → entry_at ix l ≡ none
fresh-entry_at h ix a l c live place free = elim (Option-cases (ix.by_location l)) [
  | inl p ↦ ap (at_position ix.entries) p
  | inr (i, p) ↦
      let (e, at, el) = c.indexed.locations.there l i p in
      let (b, ref, live_b, place_b) = c.pinned i e at in
      let same = one_block h b a l c.sound live_b live (place_b ∙ ap some el) place in
      let one = ap (λ r. owned r a) (ref ∙ ap some same) ∙ owned_self a in
      let (j, found) = owners-member ix.entries i e a at one in absurd (omega (arith, found, free))
]

-- The two outcomes of an insertion at a location that is not registered.
abbrev pub Added :
    Heap → PrefixCacheIndex → CacheKey → ℕ → CacheBlockLocation → Outcome Inserted → Type 0
Added h ix key a l o =
    ((ix' : PrefixCacheIndex) × (h' : Heap) × (o ≡ returns (none, ix', h'))
      × (entry_for ix key ≡ none)
      × Cloned h a h'
      × Stored ix (new_entry ix key l (some a)) h' ix')
    ⊎ ((e : CacheEntry) × (b : ℕ) × (ix' : PrefixCacheIndex) × (h' : Heap) × (o
          ≡ returns (some (some b), ix', h'))
        × (entry_for ix key ≡ some e)
        × (e.block_ref ≡ some b)
        × Cloned h b h'
        × Stored ix (touched ix e) h' ix')

Insertion-Added :
    (h : Heap) (ix : PrefixCacheIndex) (key : CacheKey) (a : ℕ) (l : CacheBlockLocation)
    {o : Outcome Inserted}
    → entry_at ix l ≡ none
    → Insertion h ix key a l o
    → Added h ix key a l o
Insertion-Added h ix key a l free (Insertion.conflict e p q) = absurd (let r = sym free ∙ p in cc)
Insertion-Added h ix key a l free (Insertion.registered e ix' p q s) =
    absurd (let r = sym free ∙ p in cc)
Insertion-Added h ix key a l free (Insertion.duplicate e b ix' h' p q r c s) =
    inr (e, b, ix', h', ap (λ k. returns (some k, ix', h')) r, q, r, c, s)
Insertion-Added h ix key a l free (Insertion.fresh ix' h' p q c s) = inl (ix', h', refl, q, c, s)

-- A key that the planner of group `g` makes.
abbrev pub IsKey : ℕ → CacheKey → Type 0
IsKey g key = (key.group_id ≡ g) × (is_empty key.content_hash ≡ false)

pub add-Added :
    (g spp : ℕ) (h : Heap) (ix : PrefixCacheIndex) (hs : List CacheBlockRef) (key : CacheKey)
    (a : ℕ)
    → IsBalanced g spp h ix (some a ∷ hs)
    → IsKey g key
    → owners ix.entries a ≡ 0
    → (l : CacheBlockLocation) × Added h ix key a l (insert h ix key (some a))
add-Added g spp h ix hs key a w good free =
    let count = w.counts a in
    let one = owned_self a in
    let live : 0 < use_count h (some a) = omega (arith, count, one) in
    let (l, place) = live-location h a live in
    (
      l,
      Insertion-Added h ix key a l (fresh-entry_at h ix a l w.cached live place free)
          (insert-Insertion h ix key a l w.cached (good.0 ∙ sym w.group) good.1 live place),
    )

-- What holds after the blocks were recorded under their keys.
pub record Filled (g spp : ℕ) (ix : PrefixCacheIndex) (keys : List CacheKey)
    (hs : List CacheBlockRef) (r : Recorded) : Type 0 where
  pub balanced : IsBalanced g spp r.heap r.index (map block_of r.pages ++ hs)
  pub held : Matches r.index keys (map block_of r.pages)
  pub kept : Extends ix r.index

module _ (g spp : ℕ) where
  pub new-IsBalanced :
      (h : Heap) (ix : PrefixCacheIndex) (hs : List CacheBlockRef) (key : CacheKey) (a : ℕ)
      (l : CacheBlockLocation) (ix' : PrefixCacheIndex) (h' : Heap)
      → IsBalanced g spp h ix (some a ∷ hs)
      → entry_for ix key ≡ none
      → Cloned h a h'
      → Stored ix (new_entry ix key l (some a)) h' ix'
      → IsBalanced g spp h' ix' (some a ∷ hs)
        × ((b : ℕ) → owners ix'.entries b ≡ owners ix.entries b + owned (some a) b)
  new-IsBalanced h ix hs key a l ix' h' w absent c s =
      let v = clone-IsBalanced g spp h h' ix (some a ∷ hs) a w c in
      let grown : (b : ℕ) → owners ix'.entries b ≡ owners ix.entries b + owned (some a) b = λ b.
        let taken = s.taken b in
        let was = ap (λ o. owned_in o b) absent in omega (arith, taken, was) in
      (
        record {
          cached = s.cached;
          counts = λ b. let n = v.counts b in let o = grown b in omega (arith, n, o);
          packed = v.packed;
          group = s.group ∙ w.group;
        },
        grown,
      )

  -- The duplicate gives its block back, and the canonical block takes its place.
  pub duplicate-IsBalanced :
      (h : Heap) (ix : PrefixCacheIndex) (hs : List CacheBlockRef) (key : CacheKey) (a b : ℕ)
      (e : CacheEntry) (ix' : PrefixCacheIndex) (h' : Heap)
      → IsBalanced g spp h ix (some a ∷ hs)
      → entry_for ix key ≡ some e
      → e.block_ref ≡ some b
      → Cloned h b h'
      → Stored ix (touched ix e) h' ix'
      → (h'' : Heap) × (drop_ref h' (some a) ≡ returns h'')
        × IsBalanced g spp h'' ix' (some b ∷ hs)
        × ((k : ℕ) → owners ix'.entries k ≡ owners ix.entries k)
        × Extends ix ix'
  duplicate-IsBalanced h ix hs key a b e ix' h' w found ref c s =
      let (_, _, _, ek) = member-entry_for ix key e w.cached.indexed found in
      let here = ap (entry_for ix) ek ∙ found in
      let same = same-owners ix e (touched ix e) h' ix' s here refl in
      let v = clone-IsBalanced g spp h h' ix (some a ∷ hs) b w c in
      let u : IsBalanced g spp h' ix' (some a ∷ some b ∷ hs) = record {
        cached = s.cached;
        counts = λ k. let n = v.counts k in let o = same k in omega (arith, n, o);
        packed = v.packed;
        group = s.group ∙ w.group;
      } in
      let (h'', run, x) = drop-IsBalanced g spp h' ix' (some b ∷ hs) a u in
      (
        h'',
        run,
        x,
        same,
        Stored-Extends ix (touched ix e) h' ix' s (λ d at. same_ref e d (sym here ∙ at)),
      )
