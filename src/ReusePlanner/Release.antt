-- ===== src/ReusePlanner/Release.antt =====
-- `release` and `evict_oldest` of reuse_planner.rs: what they give back is accounted for.
use machserve.Common.{
  length, ℕ, ◌+◌, ◌-◌, ◌==◌, ◌≡◌, refl, sym, ap, ◌∙◌, inl, inr, true, Option, none, some, List, [],
  ◌∷◌, ◌++◌, map, if◌then◌else◌, arith, All, returns, Bool-cases,
}
use machserve.BlockPool.{CacheBlockLocation}
use machserve.BlockRef.{use_count, Heap, CacheBlockRef}
use machserve.PrefixIndex.{num_entries, CacheKey, CacheEntry, PrefixCacheIndex, remove, key_eq}
use machserve.PrefixIndex.Owners.{owned}
use machserve.PrefixIndex.Found.{member-entry_for, key_eq-IsTest, entry_for}
use machserve.PrefixIndex.Evict.{IsCached, Removed, remove-Removed, evict_oldest-Removed}
use machserve.ReusePlanner.{PrefixReusePlan, ReusePlanner, block_of, remove_keys, release, evict}
use machserve.ReusePlanner.Balance.{IsBalanced, drop_refs-IsBalanced}
use machserve.ReusePlanner.Admit.{IsPlanner}

-- The entry that goes takes its handle with it.
Removed-IsBalanced :
    (g spp : ℕ) (h : Heap) (ix : PrefixCacheIndex) (hs : List CacheBlockRef) (e : CacheEntry)
    (ix' : PrefixCacheIndex) (h' : Heap)
    → IsBalanced g spp h ix hs
    → Removed h ix e ix' h'
    → IsBalanced g spp h' ix' hs
Removed-IsBalanced g spp h ix hs e ix' h' w r =
    let (a, ref, d) = r.released in
    record {
      cached = r.cached;
      counts = λ b.
          let was = w.counts b in
          let freed = r.freed b in
          let mine = ap (λ q. owned q b) ref in
          elim (Bool-cases (a == b)) [
            | inl p ↦
                let same : a ≡ b = ground arith in
                let less = ap (λ k. use_count h' (some k) + 1) (sym same) ∙ d.fewer in
                let back = ap (λ k. use_count h (some k)) same in
                let own : owned (some a) b ≡ 1 = rw p refl in
                omega (arith, was, freed, mine, less, back, own)
            | inr p ↦
                let kept = d.others b (λ q. absurd (ground arith)) in
                let own : owned (some a) b ≡ 0 = rw p refl in
                omega (arith, was, freed, mine, kept, own)
          ];
      packed = d.packed g spp w.packed;
      group = r.group ∙ w.group;
    }

-- The key is not cached.
abbrev pub Lacks : PrefixCacheIndex → CacheKey → Type 0
Lacks ix key = entry_for ix key ≡ none

still-Lacks :
    (h : Heap) (ix : PrefixCacheIndex) (e : CacheEntry) (ix' : PrefixCacheIndex) (h' : Heap)
    (key : CacheKey)
    → Removed h ix e ix' h'
    → Lacks ix key
    → Lacks ix' key
still-Lacks h ix e ix' h' key r lacks =
    r.forgotten key
    ∙ elim (Bool-cases (key_eq e.key key)) [ inl p ↦ rw p refl | inr p ↦ rw p lacks ]

module _ (g spp : ℕ) where
  remove-IsBalanced :
      (h : Heap) (ix : PrefixCacheIndex) (hs : List CacheBlockRef) (key : CacheKey)
      → IsBalanced g spp h ix hs
      → (o : Option CacheBlockLocation) × (ix' : PrefixCacheIndex) × (h' : Heap) × (remove h ix key
          ≡ returns (o, ix', h'))
        × IsBalanced g spp h' ix' hs
        × Lacks ix' key
        × ((k : CacheKey) → Lacks ix k → Lacks ix' k)
  remove-IsBalanced h ix hs key w = elim (remove-Removed h ix key w.cached) [
    | inl (lacks, run) ↦ (none, ix, h, run, w, lacks, λ k l. l)
    | inr (e, found, ix', h', run, r) ↦ (
      some e.location,
      ix',
      h',
      run,
      Removed-IsBalanced g spp h ix hs e ix' h' w r,
      r.forgotten key ∙ same_key h ix key e w.cached found,
      λ k l. still-Lacks h ix e ix' h' k r l,
    )
  ]
    where
      same_key :
          (m : Heap) (jx : PrefixCacheIndex) (k : CacheKey) (e : CacheEntry)
          → IsCached m jx
          → entry_for jx k ≡ some e
          → (if key_eq e.key k then none else entry_for jx k) ≡ none
      same_key m jx k e c found =
          let (_, _, _, ek) = member-entry_for jx k e c.indexed found in
          let yes : key_eq e.key k ≡ true = ap (λ q. key_eq q k) ek ∙ key_eq-IsTest.complete k in
          rw yes refl

  remove_keys-IsBalanced :
      (h : Heap) (ix : PrefixCacheIndex) (hs : List CacheBlockRef) (keys : List CacheKey)
      → IsBalanced g spp h ix hs
      → (ix' : PrefixCacheIndex) × (h' : Heap) × (remove_keys h ix keys ≡ returns (ix', h'))
        × IsBalanced g spp h' ix' hs
        × All (Lacks ix') keys
        × ((k : CacheKey) → Lacks ix k → Lacks ix' k)
  unfolding remove_keys
  remove_keys-IsBalanced h ix hs [] w = (ix, h, refl, w, tt, λ k l. l)
  remove_keys-IsBalanced h ix hs (key ∷ keys) w =
      let (o, jx, m, run, v, gone, keep) = remove-IsBalanced h ix hs key w in
      let (ix', h', rest, u, all, keep') = remove_keys-IsBalanced m jx hs keys v in
      (ix', h', rw run rest, u, (keep' key gone, all), λ k l. keep' k (keep k l))

-- Under the invariant, where the handles of the plan are among those held, `release` returns, the other
-- handles account for all blocks again, and no key that the plan registered is cached any more.
pub release-Planner :
    (h : Heap) (p : ReusePlanner) (q : PrefixReusePlan) (hs : List CacheBlockRef)
    → IsPlanner h p (map block_of q.pages ++ hs)
    → (p' : ReusePlanner) × (h' : Heap) × (release h p q ≡ returns (p', h'))
      × IsPlanner h' p' hs
      × All (Lacks p'.index) q.fresh_keys
unfolding release
release-Planner h p q hs w =
    let g = p.group_id in
    let spp = p.cache_blocks_per_lcm_block in
    let (ix, m, run, v, gone, _) =
      remove_keys-IsBalanced g spp h p.index (map block_of q.pages ++ hs) q.fresh_keys w.balanced in
    let (h', rest, u) = drop_refs-IsBalanced g spp m ix (map block_of q.pages) hs v in
    let p' : ReusePlanner = record p { index = ix } in
    (
      p',
      h',
      rw run (rw rest refl),
      record { balanced = u; page_size = w.page_size; packing = w.packing },
      gone,
    )

-- Under the invariant `evict` returns, the held handles still account for all blocks, and one page fewer
-- is cached, if any was.
pub evict-Planner :
    (h : Heap) (p : ReusePlanner) (hs : List CacheBlockRef)
    → IsPlanner h p hs
    → (o : _) × (p' : ReusePlanner) × (h' : Heap) × (evict h p ≡ returns (o, p', h'))
      × IsPlanner h' p' hs
      × (num_entries p'.index ≡ num_entries p.index - 1)
unfolding evict num_entries
evict-Planner h p hs w = elim (evict_oldest-Removed h p.index w.balanced.cached) [
  | inl (nothing, run) ↦ (none, p, h, rw run refl, w, let z = ap length nothing in omega (arith, z))
  | inr (e, _, _, ix, h', run, r) ↦
      let fewer = r.fewer in
      (
        some (e.key, e.location),
        record p { index = ix },
        h',
        rw run refl,
        record {
          balanced =
              Removed-IsBalanced p.group_id p.cache_blocks_per_lcm_block h p.index hs e ix h'
                w.balanced r;
          page_size = w.page_size;
          packing = w.packing;
        },
        omega (arith, fewer),
      )
]
