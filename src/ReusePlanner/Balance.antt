-- ===== src/ReusePlanner/Balance.antt =====
-- The owners of blocks in reuse_planner.rs: the entries of the index, and the handles `hs` that plans
-- hold. Each block has exactly as many handles as owners.
use machserve.Common.{
  ℕ, ◌+◌, ◌<◌, ◌≡◌, refl, sym, ap, subst, ◌∙◌, inl, inr, none, some, List, [], ◌∷◌, ◌++◌, ◌==◌,
  arith, Bool-cases, returns, ◌>>=◌,
}
use machserve.BlockPool.Total.{IsPacked}
use machserve.BlockRef.{Heap, CacheBlockRef, use_count, clone, drop_ref, drop_refs, acquire_refs}
use machserve.BlockRef
use machserve.BlockRef.Sound.{IsSound}
use machserve.BlockRef.Drop.{drop_ref-Dropped, Cloned}
use machserve.PrefixIndex.{PrefixCacheIndex}
use machserve.PrefixIndex.Owners.{owned, owners, owners-member, owned_self}
use machserve.PrefixIndex.Evict.{IsCached}

abbrev pub owned_by : List CacheBlockRef → ℕ → ℕ
owned_by [] b = 0
owned_by (r ∷ rs) b = owned r b + owned_by rs b

pub owned_by-append :
    (rs qs : List CacheBlockRef) (b : ℕ) → owned_by (rs ++ qs) b ≡ owned_by rs b + owned_by qs b
owned_by-append [] qs b = omega arith
owned_by-append (r ∷ rs) qs b = omega (arith, owned_by-append rs qs b)

-- The invariant of a planner of group `g` with `spp` blocks to a parent.
pub record IsBalanced (g spp : ℕ) (h : Heap) (ix : PrefixCacheIndex) (hs : List CacheBlockRef)
    : Type 0 where
  pub cached : IsCached h ix
  pub counts : (b : ℕ) → use_count h (some b) ≡ owners ix.entries b + owned_by hs b
  pub packed : IsPacked g spp h.pool
  pub group : ix.group_id ≡ g

module _ (g spp : ℕ) where
  -- The order of the handles does not matter.
  pub recount :
      (h : Heap) (ix : PrefixCacheIndex) (hs ks : List CacheBlockRef)
      → ((b : ℕ) → owned_by hs b ≡ owned_by ks b)
      → IsBalanced g spp h ix hs
      → IsBalanced g spp h ix ks
  recount h ix hs ks same w = record {
    cached = w.cached;
    counts = λ b. let s = same b in let c = w.counts b in omega (arith, s, c);
    packed = w.packed;
    group = w.group;
  }

  -- The handles of the entries are live, by the counts alone.
  pub live-IsCached :
      (h : Heap) (ix : PrefixCacheIndex) (hs : List CacheBlockRef) (h' : Heap)
      → IsCached h ix
      → IsSound h'
      → ((b : ℕ) → use_count h' (some b) ≡ owners ix.entries b + owned_by hs b)
      → ((b : ℕ)
          → 0 < use_count h (some b)
          → BlockRef.location h' (some b) ≡ BlockRef.location h (some b))
      → IsCached h' ix
  live-IsCached h ix hs h' c s counts places = record {
    sound = s;
    indexed = c.indexed;
    pinned = λ i e at.
        let (a, ref, live, place) = c.pinned i e at in
        let one = ap (λ r. owned r a) ref ∙ owned_self a in
        let (j, found) = owners-member ix.entries i e a at one in
        let count = counts a in (a, ref, omega (arith, found, count), places a live ∙ place);
  }

  pub clone-IsBalanced :
      (h h' : Heap) (ix : PrefixCacheIndex) (hs : List CacheBlockRef) (a : ℕ)
      → IsBalanced g spp h ix hs
      → Cloned h a h'
      → IsBalanced g spp h' ix (some a ∷ hs)
  clone-IsBalanced h h' ix hs a w c =
      let now : (b : ℕ) → use_count h' (some b) ≡ owners ix.entries b + owned_by (some a ∷ hs) b =
        λ b.
          let count = w.counts b in
          elim (Bool-cases (a == b)) [
            | inl p ↦
                let same : a ≡ b = ground arith in
                let more = ap (λ k. use_count h' (some k)) (sym same) ∙ c.more in
                let back = ap (λ k. use_count h (some k)) same in
                rw p (omega (arith, more, back, count))
            | inr p ↦
                let kept = c.others b (λ e. absurd (ground arith)) in
                rw p (omega (arith, kept, count))
          ] in
      record {
        cached = live-IsCached h ix (some a ∷ hs) h' w.cached c.sound now (λ b _. c.places b);
        counts = now;
        packed = subst (IsPacked g spp) (sym c.same_pool) w.packed;
        group = w.group;
      }

  -- A handle that is held can be dropped.
  pub drop-IsBalanced :
      (h : Heap) (ix : PrefixCacheIndex) (hs : List CacheBlockRef) (a : ℕ)
      → IsBalanced g spp h ix (some a ∷ hs)
      → (h' : Heap) × (drop_ref h (some a) ≡ returns h') × IsBalanced g spp h' ix hs
  drop-IsBalanced h ix hs a w =
      let held = w.counts a in
      let one = owned_self a in
      let (h', run, d) = drop_ref-Dropped h a w.cached.sound (omega (arith, held, one)) in
      let now : (b : ℕ) → use_count h' (some b) ≡ owners ix.entries b + owned_by hs b = λ b.
        let count = w.counts b in
        elim (Bool-cases (a == b)) [
          | inl p ↦
              let same : a ≡ b = ground arith in
              let less = ap (λ k. use_count h' (some k) + 1) (sym same) ∙ d.fewer in
              let back = ap (λ k. use_count h (some k)) same in
              let own : owned (some a) b ≡ 1 = rw p refl in omega (arith, less, back, count, own)
          | inr p ↦
              let kept = d.others b (λ e. absurd (ground arith)) in
              let own : owned (some a) b ≡ 0 = rw p refl in omega (arith, kept, count, own)
        ] in
      (
        h',
        run,
        record {
          cached = live-IsCached h ix hs h' w.cached d.sound now (λ b _. d.places b);
          counts = now;
          packed = d.packed g spp w.packed;
          group = w.group;
        },
      )

  pub drop_refs-IsBalanced :
      (h : Heap) (ix : PrefixCacheIndex) (rs hs : List CacheBlockRef)
      → IsBalanced g spp h ix (rs ++ hs)
      → (h' : Heap) × (drop_refs h rs ≡ returns h') × IsBalanced g spp h' ix hs
  unfolding drop_refs drop_ref
  drop_refs-IsBalanced h ix [] hs w = (h, refl, w)
  drop_refs-IsBalanced h ix (none ∷ rs) hs w =
      drop_refs-IsBalanced h ix rs hs (recount h ix _ _ (λ b. omega arith) w)
  drop_refs-IsBalanced h ix (some a ∷ rs) hs w =
      let (m, run, v) = drop-IsBalanced h ix (rs ++ hs) a w in
      let (h', rest, u) = drop_refs-IsBalanced m ix rs hs v in
      (h', ap (λ o. o >>= λ k. drop_refs k rs) run ∙ rest, u)
