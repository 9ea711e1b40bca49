-- ===== src/ReusePlanner/Take.antt =====
-- Taking blocks, refreshing keys and cloning their handles in reuse_planner.rs.
use machserve.Common.{
  ℕ, ◌+◌, ◌<◌, ◌≡◌, ◌≢◌, refl, ap, subst, ◌⊎◌, inl, inr, none, some, List, [], ◌∷◌, ◌++◌, ◌==◌,
  arith, Bool-cases, All, All-zip, Distinct, returns,
}
use machserve.BlockRef.{Heap, CacheBlockRef, use_count, acquire_refs}
use machserve.BlockRef.Acquire.{acquire_refs-Granted}
use machserve.PrefixIndex.{PrefixCacheIndex}
use machserve.PrefixIndex.Owners.{owned, owners}
use machserve.ReusePlanner.Balance.{live-IsCached, IsBalanced, owned_by, owned_by-append}

-- A block that no entry owns.
abbrev pub IsFresh : PrefixCacheIndex → CacheBlockRef → Type 0
IsFresh ix r = (a : ℕ) × (r ≡ some a) × (owners ix.entries a ≡ 0)

pub some_injective : {a b : ℕ} → some a ≡ some b → a ≡ b
some_injective h = cc

pub owned-ne : (r : CacheBlockRef) (b : ℕ) → some b ≢ r → owned r b ≡ 0
owned-ne none b ne = refl
owned-ne (some a) b ne = elim (Bool-cases (a == b)) [
  | inl p ↦ absurd (ne (ap some (ground arith)))
  | inr p ↦ rw p refl
]

abbrev Sighting : List CacheBlockRef → ℕ → Type 1
Sighting rs b =
    (All (λ r. some b ≢ r) rs × (owned_by rs b ≡ 0))
    ⊎ ((owned_by rs b ≡ 1) × ((P : CacheBlockRef → Type 0) → All P rs → P (some b)))

owned_by-ne : (rs : List CacheBlockRef) (b : ℕ) → All (λ r. some b ≢ r) rs → owned_by rs b ≡ 0
owned_by-ne [] b h = refl
owned_by-ne (r ∷ rs) b h = omega (arith, owned-ne r b h.0, owned_by-ne rs b h.1)

-- A handle stands once among distinct handles, or not at all.
sighting : (rs : List CacheBlockRef) (b : ℕ) → Distinct rs → Sighting rs b
sighting [] b d = inl (tt, refl)
sighting (none ∷ rs) b d = elim (sighting rs b d.1) [
  | inl (ne, zero_owned) ↦ inl ((λ e. cc, ne), omega (arith, zero_owned))
  | inr (one, pick) ↦ inr (omega (arith, one), λ P all. pick P all.1)
]
sighting (some a ∷ rs) b d = elim (Bool-cases (a == b)) [
  | inl p ↦
      let same : a ≡ b = ground arith in
      let later = owned_by-ne rs b (subst (λ k. All (λ r. some k ≢ r) rs) same d.0) in
      inr (rw p (omega (arith, later)), λ P all. subst (λ k. P (some k)) same all.0)
  | inr p ↦ elim (sighting rs b d.1) [
    | inl (ne, zero_owned) ↦ inl (
      (λ e. absurd (let same = some_injective e in ground arith), ne),
      rw p (omega (arith, zero_owned)),
    )
    | inr (one, pick) ↦ inr (rw p (omega (arith, one)), λ P all. pick P all.1)
  ]
]

use_count-null : (h : Heap) → use_count h none ≡ 0
unfolding use_count
use_count-null h = refl

module _ (g spp : ℕ) where
  -- The blocks that are acquired belong to the caller, and no entry owns them.
  pub acquire-IsBalanced :
      (h : Heap) (ix : PrefixCacheIndex) (hs : List CacheBlockRef) (num : ℕ)
      → 0 < spp
      → IsBalanced g spp h ix hs
      → (rs : List CacheBlockRef) × (h' : Heap) × (acquire_refs h g spp num ≡ returns (rs, h'))
        × IsBalanced g spp h' ix (rs ++ hs)
        × All (IsFresh ix) rs
        × Distinct rs
  acquire-IsBalanced h ix hs num pos w =
      let (rs, h', run, q, _, packed) =
        acquire_refs-Granted h g spp num w.cached.sound pos w.packed in
      let now : (b : ℕ) → use_count h' (some b) ≡ owners ix.entries b + owned_by (rs ++ hs) b = λ b.
        let old = w.counts b in
        let split = owned_by-append rs hs b in
        elim (sighting rs b q.distinct) [
          | inl (ne, zero_owned) ↦
              let kept = q.others b ne in omega (arith, old, split, zero_owned, kept)
          | inr (one, pick) ↦
              let new = pick (λ r. use_count h r ≡ 0) q.were_new in
              let single = pick (λ r. use_count h' r ≡ 1) q.single in
              omega (arith, old, split, one, new, single)
        ] in
      (
        rs,
        h',
        run,
        record {
          cached = live-IsCached g spp h ix (rs ++ hs) h' w.cached q.sound now q.places;
          counts = now;
          packed = packed;
          group = w.group;
        },
        All-zip (λ r. use_count h r ≡ 0) (λ r. use_count h' r ≡ 1) (IsFresh ix)
            (λ r was is. new_block h h' r was is (λ a. w.counts a)) rs q.were_new q.single,
        q.distinct,
      )
    where
      new_block :
          (k k' : Heap) (r : CacheBlockRef)
          → use_count k r ≡ 0
          → use_count k' r ≡ 1
          → ((b : ℕ) → use_count k (some b) ≡ owners ix.entries b + owned_by hs b)
          → IsFresh ix r
      new_block k k' none was is counts = absurd (let z = use_count-null k' in omega (arith, is, z))
      new_block k k' (some a) was is counts = let c = counts a in (a, refl, omega (arith, was, c))
