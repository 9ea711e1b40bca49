-- ===== src/ReusePlanner/Fill.antt =====
-- `record_fresh` of reuse_planner.rs, the loop over the fresh blocks of a plan.
use machserve.Common.{
  ℕ, suc, ◌+◌, ◌≡◌, ◌≢◌, refl, sym, ap, ◌∙◌, inl, inr, none, some, List, [], ◌∷◌, ◌++◌, map, length,
  arith, All, All-map, All-zip, Distinct, returns,
}
use machserve.BlockRef.{Heap, CacheBlockRef}
use machserve.PrefixIndex.{CacheKey, PrefixCacheIndex, new_entry}
use machserve.PrefixIndex.Owners.{owned, owners}
use machserve.PrefixIndex.Found.{key_eq-IsTest}
use machserve.PrefixIndex.Store.{Stored}
use machserve.ReusePlanner.{PageRef, Recorded, record_fresh, with_key, with_page, block_of}
use machserve.ReusePlanner.Balance.{IsBalanced, owned_by-append, recount}
use machserve.ReusePlanner.Take.{IsFresh, owned-ne, some_injective}
use machserve.ReusePlanner.Reuse.{Stored-Extends, Holds}
use machserve.ReusePlanner.Record.{IsKey, add-Added, Filled, new-IsBalanced, duplicate-IsBalanced}

unowned : (r : CacheBlockRef) (a : ℕ) (o n : ℕ) → some a ≢ r → n ≡ o + owned r a → o ≡ 0 → n ≡ 0
unowned r a o n ne grown was = let z = owned-ne r a ne in omega (arith, z, grown, was)

still-IsFresh :
    (ix ix' : PrefixCacheIndex) (a : ℕ) (rs : List CacheBlockRef)
    → ((b : ℕ) → owners ix'.entries b ≡ owners ix.entries b + owned (some a) b)
    → All (λ r. some a ≢ r) rs
    → All (IsFresh ix) rs
    → All (IsFresh ix') rs
still-IsFresh ix ix' a rs grown =
    All-zip (λ r. some a ≢ r) (IsFresh ix) (IsFresh ix')
      (λ r ne (c, ref, was). (
        c,
        ref,
        unowned (some a) c (owners ix.entries c) (owners ix'.entries c)
            (λ same. ne (sym same ∙ sym ref)) (grown c) was,
      ))
      rs

same-IsFresh :
    (ix ix' : PrefixCacheIndex) (rs : List CacheBlockRef)
    → ((b : ℕ) → owners ix'.entries b ≡ owners ix.entries b)
    → All (IsFresh ix) rs
    → All (IsFresh ix') rs
same-IsFresh ix ix' rs same =
    All-map (IsFresh ix) (IsFresh ix') (λ r (c, ref, was). (c, ref, same c ∙ was)) rs

new-Holds :
    (ix : PrefixCacheIndex) (key : CacheKey) (l : _) (a : ℕ) (h' : Heap) (ix' : PrefixCacheIndex)
    → Stored ix (new_entry ix key l (some a)) h' ix'
    → Holds ix' key (some a)
new-Holds ix key l a h' ix' s =
    (new_entry ix key l (some a), s.stored key ∙ rw (key_eq-IsTest.complete key) refl, refl)

none-some : {A : Type 0} {x : A} → none ≡ some x → ⊥
none-some h = cc

suc_injective : {m n : ℕ} → suc m ≡ suc n → m ≡ n
suc_injective h = omega arith

module _ (g spp : ℕ) where
  -- The handle that was moved past the blocks moves back past the pages.
  moved :
      (h : Heap) (ix : PrefixCacheIndex) (r : CacheBlockRef) (rs hs : List CacheBlockRef)
      → IsBalanced g spp h ix (r ∷ (rs ++ hs))
      → IsBalanced g spp h ix (rs ++ r ∷ hs)
  moved h ix r rs hs = recount g spp h ix _ _ (λ b.
      let p = owned_by-append rs hs b in
      let q = owned_by-append rs (r ∷ hs) b in omega (arith, p, q))

  moved_back :
      (h : Heap) (ix : PrefixCacheIndex) (r : CacheBlockRef) (rs hs : List CacheBlockRef)
      → IsBalanced g spp h ix (rs ++ r ∷ hs)
      → IsBalanced g spp h ix (r ∷ (rs ++ hs))
  moved_back h ix r rs hs = recount g spp h ix _ _ (λ b.
      let p = owned_by-append rs hs b in
      let q = owned_by-append rs (r ∷ hs) b in omega (arith, p, q))

  pub record_fresh-Filled :
      (h : Heap) (ix : PrefixCacheIndex) (keys : List CacheKey) (blocks hs : List CacheBlockRef)
      → IsBalanced g spp h ix (blocks ++ hs)
      → All (IsFresh ix) blocks
      → Distinct blocks
      → All (IsKey g) keys
      → length blocks ≡ length keys
      → (r : Recorded) × (record_fresh h ix keys blocks ≡ returns r) × Filled g spp ix keys hs r
  unfolding record_fresh
  record_fresh-Filled h ix [] [] hs w free d good same =
      (_, refl, record { balanced = w; held = tt; kept = λ k r held. held })
  record_fresh-Filled h ix (key ∷ keys) [] hs w free d good same = absurd (omega (arith, same))
  record_fresh-Filled h ix [] (block ∷ blocks) hs w free d good same = absurd (omega (arith, same))
  record_fresh-Filled h ix (key ∷ keys) (none ∷ blocks) hs w ((c, ref, _), _) d good same =
      absurd cc
  record_fresh-Filled h ix (key ∷ keys) (some a ∷ blocks) hs w ((c, ref, was), free) (ne, d)
        (good, goods) same =
      let unowned_yet = ap (λ k. owners ix.entries k) (some_injective ref) ∙ was in
      let (l, added) = add-Added g spp h ix (blocks ++ hs) key a w good unowned_yet in
      elim added [
        | inl (ix', m, run, absent, cloned, s) ↦
            let (v, grown) =
              new-IsBalanced g spp h ix (blocks ++ hs) key a l ix' m w absent cloned s in
            let (r, rest, f) =
              record_fresh-Filled m ix' keys blocks (some a ∷ hs) (moved m ix' (some a) blocks hs v)
                (still-IsFresh ix ix' a blocks grown ne free) d goods (suc_injective same) in
            (
              with_key key (PageRef.fresh (some a)) r,
              rw run (rw rest refl),
              record {
                balanced = moved_back r.heap r.index (some a) (map block_of r.pages) hs f.balanced;
                held = (f.kept key (some a) (new-Holds ix key l a m ix' s), f.held);
                kept = λ k q was_held. f.kept k q (
                    Stored-Extends ix (new_entry ix key l (some a)) m ix' s
                      (λ e at. absurd (none-some (sym absent ∙ at))) k q was_held);
              },
            )
        | inr (e, b, ix', m, run, found, held, cloned, s) ↦
            let (n, drop, v, grown, kept) =
              duplicate-IsBalanced g spp h ix (blocks ++ hs) key a b e ix' m w found held cloned
                s in
            let (r, rest, f) =
              record_fresh-Filled n ix' keys blocks (some b ∷ hs) (moved n ix' (some b) blocks hs v)
                (same-IsFresh ix ix' blocks grown free) d goods (suc_injective same) in
            (
              with_page (PageRef.reused (some b)) r,
              rw run (rw drop (rw rest refl)),
              record {
                balanced = moved_back r.heap r.index (some b) (map block_of r.pages) hs f.balanced;
                held = (f.kept key (some b) (kept key (some b) (e, found, held)), f.held);
                kept = λ k q was_held. f.kept k q (kept k q was_held);
              },
            )
      ]
