-- ===== src/BlockRef/Acquire.antt =====
-- The handles that acquire_blocks of kv_block_pool.rs makes.
use mathlib.Core.Path.{subst₂}
use machserve.Common.{
  ℕ, zero, suc, ◌+◌, ◌<◌, ◌≡◌, ◌≢◌, refl, sym, ap, subst, ◌∙◌, ◌⊎◌, inl, inr, true, none, some,
  List, [], ◌∷◌, ◌++◌, length, get_elem?, map, arith, returns, All, All-zip, Distinct,
}
use machserve.BlockPool.{CacheBlockLocation, BlockPool, is_occupied}
use machserve.BlockPool.Occupy.{Occupied}
use machserve.BlockPool.Fill.{Steps}
use machserve.BlockPool.Total.{IsPacked}
use machserve.BlockPool.Grant.{acquire_blocks-Steps}
use machserve.BlockRef.{
  CacheBlock, Heap, CacheBlockRef, strong_at, use_count, location, location_at, fresh_block,
  refs_from, acquire_refs,
}
use machserve.BlockPool.Packed.{Steps-IsPacked}
use machserve.BlockRef.Sound.{IsSound, count_live}

abbrev grow : List CacheBlock → CacheBlockLocation → List CacheBlock
grow cs l = cs ++ fresh_block l ∷ []

get_elem?-grow :
    (cs : List CacheBlock) (l : CacheBlockLocation) (b : ℕ) (d : CacheBlock)
    → get_elem? (grow cs l) b ≡ some d
    → ((b ≡ length cs) × (d ≡ fresh_block l)) ⊎ (get_elem? cs b ≡ some d)
get_elem?-grow [] l zero d h = inl (refl, ground arith)
get_elem?-grow [] l (suc b) d h = cc
get_elem?-grow (c ∷ cs) l zero d h = inr h
get_elem?-grow (c ∷ cs) l (suc b) d h = elim (get_elem?-grow cs l b d h) [
  | inl (e, f) ↦ inl (ap suc e, f)
  | inr g ↦ inr g
]

strong_at-grow :
    (cs : List CacheBlock) (l : CacheBlockLocation) (b : ℕ)
    → b ≢ length cs
    → strong_at (grow cs l) b ≡ strong_at cs b
strong_at-grow [] l zero ne = absurd (ne refl)
strong_at-grow [] l (suc b) ne = refl
strong_at-grow (c ∷ cs) l zero ne = refl
strong_at-grow (c ∷ cs) l (suc b) ne = strong_at-grow cs l b (λ e. ne (ap suc e))

location_at-grow :
    (cs : List CacheBlock) (l : CacheBlockLocation) (b : ℕ)
    → 0 < strong_at cs b
    → location_at (grow cs l) b ≡ location_at cs b
location_at-grow [] l b live = elim live [ ]
location_at-grow (c ∷ cs) l zero live = refl
location_at-grow (c ∷ cs) l (suc b) live = location_at-grow cs l b live

strong_at-last :
    (cs : List CacheBlock) (l : CacheBlockLocation) → strong_at (grow cs l) (length cs) ≡ 1
strong_at-last [] l = refl
strong_at-last (c ∷ cs) l = strong_at-last cs l

strong_at-past : (cs : List CacheBlock) → strong_at cs (length cs) ≡ 0
strong_at-past [] = refl
strong_at-past (c ∷ cs) = strong_at-past cs

count_live-grow :
    (cs : List CacheBlock) (l : CacheBlockLocation) → count_live (grow cs l) ≡ count_live cs + 1
count_live-grow [] l = refl
count_live-grow (c ∷ cs) l = omega (arith, count_live-grow cs l)

length-grow : (cs : List CacheBlock) (l : CacheBlockLocation) → length (grow cs l) ≡ suc (length cs)
length-grow [] l = refl
length-grow (c ∷ cs) l = ap suc (length-grow cs l)

grow_all :
    (cs : List CacheBlock) (l : CacheBlockLocation) (ds : List CacheBlock)
    → grow cs l ++ ds ≡ cs ++ fresh_block l ∷ ds
grow_all [] l ds = refl
grow_all (c ∷ cs) l ds = ap (λ r. c ∷ r) (grow_all cs l ds)

refs_from-later :
    (a b : ℕ) (ls : List CacheBlockLocation) → a < b → All (λ r. some a ≢ r) (refs_from b ls)
refs_from-later a b [] lt = tt
refs_from-later a b (l ∷ ls) lt = (λ e. ground arith, refs_from-later a (suc b) ls (omega arith))

-- One block more, for a slot that was just taken.
grow-IsSound :
    (p m : BlockPool) (cs : List CacheBlock) (l : CacheBlockLocation)
    → IsSound (record { pool = p; blocks = cs })
    → Occupied p l m
    → IsSound (record { pool = m; blocks = grow cs l })
grow-IsSound p m cs l s o = record {
  valid = o.valid;
  holds = λ b d g alive. elim (get_elem?-grow cs l b d g) [
    | inl (_, f) ↦ subst (λ k. is_occupied m k.location ≡ returns true) (sym f) o.held
    | inr g' ↦ o.others d.location (λ e. apart b d g' alive e) ∙ s.holds b d g' alive
  ];
  own = λ b₁ b₂ d₁ d₂ g₁ g₂ p₁ p₂ same. elim (get_elem?-grow cs l b₁ d₁ g₁) [
    | inl (e₁, f₁) ↦ elim (get_elem?-grow cs l b₂ d₂ g₂) [
      | inl (e₂, _) ↦ e₁ ∙ sym e₂
      | inr g ↦ absurd (apart b₂ d₂ g p₂ (sym same ∙ ap (λ k. k.location) f₁))
    ]
    | inr g ↦ elim (get_elem?-grow cs l b₂ d₂ g₂) [
      | inl (_, f₂) ↦ absurd (apart b₁ d₁ g p₁ (same ∙ ap (λ k. k.location) f₂))
      | inr g' ↦ s.own b₁ b₂ d₁ d₂ g g' p₁ p₂ same
    ]
  ];
  no_leak = omega (arith, o.more, s.no_leak, count_live-grow cs l);
}
  where
    apart : (b : ℕ) (d : CacheBlock) → get_elem? cs b ≡ some d → 0 < d.strong → d.location ≢ l
    apart b d g alive e =
        o.was_open (subst (λ k. is_occupied p k ≡ returns true) e (s.holds b d g alive))

-- What holds of the heap `h'` after the handles `rs` were made in `h`.
pub record Granted (h : Heap) (rs : List CacheBlockRef) (h' : Heap) : Type 0 where
  pub sound : IsSound h'
  pub distinct : Distinct rs
  pub were_new : All (λ r. use_count h r ≡ 0) rs
  pub single : All (λ r. use_count h' r ≡ 1) rs
  pub others : (b : ℕ) → All (λ r. some b ≢ r) rs → use_count h' (some b) ≡ use_count h (some b)
  pub places : (b : ℕ) → 0 < use_count h (some b) → location h' (some b) ≡ location h (some b)

use_count-grow :
    (p m : BlockPool) (cs : List CacheBlock) (l : CacheBlockLocation) (r : CacheBlockRef)
    → some (length cs) ≢ r
    → use_count (record { pool = m; blocks = grow cs l }) r
      ≡ use_count (record { pool = p; blocks = cs }) r
unfolding use_count
use_count-grow p m cs l none ne = refl
use_count-grow p m cs l (some b) ne = strong_at-grow cs l b (λ e. ne (ap some (sym e)))

append_none : (cs : List CacheBlock) → cs ++ [] ≡ cs
append_none [] = refl
append_none (c ∷ cs) = ap (λ r. c ∷ r) (append_none cs)

Steps-Granted :
    (g spp : ℕ) (p q : BlockPool) (cs ds : List CacheBlock) (n : ℕ) (ls : List CacheBlockLocation)
    → n ≡ length cs
    → ds ≡ cs ++ map fresh_block ls
    → IsSound (record { pool = p; blocks = cs })
    → Steps g spp p ls q
    → Granted (record { pool = p; blocks = cs }) (refs_from n ls) (record { pool = q; blocks = ds })
unfolding use_count location
Steps-Granted g spp p q cs ds n [] here all s e = record {
  sound = subst₂ (λ k bs. IsSound (record { pool = k; blocks = bs })) e (sym all') s;
  distinct = tt;
  were_new = tt;
  single = tt;
  others = λ b _. ap (λ bs. strong_at bs b) all';
  places = λ b _. ap (λ bs. location_at bs b) all';
}
  where
    all' : ds ≡ cs
    all' = all ∙ append_none cs
Steps-Granted g spp p q cs ds n (l ∷ ls) here all s (m, run, step, steps) =
    let rest =
      Steps-Granted g spp m q (grow cs l) ds (suc n) ls (ap suc here ∙ sym (length-grow cs l))
        (all ∙ sym (grow_all cs l (map fresh_block ls))) (grow-IsSound p m cs l s step) steps in
    let apart = refs_from-later n (suc n) ls (omega arith) in
    record {
      sound = rest.sound;
      distinct = (apart, rest.distinct);
      were_new = (
        ap (strong_at cs) here ∙ strong_at-past cs,
        All-zip _ _ _
            (λ r ne zero_after.
              sym (use_count-grow p m cs l r (subst (λ k. some k ≢ r) here ne)) ∙ zero_after)
            (refs_from (suc n) ls) apart rest.were_new,
      );
      single = (
        rest.others n apart ∙ ap (strong_at (grow cs l)) here ∙ strong_at-last cs l,
        rest.single,
      );
      others = λ b ne.
          rest.others b ne.1
          ∙ use_count-grow p m cs l (some b) (λ e. ne.0 (sym e ∙ ap some (sym here)));
      places = λ b live.
          let old : b ≢ length cs = λ e.
            absurd
              (let past = ap (strong_at cs) e ∙ strong_at-past cs in omega (arith, past, live)) in
          rest.places b (subst (λ k. 0 < k) (sym (strong_at-grow cs l b old)) live)
          ∙ location_at-grow cs l b live;
    }

-- In a sound heap with a fixed packing the call returns a sound heap: with no handle and the pool as
-- it was, or with as many distinct handles as asked for. The block of each had no handle before and
-- has one then; the count of every other block stays, live blocks keep their locations, and the
-- packing holds again.
pub acquire_refs-Granted :
    (h : Heap) (g spp num : ℕ)
    → IsSound h
    → 0 < spp
    → IsPacked g spp h.pool
    → (rs : List CacheBlockRef) × (h' : Heap) × (acquire_refs h g spp num ≡ returns (rs, h'))
      × Granted h rs h'
      × ((length rs ≡ num) ⊎ ((rs ≡ []) × (h'.pool ≡ h.pool)))
      × IsPacked g spp h'.pool
unfolding acquire_refs
acquire_refs-Granted h g spp num s pos packed =
    let (ls, q, run, steps, size) = acquire_blocks-Steps g spp num h.pool s.valid pos packed in
    let blocks = h.blocks ++ map fresh_block ls in
    (
      refs_from (length h.blocks) ls,
      record { pool = q; blocks = blocks },
      rw run,
      Steps-Granted g spp h.pool q h.blocks blocks (length h.blocks) ls refl refl s steps,
      elim size [
        | inl whole ↦ inl (length-refs_from (length h.blocks) ls ∙ whole)
        | inr (none_taken, same) ↦ inr (ap (refs_from (length h.blocks)) none_taken, same)
      ],
      Steps-IsPacked g spp h.pool q ls packed steps,
    )
  where
    length-refs_from : (a : ℕ) (ks : List CacheBlockLocation) → length (refs_from a ks) ≡ length ks
    length-refs_from a [] = refl
    length-refs_from a (k ∷ ks) = ap suc (length-refs_from (suc a) ks)
