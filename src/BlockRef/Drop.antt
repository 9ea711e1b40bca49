-- ===== src/BlockRef/Drop.antt =====
-- Cloning and dropping handles of kv_block_pool.rs.
use machserve.Common.{
  ℕ, zero, suc, ◌+◌, ◌-◌, ◌<◌, ◌≡◌, ◌≢◌, refl, sym, ap, subst, ◌∙◌, ◌⊎◌, inl, inr, Bool, true,
  false, some, List, [], ◌∷◌, length, get_elem?, set, ◌==◌, if◌then◌else◌, arith, lt→ltb,
  get_elem?-lt, index-get_elem?, Bool-cases, returns,
}
use machserve.BlockPool.{CacheBlockLocation, BlockPool, is_occupied}
use machserve.BlockPool.Release.Whole.{Released, release-Released}
use machserve.BlockPool.Total.{IsPacked}
use machserve.BlockPool.Packed.{release-IsPacked}
use machserve.BlockRef.{
  CacheBlock, Heap, strong_at, location_at, location, use_count, clone, drop_ref,
}
use machserve.BlockRef.Sound.{IsSound, count_live-set, get_elem?-set_cases}

abbrev with_strong : CacheBlock → ℕ → CacheBlock
with_strong c n = record c { strong = n }

-- A change of a count that keeps the block live.
write-IsSound :
    (h : Heap) (a n : ℕ) (c : CacheBlock)
    → IsSound h
    → get_elem? h.blocks a ≡ some c
    → 0 < c.strong
    → 0 < n
    → IsSound (record h { blocks = set h.blocks a (with_strong c n) })
write-IsSound h a n c s at pos alive = record {
  valid = s.valid;
  holds = λ b d g p. elim (cases b d g) [
    | inl (e, f) ↦
        subst (λ k. is_occupied h.pool k.location ≡ returns true) (sym f) (s.holds a c at pos)
    | inr (ne, g') ↦ s.holds b d g' p
  ];
  own = λ b₁ b₂ d₁ d₂ g₁ g₂ p₁ p₂ same. elim (cases b₁ d₁ g₁) [
    | inl (e₁, f₁) ↦ elim (cases b₂ d₂ g₂) [
      | inl (e₂, f₂) ↦ sym e₁ ∙ e₂
      | inr (_, g) ↦ sym e₁ ∙ s.own a b₂ c d₂ at g pos p₂ (sym (ap (λ k. k.location) f₁) ∙ same)
    ]
    | inr (_, g) ↦ elim (cases b₂ d₂ g₂) [
      | inl (e₂, f₂) ↦ s.own b₁ a d₁ c g at p₁ pos (same ∙ ap (λ k. k.location) f₂) ∙ e₂
      | inr (_, g') ↦ s.own b₁ b₂ d₁ d₂ g g' p₁ p₂ same
    ]
  ];
  no_leak = ground (arith, s.no_leak, count_live-set h.blocks a c (with_strong c n) at);
}
  where
    cases :
        (b : ℕ) (d : CacheBlock)
        → get_elem? (set h.blocks a (with_strong c n)) b ≡ some d
        → ((a ≡ b) × (d ≡ with_strong c n)) ⊎ ((a ≢ b) × (get_elem? h.blocks b ≡ some d))
    cases b d = get_elem?-set_cases h.blocks a b (with_strong c n) d (get_elem?-lt h.blocks a at)

-- The last handle goes, and its slot with it.
last-IsSound :
    (h : Heap) (a : ℕ) (c : CacheBlock) (pool : BlockPool)
    → IsSound h
    → get_elem? h.blocks a ≡ some c
    → 0 < c.strong
    → Released h.pool c.location pool
    → IsSound (record { pool = pool; blocks = set h.blocks a (with_strong c 0) })
last-IsSound h a c pool s at pos r = record {
  valid = r.valid;
  holds = λ b d g p. elim (cases b d g) [
    | inl (e, f) ↦ absurd (ground arith)
    | inr (ne, g') ↦
        r.others d.location (λ same. ne (s.own a b c d at g' pos p (sym same))) ∙ s.holds b d g' p
  ];
  own = λ b₁ b₂ d₁ d₂ g₁ g₂ p₁ p₂ same. elim (cases b₁ d₁ g₁) [
    | inl (_, f) ↦ absurd (ground arith)
    | inr (_, g) ↦ elim (cases b₂ d₂ g₂) [
      | inl (_, f) ↦ absurd (ground arith)
      | inr (_, g') ↦ s.own b₁ b₂ d₁ d₂ g g' p₁ p₂ same
    ]
  ];
  no_leak = ground (arith, s.no_leak, r.fewer, count_live-set h.blocks a c (with_strong c 0) at);
}
  where
    cases :
        (b : ℕ) (d : CacheBlock)
        → get_elem? (set h.blocks a (with_strong c 0)) b ≡ some d
        → ((a ≡ b) × (d ≡ with_strong c 0)) ⊎ ((a ≢ b) × (get_elem? h.blocks b ≡ some d))
    cases b d = get_elem?-set_cases h.blocks a b (with_strong c 0) d (get_elem?-lt h.blocks a at)

pub live-block :
    (cs : List CacheBlock) (a : ℕ)
    → 0 < strong_at cs a
    → (c : CacheBlock) × (get_elem? cs a ≡ some c) × (strong_at cs a ≡ c.strong)
live-block [] a p = elim p [ ]
live-block (c ∷ cs) zero p = (c, refl, refl)
live-block (c ∷ cs) (suc a) p = live-block cs a p

pub strong_at-set :
    (cs : List CacheBlock) (a b : ℕ) (v : CacheBlock)
    → a < length cs
    → strong_at (set cs a v) b ≡ (if a == b then v.strong else strong_at cs b)
strong_at-set [] a b v h = elim h [ ]
strong_at-set (x ∷ cs) zero zero v h = refl
strong_at-set (x ∷ cs) zero (suc b) v h = ground arith
strong_at-set (x ∷ cs) (suc a) zero v h = ground arith
strong_at-set (x ∷ cs) (suc a) (suc b) v h = strong_at-set cs a b v (omega arith) ∙ ground arith

pub location_at-get_elem? :
    (cs : List CacheBlock) (a : ℕ) {c : CacheBlock}
    → get_elem? cs a ≡ some c
    → location_at cs a ≡ some c.location
location_at-get_elem? [] a h = cc
location_at-get_elem? (x ∷ cs) zero h = ground arith
location_at-get_elem? (x ∷ cs) (suc a) h = location_at-get_elem? cs a h

location_at-set :
    (cs : List CacheBlock) (a n : ℕ) (c : CacheBlock)
    → get_elem? cs a ≡ some c
    → (b : ℕ) → location_at (set cs a (with_strong c n)) b ≡ location_at cs b
location_at-set [] a n c at b = cc
location_at-set (x ∷ cs) zero n c at zero = ground arith
location_at-set (x ∷ cs) zero n c at (suc b) = refl
location_at-set (x ∷ cs) (suc a) n c at zero = refl
location_at-set (x ∷ cs) (suc a) n c at (suc b) = location_at-set cs a n c at b

-- What holds of the heap `h'` after the handle to `a` was dropped in `h`.
pub record Dropped (h : Heap) (a : ℕ) (h' : Heap) : Type 0 where
  pub sound : IsSound h'
  pub fewer : use_count h' (some a) + 1 ≡ use_count h (some a)
  pub others : (b : ℕ) → b ≢ a → use_count h' (some b) ≡ use_count h (some b)
  pub slot :
      (l : CacheBlockLocation)
      → location h (some a) ≡ some l
      → is_occupied h'.pool l ≡ returns (if use_count h (some a) == 1 then false else true)
  pub places : (b : ℕ) → location h' (some b) ≡ location h (some b)
  pub packed : (g spp : ℕ) → IsPacked g spp h.pool → IsPacked g spp h'.pool

dropped_slot :
    (h : Heap) (a : ℕ) (c : CacheBlock) (pool : BlockPool) (held : Bool)
    → get_elem? h.blocks a ≡ some c
    → is_occupied pool c.location ≡ returns held
    → (l : CacheBlockLocation) → location h (some a) ≡ some l
    → is_occupied pool l ≡ returns held
unfolding location
dropped_slot h a c pool held at e l loc =
    let same : c.location ≡ l = ground (arith, location_at-get_elem? h.blocks a at) in
    subst (λ k. is_occupied pool k ≡ returns held) same e

drop_counts :
    (h : Heap) (a : ℕ) (c : CacheBlock) (n : ℕ)
    → get_elem? h.blocks a ≡ some c
    → (b : ℕ)
    → strong_at (set h.blocks a (with_strong c n)) b ≡ (if a == b then n else strong_at h.blocks b)
drop_counts h a c n at b = strong_at-set h.blocks a b (with_strong c n) (get_elem?-lt h.blocks a at)

-- A live handle can be dropped in a sound heap: the heap stays sound, the block has one handle less,
-- the count of every other block stays, every block keeps its location, and the slot of this block
-- is open afterwards exactly if this was its last handle.
pub drop_ref-Dropped :
    (h : Heap) (a : ℕ)
    → IsSound h
    → 0 < use_count h (some a)
    → (h' : Heap) × (drop_ref h (some a) ≡ returns h') × Dropped h a h'
unfolding drop_ref use_count location
drop_ref-Dropped h a s pos =
    let (c, at, count) = live-block h.blocks a pos in
    let alive : 0 < c.strong = omega (arith, count) in
    let counts = drop_counts h a c (c.strong - 1) at in
    let ready = lt→ltb 0 c.strong alive in
    elim (Bool-cases (c.strong == 1)) [
      | inl last ↦
          let (pool, run, r) = release-Released h.pool c.location s.valid (s.holds a c at alive) in
          let zero_left : c.strong - 1 ≡ 0 = ground arith in
          (
            record { pool = pool; blocks = set h.blocks a (with_strong c (c.strong - 1)) },
            rw (index-get_elem? h.blocks a at, ready) (rw (last, run)),
            record {
              sound =
                  subst
                    (λ n.
                      IsSound (record { pool = pool; blocks = set h.blocks a (with_strong c n) }))
                    (sym zero_left) (last-IsSound h a c pool s at alive r);
              fewer = ground (arith, counts a, count);
              others = λ b ne. ground (arith, counts b);
              slot = dropped_slot h a c pool _ at (rw count (rw last r.cleared_slot));
              packed = λ g spp. release-IsPacked g spp h.pool pool c.location run;
              places = location_at-set h.blocks a (c.strong - 1) c at;
            },
          )
      | inr more ↦
          let m = set h.blocks a (with_strong c (c.strong - 1)) in
          (
            record h { blocks = m },
            rw (index-get_elem? h.blocks a at, ready) (rw more),
            record {
              sound = write-IsSound h a (c.strong - 1) c s at alive (ground arith);
              fewer = ground (arith, counts a, count);
              others = λ b ne. ground (arith, counts b);
              slot = dropped_slot h a c h.pool _ at (rw count (rw more (s.holds a c at alive)));
              packed = λ g spp k. k;
              places = location_at-set h.blocks a (c.strong - 1) c at;
            },
          )
    ]

-- What holds of the heap `h'` after the handle to `a` was cloned in `h`.
pub record Cloned (h : Heap) (a : ℕ) (h' : Heap) : Type 0 where
  pub sound : IsSound h'
  pub same_pool : h'.pool ≡ h.pool
  pub more : use_count h' (some a) ≡ use_count h (some a) + 1
  pub others : (b : ℕ) → b ≢ a → use_count h' (some b) ≡ use_count h (some b)
  pub places : (b : ℕ) → location h' (some b) ≡ location h (some b)

-- A live handle can be cloned in a sound heap: the heap stays sound with the same pool, the block has
-- one handle more, the count of every other block stays, and every block keeps its location.
pub clone-Cloned :
    (h : Heap) (a : ℕ)
    → IsSound h
    → 0 < use_count h (some a)
    → (h' : Heap) × (clone h (some a) ≡ returns h') × Cloned h a h'
unfolding clone use_count location
clone-Cloned h a s pos =
    let (c, at, count) = live-block h.blocks a pos in
    let alive : 0 < c.strong = omega (arith, count) in
    let counts = drop_counts h a c (c.strong + 1) at in
    (
      record h { blocks = set h.blocks a (with_strong c (c.strong + 1)) },
      rw (index-get_elem? h.blocks a at, lt→ltb 0 c.strong alive),
      record {
        sound = write-IsSound h a (c.strong + 1) c s at alive (omega arith);
        same_pool = refl;
        more = ground (arith, counts a, count);
        others = λ b ne. ground (arith, counts b);
        places = location_at-set h.blocks a (c.strong + 1) c at;
      },
    )
