-- ===== src/BlockPool/Release/Whole.antt =====
-- What a release does to the whole pool of kv_block_pool.rs.
use machserve.Common.{
  ℕ, zero, suc, ◌+◌, ◌-◌, ◌<◌, ◌≡◌, ◌≢◌, refl, sym, ap, subst, ◌∙◌, ◌⊎◌, inl, inr, true, false,
  ◌&&◌, none, some, [], get_elem?, ◌==◌, arith, Bool-cases, Option-cases, returns, panics,
}
use machserve.BlockPool.{
  CacheBlockLocation, LcmBlock, BlockPool, lcm_block, is_true_at, is_occupied, num_occupied_slots,
  release,
}
use machserve.BlockPool.Valid.{IsValid, sum_occupied-set, location}
use machserve.BlockPool.Release.{
  after, cleared, IsBound-at, release-unbind, unbind_if_empty-after, after-IsValid, after-slot,
  is_occupied-location,
}

after-sum :
    (p : BlockPool) (i slot : ℕ) (b : LcmBlock)
    → get_elem? p.lcm_blocks i ≡ some b
    → 0 < b.occupied_count
    → num_occupied_slots (after p i (cleared b slot)) + 1 ≡ num_occupied_slots p
unfolding after num_occupied_slots
after-sum p i slot b at pos = ground (
  arith,
  sum_occupied-set p.lcm_blocks i b (cleared b slot) at,
  sum_occupied-set p.lcm_blocks i b
      (record b { bound_group = none; occupancy = []; occupied_count = b.occupied_count - 1 }) at,
)

-- A location names the null page or a slot of a parent.
pub location-cases :
    (l : CacheBlockLocation)
    → (l ≡ record { lcm_block_id = 0; slot_index = l.slot_index })
      ⊎ ((i : ℕ) × (l ≡ location i l.slot_index))
location-cases l = go l.lcm_block_id refl
  where
    go :
        (id : ℕ)
        → l.lcm_block_id ≡ id
        → (l ≡ record { lcm_block_id = 0; slot_index = l.slot_index })
          ⊎ ((i : ℕ) × (l ≡ location i l.slot_index))
    go zero e = inl (ap (λ n. record { lcm_block_id = n; slot_index = l.slot_index }) e)
    go (suc i) e = inr (i, ap (λ n. record { lcm_block_id = n; slot_index = l.slot_index }) e)

pub is_occupied-null :
    (p : BlockPool) (slot : ℕ)
    → is_occupied p (record { lcm_block_id = 0; slot_index = slot }) ≡ panics
unfolding is_occupied lcm_block
is_occupied-null p slot = refl

-- What holds of the pool `q` after the slot at `loc` of `p` was given back.
pub record Released (p : BlockPool) (loc : CacheBlockLocation) (q : BlockPool) : Type 0 where
  pub valid : IsValid q
  pub cleared_slot : is_occupied q loc ≡ returns false
  pub others : (l : CacheBlockLocation) → l ≢ loc → is_occupied q l ≡ is_occupied p l
  pub fewer : num_occupied_slots q + 1 ≡ num_occupied_slots p

pub other_slot :
    (l : CacheBlockLocation) (i j slot : ℕ)
    → l ≡ location j l.slot_index
    → l ≢ location i slot
    → ((i == j) && (slot == l.slot_index)) ≡ false
other_slot l i j slot e ne = elim (Bool-cases ((i == j) && (slot == l.slot_index))) [
  | inl same ↦
      let a : i ≡ j = ground arith in
      let b : slot ≡ l.slot_index = ground arith in
      absurd (ne (e ∙ ap (λ n. location n l.slot_index) (sym a) ∙ ap (location i) (sym b)))
  | inr f ↦ f
]

release_at :
    (p : BlockPool) (i slot : ℕ)
    → IsValid p
    → is_occupied p (location i slot) ≡ returns true
    → (q : BlockPool) × (release p (location i slot) ≡ returns q) × Released p (location i slot) q
release_at p i slot valid held = elim (Option-cases (get_elem? p.lcm_blocks i)) [
  | inl n ↦ absurd (ground (arith, is_occupied-location p i slot))
  | inr (b, at) ↦
      let full : is_true_at b.occupancy slot ≡ true =
        ground (arith, is_occupied-location p i slot) in
      let bound = IsBound-at p i slot b valid at full in
      let c = cleared b slot in
      let view = λ (j t : ℕ).
        is_occupied-location (after p i c) j t ∙ after-slot p i slot b j t bound at full in
      (
        after p i c,
        release-unbind p i slot b valid at full ∙ unbind_if_empty-after p i b c valid at bound.0,
        record {
          valid = after-IsValid p i slot b valid at full;
          cleared_slot = ground (arith, view i slot);
          others = λ l ne. elim (location-cases l) [
            | inl e ↦ rw (e, is_occupied-null, is_occupied-null)
            | inr (j, e) ↦ rw e (
                view j l.slot_index
                ∙ rw (other_slot l i j slot e ne) (sym (is_occupied-location p j l.slot_index)))
          ];
          fewer = after-sum p i slot b at bound.0;
        },
      )
]

-- An occupied slot can be given back: none of the asserts of `release` fails, the slot is open
-- afterwards, every other slot is as it was, and the pool stays valid.
pub release-Released :
    (p : BlockPool) (loc : CacheBlockLocation)
    → IsValid p
    → is_occupied p loc ≡ returns true
    → (q : BlockPool) × (release p loc ≡ returns q) × Released p loc q
release-Released p loc valid held = elim (location-cases loc) [
  | inl e ↦ absurd (ground (arith, is_occupied-null p loc.slot_index, ap (is_occupied p) e))
  | inr (i, e) ↦
      subst (λ l. (q : BlockPool) × (release p l ≡ returns q) × Released p l q) (sym e)
        (release_at p i loc.slot_index valid (sym (ap (is_occupied p) e) ∙ held))
]

-- Only an occupied slot can be given back, in any pool.
pub release-panics :
    (p : BlockPool) (loc : CacheBlockLocation)
    → is_occupied p loc ≢ returns true
    → release p loc ≡ panics
unfolding release is_occupied lcm_block
release-panics p loc idle = ground arith
