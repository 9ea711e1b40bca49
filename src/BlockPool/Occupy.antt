-- ===== src/BlockPool/Occupy.antt =====
-- BlockPool::occupy of kv_block_pool.rs, on a parent that is bound already and on a free one.
use machserve.Common.{
  occurs, ℕ, zero, suc, ◌+◌, ◌-◌, ◌<◌, ◌≡◌, ◌≢◌, refl, sym, ap, ◌∙◌, inl, inr, true, false, ◌&&◌,
  none, some, List, ◌∷◌, length, get_elem?, set, replicate, ◌==◌, if◌then◌else◌, arith,
  get_elem?-set, get_elem?-lt, length-replicate, lt→ltb, index-get_elem?, returns,
}
use machserve.BlockPool.{
  CacheBlockLocation, LcmBlock, BlockPool, is_true_at, is_occupied, num_occupied_slots, is_group,
  bind_if_empty, occupy,
}
use machserve.BlockPool.Valid.{
  IsValid, IsFree, IsBound, count_true, count_true-mark, sum_occupied-set, set-IsValid, location,
  mark,
}
use machserve.BlockPool.Release.{slot_of, is_occupied-location, is_true_at-set}
use machserve.BlockPool.Release.Whole.{location-cases, is_occupied-null, other_slot}

-- What holds of the pool `q` after the slot at `loc` of `p` was taken.
pub record Occupied (p : BlockPool) (loc : CacheBlockLocation) (q : BlockPool) : Type 0 where
  pub valid : IsValid q
  pub was_open : is_occupied p loc ≢ returns true
  pub held : is_occupied q loc ≡ returns true
  pub others : (l : CacheBlockLocation) → l ≢ loc → is_occupied q l ≡ is_occupied p l
  pub more : num_occupied_slots q ≡ num_occupied_slots p + 1

abbrev pub filled : LcmBlock → ℕ → LcmBlock
filled b slot = record b {
  occupancy = set b.occupancy slot true;
  occupied_count = b.occupied_count + 1;
}

-- A free parent once it is bound.
abbrev pub bound_to : ℕ → ℕ → LcmBlock → LcmBlock
bound_to g spp b = record b { occupancy = replicate spp false; bound_group = some g }

is_group_self : (g : ℕ) → is_group g (some g) ≡ true
unfolding is_group
is_group_self g = ground arith

-- The asserts after the binding hold, and the slot is marked.
occupy_bound :
    (p : BlockPool) (g spp i slot : ℕ) (b c : LcmBlock) (free : List ℕ)
    → get_elem? p.lcm_blocks i ≡ some b
    → bind_if_empty p g spp (suc i) b ≡ returns (c, free)
    → c.bound_group ≡ some g
    → length c.occupancy ≡ spp
    → slot < spp
    → is_true_at c.occupancy slot ≡ false
    → occupy p g spp (location i slot)
      ≡ returns (record { lcm_blocks = set p.lcm_blocks i (filled c slot); free_parent_ids = free })
unfolding occupy
occupy_bound p g spp i slot b c free at bind group len lt vacant =
    let e : suc i - 1 ≡ i = omega arith in
    let f = lt→ltb 0 (suc i) (omega arith) in
    let same : (length c.occupancy == spp) ≡ true = ground arith in
    let k = lt→ltb slot (length c.occupancy) (omega arith) in
    let h = ap (is_group g) group ∙ is_group_self g in
    rw (f, e, index-get_elem? p.lcm_blocks i at) (rw (bind, h, same) (rw (k, vacant)))

bind-bound :
    (p : BlockPool) (g spp i : ℕ) (b : LcmBlock)
    → 0 < b.occupied_count
    → bind_if_empty p g spp (suc i) b ≡ returns (b, p.free_parent_ids)
unfolding bind_if_empty
bind-bound p g spp i b pos = let e : (b.occupied_count == 0) ≡ false = ground arith in rw e

bind-free :
    (p : BlockPool) (g spp i : ℕ) (b : LcmBlock) (free : List ℕ)
    → IsFree b
    → p.free_parent_ids ≡ suc i ∷ free
    → bind_if_empty p g spp (suc i) b ≡ returns (bound_to g spp b, free)
unfolding bind_if_empty
bind-free p g spp i b free (z, _, empty) queue =
    let self : (suc i == suc i) ≡ true = ground arith in rw (z, queue, empty) (rw self)

-- The pool after slot `slot` of the parent at `i`, now `c`, is marked.
abbrev pub marked : BlockPool → ℕ → LcmBlock → ℕ → List ℕ → BlockPool
marked p i c slot free = record {
  lcm_blocks = set p.lcm_blocks i (filled c slot);
  free_parent_ids = free;
}

-- What a parent that is about to be marked has in common with the parent in the pool.
pub record Binds (p : BlockPool) (i : ℕ) (b c : LcmBlock) (free : List ℕ) : Type 0 where
  pub at : get_elem? p.lcm_blocks i ≡ some b
  pub count : c.occupied_count ≡ b.occupied_count
  pub counted : c.occupied_count ≡ count_true c.occupancy
  pub group : c.bound_group ≢ none
  pub slots : (t : ℕ) → is_true_at c.occupancy t ≡ is_true_at b.occupancy t
  pub ids :
      (j : ℕ)
      → occurs (suc j) free + (if i == j then mark b else 0) ≡ occurs (suc j) p.free_parent_ids
  pub no_null : occurs 0 free ≡ 0
  pub len : length free + mark b ≡ length p.free_parent_ids

module _ (p : BlockPool) (valid : IsValid p) (i slot : ℕ) (b c : LcmBlock) (free : List ℕ) where
  pub marked-Occupied :
      Binds p i b c free
      → slot < length c.occupancy
      → is_true_at c.occupancy slot ≡ false
      → Occupied p (location i slot) (marked p i c slot free)
  unfolding num_occupied_slots
  marked-Occupied w lt vacant = record {
    valid =
        set-IsValid p valid i b (filled c slot) free w.at
          (inr (omega arith, ground (arith, count_true-mark c.occupancy slot vacant lt), w.group))
          (λ j. ground (arith, w.ids j)) w.no_null (ground (arith, w.len));
    was_open = λ held. ground (arith, is_occupied-location p i slot, w.slots slot);
    held = ground (arith, view i slot);
    others = λ l ne. elim (location-cases l) [
      | inl e ↦ rw (e, is_occupied-null, is_occupied-null)
      | inr (j, e) ↦ rw e (
          view j l.slot_index
          ∙ rw (other_slot l i j slot e ne) (sym (is_occupied-location p j l.slot_index)))
    ];
    more = ground (arith, sum_occupied-set p.lcm_blocks i b (filled c slot) w.at);
  }
    where
      bound : i < length p.lcm_blocks
      bound = get_elem?-lt p.lcm_blocks i w.at

      view :
          (j t : ℕ)
          → is_occupied (marked p i c slot free) (location j t) ≡ (
              if (i == j) && (slot == t)
              then returns true
              else slot_of (get_elem? p.lcm_blocks j) t)
      view j t =
          is_occupied-location (marked p i c slot free) j t
          ∙ ground (
            arith,
            get_elem?-set p.lcm_blocks i j (filled c slot) bound,
            is_true_at-set c.occupancy slot t true lt,
            w.slots t,
            w.at,
          )

is_true_at-replicate : (n t : ℕ) → is_true_at (replicate n false) t ≡ false
is_true_at-replicate zero t = refl
is_true_at-replicate (suc n) zero = refl
is_true_at-replicate (suc n) (suc t) = is_true_at-replicate n t

count_true-replicate : (n : ℕ) → count_true (replicate n false) ≡ 0
count_true-replicate zero = refl
count_true-replicate (suc n) = count_true-replicate n

-- A parent of the group with its slots in the pool's packing.
pub record IsOpenTo (b : LcmBlock) (g spp : ℕ) : Type 0 where
  pub used : 0 < b.occupied_count
  pub group : b.bound_group ≡ some g
  pub packed : length b.occupancy ≡ spp

module _ (p : BlockPool) (valid : IsValid p) (g spp i slot : ℕ) (b : LcmBlock) where
  pub occupy_used :
      get_elem? p.lcm_blocks i ≡ some b
      → IsOpenTo b g spp
      → slot < spp
      → is_true_at b.occupancy slot ≡ false
      → (occupy p g spp (location i slot) ≡ returns (marked p i b slot p.free_parent_ids))
        × Occupied p (location i slot) (marked p i b slot p.free_parent_ids)
  occupy_used at to lt vacant =
      let bound : IsBound b = elim (valid.parents i b at) [
        | inl f ↦ absurd (omega (arith, f.0, to.used))
        | inr h ↦ h
      ] in
      (
        occupy_bound p g spp i slot b b p.free_parent_ids at (bind-bound p g spp i b to.used)
            to.group to.packed lt vacant,
        marked-Occupied p valid i slot b b p.free_parent_ids
            (record {
              at = at;
              count = refl;
              counted = bound.1;
              group = bound.2;
              slots = λ t. refl;
              ids = λ j. ground (arith, to.used);
              no_null = valid.no_null_page;
              len = ground (arith, to.used);
            })
            (omega (arith, to.packed)) vacant,
      )

  pub occupy_fresh :
      (free : List ℕ)
      → get_elem? p.lcm_blocks i ≡ some b
      → IsFree b
      → p.free_parent_ids ≡ suc i ∷ free
      → slot < spp
      → (occupy p g spp (location i slot) ≡ returns (marked p i (bound_to g spp b) slot free))
        × Occupied p (location i slot) (marked p i (bound_to g spp b) slot free)
  occupy_fresh free at (z, nobody, empty) queue lt = (
    occupy_bound p g spp i slot b (bound_to g spp b) free at
        (bind-free p g spp i b free (z, nobody, empty) queue) refl (length-replicate spp false) lt
        (is_true_at-replicate spp slot),
    marked-Occupied p valid i slot b (bound_to g spp b) free
        (record {
          at = at;
          count = refl;
          counted = z ∙ sym (count_true-replicate spp);
          group = λ e. cc;
          slots = λ t. is_true_at-replicate spp t ∙ ap (λ o. is_true_at o t) (sym empty);
          ids = λ j. ground (arith, ap (occurs (suc j)) queue);
          no_null = ground (arith, ap (occurs 0) queue, valid.no_null_page);
          len = ground (arith, ap length queue);
        })
        (omega (arith, length-replicate spp false)) (is_true_at-replicate spp slot),
  )
