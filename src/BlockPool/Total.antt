-- ===== src/BlockPool/Total.antt =====
-- BlockPool::plan_locations and acquire_blocks of kv_block_pool.rs on a valid pool.
use machserve.Common.{
  occurs, ℕ, zero, suc, ◌+◌, ◌-◌, ◌≡◌, ◌≢◌, refl, sym, ap, subst, ◌∙◌, ◌⊎◌, inl, inr, true, false,
  ltb, ◌==◌, Option, none, some, List, [], ◌∷◌, ◌++◌, length, get_elem?, replicate, arith, All,
  All-zip, All-map, Distinct, Bool-cases, Option-cases, returns,
}
use machserve.BlockPool.{CacheBlockLocation, LcmBlock, BlockPool, is_group, is_true_at}
use machserve.BlockPool.Valid.{IsValid, IsFree, IsBound, lcm_block-index}
use machserve.BlockPool.Occupy.{IsOpenTo}
use machserve.BlockPool.Plan.{
  partial_ids, insert_sorted, sort_ids, comes_before, take_open, take_partial, take_free,
}
use machserve.BlockPool.Fill.{Steps, Steps-append, fill_slots, fill_fresh}

-- The next free parent of a valid pool is free.
front-IsFree :
    (p : BlockPool) (id : ℕ) (free : List ℕ)
    → IsValid p
    → p.free_parent_ids ≡ id ∷ free
    → (i : ℕ) × (b : LcmBlock) × (id ≡ suc i) × (get_elem? p.lcm_blocks i ≡ some b) × IsFree b
front-IsFree p zero free valid queue =
    absurd (ground (arith, valid.no_null_page, ap (occurs 0) queue))
front-IsFree p (suc i) free valid queue = elim (Option-cases (get_elem? p.lcm_blocks i)) [
  | inl none_at ↦ absurd (ground (arith, valid.queue i, ap (occurs (suc i)) queue))
  | inr (b, at) ↦ elim (valid.parents i b at) [
    | inl idle ↦ (i, b, refl, at, idle)
    | inr bound ↦ absurd (ground (arith, valid.queue i, ap (occurs (suc i)) queue, bound.0))
  ]
]

take_free-zero : (spp : ℕ) (ids : List ℕ) → take_free spp ids 0 ≡ []
unfolding take_free take_open
take_free-zero spp [] = refl
take_free-zero spp (id ∷ ids) = take_free-zero spp ids

-- The planned slots of the free parents can be taken in any valid pool with this queue.
pub fill_frees :
    (g n left : ℕ) (free : List ℕ) (p : BlockPool)
    → IsValid p
    → p.free_parent_ids ≡ free
    → (q : BlockPool) × Steps g (suc n) p (take_free (suc n) free left) q × IsValid q
unfolding take_free
fill_frees g n zero free p valid queue = (p, rw (take_free-zero (suc n) free) refl, valid)
fill_frees g n (suc left) [] p valid queue = (p, refl, valid)
fill_frees g n (suc left) (id ∷ free) p valid queue =
    let (i, b, e, at, idle) = front-IsFree p id free valid queue in
    let here = take_open id 0 (replicate (suc n) false) (suc left) in
    let first = fill_fresh g n i left free p b valid at idle (queue ∙ ap (λ k. k ∷ free) e) in
    let rest = fill_frees g n (suc left - length here) free first.0 first.2 first.3 in
    (
      rest.0,
      Steps-append g (suc n) p first.0 rest.0 here _
          (subst
            (λ k. Steps g (suc n) p (take_open k 0 (replicate (suc n) false) (suc left)) first.0)
            (sym e) first.1)
          rest.1,
      rest.2,
    )

-- A parent with a slot of the group, as two pools agree on it.
abbrev pub Partial : ℕ → ℕ → BlockPool → BlockPool → ℕ → Type 0
Partial g spp p₀ p id =
    (i : ℕ) × (b : LcmBlock) × (id ≡ suc i)
    × (get_elem? p₀.lcm_blocks i ≡ some b)
    × (get_elem? p.lcm_blocks i ≡ some b)
    × IsOpenTo b g spp

-- The slots that were planned on the pool `p₀` can be taken in a pool that agrees with it on the
-- parents concerned.
pub fill_partials :
    (g spp left : ℕ) (ids : List ℕ) (p₀ p : BlockPool)
    → IsValid p
    → Distinct ids
    → All (Partial g spp p₀ p) ids
    → (ls : List CacheBlockLocation) × (take_partial p₀ ids left ≡ returns ls)
      × (q : BlockPool) × Steps g spp p ls q
      × IsValid q
      × (q.free_parent_ids ≡ p.free_parent_ids)
unfolding take_partial
fill_partials g spp left [] p₀ p valid d all = ([], refl, p, refl, valid, refl)
fill_partials g spp zero (id ∷ ids) p₀ p valid d all = ([], refl, p, refl, valid, refl)
fill_partials g spp (suc left) (id ∷ ids) p₀ p valid d all =
    let (i, b, e, at₀, at, to) = all.0 in
    let here = take_open (suc i) 0 b.occupancy (suc left) in
    let first =
      fill_slots g spp i 0 (suc left) b.occupancy p b valid at to (zero_add to.packed)
        (λ t. ap (is_true_at b.occupancy) (zero_add refl)) in
    let agree =
      All-zip (λ k. id ≢ k) (Partial g spp p₀ p) (Partial g spp p₀ first.0)
        (λ k ne w. (
          w.0,
          w.1,
          w.2,
          w.3,
          first.1.elsewhere w.0 (λ same. ne (e ∙ ap suc same ∙ sym w.2)) ∙ w.4,
          w.5,
        ))
        ids d.0 all.1 in
    let rest =
      fill_partials g spp (suc left - length here) ids p₀ first.0 first.1.valid d.1 agree in
    (
      here ++ rest.0,
      rw (e, lcm_block-index p₀ i b at₀, rest.1),
      rest.2,
      Steps-append g spp p first.0 rest.2 here rest.0 first.1.steps rest.3,
      rest.4,
      rest.5 ∙ first.1.queue,
    )
  where
    zero_add : {m n : ℕ} → m ≡ n → 0 + m ≡ n
    zero_add h = omega arith

is_group-some : (g : ℕ) (o : Option ℕ) → is_group g o ≡ true → o ≡ some g
unfolding is_group
is_group-some g none h = cc
is_group-some g (some k) h = ground arith

-- Parents of one group have one packing: what the caller's fixed geometry promises.
abbrev pub IsPacked : ℕ → ℕ → BlockPool → Type 0
IsPacked g spp p =
    (i : ℕ) (b : LcmBlock)
    → get_elem? p.lcm_blocks i ≡ some b
    → b.bound_group ≡ some g
    → length b.occupancy ≡ spp

-- A parent listed for the group stands at its id in `bs`, the parents from index `i` on.
abbrev pub Listed : ℕ → ℕ → ℕ → List LcmBlock → ℕ → Type 0
Listed g spp i bs id =
    (k : ℕ) × (b : LcmBlock) × (id ≡ suc (i + k)) × (get_elem? bs k ≡ some b) × IsOpenTo b g spp

pub partial_ids-Listed :
    (g spp i : ℕ) (bs : List LcmBlock)
    → ((k : ℕ) (b : LcmBlock) → get_elem? bs k ≡ some b → IsFree b ⊎ IsBound b)
    → ((k : ℕ) (b : LcmBlock)
        → get_elem? bs k ≡ some b
        → b.bound_group ≡ some g
        → length b.occupancy ≡ spp)
    → (ids : List ℕ) × (partial_ids g spp i bs ≡ returns ids)
      × All (Listed g spp i bs) ids
      × Distinct ids
unfolding partial_ids
partial_ids-Listed g spp i [] valid packed = ([], refl, tt, tt)
partial_ids-Listed g spp i (b ∷ bs) valid packed =
    let (ids, run, listed, distinct) =
      partial_ids-Listed g spp (suc i) bs (λ k. valid (suc k)) (λ k. packed (suc k)) in
    let later =
      All-map (Listed g spp (suc i) bs) (Listed g spp i (b ∷ bs))
        (λ id w. (suc w.0, w.1, omega (arith, w.2), w.3, w.4)) ids listed in
    let above =
      All-map (Listed g spp (suc i) bs) (λ id. suc i ≢ id) (λ id w e. omega (arith, w.2, e)) ids
        listed in
    elim (Bool-cases (is_group g b.bound_group)) [
      | inr other ↦ (ids, rw other run, later, distinct)
      | inl ours ↦
          let group = is_group-some g b.bound_group ours in
          let len = packed 0 b refl group in
          let same : (length b.occupancy == spp) ≡ true = ground arith in
          elim (Bool-cases (ltb b.occupied_count (length b.occupancy))) [
            | inl room ↦ (
              suc i ∷ ids,
              rw (ours, same) (rw (run, room)),
              ((0, b, omega arith, refl, opens b group len (valid 0 b refl)), later),
              (above, distinct),
            )
            | inr full ↦ (ids, rw (ours, same) (rw (run, full)), later, distinct)
          ]
    ]
  where
    opens :
        (b : LcmBlock)
        → b.bound_group ≡ some g
        → length b.occupancy ≡ spp
        → IsFree b ⊎ IsBound b
        → IsOpenTo b g spp
    opens b group len (inl idle) = absurd (ground (arith, idle.1))
    opens b group len (inr bound) = record { used = bound.0; group = group; packed = len }

insert_sorted-All :
    (P : ℕ → Type 0) (p : BlockPool) (id : ℕ) (ids : List ℕ)
    → P id
    → All P ids
    → All P (insert_sorted p id ids)
unfolding insert_sorted
insert_sorted-All P p id [] h all = (h, tt)
insert_sorted-All P p id (x ∷ xs) h all = elim (Bool-cases (comes_before p id x)) [
  | inl first ↦ rw first (h, all)
  | inr later ↦ rw later (all.0, insert_sorted-All P p id xs h all.1)
]

pub sort_ids-All :
    (P : ℕ → Type 0) (p : BlockPool) (ids : List ℕ) → All P ids → All P (sort_ids p ids)
unfolding sort_ids
sort_ids-All P p [] all = tt
sort_ids-All P p (id ∷ ids) all =
    insert_sorted-All P p id (sort_ids p ids) all.0 (sort_ids-All P p ids all.1)

insert_sorted-Distinct :
    (p : BlockPool) (id : ℕ) (ids : List ℕ)
    → All (λ k. id ≢ k) ids
    → Distinct ids
    → Distinct (insert_sorted p id ids)
unfolding insert_sorted
insert_sorted-Distinct p id [] new d = (tt, tt)
insert_sorted-Distinct p id (x ∷ xs) new d = elim (Bool-cases (comes_before p id x)) [
  | inl first ↦ rw first (new, d)
  | inr later ↦ rw later (
    insert_sorted-All (λ k. x ≢ k) p id xs (λ e. new.0 (sym e)) d.0,
    insert_sorted-Distinct p id xs new.1 d.1,
  )
]

pub sort_ids-Distinct : (p : BlockPool) (ids : List ℕ) → Distinct ids → Distinct (sort_ids p ids)
unfolding sort_ids
sort_ids-Distinct p [] d = tt
sort_ids-Distinct p (id ∷ ids) d =
    insert_sorted-Distinct p id (sort_ids p ids) (sort_ids-All (λ k. id ≢ k) p ids d.0)
      (sort_ids-Distinct p ids d.1)
