-- ===== src/BlockPool/Grant.antt =====
-- What BlockPool::acquire_blocks of kv_block_pool.rs grants.
use machserve.Common.{
  ℕ, zero, suc, ◌+◌, ◌-◌, ◌<◌, ◌≡◌, ◌≢◌, refl, sym, ap, subst, ◌∙◌, ◌⊎◌, inl, inr, true, false,
  ◌==◌, List, [], ◌∷◌, ◌++◌, length, arith, All, All-zip, All-map, Distinct, Bool-cases, lt→ltb,
  returns,
}
use machserve.BlockPool.{CacheBlockLocation, BlockPool, new, is_occupied, num_occupied_slots}
use machserve.BlockPool.Valid.{IsValid, get_elem?-replicate}
use machserve.BlockPool.Plan.{sort_ids, take_free, plan_locations}
use machserve.BlockPool.Acquire.{commit, acquire_blocks}
use machserve.BlockPool.Fill.{Steps, Steps-append, occupy_all-Steps}
use machserve.BlockPool.Total.{
  IsPacked, Listed, Partial, partial_ids-Listed, sort_ids-All, sort_ids-Distinct, fill_partials,
  fill_frees,
}

-- What holds of the pool `q` after the slots `ls` of `p` were taken.
pub record Acquired (p : BlockPool) (ls : List CacheBlockLocation) (q : BlockPool) : Type 0 where
  pub valid : IsValid q
  pub distinct : Distinct ls
  pub were_open : All (λ l. is_occupied p l ≢ returns true) ls
  pub held : All (λ l. is_occupied q l ≡ returns true) ls
  pub others : (l : CacheBlockLocation) → All (λ k. l ≢ k) ls → is_occupied q l ≡ is_occupied p l
  pub more : num_occupied_slots q ≡ num_occupied_slots p + length ls

Steps-Acquired :
    (g spp : ℕ) (p q : BlockPool) (ls : List CacheBlockLocation)
    → IsValid p
    → Steps g spp p ls q
    → Acquired p ls q
Steps-Acquired g spp p q [] valid s = record {
  valid = subst IsValid s valid;
  distinct = tt;
  were_open = tt;
  held = tt;
  others = λ l _. ap (λ r. is_occupied r l) (sym s);
  more = omega (arith, ap num_occupied_slots s);
}
Steps-Acquired g spp p q (l ∷ ls) valid (m, run, step, s) =
    let rest = Steps-Acquired g spp m q ls step.valid s in
    let apart =
      All-map (λ k. is_occupied m k ≢ returns true) (λ k. l ≢ k)
        (λ k was e. was (subst (λ r. is_occupied m r ≡ returns true) e step.held)) ls
        rest.were_open in
    record {
      valid = rest.valid;
      distinct = (apart, rest.distinct);
      were_open = (
        step.was_open,
        All-zip (λ k. l ≢ k) (λ k. is_occupied m k ≢ returns true)
            (λ k. is_occupied p k ≢ returns true)
            (λ k ne was e. was (step.others k (λ h. ne (sym h)) ∙ e)) ls apart rest.were_open,
      );
      held = (rest.others l apart ∙ step.held, rest.held);
      others = λ k ne. rest.others k ne.1 ∙ step.others k ne.0;
      more = omega (arith, rest.more, step.more);
    }

-- A plan is empty or has all that was asked for, and its slots can be taken in order.
plan_locations-Steps :
    (g n count : ℕ) (p : BlockPool)
    → IsValid p
    → IsPacked g (suc n) p
    → (ls : List CacheBlockLocation) × (plan_locations p g (suc n) count ≡ returns ls)
      × ((length ls ≡ count) ⊎ (ls ≡ []))
      × (q : BlockPool) × Steps g (suc n) p ls q
unfolding plan_locations
plan_locations-Steps g n count p valid packed =
    let (ids, run, listed, distinct) =
      partial_ids-Listed g (suc n) 0 p.lcm_blocks valid.parents packed in
    let sorted = sort_ids p ids in
    let partial =
      All-map (Listed g (suc n) 0 p.lcm_blocks) (Partial g (suc n) p p)
        (λ id w. (w.0, w.1, w.2 ∙ omega arith, w.3, w.3, w.4)) sorted
        (sort_ids-All (Listed g (suc n) 0 p.lcm_blocks) p ids listed) in
    let first =
      fill_partials g (suc n) count sorted p p valid (sort_ids-Distinct p ids distinct) partial in
    let left = count - length first.0 in
    let ls = first.0 ++ take_free (suc n) p.free_parent_ids left in
    let last = fill_frees g n left p.free_parent_ids first.2 first.4 first.5 in
    elim (Bool-cases (length ls == count)) [
      | inl whole ↦ (
        ls,
        rw (run, first.1) (rw whole),
        inl (ground arith),
        last.0,
        Steps-append g (suc n) p first.2 last.0 first.0 _ first.3 last.1,
      )
      | inr short ↦ ([], rw (run, first.1) (rw short), inr refl, p, refl)
    ]

commit_whole :
    (g spp num : ℕ) (p q : BlockPool) (ls : List CacheBlockLocation)
    → (length ls == num) ≡ true
    → Steps g spp p ls q
    → commit p g spp num ls ≡ returns (ls, q)
unfolding commit
commit_whole g spp num p q ls whole steps = rw whole (rw (occupy_all-Steps g spp p q ls steps))

commit_short :
    (g spp num : ℕ) (p : BlockPool) (ls : List CacheBlockLocation)
    → (length ls == num) ≡ false
    → commit p g spp num ls ≡ returns ([], p)
unfolding commit
commit_short g spp num p ls short = rw short

-- What is granted is taken slot by slot.
pub acquire_blocks-Steps :
    (g spp num : ℕ) (p : BlockPool)
    → IsValid p
    → 0 < spp
    → IsPacked g spp p
    → (ls : List CacheBlockLocation) × (q : BlockPool) × (acquire_blocks p g spp num
        ≡ returns (ls, q))
      × Steps g spp p ls q
      × ((length ls ≡ num) ⊎ ((ls ≡ []) × (q ≡ p)))
unfolding acquire_blocks
acquire_blocks-Steps g zero num p valid pos packed = elim pos [ ]
acquire_blocks-Steps g (suc n) num p valid pos packed =
    let ready = lt→ltb 0 (suc n) pos in
    elim (Bool-cases (num == 0)) [
      | inl zero_asked ↦ ([], p, rw (ready, zero_asked), refl, inr (refl, refl))
      | inr some_asked ↦
          let (ls, run, size, q, steps) = plan_locations-Steps g n num p valid packed in
          elim (Bool-cases (length ls == num)) [
            | inl whole ↦ (
              ls,
              q,
              rw (ready, some_asked) (rw run (commit_whole g (suc n) num p q ls whole steps)),
              steps,
              inl (ground arith),
            )
            | inr short ↦ (
              [],
              p,
              rw (ready, some_asked) (rw run (commit_short g (suc n) num p ls short)),
              refl,
              inr (refl, refl),
            )
          ]
    ]

-- Whatever is asked of a valid pool, the call returns: with nothing and the pool as it was, or with
-- as many slots as asked for.
pub acquire_blocks-Acquired :
    (g spp num : ℕ) (p : BlockPool)
    → IsValid p
    → 0 < spp
    → IsPacked g spp p
    → (ls : List CacheBlockLocation) × (q : BlockPool) × (acquire_blocks p g spp num
        ≡ returns (ls, q))
      × Acquired p ls q
      × ((length ls ≡ num) ⊎ ((ls ≡ []) × (q ≡ p)))
acquire_blocks-Acquired g spp num p valid pos packed =
    let (ls, q, run, steps, size) = acquire_blocks-Steps g spp num p valid pos packed in
    (ls, q, run, Steps-Acquired g spp p q ls valid steps, size)

-- A new pool has no packing yet.
pub new-IsPacked : (g spp n : ℕ) → IsPacked g spp (new n)
unfolding new
new-IsPacked g spp n i b at group = absurd (ground (arith, get_elem?-replicate n i))
