-- ===== src/Tests/Experts.antt =====
-- crates/mach-model/src/moe_backend.rs: a cache of two slots.
use machserve.Common.{◌≡◌, refl, arith, true, [], ◌∷◌, returns, panics, ◌>>=◌}
use machserve.ExpertCache.{
  LruExpertCache, Put, StepPlan, gpu, new, len, contains, touch, get, evict_lru, lowest_free, put,
  evict_lru_not_in, plan_each, plan_one, plan, step_one, plan_step, lru_one, plan_lru, member,
}
use machserve.ExpertCache.Slot.{IsCache}
use machserve.ExpertCache.Place.{Placed, put-Placed}
use machserve.ExpertCache.Plan.{Kept, AllSit, plan_lru-AllSit}

experts : Unit {0}
unfolding new len contains touch get evict_lru lowest_free put evict_lru_not_in plan_each plan_one
    plan step_one plan_step lru_one plan_lru
experts = tt

abbrev two : LruExpertCache
unfolding experts
two = new 2

two-IsCache : IsCache two
unfolding experts
two-IsCache = record {
  listed = λ k. refl;
  once = λ k. omega arith;
  apart = λ s. omega arith;
  inside = λ s p. absurd (omega (arith, p));
  size = refl;
  full = omega arith;
}

-- Expert 7 leaves for 9, since 8 is routed too.
retained :
    (do (_, c) ← plan_step two (7 ∷ 8 ∷ []); (p, d) ← plan_lru c (8 ∷ 9 ∷ []); returns p)
    ≡ returns (record {
      placements = gpu 1 ∷ gpu 0 ∷ [];
      fetches = record { id = 9; slot = 0 } ∷ [];
      evictions = 7 ∷ [];
    })
unfolding experts
retained = refl

-- With a fetch budget alone, a third expert takes the slot of the first within the step.
taken_over :
    (do (p, c) ← plan two (7 ∷ 8 ∷ 9 ∷ []) 3; returns p)
    ≡ returns (record {
      placements = gpu 0 ∷ gpu 1 ∷ gpu 0 ∷ [];
      fetches =
          record { id = 7; slot = 0 }
          ∷ record { id = 8; slot = 1 }
          ∷ record { id = 9; slot = 0 }
          ∷ [];
      evictions = 7 ∷ [];
    })
unfolding experts
taken_over = refl

no_slots : put (new 0) 3 ≡ panics
unfolding experts
no_slots = refl

put-Placed_example :
    (p : Put) × (d : LruExpertCache) × (put two 7 ≡ returns (p, d)) × Placed two 7 p d
unfolding experts
put-Placed_example = put-Placed two two-IsCache 7 (omega arith)

plan_lru-AllSit_example :
    (p : StepPlan) × (d : LruExpertCache) × (plan_lru two (7 ∷ 8 ∷ 7 ∷ 9 ∷ []) ≡ returns (p, d))
    × IsCache d
    × Kept (λ k. member (7 ∷ 8 ∷ 7 ∷ 9 ∷ []) k ≡ true) two d
    × AllSit d (7 ∷ 8 ∷ 7 ∷ 9 ∷ []) p.placements
plan_lru-AllSit_example = plan_lru-AllSit two (7 ∷ 8 ∷ 7 ∷ 9 ∷ []) two-IsCache
