-- ===== src/ExpertCache/Place.antt =====
-- `put` of moe_backend.rs on every branch.
use machserve.Common.{
  ℕ, suc, ◌<◌, ◌≡◌, ◌≢◌, refl, sym, ap, ◌∙◌, inl, inr, true, false, none, some, List, ◌∷◌, length,
  leb, ◌==◌, arith, Bool-cases, Option-cases, occurs, returns,
}
use machserve.ExpertCache.{
  LruExpertCache, Put, slot_of, forget, touch, lowest_free, assign, put, evict_lru, pop_back,
}
use machserve.ExpertCache.Slot.{
  IsCache, slot_of-resident, slot_of-absent, slot_of-forget, pop_back-occurs, back-cases, back_none,
  ne-test,
}
use machserve.ExpertCache.Assign.{touch-IsCache, vacate-IsCache, assign-IsCache, lowest_free-room}

-- What `put` promises.
pub record Placed (c : LruExpertCache) (id : ℕ) (p : Put) (d : LruExpertCache) : Type 0 where
  pub valid : IsCache d
  pub here : slot_of d.slots id ≡ some p.slot
  pub below : p.slot < c.capacity
  pub same_capacity : d.capacity ≡ c.capacity
  pub others : (k : ℕ) → id ≢ k → p.evicted ≢ some k → slot_of d.slots k ≡ slot_of c.slots k
  pub spares : length c.slots < c.capacity → p.evicted ≡ none

pub assigned_slot : (c : LruExpertCache) (id s : ℕ) → slot_of (assign c id s).slots id ≡ some s
assigned_slot c id s = let yes : (id == id) ≡ true = ground arith in rw yes refl

pub assigned_others :
    (c : LruExpertCache) (id s k : ℕ) → id ≢ k → slot_of (assign c id s).slots k ≡ slot_of c.slots k
assigned_others c id s k ne = rw (ne-test id k ne) refl

-- A resident expert stands in the recency list.
pub recent :
    (c : LruExpertCache) (id s : ℕ)
    → IsCache c
    → slot_of c.slots id ≡ some s
    → 0 < occurs id c.recency
recent c id s w at =
    let (named, _) = slot_of-resident c.slots id s at in
    let l = w.listed id in omega (arith, named, l)

-- An expert that left is not resident.
pub vacated :
    (c : LruExpertCache) (id s : ℕ) (rest : List ℕ)
    → IsCache c
    → slot_of c.slots id ≡ some s
    → (k : ℕ) → slot_of c.slots k ≡ none
    → slot_of (forget c.slots id) k ≡ none
vacated c id s rest w at k absent = elim (Bool-cases (id == k)) [
  | inl p ↦
      let same : id ≡ k = ground arith in
      absurd (let both = sym at ∙ ap (slot_of c.slots) same ∙ absent in none-some both)
  | inr p ↦ slot_of-forget c.slots id k (λ e. absurd (ground arith)) ∙ absent
]
  where
    none-some : {n : ℕ} → some n ≡ none → ⊥
    none-some h = cc

module _ (c : LruExpertCache) (w : IsCache c) where
  -- The least recently used expert leaves.
  evict_lru-IsCache :
      0 < length c.slots
      → (id s : ℕ) × (rest : List ℕ) × (evict_lru c
          ≡ returns ((id, s), record c { slots = forget c.slots id; recency = rest }))
        × (slot_of c.slots id ≡ some s)
        × ((k : ℕ) → occurs k c.recency ≡ occurs k (id ∷ rest))
        × (length c.recency ≡ suc (length rest))
  unfolding evict_lru
  evict_lru-IsCache pos = elim (back-cases (pop_back c.recency)) [
    | inl p ↦
        absurd
          (let z = ap length (back_none c.recency p) in let n = w.size in omega (arith, z, n, pos))
    | inr (id, rest, p) ↦
        let (same, size) = pop_back-occurs c.recency id rest p in
        elim (Option-cases (slot_of c.slots id)) [
          | inl q ↦ absurd (
              let gone = slot_of-absent c.slots id q in
              let l = w.listed id in let s = same id in ground (arith, gone, l, s))
          | inr (s, q) ↦ (id, s, rest, rw (p, evict_lru) (rw q refl), q, same, size)
        ]
  ]

  -- Under the invariant and with a capacity above 0 `put` returns a slot below the capacity, which is
  -- the expert's then; the invariant holds again, every other expert that is not the evicted one is where
  -- it was, and none is evicted while there is room.
  pub put-Placed :
      (id : ℕ)
      → 0 < c.capacity
      → (p : Put) × (d : LruExpertCache) × (put c id ≡ returns (p, d)) × Placed c id p d
  unfolding put touch
  put-Placed id pos = elim (Option-cases (slot_of c.slots id)) [
    | inr (s, q) ↦
        let (_, placed) = slot_of-resident c.slots id s q in
        (
          record { slot = s; evicted = none; was_resident = true },
          touch c id,
          rw (q, put) refl,
          record {
            valid = touch-IsCache c w id (recent c id s w q);
            here = q;
            below = w.inside s placed;
            same_capacity = refl;
            others = λ k ne kept. refl;
            spares = λ lt. refl;
          },
        )
    | inl q ↦ elim (Bool-cases (leb c.capacity (length c.slots))) [
      | inl full ↦
          let (v, s, rest, run, at, same, size) = evict_lru-IsCache (ground (arith, full, pos)) in
          let (left, unused, below, room) = vacate-IsCache c w v s rest at same size in
          let e : LruExpertCache = record c { slots = forget c.slots v; recency = rest } in
          let absent = vacated c v s rest w at id q in
          (
            record { slot = s; evicted = some v; was_resident = false },
            assign e id s,
            rw (q, put) (rw full (rw run refl)),
            record {
              valid = assign-IsCache e left id s absent unused below room;
              here = assigned_slot e id s;
              below = below;
              same_capacity = refl;
              others = λ k ne kept.
                  assigned_others e id s k ne
                  ∙ slot_of-forget c.slots v k (λ vk. kept (ap some vk));
              spares = λ lt. absurd (ground (arith, full, lt));
            },
          )
      | inr has_room ↦
          let f = lowest_free (suc (length c.slots)) c.slots 0 in
          let (unused, few) = lowest_free-room c.slots in
          let room : length c.slots < c.capacity = ground (arith, has_room) in
          let below : f < c.capacity = omega (arith, few, room) in
          (
            record { slot = f; evicted = none; was_resident = false },
            assign c id f,
            rw (q, put) (rw has_room refl),
            record {
              valid = assign-IsCache c w id f q unused below room;
              here = assigned_slot c id f;
              below = below;
              same_capacity = refl;
              others = λ k ne kept. assigned_others c id f k ne;
              spares = λ lt. refl;
            },
          )
    ]
  ]
