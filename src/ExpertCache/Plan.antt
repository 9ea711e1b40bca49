-- ===== src/ExpertCache/Plan.antt =====
-- The plans of moe_backend.rs that do not evict within a step: what is placed on the GPU stays there.
use machserve.Common.{
  ℕ, ◌<◌, ◌≡◌, ◌≢◌, refl, sym, ap, ◌∙◌, inl, inr, true, none, some, List, [], ◌∷◌, length, ltb,
  ◌==◌, arith, Bool-cases, Option-cases, All, All-map, Outcome, returns,
}
use machserve.ExpertCache.{
  Placement, gpu, cpu, StepPlan, Put, LruExpertCache, Decision, slot_of, forget, member, get, touch,
  put, assign, evict_lru_not_in, last_outside, plan_each, step_one, step_found, plan_step, lru_one,
  lru_found, plan_lru, resident_at, fetched_at, on_cpu, add_decision,
}
use machserve.ExpertCache.Slot.{
  IsCache, slot_of-absent, slot_of-forget, back-cases, last_outside-occurs,
}
use machserve.ExpertCache.Assign.{touch-IsCache, vacate-IsCache, assign-IsCache}
use machserve.ExpertCache.Place.{put-Placed, assigned_slot, assigned_others, recent, vacated}

-- The expert is where its placement says.
abbrev pub Sits : LruExpertCache → ℕ → Placement → Type 0
Sits c id (gpu s) = slot_of c.slots id ≡ some s
Sits c id cpu = Unit

abbrev pub AllSit : LruExpertCache → List ℕ → List Placement → Type 0
AllSit c [] [] = Unit
AllSit c (id ∷ ids) (p ∷ ps) = Sits c id p × AllSit c ids ps
AllSit c _ _ = ⊥

-- The experts of `K` that are resident keep their slots.
abbrev pub Kept : (ℕ → Type 0) → LruExpertCache → LruExpertCache → Type 0
Kept K c d = (k s : ℕ) → K k → slot_of c.slots k ≡ some s → slot_of d.slots k ≡ some s

record Decided (K : ℕ → Type 0) (c : LruExpertCache) (id : ℕ) (p : Placement) (d : LruExpertCache)
    : Type 0 where
  valid : IsCache d
  sits : Sits d id p
  kept : Kept K c d

-- A loop body that decides each expert of `K`.
abbrev Decides : (ℕ → Type 0) → (LruExpertCache → ℕ → Outcome (Decision × LruExpertCache)) → Type 0
Decides K one =
    (c : LruExpertCache) (id : ℕ)
    → IsCache c
    → K id
    → (x : Decision) × (d : LruExpertCache) × (one c id ≡ returns (x, d))
      × Decided K c id x.placement d

differ :
    (c : LruExpertCache) (id k s : ℕ)
    → slot_of c.slots id ≡ none
    → slot_of c.slots k ≡ some s
    → id ≢ k
differ c id k s absent at same = let both = sym absent ∙ ap (slot_of c.slots) same ∙ at in cc

-- A resident expert.
found_one :
    (K : ℕ → Type 0) (c : LruExpertCache) (id s : ℕ)
    → IsCache c
    → slot_of c.slots id ≡ some s
    → Decided K c id (gpu s) (touch c id)
unfolding touch
found_one K c id s w q = record {
  valid = touch-IsCache c w id (recent c id s w q);
  sits = q;
  kept = λ k t _ at. at;
}

-- A miss while there is room.
fetched_one :
    (K : ℕ → Type 0) (c : LruExpertCache) (id : ℕ)
    → IsCache c
    → slot_of c.slots id ≡ none
    → length c.slots < c.capacity
    → (p : Put) × (d : LruExpertCache) × (put c id ≡ returns (p, d)) × Decided K c id (gpu p.slot) d
fetched_one K c id w q room =
    let (p, d, run, r) = put-Placed c w id (omega (arith, room)) in
    (
      p,
      d,
      run,
      record {
        valid = r.valid;
        sits = r.here;
        kept = λ k s _ at.
            r.others k (differ c id k s q at)
              (λ e. let n = r.spares room in let both = sym n ∙ e in cc)
            ∙ at;
      },
    )

step_one-Decides : (K : ℕ → Type 0) → Decides K step_one
unfolding step_one get
step_one-Decides K c id w _ = elim (Option-cases (slot_of c.slots id)) [
  | inr (s, q) ↦ (resident_at s, touch c id, rw (q, get) refl, found_one K c id s w q)
  | inl q ↦ elim (Bool-cases (ltb (length c.slots) c.capacity)) [
    | inl p ↦
        let (r, d, run, z) = fetched_one K c id w q (ground arith) in
        (fetched_at id r.slot [], d, rw (q, get) (rw (p, step_found) (rw run refl)), z)
    | inr p ↦ (
      on_cpu,
      c,
      rw (q, get) (rw (p, step_found) refl),
      record { valid = w; sits = tt; kept = λ k s _ at. at },
    )
  ]
]

abbrev Routed : List ℕ → ℕ → Type 0
Routed routed k = member routed k ≡ true

lru_one-Decides : (routed : List ℕ) → Decides (Routed routed) (lru_one routed)
unfolding lru_one get evict_lru_not_in
lru_one-Decides routed c id w _ = elim (Option-cases (slot_of c.slots id)) [
  | inr (s, q) ↦ (resident_at s, touch c id, rw (q, get) refl, found_one (Routed routed) c id s w q)
  | inl q ↦ elim (Bool-cases (ltb (length c.slots) c.capacity)) [
    | inl p ↦
        let (r, d, run, z) = fetched_one (Routed routed) c id w q (ground arith) in
        (fetched_at id r.slot [], d, rw (q, get) (rw (p, lru_found) (rw run refl)), z)
    | inr p ↦ elim (back-cases (last_outside routed c.recency)) [
      | inl n ↦ (
        on_cpu,
        c,
        rw (q, get) (rw (p, lru_found) (rw (n, evict_lru_not_in) refl)),
        record { valid = w; sits = tt; kept = λ k s _ at. at },
      )
      | inr (v, rest, n) ↦
          let (same, size, out) = last_outside-occurs routed c.recency v rest n in
          elim (Option-cases (slot_of c.slots v)) [
            | inl m ↦ absurd (
                let gone = slot_of-absent c.slots v m in
                let l = w.listed v in let s = same v in ground (arith, gone, l, s))
            | inr (s, m) ↦
                let (left, unused, below, room) = vacate-IsCache c w v s rest m same size in
                let e : LruExpertCache = record c { slots = forget c.slots v; recency = rest } in
                (
                  fetched_at id s (v ∷ []),
                  assign e id s,
                  rw (q, get) (rw (p, lru_found) (rw (n, evict_lru_not_in) (rw m refl))),
                  record {
                    valid =
                        assign-IsCache e left id s (vacated c v s rest w m id q) unused below room;
                    sits = assigned_slot e id s;
                    kept = λ k t in_step at.
                        assigned_others e id s k (differ c id k t q at)
                        ∙ slot_of-forget c.slots v k
                            (λ vk. let both = sym out ∙ ap (member routed) vk ∙ in_step in cc)
                        ∙ at;
                  },
                )
          ]
    ]
  ]
]

still :
    (K : ℕ → Type 0) (c d : LruExpertCache) (id : ℕ) (p : Placement)
    → Kept K c d
    → K id
    → Sits c id p
    → Sits d id p
still K c d id (gpu s) kept k at = kept id s k at
still K c d id cpu kept k at = tt

plan_each-AllSit :
    (K : ℕ → Type 0) (one : LruExpertCache → ℕ → Outcome (Decision × LruExpertCache))
    → Decides K one
    → (ids : List ℕ) (c : LruExpertCache) → IsCache c
    → All K ids
    → (p : StepPlan) × (d : LruExpertCache) × (plan_each one c ids ≡ returns (p, d))
      × IsCache d
      × Kept K c d
      × AllSit d ids p.placements
unfolding plan_each
plan_each-AllSit K one decides [] c w all =
    (record { placements = []; fetches = []; evictions = [] }, c, refl, w, λ k s _ at. at, tt)
plan_each-AllSit K one decides (id ∷ ids) c w all =
    let (x, m, run, z) = decides c id w all.0 in
    let (p, d, rest, v, kept, sit) = plan_each-AllSit K one decides ids m z.valid all.1 in
    (
      add_decision x p,
      d,
      rw run (rw rest refl),
      v,
      λ k s in_step at. kept k s in_step (z.kept k s in_step at),
      (still K m d id x.placement kept all.0 z.sits, sit),
    )

everything : (ids : List ℕ) → All (λ _. Unit {0}) ids
everything [] = tt
everything (id ∷ ids) = (tt, everything ids)

routed_members : (ids : List ℕ) → All (λ k. member ids k ≡ true) ids
routed_members [] = tt
routed_members (id ∷ ids) = (
  let yes : (id == id) ≡ true = ground arith in rw yes refl,
  All-map (λ k. member ids k ≡ true) (λ k. member (id ∷ ids) k ≡ true)
      (λ k m. elim (Bool-cases (id == k)) [ inl p ↦ rw p refl | inr p ↦ rw p m ]) ids
      (routed_members ids),
)

-- The same of `plan_step`, for all experts.
pub plan_step-AllSit :
    (c : LruExpertCache) (routed : List ℕ)
    → IsCache c
    → (p : StepPlan) × (d : LruExpertCache) × (plan_step c routed ≡ returns (p, d))
      × IsCache d
      × Kept (λ _. Unit {0}) c d
      × AllSit d routed p.placements
unfolding plan_step
plan_step-AllSit c routed w =
    plan_each-AllSit (λ _. Unit {0}) step_one (step_one-Decides (λ _. Unit {0})) routed c w
      (everything routed)

-- Under the invariant `plan_lru` returns and the invariant holds again; a routed expert that is resident
-- keeps its slot, and at the end of the step each routed expert that was placed on the GPU is resident
-- at the slot of its placement.
pub plan_lru-AllSit :
    (c : LruExpertCache) (routed : List ℕ)
    → IsCache c
    → (p : StepPlan) × (d : LruExpertCache) × (plan_lru c routed ≡ returns (p, d))
      × IsCache d
      × Kept (λ k. member routed k ≡ true) c d
      × AllSit d routed p.placements
unfolding plan_lru
plan_lru-AllSit c routed w =
    plan_each-AllSit (λ k. member routed k ≡ true) (lru_one routed) (lru_one-Decides routed) routed
      c w (routed_members routed)
