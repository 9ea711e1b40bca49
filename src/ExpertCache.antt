-- ===== src/ExpertCache.antt =====
-- crates/mach-model/src/moe_backend.rs: which experts have a GPU slot. The hash map lists each resident
-- expert with its slot, each once; a set of experts is the list of its members.
pub mod Slot
pub mod Assign
pub mod Place
pub mod Plan
use machserve.Common.{
  ℕ, zero, suc, ◌+◌, ◌-◌, ◌≡◌, Bool, true, false, ◌||◌, Option, none, some, List, [], ◌∷◌, ◌++◌,
  map, length, ltb, leb, ◌==◌, if◌then◌else◌, Outcome, returns, panics, ◌>>=◌,
}

pub data Placement : Type 0 where
  gpu : ℕ → Placement
  cpu : Placement

pub record Fetch : Type 0 where
  pub id : ℕ
  pub slot : ℕ

pub record StepPlan : Type 0 where
  pub placements : List Placement
  pub fetches : List Fetch
  pub evictions : List ℕ

pub record Put : Type 0 where
  pub slot : ℕ
  pub evicted : Option ℕ
  pub was_resident : Bool

pub record LruExpertCache : Type 0 where
  pub capacity : ℕ
  pub slots : List (ℕ × ℕ)
  pub recency : List ℕ

unfoldable pub new : ℕ → LruExpertCache
new capacity = record { capacity = capacity; slots = []; recency = [] }

abbrev pub slot_of : List (ℕ × ℕ) → ℕ → Option ℕ
slot_of [] id = none
slot_of ((k, s) ∷ slots) id = if k == id then some s else slot_of slots id

abbrev pub forget : List (ℕ × ℕ) → ℕ → List (ℕ × ℕ)
forget [] id = []
forget ((k, s) ∷ slots) id = let rest = forget slots id in if k == id then slots else (k, s) ∷ rest

-- `slots.values().any(|&s| s == slot)`.
abbrev pub in_use : List (ℕ × ℕ) → ℕ → Bool
in_use [] slot = false
in_use ((_, s) ∷ slots) slot = (s == slot) || in_use slots slot

abbrev pub member : List ℕ → ℕ → Bool
member [] id = false
member (x ∷ xs) id = (x == id) || member xs id

unfoldable pub len : LruExpertCache → ℕ
len c = length c.slots

unfoldable pub contains : LruExpertCache → ℕ → Bool
contains c id = elim (slot_of c.slots id) [ none ↦ false | some _ ↦ true ]

-- The first occurrence is taken out.
abbrev pub remove_first : List ℕ → ℕ → List ℕ
remove_first [] id = []
remove_first (x ∷ xs) id = let rest = remove_first xs id in if x == id then xs else x ∷ rest

unfoldable pub touch : LruExpertCache → ℕ → LruExpertCache
touch c id = record c { recency = id ∷ remove_first c.recency id }

unfoldable pub get : LruExpertCache → ℕ → Option ℕ × LruExpertCache
get c id = elim (slot_of c.slots id) [ none ↦ (none, c) | some slot ↦ (some slot, touch c id) ]

-- The back of the list and what is before it.
abbrev pub pop_back : List ℕ → Option (ℕ × List ℕ)
pop_back [] = none
pop_back (x ∷ xs) = elim (pop_back xs) [
  | none ↦ some (x, [])
  | some (back, rest) ↦ some (back, x ∷ rest)
]

unfoldable pub evict_lru : LruExpertCache → Outcome ((ℕ × ℕ) × LruExpertCache)
evict_lru c = elim (pop_back c.recency) [
  | none ↦ panics
  | some (id, rest) ↦ elim (slot_of c.slots id) [
    | none ↦ panics
    | some slot ↦ returns ((id, slot), record c { slots = forget c.slots id; recency = rest })
  ]
]

-- The lowest slot from `slot` on that no expert has; a fuel of one more than the experts is enough.
unfoldable pub lowest_free : ℕ → List (ℕ × ℕ) → ℕ → ℕ
lowest_free zero slots slot = slot
lowest_free (suc fuel) slots slot =
    let next = lowest_free fuel slots (slot + 1) in if in_use slots slot then next else slot

-- A new expert gets the slot and comes to the front.
abbrev pub assign : LruExpertCache → ℕ → ℕ → LruExpertCache
assign c id slot = record c { slots = (id, slot) ∷ c.slots; recency = id ∷ c.recency }

unfoldable pub put : LruExpertCache → ℕ → Outcome (Put × LruExpertCache)
put c id = elim (slot_of c.slots id) [
  | some slot ↦ returns (record { slot = slot; evicted = none; was_resident = true }, touch c id)
  | none ↦ elim (leb c.capacity (length c.slots)) [
    | true ↦ (do
      ((evicted, slot), c') ← evict_lru c
      returns
          (record { slot = slot; evicted = some evicted; was_resident = false }, assign c' id slot))
    | false ↦
        let slot = lowest_free (suc (length c.slots)) c.slots 0 in
        returns (record { slot = slot; evicted = none; was_resident = false }, assign c id slot)
  ]
]

-- The last expert that is not in `routed`, and the others.
abbrev pub last_outside : List ℕ → List ℕ → Option (ℕ × List ℕ)
last_outside routed [] = none
last_outside routed (x ∷ xs) = elim (last_outside routed xs) [
  | some (id, rest) ↦ some (id, x ∷ rest)
  | none ↦ if member routed x then none else some (x, xs)
]

unfoldable pub evict_lru_not_in : LruExpertCache → List ℕ → Option (ℕ × ℕ) × LruExpertCache
evict_lru_not_in c routed = elim (last_outside routed c.recency) [
  | none ↦ (none, c)
  | some (id, rest) ↦ elim (slot_of c.slots id) [
    | none ↦ (none, record c { recency = rest })
    | some slot ↦ (some (id, slot), record c { slots = forget c.slots id; recency = rest })
  ]
]

-- What a loop adds to the plan for one expert.
pub record Decision : Type 0 where
  pub placement : Placement
  pub fetches : List Fetch
  pub evictions : List ℕ

abbrev pub resident_at : ℕ → Decision
resident_at slot = record { placement = gpu slot; fetches = []; evictions = [] }

abbrev pub fetched_at : ℕ → ℕ → List ℕ → Decision
fetched_at id slot evictions = record {
  placement = gpu slot;
  fetches = record { id = id; slot = slot } ∷ [];
  evictions = evictions;
}

abbrev pub on_cpu : Decision
on_cpu = record { placement = cpu; fetches = []; evictions = [] }

abbrev pub add_decision : Decision → StepPlan → StepPlan
add_decision d p = record {
  placements = d.placement ∷ p.placements;
  fetches = d.fetches ++ p.fetches;
  evictions = d.evictions ++ p.evictions;
}

-- The loop of a plan over the routed experts.
unfoldable pub plan_each :
    {St : Type 0} → (St → ℕ → Outcome (Decision × St)) → St → List ℕ → Outcome (StepPlan × St)
plan_each one st [] = returns (record { placements = []; fetches = []; evictions = [] }, st)
plan_each one st (id ∷ ids) = do
  (d, st') ← one st id
  (p, st'') ← plan_each one st' ids
  returns (add_decision d p, st'')

abbrev pub evictions_of : Option ℕ → List ℕ
evictions_of none = []
evictions_of (some id) = id ∷ []

-- A miss of `plan`, with the budget that is left.
abbrev pub plan_miss : LruExpertCache → ℕ → ℕ → Outcome (Decision × (LruExpertCache × ℕ))
plan_miss c budget id = elim (ltb 0 budget) [
  | true ↦ (do
    (p, c') ← put c id
    returns (fetched_at id p.slot (evictions_of p.evicted), (c', budget - 1)))
  | false ↦ returns (on_cpu, (c, budget))
]

abbrev pub plan_found :
    ℕ → ℕ → Option ℕ × LruExpertCache → Outcome (Decision × (LruExpertCache × ℕ))
plan_found budget id (some slot, c) = returns (resident_at slot, (c, budget))
plan_found budget id (none, c) = plan_miss c budget id

unfoldable pub plan_one : LruExpertCache × ℕ → ℕ → Outcome (Decision × (LruExpertCache × ℕ))
plan_one (c, budget) id = plan_found budget id (get c id)

unfoldable pub plan : LruExpertCache → List ℕ → ℕ → Outcome (StepPlan × LruExpertCache)
plan c routed gpu_fetch_budget = do
  (p, (c', _)) ← plan_each plan_one (c, gpu_fetch_budget) routed
  returns (p, c')

abbrev pub step_found : ℕ → Option ℕ × LruExpertCache → Outcome (Decision × LruExpertCache)
step_found id (some slot, c) = returns (resident_at slot, c)
step_found id (none, c) = elim (ltb (length c.slots) c.capacity) [
  | true ↦ (do (p, c') ← put c id; returns (fetched_at id p.slot [], c'))
  | false ↦ returns (on_cpu, c)
]

unfoldable pub step_one : LruExpertCache → ℕ → Outcome (Decision × LruExpertCache)
step_one c id = step_found id (get c id)

unfoldable pub plan_step : LruExpertCache → List ℕ → Outcome (StepPlan × LruExpertCache)
plan_step c routed = plan_each step_one c routed

abbrev pub lru_evicted : ℕ → Option (ℕ × ℕ) × LruExpertCache → Outcome (Decision × LruExpertCache)
lru_evicted id (some (evicted, slot), c) =
    returns (fetched_at id slot (evicted ∷ []), assign c id slot)
lru_evicted id (none, c) = returns (on_cpu, c)

abbrev pub lru_found : List ℕ → ℕ → Option ℕ × LruExpertCache → Outcome (Decision × LruExpertCache)
lru_found routed id (some slot, c) = returns (resident_at slot, c)
lru_found routed id (none, c) = elim (ltb (length c.slots) c.capacity) [
  | true ↦ (do (p, c') ← put c id; returns (fetched_at id p.slot [], c'))
  | false ↦ lru_evicted id (evict_lru_not_in c routed)
]

unfoldable pub lru_one : List ℕ → LruExpertCache → ℕ → Outcome (Decision × LruExpertCache)
lru_one routed c id = lru_found routed id (get c id)

unfoldable pub plan_lru : LruExpertCache → List ℕ → Outcome (StepPlan × LruExpertCache)
plan_lru c routed = plan_each (lru_one routed) c routed
