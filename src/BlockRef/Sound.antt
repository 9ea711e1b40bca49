-- ===== src/BlockRef/Sound.antt =====
-- Handles and slots of kv_block_pool.rs agree: a block with a live handle holds its own occupied
-- slot, and no other slot is occupied.
use machserve.Common.{
  ℕ, zero, suc, ◌+◌, ◌<◌, ◌≡◌, ◌≢◌, ◌⊎◌, inl, inr, true, some, List, [], ◌∷◌, length, get_elem?,
  set, ◌==◌, if◌then◌else◌, arith, get_elem?-set, Bool-cases, returns,
}
use machserve.BlockPool.{is_occupied, num_occupied_slots}
use machserve.BlockPool.Valid.{IsValid}
use machserve.BlockRef.{CacheBlock, Heap}

abbrev pub live : CacheBlock → ℕ
live c = if c.strong == 0 then 0 else 1

abbrev pub count_live : List CacheBlock → ℕ
count_live [] = 0
count_live (c ∷ cs) = live c + count_live cs

pub record IsSound (h : Heap) : Type 0 where
  pub valid : IsValid h.pool
  pub holds :
      (a : ℕ) (c : CacheBlock)
      → get_elem? h.blocks a ≡ some c
      → 0 < c.strong
      → is_occupied h.pool c.location ≡ returns true
  pub own :
      (a b : ℕ) (c d : CacheBlock)
      → get_elem? h.blocks a ≡ some c
      → get_elem? h.blocks b ≡ some d
      → 0 < c.strong
      → 0 < d.strong
      → c.location ≡ d.location
      → a ≡ b
  pub no_leak : num_occupied_slots h.pool ≡ count_live h.blocks

pub count_live-set :
    (cs : List CacheBlock) (a : ℕ) (c d : CacheBlock)
    → get_elem? cs a ≡ some c
    → count_live (set cs a d) + live c ≡ count_live cs + live d
count_live-set [] a c d h = cc
count_live-set (x ∷ cs) zero c d h = ground arith
count_live-set (x ∷ cs) (suc a) c d h = omega (arith, count_live-set cs a c d h)

-- What is read after a write: the written block at `a`, and the old one elsewhere.
pub get_elem?-set_cases :
    (cs : List CacheBlock) (a b : ℕ) (v d : CacheBlock)
    → a < length cs
    → get_elem? (set cs a v) b ≡ some d
    → ((a ≡ b) × (d ≡ v)) ⊎ ((a ≢ b) × (get_elem? cs b ≡ some d))
get_elem?-set_cases cs a b v d lt at = elim (Bool-cases (a == b)) [
  | inl e ↦ inl (ground arith, ground (arith, get_elem?-set cs a b v lt))
  | inr e ↦ inr (λ s. ground arith, ground (arith, get_elem?-set cs a b v lt))
]
