-- ===== src/BlockPool/Valid.antt =====
-- The invariant of the block pool in kv_block_pool.rs.
use machserve.Common.{
  occurs, ℕ, zero, suc, ◌+◌, ◌-◌, ◌≤◌, ◌<◌, ◌≡◌, ◌≢◌, refl, sym, ap, ◌∙◌, ◌⊎◌, inl, inr, Bool, true,
  false, Option, none, some, List, [], ◌∷◌, length, get_elem?, set, replicate, ltb, leb, ◌==◌,
  if◌then◌else◌, arith, get_elem?-set, get_elem?-lt, Bool-cases, ◌&&◌, lt→ltb, index-get_elem?,
  get_elem?-index, returns,
}
use machserve.BlockPool.{
  CacheBlockLocation, LcmBlock, BlockPool, free_block, ids_from, new, lcm_block, is_true_at,
  sum_occupied,
}

abbrev pub count_true : List Bool → ℕ
count_true [] = 0
count_true (true ∷ bs) = suc (count_true bs)
count_true (false ∷ bs) = count_true bs

abbrev pub IsFree : LcmBlock → Type 0
IsFree b = (b.occupied_count ≡ 0) × (b.bound_group ≡ none) × (b.occupancy ≡ [])

abbrev pub IsBound : LcmBlock → Type 0
IsBound b =
    (0 < b.occupied_count) × (b.occupied_count ≡ count_true b.occupancy) × (b.bound_group ≢ none)

abbrev pub mark : LcmBlock → ℕ
mark b = if b.occupied_count == 0 then 1 else 0

abbrev pub free_mark : Option LcmBlock → ℕ
free_mark none = 0
free_mark (some b) = mark b

abbrev pub count_free : List LcmBlock → ℕ
count_free [] = 0
count_free (b ∷ bs) = mark b + count_free bs

-- Each parent is free or bound with its occupied slots counted, and the queue holds each free
-- parent once and nothing else.
pub record IsValid (p : BlockPool) : Type 0 where
  pub parents : (i : ℕ) (b : LcmBlock) → get_elem? p.lcm_blocks i ≡ some b → IsFree b ⊎ IsBound b
  pub queue : (i : ℕ) → occurs (suc i) p.free_parent_ids ≡ free_mark (get_elem? p.lcm_blocks i)
  pub no_null_page : occurs 0 p.free_parent_ids ≡ 0
  pub queue_len : length p.free_parent_ids ≡ count_free p.lcm_blocks

-- A write to one parent, seen by each count.
pub count_free-set :
    (bs : List LcmBlock) (i : ℕ) (b v : LcmBlock)
    → get_elem? bs i ≡ some b
    → count_free (set bs i v) + mark b ≡ count_free bs + mark v
count_free-set [] i b v h = cc
count_free-set (x ∷ bs) zero b v h = ground arith
count_free-set (x ∷ bs) (suc i) b v h = omega (arith, count_free-set bs i b v h)

pub sum_occupied-set :
    (bs : List LcmBlock) (i : ℕ) (b v : LcmBlock)
    → get_elem? bs i ≡ some b
    → sum_occupied (set bs i v) + b.occupied_count ≡ sum_occupied bs + v.occupied_count
sum_occupied-set [] i b v h = cc
sum_occupied-set (x ∷ bs) zero b v h = ground arith
sum_occupied-set (x ∷ bs) (suc i) b v h = omega (arith, sum_occupied-set bs i b v h)

pub count_free-le :
    (bs : List LcmBlock) (i : ℕ) (b : LcmBlock)
    → get_elem? bs i ≡ some b
    → count_free bs + 1 ≤ length bs + mark b
count_free-le [] i b h = cc
count_free-le (x ∷ bs) zero b h = ground (arith, count_free-bound bs)
  where
    count_free-bound : (bs : List LcmBlock) → count_free bs ≤ length bs
    count_free-bound [] = omega arith
    count_free-bound (x ∷ bs) = ground (arith, count_free-bound bs)
count_free-le (x ∷ bs) (suc i) b h = ground (arith, count_free-le bs i b h)

pub count_true-clear :
    (bs : List Bool) (i : ℕ)
    → is_true_at bs i ≡ true
    → count_true (set bs i false) + 1 ≡ count_true bs
count_true-clear [] i h = cc
count_true-clear (b ∷ bs) zero h = ground arith
count_true-clear (true ∷ bs) (suc i) h = omega (arith, count_true-clear bs i h)
count_true-clear (false ∷ bs) (suc i) h = count_true-clear bs i h

pub count_true-mark :
    (bs : List Bool) (i : ℕ)
    → is_true_at bs i ≡ false
    → i < length bs
    → count_true (set bs i true) ≡ count_true bs + 1
count_true-mark [] i h lt = elim lt [ ]
count_true-mark (b ∷ bs) zero h lt = ground arith
count_true-mark (true ∷ bs) (suc i) h lt = omega (arith, count_true-mark bs i h (omega arith))
count_true-mark (false ∷ bs) (suc i) h lt = omega (arith, count_true-mark bs i h (omega arith))

-- The pool after a write to parent `i` and a change of the queue that fits it is valid.
module _ (p : BlockPool) (valid : IsValid p) (i : ℕ) (b v : LcmBlock) (free : List ℕ) where
  pub set-IsValid :
      get_elem? p.lcm_blocks i ≡ some b
      → IsFree v ⊎ IsBound v
      → ((j : ℕ)
          → occurs (suc j) free + (if i == j then mark b else 0)
            ≡ occurs (suc j) p.free_parent_ids + (if i == j then mark v else 0))
      → occurs 0 free ≡ 0
      → length free + mark b ≡ length p.free_parent_ids + mark v
      → IsValid (record { lcm_blocks = set p.lcm_blocks i v; free_parent_ids = free })
  set-IsValid at good same_ids no_null same_len = record {
    parents = λ j c h. elim (Bool-cases (i == j)) [
      | inl e ↦ let g = sym (get_elem?-set p.lcm_blocks i j v lt) ∙ h in ground (arith)
      | inr e ↦ valid.parents j c (ground (arith, get_elem?-set p.lcm_blocks i j v lt))
    ];
    queue = λ j. ground (arith, get_elem?-set p.lcm_blocks i j v lt, same_ids j, valid.queue j);
    no_null_page = no_null;
    queue_len = omega (arith, same_len, valid.queue_len, count_free-set p.lcm_blocks i b v at);
  }
    where
      lt : i < length p.lcm_blocks
      lt = get_elem?-lt p.lcm_blocks i at

occurs-ids_from :
    (id start n : ℕ)
    → occurs id (ids_from start n) ≡ (if leb start id && ltb id (start + n) then 1 else 0)
occurs-ids_from id start zero = ground arith
occurs-ids_from id start (suc n) = ground (arith, occurs-ids_from id (suc start) n)

pub get_elem?-replicate :
    (n i : ℕ) → get_elem? (replicate n free_block) i ≡ (if ltb i n then some free_block else none)
get_elem?-replicate zero i = ground arith
get_elem?-replicate (suc n) zero = ground arith
get_elem?-replicate (suc n) (suc i) = get_elem?-replicate n i ∙ ground arith

count_free-replicate : (n : ℕ) → count_free (replicate n free_block) ≡ n
count_free-replicate zero = refl
count_free-replicate (suc n) = omega (arith, count_free-replicate n)

length-ids_from : (start n : ℕ) → length (ids_from start n) ≡ n
length-ids_from start zero = refl
length-ids_from start (suc n) = ap suc (length-ids_from (suc start) n)

pub new-IsValid : (n : ℕ) → IsValid (new n)
unfolding new
new-IsValid n = record {
  parents = λ i b h. inl (ground (arith, get_elem?-replicate n i));
  queue = λ i. ground (arith, get_elem?-replicate n i, occurs-ids_from (suc i) 1 n);
  no_null_page = ground (arith, occurs-ids_from 0 1 n);
  queue_len = length-ids_from 1 n ∙ sym (count_free-replicate n);
}

-- The location of slot `slot` in the parent at index `i`.
abbrev pub location : ℕ → ℕ → CacheBlockLocation
location i slot = record { lcm_block_id = suc i; slot_index = slot }

pub lcm_block-index :
    (p : BlockPool) (i : ℕ) (b : LcmBlock)
    → get_elem? p.lcm_blocks i ≡ some b
    → lcm_block p (suc i) ≡ returns b
unfolding lcm_block
lcm_block-index p i b h =
    let lt = get_elem?-lt p.lcm_blocks i h in
    let e : suc i - 1 ≡ i = omega arith in
    let f = lt→ltb 0 (suc i) (omega arith) in
    let g : leb (suc i) (length p.lcm_blocks) ≡ true = ground arith in
    rw (f, g, e) (index-get_elem? p.lcm_blocks i h)

pub lcm_block-inv :
    (p : BlockPool) (id : ℕ) (b : LcmBlock)
    → lcm_block p id ≡ returns b
    → (i : ℕ) × (id ≡ suc i) × (get_elem? p.lcm_blocks i ≡ some b)
unfolding lcm_block
lcm_block-inv p zero b h = cc
lcm_block-inv p (suc i) b h =
    let e : suc i - 1 ≡ i = omega arith in
    let f = lt→ltb 0 (suc i) (omega arith) in
    elim (Bool-cases (leb (suc i) (length p.lcm_blocks))) [
      | inl g ↦ (i, refl, get_elem?-index p.lcm_blocks i (rw (f, g, e) at h))
      | inr g ↦ absurd (ground arith)
    ]
