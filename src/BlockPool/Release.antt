-- ===== src/BlockPool/Release.antt =====
-- BlockPool::release of kv_block_pool.rs.
pub mod Whole
use machserve.Common.{
  occurs-append, occurs, ℕ, zero, suc, ◌+◌, ◌-◌, ◌≤◌, ◌<◌, ◌≡◌, ◌≢◌, refl, sym, ap, subst, ◌∙◌, ◌⊎◌,
  inl, inr, Bool, true, false, ◌&&◌, Option, none, some, List, [], ◌∷◌, ◌++◌, length, get_elem?,
  set, replicate, ltb, leb, ◌==◌, if◌then◌else◌, arith, get_elem?-set, get_elem?-lt, lt→ltb,
  length-append, index-get_elem?, Bool-cases, Option-cases, Outcome-cases, Outcome, returns, panics,
  assert, index, ◌>>=◌, ◌>>◌,
}
use machserve.BlockPool.{
  CacheBlockLocation, LcmBlock, BlockPool, lcm_block, is_true_at, is_occupied, sum_occupied,
  num_occupied_slots, unbind_if_empty, release,
}
use machserve.BlockPool.Valid.{
  IsValid, IsFree, IsBound, count_true, count_true-clear, count_free-le, sum_occupied-set,
  set-IsValid, location, lcm_block-index, lcm_block-inv, mark, count_free,
}

-- The slot is cleared.
abbrev pub cleared : LcmBlock → ℕ → LcmBlock
cleared b slot = record b {
  occupancy = set b.occupancy slot false;
  occupied_count = b.occupied_count - 1;
}

is_true_at-lt : (bs : List Bool) (i : ℕ) → is_true_at bs i ≡ true → i < length bs
is_true_at-lt [] i h = cc
is_true_at-lt (b ∷ bs) zero h = omega arith
is_true_at-lt (b ∷ bs) (suc i) h = omega (arith, is_true_at-lt bs i h)

count_true-pos : (bs : List Bool) (i : ℕ) → is_true_at bs i ≡ true → 0 < count_true bs
count_true-pos bs i h = omega (arith, count_true-clear bs i h)

pub IsBound-at :
    (p : BlockPool) (i slot : ℕ) (b : LcmBlock)
    → IsValid p
    → get_elem? p.lcm_blocks i ≡ some b
    → is_true_at b.occupancy slot ≡ true
    → IsBound b
IsBound-at p i slot b valid at held = elim (valid.parents i b at) [
  | inl free ↦ absurd (ground arith)
  | inr bound ↦ bound
]

-- The asserts of `release` hold at an occupied slot.
pub release-unbind :
    (p : BlockPool) (i slot : ℕ) (b : LcmBlock)
    → IsValid p
    → get_elem? p.lcm_blocks i ≡ some b
    → is_true_at b.occupancy slot ≡ true
    → release p (location i slot) ≡ unbind_if_empty p (suc i) (cleared b slot)
unfolding release
release-unbind p i slot b valid at held =
    let e : suc i - 1 ≡ i = omega arith in
    let f = lt→ltb 0 (suc i) (omega arith) in
    let lt = get_elem?-lt p.lcm_blocks i at in
    let g : leb (suc i) (length p.lcm_blocks) ≡ true = ground arith in
    let k = lt→ltb slot (length b.occupancy) (is_true_at-lt b.occupancy slot held) in
    let bound = IsBound-at p i slot b valid at held in
    let l = lt→ltb 0 b.occupied_count bound.0 in
    rw (f, g, e, index-get_elem? p.lcm_blocks i at) (rw (k, held, l))

-- The pool after a slot is cleared.
pub after : BlockPool → ℕ → LcmBlock → BlockPool
after p i c =
    if c.occupied_count == 0
    then record {
      lcm_blocks = set p.lcm_blocks i (record c { bound_group = none; occupancy = [] });
      free_parent_ids = p.free_parent_ids ++ suc i ∷ [];
    }
    else record p { lcm_blocks = set p.lcm_blocks i c }

pub unbind_if_empty-after :
    (p : BlockPool) (i : ℕ) (b c : LcmBlock)
    → IsValid p
    → get_elem? p.lcm_blocks i ≡ some b
    → 0 < b.occupied_count
    → unbind_if_empty p (suc i) c ≡ returns (after p i c)
unfolding unbind_if_empty after
unbind_if_empty-after p i b c valid at pos =
    let e : suc i - 1 ≡ i = omega arith in
    let room : length p.free_parent_ids < length p.lcm_blocks =
      ground (arith, valid.queue_len, count_free-le p.lcm_blocks i b at) in
    rw (e, lt→ltb _ _ room)
      (elim (Bool-cases (c.occupied_count == 0)) [ inl z ↦ rw z | inr z ↦ rw z ])

pub after-IsValid :
    (p : BlockPool) (i slot : ℕ) (b : LcmBlock)
    → IsValid p
    → get_elem? p.lcm_blocks i ≡ some b
    → is_true_at b.occupancy slot ≡ true
    → IsValid (after p i (cleared b slot))
unfolding after
after-IsValid p i slot b valid at held =
    let bound = IsBound-at p i slot b valid at held in
    let counted = count_true-clear b.occupancy slot held in
    elim (Bool-cases (b.occupied_count - 1 == 0)) [
      | inl z ↦ rw z (
          set-IsValid p valid i b _ _ at (inl (ground arith, refl, refl))
            (λ j. ground (arith, occurs-append (suc j) p.free_parent_ids (suc i ∷ [])))
            (ground (arith, occurs-append 0 p.free_parent_ids (suc i ∷ []), valid.no_null_page))
            (ground (arith, length-append p.free_parent_ids (suc i ∷ []))))
      | inr z ↦ rw z (
          set-IsValid p valid i b _ _ at (inr (ground arith, ground arith, bound.2))
            (λ j. ground arith) valid.no_null_page (ground arith))
    ]

pub is_true_at-set :
    (bs : List Bool) (i j : ℕ) (v : Bool)
    → i < length bs
    → is_true_at (set bs i v) j ≡ (if i == j then v else is_true_at bs j)
is_true_at-set [] i j v h = elim h [ ]
is_true_at-set (b ∷ bs) zero zero v h = refl
is_true_at-set (b ∷ bs) zero (suc j) v h = ground arith
is_true_at-set (b ∷ bs) (suc i) zero v h = ground arith
is_true_at-set (b ∷ bs) (suc i) (suc j) v h = is_true_at-set bs i j v (omega arith) ∙ ground arith

none_true : (bs : List Bool) (i : ℕ) → count_true bs ≡ 0 → is_true_at bs i ≡ false
none_true bs i h = elim (Bool-cases (is_true_at bs i)) [
  | inl t ↦ absurd (omega (arith, count_true-pos bs i t))
  | inr f ↦ f
]

-- What a pool says of a slot.
abbrev pub slot_of : Option LcmBlock → ℕ → Outcome Bool
slot_of none slot = panics
slot_of (some b) slot = returns (is_true_at b.occupancy slot)

pub is_occupied-location :
    (p : BlockPool) (i slot : ℕ)
    → is_occupied p (location i slot) ≡ slot_of (get_elem? p.lcm_blocks i) slot
unfolding is_occupied
is_occupied-location p i slot = elim (Outcome-cases (lcm_block p (suc i))) [
  | inl (b, e) ↦
      let (j, f, g) = lcm_block-inv p (suc i) b e in
      let k : j ≡ i = omega arith in rw (e, subst (λ n. get_elem? p.lcm_blocks n ≡ some b) k g)
  | inr e ↦ elim (Option-cases (get_elem? p.lcm_blocks i)) [
    | inl n ↦ rw (e, n)
    | inr (b, g) ↦ absurd (ground (arith, lcm_block-index p i b g))
  ]
]

-- After a release the slot is open, and every other slot is as it was.
pub after-slot :
    (p : BlockPool) (i slot : ℕ) (b : LcmBlock) (j t : ℕ)
    → IsBound b
    → get_elem? p.lcm_blocks i ≡ some b
    → is_true_at b.occupancy slot ≡ true
    → slot_of (get_elem? (after p i (cleared b slot)).lcm_blocks j) t
      ≡ (if (i == j) && (slot == t) then returns false else slot_of (get_elem? p.lcm_blocks j) t)
unfolding after
after-slot p i slot b j t bound at held =
    let lt = get_elem?-lt p.lcm_blocks i at in
    let c = count_true-clear b.occupancy slot held in
    let view = is_true_at-set b.occupancy slot t false (is_true_at-lt b.occupancy slot held) in
    ground (
      arith,
      get_elem?-set p.lcm_blocks i j (cleared b slot) lt,
      get_elem?-set p.lcm_blocks i j
          (record b { bound_group = none; occupancy = []; occupied_count = b.occupied_count - 1 })
          lt,
      none_true (set b.occupancy slot false) t,
      view,
    )
