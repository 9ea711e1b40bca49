-- ===== src/PrefixIndex/Owners.antt =====
-- How many handles to a block the entries of an index own, in prefix_cache.rs.
use machserve.Common.{
  ℕ, zero, suc, ◌+◌, ◌≡◌, ap, none, some, List, [], ◌∷◌, ◌++◌, length, get_elem?, set, ◌==◌,
  if◌then◌else◌, arith,
}
use machserve.Common.Positions.{pop}
use machserve.BlockRef.{CacheBlockRef}
use machserve.PrefixIndex.{CacheEntry}

-- Whether the handle is one to the block at `b`, as a number.
abbrev pub owned : CacheBlockRef → ℕ → ℕ
owned none b = 0
owned (some a) b = if a == b then 1 else 0

abbrev pub owners : List CacheEntry → ℕ → ℕ
owners [] b = 0
owners (e ∷ es) b = owned e.block_ref b + owners es b

pub owners-set :
    (es : List CacheEntry) (i : ℕ) (e d : CacheEntry) (b : ℕ)
    → get_elem? es i ≡ some e
    → owners (set es i d) b + owned e.block_ref b ≡ owners es b + owned d.block_ref b
owners-set [] i e d b at = cc
owners-set (x ∷ es) zero e d b at =
    let same : x ≡ e = ground arith in
    let refs = ap (λ k. owned k.block_ref b) same in omega (arith, refs)
owners-set (x ∷ es) (suc i) e d b at = omega (arith, owners-set es i e d b at)

pub owners-pop :
    (es : List CacheEntry) (i : ℕ) (e : CacheEntry) (b : ℕ)
    → get_elem? es i ≡ some e
    → suc i ≡ length es
    → owners (pop es) b + owned e.block_ref b ≡ owners es b
owners-pop [] i e b at last = cc
owners-pop (x ∷ []) zero e b at last =
    let same : x ≡ e = ground arith in
    let refs = ap (λ k. owned k.block_ref b) same in omega (arith, refs)
owners-pop (x ∷ []) (suc i) e b at last = cc
owners-pop (x ∷ y ∷ es) zero e b at last = absurd (omega (arith, last))
owners-pop (x ∷ y ∷ es) (suc i) e b at last =
    omega (arith, owners-pop (y ∷ es) i e b at (omega (arith, last)))

pub owners-push :
    (es : List CacheEntry) (e : CacheEntry) (b : ℕ)
    → owners (es ++ e ∷ []) b ≡ owners es b + owned e.block_ref b
owners-push [] e b = omega arith
owners-push (x ∷ es) e b = omega (arith, owners-push es e b)

-- An entry of the index owns its handle.
pub owners-member :
    (es : List CacheEntry) (i : ℕ) (e : CacheEntry) (b : ℕ)
    → get_elem? es i ≡ some e
    → owned e.block_ref b ≡ 1
    → (j : ℕ) × (owners es b ≡ suc j)
owners-member [] i e b at one = cc
owners-member (x ∷ es) zero e b at one =
    let same : x ≡ e = ground arith in
    let refs = ap (λ c. owned c.block_ref b) same in (owners es b, omega (arith, refs, one))
owners-member (x ∷ es) (suc i) e b at one =
    let (j, found) = owners-member es i e b at one in
    (owned x.block_ref b + j, omega (arith, found))

pub owned_self : (a : ℕ) → owned (some a) a ≡ 1
owned_self a = ground arith
