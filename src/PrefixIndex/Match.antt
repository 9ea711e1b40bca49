-- ===== src/PrefixIndex/Match.antt =====
-- PrefixMatcher::probe of prefix_cache.rs.
use machserve.Common.{
  get_elem?-drop, ℕ, zero, suc, ◌+◌, ◌-◌, ◌≤◌, ◌<◌, ◌≡◌, refl, ap, subst, ◌∙◌, inl, inr, true,
  false, min, none, some, List, [], ◌∷◌, length, length-take, length-drop, get_elem?-lt, lt→ltb,
  get_elem?, take, drop, replicate, ltb, if◌then◌else◌, arith, Bool-cases,
}
use machserve.PrefixIndex.{CacheKey, PrefixCacheIndex, contains, hits, probe}

-- A run of `n` cached keys at the head of the list, as long as can be.
pub record IsRun (ix : PrefixCacheIndex) (keys : List CacheKey) (n : ℕ) : Type 0 where
  pub inside : n ≤ length keys
  pub cached :
      (j : ℕ) (key : CacheKey) → j < n → get_elem? keys j ≡ some key → contains ix key ≡ true
  pub stop : (key : CacheKey) → get_elem? keys n ≡ some key → contains ix key ≡ false

hits-IsRun :
    (ix : PrefixCacheIndex) (keys : List CacheKey)
    → (hits ix keys ≡ replicate (length (hits ix keys)) 1) × IsRun ix keys (length (hits ix keys))
unfolding hits
hits-IsRun ix [] = (
  refl,
  record {
    inside = omega arith;
    cached = λ j key lt at. absurd (omega arith);
    stop = λ key at. cc;
  },
)
hits-IsRun ix (k ∷ ks) = elim (Bool-cases (contains ix k)) [
  | inl p ↦
      let (ones, run) = hits-IsRun ix ks in
      rw p (
        ap (λ r. 1 ∷ r) ones,
        record { inside = omega (arith, run.inside); cached = cached_cons p run; stop = run.stop },
      )
  | inr p ↦ rw p (
    refl,
    record {
      inside = omega arith;
      cached = λ j key lt at. absurd (omega arith);
      stop =
          λ key at. let same : k ≡ key = ground arith in subst (λ c. contains ix c ≡ false) same p;
    },
  )
]
  where
    cached_cons :
        {n : ℕ}
        → contains ix k ≡ true
        → IsRun ix ks n
        → (j : ℕ) (key : CacheKey) → j < suc n
        → get_elem? (k ∷ ks) j ≡ some key
        → contains ix key ≡ true
    cached_cons p run zero key lt at =
        let same : k ≡ key = ground arith in subst (λ c. contains ix c ≡ true) same p
    cached_cons p run (suc j) key lt at = run.cached j key (omega arith) at

get_elem?-take :
    {A : Type 0} (n : ℕ) (xs : List A) (j : ℕ)
    → get_elem? (take n xs) j ≡ (if ltb j n then get_elem? xs j else none)
get_elem?-take zero xs j = ground arith
get_elem?-take (suc n) [] j = ground arith
get_elem?-take (suc n) (x ∷ xs) zero = ground arith
get_elem?-take (suc n) (x ∷ xs) (suc j) = get_elem?-take n xs j ∙ ground arith

-- What `probe` finds from `begin` on, below `max`.
pub record Probed (ix : PrefixCacheIndex) (keys : List CacheKey) (begin max : ℕ) (run : List ℕ)
    : Type 0 where
  pub ones : run ≡ replicate (length run) 1
  pub inside : length run ≤ min (length keys) max - begin
  pub cached :
      (j : ℕ) (key : CacheKey)
      → j < length run
      → get_elem? keys (begin + j) ≡ some key
      → contains ix key ≡ true
  pub stop :
      (key : CacheKey)
      → begin + length run < max
      → get_elem? keys (begin + length run) ≡ some key
      → contains ix key ≡ false

-- The matcher returns only ones, at most as many as there are keys to probe; the keys that they stand
-- for are cached, and the next key below the bound, if there is one, is not.
pub probe-Probed :
    (ix : PrefixCacheIndex) (keys : List CacheKey) (begin max : ℕ)
    → Probed ix keys begin max (probe ix keys begin max)
unfolding probe
probe-Probed ix keys begin max =
    let last = min (length keys) max in
    let probed = drop begin (take last keys) in
    let (ones, run) = hits-IsRun ix probed in
    let at : (j : ℕ)
        → get_elem? probed j ≡ (if ltb (begin + j) last then get_elem? keys (begin + j) else none) =
      λ j. get_elem?-drop begin (take last keys) j ∙ get_elem?-take last keys (begin + j) in
    record {
      ones = ones;
      inside = omega (arith, run.inside, length-drop begin (take last keys), length-take last keys);
      cached = λ j key lt g.
          let in_probed = run.inside in
          let size : begin + j < last =
            omega
              (arith, lt, in_probed, length-drop begin (take last keys), length-take last keys) in
          run.cached j key lt (at j ∙ rw (lt→ltb (begin + j) last size) g);
      stop = λ key lt g.
          let size : begin + length (hits ix probed) < last =
            omega (arith, lt, get_elem?-lt keys (begin + length (hits ix probed)) g) in
          run.stop key (
            at (length (hits ix probed))
            ∙ rw (lt→ltb (begin + length (hits ix probed)) last size) g);
    }
