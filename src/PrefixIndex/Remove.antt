-- ===== src/PrefixIndex/Remove.antt =====
-- PrefixCacheIndex::remove_at of prefix_cache.rs: the swap with the last entry keeps the maps right.
use machserve.Common.{
  get_elem?-set_ne, ℕ, suc, ◌+◌, ◌-◌, ◌<◌, ◌≡◌, ◌≢◌, refl, sym, ap, subst, ◌∙◌, inl, inr, false,
  none, some, List, [], ◌∷◌, length, get_elem?, set, ◌==◌, if◌then◌else◌, arith, Bool-cases,
  Option-cases, get_elem?-lt, get_elem?-total, index-get_elem?, length-set, returns,
}
use machserve.Common.Positions.{
  pop, put, delete, get_elem?-pop, get_elem?-pop_lt, get_elem?-swap, Indexes-apart, Indexes-pop,
  Indexes-swap, test-differs,
}
use machserve.PrefixIndex.{CacheKey, CacheEntry, PrefixCacheIndex, key_eq, location_eq, unlink}
use machserve.PrefixIndex.Owners.{owned, owners, owners-set, owners-pop}
use machserve.PrefixIndex.Found.{
  IsIndexed, entry_for, entry_for-member, member-entry_for, key_eq-IsTest, location_eq-IsTest,
}

-- What holds of the index `ix'` after the entry `e` at `i` was removed from `ix`.
pub record Unlinked (ix : PrefixCacheIndex) (i : ℕ) (e : CacheEntry) (ix' : PrefixCacheIndex)
    : Type 0 where
  pub indexed : IsIndexed ix'
  pub members :
      (j : ℕ) (d : CacheEntry)
      → get_elem? ix'.entries j ≡ some d
      → (n : ℕ) × (n ≢ i) × (get_elem? ix.entries n ≡ some d)
  pub kept :
      (n : ℕ) (d : CacheEntry)
      → get_elem? ix.entries n ≡ some d
      → n ≢ i
      → (j : ℕ) × (get_elem? ix'.entries j ≡ some d)
  pub fewer : length ix'.entries + 1 ≡ length ix.entries
  pub group : ix'.group_id ≡ ix.group_id
  pub freed : (b : ℕ) → owners ix'.entries b + owned e.block_ref b ≡ owners ix.entries b

length-pop : {E : Type 0} (es : List E) → 0 < length es → length (pop es) + 1 ≡ length es
length-pop [] lt = elim lt [ ]
length-pop (x ∷ []) lt = refl
length-pop (x ∷ y ∷ ys) lt = omega (arith, length-pop (y ∷ ys) (omega arith))

last_unlinked : PrefixCacheIndex → CacheEntry → PrefixCacheIndex
last_unlinked ix e = record ix {
  entries = pop ix.entries;
  by_key = delete key_eq ix.by_key e.key;
  by_location = delete location_eq ix.by_location e.location;
}

pop-Unlinked :
    (ix : PrefixCacheIndex) (i : ℕ) (e : CacheEntry)
    → IsIndexed ix
    → get_elem? ix.entries i ≡ some e
    → suc i ≡ length ix.entries
    → Unlinked ix i e (last_unlinked ix e)
unfolding last_unlinked
pop-Unlinked ix i e x at last = record {
  indexed = record {
    keys = Indexes-pop key_eq key_eq-IsTest (λ d. d.key) ix.by_key ix.entries i e x.keys at last;
    locations =
        Indexes-pop location_eq location_eq-IsTest (λ d. d.location) ix.by_location ix.entries i e
          x.locations at last;
    past = λ j d g. x.past j d (old j d g);
  };
  members = λ j d g. (
    j,
    (λ same. let lt = get_elem?-pop_lt ix.entries j g in omega (arith, lt, last, same)),
    old j d g,
  );
  kept = λ n d g ne.
      let lt = get_elem?-lt ix.entries n g in
      (n, get_elem?-pop ix.entries n (omega (arith, lt, last, ne)) ∙ g);
  fewer = length-pop ix.entries (omega (arith, last));
  group = refl;
  freed = λ b. owners-pop ix.entries i e b at last;
}
  where
    old :
        (j : ℕ) (d : CacheEntry)
        → get_elem? (pop ix.entries) j ≡ some d
        → get_elem? ix.entries j ≡ some d
    old j d g = sym (get_elem?-pop ix.entries j (get_elem?-pop_lt ix.entries j g)) ∙ g

swap_unlinked : PrefixCacheIndex → ℕ → CacheEntry → CacheEntry → PrefixCacheIndex
swap_unlinked ix i e d = record ix {
  entries = pop (set ix.entries i d);
  by_key = put key_eq (delete key_eq ix.by_key e.key) d.key i;
  by_location = put location_eq (delete location_eq ix.by_location e.location) d.location i;
}

swap-Unlinked :
    (ix : PrefixCacheIndex) (i n : ℕ) (e d : CacheEntry)
    → IsIndexed ix
    → get_elem? ix.entries i ≡ some e
    → get_elem? ix.entries n ≡ some d
    → suc n ≡ length ix.entries
    → i ≢ n
    → Unlinked ix i e (swap_unlinked ix i e d)
unfolding swap_unlinked
swap-Unlinked ix i n e d x at at_n last ne = record {
  indexed = record {
    keys =
        Indexes-swap key_eq key_eq-IsTest (λ c. c.key) ix.by_key ix.entries i n e d x.keys at at_n
          last ne;
    locations =
        Indexes-swap location_eq location_eq-IsTest (λ c. c.location) ix.by_location ix.entries i n
          e d x.locations at at_n last ne;
    past = λ j c g. let (k, _, old) = from j c g in x.past k c old;
  };
  members = from;
  kept = λ m c g away. elim (Bool-cases (m == n)) [
    | inl p ↦
        let mn : m ≡ n = ground arith in
        let dc : d ≡ c = ground arith in (i, new i (omega (arith, i_lt, last, ne)) ∙ ground arith)
    | inr p ↦ let m_lt = get_elem?-lt ix.entries m g in (m, new m (ground arith) ∙ ground arith)
  ];
  fewer = omega (
    arith,
    length-set ix.entries i d,
    length-pop (set ix.entries i d) (omega (arith, length-set ix.entries i d, last)),
  );
  group = refl;
  freed = λ b.
      let changed = owners-set ix.entries i e d b at in
      let last_d : get_elem? (set ix.entries i d) n ≡ some d =
        get_elem?-set_ne ix.entries d ne ∙ at_n in
      let popped =
        owners-pop (set ix.entries i d) n d b last_d (last ∙ sym (length-set ix.entries i d)) in
      omega (arith, changed, popped);
}
  where
    i_lt : i < length ix.entries
    i_lt = get_elem?-lt ix.entries i at

    new :
        (j : ℕ)
        → suc j < length ix.entries
        → get_elem? (pop (set ix.entries i d)) j
          ≡ (if i == j then some d else get_elem? ix.entries j)
    new j lt = get_elem?-swap key_eq key_eq-IsTest (λ c. c.key) ix.entries i j d i_lt lt

    from :
        (j : ℕ) (c : CacheEntry)
        → get_elem? (pop (set ix.entries i d)) j ≡ some c
        → (k : ℕ) × (k ≢ i) × (get_elem? ix.entries k ≡ some c)
    from j c g =
        let lt : suc j < length ix.entries =
          subst (λ k. suc j < k) (length-set ix.entries i d)
            (get_elem?-pop_lt (set ix.entries i d) j g) in
        let now = new j lt in
        elim (Bool-cases (i == j)) [
          | inl p ↦ (n, (λ same. ne (sym same)), at_n ∙ ground arith)
          | inr p ↦ (j, (λ same. ground arith), ground arith)
        ]

-- Any entry can be removed.
pub unlink-Unlinked :
    (ix : PrefixCacheIndex) (i : ℕ) (e : CacheEntry)
    → IsIndexed ix
    → get_elem? ix.entries i ≡ some e
    → (ix' : PrefixCacheIndex) × (unlink ix i ≡ returns (e, ix')) × Unlinked ix i e ix'
unfolding unlink last_unlinked swap_unlinked
unlink-Unlinked ix i e x at =
    let lt = get_elem?-lt ix.entries i at in
    let n = length ix.entries - 1 in
    elim (Bool-cases (i == n)) [
      | inl p ↦ (
        last_unlinked ix e,
        rw (index-get_elem? ix.entries i at) (rw p),
        pop-Unlinked ix i e x at (ground arith),
      )
      | inr p ↦
          let (d, at_n) = get_elem?-total ix.entries n (omega (arith, lt)) in
          (
            swap_unlinked ix i e d,
            rw (index-get_elem? ix.entries i at) (rw p (rw (index-get_elem? ix.entries n at_n))),
            swap-Unlinked ix i n e d x at at_n (omega (arith, lt)) (ground arith),
          )
    ]

-- As a finite map, the index loses the key of the entry and keeps the rest.
pub entry_for-Unlinked :
    (ix : PrefixCacheIndex) (i : ℕ) (e : CacheEntry) (ix' : PrefixCacheIndex)
    → IsIndexed ix
    → get_elem? ix.entries i ≡ some e
    → Unlinked ix i e ix'
    → (key : CacheKey) → entry_for ix' key ≡ (if key_eq e.key key then none else entry_for ix key)
entry_for-Unlinked ix i e ix' x at u key = elim (Option-cases (entry_for ix' key)) [
  | inr (d, p) ↦
      let (j, _, g, q) = member-entry_for ix' key d u.indexed p in
      let (n, ne, old) = u.members j d g in
      let differ : key_eq e.key d.key ≡ false =
        test-differs key_eq key_eq-IsTest (λ (c : CacheEntry). c.key) e.key d.key
          (λ same. ne (
            Indexes-apart key_eq key_eq-IsTest (λ c. c.key) ix.by_key ix.entries x.keys n i d e old
              at (sym (same)))) in
      p
      ∙ rw (subst (λ k. key_eq e.key k ≡ false) q differ)
          (sym (entry_for-member ix n d x old) ∙ ap (entry_for ix) q)
  | inl p ↦ elim (Bool-cases (key_eq e.key key)) [
    | inl q ↦ rw q p
    | inr q ↦ elim (Option-cases (entry_for ix key)) [
      | inl r ↦ rw q (p ∙ sym r)
      | inr (d, r) ↦ absurd (
          let (n, _, old, dk) = member-entry_for ix key d x r in
          let away : n ≢ i = λ same.
            let here : e ≡ d = ground arith in
            let own = key_eq-IsTest.complete e.key in
            let other = ap (key_eq e.key) (ap (λ c. c.key) here ∙ dk) in cc in
          let (j, g) = u.kept n d old away in
          let found = entry_for-member ix' j d u.indexed g in
          let moved = ap (entry_for ix') dk in cc)
    ]
  ]
]
