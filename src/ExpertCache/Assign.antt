-- ===== src/ExpertCache/Assign.antt =====
-- `put` of moe_backend.rs: the expert gets a slot that no other resident expert has.
use machserve.Common.{
  ℕ, zero, suc, ◌+◌, ◌≤◌, ◌<◌, ◌≡◌, refl, ap, subst, ◌∙◌, ◌⊎◌, inl, inr, true, false, none, some,
  List, [], ◌∷◌, length, ◌==◌, arith, Bool-cases, occurs,
}
use machserve.ExpertCache.{
  LruExpertCache, slot_of, forget, in_use, remove_first, touch, lowest_free, assign,
}
use machserve.ExpertCache.Slot.{
  IsCache, places, slot_of-resident, slot_of-absent, forget-occurs, remove_first-occurs,
}

in_use-occurs :
    (slots : List (ℕ × ℕ)) (s : ℕ) → in_use slots s ≡ false → occurs s (places slots) ≡ 0
in_use-occurs [] s e = refl
in_use-occurs ((k, t) ∷ slots) s e = elim (Bool-cases (t == s)) [
  | inl p ↦ absurd (ground arith)
  | inr p ↦ let rest = in_use-occurs slots s (ground arith) in ground (arith, p, rest)
]

used-occurs : (slots : List (ℕ × ℕ)) (s : ℕ) → in_use slots s ≡ true → 0 < occurs s (places slots)
used-occurs [] s e = cc
used-occurs ((k, t) ∷ slots) s e = elim (Bool-cases (t == s)) [
  | inl p ↦ ground (arith, p)
  | inr p ↦ let rest = used-occurs slots s (ground arith) in ground (arith, p, rest)
]

-- If the numbers below `n` all stand in a list, it has at least `n` elements.
pigeonhole : (n : ℕ) (xs : List ℕ) → ((j : ℕ) → j < n → 0 < occurs j xs) → n ≤ length xs
pigeonhole zero xs all = omega arith
pigeonhole (suc n) xs all =
    let (same, size) = remove_first-occurs xs n (all n (omega arith)) in
    let rest = pigeonhole n (remove_first xs n) (λ j lt.
      let here = all j (omega (arith, lt)) in let s = same j in ground (arith, here, s, lt)) in
    omega (arith, rest, size)

lowest_free-unused :
    (fuel : ℕ) (slots : List (ℕ × ℕ)) (slot : ℕ)
    → ((j : ℕ) → j < slot → 0 < occurs j (places slots))
    → ((in_use slots (lowest_free fuel slots slot) ≡ false)
        ⊎ (lowest_free fuel slots slot ≡ slot + fuel))
      × ((j : ℕ) → j < lowest_free fuel slots slot → 0 < occurs j (places slots))
unfolding lowest_free
lowest_free-unused zero slots slot below = (inr (omega arith), below)
lowest_free-unused (suc fuel) slots slot below = elim (Bool-cases (in_use slots slot)) [
  | inl p ↦
      let used = used-occurs slots slot p in
      let (found, all) = lowest_free-unused fuel slots (slot + 1) (λ j lt.
        elim (Bool-cases (j == slot)) [
          | inl q ↦
              let same : slot ≡ j = ground arith in
              subst (λ k. 0 < occurs k (places slots)) same used
          | inr q ↦ below j (ground (arith, lt, q))
        ]) in
      rw (p, lowest_free) (elim found [ inl f ↦ inl f | inr f ↦ inr (omega (arith, f)) ], all)
  | inr p ↦ rw (p, lowest_free) (inl p, below)
]

places-length : (slots : List (ℕ × ℕ)) → length (places slots) ≡ length slots
places-length [] = refl
places-length (e ∷ slots) = ap suc (places-length slots)

-- The search ends at a slot that is not used, and not above the number of experts.
pub lowest_free-room :
    (slots : List (ℕ × ℕ))
    → let f = lowest_free (suc (length slots)) slots 0 in
      (occurs f (places slots) ≡ 0) × (f ≤ length slots)
lowest_free-room slots =
    let f = lowest_free (suc (length slots)) slots 0 in
    let (found, all) =
      lowest_free-unused (suc (length slots)) slots 0 (λ j lt. absurd (omega (arith, lt))) in
    let few = pigeonhole f (places slots) all in
    let size = places-length slots in
    (
      elim found [ inl p ↦ in_use-occurs slots f p | inr p ↦ absurd (omega (arith, p, few, size)) ],
      omega (arith, few, size),
    )

module _ (c : LruExpertCache) (w : IsCache c) where
  pub touch-IsCache : (id : ℕ) → 0 < occurs id c.recency → IsCache (touch c id)
  unfolding touch
  touch-IsCache id p =
      let (same, size) = remove_first-occurs c.recency id p in
      record {
        listed = λ k. w.listed k ∙ same k;
        once = λ k. let s = same k in let o = w.once k in omega (arith, s, o);
        apart = w.apart;
        inside = w.inside;
        size = let n = w.size in omega (arith, n, size);
        full = w.full;
      }

  -- One expert leaves its slot.
  pub vacate-IsCache :
      (id s : ℕ) (rest : List ℕ)
      → slot_of c.slots id ≡ some s
      → ((k : ℕ) → occurs k c.recency ≡ occurs k (id ∷ rest))
      → length c.recency ≡ suc (length rest)
      → IsCache (record c { slots = forget c.slots id; recency = rest })
        × (occurs s (places (forget c.slots id)) ≡ 0)
        × (s < c.capacity)
        × (length (forget c.slots id) < c.capacity)
  vacate-IsCache id s rest at same size =
      let (named, placed, fewer) = forget-occurs c.slots id s at in
      let (_, here) = slot_of-resident c.slots id s at in
      let below = w.inside s here in
      let full = w.full in
      let n = w.size in
      (
        record {
          listed = λ k.
              let l = w.listed k in let a = named k in let b = same k in omega (arith, l, a, b);
          once = λ k. let o = w.once k in let b = same k in omega (arith, o, b);
          apart = λ t. let o = w.apart t in let b = placed t in omega (arith, o, b);
          inside = λ t p. let b = placed t in w.inside t (omega (arith, p, b));
          size = omega (arith, n, size, fewer);
          full = omega (arith, full, fewer);
        },
        (let o = w.apart s in let b = placed s in ground (arith, o, b)),
        below,
        omega (arith, full, fewer),
      )

  -- A new expert gets a slot that is not used.
  pub assign-IsCache :
      (id s : ℕ)
      → slot_of c.slots id ≡ none
      → occurs s (places c.slots) ≡ 0
      → s < c.capacity
      → length c.slots < c.capacity
      → IsCache (assign c id s)
  assign-IsCache id s absent unused below room =
      let gone = slot_of-absent c.slots id absent in
      record {
        listed = λ k. let l = w.listed k in omega (arith, l);
        once = λ k.
            let o = w.once k in
            let l = w.listed id in
            elim (Bool-cases (id == k)) [
              | inl p ↦
                  let same : id ≡ k = ground arith in
                  let m = ap (λ x. occurs x c.recency) same in ground (arith, l, gone, m)
              | inr p ↦ ground (arith, o, p)
            ];
        apart = λ t.
            let o = w.apart t in
            elim (Bool-cases (s == t)) [
              | inl p ↦
                  let same : s ≡ t = ground arith in
                  let m = ap (λ x. occurs x (places c.slots)) same in ground (arith, unused, m)
              | inr p ↦ ground (arith, o, p)
            ];
        inside = λ t q. elim (Bool-cases (s == t)) [
          | inl p ↦ let same : s ≡ t = ground arith in omega (arith, same, below)
          | inr p ↦ w.inside t (ground (arith, q, p))
        ];
        size = let n = w.size in omega (arith, n);
        full = omega (arith, room);
      }
