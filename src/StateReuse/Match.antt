-- ===== src/StateReuse/Match.antt =====
-- StateReuse::find_reusable of state_reuse.rs finds the longest prefix.
use machserve.Common.{
  ℕ, zero, suc, ◌+◌, ◌≤◌, ◌<◌, ◌≡◌, refl, sym, ap, subst, ◌∙◌, ◌⊎◌, inl, inr, Bool, true, false,
  ◌&&◌, Option, none, some, List, [], ◌∷◌, length, take, get_elem?, list_eq, list_eq_sound,
  list_eq_self, ltb, arith, Bool-cases, lt→ltb, returns,
}
use machserve.StateReuse.{
  Anchor, StateReuse, ReusedPrefix, find, beats, improves, best_of, looked_up, hit, find_reusable,
}

-- The anchor covers a proper prefix of the tokens.
abbrev pub Covers : List ℕ → Anchor → Type 0
Covers tokens a = (a.token_idx + 1 < length tokens) × (take (a.token_idx + 1) tokens ≡ a.tokens)

abbrev best_len : Option (ℕ × ℕ) → ℕ
best_len none = 0
best_len (some (id, n)) = n

and_parts : (a b : Bool) → (a && b) ≡ true → (a ≡ true) × (b ≡ true)
and_parts true true h = (refl, refl)
and_parts true false h = cc
and_parts false b h = cc

improves-Covers :
    (tokens : List ℕ) (best : Option (ℕ × ℕ)) (a : Anchor)
    → improves tokens best a ≡ true
    → Covers tokens a × (best_len best < a.token_idx + 1)
improves-Covers tokens best a h =
    let (shorter, rest) = and_parts (ltb (a.token_idx + 1) (length tokens)) _ h in
    let (longer, same) = and_parts (beats (a.token_idx + 1) best) _ rest in
    ((ground arith, list_eq_sound (take (a.token_idx + 1) tokens) a.tokens same), gain best longer)
  where
    gain : (b : Option (ℕ × ℕ)) → beats (a.token_idx + 1) b ≡ true → best_len b < a.token_idx + 1
    gain none p = omega arith
    gain (some (id, n)) p = ground arith

Covers-improves :
    (tokens : List ℕ) (best : Option (ℕ × ℕ)) (a : Anchor)
    → Covers tokens a
    → improves tokens best a ≡ false
    → a.token_idx + 1 ≤ best_len best
Covers-improves tokens none a (shorter, same) h = absurd (
    let p = lt→ltb (a.token_idx + 1) (length tokens) shorter in
    let q = ap (λ k. list_eq k a.tokens) same ∙ list_eq_self a.tokens in ground arith)
Covers-improves tokens (some (id, n)) a (shorter, same) h =
    let p = lt→ltb (a.token_idx + 1) (length tokens) shorter in
    let q = ap (λ k. list_eq k a.tokens) same ∙ list_eq_self a.tokens in
    elim (Bool-cases (ltb n (a.token_idx + 1))) [
      | inl r ↦ absurd (ground arith)
      | inr r ↦ ground arith
    ]

record Best (tokens : List ℕ) (best : Option (ℕ × ℕ)) (pairs : List (ℕ × Anchor))
    (r : Option (ℕ × ℕ)) : Type 0 where
  pub grows : best_len best ≤ best_len r
  pub longest :
      (i id : ℕ) (a : Anchor)
      → get_elem? pairs i ≡ some (id, a)
      → Covers tokens a
      → a.token_idx + 1 ≤ best_len r
  pub origin :
      (r ≡ best)
      ⊎ ((i : ℕ) × (id : ℕ) × (a : Anchor) × (get_elem? pairs i ≡ some (id, a))
          × Covers tokens a
          × (r ≡ some (id, a.token_idx + 1)))

pair_snd :
    {k j : ℕ} {a b : Anchor} → ◌≡◌ {A = Option (ℕ × Anchor)} (some (k, a)) (some (j, b)) → a ≡ b
pair_snd h = cc

best_of-Best :
    (tokens : List ℕ) (best : Option (ℕ × ℕ)) (pairs : List (ℕ × Anchor))
    → Best tokens best pairs (best_of tokens best pairs)
unfolding best_of
best_of-Best tokens best [] = record {
  grows = omega arith;
  longest = λ i id a at c. cc;
  origin = inl refl;
}
best_of-Best tokens best ((k, b) ∷ rest) = elim (Bool-cases (improves tokens best b)) [
  | inl p ↦
      let now = some (k, b.token_idx + 1) in
      let later = best_of-Best tokens now rest in
      let (covers, gain) = improves-Covers tokens best b p in
      rw p (record {
        grows = omega (arith, later.grows, gain);
        longest = λ i id a at c. pick i id a at c later.longest later.grows;
        origin = elim later.origin [
          | inl same ↦ inr (0, k, b, refl, covers, same)
          | inr (i, id, a, at, c, e) ↦ inr (suc i, id, a, at, c, e)
        ];
      })
  | inr p ↦
      let later = best_of-Best tokens best rest in
      rw p (record {
        grows = later.grows;
        longest = λ i id a at c. skip i id a at c later.longest later.grows p;
        origin = elim later.origin [
          | inl same ↦ inl same
          | inr (i, id, a, at, c, e) ↦ inr (suc i, id, a, at, c, e)
        ];
      })
]
  where
    pick :
        (i id : ℕ) (a : Anchor)
        → get_elem? ((k, b) ∷ rest) i ≡ some (id, a)
        → Covers tokens a
        → {n : ℕ}
        → ((j jd : ℕ) (c : Anchor)
            → get_elem? rest j ≡ some (jd, c)
            → Covers tokens c
            → c.token_idx + 1 ≤ n)
        → b.token_idx + 1 ≤ n
        → a.token_idx + 1 ≤ n
    pick zero id a at c {n} rest_longest grows =
        subst (λ d. d.token_idx + 1 ≤ n) (pair_snd at) grows
    pick (suc i) id a at c rest_longest grows = rest_longest i id a at c

    skip :
        (i id : ℕ) (a : Anchor)
        → get_elem? ((k, b) ∷ rest) i ≡ some (id, a)
        → Covers tokens a
        → {n : ℕ}
        → ((j jd : ℕ) (c : Anchor)
            → get_elem? rest j ≡ some (jd, c)
            → Covers tokens c
            → c.token_idx + 1 ≤ n)
        → best_len best ≤ n
        → improves tokens best b ≡ false
        → a.token_idx + 1 ≤ n
    skip zero id a at c {n} rest_longest grows p =
        let same = pair_snd at in
        let covers = subst (Covers tokens) (sym same) c in
        let bound = Covers-improves tokens best b covers p in
        subst (λ d. d.token_idx + 1 ≤ n) same (omega (arith, bound, grows))
    skip (suc i) id a at c rest_longest grows p = rest_longest i id a at c

-- What a hash map documents of its iteration: it yields each key with its value, and nothing else.
pub record Iterates (visited pairs : List (ℕ × Anchor)) : Type 0 where
  pub entries :
      (i id : ℕ) (a : Anchor) → get_elem? visited i ≡ some (id, a) → find pairs id ≡ some a
  pub every :
      (id : ℕ) (a : Anchor)
      → find pairs id ≡ some a
      → (i : ℕ) × (get_elem? visited i ≡ some (id, a))

-- What a hit is: an anchor of the store that covers a proper prefix, and no other covers more.
pub record Reused (r : StateReuse) (tokens : List ℕ) (p : ReusedPrefix) : Type 0 where
  pub anchor :
      (a : Anchor) × (find r.store.anchors p.anchor_id ≡ some a)
      × Covers tokens a
      × (p.prefix_len ≡ a.token_idx + 1)
      × (p.hidden ≡ a.hidden)
  pub longest :
      (id : ℕ) (a : Anchor)
      → find r.store.anchors id ≡ some a
      → Covers tokens a
      → a.token_idx + 1 ≤ p.prefix_len

-- In whatever order the map is visited, the match never panics. It misses, and counts a lookup, exactly
-- if no anchor of the store covers a proper prefix of the tokens; otherwise it returns one that covers
-- the longest, with its hidden state, and counts a hit and the tokens reused.
pub find_reusable-Reused :
    (r : StateReuse) (visited : List (ℕ × Anchor)) (tokens : List ℕ)
    → Iterates visited r.store.anchors
    → (((id : ℕ) (a : Anchor) → find r.store.anchors id ≡ some a → Covers tokens a → ⊥)
        × (find_reusable r visited tokens ≡ returns (none, looked_up r)))
      ⊎ ((p : ReusedPrefix) × (find_reusable r visited tokens
            ≡ returns (some p, hit r p.prefix_len))
          × Reused r tokens p)
unfolding find_reusable
find_reusable-Reused r visited tokens x =
    let best = best_of-Best tokens none visited in
    elim best.origin [
      | inl miss ↦ inl (
        (λ id a at c.
            let (i, here) = x.every id a at in
            let bound = best.longest i id a here c in
            let zero_len = ap best_len miss in absurd (omega (arith, bound, zero_len))),
        rw (miss, find_reusable) refl,
      )
      | inr (i, id, a, at, c, e) ↦
          let found = x.entries i id a at in
          inr (
            record { anchor_id = id; prefix_len = a.token_idx + 1; hidden = a.hidden },
            rw (e, find_reusable) (rw found refl),
            record {
              anchor = (a, found, c, refl, refl);
              longest = λ jd b g d.
                  let (j, here) = x.every jd b g in
                  subst (λ n. b.token_idx + 1 ≤ n) (ap best_len e) (best.longest j jd b here d);
            },
          )
    ]
