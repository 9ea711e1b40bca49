-- ===== src/ExpertCache/Slot.antt =====
-- The slots of moe_backend.rs: their invariant, and the search for the lowest free one.
use machserve.Common.{
  ℕ, suc, ◌≤◌, ◌<◌, ◌≡◌, ◌≢◌, refl, sym, ap, ◌∙◌, ◌⊎◌, inl, inr, false, Option, none, some, List,
  [], ◌∷◌, map, length, ◌==◌, if◌then◌else◌, arith, Bool-cases, occurs,
}
use machserve.ExpertCache.{
  LruExpertCache, slot_of, forget, member, remove_first, pop_back, last_outside,
}

abbrev pub ids : List (ℕ × ℕ) → List ℕ
ids slots = map (λ e. e.0) slots

abbrev pub places : List (ℕ × ℕ) → List ℕ
places slots = map (λ e. e.1) slots

-- The invariant: the recency list holds the resident experts, each once; no slot is used twice, and all
-- are below the capacity.
pub record IsCache (c : LruExpertCache) : Type 0 where
  pub listed : (id : ℕ) → occurs id (ids c.slots) ≡ occurs id c.recency
  pub once : (id : ℕ) → occurs id c.recency ≤ 1
  pub apart : (s : ℕ) → occurs s (places c.slots) ≤ 1
  pub inside : (s : ℕ) → 0 < occurs s (places c.slots) → s < c.capacity
  pub size : length c.recency ≡ length c.slots
  pub full : length c.slots ≤ c.capacity

some_injective : {m n : ℕ} → some m ≡ some n → m ≡ n
some_injective h = cc

pub slot_of-resident :
    (slots : List (ℕ × ℕ)) (id s : ℕ)
    → slot_of slots id ≡ some s
    → (0 < occurs id (ids slots)) × (0 < occurs s (places slots))
slot_of-resident [] id s e = cc
slot_of-resident ((k, t) ∷ slots) id s e = elim (Bool-cases (k == id)) [
  | inl p ↦
      let shown : slot_of ((k, t) ∷ slots) id ≡ some t = rw p refl in
      let same : t ≡ s = some_injective (sym shown ∙ e) in (ground (arith, p), ground (arith, same))
  | inr p ↦
      let (a, b) = slot_of-resident slots id s (sym (rw p refl) ∙ e) in
      (ground (arith, a), ground (arith, b))
]

pub slot_of-absent :
    (slots : List (ℕ × ℕ)) (id : ℕ) → slot_of slots id ≡ none → occurs id (ids slots) ≡ 0
slot_of-absent [] id e = refl
slot_of-absent ((k, t) ∷ slots) id e = elim (Bool-cases (k == id)) [
  | inl p ↦ absurd (let shown : slot_of ((k, t) ∷ slots) id ≡ some t = rw p refl in cc)
  | inr p ↦ let rest = slot_of-absent slots id (sym (rw p refl) ∙ e) in ground (arith, p, rest)
]

-- What is left when one expert is forgotten.
pub forget-occurs :
    (slots : List (ℕ × ℕ)) (id s : ℕ)
    → slot_of slots id ≡ some s
    → ((k : ℕ) → occurs k (ids slots) ≡ occurs k (id ∷ ids (forget slots id)))
      × ((t : ℕ) → occurs t (places slots) ≡ occurs t (s ∷ places (forget slots id)))
      × (length slots ≡ suc (length (forget slots id)))
forget-occurs [] id s e = cc
forget-occurs ((k, t) ∷ slots) id s e = elim (Bool-cases (k == id)) [
  | inl p ↦
      let same : k ≡ id = ground arith in
      let shown : slot_of ((k, t) ∷ slots) id ≡ some t = rw p refl in
      let place : t ≡ s = some_injective (sym shown ∙ e) in
      rw p (
        λ x. ap (λ n. occurs x (n ∷ ids slots)) same,
        λ x. ap (λ n. occurs x (n ∷ places slots)) place,
        refl,
      )
  | inr p ↦
      let (a, b, n) = forget-occurs slots id s (sym (rw p refl) ∙ e) in
      rw p (
        λ x. let q = a x in omega (arith, q),
        λ x. let q = b x in omega (arith, q),
        omega (arith, n),
      )
]

pub ne-test : (j k : ℕ) → j ≢ k → (j == k) ≡ false
ne-test j k ne = elim (Bool-cases (j == k)) [ inl p ↦ absurd (ne (ground arith)) | inr p ↦ p ]

pub slot_of-forget :
    (slots : List (ℕ × ℕ)) (id k : ℕ) → id ≢ k → slot_of (forget slots id) k ≡ slot_of slots k
slot_of-forget [] id k ne = refl
slot_of-forget ((j, t) ∷ slots) id k ne = elim (Bool-cases (j == id)) [
  | inl p ↦ rw p (
      let other : (j == k) ≡ false =
        let ne' : j ≢ k = (λ jk. ne (sym (let q : j ≡ id = ground arith in q) ∙ jk)) in
        ne-test j k ne' in
      rw other refl)
  | inr p ↦ rw p (ap (λ o. if j == k then some t else o) (slot_of-forget slots id k ne))
]

pub remove_first-occurs :
    (xs : List ℕ) (id : ℕ)
    → 0 < occurs id xs
    → ((k : ℕ) → occurs k xs ≡ occurs k (id ∷ remove_first xs id))
      × (length xs ≡ suc (length (remove_first xs id)))
remove_first-occurs [] id p = elim p [ ]
remove_first-occurs (x ∷ xs) id p = elim (Bool-cases (x == id)) [
  | inl q ↦ let same : x ≡ id = ground arith in rw q (λ k. ap (λ n. occurs k (n ∷ xs)) same, refl)
  | inr q ↦
      let (a, n) = remove_first-occurs xs id (ground (arith, p, q)) in
      rw q (λ k. let r = a k in omega (arith, r), omega (arith, n))
]

-- The back and the others.
pub back-cases :
    (o : Option (ℕ × List ℕ)) → (o ≡ none) ⊎ ((b : ℕ) × (r : List ℕ) × (o ≡ some (b, r)))
back-cases none = inl refl
back-cases (some (b, r)) = inr (b, r, refl)

pub pair_parts : (x y : ℕ × List ℕ) → some x ≡ some y → (x.0 ≡ y.0) × (x.1 ≡ y.1)
pair_parts x y h = (ap first h, ap second h)
  where
    first : Option (ℕ × List ℕ) → ℕ
    first none = 0
    first (some q) = q.0

    second : Option (ℕ × List ℕ) → List ℕ
    second none = []
    second (some q) = q.1

-- An element in front of both.
in_front :
    (x id b : ℕ) (xs r rest : List ℕ)
    → ((k : ℕ) → occurs k xs ≡ occurs k (b ∷ r)) × (length xs ≡ suc (length r))
    → b ≡ id
    → x ∷ r ≡ rest
    → ((k : ℕ) → occurs k (x ∷ xs) ≡ occurs k (id ∷ rest)) × (suc (length xs) ≡ suc (length rest))
in_front x id b xs r rest (same, size) e f = (
  λ k.
      let s = same k in
      let g = ap (occurs k) f in let h = ap (λ n. occurs k (n ∷ rest)) e in omega (arith, s, g, h),
  let n = ap length f in omega (arith, n, size),
)

pub back_none : (xs : List ℕ) → pop_back xs ≡ none → xs ≡ []
back_none [] e = refl
back_none (x ∷ xs) e = elim (back-cases (pop_back xs)) [
  | inl p ↦ absurd (let shown : pop_back (x ∷ xs) ≡ some (x, []) = rw p refl in cc)
  | inr (b, r, p) ↦ absurd (let shown : pop_back (x ∷ xs) ≡ some (b, x ∷ r) = rw p refl in cc)
]

pub pop_back-occurs :
    (xs : List ℕ) (id : ℕ) (rest : List ℕ)
    → pop_back xs ≡ some (id, rest)
    → ((k : ℕ) → occurs k xs ≡ occurs k (id ∷ rest)) × (length xs ≡ suc (length rest))
pop_back-occurs [] id rest e = cc
pop_back-occurs (x ∷ xs) id rest e = elim (back-cases (pop_back xs)) [
  | inl p ↦
      let shown : pop_back (x ∷ xs) ≡ some (x, []) = rw p refl in
      let (same, rests) = pair_parts (x, []) (id, rest) (sym shown ∙ e) in
      let empty = back_none xs p in
      (
        λ k.
            let q = ap (occurs k) empty in
            let r = ap (λ n. occurs k (n ∷ rest)) same in
            let t = ap (occurs k) rests in omega (arith, q, r, t),
        let n = ap length empty in let t = ap length rests in omega (arith, n, t),
      )
  | inr (b, r, p) ↦
      let shown : pop_back (x ∷ xs) ≡ some (b, x ∷ r) = rw p refl in
      let (same, rests) = pair_parts (b, x ∷ r) (id, rest) (sym shown ∙ e) in
      in_front x id b xs r rest (pop_back-occurs xs b r p) same rests
]

-- An expert that is not routed, and the others.
pub last_outside-occurs :
    (routed xs : List ℕ) (id : ℕ) (rest : List ℕ)
    → last_outside routed xs ≡ some (id, rest)
    → ((k : ℕ) → occurs k xs ≡ occurs k (id ∷ rest))
      × (length xs ≡ suc (length rest))
      × (member routed id ≡ false)
last_outside-occurs routed [] id rest e = cc
last_outside-occurs routed (x ∷ xs) id rest e = elim (back-cases (last_outside routed xs)) [
  | inr (b, r, p) ↦
      let shown : last_outside routed (x ∷ xs) ≡ some (b, x ∷ r) = rw p refl in
      let (same, rests) = pair_parts (b, x ∷ r) (id, rest) (sym shown ∙ e) in
      let (a, n, out) = last_outside-occurs routed xs b r p in
      let (c, m) = in_front x id b xs r rest (a, n) same rests in
      (c, m, ap (member routed) (sym same) ∙ out)
  | inl p ↦ elim (Bool-cases (member routed x)) [
    | inl q ↦ absurd (let shown : last_outside routed (x ∷ xs) ≡ none = rw p (rw q refl) in cc)
    | inr q ↦
        let shown : last_outside routed (x ∷ xs) ≡ some (x, xs) = rw p (rw q refl) in
        let (same, rests) = pair_parts (x, xs) (id, rest) (sym shown ∙ e) in
        (
          λ k.
              let r = ap (λ n. occurs k (n ∷ rest)) same in
              let t = ap (occurs k) rests in omega (arith, r, t),
          ap (λ l. suc (length l)) rests,
          ap (member routed) (sym same) ∙ q,
        )
  ]
]
