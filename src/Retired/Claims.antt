-- ===== src/Retired/Claims.antt =====
-- The claim counts of continuous.rs.
use machserve.Common.{
  ℕ, suc, ◌+◌, ◌≤◌, ◌<◌, ◌≡◌, refl, sym, ap, ◌∙◌, inl, inr, true, false, Option, none, some, List,
  [], ◌∷◌, ◌++◌, length, take, list_eq, list_eq_sound, list_eq_self, ltb, leb, if◌then◌else◌, arith,
  Bool-cases, Option-cases, returns,
}
use machserve.PagedKv.{lookup}
use machserve.Retired.{
  PagedEntry, claims, add_claim, add_claims, claims_from, drop_claim, release_claim,
}

-- How often a hash is claimed.
abbrev pub times : List ℕ → List (List ℕ) → ℕ
times h [] = 0
times h (k ∷ hs) = (if list_eq k h then 1 else 0) + times h hs

pub times-append :
    (h : List ℕ) (hs ks : List (List ℕ)) → times h (hs ++ ks) ≡ times h hs + times h ks
times-append h [] ks = omega arith
times-append h (k ∷ hs) ks = omega (arith, times-append h hs ks)

abbrev pub value : Option ℕ → ℕ
value none = 0
value (some n) = n

-- The counts are those of the claims.
abbrev pub Counts : List (List ℕ × ℕ) → List (List ℕ) → Type 0
Counts claimed hs = (h : List ℕ) → value (lookup claimed h) ≡ times h hs

-- Two hashes that differ by the test of another.
other_hash : (j h k : List ℕ) → list_eq j h ≡ false → list_eq j k ≡ true → list_eq h k ≡ false
other_hash j h k p q = elim (Bool-cases (list_eq h k)) [
  | inl u ↦ absurd (
      let same = list_eq_sound j k q ∙ sym (list_eq_sound h k u) in
      let yes = ap (λ l. list_eq l h) same ∙ list_eq_self h in let both = sym p ∙ yes in cc)
  | inr u ↦ u
]

value-add_claim :
    (claimed : List (List ℕ × ℕ)) (h k : List ℕ)
    → value (lookup (add_claim claimed h) k)
      ≡ value (lookup claimed k) + (if list_eq h k then 1 else 0)
value-add_claim [] h k = elim (Bool-cases (list_eq h k)) [ inl p ↦ rw p refl | inr p ↦ rw p refl ]
value-add_claim ((j, n) ∷ claimed) h k = elim (Bool-cases (list_eq j h)) [
  | inl p ↦
      let same = ap (λ l. list_eq l k) (list_eq_sound j h p) in
      rw p (
        rw same
          (elim (Bool-cases (list_eq h k)) [ inl q ↦ rw q refl | inr q ↦ rw q (omega arith) ]))
  | inr p ↦ rw p (elim (Bool-cases (list_eq j k)) [
    | inl q ↦ rw q (rw (other_hash j h k p q) (omega arith))
    | inr q ↦ rw q (value-add_claim claimed h k)
  ])
]

value-drop_claim :
    (claimed : List (List ℕ × ℕ)) (h k : List ℕ) (n : ℕ)
    → lookup claimed h ≡ some n
    → 0 < n
    → value (lookup (drop_claim claimed h) k) + (if list_eq h k then 1 else 0)
      ≡ value (lookup claimed k)
value-drop_claim [] h k n at pos = cc
value-drop_claim ((j, m) ∷ claimed) h k n at pos = elim (Bool-cases (list_eq j h)) [
  | inl p ↦
      let same = ap (λ l. list_eq l k) (list_eq_sound j h p) in
      let shown : lookup ((j, m) ∷ claimed) h ≡ some m = rw p refl in
      let count = ap value (sym shown ∙ at) in
      rw p (
        rw same (elim (Bool-cases (list_eq h k)) [
          | inl q ↦ rw q (omega (arith, count, pos))
          | inr q ↦ rw q (omega arith)
        ]))
  | inr p ↦
      let shown : lookup ((j, m) ∷ claimed) h ≡ lookup claimed h = rw p refl in
      rw p (elim (Bool-cases (list_eq j k)) [
        | inl q ↦ rw q (rw (other_hash j h k p q) (omega arith))
        | inr q ↦ rw q (value-drop_claim claimed h k n (sym shown ∙ at) pos)
      ])
]

-- A claimed hash is counted, and its count goes down.
pub release_claim-Counts :
    (claimed : List (List ℕ × ℕ)) (h : List ℕ) (hs : List (List ℕ))
    → Counts claimed (h ∷ hs)
    → (rest : List (List ℕ × ℕ)) × (release_claim claimed h ≡ returns (times h hs, rest))
      × Counts rest hs
unfolding release_claim
release_claim-Counts claimed h hs c =
    let here = c h in
    let one = list_eq_self h in
    elim (Option-cases (lookup claimed h)) [
      | inl p ↦ absurd (let z = ap value p in ground (arith, here, one, z))
      | inr (n, p) ↦
          let z = ap value p in
          let count : n ≡ suc (times h hs) = ground (arith, here, one, z) in
          let pos : ltb 0 n ≡ true = ground (arith, count) in
          (
            drop_claim claimed h,
            rw (p, release_claim)
                (rw pos (ap (λ m. returns (m, drop_claim claimed h)) (omega (arith, count)))),
            λ k.
                let now = value-drop_claim claimed h k n p (omega (arith, count)) in
                let old = c k in omega (arith, now, old),
          )
    ]

pub add_claims-Counts :
    (claimed : List (List ℕ × ℕ)) (hs ks : List (List ℕ))
    → Counts claimed ks
    → Counts (add_claims claimed hs) (ks ++ hs)
add_claims-Counts claimed [] ks c =
    λ k. let z = times-append k ks [] in let o = c k in omega (arith, z, o)
add_claims-Counts claimed (h ∷ hs) ks c =
    let more = add_claims-Counts (add_claim claimed h) hs (ks ++ h ∷ []) (λ k.
      let a = value-add_claim claimed h k in
      let o = c k in let t = times-append k ks (h ∷ []) in omega (arith, a, o, t)) in
    λ k.
      let m = more k in
      let a = times-append k (ks ++ h ∷ []) hs in
      let b = times-append k ks (h ∷ []) in
      let d = times-append k ks (h ∷ hs) in omega (arith, m, a, b, d)

-- The claims of entries whose full pages are pages of their chains.
abbrev pub AreEntries : List PagedEntry → Type 0
AreEntries [] = Unit
AreEntries (e ∷ entries) = (e.full_pages ≤ length e.chain) × AreEntries entries

abbrev pub all_claims : List PagedEntry → List (List ℕ)
all_claims [] = []
all_claims (e ∷ entries) = take e.full_pages e.chain ++ all_claims entries

pub claims_lem :
    (e : PagedEntry)
    → e.full_pages ≤ length e.chain
    → claims e ≡ returns (take e.full_pages e.chain)
unfolding claims
claims_lem e le = let test : leb e.full_pages (length e.chain) ≡ true = ground arith in rw test refl

pub claims_from-Counts :
    (claimed : List (List ℕ × ℕ)) (entries : List PagedEntry) (ks : List (List ℕ))
    → AreEntries entries
    → Counts claimed ks
    → (counted : List (List ℕ × ℕ)) × (claims_from claimed entries ≡ returns counted)
      × Counts counted (ks ++ all_claims entries)
unfolding claims_from
claims_from-Counts claimed [] ks fits c =
    (claimed, refl, λ k. let z = times-append k ks [] in let o = c k in omega (arith, z, o))
claims_from-Counts claimed (e ∷ entries) ks fits c =
    let hs = take e.full_pages e.chain in
    let (counted, run, d) =
      claims_from-Counts (add_claims claimed hs) entries (ks ++ hs) fits.1
        (add_claims-Counts claimed hs ks c) in
    (
      counted,
      rw (claims_lem e fits.0) run,
      λ k.
          let m = d k in
          let a = times-append k (ks ++ hs) (all_claims entries) in
          let b = times-append k ks hs in
          let f = times-append k ks (hs ++ all_claims entries) in
          let g = times-append k hs (all_claims entries) in omega (arith, m, a, b, f, g),
    )
