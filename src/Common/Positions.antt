-- ===== src/Common/Positions.antt =====
-- A hash map from the keys of a vector's members to their positions, which `push`, `pop` and
-- `swap_remove` keep in step. A map is the function that looks a key up; `eq` tests two keys.
use Prim.Native.Nat.{ℕ, zero, suc, ◌<◌}
use mathlib.Core.Path.{◌≡◌, refl, sym, ap, subst, ◌∙◌}
use mathlib.Core.Logic.{◌≢◌, ◌⊎◌, inl, inr}
use mathlib.Core.Bool.{Bool, true, false}
use mathlib.Core.Option.{Option, none, some}
use mathlib.Core.List.{List, [], ◌∷◌, ◌++◌}
use native.Mathlib.Omega.{arith}
use machserve.Common.Tests.{◌==◌, if◌then◌else◌, Bool-cases}
use machserve.Common.Lists.{length, get_elem?, set, length-set, get_elem?-set, get_elem?-lt}

abbrev pub pop {ℓ} : {A : Type ℓ} → List A → List A
pop [] = []
pop (x ∷ []) = []
pop (x ∷ y ∷ ys) = x ∷ pop (y ∷ ys)

module _ {K : Type 0} where
  abbrev pub put : (K → K → Bool) → (K → Option ℕ) → K → ℕ → K → Option ℕ
  put eq m k v j = if eq k j then some v else m j

  abbrev pub delete : (K → K → Bool) → (K → Option ℕ) → K → K → Option ℕ
  delete eq m k j = if eq k j then none else m j

-- The member that a position names.
abbrev pub at_position : {E : Type 0} → List E → Option ℕ → Option E
at_position es none = none
at_position es (some i) = get_elem? es i

-- Every member stands where the map says, and the map names nothing else.
pub record Indexes {E K : Type 0} (f : E → K) (m : K → Option ℕ) (es : List E) : Type 0 where
  pub here : (i : ℕ) (e : E) → get_elem? es i ≡ some e → m (f e) ≡ some i
  pub there : (k : K) (i : ℕ) → m k ≡ some i → (e : E) × (get_elem? es i ≡ some e) × (f e ≡ k)

-- What the equality test of a key type tells.
pub record IsTest {K : Type 0} (eq : K → K → Bool) : Type 0 where
  pub sound : (a b : K) → eq a b ≡ true → a ≡ b
  pub complete : (a : K) → eq a a ≡ true

pub get_elem?-pop :
    {E : Type 0} (es : List E) (i : ℕ) → suc i < length es → get_elem? (pop es) i ≡ get_elem? es i
get_elem?-pop [] i lt = elim lt [ ]
get_elem?-pop (x ∷ []) i lt = absurd (omega arith)
get_elem?-pop (x ∷ y ∷ ys) zero lt = refl
get_elem?-pop (x ∷ y ∷ ys) (suc i) lt = get_elem?-pop (y ∷ ys) i (omega arith)

pub get_elem?-pop_lt :
    {E : Type 0} (es : List E) (i : ℕ) {e : E} → get_elem? (pop es) i ≡ some e → suc i < length es
get_elem?-pop_lt [] i at = cc
get_elem?-pop_lt (x ∷ []) i at = cc
get_elem?-pop_lt (x ∷ y ∷ ys) zero at = omega arith
get_elem?-pop_lt (x ∷ y ∷ ys) (suc i) at = omega (arith, get_elem?-pop_lt (y ∷ ys) i at)

pub get_elem?-push :
    {E : Type 0} (es : List E) (e : E) (i : ℕ) {d : E}
    → get_elem? (es ++ e ∷ []) i ≡ some d
    → ((i ≡ length es) × (d ≡ e)) ⊎ (get_elem? es i ≡ some d)
get_elem?-push [] e zero at = inl (refl, cc)
get_elem?-push [] e (suc i) at = cc
get_elem?-push (x ∷ xs) e zero at = inr at
get_elem?-push (x ∷ xs) e (suc i) at = elim (get_elem?-push xs e i at) [
  | inl (p, q) ↦ inl (ap suc p, q)
  | inr q ↦ inr q
]

pub get_elem?-push_old :
    {E : Type 0} (es : List E) (e : E) (i : ℕ) {d : E}
    → get_elem? es i ≡ some d
    → get_elem? (es ++ e ∷ []) i ≡ some d
get_elem?-push_old [] e i at = cc
get_elem?-push_old (x ∷ xs) e zero at = at
get_elem?-push_old (x ∷ xs) e (suc i) at = get_elem?-push_old xs e i at

pub get_elem?-push_new :
    {E : Type 0} (es : List E) (e : E) → get_elem? (es ++ e ∷ []) (length es) ≡ some e
get_elem?-push_new [] e = refl
get_elem?-push_new (x ∷ xs) e = get_elem?-push_new xs e

module _ {E K : Type 0} (eq : K → K → Bool) (test : IsTest eq) (f : E → K) where
  pub test-differs : (a b : K) → a ≢ b → eq a b ≡ false
  test-differs a b ne = elim (Bool-cases (eq a b)) [
    | inl e ↦ absurd (ne (test.sound a b e))
    | inr e ↦ e
  ]

  -- Two members never share a key.
  pub Indexes-apart :
      (m : K → Option ℕ) (es : List E)
      → Indexes f m es
      → (i j : ℕ) (e d : E) → get_elem? es i ≡ some e
      → get_elem? es j ≡ some d
      → f e ≡ f d
      → i ≡ j
  Indexes-apart m es x i j e d p q same =
      let a = x.here i e p in let b = x.here j d q in let c = ap m same in cc

  pub Indexes-set :
      (m : K → Option ℕ) (es : List E) (i : ℕ) (e d : E)
      → Indexes f m es
      → get_elem? es i ≡ some e
      → f d ≡ f e
      → Indexes f m (set es i d)
  Indexes-set m es i e d x at same = record {
    here = λ j c g. elim (Bool-cases (i == j)) [
      | inl p ↦
          let ij : i ≡ j = ground arith in
          let cd : d ≡ c = ground (arith, get_elem?-set es i j d lt) in
          ap m (ap f (sym cd) ∙ same) ∙ x.here i e at ∙ ap some ij
      | inr p ↦ x.here j c (ground (arith, get_elem?-set es i j d lt))
    ];
    there = λ k j g.
        let (c, p, q) = x.there k j g in
        elim (Bool-cases (i == j)) [
          | inl r ↦
              let ec : e ≡ c = ground arith in
              (d, ground (arith, get_elem?-set es i j d lt), same ∙ ap f ec ∙ q)
          | inr r ↦ (c, ground (arith, get_elem?-set es i j d lt), q)
        ];
  }
    where
      lt : i < length es
      lt = get_elem?-lt es i at

  pub Indexes-push :
      (m : K → Option ℕ) (es : List E) (e : E)
      → Indexes f m es
      → m (f e) ≡ none
      → Indexes f (put eq m (f e) (length es)) (es ++ e ∷ [])
  Indexes-push m es e x new = record {
    here = λ i d at. elim (get_elem?-push es e i at) [
      | inl (p, q) ↦ rw (ap f q, test.complete (f e), p) refl
      | inr q ↦ rw (test-differs (f e) (f d) (λ same. absurd (clash i d q same))) (x.here i d q)
    ];
    there = λ k i at. elim (Bool-cases (eq (f e) k)) [
      | inl p ↦
          let il : length es ≡ i = ground arith in
          (
            e,
            subst (λ n. get_elem? (es ++ e ∷ []) n ≡ some e) il (get_elem?-push_new es e),
            test.sound (f e) k p,
          )
      | inr p ↦ let (d, q, r) = x.there k i (ground arith) in (d, get_elem?-push_old es e i q, r)
    ];
  }
    where
      clash : (i : ℕ) (d : E) → get_elem? es i ≡ some d → f e ≡ f d → ⊥
      clash i d at same = let a = x.here i d at in let b = ap m same in cc

  pub Indexes-pop :
      (m : K → Option ℕ) (es : List E) (i : ℕ) (e : E)
      → Indexes f m es
      → get_elem? es i ≡ some e
      → suc i ≡ length es
      → Indexes f (delete eq m (f e)) (pop es)
  Indexes-pop m es i e x at last = record {
    here = λ j d g.
        let lt = get_elem?-pop_lt es j g in
        let old : get_elem? es j ≡ some d = sym (get_elem?-pop es j lt) ∙ g in
        rw
          (test-differs (f e) (f d) (λ same.
            absurd (let ij = Indexes-apart m es x i j e d at old same in omega (arith, last, lt))))
          (x.here j d old);
    there = λ k j g. elim (Bool-cases (eq (f e) k)) [
      | inl p ↦ absurd (ground arith)
      | inr p ↦
          let (d, q, r) = x.there k j (ground arith) in
          (d, get_elem?-pop es j (kept k j d p q r) ∙ q, r)
    ];
  }
    where
      kept :
          (k : K) (j : ℕ) (d : E)
          → eq (f e) k ≡ false
          → get_elem? es j ≡ some d
          → f d ≡ k
          → suc j < length es
      kept k j d p q r = elim (Bool-cases (i == j)) [
        | inl s ↦
            let ed : d ≡ e = ground arith in
            let t = test.complete (f e) in
            let u : f e ≡ k = ap f (sym ed) ∙ r in absurd (let v = ap (eq (f e)) u in cc)
        | inr s ↦ let lt = get_elem?-lt es j q in ground arith
      ]

  pub get_elem?-swap :
      (es : List E) (i j : ℕ) (d : E)
      → i < length es
      → suc j < length es
      → get_elem? (pop (set es i d)) j ≡ (if i == j then some d else get_elem? es j)
  get_elem?-swap es i j d lt inside =
      get_elem?-pop (set es i d) j (omega (arith, length-set es i d)) ∙ get_elem?-set es i j d lt

  pub Indexes-swap :
      (m : K → Option ℕ) (es : List E) (i n : ℕ) (e d : E)
      → Indexes f m es
      → get_elem? es i ≡ some e
      → get_elem? es n ≡ some d
      → suc n ≡ length es
      → i ≢ n
      → Indexes f (put eq (delete eq m (f e)) (f d) i) (pop (set es i d))
  Indexes-swap m es i n e d x at at_n last ne = record {
    here = λ j c g.
        let lt : suc j < length es =
          subst (λ k. suc j < k) (length-set es i d) (get_elem?-pop_lt (set es i d) j g) in
        let new = get_elem?-swap es i j d i_lt lt in
        elim (Bool-cases (i == j)) [
          | inl p ↦
              let ij : i ≡ j = ground arith in
              let dc : d ≡ c = ground arith in rw (ap f (sym dc), test.complete (f d), ij) refl
          | inr p ↦
              let old : get_elem? es j ≡ some c = ground arith in
              rw
                (
                  test-differs (f d) (f c) (λ same. absurd (
                      let nj = Indexes-apart m es x n j d c at_n old same in
                      omega (arith, last, lt))),
                  test-differs (f e) (f c) (λ same.
                      absurd (let ij = Indexes-apart m es x i j e c at old same in ground arith)),
                )
                (x.here j c old)
        ];
    there = λ k j g. elim (Bool-cases (eq (f d) k)) [
      | inl p ↦
          let ij : i ≡ j = ground arith in
          (
            d,
            get_elem?-swap es i j d i_lt (omega (arith, ij, i_lt, last, ne)) ∙ ground arith,
            test.sound (f d) k p,
          )
      | inr p ↦ elim (Bool-cases (eq (f e) k)) [
        | inl r ↦ absurd (ground arith)
        | inr r ↦
            let (c, q, s) = x.there k j (ground arith) in
            let ij = other i e k j c r at q s in
            let nj = other n d k j c p at_n q s in
            let lt = get_elem?-lt es j q in
            (c, get_elem?-swap es i j d i_lt (omega (arith, lt, last, nj)) ∙ ground arith, s)
      ]
    ];
  }
    where
      i_lt : i < length es
      i_lt = get_elem?-lt es i at

      other :
          (a : ℕ) (b : E) (k : K) (j : ℕ) (c : E)
          → eq (f b) k ≡ false
          → get_elem? es a ≡ some b
          → get_elem? es j ≡ some c
          → f c ≡ k
          → a ≢ j
      other a b k j c p q r s same =
          let bc : b ≡ c = ground arith in
          let t = test.complete (f b) in let v = ap (eq (f b)) (ap f bc ∙ s) in cc
