-- ===== src/PagedKv/Evict.antt =====
-- `evict_page` of paged_kv.rs, and a second plan for a prompt that is registered.
use machserve.Common.{
  ℕ, zero, suc, ◌/◌, ◌≤◌, ◌<◌, ◌≡◌, ◌≢◌, refl, sym, ap, subst, ◌∙◌, ◌⊎◌, inl, inr, Bool, true,
  false, none, some, List, [], ◌∷◌, ◌++◌, length, take, get_elem?, get_elem?-total, list_eq,
  list_eq_sound, list_eq_self, ltb, if◌then◌else◌, arith, Bool-cases, Option-cases, occurs,
  occurs-append, length-append, returns,
}
use machserve.Common.Int.{ℤ}
use machserve.PagedKv.{
  GpuPagedTableBuilder, PagedTablePlan, lookup, without, register_chain, plan_with_chain,
  evict_page, page_of,
}
use machserve.PagedKv.Alloc.{free-IsAllocator}
use machserve.PagedKv.Held.{reordered, Aliases}
use machserve.PagedKv.Plan.{Keyed, IsBuilder, Promised, plan_with_chain-Promised}
use machserve.PagedKv.Register.{owned, register_chain-IsBuilder}

-- What holds after a hash and its page were taken out.
record Out (old : List (List ℕ × ℕ)) (h : List ℕ) (p : ℕ) (cache : List (List ℕ × ℕ)) : Type 0 where
  same : (x : ℕ) → occurs x (owned old) ≡ occurs x (p ∷ owned cache)
  size : length (owned old) ≡ suc (length (owned cache))
  keys : Keyed cache
  others : (k : List ℕ) → lookup cache k ≡ (if list_eq h k then none else lookup old k)

without-Out :
    (old : List (List ℕ × ℕ)) (h : List ℕ) (p : ℕ)
    → Keyed old
    → lookup old h ≡ some p
    → Out old h p (without old h)
without-Out [] h p k e = cc
without-Out ((j, q) ∷ old) h p k e = elim (Bool-cases (list_eq j h)) [
  | inl t ↦
      let same : j ≡ h = list_eq_sound j h t in
      let page : q ≡ p = let d = e in some_of (sym (rw t refl) ∙ d) in
      rw t (record {
        same = λ x. ap (λ n. occurs x (n ∷ owned old)) page;
        size = refl;
        keys = k.1;
        others = λ i. elim (Bool-cases (list_eq h i)) [
          | inl s ↦
              let hi : h ≡ i = list_eq_sound h i s in rw s (sym (ap (lookup old) (same ∙ hi)) ∙ k.0)
          | inr s ↦ rw s (rw (ap (λ l. list_eq l i) same) (rw s refl))
        ];
      })
  | inr t ↦
      let r = without-Out old h p k.1 (sym (rw t refl) ∙ e) in
      rw t (record {
        same = λ x. let s = r.same x in omega (arith, s);
        size = let s = r.size in omega (arith, s);
        keys = (r.others j ∙ gone j k.0, r.keys);
        others = λ i. elim (Bool-cases (list_eq j i)) [
          | inl s ↦ elim (Bool-cases (list_eq h i)) [
            | inl u ↦ absurd (
                let same = list_eq_sound j i s ∙ sym (list_eq_sound h i u) in
                let yes = ap (λ l. list_eq l h) same ∙ list_eq_self h in
                let both = sym t ∙ yes in cc)
            | inr u ↦ rw s (rw u refl)
          ]
          | inr s ↦ rw s (r.others i)
        ];
      })
]
  where
    some_of : {m n : ℕ} → some m ≡ some n → m ≡ n
    some_of h = cc

    gone : (i : List ℕ) → lookup old i ≡ none → (if list_eq h i then none else lookup old i) ≡ none
    gone i z = elim (Bool-cases (list_eq h i)) [ inl s ↦ rw s refl | inr s ↦ rw s z ]

-- Under the invariant a hash that is not registered is not evicted, and nothing changes. Otherwise its
-- page goes back to the pool, tables own the same pages as before, and that hash alone is forgotten.
pub evict_page-IsBuilder :
    (b : GpuPagedTableBuilder) (hash : List ℕ) (held : List ℕ)
    → IsBuilder b held
    → ((page_of b hash ≡ none) × (evict_page b hash ≡ returns (false, b)))
      ⊎ ((p : ℕ) × (c : GpuPagedTableBuilder) × (page_of b hash ≡ some p)
          × (evict_page b hash ≡ returns (true, c))
          × IsBuilder c held
          × ((k : List ℕ) → page_of c k ≡ (if list_eq hash k then none else page_of b k)))
unfolding page_of evict_page
evict_page-IsBuilder b hash held w = elim (Option-cases (lookup b.cache hash)) [
  | inl q ↦ inl (q, rw (q, evict_page) refl)
  | inr (p, q) ↦
      let r = without-Out b.cache hash p w.keys q in
      let rest = owned (without b.cache hash) in
      let v =
        reordered b.allocator (owned b.cache ++ held) (p ∷ (rest ++ held))
          (λ x.
            let s = r.same x in
            let i = occurs-append x (owned b.cache) held in
            let j = occurs-append x rest held in omega (arith, s, i, j))
          (let s = r.size in
            omega (arith, s, length-append (owned b.cache) held, length-append rest held))
          w.allocator in
      let (a, run, u, _) = free-IsAllocator b.allocator p (rest ++ held) v in
      inr (
        p,
        record b { cache = without b.cache hash; allocator = a },
        q,
        rw (q, evict_page) (rw run refl),
        record { allocator = u; page_size = w.page_size; keys = r.keys },
        r.others,
      )
]

take-take : {A : Type 0} (m n : ℕ) (xs : List A) → m ≤ n → take m (take n xs) ≡ take m xs
take-take zero n xs le = refl
take-take (suc m) zero xs le = absurd (omega (arith, le))
take-take (suc m) (suc n) [] le = refl
take-take (suc m) (suc n) (x ∷ xs) le = ap (λ l. x ∷ l) (take-take m n xs (omega (arith, le)))

get_elem?-first :
    {A : Type 0} (n : ℕ) (xs : List A) (i : ℕ) → i < n → get_elem? (take n xs) i ≡ get_elem? xs i
get_elem?-first zero xs i lt = absurd (omega (arith, lt))
get_elem?-first (suc n) [] i lt = refl
get_elem?-first (suc n) (x ∷ xs) zero lt = refl
get_elem?-first (suc n) (x ∷ xs) (suc i) lt = get_elem?-first n xs i (omega (arith, lt))

-- The builder once the full pages of the plan hold their content.
abbrev pub materialized :
    GpuPagedTableBuilder → List (List ℕ) → PagedTablePlan → ℕ → GpuPagedTableBuilder
materialized c chain q full = register_chain c (take full chain) q.table

module _ (b : GpuPagedTableBuilder) (held : List ℕ) (tokens : List ℤ) (chain : List (List ℕ))
    (allow_reuse : Bool) (q : PagedTablePlan) (c : GpuPagedTableBuilder)
    (promised : Promised b held tokens chain allow_reuse q c) where
  pub materialized-IsBuilder :
      (full : ℕ)
      → q.reused_pages ≤ full
      → (left : List ℕ) × IsBuilder (materialized c chain q full) (left ++ held)
        × ((i : ℕ) (h : List ℕ)
            → i < length q.table.pages
            → get_elem? (take full chain) i ≡ some h
            → page_of (materialized c chain q full) h ≢ none)
  materialized-IsBuilder full le =
      let first = take-take q.reused_pages full chain le in
      let hits =
        subst
          (λ k.
            Aliases k (take q.reused_pages (take full chain)) (take q.reused_pages q.table.pages))
          (sym promised.kept)
          (subst (λ l. Aliases b.cache l (take q.reused_pages q.table.pages)) (sym first)
            promised.aliases) in
      let (left, w, _, found) =
        register_chain-IsBuilder c (take full chain) q.table q.reused_pages held promised.valid
          hits in
      (left, w, found)

  -- After a promised plan whose full pages, no more than its hashes, were registered, the same prompt is
  -- refused for want of pages or reuses exactly the full pages.
  pub plan-again :
      (full : ℕ)
      → full ≡ length tokens / b.tokens_per_page
      → full ≤ length chain
      → ((d : GpuPagedTableBuilder) × (plan_with_chain
              (materialized c chain q full)
              tokens
              chain
              true
            ≡ returns (none, d)))
        ⊎ ((r : PagedTablePlan) × (d : GpuPagedTableBuilder) × (plan_with_chain
                (materialized c chain q full)
                tokens
                chain
                true
              ≡ returns (some r, d))
            × (r.reused_pages ≡ full))
  unfolding page_of register_chain
  plan-again full is_full fits =
      let few = promised.full_only in
      let (left, w, found) = materialized-IsBuilder full (omega (arith, few, is_full)) in
      elim (plan_with_chain-Promised (materialized c chain q full) (left ++ held) w tokens chain
        true) [
          | inl (d, run, _, _) ↦ inl (d, run)
          | inr (r, d, run, again) ↦
              let size = ap (λ n. length tokens / n) promised.same_size in
              let most = again.full_only in
              let all = promised.covers in
              inr (
                r,
                d,
                run,
                elim (Bool-cases (ltb r.reused_pages full)) [
                  | inl lt ↦
                      let short : r.reused_pages < full = ground (arith, lt) in
                      let (h, at) =
                        get_elem?-total chain r.reused_pages (omega (arith, short, fits)) in
                      let missing = again.longest h refl (omega (arith, short, is_full, size)) at in
                      absurd (
                        found r.reused_pages h (omega (arith, short, fits, all))
                          (get_elem?-first full chain r.reused_pages short ∙ at) missing)
                  | inr ge ↦
                      let no_more : r.reused_pages ≤ full = omega (arith, most, is_full, size) in
                      ground (arith, ge, no_more)
                ],
              )
        ]
