-- ===== src/PagedKv/Plan.antt =====
-- `plan_with_chain` and what follows a plan in paged_kv.rs: registration, eviction and the way back.
use mathlib.Core.List.{append_assoc, append-nil}
use machserve.Common.{
  ℕ, suc, ◌+◌, ◌-◌, ◌/◌, ◌≤◌, ◌<◌, ◌≡◌, refl, sym, ap, subst, ◌∙◌, ◌⊎◌, inl, inr, Bool, true, false,
  ◌&&◌, none, some, List, [], ◌∷◌, ◌++◌, length, take, drop, get_elem?, ltb, if◌then◌else◌, arith,
  Bool-cases, Option-cases, length-append, map, lt→ltb, returns,
}
use machserve.Common.Int.{ℤ}
use machserve.PagedKv.{
  PagedTable, PageAllocator, GpuPagedTableBuilder, PagedTablePlan, append, lookup, plan_loop,
  Looped, plan_with_chain,
}
use machserve.PagedKv.Alloc.{IsAllocator}
use machserve.PagedKv.Held.{
  exchange, drop-append, Aliases, Refused, Fresh, plan_loop-Fresh, Resolved,
}

-- How many pages may be aliased from page `page_idx` on.
abbrev pub limit : Bool → ℕ → ℕ → ℕ
limit allow_reuse full_pages page_idx = if allow_reuse then full_pages - page_idx else 0

abbrev pub Planning : List (List ℕ × ℕ) → ℕ → List ℕ → List (List ℕ) → List ℕ → Looped → Type 0
Planning cache n base hs aliased o =
    Refused base o
    ⊎ ((t : PagedTable) × (r : ℕ) × (b : PageAllocator) × (o ≡ returns (some (t, r), b))
        × Resolved cache n base hs aliased t.pages r b)

module _ (cache : List (List ℕ × ℕ)) (allow_reuse : Bool) (full_pages : ℕ) (base : List ℕ) where
  -- Where the first hash is not aliased, all pages are fresh.
  Fresh-Planning :
      (hs : List (List ℕ)) (page_idx : ℕ) (aliased : List ℕ) (o : Looped)
      → ((h : List ℕ)
          → 0 < limit allow_reuse full_pages page_idx
          → get_elem? hs 0 ≡ some h
          → lookup cache h ≡ none)
      → Refused base o ⊎ Fresh base aliased (0 + length hs) o
      → Planning cache (limit allow_reuse full_pages page_idx) base hs aliased o
  Fresh-Planning hs page_idx aliased o stop (inl r) = inl r
  Fresh-Planning hs page_idx aliased o stop (inr (t, b, fresh, run, pages, n, w)) = inr (
    t,
    length aliased,
    b,
    run,
    record {
      more = [];
      fresh = fresh;
      split = pages ∙ ap (λ l. l ++ fresh) (sym (append-nil aliased));
      counted = omega arith;
      hits = tt;
      all = omega (arith, n);
      within = omega arith;
      stop = stop;
      valid = w;
    },
  )

  plan_loop-Planning :
      (hs : List (List ℕ)) (a : PageAllocator) (page_idx : ℕ) (t : PagedTable) (aliased : List ℕ)
      → t.pages ≡ aliased
      → IsAllocator a base
      → Planning cache
          (limit allow_reuse full_pages page_idx)
          base
          hs
          aliased
          (plan_loop cache allow_reuse full_pages a page_idx false t (length aliased) hs)
  unfolding plan_loop append
  plan_loop-Planning [] a page_idx t aliased e w =
      Fresh-Planning [] page_idx aliased _ (λ h lt at. cc)
        (inr (t, a, [], refl, e ∙ sym (append-nil aliased), omega arith, w))
  plan_loop-Planning (h ∷ hs) a page_idx t aliased e w =
      elim (Bool-cases (allow_reuse && ltb page_idx full_pages)) [
        | inl c ↦ elim (Option-cases (lookup cache h)) [
          | inl q ↦
              let same : plan_loop cache allow_reuse full_pages a page_idx true t (length aliased)
                    (h ∷ hs)
                  ≡ plan_loop cache allow_reuse full_pages a page_idx false t (length aliased)
                      (h ∷ hs) =
                rw (c, plan_loop) (rw q refl) in
              subst (Planning cache (limit allow_reuse full_pages page_idx) base (h ∷ hs) aliased)
                same
                (Fresh-Planning (h ∷ hs) page_idx aliased _
                  (λ k lt at. let s : h ≡ k = cc in subst (λ l. lookup cache l ≡ none) s q)
                  (plan_loop-Fresh cache allow_reuse full_pages aliased base (h ∷ hs) a page_idx
                    true t [] refl (e ∙ sym (append-nil aliased)) w))
          | inr (p, q) ↦
              let longer : length (aliased ++ p ∷ []) ≡ suc (length aliased) =
                omega (arith, length-append aliased (p ∷ [])) in
              let one_less : limit allow_reuse full_pages page_idx
                  ≡ suc (limit allow_reuse full_pages (suc page_idx)) =
                ground (arith, c) in
              let step =
                ap
                  (λ r.
                    plan_loop cache allow_reuse full_pages a (suc page_idx) false (append t p) r hs)
                  longer in
              elim (plan_loop-Planning hs a (suc page_idx) (append t p) (aliased ++ p ∷ [])
                (ap (λ l. l ++ p ∷ []) e) w) [
                  | inl (b, rest, v) ↦ inl (b, rw (c, plan_loop) (rw q (sym step ∙ rest)), v)
                  | inr (u, r, b, rest, z) ↦ inr (
                    u,
                    r,
                    b,
                    rw (c, plan_loop) (rw q (sym step ∙ rest)),
                    record {
                      more = p ∷ z.more;
                      fresh = z.fresh;
                      split =
                          z.split ∙ ap (λ l. l ++ z.fresh) (append_assoc aliased (p ∷ []) z.more);
                      counted = let n = z.counted in omega (arith, n, longer);
                      hits = (q, z.hits);
                      all = let n = z.all in omega (arith, n);
                      within = let n = z.within in omega (arith, n, one_less);
                      stop = λ k lt at. z.stop k (omega (arith, lt, one_less)) at;
                      valid = z.valid;
                    },
                  )
                ]
        ]
        | inr c ↦
            Fresh-Planning (h ∷ hs) page_idx aliased _ (λ k lt at. absurd (ground (arith, c, lt)))
              (plan_loop-Fresh cache allow_reuse full_pages aliased base (h ∷ hs) a page_idx false t
                [] c (e ∙ sym (append-nil aliased)) w)
      ]

-- No hash is listed twice.
abbrev pub Keyed : List (List ℕ × ℕ) → Type 0
Keyed [] = Unit
Keyed ((h, p) ∷ cache) = (lookup cache h ≡ none) × Keyed cache

-- The invariant of a builder, where tables own the pages `held`: the cache owns the others that are out.
pub record IsBuilder (b : GpuPagedTableBuilder) (held : List ℕ) : Type 0 where
  pub allocator : IsAllocator b.allocator (map (λ e. e.1) b.cache ++ held)
  pub page_size : 0 < b.tokens_per_page
  pub keys : Keyed b.cache

-- What `plan_with_chain` promises of a plan.
pub record Promised (b : GpuPagedTableBuilder) (held : List ℕ) (tokens : List ℤ)
    (chain : List (List ℕ)) (allow_reuse : Bool) (q : PagedTablePlan) (c : GpuPagedTableBuilder)
    : Type 0 where
  pub valid : IsBuilder c (drop q.reused_pages q.table.pages ++ held)
  pub aliases : Aliases b.cache (take q.reused_pages chain) (take q.reused_pages q.table.pages)
  pub covers : length q.table.pages ≡ length chain
  pub full_only : q.reused_pages ≤ length tokens / b.tokens_per_page
  pub longest :
      (h : List ℕ)
      → allow_reuse ≡ true
      → q.reused_pages < length tokens / b.tokens_per_page
      → get_elem? chain q.reused_pages ≡ some h
      → lookup b.cache h ≡ none
  pub kept : c.cache ≡ b.cache
  pub same_size : c.tokens_per_page ≡ b.tokens_per_page

pub take-append : (xs ys : List ℕ) → take (length xs) (xs ++ ys) ≡ xs
take-append [] ys = refl
take-append (x ∷ xs) ys = ap (λ l. x ∷ l) (take-append xs ys)

module _ (b : GpuPagedTableBuilder) (held : List ℕ) (w : IsBuilder b held) where
  pub with_allocator :
      (a : PageAllocator) (ks : List ℕ)
      → IsAllocator a (ks ++ (map (λ e. e.1) b.cache ++ held))
      → IsBuilder (record b { allocator = a }) (ks ++ held)
  with_allocator a ks v = record {
    allocator = exchange a ks (map (λ e. e.1) b.cache) held v;
    page_size = w.page_size;
    keys = w.keys;
  }

  -- Under the builder's invariant `plan_with_chain` returns and leaves the cache as it was. Without a
  -- plan, the tables own the same pages as before. With one, its pages after the aliased ones are added
  -- to them; the aliased ones are the cached pages of the first hashes, at most as many as there are full
  -- pages; when reuse is allowed they end at a hash that is not cached or at the last full page; and the
  -- table has a page for each hash.
  pub plan_with_chain-Promised :
      (tokens : List ℤ) (chain : List (List ℕ)) (allow_reuse : Bool)
      → ((c : GpuPagedTableBuilder) × (plan_with_chain b tokens chain allow_reuse
            ≡ returns (none, c))
          × IsBuilder c held
          × (c.cache ≡ b.cache))
        ⊎ ((q : PagedTablePlan) × (c : GpuPagedTableBuilder) × (plan_with_chain b tokens chain
                allow_reuse
              ≡ returns (some q, c))
            × Promised b held tokens chain allow_reuse q c)
  unfolding plan_with_chain
  plan_with_chain-Promised tokens chain allow_reuse =
      let full = length tokens / b.tokens_per_page in
      let size : ltb 0 b.tokens_per_page ≡ true = lt→ltb 0 b.tokens_per_page w.page_size in
      let base = map (λ e. e.1) b.cache ++ held in
      elim (plan_loop-Planning b.cache allow_reuse full base chain b.allocator 0
        (record { pages = [] }) [] refl w.allocator) [
          | inl (a, run, v) ↦
              inl (record b { allocator = a }, rw size (rw run refl), with_allocator a [] v, refl)
          | inr (t, r, a, run, z) ↦
              let q : PagedTablePlan = record {
                table = t;
                full_pages = full;
                reused_pages = r;
                chain = chain;
              } in
              inr (q, record b { allocator = a }, rw size (rw run refl), promise q a z)
        ]
    where
      promise :
          (q : PagedTablePlan) (a : PageAllocator)
          → Resolved b.cache
              (limit allow_reuse (length tokens / b.tokens_per_page) 0)
              (map (λ e. e.1) b.cache ++ held)
              chain
              []
              q.table.pages
              q.reused_pages
              a
          → Promised b held tokens chain allow_reuse q (record b { allocator = a })
      promise q a z =
          let r : q.reused_pages ≡ length z.more = let n = z.counted in omega (arith, n) in
          let fresh : drop q.reused_pages q.table.pages ≡ z.fresh =
            ap (λ n. drop n q.table.pages) r
            ∙ ap (drop (length z.more)) z.split
            ∙ drop-append z.more z.fresh in
          let old : take q.reused_pages q.table.pages ≡ z.more =
            ap (λ n. take n q.table.pages) r
            ∙ ap (take (length z.more)) z.split
            ∙ take-append z.more z.fresh in
          let most = z.within in
          record {
            valid =
                subst (λ l. IsBuilder (record b { allocator = a }) (l ++ held)) (sym fresh)
                  (with_allocator a z.fresh z.valid);
            aliases =
                subst (λ l. Aliases b.cache (take q.reused_pages chain) l) (sym old)
                  (subst (λ n. Aliases b.cache (take n chain) z.more) (sym r) z.hits);
            covers =
                let n = z.all in
                let l = ap length z.split in omega (arith, n, l, length-append z.more z.fresh);
            full_only = ground (arith, r, most);
            longest = λ h allowed lt at.
                z.stop h (ground (arith, allowed, lt, r)) (ap (get_elem? chain) (sym r) ∙ at);
            kept = refl;
            same_size = refl;
          }
