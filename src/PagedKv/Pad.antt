-- ===== src/PagedKv/Pad.antt =====
-- `pad_table`, `free_plan_pages` and `free_page` of paged_kv.rs.
use mathlib.Core.List.{append_assoc, append-nil}
use machserve.Common.{
  ℕ, zero, suc, ◌+◌, ◌-◌, ◌≡◌, refl, sym, ap, ◌∙◌, ◌⊎◌, inl, inr, true, false, List, [], ◌∷◌, ◌++◌,
  map, length, take, drop, arith, occurs-append, length-append, returns,
}
use machserve.PagedKv.{
  PagedTable, PageAllocator, GpuPagedTableBuilder, PagedTablePlan, append, len, truncate, pad_loop,
  pad_table, free_plan_pages,
}
use machserve.PagedKv.Alloc.{IsAllocator, alloc-Taken, free_all-IsAllocator}
use machserve.PagedKv.Held.{exchange, reordered, drop-append}
use machserve.PagedKv.Plan.{IsBuilder, with_allocator, take-append}

-- The page that was taken goes to the end of the fresh pages.
taken_last :
    (a : PageAllocator) (fresh base : List ℕ) (p : ℕ)
    → IsAllocator a (p ∷ (fresh ++ base))
    → IsAllocator a ((fresh ++ p ∷ []) ++ base)
taken_last a fresh base p =
    reordered a (p ∷ (fresh ++ base)) ((fresh ++ p ∷ []) ++ base)
      (λ q.
        let l = occurs-append q fresh base in
        let r = occurs-append q (fresh ++ p ∷ []) base in
        let o = occurs-append q fresh (p ∷ []) in omega (arith, l, r, o))
      (omega (
        arith,
        length-append fresh base,
        length-append (fresh ++ p ∷ []) base,
        length-append fresh (p ∷ []),
      ))

module _ (old base : List ℕ) where
  padded :
      (missing : ℕ) (a : PageAllocator) (t : PagedTable) (fresh : List ℕ)
      → t.pages ≡ old ++ fresh
      → IsAllocator a (fresh ++ base)
      → ((t' : PagedTable) × (b : PageAllocator) × (pad_loop a (length old) t missing
            ≡ returns (false, t', b))
          × (t'.pages ≡ old)
          × IsAllocator b base)
        ⊎ ((t' : PagedTable) × (b : PageAllocator) × (all : List ℕ) × (pad_loop a
                (length old)
                t
                missing
              ≡ returns (true, t', b))
            × (t'.pages ≡ old ++ all)
            × (length all ≡ length fresh + missing)
            × IsAllocator b (all ++ base))
  unfolding pad_loop append truncate
  padded zero a t fresh e w = inr (t, a, fresh, refl, e, omega arith, w)
  padded (suc missing) a t fresh e w = elim (alloc-Taken a (fresh ++ base) w) [
    | inl (_, run) ↦
        let (b, back, v, _) = free_all-IsAllocator a fresh base w in
        let rest = ap (drop (length old)) e ∙ drop-append old fresh in
        inl (
          truncate t (length old),
          b,
          rw run (rw rest (rw back refl)),
          ap (take (length old)) e ∙ take-append old fresh,
          v,
        )
    | inr (p, m, run, k) ↦
        let size = length-append fresh (p ∷ []) in
        elim (padded missing m (append t p) (fresh ++ p ∷ [])
          (ap (λ l. l ++ p ∷ []) e ∙ append_assoc old fresh (p ∷ []))
          (taken_last m fresh base p k.valid)) [
            | inl (t', b, rest, pages, u) ↦ inl (t', b, rw run rest, pages, u)
            | inr (t', b, all, rest, pages, n, u) ↦
                inr (t', b, all, rw run rest, pages, omega (arith, n, size), u)
          ]
  ]

-- Under the invariant `pad_table` returns. Either the table and the pages that tables own are as before,
-- or the pages that were missing are appended, and tables own them too.
pub pad_table-IsBuilder :
    (b : GpuPagedTableBuilder) (table : PagedTable) (max_pages : ℕ) (held : List ℕ)
    → IsBuilder b held
    → ((t : PagedTable) × (c : GpuPagedTableBuilder) × (pad_table b table max_pages
          ≡ returns (false, t, c))
        × (t.pages ≡ table.pages)
        × IsBuilder c held)
      ⊎ ((t : PagedTable) × (c : GpuPagedTableBuilder) × (fresh : List ℕ) × (pad_table b table
              max_pages
            ≡ returns (true, t, c))
          × (t.pages ≡ table.pages ++ fresh)
          × (length fresh ≡ max_pages - length table.pages)
          × IsBuilder c (fresh ++ held))
unfolding pad_table len
pad_table-IsBuilder b table max_pages held w =
    elim (padded table.pages (map (λ e. e.1) b.cache ++ held) (max_pages - length table.pages)
      b.allocator table [] (sym (append-nil table.pages)) w.allocator) [
        | inl (t, a, run, pages, v) ↦
            inl (t, record b { allocator = a }, rw run refl, pages, with_allocator b held w a [] v)
        | inr (t, a, fresh, run, pages, n, v) ↦ inr (
          t,
          record b { allocator = a },
          fresh,
          rw run refl,
          pages,
          omega (arith, n),
          with_allocator b held w a fresh v,
        )
      ]

-- The pages of a plan after the aliased ones are given back, and no others.
pub free_plan_pages-IsBuilder :
    (b : GpuPagedTableBuilder) (q : PagedTablePlan) (t : PagedTable) (held : List ℕ)
    → IsBuilder b (drop q.reused_pages t.pages ++ held)
    → (c : GpuPagedTableBuilder) × (free_plan_pages b q t ≡ returns c)
      × IsBuilder c held
      × (c.cache ≡ b.cache)
unfolding free_plan_pages
free_plan_pages-IsBuilder b q t held w =
    let ps = drop q.reused_pages t.pages in
    let owned = map (λ e. e.1) b.cache in
    let v = exchange b.allocator owned ps held w.allocator in
    let (a, run, u, _) = free_all-IsAllocator b.allocator ps (owned ++ held) v in
    (
      record b { allocator = a },
      rw run refl,
      record { allocator = u; page_size = w.page_size; keys = w.keys },
      refl,
    )
