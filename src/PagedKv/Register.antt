-- ===== src/PagedKv/Register.antt =====
-- `register_chain` and `evict_page` of paged_kv.rs: what a plan computed is found by the next one.
use machserve.Common.{
  ℕ, zero, suc, ◌+◌, ◌-◌, ◌<◌, ◌≡◌, ◌≢◌, refl, sym, ap, ◌∙◌, inl, inr, none, some, List, [], ◌∷◌,
  ◌++◌, map, length, take, drop, get_elem?, get_elem?-drop, list_eq, list_eq_sound, list_eq_self,
  ltb, arith, length-drop, Bool-cases, Option-cases, occurs, occurs-append, length-append,
}
use machserve.PagedKv.{
  PagedTable, GpuPagedTableBuilder, lookup, register_pages, register_chain, page_of,
}
use machserve.PagedKv.Held.{reordered, Aliases}
use machserve.PagedKv.Plan.{Keyed, IsBuilder}

abbrev pub owned : List (List ℕ × ℕ) → List ℕ
owned cache = map (λ e. e.1) cache

-- What is cached stays cached, under the same page.
abbrev pub Grows : List (List ℕ × ℕ) → List (List ℕ × ℕ) → Type 0
Grows old cache = (h : List ℕ) (p : ℕ) → lookup old h ≡ some p → lookup cache h ≡ some p

-- What holds after the pages were registered: those `left` stay with the table.
pub record Registered (old : List (List ℕ × ℕ)) (hs : List (List ℕ)) (ps : List ℕ)
    (cache : List (List ℕ × ℕ)) : Type 0 where
  pub left : List ℕ
  pub same : (p : ℕ) → occurs p (owned cache) + occurs p left ≡ occurs p (owned old) + occurs p ps
  pub size : length (owned cache) + length left ≡ length (owned old) + length ps
  pub keys : Keyed cache
  pub grows : Grows old cache
  pub found : (i : ℕ) (h : List ℕ) → i < length ps → get_elem? hs i ≡ some h → lookup cache h ≢ none

all_found :
    (cache : List (List ℕ × ℕ)) (h : List ℕ) (p : ℕ) (hs : List (List ℕ)) (n : ℕ)
    → lookup cache h ≡ some p
    → ((i : ℕ) (k : List ℕ) → i < n → get_elem? hs i ≡ some k → lookup cache k ≢ none)
    → (i : ℕ) (k : List ℕ) → i < suc n
    → get_elem? (h ∷ hs) i ≡ some k
    → lookup cache k ≢ none
all_found cache h p hs n here rest zero k lt at e =
    let same : h ≡ k = cc in let both = sym here ∙ ap (lookup cache) same ∙ e in cc
all_found cache h p hs n here rest (suc i) k lt at e = rest i k (omega (arith, lt)) at e

register_pages-Registered :
    (old : List (List ℕ × ℕ)) (hs : List (List ℕ)) (ps : List ℕ)
    → Keyed old
    → Registered old hs ps (register_pages old hs ps)
unfolding register_pages
register_pages-Registered old [] ps k = record {
  left = ps;
  same = λ p. refl;
  size = refl;
  keys = k;
  grows = λ h p e. e;
  found = λ i h lt at e. cc;
}
register_pages-Registered old (h ∷ hs) [] k = record {
  left = [];
  same = λ p. refl;
  size = refl;
  keys = k;
  grows = λ h p e. e;
  found = λ i h lt at e. omega (arith, lt);
}
register_pages-Registered old (h ∷ hs) (p ∷ ps) k = elim (Option-cases (lookup old h)) [
  | inl q ↦
      let r = register_pages-Registered ((h, p) ∷ old) hs ps (q, k) in
      rw (q, register_pages)
        (record {
          left = r.left;
          same = λ x. let s = r.same x in omega (arith, s);
          size = let s = r.size in omega (arith, s);
          keys = r.keys;
          grows = λ x y e. r.grows x y (elim (Bool-cases (list_eq h x)) [
            | inl t ↦ absurd (let hx = list_eq_sound h x t in let n = ap (lookup old) hx in cc)
            | inr t ↦ rw t e
          ]);
          found =
              all_found (register_pages ((h, p) ∷ old) hs ps) h p hs (length ps)
                (r.grows h p (rw (list_eq_self h) refl)) r.found;
        })
  | inr (y, q) ↦
      let r = register_pages-Registered old hs ps k in
      rw (q, register_pages)
        (record {
          left = p ∷ r.left;
          same = λ x. let s = r.same x in omega (arith, s);
          size = let s = r.size in omega (arith, s);
          keys = r.keys;
          grows = r.grows;
          found = all_found (register_pages old hs ps) h y hs (length ps) (r.grows h y q) r.found;
        })
]

-- Pages that are aliases are registered already.
register_pages-aliases :
    (cache : List (List ℕ × ℕ)) (n : ℕ) (hs : List (List ℕ)) (ps : List ℕ)
    → Aliases cache (take n hs) (take n ps)
    → register_pages cache hs ps ≡ register_pages cache (drop n hs) (drop n ps)
unfolding register_pages
register_pages-aliases cache zero hs ps a = refl
register_pages-aliases cache (suc n) [] ps a = refl
register_pages-aliases cache (suc n) (h ∷ hs) [] a = elim a [ ]
register_pages-aliases cache (suc n) (h ∷ hs) (p ∷ ps) a =
    rw (a.0, register_pages) (register_pages-aliases cache n hs ps a.1)

Aliases-found :
    (cache : List (List ℕ × ℕ)) (n : ℕ) (hs : List (List ℕ)) (ps : List ℕ) (i : ℕ) (h : List ℕ)
    → Aliases cache (take n hs) (take n ps)
    → i < n
    → get_elem? hs i ≡ some h
    → (p : ℕ) × (lookup cache h ≡ some p)
Aliases-found cache zero hs ps i h a lt at = absurd (omega (arith, lt))
Aliases-found cache (suc n) [] ps i h a lt at = cc
Aliases-found cache (suc n) (k ∷ hs) [] i h a lt at = elim a [ ]
Aliases-found cache (suc n) (k ∷ hs) (p ∷ ps) zero h a lt at =
    let same : k ≡ h = cc in (p, sym (ap (lookup cache) same) ∙ a.0)
Aliases-found cache (suc n) (k ∷ hs) (p ∷ ps) (suc i) h a lt at =
    Aliases-found cache n hs ps i h a.1 (omega (arith, lt)) at

-- Where the first `n` pages of a table are aliases of the first `n` hashes, and tables own the others:
-- after the hashes are registered the tables own some of them and the cache the rest, what was cached
-- stays under its page, and each hash with a page is cached.
pub register_chain-IsBuilder :
    (b : GpuPagedTableBuilder) (hs : List (List ℕ)) (t : PagedTable) (n : ℕ) (held : List ℕ)
    → IsBuilder b (drop n t.pages ++ held)
    → Aliases b.cache (take n hs) (take n t.pages)
    → (left : List ℕ) × IsBuilder (register_chain b hs t) (left ++ held)
      × Grows b.cache (register_chain b hs t).cache
      × ((i : ℕ) (h : List ℕ)
          → i < length t.pages
          → get_elem? hs i ≡ some h
          → page_of (register_chain b hs t) h ≢ none)
unfolding register_chain page_of
register_chain-IsBuilder b hs t n held w a =
    let r = register_pages-Registered b.cache (drop n hs) (drop n t.pages) w.keys in
    let cache = register_pages b.cache (drop n hs) (drop n t.pages) in
    let e = register_pages-aliases b.cache n hs t.pages a in
    rw e (
      r.left,
      record {
        allocator =
            reordered b.allocator (owned b.cache ++ (drop n t.pages ++ held))
              (owned cache ++ (r.left ++ held))
              (λ p.
                let s = r.same p in
                let i = occurs-append p (owned b.cache) (drop n t.pages ++ held) in
                let j = occurs-append p (drop n t.pages) held in
                let k = occurs-append p (owned cache) (r.left ++ held) in
                let l = occurs-append p r.left held in omega (arith, s, i, j, k, l))
              (let s = r.size in
                let i = length-append (owned b.cache) (drop n t.pages ++ held) in
                let j = length-append (drop n t.pages) held in
                let k = length-append (owned cache) (r.left ++ held) in
                let l = length-append r.left held in omega (arith, s, i, j, k, l))
              w.allocator;
        page_size = w.page_size;
        keys = r.keys;
      },
      r.grows,
      λ i h lt at. found cache r.grows r.found i h lt at,
    )
  where
    found :
        (cache : List (List ℕ × ℕ))
        → Grows b.cache cache
        → ((i : ℕ) (h : List ℕ)
            → i < length (drop n t.pages)
            → get_elem? (drop n hs) i ≡ some h
            → lookup cache h ≢ none)
        → (i : ℕ) (h : List ℕ) → i < length t.pages
        → get_elem? hs i ≡ some h
        → lookup cache h ≢ none
    found cache grows later i h lt at gone = elim (Bool-cases (ltb i n)) [
      | inl early ↦
          let (p, q) = Aliases-found b.cache n hs t.pages i h a (ground arith) at in
          let both = sym (grows h p q) ∙ gone in cc
      | inr late ↦
          let size = length-drop n t.pages in
          let s : n + (i - n) ≡ i = ground arith in
          later (i - n) h (ground (arith, size, lt, late))
            (get_elem?-drop n hs (i - n) ∙ ap (get_elem? hs) s ∙ at) gone
    ]
