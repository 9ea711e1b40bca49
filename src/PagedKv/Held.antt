-- ===== src/PagedKv/Held.antt =====
-- The loop of `plan_with_chain` in paged_kv.rs: aliases of cached pages, then fresh pages.
use mathlib.Core.List.{append_assoc, reverse, reverse-cons}
use machserve.Common.{
  ℕ, suc, ◌+◌, ◌≤◌, ◌<◌, ◌≡◌, refl, ap, ◌∙◌, ◌⊎◌, inl, inr, Bool, true, false, not, ◌&&◌, none,
  some, List, [], ◌∷◌, ◌++◌, length, take, drop, get_elem?, ltb, ◌==◌, arith, occurs, occurs-append,
  length-append, returns,
}
use machserve.PagedKv.{PagedTable, PageAllocator, append, lookup, free_all, plan_loop, Looped}
use machserve.PagedKv.Alloc.{IsAllocator, alloc-Taken, free_all-IsAllocator}

-- The order of the held pages does not matter.
pub reordered :
    (a : PageAllocator) (hs ks : List ℕ)
    → ((p : ℕ) → occurs p hs ≡ occurs p ks)
    → length hs ≡ length ks
    → IsAllocator a hs
    → IsAllocator a ks
reordered a hs ks same size w = record {
  size = w.size;
  bound = w.bound;
  split = λ p. let s = same p in let o = w.split p in omega (arith, s, o);
  marks = λ p lt. w.marks p lt ∙ ap (λ n. some (not (n == 0))) (same p);
  room = let r = w.room in omega (arith, r, size);
}

pub exchange :
    (a : PageAllocator) (xs ys zs : List ℕ)
    → IsAllocator a (xs ++ (ys ++ zs))
    → IsAllocator a (ys ++ (xs ++ zs))
exchange a xs ys zs =
    reordered a (xs ++ (ys ++ zs)) (ys ++ (xs ++ zs))
      (λ p.
        let l = occurs-append p xs (ys ++ zs) in
        let m = occurs-append p ys zs in
        let n = occurs-append p ys (xs ++ zs) in
        let o = occurs-append p xs zs in omega (arith, l, m, n, o))
      (omega (
        arith,
        length-append xs (ys ++ zs),
        length-append ys zs,
        length-append ys (xs ++ zs),
        length-append xs zs,
      ))

occurs-reverse : (p : ℕ) (xs : List ℕ) → occurs p (reverse xs) ≡ occurs p xs
occurs-reverse p [] = refl
occurs-reverse p (x ∷ xs) =
    let e = ap (occurs p) (reverse-cons x xs) in
    omega (arith, e, occurs-append p (reverse xs) (x ∷ []), occurs-reverse p xs)

length-reverse : (xs : List ℕ) → length (reverse xs) ≡ length xs
length-reverse [] = refl
length-reverse (x ∷ xs) =
    let e = ap length (reverse-cons x xs) in
    omega (arith, e, length-append (reverse xs) (x ∷ []), length-reverse xs)

pub drop-append : (xs ys : List ℕ) → drop (length xs) (xs ++ ys) ≡ ys
drop-append [] ys = refl
drop-append (x ∷ xs) ys = drop-append xs ys

-- The hashes are cached, each with the page beside it.
abbrev pub Aliases : List (List ℕ × ℕ) → List (List ℕ) → List ℕ → Type 0
Aliases cache [] [] = Unit
Aliases cache (h ∷ hs) (p ∷ ps) = (lookup cache h ≡ some p) × Aliases cache hs ps
Aliases cache _ _ = ⊥

-- No more page is aliased.
abbrev pub Closed : Bool → ℕ → ℕ → Bool → Type 0
Closed allow_reuse full_pages page_idx allocating =
    (not allocating && (allow_reuse && ltb page_idx full_pages)) ≡ false

Closed-suc :
    (allow_reuse : Bool) (full_pages page_idx : ℕ) (allocating : Bool)
    → Closed allow_reuse full_pages page_idx allocating
    → Closed allow_reuse full_pages (suc page_idx) allocating
Closed-suc allow_reuse full_pages page_idx true c = refl
Closed-suc false full_pages page_idx false c = refl
Closed-suc true full_pages page_idx false c = ground (arith, c)

-- The pool is exhausted, and the fresh pages go back.
abbrev pub Refused : List ℕ → Looped → Type 0
Refused base o = (b : PageAllocator) × (o ≡ returns (none, b)) × IsAllocator b base

-- There are `n` fresh pages after the aliased ones.
abbrev pub Fresh : List ℕ → List ℕ → ℕ → Looped → Type 0
Fresh base aliased n o =
    (t : PagedTable) × (b : PageAllocator) × (fresh : List ℕ) × (o
      ≡ returns (some (t, length aliased), b))
    × (t.pages ≡ aliased ++ fresh)
    × (length fresh ≡ n)
    × IsAllocator b (fresh ++ base)

module _ (cache : List (List ℕ × ℕ)) (allow_reuse : Bool) (full_pages : ℕ)
    (aliased base : List ℕ) where
  rollback :
      (a : PageAllocator) (t : PagedTable) (fresh : List ℕ)
      → t.pages ≡ aliased ++ fresh
      → IsAllocator a (fresh ++ base)
      → (b : PageAllocator) × (free_all a (reverse (drop (length aliased) t.pages)) ≡ returns b)
        × IsAllocator b base
  rollback a t fresh e w =
      let (b, run, v, _) = free_all-IsAllocator a (reverse fresh) base (
        reordered a (fresh ++ base) (reverse fresh ++ base)
          (λ p.
            let l = occurs-append p fresh base in
            let r = occurs-append p (reverse fresh) base in
            let m = occurs-reverse p fresh in omega (arith, l, r, m))
          (omega (
            arith,
            length-append fresh base,
            length-append (reverse fresh) base,
            length-reverse fresh,
          ))
          w) in
      let rest = ap (drop (length aliased)) e ∙ drop-append aliased fresh in
      (b, ap (λ l. free_all a (reverse l)) rest ∙ run, v)

  pub plan_loop-Fresh :
      (hs : List (List ℕ)) (a : PageAllocator) (page_idx : ℕ) (allocating : Bool) (t : PagedTable)
      (fresh : List ℕ)
      → Closed allow_reuse full_pages page_idx allocating
      → t.pages ≡ aliased ++ fresh
      → IsAllocator a (fresh ++ base)
      → let o =
          plan_loop cache allow_reuse full_pages a page_idx allocating t (length aliased) hs in
        Refused base o ⊎ Fresh base aliased (length fresh + length hs) o
  unfolding plan_loop append
  plan_loop-Fresh [] a page_idx allocating t fresh c e w =
      inr (t, a, fresh, refl, e, omega arith, w)
  plan_loop-Fresh (h ∷ hs) a page_idx allocating t fresh c e w =
      elim (alloc-Taken a (fresh ++ base) w) [
        | inl (_, run) ↦
            let (b, back, v) = rollback a t fresh e w in
            inl (b, rw (c, plan_loop) (rw run (rw back refl)), v)
        | inr (p, m, run, k) ↦
            let next : PagedTable = append t p in
            let grown : t.pages ++ p ∷ [] ≡ aliased ++ (fresh ++ p ∷ []) =
              ap (λ l. l ++ p ∷ []) e ∙ append_assoc aliased fresh (p ∷ []) in
            let v =
              reordered m (p ∷ (fresh ++ base)) ((fresh ++ p ∷ []) ++ base)
                (λ q.
                  let l = occurs-append q fresh base in
                  let r = occurs-append q (fresh ++ p ∷ []) base in
                  let o = occurs-append q fresh (p ∷ []) in omega (arith, l, r, o))
                (omega (
                  arith,
                  length-append fresh base,
                  length-append (fresh ++ p ∷ []) base,
                  length-append fresh (p ∷ []),
                ))
                k.valid in
            let size = length-append fresh (p ∷ []) in
            elim (plan_loop-Fresh hs m (suc page_idx) allocating next (fresh ++ p ∷ [])
              (Closed-suc allow_reuse full_pages page_idx allocating c) grown v) [
                | inl (b, rest, u) ↦ inl (b, rw (c, plan_loop) (rw run rest), u)
                | inr (t', b, all, rest, pages, n, u) ↦
                    inr (
                      t',
                      b,
                      all,
                      rw (c, plan_loop) (rw run rest),
                      pages,
                      omega (arith, n, size),
                      u,
                    )
              ]
      ]

-- What a plan promises: `more` pages are aliased, the rest is fresh.
pub record Resolved (cache : List (List ℕ × ℕ)) (limit : ℕ) (base : List ℕ) (hs : List (List ℕ))
    (aliased pages : List ℕ) (reused : ℕ) (b : PageAllocator) : Type 0 where
  pub more : List ℕ
  pub fresh : List ℕ
  pub split : pages ≡ (aliased ++ more) ++ fresh
  pub counted : reused ≡ length aliased + length more
  pub hits : Aliases cache (take (length more) hs) more
  pub all : length more + length fresh ≡ length hs
  pub within : length more ≤ limit
  pub stop :
      (h : List ℕ)
      → length more < limit
      → get_elem? hs (length more) ≡ some h
      → lookup cache h ≡ none
  pub valid : IsAllocator b (fresh ++ base)
