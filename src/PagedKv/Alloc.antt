-- ===== src/PagedKv/Alloc.antt =====
-- The page allocator of paged_kv.rs: each page is free, untouched or held, and held at most once.
use machserve.Common.{
  ℕ, zero, suc, ◌+◌, ◌≤◌, ◌<◌, ◌≡◌, refl, ap, ◌∙◌, ◌⊎◌, inl, inr, true, false, not, none, some,
  List, [], ◌∷◌, ◌++◌, length, get_elem?, set, replicate, ltb, ◌==◌, if◌then◌else◌, arith,
  Bool-cases, occurs, occurs_self, lt→ltb, get_elem?-set, length-set, index-get_elem?,
  length-replicate, returns, panics, index,
}
use machserve.PagedKv.{PageAllocator, new_allocator, alloc, free, free_all}

-- The invariant, where `held` lists the pages that were given out.
pub record IsAllocator (a : PageAllocator) (held : List ℕ) : Type 0 where
  pub size : length a.allocated ≡ a.num_pages
  pub bound : a.next ≤ a.num_pages
  pub split : (p : ℕ) → occurs p a.free + occurs p held ≡ (if ltb p a.next then 1 else 0)
  pub marks : (p : ℕ) → p < a.num_pages → get_elem? a.allocated p ≡ some (not (occurs p held == 0))
  pub room : length a.free + length held ≡ a.next

-- What a successful `alloc` promises.
pub record Taken (a : PageAllocator) (held : List ℕ) (p : ℕ) (b : PageAllocator) : Type 0 where
  pub valid : IsAllocator b (p ∷ held)
  pub inside : p < a.num_pages
  pub new : occurs p held ≡ 0
  pub same_size : b.num_pages ≡ a.num_pages

pub new-IsAllocator : (n : ℕ) → IsAllocator (new_allocator n) []
unfolding new_allocator
new-IsAllocator n = record {
  size = length-replicate n false;
  bound = omega arith;
  split = λ p. ground arith;
  marks = λ p lt. clear n p lt;
  room = refl;
}
  where
    clear : (m p : ℕ) → p < m → get_elem? (replicate m false) p ≡ some false
    clear zero p lt = absurd (omega (arith, lt))
    clear (suc m) zero lt = refl
    clear (suc m) (suc p) lt = clear m p (omega (arith, lt))

List-cases : (xs : List ℕ) → (xs ≡ []) ⊎ ((x : ℕ) × (rest : List ℕ) × (xs ≡ x ∷ rest))
List-cases [] = inl refl
List-cases (x ∷ xs) = inr (x, xs, refl)

module _ (a : PageAllocator) (held : List ℕ) (w : IsAllocator a held) where
  -- To give out a page that is not held.
  grant :
      (p : ℕ) (rest : List ℕ) (next : ℕ)
      → p < a.num_pages
      → next ≤ a.num_pages
      → occurs p held ≡ 0
      → ((q : ℕ) → occurs q rest + occurs q (p ∷ held) ≡ (if ltb q next then 1 else 0))
      → length rest + suc (length held) ≡ next
      → IsAllocator
          (record a { free = rest; next = next; allocated = set a.allocated p true })
          (p ∷ held)
  grant p rest next inside fits new split room = record {
    size = length-set a.allocated p true ∙ w.size;
    bound = fits;
    split = split;
    marks = λ q lt.
        let s = get_elem?-set a.allocated p q true (let z = w.size in omega (arith, z, inside)) in
        let old = w.marks q lt in ground (arith, s, old, new);
    room = room;
  }

  pub alloc-Taken :
      ((length held ≡ a.num_pages) × (alloc a ≡ returns (none, a)))
      ⊎ ((p : ℕ) × (b : PageAllocator) × (alloc a ≡ returns (some p, b)) × Taken a held p b)
  unfolding alloc
  alloc-Taken = elim (List-cases a.free) [
    | inl e ↦ elim (Bool-cases (ltb a.next a.num_pages)) [
      | inl lt ↦
          let inside : a.next < a.num_pages = ground arith in
          let none_free = w.room in
          let here = w.split a.next in
          let size = ap length e in
          let new : occurs a.next held ≡ 0 = ground (arith, here) in
          let mark = w.marks a.next inside in
          let dead : index a.allocated a.next ≡ returns false =
            index-get_elem? a.allocated a.next (mark ∙ rw new refl) in
          inr (
            a.next,
            _,
            rw e (rw (lt, alloc) (rw dead refl)),
            record {
              valid =
                  grant a.next [] (a.next + 1) inside (omega (arith, inside)) new
                    (λ q. let old = w.split q in let o = ap (occurs q) e in ground (arith, old, o))
                    (omega (arith, none_free, size));
              inside = inside;
              new = new;
              same_size = refl;
            },
          )
      | inr ge ↦
          let size = ap length e in
          let all = w.room in
          let fits = w.bound in inl (ground (arith, size, all, fits), rw e (rw (ge, alloc) refl))
    ]
    | inr (p, rest, e) ↦
        let here = w.split p in
        let first = ap (occurs p) e in
        let twice = occurs_self p rest in
        let new : occurs p held ≡ 0 = ground (arith, here, first, twice) in
        let fits = w.bound in
        let inside : p < a.num_pages = ground (arith, here, first, twice, fits) in
        let mark = w.marks p inside in
        let dead : index a.allocated p ≡ returns false =
          index-get_elem? a.allocated p (mark ∙ rw new refl) in
        let all = w.room in
        let size = ap length e in
        inr (
          p,
          _,
          rw e (rw (dead, alloc) refl),
          record {
            valid =
                grant p rest a.next inside fits new
                  (λ q. let old = w.split q in let o = ap (occurs q) e in omega (arith, old, o))
                  (omega (arith, all, size));
            inside = inside;
            new = new;
            same_size = refl;
          },
        )
  ]

-- What `free` promises for a page that is held.
pub free-IsAllocator :
    (a : PageAllocator) (p : ℕ) (held : List ℕ)
    → IsAllocator a (p ∷ held)
    → (b : PageAllocator) × (free a p ≡ returns b)
      × IsAllocator b held
      × (b.num_pages ≡ a.num_pages)
unfolding free
free-IsAllocator a p held w =
    let here = w.split p in
    let once = occurs_self p held in
    let fits = w.bound in
    let inside : p < a.num_pages = ground (arith, here, once, fits) in
    let live : index a.allocated p ≡ returns true =
      index-get_elem? a.allocated p (let mark = w.marks p inside in ground (arith, mark, once)) in
    let test : ltb p a.num_pages ≡ true = lt→ltb p a.num_pages inside in
    let all = w.room in
    (
      record a { allocated = set a.allocated p false; free = p ∷ a.free },
      rw test (rw live refl),
      record {
        size = length-set a.allocated p false ∙ w.size;
        bound = fits;
        split = λ q. let old = w.split q in omega (arith, old);
        marks = λ q lt.
            let s =
              get_elem?-set a.allocated p q false (let z = w.size in omega (arith, z, inside)) in
            let old = w.marks q lt in
            let share = w.split q in
            let gone : occurs p held ≡ 0 = ground (arith, here, once) in
            ground (arith, s, old, gone);
        room = omega (arith, all);
      },
      refl,
    )

-- A page that is not held is not freed: a double free panics.
pub free-panics :
    (a : PageAllocator) (p : ℕ) (held : List ℕ)
    → IsAllocator a held
    → occurs p held ≡ 0
    → free a p ≡ panics
unfolding free
free-panics a p held w gone = elim (Bool-cases (ltb p a.num_pages)) [
  | inl lt ↦
      let dead : index a.allocated p ≡ returns false =
        index-get_elem? a.allocated p (w.marks p (ground arith) ∙ rw gone refl) in
      rw lt (rw dead refl)
  | inr ge ↦ rw ge refl
]

pub free_all-IsAllocator :
    (a : PageAllocator) (ps held : List ℕ)
    → IsAllocator a (ps ++ held)
    → (b : PageAllocator) × (free_all a ps ≡ returns b)
      × IsAllocator b held
      × (b.num_pages ≡ a.num_pages)
unfolding free_all
free_all-IsAllocator a [] held w = (a, refl, w, refl)
free_all-IsAllocator a (p ∷ ps) held w =
    let (m, run, v, n) = free-IsAllocator a p (ps ++ held) w in
    let (b, rest, u, k) = free_all-IsAllocator m ps held v in (b, rw run rest, u, k ∙ n)
