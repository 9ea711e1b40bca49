-- ===== src/PagedKv.antt =====
-- crates/mach-model/src/paged_kv.rs: block tables, the page allocator and the table builder. Page ids
-- and hashes are natural numbers and byte strings; `none` of a `Result` stands for its only error, the
-- exhausted pool. The free list is kept top first.
pub mod Runs
pub mod Alloc
pub mod Held
pub mod Plan
pub mod Pad
pub mod Register
pub mod Evict
use machserve.Common.{
  ℕ, zero, suc, ◌+◌, ◌-◌, ◌*◌, ◌/◌, ◌%◌, ◌≡◌, Bool, true, false, ◌&&◌, not, Option, none, some,
  List, [], ◌∷◌, ◌++◌, map, length, take, drop, get_elem?, set, replicate, list_eq, ltb, ◌==◌,
  if◌then◌else◌, Outcome, returns, panics, assert, index, ◌>>=◌, ◌>>◌,
}
use mathlib.Core.List.{reverse}
use machserve.Common.Int.{ℤ}
use machserve.PrefixHasher.{compute_prefix_hashes}
use machserve.ReusePlanner.{chunks}

pub record PagedTable : Type 0 where
  pub pages : List ℕ

unfoldable pub append : PagedTable → ℕ → PagedTable
append t physical = record { pages = t.pages ++ physical ∷ [] }

unfoldable pub get : PagedTable → ℕ → Option ℕ
get t logical = get_elem? t.pages logical

unfoldable pub len : PagedTable → ℕ
len t = length t.pages

unfoldable pub truncate : PagedTable → ℕ → PagedTable
truncate t n = record { pages = take n t.pages }

unfoldable pub page_offsets : PagedTable → ℕ → ℕ → Outcome (Option (ℕ × ℕ))
page_offsets table pos tokens_per_page = do
  assert (ltb 0 tokens_per_page)
  elim (get table (pos / tokens_per_page)) [
    | none ↦ returns none
    | some physical ↦ returns (some (physical, pos % tokens_per_page))
  ]

pub record PageAllocator : Type 0 where
  pub free : List ℕ
  pub allocated : List Bool
  pub next : ℕ
  pub num_pages : ℕ

unfoldable pub new_allocator : ℕ → PageAllocator
new_allocator num_pages = record {
  free = [];
  allocated = replicate num_pages false;
  next = 0;
  num_pages = num_pages;
}

-- The page that `alloc` takes: the top of the free list, or the next one.
abbrev pub next_page : PageAllocator → List ℕ → Option (ℕ × PageAllocator)
next_page a (p ∷ free) = some (p, record a { free = free })
next_page a [] =
    if ltb a.next a.num_pages then some (a.next, record a { next = a.next + 1 }) else none

unfoldable pub alloc : PageAllocator → Outcome (Option ℕ × PageAllocator)
alloc a = elim (next_page a a.free) [
  | none ↦ returns (none, a)
  | some (p, b) ↦ (do
    live ← index b.allocated p
    assert (not live)
    returns (some p, record b { allocated = set b.allocated p true }))
]

unfoldable pub free : PageAllocator → ℕ → Outcome PageAllocator
free a page = do
  live ← if ltb page a.num_pages then index a.allocated page else returns false
  assert live
  returns (record a { allocated = set a.allocated page false; free = page ∷ a.free })

unfoldable pub free_all : PageAllocator → List ℕ → Outcome PageAllocator
free_all a [] = returns a
free_all a (page ∷ pages) = do b ← free a page; free_all b pages

pub record PagedTablePlan : Type 0 where
  pub table : PagedTable
  pub full_pages : ℕ
  pub reused_pages : ℕ
  pub chain : List (List ℕ)

-- The cache lists each hash with its page, each hash at most once.
pub record GpuPagedTableBuilder : Type 0 where
  pub tokens_per_page : ℕ
  pub cache : List (List ℕ × ℕ)
  pub allocator : PageAllocator

unfoldable pub new : ℕ → ℕ → GpuPagedTableBuilder
new num_pages tokens_per_page = record {
  tokens_per_page = tokens_per_page;
  cache = [];
  allocator = new_allocator num_pages;
}

unfoldable pub cached_pages : GpuPagedTableBuilder → ℕ
cached_pages b = length b.cache

abbrev pub lookup : List (List ℕ × ℕ) → List ℕ → Option ℕ
lookup [] h = none
lookup ((k, page) ∷ cache) h = if list_eq k h then some page else lookup cache h

abbrev pub without : List (List ℕ × ℕ) → List ℕ → List (List ℕ × ℕ)
without [] h = []
without ((k, page) ∷ cache) h =
    let rest = without cache h in if list_eq k h then cache else (k, page) ∷ rest

unfoldable pub page_of : GpuPagedTableBuilder → List ℕ → Option ℕ
page_of b hash = lookup b.cache hash

abbrev pub Looped : Type 0
Looped = Outcome (Option (PagedTable × ℕ) × PageAllocator)

-- A fresh page and the rest of the loop; without one, this call's fresh pages are rolled back.
abbrev pub allocate :
    PageAllocator → PagedTable → ℕ → (PageAllocator → PagedTable → Looped) → Looped
allocate a table reused_pages rest = do
  (found, b) ← alloc a
  elim found [
    | none ↦ (do c ← free_all b (reverse (drop reused_pages table.pages)); returns (none, c))
    | some page ↦ rest b (append table page)
  ]

-- The loop of `plan_with_chain` at page `page_idx`.
unfoldable pub plan_loop :
    List (List ℕ × ℕ)
    → Bool
    → ℕ
    → PageAllocator
    → ℕ
    → Bool
    → PagedTable
    → ℕ
    → List (List ℕ)
    → Looped
plan_loop cache allow_reuse full_pages a page_idx allocating table reused_pages [] =
    returns (some (table, reused_pages), a)
plan_loop cache allow_reuse full_pages a page_idx allocating table reused_pages (h ∷ hs) =
    elim (not allocating && (allow_reuse && ltb page_idx full_pages)) [
      | true ↦ elim (lookup cache h) [
        | some page ↦
            plan_loop cache allow_reuse full_pages a (suc page_idx) allocating (append table page)
              (suc reused_pages) hs
        | none ↦ allocate a table reused_pages (λ b longer.
            plan_loop cache allow_reuse full_pages b (suc page_idx) true longer reused_pages hs)
      ]
      | false ↦ allocate a table reused_pages (λ b longer.
          plan_loop cache allow_reuse full_pages b (suc page_idx) allocating longer reused_pages hs)
    ]

unfoldable pub plan_with_chain :
    GpuPagedTableBuilder
    → List ℤ
    → List (List ℕ)
    → Bool
    → Outcome (Option PagedTablePlan × GpuPagedTableBuilder)
plan_with_chain b tokens chain allow_reuse = do
  assert (ltb 0 b.tokens_per_page)
  let full_pages = length tokens / b.tokens_per_page
  (done, a) ←
      plan_loop b.cache allow_reuse full_pages b.allocator 0 false (record { pages = [] }) 0 chain
  let after = record b { allocator = a }
  elim done [
    | none ↦ returns (none, after)
    | some (table, reused_pages) ↦ returns (
      some (record {
        table = table;
        full_pages = full_pages;
        reused_pages = reused_pages;
        chain = chain;
      }),
      after,
    )
  ]

module _ (sha256 : List ℕ → List ℕ) where
  unfoldable pub compute_chain : GpuPagedTableBuilder → List ℤ → Outcome (List (List ℕ))
  compute_chain b tokens = do
    assert (ltb 0 b.tokens_per_page)
    compute_prefix_hashes sha256 (chunks b.tokens_per_page tokens) [] []

  unfoldable pub plan :
      GpuPagedTableBuilder → List ℤ → Bool → Outcome (Option PagedTablePlan × GpuPagedTableBuilder)
  plan b tokens allow_reuse = do
    chain ← compute_chain b tokens
    plan_with_chain b tokens chain allow_reuse

  unfoldable pub build_table :
      GpuPagedTableBuilder → List ℤ → Outcome (Option (PagedTable × ℕ) × GpuPagedTableBuilder)
  build_table b tokens = do
    (planned, after) ← plan b tokens true
    elim planned [
      | none ↦ returns (none, after)
      | some p ↦ returns (some (p.table, p.reused_pages * b.tokens_per_page), after)
    ]

unfoldable pub register_pages : List (List ℕ × ℕ) → List (List ℕ) → List ℕ → List (List ℕ × ℕ)
register_pages cache [] pages = cache
register_pages cache (h ∷ hs) [] = cache
register_pages cache (h ∷ hs) (page ∷ pages) = elim (lookup cache h) [
  | some _ ↦ register_pages cache hs pages
  | none ↦ register_pages ((h, page) ∷ cache) hs pages
]

unfoldable pub register_chain :
    GpuPagedTableBuilder → List (List ℕ) → PagedTable → GpuPagedTableBuilder
register_chain b chain table = record b { cache = register_pages b.cache chain table.pages }

-- The loop of `pad_table`, for as many pages as are missing.
unfoldable pub pad_loop :
    PageAllocator → ℕ → PagedTable → ℕ → Outcome (Bool × PagedTable × PageAllocator)
pad_loop a before table zero = returns (true, table, a)
pad_loop a before table (suc missing) = do
  (found, b) ← alloc a
  elim found [
    | none ↦ (do
      c ← free_all b (drop before table.pages)
      returns (false, truncate table before, c))
    | some page ↦ pad_loop b before (append table page) missing
  ]

unfoldable pub pad_table :
    GpuPagedTableBuilder → PagedTable → ℕ → Outcome (Bool × PagedTable × GpuPagedTableBuilder)
pad_table b table max_pages = do
  (done, padded, a) ← pad_loop b.allocator (len table) table (max_pages - len table)
  returns (done, padded, record b { allocator = a })

unfoldable pub evict_page : GpuPagedTableBuilder → List ℕ → Outcome (Bool × GpuPagedTableBuilder)
evict_page b hash = elim (lookup b.cache hash) [
  | none ↦ returns (false, b)
  | some page ↦ (do
    a ← free b.allocator page
    returns (true, record b { cache = without b.cache hash; allocator = a }))
]

unfoldable pub free_plan_pages :
    GpuPagedTableBuilder → PagedTablePlan → PagedTable → Outcome GpuPagedTableBuilder
free_plan_pages b plan table = do
  a ← free_all b.allocator (drop plan.reused_pages table.pages)
  returns (record b { allocator = a })

unfoldable pub free_page : GpuPagedTableBuilder → ℕ → Outcome GpuPagedTableBuilder
free_page b page = do a ← free b.allocator page; returns (record b { allocator = a })
