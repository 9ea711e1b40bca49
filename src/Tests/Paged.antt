-- ===== src/Tests/Paged.antt =====
-- crates/mach-model/src/paged_kv.rs: plans over a pool of four pages of two tokens.
use machserve.Common.{
  list_eq, if◌then◌else◌, Bool, ℕ, ◌-◌, ◌≡◌, ◌≢◌, refl, sym, ap, subst, ◌⊎◌, inl, inr, true, false,
  Option, none, some, List, [], ◌∷◌, ◌++◌, length, take, get_elem?, Outcome, returns, panics, arith,
  ◌>>=◌, ◌<◌,
}
use machserve.Common.Int.{ℤ, pos}
use machserve.PagedKv.{
  PagedTable, GpuPagedTableBuilder, PagedTablePlan, append, len, truncate, new_allocator, alloc,
  free, free_all, new, cached_pages, page_of, plan_loop, plan_with_chain, register_pages,
  register_chain, pad_loop, pad_table, evict_page, free_plan_pages, free_page,
}
use machserve.PagedKv.Alloc.{new-IsAllocator}
use machserve.PagedKv.Plan.{IsBuilder, Promised, plan_with_chain-Promised}
use machserve.PagedKv.{page_offsets, get}
use machserve.PagedKv.Runs.{
  Tile, rows_of, any_multi, Covers, build_tiled_attn_runs, runs_from, tiles_from,
  build_tiled_attn_runs-Covers,
}
use machserve.PagedKv.Pad.{pad_table-IsBuilder}
use machserve.PagedKv.Register.{Grows, register_chain-IsBuilder}
use machserve.Retired.{
  PagedEngineState, referenced_pages, claims, claims_from, claimed_counts, release_claim,
  evict_hashes, evict_entries, evict_one_retired,
}
use machserve.Retired.Claims.{all_claims}
use machserve.Retired.Shrunk.{Shrunk, Freed}
use machserve.Retired.Evict.{evict_one_retired-Shrunk}
use machserve.PagedKv.Evict.{evict_page-IsBuilder, materialized, materialized-IsBuilder, plan-again}

paging : Unit {0}
unfolding append len truncate new_allocator alloc free free_all new cached_pages page_of plan_loop
    plan_with_chain register_pages register_chain pad_loop pad_table evict_page free_plan_pages
    free_page referenced_pages claims claims_from claimed_counts release_claim evict_hashes
    evict_entries evict_one_retired
paging = tt

abbrev builder : GpuPagedTableBuilder
unfolding paging
builder = new 4 2

builder-IsBuilder : IsBuilder builder []
unfolding paging
builder-IsBuilder = record { allocator = new-IsAllocator 4; page_size = omega arith; keys = tt }

abbrev prompt : List ℤ
prompt = pos 5 ∷ pos 6 ∷ pos 7 ∷ pos 8 ∷ pos 9 ∷ []

abbrev hashes : List (List ℕ)
hashes = (1 ∷ []) ∷ (2 ∷ []) ∷ (3 ∷ []) ∷ []

abbrev Resolution : Type 0
Resolution = Outcome (Option PagedTablePlan × GpuPagedTableBuilder)

abbrev plan_in : Resolution → PagedTablePlan
plan_in (returns (some q, _)) = q
plan_in _ = record { table = record { pages = [] }; full_pages = 0; reused_pages = 0; chain = [] }

abbrev builder_in : Resolution → GpuPagedTableBuilder
builder_in (returns (_, b)) = b
builder_in panics = builder

abbrev first : Resolution
first = plan_with_chain builder prompt hashes true

-- Two full pages are registered; the same prompt takes the last page of the pool.
abbrev again : Resolution
unfolding paging
again =
    plan_with_chain (materialized (builder_in first) hashes (plan_in first) 2) prompt hashes true

reused_twice : ((plan_in again).reused_pages ≡ 2) × ((plan_in again).table.pages ≡ 0 ∷ 1 ∷ 3 ∷ [])
unfolding paging
reused_twice = (refl, refl)

-- Five pages do not fit: the pool is as before.
refused :
    plan_with_chain builder prompt ((1 ∷ []) ∷ (2 ∷ []) ∷ (3 ∷ []) ∷ (4 ∷ []) ∷ (5 ∷ []) ∷ []) true
    ≡ returns (
      none,
      record builder {
        allocator = record {
          free = 0 ∷ 1 ∷ 2 ∷ 3 ∷ [];
          allocated = false ∷ false ∷ false ∷ false ∷ [];
          next = 4;
          num_pages = 4;
        };
      },
    )
unfolding paging
refused = refl

freed_twice : (do b ← free_page (builder_in first) 0; free_page b 0) ≡ panics
unfolding paging
freed_twice = refl

plan_with_chain-Promised_example :
    ((c : GpuPagedTableBuilder) × (plan_with_chain builder prompt hashes true ≡ returns (none, c))
      × IsBuilder c []
      × (c.cache ≡ builder.cache))
    ⊎ ((q : PagedTablePlan) × (c : GpuPagedTableBuilder) × (plan_with_chain builder prompt hashes
            true
          ≡ returns (some q, c))
        × Promised builder [] prompt hashes true q c)
plan_with_chain-Promised_example =
    plan_with_chain-Promised builder [] builder-IsBuilder prompt hashes true

first-Promised : Promised builder [] prompt hashes true (plan_in first) (builder_in first)
unfolding paging
first-Promised = elim (plan_with_chain-Promised builder [] builder-IsBuilder prompt hashes true) [
  | inl (c, run, _, _) ↦ cc
  | inr (q, c, run, p) ↦
      let same : (plan_in first ≡ q) × (builder_in first ≡ c) =
        (ap plan_in run, ap builder_in run) in
      subst (λ x. Promised builder [] prompt hashes true x (builder_in first)) (sym same.0)
        (subst (λ x. Promised builder [] prompt hashes true q x) (sym same.1) p)
]

register_chain-IsBuilder_example :
    (left : List ℕ) × IsBuilder
      (register_chain (builder_in first) hashes (plan_in first).table)
      (left ++ [])
    × Grows
        (builder_in first).cache
        (register_chain (builder_in first) hashes (plan_in first).table).cache
    × ((i : ℕ) (h : List ℕ)
        → i < length (plan_in first).table.pages
        → get_elem? hashes i ≡ some h
        → page_of (register_chain (builder_in first) hashes (plan_in first).table) h ≢ none)
unfolding paging
register_chain-IsBuilder_example =
    register_chain-IsBuilder (builder_in first) hashes (plan_in first).table 0 []
      first-Promised.valid tt

pad_table-IsBuilder_example :
    ((t : PagedTable) × (c : GpuPagedTableBuilder) × (pad_table builder (record { pages = [] }) 3
        ≡ returns (false, t, c))
      × (t.pages ≡ [])
      × IsBuilder c [])
    ⊎ ((t : PagedTable) × (c : GpuPagedTableBuilder) × (fresh : List ℕ) × (pad_table builder
            (record { pages = [] })
            3
          ≡ returns (true, t, c))
        × (t.pages ≡ fresh)
        × (length fresh ≡ 3 - 0)
        × IsBuilder c (fresh ++ []))
pad_table-IsBuilder_example =
    pad_table-IsBuilder builder (record { pages = [] }) 3 [] builder-IsBuilder

abbrev registered : GpuPagedTableBuilder
registered = materialized (builder_in first) hashes (plan_in first) 2

-- The pages that the first table still owns.
still_owned :
    (left : List ℕ) × IsBuilder registered (left ++ [])
    × ((i : ℕ) (h : List ℕ)
        → i < length (plan_in first).table.pages
        → get_elem? (take 2 hashes) i ≡ some h
        → page_of registered h ≢ none)
unfolding paging
still_owned =
    materialized-IsBuilder builder [] prompt hashes true (plan_in first) (builder_in first)
      first-Promised 2 (omega arith)

-- The sequence has finished, and its table is live still or gone.
abbrev engine : List (Option PagedTable) → PagedEngineState
engine tables = record {
  builder = registered;
  tables = tables;
  retired = record { chain = hashes; full_pages = 2 } ∷ [];
}

freed_when_gone : (do (freed, _) ← evict_one_retired (engine []); returns freed) ≡ returns true
unfolding paging
freed_when_gone = refl

kept_while_live :
    (do (freed, _) ← evict_one_retired (engine (some (plan_in first).table ∷ [])); returns freed)
    ≡ returns false
unfolding paging
kept_while_live = refl

evict_one_retired-Shrunk_example :
    (r : Bool) × (t : PagedEngineState) × (evict_one_retired (engine []) ≡ returns (r, t))
    × (t.tables ≡ [])
    × Shrunk
        (referenced_pages (engine []))
        (still_owned.0 ++ [])
        (all_claims t.retired)
        registered
        t.builder
    × (((r ≡ true)
          × Freed (referenced_pages (engine [])) (all_claims t.retired) registered t.builder)
        ⊎ ((r ≡ false) × (t.retired ≡ []) × (t.builder ≡ registered)))
evict_one_retired-Shrunk_example =
    evict_one_retired-Shrunk (engine []) (still_owned.0 ++ []) still_owned.1 (omega arith, tt)

evict_page-IsBuilder_example :
    ((page_of registered (1 ∷ []) ≡ none)
      × (evict_page registered (1 ∷ []) ≡ returns (false, registered)))
    ⊎ ((p : ℕ) × (c : GpuPagedTableBuilder) × (page_of registered (1 ∷ []) ≡ some p)
        × (evict_page registered (1 ∷ []) ≡ returns (true, c))
        × IsBuilder c (still_owned.0 ++ [])
        × ((k : List ℕ)
            → page_of c k ≡ (if list_eq (1 ∷ []) k then none else page_of registered k)))
evict_page-IsBuilder_example =
    evict_page-IsBuilder registered (1 ∷ []) (still_owned.0 ++ []) still_owned.1

plan-again_example :
    ((d : GpuPagedTableBuilder) × (plan_with_chain
          (materialized (builder_in first) hashes (plan_in first) 2)
          prompt
          hashes
          true
        ≡ returns (none, d)))
    ⊎ ((r : PagedTablePlan) × (d : GpuPagedTableBuilder) × (plan_with_chain
            (materialized (builder_in first) hashes (plan_in first) 2)
            prompt
            hashes
            true
          ≡ returns (some r, d))
        × (r.reused_pages ≡ 2))
unfolding paging
plan-again_example =
    plan-again builder [] prompt hashes true (plan_in first) (builder_in first) first-Promised 2
      refl (omega arith)

tiles :
    build_tiled_attn_runs (3 ∷ 4 ∷ 5 ∷ 9 ∷ []) (1 ∷ 1 ∷ 1 ∷ 1 ∷ []) 2
    ≡ returns ((0, 0, 2) ∷ (0, 2, 1) ∷ (3, 0, 1) ∷ [], true)
unfolding build_tiled_attn_runs runs_from tiles_from
tiles = refl

build_tiled_attn_runs-Covers_example :
    (runs : List Tile) × (build_tiled_attn_runs (3 ∷ 4 ∷ 5 ∷ 9 ∷ []) (1 ∷ 1 ∷ 1 ∷ 1 ∷ []) 2
      ≡ returns (runs, any_multi runs))
    × Covers (rows_of (3 ∷ 4 ∷ 5 ∷ 9 ∷ []) (1 ∷ 1 ∷ 1 ∷ 1 ∷ [])) 2 0 runs 4
build_tiled_attn_runs-Covers_example =
    build_tiled_attn_runs-Covers (3 ∷ 4 ∷ 5 ∷ 9 ∷ []) (1 ∷ 1 ∷ 1 ∷ 1 ∷ []) 2 refl (omega arith)

second_page : page_offsets (record { pages = 7 ∷ 4 ∷ [] }) 5 4 ≡ returns (some (4, 1))
unfolding page_offsets get
second_page = refl
