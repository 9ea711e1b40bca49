-- ===== src/ReusePlanner/Admit.antt =====
-- `plan` of reuse_planner.rs: the blocks of all plans, admitted or refused, stay accounted for.
use machserve.Common.{
  length-drop, Distinct, ℕ, ◌-◌, ◌<◌, ◌≡◌, refl, sym, ap, subst, ◌∙◌, inl, inr, none, some, List,
  [], ◌++◌, map, length, take, drop, get_elem?, ◌==◌, arith, Bool-cases, All, returns, min, ◌*◌,
}
use machserve.Common.Int.{ℤ}
use machserve.PrefixHasher.Chain.{
  IsDigest, hash_list, compute_prefix_hashes-hash_list, hash_list-length,
}
use machserve.BlockRef.{Heap, CacheBlockRef}
use machserve.PrefixIndex.{CacheKey, PrefixCacheIndex, probe}
use machserve.PrefixIndex.Evict.{IsCached}
use machserve.PrefixIndex.Match.{probe-Probed}
use machserve.ReusePlanner.{
  count_fresh, PageRef, ReusePlanner, Recorded, Planned, chunks, keys_from, block_of, finish,
  give_up, plan_keys, plan, empty_plan,
}
use machserve.ReusePlanner.Balance.{
  IsBalanced, owned_by, owned_by-append, recount, drop_refs-IsBalanced,
}
use machserve.ReusePlanner.Take.{IsFresh, acquire-IsBalanced}
use machserve.ReusePlanner.Reuse.{
  Has, contains-Has, Matches, Extends, Extends-Matches, Matches-append, Matches-length,
  query_all-IsBalanced, blocks_for-IsBalanced,
}
use machserve.ReusePlanner.Record.{IsKey}
use machserve.ReusePlanner.Fill.{record_fresh-Filled}
use machserve.ReusePlanner.Prompt.{
  hash_list-is_empty, keys_from-IsKey, keys_from-length, All-first, All-drop, take-drop,
  blocks_of-reused, blocks_of-length, no_pages,
}

-- The invariant of a planner and the heap, where plans hold the handles `hs`.
pub record IsPlanner (h : Heap) (p : ReusePlanner) (hs : List CacheBlockRef) : Type 0 where
  pub balanced : IsBalanced p.group_id p.cache_blocks_per_lcm_block h p.index hs
  pub page_size : 0 < p.tokens_per_page
  pub packing : 0 < p.cache_blocks_per_lcm_block

-- What `plan` promises for a prompt of `total` tokens in `pages` pages.
abbrev pub Admitted : List CacheBlockRef → ℕ → ℕ → Planned → Type 0
Admitted hs total pages (none, p, h) = IsPlanner h p hs
Admitted hs total pages (some q, p, h) =
    IsPlanner h p (map block_of q.pages ++ hs)
    × Matches p.index q.page_keys (map block_of q.pages)
    × (length q.pages ≡ pages)
    × (q.total_tokens ≡ total)

-- What `finish` returns.
abbrev planned_of : ReusePlanner → ℕ → List CacheKey → List CacheBlockRef → Recorded → Planned
planned_of p total keys rs r = (
  some (record {
    pages = map PageRef.reused rs ++ r.pages;
    reused_pages = length rs;
    fresh_pages = count_fresh (map PageRef.reused rs ++ r.pages);
    reused_tokens = min (length rs * p.tokens_per_page) total;
    total_tokens = total;
    fresh_keys = r.keys;
    page_keys = keys;
  }),
  record p { index = r.index },
  r.heap,
)

rematch :
    (ix : PrefixCacheIndex) {ks js : List CacheKey} {rs qs : List CacheBlockRef}
    → ks ≡ js
    → rs ≡ qs
    → Matches ix ks rs
    → Matches ix js qs
rematch ix {ks} {js} {rs} {qs} p q m =
    subst (λ l. Matches ix l qs) p (subst (λ l. Matches ix ks l) q m)

finish-Admitted :
    (h : Heap) (p : ReusePlanner) (total n : ℕ) (keys : List CacheKey)
    (rs fs hs : List CacheBlockRef)
    → IsPlanner h p (fs ++ (rs ++ hs))
    → All (IsKey p.group_id) keys
    → All (IsFresh p.index) fs
    → Distinct fs
    → Matches p.index (take n keys) rs
    → length fs ≡ length keys - length (take n keys)
    → (r : Planned) × (finish h p total keys rs fs ≡ returns r) × Admitted hs total (length keys) r
unfolding finish
finish-Admitted h p total n keys rs fs hs w good free d m size =
    let here = Matches-length p.index (take n keys) rs m in
    let rest = drop (length rs) keys in
    let rest_size = length-drop (length rs) keys in
    let (r, run, f) =
      record_fresh-Filled p.group_id p.cache_blocks_per_lcm_block h p.index rest fs (rs ++ hs)
        w.balanced free d (All-drop (IsKey p.group_id) (length rs) keys good)
        (omega (arith, size, rest_size, here)) in
    let all =
      Matches-append r.index (take n keys) rest rs (map block_of r.pages)
        (Extends-Matches p.index r.index (take n keys) rs f.kept m) f.held in
    let whole : take n keys ++ rest ≡ keys =
      ap (λ k. take n keys ++ drop k keys) here ∙ take-drop n keys in
    let blocks = blocks_of-reused rs r.pages in
    let matched : Matches r.index keys (map block_of (map PageRef.reused rs ++ r.pages)) =
      rematch r.index whole (sym blocks) all in
    let size = Matches-length r.index keys _ matched in
    (
      planned_of p total keys rs r,
      rw run refl,
      (
        record {
          balanced =
              recount p.group_id p.cache_blocks_per_lcm_block r.heap r.index _ _
                (λ b. regroup rs r.pages b) f.balanced;
          page_size = w.page_size;
          packing = w.packing;
        },
        matched,
        sym (blocks_of-length (map PageRef.reused rs ++ r.pages)) ∙ size,
        refl,
      ),
    )
  where
    regroup :
        (qs : List CacheBlockRef) (ps : List PageRef) (b : ℕ)
        → owned_by (map block_of ps ++ (qs ++ hs)) b
          ≡ owned_by (map block_of (map PageRef.reused qs ++ ps) ++ hs) b
    regroup qs ps b =
        let l = owned_by-append (map block_of ps) (qs ++ hs) b in
        let m = owned_by-append qs hs b in
        let n = owned_by-append (map block_of (map PageRef.reused qs ++ ps)) hs b in
        let o = ap (λ l. owned_by l b) (blocks_of-reused qs ps) in
        let q = owned_by-append qs (map block_of ps) b in omega (arith, l, m, n, o, q)

give_up-Admitted :
    (h : Heap) (p : ReusePlanner) (total pages : ℕ) (rs fs hs : List CacheBlockRef)
    → IsPlanner h p (fs ++ (rs ++ hs))
    → (r : Planned) × (give_up h p rs fs ≡ returns r) × Admitted hs total pages r
unfolding give_up
give_up-Admitted h p total pages rs fs hs w =
    let g = p.group_id in
    let spp = p.cache_blocks_per_lcm_block in
    let (m, first, v) = drop_refs-IsBalanced g spp h p.index fs (rs ++ hs) w.balanced in
    let (h', rest, u) = drop_refs-IsBalanced g spp m p.index rs hs v in
    (
      (none, p, h'),
      rw first (rw rest refl),
      record { balanced = u; page_size = w.page_size; packing = w.packing },
    )

probe-Has :
    (h : Heap) (ix ix' : PrefixCacheIndex) (keys : List CacheKey)
    → IsCached h ix
    → Extends ix ix'
    → All (Has ix') (take (length (probe ix keys 0 (length keys))) keys)
probe-Has h ix ix' keys c keep =
    let q = probe-Probed ix keys 0 (length keys) in
    All-first (Has ix') (length (probe ix keys 0 (length keys))) keys (λ j key lt at.
      let (e, found) =
        contains-Has h ix key c (q.cached j key lt (ap (get_elem? keys) (omega arith) ∙ at)) in
      let (d, kept, _) = keep key e.block_ref (e, found, refl) in (d, kept))

pub plan_keys-Admitted :
    (h : Heap) (p : ReusePlanner) (total : ℕ) (keys : List CacheKey) (hs : List CacheBlockRef)
    → IsPlanner h p hs
    → All (IsKey p.group_id) keys
    → (r : Planned) × (plan_keys h p total keys ≡ returns r) × Admitted hs total (length keys) r
unfolding plan_keys
plan_keys-Admitted h p total keys hs w good =
    let g = p.group_id in
    let spp = p.cache_blocks_per_lcm_block in
    let n = length (probe p.index keys 0 (length keys)) in
    let (ix, touch, b, keep) = query_all-IsBalanced g spp h p.index hs (take n keys) w.balanced in
    let has = probe-Has h p.index ix keys w.balanced.cached keep in
    let (rs, h₁, clones, c, m) = blocks_for-IsBalanced g spp h ix hs (take n keys) b has in
    let need = length keys - length (take n keys) in
    let (fs, h₂, grant, d, free, distinct) =
      acquire-IsBalanced g spp h₁ ix (rs ++ hs) need w.packing c in
    let q : ReusePlanner = record p { index = ix } in
    let v : IsPlanner h₂ q (fs ++ (rs ++ hs)) = record {
      balanced = d;
      page_size = w.page_size;
      packing = w.packing;
    } in
    elim (Bool-cases (length fs == need)) [
      | inl full ↦
          let (r, run, a) =
            finish-Admitted h₂ q total n keys rs fs hs v good free distinct m (ground arith) in
          (r, rw touch (rw clones (rw grant (rw full run))), a)
      | inr short ↦
          let (r, run, a) = give_up-Admitted h₂ q total (length keys) rs fs hs v in
          (r, rw touch (rw clones (rw grant (rw short run))), a)
    ]

module _ (sha256 : List ℕ → List ℕ) (digest : IsDigest sha256) where
  -- With a digest of 32 bytes and under the planner's invariant, `plan` returns for every prompt. Without
  -- a plan, the same handles as before account for all blocks. With one, its pages' handles are added to
  -- them; it has a page for each chunk of the prompt, each page's handle is the one that the index has
  -- under the page's key, and it counts all tokens.
  pub plan-Admitted :
      (h : Heap) (p : ReusePlanner) (tokens : List ℤ) (hs : List CacheBlockRef)
      → IsPlanner h p hs
      → (r : Planned) × (plan sha256 h p tokens ≡ returns r)
        × Admitted hs (length tokens) (length (chunks p.tokens_per_page tokens)) r
  unfolding plan
  plan-Admitted h p tokens hs w =
      elim (Bool-cases (length (chunks p.tokens_per_page tokens) == 0)) [
        | inl none_at_all ↦ (
          (some empty_plan, p, h),
          rw none_at_all refl,
          (
            w,
            tt,
            (let z : length (chunks p.tokens_per_page tokens) ≡ 0 = ground arith in sym z),
            no_pages p.tokens_per_page tokens w.page_size (ground arith),
          ),
        )
        | inr some_page ↦
            let pages = chunks p.tokens_per_page tokens in
            let hashes = hash_list sha256 [] pages in
            let hashed = compute_prefix_hashes-hash_list sha256 digest pages in
            let (r, run, a) =
              plan_keys-Admitted h p (length tokens) (keys_from p 0 hashes) hs w
                (keys_from-IsKey p 0 hashes (hash_list-is_empty sha256 digest [] pages)) in
            let size = keys_from-length p 0 hashes ∙ hash_list-length sha256 [] pages in
            (r, rw some_page (rw hashed run), subst (λ k. Admitted hs (length tokens) k r) size a)
      ]
