-- ===== src/ReusePlanner/Session.antt =====
-- A planner of reuse_planner.rs over time: requests are admitted or refused, plans are released in any
-- order, and cold pages are evicted in between.
use machserve.Common.{
  ℕ, zero, suc, ◌+◌, ◌<◌, ◌≡◌, refl, sym, ◌∙◌, inl, inr, none, some, List, [], ◌∷◌, ◌++◌, map,
  length, get_elem?, replicate, subst, ltb, arith, returns, panics, returns-injective, Bool-cases,
}
use machserve.Common.Int.{ℤ}
use machserve.BlockPool.{num_occupied_slots, sum_occupied, free_block}
use machserve.BlockPool.Valid.{new-IsValid}
use machserve.BlockPool
use machserve.BlockPool.Grant.{new-IsPacked}
use machserve.BlockRef.{Heap, CacheBlock, CacheBlockRef, use_count, strong_at}
use machserve.BlockRef.Sound.{IsSound, count_live}
use machserve.PrefixHasher.Chain.{IsDigest}
use machserve.PrefixIndex.{num_entries}
use machserve.PrefixIndex
use machserve.PrefixIndex.Owners.{owners}
use machserve.ReusePlanner.{
  PrefixReusePlan, ReusePlanner, Planned, new, chunks, cached_pages, plan, release, evict, block_of,
}
use machserve.ReusePlanner.Balance.{owned_by, owned_by-append, recount}
use machserve.ReusePlanner.Admit.{IsPlanner, Admitted, plan-Admitted}
use machserve.ReusePlanner.Release.{release-Planner, evict-Planner}

abbrev pub handles : List PrefixReusePlan → List CacheBlockRef
handles [] = []
handles (q ∷ qs) = map block_of q.pages ++ handles qs

-- The planner, the plans that are held and the heap, after the calls so far.
pub data Session (sha256 : List ℕ → List ℕ)
    : ReusePlanner → List PrefixReusePlan → Heap → Type 0 where
  start :
      (group_id namespace_id tokens_per_page spp size : ℕ) (p : ReusePlanner)
      → 0 < spp
      → new group_id namespace_id tokens_per_page spp ≡ returns p
      → Session sha256 p [] (record { pool = BlockPool.new size; blocks = [] })
  admit :
      {p p' : ReusePlanner} {qs : List PrefixReusePlan} {h h' : Heap} (tokens : List ℤ)
      (q : PrefixReusePlan)
      → Session sha256 p qs h
      → plan sha256 h p tokens ≡ returns (some q, p', h')
      → Session sha256 p' (q ∷ qs) h'
  refuse :
      {p p' : ReusePlanner} {qs : List PrefixReusePlan} {h h' : Heap} (tokens : List ℤ)
      → Session sha256 p qs h
      → plan sha256 h p tokens ≡ returns (none, p', h')
      → Session sha256 p' qs h'
  give_back :
      {p p' : ReusePlanner} {h h' : Heap} {qs rest : List PrefixReusePlan}
      (before after : List PrefixReusePlan) (q : PrefixReusePlan)
      → Session sha256 p qs h
      → qs ≡ before ++ q ∷ after
      → rest ≡ before ++ after
      → release h p q ≡ returns (p', h')
      → Session sha256 p' rest h'
  cool :
      {p p' : ReusePlanner} {qs : List PrefixReusePlan} {h h' : Heap} (o : _)
      → Session sha256 p qs h
      → evict h p ≡ returns (o, p', h')
      → Session sha256 p' qs h'

handles-append :
    (qs rs : List PrefixReusePlan) (b : ℕ)
    → owned_by (handles (qs ++ rs)) b ≡ owned_by (handles qs) b + owned_by (handles rs) b
handles-append [] rs b = omega arith
handles-append (q ∷ qs) rs b =
    let l = owned_by-append (map block_of q.pages) (handles (qs ++ rs)) b in
    let m = owned_by-append (map block_of q.pages) (handles qs) b in
    let n = handles-append qs rs b in omega (arith, l, m, n)

same_handles :
    (h : Heap) (p : ReusePlanner) (hs ks : List CacheBlockRef)
    → ((b : ℕ) → owned_by hs b ≡ owned_by ks b)
    → IsPlanner h p hs
    → IsPlanner h p ks
same_handles h p hs ks same w = record {
  balanced = recount p.group_id p.cache_blocks_per_lcm_block h p.index hs ks same w.balanced;
  page_size = w.page_size;
  packing = w.packing;
}

no_occupied : (n : ℕ) → sum_occupied (replicate n free_block) ≡ 0
no_occupied zero = refl
no_occupied (suc n) = omega (arith, no_occupied n)

new-IsSound : (n : ℕ) → IsSound (record { pool = BlockPool.new n; blocks = [] })
unfolding num_occupied_slots BlockPool.new
new-IsSound n = record {
  valid = new-IsValid n;
  holds = λ a c h p. cc;
  own = λ a b c d g h p q same. cc;
  no_leak = no_occupied n;
}

nothing_at : {A : Type 0} {x : A} (i : ℕ) → get_elem? [] i ≡ some x → ⊥
nothing_at i h = cc

abbrev new_planner : ℕ → ℕ → ℕ → ℕ → ReusePlanner
new_planner g n t spp = record {
  group_id = g;
  namespace_id = n;
  tokens_per_page = t;
  cache_blocks_per_lcm_block = spp;
  index = PrefixIndex.new g;
}

new-returns :
    (g n t spp : ℕ) (p : ReusePlanner)
    → new g n t spp ≡ returns p
    → (0 < t) × (new_planner g n t spp ≡ p)
unfolding new
new-returns g n t spp p run = elim (Bool-cases (ltb 0 t)) [
  | inl some_tokens ↦
      let done : new g n t spp ≡ returns (new_planner g n t spp) = rw some_tokens refl in
      (ground arith, returns-injective (sym done ∙ run))
  | inr no_tokens ↦
      let stop : new g n t spp ≡ panics = rw no_tokens refl in
      absurd (let both = sym stop ∙ run in cc)
]

pub start-IsPlanner :
    (g n t spp size : ℕ) (p : ReusePlanner)
    → 0 < spp
    → new g n t spp ≡ returns p
    → IsPlanner (record { pool = BlockPool.new size; blocks = [] }) p []
unfolding use_count PrefixIndex.new
start-IsPlanner g n t spp size p pos run =
    let (some_tokens, same) = new-returns g n t spp p run in
    subst (λ q. IsPlanner (record { pool = BlockPool.new size; blocks = [] }) q []) same
      (record {
        balanced = record {
          cached = record {
            sound = new-IsSound size;
            indexed = record {
              keys = record { here = λ i e at. cc; there = λ k i h. cc };
              locations = record { here = λ i e at. cc; there = λ k i h. cc };
              past = λ i e at. cc;
            };
            pinned = λ i e at. absurd (nothing_at i at);
          };
          counts = λ b. refl;
          packed = new-IsPacked g spp size;
          group = refl;
        };
        page_size = some_tokens;
        packing = pos;
      })

unused_count : (cs : List CacheBlock) → ((b : ℕ) → strong_at cs b ≡ 0) → count_live cs ≡ 0
unused_count [] none_held = refl
unused_count (c ∷ cs) none_held =
    let z : c.strong ≡ 0 = none_held 0 in
    let rest = unused_count cs (λ b. none_held (suc b)) in rw z (omega (arith, rest))

regroup :
    (q : PrefixReusePlan) (before after : List PrefixReusePlan) (b : ℕ)
    → owned_by (handles (before ++ q ∷ after)) b
      ≡ owned_by (map block_of q.pages ++ handles (before ++ after)) b
regroup q before after b =
    let l = handles-append before (q ∷ after) b in
    let m = owned_by-append (map block_of q.pages) (handles after) b in
    let n = owned_by-append (map block_of q.pages) (handles (before ++ after)) b in
    let o = handles-append before after b in omega (arith, l, m, n, o)

module _ (sha256 : List ℕ → List ℕ) (digest : IsDigest sha256) where
  planned :
      (h : Heap) (p : ReusePlanner) (tokens : List ℤ) (hs : List CacheBlockRef) (r : Planned)
      → IsPlanner h p hs
      → plan sha256 h p tokens ≡ returns r
      → Admitted hs (length tokens) (length (chunks p.tokens_per_page tokens)) r
  planned h p tokens hs r w run =
      let (s, done, a) = plan-Admitted sha256 digest h p tokens hs w in
      subst (Admitted hs (length tokens) (length (chunks p.tokens_per_page tokens)))
        (returns-injective (sym done ∙ run)) a

  -- With a digest of 32 bytes, after any sequence of calls from a new planner with a packing above 0 and
  -- a new pool, in which requests are admitted or refused, held plans released in any order and cold
  -- pages evicted, the invariant holds: each block has exactly as many handles as the index's entries
  -- and the held plans own, the index and the pool are consistent, and no slot is held twice.
  pub Session-IsPlanner :
      {p : ReusePlanner} {qs : List PrefixReusePlan} {h : Heap}
      → Session sha256 p qs h
      → IsPlanner h p (handles qs)
  Session-IsPlanner (Session.start g n t spp size p pos run) =
      start-IsPlanner g n t spp size p pos run
  Session-IsPlanner (Session.admit {p} {p'} {qs} {h} {h'} tokens q s run) =
      (planned h p tokens (handles qs) (some q, p', h') (Session-IsPlanner s) run).0
  Session-IsPlanner (Session.refuse {p} {p'} {qs} {h} {h'} tokens s run) =
      planned h p tokens (handles qs) (none, p', h') (Session-IsPlanner s) run
  Session-IsPlanner
        (Session.give_back {p} {p'} {h} {h'} {qs} {rest} before after q s held left run) =
      let w = subst (λ l. IsPlanner h p (handles l)) held (Session-IsPlanner s) in
      let v = same_handles h p _ _ (regroup q before after) w in
      let (p'', h'', done, u, _) = release-Planner h p q (handles (before ++ after)) v in
      let same = returns-injective (sym done ∙ run) in
      let t = subst (λ r. IsPlanner r.1 r.0 (handles (before ++ after))) same u in
      subst (λ l. IsPlanner h' p' (handles l)) (sym left) t
  Session-IsPlanner (Session.cool {p} {p'} {qs} {h} {h'} o s run) =
      let (_, p'', h'', done, u, _) = evict-Planner h p (handles qs) (Session-IsPlanner s) in
      subst (λ r. IsPlanner r.2 r.1 (handles qs)) (returns-injective (sym done ∙ run)) u

  -- After such a sequence, when no plan is held and no page is cached, no slot of the pool is occupied.
  pub Session-no_leak :
      {p : ReusePlanner} {h : Heap}
      → Session sha256 p [] h
      → cached_pages p ≡ 0
      → num_occupied_slots h.pool ≡ 0
  unfolding cached_pages num_entries use_count
  Session-no_leak {p} {h} s empty =
      let w = Session-IsPlanner s in
      w.balanced.cached.sound.no_leak
      ∙ unused_count h.blocks (λ b. w.balanced.counts b ∙ unowned p.index.entries b empty)
    where
      unowned : (es : List _) (b : ℕ) → length es ≡ 0 → owners es b + 0 ≡ 0
      unowned [] b z = refl
      unowned (e ∷ es) b z = absurd (omega (arith, z))
