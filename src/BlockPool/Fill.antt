-- ===== src/BlockPool/Fill.antt =====
-- The commit loop of BlockPool::acquire_blocks in kv_block_pool.rs over what one parent gives.
use machserve.Common.{
  ℕ, zero, suc, ◌+◌, ◌≡◌, ◌≢◌, refl, sym, ap, subst, ◌∙◌, Bool, true, false, some, List, [], ◌∷◌,
  ◌++◌, length, get_elem?, replicate, arith, get_elem?-set_self, get_elem?-set_ne, get_elem?-lt,
  length-set, length-replicate, returns,
}
use machserve.BlockPool.{CacheBlockLocation, LcmBlock, BlockPool, is_true_at, occupy}
use machserve.BlockPool.Valid.{IsValid, IsFree}
use machserve.BlockPool.Release.{is_true_at-set}
use machserve.BlockPool.Occupy.{
  Occupied, IsOpenTo, filled, bound_to, marked, occupy_used, occupy_fresh,
}
use machserve.BlockPool.Plan.{take_open}
use machserve.BlockPool.Acquire.{occupy_all}

-- The slots are taken one after another, each by a call of `occupy` that returns.
abbrev pub Steps : ℕ → ℕ → BlockPool → List CacheBlockLocation → BlockPool → Type 0
Steps g spp p [] q = p ≡ q
Steps g spp p (l ∷ ls) q =
    (m : BlockPool) × (occupy p g spp l ≡ returns m) × Occupied p l m × Steps g spp m ls q

pub Steps-append :
    (g spp : ℕ) (p m q : BlockPool) (ls ks : List CacheBlockLocation)
    → Steps g spp p ls m
    → Steps g spp m ks q
    → Steps g spp p (ls ++ ks) q
Steps-append g spp p m q [] ks s t = subst (λ r. Steps g spp r ks q) (sym s) t
Steps-append g spp p m q (l ∷ ls) ks (n, run, held, s) t =
    (n, run, held, Steps-append g spp n m q ls ks s t)

pub occupy_all-Steps :
    (g spp : ℕ) (p q : BlockPool) (ls : List CacheBlockLocation)
    → Steps g spp p ls q
    → occupy_all p g spp ls ≡ returns q
unfolding occupy_all
occupy_all-Steps g spp p q [] s = ap returns s
occupy_all-Steps g spp p q (l ∷ ls) (m, run, held, s) = rw run (occupy_all-Steps g spp m q ls s)

-- The pool `q` after the slots `ls` of the parent at `i` were taken.
pub record Fills (g spp i : ℕ) (p : BlockPool) (ls : List CacheBlockLocation) (q : BlockPool)
    : Type 0 where
  pub steps : Steps g spp p ls q
  pub valid : IsValid q
  pub elsewhere : (j : ℕ) → i ≢ j → get_elem? q.lcm_blocks j ≡ get_elem? p.lcm_blocks j
  pub queue : q.free_parent_ids ≡ p.free_parent_ids

no_fill : (g spp i : ℕ) (p : BlockPool) → IsValid p → (q : BlockPool) × Fills g spp i p [] q
no_fill g spp i p valid =
    (p, record { steps = refl; valid = valid; elsewhere = λ j ne. refl; queue = refl })

-- The open slots among `bs`, the occupancy from slot `s` on, can all be taken.
pub fill_slots :
    (g spp i s left : ℕ) (bs : List Bool) (p : BlockPool) (b : LcmBlock)
    → IsValid p
    → get_elem? p.lcm_blocks i ≡ some b
    → IsOpenTo b g spp
    → s + length bs ≡ spp
    → ((t : ℕ) → is_true_at b.occupancy (s + t) ≡ is_true_at bs t)
    → (q : BlockPool) × Fills g spp i p (take_open (suc i) s bs left) q
unfolding take_open
fill_slots g spp i s zero bs p b valid at to len view = no_fill g spp i p valid
fill_slots g spp i s (suc left) [] p b valid at to len view = no_fill g spp i p valid
fill_slots g spp i s (suc left) (true ∷ bs) p b valid at to len view =
    fill_slots g spp i (suc s) (suc left) bs p b valid at to (omega arith)
      λ t. ap (is_true_at b.occupancy) (omega arith) ∙ view (suc t)
fill_slots g spp i s (suc left) (false ∷ bs) p b valid at to len view =
    let vacant : is_true_at b.occupancy s ≡ false =
      ap (is_true_at b.occupancy) (omega arith) ∙ view 0 in
    let (run, held) = occupy_used p valid g spp i s b at to (omega arith) vacant in
    let m = marked p i b s p.free_parent_ids in
    let lt = get_elem?-lt p.lcm_blocks i at in
    let rest =
      fill_slots g spp i (suc s) left bs m (filled b s) held.valid
        (get_elem?-set_self p.lcm_blocks i (filled b s) lt)
        (record {
          used = omega arith;
          group = to.group;
          packed = length-set b.occupancy s true ∙ to.packed;
        })
        (omega arith)
        λ t. ground (
          arith,
          is_true_at-set b.occupancy s (suc s + t) true (omega (arith, to.packed)),
          view (suc t),
          ap (is_true_at b.occupancy) (shift s t),
        ) in
    (
      rest.0,
      record {
        steps = (m, run, held, rest.1.steps);
        valid = rest.1.valid;
        elsewhere = λ j ne. rest.1.elsewhere j ne ∙ get_elem?-set_ne p.lcm_blocks (filled b s) ne;
        queue = rest.1.queue;
      },
    )
  where
    shift : (s t : ℕ) → suc s + t ≡ s + suc t
    shift s t = omega arith

-- The slots of the first free parent can all be taken, if it has any.
pub fill_fresh :
    (g n i left : ℕ) (free : List ℕ) (p : BlockPool) (b : LcmBlock)
    → IsValid p
    → get_elem? p.lcm_blocks i ≡ some b
    → IsFree b
    → p.free_parent_ids ≡ suc i ∷ free
    → (q : BlockPool) × Steps g
        (suc n)
        p
        (take_open (suc i) 0 (replicate (suc n) false) (suc left))
        q
      × IsValid q
      × (q.free_parent_ids ≡ free)
unfolding take_open
fill_fresh g n i left free p b valid at idle queue =
    let (run, held) = occupy_fresh p valid g (suc n) i 0 b free at idle queue (omega arith) in
    let c = bound_to g (suc n) b in
    let m = marked p i c 0 free in
    let rest =
      fill_slots g (suc n) i 1 left (replicate n false) m (filled c 0) held.valid
        (get_elem?-set_self p.lcm_blocks i (filled c 0) (get_elem?-lt p.lcm_blocks i at))
        (record {
          used = omega arith;
          group = refl;
          packed = length-set (replicate (suc n) false) 0 true ∙ length-replicate (suc n) false;
        })
        (omega (arith, length-replicate n false))
        λ t. ap (is_true_at (true ∷ replicate n false)) (one_add t) in
    (rest.0, (m, run, held, rest.1.steps), rest.1.valid, rest.1.queue)
  where
    one_add : (t : ℕ) → 1 + t ≡ suc t
    one_add t = omega arith
