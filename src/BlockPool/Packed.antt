-- ===== src/BlockPool/Packed.antt =====
-- Occupying and releasing slots of kv_block_pool.rs keeps the packing of a group.
use machserve.Common.{
  ℕ, ◌+◌, ◌-◌, ◌<◌, ◌≡◌, refl, sym, ap, subst, ◌∙◌, ◌⊎◌, inl, inr, Bool, true, false, ◌&&◌, not,
  none, some, List, [], ◌∷◌, length, get_elem?, set, ltb, leb, ◌==◌, arith, get_elem?-set,
  get_elem?-lt, get_elem?-index, length-set, Bool-cases, returns, assert, index, >>=-eq-returns,
  returns-injective,
}
use machserve.BlockPool.{
  CacheBlockLocation, LcmBlock, BlockPool, is_true_at, is_group, unbind_if_empty, release,
  bind_if_empty, occupy,
}
use machserve.BlockPool.Fill.{Steps}
use machserve.BlockPool.Total.{IsPacked}

-- One parent changed, to one that keeps the packing.
write-IsPacked :
    (g spp i : ℕ) (p q : BlockPool) (v : LcmBlock)
    → q.lcm_blocks ≡ set p.lcm_blocks i v
    → i < length p.lcm_blocks
    → (v.bound_group ≡ some g → length v.occupancy ≡ spp)
    → IsPacked g spp p
    → IsPacked g spp q
write-IsPacked g spp i p q v same lt good packed j b at bound =
    let at' : get_elem? (set p.lcm_blocks i v) j ≡ some b =
      ap (λ bs. get_elem? bs j) (sym same) ∙ at in
    elim (Bool-cases (i == j)) [
      | inl e ↦
          let vb : v ≡ b = ground (arith, get_elem?-set p.lcm_blocks i j v lt) in
          ap (λ k. length k.occupancy) (sym vb) ∙ good (ap (λ k. k.bound_group) vb ∙ bound)
      | inr e ↦ packed j b (ground (arith, get_elem?-set p.lcm_blocks i j v lt)) bound
    ]

assert-true : (b : Bool) {u : Unit {0}} → assert b ≡ returns u → b ≡ true
assert-true true h = refl
assert-true false h = cc

and_second : (a b : Bool) → (a && b) ≡ true → b ≡ true
and_second true b h = h
and_second false b h = cc

occupy-inv :
    (p q : BlockPool) (g spp : ℕ) (l : CacheBlockLocation)
    → occupy p g spp l ≡ returns q
    → (v : LcmBlock) × (q.lcm_blocks ≡ set p.lcm_blocks (l.lcm_block_id - 1) v)
      × (l.lcm_block_id - 1 < length p.lcm_blocks)
      × (length v.occupancy ≡ spp)
unfolding occupy
occupy-inv p q g spp l run =
    let (_, _, run₁) = >>=-eq-returns (assert (ltb 0 l.lcm_block_id)) _ run in
    let (b, at, run₂) = >>=-eq-returns (index p.lcm_blocks (l.lcm_block_id - 1)) _ run₁ in
    let ((c, free), bind, run₃) = >>=-eq-returns (bind_if_empty p g spp l.lcm_block_id b) _ run₂ in
    let (_, fits, run₄) =
      >>=-eq-returns (assert (is_group g c.bound_group && (length c.occupancy == spp))) _ run₃ in
    let (_, _, run₅) = >>=-eq-returns (assert (ltb l.slot_index (length c.occupancy))) _ run₄ in
    let (_, _, run₆) = >>=-eq-returns (assert (not (is_true_at c.occupancy l.slot_index))) _ run₅ in
    let size =
      and_second (is_group g c.bound_group) (length c.occupancy == spp) (assert-true _ fits) in
    let len : length c.occupancy ≡ spp = ground arith in
    let v = record c {
      occupancy = set c.occupancy l.slot_index true;
      occupied_count = c.occupied_count + 1;
    } in
    (
      v,
      sym (ap (λ k. k.lcm_blocks) (returns-injective run₆)),
      get_elem?-lt p.lcm_blocks (l.lcm_block_id - 1)
          (get_elem?-index p.lcm_blocks (l.lcm_block_id - 1) at),
      length-set c.occupancy l.slot_index true ∙ len,
    )

pub Steps-IsPacked :
    (g spp : ℕ) (p q : BlockPool) (ls : List CacheBlockLocation)
    → IsPacked g spp p
    → Steps g spp p ls q
    → IsPacked g spp q
Steps-IsPacked g spp p q [] packed s = subst (IsPacked g spp) s packed
Steps-IsPacked g spp p q (l ∷ ls) packed (m, run, _, s) =
    let (v, same, lt, size) = occupy-inv p m g spp l run in
    Steps-IsPacked g spp m q ls
      (write-IsPacked g spp (l.lcm_block_id - 1) p m v same lt (λ _. size) packed) s

unbind_if_empty-inv :
    (p q : BlockPool) (id : ℕ) (b : LcmBlock)
    → unbind_if_empty p id b ≡ returns q
    → (v : LcmBlock) × (q.lcm_blocks ≡ set p.lcm_blocks (id - 1) v)
      × ((v.bound_group ≡ none) ⊎ (v ≡ b))
unfolding unbind_if_empty
unbind_if_empty-inv p q id b run = elim (Bool-cases (b.occupied_count == 0)) [
  | inl e ↦
      let run₁ = rw e at run in
      let (_, _, run₂) =
        >>=-eq-returns (assert (ltb (length p.free_parent_ids) (length p.lcm_blocks))) _ run₁ in
      (
        record b { bound_group = none; occupancy = [] },
        sym (ap (λ k. k.lcm_blocks) (returns-injective run₂)),
        inl refl,
      )
  | inr e ↦
      let run₁ = rw e at run in (b, sym (ap (λ k. k.lcm_blocks) (returns-injective run₁)), inr refl)
]

pub release-IsPacked :
    (g spp : ℕ) (p q : BlockPool) (l : CacheBlockLocation)
    → release p l ≡ returns q
    → IsPacked g spp p
    → IsPacked g spp q
unfolding release
release-IsPacked g spp p q l run packed =
    let (_, _, run₁) =
      >>=-eq-returns (assert (ltb 0 l.lcm_block_id && leb l.lcm_block_id (length p.lcm_blocks))) _
        run in
    let (b, at, run₂) = >>=-eq-returns (index p.lcm_blocks (l.lcm_block_id - 1)) _ run₁ in
    let (_, _, run₃) = >>=-eq-returns (assert (ltb l.slot_index (length b.occupancy))) _ run₂ in
    let (_, _, run₄) =
      >>=-eq-returns (assert (is_true_at b.occupancy l.slot_index && ltb 0 b.occupied_count)) _
        run₃ in
    let c = record b {
      occupancy = set b.occupancy l.slot_index false;
      occupied_count = b.occupied_count - 1;
    } in
    let (v, same, kind) = unbind_if_empty-inv p q l.lcm_block_id c run₄ in
    let there = get_elem?-index p.lcm_blocks (l.lcm_block_id - 1) at in
    let keeps : v.bound_group ≡ some g → length v.occupancy ≡ spp = λ bound. elim kind [
      | inl unbound ↦ absurd (let two = sym unbound ∙ bound in cc)
      | inr vc ↦
          ap (λ k. length k.occupancy) vc
          ∙ length-set b.occupancy l.slot_index false
          ∙ packed (l.lcm_block_id - 1) b there (ap (λ k. k.bound_group) (sym vc) ∙ bound)
    ] in
    write-IsPacked g spp (l.lcm_block_id - 1) p q v same (get_elem?-lt p.lcm_blocks _ there) keeps
      packed
