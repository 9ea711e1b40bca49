-- ===== src/ReusePlanner/Reuse.antt =====
-- The reused pages of a plan in reuse_planner.rs: they are refreshed, and their handles cloned.
use machserve.Common.{
  ℕ, suc, ◌≡◌, refl, sym, ap, ◌∙◌, inl, inr, true, Option, none, some, List, [], ◌∷◌, ◌++◌, length,
  arith, Bool-cases, Option-cases, All, index-get_elem?, returns,
}
use machserve.Common.Positions.{at_position}
use machserve.BlockRef.{Heap, CacheBlockRef}
use machserve.BlockRef.Drop.{clone-Cloned}
use machserve.PrefixIndex.{
  CacheKey, CacheEntry, PrefixCacheIndex, key_eq, query, block_for, contains,
}
use machserve.PrefixIndex.Owners.{owned, owners}
use machserve.PrefixIndex.Found.{key_eq-IsTest, entry_for, member-entry_for}
use machserve.PrefixIndex.Evict.{IsCached}
use machserve.PrefixIndex.Store.{Stored, touched, owned_in, query-Stored}
use machserve.ReusePlanner.{query_all, blocks_for}
use machserve.ReusePlanner.Balance.{IsBalanced, owned_by-append, recount, clone-IsBalanced}

-- The index has an entry for the key.
abbrev pub Has : PrefixCacheIndex → CacheKey → Type 0
Has ix key = (e : CacheEntry) × (entry_for ix key ≡ some e)

pub contains-Has :
    (h : Heap) (ix : PrefixCacheIndex) (key : CacheKey)
    → IsCached h ix
    → contains ix key ≡ true
    → Has ix key
unfolding contains
contains-Has h ix key c found = elim (Option-cases (ix.by_key key)) [
  | inl p ↦ absurd (ground arith)
  | inr (i, p) ↦
      let (e, at, _) = c.indexed.keys.there key i p in (e, ap (at_position ix.entries) p ∙ at)
]

-- An entry that was stored over one with the same handle changes no owner.
pub same-owners :
    (ix : PrefixCacheIndex) (e d : CacheEntry) (h' : Heap) (ix' : PrefixCacheIndex)
    → Stored ix d h' ix'
    → entry_for ix d.key ≡ some e
    → e.block_ref ≡ d.block_ref
    → (b : ℕ) → owners ix'.entries b ≡ owners ix.entries b
same-owners ix e d h' ix' s found same b =
    let taken = s.taken b in
    let was = ap (λ o. owned_in o b) found in
    let ref = ap (λ r. owned r b) same in omega (arith, taken, was, ref)

-- The key is cached, and its entry owns this handle.
abbrev pub Holds : PrefixCacheIndex → CacheKey → CacheBlockRef → Type 0
Holds ix key r = (e : CacheEntry) × (entry_for ix key ≡ some e) × (e.block_ref ≡ r)

-- Each key holds the handle beside it.
abbrev pub Matches : PrefixCacheIndex → List CacheKey → List CacheBlockRef → Type 0
Matches ix [] [] = Unit
Matches ix (k ∷ ks) (r ∷ rs) = Holds ix k r × Matches ix ks rs
Matches ix _ _ = ⊥

-- What was held is held still.
abbrev pub Extends : PrefixCacheIndex → PrefixCacheIndex → Type 0
Extends ix ix' = (key : CacheKey) (r : CacheBlockRef) → Holds ix key r → Holds ix' key r

pub Extends-Matches :
    (ix ix' : PrefixCacheIndex) (ks : List CacheKey) (rs : List CacheBlockRef)
    → Extends ix ix'
    → Matches ix ks rs
    → Matches ix' ks rs
Extends-Matches ix ix' [] [] f m = tt
Extends-Matches ix ix' [] (r ∷ rs) f m = elim m [ ]
Extends-Matches ix ix' (k ∷ ks) [] f m = elim m [ ]
Extends-Matches ix ix' (k ∷ ks) (r ∷ rs) f m = (f k r m.0, Extends-Matches ix ix' ks rs f m.1)

pub Matches-append :
    (ix : PrefixCacheIndex) (ks js : List CacheKey) (rs qs : List CacheBlockRef)
    → Matches ix ks rs
    → Matches ix js qs
    → Matches ix (ks ++ js) (rs ++ qs)
Matches-append ix [] js [] qs m n = n
Matches-append ix [] js (r ∷ rs) qs m n = elim m [ ]
Matches-append ix (k ∷ ks) js [] qs m n = elim m [ ]
Matches-append ix (k ∷ ks) js (r ∷ rs) qs m n = (m.0, Matches-append ix ks js rs qs m.1 n)

pub Matches-length :
    (ix : PrefixCacheIndex) (ks : List CacheKey) (rs : List CacheBlockRef)
    → Matches ix ks rs
    → length rs ≡ length ks
Matches-length ix [] [] m = refl
Matches-length ix [] (r ∷ rs) m = elim m [ ]
Matches-length ix (k ∷ ks) [] m = elim m [ ]
Matches-length ix (k ∷ ks) (r ∷ rs) m = ap suc (Matches-length ix ks rs m.1)

-- An entry that is stored over none, or over one with the same handle, keeps what is held.
pub Stored-Extends :
    (ix : PrefixCacheIndex) (d : CacheEntry) (h' : Heap) (ix' : PrefixCacheIndex)
    → Stored ix d h' ix'
    → ((e : CacheEntry) → entry_for ix d.key ≡ some e → e.block_ref ≡ d.block_ref)
    → Extends ix ix'
Stored-Extends ix d h' ix' s over key r (e, found, ref) = elim (Bool-cases (key_eq d.key key)) [
  | inl p ↦
      let same = key_eq-IsTest.sound d.key key p in
      let old = over e (ap (entry_for ix) same ∙ found) in
      (d, s.stored key ∙ rw p refl, sym old ∙ ref)
  | inr p ↦ (e, s.stored key ∙ rw p found, ref)
]

pub same_ref : (e d : CacheEntry) → some e ≡ some d → d.block_ref ≡ e.block_ref
same_ref e d both = cc

module _ (g spp : ℕ) where
  pub query-IsBalanced :
      (h : Heap) (ix : PrefixCacheIndex) (hs : List CacheBlockRef) (key : CacheKey)
      → IsBalanced g spp h ix hs
      → (o : Option _) × (ix' : PrefixCacheIndex) × (query ix key ≡ returns (o, ix'))
        × IsBalanced g spp h ix' hs
        × Extends ix ix'
  query-IsBalanced h ix hs key w = elim (query-Stored h ix key w.cached) [
    | inl (_, run) ↦ (none, ix, run, w, λ k r held. held)
    | inr (e, found, ix', run, s) ↦
        let (_, _, _, ek) = member-entry_for ix key e w.cached.indexed found in
        let same = same-owners ix e (touched ix e) h ix' s (ap (entry_for ix) ek ∙ found) refl in
        (
          some e.location,
          ix',
          run,
          record {
            cached = s.cached;
            counts = λ b. let c = w.counts b in let o = same b in omega (arith, c, o);
            packed = w.packed;
            group = s.group ∙ w.group;
          },
          Stored-Extends ix (touched ix e) h ix' s
              (λ d at. let both = sym (ap (entry_for ix) ek ∙ found) ∙ at in same_ref e d both),
        )
  ]

  pub query_all-IsBalanced :
      (h : Heap) (ix : PrefixCacheIndex) (hs : List CacheBlockRef) (keys : List CacheKey)
      → IsBalanced g spp h ix hs
      → (ix' : PrefixCacheIndex) × (query_all ix keys ≡ returns ix')
        × IsBalanced g spp h ix' hs
        × Extends ix ix'
  unfolding query_all
  query_all-IsBalanced h ix hs [] w = (ix, refl, w, λ k r held. held)
  query_all-IsBalanced h ix hs (key ∷ keys) w =
      let (o, m, run, v, keep) = query-IsBalanced h ix hs key w in
      let (ix', rest, u, keep') = query_all-IsBalanced h m hs keys v in
      (ix', rw run rest, u, λ k r held. keep' k r (keep k r held))

  block_for-IsBalanced :
      (h : Heap) (ix : PrefixCacheIndex) (hs : List CacheBlockRef) (key : CacheKey)
      → IsBalanced g spp h ix hs
      → Has ix key
      → (a : ℕ) × (h' : Heap) × (block_for h ix key ≡ returns (some (some a), h'))
        × IsBalanced g spp h' ix (some a ∷ hs)
        × Holds ix key (some a)
  unfolding block_for
  block_for-IsBalanced h ix hs key w (e, found) =
      let (i, p, at, _) = member-entry_for ix key e w.cached.indexed found in
      let (a, ref, live, _) = w.cached.pinned i e at in
      let (h', run, c) = clone-Cloned h a w.cached.sound live in
      (
        a,
        h',
        rw (p, block_for) (rw (index-get_elem? ix.entries i at) (rw ref (rw run refl))),
        clone-IsBalanced g spp h h' ix hs a w c,
        (e, found, ref),
      )

  pub blocks_for-IsBalanced :
      (h : Heap) (ix : PrefixCacheIndex) (hs : List CacheBlockRef) (keys : List CacheKey)
      → IsBalanced g spp h ix hs
      → All (Has ix) keys
      → (rs : List CacheBlockRef) × (h' : Heap) × (blocks_for h ix keys ≡ returns (rs, h'))
        × IsBalanced g spp h' ix (rs ++ hs)
        × Matches ix keys rs
  unfolding blocks_for
  blocks_for-IsBalanced h ix hs [] w has = ([], h, refl, w, tt)
  blocks_for-IsBalanced h ix hs (key ∷ keys) w has =
      let (a, m, run, v, held) = block_for-IsBalanced h ix hs key w has.0 in
      let (rs, h', rest, u, held_rest) = blocks_for-IsBalanced m ix (some a ∷ hs) keys v has.1 in
      (
        some a ∷ rs,
        h',
        rw run (rw rest refl),
        recount g spp h' ix _ _
            (λ b.
              let l = owned_by-append rs (some a ∷ hs) b in
              let r = owned_by-append rs hs b in omega (arith, l, r))
            u,
        (held, held_rest),
      )
