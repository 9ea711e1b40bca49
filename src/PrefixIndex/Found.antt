-- ===== src/PrefixIndex/Found.antt =====
-- What the maps and the vector of PrefixCacheIndex in prefix_cache.rs say together.
use machserve.Common.{
  list_eq_sound, list_eq_self, ℕ, ◌<◌, ◌≡◌, refl, sym, ap, ◌∙◌, inl, inr, Bool, true, false, ◌&&◌,
  Option, some, get_elem?, ◌==◌, arith, Option-cases,
}
use machserve.Common.Positions.{at_position, Indexes, IsTest}
use machserve.BlockPool.{CacheBlockLocation}
use machserve.PrefixIndex.{CacheKey, CacheEntry, PrefixCacheIndex, key_eq, location_eq}

key_of :
    {a b : CacheKey}
    → a.namespace_id ≡ b.namespace_id
    → a.group_id ≡ b.group_id
    → a.content_hash ≡ b.content_hash
    → a.page_offset ≡ b.page_offset
    → a ≡ b
key_of p q r s i = record {
  namespace_id = p i;
  group_id = q i;
  content_hash = r i;
  page_offset = s i;
}

location_of :
    {a b : CacheBlockLocation}
    → a.lcm_block_id ≡ b.lcm_block_id
    → a.slot_index ≡ b.slot_index
    → a ≡ b
location_of p q i = record { lcm_block_id = p i; slot_index = q i }

and_left : (a b : Bool) → (a && b) ≡ true → a ≡ true
and_left true b h = refl
and_left false b h = h

and_right : (a b : Bool) → (a && b) ≡ true → b ≡ true
and_right true b h = h
and_right false b h = cc

pub key_eq-IsTest : IsTest key_eq
key_eq-IsTest = record {
  sound = λ a b h.
      let rest = and_right _ _ (and_right _ _ h) in
      key_of (same_ℕ (and_left _ _ h)) (same_ℕ (and_left _ _ (and_right _ _ h)))
        (list_eq_sound a.content_hash b.content_hash (and_left _ _ rest))
        (same_ℕ (and_right _ _ rest));
  complete = λ a. ground (arith, list_eq_self a.content_hash);
}
  where
    same_ℕ : {m n : ℕ} → (m == n) ≡ true → m ≡ n
    same_ℕ h = ground arith

pub location_eq-IsTest : IsTest location_eq
location_eq-IsTest = record {
  sound = λ a b h. location_of (same_ℕ (and_left _ _ h)) (same_ℕ (and_right _ _ h));
  complete = λ a. ground arith;
}
  where
    same_ℕ : {m n : ℕ} → (m == n) ≡ true → m ≡ n
    same_ℕ h = ground arith

-- The invariant of the index: both maps name the entries and nothing else, and no entry was
-- accessed in the future.
pub record IsIndexed (ix : PrefixCacheIndex) : Type 0 where
  pub keys : Indexes (λ e. e.key) ix.by_key ix.entries
  pub locations : Indexes (λ e. e.location) ix.by_location ix.entries
  pub past :
      (i : ℕ) (e : CacheEntry)
      → get_elem? ix.entries i ≡ some e
      → e.last_access_epoch < ix.next_epoch

-- The index as a finite map.
abbrev pub entry_for : PrefixCacheIndex → CacheKey → Option CacheEntry
entry_for ix key = at_position ix.entries (ix.by_key key)

pub entry_for-member :
    (ix : PrefixCacheIndex) (i : ℕ) (e : CacheEntry)
    → IsIndexed ix
    → get_elem? ix.entries i ≡ some e
    → entry_for ix e.key ≡ some e
entry_for-member ix i e x at = ap (at_position ix.entries) (x.keys.here i e at) ∙ at

pub member-entry_for :
    (ix : PrefixCacheIndex) (key : CacheKey) (e : CacheEntry)
    → IsIndexed ix
    → entry_for ix key ≡ some e
    → (i : ℕ) × (ix.by_key key ≡ some i) × (get_elem? ix.entries i ≡ some e) × (e.key ≡ key)
member-entry_for ix key e x h = elim (Option-cases (ix.by_key key)) [
  | inl p ↦ absurd (let q = ap (at_position ix.entries) p in cc)
  | inr (i, p) ↦
      let (d, q, r) = x.keys.there key i p in
      let de : d ≡ e = let s = ap (at_position ix.entries) p in cc in
      (i, p, q ∙ ap some de, ap (λ k. k.key) (sym de) ∙ r)
]
