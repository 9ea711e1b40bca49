-- ===== src/StateReuse/Store.antt =====
-- The anchor store of state_reuse.rs is a bounded queue with an exact count of its bytes.
use machserve.Common.{
  ℕ, ◌+◌, ◌≤◌, ◌<◌, ◌≡◌, ◌≢◌, refl, sym, ap, inl, inr, false, some, List, [], ◌∷◌, length, ◌==◌,
  arith, Bool-cases, All, Distinct,
}
use machserve.StateReuse.{Anchor, AnchorStore, anchor_bytes, find, erase, retain}

abbrev pub ids : List (ℕ × Anchor) → List ℕ
ids [] = []
ids ((k, a) ∷ rest) = k ∷ ids rest

abbrev pub total_bytes : List (ℕ × Anchor) → ℕ
total_bytes [] = 0
total_bytes ((k, a) ∷ rest) = anchor_bytes a + total_bytes rest

pub record IsStore (s : AnchorStore) : Type 0 where
  pub ordered : s.order ≡ ids s.anchors
  pub distinct : Distinct (ids s.anchors)
  pub past : All (λ k. k < s.next_id) (ids s.anchors)
  pub bytes : s.bytes_held ≡ total_bytes s.anchors
  pub room : length s.anchors ≤ s.max_anchors

pub retain_fresh : (xs : List ℕ) (id : ℕ) → All (λ k. id ≢ k) xs → retain xs id ≡ xs
retain_fresh [] id h = refl
retain_fresh (x ∷ xs) id h =
    let ne : (x == id) ≡ false = let d = h.0 in different x id (λ e. d (sym e)) in
    rw ne (ap (λ r. x ∷ r) (retain_fresh xs id h.1))
  where
    different : (a b : ℕ) → a ≢ b → (a == b) ≡ false
    different a b ne = elim (Bool-cases (a == b)) [ inl p ↦ absurd (ne (ground arith)) | inr p ↦ p ]

pub erase_fresh : (xs : List (ℕ × Anchor)) (id : ℕ) → All (λ k. id ≢ k) (ids xs) → erase xs id ≡ xs
erase_fresh [] id h = refl
erase_fresh ((k, a) ∷ rest) id h = elim (Bool-cases (k == id)) [
  | inl p ↦ absurd (let ne = h.0 in ne (ground arith))
  | inr p ↦ rw p (ap (λ r. (k, a) ∷ r) (erase_fresh rest id h.1))
]

find-ids :
    (xs : List (ℕ × Anchor)) (id : ℕ) (a : Anchor)
    → find xs id ≡ some a
    → All (λ k. id ≢ k) (ids xs)
    → ⊥
find-ids [] id a h ne = cc
find-ids ((k, b) ∷ rest) id a h ne = elim (Bool-cases (k == id)) [
  | inl p ↦ let away = ne.0 in away (ground arith)
  | inr p ↦ find-ids rest id a (ground arith) ne.1
]
