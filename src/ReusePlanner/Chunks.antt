-- ===== src/ReusePlanner/Chunks.antt =====
-- The pages of a prompt in reuse_planner.rs.
use machserve.Common.{
  ℕ, zero, suc, ◌+◌, ◌-◌, ◌≤◌, ◌<◌, ◌≡◌, refl, ap, ◌∙◌, ◌⊎◌, inl, inr, List, [], ◌∷◌, ◌++◌, length,
  arith,
}
use machserve.Common.Int.{ℤ}
use machserve.ReusePlanner.{chunks_from, chunks}

abbrev pub concat : List (List ℤ) → List ℤ
concat [] = []
concat (c ∷ cs) = c ++ concat cs

-- No page is empty or too long, and all but the last are full.
abbrev pub Pages : ℕ → List (List ℤ) → Type 0
Pages size [] = Unit
Pages size (c ∷ cs) =
    (0 < length c) × (length c ≤ size) × ((cs ≡ []) ⊎ (length c ≡ size)) × Pages size cs

length-snoc : (c : List ℤ) (t : ℤ) → length (c ++ t ∷ []) ≡ suc (length c)
length-snoc [] t = refl
length-snoc (x ∷ c) t = ap suc (length-snoc c t)

snoc_append : (c : List ℤ) (t : ℤ) (ts : List ℤ) → (c ++ t ∷ []) ++ ts ≡ c ++ t ∷ ts
snoc_append [] t ts = refl
snoc_append (x ∷ c) t ts = ap (λ r. x ∷ r) (snoc_append c t ts)

chunks_from-Pages :
    (size room : ℕ) (chunk ts : List ℤ)
    → 0 < length chunk
    → length chunk + room ≡ size
    → (concat (chunks_from size room chunk ts) ≡ chunk ++ ts)
      × Pages size (chunks_from size room chunk ts)
chunks_from-Pages size room chunk [] pos fits = (refl, (pos, omega (arith, fits), inl refl, tt))
chunks_from-Pages size zero chunk (t ∷ ts) pos fits =
    let (all, pages) =
      chunks_from-Pages size (size - 1) (t ∷ []) ts (omega arith) (omega (arith, fits, pos)) in
    (ap (λ r. chunk ++ r) all, (pos, omega (arith, fits), inr (omega (arith, fits)), pages))
chunks_from-Pages size (suc room) chunk (t ∷ ts) pos fits =
    let (all, pages) =
      chunks_from-Pages size room (chunk ++ t ∷ []) ts (omega (arith, length-snoc chunk t))
        (omega (arith, length-snoc chunk t, fits)) in
    (all ∙ snoc_append chunk t ts, pages)

-- The pages of a prompt, put together, are the prompt; none is empty or longer than the page size,
-- which is positive, and all but the last are full.
pub chunks-Pages :
    (size : ℕ) (tokens : List ℤ)
    → 0 < size
    → (concat (chunks size tokens) ≡ tokens) × Pages size (chunks size tokens)
unfolding chunks
chunks-Pages size [] pos = (refl, tt)
chunks-Pages size (t ∷ ts) pos =
    chunks_from-Pages size (size - 1) (t ∷ []) ts (omega arith) (omega (arith, pos))
