-- ===== src/ReusePlanner/Prompt.antt =====
-- Facts of reuse_planner.rs about the keys of a prompt and the handles of its pages.
use machserve.Common.{
  ℕ, zero, suc, ◌<◌, ◌≡◌, refl, sym, ap, ◌∙◌, false, some, List, [], ◌∷◌, ◌++◌, map, length, take,
  drop, get_elem?, arith, All, returns,
}
use machserve.Common.Int.{ℤ}
use machserve.PrefixHasher.{frame, digest_to_hex, hex_to_bytes}
use machserve.PrefixHasher.Hex.{AreBytes, hex_to_bytes-digest_to_hex}
use machserve.PrefixHasher.Chain.{IsDigest, chain, hash_list}
use machserve.BlockRef.{CacheBlockRef}
use machserve.PrefixIndex.{is_empty}
use machserve.ReusePlanner.{PageRef, ReusePlanner, chunks, keys_from, block_of}
use machserve.ReusePlanner.Chunks.{concat, chunks-Pages}
use machserve.ReusePlanner.Record.{IsKey}

pub hex-is_empty : (d : List ℕ) → AreBytes d → 0 < length d → is_empty (digest_to_hex d) ≡ false
unfolding hex_to_bytes
hex-is_empty d bytes pos = from_decoded (digest_to_hex d) (hex_to_bytes-digest_to_hex d bytes)
  where
    from_decoded : (s : List ℕ) → hex_to_bytes s ≡ returns d → is_empty s ≡ false
    from_decoded [] run =
        let e : d ≡ [] = cc in absurd (let z = ap length e in omega (arith, z, pos))
    from_decoded (c ∷ s) run = refl

module _ (sha256 : List ℕ → List ℕ) (digest : IsDigest sha256) where
  pub hash_list-is_empty :
      (earlier pages : List (List ℤ))
      → All (λ s. is_empty s ≡ false) (hash_list sha256 earlier pages)
  unfolding hash_list chain
  hash_list-is_empty earlier [] = tt
  hash_list-is_empty earlier (page ∷ pages) = (
    (let stream = frame (chain sha256 earlier) page [] in
        let s = digest.size stream in
        hex-is_empty (sha256 stream) (digest.bytes stream) (omega (arith, s))),
    hash_list-is_empty (page ∷ earlier) pages,
  )

pub keys_from-IsKey :
    (p : ReusePlanner) (i : ℕ) (hashes : List (List ℕ))
    → All (λ s. is_empty s ≡ false) hashes
    → All (IsKey p.group_id) (keys_from p i hashes)
unfolding keys_from
keys_from-IsKey p i [] h = tt
keys_from-IsKey p i (s ∷ hashes) h = ((refl, h.0), keys_from-IsKey p (suc i) hashes h.1)

pub keys_from-length :
    (p : ReusePlanner) (i : ℕ) (hashes : List (List ℕ))
    → length (keys_from p i hashes) ≡ length hashes
unfolding keys_from
keys_from-length p i [] = refl
keys_from-length p i (s ∷ hashes) = ap suc (keys_from-length p (suc i) hashes)

pub All-first :
    {A : Type 0} (P : A → Type 0) (n : ℕ) (xs : List A)
    → ((j : ℕ) (x : A) → j < n → get_elem? xs j ≡ some x → P x)
    → All P (take n xs)
All-first P zero xs h = tt
All-first P (suc n) [] h = tt
All-first P (suc n) (x ∷ xs) h =
    (h 0 x (omega arith) refl, All-first P n xs (λ j y lt at. h (suc j) y (omega (arith, lt)) at))

pub All-drop : {A : Type 0} (P : A → Type 0) (n : ℕ) (xs : List A) → All P xs → All P (drop n xs)
All-drop P zero xs h = h
All-drop P (suc n) [] h = tt
All-drop P (suc n) (x ∷ xs) h = All-drop P n xs h.1

pub take-drop : {A : Type 0} (n : ℕ) (xs : List A) → take n xs ++ drop (length (take n xs)) xs ≡ xs
take-drop zero xs = refl
take-drop (suc n) [] = refl
take-drop (suc n) (x ∷ xs) = ap (λ r. x ∷ r) (take-drop n xs)

pub blocks_of-reused :
    (rs : List CacheBlockRef) (ps : List PageRef)
    → map block_of (map PageRef.reused rs ++ ps) ≡ rs ++ map block_of ps
blocks_of-reused [] ps = refl
blocks_of-reused (r ∷ rs) ps = ap (λ l. r ∷ l) (blocks_of-reused rs ps)

pub blocks_of-length : (ps : List PageRef) → length (map block_of ps) ≡ length ps
blocks_of-length [] = refl
blocks_of-length (p ∷ ps) = ap suc (blocks_of-length ps)

-- A prompt without pages has no tokens.
pub no_pages :
    (size : ℕ) (tokens : List ℤ) → 0 < size → length (chunks size tokens) ≡ 0 → 0 ≡ length tokens
no_pages size tokens pos z =
    let (all, _) = chunks-Pages size tokens pos in
    ap length (sym (concat_none (chunks size tokens) z) ∙ all)
  where
    concat_none : (cs : List (List ℤ)) → length cs ≡ 0 → concat cs ≡ []
    concat_none [] z = refl
    concat_none (c ∷ cs) z = absurd (omega (arith, z))
