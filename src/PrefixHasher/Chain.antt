-- ===== src/PrefixHasher/Chain.antt =====
-- The chain of page hashes in prefix_cache.rs: one hash stands for the whole prefix up to its page,
-- unless SHA-256 collides.
use mathlib.Core.Option.{some-injective}
use mathlib.Core.List.{append-nil, append_assoc, reverse, reverse-reverse, reverse-cons}
use native.Mathlib.Decide.{ℕ_discrete as nat_discrete}
use machserve.Common.{
  ℕ, zero, suc, ◌^◌, ◌<◌, ◌≡◌, ◌≢◌, refl, sym, ap, ◌∙◌, ◌⊎◌, inl, inr, some, List, [], ◌∷◌, ◌++◌,
  length, get_elem?, take, returns, returns-injective, arith,
}
use machserve.Common.Int.{ℤ}
use machserve.PrefixHasher.{
  frame, hex_to_bytes, digest_to_hex, append_hex_bytes, hash_prefix_page, hashes_from,
  compute_prefix_hashes,
}
use machserve.PrefixHasher.Hex.{AreBytes, hex_to_bytes-digest_to_hex}
use machserve.PrefixHasher.Frame.{AreI32, Fits, frame-injective}

-- What SHA-256 documents of its output.
pub record IsDigest (sha256 : List ℕ → List ℕ) : Type 0 where
  pub bytes : (stream : List ℕ) → AreBytes (sha256 stream)
  pub size : (stream : List ℕ) → length (sha256 stream) ≡ 32

bytes-discrete : Discrete (List ℕ)
bytes-discrete = hlevel nat_discrete

-- Pages of `i32` tokens with a count that a `u32` holds.
abbrev pub ArePages : List (List ℤ) → Type 0
ArePages [] = Unit
ArePages (p ∷ ps) = (length p < 2 ^ 32) × AreI32 p × ArePages ps

ArePages-take : (n : ℕ) (ps : List (List ℤ)) → ArePages ps → ArePages (take n ps)
ArePages-take zero ps h = tt
ArePages-take (suc n) [] h = tt
ArePages-take (suc n) (p ∷ ps) h = (h.0, h.1, ArePages-take n ps h.2)

ArePages-append : (ps qs : List (List ℤ)) → ArePages ps → ArePages qs → ArePages (ps ++ qs)
ArePages-append [] qs hp hq = hq
ArePages-append (p ∷ ps) qs hp hq = (hp.0, hp.1, ArePages-append ps qs hp.2 hq)

ArePages-reverse : (ps : List (List ℤ)) → ArePages ps → ArePages (reverse ps)
ArePages-reverse [] h = tt
ArePages-reverse (p ∷ ps) h =
    rw reverse-cons (ArePages-append (reverse ps) (p ∷ []) (ArePages-reverse ps h.2) (h.0, h.1, tt))

module _ (sha256 : List ℕ → List ℕ) where
  -- The digest of the last page of a prefix, whose pages are given latest first.
  unfoldable pub chain : List (List ℤ) → List ℕ
  chain [] = []
  chain (page ∷ earlier) = sha256 (frame (chain earlier) page [])

  -- The hashes of pages that follow others, in hex.
  unfoldable pub hash_list : List (List ℤ) → List (List ℤ) → List (List ℕ)
  hash_list earlier [] = []
  hash_list earlier (page ∷ pages) =
      digest_to_hex (chain (page ∷ earlier)) ∷ hash_list (page ∷ earlier) pages

  pub hash_list-length :
      (earlier pages : List (List ℤ)) → length (hash_list earlier pages) ≡ length pages
  unfolding hash_list
  hash_list-length earlier [] = refl
  hash_list-length earlier (page ∷ pages) = ap suc (hash_list-length (page ∷ earlier) pages)

  hash_list-get_elem? :
      (earlier pages : List (List ℤ)) (i : ℕ) {h : List ℕ}
      → get_elem? (hash_list earlier pages) i ≡ some h
      → h ≡ digest_to_hex (chain (reverse (take (suc i) pages) ++ earlier))
  unfolding hash_list
  hash_list-get_elem? earlier [] i h = cc
  hash_list-get_elem? earlier (page ∷ pages) zero h = sym (some-injective _ _ h)
  hash_list-get_elem? earlier (page ∷ pages) (suc i) h =
      hash_list-get_elem? (page ∷ earlier) pages i h
      ∙ ap (λ ps. digest_to_hex (chain ps))
          (sym (
            ap (λ ps. ps ++ earlier) (reverse-cons page (take (suc i) pages))
            ∙ append_assoc (reverse (take (suc i) pages)) (page ∷ []) earlier))

  -- The streams that the hash takes in for a prefix, whose pages are given latest first.
  unfoldable pub streams : List (List ℤ) → List (List ℕ)
  streams [] = []
  streams (page ∷ earlier) = frame (chain earlier) page [] ∷ streams earlier

  -- A stream of the one prefix and a different one of the other have the same digest.
  pub record Collision (ps qs : List (List ℤ)) : Type 0 where
    pub first : ℕ
    pub second : ℕ
    pub x : List ℕ
    pub y : List ℕ
    pub first_at : get_elem? (streams ps) first ≡ some x
    pub second_at : get_elem? (streams qs) second ≡ some y
    pub differ : x ≢ y
    pub agree : sha256 x ≡ sha256 y

module _ (sha256 : List ℕ → List ℕ) (digest : IsDigest sha256) where
  pub chain-bytes : (pages : List (List ℤ)) → AreBytes (chain sha256 pages)
  unfolding chain
  chain-bytes [] = tt
  chain-bytes (page ∷ earlier) = digest.bytes _

  chain-size : (pages : List (List ℤ)) → length (chain sha256 pages) < 2 ^ 32
  unfolding chain
  chain-size [] = omega arith
  chain-size (page ∷ earlier) = omega (arith, digest.size (frame (chain sha256 earlier) page []))

  chain-injective :
      (ps qs : List (List ℤ))
      → ArePages ps
      → ArePages qs
      → chain sha256 ps ≡ chain sha256 qs
      → (ps ≡ qs) ⊎ Collision sha256 ps qs
  unfolding chain streams
  chain-injective [] [] hp hq h = inl refl
  chain-injective [] (q ∷ qs) hp hq h =
      absurd (omega (arith, ap length h, digest.size (frame (chain sha256 qs) q [])))
  chain-injective (p ∷ ps) [] hp hq h =
      absurd (omega (arith, ap length h, digest.size (frame (chain sha256 ps) p [])))
  chain-injective (p ∷ ps) (q ∷ qs) hp hq h =
      elim (bytes-discrete (frame (chain sha256 ps) p []) (frame (chain sha256 qs) q [])) [
        | yes same ↦
            let (e, f, _) =
              frame-injective (chain sha256 ps) (chain sha256 qs) p q [] [] (fits ps p hp)
                (fits qs q hq) same in
            let rest = chain-injective ps qs hp.2 hq.2 e in
            elim rest [
              | inl g ↦ inl (cc)
              | inr c ↦ inr (record {
                first = suc c.first;
                second = suc c.second;
                x = c.x;
                y = c.y;
                first_at = c.first_at;
                second_at = c.second_at;
                differ = c.differ;
                agree = c.agree;
              })
            ]
        | no differ ↦ inr (record {
          first = 0;
          second = 0;
          x = frame (chain sha256 ps) p [];
          y = frame (chain sha256 qs) q [];
          first_at = refl;
          second_at = refl;
          differ = differ;
          agree = h;
        })
      ]
    where
      fits :
          (earlier : List (List ℤ)) (page : List ℤ)
          → ArePages (page ∷ earlier)
          → Fits (chain sha256 earlier) page []
      fits earlier page h = record {
        prior_len = chain-size earlier;
        token_count = h.0;
        tokens_i32 = h.1;
        key_count = omega arith;
        keys_len = tt;
      }

  digest_to_hex-injective :
      (a b : List ℕ) → AreBytes a → AreBytes b → digest_to_hex a ≡ digest_to_hex b → a ≡ b
  digest_to_hex-injective a b ha hb h =
      returns-injective (
        sym (hex_to_bytes-digest_to_hex a ha) ∙ ap hex_to_bytes h ∙ hex_to_bytes-digest_to_hex b hb)

  hashes_from-hash_list :
      (i : ℕ) (earlier pages : List (List ℤ))
      → hashes_from sha256 i pages (digest_to_hex (chain sha256 earlier)) []
        ≡ returns (hash_list sha256 earlier pages)
  unfolding hashes_from hash_prefix_page hash_list chain
  hashes_from-hash_list i earlier [] = refl
  hashes_from-hash_list i earlier (page ∷ pages) = rw (
    hex_to_bytes-digest_to_hex (chain sha256 earlier) (chain-bytes earlier),
    hashes_from-hash_list (suc i) (page ∷ earlier) pages,
  )

  pub compute_prefix_hashes-hash_list :
      (pages : List (List ℤ))
      → compute_prefix_hashes sha256 pages [] [] ≡ returns (hash_list sha256 [] pages)
  unfolding compute_prefix_hashes chain digest_to_hex append_hex_bytes
  compute_prefix_hashes-hash_list pages = hashes_from-hash_list 0 [] pages

  -- The chain of a request never panics, and has a hash for each page.
  pub compute_prefix_hashes-returns :
      (pages : List (List ℤ))
      → (hs : List (List ℕ)) × (compute_prefix_hashes sha256 pages [] [] ≡ returns hs)
        × (length hs ≡ length pages)
  compute_prefix_hashes-returns pages = (
    hash_list sha256 [] pages,
    compute_prefix_hashes-hash_list pages,
    hash_list-length sha256 [] pages,
  )

  hash-chain :
      (ps : List (List ℤ)) (hs : List (List ℕ)) (i : ℕ) {h : List ℕ}
      → compute_prefix_hashes sha256 ps [] [] ≡ returns hs
      → get_elem? hs i ≡ some h
      → h ≡ digest_to_hex (chain sha256 (reverse (take (suc i) ps)))
  hash-chain ps hs i run at =
      let e = returns-injective (sym (compute_prefix_hashes-hash_list ps) ∙ run) in
      hash_list-get_elem? sha256 [] ps i (ap (λ l. get_elem? l i) e ∙ at)
      ∙ ap (λ l. digest_to_hex (chain sha256 l)) (append-nil (reverse (take (suc i) ps)))

  -- Where two requests have a page hash in common, they have all pages up to there in common, or one of
  -- the streams hashed for the first request up to there and a different one of those hashed for the
  -- second have the same digest.
  pub page_hash-injective :
      (ps qs : List (List ℤ)) (hs ks : List (List ℕ)) (i j : ℕ) (h : List ℕ)
      → ArePages ps
      → ArePages qs
      → compute_prefix_hashes sha256 ps [] [] ≡ returns hs
      → compute_prefix_hashes sha256 qs [] [] ≡ returns ks
      → get_elem? hs i ≡ some h
      → get_elem? ks j ≡ some h
      → (take (suc i) ps ≡ take (suc j) qs)
        ⊎ Collision sha256 (reverse (take (suc i) ps)) (reverse (take (suc j) qs))
  page_hash-injective ps qs hs ks i j h pages_p pages_q run_p run_q at_p at_q =
      let xs = take (suc i) ps in
      let ys = take (suc j) qs in
      let e = sym (hash-chain ps hs i run_p at_p) ∙ hash-chain qs ks j run_q at_q in
      let d = digest_to_hex-injective _ _ (chain-bytes (reverse xs)) (chain-bytes (reverse ys)) e in
      let r =
        chain-injective (reverse xs) (reverse ys)
          (ArePages-reverse xs (ArePages-take (suc i) ps pages_p))
          (ArePages-reverse ys (ArePages-take (suc j) qs pages_q)) d in
      elim r [
        | inl same ↦ inl (sym (reverse-reverse xs) ∙ ap reverse same ∙ reverse-reverse ys)
        | inr c ↦ inr c
      ]
