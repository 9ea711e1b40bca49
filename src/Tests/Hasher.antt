-- ===== src/Tests/Hasher.antt =====
-- The hash chain of crates/mach-model/src/prefix_cache.rs, with a checksum in place of SHA-256.
use mathlib.Core.List.{reverse}
use machserve.Common.{
  ℕ, ◌+◌, ◌%◌, ◌≡◌, refl, ◌⊎◌, List, [], ◌∷◌, length, replicate, take, get_or, returns, panics,
  arith,
}
use machserve.Common.Int.{ℤ, pos, negsuc}
use machserve.PrefixHasher.{
  codes, hex_to_bytes, hex_digit, digest_to_hex, append_hex_bytes, hex_chars, u32_le, token_bytes,
  extra_block, key_bytes, frame, hash_prefix_page, hashes_from, compute_prefix_hashes,
  advance_prefix_hashes,
}
use machserve.PrefixHasher.Hex.{hex_to_bytes-digest_to_hex}
use machserve.PrefixHasher.Frame.{Fits, frame-injective}
use machserve.PrefixHasher.Chain.{
  IsDigest, Collision, compute_prefix_hashes-returns, page_hash-injective,
}

abbrev sum : List ℕ → ℕ
sum [] = 0
sum (x ∷ xs) = x + sum xs

abbrev pub checksum : List ℕ → List ℕ
checksum stream = replicate 32 (sum stream % 256)

pub checksum-IsDigest : IsDigest checksum
checksum-IsDigest = record { bytes = λ stream. omega arith; size = λ stream. refl }

hashing : Unit {0}
unfolding hex_to_bytes hex_digit digest_to_hex append_hex_bytes hex_chars u32_le token_bytes
    extra_block key_bytes frame hash_prefix_page hashes_from compute_prefix_hashes
    advance_prefix_hashes
hashing = tt

hex_of_ab : digest_to_hex (0xab ∷ 0x07 ∷ []) ≡ codes "ab07"
unfolding hashing
hex_of_ab = refl

upper_case : hex_to_bytes (codes "AB07f") ≡ returns (0xab ∷ 0x07 ∷ [])
unfolding hashing
upper_case = refl

bad_digit : hex_to_bytes (codes "0g") ≡ panics
unfolding hashing
bad_digit = refl

minus_one : frame [] (negsuc 0 ∷ []) [] ≡ 0 ∷ 0 ∷ 0 ∷ 0 ∷ 1 ∷ 0 ∷ 0 ∷ 0 ∷ 255 ∷ 255 ∷ 255 ∷ 255 ∷ []
unfolding hashing
minus_one = refl

hex_to_bytes-digest_to_hex_example :
    hex_to_bytes (digest_to_hex (0xab ∷ 0x07 ∷ [])) ≡ returns (0xab ∷ 0x07 ∷ [])
hex_to_bytes-digest_to_hex_example = hex_to_bytes-digest_to_hex (0xab ∷ 0x07 ∷ []) (omega arith)

abbrev key : List ℕ
key = codes "lora"

page-Fits : Fits [] (pos 1 ∷ negsuc 0 ∷ []) (key ∷ [])
page-Fits = omega arith

frame-injective_example :
    (◌≡◌ {A = List ℕ} [] [])
    × (◌≡◌ {A = List ℤ} (pos 1 ∷ negsuc 0 ∷ []) (pos 1 ∷ negsuc 0 ∷ []))
    × (key ∷ [] ≡ key ∷ [])
frame-injective_example =
    frame-injective [] [] (pos 1 ∷ negsuc 0 ∷ []) (pos 1 ∷ negsuc 0 ∷ []) (key ∷ []) (key ∷ [])
      page-Fits page-Fits refl

abbrev pages : List (List ℤ)
pages = (pos 1 ∷ pos 2 ∷ []) ∷ (pos 3 ∷ pos 4 ∷ []) ∷ []

abbrev longer : List (List ℤ)
longer = (pos 1 ∷ pos 2 ∷ []) ∷ (pos 9 ∷ []) ∷ (pos 5 ∷ []) ∷ []

compute_prefix_hashes-returns_example :
    (hs : List (List ℕ)) × (compute_prefix_hashes checksum pages [] [] ≡ returns hs)
    × (length hs ≡ 2)
compute_prefix_hashes-returns_example =
    compute_prefix_hashes-returns checksum checksum-IsDigest pages

abbrev hashes : List (List ℤ) → List (List ℕ)
unfolding hashing
hashes ps = elim (compute_prefix_hashes checksum ps [] []) [ returns hs ↦ hs | panics ↦ [] ]

page_hash-injective_example :
    (take 1 pages ≡ take 1 longer)
    ⊎ Collision checksum (reverse (take 1 pages)) (reverse (take 1 longer))
unfolding hashing
page_hash-injective_example =
    page_hash-injective checksum checksum-IsDigest pages longer (hashes pages) (hashes longer) 0 0
      (get_or (hashes pages) 0 []) (omega arith) (omega arith) refl refl refl refl
