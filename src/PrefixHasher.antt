-- ===== src/PrefixHasher.antt =====
-- The PrefixHasher part of crates/mach-model/src/prefix_cache.rs. A string is the list of its bytes.
-- SHA-256 is a parameter: the digest of all the bytes that the context absorbed, in order.
-- The debug-only check on an odd length is left out, as in a release build.
pub mod Hex
pub mod Frame
pub mod Chain
use Prim.Native.Nat.{bit_and, bit_or}
use Prim.Native.Char.{code}
use Prim.Native.String.{String}
use machserve.Common.{
  ℕ, zero, suc, ◌+◌, ◌-◌, ◌*◌, ◌/◌, ◌%◌, ◌^◌, ◌≡◌, Bool, true, false, ◌&&◌, Option, none, some,
  List, [], ◌∷◌, ◌++◌, length, get_elem?, get_or, take, drop, leb, ltb, if◌then◌else◌, Outcome,
  returns, panics, assert, ◌>>=◌, ◌>>◌,
}
use machserve.Common.Int.{ℤ, bits32}

abbrev pub codes : String → List ℕ
codes String.[] = []
codes (String.◌∷◌ c s) = code c ∷ codes s

unfoldable pub hex_chars : List ℕ
hex_chars = codes "0123456789abcdef"

-- Appends each byte as two lowercase hex characters.
unfoldable pub append_hex_bytes : List ℕ → List ℕ → List ℕ
append_hex_bytes out [] = out
append_hex_bytes out (b ∷ bytes) =
    append_hex_bytes (out ++ get_or hex_chars (b / 16) 0 ∷ get_or hex_chars (bit_and b 0x0f) 0 ∷ [])
      bytes

unfoldable pub hex_digit : ℕ → Outcome ℕ
hex_digit c =
    if leb b'0' c && leb c b'9'
    then returns (c - b'0')
    else if leb b'a' c && leb c b'f'
    then returns (c - b'a' + 10)
    else if leb b'A' c && leb c b'F'
    then returns (c - b'A' + 10)
    else panics

-- An odd trailing digit is ignored.
unfoldable pub hex_to_bytes : List ℕ → Outcome (List ℕ)
hex_to_bytes (hi ∷ lo ∷ rest) = do
  hi' ← hex_digit hi
  lo' ← hex_digit lo
  bytes ← hex_to_bytes rest
  returns (bit_or (hi' * 16 % 256) lo' ∷ bytes)
hex_to_bytes _ = returns []

unfoldable pub digest_to_hex : List ℕ → List ℕ
digest_to_hex digest = append_hex_bytes [] digest

-- The four bytes that `sha256_update_u32_le` absorbs.
unfoldable pub u32_le : ℕ → List ℕ
u32_le v = v % 256 ∷ v / 2 ^ 8 % 256 ∷ v / 2 ^ 16 % 256 ∷ v / 2 ^ 24 % 256 ∷ []

unfoldable pub token_bytes : List ℤ → List ℕ
token_bytes [] = []
token_bytes (token ∷ tokens) = u32_le (bits32 token) ++ token_bytes tokens

unfoldable pub key_bytes : List (List ℕ) → List ℕ
key_bytes [] = []
key_bytes (key ∷ keys) = u32_le (length key % 2 ^ 32) ++ (key ++ key_bytes keys)

-- The terminal block, written if there is a key.
unfoldable pub extra_block : List (List ℕ) → List ℕ
extra_block [] = []
extra_block (key ∷ keys) = u32_le (length (key ∷ keys) % 2 ^ 32) ++ key_bytes (key ∷ keys)

-- All that the context absorbs for one page. To absorb no prior bytes is to append none.
unfoldable pub frame : List ℕ → List ℤ → List (List ℕ) → List ℕ
frame prior_bytes tokens extra_keys =
    u32_le (length prior_bytes % 2 ^ 32)
    ++ (prior_bytes
        ++ (u32_le (length tokens % 2 ^ 32) ++ (token_bytes tokens ++ extra_block extra_keys)))

module _ (sha256 : List ℕ → List ℕ) where
  unfoldable pub hash_prefix_page : List ℤ → List ℕ → List (List ℕ) → Outcome (List ℕ)
  hash_prefix_page tokens prior_hash extra_keys = do
    prior_bytes ← hex_to_bytes prior_hash
    returns (digest_to_hex (sha256 (frame prior_bytes tokens extra_keys)))

  -- The loop of `compute_prefix_hashes`, from page `i` on.
  unfoldable pub hashes_from :
      ℕ → List (List ℤ) → List ℕ → List (List (List ℕ)) → Outcome (List (List ℕ))
  hashes_from i [] current_prior extra_keys_per_page = returns []
  hashes_from i (page ∷ pages) current_prior extra_keys_per_page = do
    hash ← hash_prefix_page page current_prior (get_or extra_keys_per_page i [])
    hashes ← hashes_from (suc i) pages hash extra_keys_per_page
    returns (hash ∷ hashes)

  unfoldable pub compute_prefix_hashes :
      List (List ℤ) → List ℕ → List (List (List ℕ)) → Outcome (List (List ℕ))
  compute_prefix_hashes prefix_pages prior extra_keys_per_page =
      hashes_from 0 prefix_pages prior extra_keys_per_page

  unfoldable pub advance_prefix_hashes : List (List ℤ) → ℕ → List ℕ → ℕ → Outcome (List (List ℕ))
  advance_prefix_hashes prefix_pages first_page prior past_end_page = do
    assert (ltb first_page past_end_page)
    assert (leb past_end_page (length prefix_pages))
    compute_prefix_hashes (drop first_page (take past_end_page prefix_pages)) prior []
