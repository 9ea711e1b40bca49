-- ===== src/PrefixHasher/Frame.antt =====
-- The byte stream that prefix_cache.rs hashes for a page can be read back: two pages with one
-- stream have the same prior digest, tokens and extra keys.
use mathlib.Core.List.{append_assoc}
use machserve.Common.{ℕ, ◌%◌, ◌^◌, ◌<◌, ◌≡◌, refl, sym, ap, ◌∙◌, List, [], ◌∷◌, ◌++◌, length, arith}
use machserve.Common.Int.{ℤ, pos, negsuc, bits32}
use machserve.PrefixHasher.{u32_le, token_bytes, key_bytes, extra_block, frame}

u32_le-injective :
    (v w : ℕ) (xs ys : List ℕ)
    → v < 2 ^ 32
    → w < 2 ^ 32
    → u32_le v ++ xs ≡ u32_le w ++ ys
    → (v ≡ w) × (xs ≡ ys)
unfolding u32_le
u32_le-injective v w xs ys hv hw h = ground arith

-- Two appends with parts of one length agree part by part.
append-injective {ℓ} :
    {A : Type ℓ} (xs ys us vs : List A)
    → length xs ≡ length ys
    → xs ++ us ≡ ys ++ vs
    → (xs ≡ ys) × (us ≡ vs)
append-injective [] [] us vs l h = (refl, h)
append-injective [] (y ∷ ys) us vs l h = absurd (omega arith)
append-injective (x ∷ xs) [] us vs l h = absurd (omega arith)
append-injective (x ∷ xs) (y ∷ ys) us vs l h =
    let (e, f) = append-injective xs ys us vs (omega arith) (cc) in (cc, f)

-- An `i32` value.
abbrev pub IsI32 : ℤ → Type 0
IsI32 (pos n) = n < 2 ^ 31
IsI32 (negsuc n) = n < 2 ^ 31

abbrev pub AreI32 : List ℤ → Type 0
AreI32 [] = Unit
AreI32 (t ∷ ts) = IsI32 t × AreI32 ts

bits32-injective : (a b : ℤ) → IsI32 a → IsI32 b → bits32 a ≡ bits32 b → a ≡ b
bits32-injective (pos m) (pos n) ha hb h = ap pos (omega arith)
bits32-injective (pos m) (negsuc n) ha hb h = absurd (omega arith)
bits32-injective (negsuc m) (pos n) ha hb h = absurd (omega arith)
bits32-injective (negsuc m) (negsuc n) ha hb h = ap negsuc (omega arith)

bits32-lt : (a : ℤ) → bits32 a < 2 ^ 32
bits32-lt (pos n) = omega arith
bits32-lt (negsuc n) = omega arith

token_bytes-injective :
    (ts us : List ℤ) (xs ys : List ℕ)
    → AreI32 ts
    → AreI32 us
    → length ts ≡ length us
    → token_bytes ts ++ xs ≡ token_bytes us ++ ys
    → (ts ≡ us) × (xs ≡ ys)
unfolding token_bytes
token_bytes-injective [] [] xs ys hs hu l h = (refl, h)
token_bytes-injective [] (u ∷ us) xs ys hs hu l h = absurd (omega arith)
token_bytes-injective (t ∷ ts) [] xs ys hs hu l h = absurd (omega arith)
token_bytes-injective (t ∷ ts) (u ∷ us) xs ys hs hu l h =
    let (e, f) =
      u32_le-injective (bits32 t) (bits32 u) (token_bytes ts ++ xs) (token_bytes us ++ ys)
        (bits32-lt t) (bits32-lt u)
        (sym (append_assoc (u32_le (bits32 t)) (token_bytes ts) xs)
          ∙ h
          ∙ append_assoc (u32_le (bits32 u)) (token_bytes us) ys) in
    let (g, k) = token_bytes-injective ts us xs ys hs.1 hu.1 (omega arith) f in
    let d : t ≡ u = bits32-injective t u hs.0 hu.0 e in (cc, k)

-- Lengths that a `u32` holds.
abbrev pub AreKeys : List (List ℕ) → Type 0
AreKeys [] = Unit
AreKeys (k ∷ ks) = (length k < 2 ^ 32) × AreKeys ks

length_field-injective :
    (m n : ℕ) (xs ys : List ℕ)
    → m < 2 ^ 32
    → n < 2 ^ 32
    → u32_le (m % 2 ^ 32) ++ xs ≡ u32_le (n % 2 ^ 32) ++ ys
    → (m ≡ n) × (xs ≡ ys)
length_field-injective m n xs ys hm hn h =
    let (e, f) = u32_le-injective (m % 2 ^ 32) (n % 2 ^ 32) xs ys (omega arith) (omega arith) h in
    (omega arith, f)

key_bytes-injective :
    (ks ls : List (List ℕ))
    → AreKeys ks
    → AreKeys ls
    → length ks ≡ length ls
    → key_bytes ks ≡ key_bytes ls
    → ks ≡ ls
unfolding key_bytes
key_bytes-injective [] [] hk hl n h = refl
key_bytes-injective [] (l ∷ ls) hk hl n h = absurd (omega arith)
key_bytes-injective (k ∷ ks) [] hk hl n h = absurd (omega arith)
key_bytes-injective (k ∷ ks) (l ∷ ls) hk hl n h =
    let (e, f) =
      length_field-injective (length k) (length l) (k ++ key_bytes ks) (l ++ key_bytes ls) hk.0 hl.0
        h in
    let (d, g) = append-injective k l (key_bytes ks) (key_bytes ls) e f in
    let r = key_bytes-injective ks ls hk.1 hl.1 (omega arith) g in cc

extra_block-injective :
    (ks ls : List (List ℕ))
    → AreKeys ks
    → AreKeys ls
    → length ks < 2 ^ 32
    → length ls < 2 ^ 32
    → extra_block ks ≡ extra_block ls
    → ks ≡ ls
unfolding extra_block
extra_block-injective [] [] hk hl nk nl h = refl
extra_block-injective [] (l ∷ ls) hk hl nk nl h = unfold u32_le in cc
extra_block-injective (k ∷ ks) [] hk hl nk nl h = unfold u32_le in cc
extra_block-injective (k ∷ ks) (l ∷ ls) hk hl nk nl h =
    let (e, f) =
      length_field-injective (length (k ∷ ks)) (length (l ∷ ls)) (key_bytes (k ∷ ks))
        (key_bytes (l ∷ ls)) nk nl h in
    key_bytes-injective (k ∷ ks) (l ∷ ls) hk hl e f

-- A page whose parts have lengths that fit their fields, and tokens that are `i32` values.
pub record Fits (prior : List ℕ) (tokens : List ℤ) (keys : List (List ℕ)) : Type 0 where
  pub prior_len : length prior < 2 ^ 32
  pub token_count : length tokens < 2 ^ 32
  pub tokens_i32 : AreI32 tokens
  pub key_count : length keys < 2 ^ 32
  pub keys_len : AreKeys keys

-- The framing is unambiguous.
pub frame-injective :
    (p q : List ℕ) (ts us : List ℤ) (ks ls : List (List ℕ))
    → Fits p ts ks
    → Fits q us ls
    → frame p ts ks ≡ frame q us ls
    → (p ≡ q) × (ts ≡ us) × (ks ≡ ls)
unfolding frame
frame-injective p q ts us ks ls hp hq h =
    let (e₁, h₁) = length_field-injective (length p) (length q) _ _ hp.prior_len hq.prior_len h in
    let (e₂, h₂) = append-injective p q _ _ e₁ h₁ in
    let (e₃, h₃) =
      length_field-injective (length ts) (length us) _ _ hp.token_count hq.token_count h₂ in
    let (e₄, h₄) =
      token_bytes-injective ts us (extra_block ks) (extra_block ls) hp.tokens_i32 hq.tokens_i32 e₃
        h₃ in
    (e₂, e₄, extra_block-injective ks ls hp.keys_len hq.keys_len hp.key_count hq.key_count h₄)
