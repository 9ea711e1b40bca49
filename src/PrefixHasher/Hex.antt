-- ===== src/PrefixHasher/Hex.antt =====
-- Hex digests in prefix_cache.rs decode to the bytes that they encode.
use Prim.Native.Nat.{bit_and, bit_or}
use mathlib.Core.List.{append_assoc, append-nil}
use machserve.Common.{
  ℕ, zero, suc, ◌*◌, ◌/◌, ◌%◌, ◌<◌, ◌≤◌, ◌≡◌, ℕ_discrete, if◌then◌else◌, refl, sym, ap, ◌∙◌, Bool,
  true, false, arith, List, [], ◌∷◌, ◌++◌, get_or, ◌==◌, ==_iff, Outcome, returns, panics, ◌>>=◌,
  arith,
}
use machserve.PrefixHasher.{hex_chars, append_hex_bytes, hex_digit, hex_to_bytes, digest_to_hex}

-- A test that each byte up to `n` passes.
passes : (ℕ → Bool) → ℕ → Bool
passes test zero = test zero
passes test (suc n) = if test (suc n) then passes test n else false

passes-byte : (test : ℕ → Bool) (n b : ℕ) → passes test n ≡ true → b ≤ n → test b ≡ true
unfolding passes
passes-byte test zero b ok le = let e : b ≡ 0 = omega arith in rw e ok
passes-byte test (suc n) b ok le = elim (ℕ_discrete b (suc n)) [
  | yes e ↦ rw e (ground arith)
  | no ne ↦ passes-byte test n b (ground arith) (omega arith)
]

abbrev pub AreBytes : List ℕ → Type 0
AreBytes [] = Unit
AreBytes (b ∷ bs) = (b < 256) × AreBytes bs

abbrev hi_char : ℕ → ℕ
hi_char b = get_or hex_chars (b / 16) 0

abbrev lo_char : ℕ → ℕ
lo_char b = get_or hex_chars (bit_and b 0x0f) 0

-- One byte from two characters.
pair_value : ℕ → ℕ → Outcome ℕ
pair_value hi lo = do hi' ← hex_digit hi; lo' ← hex_digit lo; returns (bit_or (hi' * 16 % 256) lo')

value_or_256 : Outcome ℕ → ℕ
value_or_256 (returns v) = v
value_or_256 panics = 256

value_or_256-byte : (m : Outcome ℕ) (v : ℕ) → v < 256 → value_or_256 m ≡ v → m ≡ returns v
unfolding value_or_256
value_or_256-byte (returns w) v lt h = ap returns h
value_or_256-byte panics v lt h = absurd (omega arith)

pair_table : passes (λ b. value_or_256 (pair_value (hi_char b) (lo_char b)) == b) 255 ≡ true
unfolding passes value_or_256 pair_value hex_digit hex_chars
pair_table = refl

pair_value-byte : (b : ℕ) → b < 256 → pair_value (hi_char b) (lo_char b) ≡ returns b
pair_value-byte b lt =
    value_or_256-byte _ b lt ((==_iff _ b).0 (passes-byte _ 255 b pair_table (omega arith)))

-- The characters of a digest, as a plain recursion.
hex_of : List ℕ → List ℕ
hex_of [] = []
hex_of (b ∷ bs) = hi_char b ∷ lo_char b ∷ hex_of bs

append_hex_bytes-hex_of : (out bs : List ℕ) → append_hex_bytes out bs ≡ out ++ hex_of bs
unfolding append_hex_bytes hex_of
append_hex_bytes-hex_of out [] = sym (append-nil out)
append_hex_bytes-hex_of out (b ∷ bs) =
    append_hex_bytes-hex_of (out ++ hi_char b ∷ lo_char b ∷ []) bs
    ∙ append_assoc out (hi_char b ∷ lo_char b ∷ []) (hex_of bs)

hex_to_bytes-pair :
    (hi lo v : ℕ) (rest : List ℕ)
    → pair_value hi lo ≡ returns v
    → hex_to_bytes (hi ∷ lo ∷ rest) ≡ (hex_to_bytes rest >>= λ bytes. returns (v ∷ bytes))
unfolding hex_to_bytes pair_value
hex_to_bytes-pair hi lo v rest h = ground arith

hex_to_bytes-hex_of : (bs : List ℕ) → AreBytes bs → hex_to_bytes (hex_of bs) ≡ returns bs
unfolding hex_of
hex_to_bytes-hex_of [] bytes = unfold hex_to_bytes in refl
hex_to_bytes-hex_of (b ∷ bs) bytes = rw (
  hex_to_bytes-pair (hi_char b) (lo_char b) b (hex_of bs) (pair_value-byte b bytes.0),
  hex_to_bytes-hex_of bs bytes.1,
)

-- Every digest decodes to the bytes that it was made from.
pub hex_to_bytes-digest_to_hex :
    (digest : List ℕ) → AreBytes digest → hex_to_bytes (digest_to_hex digest) ≡ returns digest
unfolding digest_to_hex
hex_to_bytes-digest_to_hex digest bytes =
    ap hex_to_bytes (append_hex_bytes-hex_of [] digest) ∙ hex_to_bytes-hex_of digest bytes
