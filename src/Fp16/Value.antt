-- ===== src/Fp16/Value.antt =====
-- What the bits of fp16.rs stand for, as magnitudes without their signs.
use Prim.Native.Nat.{ℕ, zero, suc, ◌+◌, ◌-◌, ◌*◌, ◌/◌, ◌%◌, ◌^◌}
use Prim.Native.Nat.pow
use machserve.Common.{◌<◌, ◌≡◌, refl, sym, ap, ◌∙◌, arith, ◌==◌, if◌then◌else◌, true, false}

-- The magnitude of an `f32` pattern, in units of 2 ^ -149. An infinity counts as 2 ^ 128.
unfoldable pub f32_value : ℕ → ℕ
f32_value b =
    let e = b / 8388608 % 256 in
    let m = b % 8388608 in if e == 0 then m else (8388608 + m) * 2 ^ (e - 1)

-- The magnitude of an `f16` pattern, in units of 2 ^ -24.
unfoldable pub f16_value : ℕ → ℕ
f16_value h =
    let e = h / 1024 % 32 in let m = h % 1024 in if e == 0 then m else (1024 + m) * 2 ^ (e - 1)

pub pow_add : (a b : ℕ) → 2 ^ (a + b) ≡ 2 ^ a * 2 ^ b
pow_add zero b =
    let left : 2 ^ (0 + b) ≡ 2 ^ b = ap (λ k. 2 ^ k) (omega arith) in
    let one : 2 ^ zero ≡ 1 = refl in left ∙ sym (ap (λ k. k * 2 ^ b) one ∙ omega arith)
pow_add (suc a) b =
    let shift : 2 ^ (suc a + b) ≡ 2 ^ suc (a + b) = ap (λ k. 2 ^ k) (omega arith) in
    let step : 2 ^ suc (a + b) ≡ 2 ^ (a + b) * 2 = λ i. pow.suc 2 (a + b) i in
    let one : 2 ^ suc a ≡ 2 ^ a * 2 = λ i. pow.suc 2 a i in
    let rest = pow_add a b in shift ∙ step ∙ grind (arith, one, rest)

pub f32_value_zero : (b : ℕ) → b / 8388608 % 256 ≡ 0 → f32_value b ≡ b % 8388608
unfolding f32_value
f32_value_zero b z = let t : (b / 8388608 % 256 == 0) ≡ true = ground (arith, z) in rw t refl

pub f32_value_fields :
    (e m s : ℕ)
    → 0 < e
    → e < 256
    → m < 8388608
    → f32_value (s * 2147483648 + e * 8388608 + m) ≡ (8388608 + m) * 2 ^ (e - 1)
unfolding f32_value
f32_value_fields e m s pos lt small =
    let ex : (s * 2147483648 + e * 8388608 + m) / 8388608 % 256 ≡ e = omega (arith, lt, small) in
    let ma : (s * 2147483648 + e * 8388608 + m) % 8388608 ≡ m = omega (arith, lt, small) in
    let t : (e == 0) ≡ false = ground (arith, pos) in rw ex (rw ma (rw t refl))
