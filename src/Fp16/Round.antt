-- ===== src/Fp16/Round.antt =====
-- Rounding of fp16.rs.
use Prim.Native.Nat.pow
use native.Mathlib.Decide.{ℕ_discrete as nat_discrete}
use native.Mathlib.Nat.{mul-le-mul_right, eq_of_mul-eq-mul_right, mul-lt-mul_of_pos_right}
use machserve.Common.{
  ℕ, zero, suc, ◌+◌, ◌*◌, ◌/◌, ◌%◌, ◌^◌, ◌≤◌, ◌<◌, ◌≡◌, refl, ap, inl, inr, true, false, arith,
  Bool-cases, ltb, ◌⊎◌, sym, ◌∙◌, ◌≢◌,
}
use machserve.Fp16.Value.{f32_value, f32_value_zero, f32_value_fields}
use machserve.Fp16.{rounds_up, f32_to_bf16, bf16_to_f32}

-- The value of a 16-bit bf16 pattern is rounded back to the pattern.
pub f32_to_bf16-bf16_to_f32 : (h : ℕ) → h < 65536 → f32_to_bf16 (bf16_to_f32 h) ≡ h
unfolding f32_to_bf16 bf16_to_f32
f32_to_bf16-bf16_to_f32 h lt =
    let quotient : h * 65536 / 65536 ≡ h = omega arith in
    let remainder : h * 65536 % 65536 ≡ 0 = omega arith in rw (quotient, remainder) refl

-- The magnitude with exponent `e` and mantissa `x`, in units of 2 ^ -149; `x` may be one beyond the last.
abbrev level : ℕ → ℕ → ℕ
level zero x = x
level (suc e) x = (8388608 + x) * 2 ^ e

-- What one unit of the mantissa counts.
abbrev unit : ℕ → ℕ
unit zero = 1
unit (suc e) = 2 ^ e

unit-pos : (e : ℕ) → 0 < unit e
unit-pos zero = omega arith
unit-pos (suc zero) = let one : 2 ^ zero ≡ 1 = refl in omega (arith, one)
unit-pos (suc (suc e)) =
    let twice : 2 ^ suc e ≡ 2 ^ e * 2 = λ i. pow.suc 2 e i in
    let before = unit-pos (suc e) in omega (arith, twice, before)

level_linear : (e x r : ℕ) → level e (x + r) ≡ level e x + r * unit e
level_linear zero x r = omega arith
level_linear (suc e) x r = grind arith

level_carry : (e : ℕ) → level e 8388608 ≡ level (suc e) 0
level_carry zero = let one : 2 ^ zero ≡ 1 = refl in omega (arith, one)
level_carry (suc e) = let twice : 2 ^ suc e ≡ 2 ^ e * 2 = λ i. pow.suc 2 e i in omega (arith, twice)

f32_value-level_below :
    (s e x : ℕ) → e < 256 → x < 8388608 → f32_value (s * 2147483648 + e * 8388608 + x) ≡ level e x
f32_value-level_below s zero x lt small =
    f32_value_zero (s * 2147483648 + 0 * 8388608 + x) (omega (arith, small)) ∙ omega (arith, small)
f32_value-level_below s (suc e) x lt small =
    f32_value_fields (suc e) x s (omega arith) lt small
    ∙ ap (λ k. (8388608 + x) * 2 ^ k) (omega arith)

f32_value-level :
    (s e x b : ℕ)
    → e < 255
    → x ≤ 8388608
    → b ≡ s * 2147483648 + e * 8388608 + x
    → f32_value b ≡ level e x
f32_value-level s e x b lt most same = elim (Bool-cases (ltb x 8388608)) [
  | inl p ↦ ap f32_value same ∙ f32_value-level_below s e x (omega (arith, lt)) (ground (arith, p))
  | inr p ↦
      let full : x ≡ 8388608 = ground (arith, p, most) in
      let next : b ≡ s * 2147483648 + suc e * 8388608 + 0 = omega (arith, same, full) in
      ap f32_value next
      ∙ f32_value-level_below s (suc e) 0 (omega (arith, lt)) (omega arith)
      ∙ sym (level_carry e)
      ∙ ap (level e) (sym full)
]

-- `d` is the bf16 of the two next to `b` that is not farther from it, and the even one where both are as
-- far; it has the sign of `b`.
pub record NearestEven (b d : ℕ) : Type 0 where
  pub below : f32_value (bf16_to_f32 (b / 65536)) ≤ f32_value b
  pub above : f32_value b < f32_value (bf16_to_f32 (b / 65536 + 1))
  pub nearer :
      ((d ≡ b / 65536)
        × (2 * f32_value b
            ≤ f32_value (bf16_to_f32 (b / 65536)) + f32_value (bf16_to_f32 (b / 65536 + 1))))
      ⊎ ((d ≡ b / 65536 + 1)
          × (f32_value (bf16_to_f32 (b / 65536)) + f32_value (bf16_to_f32 (b / 65536 + 1))
              ≤ 2 * f32_value b))
  pub tie :
      (2 * f32_value b
        ≢ f32_value (bf16_to_f32 (b / 65536)) + f32_value (bf16_to_f32 (b / 65536 + 1)))
      ⊎ (d % 2 ≡ 0)
  pub sign : d / 32768 ≡ b / 2147483648

-- The same for magnitudes `low + r * u` between `low` and `low + 65536 * u`.
module _ (low u r : ℕ) (pos : 0 < u) where
  half_down : r ≤ 32768 → 2 * (low + r * u) ≤ low + (low + 65536 * u)
  half_down le = let h = mul-le-mul_right u le in omega (arith, h)

  half_up : 32768 ≤ r → low + (low + 65536 * u) ≤ 2 * (low + r * u)
  half_up le = let h = mul-le-mul_right u le in omega (arith, h)

  half_way : 2 * (low + r * u) ≡ low + (low + 65536 * u) → r ≡ 32768
  half_way e = eq_of_mul-eq-mul_right u pos r 32768 (omega (arith, e))

  not_above : r < 65536 → low + r * u < low + 65536 * u
  not_above lt = let h = mul-lt-mul_of_pos_right lt pos in omega (arith, h)

-- The magnitudes of a finite pattern and of the bf16 next to it.
record Between (b low u : ℕ) : Type 0 where
  pos : 0 < u
  here : f32_value b ≡ low + b % 65536 * u
  before : f32_value (bf16_to_f32 (b / 65536)) ≡ low
  after : f32_value (bf16_to_f32 (b / 65536 + 1)) ≡ low + 65536 * u

finite-Between :
    (b : ℕ) → b < 4294967296 → b / 8388608 % 256 ≢ 255 → (low : ℕ) × (u : ℕ) × Between b low u
unfolding bf16_to_f32
finite-Between b lt finite =
    let s = b / 2147483648 in
    let e = b / 8388608 % 256 in
    let x = b / 65536 % 128 * 65536 in
    let r = b % 65536 in
    let fits : e < 255 = omega (arith, finite) in
    (
      level e x,
      unit e,
      record {
        pos = unit-pos e;
        here = f32_value-level s e (x + r) b fits (omega arith) (omega arith) ∙ level_linear e x r;
        before = f32_value-level s e x (b / 65536 * 65536) fits (omega arith) (omega arith);
        after =
            f32_value-level s e (x + 65536) ((b / 65536 + 1) * 65536) fits (omega arith)
              (omega arith)
            ∙ level_linear e x 65536;
      },
    )

-- A finite `f32` is rounded to the nearest bf16 of its sign, and to the even one half way; beyond the last
-- finite bf16 the next is the infinity, which counts as 2 ^ 128.
pub f32_to_bf16-NearestEven :
    (b : ℕ) → b < 4294967296 → b / 8388608 % 256 ≢ 255 → NearestEven b (f32_to_bf16 b)
unfolding f32_to_bf16
f32_to_bf16-NearestEven b lt finite =
    let (low, u, z) = finite-Between b lt finite in
    let pos = z.pos in
    let here = z.here in
    let before = z.before in
    let after = z.after in
    let inside = not_above low u (b % 65536) pos (omega arith) in
    let bound : f32_value (bf16_to_f32 (b / 65536)) ≤ f32_value b = omega (arith, here, before) in
    let under : f32_value b < f32_value (bf16_to_f32 (b / 65536 + 1)) =
      omega (arith, here, after, inside) in
    let half : 2 * f32_value b
          ≡ f32_value (bf16_to_f32 (b / 65536)) + f32_value (bf16_to_f32 (b / 65536 + 1))
        → b % 65536 ≡ 32768 =
      λ t. half_way low u (b % 65536) pos (omega (arith, t, here, before, after)) in
    let small : (b / 65536 + 1) % 65536 ≡ b / 65536 + 1 = omega (arith, lt, finite) in
    elim (Bool-cases (rounds_up (b % 65536) 32768 (b / 65536))) [
      | inl up ↦
          let least = up_bound (b % 65536) (b / 65536) up in
          let far = half_up low u (b % 65536) pos least in
          rw up (
            rw small (record {
              below = bound;
              above = under;
              nearer = inr (refl, omega (arith, far, here, before, after));
              tie = elim (nat_discrete (b % 65536) 32768) [
                | yes e ↦ inr (up_even (b % 65536) (b / 65536) up e)
                | no ne ↦ inl (λ t. ne (half t))
              ];
              sign = omega (arith, lt, finite);
            }))
      | inr down ↦
          let most = down_bound (b % 65536) (b / 65536) down in
          let far = half_down low u (b % 65536) pos most in
          rw down (record {
            below = bound;
            above = under;
            nearer = inl (refl, omega (arith, far, here, before, after));
            tie = elim (nat_discrete (b % 65536) 32768) [
              | yes e ↦ inr (down_even (b % 65536) (b / 65536) down e)
              | no ne ↦ inl (λ t. ne (half t))
            ];
            sign = omega (arith, lt, finite);
          })
    ]
  where
    up_bound : (r k : ℕ) → rounds_up r 32768 k ≡ true → 32768 ≤ r
    up_bound r k h = ground arith

    down_bound : (r k : ℕ) → rounds_up r 32768 k ≡ false → r ≤ 32768
    down_bound r k h = ground arith

    up_even : (r k : ℕ) → rounds_up r 32768 k ≡ true → r ≡ 32768 → (k + 1) % 2 ≡ 0
    up_even r k h e = ground arith

    down_even : (r k : ℕ) → rounds_up r 32768 k ≡ false → r ≡ 32768 → k % 2 ≡ 0
    down_even r k h e = ground arith
