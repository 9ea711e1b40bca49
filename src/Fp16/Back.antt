-- ===== src/Fp16/Back.antt =====
-- `f16_to_f32` and back by `f32_to_f16`, in fp16.rs.
use Prim.Native.Nat.{ℕ, ◌+◌, ◌-◌, ◌*◌, ◌/◌, ◌%◌, ◌^◌}
use native.Mathlib.Nat.{eq_of_mul-eq-mul_right, one-le-pow, mul-div_cancel, mul-mod_left}
use machserve.Common.{
  Bool-cases, ap, arith, false, inl, inr, refl, sym, true, ◌<◌, ◌==◌, ◌≡◌, ◌≢◌, ◌∙◌, ◌⊎◌,
  if◌then◌else◌, ltb, leb, ◌≤◌,
}
use machserve.Fp16.{normalize, f16_to_f32, f32_to_f16, subnormal_f16, normal_f16, rounds_up}
use machserve.Fp16.Value.{pow_add}
use machserve.Fp16.Exact.{Normal, normalize-Normal}

-- Nothing is shifted out of a multiple of `2 ^ 13`.
normal_f16_whole : (sign e m : ℕ) → m < 1024 → normal_f16 sign e (m * 8192) ≡ sign + e * 1024 + m
unfolding normal_f16
normal_f16_whole sign e m lt =
    let kept : m * 8192 / 8192 ≡ m = omega arith in
    let rest : m * 8192 % 8192 ≡ 0 = omega arith in
    let no : (m + 0 == 1024) ≡ false = ground (arith, lt) in rw kept (rw rest (rw no (omega arith)))

-- The fields of a pattern.
f32_to_f16_normal :
    (s e m : ℕ)
    → s < 2
    → 0 < e
    → e < 31
    → m < 1024
    → f32_to_f16 (s * 2147483648 + (e + 112) * 8388608 + m * 8192) ≡ s * 32768 + e * 1024 + m
unfolding f32_to_f16
f32_to_f16_normal s e m ls pos le lm =
    let b = s * 2147483648 + (e + 112) * 8388608 + m * 8192 in
    let sign : b / 2147483648 % 2 ≡ s = omega (arith, ls, le, lm) in
    let exp : b / 8388608 % 256 ≡ e + 112 = omega (arith, le, lm) in
    let mant : b % 8388608 ≡ m * 8192 = omega (arith, lm) in
    let a : (e + 112 == 255) ≡ false = ground (arith, le) in
    let c : leb 143 (e + 112) ≡ false = ground (arith, le) in
    let d : leb (e + 112) 112 ≡ false = ground (arith, pos) in
    let back : e + 112 - 112 ≡ e = omega arith in
    rw (sign, exp, mant) (rw a (rw c (rw d (rw back (normal_f16_whole (s * 32768) e m lm)))))

f32_to_f16_special :
    (s m : ℕ)
    → s < 2
    → m < 1024
    → f32_to_f16 (s * 2147483648 + 2139095040 + m * 8192)
      ≡ s * 32768 + 31744 + (if m == 0 then 0 else 512)
unfolding f32_to_f16
f32_to_f16_special s m ls lm =
    let b = s * 2147483648 + 2139095040 + m * 8192 in
    let sign : b / 2147483648 % 2 ≡ s = omega (arith, ls, lm) in
    let exp : b / 8388608 % 256 ≡ 255 = omega (arith, lm) in
    let mant : b % 8388608 ≡ m * 8192 = omega (arith, lm) in
    let test : (m * 8192 == 0) ≡ (m == 0) = ground arith in rw (sign, exp, mant) (rw test refl)

two_pow-pos : (n : ℕ) → 0 < 2 ^ n
two_pow-pos n = let h = one-le-pow n 2 (omega arith) in omega (arith, h)

-- The mantissa that the loop returns is the given one, shifted.
shifted : (m k e : ℕ) → e ≤ 113 → k * 2 ^ e ≡ m * 2 ^ 113 → k ≡ m * 2 ^ (113 - e)
shifted m k e le same =
    let whole : 113 ≡ 113 - e + e = omega (arith, le) in
    eq_of_mul-eq-mul_right (2 ^ e) (two_pow-pos e) k (m * 2 ^ (113 - e)) (
      same
      ∙ ap (λ n. m * 2 ^ n) whole
      ∙ ap (λ n. m * n) (pow_add (113 - e) e)
      ∙ regroup m (2 ^ (113 - e)) (2 ^ e))
  where
    regroup : (a b c : ℕ) → a * (b * c) ≡ a * b * c
    regroup a b c = grind arith

-- Nothing is shifted out of a multiple of the power of two that is taken.
subnormal_f16_whole :
    (sign e mant m : ℕ)
    → 102 ≤ e
    → e ≤ 125
    → mant + 8388608 ≡ m * 2 ^ (126 - e)
    → subnormal_f16 sign e mant ≡ sign + m
unfolding subnormal_f16
subnormal_f16_whole sign e mant m low high whole =
    let test : ltb e 102 ≡ false = ground (arith, low) in
    let kept : (mant + 8388608) / 2 ^ (126 - e) ≡ m =
      ap (λ n. n / 2 ^ (126 - e)) whole ∙ mul-div_cancel m (two_pow-pos (126 - e)) in
    let rest : (mant + 8388608) % 2 ^ (126 - e) ≡ 0 =
      ap (λ n. n % 2 ^ (126 - e)) whole ∙ mul-mod_left m (2 ^ (126 - e)) in
    let half = two_pow-pos (126 - e - 1) in
    let exact : rounds_up 0 (2 ^ (126 - e - 1)) m ≡ false = ground (arith, half) in
    rw test (rw kept (rw rest (rw exact (omega arith))))

f32_to_f16_subnormal :
    (s m : ℕ) (r : ℕ × ℕ)
    → s < 2
    → m < 1024
    → Normal m 113 10 r
    → f32_to_f16 (s * 2147483648 + r.1 * 8388608 + r.0 % 1024 * 8192) ≡ s * 32768 + m
unfolding f32_to_f16
f32_to_f16_subnormal s m (k, e) ls lm n =
    let low = n.least in
    let high = n.most in
    let set_bit = n.bit_set in
    let fits = n.fits in
    let shift = shifted m k e high n.same in
    let small : e ≤ 112 = below e high shift set_bit in
    let b = s * 2147483648 + e * 8388608 + k % 1024 * 8192 in
    let sign : b / 2147483648 % 2 ≡ s = omega (arith, ls, high) in
    let exp : b / 8388608 % 256 ≡ e = omega (arith, high) in
    let mant : b % 8388608 ≡ k % 1024 * 8192 = omega arith in
    let a : (e == 255) ≡ false = ground (arith, small) in
    let c : leb 143 e ≡ false = ground (arith, small) in
    let d : leb e 112 ≡ true = ground (arith, small) in
    let whole : k % 1024 * 8192 + 8388608 ≡ k * 8192 = omega (arith, set_bit, fits) in
    let shifts : 126 - e ≡ 113 - e + 13 = omega (arith, high) in
    let scaled : k % 1024 * 8192 + 8388608 ≡ m * 2 ^ (126 - e) =
      whole
      ∙ ap (λ n. n * 8192) shift
      ∙ regroup m (2 ^ (113 - e))
      ∙ ap (λ n. m * n) (sym (pow_add (113 - e) 13))
      ∙ ap (λ n. m * 2 ^ n) (sym shifts) in
    rw (sign, exp, mant)
      (rw a (
        rw c (
          rw d (
            subnormal_f16_whole (s * 32768) e (k % 1024 * 8192) m (omega (arith, low))
              (omega (arith, high)) scaled))))
  where
    regroup : (a b : ℕ) → a * b * 8192 ≡ a * (b * 8192)
    regroup a b = grind arith

    below : (e : ℕ) → e ≤ 113 → k ≡ m * 2 ^ (113 - e) → 1024 ≤ k → e ≤ 112
    below e le shift set_bit = elim (Bool-cases (ltb e 113)) [
      | inl p ↦ ground arith
      | inr p ↦
          let none_left : 113 - e ≡ 0 = ground (arith, le) in
          let same = shift ∙ ap (λ n. m * 2 ^ n) none_left in
          absurd (omega (arith, same, set_bit, lm))
    ]

f32_to_f16_zero : (s : ℕ) → s < 2 → f32_to_f16 (s * 2147483648) ≡ s * 32768
unfolding f32_to_f16 subnormal_f16
f32_to_f16_zero s ls =
    let sign : s * 2147483648 / 2147483648 % 2 ≡ s = omega (arith, ls) in
    let exp : s * 2147483648 / 8388608 % 256 ≡ 0 = omega arith in rw (sign, exp)

-- A 16-bit pattern that is expanded and rounded again is the same, but a NaN becomes the quiet NaN of its
-- sign whose other payload bits are zero.
pub f32_to_f16-f16_to_f32 :
    (h : ℕ)
    → h < 65536
    → (((h / 1024 % 32 ≢ 31) ⊎ (h % 1024 ≡ 0)) × (f32_to_f16 (f16_to_f32 h) ≡ h))
      ⊎ ((h / 1024 % 32 ≡ 31)
          × (h % 1024 ≢ 0)
          × (f32_to_f16 (f16_to_f32 h) ≡ h / 32768 * 32768 + 32256))
unfolding f16_to_f32
f32_to_f16-f16_to_f32 h lt =
    let s = h / 32768 % 2 in
    let m = h % 1024 in
    let is_sign : s < 2 = omega arith in
    let is_mant : m < 1024 = omega arith in
    elim (Bool-cases (h / 1024 % 32 == 0)) [
      | inl p ↦
          let z : h / 1024 % 32 ≡ 0 = ground arith in
          inl (
            inl (omega (arith, z)),
            (elim (Bool-cases (m == 0)) [
              | inl q ↦
                  let none_left : m ≡ 0 = ground arith in
                  rw p (rw q (f32_to_f16_zero s is_sign ∙ omega (arith, lt, z, none_left)))
              | inr q ↦
                  let pos : 0 < m = ground arith in
                  let n =
                    normalize-Normal 10 m 113 (omega arith) (omega (arith, pos)) (omega arith) in
                  rw p (
                    rw q (
                      f32_to_f16_subnormal s m (normalize 10 m 113) is_sign is_mant n
                      ∙ omega (arith, lt, z)))
            ]),
          )
      | inr p ↦ elim (Bool-cases (h / 1024 % 32 == 31)) [
        | inr q ↦
            let pos : 0 < h / 1024 % 32 = ground arith in
            let most : h / 1024 % 32 < 31 = ground arith in
            inl (
              inl (omega (arith, most)),
              rw p (
                  rw q (
                    f32_to_f16_normal s (h / 1024 % 32) m is_sign pos most is_mant
                    ∙ omega (arith, lt))),
            )
        | inl q ↦
            let last : h / 1024 % 32 ≡ 31 = ground arith in
            let special = f32_to_f16_special s m is_sign is_mant in
            elim (Bool-cases (m == 0)) [
              | inl t ↦
                  let none_left : m ≡ 0 = ground arith in
                  inl (
                    inr none_left,
                    rw p (rw q (special ∙ rw t (omega (arith, lt, last, none_left)))),
                  )
              | inr t ↦ inr (last, (ground arith), rw p (rw q (special ∙ rw t (omega (arith, lt)))))
            ]
      ]
    ]
