-- ===== src/Fp16/Exact.antt =====
-- `f16_to_f32` of fp16.rs is exact.
use Prim.Native.Nat.{ℕ, zero, suc, ◌+◌, ◌-◌, ◌*◌, ◌/◌, ◌%◌, ◌^◌}
use Prim.Native.Nat.pow
use machserve.Common.{
  ◌≤◌, ◌<◌, ◌≡◌, ◌≢◌, refl, sym, ap, ◌∙◌, arith, ◌==◌, false, inl, inr, Bool-cases,
}
use machserve.Fp16.{normalize, f16_to_f32}
use machserve.Fp16.Value.{f32_value, f16_value, pow_add, f32_value_fields}

-- What the loop returns: the mantissa is shifted until its bit 10 is set, and the exponent goes down with
-- each shift.
pub record Normal (m e fuel : ℕ) (r : ℕ × ℕ) : Type 0 where
  pub bit_set : 1024 ≤ r.0
  pub fits : r.0 < 2048
  pub same : r.0 * 2 ^ r.1 ≡ m * 2 ^ e
  pub most : r.1 ≤ e
  pub least : e ≤ r.1 + fuel

two_times : (e : ℕ) → 0 < e → 2 ^ e ≡ 2 ^ (e - 1) * 2
two_times e pos =
    let next : e ≡ suc (e - 1) = omega (arith, pos) in
    ap (λ k. 2 ^ k) next ∙ (λ i. pow.suc 2 (e - 1) i)

regroup : (m p : ℕ) → m * 2 * p ≡ m * (p * 2)
regroup m p = grind arith

pub normalize-Normal :
    (fuel m e : ℕ)
    → m < 2048
    → 1024 ≤ m * 2 ^ fuel
    → fuel ≤ e
    → Normal m e fuel (normalize fuel m e)
unfolding normalize
normalize-Normal zero m e lt enough le = record {
  bit_set = let one : 2 ^ zero ≡ 1 = refl in omega (arith, enough);
  fits = lt;
  same = refl;
  most = omega arith;
  least = omega arith;
}
normalize-Normal (suc fuel) m e lt enough le = elim (Bool-cases (m / 1024 % 2 == 0)) [
  | inl p ↦
      let clear : m / 1024 % 2 ≡ 0 = ground arith in
      let doubled : 2 ^ suc fuel ≡ 2 ^ fuel * 2 = λ i. pow.suc 2 fuel i in
      let whole = ap (λ k. m * k) doubled in
      let twice = two_times e (omega (arith, le)) in
      let r =
        normalize-Normal fuel (m * 2) (e - 1) (omega (arith, clear, lt))
          (ground (arith, enough, whole)) (omega (arith, le)) in
      rw p (record {
        bit_set = r.bit_set;
        fits = r.fits;
        same = r.same ∙ regroup m (2 ^ (e - 1)) ∙ ap (λ n. m * n) (sym twice);
        most = let h = r.most in omega (arith, h, le);
        least = let h = r.least in omega (arith, h, le);
      })
  | inr p ↦
      let set_bit : 0 < m / 1024 % 2 = ground arith in
      rw p (record {
        bit_set = omega (arith, set_bit, lt);
        fits = lt;
        same = refl;
        most = omega arith;
        least = omega arith;
      })
]

-- A pattern with the given sign, exponent and mantissa.
record Exact (s v bits : ℕ) : Type 0 where
  value : f32_value bits ≡ v * 2 ^ 125
  sign : bits / 2147483648 ≡ s

subnormal-Exact :
    (s m : ℕ) (r : ℕ × ℕ)
    → Normal m 113 10 r
    → Exact s m (s * 2147483648 + r.1 * 8388608 + r.0 % 1024 * 8192)
subnormal-Exact s m r n =
    let low = n.least in
    let high = n.most in
    let set_bit = n.bit_set in
    let fits = n.fits in
    let rest : r.0 % 1024 ≡ r.0 - 1024 = omega (arith, set_bit, fits) in
    let pos : 0 < r.1 = omega (arith, low) in
    let small : r.0 % 1024 * 8192 < 8388608 = omega arith in
    let shown = f32_value_fields r.1 (r.0 % 1024 * 8192) s pos (omega (arith, high)) small in
    record {
      value = shown ∙ scaled r.0 r.1 (r.0 % 1024) set_bit pos rest n.same;
      sign = omega (arith, high, small);
    }
  where
    scaled :
        (k e low : ℕ)
        → 1024 ≤ k
        → 0 < e
        → low ≡ k - 1024
        → k * 2 ^ e ≡ m * 2 ^ 113
        → (8388608 + low * 8192) * 2 ^ (e - 1) ≡ m * 2 ^ 125
    scaled k e low ge pos def same =
        let whole : 8388608 + low * 8192 ≡ k * 8192 = omega (arith, ge, def) in
        let twice : k * (2 ^ (e - 1) * 2) ≡ m * 2 ^ 113 =
          ap (λ n. k * n) (sym (two_times e pos)) ∙ same in
        ap (λ n. n * 2 ^ (e - 1)) whole ∙ grind (arith, twice)

normal-Exact :
    (s e m : ℕ)
    → 0 < e
    → e < 31
    → m < 1024
    → Exact s ((1024 + m) * 2 ^ (e - 1)) (s * 2147483648 + (e + 112) * 8388608 + m * 8192)
normal-Exact s e m pos lt small =
    let shown =
      f32_value_fields (e + 112) (m * 8192) s (omega arith) (omega (arith, lt))
        (omega (arith, small)) in
    let power = pow_add (e - 1) 112 in
    let same : e + 112 - 1 ≡ e - 1 + 112 = omega (arith, pos) in
    let whole : 8388608 + m * 8192 ≡ (1024 + m) * 8192 = omega arith in
    record {
      value =
          shown
          ∙ ap (λ k. (8388608 + m * 8192) * 2 ^ k) same
          ∙ ap (λ n. n * 2 ^ (e - 1 + 112)) whole
          ∙ ap (λ n. (1024 + m) * 8192 * n) power
          ∙ grind arith;
      sign = omega (arith, lt, small);
    }

zero-Exact : (s : ℕ) → Exact s 0 (s * 2147483648)
unfolding f32_value
zero-Exact s =
    let ex : s * 2147483648 / 8388608 % 256 ≡ 0 = omega arith in
    let ma : s * 2147483648 % 8388608 ≡ 0 = omega arith in
    record { value = rw ex ma; sign = omega arith }

-- Unless a 16-bit pattern is an infinity or a NaN, its expansion to 32 bits has the same sign and exactly
-- the same magnitude, subnormals included.
pub f16_to_f32_exact :
    (h : ℕ)
    → h < 65536
    → h / 1024 % 32 ≢ 31
    → (f32_value (f16_to_f32 h) ≡ f16_value h * 2 ^ 125) × (f16_to_f32 h / 2147483648 ≡ h / 32768)
unfolding f16_to_f32 f16_value
f16_to_f32_exact h lt finite =
    let s : h / 32768 % 2 ≡ h / 32768 = omega (arith, lt) in
    elim (Bool-cases (h / 1024 % 32 == 0)) [
      | inl p ↦ elim (Bool-cases (h % 1024 == 0)) [
        | inl q ↦
            let z : h % 1024 ≡ 0 = ground arith in
            let x = zero-Exact (h / 32768 % 2) in
            rw p (rw q (x.value ∙ sym (ap (λ k. k * 2 ^ 125) z), x.sign ∙ s))
        | inr q ↦
            let pos : 0 < h % 1024 = ground arith in
            let power : 2 ^ 10 ≡ 1024 = refl in
            let n =
              normalize-Normal 10 (h % 1024) 113 (omega arith) (omega (arith, pos)) (omega arith) in
            let x = subnormal-Exact (h / 32768 % 2) (h % 1024) (normalize 10 (h % 1024) 113) n in
            rw p (rw q (x.value, x.sign ∙ s))
      ]
      | inr p ↦
          let pos : 0 < h / 1024 % 32 = ground arith in
          let most : h / 1024 % 32 < 31 = omega (arith, finite) in
          let not_last : (h / 1024 % 32 == 31) ≡ false = ground (arith, most) in
          let x = normal-Exact (h / 32768 % 2) (h / 1024 % 32) (h % 1024) pos most (omega arith) in
          rw p (rw not_last (x.value, x.sign ∙ s))
    ]
