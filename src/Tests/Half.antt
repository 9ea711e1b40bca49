-- ===== src/Tests/Half.antt =====
-- crates/mach-model/src/fp16.rs on single bit patterns.
use machserve.Common.{◌%◌, ◌≢◌, ◌⊎◌, ◌+◌, ◌⊎◌, ◌≢◌, ◌*◌, ◌^◌, ◌/◌, ◌≡◌, refl, arith}
use machserve.Fp16.{
  f32_to_bf16, bf16_to_f32, subnormal_f16, normal_f16, f32_to_f16, normalize, f16_to_f32,
}
use machserve.Fp16.Round.{NearestEven, f32_to_bf16-bf16_to_f32, f32_to_bf16-NearestEven}
use machserve.Fp16.Value.{f32_value, f16_value}
use machserve.Fp16.Back.{f32_to_f16-f16_to_f32}
use machserve.Fp16.Exact.{f16_to_f32_exact}

halves : Unit {0}
unfolding f32_to_bf16 bf16_to_f32 subnormal_f16 normal_f16 f32_to_f16 normalize f16_to_f32
halves = tt

-- One.
one_back : f32_to_f16 (f16_to_f32 15360) ≡ 15360
unfolding halves
one_back = refl

-- The least subnormal, and the greatest finite value.
least_back : f32_to_f16 (f16_to_f32 1) ≡ 1
unfolding halves
least_back = refl

greatest_back : f32_to_f16 (f16_to_f32 31743) ≡ 31743
unfolding halves
greatest_back = refl

-- A NaN whose payload stands in the low bits is rounded to an infinity, or to minus zero.
nan_to_infinity : f32_to_bf16 2139095041 ≡ 32640
unfolding halves
nan_to_infinity = refl

nan_to_minus_zero : f32_to_bf16 2147483647 ≡ 32768
unfolding halves
nan_to_minus_zero = refl

f32_to_bf16-bf16_to_f32_example : f32_to_bf16 (bf16_to_f32 16256) ≡ 16256
f32_to_bf16-bf16_to_f32_example = f32_to_bf16-bf16_to_f32 16256 (omega arith)

-- Half way between two bf16, one even and one odd; the largest finite value goes to the infinity.
half_way_down : f32_to_bf16 1065385984 ≡ 16256
unfolding halves
half_way_down = refl

half_way_up : f32_to_bf16 1065451520 ≡ 16258
unfolding halves
half_way_up = refl

largest_to_infinity : f32_to_bf16 2139095039 ≡ 32640
unfolding halves
largest_to_infinity = refl

f32_to_bf16-NearestEven_example : NearestEven 1065385984 (f32_to_bf16 1065385984)
f32_to_bf16-NearestEven_example = f32_to_bf16-NearestEven 1065385984 (omega arith) (omega arith)

-- The least subnormal.
f16_to_f32_exact_example :
    (f32_value (f16_to_f32 1) ≡ f16_value 1 * 2 ^ 125) × (f16_to_f32 1 / 2147483648 ≡ 0)
f16_to_f32_exact_example = f16_to_f32_exact 1 (omega arith) (omega arith)

f32_to_f16-f16_to_f32_example :
    (((1 / 1024 % 32 ≢ 31) ⊎ (1 % 1024 ≡ 0)) × (f32_to_f16 (f16_to_f32 1) ≡ 1))
    ⊎ ((1 / 1024 % 32 ≡ 31)
        × (1 % 1024 ≢ 0)
        × (f32_to_f16 (f16_to_f32 1) ≡ 1 / 32768 * 32768 + 32256))
f32_to_f16-f16_to_f32_example = f32_to_f16-f16_to_f32 1 (omega arith)
